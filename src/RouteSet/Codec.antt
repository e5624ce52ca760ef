-- ===== src/RouteSet/Codec.antt =====
-- The RouteSetV1 codec of core/src/outeset.ts: what is encoded, and that it is decoded again.
use decentralized_dns.Prelude.{
  ℕ, ◌≤◌, ◌≡◌, refl, ap, ◌∙◌, Bool, true, Option, some, none, List, [], ◌∷◌, ◌++◌, length, arith,
  >>=-eq-ok, text_eq_refl, ok, ◌>>=◌, pos, nat, wrap, append_assoc, le→leb, ==_iff, take_all,
  if◌then◌else◌,
}
use decentralized_dns.Prelude.All.{All}
use decentralized_dns.Bytes.{Bytes, le, u16le, u32le, u64le, concat_bytes}
use decentralized_dns.Bytes.Words.{wrap-lt}
use decentralized_dns.Bytes.Parts.{concat_bytes-front, concat_bytes-end}
use decentralized_dns.Bytes.Cursor.{encode_all, next_le-le, next_slice-append, repeat-encode_all}
use decentralized_dns.Wire.{in_range, value}
use decentralized_dns.RouteSet.{
  RecordV1, RouteSetV1, routeset_magic, encode_record, encode_records, encode_routeset,
  decode_record, decode_routeset, sort_records_canonical, sig_ok, sig_bytes, trailing_sig,
}

-- A record whose fields have their widths.
pub record Fits (r : RecordV1) : Type 0 where
  pub rr_type_is : r.rr_type ≡ nat (value r.rr_type)
  pub rr_class_is : r.rr_class ≡ nat (value r.rr_class)
  pub ttl_is : r.ttl ≡ nat (value r.ttl)
  pub rr_type_le : value r.rr_type ≤ 0xffff
  pub rr_class_le : value r.rr_class ≤ 0xffff
  pub ttl_le : value r.ttl ≤ 0xffffffff
  pub rdata_le : length r.rdata ≤ 0xffff

pub record_bytes : RecordV1 → Bytes
record_bytes r = concat_bytes (
    le 2 (value r.rr_type)
    ∷ le 2 (value r.rr_class)
    ∷ le 4 (value r.ttl)
    ∷ le 2 (length r.rdata)
    ∷ r.rdata
    ∷ [])

encode_record-fields :
    (r : RecordV1) (b : Bytes)
    → encode_record r ≡ ok b
    → (t : ℕ) × (c : ℕ) × (l : ℕ) × (r.rr_type ≡ nat t)
      × (r.rr_class ≡ nat c)
      × (r.ttl ≡ nat l)
      × (t ≤ 0xffff)
      × (c ≤ 0xffff)
      × (l ≤ 0xffffffff)
      × (length r.rdata ≤ 0xffff)
      × (b ≡ concat_bytes (le 2 t ∷ le 2 c ∷ le 4 l ∷ le 2 (length r.rdata) ∷ r.rdata ∷ []))
unfolding encode_record in_range u16le u32le
encode_record-fields r b e = ground arith

encode_record-eq-ok :
    (r : RecordV1) (b : Bytes) → encode_record r ≡ ok b → Fits r × (b ≡ record_bytes r)
unfolding record_bytes
encode_record-eq-ok r b e =
    let (t, c, l, is_t, is_c, is_l, small_t, small_c, small_l, small, same) =
      encode_record-fields r b e in
    let same_t : value r.rr_type ≡ t = ap value is_t in
    let same_c : value r.rr_class ≡ c = ap value is_c in
    let same_l : value r.ttl ≡ l = ap value is_l in
    (
      record {
        rr_type_is = cc;
        rr_class_is = cc;
        ttl_is = cc;
        rr_type_le = omega arith;
        rr_class_le = omega arith;
        ttl_le = omega arith;
        rdata_le = small;
      },
      rw (same_t, same_c, same_l) same,
    )

pub encode_records-eq-ok :
    (rs : List RecordV1) (b : Bytes)
    → encode_records rs ≡ ok b
    → All Fits rs × (b ≡ encode_all record_bytes rs)
unfolding encode_records encode_all
encode_records-eq-ok [] b e = (tt, cc)
encode_records-eq-ok (r ∷ rs) b e =
    let (one, e1, e2) =
      >>=-eq-ok (encode_record r) (λ one. encode_records rs >>= λ more. ok (one ++ more)) e in
    let (more, e3, e4) = >>=-eq-ok (encode_records rs) (λ more. ok (one ++ more)) e2 in
    let (fit, laid) = encode_record-eq-ok r one e1 in
    let (fits, laid') = encode_records-eq-ok rs more e3 in ((fit, fits), cc (e4, laid, laid'))

decode_record-record_bytes :
    (r : RecordV1) (rest : Bytes) → Fits r → decode_record (record_bytes r ++ rest) ≡ ok (r, rest)
unfolding decode_record record_bytes
decode_record-record_bytes r rest h =
    rw
      (
        concat_bytes-front (le 2 (value r.rr_type)) _ rest,
        next_le-le 2 (value r.rr_type) _ (omega (arith, h.rr_type_le)),
        concat_bytes-front (le 2 (value r.rr_class)) _ rest,
        next_le-le 2 (value r.rr_class) _ (omega (arith, h.rr_class_le)),
        concat_bytes-front (le 4 (value r.ttl)) _ rest,
        next_le-le 4 (value r.ttl) _ (omega (arith, h.ttl_le)),
        concat_bytes-front (le 2 (length r.rdata)) _ rest,
        next_le-le 2 (length r.rdata) _ (omega (arith, h.rdata_le)),
        concat_bytes-front r.rdata [] rest,
        next_slice-append (length r.rdata) r.rdata _ refl,
        concat_bytes-end rest,
      )
      (cc (h.rr_type_is, h.rr_class_is, h.ttl_is))

-- The records in the order in which they are written.
abbrev pub written : Bool → RouteSetV1 → List RecordV1
written canonicalize rs = if canonicalize then sort_records_canonical rs.records else rs.records

abbrev header_parts : ℕ → RouteSetV1 → ℕ → List Bytes
header_parts n rs count =
    routeset_magic
    ∷ (1 ∷ [])
    ∷ le 4 n
    ∷ rs.name_id
    ∷ le 8 (wrap 64 rs.seq)
    ∷ le 8 (wrap 64 rs.exp)
    ∷ le 4 count
    ∷ []

-- What holds of a route set that is encoded, and the bytes that it is encoded to.
pub record Encoded (rs : RouteSetV1) (recs : List RecordV1) (n : ℕ) (bs : Bytes) : Type 0 where
  pub name_id_32 : length rs.name_id ≡ 32
  pub owner_pub_32 : length rs.owner_pub ≡ 32
  pub ns_id_is : rs.ns_id ≡ nat n
  pub ns_id_le : n ≤ 0xffffffff
  pub sig_64 : sig_ok rs.sig ≡ true
  pub records_fit : All Fits recs
  pub laid_out :
      bs
      ≡ (concat_bytes (header_parts n rs (length recs))
          ++ (encode_all record_bytes recs ++ rs.owner_pub))
        ++ sig_bytes rs.sig

encode_routeset-fields :
    (rs : RouteSetV1) (c : Bool) (bs : Bytes)
    → encode_routeset rs c ≡ ok bs
    → (n : ℕ) × (parts : Bytes) × (length rs.name_id ≡ 32)
      × (length rs.owner_pub ≡ 32)
      × (rs.ns_id ≡ nat n)
      × (n ≤ 0xffffffff)
      × (sig_ok rs.sig ≡ true)
      × (encode_records (written c rs) ≡ ok parts)
      × (bs
          ≡ (concat_bytes (header_parts n rs (length (written c rs))) ++ (parts ++ rs.owner_pub))
            ++ sig_bytes rs.sig)
unfolding encode_routeset in_range u32le u64le
encode_routeset-fields rs c bs e = ground arith

pub encode_routeset-Encoded :
    (rs : RouteSetV1) (c : Bool) (bs : Bytes)
    → encode_routeset rs c ≡ ok bs
    → (n : ℕ) × Encoded rs (written c rs) n bs
encode_routeset-Encoded rs c bs e =
    let (n, parts, name32, owner32, is_n, small, sig64, recs, laid) =
      encode_routeset-fields rs c bs e in
    let (fits, same) = encode_records-eq-ok (written c rs) parts recs in
    (
      n,
      record {
        name_id_32 = name32;
        owner_pub_32 = owner32;
        ns_id_is = is_n;
        ns_id_le = small;
        sig_64 = sig64;
        records_fit = fits;
        laid_out = cc (laid, same);
      },
    )

pub trailing_sig-sig_bytes :
    (sig : Option Bytes) → sig_ok sig ≡ true → trailing_sig (sig_bytes sig) ≡ sig
trailing_sig-sig_bytes none h = refl
trailing_sig-sig_bytes (some sig) h =
    let long : length sig ≡ 64 = (==_iff (length sig) 64).0 h in
    rw (le→leb 64 (length sig) (omega arith)) (ap some (take_all 64 sig (omega arith)))

-- The route set as the receiver sees it: the records as written, the 64-bit fields wrapped.
abbrev pub received : RouteSetV1 → List RecordV1 → RouteSetV1
received rs recs = record rs {
  seq = pos (wrap 64 rs.seq);
  exp = pos (wrap 64 rs.exp);
  records = recs;
}

module _ (rs : RouteSetV1) (recs : List RecordV1) (n : ℕ) (bs : Bytes) (x : Encoded rs recs n bs)
    (few : length recs ≤ 0xffffffff) where
  pub decode_routeset-Encoded : decode_routeset bs ≡ ok (received rs recs)
  unfolding decode_routeset
  decode_routeset-Encoded =
      let H = header_parts n rs (length recs) in
      let R = encode_all record_bytes recs in
      let S = sig_bytes rs.sig in
      let rest = R ++ (rs.owner_pub ++ S) in
      let whole : bs ≡ concat_bytes H ++ rest =
        x.laid_out
        ∙ append_assoc (concat_bytes H) (R ++ rs.owner_pub) S
        ∙ ap (λ t. concat_bytes H ++ t) (append_assoc R rs.owner_pub S) in
      rw
        (
          whole,
          concat_bytes-front routeset_magic _ rest,
          next_slice-append 4 routeset_magic _ (unfold routeset_magic in refl),
          text_eq_refl routeset_magic,
          concat_bytes-front (1 ∷ []) _ rest,
          concat_bytes-front (le 4 n) _ rest,
          next_le-le 4 n _ (omega (arith, x.ns_id_le)),
          concat_bytes-front rs.name_id _ rest,
          next_slice-append 32 rs.name_id _ x.name_id_32,
          concat_bytes-front (le 8 (wrap 64 rs.seq)) _ rest,
          next_le-le 8 (wrap 64 rs.seq) _ (wrap-lt rs.seq),
          concat_bytes-front (le 8 (wrap 64 rs.exp)) _ rest,
          next_le-le 8 (wrap 64 rs.exp) _ (wrap-lt rs.exp),
          concat_bytes-front (le 4 (length recs)) _ rest,
          next_le-le 4 (length recs) _ (omega arith),
          concat_bytes-end rest,
          repeat-encode_all record_bytes decode_record Fits decode_record-record_bytes recs
              (rs.owner_pub ++ S) x.records_fit,
          next_slice-append 32 rs.owner_pub S x.owner_pub_32,
        )
        (cc (trailing_sig-sig_bytes rs.sig x.sig_64, x.ns_id_is))

-- Whatever `encodeRouteSetV1` returns, canonical or not, signed or not, is decoded to the route
-- set with its records in the order written and its two 64-bit fields modulo 2 ^ 64. (A JavaScript
-- array has at most 2 ^ 32 - 1 elements.)
pub decode_routeset-encode_routeset :
    (rs : RouteSetV1) (canonicalize : Bool) (bs : Bytes)
    → encode_routeset rs canonicalize ≡ ok bs
    → length (written canonicalize rs) ≤ 0xffffffff
    → decode_routeset bs ≡ ok (received rs (written canonicalize rs))
decode_routeset-encode_routeset rs c bs e few =
    let (n, x) = encode_routeset-Encoded rs c bs e in
    decode_routeset-Encoded rs (written c rs) n bs x few

encode_record_of_Fits : (r : RecordV1) → Fits r → encode_record r ≡ ok (record_bytes r)
unfolding encode_record record_bytes in_range u16le u32le
encode_record_of_Fits r h = rw (
  h.rr_type_is,
  h.rr_class_is,
  h.ttl_is,
  le→leb _ _ h.rr_type_le,
  le→leb _ _ h.rr_class_le,
  le→leb _ _ h.ttl_le,
  le→leb _ _ h.rdata_le,
)

encode_records_of_Fits :
    (rs : List RecordV1) → All Fits rs → encode_records rs ≡ ok (encode_all record_bytes rs)
unfolding encode_records encode_all
encode_records_of_Fits [] h = refl
encode_records_of_Fits (r ∷ rs) (p, h) = rw (encode_record_of_Fits r p, encode_records_of_Fits rs h)

-- A route set that meets the encoder's conditions is encoded, to the bytes of `Encoded`.
pub encode_routeset_of_Encoded :
    (rs : RouteSetV1) (c : Bool) (n : ℕ) (bs : Bytes)
    → Encoded rs (written c rs) n bs
    → encode_routeset rs c ≡ ok bs
unfolding encode_routeset in_range u32le u64le
encode_routeset_of_Encoded rs c n bs x =
    rw
      (
        x.name_id_32,
        x.owner_pub_32,
        x.ns_id_is,
        le→leb n 0xffffffff x.ns_id_le,
        x.sig_64,
        encode_records_of_Fits (written c rs) x.records_fit,
      )
      (cc x.laid_out)

-- ===== src/Wire/Header.antt =====
-- The header codec of core/src/wire.ts: which headers are encoded, and both round trips.
use decentralized_dns.Prelude.{
  ℕ, zero, suc, ◌∙◌, subst, ◌+◌, ◌≤◌, ◌≡◌, refl, ap, ◌↔◌, some, true, false, [], ◌∷◌, ◌++◌, length,
  take, drop, arith, Result, ok, err, ◌>>=◌, require, require-eq-ok, String, Number, int, other,
  pos, negsuc, nat, leb, leb→le, ◌==◌, ◌>>◌, text_eq, text_eq_iff, le→leb, Bool-cases, inl, inr,
}
use decentralized_dns.Bytes.{byte_at, of_le, Bytes, IsBytes, le}
use decentralized_dns.Bytes.Words.{read_le-of_take, read_le_within, le-of_le_word, of_le_word-lt}
use decentralized_dns.Wire.{
  WireHeader, is_nat, in_range, header_bytes, encode_header, decode_header, wire_magic,
}

pub in_range-eq-ok :
    (hi : ℕ) (x : Number) (m : String) (n : ℕ) → in_range hi x m ≡ ok n → (x ≡ nat n) × (n ≤ hi)
unfolding in_range
in_range-eq-ok hi (int (pos k)) m n h = ground arith
in_range-eq-ok hi (int (negsuc k)) m n h = cc
in_range-eq-ok hi (other z) m n h = cc

pub in_range-nat : (hi n : ℕ) (m : String) → n ≤ hi → in_range hi (nat n) m ≡ ok n
unfolding in_range
in_range-nat hi n m h = ground arith

is_nat-eq : (k : ℕ) (x : Number) → is_nat k x ≡ true → x ≡ nat k
unfolding is_nat
is_nat-eq k (int (pos n)) h = ground arith
is_nat-eq k (int (negsuc n)) h = cc
is_nat-eq k (other z) h = cc

-- A chain of a test and five checked numbers that returned passed each of them.
checks-eq-ok {ℓ} :
    {A : Type ℓ} (u : Result (Unit {0})) (rm rf rr rn rl : Result ℕ) (g : ℕ → ℕ → ℕ → ℕ → ℕ → A)
    (a : A)
    → (u >>= λ _. rm >>= λ m. rf >>= λ f. rr >>= λ r. rn >>= λ n. rl >>= λ l. ok (g m f r n l))
      ≡ ok a
    → (m : ℕ) × (f : ℕ) × (r : ℕ) × (n : ℕ) × (l : ℕ) × (u ≡ ok tt)
      × (rm ≡ ok m)
      × (rf ≡ ok f)
      × (rr ≡ ok r)
      × (rn ≡ ok n)
      × (rl ≡ ok l)
      × (a ≡ g m f r n l)
checks-eq-ok (ok tt) (ok m) (ok f) (ok r) (ok n) (ok l) g a e =
    (m, f, r, n, l, refl, refl, refl, refl, refl, refl, cc)
checks-eq-ok _ _ _ _ _ _ g a e = cc

-- What a header must be for `encodeHeader` to accept it: the version, and a width for each field.
pub record Fits (h : WireHeader) (msg_type flags req_id ns_id payload_len : ℕ) : Type 0 where
  pub version : h.version ≡ nat 1
  pub msg_type_is : h.msg_type ≡ nat msg_type
  pub flags_is : h.flags ≡ nat flags
  pub req_id_is : h.req_id ≡ nat req_id
  pub ns_id_is : h.ns_id ≡ nat ns_id
  pub payload_len_is : h.payload_len ≡ nat payload_len
  pub msg_type_le : msg_type ≤ 0xff
  pub flags_le : flags ≤ 0xffff
  pub req_id_le : req_id ≤ 0xffffffff
  pub ns_id_le : ns_id ≤ 0xffffffff
  pub payload_len_le : payload_len ≤ 0xffffffff

module _ (h : WireHeader) where
  pub encode_header_of_Fits :
      (m f r n l : ℕ) → Fits h m f r n l → encode_header h ≡ ok (header_bytes m f r n l)
  unfolding encode_header is_nat
  encode_header_of_Fits m f r n l c = rw (
    c.version,
    c.msg_type_is,
    c.flags_is,
    c.req_id_is,
    c.ns_id_is,
    c.payload_len_is,
    in_range-nat 0xff m "msg_type out of range" c.msg_type_le,
    in_range-nat 0xffff f "flags out of range" c.flags_le,
    in_range-nat 0xffffffff r "req_id out of range" c.req_id_le,
    in_range-nat 0xffffffff n "ns_id out of range" c.ns_id_le,
    in_range-nat 0xffffffff l "payload_len out of range" c.payload_len_le,
  )

  pub Fits-of_encode_header :
      (bs : Bytes)
      → encode_header h ≡ ok bs
      → (m : ℕ) × (f : ℕ) × (r : ℕ) × (n : ℕ) × (l : ℕ) × Fits h m f r n l
        × (bs ≡ header_bytes m f r n l)
  unfolding encode_header
  Fits-of_encode_header bs e =
      let (m, f, r, n, l, ev, em, ef, er, en, el, same) =
        checks-eq-ok (require (is_nat 1 h.version) "unsupported wire version")
          (in_range 0xff h.msg_type "msg_type out of range")
          (in_range 0xffff h.flags "flags out of range")
          (in_range 0xffffffff h.req_id "req_id out of range")
          (in_range 0xffffffff h.ns_id "ns_id out of range")
          (in_range 0xffffffff h.payload_len "payload_len out of range") header_bytes bs e in
      let pm = in_range-eq-ok _ _ _ m em in
      let pf = in_range-eq-ok _ _ _ f ef in
      let pr = in_range-eq-ok _ _ _ r er in
      let pn = in_range-eq-ok _ _ _ n en in
      let pl = in_range-eq-ok _ _ _ l el in
      (
        m,
        f,
        r,
        n,
        l,
        record {
          version = is_nat-eq 1 h.version (require-eq-ok _ "unsupported wire version" ev);
          msg_type_is = pm.0;
          flags_is = pf.0;
          req_id_is = pr.0;
          ns_id_is = pn.0;
          payload_len_is = pl.0;
          msg_type_le = pm.1;
          flags_le = pf.1;
          req_id_le = pr.1;
          ns_id_le = pn.1;
          payload_len_le = pl.1;
        },
        same,
      )

abbrev pub decoded : ℕ → ℕ → ℕ → ℕ → ℕ → WireHeader
decoded m f r n l = record {
  version = nat 1;
  msg_type = nat m;
  flags = nat f;
  req_id = nat r;
  ns_id = nat n;
  payload_len = nat l;
  reserved = some (nat 0);
}

module _ (m f r n l : ℕ) (rest : Bytes) (hf : f ≤ 0xffff) (hr : r ≤ 0xffffffff)
    (hn : n ≤ 0xffffffff) (hl : l ≤ 0xffffffff) where
  pub decode_header-header_bytes :
      decode_header (header_bytes m f r n l ++ rest) ≡ ok (decoded m f r n l)
  unfolding decode_header header_bytes
  decode_header-header_bytes =
      let bs = header_bytes m f r n l ++ rest in
      let long : 24 ≤ length bs = omega arith in
      rw (
        le→leb 24 (length bs) long,
        read_le-of_take 2 f 6 bs (omega arith) refl (omega arith),
        read_le-of_take 4 r 8 bs (omega arith) refl (omega arith),
        read_le-of_take 4 n 12 bs (omega arith) refl (omega arith),
        read_le-of_take 4 l 16 bs (omega arith) refl (omega arith),
        read_le-of_take 4 0 20 bs (omega arith) refl (omega arith),
      )

-- The header that the first 24 bytes stand for, once the checks of `decodeHeader` have passed.
abbrev parsed : Bytes → WireHeader
parsed bs = record {
  version = nat (byte_at bs 4);
  msg_type = nat (byte_at bs 5);
  flags = nat (of_le (take 2 (drop 6 bs)));
  req_id = nat (of_le (take 4 (drop 8 bs)));
  ns_id = nat (of_le (take 4 (drop 12 bs)));
  payload_len = nat (of_le (take 4 (drop 16 bs)));
  reserved = some (nat (of_le (take 4 (drop 20 bs))));
}

pub record IsHeader (bs : Bytes) (h : WireHeader) : Type 0 where
  pub long : 24 ≤ length bs
  pub magic : take 4 bs ≡ wire_magic
  pub version : byte_at bs 4 ≡ 1
  pub reserved : of_le (take 4 (drop 20 bs)) ≡ 0
  pub same : h ≡ parsed bs

-- What `decodeHeader` does with a buffer of at least 24 bytes: no read throws.
decode_header_long :
    (bs : Bytes)
    → 24 ≤ length bs
    → decode_header bs ≡ (do
      require (text_eq (take 4 bs) wire_magic) "bad magic"
      require (byte_at bs 4 == 1) "bad version"
      require (of_le (take 4 (drop 20 bs)) == 0) "reserved must be zero"
      ok (parsed bs))
unfolding decode_header
decode_header_long bs h = rw (
  le→leb 24 (length bs) h,
  read_le_within 2 6 bs (omega arith),
  read_le_within 4 8 bs (omega arith),
  read_le_within 4 12 bs (omega arith),
  read_le_within 4 16 bs (omega arith),
  read_le_within 4 20 bs (omega arith),
)

decode_header_short :
    (bs : Bytes) → leb 24 (length bs) ≡ false → decode_header bs ≡ err "short header"
unfolding decode_header
decode_header_short bs h = rw h

pub decode_header-eq-ok : (bs : Bytes) (h : WireHeader) → decode_header bs ≡ ok h → IsHeader bs h
decode_header-eq-ok bs h e = elim (Bool-cases (leb 24 (length bs))) [
  | inr short ↦ cc (decode_header_short bs short)
  | inl long ↦
      let enough = leb→le 24 (length bs) long in
      ground (arith, decode_header_long bs enough, text_eq_iff (take 4 bs) wire_magic)
]

pub byte_at-le : (i : ℕ) (bs : Bytes) → IsBytes bs → byte_at bs i ≤ 255
byte_at-le i [] h = omega arith
byte_at-le zero (b ∷ bs) (p, h) = omega arith
byte_at-le (suc i) (b ∷ bs) (p, h) = byte_at-le i bs h

-- The header's bytes, read as fields and laid out again.
relaid :
    (bs : Bytes) (h : WireHeader)
    → IsBytes bs
    → IsHeader bs h
    → header_bytes
        (byte_at bs 5)
        (of_le (take 2 (drop 6 bs)))
        (of_le (take 4 (drop 8 bs)))
        (of_le (take 4 (drop 12 bs)))
        (of_le (take 4 (drop 16 bs)))
      ≡ take 24 bs
unfolding header_bytes
relaid
      (b0 ∷ b1 ∷ b2 ∷ b3 ∷ b4 ∷ b5 ∷ b6 ∷ b7 ∷ b8 ∷ b9 ∷ c0 ∷ c1 ∷ c2 ∷ c3 ∷ c4 ∷ c5 ∷ c6 ∷ c7 ∷ c8
        ∷ c9 ∷ d0 ∷ d1 ∷ d2 ∷ d3 ∷ rest)
      h bytes c =
    let bs : Bytes =
      b0 ∷ b1 ∷ b2 ∷ b3 ∷ b4 ∷ b5 ∷ b6 ∷ b7 ∷ b8 ∷ b9 ∷ c0 ∷ c1 ∷ c2 ∷ c3 ∷ c4 ∷ c5 ∷ c6 ∷ c7 ∷ c8
      ∷ c9 ∷ d0 ∷ d1 ∷ d2 ∷ d3 ∷ rest in
    let zero_le : le 4 0 ≡ d0 ∷ d1 ∷ d2 ∷ d3 ∷ [] =
      subst (λ z. le 4 z ≡ d0 ∷ d1 ∷ d2 ∷ d3 ∷ []) c.reserved
        (le-of_le_word 4 20 bs bytes c.long) in
    cc (
      c.magic,
      c.version,
      le-of_le_word 2 6 bs bytes (omega arith),
      le-of_le_word 4 8 bs bytes (omega arith),
      le-of_le_word 4 12 bs bytes (omega arith),
      le-of_le_word 4 16 bs bytes (omega arith),
      zero_le,
    )
relaid _ h bytes c = absurd (omega arith)

-- A header that is decoded from bytes is encoded to the same 24 bytes.
pub encode_header-decode_header :
    (bs : Bytes) (h : WireHeader)
    → IsBytes bs
    → decode_header bs ≡ ok h
    → encode_header h ≡ ok (take 24 bs)
encode_header-decode_header bs h bytes e =
    let c = decode_header-eq-ok bs h e in
    let w = λ (k off : ℕ) (fits : off + k ≤ length bs). of_le_word-lt k off bs bytes fits in
    encode_header_of_Fits h (byte_at bs 5) (of_le (take 2 (drop 6 bs))) (of_le (take 4 (drop 8 bs)))
      (of_le (take 4 (drop 12 bs))) (of_le (take 4 (drop 16 bs)))
      (record {
        version = cc (c.same, c.version);
        msg_type_is = cc c.same;
        flags_is = cc c.same;
        req_id_is = cc c.same;
        ns_id_is = cc c.same;
        payload_len_is = cc c.same;
        msg_type_le = byte_at-le 5 bs bytes;
        flags_le = let l = w 2 6 (omega (arith, c.long)) in omega arith;
        req_id_le = let l = w 4 8 (omega (arith, c.long)) in omega arith;
        ns_id_le = let l = w 4 12 (omega (arith, c.long)) in omega arith;
        payload_len_le = let l = w 4 16 (omega (arith, c.long)) in omega arith;
      })
    ∙ ap ok (relaid bs h bytes c)

pub is_nat_iff : (k : ℕ) (x : Number) → (is_nat k x ≡ true) ↔ (x ≡ nat k)
unfolding is_nat
is_nat_iff k (int (pos n)) = ground arith
is_nat_iff k (int (negsuc n)) = ground arith
is_nat_iff k (other z) = ground arith

-- ===== src/Wire/Payload/Sized.antt =====
-- Round trips of the payloads that carry a length (ANS, ANC, PUT, NOT) of core/src/wire.ts.
use decentralized_dns.Prelude.{
  Text, ℕ, ◌^◌, ◌<◌, ◌+◌, ◌-◌, ◌≤◌, ◌≡◌, refl, [], ◌∷◌, length, take, drop, ◌==◌, arith, ok, nat,
  Option, none, some, if◌then◌else◌, le→leb, take-append-drop, take_all, subst, append-nil,
  length-take, length-drop, ==_refl,
}
use decentralized_dns.Bytes.{Bytes, IsBytes, le, of_le, concat_bytes, read_le, byte_at}
use decentralized_dns.Bytes.Words.{length-le, le-of_le_word, of_le_word-lt}
use decentralized_dns.Bytes.Parts.{part_at, word_at, byte_part_at, length-concat_bytes}
use decentralized_dns.Wire.{in_range}
use decentralized_dns.Wire.Header.{in_range-nat}
use decentralized_dns.Wire.Payload.{
  AnsPayload, encode_ans, decode_ans, AncPayload, encode_anc, decode_anc, PutPayload, encode_put,
  decode_put, Utf8, NotPayload, msg_bytes, encode_not, decode_not,
}

-- The layout that ANS and ANC share: a status byte, a 32-bit length, and that many bytes.
abbrev tagged : ℕ → Bytes → Bytes
tagged status body = concat_bytes ((status ∷ []) ∷ le 4 (length body) ∷ body ∷ [])

module _ (status : ℕ) (body : Bytes) (small : length body ≤ 0xffffffff) where
  length-tagged : length (tagged status body) ≡ 5 + length body
  length-tagged = omega (
    arith,
    length-concat_bytes ((status ∷ []) ∷ le 4 (length body) ∷ body ∷ []),
    length-le 4 (length body),
  )

  word-tagged : read_le 4 (tagged status body) 1 ≡ ok (length body)
  word-tagged = word_at ((status ∷ []) ∷ []) (body ∷ []) 1 refl 4 (length body) (omega arith)

  byte-tagged : byte_at (tagged status body) 0 ≡ status
  byte-tagged = byte_part_at [] (le 4 (length body) ∷ body ∷ []) 0 refl status

  body-tagged : take (5 + length body - 5) (drop 5 (tagged status body)) ≡ body
  body-tagged =
      part_at ((status ∷ []) ∷ le 4 (length body) ∷ []) [] 5
        (omega (arith, length-le 4 (length body))) body (5 + length body - 5) (omega arith)

encode_ans-eq-ok :
    (p : AnsPayload) (bs : Bytes)
    → encode_ans p ≡ ok bs
    → (s : ℕ) × (p.status ≡ nat s) × (length p.routeset ≤ 0xffffffff) × (bs ≡ tagged s p.routeset)
unfolding encode_ans in_range
encode_ans-eq-ok p bs e = ground arith

-- An ANS payload that is encoded is decoded to itself.
pub decode_ans-encode_ans :
    (p : AnsPayload) (bs : Bytes) → encode_ans p ≡ ok bs → decode_ans bs ≡ ok p
unfolding decode_ans
decode_ans-encode_ans p bs e =
    let (s, is_s, small, same) = encode_ans-eq-ok p bs e in
    rw
      (
        same,
        length-tagged s p.routeset small,
        le→leb 5 (5 + length p.routeset) (omega arith),
        word-tagged s p.routeset small,
        ==_refl (5 + length p.routeset),
        byte-tagged s p.routeset small,
        body-tagged s p.routeset small,
      )
      (cc is_s)

encode_anc-eq-ok :
    (p : AncPayload) (bs : Bytes)
    → encode_anc p ≡ ok bs
    → (s : ℕ) × (p.status ≡ nat s) × (length p.anchor ≤ 0xffffffff) × (bs ≡ tagged s p.anchor)
unfolding encode_anc in_range
encode_anc-eq-ok p bs e = ground arith

-- An ANC payload that is encoded is decoded to itself.
pub decode_anc-encode_anc :
    (p : AncPayload) (bs : Bytes) → encode_anc p ≡ ok bs → decode_anc bs ≡ ok p
unfolding decode_anc
decode_anc-encode_anc p bs e =
    let (s, is_s, small, same) = encode_anc-eq-ok p bs e in
    rw
      (
        same,
        length-tagged s p.anchor small,
        le→leb 5 (5 + length p.anchor) (omega arith),
        word-tagged s p.anchor small,
        ==_refl (5 + length p.anchor),
        byte-tagged s p.anchor small,
        body-tagged s p.anchor small,
      )
      (cc is_s)

-- A buffer of the shared layout is the layout of its own status byte and body.
tagged_of_bytes :
    (bs : Bytes) (len : ℕ)
    → IsBytes bs
    → length bs ≡ 5 + len
    → of_le (take 4 (drop 1 bs)) ≡ len
    → (byte_at bs 0 ≤ 0xff)
      × (len ≤ 0xffffffff)
      × (length (take (5 + len - 5) (drop 5 bs)) ≡ len)
      × (tagged (byte_at bs 0) (take (5 + len - 5) (drop 5 bs)) ≡ bs)
unfolding concat_bytes
tagged_of_bytes [] len h long word = absurd (omega arith)
tagged_of_bytes (b ∷ bs) len h long word =
    let cut : 5 + len - 5 ≡ len = omega arith in
    let full : length (take (5 + len - 5) (drop 4 bs)) ≡ len =
      omega (arith, length-take (5 + len - 5) (drop 4 bs), length-drop 4 bs) in
    let below : of_le (take 4 bs) < 256 ^ 4 = of_le_word-lt 4 1 (b ∷ bs) h (omega arith) in
    let again : le 4 len ≡ take 4 bs =
      subst (λ n. le 4 n ≡ take 4 bs) word (le-of_le_word 4 1 (b ∷ bs) h (omega arith)) in
    let rest : take (5 + len - 5) (drop 4 bs) ≡ drop 4 bs =
      take_all (5 + len - 5) (drop 4 bs) (omega (arith, length-drop 4 bs)) in
    (
      omega arith,
      omega arith,
      full,
      rw (full, again, rest, append-nil (drop 4 bs), take-append-drop 4 bs),
    )

decode_ans-eq-ok :
    (bs : Bytes) (p : AnsPayload)
    → decode_ans bs ≡ ok p
    → (len : ℕ) × (length bs ≡ 5 + len)
      × (of_le (take 4 (drop 1 bs)) ≡ len)
      × (p ≡ record { status = nat (byte_at bs 0); routeset = take (5 + len - 5) (drop 5 bs) })
unfolding decode_ans read_le
decode_ans-eq-ok bs p e = ground arith

module _ (bs : Bytes) (h : IsBytes bs) where
  -- An ANS payload that is decoded is encoded to the very bytes it was read from.
  pub encode_ans-decode_ans : (p : AnsPayload) → decode_ans bs ≡ ok p → encode_ans p ≡ ok bs
  unfolding encode_ans
  encode_ans-decode_ans p e =
      let (len, long, word, is_p) = decode_ans-eq-ok bs p e in
      let (status, small, full, same) = tagged_of_bytes bs len h long word in
      rw
        (
          is_p,
          in_range-nat 0xff (byte_at bs 0) "status out of range" status,
          full,
          le→leb len 0xffffffff small,
        )
        (cc same)

encode_put-eq-ok :
    (p : PutPayload) (bs : Bytes)
    → encode_put p ≡ ok bs
    → (length p.routeset ≤ 0xffffffff)
      × (bs ≡ concat_bytes (le 4 (length p.routeset) ∷ p.routeset ∷ []))
unfolding encode_put
encode_put-eq-ok p bs e = ground arith

-- A PUT payload that is encoded is decoded to itself.
pub decode_put-encode_put :
    (p : PutPayload) (bs : Bytes) → encode_put p ≡ ok bs → decode_put bs ≡ ok p
unfolding decode_put
decode_put-encode_put p bs e =
    let (small, same) = encode_put-eq-ok p bs e in
    let n = length p.routeset in
    let size : length (concat_bytes (le 4 n ∷ p.routeset ∷ [])) ≡ 4 + n =
      omega (arith, length-concat_bytes (le 4 n ∷ p.routeset ∷ []), length-le 4 n) in
    rw (
      same,
      size,
      le→leb 4 (4 + n) (omega arith),
      word_at [] (p.routeset ∷ []) 0 refl 4 n (omega arith),
      ==_refl (4 + n),
      part_at (le 4 n ∷ []) [] 4 (omega (arith, length-le 4 n)) p.routeset (4 + n - 4)
          (omega arith),
    )

module _ (utf8 : Utf8) where
  -- The message as the receiver sees it: no message and the empty message are the same.
  abbrev pub heard : Option Text → Option Text
  heard none = none
  heard (some []) = none
  heard (some (c ∷ text)) = some (c ∷ text)

  -- The decoder undoes the encoder on a message.
  abbrev pub Legible : Option Text → Type 0
  Legible none = Unit {0}
  Legible (some text) = utf8.decode (utf8.encode text) ≡ text

  msg_bytes_back :
      (msg : Option Text)
      → Legible msg
      → (if length (msg_bytes utf8 msg) == 0 then none else some (utf8.decode (msg_bytes utf8 msg)))
        ≡ heard msg
  unfolding msg_bytes
  msg_bytes_back none h = refl
  msg_bytes_back (some []) h = refl
  msg_bytes_back (some (c ∷ text)) h = rw (utf8.encode_cons c text, h)

  abbrev notice : ℕ → ℕ → Bytes → Bytes
  notice code retry msg = concat_bytes (le 2 code ∷ le 4 retry ∷ le 2 (length msg) ∷ msg ∷ [])

  encode_not-eq-ok :
      (p : NotPayload) (bs : Bytes)
      → encode_not utf8 p ≡ ok bs
      → (c : ℕ) × (r : ℕ) × (p.code ≡ nat c)
        × (p.retry ≡ nat r)
        × (c ≤ 0xffff)
        × (r ≤ 0xffffffff)
        × (length (msg_bytes utf8 p.msg) ≤ 0xffff)
        × (bs ≡ notice c r (msg_bytes utf8 p.msg))
  unfolding encode_not in_range
  encode_not-eq-ok p bs e = ground arith

  not_back :
      (c r : ℕ) (msg : Bytes)
      → c ≤ 0xffff
      → r ≤ 0xffffffff
      → length msg ≤ 0xffff
      → decode_not utf8 (notice c r msg)
        ≡ ok (record {
          code = nat c;
          retry = nat r;
          msg = if length msg == 0 then none else some (utf8.decode msg);
        })
  unfolding decode_not
  not_back c r msg small_c small_r small =
      let n = length msg in
      let parts = le 2 c ∷ le 4 r ∷ le 2 n ∷ msg ∷ [] in
      let size : length (concat_bytes parts) ≡ 8 + n =
        omega (arith, length-concat_bytes parts, length-le 2 c, length-le 4 r, length-le 2 n) in
      rw (
        size,
        le→leb 8 (8 + n) (omega arith),
        word_at [] (le 4 r ∷ le 2 n ∷ msg ∷ []) 0 refl 2 c (omega arith),
        word_at (le 2 c ∷ []) (le 2 n ∷ msg ∷ []) 2 (omega (arith, length-le 2 c)) 4 r
            (omega arith),
        word_at (le 2 c ∷ le 4 r ∷ []) (msg ∷ []) 6 (omega (arith, length-le 2 c, length-le 4 r)) 2
            n (omega arith),
        ==_refl (8 + n),
        part_at (le 2 c ∷ le 4 r ∷ le 2 n ∷ []) [] 8
            (omega (arith, length-le 2 c, length-le 4 r, length-le 2 n)) msg (8 + n - 8)
            (omega arith),
      )

  -- A NOT payload that is encoded is decoded again, if the text decoder undoes the encoder on its message; an
  -- empty message arrives as no message.
  pub decode_not-encode_not :
      (p : NotPayload) (bs : Bytes)
      → Legible p.msg
      → encode_not utf8 p ≡ ok bs
      → decode_not utf8 bs ≡ ok (record p { msg = heard p.msg })
  decode_not-encode_not p bs h e =
      let (c, r, is_c, is_r, small_c, small_r, small, same) = encode_not-eq-ok p bs e in
      cc (
        same,
        is_c,
        is_r,
        msg_bytes_back p.msg h,
        not_back c r (msg_bytes utf8 p.msg) small_c small_r small,
      )

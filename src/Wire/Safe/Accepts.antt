-- ===== src/Wire/Safe/Accepts.antt =====
-- What `parsePacketSafe` of core/src/wire_safe.ts lets through.
use decentralized_dns.Prelude.{
  subst, String, ◌≢◌, le→leb, leb→le, ==_refl, ℕ, ◌+◌, ◌-◌, ◌≤◌, ◌≡◌, refl, ap, ◌∙◌, ◌↔◌, Bool,
  Option, some, none, [], ◌∷◌, Text, true, false, length, drop, ◌==◌, Result, ok, err, ◌>>=◌,
  require, arith, nat, length-take, length-drop, Bool-cases, inl, inr,
}
use decentralized_dns.Bytes.{Bytes}
use decentralized_dns.Wire.{WirePacket, decode_packet, is_nat, value}
use decentralized_dns.Wire.Header.{is_nat_iff}
use decentralized_dns.Wire.Packet.{decode_packet-eq-ok}
use decentralized_dns.Wire.Payload.{
  Utf8, AnsPayload, AncPayload, NotPayload, PutPayload, decode_ans, decode_anc, decode_not,
  decode_put,
}
use decentralized_dns.Wire.Safe.{
  Limits, Setting, absent, undefined, limit, given_or, WireLimits, within, merge_limits, msg_size,
  check_message, parse_packet_safe,
}

-- The length check of the source after decoding can never fail.
pub payload_length :
    (bs : Bytes) (p : WirePacket)
    → decode_packet bs ≡ ok p
    → length p.payload ≡ value p.header.payload_len
payload_length bs p e =
    let (_, fits, cut) = decode_packet-eq-ok bs p e in
    let n = value p.header.payload_len in
    ap length cut ∙ omega (arith, length-take (24 + n - 24) (drop 24 bs), length-drop 24 bs)

-- A size is at most a limit, if there is one.
abbrev pub AtMost : ℕ → Option ℕ → Type 0
AtMost size none = Unit {0}
AtMost size (some most) = size ≤ most

AtMost-of_within : (size : ℕ) (l : Option ℕ) → within size l ≡ true → AtMost size l
AtMost-of_within size none h = tt
AtMost-of_within size (some most) h = leb→le size most h

within_of_AtMost : (size : ℕ) (l : Option ℕ) → AtMost size l → within size l ≡ true
within_of_AtMost size none h = refl
within_of_AtMost size (some most) h = le→leb size most h

require-eq-ok : (b : Bool) (message : String) → require b message ≡ ok tt → b ≡ true
require-eq-ok true message e = refl
require-eq-ok false message e = cc

bounded-eq-ok {ℓ} :
    {A : Type ℓ} (m : Result A) (size : A → ℕ) (l : Option ℕ) (message : String)
    → (m >>= λ a. require (within (size a) l) message) ≡ ok tt
    → (a : A) × (m ≡ ok a) × AtMost (size a) l
bounded-eq-ok (ok a) size l message e =
    (a, refl, AtMost-of_within (size a) l (require-eq-ok (within (size a) l) message e))
bounded-eq-ok (err x) size l message e = cc

-- The encoded message is within a limit, if there is a message and a limit.
abbrev pub Short : (Text → Bytes) → Option Text → Option ℕ → Type 0
Short encode none l = Unit {0}
Short encode (some text) l = AtMost (length (encode text)) l

AtMost-zero : (l : Option ℕ) → AtMost 0 l
AtMost-zero none = tt
AtMost-zero (some most) = omega arith

Short-of_msg_size :
    (utf8 : Utf8) (msg : Option Text) (l : Option ℕ)
    → AtMost (msg_size utf8 msg) l
    → Short utf8.encode msg l
Short-of_msg_size utf8 none l h = tt
Short-of_msg_size utf8 (some []) l h = rw (utf8.encode_nil) (AtMost-zero l)
Short-of_msg_size utf8 (some (c ∷ text)) l h = h

msg_size_of_Short :
    (utf8 : Utf8) (msg : Option Text) (l : Option ℕ)
    → Short utf8.encode msg l
    → AtMost (msg_size utf8 msg) l
msg_size_of_Short utf8 none l h = AtMost-zero l
msg_size_of_Short utf8 (some []) l h = AtMost-zero l
msg_size_of_Short utf8 (some (c ∷ text)) l h = h

module _ (utf8 : Utf8) (l : Limits) (p : WirePacket) where
  -- The payload of a message that embeds data is well formed, and the data within its limit.
  pub data MessageFits : Type 0 where
    ans :
        (a : AnsPayload)
        → p.header.msg_type ≡ nat 2
        → decode_ans p.payload ≡ ok a
        → AtMost (length a.routeset) l.max_routeset_bytes
        → MessageFits
    anc :
        (a : AncPayload)
        → p.header.msg_type ≡ nat 3
        → decode_anc p.payload ≡ ok a
        → AtMost (length a.anchor) l.max_anchor_bytes
        → MessageFits
    not :
        (n : NotPayload)
        → p.header.msg_type ≡ nat 4
        → decode_not utf8 p.payload ≡ ok n
        → Short utf8.encode n.msg l.max_not_msg_bytes
        → MessageFits
    put :
        (a : PutPayload)
        → p.header.msg_type ≡ nat 7
        → decode_put p.payload ≡ ok a
        → AtMost (length a.routeset) l.max_routeset_bytes
        → MessageFits
    other :
        p.header.msg_type ≢ nat 2
        → p.header.msg_type ≢ nat 3
        → p.header.msg_type ≢ nat 4
        → p.header.msg_type ≢ nat 7
        → MessageFits

  not_kind : (k : ℕ) → is_nat k p.header.msg_type ≡ false → p.header.msg_type ≢ nat k
  not_kind k h e = cc ((is_nat_iff k p.header.msg_type).1 e)

  check_message-eq-ok : check_message utf8 l p ≡ ok tt → MessageFits
  unfolding check_message
  check_message-eq-ok e = elim (Bool-cases (is_nat 2 p.header.msg_type)) [
    | inl two ↦
        let (a, ea, fits) =
          bounded-eq-ok (decode_ans p.payload) (λ a. length a.routeset) _ _ (rw two at e) in
        ans a ((is_nat_iff 2 _).0 two) ea fits
    | inr not2 ↦ elim (Bool-cases (is_nat 3 p.header.msg_type)) [
      | inl three ↦
          let (a, ea, fits) =
            bounded-eq-ok (decode_anc p.payload) (λ a. length a.anchor) _ _
              (rw (not2, three) at e) in
          anc a ((is_nat_iff 3 _).0 three) ea fits
      | inr not3 ↦ elim (Bool-cases (is_nat 4 p.header.msg_type)) [
        | inl four ↦
            let (a, ea, fits) =
              bounded-eq-ok (decode_not utf8 p.payload) (λ a. msg_size utf8 a.msg) _ _
                (rw (not2, not3, four) at e) in
            not a ((is_nat_iff 4 _).0 four) ea (Short-of_msg_size utf8 a.msg _ fits)
        | inr not4 ↦ elim (Bool-cases (is_nat 7 p.header.msg_type)) [
          | inl seven ↦
              let (a, ea, fits) =
                bounded-eq-ok (decode_put p.payload) (λ a. length a.routeset) _ _
                  (rw (not2, not3, not4, seven) at e) in
              put a ((is_nat_iff 7 _).0 seven) ea fits
          | inr not7 ↦ other (not_kind 2 not2) (not_kind 3 not3) (not_kind 4 not4) (not_kind 7 not7)
        ]
      ]
    ]
  ]

  check_message_of_fits : MessageFits → check_message utf8 l p ≡ ok tt
  unfolding check_message
  check_message_of_fits (ans a k e fits) = rw (k, e, within_of_AtMost _ _ fits)
  check_message_of_fits (anc a k e fits) = rw (k, e, within_of_AtMost _ _ fits)
  check_message_of_fits (not a k e fits) =
      rw (k, e, within_of_AtMost _ _ (msg_size_of_Short utf8 a.msg _ fits))
  check_message_of_fits (put a k e fits) = rw (k, e, within_of_AtMost _ _ fits)
  check_message_of_fits (other n2 n3 n4 n7) = ground (
    arith,
    is_nat_iff 2 p.header.msg_type,
    is_nat_iff 3 p.header.msg_type,
    is_nat_iff 4 p.header.msg_type,
    is_nat_iff 7 p.header.msg_type,
  )

-- The independent description of an accepted packet.
pub record Accepts (utf8 : Utf8) (bs : Bytes) (l : Limits) (p : WirePacket) : Type 0 where
  pub packet_small : AtMost (length bs) l.max_packet_bytes
  pub parsed : decode_packet bs ≡ ok p
  pub payload_small : AtMost (length p.payload) l.max_payload_bytes
  pub message : MessageFits utf8 l p

-- The limit of the caller, or a number for one that is left out.
abbrev pub setting_or : ℕ → Setting → Option ℕ
setting_or n absent = some n
setting_or n undefined = none
setting_or n (limit m) = some m

-- The limits that apply.
abbrev pub in_force : WireLimits → Limits
in_force s = record {
  max_packet_bytes = setting_or 65536 s.max_packet_bytes;
  max_payload_bytes = setting_or 61440 s.max_payload_bytes;
  max_routeset_bytes = setting_or 49152 s.max_routeset_bytes;
  max_anchor_bytes = setting_or 1024 s.max_anchor_bytes;
  max_not_msg_bytes = setting_or 1024 s.max_not_msg_bytes;
}

given_or-setting_or : (n : ℕ) (s : Setting) → given_or s (some n) ≡ setting_or n s
given_or-setting_or n absent = refl
given_or-setting_or n undefined = refl
given_or-setting_or n (limit m) = refl

merge_limits-in_force : (s : WireLimits) → merge_limits s ≡ in_force s
unfolding merge_limits
merge_limits-in_force s = rw (
  given_or-setting_or 65536 s.max_packet_bytes,
  given_or-setting_or 61440 s.max_payload_bytes,
  given_or-setting_or 49152 s.max_routeset_bytes,
  given_or-setting_or 1024 s.max_anchor_bytes,
  given_or-setting_or 1024 s.max_not_msg_bytes,
)

checks-eq-ok {ℓ} :
    {A : Type ℓ} (x : Bool) (m2 : String) (y : Bool) (m3 : String) (r : Result (Unit {0})) (q a : A)
    → (require x m2 >>= λ _. require y m3 >>= λ _. r >>= λ _. ok q) ≡ ok a
    → (x ≡ true) × (r ≡ ok tt) × (q ≡ a)
checks-eq-ok true m2 true m3 (ok tt) q a e = (refl, refl, cc)
checks-eq-ok _ m2 _ m3 _ q a e = cc

chain-eq-ok {ℓ} :
    {A : Type ℓ} (t : Bool) (m1 : String) (m : Result A) (u : A → Bool) (m2 : String) (v : A → Bool)
    (m3 : String) (f : A → Result (Unit {0})) (a : A)
    → (require t m1 >>= λ _.
        m >>= λ q. require (u q) m2 >>= λ _. require (v q) m3 >>= λ _. f q >>= λ _. ok q)
      ≡ ok a
    → (t ≡ true) × (m ≡ ok a) × (u a ≡ true) × (f a ≡ ok tt)
chain-eq-ok true m1 (ok q) u m2 v m3 f a e =
    let (x, r, same) = checks-eq-ok (u q) m2 (v q) m3 (f q) q a e in
    (refl, ap ok same, subst (λ z. u z ≡ true) same x, subst (λ z. f z ≡ ok tt) same r)
chain-eq-ok _ m1 _ u m2 v m3 f a e = cc

module _ (utf8 : Utf8) (bs : Bytes) (limits : WireLimits) (p : WirePacket) where
  Accepts-of_parse :
      parse_packet_safe utf8 bs limits ≡ ok p → Accepts utf8 bs (merge_limits limits) p
  unfolding parse_packet_safe
  Accepts-of_parse e =
      let l = merge_limits limits in
      let (small, parsed, size, checked) =
        chain-eq-ok (within (length bs) l.max_packet_bytes) "packet exceeds maxPacketBytes"
          (decode_packet bs) (λ q. within (value q.header.payload_len) l.max_payload_bytes)
          "payload_len exceeds maxPayloadBytes"
          (λ q. length q.payload == value q.header.payload_len) "payload length mismatch"
          (check_message utf8 l) p e in
      record {
        packet_small = AtMost-of_within _ _ small;
        parsed = parsed;
        payload_small = rw (payload_length bs p parsed) (AtMost-of_within _ _ size);
        message = check_message-eq-ok utf8 l p checked;
      }

  parse_of_Accepts :
      Accepts utf8 bs (merge_limits limits) p → parse_packet_safe utf8 bs limits ≡ ok p
  unfolding parse_packet_safe
  parse_of_Accepts a =
      let l = merge_limits limits in
      let size = payload_length bs p a.parsed in
      rw (
        within_of_AtMost _ _ a.packet_small,
        a.parsed,
        ← size,
        within_of_AtMost _ _ a.payload_small,
        ==_refl (length p.payload),
        check_message_of_fits utf8 l p a.message,
      )

  -- `parsePacketSafe` returns exactly the packets that decode, within the limits that apply: those of the caller and the
  -- defaults for those left out. A NOT message counts with its bytes in UTF-8. A limit that is given as
  -- `undefined` is none.
  pub parse_packet_safe_iff :
      (parse_packet_safe utf8 bs limits ≡ ok p) ↔ Accepts utf8 bs (in_force limits) p
  parse_packet_safe_iff = rw (← merge_limits-in_force limits) (Accepts-of_parse, parse_of_Accepts)

-- ===== src/Wire/Packet.antt =====
-- The packet codec of core/src/wire.ts: both round trips, and which packets are encoded.
use decentralized_dns.Prelude.{
  ℕ, ◌+◌, ◌-◌, ◌≤◌, ◌≡◌, refl, ap, subst, ◌∙◌, some, ◌++◌, length, take, drop, arith, ok, ◌>>◌,
  >>=-eq-ok, require, nat, length-append, length-take, length-drop, take-append, drop-append,
  append_assoc, le→leb, leb, take-add, sym,
}
use decentralized_dns.Bytes.{Bytes, IsBytes, of_le, slice}
use decentralized_dns.Wire.{
  WireHeader, WirePacket, header_bytes, encode_header, decode_header, encode_packet, decode_packet,
  value,
}
use decentralized_dns.Wire.Header.{
  Fits-of_encode_header, decode_header-header_bytes, decode_header-eq-ok,
  encode_header-decode_header,
}

length-header_bytes : (m f r n l : ℕ) → length (header_bytes m f r n l) ≡ 24
unfolding header_bytes
length-header_bytes m f r n l = refl

-- The packet as the receiver sees it: the length is the payload's, the reserved word is 0.
abbrev pub sent : WirePacket → WirePacket
sent p = record {
  header = record p.header { payload_len = nat (length p.payload); reserved = some (nat 0) };
  payload = p.payload;
}

encode_packet-eq-ok :
    (p : WirePacket) (bs : Bytes)
    → encode_packet p ≡ ok bs
    → (hb : Bytes) × (encode_header (record p.header { payload_len = nat (length p.payload) })
        ≡ ok hb)
      × (bs ≡ hb ++ p.payload)
unfolding encode_packet
encode_packet-eq-ok p bs e =
    let (hb, eh, same) =
      >>=-eq-ok (encode_header (record p.header { payload_len = nat (length p.payload) }))
        (λ hb. ok (hb ++ p.payload)) e in
    (hb, eh, cc)

-- What `encodePacket` returns is decoded to the same packet, whatever bytes follow it.
pub decode_packet-encode_packet :
    (p : WirePacket) (bs rest : Bytes)
    → encode_packet p ≡ ok bs
    → decode_packet (bs ++ rest) ≡ ok (sent p)
unfolding decode_packet
decode_packet-encode_packet p bs rest e =
    let (hb, eh, same) = encode_packet-eq-ok p bs e in
    let h' = record p.header { payload_len = nat (length p.payload) } in
    let (m, f, r, n, l, c, laid) = Fits-of_encode_header h' hb eh in
    let len : length p.payload ≡ l = cc c.payload_len_is in
    let whole : bs ++ rest ≡ header_bytes m f r n l ++ (p.payload ++ rest) =
      cc (append_assoc (header_bytes m f r n l) p.payload rest) in
    let back =
      decode_header-header_bytes m f r n l (p.payload ++ rest) c.flags_le c.req_id_le c.ns_id_le
        c.payload_len_le in
    let size : 24 + l ≤ length (header_bytes m f r n l ++ (p.payload ++ rest)) = omega (
      arith,
      length-append (header_bytes m f r n l) (p.payload ++ rest),
      length-append p.payload rest,
      length-header_bytes m f r n l,
    ) in
    let cut : 24 + l - 24 ≡ l = omega arith in
    rw
      (
        whole,
        back,
        le→leb _ _ size,
        cut,
        drop-append 24 (header_bytes m f r n l) (p.payload ++ rest) (length-header_bytes m f r n l),
        take-append l p.payload rest len,
      )
      (cc (c.version, c.msg_type_is, c.flags_is, c.req_id_is, c.ns_id_is, len))

pub decode_packet-eq-ok :
    (bs : Bytes) (p : WirePacket)
    → decode_packet bs ≡ ok p
    → (decode_header bs ≡ ok p.header)
      × (24 + value p.header.payload_len ≤ length bs)
      × (p.payload ≡ slice bs 24 (24 + value p.header.payload_len))
unfolding decode_packet
decode_packet-eq-ok bs p e =
    let (h, eh, e1) =
      >>=-eq-ok (decode_header bs)
        (λ (h : WireHeader). do
          require (leb (24 + value h.payload_len) (length bs)) "packet truncated"
          ok (record { header = h; payload = slice bs 24 (24 + value h.payload_len) }))
        e in
    ground arith

-- A packet that is decoded from bytes is encoded to exactly the bytes it was read from.
pub encode_packet-decode_packet :
    (bs : Bytes) (p : WirePacket)
    → IsBytes bs
    → decode_packet bs ≡ ok p
    → encode_packet p ≡ ok (take (24 + length p.payload) bs)
unfolding encode_packet
encode_packet-decode_packet bs p bytes e =
    let (eh, fits, cut) = decode_packet-eq-ok bs p e in
    let c = decode_header-eq-ok bs p.header eh in
    let n = of_le (take 4 (drop 16 bs)) in
    let len_is : p.header.payload_len ≡ nat n = cc c.same in
    let fits' : 24 + n ≤ length bs = subst (λ x. 24 + value x ≤ length bs) len_is fits in
    let cut' : p.payload ≡ take n (drop 24 bs) =
      subst (λ x. p.payload ≡ take x (drop 24 bs)) (omega arith)
        (subst (λ x. p.payload ≡ slice bs 24 (24 + value x)) len_is cut) in
    let long : length p.payload ≡ n =
      ap length cut' ∙ omega (arith, length-take n (drop 24 bs), length-drop 24 bs) in
    let same : record p.header { payload_len = nat (length p.payload) } ≡ p.header = cc long in
    let whole : take (24 + length p.payload) bs ≡ take 24 bs ++ p.payload =
      rw (take-add 24 (length p.payload) bs) (ap (λ t. take 24 bs ++ t) (rw long (sym cut'))) in
    let enc = encode_header-decode_header bs p.header bytes eh in rw (same, enc, whole)

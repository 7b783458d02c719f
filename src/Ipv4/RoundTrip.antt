-- ===== src/Ipv4/RoundTrip.antt =====
-- An IPv4 datagram survives its bytes.
use tcp.Prelude.{
  ℕ, ◌+◌, ◌-◌, ◌*◌, ◌%◌, ◌≤◌, ◌<◌, ◌≡◌, refl, ap, ap₂, ◌∙◌, false, List, [], ◌∷◌, ◌++◌, append-nil,
  some, arith, ltb, length, take_all, replicate, u16_mod, u32_mod, length-append, eq→==,
}
use tcp.Buffer.{Buffer, BufferList, str, list_of_string, append, concatenate, size}
use tcp.Buffer.Laws.{concatenate-append, concatenate-list_of_string, size-concatenate}
use tcp.Checksum
use tcp.Checksum.Fold.{ones_sum}
use tcp.Checksum.Sum.{
  words, words-le, AllBytes, AllBytes-append, AllBytes-zeros, value-add, value-add_zero,
}
use tcp.Parser.{no_error, NetParser, parser, unparse_int}
use tcp.Ipv4.{
  Ipv4Header, Ipv4Datagram, ipv4_length, parse_header, header_bytes, serialize_header,
  payload_length, fill_datagram, parse, with_payload, with_checksum, over_zero, serialize,
}
use tcp.Ipv4.Wire.{
  IsValid, padding, all_header, length-header_bytes, length-all_header, verdict, parse_header_lem,
}

serialize_header_lem :
    (h : Ipv4Header) → h.ver ≡ 4 → 5 ≤ h.hlen → serialize_header h ≡ some (all_header h)
unfolding serialize_header
serialize_header_lem h four least =
    let e = eq→== h.ver 4 four in
    let long : ltb (4 * h.hlen) 20 ≡ false = ground (arith, least) in
    let n = length-header_bytes h in
    rw (e, long)
      (ap some (
        ap₂ ◌++◌ (take_all (4 * h.hlen) (header_bytes h) (omega (arith, n)))
          (ap (λ k. replicate k 0) (omega (arith, n)))))

header_bytes-AllBytes : (h : Ipv4Header) → AllBytes (header_bytes h)
unfolding header_bytes unparse_int
header_bytes-AllBytes h = omega arith

-- The checksum adds itself to the words of the header.
header_words :
    (h : Ipv4Header) (c : ℕ)
    → c < u16_mod
    → words false (all_header (record h { cksum = c }))
      ≡ words false (all_header (record h { cksum = 0 })) + c
unfolding header_bytes unparse_int
header_words h c small = omega arith

-- The sum over a header with a checksum of 0, and the checksum that `serialize` puts in.
abbrev pub base_sum : Ipv4Header → ℕ
base_sum h = words false (all_header (record h { cksum = 0 }))

abbrev pub checksum : Ipv4Header → ℕ
checksum h = 0xffff - ones_sum (base_sum h)

base_sum_small : (h : Ipv4Header) → h.hlen < 16 → 5 ≤ h.hlen → base_sum h + 0xffff < u32_mod
base_sum_small h fits least =
    let h0 = record h { cksum = 0 } in
    let le = words-le false (all_header h0) (
      AllBytes-append (header_bytes h0) (padding h) (header_bytes-AllBytes h0)
        (AllBytes-zeros (h.hlen * 4 - ipv4_length))) in
    omega (arith, le, length-all_header h0 least)

abbrev pub with_sum : Ipv4Header → Ipv4Header
with_sum h = record h { cksum = checksum h }

pub with_sum-IsValid : (h : Ipv4Header) → IsValid h → IsValid (with_sum h)
with_sum-IsValid h v = omega (arith, v)

-- What `serialize` gives.
pub serialize_lem :
    (d : Ipv4Datagram)
    → IsValid d.header
    → 4 * d.header.hlen + length (concatenate d.payload) ≡ d.header.len
    → (bl : BufferList) × (serialize d ≡ some bl)
      × (concatenate bl ≡ all_header (with_sum d.header) ++ concatenate d.payload)
unfolding serialize over_zero with_checksum with_payload payload_length Checksum.init
serialize_lem d v fits =
    let h = d.header in
    let counted = size-concatenate d.payload (omega (arith, fits, v.len_fits)) in
    let right =
      eq→== (size d.payload) ((h.len + u16_mod - 4 * h.hlen) % u16_mod)
        (omega (arith, counted, fits, v.len_fits)) in
    let zero_lem = serialize_header_lem (record h { cksum = 0 }) v.ver_is v.hlen_least in
    let one_lem = serialize_header_lem (with_sum h) v.ver_is v.hlen_least in
    let zero_add : 0 + base_sum h ≡ base_sum h = omega arith in
    let sum =
      value-add 0 (all_header (record h { cksum = 0 }))
        (omega (arith, base_sum_small h v.hlen_fits v.hlen_least))
      ∙ ap (λ k. some (0xffff - ones_sum k)) zero_add in
    let text = all_header (with_sum h) in
    (
      append (list_of_string text) d.payload,
      rw right (
          ap (over_zero d) zero_lem
          ∙ ap (with_checksum d) sum
          ∙ ap (with_payload d.payload) one_lem),
      concatenate-append (list_of_string text) d.payload
          ∙ ap (λ xs. xs ++ concatenate d.payload) (concatenate-list_of_string text),
    )

-- The checksum of these bytes is right.
pub checks :
    (h : Ipv4Header)
    → IsValid h
    → Checksum.value (Checksum.add (Checksum.init 0) (all_header (with_sum h))) ≡ some 0
checks h v =
    value-add_zero 0 (base_sum h) (all_header (with_sum h))
      (omega (arith, header_words h (checksum h) (omega arith)))
      (base_sum_small h v.hlen_fits v.hlen_least)

-- A datagram past its header: the payload is what is left, whatever the header's result.
pub parse_lem :
    (h : Ipv4Header) (before : Ipv4Datagram) (b : Buffer) (rest : List ℕ) (v : ℕ)
    → IsValid h
    → str b ≡ all_header h ++ rest
    → 4 * h.hlen + length rest ≡ h.len
    → Checksum.value (Checksum.add (Checksum.init 0) (all_header h)) ≡ some v
    → (p : NetParser) × (parse_header before.header (parser b) ≡ some ((verdict v, h), p))
      × (parse before b ≡ some (no_error, record { header = h; payload = p.buffer ∷ [] }))
      × (str p.buffer ≡ rest)
unfolding parse fill_datagram payload_length concatenate
parse_lem h before b rest v valid text fits sum =
    let all = length-all_header h valid.hlen_least in
    let total : length (str b) ≡ h.len =
      omega (arith, ap length text, length-append (all_header h) rest, all, fits) in
    let (p, e, fine, left) = parse_header_lem h before.header b rest v valid text total sum in
    let n = ap length (append-nil (str p.buffer) ∙ left) in
    let counted = size-concatenate (p.buffer ∷ []) (omega (arith, n, fits, valid.len_fits)) in
    let right =
      eq→== (size (p.buffer ∷ [])) ((h.len + u16_mod - 4 * h.hlen) % u16_mod)
        (omega (arith, counted, n, fits, valid.len_fits)) in
    (p, e, rw e (rw (right, fine) refl), left)

-- A datagram with a valid header and as many bytes of payload as the header says has bytes. From these bytes
-- in one buffer, the header is read with a right checksum, and parsing gives the datagram back, with
-- the checksum that was put in.
pub parse-serialize_ipv4 :
    (d before : Ipv4Datagram) (b : Buffer)
    → IsValid d.header
    → 4 * d.header.hlen + length (concatenate d.payload) ≡ d.header.len
    → (bl : BufferList) × (serialize d ≡ some bl)
      × (str b ≡ concatenate bl
          → (p : NetParser) × (parse_header before.header (parser b)
              ≡ some ((no_error, with_sum d.header), p))
            × (parse before b
                ≡ some (no_error, record { header = with_sum d.header; payload = p.buffer ∷ [] }))
            × (str p.buffer ≡ concatenate d.payload))
parse-serialize_ipv4 d before b v fits =
    let (bl, e, text) = serialize_lem d v fits in
    (
      bl,
      e,
      λ same.
          parse_lem (with_sum d.header) before b (concatenate d.payload) 0
            (with_sum-IsValid d.header v) (same ∙ text) fits (checks d.header v),
    )

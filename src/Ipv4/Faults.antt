-- ===== src/Ipv4/Faults.antt =====
-- What `IPv4Datagram::parse` makes of a header that is refused.
use tcp.Prelude.{
  none, ℕ, ◌+◌, ◌-◌, ◌*◌, ◌%◌, ◌≡◌, ◌≢◌, refl, ap, ◌∙◌, not, List, [], ◌∷◌, ◌++◌, append-nil, some,
  arith, if◌then◌else◌, length, u16_mod, eq→==, ne→==,
}
use tcp.Buffer.{Buffer, str, concatenate, size}
use tcp.Buffer.Laws.{size-concatenate}
use tcp.Checksum
use tcp.Parser.{no_error, bad_checksum, wrong_ip_version, NetParser, parser}
use tcp.Ipv4.{
  Ipv4Header, Ipv4Datagram, parse_header, header_bytes, serialize_header, payload_length,
  fill_datagram, parse, over_zero, serialize,
}
use tcp.Ipv4.Wire.{FieldsFit, parse_header_version, IsValid, all_header}
use tcp.Ipv4.RoundTrip.{parse_lem}

-- The fault: a datagram whose header checksum is wrong is accepted. The header tells of it, and its
-- result is dropped.
pub bad_checksum_accepted :
    (h : Ipv4Header) (before : Ipv4Datagram) (b : Buffer) (rest : List ℕ) (v : ℕ)
    → IsValid h
    → str b ≡ all_header h ++ rest
    → 4 * h.hlen + length rest ≡ h.len
    → Checksum.value (Checksum.add (Checksum.init 0) (all_header h)) ≡ some v
    → v ≢ 0
    → (p : NetParser) × (parse_header before.header (parser b) ≡ some ((bad_checksum, h), p))
      × (parse before b ≡ some (no_error, record { header = h; payload = p.buffer ∷ [] }))
      × (str p.buffer ≡ rest)
bad_checksum_accepted h before b rest v valid text fits sum wrong =
    let (p, e, q, left) = parse_lem h before b rest v valid text fits sum in
    (
      p,
      e ∙ ap (λ k. some ((if not k then bad_checksum else no_error, h), p)) (ne→== v 0 wrong),
      q,
      left,
    )

-- The fault: a datagram of another version than 4, with a header of five words and the payload that it
-- says, is accepted, since the result of the header is dropped; and to serialize it, as for the
-- next hop, throws.
pub wrong_version_throws :
    (h : Ipv4Header) (before : Ipv4Datagram) (b : Buffer) (rest : List ℕ)
    → FieldsFit h
    → h.ver ≢ 4
    → h.hlen ≡ 5
    → str b ≡ header_bytes h ++ rest
    → 20 + length rest ≡ h.len
    → (p : NetParser) × (parse_header before.header (parser b) ≡ some ((wrong_ip_version, h), p))
      × (parse before b ≡ some (no_error, record { header = h; payload = p.buffer ∷ [] }))
      × (serialize (record { header = h; payload = p.buffer ∷ [] }) ≡ none)
unfolding parse fill_datagram payload_length concatenate serialize over_zero serialize_header
wrong_version_throws h before b rest v other five text fits =
    let (p, e, fine, left) = parse_header_version h before.header b rest v other five text in
    let n = ap length (append-nil (str p.buffer) ∙ left) in
    let counted = size-concatenate (p.buffer ∷ []) (omega (arith, n, fits, v.len_fits)) in
    let right =
      eq→== (size (p.buffer ∷ [])) ((h.len + u16_mod - 4 * h.hlen) % u16_mod)
        (omega (arith, counted, n, fits, five, v.len_fits)) in
    let version = ne→== h.ver 4 other in
    (p, e, rw e (rw (right, fine) refl), rw (right, version) refl)

-- ===== src/Adapter/RoundTrip.antt =====
-- A segment that one end writes to its device is what the other end reads.
use tcp.Prelude.{
  ℕ, ◌+◌, ◌*◌, ◌≤◌, ◌<◌, ◌≡◌, refl, sym, ap, ◌∙◌, false, List, [], ◌∷◌, some, u16_mod, u32_mod,
  arith, length, eq→==,
}
use tcp.Buffer.{Buffer, BufferList, str, buffer_size, of_string, to_buffer, concatenate}
use tcp.Buffer.Laws.{str-of_string}
use tcp.Checksum.Sum.{AllBytes}
use tcp.Segment.{TcpSegment, default_segment}
use tcp.Segment.Wire
use tcp.Segment.Wire.Header
use tcp.Segment.Wire.RoundTrip.{
  bytes_with, base_sum, base_sum_small, checksum, serialize_lem, parsed, length-bytes_with,
}
use tcp.Ipv4
use tcp.Ipv4.{Ipv4Header, Ipv4Datagram, pseudo_cksum}
use tcp.Ipv4.Wire.{pseudo_cksum_lt, pseudo_cksum-cksum}
use tcp.Ipv4.RoundTrip
use tcp.Ipv4.RoundTrip.{with_sum, with_sum-IsValid}
use tcp.Interface.{new_datagram}
use tcp.Adapter.{
  Endpoint, FdAdapter, with_ports, wrapping_header, wrap_tcp_in_ip, from_peer, accept_segment,
  unwrap_tcp_in_ip, tun_unwrap, tun_read, tun_write,
}

-- The numbers of an endpoint fit their types.
pub record EndpointIsValid (e : Endpoint) : Type 0 where
  pub ip_fits : e.ip < u32_mod
  pub port_fits : e.port < u16_mod

-- A segment that fits a datagram: its fields fit their types, and so does the length of the datagram.
pub record FitsDatagram (seg : TcpSegment) : Type 0 where
  pub header_valid : Header.IsValid seg.header
  pub doff_least : 5 ≤ seg.header.doff
  pub payload_bytes : AllBytes (str seg.payload)
  pub short_enough : 20 + seg.header.doff * 4 + length (str seg.payload) < u16_mod

with_ports-IsValid :
    (a : FdAdapter) (seg : TcpSegment)
    → EndpointIsValid a.cfg.source
    → EndpointIsValid a.cfg.destination
    → Header.IsValid seg.header
    → Header.IsValid (with_ports a seg).header
with_ports-IsValid a seg s d v = omega (arith, v, s, d)

wrapping_header-IsValid :
    (a : FdAdapter) (seg : TcpSegment)
    → EndpointIsValid a.cfg.source
    → EndpointIsValid a.cfg.destination
    → Ipv4.Wire.IsValid (wrapping_header a seg)
unfolding wrapping_header
wrapping_header-IsValid a seg s d = omega (arith, s, d)

-- The sum of the segment and of the pseudo header does not overflow.
sum_small :
    (a : FdAdapter) (seg : TcpSegment)
    → EndpointIsValid a.cfg.source
    → EndpointIsValid a.cfg.destination
    → FitsDatagram seg
    → base_sum (with_ports a seg) (pseudo_cksum (wrapping_header a seg)) + 0xffff < u32_mod
sum_small a seg s d f =
    let v = wrapping_header-IsValid a seg s d in
    let pseudo = pseudo_cksum_lt (wrapping_header a seg) v.src_fits v.dst_fits v.proto_fits in
    base_sum_small (with_ports a seg) (pseudo_cksum (wrapping_header a seg))
      f.header_valid.doff_fits f.payload_bytes (omega (arith, pseudo, f.short_enough, f.doff_least))

-- The segment as it is read: with the ports of the sender, its checksum, and its payload in a buffer.
abbrev pub arrived : FdAdapter → TcpSegment → Buffer → TcpSegment
arrived a seg payload = record {
  header = record (with_ports a seg).header {
    cksum = checksum (with_ports a seg) (pseudo_cksum (wrapping_header a seg));
  };
  payload = payload;
}

-- The bytes of the segment with the ports of the sender.
abbrev sent_bytes : FdAdapter → TcpSegment → List ℕ
sent_bytes a seg =
    bytes_with (with_ports a seg)
      (checksum (with_ports a seg) (pseudo_cksum (wrapping_header a seg)))

-- `b` is the other end of the connection of `a`.
pub record IsPeer (a b : FdAdapter) : Type 0 where
  pub same_source : b.cfg.source ≡ a.cfg.destination
  pub same_destination : b.cfg.destination ≡ a.cfg.source
  pub connected : b.listen ≡ false

module _ (reread : ℕ → ℕ) (a b : FdAdapter) (seg : TcpSegment) (s : EndpointIsValid a.cfg.source)
    (d : EndpointIsValid a.cfg.destination) (f : FitsDatagram seg) (peer : IsPeer a b) where
  -- What `wrap_tcp_in_ip` gives.
  wrap_lem :
      (bl : BufferList) × (wrap_tcp_in_ip a seg
        ≡ some (record { header = wrapping_header a seg; payload = bl }))
      × (concatenate bl ≡ sent_bytes a seg)
  unfolding wrap_tcp_in_ip
  wrap_lem =
      let (bl, e, c) =
        serialize_lem (with_ports a seg) (pseudo_cksum (wrapping_header a seg)) f.doff_least
          (sum_small a seg s d f) in
      (bl, rw e refl, c)

  -- What `unwrap_tcp_in_ip` makes of it, once it has come in one buffer.
  unwrap_lem :
      (c : ℕ) (payload : Buffer)
      → str payload ≡ sent_bytes a seg
      → (rest : Buffer) × (unwrap_tcp_in_ip reread b (record {
        header = record (wrapping_header a seg) { cksum = c };
        payload = payload ∷ [];
      })
          ≡ some (some (arrived a seg rest), b))
        × (str rest ≡ str seg.payload)
  unfolding unwrap_tcp_in_ip accept_segment from_peer to_buffer wrapping_header
  unwrap_lem c payload same =
      let h = wrapping_header a seg in
      let (rest, e, left) =
        parsed (with_ports a seg) default_segment (pseudo_cksum h) payload
          (with_ports-IsValid a seg s d f.header_valid) f.doff_least (sum_small a seg s d f) same in
      let e' = ap (Wire.parse default_segment payload) (pseudo_cksum-cksum h c) ∙ e in
      let to_us =
        eq→== a.cfg.destination.ip b.cfg.source.ip (sym (ap (λ k. k.ip) peer.same_source)) in
      let from_it =
        eq→== a.cfg.source.ip b.cfg.destination.ip (sym (ap (λ k. k.ip) peer.same_destination)) in
      let our_port =
        eq→== a.cfg.destination.port b.cfg.source.port (sym (ap (λ k. k.port) peer.same_source)) in
      let its_port =
        eq→== a.cfg.source.port b.cfg.destination.port
          (sym (ap (λ k. k.port) peer.same_destination)) in
      (rest, rw (peer.connected, to_us, from_it, e', our_port, its_port) refl, left)

  -- The datagram is as long as its header says.
  wrapped_length :
      (xs : List ℕ)
      → xs ≡ sent_bytes a seg
      → 4 * (wrapping_header a seg).hlen + length xs ≡ (wrapping_header a seg).len
  unfolding wrapping_header buffer_size
  wrapped_length xs same = omega (
    arith,
    ap length same,
    length-bytes_with (with_ports a seg)
        (checksum (with_ports a seg) (pseudo_cksum (wrapping_header a seg))) f.doff_least,
    f.short_enough,
  )

-- A segment whose fields fit their types, and which fits a datagram: the bytes that an end writes to its device
-- are, when the other end of the connection reads them, the segment with the ports of the
-- sender and its checksum, and the reader goes on as it was.
pub tun_read-tun_write :
    (reread : ℕ → ℕ) (a b : FdAdapter) (seg : TcpSegment)
    → EndpointIsValid a.cfg.source
    → EndpointIsValid a.cfg.destination
    → FitsDatagram seg
    → IsPeer a b
    → (bl : BufferList) × (rest : Buffer) × (tun_write a seg ≡ some bl)
      × (tun_read reread b (concatenate bl) ≡ some (some (arrived a seg rest), b))
      × (str rest ≡ str seg.payload)
unfolding tun_write tun_read tun_unwrap
tun_read-tun_write reread a b seg s d f peer =
    let (inner, wrapped, text) = wrap_lem reread a b seg s d f peer in
    let datagram : Ipv4Datagram = record { header = wrapping_header a seg; payload = inner } in
    let v = wrapping_header-IsValid a seg s d in
    let fits = wrapped_length reread a b seg s d f peer (concatenate inner) text in
    let (bl, e, out) = RoundTrip.serialize_lem datagram v fits in
    let h = with_sum (wrapping_header a seg) in
    let (p, _, parsed_datagram, left) =
      RoundTrip.parse_lem h new_datagram (of_string (concatenate bl)) (concatenate inner) 0
        (with_sum-IsValid (wrapping_header a seg) v) (str-of_string (concatenate bl) ∙ out) fits
        (RoundTrip.checks (wrapping_header a seg) v) in
    let (rest, read, same) = unwrap_lem reread a b seg s d f peer h.cksum p.buffer (left ∙ text) in
    (bl, rest, rw (wrapped, e) refl, rw parsed_datagram read, same)

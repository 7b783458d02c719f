-- ===== src/Adapter/Total.antt =====
-- The adapters throw nothing, whatever they read, given a segment that has room for its fields.
use tcp.Prelude.{
  ℕ, ◌*◌, ◌+◌, ◌≤◌, ◌<◌, ◌≡◌, refl, not, ◌==◌, ◌&&◌, List, Option, some, arith, length, Returns,
  one_of,
}
use tcp.Buffer.{BufferList, str, to_buffer, buffer_size, of_string, concatenate}
use tcp.Parser.{ParseResult, failed}
use tcp.Segment.{TcpSegment, default_segment}
use tcp.Segment.Wire.Faults.{parse-total}
use tcp.Segment.Wire.RoundTrip.{length-serialize}
use tcp.Ipv4.{pseudo_cksum}
use tcp.Ipv4.Wire.{pseudo_cksum_small}
use tcp.Ipv4.Total.{parse-total_ipv4, length-serialize_ipv4}
use tcp.Interface.{new_datagram}
use tcp.Adapter.{
  FdAdapter, Endpoint, with_ports, udp_accept, udp_read, udp_write, same_endpoint, tun_unwrap,
  tun_read, tun_write, unwrap_tcp_in_ip, accept_segment, wrap_tcp_in_ip, wrapping_header,
}

-- A result, whichever it is.
abbrev pub Anything : Option TcpSegment × FdAdapter → Type 0
Anything r = Unit

udp_accept-total :
    (a : FdAdapter) (from : Endpoint) (r : ParseResult) (seg : TcpSegment)
    → Returns Anything (udp_accept a from (r, seg))
unfolding udp_accept
udp_accept-total a from r seg =
    one_of (Returns Anything) (failed r) _ _ (_, refl, tt)
      (one_of (Returns Anything) a.listen _ _
        (one_of (Returns Anything) (seg.header.syn && not seg.header.rst) _ _ (_, refl, tt)
          (_, refl, tt))
        (_, refl, tt))

-- `TCPOverUDPSocketAdapter::read`
pub udp_read-total :
    (a : FdAdapter) (from : Endpoint) (payload : List ℕ)
    → Returns Anything (udp_read a from payload)
unfolding udp_read
udp_read-total a from payload =
    let (r, seg, e) = parse-total default_segment (of_string payload) 0 (omega arith) in
    one_of (Returns Anything) (not a.listen && not (same_endpoint from a.cfg.destination)) _ _
      (_, refl, tt) (rw e (udp_accept-total a from r seg))

-- `TCPOverUDPSocketAdapter::write`
pub length-udp_write :
    (a : FdAdapter) (seg : TcpSegment)
    → 5 ≤ seg.header.doff
    → (bl : BufferList) × (udp_write a seg ≡ some bl)
      × (length (concatenate bl) ≡ 4 * seg.header.doff + length (str seg.payload))
unfolding udp_write
length-udp_write a seg least = length-serialize (with_ports a seg) 0 least (omega arith)

-- `TCPOverIPv4OverTunFdAdapter::read`
pub tun_read-total :
    (reread : ℕ → ℕ) (a : FdAdapter) (bytes : List ℕ) → Returns Anything (tun_read reread a bytes)
unfolding tun_read tun_unwrap unwrap_tcp_in_ip to_buffer
tun_read-total reread a bytes =
    let (r, h, payload, e) = parse-total_ipv4 new_datagram (of_string bytes) in
    let (r', seg, e') =
      parse-total default_segment payload (pseudo_cksum h) (pseudo_cksum_small h) in
    rw e (
      one_of (Returns Anything) (failed r) _ _ (_, refl, tt)
        (one_of (Returns Anything) (not a.listen && not (h.dst == a.cfg.source.ip)) _ _
          (_, refl, tt)
          (one_of (Returns Anything) (not a.listen && not (h.src == a.cfg.destination.ip)) _ _
            (_, refl, tt)
            (one_of (Returns Anything) (not (h.proto == 6)) _ _ (_, refl, tt)
              (rw e' (accept_segment reread a h (r', seg), refl, tt))))))

-- `TCPOverIPv4OverTunFdAdapter::write`
pub length-tun_write :
    (a : FdAdapter) (seg : TcpSegment)
    → 5 ≤ seg.header.doff
    → seg.header.doff < 16
    → length (str seg.payload) ≤ 1000
    → (bl : BufferList) × (tun_write a seg ≡ some bl)
      × (length (concatenate bl) ≡ 20 + (4 * seg.header.doff + length (str seg.payload)))
unfolding tun_write wrap_tcp_in_ip wrapping_header buffer_size
length-tun_write a seg least most short =
    let h = wrapping_header a seg in
    let (payload, e, size) =
      length-serialize (with_ports a seg) (pseudo_cksum h) least (pseudo_cksum_small h) in
    let (bl, e', size') =
      length-serialize_ipv4 (record { header = h; payload = payload }) refl refl
        (omega (arith, size)) (omega (arith, size)) in
    (bl, rw e e', omega (arith, size, size'))

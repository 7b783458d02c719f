-- ===== src/Adapter.antt =====
-- libsponge/tcp_helpers/fd_adapter.hh and .cc, lossy_fd_adapter.hh, tcp_over_ip.cc and
-- tuntap_adapter.hh and .cc: from segments to what a socket or a device carries, and back. What is read
-- is an argument, what is written a result; a call that throws returns `none`. `reread` is the
-- number of the address whose text `inet_ntoa` gives for a number: the library's text form, read
-- back.
pub mod RoundTrip
pub mod Total
mod Tests
use tcp.Prelude.{
  ℕ, ◌+◌, ◌*◌, ◌%◌, Bool, true, false, not, ◌&&◌, List, [], ◌∷◌, Option, none, some, ltb, ◌==◌,
  if◌then◌else◌, map, and_then, u16_mod,
}
use tcp.Buffer.{Buffer, BufferList, buffer_size, of_string, to_buffer}
use tcp.Parser.{ParseResult, failed}
use tcp.Router.{Address}
use tcp.Segment.{TcpSegment, default_segment}
use tcp.Segment.Wire
use tcp.Ethernet
use tcp.Ethernet.{EthernetFrame, EthernetAddress, all_bytes}
use tcp.Ipv4
use tcp.Ipv4.{Ipv4Header, Ipv4Datagram, new_header, pseudo_cksum}
use tcp.Interface
use tcp.Interface.{
  NetworkInterface, Ticked, still_running, thrown, ticked, new_interface, new_datagram,
}

-- An Address with its port.
pub record Endpoint : Type 0 where
  pub ip : Address
  pub port : ℕ

pub record FdAdapterConfig : Type 0 where
  pub source : Endpoint
  pub destination : Endpoint
  pub loss_rate_dn : ℕ
  pub loss_rate_up : ℕ

pub record FdAdapter : Type 0 where
  pub cfg : FdAdapterConfig
  pub listen : Bool

abbrev pub set_listening : FdAdapter → Bool → FdAdapter
set_listening a l = record a { listen = l }

-- `Address::operator==`
abbrev pub same_endpoint : Endpoint → Endpoint → Bool
same_endpoint a b = (a.ip == b.ip) && (a.port == b.port)

-- `LossyFdAdapter::_should_drop`; `rand` is the number that the generator gives.
pub should_drop : FdAdapterConfig → Bool → ℕ → Bool
should_drop cfg uplink rand =
    let loss = if uplink then cfg.loss_rate_up else cfg.loss_rate_dn in
    not (loss == 0) && ltb (rand % u16_mod) loss

-- `LossyFdAdapter::read`, of what the adapter reads.
pub lossy_read : FdAdapterConfig → ℕ → Option TcpSegment → Option TcpSegment
lossy_read cfg rand ret = if should_drop cfg false rand then none else ret

-- `LossyFdAdapter::write`: what the adapter is given to write.
pub lossy_write : FdAdapterConfig → ℕ → TcpSegment → Option TcpSegment
lossy_write cfg rand seg = if should_drop cfg true rand then none else some seg

-- The segment with the ports of the adapter.
abbrev pub with_ports : FdAdapter → TcpSegment → TcpSegment
with_ports a seg = record seg {
  header = record seg.header { sport = a.cfg.source.port; dport = a.cfg.destination.port };
}

-- `TCPOverUDPSocketAdapter::read` after the parse of the payload.
udp_accept :
    FdAdapter → Endpoint → ParseResult × TcpSegment → Option (Option TcpSegment × FdAdapter)
udp_accept a source_address (r, seg) =
    if failed r
    then some (none, a)
    else if a.listen
    then (if seg.header.syn && not seg.header.rst
        then some (
          some seg,
          set_listening (record a { cfg = record a.cfg { destination = source_address } }) false,
        )
        else some (none, a))
    else some (some seg, a)

-- `TCPOverUDPSocketAdapter::read`, of a UDP datagram.
pub udp_read : FdAdapter → Endpoint → List ℕ → Option (Option TcpSegment × FdAdapter)
udp_read a source_address payload =
    if not a.listen && not (same_endpoint source_address a.cfg.destination)
    then some (none, a)
    else and_then (Wire.parse default_segment (of_string payload) 0) (udp_accept a source_address)

-- `TCPOverUDPSocketAdapter::write`: what is sent to the destination.
pub udp_write : FdAdapter → TcpSegment → Option BufferList
udp_write a seg = Wire.serialize (with_ports a seg) 0

-- `unwrap_tcp_in_ip` from the test of the peer's port on.
from_peer : FdAdapter → TcpSegment → Option TcpSegment × FdAdapter
from_peer a seg =
    if not (seg.header.sport == a.cfg.destination.port) then (none, a) else (some seg, a)

-- The addresses of a datagram as those of the connection.
bind : (ℕ → ℕ) → FdAdapter → Ipv4Header → TcpSegment → FdAdapter
bind reread a h seg =
    set_listening
      (record a {
        cfg = record a.cfg {
          source = record { ip = reread h.dst; port = a.cfg.source.port };
          destination = record { ip = reread h.src; port = seg.header.sport };
        };
      })
      false

-- `unwrap_tcp_in_ip` after the parse of the segment.
accept_segment :
    (ℕ → ℕ) → FdAdapter → Ipv4Header → ParseResult × TcpSegment → Option TcpSegment × FdAdapter
accept_segment reread a h (r, seg) =
    if failed r
    then (none, a)
    else if not (seg.header.dport == a.cfg.source.port)
    then (none, a)
    else if a.listen
    then (if seg.header.syn && not seg.header.rst
        then from_peer (bind reread a h seg) seg
        else (none, a))
    else from_peer a seg

-- `TCPOverIPv4Adapter::unwrap_tcp_in_ip`
pub unwrap_tcp_in_ip : (ℕ → ℕ) → FdAdapter → Ipv4Datagram → Option (Option TcpSegment × FdAdapter)
unwrap_tcp_in_ip reread a d =
    if not a.listen && not (d.header.dst == a.cfg.source.ip)
    then some (none, a)
    else if not a.listen && not (d.header.src == a.cfg.destination.ip)
    then some (none, a)
    else if not (d.header.proto == 6)
    then some (none, a)
    else and_then
        (and_then (to_buffer d.payload) (λ b. Wire.parse default_segment b (pseudo_cksum d.header)))
        (λ r. some (accept_segment reread a d.header r))

-- The header of the datagram for a segment.
pub wrapping_header : FdAdapter → TcpSegment → Ipv4Header
wrapping_header a seg = record new_header {
  src = a.cfg.source.ip;
  dst = a.cfg.destination.ip;
  len = (new_header.hlen * 4 + seg.header.doff * 4 + buffer_size seg.payload) % u16_mod;
}

-- `TCPOverIPv4Adapter::wrap_tcp_in_ip`; the segment is left `with_ports`.
pub wrap_tcp_in_ip : FdAdapter → TcpSegment → Option Ipv4Datagram
wrap_tcp_in_ip a seg =
    and_then (Wire.serialize (with_ports a seg) (pseudo_cksum (wrapping_header a seg)))
      (λ payload. some (record { header = wrapping_header a seg; payload = payload }))

-- `TCPOverIPv4OverTunFdAdapter::read` after the parse of the datagram.
tun_unwrap :
    (ℕ → ℕ) → FdAdapter → ParseResult × Ipv4Datagram → Option (Option TcpSegment × FdAdapter)
tun_unwrap reread a (r, d) = if failed r then some (none, a) else unwrap_tcp_in_ip reread a d

-- `TCPOverIPv4OverTunFdAdapter::read`, of the bytes that the device gives.
pub tun_read : (ℕ → ℕ) → FdAdapter → List ℕ → Option (Option TcpSegment × FdAdapter)
tun_read reread a bytes = and_then (Ipv4.parse new_datagram (of_string bytes)) (tun_unwrap reread a)

-- `TCPOverIPv4OverTunFdAdapter::write`: what the device is given.
pub tun_write : FdAdapter → TcpSegment → Option BufferList
tun_write a seg = and_then (wrap_tcp_in_ip a seg) Ipv4.serialize

-- `TCPOverIPv4OverEthernetAdapter`, without its device.
pub record EthernetAdapter : Type 0 where
  pub base : FdAdapter
  pub interface : NetworkInterface
  pub next_hop : Address

-- `EthernetFrame f;`
abbrev pub new_frame : EthernetFrame
new_frame = record {
  header = record { dst = all_bytes 0; src = all_bytes 0; ether_type = 0 };
  payload = [];
}

-- The constructor: the adapter, beside the frame that it writes.
pub ethernet_adapter :
    FdAdapter → EthernetAddress → Address → Address → EthernetAdapter × List BufferList
ethernet_adapter base eth_address ip_address next_hop = (
  record { base = base; interface = new_interface eth_address ip_address; next_hop = next_hop },
  Ethernet.serialize new_frame ∷ [],
)

-- `send_pending`: what the device is given.
pub send_pending : EthernetAdapter → EthernetAdapter × List BufferList
send_pending e = (
  record e { interface = record e.interface { frames_out = [] } },
  map Ethernet.serialize e.interface.frames_out,
)

-- `read` once the frames that are pending have gone.
tcp_of :
    (ℕ → ℕ)
    → EthernetAdapter × List BufferList
    → Option Ipv4Datagram
    → Option (Option TcpSegment × (EthernetAdapter × List BufferList))
tcp_of reread (e, out) none = some (none, (e, out))
tcp_of reread (e, out) (some d) =
    and_then (unwrap_tcp_in_ip reread e.base d)
      (λ (seg, base). some (seg, (record e { base = base }, out)))

-- `read` after the parse of the frame.
frame_of :
    (ℕ → ℕ)
    → EthernetAdapter
    → ParseResult × EthernetFrame
    → Option (Option TcpSegment × (EthernetAdapter × List BufferList))
frame_of reread e (r, f) =
    if failed r
    then some (none, (e, []))
    else and_then (Interface.recv_frame e.interface f)
        (λ (d, i). tcp_of reread (send_pending (record e { interface = i })) d)

-- `TCPOverIPv4OverEthernetAdapter::read`
pub ethernet_read :
    (ℕ → ℕ)
    → EthernetAdapter
    → List ℕ
    → Option (Option TcpSegment × (EthernetAdapter × List BufferList))
ethernet_read reread e bytes =
    and_then (Ethernet.parse new_frame (of_string bytes)) (frame_of reread e)

-- `TCPOverIPv4OverEthernetAdapter::write`
pub ethernet_write : EthernetAdapter → TcpSegment → Option (EthernetAdapter × List BufferList)
ethernet_write e seg = and_then (wrap_tcp_in_ip e.base seg) (λ d.
    and_then (Interface.send_datagram e.interface d e.next_hop)
      (λ i. some (send_pending (record e { interface = i }))))

-- `tick`, on fuel: `none` while the interface is still at it, and `some none` when it throws.
pub ethernet_tick : ℕ → EthernetAdapter → ℕ → Option (Option (EthernetAdapter × List BufferList))
ethernet_tick fuel e ms = elim (Interface.tick fuel e.interface ms) [
  | still_running ↦ none
  | thrown ↦ some none
  | ticked i ↦ some (some (send_pending (record e { interface = i })))
]

-- ===== src/Socket/Udp.antt =====
-- libsponge/util/socket.cc and .hh: the datagrams of a UDPSocket; and the TCPOverUDPSocketAdapter of
-- libsponge/tcp_helpers/fd_adapter.hh on one, as
-- the adapter of a TCPSpongeSocket. `Network` is the system calls.
pub mod Alive
mod Tests
use tcp.Prelude.{
  ℕ, ◌^◌, Bool, true, false, not, List, Option, none, some, ltb, ◌==◌, if◌then◌else◌, length,
  resize, and_then,
}
use tcp.Buffer.{concatenate}
use tcp.Segment.{TcpSegment}
use tcp.Adapter.{
  FdAdapterConfig, FdAdapter, Endpoint, should_drop, set_listening, udp_read, udp_write,
}
use tcp.FileDescriptor.{FileDescriptor, register_read, register_write}
use tcp.Socket.{DatagramAdapter}

-- What recvfrom(2) with MSG_TRUNC tells: the sender, the buffer, and the whole length of the datagram.
pub record RecvFrom : Type 0 where
  pub sender : Endpoint
  pub buffer : List ℕ
  pub recv_len : ℕ

-- The system calls on a UDP socket, on the state of the network; sendmsg(2) without an address is to the
-- peer that the socket is connected to.
pub record Network (N : Type 0) : Type 0 where
  pub sys_recvfrom : ℕ → N → Option (RecvFrom × N)
  pub sys_sendmsg : Option Endpoint → List ℕ → N → Option (ℕ × N)

pub record ReceivedDatagram : Type 0 where
  pub source_address : Endpoint
  pub payload : List ℕ

-- The default `mtu` of `recv`.
abbrev pub default_mtu : ℕ
default_mtu = 2 ^ 16

-- TCPOverUDPSocketAdapter: its base, and its socket with the network beyond.
pub record UdpAdapter (N : Type 0) : Type 0 where
  pub base : FdAdapter
  pub sock : FileDescriptor
  pub beyond : N

module _ {N : Type 0} (network : Network N) where
  -- `UDPSocket::recv`
  pub recv : ℕ → FileDescriptor → N → Option (ReceivedDatagram × (FileDescriptor × N))
  recv mtu fd n = and_then (network.sys_recvfrom mtu n) (λ (d, n').
      if ltb mtu d.recv_len
      then none
      else some (
        record { source_address = d.sender; payload = resize d.recv_len d.buffer },
        (register_read fd, n'),
      ))

  -- `sendmsg_helper`, of the bytes that the views show.
  pub sendmsg_helper : Option Endpoint → List ℕ → N → Option N
  sendmsg_helper destination payload n =
      and_then (network.sys_sendmsg destination payload n)
        (λ (bytes_sent, n'). if not (bytes_sent == length payload) then none else some n')

  -- `UDPSocket::sendto`
  pub sendto : Endpoint → List ℕ → FileDescriptor → N → Option (FileDescriptor × N)
  sendto destination payload fd n =
      and_then (sendmsg_helper (some destination) payload n) (λ n'. some (register_write fd, n'))

  -- `TCPOverUDPSocketAdapter::read`, from the socket on.
  pub read_udp : UdpAdapter N → Option (Option TcpSegment × UdpAdapter N)
  read_udp a = and_then (recv default_mtu a.sock a.beyond) (λ (d, (fd, n)).
      and_then (udp_read a.base d.source_address d.payload)
        (λ (seg, base). some (seg, record { base = base; sock = fd; beyond = n })))

  -- `TCPOverUDPSocketAdapter::write`, to the socket.
  pub write_udp : TcpSegment → UdpAdapter N → Option (UdpAdapter N)
  write_udp seg a = and_then (udp_write a.base seg) (λ payload.
      and_then (sendto a.base.cfg.destination (concatenate payload) a.sock a.beyond)
        (λ (fd, n). some (record a { sock = fd; beyond = n })))

  -- TCPOverUDPSocketAdapter is what TCPSpongeSocket uses.
  unfoldable pub udp_adapter : DatagramAdapter (UdpAdapter N)
  udp_adapter = record {
    fd = λ a. a.sock;
    read = read_udp;
    write = write_udp;
    tick = λ ms a. some a;
    config_mut = λ c a. record a { base = record a.base { cfg = c } };
    set_listening = λ l a. record a { base = set_listening a.base l };
  }

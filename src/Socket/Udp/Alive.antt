-- ===== src/Socket/Udp/Alive.antt =====
-- A socket over UDP runs.
use tcp.Prelude.{
  ℕ, ◌≤◌, ◌<◌, ◌≡◌, refl, false, List, Option, some, arith, length, ltb, eq→==, All, u32_mod,
  u64_mod, resize,
}
use tcp.Wrapping.{WrappingInt32}
use tcp.Buffer.{concatenate}
use tcp.Connection.{TcpConfig}
use tcp.Adapter.{FdAdapterConfig, Endpoint}
use tcp.Adapter.Total.{udp_read-total, length-udp_write}
use tcp.FileDescriptor.{FileDescriptor, register_read, register_write}
use tcp.EventLoop.Cooperative.{Unbroken}
use tcp.Socket.{Kernel}
use tcp.Socket.Running.{Works, Serves, counted_once}
use tcp.Socket.Udp.{
  RecvFrom, Network, UdpAdapter, default_mtu, recv, sendmsg_helper, sendto, read_udp, write_udp,
  udp_adapter,
}
use tcp.Socket.Lossy.{LossyFdAdapter, lossy_adapter, lossy-Serves}
use tcp.Socket.Loop.{Event}
use tcp.Socket.Loop.Alive.{OpensAlive, open-IsAlive}

-- What recvfrom(2) and sendmsg(2) promise where they do not fail: a datagram has at most 65535 bytes, and up to
-- 65507 bytes go whole.
pub record Delivers {N : Type 0} (network : Network N) : Type 0 where
  pub arrives :
      (mtu : ℕ) (n : N)
      → (d : RecvFrom) × (n' : N) × (network.sys_recvfrom mtu n ≡ some (d, n'))
        × (d.recv_len ≤ 65535)
  pub departs :
      (to : Option Endpoint) (bytes : List ℕ) (n : N)
      → length bytes ≤ 65507
      → (n' : N) × (network.sys_sendmsg to bytes n ≡ some (length bytes, n'))

-- The count of reads is one.
abbrev pub Counted : {N : Type 0} → UdpAdapter N → Type 0
Counted a = a.sock.read_count < u32_mod

pub udp-Serves :
    {N : Type 0} (network : Network N) → Delivers network → Serves Counted (udp_adapter network)
unfolding udp_adapter read_udp write_udp recv sendto sendmsg_helper
udp-Serves network ok = record {
  counts_reads = λ a h.
      let (d, n, e, short) = ok.arrives default_mtu a.beyond in
      let fits : ltb default_mtu d.recv_len ≡ false = ground arith in
      let ((seg, base), r, any) = udp_read-total a.base d.sender (resize d.recv_len d.buffer) in
      (
        seg,
        record { base = base; sock = register_read a.sock; beyond = n },
        rw (e, fits, r) refl,
        omega arith,
        counted_once a.sock.read_count h,
      );
  writes = λ seg a fits h.
      let (bl, e, size) = length-udp_write a.base seg fits.least in
      let (n, sent) =
        ok.departs (some a.base.cfg.destination) (concatenate bl) a.beyond
          (omega (arith, size, fits)) in
      let whole = eq→== (length (concatenate bl)) (length (concatenate bl)) refl in
      (record a { sock = register_write a.sock; beyond = n }, rw (e, sent, whole) refl, h);
  ticks = λ ms a h. (a, refl, h);
  configures = λ c a h. h;
  listens = λ b a h. h;
}

module _ {K : Type 0} (moved_size : ℕ → ℕ) (kernel : Kernel K) (received : K → List ℕ)
    (works : Works received kernel) (cfg : TcpConfig) (random : WrappingInt32)
    (c_ad : FdAdapterConfig) (fd : FileDescriptor) (k : K) (events : List Event)
    (base_time : ℕ) where
  module _ {N G : Type 0} (network : Network N) (delivers : Delivers network)
      (generator : G → ℕ × G) where
    -- A socket without a connection, over TCPOverUDPSocketAdapter or over LossyFdAdapter of it, whose capacities fit
    -- a `size_t`, and whose system calls on the pipe and on the UDP socket do not fail: neither `connect` nor
    -- `listen_and_accept` throws, however many rounds the loop meets, whatever poll(2) does but report a broken
    -- descriptor, whatever datagrams arrive, from whomever and of whatever bytes, and whatever the generator of the
    -- losses gives.
    pub udp-IsAlive :
        (a : UdpAdapter N) (g : G)
        → cfg.recv_capacity < u64_mod
        → cfg.send_capacity < u64_mod
        → fd.read_count < u32_mod
        → fd.write_count < u32_mod
        → a.sock.read_count < u32_mod
        → All (λ event. Unbroken event.polled) events
        → OpensAlive moved_size kernel received works cfg random c_ad fd k events base_time Counted
            (udp_adapter network)
            (udp-Serves network delivers)
            a
          × OpensAlive moved_size kernel received works cfg random c_ad fd k events base_time
              {A = LossyFdAdapter (UdpAdapter N) G}
              (λ l. Counted l.adapter)
              (lossy_adapter (λ b. b.base.cfg) generator (udp_adapter network))
              (lossy-Serves Counted
                (λ b. b.base.cfg)
                generator
                (udp_adapter network)
                (udp-Serves network delivers))
              (record { adapter = a; rand = g })
    udp-IsAlive a g hr hs rc wc fine h =
        let udp = udp-Serves network delivers in
        let lossy = lossy-Serves Counted (λ b. b.base.cfg) generator (udp_adapter network) udp in
        (
          open-IsAlive moved_size (udp_adapter network) kernel Counted received udp works cfg random
              c_ad fd k a events base_time hr hs rc wc fine h,
          open-IsAlive moved_size (lossy_adapter (λ b. b.base.cfg) generator (udp_adapter network))
              kernel (λ l. Counted l.adapter) received lossy works cfg random c_ad fd k
              (record { adapter = a; rand = g }) events base_time hr hs rc wc fine h,
        )

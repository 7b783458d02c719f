-- ===== src/Socket/Tun/Alive.antt =====
-- A socket over a TUN device runs.
use tcp.Prelude.{
  ℕ, suc, ◌<◌, ◌≢◌, add32, refl, List, Option, arith, length, All, u32_mod, u64_mod, ◌∙◌,
}
use tcp.Wrapping.{WrappingInt32}
use tcp.Buffer.{concatenate}
use tcp.Connection.{TcpConfig}
use tcp.Adapter.{FdAdapterConfig}
use tcp.Adapter.Total.{tun_read-total, length-tun_write}
use tcp.FileDescriptor.{FileDescriptor}
use tcp.FileDescriptor.Once.{Gives, read_lem}
use tcp.FileDescriptor.Whole.{Accepts, write_all_lem}
use tcp.EventLoop.Cooperative.{Unbroken}
use tcp.Socket.{Kernel}
use tcp.Socket.Running.{Works, Serves}
use tcp.Socket.Lossy.{LossyFdAdapter, lossy_adapter, lossy-Serves}
use tcp.Socket.Tun.{TunAdapter, default_limit, read_tun, after_write, write_tun, tun_adapter}
use tcp.Socket.Loop.{Event}
use tcp.Socket.Loop.Alive.{OpensAlive, open-IsAlive}

-- Every state of the adapter is fine.
abbrev pub Anything : {D : Type 0} → TunAdapter D → Type 0
Anything a = Unit

counts_on : (n : ℕ) → n ≢ add32 n 1
counts_on n e = omega arith

module _ {D : Type 0} (reread : ℕ → ℕ) (sys_read : ℕ → D → Option (List ℕ × D))
    (sys_writev : List ℕ → D → Option (ℕ × D)) (sent : D → List ℕ) (gives : Gives sent sys_read)
    (accepts : Accepts sent sys_writev) where
  pub tun-Serves : Serves Anything (tun_adapter reread sys_read sys_writev)
  unfolding tun_adapter read_tun write_tun after_write
  tun-Serves = record {
    counts_reads = λ a h.
        let (bytes, fd, d, e, short, counted, kept, same) =
          read_lem sent sys_read gives default_limit a.tun a.device in
        let ((seg, base), r, any) = tun_read-total reread a.base bytes in
        (
          seg,
          record { base = base; tun = fd; device = d },
          rw (e, r) refl,
          tt,
          λ same_count. counts_on a.tun.read_count (same_count ∙ counted),
        );
    writes = λ seg a fits h.
        let (bl, e, size) = length-tun_write a.base seg fits.least fits.most fits.short in
        let (fd, d, q, got) =
          write_all_lem sent sys_writev accepts (suc (length (concatenate bl))) (concatenate bl)
            a.tun a.device (omega (arith, size, fits)) (omega arith) in
        (record a { tun = fd; device = d }, rw (e, q) refl, tt);
    ticks = λ ms a h. (a, refl, h);
    configures = λ c a h. h;
    listens = λ b a h. h;
  }

  module _ {K G : Type 0} (moved_size : ℕ → ℕ) (kernel : Kernel K) (received : K → List ℕ)
      (works : Works received kernel) (generator : G → ℕ × G) where
    -- A socket without a connection, over TCPOverIPv4OverTunFdAdapter or over LossyFdAdapter of it, whose capacities
    -- fit a `size_t`, whose system calls on the pipe do not fail, and whose device can always be read and written,
    -- perhaps a part at a time: neither `connect` nor `listen_and_accept` throws, however many rounds the loop
    -- meets, whatever poll(2) does but report a broken descriptor, whatever bytes the device gives, and whatever
    -- the generator of the losses gives.
    pub tun-IsAlive :
        (cfg : TcpConfig) (random : WrappingInt32) (c_ad : FdAdapterConfig) (fd : FileDescriptor)
        (k : K) (events : List Event) (base_time : ℕ) (a : TunAdapter D) (g : G)
        → cfg.recv_capacity < u64_mod
        → cfg.send_capacity < u64_mod
        → fd.read_count < u32_mod
        → fd.write_count < u32_mod
        → All (λ event. Unbroken event.polled) events
        → OpensAlive moved_size kernel received works cfg random c_ad fd k events base_time Anything
            (tun_adapter reread sys_read sys_writev)
            tun-Serves
            a
          × OpensAlive moved_size kernel received works cfg random c_ad fd k events base_time
              {A = LossyFdAdapter (TunAdapter D) G}
              (λ l. Anything l.adapter)
              (lossy_adapter (λ b. b.base.cfg) generator (tun_adapter reread sys_read sys_writev))
              (lossy-Serves Anything
                (λ b. b.base.cfg)
                generator
                (tun_adapter reread sys_read sys_writev)
                tun-Serves)
              (record { adapter = a; rand = g })
    tun-IsAlive cfg random c_ad fd k events base_time a g hr hs rc wc h =
        let tun = tun_adapter reread sys_read sys_writev in
        (
          open-IsAlive moved_size tun kernel Anything received tun-Serves works cfg random c_ad fd k
              a events base_time hr hs rc wc tt h,
          open-IsAlive moved_size (lossy_adapter (λ b. b.base.cfg) generator tun) kernel
              (λ l. Anything l.adapter) received
              (lossy-Serves Anything (λ b. b.base.cfg) generator tun tun-Serves) works cfg random
              c_ad fd k (record { adapter = a; rand = g }) events base_time hr hs rc wc tt h,
        )

-- ===== src/Socket/Loop/Alive.antt =====
-- The socket's thread does not die of an exception.
use mathlib.Core.Option.{some-injective}
use tcp.Prelude.{
  All, ℕ, sym, subst, ◌∙◌, ◌<◌, refl, Bool, true, Bool-cases, inl, inr, ◌||◌, List, [], ◌∷◌, some,
  sub64, Returns, one_of, u32_mod, u64_mod,
}
use tcp.Connection
use tcp.Connection.{TcpConfig, TcpConnection}
use tcp.Connection.Total.{Sound, tick-Sound, connect-Sound}
use tcp.Connection.Calls.{init-Sound}
use tcp.Wrapping.{WrappingInt32}
use tcp.Connection.Opening.{IsOpening, connect-init}
use tcp.State.Start.{IsOpening-syn_sent}
use tcp.Adapter.{FdAdapterConfig}
use tcp.FileDescriptor.{FileDescriptor}
use tcp.EventLoop.{is_exit, Rule}
use tcp.EventLoop.Cooperative.{IsCooperative, Unbroken, wait_next_event-Cooperative}
use tcp.Socket.{Kernel, DatagramAdapter, SpongeSocket, rules, initialize_tcp}
use tcp.Socket.Running.{Works, Serves, IsRunning}
use tcp.Socket.Contract.{rules-IsCooperative}
use tcp.Socket.Loop.{
  Event, Looped, looping, finished, pass_time, tcp_loop, listen_and_accept, connect, configured,
  await_peer, is_state,
}

module _ {A K : Type 0} (moved_size : ℕ → ℕ) (adapter : DatagramAdapter A) (kernel : Kernel K)
    (Fine : A → Type 0) (received : K → List ℕ) (serves : Serves Fine adapter)
    (works : Works received kernel) where
  -- No exception has left the loop, and the socket is one that runs.
  pub data IsAlive : Looped A K → Type 0 where
    still_looping :
        {s : SpongeSocket A K} {rs : List (Rule (SpongeSocket A K))} {base_time : ℕ}
        → IsRunning Fine s
        → IsAlive (looping s rs base_time)
    has_finished :
        {s : SpongeSocket A K} {rs : List (Rule (SpongeSocket A K))}
        → IsRunning Fine s
        → IsAlive (finished s rs)

  pass_time-IsRunning :
      (next_time base_time : ℕ) (s : SpongeSocket A K)
      → IsRunning Fine s
      → Returns
          (λ q. IsRunning Fine q.0)
          (pass_time moved_size adapter kernel next_time base_time s)
  unfolding pass_time
  pass_time-IsRunning next_time base_time s v =
      let (a, e, fine) =
        serves.ticks (sub64 next_time base_time) s.datagram_adapter v.adapter_fine in
      one_of (Returns (λ q. IsRunning Fine q.0)) s.tcp.active _ _
        (
          (
            record s {
              datagram_adapter = a;
              tcp = Connection.tick s.tcp (sub64 next_time base_time);
            },
            next_time,
          ),
          rw e refl,
          record {
            connection = tick-Sound moved_size s.tcp (sub64 next_time base_time) v.connection;
            reads_small = v.reads_small;
            writes_small = v.writes_small;
            adapter_fine = fine;
          },
        )
        (_, refl, v)

  pub tcp_loop-IsAlive :
      (condition : SpongeSocket A K → Bool) (events : List Event) (base_time : ℕ)
      (rs : List (Rule (SpongeSocket A K))) (s : SpongeSocket A K)
      → All (λ event. Unbroken event.polled) events
      → All (IsCooperative (IsRunning Fine)) rs
      → IsRunning Fine s
      → IsAlive (tcp_loop moved_size adapter kernel condition events base_time rs s)
  unfolding tcp_loop
  tcp_loop-IsAlive condition [] base_time rs s h c v =
      one_of IsAlive (condition s) _ _ (still_looping v) (has_finished v)
  tcp_loop-IsAlive condition (event ∷ events) base_time rs s (h, hs) c v =
      let (result, rs1, s1, e, c1, v1) =
        wait_next_event-Cooperative (IsRunning Fine) event.polled rs s h c v in
      let (q, e2, v2) = pass_time-IsRunning event.now base_time s1 v1 in
      elim (Bool-cases (condition s)) [
        | inr ends ↦ rw (tcp_loop, ends) (has_finished v)
        | inl goes_on ↦ elim (Bool-cases (is_exit result || event.aborted)) [
          | inl out ↦ rw (tcp_loop, goes_on) (rw e (rw out (has_finished v1)))
          | inr stays ↦
              rw (tcp_loop, goes_on)
                (rw e (rw stays (rw e2 (tcp_loop-IsAlive condition events q.1 rs1 q.0 hs c1 v2))))
        ]
      ]

  -- A socket that has got its connection runs.
  configured-IsRunning :
      (cfg : TcpConfig) (random : WrappingInt32) (c_ad : FdAdapterConfig) (fd : FileDescriptor)
      (k : K) (a : A)
      → cfg.recv_capacity < u64_mod
      → cfg.send_capacity < u64_mod
      → fd.read_count < u32_mod
      → fd.write_count < u32_mod
      → Fine a
      → IsRunning Fine (configured moved_size adapter kernel cfg random c_ad fd k a)
  unfolding configured initialize_tcp
  configured-IsRunning cfg random c_ad fd k a hr hs rc wc fine = record {
    connection = init-Sound cfg random hr hs;
    reads_small = rc;
    writes_small = wc;
    adapter_fine = serves.configures c_ad a fine;
  }

  await_peer-IsAlive :
      (cfg : TcpConfig) (events : List Event) (base_time : ℕ) (s : SpongeSocket A K)
      → All (λ event. Unbroken event.polled) events
      → IsOpening s.tcp cfg
      → IsRunning Fine s
      → IsAlive (await_peer moved_size adapter kernel events base_time (some s))
  unfolding await_peer is_state
  await_peer-IsAlive cfg events base_time s h o v = rw (IsOpening-syn_sent s.tcp cfg o) (
      tcp_loop-IsAlive _ events base_time (rules moved_size adapter kernel) s h
        (rules-IsCooperative moved_size adapter kernel Fine received serves works) v)

  -- A socket without a connection, whose capacities fit a `size_t`, over a kernel whose calls on the pipe do not
  -- fail and an adapter that does not throw and counts its reads: `connect` finds the connection in SYN_SENT,
  -- and neither it nor `listen_and_accept` throws, however many rounds its loop meets, whatever poll(2) does but
  -- report a broken descriptor, and whatever segments arrive: no callback throws, `TCPConnection::write()`
  -- accepts all that is read for it, and the event loop finds no busy waiting.
  pub open-IsAlive :
      (cfg : TcpConfig) (random : WrappingInt32) (c_ad : FdAdapterConfig) (fd : FileDescriptor)
      (k : K) (a : A) (events : List Event) (base_time : ℕ)
      → cfg.recv_capacity < u64_mod
      → cfg.send_capacity < u64_mod
      → fd.read_count < u32_mod
      → fd.write_count < u32_mod
      → Fine a
      → All (λ event. Unbroken event.polled) events
      → IsAlive (connect moved_size adapter kernel cfg random c_ad fd k a events base_time)
        × IsAlive
            (listen_and_accept moved_size adapter kernel cfg random c_ad fd k a events base_time)
  unfolding connect listen_and_accept configured initialize_tcp
  open-IsAlive cfg random c_ad fd k a events base_time hr hs rc wc fine h =
      let v = configured-IsRunning cfg random c_ad fd k a hr hs rc wc fine in
      let (c, e, o) = connect-init moved_size cfg random in
      let (c', e', w) = connect-Sound moved_size (Connection.init cfg random) v.connection in
      (
        rw e (
            await_peer-IsAlive cfg events base_time
              (record (configured moved_size adapter kernel cfg random c_ad fd k a) { tcp = c }) h o
              (record {
                connection = subst Sound (some-injective _ _ (sym e' ∙ e)) w;
                reads_small = rc;
                writes_small = wc;
                adapter_fine = v.adapter_fine;
              })),
        tcp_loop-IsAlive _ events base_time (rules moved_size adapter kernel) _ h
            (rules-IsCooperative moved_size adapter kernel Fine received serves works)
            (record {
              connection = v.connection;
              reads_small = rc;
              writes_small = wc;
              adapter_fine = serves.listens true _ v.adapter_fine;
            }),
      )

module _ {K : Type 0} (moved_size : ℕ → ℕ) (kernel : Kernel K) (received : K → List ℕ)
    (works : Works received kernel) (cfg : TcpConfig) (random : WrappingInt32)
    (c_ad : FdAdapterConfig) (fd : FileDescriptor) (k : K) (events : List Event)
    (base_time : ℕ) where
  -- No exception leaves `connect` or `listen_and_accept` over an adapter.
  abbrev pub OpensAlive :
      {A : Type 0} (Fine : A → Type 0) (adapter : DatagramAdapter A)
      → Serves Fine adapter
      → A
      → Type 0
  OpensAlive Fine adapter serves a =
      IsAlive moved_size adapter kernel Fine received serves works
        (connect moved_size adapter kernel cfg random c_ad fd k a events base_time)
      × IsAlive moved_size adapter kernel Fine received serves works
          (listen_and_accept moved_size adapter kernel cfg random c_ad fd k a events base_time)

-- ===== src/Socket/Loop.antt =====
-- The loop of the socket's thread, and the ways to open a connection. `Event` is what one round meets: what
-- poll(2) does, the clock after it, and whether the owner has asked to abort.
pub mod Alive
use tcp.Prelude.{
  ℕ, ◌≡◌, refl, Bool, true, false, Bool-cases, inl, inr, not, ◌&&◌, ◌||◌, List, [], ◌∷◌, Option,
  none, some, and_then, if◌then◌else◌, sub64, Returns,
}
use tcp.Wrapping.{WrappingInt32}
use tcp.Connection
use tcp.Connection.{TcpConfig, TcpConnection}
use tcp.State.{
  TcpState, state, of_official, same_state, syn_sent_state, listen_state, syn_rcvd_state,
}
use tcp.Adapter.{FdAdapterConfig}
use tcp.FileDescriptor.{FileDescriptor}
use tcp.EventLoop.{is_exit, Rule, Polled, Result, success, timeout, exits, wait_next_event}
use tcp.Socket.{Kernel, DatagramAdapter, SpongeSocket, with_tcp, rules, initialize_tcp}

pub record Event : Type 0 where
  pub polled : Polled
  pub now : ℕ
  pub aborted : Bool

-- What comes of a loop: it meets another round, it ends, or an exception leaves it.
pub data Looped (A K : Type 0) : Type 0 where
  looping : SpongeSocket A K → List (Rule (SpongeSocket A K)) → ℕ → Looped A K
  finished : SpongeSocket A K → List (Rule (SpongeSocket A K)) → Looped A K
  thrown : Looped A K

module _ {A K : Type 0} (moved_size : ℕ → ℕ) (adapter : DatagramAdapter A) (kernel : Kernel K) where
  -- The clock reaches the connection and the adapter: the socket and `base_time`.
  pub pass_time : ℕ → ℕ → SpongeSocket A K → Option (SpongeSocket A K × ℕ)
  pass_time next_time base_time s =
      if s.tcp.active
      then and_then (adapter.tick (sub64 next_time base_time) s.datagram_adapter) (λ a. some (
        record s { datagram_adapter = a; tcp = Connection.tick s.tcp (sub64 next_time base_time) },
        next_time,
      ))
      else some (s, base_time)

  -- `_tcp_loop`
  pub tcp_loop :
      (SpongeSocket A K → Bool)
      → List Event
      → ℕ
      → List (Rule (SpongeSocket A K))
      → SpongeSocket A K
      → Looped A K
  unfolding is_exit
  tcp_loop condition [] base_time rules s =
      if condition s then looping s rules base_time else finished s rules
  tcp_loop condition (event ∷ events) base_time rules s = elim (condition s) [
    | false ↦ finished s rules
    | true ↦ elim (wait_next_event event.polled rules s) [
      | none ↦ thrown
      | some p ↦ elim (is_exit p.0 || event.aborted) [
        | true ↦ finished p.1.1 p.1.0
        | false ↦ elim (pass_time event.now base_time p.1.1) [
          | none ↦ thrown
          | some q ↦ tcp_loop condition events q.1 p.1.0 q.0
        ]
      ]
    ]
  ]

  is_state : TcpState → SpongeSocket A K → Bool
  is_state t s = same_state (state s.tcp) t

  -- `connect` past `_tcp->connect()`: the test of the state, and the loop.
  await_peer : List Event → ℕ → Option (SpongeSocket A K) → Looped A K
  unfolding is_state
  await_peer events base_time none = thrown
  await_peer events base_time (some s) =
      if not (is_state (of_official syn_sent_state) s)
      then thrown
      else tcp_loop (is_state (of_official syn_sent_state)) events base_time
          (rules moved_size adapter kernel) s

  -- The socket with a new connection, its adapter configured.
  configured :
      TcpConfig → WrappingInt32 → FdAdapterConfig → FileDescriptor → K → A → SpongeSocket A K
  configured cfg random c_ad fd k a =
      initialize_tcp moved_size adapter kernel cfg random fd k (adapter.config_mut c_ad a)

  -- `connect`, of a socket that has no connection yet, to where it starts its thread.
  pub connect :
      TcpConfig
      → WrappingInt32
      → FdAdapterConfig
      → FileDescriptor
      → K
      → A
      → List Event
      → ℕ
      → Looped A K
  unfolding await_peer configured
  connect cfg random c_ad fd k a events base_time =
      let s = configured cfg random c_ad fd k a in
      await_peer events base_time
        (and_then (Connection.connect moved_size s.tcp) (λ c. some (with_tcp s c)))

  -- The condition of the loop of `listen_and_accept`.
  accepting : SpongeSocket A K → Bool
  unfolding is_state
  accepting s =
      is_state (of_official listen_state) s
      || is_state (of_official syn_rcvd_state) s
      || is_state (of_official syn_sent_state) s

  -- `listen_and_accept`, of a socket that has no connection yet, to where it starts its thread.
  pub listen_and_accept :
      TcpConfig
      → WrappingInt32
      → FdAdapterConfig
      → FileDescriptor
      → K
      → A
      → List Event
      → ℕ
      → Looped A K
  unfolding accepting configured
  listen_and_accept cfg random c_ad fd k a events base_time =
      let s = configured cfg random c_ad fd k a in
      tcp_loop accepting events base_time (rules moved_size adapter kernel)
        (record s { datagram_adapter = adapter.set_listening true s.datagram_adapter })

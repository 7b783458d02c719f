-- ===== src/Socket.antt =====
-- libsponge/tcp_helpers/tcp_sponge_socket.cc and .hh: a TCPConnection between a pipe to the application
-- and an adapter of datagrams, driven by the event loop. `Kernel` and `DatagramAdapter` are what it calls:
-- the system calls on the pipe, and the adapter's operations. What is logged is left out. A callback
-- that throws returns `none`.
pub mod Running
pub mod Rules
pub mod Inbound
pub mod Outbound
pub mod Contract
pub mod Loop
pub mod Lossy
pub mod Udp
pub mod Tun
mod Tests
use tcp.Prelude.{
  ℕ, suc, ◌^◌, min, Bool, true, false, not, ◌&&◌, ◌||◌, List, [], ◌∷◌, Option, none, some, ◌==◌,
  ltb, if◌then◌else◌, length, drop, and_then, sub64,
}
use tcp.ByteStream
use tcp.ByteStream.{ByteStream}
use tcp.Segment.{TcpSegment}
use tcp.Wrapping.{WrappingInt32}
use tcp.Receiver.{stream_out}
use tcp.Connection
use tcp.Connection.{TcpConfig, TcpConnection}
use tcp.Connection.Calls.{with_inbound}
use tcp.Adapter.{FdAdapterConfig}
use tcp.FileDescriptor
use tcp.FileDescriptor.{FileDescriptor, Written, still_writing, thrown, written, register_write}
use tcp.EventLoop
use tcp.EventLoop.{Rule, reading, writing, Polled, Result, success, timeout, exits}

-- The system calls on the socket pair, on the state of the kernel.
pub record Kernel (K : Type 0) : Type 0 where
  pub sys_read : ℕ → K → Option (List ℕ × K)
  pub sys_writev : List ℕ → K → Option (ℕ × K)
  pub sys_shutdown : K → Option K

-- What the socket uses of AdaptT.
pub record DatagramAdapter (A : Type 0) : Type 0 where
  pub fd : A → FileDescriptor
  pub read : A → Option (Option TcpSegment × A)
  pub write : TcpSegment → A → Option A
  pub tick : ℕ → A → Option A
  pub config_mut : FdAdapterConfig → A → A
  pub set_listening : Bool → A → A

-- TCPSpongeSocket while it has a connection, without its thread.
pub record SpongeSocket (A K : Type 0) : Type 0 where
  pub thread_data : FileDescriptor
  pub kernel : K
  pub datagram_adapter : A
  pub tcp : TcpConnection
  pub inbound_shutdown : Bool
  pub outbound_shutdown : Bool
  pub fully_acked : Bool

module _ {A K : Type 0} where
  abbrev pub with_tcp : SpongeSocket A K → TcpConnection → SpongeSocket A K
  with_tcp s c = record s { tcp = c }

  abbrev pub with_pipe : SpongeSocket A K → FileDescriptor → K → SpongeSocket A K
  with_pipe s fd k = record s { thread_data = fd; kernel = k }

  abbrev pub inbound : SpongeSocket A K → ByteStream
  inbound s = s.tcp.receiver.reassembler.output

  -- The end of the callback of rule 1.
  pub note_acked : SpongeSocket A K → SpongeSocket A K
  note_acked s =
      if s.thread_data.eof && (Connection.bytes_in_flight s.tcp == 0) && not s.fully_acked
      then record s { fully_acked = true }
      else s

module _ {A K : Type 0} (moved_size : ℕ → ℕ) (adapter : DatagramAdapter A) (kernel : Kernel K) where
  -- `if (seg) _tcp->segment_received(…)`
  pub receive : SpongeSocket A K → Option TcpSegment → Option (SpongeSocket A K)
  receive s none = some s
  receive s (some seg) =
      and_then (Connection.segment_received moved_size s.tcp seg) (λ c. some (with_tcp s c))

  -- Rule 1: from the adapter to the connection.
  pub read_datagram : SpongeSocket A K → Option (SpongeSocket A K)
  unfolding receive note_acked
  read_datagram s = and_then (adapter.read s.datagram_adapter) (λ (seg, a).
      and_then (receive (record s { datagram_adapter = a }) seg) (λ s'. some (note_acked s')))

  abbrev pub wants_datagram : SpongeSocket A K → Bool
  wants_datagram s = s.tcp.active

  -- `end_input_stream` and `_outbound_shutdown`
  pub end_outbound : SpongeSocket A K → Option (SpongeSocket A K)
  end_outbound s =
      and_then (Connection.end_input_stream moved_size s.tcp)
        (λ c. some (record s { tcp = c; outbound_shutdown = true }))

  -- Rule 2 once the bytes are read.
  pub write_outbound : SpongeSocket A K → List ℕ → Option (SpongeSocket A K)
  unfolding end_outbound
  write_outbound s bytes =
      and_then (Connection.write moved_size s.tcp bytes) (λ (amount_written, c).
        let s' = with_tcp s c in
        if not (amount_written == length bytes)
        then none
        else if s.thread_data.eof
        then end_outbound s'
        else some s')

  -- Rule 2: from the pipe to the outbound stream.
  pub read_outbound : SpongeSocket A K → Option (SpongeSocket A K)
  unfolding write_outbound
  read_outbound s =
      and_then
        (FileDescriptor.read kernel.sys_read (Connection.remaining_outbound_capacity s.tcp)
          s.thread_data s.kernel)
        (λ (bytes, (fd, k)). write_outbound (with_pipe s fd k) bytes)

  pub wants_outbound : SpongeSocket A K → Bool
  wants_outbound s =
      s.tcp.active
      && not s.outbound_shutdown
      && ltb 0 (Connection.remaining_outbound_capacity s.tcp)

  -- The end of the callback of rule 3.
  pub shut_inbound : SpongeSocket A K → Option (SpongeSocket A K)
  shut_inbound s =
      if ByteStream.eof (inbound s) || ByteStream.error (inbound s)
      then and_then (kernel.sys_shutdown s.kernel) (λ k. some (record s {
        thread_data = register_write s.thread_data;
        kernel = k;
        inbound_shutdown = true;
      }))
      else some s

  -- Rule 3 once the bytes are written.
  pub pop_inbound : SpongeSocket A K → Written K → Option (SpongeSocket A K)
  unfolding shut_inbound
  pop_inbound s still_writing = none
  pop_inbound s thrown = none
  pop_inbound s (written n fd k) =
      and_then (ByteStream.pop_output (inbound s) n)
        (λ t. shut_inbound (record s { thread_data = fd; kernel = k; tcp = with_inbound s.tcp t }))

  -- Rule 3: from the inbound stream to the pipe. One system call is made: `write_all` is false.
  pub write_inbound : SpongeSocket A K → Option (SpongeSocket A K)
  unfolding pop_inbound
  write_inbound s =
      let amount_to_write = min 65536 (ByteStream.buffer_size (inbound s)) in
      let buffer = ByteStream.peek_output (inbound s) amount_to_write in
      pop_inbound s (FileDescriptor.write kernel.sys_writev 1 buffer false s.thread_data s.kernel)

  pub wants_inbound : SpongeSocket A K → Bool
  wants_inbound s =
      not (ByteStream.buffer_empty (inbound s))
      || (ByteStream.eof (inbound s) || ByteStream.error (inbound s)) && not s.inbound_shutdown

  -- The loop of rule 4.
  pub write_segments : List TcpSegment → A → Option A
  write_segments [] a = some a
  write_segments (seg ∷ queue) a = and_then (adapter.write seg a) (write_segments queue)

  -- Rule 4: from the queue of the connection to the adapter.
  pub write_datagrams : SpongeSocket A K → Option (SpongeSocket A K)
  unfolding write_segments
  write_datagrams s =
      and_then (write_segments s.tcp.segments_out s.datagram_adapter)
        (λ a. some (record s { datagram_adapter = a; tcp = record s.tcp { segments_out = [] } }))

  pub wants_to_send : SpongeSocket A K → Bool
  wants_to_send s = elim s.tcp.segments_out [ [] ↦ false | seg ∷ queue ↦ true ]

  adapter_fd : SpongeSocket A K → FileDescriptor
  adapter_fd s = adapter.fd s.datagram_adapter

  pipe_fd : SpongeSocket A K → FileDescriptor
  pipe_fd s = s.thread_data

  -- The rules that `_initialize_TCP` adds, in their order.
  pub datagram_rule : Rule (SpongeSocket A K)
  datagram_rule = record {
    fd = adapter_fd;
    direction = reading;
    callback = read_datagram;
    interest = wants_datagram;
    cancel = some;
  }

  pub outbound_rule : Rule (SpongeSocket A K)
  outbound_rule = record {
    fd = pipe_fd;
    direction = reading;
    callback = read_outbound;
    interest = wants_outbound;
    cancel = end_outbound;
  }

  pub inbound_rule : Rule (SpongeSocket A K)
  inbound_rule = record {
    fd = pipe_fd;
    direction = writing;
    callback = write_inbound;
    interest = wants_inbound;
    cancel = some;
  }

  pub segments_rule : Rule (SpongeSocket A K)
  segments_rule = record {
    fd = adapter_fd;
    direction = writing;
    callback = write_datagrams;
    interest = wants_to_send;
    cancel = some;
  }

  pub rules : List (Rule (SpongeSocket A K))
  rules = datagram_rule ∷ outbound_rule ∷ inbound_rule ∷ segments_rule ∷ []

  -- `_initialize_TCP`, on the pipe and the adapter of a new socket.
  pub initialize_tcp : TcpConfig → WrappingInt32 → FileDescriptor → K → A → SpongeSocket A K
  initialize_tcp cfg random fd k a = record {
    thread_data = fd;
    kernel = k;
    datagram_adapter = a;
    tcp = Connection.init cfg random;
    inbound_shutdown = false;
    outbound_shutdown = false;
    fully_acked = false;
  }

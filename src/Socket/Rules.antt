-- ===== src/Socket/Rules.antt =====
-- What the rules for incoming datagrams and for outbound bytes do.
use tcp.Prelude.{
  ℕ, ◌≤◌, ◌≡◌, ◌≢◌, refl, ap, ◌∙◌, min, true, not, ◌&&◌, List, Option, none, some, arith, ◌==◌,
  eq→==, length, and_then, one_of,
}
use tcp.Segment.{TcpSegment}
use tcp.Connection
use tcp.Connection.{TcpConnection}
use tcp.Connection.Total.{segment_received-Sound, write-Sound, end_input_stream-Sound}
use tcp.FileDescriptor.{FileDescriptor}
use tcp.FileDescriptor.Once.{read_lem}
use tcp.Socket.{
  Kernel, DatagramAdapter, SpongeSocket, with_tcp, with_pipe, note_acked, receive, read_datagram,
  end_outbound, write_outbound, read_outbound,
}
use tcp.Socket.Running.{Works, Serves, IsRunning, counted_once}

module _ {A K : Type 0} (moved_size : ℕ → ℕ) (adapter : DatagramAdapter A) (kernel : Kernel K)
    (Fine : A → Type 0) (received : K → List ℕ) (serves : Serves Fine adapter)
    (works : Works received kernel) where
  receive-IsRunning :
      (s : SpongeSocket A K) (seg : Option TcpSegment)
      → IsRunning Fine s
      → (s' : SpongeSocket A K) × (receive moved_size adapter kernel s seg ≡ some s')
        × IsRunning Fine s'
        × (s'.datagram_adapter ≡ s.datagram_adapter)
  unfolding receive
  receive-IsRunning s none v = (s, refl, v, refl)
  receive-IsRunning s (some seg) v =
      let (c, e, w) = segment_received-Sound moved_size s.tcp seg v.connection in
      (
        with_tcp s c,
        rw e refl,
        record {
          connection = w;
          reads_small = v.reads_small;
          writes_small = v.writes_small;
          adapter_fine = v.adapter_fine;
        },
        refl,
      )

  acked-IsRunning : (s : SpongeSocket A K) → IsRunning Fine s → IsRunning Fine (note_acked s)
  unfolding note_acked
  acked-IsRunning s v =
      one_of (IsRunning Fine)
        (s.thread_data.eof && (Connection.bytes_in_flight s.tcp == 0) && not s.fully_acked) _ s
        (record {
          connection = v.connection;
          reads_small = v.reads_small;
          writes_small = v.writes_small;
          adapter_fine = v.adapter_fine;
        })
        v

  adapter-note_acked : (s : SpongeSocket A K) → (note_acked s).datagram_adapter ≡ s.datagram_adapter
  unfolding note_acked
  adapter-note_acked s =
      one_of (λ x. x.datagram_adapter ≡ s.datagram_adapter)
        (s.thread_data.eof && (Connection.bytes_in_flight s.tcp == 0) && not s.fully_acked) _ s refl
        refl

  pub read_datagram-IsRunning :
      (s : SpongeSocket A K)
      → IsRunning Fine s
      → (s' : SpongeSocket A K) × (read_datagram moved_size adapter kernel s ≡ some s')
        × IsRunning Fine s'
        × ((adapter.fd s.datagram_adapter).read_count ≢ (adapter.fd s'.datagram_adapter).read_count)
  unfolding read_datagram
  read_datagram-IsRunning s v =
      let (seg, a, e, fine, counted) = serves.counts_reads s.datagram_adapter v.adapter_fine in
      let (s1, e1, v1, same) =
        receive-IsRunning (record s { datagram_adapter = a }) seg
          (record {
            connection = v.connection;
            reads_small = v.reads_small;
            writes_small = v.writes_small;
            adapter_fine = fine;
          }) in
      (
        note_acked s1,
        rw (e, and_then) (rw e1 refl),
        acked-IsRunning s1 v1,
        λ q. counted (q ∙ ap (λ x. (adapter.fd x).read_count) (adapter-note_acked s1 ∙ same)),
      )

  pub end_outbound-IsRunning :
      (s : SpongeSocket A K)
      → IsRunning Fine s
      → (s' : SpongeSocket A K) × (end_outbound moved_size adapter kernel s ≡ some s')
        × IsRunning Fine s'
        × (s'.thread_data ≡ s.thread_data)
  unfolding end_outbound
  end_outbound-IsRunning s v =
      let (c, e, w) = end_input_stream-Sound moved_size s.tcp v.connection in
      (
        record s { tcp = c; outbound_shutdown = true },
        rw e refl,
        record {
          connection = w;
          reads_small = v.reads_small;
          writes_small = v.writes_small;
          adapter_fine = v.adapter_fine;
        },
        refl,
      )

  -- The call returns, the socket keeps running, and the pipe's descriptor is `fd`.
  abbrev Runs : FileDescriptor → Option (SpongeSocket A K) → Type 0
  Runs fd o = (s' : SpongeSocket A K) × (o ≡ some s') × IsRunning Fine s' × (s'.thread_data ≡ fd)

  write_outbound-IsRunning :
      (s : SpongeSocket A K) (bytes : List ℕ)
      → length bytes ≤ Connection.remaining_outbound_capacity s.tcp
      → IsRunning Fine s
      → Runs s.thread_data (write_outbound moved_size adapter kernel s bytes)
  unfolding write_outbound
  write_outbound-IsRunning s bytes fits v =
      let (c, e, w) = write-Sound moved_size s.tcp bytes v.connection in
      let whole : (min (length bytes) (Connection.remaining_outbound_capacity s.tcp)
            == length bytes)
          ≡ true =
        eq→== _ _ (omega arith) in
      let v1 : IsRunning Fine (with_tcp s c) = record {
        connection = w;
        reads_small = v.reads_small;
        writes_small = v.writes_small;
        adapter_fine = v.adapter_fine;
      } in
      rw (e, and_then)
        (rw whole (
          one_of (Runs s.thread_data) s.thread_data.eof _ _
            (end_outbound-IsRunning (with_tcp s c) v1) (with_tcp s c, refl, v1, refl)))

  pub read_outbound-IsRunning :
      (s : SpongeSocket A K)
      → IsRunning Fine s
      → (s' : SpongeSocket A K) × (read_outbound moved_size adapter kernel s ≡ some s')
        × IsRunning Fine s'
        × (s.thread_data.read_count ≢ s'.thread_data.read_count)
  unfolding read_outbound
  read_outbound-IsRunning s v =
      let (bytes, fd, k, e, fits, counted, kept, same) =
        read_lem received kernel.sys_read works.gives (Connection.remaining_outbound_capacity s.tcp)
          s.thread_data s.kernel in
      let (s', e', v', pipe) = write_outbound-IsRunning (with_pipe s fd k) bytes fits (record {
        connection = v.connection;
        reads_small = omega (arith, counted);
        writes_small = omega (arith, kept, v.writes_small);
        adapter_fine = v.adapter_fine;
      }) in
      (
        s',
        rw (e, and_then) e',
        v',
        λ q.
            counted_once s.thread_data.read_count v.reads_small
              (q ∙ ap (λ x. x.read_count) pipe ∙ counted),
      )

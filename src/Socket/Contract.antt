-- ===== src/Socket/Contract.antt =====
-- The four rules keep the contract of the event loop.
use tcp.Prelude.{All, ℕ, ◌≡◌, refl, inl, inr, false, List, [], ◌∷◌, some, Returns}
use tcp.Segment.{TcpSegment}
use tcp.Sender.Total.{Fits}
use tcp.EventLoop.{service_count}
use tcp.EventLoop.Cooperative.{IsCooperative}
use tcp.Socket.{
  Kernel, DatagramAdapter, SpongeSocket, write_segments, write_datagrams, wants_to_send, rules,
  datagram_rule, outbound_rule, inbound_rule, segments_rule, adapter_fd, pipe_fd,
}
use tcp.Socket.Running.{Works, Serves, IsRunning}
use tcp.Socket.Rules.{read_datagram-IsRunning, read_outbound-IsRunning, end_outbound-IsRunning}
use tcp.Socket.Inbound.{write_inbound-IsRunning}

module _ {A K : Type 0} (moved_size : ℕ → ℕ) (adapter : DatagramAdapter A) (kernel : Kernel K)
    (Fine : A → Type 0) (received : K → List ℕ) (serves : Serves Fine adapter)
    (works : Works received kernel) where
  write_segments-Fine :
      (queue : List TcpSegment) (a : A)
      → All Fits queue
      → Fine a
      → Returns Fine (write_segments moved_size adapter kernel queue a)
  unfolding write_segments
  write_segments-Fine [] a h fine = (a, refl, fine)
  write_segments-Fine (seg ∷ queue) a (h, hs) fine =
      let (a1, e, fine1) = serves.writes seg a h fine in
      let (a', e', fine') = write_segments-Fine queue a1 hs fine1 in (a', rw e e', fine')

  write_datagrams-IsRunning :
      (s : SpongeSocket A K)
      → IsRunning Fine s
      → (s' : SpongeSocket A K) × (write_datagrams moved_size adapter kernel s ≡ some s')
        × IsRunning Fine s'
        × (wants_to_send moved_size adapter kernel s' ≡ false)
  unfolding write_datagrams wants_to_send
  write_datagrams-IsRunning s v =
      let (a, e, fine) =
        write_segments-Fine s.tcp.segments_out s.datagram_adapter v.connection.queued
          v.adapter_fine in
      (
        record s { datagram_adapter = a; tcp = record s.tcp { segments_out = [] } },
        rw e refl,
        record {
          connection = record {
            sender_sound = v.connection.sender_sound;
            receiver_sound = v.connection.receiver_sound;
            queued = tt;
          };
          reads_small = v.reads_small;
          writes_small = v.writes_small;
          adapter_fine = fine;
        },
        refl,
      )

  -- The rules of the socket keep the contract of the event loop: as long as the socket runs, its callbacks
  -- return and it goes on running, and each reads or writes its descriptor, or has nothing left to do.
  pub rules-IsCooperative : All (IsCooperative (IsRunning Fine)) (rules moved_size adapter kernel)
  unfolding rules datagram_rule outbound_rule inbound_rule segments_rule service_count adapter_fd
      pipe_fd
  rules-IsCooperative = (
    record {
      serves = λ s v.
          let (s', e, v', counted) =
            read_datagram-IsRunning moved_size adapter kernel Fine received serves works s v in
          (s', e, v', inl counted);
      cancels = λ s v. (s, refl, v);
    },
    (
      record {
        serves = λ s v.
            let (s', e, v', counted) =
              read_outbound-IsRunning moved_size adapter kernel Fine received serves works s v in
            (s', e, v', inl counted);
        cancels = λ s v.
            let (s', e, v', same) =
              end_outbound-IsRunning moved_size adapter kernel Fine received serves works s v in
            (s', e, v');
      },
      (
        record {
          serves = λ s v.
              let (s', e, v', counted, kept) =
                write_inbound-IsRunning moved_size adapter kernel Fine received serves works s v in
              (s', e, v', inl counted);
          cancels = λ s v. (s, refl, v);
        },
        (
          record {
            serves = λ s v.
                let (s', e, v', idle) = write_datagrams-IsRunning s v in (s', e, v', inr idle);
            cancels = λ s v. (s, refl, v);
          },
          tt,
        ),
      ),
    ),
  )

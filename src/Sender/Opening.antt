-- ===== src/Sender/Opening.antt =====
-- The first `fill_window` of a sender.
use tcp.Prelude.{ℕ, ◌≡◌, refl, some, [], ◌∷◌}
use tcp.Buffer.{str}
use tcp.ByteStream
use tcp.Segment.{length_in_sequence_space}
use tcp.Wrapping.{WrappingInt32}
use tcp.Sender.{TcpSender, init, fill_window, send_syn, emit, start_timer, syn_segment}

-- The SYN waits, and is all that is in flight.
pub record IsOpening (s : TcpSender) (stream : ByteStream.ByteStream) (isn : WrappingInt32)
    : Type 0 where
  pub same_stream : s.stream ≡ stream
  pub next_is : s.next_seqno ≡ 1
  pub flight_is : s.bytes_in_flight ≡ 1
  pub queue_is : s.segments_out ≡ syn_segment isn ∷ []

pub fill_window-init :
    (moved_size : ℕ → ℕ) (capacity timeout : ℕ) (isn : WrappingInt32)
    → (s : TcpSender) × (fill_window moved_size (init capacity timeout isn) ≡ some s)
      × IsOpening s (ByteStream.init capacity) isn
unfolding init fill_window send_syn emit start_timer syn_segment length_in_sequence_space str
fill_window-init moved_size capacity timeout isn = (
  send_syn (init capacity timeout isn),
  refl,
  record { same_stream = refl; next_is = refl; flight_is = refl; queue_is = refl },
)

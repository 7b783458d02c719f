-- ===== src/Sender.antt =====
-- libsponge/tcp_sender.cc and .hh: the sender of a TCP endpoint. It cuts the outgoing byte stream
-- into segments that fit the peer's window, keeps those not yet acknowledged, and sends the oldest
-- again when the timer runs out. A call that throws returns `none`.
pub mod Flight
pub mod Fill
pub mod Loop
pub mod Window
pub mod Ack
pub mod Timer
pub mod Total
pub mod Opening
pub mod Reach
pub mod Delivery
pub mod Tests
use tcp.Prelude.{
  ℕ, zero, suc, ◌+◌, ◌-◌, ◌*◌, ◌%◌, min, Bool, true, false, not, ◌&&◌, ◌||◌, List, [], ◌∷◌, ◌++◌,
  Option, none, some, ltb, leb, ◌==◌, if◌then◌else◌, length, u16_mod, u32_mod, add64, sub64,
}
use tcp.Buffer.{of_string}
use tcp.ByteStream
use tcp.ByteStream.{ByteStream}
use tcp.Segment.{
  TcpHeader, TcpSegment, default_header, default_segment, empty_buffer, length_in_sequence_space,
  flag,
}
use tcp.Wrapping.{WrappingInt32, wrap, unwrap}

-- TCPConfig::MAX_PAYLOAD_SIZE
abbrev pub max_payload_size : ℕ
max_payload_size = 1000

pub record TcpSender : Type 0 where
  pub isn : WrappingInt32
  pub segments_out : List TcpSegment
  pub initial_retransmission_timeout : ℕ
  pub stream : ByteStream
  pub next_seqno : ℕ
  pub segments_outstanding : List TcpSegment
  pub bytes_in_flight : ℕ
  pub receiver_window_size : ℕ
  pub consecutive_retransmissions : ℕ
  pub rto : ℕ
  pub tick_count : ℕ
  pub timer_running : Bool
  pub syn : Bool
  pub fin : Bool

-- The constructor; `isn` is the fixed number of the configuration, or else a random one.
unfoldable pub init : ℕ → ℕ → WrappingInt32 → TcpSender
init capacity retx_timeout isn = record {
  isn = isn;
  segments_out = [];
  initial_retransmission_timeout = retx_timeout;
  stream = ByteStream.init capacity;
  next_seqno = 0;
  segments_outstanding = [];
  bytes_in_flight = 0;
  receiver_window_size = 1;
  consecutive_retransmissions = 0;
  rto = 0;
  tick_count = 0;
  timer_running = false;
  syn = false;
  fin = false;
}

-- `if(!_timer_running) …`
unfoldable pub start_timer : TcpSender → TcpSender
start_timer s =
    if s.timer_running
    then s
    else record s { rto = s.initial_retransmission_timeout; tick_count = 0; timer_running = true }

-- A segment goes out and is kept until it is acknowledged; `next` is `_next_seqno` after it.
unfoldable pub emit : TcpSender → TcpSegment → ℕ → TcpSender
unfolding start_timer
emit s seg next = start_timer (record s {
  segments_out = s.segments_out ++ seg ∷ [];
  next_seqno = next;
  segments_outstanding = s.segments_outstanding ++ seg ∷ [];
  bytes_in_flight = add64 s.bytes_in_flight (length_in_sequence_space seg);
})

pub syn_segment : WrappingInt32 → TcpSegment
syn_segment isn = record default_segment {
  header = record default_header { seqno = isn; syn = true };
}

-- The first call: the SYN. `_bytes_in_flight` is set, not added to.
pub send_syn : TcpSender → TcpSender
unfolding emit syn_segment
send_syn s = emit (record s { bytes_in_flight = 0; syn = true }) (syn_segment s.isn) 1

-- What may still be sent: the window less the bytes in flight, a window of 0 counting as 1.
pub remaining : TcpSender → ℕ
remaining s =
    let remain = sub64 s.receiver_window_size s.bytes_in_flight in
    if s.receiver_window_size == 0 then add64 remain 1 else remain

pub data_segment : WrappingInt32 → List ℕ → Bool → TcpSegment
data_segment seqno payload fin = record {
  header = record default_header { seqno = seqno; fin = fin };
  payload = of_string payload;
}

pub fin_segment : WrappingInt32 → TcpSegment
fin_segment seqno = record default_segment {
  header = record default_header { seqno = seqno; fin = true };
}

-- The segment without data that carries only the FIN.
pub send_fin : TcpSender → ℕ → TcpSender
unfolding emit fin_segment
send_fin s remain =
    if not s.fin && ByteStream.eof s.stream && not (remain == 0)
    then emit (record s { fin = true }) (fin_segment (wrap s.next_seqno s.isn))
        (add64 s.next_seqno 1)
    else s

unfoldable pub send_empty_segment : TcpSender → TcpSender
send_empty_segment s = record s {
  segments_out =
      s.segments_out
      ++ record default_segment {
        header = record default_header { seqno = wrap s.next_seqno s.isn };
      }
        ∷ [];
}

-- `moved_size n` is the size of a std::string of `n` bytes after a move from it, which the language
-- leaves open: the loop of `fill_window` reads it.
module _ (moved_size : ℕ → ℕ) where
  -- One round of the loop after `_stream.read`; `remain` is what is left of the window.
  pub send_data : TcpSender → ℕ → List ℕ → ByteStream → TcpSender
  unfolding emit data_segment
  send_data s remain payload stream =
      let seqno = wrap s.next_seqno s.isn in
      let next = add64 (unwrap seqno s.isn s.next_seqno) (length payload) in
      let fin_now = ByteStream.eof stream && leb (add64 (moved_size (length payload)) 1) remain in
      emit (record s { stream = stream; fin = if fin_now then true else s.fin })
        (data_segment seqno payload fin_now) (if fin_now then add64 next 1 else next)

  -- The loop, with what is left of the window. `Loop` shows that a fuel of `_stream.buffer_size()`
  -- is enough: every round reads at least one byte.
  pub fill_loop : ℕ → TcpSender → ℕ → Option (TcpSender × ℕ)
  fill_loop zero s remain = some (s, remain)
  fill_loop (suc fuel) s remain =
      let rest : Option (TcpSender × ℕ) =
        elim (ByteStream.read s.stream (min remain max_payload_size)) [
          | none ↦ none
          | some (payload, stream) ↦
              let remain' = sub64 remain (length payload) in
              fill_loop fuel (send_data s remain' payload stream) remain'
        ] in
      if ltb 0 remain && ltb 0 (ByteStream.buffer_size s.stream) then rest else some (s, remain)

  pub finish_fill : Option (TcpSender × ℕ) → Option TcpSender
  unfolding send_fin
  finish_fill none = none
  finish_fill (some (s, remain)) = some (send_fin s remain)

  pub fill_window : TcpSender → Option TcpSender
  unfolding send_syn finish_fill remaining
  fill_window s =
      if not s.syn
      then some (send_syn s)
      else finish_fill (fill_loop (ByteStream.buffer_size s.stream) s (remaining s))

-- The `do` loop of `ack_received` for the segments in front; the others are kept.
pub pop_acked : ℕ → TcpSender → List TcpSegment → TcpSender
pop_acked acked s [] = record s { segments_outstanding = [] }
pop_acked acked s (t ∷ ts) =
    let len = length_in_sequence_space t in
    let rest =
      pop_acked acked
        (record s {
          bytes_in_flight = sub64 s.bytes_in_flight len;
          consecutive_retransmissions = 0;
          rto = s.initial_retransmission_timeout;
          tick_count = 0;
        })
        ts in
    if ltb (sub64 (add64 (unwrap t.header.seqno s.isn s.next_seqno) len) 1) acked
    then rest
    else record s { segments_outstanding = t ∷ ts }

-- `if(!_bytes_in_flight) _timer_running = false;`
pub stop_timer : TcpSender → TcpSender
stop_timer s = if s.bytes_in_flight == 0 then record s { timer_running = false } else s

-- The acknowledgment is beyond what was sent, or does not reach the oldest segment.
pub rejects : TcpSender → ℕ → ℕ → TcpSegment → Bool
rejects s acked window t =
    ltb s.next_seqno acked
    || ltb (add64 (sub64 (add64 acked window) 1) (if window == 0 then 1 else 0))
        (add64 (unwrap t.header.seqno s.isn s.next_seqno) (length_in_sequence_space t))

-- The window update of an acknowledgment of everything sent.
pub update_window : TcpSender → ℕ → ℕ → TcpSender
update_window s acked window =
    if (acked == s.next_seqno) && not (window == s.receiver_window_size)
    then record s { receiver_window_size = window }
    else s

module _ (moved_size : ℕ → ℕ) where
  -- The part of `ack_received` behind the first test, by the oldest outstanding segment.
  pub acknowledge : TcpSender → ℕ → ℕ → List TcpSegment → Option TcpSender
  unfolding rejects stop_timer
  acknowledge s acked window [] = some s
  acknowledge s acked window (t ∷ ts) =
      if rejects s acked window t
      then some s
      else fill_window moved_size
          (stop_timer (pop_acked acked (record s { receiver_window_size = window }) (t ∷ ts)))

  pub ack_received : TcpSender → WrappingInt32 → ℕ → Option TcpSender
  unfolding update_window acknowledge
  ack_received s ackno window =
      let acked = unwrap ackno s.isn s.next_seqno in
      let s' = update_window s acked window in acknowledge s' acked window s'.segments_outstanding

-- The oldest segment is sent again, and the timeout doubled unless the window is 0.
pub retransmit : TcpSender → List TcpSegment → TcpSender
retransmit s [] = s
retransmit s (t ∷ ts) =
    let backs_off = not (s.receiver_window_size == 0) || t.header.syn in
    record s {
      segments_out = s.segments_out ++ t ∷ [];
      consecutive_retransmissions =
          if backs_off
          then (s.consecutive_retransmissions + 1) % u16_mod
          else s.consecutive_retransmissions;
      rto = if backs_off then s.rto * 2 % u32_mod else s.rto;
      tick_count = 0;
    }

pub tick : TcpSender → ℕ → TcpSender
unfolding retransmit
tick s ms =
    let s' = record s { tick_count = add64 s.tick_count ms } in
    if leb s.rto s'.tick_count then retransmit s' s.segments_outstanding else s'

unfoldable pub next_seqno_relative : TcpSender → WrappingInt32
next_seqno_relative s = wrap s.next_seqno s.isn

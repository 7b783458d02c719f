-- ===== src/Connection.antt =====
-- libsponge/tcp_connection.cc and .hh: a TCP endpoint, made of a receiver and a sender. What the
-- sender queues goes out with the receiver's acknowledgment and window. A call that throws returns
-- `none`.
pub mod Outgoing
pub mod Abort
pub mod Life
pub mod Total
pub mod Opening
pub mod Calls
pub mod Tests
use tcp.Prelude.{
  ℕ, zero, suc, ◌+◌, ◌*◌, ◌%◌, Bool, true, false, not, ◌&&◌, ◌||◌, List, [], ◌∷◌, ◌++◌, Option,
  none, some, ltb, leb, ◌==◌, if◌then◌else◌, length, u16_mod, add64,
}
use tcp.Buffer
use tcp.ByteStream
use tcp.ByteStream.{ByteStream}
use tcp.Segment.{TcpHeader, TcpSegment, length_in_sequence_space}
use tcp.Wrapping.{WrappingInt32}
use tcp.Receiver
use tcp.Receiver.{TcpReceiver}
use tcp.Sender
use tcp.Sender.{TcpSender}

-- TCPConfig, and its limit of retransmissions.
pub record TcpConfig : Type 0 where
  pub rt_timeout : ℕ
  pub recv_capacity : ℕ
  pub send_capacity : ℕ
  pub fixed_isn : Option WrappingInt32

abbrev pub max_retx_attempts : ℕ
max_retx_attempts = 8

pub record TcpConnection : Type 0 where
  pub cfg : TcpConfig
  pub receiver : TcpReceiver
  pub sender : TcpSender
  pub segments_out : List TcpSegment
  pub linger_after_streams_finish : Bool
  pub time_since_last_segment_received : ℕ
  pub active : Bool
  pub need_send_rst : Bool

-- `fixed_isn.value_or(random)`
isn_or : Option WrappingInt32 → WrappingInt32 → WrappingInt32
isn_or none random = random
isn_or (some isn) random = isn

-- The constructor; `random` is the number that the random device gives.
pub init : TcpConfig → WrappingInt32 → TcpConnection
unfolding isn_or
init cfg random = record {
  cfg = cfg;
  receiver = Receiver.init cfg.recv_capacity;
  sender = Sender.init cfg.send_capacity cfg.rt_timeout (isn_or cfg.fixed_isn random);
  segments_out = [];
  linger_after_streams_finish = true;
  time_since_last_segment_received = 0;
  active = true;
  need_send_rst = false;
}

-- The lingering is over, or none is needed.
pub clean_shutdown : TcpConnection → TcpConnection
clean_shutdown c =
    if ByteStream.input_ended (Receiver.stream_out c.receiver)
    then if not c.sender.fin
      then record c { linger_after_streams_finish = false }
      else if c.sender.bytes_in_flight == 0
          && (not c.linger_after_streams_finish
              || leb (10 * c.cfg.rt_timeout) c.time_since_last_segment_received)
      then record c { active = false }
      else c
    else c

-- The fields that the receiver fills in; `win` has 16 bits.
acknowledged : Option WrappingInt32 → ℕ → TcpSegment → TcpSegment
acknowledged none window seg = seg
acknowledged (some ackno) window seg = record seg {
  header = record seg.header { ack = true; ackno = ackno; win = window % u16_mod };
}

with_rst : Bool → TcpSegment → TcpSegment
with_rst rst seg = if rst then record seg { header = record seg.header { rst = true } } else seg

-- A segment as it goes out.
pub stamp : TcpReceiver → Bool → TcpSegment → TcpSegment
unfolding acknowledged with_rst
stamp r rst seg = with_rst rst (acknowledged (Receiver.ackno r) (Receiver.window_size r) seg)

-- The loop of `send_sender_segments`: the first segment takes the RST.
pub stamp_all : TcpReceiver → Bool → List TcpSegment → List TcpSegment
stamp_all r rst [] = []
stamp_all r rst (seg ∷ rest) = stamp r rst seg ∷ stamp_all r false rest

is_empty : List TcpSegment → Bool
is_empty [] = true
is_empty (seg ∷ rest) = false

-- The sender has a segment for the RST.
pub prepare_rst : TcpConnection → TcpSender
unfolding is_empty
prepare_rst c =
    if is_empty c.sender.segments_out && c.need_send_rst
    then Sender.send_empty_segment c.sender
    else c.sender

-- The queue of the sender moves to the queue of the connection.
pub move_segments : TcpConnection → TcpSender → TcpConnection
unfolding is_empty
move_segments c s = record c {
  sender = record s { segments_out = [] };
  segments_out = c.segments_out ++ stamp_all c.receiver c.need_send_rst s.segments_out;
  need_send_rst = c.need_send_rst && is_empty s.segments_out;
}

pub send_sender_segments : TcpConnection → TcpConnection
unfolding prepare_rst move_segments
send_sender_segments c = clean_shutdown (move_segments c (prepare_rst c))

-- `_receiver.stream_out().set_error()`
set_inbound_error : TcpReceiver → TcpReceiver
set_inbound_error r = record r {
  reassembler = record r.reassembler { output = ByteStream.set_error r.reassembler.output };
}

pub unclean_shutdown : TcpConnection → Bool → TcpConnection
unfolding set_inbound_error
unclean_shutdown c rst = send_sender_segments (record c {
  sender = record c.sender { stream = ByteStream.set_error c.sender.stream };
  receiver = set_inbound_error c.receiver;
  active = false;
  need_send_rst = rst;
})

abbrev pub has_value : Option WrappingInt32 → Bool
has_value none = false
has_value (some x) = true

-- Nothing is sent or received yet.
pub listening : TcpConnection → Bool
listening c = (c.sender.next_seqno == 0) && not (has_value (Receiver.ackno c.receiver))

-- The SYN is sent and nothing acknowledged.
pub syn_sent : TcpConnection → Bool
syn_sent c = ltb 0 c.sender.next_seqno && (c.sender.bytes_in_flight == c.sender.next_seqno)

-- A sender that a throwing call has not returned.
send_from : TcpConnection → Option TcpSender → Option TcpConnection
send_from c none = none
send_from c (some s) = some (send_sender_segments (record c { sender = s }))

-- The reply to a segment with an acknowledgment.
reply_if : Bool → TcpSender → TcpSender
unfolding is_empty
reply_if occupies s = if occupies && is_empty s.segments_out then Sender.send_empty_segment s else s

acked_sender : Bool → Option TcpSender → Option TcpSender
unfolding reply_if
acked_sender occupies none = none
acked_sender occupies (some s) = some (reply_if occupies s)

module _ (moved_size : ℕ → ℕ) where
  pub connect : TcpConnection → Option TcpConnection
  unfolding send_from
  connect c = send_from c (Sender.fill_window moved_size c.sender)

  -- The segment goes to the receiver, and its acknowledgment to the sender.
  pub exchange : TcpConnection → TcpSegment → Option TcpConnection
  unfolding send_from acked_sender
  exchange c seg =
      let c' = record c { receiver = Receiver.segment_received c.receiver seg } in
      if seg.header.ack
      then send_from c' (
          acked_sender (ltb 0 (length_in_sequence_space seg))
            (Sender.ack_received moved_size c.sender seg.header.ackno seg.header.win))
      else some c'

  -- What a segment does where the SYN is sent and not acknowledged.
  pub handshake : TcpConnection → TcpSegment → Option TcpConnection
  unfolding exchange
  handshake c seg =
      if ltb 0 (Buffer.buffer_size seg.payload)
      then some c
      else if seg.header.ack
      then exchange c seg
      else if seg.header.syn
      then some (
          send_sender_segments (record c {
            receiver = Receiver.segment_received c.receiver seg;
            sender = Sender.send_empty_segment c.sender;
          }))
      else some c

  -- The first segment of a passive open.
  pub accept : TcpConnection → TcpSegment → Option TcpConnection
  unfolding connect
  accept c seg =
      if seg.header.rst
      then some c
      else if not seg.header.syn
      then some c
      else connect (record c { receiver = Receiver.segment_received c.receiver seg })

  pub segment_received : TcpConnection → TcpSegment → Option TcpConnection
  unfolding handshake accept
  segment_received c seg =
      if not c.active
      then some c
      else let c' = record c { time_since_last_segment_received = 0 } in
        if listening c'
        then accept c' seg
        else if seg.header.rst
        then some (unclean_shutdown c' false)
        else if syn_sent c'
        then handshake c' seg
        else exchange c' seg

  -- `write`: the number of bytes written, and the connection.
  written : TcpConnection → ℕ → Option TcpConnection → Option (ℕ × TcpConnection)
  written c n none = none
  written c n (some c') = some (n, c')

  pub write : TcpConnection → List ℕ → Option (ℕ × TcpConnection)
  unfolding written connect
  write c [] = some (0, c)
  write c (b ∷ bs) =
      let (n, stream) = ByteStream.write c.sender.stream (b ∷ bs) in
      written c n (connect (record c { sender = record c.sender { stream = stream } }))

  pub end_input_stream : TcpConnection → Option TcpConnection
  unfolding connect
  end_input_stream c =
      connect
        (record c { sender = record c.sender { stream = ByteStream.end_input c.sender.stream } })

-- Too many retransmissions abort the connection.
pub give_up : TcpConnection → TcpConnection
give_up c =
    if ltb max_retx_attempts c.sender.consecutive_retransmissions
    then unclean_shutdown c true
    else c

pub tick : TcpConnection → ℕ → TcpConnection
unfolding give_up
tick c ms =
    if not c.active
    then c
    else send_sender_segments (
        give_up (record c {
          time_since_last_segment_received = add64 c.time_since_last_segment_received ms;
          sender = Sender.tick c.sender ms;
        }))

-- The destructor.
pub destroy : TcpConnection → TcpConnection
destroy c = if c.active then unclean_shutdown c true else c

unfoldable pub remaining_outbound_capacity : TcpConnection → ℕ
remaining_outbound_capacity c = ByteStream.remaining_capacity c.sender.stream

unfoldable pub bytes_in_flight : TcpConnection → ℕ
bytes_in_flight c = c.sender.bytes_in_flight

unfoldable pub unassembled_bytes : TcpConnection → ℕ
unassembled_bytes c = Receiver.unassembled_bytes c.receiver

-- ===== src/State.antt =====
-- libsponge/tcp_helpers/tcp_state.cc and .hh: the official TCP states, and the summary of a
-- connection that the tests compare with them. A summary string is a constructor here.
pub mod Sound
pub mod Start
mod Tests
use tcp.Prelude.{ℕ, ◌+◌, Bool, true, false, not, ◌&&◌, ltb, ◌==◌, if◌then◌else◌, add64}
use tcp.ByteStream
use tcp.Receiver
use tcp.Receiver.{TcpReceiver}
use tcp.Sender
use tcp.Sender.{TcpSender}
use tcp.Connection.{TcpConnection, has_value}

-- The strings of TCPReceiverStateSummary.
pub data ReceiverSummary : Type 0 where
  receiver_error : ReceiverSummary
  listen : ReceiverSummary
  syn_recv : ReceiverSummary
  fin_recv : ReceiverSummary

-- The strings of TCPSenderStateSummary.
pub data SenderSummary : Type 0 where
  sender_error : SenderSummary
  closed : SenderSummary
  syn_sent : SenderSummary
  syn_acked : SenderSummary
  fin_sent : SenderSummary
  fin_acked : SenderSummary

pub record TcpState : Type 0 where
  pub sender : SenderSummary
  pub receiver : ReceiverSummary
  pub active : Bool
  pub linger_after_streams_finish : Bool

-- TCPState::State
pub data Official : Type 0 where
  listen_state : Official
  syn_rcvd_state : Official
  syn_sent_state : Official
  established_state : Official
  close_wait_state : Official
  last_ack_state : Official
  fin_wait_1_state : Official
  fin_wait_2_state : Official
  closing_state : Official
  time_wait_state : Official
  closed_state : Official
  reset_state : Official

-- The constructor from an official state.
pub of_official : Official → TcpState
of_official listen_state = record {
  sender = closed;
  receiver = listen;
  active = true;
  linger_after_streams_finish = true;
}
of_official syn_rcvd_state = record {
  sender = syn_sent;
  receiver = syn_recv;
  active = true;
  linger_after_streams_finish = true;
}
of_official syn_sent_state = record {
  sender = syn_sent;
  receiver = listen;
  active = true;
  linger_after_streams_finish = true;
}
of_official established_state = record {
  sender = syn_acked;
  receiver = syn_recv;
  active = true;
  linger_after_streams_finish = true;
}
of_official close_wait_state = record {
  sender = syn_acked;
  receiver = fin_recv;
  active = true;
  linger_after_streams_finish = false;
}
of_official last_ack_state = record {
  sender = fin_sent;
  receiver = fin_recv;
  active = true;
  linger_after_streams_finish = false;
}
of_official closing_state = record {
  sender = fin_sent;
  receiver = fin_recv;
  active = true;
  linger_after_streams_finish = true;
}
of_official fin_wait_1_state = record {
  sender = fin_sent;
  receiver = syn_recv;
  active = true;
  linger_after_streams_finish = true;
}
of_official fin_wait_2_state = record {
  sender = fin_acked;
  receiver = syn_recv;
  active = true;
  linger_after_streams_finish = true;
}
of_official time_wait_state = record {
  sender = fin_acked;
  receiver = fin_recv;
  active = true;
  linger_after_streams_finish = true;
}
of_official reset_state = record {
  sender = sender_error;
  receiver = receiver_error;
  active = false;
  linger_after_streams_finish = false;
}
of_official closed_state = record {
  sender = fin_acked;
  receiver = fin_recv;
  active = false;
  linger_after_streams_finish = false;
}

-- state_summary of a receiver.
pub receiver_summary : TcpReceiver → ReceiverSummary
receiver_summary r =
    if ByteStream.error (Receiver.stream_out r)
    then receiver_error
    else if not (has_value (Receiver.ackno r))
    then listen
    else if ByteStream.input_ended (Receiver.stream_out r)
    then fin_recv
    else syn_recv

-- state_summary of a sender.
pub sender_summary : TcpSender → SenderSummary
sender_summary s =
    if ByteStream.error s.stream
    then sender_error
    else if s.next_seqno == 0
    then closed
    else if s.next_seqno == s.bytes_in_flight
    then syn_sent
    else if not (ByteStream.eof s.stream)
    then syn_acked
    else if ltb s.next_seqno (add64 (ByteStream.bytes_written s.stream) 2)
    then syn_acked
    else if not (s.bytes_in_flight == 0)
    then fin_sent
    else fin_acked

-- The constructor from the parts of a connection.
pub summary : TcpSender → TcpReceiver → Bool → Bool → TcpState
summary s r active linger = record {
  sender = sender_summary s;
  receiver = receiver_summary r;
  active = active;
  linger_after_streams_finish = if active then linger else false;
}

-- TCPConnection::state
pub state : TcpConnection → TcpState
unfolding summary
state c = summary c.sender c.receiver c.active c.linger_after_streams_finish

sender_number : SenderSummary → ℕ
sender_number sender_error = 0
sender_number closed = 1
sender_number syn_sent = 2
sender_number syn_acked = 3
sender_number fin_sent = 4
sender_number fin_acked = 5

receiver_number : ReceiverSummary → ℕ
receiver_number receiver_error = 0
receiver_number listen = 1
receiver_number syn_recv = 2
receiver_number fin_recv = 3

same_bool : Bool → Bool → Bool
same_bool true b = b
same_bool false b = not b

-- `TCPState::operator==`
pub same_state : TcpState → TcpState → Bool
unfolding sender_number receiver_number same_bool
same_state a b =
    same_bool a.active b.active
    && same_bool a.linger_after_streams_finish b.linger_after_streams_finish
    && (sender_number a.sender == sender_number b.sender)
    && (receiver_number a.receiver == receiver_number b.receiver)

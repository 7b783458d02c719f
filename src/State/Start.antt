-- ===== src/State/Start.antt =====
-- The state of a connection that has sent its SYN.
use tcp.Prelude.{◌≡◌, refl, true}
use tcp.ByteStream
use tcp.Reassembler
use tcp.Receiver
use tcp.Connection.{TcpConfig, TcpConnection}
use tcp.Connection.Opening.{IsOpening}
use tcp.State.{
  summary, state, sender_summary, receiver_summary, same_state, same_bool, sender_number,
  receiver_number, of_official, syn_sent_state,
}

pub IsOpening-syn_sent :
    (c : TcpConnection) (cfg : TcpConfig)
    → IsOpening c cfg
    → same_state (state c) (of_official syn_sent_state) ≡ true
unfolding same_state state summary sender_summary receiver_summary of_official sender_number
    receiver_number same_bool Receiver.ackno ByteStream.init ByteStream.error Receiver.init
    Receiver.stream_out Reassembler.init Reassembler.stream_out
IsOpening-syn_sent c cfg o =
    rw (o.same_stream, o.next_is, o.flight_is, o.same_receiver, o.is_active, o.lingers) refl

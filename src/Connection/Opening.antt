-- ===== src/Connection/Opening.antt =====
-- The first `connect` of a connection.
use tcp.Prelude.{ℕ, ◌≡◌, refl, ap, true, false, some, if◌then◌else◌, ◌&&◌}
use tcp.ByteStream
use tcp.Reassembler
use tcp.Receiver
use tcp.Receiver.{TcpReceiver}
use tcp.Sender
use tcp.Sender.{TcpSender}
use tcp.Sender.Opening.{fill_window-init}
use tcp.Wrapping.{WrappingInt32}
use tcp.Connection.{
  TcpConfig, TcpConnection, init, isn_or, connect, send_from, send_sender_segments, prepare_rst,
  move_segments, clean_shutdown, is_empty,
}

-- The SYN is in flight, and nothing has arrived.
pub record IsOpening (c : TcpConnection) (cfg : TcpConfig) : Type 0 where
  pub same_stream : c.sender.stream ≡ ByteStream.init cfg.send_capacity
  pub next_is : c.sender.next_seqno ≡ 1
  pub flight_is : c.sender.bytes_in_flight ≡ 1
  pub same_receiver : c.receiver ≡ Receiver.init cfg.recv_capacity
  pub is_active : c.active ≡ true
  pub lingers : c.linger_after_streams_finish ≡ true

pub connect-init :
    (moved_size : ℕ → ℕ) (cfg : TcpConfig) (random : WrappingInt32)
    → (c : TcpConnection) × (connect moved_size (init cfg random) ≡ some c) × IsOpening c cfg
unfolding connect send_from init send_sender_segments prepare_rst clean_shutdown is_empty
    move_segments Receiver.init Receiver.stream_out Reassembler.init Reassembler.stream_out
    ByteStream.init ByteStream.input_ended
connect-init moved_size cfg random =
    let isn = isn_or cfg.fixed_isn random in
    let (s, e, o) = fill_window-init moved_size cfg.send_capacity cfg.rt_timeout isn in
    let d = record (init cfg random) { sender = s } in
    let ready : prepare_rst d ≡ s =
      ap (λ queue. if is_empty queue && false then Sender.send_empty_segment s else s) o.queue_is in
    (
      move_segments d s,
      rw e (ap (λ x. some (clean_shutdown (move_segments d x))) ready),
      record {
        same_stream = o.same_stream;
        next_is = o.next_is;
        flight_is = o.flight_is;
        same_receiver = refl;
        is_active = refl;
        lingers = refl;
      },
    )

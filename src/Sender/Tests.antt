-- ===== src/Sender/Tests.antt =====
-- Tests and concrete instances for the sender: the initial number is 2 ^ 32 - 1, and byte `k` of the
-- user's stream is `k`.
use mathlib.Core.Bool.{false≢true}
use tcp.Prelude.{ℕ, ◌+◌, ◌<◌, ◌≡◌, refl, sym, ap, true, [], ◌∷◌, arith, length, some, u64_mod}
use tcp.Buffer.{concatenate, of_string, str}
use tcp.ByteStream
use tcp.ByteStream.{ByteStream}
use tcp.ByteStream.Invariant.{contents, contents-write}
use tcp.Reassembler
use tcp.Segment.{TcpSegment, default_header}
use tcp.Wrapping.{wrap}
use tcp.Receiver
use tcp.Receiver.{TcpReceiver, segment_received, ackno}
use tcp.Receiver.Follows.{Follows, next_number}
use tcp.Reassembler.Push.{init-Inv}
use tcp.Reassembler.Closing.{init-Closes}
use tcp.Sender.{TcpSender, init, fill_window, ack_received}
use tcp.Sender.Flight.{Sending, Placed}
use tcp.Sender.Window.{Used, fill_window_lem, fill_window-overrun}
use tcp.Sender.Ack.{next_una, ack_received-Sending}
use tcp.Sender.Timer.{timeouts, BackedOff, timeouts-BackedOff}
use tcp.Sender.Reach.{start, write, write-Sending, Reach-Sending}
use tcp.Sender.Delivery.{here, delivered-Follows}

abbrev pub identity : ℕ → ℕ
identity k = k

abbrev pub isn : ℕ
isn = 0xffff_ffff

-- A std::string is empty after a move from it, as the usual libraries have it.
abbrev pub emptied : ℕ → ℕ
emptied n = 0

-- Bytes 0 and 1 of the stream, at number 1.
abbrev pub sent : TcpSegment
sent = record { header = record default_header { seqno = 0 }; payload = of_string (0 ∷ 1 ∷ []) }

-- The SYN is acknowledged, and `sent` in flight.
abbrev before_write : TcpSender
before_write = record (init 8 1000 isn) {
  stream = record (ByteStream.init 8) { read_count = 2; write_count = 2 };
  next_seqno = 3;
  segments_outstanding = sent ∷ [];
  bytes_in_flight = 2;
  rto = 1000;
  timer_running = true;
  syn = true;
}

-- The user has written byte 2.
abbrev pub flying : TcpSender
flying = record before_write { stream = (ByteStream.write before_write.stream (2 ∷ [])).1 }

-- Everything is acknowledged, the window is 5, and the user has written bytes 2 to 7.
abbrev empty_flight : TcpSender
empty_flight = record before_write {
  segments_outstanding = [];
  bytes_in_flight = 0;
  receiver_window_size = 5;
}

abbrev acked_sender : TcpSender
acked_sender = record empty_flight {
  stream = (ByteStream.write empty_flight.stream (2 ∷ 3 ∷ 4 ∷ 5 ∷ 6 ∷ 7 ∷ [])).1;
}

emptied_small : (n : ℕ) → emptied n + 1 < u64_mod
emptied_small n = omega arith

sent-Placed : Placed identity isn sent 1
unfolding wrap str of_string
sent-Placed = record {
  numbered = refl;
  first = λ e. absurd (false≢true e);
  later = λ e. omega arith;
  bytes = (refl, (refl, tt));
  fits = omega arith;
  takes = omega arith;
}

before_write-Sending : Sending identity isn 1 before_write
unfolding init ByteStream.init concatenate str of_string
before_write-Sending = record {
  same_isn = refl;
  chain = (sent-Placed, refl);
  flight = refl;
  stream_valid = omega arith;
  unsent = tt;
  room = omega arith;
  opened = λ _. refl;
  closed = λ e. absurd (false≢true (sym e));
  finished = λ e. absurd (false≢true e);
}

pub flying-Sending : Sending identity isn 1 flying
unfolding init ByteStream.init concatenate
flying-Sending =
    write-Sending before_write (2 ∷ []) before_write-Sending refl (refl, tt) (omega arith)

empty_flight-Sending : Sending identity isn 3 empty_flight
unfolding init ByteStream.init concatenate
empty_flight-Sending = record {
  same_isn = refl;
  chain = refl;
  flight = refl;
  stream_valid = omega arith;
  unsent = tt;
  room = omega arith;
  opened = λ _. refl;
  closed = λ e. absurd (false≢true (sym e));
  finished = λ e. absurd (false≢true e);
}

acked_sender-Sending : Sending identity isn 3 acked_sender
unfolding init ByteStream.init concatenate
acked_sender-Sending =
    write-Sending empty_flight (2 ∷ 3 ∷ 4 ∷ 5 ∷ 6 ∷ 7 ∷ []) empty_flight-Sending refl
      (refl, (refl, (refl, (refl, (refl, (refl, tt)))))) (omega arith)

fill_window_lem_example :
    (s' : TcpSender) × (fill_window emptied acked_sender ≡ some s')
    × Sending identity isn 3 s'
    × Used 5 s'
    × (s'.stream.read_count + length (contents s'.stream)
        ≡ acked_sender.stream.read_count + length (contents acked_sender.stream))
fill_window_lem_example =
    fill_window_lem identity isn 3 (omega arith) emptied emptied_small acked_sender
      acked_sender-Sending refl (omega arith) (omega arith)

flying_more : 0 < length (contents flying.stream)
unfolding init ByteStream.init concatenate
flying_more = omega (arith, ap length (contents-write before_write-Sending.stream_valid (2 ∷ [])))

fill_window-overrun_example :
    (s' : TcpSender) × (fill_window emptied flying ≡ some s') × (2 < s'.bytes_in_flight)
unfolding init
fill_window-overrun_example =
    fill_window-overrun identity isn 1 (omega arith) emptied emptied_small flying flying-Sending
      refl (omega arith) (omega arith) flying_more

ack_received-Sending_example :
    (s' : TcpSender) × (ack_received emptied flying (wrap 3 isn) 5 ≡ some s')
    × Sending identity isn (next_una 3 1 3 (sent ∷ [])) s'
ack_received-Sending_example =
    ack_received-Sending (omega arith) emptied emptied_small flying 3 5 flying-Sending (omega arith)
      (omega arith) (omega arith) (omega arith) (omega arith) (omega arith)

timeouts-BackedOff_example : BackedOff flying sent 3 (timeouts 3 flying)
unfolding init
timeouts-BackedOff_example =
    timeouts-BackedOff flying sent [] 3 refl refl (omega arith) (omega arith) (omega arith)

Reach-Sending_example :
    Sending identity isn 0
      (record (init 8 1000 isn) { stream = (ByteStream.write (init 8 1000 isn).stream (0 ∷ [])).1 })
unfolding init ByteStream.init concatenate
Reach-Sending_example =
    Reach-Sending {moved_size = emptied} {capacity = 8} {timeout = 1000} (omega arith) (omega arith)
      emptied_small (write (0 ∷ []) start refl (refl, tt) (omega arith))

-- The receiver has the SYN.
abbrev listener : TcpReceiver
listener = record (Receiver.init 8) { syn = true; isn = isn }

listener-Follows : Follows identity isn 8 true listener
unfolding Receiver.init Reassembler.init Reassembler.first_unassembled_byte Reassembler.empty wrap
listener-Follows = record {
  tracks = record {
    reassembling = init-Inv identity 8 (omega arith);
    near = refl;
    same_isn = λ _. refl;
    acknowledges = λ _. refl;
  };
  closes = init-Closes 8 8;
  opened = refl;
  same_end = refl;
  fin_heard = λ e. refl;
}

delivered-Follows_example :
    Follows identity isn 8 true (segment_received listener sent)
    × (ackno (segment_received listener sent)
        ≡ some (wrap (next_number 8 (segment_received listener sent)) isn))
unfolding Receiver.init Reassembler.init Reassembler.first_unassembled_byte
delivered-Follows_example =
    delivered-Follows flying listener sent (omega arith) flying-Sending listener-Follows here refl
      (omega arith) (omega arith) (omega arith) (omega arith) (omega arith)

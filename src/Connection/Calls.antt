-- ===== src/Connection/Calls.antt =====
-- A connection and the calls of its owner.
use tcp.Prelude.{ℕ, ◌<◌, refl, List, [], ◌∷◌, Option, some, and_then, Returns, u64_mod}
use tcp.Segment.{TcpSegment}
use tcp.Wrapping.{WrappingInt32}
use tcp.ByteStream
use tcp.ByteStream.{ByteStream, pop_output}
use tcp.ByteStream.Invariant.{init-IsValid, pop_output_lem}
use tcp.Reassembler
use tcp.Receiver
use tcp.Sender
use tcp.Connection.{
  TcpConfig, TcpConnection, init, connect, segment_received, write, end_input_stream, tick,
}
use tcp.Connection.Total.{
  Sound, connect-Sound, segment_received-Sound, write-Sound, end_input_stream-Sound, tick-Sound,
}

-- The connection with another inbound stream.
abbrev pub with_inbound : TcpConnection → ByteStream → TcpConnection
with_inbound c s = record c {
  receiver = record c.receiver { reassembler = record c.receiver.reassembler { output = s } };
}

-- What the owner of a connection calls, `pops` on the inbound stream.
pub data Call : Type 0 where
  connects : Call
  receives : TcpSegment → Call
  writes : List ℕ → Call
  ends : Call
  passes : ℕ → Call
  pops : ℕ → Call

pub with_inbound-Sound :
    (c : TcpConnection) (s : ByteStream)
    → Sound c
    → ByteStream.Invariant.IsValid s
    → Sound (with_inbound c s)
with_inbound-Sound c s v w = record {
  sender_sound = v.sender_sound;
  receiver_sound = record { stream_valid = w };
  queued = v.queued;
}

-- The streams of a new connection.
pub init-Sound :
    (cfg : TcpConfig) (random : WrappingInt32)
    → cfg.recv_capacity < u64_mod
    → cfg.send_capacity < u64_mod
    → Sound (init cfg random)
unfolding init Receiver.init Reassembler.init Sender.init
init-Sound cfg random hr hs = record {
  sender_sound = record {
    stream_valid = init-IsValid cfg.send_capacity hs;
    queued = tt;
    flying = tt;
  };
  receiver_sound = record { stream_valid = init-IsValid cfg.recv_capacity hr };
  queued = tt;
}

module _ (moved_size : ℕ → ℕ) where
  pub call : TcpConnection → Call → Option TcpConnection
  call c connects = connect moved_size c
  call c (receives seg) = segment_received moved_size c seg
  call c (writes bytes) = and_then (write moved_size c bytes) (λ (n, c'). some c')
  call c ends = end_input_stream moved_size c
  call c (passes ms) = some (tick c ms)
  call c (pops n) =
      and_then (pop_output c.receiver.reassembler.output n) (λ s. some (with_inbound c s))

  pub run : TcpConnection → List Call → Option TcpConnection
  run c [] = some c
  run c (k ∷ ks) = and_then (call c k) (λ c'. run c' ks)

  call-Sound : (c : TcpConnection) (k : Call) → Sound c → Returns Sound (call c k)
  unfolding call
  call-Sound c connects v = connect-Sound moved_size c v
  call-Sound c (receives seg) v = segment_received-Sound moved_size c seg v
  call-Sound c (writes bytes) v =
      let (c', e, w) = write-Sound moved_size c bytes v in (c', rw e refl, w)
  call-Sound c ends v = end_input_stream-Sound moved_size c v
  call-Sound c (passes ms) v = (tick c ms, refl, tick-Sound moved_size c ms v)
  call-Sound c (pops n) v =
      let (t, e, held, valid, cap, end, written, counted) =
        pop_output_lem v.receiver_sound.stream_valid n in
      (with_inbound c t, rw e refl, with_inbound-Sound c t v valid)

  run-Sound : (ks : List Call) (c : TcpConnection) → Sound c → Returns Sound (run c ks)
  unfolding run
  run-Sound [] c v = (c, refl, v)
  run-Sound (k ∷ ks) c v =
      let (c1, e, w) = call-Sound c k v in let (c', e', w') = run-Sound ks c1 w in (c', rw e e', w')

  -- A new connection whose capacities fit a `size_t` throws no exception, whatever calls its owner makes and
  -- whatever segments arrive: every sequence of calls returns, its two streams stay within their capacities,
  -- and each segment that waits to be sent has a header of 5 to 15 words and no more than MAX_PAYLOAD_SIZE bytes.
  pub run_returns :
      (cfg : TcpConfig) (random : WrappingInt32) (ks : List Call)
      → cfg.recv_capacity < u64_mod
      → cfg.send_capacity < u64_mod
      → Returns Sound (run (init cfg random) ks)
  run_returns cfg random ks hr hs = run-Sound ks (init cfg random) (init-Sound cfg random hr hs)

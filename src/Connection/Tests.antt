-- ===== src/Connection/Tests.antt =====
-- Tests and concrete instances for the connection.
use tcp.Prelude.{Returns, ◌∷◌, ◌≡◌, refl, true, List, [], ◌++◌, some, arith}
use tcp.Segment.{TcpSegment, default_header, default_segment}
use tcp.Sender
use tcp.Sender.Tests.{flying, sent, emptied}
use tcp.Connection.{TcpConfig, TcpConnection, init, listening, segment_received, tick}
use tcp.Connection.Abort.{Aborted, StartsWithRst, segment_received-Aborted, tick-Aborted}
use tcp.Connection.Total.{Sound}
use tcp.Connection.Calls
use tcp.Connection.Calls.{run, connects, writes, receives, pops, ends, run_returns}
use tcp.Connection.Life.{Rest, Follows, start, passes, Step-Follows, Reach-Rest}

abbrev config : TcpConfig
config = record {
  rt_timeout = 1000;
  recv_capacity = 8;
  send_capacity = 8;
  fixed_isn = some 0xffff_ffff;
}

abbrev fresh : TcpConnection
fresh = init config 0

-- Two bytes are in flight, and their segment has been sent again eight times.
abbrev pub tired : TcpConnection
tired = record fresh { sender = record flying { consecutive_retransmissions = 8 } }

abbrev reset : TcpSegment
reset = record default_segment { header = record default_header { rst = true } }

segment_received-Aborted_example :
    (c' : TcpConnection) × (segment_received emptied tired reset ≡ some c')
    × Aborted c'
    × (c'.segments_out ≡ tired.segments_out)
unfolding init Sender.init listening
segment_received-Aborted_example = segment_received-Aborted emptied tired reset refl refl refl refl

tick-Aborted_example :
    (new : List TcpSegment) × Aborted (tick tired 1000)
    × ((tick tired 1000).segments_out ≡ [] ++ new)
    × StartsWithRst new
unfolding init Sender.init
tick-Aborted_example =
    tick-Aborted tired 1000 sent [] refl refl refl (omega arith) (omega arith) (omega arith)
      (omega arith)

fresh-Rest : Rest fresh
fresh-Rest = Reach-Rest {moved_size = emptied} {cfg = config} {random = 0} start

Step-Follows_example : Follows fresh (tick fresh 5)
Step-Follows_example = Step-Follows {moved_size = emptied} fresh-Rest (passes 5)

run_returns_example : Returns Sound (
    run emptied fresh
      (connects ∷ writes (1 ∷ 2 ∷ []) ∷ receives reset ∷ Calls.passes 1000 ∷ pops 3 ∷ ends ∷ []))
run_returns_example =
    run_returns emptied config 0
      (connects ∷ writes (1 ∷ 2 ∷ []) ∷ receives reset ∷ Calls.passes 1000 ∷ pops 3 ∷ ends ∷ [])
      (omega arith) (omega arith)

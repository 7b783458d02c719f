-- ===== src/Receiver/Tests.antt =====
-- Tests and concrete instances for the receiver, over the source whose byte `k` is `k`.
use tcp.Prelude.{ℕ, ◌+◌, ◌≡◌, refl, true, some, inl, [], ◌∷◌, arith}
use tcp.Buffer.{of_string, str}
use tcp.Buffer.Laws.{str-of_string}
use tcp.Reassembler
use tcp.Reassembler.Source.{slice}
use tcp.Reassembler.Push.{limit}
use tcp.Segment.{TcpSegment, default_header}
use tcp.Wrapping.{wrap, plus}
use tcp.Receiver.{init, segment_received, window_size, ackno}
use tcp.Receiver.Invariant.{Tracks, Carries, init-Tracks, window_size_lem}
use tcp.Receiver.Reach.{start, receive, Reach-Follows}
use tcp.Receiver.Follows.{Follows, next_number}
use tcp.Reassembler.Closing.{Within}

abbrev identity : ℕ → ℕ
identity k = k

-- A SYN and FIN with two bytes of data and the initial number 2 ^ 32 - 1.
abbrev opening : TcpSegment
opening = record {
  header = record default_header { seqno = 0xffff_ffff; syn = true; fin = true };
  payload = of_string (0 ∷ 1 ∷ []);
}

opening-Carries : Carries identity 0xffff_ffff (init 8) opening 0
unfolding init Reassembler.init Reassembler.first_unassembled_byte wrap plus
opening-Carries = record {
  numbered = refl;
  first = λ _. refl;
  bytes = rw str-of_string (omega arith);
  not_far = omega arith;
  not_old = omega arith;
  small = omega arith;
}

fresh-Tracks : Tracks identity 0xffff_ffff (init 8)
fresh-Tracks = init-Tracks identity 0xffff_ffff 8 (omega arith)

window_size_lem_example :
    Reassembler.first_unassembled_byte (init 8).reassembler + window_size (init 8)
    ≡ limit (init 8).reassembler
window_size_lem_example = window_size_lem fresh-Tracks

opening-Within : Within 2 (init 8).reassembler (str opening.payload) 0 true
unfolding str of_string
opening-Within = record { inside = omega arith; last = λ _. refl; in_turn = λ _. inl (omega arith) }

Reach-Follows_example :
    Follows identity 0xffff_ffff 2 true (segment_received (init 8) opening)
    × (ackno (segment_received (init 8) opening)
        ≡ some (wrap (next_number 2 (segment_received (init 8) opening)) 0xffff_ffff))
    × ([] ≡ slice identity 0 (segment_received (init 8) opening).reassembler.output.read_count)
Reach-Follows_example =
    Reach-Follows (omega arith) (omega arith) (omega arith)
      (receive opening 0 start opening-Carries opening-Within)

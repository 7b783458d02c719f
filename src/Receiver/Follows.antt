-- ===== src/Receiver/Follows.antt =====
-- The receiver of a stream of `stop` bytes, its SYN and its FIN.
use tcp.Prelude.{
  ℕ, ◌+◌, ◌≤◌, ◌<◌, ◌≡◌, refl, ap, subst, ◌∙◌, Bool, true, false, not, ◌&&◌, ◌||◌, none, some,
  arith, if◌then◌else◌, ◌==◌, u32_mod, u64_mod, add64, Bool-cases, inl, inr,
}
use mathlib.Core.Bool.{false≢true}
use tcp.Buffer.{str}
use tcp.ByteStream
use tcp.Reassembler
use tcp.Reassembler.{push_substring, first_unassembled_byte, is_eof}
use tcp.Reassembler.Closing.{
  Closes, Within, init-Closes, push_substring-Closes, end_complete, unassembled-stop, first-le,
}
use tcp.Segment.{TcpSegment}
use tcp.Wrapping.{wrap}
use tcp.Receiver.{TcpReceiver, init, stream_out, deliver, segment_received, ackno}
use tcp.Receiver.Invariant.{
  Tracks, Carries, init-Tracks, segment_received-Tracks, index_of, next_isn-eq, deliver-Tracks,
  expected,
}

-- The number that follows what has come of the SYN, the bytes and the FIN.
abbrev pub next_number : ℕ → TcpReceiver → ℕ
next_number stop r =
    if r.reassembler.eof_flag && (r.reassembler.first_unassembled == stop)
    then stop + 2
    else r.reassembler.first_unassembled + 1

-- The receiver follows a stream of `stop` bytes; `heard` tells whether a SYN has come.
pub record Follows (source : ℕ → ℕ) (isn stop : ℕ) (heard : Bool) (r : TcpReceiver) : Type 0 where
  pub tracks : Tracks source isn r
  pub closes : Closes stop r.reassembler
  pub opened : r.syn ≡ heard
  pub same_end : r.fin ≡ r.reassembler.eof_flag
  pub fin_heard : r.fin ≡ true → r.syn ≡ true

pub init-Follows :
    (source : ℕ → ℕ) (isn stop capacity : ℕ)
    → capacity < u64_mod
    → Follows source isn stop false (init capacity)
unfolding init Reassembler.init
init-Follows source isn stop capacity h = record {
  tracks = init-Tracks source isn capacity h;
  closes = init-Closes stop capacity;
  opened = refl;
  same_end = refl;
  fin_heard = λ e. absurd (false≢true e);
}

module _ {source : ℕ → ℕ} {isn : ℕ} (hi : isn < u32_mod) {stop : ℕ} {heard : Bool} {r : TcpReceiver}
    {seg : TcpSegment} {index : ℕ} (small : stop < u64_mod) (f : Follows source isn stop heard r)
    (c : Carries source isn r seg index)
    (w : Within stop r.reassembler (str seg.payload) index seg.header.fin) where
  deliver-Follows :
      (not seg.header.syn && not r.syn) ≡ false
      → Tracks source isn (deliver r isn seg)
      → Follows source isn stop (heard || seg.header.syn) (deliver r isn seg)
  unfolding deliver is_eof
  deliver-Follows past t =
      let at = index_of source isn hi f.tracks c in
      let here : index < u64_mod = omega (arith, c.small) in
      let v = f.tracks.reassembling in
      let e =
        (end_complete (str seg.payload) index seg.header.fin v f.closes c.bytes w small here).0 in
      record {
        tracks = t;
        closes = rw at (
            push_substring-Closes (str seg.payload) index seg.header.fin v f.closes c.bytes w small
              here);
        opened = ground (arith, past, f.opened);
        same_end = rw at (ground (arith, f.same_end, e));
        fin_heard = λ _. refl;
      }

  -- A segment of the stream keeps the receiver following it.
  pub segment_received-Follows :
      Follows source isn stop (heard || seg.header.syn) (segment_received r seg)
  unfolding segment_received
  segment_received-Follows =
      let t = segment_received-Tracks source isn hi f.tracks c in
      elim (Bool-cases (not seg.header.syn && not r.syn)) [
        | inl g ↦ rw g (still (ground (arith, f.opened, g)))
        | inr g ↦ elim (Bool-cases (ByteStream.eof (stream_out r) && r.fin)) [
          | inl e ↦
              let on : r.syn ≡ true = f.fin_heard (ground arith) in
              rw (g, e) (still (ground (arith, f.opened, on)))
          | inr e ↦
              let same = next_isn-eq source isn hi f.tracks c g in
              rw (g, e, same) (deliver-Follows g (deliver-Tracks source isn hi f.tracks c))
        ]
      ]
    where
      still :
          heard ≡ (heard || seg.header.syn) → Follows source isn stop (heard || seg.header.syn) r
      still e = subst (λ b. Follows source isn stop b r) e f

number_lem :
    (fin eof empty : Bool) (first stop : ℕ)
    → fin ≡ eof
    → (eof ≡ true → empty ≡ (first == stop))
    → stop + 2 < u64_mod
    → first ≤ stop
    → (if empty && fin then add64 first 2 else add64 first 1)
      ≡ (if eof && (first == stop) then stop + 2 else first + 1)
number_lem fin false empty first stop e all small le = ground (arith, e)
number_lem fin true empty first stop e all small le = let same = all refl in ground (arith, e, same)

module _ {source : ℕ → ℕ} (isn : ℕ) {stop : ℕ} {heard : Bool} {r : TcpReceiver} where
  -- The acknowledgment number of a receiver that follows the stream.
  pub Follows-ackno :
      stop + 2 < u64_mod
      → Follows source isn stop heard r
      → ackno r ≡ (if heard then some (wrap (next_number stop r) isn) else none)
  unfolding ackno Reassembler.empty first_unassembled_byte
  Follows-ackno hs f = elim (Bool-cases heard) [
    | inr e ↦ let off : r.syn ≡ false = f.opened ∙ e in rw (off, e) refl
    | inl e ↦
        let on : r.syn ≡ true = f.opened ∙ e in
        rw (on, e) (ap some (f.tracks.acknowledges on ∙ ap (λ n. wrap n isn) number))
  ]
    where
      number : expected r.reassembler r.fin ≡ next_number stop r
      number =
          number_lem r.fin r.reassembler.eof_flag (r.reassembler.unassembled == 0)
            r.reassembler.first_unassembled stop f.same_end
            (unassembled-stop f.tracks.reassembling f.closes) hs
            (first-le f.tracks.reassembling f.closes.below)

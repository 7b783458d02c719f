-- ===== src/Receiver/Reach.antt =====
-- Every state that a receiver comes to, over the segments of one peer and the reads of its owner.
use tcp.Prelude.{
  ℕ, ◌+◌, ◌-◌, ◌<◌, ◌≡◌, refl, sym, ap, ap₂, ◌∙◌, min, subst, Bool, false, ◌||◌, none, arith, List,
  [], ◌++◌, some, length, u32_mod, ◌==◌, ◌&&◌, if◌then◌else◌, add64, u64_mod,
}
use mathlib.Core.Option.{some-injective}
use tcp.ByteStream
use tcp.Reassembler
use tcp.Reassembler.{StreamReassembler}
use tcp.Reassembler.Source.{slice, slice-append, length-slice, Inv}
use tcp.Reassembler.Push.{limit}
use tcp.Reassembler.Run.{read_out, read_out_lem, read_out-same, read_out-kept, zero_on}
use tcp.Segment.{TcpSegment}
use tcp.Wrapping.{wrap}
use tcp.Receiver.{TcpReceiver, init, segment_received, ackno}
use tcp.Receiver.Invariant.{Tracks, Carries, read_count-segment_received}
use tcp.Receiver.Follows.{
  Follows, next_number, init-Follows, segment_received-Follows, Follows-ackno,
}
use tcp.Reassembler.Closing.{Within, read_out-Closes}
use tcp.Buffer.{str}

-- `Reach … heard got r`: over segments of a stream of `stop` bytes, the receiver can come to state `r`; `heard`
-- tells whether a SYN has come, and `got` is what its owner has read.
pub data Reach (source : ℕ → ℕ) (isn capacity stop : ℕ) : Bool → List ℕ → TcpReceiver → Type 0 where
  start : Reach source isn capacity stop false [] (init capacity)
  receive :
      {heard : Bool} {got : List ℕ} {r : TcpReceiver} (seg : TcpSegment) (index : ℕ)
      → Reach source isn capacity stop heard got r
      → Carries source isn r seg index
      → Within stop r.reassembler (str seg.payload) index seg.header.fin
      → Reach source isn capacity stop (heard || seg.header.syn) got (segment_received r seg)
  take_out :
      {heard : Bool} {got bytes : List ℕ} {r : TcpReceiver} (n : ℕ) (re : StreamReassembler)
      → Reach source isn capacity stop heard got r
      → limit r.reassembler + n < u64_mod
      → read_out r.reassembler n ≡ some (bytes, re)
      → Reach source isn capacity stop heard (got ++ bytes) (record r { reassembler = re })

module _ {source : ℕ → ℕ} {isn capacity : ℕ} (hi : isn < u32_mod) (hc : capacity < u64_mod) where
  read-Tracks :
      (n : ℕ) (r : TcpReceiver) (bytes : List ℕ) (re : StreamReassembler)
      → Tracks source isn r
      → limit r.reassembler + n < u64_mod
      → read_out r.reassembler n ≡ some (bytes, re)
      → Tracks source isn (record r { reassembler = re })
        × (bytes ≡ slice source r.reassembler.output.read_count (length bytes))
        × (re.output.read_count ≡ r.reassembler.output.read_count + length bytes)
  unfolding Reassembler.first_unassembled_byte Reassembler.empty
  read-Tracks n r bytes re t h e =
      let v = t.reassembling in
      let m = min n (r.reassembler.first_unassembled - r.reassembler.output.read_count) in
      let (re', e', v', moved, same) = read_out_lem n v h in
      let both = some-injective _ _ (sym e' ∙ e) in
      let got = ap (λ p. p.0) both in
      let state = ap (λ p. p.1) both in
      let long = sym (ap length got) ∙ length-slice source r.reassembler.output.read_count m in
      let (fixed, still) = read_out-same r.reassembler re n bytes e in
      (
        record {
          reassembling = subst (λ x. Inv source x) state v';
          near = t.near ∙ fixed;
          same_isn = t.same_isn;
          acknowledges = λ s.
              t.acknowledges s
              ∙ ap₂ (λ f u. wrap (if (u == 0) && r.fin then add64 f 2 else add64 f 1) isn) fixed
                  still;
        },
        sym got ∙ ap (slice source r.reassembler.output.read_count) (sym long),
        sym (ap (λ x. x.output.read_count) state)
            ∙ moved
            ∙ ap (λ k. r.reassembler.output.read_count + k) (sym long),
      )

  reached :
      {stop : ℕ} {heard : Bool} {got : List ℕ} {r : TcpReceiver}
      → stop + 2 < u64_mod
      → Reach source isn capacity stop heard got r
      → Follows source isn stop heard r × (got ≡ slice source 0 r.reassembler.output.read_count)
  unfolding init Reassembler.init ByteStream.init
  reached {stop} hs start = (init-Follows source isn stop capacity hc, refl)
  reached {stop} hs (receive seg index q c w) =
      let small : stop < u64_mod = omega (arith, hs) in
      let (f, g) = reached hs q in
      (
        segment_received-Follows hi small f c w,
        g ∙ ap (slice source 0) (sym (read_count-segment_received _ seg)),
      )
  reached {stop} hs (take_out {got = got} {bytes = bytes} {r = r} n re q h e) =
      let (f, g) = reached hs q in
      let (t', b, moved) = read-Tracks n r bytes re f.tracks h e in
      let (marks, flag, end) = read_out-kept r.reassembler re n bytes f.tracks.reassembling e in
      let at = r.reassembler.output.read_count in
      (
        record {
          tracks = t';
          closes = read_out-Closes r.reassembler re n bytes f.tracks.reassembling e f.closes;
          opened = f.opened;
          same_end = f.same_end ∙ sym flag;
          fin_heard = f.fin_heard;
        },
        ap₂ ◌++◌ g b
            ∙ ap (λ a. slice source 0 at ++ slice source a (length bytes)) (zero_on at)
            ∙ slice-append source 0 at (length bytes)
            ∙ ap (slice source 0) (sym moved),
      )

  -- In every state that a receiver with a capacity below 2 ^ 64 can come to, over segments of a stream of
  -- fewer than 2 ^ 64 - 2 bytes in any order, each less than 2 ^ 31 away from the first byte that is missing,
  -- and reads between them whose end stays below 2 ^ 64, where a FIN without data comes only once every byte
  -- has: it acknowledges nothing before a SYN, and then the number of the first byte that is missing, or the
  -- number after the FIN once a FIN has been accepted and every byte has come; and its owner has read a prefix
  -- of the stream.
  pub Reach-Follows :
      {stop : ℕ} {heard : Bool} {got : List ℕ} {r : TcpReceiver}
      → stop + 2 < u64_mod
      → Reach source isn capacity stop heard got r
      → Follows source isn stop heard r
        × (ackno r ≡ (if heard then some (wrap (next_number stop r) isn) else none))
        × (got ≡ slice source 0 r.reassembler.output.read_count)
  Reach-Follows {stop} {heard} {r = r} hs q =
      let (f, g) = reached hs q in (f, Follows-ackno isn hs f, g)

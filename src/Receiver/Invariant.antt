-- ===== src/Receiver/Invariant.antt =====
-- The receiver of a stream: its reassembler holds the peer's bytes, and its acknowledgment number
-- is the next one that it expects.
use tcp.Prelude.{
  ℕ, ◌+◌, ◌-◌, ◌<◌, ◌≡◌, refl, sym, ap, subst, Bool, true, false, not, ◌&&◌, arith, if◌then◌else◌,
  u32_mod, u64_mod, add64, Bool-cases, inl, inr, length,
}
use mathlib.Core.Bool.{false≢true}
use tcp.Buffer.{str}
use tcp.ByteStream
use tcp.ByteStream.Invariant.{remaining_capacity_lem}
use tcp.Reassembler
use tcp.Reassembler.{StreamReassembler, push_substring, first_unassembled_byte}
use tcp.Reassembler.Source.{Agrees, Inv, length-slice}
use tcp.Reassembler.Push.{limit, init-Inv, push_substring-Inv, limit-push_substring}
use tcp.Segment.{TcpSegment, flag}
use tcp.Wrapping.{plus, wrap}
use tcp.Wrapping.RoundTrip.{unwrap-wrap}
use tcp.Receiver.{
  TcpReceiver, init, stream_out, stream_index, next_isn, deliver, segment_received, window_size,
}

-- The number to acknowledge: the first index that is missing, after the SYN, and after the FIN
-- where the whole stream has arrived.
abbrev pub expected : StreamReassembler → Bool → ℕ
expected re fin =
    if Reassembler.empty re && fin
    then add64 (first_unassembled_byte re) 2
    else add64 (first_unassembled_byte re) 1

if-wrap :
    (isn : ℕ) (b : Bool) (x y : ℕ)
    → (if b then wrap x isn else wrap y isn) ≡ wrap (if b then x else y) isn
if-wrap isn true x y = refl
if-wrap isn false x y = refl

module _ (source : ℕ → ℕ) (isn : ℕ) where
  -- The peer's stream is `source`, and its initial number `isn`.
  pub record Tracks (r : TcpReceiver) : Type 0 where
    pub reassembling : Inv source r.reassembler
    pub near : r.checkpoint ≡ first_unassembled_byte r.reassembler
    pub same_isn : r.syn ≡ true → r.isn ≡ isn
    pub acknowledges : r.syn ≡ true → r.last_ackno ≡ wrap (expected r.reassembler r.fin) isn

  -- The segment holds the peer's bytes from stream index `index` on, which is less than 2 ^ 31 away
  -- from the receiver's position. The SYN has the initial number and index 0.
  pub record Carries (r : TcpReceiver) (seg : TcpSegment) (index : ℕ) : Type 0 where
    pub numbered : plus seg.header.seqno (flag seg.header.syn) ≡ wrap (index + 1) isn
    pub first : seg.header.syn ≡ true → seg.header.seqno ≡ isn
    pub bytes : Agrees source index (str seg.payload)
    pub not_far : index + 1 < first_unassembled_byte r.reassembler + 0x8000_0000
    pub not_old : first_unassembled_byte r.reassembler < index + 1 + 0x8000_0000
    pub small : index + 1 < u64_mod

  module _ (hi : isn < u32_mod) where
    pub index_of :
        {r : TcpReceiver} {seg : TcpSegment} {index : ℕ}
        → Tracks r
        → Carries r seg index
        → stream_index isn r.checkpoint seg ≡ index
    unfolding stream_index
    index_of {r} {seg} {index} t c =
        let here =
          unwrap-wrap (index + 1) isn r.checkpoint c.small hi (omega (arith, t.near, c.not_far))
            (omega (arith, t.near, c.not_old)) in
        rw (c.numbered, here) (omega (arith, c.small))

    pub deliver-Tracks :
        {r : TcpReceiver} {seg : TcpSegment} {index : ℕ}
        → Tracks r
        → Carries r seg index
        → Tracks (deliver r isn seg)
    unfolding deliver
    deliver-Tracks {r} {seg} {index} t c =
        let at = index_of t c in
        let v =
          push_substring-Inv (str seg.payload) (stream_index isn r.checkpoint seg) seg.header.fin
            t.reassembling (omega (arith, at, c.small))
            (subst (λ k. Agrees source k (str seg.payload)) (sym at) c.bytes) in
        record {
          reassembling = v;
          near = refl;
          same_isn = λ _. refl;
          acknowledges = λ _. if-wrap isn _ _ _;
        }

    pub next_isn-eq :
        {r : TcpReceiver} {seg : TcpSegment} {index : ℕ}
        → Tracks r
        → Carries r seg index
        → (not seg.header.syn && not r.syn) ≡ false
        → next_isn r seg ≡ isn
    unfolding next_isn
    next_isn-eq {r} {seg} t c g = ground (arith, t.same_isn, c.first)

    -- A segment with the peer's bytes, within reach of the sequence numbers, keeps the receiver
    -- tracking the peer's stream: the bytes go to their places, and the acknowledgment number
    -- stands for the first index that has not arrived, or, once the stream is complete, for the
    -- number after the FIN. It does not matter whether the segment is new, old, a SYN, a FIN or
    -- none, nor in which order segments come.
    pub segment_received-Tracks :
        {r : TcpReceiver} {seg : TcpSegment} {index : ℕ}
        → Tracks r
        → Carries r seg index
        → Tracks (segment_received r seg)
    unfolding segment_received
    segment_received-Tracks {r} {seg} t c = elim (Bool-cases (not seg.header.syn && not r.syn)) [
      | inl g ↦ rw g t
      | inr g ↦ elim (Bool-cases (ByteStream.eof (stream_out r) && r.fin)) [
        | inl e ↦ rw (g, e) t
        | inr e ↦ rw (g, e, next_isn-eq t c g) (deliver-Tracks t c)
      ]
    ]

pub init-Tracks :
    (source : ℕ → ℕ) (isn capacity : ℕ) → capacity < u64_mod → Tracks source isn (init capacity)
unfolding init Reassembler.init first_unassembled_byte
init-Tracks source isn capacity h = record {
  reassembling = init-Inv source capacity h;
  near = refl;
  same_isn = λ e. absurd (false≢true e);
  acknowledges = λ e. absurd (false≢true e);
}

-- The window that the receiver announces ends where its reassembler stops taking bytes: the first
-- missing index and the window size add up to the bytes read and the capacity.
pub window_size_lem :
    {source : ℕ → ℕ} {isn : ℕ} {r : TcpReceiver}
    → Tracks source isn r
    → first_unassembled_byte r.reassembler + window_size r ≡ limit r.reassembler
unfolding window_size stream_out first_unassembled_byte
window_size_lem {source} {isn} {r} t =
    let v = t.reassembling in
    omega (
      arith,
      remaining_capacity_lem v.output_valid,
      ap length v.held,
      v.same_capacity,
      length-slice source r.reassembler.output.read_count
          (r.reassembler.first_unassembled - r.reassembler.output.read_count),
    )

-- A segment does not move the reader.
pub read_count-segment_received :
    (r : TcpReceiver) (seg : TcpSegment)
    → (segment_received r seg).reassembler.output.read_count ≡ r.reassembler.output.read_count
unfolding segment_received deliver
read_count-segment_received r seg =
    let pushed =
      (limit-push_substring r.reassembler (str seg.payload)
        (stream_index (next_isn r seg) r.checkpoint seg) seg.header.fin).0 in
    elim (Bool-cases (not seg.header.syn && not r.syn)) [
      | inl g ↦ rw g
      | inr g ↦ elim (Bool-cases (ByteStream.eof (stream_out r) && r.fin)) [
        | inl e ↦ rw (g, e)
        | inr e ↦ rw (g, e) pushed
      ]
    ]

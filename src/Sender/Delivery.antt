-- ===== src/Sender/Delivery.antt =====
-- From the sender to the receiver: what the sender has in flight is what the receiver expects.
use mathlib.Core.Bool.{false≢true}
use tcp.Prelude.{
  ℕ, ◌+◌, ◌-◌, ◌≤◌, ◌<◌, ◌≡◌, sym, ◌∙◌, Bool, false, ◌||◌, none, some, if◌then◌else◌, List, [], ◌∷◌,
  arith, u32_mod, u64_mod, Bool-cases, inl, inr,
}
use tcp.Reassembler.{first_unassembled_byte}
use tcp.Segment.{TcpSegment, flag}
use tcp.Wrapping.{wrap, plus}
use tcp.Buffer.{str}
use tcp.Reassembler.Closing.{Within}
use tcp.Receiver.{TcpReceiver, segment_received, ackno}
use tcp.Receiver.Invariant.{Carries}
use tcp.Receiver.Follows.{Follows, next_number, segment_received-Follows, Follows-ackno}
use tcp.Sender.{TcpSender}
use tcp.Sender.Flight.{Sending, Placed, Chain, Chain-le, span, flag_le}

-- The segment is one of the list.
pub data In (t : TcpSegment) : List TcpSegment → Type 0 where
  here : {ts : List TcpSegment} → In t (t ∷ ts)
  there : {x : TcpSegment} {ts : List TcpSegment} → In t ts → In t (x ∷ ts)

module _ {source : ℕ → ℕ} {isn : ℕ} where
  Placed-In :
      (t : TcpSegment) (ts : List TcpSegment) (a next : ℕ)
      → Chain source isn ts a next
      → In t ts
      → (b : ℕ) × Placed source isn t b × (a ≤ b) × (b + span t ≤ next)
  Placed-In t [] a next c q = elim q [ ]
  Placed-In t (x ∷ ts) a next c here =
      (a, c.0, omega arith, Chain-le source isn ts (a + span t) next c.1)
  Placed-In t (x ∷ ts) a next c (there q) =
      let (b, p, le, end) = Placed-In t ts (a + span x) next c.1 q in (b, p, omega arith, end)

  positive : (t : TcpSegment) (a : ℕ) → Placed source isn t a → 0 < a + flag t.header.syn
  positive t a p = elim (Bool-cases t.header.syn) [
    | inl e ↦ rw e (omega arith)
    | inr e ↦ omega (arith, p.later e)
  ]

  carried :
      (r : TcpReceiver) (t : TcpSegment) (a : ℕ)
      → Placed source isn t a
      → isn < u32_mod
      → a < first_unassembled_byte r.reassembler + 0x7fff_ffff
      → first_unassembled_byte r.reassembler < a + 0x8000_0000
      → a + 1 < u64_mod
      → Carries source isn r t (a + flag t.header.syn - 1)
  unfolding plus wrap
  carried r t a p hi ahead behind small = record {
    numbered = omega (arith, p.numbered, positive t a p);
    first = λ e. omega (arith, p.numbered, p.first e);
    bytes = p.bytes;
    not_far = omega (arith, flag_le t.header.syn);
    not_old = omega (arith, positive t a p);
    small = omega (arith, flag_le t.header.syn);
  }

  -- While a sender has sent its SYN and bytes of a stream of fewer than 2 ^ 64 - 2 bytes, and no FIN: any
  -- segment without a FIN that it has in flight, first sent or sent again and in whatever order, keeps a
  -- receiver that follows the stream following it, if the first byte that the receiver misses is not more than
  -- two numbers before what is in flight and not after it, and less than 2 ^ 30 numbers are in flight. The
  -- receiver then acknowledges nothing without a SYN, and otherwise the number of the first byte that is
  -- missing, or the one after the FIN if it has had one and every byte.
  pub delivered-Follows :
      {una stop : ℕ} {heard : Bool} (s : TcpSender) (r : TcpReceiver) (t : TcpSegment)
      → isn < u32_mod
      → Sending source isn una s
      → Follows source isn stop heard r
      → In t s.segments_outstanding
      → t.header.fin ≡ false
      → s.next_seqno ≤ stop + 1
      → una ≤ first_unassembled_byte r.reassembler + 2
      → first_unassembled_byte r.reassembler ≤ s.next_seqno
      → s.bytes_in_flight < 0x4000_0000
      → stop + 2 < u64_mod
      → Follows source isn stop (heard || t.header.syn) (segment_received r t)
        × (ackno (segment_received r t) ≡ (
            if heard || t.header.syn
            then some (wrap (next_number stop (segment_received r t)) isn)
            else none))
  delivered-Follows {una} {stop} {heard} s r t hi v f q plain short above below near room =
      let (a, p, le, end) = Placed-In t s.segments_outstanding una s.next_seqno v.chain q in
      let carries =
        carried r t a p hi (omega (arith, v.flight)) (omega (arith, v.flight)) (omega arith) in
      let within : Within stop r.reassembler (str t.payload) (a + flag t.header.syn - 1)
          t.header.fin =
        record {
          inside = omega (arith, positive t a p);
          last = λ e. absurd (false≢true (sym plain ∙ e));
          in_turn = λ e. absurd (false≢true (sym plain ∙ e));
        } in
      let f' = segment_received-Follows hi (omega arith) f carries within in
      (f', Follows-ackno isn room f')

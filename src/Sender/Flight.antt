-- ===== src/Sender/Flight.antt =====
-- The segments in flight: where each stands in the sequence space and which bytes it carries.
use tcp.Prelude.{
  ℕ, ◌+◌, ◌-◌, ◌≤◌, ◌<◌, ◌≡◌, refl, sym, ◌∙◌, Bool, true, false, List, [], ◌∷◌, ◌++◌, arith, length,
  u64_mod, Bool-cases, inl, inr,
}
use mathlib.Core.Bool.{false≢true}
use tcp.Buffer.{str}
use tcp.ByteStream.Invariant.{IsValid, contents}
use tcp.Reassembler.Source.{Agrees}
use tcp.Segment.{TcpSegment, flag, length_in_sequence_space}
use tcp.Wrapping.{wrap}
use tcp.Sender.{TcpSender, emit, start_timer, max_payload_size}

-- The numbers that a segment takes, as no sum wraps for a payload of the size that is sent.
abbrev pub span : TcpSegment → ℕ
span t = length (str t.payload) + flag t.header.syn + flag t.header.fin

pub flag_le : (b : Bool) → flag b ≤ 1
flag_le true = omega arith
flag_le false = omega arith

module _ (source : ℕ → ℕ) (isn : ℕ) where
  -- The segment starts at the absolute number `a`; the SYN has number 0, and byte `k` of the stream
  -- the number `k + 1`.
  pub record Placed (t : TcpSegment) (a : ℕ) : Type 0 where
    pub numbered : t.header.seqno ≡ wrap a isn
    pub first : t.header.syn ≡ true → a ≡ 0
    pub later : t.header.syn ≡ false → 0 < a
    pub bytes : Agrees source (a + flag t.header.syn - 1) (str t.payload)
    pub fits : length (str t.payload) ≤ max_payload_size
    pub takes : 0 < span t

  -- The segments follow one another from `a` up to `next` with no gap.
  abbrev pub Chain : List TcpSegment → ℕ → ℕ → Type 0
  Chain [] a next = a ≡ next
  Chain (t ∷ ts) a next = Placed t a × Chain ts (a + span t) next

  pub Chain-snoc :
      (ts : List TcpSegment) (a next : ℕ) (t : TcpSegment)
      → Chain ts a next
      → Placed t next
      → Chain (ts ++ t ∷ []) a (next + span t)
  Chain-snoc [] a next t c p = rw c (p, refl)
  Chain-snoc (x ∷ ts) a next t c p = (c.0, Chain-snoc ts (a + span x) next t c.1 p)

  pub Chain-le : (ts : List TcpSegment) (a next : ℕ) → Chain ts a next → a ≤ next
  Chain-le [] a next c = omega arith
  Chain-le (t ∷ ts) a next c = omega (arith, Chain-le ts (a + span t) next c.1)

  -- What is true of a sender whose oldest unacknowledged number is `una` and whose user writes the
  -- bytes of `source`.
  pub record Sending (una : ℕ) (s : TcpSender) : Type 0 where
    pub same_isn : s.isn ≡ isn
    pub chain : Chain s.segments_outstanding una s.next_seqno
    pub flight : una + s.bytes_in_flight ≡ s.next_seqno
    pub stream_valid : IsValid s.stream
    pub unsent : Agrees source s.stream.read_count (contents s.stream)
    pub room : s.stream.read_count + length (contents s.stream) + 2 < u64_mod
    pub opened : s.syn ≡ true → s.next_seqno ≡ s.stream.read_count + 1 + flag s.fin
    pub closed :
        s.syn ≡ false
        → (s.next_seqno ≡ 0)
          × (s.segments_outstanding ≡ [])
          × (s.stream.read_count ≡ 0)
          × (s.fin ≡ false)
    pub finished : s.fin ≡ true → (contents s.stream ≡ []) × (s.stream.input_ended_flag ≡ true)

pub length_in_sequence_space_lem :
    (t : TcpSegment)
    → length (str t.payload) ≤ max_payload_size
    → length_in_sequence_space t ≡ span t
unfolding length_in_sequence_space
length_in_sequence_space_lem t h = elim (Bool-cases t.header.syn) [
  | inl s ↦ elim (Bool-cases t.header.fin) [
    | inl f ↦ rw (s, f) (omega arith)
    | inr f ↦ rw (s, f) (omega arith)
  ]
  | inr s ↦ elim (Bool-cases t.header.fin) [
    | inl f ↦ rw (s, f) (omega arith)
    | inr f ↦ rw (s, f) (omega arith)
  ]
]

-- Starting the timer changes the timer only: what holds of the other fields holds on.
pub start_timer_cases {ℓ} :
    (P : TcpSender → Type ℓ) (s : TcpSender)
    → P s
    → P (record s { rto = s.initial_retransmission_timeout; tick_count = 0; timer_running = true })
    → P (start_timer s)
unfolding start_timer
start_timer_cases P s running started = elim (Bool-cases s.timer_running) [
  | inl e ↦ simp e running
  | inr e ↦ simp e started
]

module _ {source : ℕ → ℕ} {isn una : ℕ} where
  -- The queue to the network, the peer's window and the timer have no part in the accounts.
  pub Sending-aside :
      {s : TcpSender} (out : List TcpSegment) (window retries rto tick : ℕ) (running : Bool)
      → Sending source isn una s
      → Sending source isn una (record s {
        segments_out = out;
        receiver_window_size = window;
        consecutive_retransmissions = retries;
        rto = rto;
        tick_count = tick;
        timer_running = running;
      })
  Sending-aside out window retries rto tick running v = record {
    same_isn = v.same_isn;
    chain = v.chain;
    flight = v.flight;
    stream_valid = v.stream_valid;
    unsent = v.unsent;
    room = v.room;
    opened = v.opened;
    closed = v.closed;
    finished = v.finished;
  }

  -- Every number that is sent fits 64 bits.
  pub next_small : {s : TcpSender} → Sending source isn una s → s.next_seqno < u64_mod
  next_small {s} v = elim (Bool-cases s.syn) [
    | inl e ↦ omega (arith, v.opened e, v.room, flag_le s.fin)
    | inr e ↦ omega (arith, (v.closed e).0)
  ]

  pub start_timer-Sending :
      (s : TcpSender) → Sending source isn una s → Sending source isn una (start_timer s)
  start_timer-Sending s v = start_timer_cases (Sending source isn una) s v (
      Sending-aside s.segments_out s.receiver_window_size s.consecutive_retransmissions
        s.initial_retransmission_timeout 0 true v)

  -- A segment that is emitted at `next_seqno` lengthens the chain, if the stream and the flags of
  -- the sender fit the numbers after it.
  pub emit-Sending :
      (s : TcpSender) (seg : TcpSegment) (next : ℕ)
      → s.isn ≡ isn
      → Chain source isn s.segments_outstanding una s.next_seqno
      → una + s.bytes_in_flight ≡ s.next_seqno
      → Placed source isn seg s.next_seqno
      → next ≡ s.next_seqno + span seg
      → IsValid s.stream
      → Agrees source s.stream.read_count (contents s.stream)
      → s.stream.read_count + length (contents s.stream) + 2 < u64_mod
      → s.syn ≡ true
      → next ≡ s.stream.read_count + 1 + flag s.fin
      → (s.fin ≡ true → (contents s.stream ≡ []) × (s.stream.input_ended_flag ≡ true))
      → Sending source isn una (emit s seg next)
  unfolding emit
  emit-Sending s seg next hi c f p e sv su sr sy so sf = start_timer-Sending _ (record {
    same_isn = hi;
    chain = rw e (Chain-snoc source isn s.segments_outstanding una s.next_seqno seg c p);
    flight = omega (arith, length_in_sequence_space_lem seg p.fits, flag_le s.fin);
    stream_valid = sv;
    unsent = su;
    room = sr;
    opened = λ _. so;
    closed = λ z. absurd (false≢true (sym z ∙ sy));
    finished = sf;
  })

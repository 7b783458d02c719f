-- ===== src/Sender/Timer.antt =====
-- The retransmission timer: it repeats the oldest segment and backs off.
use native.Mathlib.Numerals.{unary_clauses}
use tcp.Prelude.{
  ℕ, zero, suc, ◌+◌, ◌*◌, ◌%◌, ◌≤◌, ◌<◌, ◌≡◌, refl, sym, ap, ◌∙◌, subst, true, false, not, ◌||◌,
  List, [], ◌∷◌, ◌++◌, arith, append-nil, append_assoc, ◌^◌, add64, u16_mod, u32_mod, u64_mod,
  Bool-cases, inl, inr, leb, ◌==◌,
}
use tcp.Segment.{TcpSegment}
use tcp.Sender.{TcpSender, retransmit, tick}
use tcp.Sender.Flight.{Sending, Sending-aside}

module _ {source : ℕ → ℕ} {isn una : ℕ} where
  retransmit-Sending :
      (s : TcpSender) (ts : List TcpSegment)
      → Sending source isn una s
      → Sending source isn una (retransmit s ts)
  unfolding retransmit
  retransmit-Sending s [] v = v
  retransmit-Sending s (t ∷ ts) v = Sending-aside _ s.receiver_window_size _ _ 0 s.timer_running v

  -- The passing of time takes nothing from the accounts.
  pub tick-Sending :
      (s : TcpSender) (ms : ℕ) → Sending source isn una s → Sending source isn una (tick s ms)
  unfolding tick
  tick-Sending s ms v =
      let v' =
        Sending-aside s.segments_out s.receiver_window_size s.consecutive_retransmissions s.rto
          (add64 s.tick_count ms) s.timer_running v in
      elim (Bool-cases (leb s.rto (add64 s.tick_count ms))) [
        | inl e ↦ simp e (retransmit-Sending _ s.segments_outstanding v')
        | inr e ↦ simp e v'
      ]

-- Time passes in pieces.
pub ticks : TcpSender → List ℕ → TcpSender
ticks s [] = s
ticks s (ms ∷ rest) = ticks (tick s ms) rest

abbrev pub total : List ℕ → ℕ
total [] = 0
total (ms ∷ rest) = ms + total rest

-- While less time than the timeout has passed in all, nothing is sent again: only the clock of the
-- sender moves.
pub ticks_early :
    (s : TcpSender) (pieces : List ℕ)
    → s.tick_count + total pieces < s.rto
    → s.rto < u32_mod
    → ticks s pieces ≡ record s { tick_count = s.tick_count + total pieces }
unfolding ticks tick
ticks_early s [] h small = ap (λ k. record s { tick_count = k }) (omega arith)
ticks_early s (ms ∷ rest) h small =
    let at : add64 s.tick_count ms ≡ s.tick_count + ms = omega arith in
    let e : leb s.rto (s.tick_count + ms) ≡ false = ground arith in
    rw (at, e)
      (ticks_early (record s { tick_count = s.tick_count + ms }) rest (omega arith) small
        ∙ ap (λ k. record s { tick_count = k }) (omega arith))

-- `k` timeouts with no acknowledgment between them.
pub timeouts : ℕ → TcpSender → TcpSender
timeouts zero s = s
timeouts (suc k) s = let before = timeouts k s in tick before before.rto

pub repeated : ℕ → TcpSegment → List TcpSegment
repeated zero t = []
repeated (suc k) t = repeated k t ++ t ∷ []

-- What `k` timeouts leave of `s`, whose oldest segment is `t`.
pub record BackedOff (s : TcpSender) (t : TcpSegment) (k : ℕ) (s' : TcpSender) : Type 0 where
  pub sent : s'.segments_out ≡ s.segments_out ++ repeated k t
  pub doubled : s'.rto ≡ s.rto * 2 ^ k % u32_mod
  pub counted : s'.consecutive_retransmissions ≡ (s.consecutive_retransmissions + k) % u16_mod
  pub kept : s'.segments_outstanding ≡ s.segments_outstanding
  pub same_window : s'.receiver_window_size ≡ s.receiver_window_size
  pub clock : s'.tick_count ≤ s.tick_count

twice : (x k : ℕ) → x * 2 ^ k % u32_mod * 2 % u32_mod ≡ x * 2 ^ suc k % u32_mod
twice x k =
    let y = x * 2 ^ k in
    let e : x * 2 ^ suc k ≡ y * 2 = simp unary_clauses (omega arith) in rw e (omega arith)

-- A timeout is a retransmission.
tick_fires :
    (s : TcpSender) (ms : ℕ) (ts : List TcpSegment)
    → s.segments_outstanding ≡ ts
    → s.rto ≤ s.tick_count + ms
    → s.tick_count + ms < u64_mod
    → tick s ms ≡ retransmit (record s { tick_count = add64 s.tick_count ms }) ts
unfolding tick
tick_fires s ms ts e late room =
    let fires : leb s.rto (add64 s.tick_count ms) ≡ true = ground arith in
    rw fires (ap (retransmit (record s { tick_count = add64 s.tick_count ms })) e)

-- A timeout counts as a retransmission unless the window is 0 and the segment no SYN.
pub tick_retries :
    (s : TcpSender) (ms : ℕ) (t : TcpSegment) (ts : List TcpSegment)
    → s.segments_outstanding ≡ t ∷ ts
    → s.rto ≤ s.tick_count + ms
    → s.tick_count + ms < u64_mod
    → (not (s.receiver_window_size == 0) || t.header.syn) ≡ true
    → (tick s ms).consecutive_retransmissions ≡ (s.consecutive_retransmissions + 1) % u16_mod
unfolding retransmit
tick_retries s ms t ts front late room nonzero =
    ap (λ x. x.consecutive_retransmissions) (tick_fires s ms (t ∷ ts) front late room)
    ∙ (rw nonzero refl)

backs_off_step :
    (s : TcpSender) (t : TcpSegment) (ts : List TcpSegment) (k : ℕ) (s' : TcpSender)
    → s.segments_outstanding ≡ t ∷ ts
    → (not (s.receiver_window_size == 0) || t.header.syn) ≡ true
    → s.tick_count + u32_mod < u64_mod
    → BackedOff s t k s'
    → BackedOff s t (suc k) (tick s' s'.rto)
unfolding retransmit repeated
backs_off_step s t ts k s' front nonzero small b =
    let fires =
      tick_fires s' s'.rto (t ∷ ts) (b.kept ∙ front) (omega arith)
        (omega (arith, b.doubled, b.clock)) in
    let backs : (not (s'.receiver_window_size == 0) || t.header.syn) ≡ true =
      ap (λ w. not (w == 0) || t.header.syn) b.same_window ∙ nonzero in
    subst (BackedOff s t (suc k)) (sym fires) (record {
      sent = ap (λ l. l ++ t ∷ []) b.sent ∙ append_assoc s.segments_out (repeated k t) (t ∷ []);
      doubled = rw backs (ap (λ r. r * 2 % u32_mod) b.doubled ∙ twice s.rto k);
      counted = rw backs (omega (arith, b.counted));
      kept = b.kept;
      same_window = b.same_window;
      clock = omega arith;
    })

-- With a segment in flight and a window other than 0, or a SYN in front, `k` timeouts with no
-- acknowledgment between them send the oldest segment `k` times and nothing else, double the
-- timeout each time, and count `k` retransmissions, each number in its width.
pub timeouts-BackedOff :
    (s : TcpSender) (t : TcpSegment) (ts : List TcpSegment) (k : ℕ)
    → s.segments_outstanding ≡ t ∷ ts
    → (not (s.receiver_window_size == 0) || t.header.syn) ≡ true
    → s.tick_count + u32_mod < u64_mod
    → s.rto < u32_mod
    → s.consecutive_retransmissions < u16_mod
    → BackedOff s t k (timeouts k s)
unfolding timeouts repeated
timeouts-BackedOff s t ts zero front nonzero small sr sc = record {
  sent = sym (append-nil s.segments_out);
  doubled = simp unary_clauses (omega arith);
  counted = omega arith;
  kept = refl;
  same_window = refl;
  clock = omega arith;
}
timeouts-BackedOff s t ts (suc k) front nonzero small sr sc =
    backs_off_step s t ts k _ front nonzero small
      (timeouts-BackedOff s t ts k front nonzero small sr sc)

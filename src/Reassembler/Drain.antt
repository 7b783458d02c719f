-- ===== src/Reassembler/Drain.antt =====
-- The `while` loop of `push_substring`: it keeps what held after the `for` loop, and a fuel of
-- `unassembled` rounds is enough for it.
use tcp.Prelude.{
  ℕ, zero, suc, ◌≤◌, ◌<◌, ◌≡◌, refl, sym, ap, ◌∙◌, subst, true, false, arith, ◌==◌, u64_mod, add64,
  Bool-cases, inl, inr, ==→eq, ==→ne,
}
use tcp.Reassembler.{Work, can_drain, drain_byte, drain}
use tcp.Reassembler.Count.{count-le}
use tcp.Reassembler.Loop.{Mid, some_unassembled, advance, any_pos}

can_drain_split :
    (cur : ℕ) (w : Work)
    → can_drain cur w ≡ true
    → (cur ≡ w.first_unassembled) × (w.m_exist cur ≡ true)
can_drain_split cur w h = ground arith

module _ (source : ℕ → ℕ) (start limit : ℕ) (hl : limit < u64_mod) where
  drain_here :
      (w : Work)
      → Mid source start limit w.first_unassembled w
      → w.m_exist w.first_unassembled ≡ true
      → Mid source start limit (suc w.first_unassembled) (drain_byte w.first_unassembled w)
        × (suc (drain_byte w.first_unassembled w).unassembled ≡ w.unassembled)
        × (suc w.first_unassembled ≤ limit)
  unfolding drain_byte
  drain_here w m e =
      let known = m.stored w.first_unassembled (omega arith) e in
      let positive = some_unassembled source start limit m e in
      let most = count-le w.m_exist limit in
      (
        advance source start limit (w.m_char w.first_unassembled) _ hl m known.1 known.0
            (omega (arith, known.1)) refl refl e (λ k _. refl) (omega (arith, m.counted, known.1)),
        omega (arith, m.counted),
        omega (arith, known.1),
      )

  drain_step :
      (cur : ℕ) (w : Work)
      → Mid source start limit cur w
      → can_drain cur w ≡ true
      → Mid source start limit (add64 cur 1) (drain_byte cur w)
        × (suc (drain_byte cur w).unassembled ≡ w.unassembled)
  drain_step cur w m h =
      let (p, x) = can_drain_split cur w h in
      let (m', fewer, fits) =
        drain_here w (subst (λ k. Mid source start limit k w) p m) (sym (ap w.m_exist p) ∙ x) in
      let next : suc w.first_unassembled ≡ add64 cur 1 = omega arith in
      (
        subst (λ k. Mid source start limit (add64 cur 1) (drain_byte k w)) (sym p)
            (subst (λ k. Mid source start limit k (drain_byte w.first_unassembled w)) next m'),
        ap (λ k. suc (drain_byte k w).unassembled) p ∙ fewer,
      )

  -- What the loop leaves.
  abbrev pub Ended : ℕ × Work → Type 0
  Ended (cur, w) = Mid source start limit cur w × (can_drain cur w ≡ false)

  stuck :
      (cur : ℕ) (w : Work)
      → w.unassembled ≤ 0
      → Mid source start limit cur w
      → can_drain cur w ≡ false
  stuck cur w h m = elim (Bool-cases (can_drain cur w)) [
    | inr e ↦ e
    | inl e ↦
        let (p, x) = can_drain_split cur w e in
        absurd (omega (arith, some_unassembled source start limit m (sym (ap w.m_exist p) ∙ x)))
  ]

  -- After the loop its test fails, given as many rounds as there are unassembled bytes.
  pub drain_ends :
      (fuel cur : ℕ) (w : Work)
      → w.unassembled ≤ fuel
      → Mid source start limit cur w
      → Ended (drain fuel cur w)
  unfolding drain
  drain_ends zero cur w h m = (m, stuck cur w h m)
  drain_ends (suc fuel) cur w h m = elim (Bool-cases (can_drain cur w)) [
    | inr e ↦ rw e (m, e)
    | inl e ↦
        let (m', fewer) = drain_step cur w m e in
        rw e (drain_ends fuel (add64 cur 1) (drain_byte cur w) (omega arith) m')
  ]

  -- So nothing stands at `first_unassembled` after the loop.
  pub Ended-missing :
      (p : ℕ × Work)
      → Ended p
      → Mid source start limit 0 p.1 × (p.1.m_exist p.1.first_unassembled ≡ false)
  Ended-missing (cur, w) (m, test) = (any_pos source start limit 0 m gone, gone)
    where
      gone : w.m_exist w.first_unassembled ≡ false
      gone = elim (Bool-cases (cur == w.first_unassembled)) [
        | inr ne ↦ m.missing (==→ne cur w.first_unassembled ne)
        | inl e ↦ let p = ==→eq cur w.first_unassembled e in sym (ap w.m_exist p) ∙ (rw e at test)
      ]

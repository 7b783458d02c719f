-- ===== src/Checksum/Fold.antt =====
-- The loop of `value` ends, and what it computes.
use tcp.Prelude.{
  ℕ, ◌+◌, ◌-◌, ◌/◌, ◌%◌, ◌^◌, ◌≤◌, ◌<◌, ◌≡◌, ap, ◌∙◌, false, some, arith, ltb, ltb→lt, ltb→ge,
  Bool-cases, inl, inr, ◌==◌, if◌then◌else◌, u32_mod, add32,
}
use tcp.Checksum.{InternetChecksum, fold, value, complement}

-- The sum of the 16-bit words with the carries added back: the remainder by 65535, but 65535 and
-- not 0 for a sum other than 0.
abbrev pub ones_sum : ℕ → ℕ
ones_sum s = if s == 0 then 0 else (s + 0xfffe) % 0xffff + 1

-- One round of the loop keeps this remainder.
round_lem :
    (s : ℕ) → s < u32_mod → 0xffff < s → ones_sum (add32 (s / 2 ^ 16) (s % 2 ^ 16)) ≡ ones_sum s
round_lem s h big = ground arith

-- Two rounds are enough for any 32-bit sum, and give the sum with the carries added back.
pub fold_lem : (s : ℕ) → s < u32_mod → fold 2 s ≡ some (ones_sum s)
unfolding fold
fold_lem s h = elim (Bool-cases (ltb 0xffff s)) [
  | inr e ↦ rw e (ap some (small s (ltb→ge 0xffff s e)))
  | inl e ↦
      let big = ltb→lt 0xffff s e in
      let t = add32 (s / 2 ^ 16) (s % 2 ^ 16) in
      let same = round_lem s h big in
      elim (Bool-cases (ltb 0xffff t)) [
        | inr f ↦ rw (e, f) (ap some (small t (ltb→ge 0xffff t f) ∙ same))
        | inl f ↦
            let u = add32 (t / 2 ^ 16) (t % 2 ^ 16) in
            let again = round_lem t (omega arith) (ltb→lt 0xffff t f) in
            let ends : ltb 0xffff u ≡ false = ground arith in
            rw (e, f, ends) (ap some (small u (ltb→ge 0xffff u ends) ∙ again ∙ same))
      ]
]
  where
    small : (s : ℕ) → s ≤ 0xffff → s ≡ ones_sum s
    small s h = ground arith

pub value_lem : (c : InternetChecksum) → c.sum < u32_mod → value c ≡ some (0xffff - ones_sum c.sum)
unfolding value complement
value_lem c h = rw (fold_lem c.sum h, complement) (ap some (ground arith))

-- With its checksum added to a sum, the sum checks to 0.
pub value_added :
    (c : InternetChecksum) (s : ℕ)
    → c.sum ≡ s + (0xffff - ones_sum s)
    → s + 0xffff < u32_mod
    → value c ≡ some 0
value_added c s e h =
    value_lem c (omega (arith, e)) ∙ ap some (ap (λ k. 0xffff - ones_sum k) e ∙ ground arith)

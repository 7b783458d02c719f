-- ===== src/Router/Shift.antt =====
-- The test of a route on the bits is a comparison of prefixes.
use native.Mathlib.Numerals.{unary_clauses}
use native.Mathlib.Nat.{div-div-eq-div-mul}
use tcp.Prelude.{
  ℕ, zero, suc, ◌+◌, ◌-◌, ◌*◌, ◌/◌, ◌%◌, ◌^◌, ◌≤◌, ◌<◌, ◌≡◌, sym, ap, ap₂, subst, false, ltb, ◌∙◌,
  arith, ◌==◌, Bool-cases, inl, inr, ==→eq, eq→==,
}
use tcp.Router.{RouteItem, xor, drop_bits, shift_right, is_zero, matches}

low_bit : (a b : ℕ) → a % 2 ≡ b % 2 → a / 2 ≡ b / 2 → a ≡ b
low_bit a b e f = omega (arith, e, f)

half : (a w : ℕ) → a < 2 ^ suc w → a / 2 < 2 ^ w
half a w h = let p : 2 ^ suc w ≡ 2 ^ w * 2 = simp unary_clauses (omega arith) in omega (arith, h, p)

-- Two numbers of `w` bits have no differing bit exactly if they are equal.
xor_zero : (w a b : ℕ) → a < 2 ^ w → b < 2 ^ w → (xor w a b == 0) ≡ (a == b)
unfolding xor
xor_zero zero a b ha hb = let z : a < 1 = ha in let y : b < 1 = hb in ground arith
xor_zero (suc w) a b ha hb =
    let half_a : a / 2 < 2 ^ w = half a w ha in
    let half_b : b / 2 < 2 ^ w = half b w hb in
    let ih = xor_zero w (a / 2) (b / 2) half_a half_b in ground (arith, ih)

drop_bit : (w a b : ℕ) → xor (suc w) a b / 2 ≡ xor w (a / 2) (b / 2)
unfolding xor
drop_bit w a b = ground arith

-- A shift drops the low bits of both.
drop_bits-xor :
    (k w a b : ℕ) → drop_bits k (xor (k + w) a b) ≡ xor w (drop_bits k a) (drop_bits k b)
unfolding drop_bits
drop_bits-xor zero w a b = ap (λ n. xor n a b) (omega arith)
drop_bits-xor (suc k) w a b =
    let n : suc k + w ≡ suc (k + w) = omega arith in
    ap (λ m. drop_bits k (xor m a b / 2)) n
    ∙ ap (drop_bits k) (drop_bit (k + w) a b)
    ∙ drop_bits-xor k w (a / 2) (b / 2)

drop_bits_lt : (k w a : ℕ) → a < 2 ^ (k + w) → drop_bits k a < 2 ^ w
unfolding drop_bits
drop_bits_lt zero w a h = let n : 0 + w ≡ w = omega arith in subst (λ m. a < 2 ^ m) n h
drop_bits_lt (suc k) w a h =
    let n : suc k + w ≡ suc (k + w) = omega arith in
    drop_bits_lt k w (a / 2) (half a (k + w) (subst (λ m. a < 2 ^ m) n h))

-- The test on the bits that differ compares the prefixes.
pub drop_bits-same :
    (k w a b : ℕ)
    → a < 2 ^ (k + w)
    → b < 2 ^ (k + w)
    → (drop_bits k (xor (k + w) a b) == 0) ≡ (drop_bits k a == drop_bits k b)
drop_bits-same k w a b ha hb =
    ap (λ n. n == 0) (drop_bits-xor k w a b)
    ∙ xor_zero w (drop_bits k a) (drop_bits k b) (drop_bits_lt k w a ha) (drop_bits_lt k w b hb)

drop_bits_lem : (k a : ℕ) → drop_bits k a ≡ a / 2 ^ k
unfolding drop_bits
drop_bits_lem zero a = simp unary_clauses (omega arith)
drop_bits_lem (suc k) a =
    drop_bits_lem k (a / 2)
    ∙ div-div-eq-div-mul a 2 (2 ^ k)
    ∙ let twice : 2 * 2 ^ k ≡ 2 ^ suc k = simp unary_clauses (omega arith) in ap (λ n. a / n) twice

-- A route with a prefix length of at most 32 matches a destination exactly if the quotients of the two by
-- 2 ^ (32 - length) are equal: if they have the same first bits, as many as the length says. A length of 0
-- matches everything, although `>> 32` is not defined.
pub matches_lem :
    (dst : ℕ) (item : RouteItem)
    → dst < 2 ^ 32
    → item.route_prefix < 2 ^ 32
    → item.prefix_length ≤ 32
    → matches dst item
      ≡ (item.route_prefix / 2 ^ (32 - item.prefix_length) == dst / 2 ^ (32 - item.prefix_length))
unfolding matches shift_right is_zero
matches_lem dst item hd hp hl =
    let k = 32 - item.prefix_length in
    let same = ap₂ ◌==◌ (drop_bits_lem k item.route_prefix) (drop_bits_lem k dst) in
    elim (Bool-cases (item.prefix_length == 0)) [
      | inl e ↦
          let n : 32 ≡ k + 0 = omega (arith, ==→eq item.prefix_length 0 e) in
          let a =
            drop_bits_lt k 0 item.route_prefix (subst (λ m. item.route_prefix < 2 ^ m) n hp) in
          let b = drop_bits_lt k 0 dst (subst (λ m. dst < 2 ^ m) n hd) in
          rw e (
            sym (eq→== (drop_bits k item.route_prefix) (drop_bits k dst) (omega (arith, a, b)))
            ∙ same)
      | inr e ↦
          let n : 32 ≡ k + item.prefix_length = omega arith in
          let fits : ltb 32 item.prefix_length ≡ false = ground arith in
          rw (e, fits)
            (ap (λ m. drop_bits k (xor m item.route_prefix dst) == 0) n
              ∙ drop_bits-same k item.prefix_length item.route_prefix dst
                  (subst (λ m. item.route_prefix < 2 ^ m) n hp) (subst (λ m. dst < 2 ^ m) n hd)
              ∙ same)
    ]

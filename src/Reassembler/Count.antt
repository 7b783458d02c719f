-- ===== src/Reassembler/Count.antt =====
-- Counting the indices below a bound that a map from indices to Booleans marks.
use tcp.Prelude.{
  ℕ, zero, suc, ◌+◌, ◌≤◌, ◌<◌, ◌≡◌, refl, ap, Bool, true, false, arith, ◌==◌, if◌then◌else◌, ==→eq,
  ==→ne, Bool-cases, inl, inr,
}
use tcp.Reassembler.{update}

-- How many indices below `n` are marked.
abbrev pub count : (ℕ → Bool) → ℕ → ℕ
count m zero = 0
count m (suc n) = count m n + (if m n then 1 else 0)

pub count-le : (m : ℕ → Bool) (n : ℕ) → count m n ≤ n
count-le m zero = omega arith
count-le m (suc n) = ground (arith, count-le m n)

-- A mark at or above the bound does not count.
pub count-update_ge : (m : ℕ → Bool) (k n : ℕ) → n ≤ k → count (update m k true) n ≡ count m n
count-update_ge m k zero h = refl
count-update_ge m k (suc n) h = ground (arith, count-update_ge m k n)

pub count-update :
    (m : ℕ → Bool) (k n : ℕ) → m k ≡ false → k < n → count (update m k true) n ≡ count m n + 1
count-update m k zero f h = elim h [ ]
count-update m k (suc n) f h = elim (Bool-cases (n == k)) [
  | inl e ↦ ground (arith, ap m (==→eq n k e), count-update_ge m k n (omega (arith, ==→eq n k e)))
  | inr e ↦ ground (arith, count-update m k n f (omega (arith, ==→ne n k e)))
]

-- If every index below `k` is marked then all of them count.
pub count_all : (m : ℕ → Bool) (n : ℕ) → ((j : ℕ) → j < n → m j ≡ true) → count m n ≡ n
count_all m zero h = refl
count_all m (suc n) h = ground (arith, count_all m n (λ j l. h j (omega arith)), h n (omega arith))

pub count_mono : (m : ℕ → Bool) (k n : ℕ) → k ≤ n → count m k ≤ count m n
count_mono m k zero h = let z : k ≡ 0 = omega arith in rw z (omega arith)
count_mono m k (suc n) h = elim (Bool-cases (k == suc n)) [
  | inl e ↦ rw (==→eq k (suc n) e) (omega arith)
  | inr e ↦ omega (arith, count_mono m k n (omega (arith, ==→ne k (suc n) e)))
]

-- Nothing is marked from `k` to `n`.
pub count_stop :
    (m : ℕ → Bool) (k n : ℕ) → k ≤ n → ((j : ℕ) → k ≤ j → m j ≡ false) → count m n ≡ count m k
count_stop m k zero h z = let z0 : k ≡ 0 = omega arith in rw z0
count_stop m k (suc n) h z = elim (Bool-cases (k == suc n)) [
  | inl e ↦ rw (==→eq k (suc n) e)
  | inr e ↦
      let low : k ≤ n = omega (arith, ==→ne k (suc n) e) in
      ground (arith, count_stop m k n low z, z n low)
]

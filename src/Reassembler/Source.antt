-- ===== src/Reassembler/Source.antt =====
-- The stream that a sender cuts into substrings: byte `k` of it is `source k`. Slices of it, what
-- it means that a substring agrees with it, and the reassembler's invariant.
use tcp.Prelude.{
  ℕ, zero, suc, min, ◌+◌, ◌-◌, ◌≤◌, ◌<◌, ◌≡◌, refl, ap, true, false, List, [], ◌∷◌, ◌++◌, arith,
  length, take, drop, u64_mod,
}
use tcp.ByteStream.Invariant.{IsValid, contents}
use tcp.Reassembler.{StreamReassembler}
use tcp.Reassembler.Count.{count}

-- The `n` bytes from index `a` on.
abbrev pub slice : (ℕ → ℕ) → ℕ → ℕ → List ℕ
slice source a zero = []
slice source a (suc n) = source a ∷ slice source (suc a) n

-- Each byte of a substring at index `a` is the source's.
abbrev pub Agrees : (ℕ → ℕ) → ℕ → List ℕ → Type 0
Agrees source a [] = Unit {0}
Agrees source a (c ∷ cs) = (c ≡ source a) × Agrees source (suc a) cs

pub length-slice : (source : ℕ → ℕ) (a n : ℕ) → length (slice source a n) ≡ n
length-slice source a zero = refl
length-slice source a (suc n) = ap suc (length-slice source (suc a) n)

pub slice-append :
    (source : ℕ → ℕ) (a m n : ℕ)
    → slice source a m ++ slice source (a + m) n ≡ slice source a (m + n)
slice-append source a zero n =
    let e : a + 0 ≡ a = omega arith in let z : 0 + n ≡ n = omega arith in rw (e, z)
slice-append source a (suc m) n =
    let e : a + suc m ≡ suc a + m = omega arith in
    let z : suc m + n ≡ suc (m + n) = omega arith in
    rw (e, z) (ap (◌∷◌ (source a)) (slice-append source (suc a) m n))

pub slice-snoc :
    (source : ℕ → ℕ) (a k : ℕ)
    → a ≤ k
    → slice source a (k - a) ++ source k ∷ [] ≡ slice source a (suc k - a)
slice-snoc source a k h =
    let e : a + (k - a) ≡ k = omega arith in
    let z : k - a + 1 ≡ suc k - a = omega arith in rw (e, z) at (slice-append source a (k - a) 1)

pub drop-slice :
    (source : ℕ → ℕ) (k a n : ℕ) → k ≤ n → drop k (slice source a n) ≡ slice source (a + k) (n - k)
drop-slice source zero a n h =
    let e : a + 0 ≡ a = omega arith in let z : n - 0 ≡ n = omega arith in rw (e, z)
drop-slice source (suc k) a zero h = absurd (omega arith)
drop-slice source (suc k) a (suc n) h =
    let e : a + suc k ≡ suc a + k = omega arith in
    let z : suc n - suc k ≡ n - k = omega arith in
    rw (e, z) (drop-slice source k (suc a) n (omega arith))

pub take-slice : (source : ℕ → ℕ) (k a n : ℕ) → take k (slice source a n) ≡ slice source a (min k n)
take-slice source zero a n = let z : min 0 n ≡ 0 = omega arith in rw z
take-slice source (suc k) a zero = let z : min (suc k) 0 ≡ 0 = omega arith in rw z
take-slice source (suc k) a (suc n) =
    let z : min (suc k) (suc n) ≡ suc (min k n) = omega arith in
    rw z (ap (◌∷◌ (source a)) (take-slice source k (suc a) n))

-- Where the bytes of the source stand in a reassembler whose output has had `first_unread` bytes
-- read: those up to `first_unassembled` were written to the output, of which the unread ones are
-- still there; some beyond are stored; none is stored at or past the end of the window.
pub record Inv (source : ℕ → ℕ) (r : StreamReassembler) : Type 0 where
  pub output_valid : IsValid r.output
  pub same_capacity : r.output.capacity ≡ r.capacity
  pub room : r.output.read_count + r.capacity < u64_mod
  pub unread : r.output.read_count ≤ r.first_unassembled
  pub window : r.first_unassembled ≤ r.output.read_count + r.capacity
  pub held :
      contents r.output
      ≡ slice source r.output.read_count (r.first_unassembled - r.output.read_count)
  pub assembled : (k : ℕ) → k < r.first_unassembled → r.m_exist k ≡ true
  pub missing : r.m_exist r.first_unassembled ≡ false
  pub stored :
      (k : ℕ)
      → r.first_unassembled ≤ k
      → r.m_exist k ≡ true
      → (r.m_char k ≡ source k) × (k < r.output.read_count + r.capacity)
  pub counted :
      count r.m_exist (r.output.read_count + r.capacity) ≡ r.first_unassembled + r.unassembled

-- ===== src/FileDescriptor/Tests.antt =====
-- A pipe that takes one byte at each call.
use tcp.Prelude.{
  ℕ, ◌≡◌, refl, append-nil, sym, true, List, [], ◌∷◌, ◌++◌, Option, some, arith, length, take, ◌≤◌,
  ◌<◌,
}
use tcp.FileDescriptor.{FileDescriptor, new_descriptor, written, write}
use tcp.FileDescriptor.Whole.{Accepts, write_all_lem}

-- The state is what has come through.
abbrev slow : List ℕ → List ℕ → Option (ℕ × List ℕ)
slow [] k = some (0, k)
slow (b ∷ bs) k = some (1, k ++ b ∷ [])

slow_taken :
    (buffer k : List ℕ)
    → (n : ℕ) × (k' : List ℕ) × (slow buffer k ≡ some (n, k'))
      × (n ≤ length buffer)
      × (0 < length buffer → 0 < n)
      × (k' ≡ k ++ take n buffer)
slow_taken [] k = (0, k, refl, omega arith, (λ h. h), sym (append-nil k))
slow_taken (b ∷ bs) k = (1, k ++ b ∷ [], refl, omega arith, (λ h. omega arith), refl)

slow-Accepts : Accepts {K = List ℕ} (λ k. k) slow
slow-Accepts = record { taken = slow_taken }

write_all_lem_example :
    (fd' : FileDescriptor) × (k' : List ℕ) × (write slow 4 (7 ∷ 8 ∷ 9 ∷ []) true new_descriptor []
      ≡ written 3 fd' k')
    × (k' ≡ 7 ∷ 8 ∷ 9 ∷ [])
write_all_lem_example =
    write_all_lem (λ k. k) slow slow-Accepts 4 (7 ∷ 8 ∷ 9 ∷ []) new_descriptor [] (omega arith)
      (omega arith)

-- ===== src/FileDescriptor/Whole.antt =====
-- `write` of everything.
use tcp.Prelude.{
  ℕ, zero, suc, ◌≤◌, ◌<◌, ◌≡◌, ap, ◌∙◌, true, Bool-cases, List, ◌++◌, append_assoc, inl, inr,
  Option, some, arith, length, length-drop, take, drop, take_all, take-append-drop, u64_mod, ◌==◌,
  ==→eq, ==→ne,
}
use tcp.FileDescriptor.{FileDescriptor, written, add_written, write_some, write, register_write}

-- A pass of the loop whose system call takes some of what there is.
pub write_some_returns :
    {K : Type 0} (sys_writev : List ℕ → K → Option (ℕ × K)) (buffer : List ℕ) (fd : FileDescriptor)
    (k k' : K) (n : ℕ)
    → sys_writev buffer k ≡ some (n, k')
    → n ≤ length buffer
    → (0 < length buffer → 0 < n)
    → write_some sys_writev buffer fd k ≡ some (n, (drop n buffer, (register_write fd, k')))
unfolding write_some
write_some_returns sys_writev buffer fd k k' n e most least = rw e (ground arith)

-- What writev(2) promises of a descriptor that can take bytes: it takes the first bytes that it is offered,
-- and some if it is offered some. `received` is what has come through the descriptor.
pub record Accepts {K : Type 0} (received : K → List ℕ) (sys_writev : List ℕ → K → Option (ℕ × K))
    : Type 0 where
  pub taken :
      (buffer : List ℕ) (k : K)
      → (n : ℕ) × (k' : K) × (sys_writev buffer k ≡ some (n, k'))
        × (n ≤ length buffer)
        × (0 < length buffer → 0 < n)
        × (received k' ≡ received k ++ take n buffer)

module _ {K : Type 0} (received : K → List ℕ) (sys_writev : List ℕ → K → Option (ℕ × K))
    (ok : Accepts received sys_writev) where
  pub write_some_lem :
      (buffer : List ℕ) (fd : FileDescriptor) (k : K)
      → (n : ℕ) × (k' : K) × (write_some sys_writev buffer fd k
          ≡ some (n, (drop n buffer, (register_write fd, k'))))
        × (n ≤ length buffer)
        × (0 < length buffer → 0 < n)
        × (received k' ≡ received k ++ take n buffer)
  write_some_lem buffer fd k =
      let (n, k', e, most, least, got) = ok.taken buffer k in
      (n, k', write_some_returns sys_writev buffer fd k k' n e most least, most, least, got)

  -- Whatever comes of the calls, the bytes of `write` and of the rest of its buffer are those of the buffer.
  write_rest :
      (fuel n : ℕ) (buffer : List ℕ) (fd : FileDescriptor) (k k1 : K)
      → length (drop n buffer) < u64_mod
      → n ≤ length buffer
      → length buffer < u64_mod
      → (fd' : FileDescriptor) × (k' : K) × (write sys_writev fuel (drop n buffer) true fd k1
          ≡ written (length (drop n buffer)) fd' k')
        × (received k' ≡ received k1 ++ drop n buffer)
      → received k1 ≡ received k ++ take n buffer
      → (fd' : FileDescriptor) × (k' : K) × (add_written n
            (write sys_writev fuel (drop n buffer) true fd k1)
          ≡ written (length buffer) fd' k')
        × (received k' ≡ received k ++ buffer)
  unfolding add_written
  write_rest fuel n buffer fd k k1 s most small (fd', k', e, got') got = (
    fd',
    k',
    rw e (ap (λ m. written m fd' k') (omega (arith, length-drop n buffer))),
    got'
        ∙ ap (λ xs. xs ++ drop n buffer) got
        ∙ append_assoc (received k) (take n buffer) (drop n buffer)
        ∙ ap (◌++◌ (received k)) (take-append-drop n buffer),
  )

  -- `write` with `write_all` ends on any buffer, of a length that fits a `size_t`, after at most one system
  -- call for each byte and one more, throws nothing, returns the number of its bytes, and they have come
  -- through the descriptor in their order: whenever each writev(2) takes a first part of what it is offered,
  -- and at least a byte if there is one.
  pub write_all_lem :
      (fuel : ℕ) (buffer : List ℕ) (fd : FileDescriptor) (k : K)
      → length buffer < u64_mod
      → length buffer < fuel
      → (fd' : FileDescriptor) × (k' : K) × (write sys_writev fuel buffer true fd k
          ≡ written (length buffer) fd' k')
        × (received k' ≡ received k ++ buffer)
  unfolding write
  write_all_lem zero buffer fd k small enough = absurd (omega (arith, enough))
  write_all_lem (suc fuel) buffer fd k small enough =
      let (n, k1, e, most, least, got) = write_some_lem buffer fd k in
      let short = length-drop n buffer in
      elim (Bool-cases (length (drop n buffer) == 0)) [
        | inl stop ↦
            let whole : n ≡ length buffer = omega (arith, ==→eq _ _ stop) in
            (
              register_write fd,
              k1,
              rw (write, e) (rw stop (ap (λ m. written m (register_write fd) k1) whole)),
              got ∙ ap (◌++◌ (received k)) (take_all n buffer (omega arith)),
            )
        | inr more ↦
            rw (write, e)
              (rw more (
                write_rest fuel n buffer (register_write fd) k k1 (omega arith) most small
                  (write_all_lem fuel (drop n buffer) (register_write fd) k1 (omega arith)
                    (omega (arith, ==→ne _ _ more)))
                  got))
      ]

-- ===== src/FileDescriptor/Once.antt =====
-- A read, and a write that makes one system call.
use tcp.Prelude.{
  ℕ, ◌≤◌, ◌<◌, ◌≡◌, refl, min, true, false, ◌&&◌, List, ◌++◌, Option, some, arith, ◌==◌, ltb,
  if◌then◌else◌, length, take, and_then, add32, one_of,
}
use tcp.FileDescriptor.{
  FileDescriptor, written, read, read_limit, read_result, write, register_read, register_write,
}
use tcp.FileDescriptor.Whole.{Accepts, write_some_returns}

module _ {K : Type 0} where
  -- A read whose system call gives no more than it is asked for.
  pub read_returns :
      (sys_read : ℕ → K → Option (List ℕ × K)) (limit : ℕ) (fd : FileDescriptor) (k k' : K)
      (bytes : List ℕ)
      → sys_read (min read_limit limit) k ≡ some (bytes, k')
      → length bytes ≤ min read_limit limit
      → (fd' : FileDescriptor) × (read sys_read limit fd k ≡ some (bytes, (fd', k')))
        × (fd'.read_count ≡ add32 fd.read_count 1)
        × (fd'.write_count ≡ fd.write_count)
  unfolding read read_result
  read_returns sys_read limit fd k k' bytes e fits =
      let over : ltb (min read_limit limit) (length bytes) ≡ false = ground arith in
      let ended = ltb 0 limit && (length bytes == 0) in
      let fd1 = if ended then record fd { eof = true } else fd in
      let counts =
        one_of
          (λ x. (add32 x.read_count 1 ≡ add32 fd.read_count 1) × (x.write_count ≡ fd.write_count))
          ended (record fd { eof = true }) fd (refl, refl) (refl, refl) in
      (register_read fd1, rw (e, and_then) (rw over refl), counts.0, counts.1)

  -- A write of one system call, which takes some of what there is.
  pub write_returns :
      (sys_writev : List ℕ → K → Option (ℕ × K)) (buffer : List ℕ) (fd : FileDescriptor) (k k' : K)
      (n : ℕ)
      → sys_writev buffer k ≡ some (n, k')
      → n ≤ length buffer
      → (0 < length buffer → 0 < n)
      → write sys_writev 1 buffer false fd k ≡ written n (register_write fd) k'
  unfolding write
  write_returns sys_writev buffer fd k k' n e most least =
      rw (write, write_some_returns sys_writev buffer fd k k' n e most least) refl

-- What read(2) promises of a descriptor that has something to give: it gives no more than it is asked for.
-- `received` is what has come through the descriptor the other way.
pub record Gives {K : Type 0} (received : K → List ℕ) (sys_read : ℕ → K → Option (List ℕ × K))
    : Type 0 where
  pub given :
      (n : ℕ) (k : K)
      → (bytes : List ℕ) × (k' : K) × (sys_read n k ≡ some (bytes, k'))
        × (length bytes ≤ n)
        × (received k' ≡ received k)

module _ {K : Type 0} (received : K → List ℕ) where
  -- The descriptor after a read.
  pub read_lem :
      (sys_read : ℕ → K → Option (List ℕ × K))
      → Gives received sys_read
      → (limit : ℕ) (fd : FileDescriptor) (k : K)
      → (bytes : List ℕ) × (fd' : FileDescriptor) × (k' : K) × (read sys_read limit fd k
          ≡ some (bytes, (fd', k')))
        × (length bytes ≤ limit)
        × (fd'.read_count ≡ add32 fd.read_count 1)
        × (fd'.write_count ≡ fd.write_count)
        × (received k' ≡ received k)
  read_lem sys_read ok limit fd k =
      let (bytes, k', e, fits, same) = ok.given (min read_limit limit) k in
      let (fd', read, counted, kept) = read_returns sys_read limit fd k k' bytes e fits in
      (bytes, fd', k', read, omega arith, counted, kept, same)

  pub write_once_lem :
      (sys_writev : List ℕ → K → Option (ℕ × K))
      → Accepts received sys_writev
      → (buffer : List ℕ) (fd : FileDescriptor) (k : K)
      → (n : ℕ) × (k' : K) × (write sys_writev 1 buffer false fd k
          ≡ written n (register_write fd) k')
        × (n ≤ length buffer)
        × (received k' ≡ received k ++ take n buffer)
  write_once_lem sys_writev ok buffer fd k =
      let (n, k', e, most, least, got) = ok.taken buffer k in
      (n, k', write_returns sys_writev buffer fd k k' n e most least, most, got)

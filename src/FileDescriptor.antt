-- ===== src/FileDescriptor.antt =====
-- libsponge/util/file_descriptor.cc and .hh: a handle of a kernel's file descriptor, with the counts by
-- which the event loop sees progress. The kernel is a parameter: `sys_read` and `sys_writev` are its
-- calls, on the kernel's state `K`, and `none` is an error, for which SystemCall throws. A call
-- that throws returns `none`.
pub mod Whole
pub mod Once
mod Tests
use tcp.Prelude.{
  ℕ, zero, suc, ◌+◌, ◌^◌, min, Bool, true, false, not, ◌&&◌, List, [], ◌∷◌, Option, none, some, ltb,
  ◌==◌, if◌then◌else◌, length, drop, and_then, add32, add64,
}

-- FDWrapper, without the kernel's number.
pub record FileDescriptor : Type 0 where
  pub eof : Bool
  pub closed : Bool
  pub read_count : ℕ
  pub write_count : ℕ

abbrev pub new_descriptor : FileDescriptor
new_descriptor = record { eof = false; closed = false; read_count = 0; write_count = 0 }

abbrev pub register_read : FileDescriptor → FileDescriptor
register_read fd = record fd { read_count = add32 fd.read_count 1 }

abbrev pub register_write : FileDescriptor → FileDescriptor
register_write fd = record fd { write_count = add32 fd.write_count 1 }

-- BUFFER_SIZE of `read`.
abbrev pub read_limit : ℕ
read_limit = 2 ^ 20

-- `read` past the system call, with what the kernel gives.
pub read_result : FileDescriptor → ℕ → List ℕ → Option (List ℕ × FileDescriptor)
read_result fd limit bytes =
    let fd' = if ltb 0 limit && (length bytes == 0) then record fd { eof = true } else fd in
    if ltb (min read_limit limit) (length bytes) then none else some (bytes, register_read fd')

-- What becomes of a call of `write` that has made so many system calls.
pub data Written (K : Type 0) : Type 0 where
  still_writing : Written K
  thrown : Written K
  written : ℕ → FileDescriptor → K → Written K

-- The bytes of an earlier pass are counted, too.
add_written : {K : Type 0} → ℕ → Written K → Written K
add_written n still_writing = still_writing
add_written n thrown = thrown
add_written n (written m fd k) = written (add64 n m) fd k

module _ {K : Type 0} (sys_read : ℕ → K → Option (List ℕ × K)) where
  pub read : ℕ → FileDescriptor → K → Option (List ℕ × (FileDescriptor × K))
  read limit fd k = and_then (sys_read (min read_limit limit) k) (λ (bytes, k').
      and_then (read_result fd limit bytes) (λ (bytes', fd'). some (bytes', (fd', k'))))

module _ {K : Type 0} (sys_writev : List ℕ → K → Option (ℕ × K)) where
  -- One pass of the loop of `write`: what is written, and what is left.
  pub write_some : List ℕ → FileDescriptor → K → Option (ℕ × (List ℕ × (FileDescriptor × K)))
  write_some buffer fd k = and_then (sys_writev buffer k) (λ (n, k').
      if (n == 0) && not (length buffer == 0)
      then none
      else if ltb (length buffer) n
      then none
      else some (n, (drop n buffer, (register_write fd, k'))))

  -- `write`, of the bytes that the views show; the fuel counts the system calls.
  pub write : ℕ → List ℕ → Bool → FileDescriptor → K → Written K
  unfolding add_written
  write zero buffer write_all fd k = still_writing
  write (suc fuel) buffer write_all fd k = elim (write_some buffer fd k) [
    | none ↦ thrown
    | some p ↦ elim (write_all && not (length p.1.0 == 0)) [
      | false ↦ written p.0 p.1.1.0 p.1.1.1
      | true ↦ add_written p.0 (write fuel p.1.0 write_all p.1.1.0 p.1.1.1)
    ]
  ]

-- `close`, on a system call of its own.
unfoldable pub close :
    {K : Type 0} → (K → Option K) → FileDescriptor → K → Option (FileDescriptor × K)
close sys_close fd k =
    and_then (sys_close k) (λ k'. some (record fd { eof = true; closed = true }, k'))

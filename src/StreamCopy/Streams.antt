-- ===== src/StreamCopy/Streams.antt =====
-- From a descriptor into a stream, and from a stream to a descriptor.
use tcp.Prelude.{
  ℕ, ◌≤◌, ◌<◌, ◌≡◌, refl, sym, ap, ap₂, ◌∙◌, min, List, ◌++◌, Option, some, arith, length, take,
  drop, take_all, take-append_le, take-append-drop, and_then, add32, one_of,
}
use tcp.ByteStream
use tcp.ByteStream.{ByteStream}
use tcp.ByteStream.Invariant.{
  IsValid, contents, write-IsValid, contents-write, remaining_capacity_lem, end_input-IsValid,
  pop_output_lem, peek_output_lem,
}
use tcp.FileDescriptor.{FileDescriptor, read_limit, register_write}
use tcp.FileDescriptor.Once.{read_returns, write_returns}
use tcp.StreamCopy.{max_copy_length, end_at_eof, fill, popped, pour}

-- A system call that reads and gives bytes, and one that takes some: in general, from what there is to what
-- there is afterwards.
abbrev pub Gives : {K : Type 0} → (ℕ → K → Option (List ℕ × K)) → (K → List ℕ → K → Type 0) → Type 0
Gives {K} sys_read After =
    (n : ℕ) (k : K)
    → (bytes : List ℕ) × (k' : K) × (sys_read n k ≡ some (bytes, k'))
      × (length bytes ≤ n)
      × After k bytes k'

abbrev pub Takes : {K : Type 0} → (List ℕ → K → Option (ℕ × K)) → (K → List ℕ → K → Type 0) → Type 0
Takes {K} sys_writev After =
    (buffer : List ℕ) (k : K)
    → (n : ℕ) × (k' : K) × (sys_writev buffer k ≡ some (n, k'))
      × (n ≤ length buffer)
      × (0 < length buffer → 0 < n)
      × After k (take n buffer) k'

end_at_eof-IsValid :
    (fd : FileDescriptor) (s : ByteStream)
    → IsValid s
    → IsValid (end_at_eof fd s) × (contents (end_at_eof fd s) ≡ contents s)
unfolding end_at_eof ByteStream.end_input
end_at_eof-IsValid fd s v =
    one_of (λ t. IsValid t × (contents t ≡ contents s)) fd.eof (ByteStream.end_input s) s
      (end_input-IsValid v, refl) (v, refl)

module _ {K : Type 0} where
  -- `fill` puts what it reads behind what the stream holds.
  pub fill_lem :
      (sys_read : ℕ → K → Option (List ℕ × K)) (After : K → List ℕ → K → Type 0)
      → Gives sys_read After
      → (fd : FileDescriptor) (s : ByteStream) (k : K) → IsValid s
      → (fd' : FileDescriptor) × (s' : ByteStream) × (k' : K) × (bytes : List ℕ) × (fill sys_read fd
            s k
          ≡ some (fd', (s', k')))
        × (fd'.read_count ≡ add32 fd.read_count 1)
        × (fd'.write_count ≡ fd.write_count)
        × IsValid s'
        × (contents s' ≡ contents s ++ bytes)
        × After k bytes k'
  unfolding fill
  fill_lem sys_read After gives fd s k v =
      let limit = ByteStream.remaining_capacity s in
      let (bytes, k', e, fits, after) = gives (min read_limit limit) k in
      let (fd', read, counted, kept) = read_returns sys_read limit fd k k' bytes e fits in
      let t = (ByteStream.write s bytes).1 in
      let (valid, same) = end_at_eof-IsValid fd' t (write-IsValid v bytes) in
      let room = remaining_capacity_lem v in
      (
        fd',
        end_at_eof fd' t,
        k',
        bytes,
        rw (read, and_then) refl,
        counted,
        kept,
        valid,
        same
            ∙ contents-write v bytes
            ∙ ap (◌++◌ (contents s)) (take_all _ bytes (omega (arith, room))),
        after,
      )

  -- `pour` takes what it writes off the front of the stream.
  pub pour_lem :
      (sys_writev : List ℕ → K → Option (ℕ × K)) (After : K → List ℕ → K → Type 0)
      → Takes sys_writev After
      → (fd : FileDescriptor) (s : ByteStream) (k : K) → IsValid s
      → (s' : ByteStream) × (k' : K) × (bytes : List ℕ) × (pour sys_writev fd s k
          ≡ some (register_write fd, (s', k')))
        × IsValid s'
        × (bytes ++ contents s' ≡ contents s)
        × After k bytes k'
  unfolding pour popped
  pour_lem sys_writev After takes fd s k v =
      let m = min max_copy_length (ByteStream.buffer_size s) in
      let buffer = ByteStream.peek_output s m in
      let (n, k', e, most, least, after) = takes buffer k in
      let (t, e', held, valid, cap, end, total, counter) = pop_output_lem v n in
      let xs = contents s in
      let first_bytes : take n buffer ≡ take n xs =
        sym (take-append_le n buffer (drop m xs) most)
        ∙ ap (take n) (ap (λ b. b ++ drop m xs) (peek_output_lem v m) ∙ take-append-drop m xs) in
      (
        t,
        k',
        take n buffer,
        rw (write_returns sys_writev buffer fd k k' n e most least) (rw (e', and_then) refl),
        valid,
        ap₂ ◌++◌ first_bytes held ∙ take-append-drop n xs,
        after,
      )

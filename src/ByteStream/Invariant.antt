-- ===== src/ByteStream/Invariant.antt =====
-- The stream's invariant and what each operation does to the bytes that it holds.
use tcp.Prelude.{
  ℕ, ◌-◌, ◌≤◌, ◌<◌, ◌≡◌, refl, ap, ◌∙◌, min, List, [], ◌++◌, some, arith, length, take, drop,
  take_all, drop_all, length-take, length-append, length-drop, u64_mod, add64, ◌==◌, ◌&&◌,
}
use tcp.Buffer.{concatenate}
use tcp.Buffer.Laws.{
  concatenate-append, concatenate-list_of_string, size-concatenate, concatenate-remove_prefix,
}
use tcp.ByteStream.{
  read, with_bytes, ByteStream, init, end_input, write, accepted, remaining_capacity, peek_output,
  pop_output, available, popped, input_ended, buffer_size, buffer_empty, eof,
}

-- The bytes that are written and not yet read.
abbrev pub contents : ByteStream → List ℕ
contents s = concatenate s.buffer

-- The capacity is a `size_t` and is never exceeded, and the counters account for every byte.
pub record IsValid (s : ByteStream) : Type 0 where
  pub small : s.capacity < u64_mod
  pub bounded : length (contents s) ≤ s.capacity
  pub read_small : s.read_count < u64_mod
  pub counted : s.write_count ≡ add64 s.read_count (length (contents s))

pub init-IsValid : (capacity : ℕ) → capacity < u64_mod → IsValid (init capacity)
unfolding init concatenate
init-IsValid capacity h = omega arith

pub init-contents : (capacity : ℕ) → contents (init capacity) ≡ []
unfolding init concatenate
init-contents capacity = refl

pub capacity-write : (s : ByteStream) (bytes : List ℕ) → (write s bytes).1.capacity ≡ s.capacity
unfolding write
capacity-write s bytes = refl

pub read_count-write :
    (s : ByteStream) (bytes : List ℕ) → (write s bytes).1.read_count ≡ s.read_count
unfolding write
read_count-write s bytes = refl

pub ended-write :
    (s : ByteStream) (bytes : List ℕ) → (write s bytes).1.input_ended_flag ≡ s.input_ended_flag
unfolding write
ended-write s bytes = refl

pub write_count-write :
    (s : ByteStream) (bytes : List ℕ)
    → (write s bytes).1.write_count ≡ add64 s.write_count (write s bytes).0
unfolding write
write_count-write s bytes = refl

pub end_input-IsValid : {s : ByteStream} → IsValid s → IsValid (end_input s)
unfolding end_input
end_input-IsValid v = record {
  small = v.small;
  bounded = v.bounded;
  read_small = v.read_small;
  counted = v.counted;
}

module _ {s : ByteStream} (v : IsValid s) where
  pub size-contents : buffer_size s ≡ length (contents s)
  unfolding buffer_size
  size-contents = size-concatenate s.buffer (omega arith)

  pub remaining_capacity_lem : remaining_capacity s ≡ s.capacity - length (contents s)
  unfolding remaining_capacity buffer_size
  remaining_capacity_lem = omega (arith, size-contents)

  pub write-count :
      (bytes : List ℕ) → (write s bytes).0 ≡ min (length bytes) (s.capacity - length (contents s))
  unfolding write
  write-count bytes = ground (arith, remaining_capacity_lem)

  take-accepted :
      (bytes : List ℕ)
      → take (accepted s bytes) bytes ≡ take (s.capacity - length (contents s)) bytes
  unfolding accepted
  take-accepted bytes = ground (
    arith,
    remaining_capacity_lem,
    take_all (length bytes) bytes,
    take_all (s.capacity - length (contents s)) bytes,
  )

  pub contents-write :
      (bytes : List ℕ)
      → contents (write s bytes).1 ≡ contents s ++ take (s.capacity - length (contents s)) bytes
  unfolding write
  contents-write bytes =
      concatenate-append _ _
      ∙ ap (◌++◌ (contents s)) (concatenate-list_of_string _ ∙ take-accepted bytes)

  pub write-IsValid : (bytes : List ℕ) → IsValid (write s bytes).1
  unfolding write
  write-IsValid bytes = omega (
    arith,
    write-count bytes,
    ap length (contents-write bytes),
    length-append (contents s) (take (s.capacity - length (contents s)) bytes),
    length-take (s.capacity - length (contents s)) bytes,
  )

  pub peek_output_lem : (len : ℕ) → peek_output s len ≡ take len (contents s)
  unfolding peek_output buffer_size
  peek_output_lem len =
      ground (
        arith,
        size-contents,
        take_all len (contents s),
        take_all (length (contents s)) (contents s),
      )

  available_lem : (len : ℕ) → available s len ≡ min len (length (contents s))
  unfolding available buffer_size
  available_lem len = ground (arith, size-contents)

  drop-available : (len : ℕ) → drop (available s len) (contents s) ≡ drop len (contents s)
  unfolding available buffer_size
  drop-available len =
      ground (
        arith,
        size-contents,
        drop_all len (contents s),
        drop_all (length (contents s)) (contents s),
      )

  -- What `pop_output` leaves: the same stream without the first bytes.
  pub pop_output_lem :
      (len : ℕ)
      → (t : ByteStream) × (pop_output s len ≡ some t)
        × (contents t ≡ drop len (contents s))
        × IsValid t
        × (t.capacity ≡ s.capacity)
        × (t.input_ended_flag ≡ s.input_ended_flag)
        × (t.write_count ≡ s.write_count)
        × (t.read_count ≡ add64 s.read_count (min len (length (contents s))))
  unfolding pop_output
  pop_output_lem len =
      let n = available s len in
      let (rest, e, c) = concatenate-remove_prefix s.buffer n (omega (arith, available_lem len)) in
      let gone = drop-available len in
      let total = length-drop len (contents s) in
      let t : ByteStream = record s { read_count = add64 s.read_count n; buffer = rest } in
      (
        t,
        rw (e, popped),
        c ∙ gone,
        omega (arith, ap length c, ap length gone, total, available_lem len),
        refl,
        refl,
        refl,
        ap (add64 s.read_count) (available_lem len),
      )

  pub buffer_empty_lem : buffer_empty s ≡ (length (contents s) == 0)
  unfolding buffer_empty buffer_size
  buffer_empty_lem = rw size-contents

  pub eof_iff : eof s ≡ ((length (contents s) == 0) && input_ended s)
  unfolding eof buffer_empty buffer_size
  eof_iff = rw size-contents

  -- What `read` returns and leaves.
  pub read_lem :
      (len : ℕ)
      → (t : ByteStream) × (read s len ≡ some (take len (contents s), t))
        × (contents t ≡ drop len (contents s))
        × IsValid t
        × (t.capacity ≡ s.capacity)
        × (t.input_ended_flag ≡ s.input_ended_flag)
        × (t.write_count ≡ s.write_count)
        × (t.read_count ≡ add64 s.read_count (min len (length (contents s))))
  unfolding read
  read_lem len =
      let (t, e, c, v', cap, end, written, counted) = pop_output_lem len in
      (t, rw (e, peek_output_lem len, with_bytes), c, v', cap, end, written, counted)

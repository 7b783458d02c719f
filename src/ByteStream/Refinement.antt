-- ===== src/ByteStream/Refinement.antt =====
-- A stream answers every sequence of calls as the log of `Spec` does.
use tcp.Prelude.{
  ℕ, ◌-◌, ◌%◌, ◌≤◌, ◌<◌, ◌≡◌, refl, sym, ap, ap₂, ◌∙◌, min, true, false, List, [], ◌∷◌, ◌++◌,
  Option, none, some, arith, length, take, drop, length-take, length-append, length-drop, drop-drop,
  drop-min, drop-append_le, u64_mod,
}
use tcp.ByteStream.{
  ByteStream, init, write, remaining_capacity, peek_output, pop_output, read, with_bytes, end_input,
  input_ended, buffer_size, buffer_empty, eof, bytes_written, bytes_read,
}
use tcp.ByteStream.Invariant.{
  contents, IsValid, init-contents, end_input-IsValid, capacity-write, init-IsValid, size-contents,
  remaining_capacity_lem, buffer_empty_lem, write-count, contents-write, write-IsValid,
  peek_output_lem, pop_output_lem, eof_iff,
}
use tcp.ByteStream.Spec
use tcp.ByteStream.Spec.{Stream, Call, writes, peeks, pops, reads, ends, Reply, unread}

observe : ℕ → List ℕ → ByteStream → Reply
observe count bytes s = record {
  count = count;
  bytes = bytes;
  size = buffer_size s;
  room = remaining_capacity s;
  is_empty = buffer_empty s;
  closed = input_ended s;
  at_end = eof s;
  total_written = bytes_written s;
  total_read = bytes_read s;
}

after_pop : List ℕ → Option ByteStream → Option (Reply × ByteStream)
unfolding observe
after_pop bytes none = none
after_pop bytes (some s) = some (observe 0 bytes s, s)

after_read : Option (List ℕ × ByteStream) → Option (Reply × ByteStream)
unfolding observe
after_read none = none
after_read (some (bytes, s)) = some (observe 0 bytes s, s)

-- One call on the stream; `none` if it throws.
step : ByteStream → Call → Option (Reply × ByteStream)
unfolding observe after_pop after_read
step s (writes bytes) = let (n, s') = write s bytes in some (observe n [] s', s')
step s (peeks n) = some (observe 0 (peek_output s n) s, s)
step s (pops n) = after_pop [] (pop_output s n)
step s (reads n) = after_read (read s n)
step s ends = let s' = end_input s in some (observe 0 [] s', s')

with_rest : Reply → Option (List Reply) → Option (List Reply)
with_rest r none = none
with_rest r (some rs) = some (r ∷ rs)

and_then : Option (Reply × ByteStream) → (ByteStream → Option (List Reply)) → Option (List Reply)
unfolding with_rest
and_then none k = none
and_then (some (r, s)) k = with_rest r (k s)

pub run : ByteStream → List Call → Option (List Reply)
unfolding and_then
run s [] = some []
run s (c ∷ cs) = and_then (step s c) (λ s'. run s' cs)

-- The stream holds the unread end of the log.
pub record Represents (s : ByteStream) (a : Stream) : Type 0 where
  pub valid : IsValid s
  pub held : contents s ≡ unread a
  pub within : a.taken ≤ length a.log
  pub same_end : s.input_ended_flag ≡ a.ended
  pub same_written : s.write_count ≡ length a.log % u64_mod
  pub same_read : s.read_count ≡ a.taken % u64_mod

observe-Represents :
    (count : ℕ) (bytes : List ℕ) {s : ByteStream} {a : Stream}
    → Represents s a
    → observe count bytes s ≡ Spec.observe s.capacity count bytes a
unfolding observe input_ended bytes_written bytes_read
observe-Represents count bytes {s} {a} r = simp (
  size-contents r.valid,
  remaining_capacity_lem r.valid,
  buffer_empty_lem r.valid,
  eof_iff r.valid,
  r.held,
  r.same_end,
  r.same_written,
  r.same_read,
)

write-Represents :
    (bytes : List ℕ) {s : ByteStream} {a : Stream}
    → Represents s a
    → Represents (write s bytes).1 (Spec.extend s.capacity a bytes)
unfolding write
write-Represents bytes {s} {a} r = record {
  valid = write-IsValid r.valid bytes;
  held =
      contents-write r.valid bytes
      ∙ ap₂ (λ xs ys. xs ++ take (s.capacity - length ys) bytes) r.held r.held
      ∙ sym (drop-append_le a.taken a.log _ r.within);
  within =
      omega (arith, r.within, length-append a.log (take (s.capacity - length (unread a)) bytes));
  same_end = r.same_end;
  same_written = omega (
    arith,
    r.same_written,
    write-count r.valid bytes,
    ap length r.held,
    length-append a.log (take (s.capacity - length (unread a)) bytes),
    length-take (s.capacity - length (unread a)) bytes,
  );
  same_read = r.same_read;
}

unread-skip : (a : Stream) (n : ℕ) → unread (Spec.skip a n) ≡ drop n (unread a)
unread-skip a n = sym (drop-drop a.taken (min n (length (unread a))) a.log) ∙ drop-min n (unread a)

pop-Represents :
    (n : ℕ) {s : ByteStream} {a : Stream}
    → Represents s a
    → (t : ByteStream) × (pop_output s n ≡ some t)
      × Represents t (Spec.skip a n)
      × (t.capacity ≡ s.capacity)
pop-Represents n {s} {a} r =
    let (t, e, held, valid, cap, end, written, counted) = pop_output_lem r.valid n in
    let long = length-drop a.taken a.log in
    (
      t,
      e,
      record {
        valid = valid;
        held = held ∙ ap (drop n) r.held ∙ sym (unread-skip a n);
        within = omega (arith, r.within);
        same_end = end ∙ r.same_end;
        same_written = written ∙ r.same_written;
        same_read = omega (arith, counted, r.same_read, ap length r.held);
      },
      cap,
    )

pack :
    {r q : Reply} {s : ByteStream}
    → r ≡ q
    → ◌≡◌ {A = Option (Reply × ByteStream)} (some (r, s)) (some (q, s))
pack {s = s} e = ap (λ x. some (x, s)) e

step-Represents :
    (c : Call) {s : ByteStream} {a : Stream}
    → Represents s a
    → (s' : ByteStream) × (step s c ≡ some ((Spec.step s.capacity a c).0, s'))
      × Represents s' (Spec.step s.capacity a c).1
      × (s'.capacity ≡ s.capacity)
unfolding step Spec.step read end_input
step-Represents (writes bytes) {s} {a} r =
    let r' = write-Represents bytes r in
    (
      (write s bytes).1,
      pack (
          observe-Represents (write s bytes).0 [] r'
          ∙ ap₂ (λ k n. Spec.observe k n [] (Spec.extend s.capacity a bytes))
              (capacity-write s bytes)
              (write-count r.valid bytes
                ∙ ap (λ xs. min (length bytes) (s.capacity - length xs)) r.held)),
      r',
      capacity-write s bytes,
    )
step-Represents (peeks n) {s} {a} r = (
  s,
  pack (
      observe-Represents 0 _ r
      ∙ ap (λ xs. Spec.observe s.capacity 0 xs a) (peek_output_lem r.valid n ∙ ap (take n) r.held)),
  r,
  refl,
)
step-Represents (pops n) {s} {a} r =
    let (t, e, r', cap) = pop-Represents n r in
    (
      t,
      rw (e, after_pop)
          (pack (observe-Represents 0 [] r' ∙ ap (λ k. Spec.observe k 0 [] (Spec.skip a n)) cap)),
      r',
      cap,
    )
step-Represents (reads n) {s} {a} r =
    let (t, e, r', cap) = pop-Represents n r in
    (
      t,
      rw (e, with_bytes, after_read)
          (pack (
            observe-Represents 0 _ r'
            ∙ ap₂ (λ k xs. Spec.observe k 0 xs (Spec.skip a n)) cap
                (peek_output_lem r.valid n ∙ ap (take n) r.held))),
      r',
      cap,
    )
step-Represents ends {s} {a} r =
    let r' : Represents (end_input s) (record a { ended = true }) = record {
      valid = end_input-IsValid r.valid;
      held = r.held;
      within = r.within;
      same_end = refl;
      same_written = r.same_written;
      same_read = r.same_read;
    } in
    (end_input s, pack (observe-Represents 0 [] r'), r', refl)

-- From any stream that holds the unread end of a log.
pub run-Represents :
    (cs : List Call) {s : ByteStream} {a : Stream}
    → Represents s a
    → run s cs ≡ some (Spec.run s.capacity a cs)
unfolding run Spec.run
run-Represents [] r = refl
run-Represents (c ∷ cs) {s} {a} r =
    let (s', e, r', cap) = step-Represents c r in
    rw (e, and_then, run-Represents cs r', with_rest) (rw cap)

-- The log of a new stream.
abbrev pub nothing : Stream
nothing = record { log = []; taken = 0; ended = false }

-- Whatever calls its writer and its reader make, a new byte stream throws no exception, and each
-- call returns what the log of `Spec` returns: a write takes the bytes that fit into the free
-- space, also after the end of the input, reads, peeks and pops see the bytes in the order written, each once, and the sizes, the
-- end marks and the two counters are those of the log.
pub run_refines :
    (capacity : ℕ) (cs : List Call)
    → capacity < u64_mod
    → run (init capacity) cs ≡ some (Spec.run capacity nothing cs)
unfolding init Spec.run
run_refines capacity cs h = run-Represents cs (record {
  valid = init-IsValid capacity h;
  held = init-contents capacity;
  within = omega arith;
  same_end = refl;
  same_written = refl;
  same_read = refl;
})

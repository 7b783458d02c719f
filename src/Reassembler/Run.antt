-- ===== src/Reassembler/Run.antt =====
-- A reassembler among a network that pushes substrings and a reader that takes bytes out.
use tcp.Prelude.{
  ℕ, ◌+◌, ◌-◌, ◌≤◌, ◌<◌, ◌≡◌, refl, sym, ap, ap₂, ◌∙◌, min, Bool, List, [], ◌∷◌, ◌++◌, Option, none,
  some, arith, length, take, drop, drop-min, Bool-cases, inl, inr, false, u64_mod,
}
use mathlib.Core.Option.{some-injective}
use tcp.ByteStream
use tcp.ByteStream.{ByteStream}
use tcp.ByteStream.Invariant.{contents, read_lem}
use tcp.Reassembler.{StreamReassembler, init, push_substring}
use tcp.Reassembler.Count.{count_stop}
use tcp.Reassembler.Source.{slice, length-slice, slice-append, drop-slice, take-slice, Agrees, Inv}
use tcp.Reassembler.Push.{limit, init-Inv, push_substring-Inv, limit-push_substring}

pub data Event : Type 0 where
  pushes : List ℕ → ℕ → Bool → Event
  reads : ℕ → Event

-- The reader reads from `stream_out()`.
with_output : StreamReassembler → Option (List ℕ × ByteStream) → Option (List ℕ × StreamReassembler)
with_output r none = none
with_output r (some (bytes, s)) = some (bytes, record r { output = s })

pub read_out : StreamReassembler → ℕ → Option (List ℕ × StreamReassembler)
unfolding with_output
read_out r n = with_output r (ByteStream.read r.output n)

and_read :
    List ℕ
    → Option (List ℕ × StreamReassembler)
    → (List ℕ → StreamReassembler → Option (List ℕ × StreamReassembler))
    → Option (List ℕ × StreamReassembler)
and_read got none k = none
and_read got (some (bytes, r)) k = k (got ++ bytes) r

-- All that the reader gets, `got` being what it has; `none` if a read throws.
pub run : List ℕ → StreamReassembler → List Event → Option (List ℕ × StreamReassembler)
unfolding and_read
run got r [] = some (got, r)
run got r (pushes bytes index eof ∷ es) = run got (push_substring r bytes index eof) es
run got r (reads n ∷ es) = and_read got (read_out r n) (λ got' r'. run got' r' es)

-- Every substring is one of the source's, at its place, whatever its length and its flag.
abbrev pub FromSource : (ℕ → ℕ) → List Event → Type 0
FromSource source [] = Unit {0}
FromSource source (pushes bytes index eof ∷ es) =
    (index < u64_mod) × Agrees source index bytes × FromSource source es
FromSource source (reads n ∷ es) = FromSource source es

-- How many bytes the reader asks for in all.
abbrev pub asked : List Event → ℕ
asked [] = 0
asked (pushes bytes index eof ∷ es) = asked es
asked (reads n ∷ es) = n + asked es

-- Nothing is stored past the window.
beyond :
    {source : ℕ → ℕ} {r : StreamReassembler}
    → Inv source r
    → (k : ℕ) → limit r ≤ k
    → r.m_exist k ≡ false
beyond {r = r} v k h = elim (Bool-cases (r.m_exist k)) [
  | inr e ↦ e
  | inl e ↦ absurd (omega (arith, (v.stored k (omega arith) e).1))
]

-- The reader gets the source's next bytes, as many as it asks for or as there are.
pub read_out_lem :
    {source : ℕ → ℕ} {r : StreamReassembler} (n : ℕ)
    → Inv source r
    → limit r + n < u64_mod
    → let m = min n (r.first_unassembled - r.output.read_count) in
      (r' : StreamReassembler) × (read_out r n ≡ some (slice source r.output.read_count m, r'))
      × Inv source r'
      × (r'.output.read_count ≡ r.output.read_count + m)
      × (r'.capacity ≡ r.capacity)
unfolding read_out
read_out_lem {source} {r} n v h =
    let (t, e, held, tv, tcap, tend, twritten, tread) = read_lem v.output_valid n in
    let here = r.output.read_count in
    let ahead = r.first_unassembled - here in
    let long = ap length v.held ∙ length-slice source here ahead in
    let moved : t.read_count ≡ here + min n ahead = omega arith in
    let rest : drop n (contents r.output)
        ≡ slice source (here + min n ahead) (ahead - min n ahead) =
      sym (drop-min n (contents r.output))
      ∙ ap₂ (λ k xs. drop (min n k) xs) long v.held
      ∙ drop-slice source (min n ahead) here ahead (omega arith) in
    let left : ahead - min n ahead ≡ r.first_unassembled - (here + min n ahead) = omega arith in
    let got = ap (take n) v.held ∙ take-slice source n here ahead in
    (
      record r { output = t },
      rw (e, with_output, got),
      record {
        output_valid = tv;
        same_capacity = tcap ∙ v.same_capacity;
        room = omega arith;
        unread = omega arith;
        window = omega arith;
        held = rw moved (held ∙ rest ∙ ap (slice source (here + min n ahead)) left);
        assembled = v.assembled;
        missing = v.missing;
        stored = λ k l e. let (a, b) = v.stored k l e in (a, omega arith);
        counted =
            count_stop r.m_exist (limit r) (t.read_count + r.capacity) (omega arith) (beyond v)
            ∙ v.counted;
      },
      moved,
      refl,
    )

pub zero_on : (n : ℕ) → n ≡ 0 + n
zero_on n = omega arith

with_output-same :
    (r r' : StreamReassembler) (o : Option (List ℕ × ByteStream)) (bytes : List ℕ)
    → with_output r o ≡ some (bytes, r')
    → (r.first_unassembled ≡ r'.first_unassembled) × (r.unassembled ≡ r'.unassembled)
unfolding with_output
with_output-same r r' none bytes e = cc
with_output-same r r' (some (b, s)) bytes e =
    let same = some-injective (b, record r { output = s }) (bytes, r') e in
    (ap (λ p. p.1.first_unassembled) same, ap (λ p. p.1.unassembled) same)

-- A read leaves the indices of the reassembler alone.
pub read_out-same :
    (r r' : StreamReassembler) (n : ℕ) (bytes : List ℕ)
    → read_out r n ≡ some (bytes, r')
    → (r.first_unassembled ≡ r'.first_unassembled) × (r.unassembled ≡ r'.unassembled)
unfolding read_out
read_out-same r r' n bytes e = with_output-same r r' (ByteStream.read r.output n) bytes e

-- What a read leaves alone beside them.
pub read_out-kept :
    {source : ℕ → ℕ} (r r' : StreamReassembler) (n : ℕ) (bytes : List ℕ)
    → Inv source r
    → read_out r n ≡ some (bytes, r')
    → (r'.m_exist ≡ r.m_exist)
      × (r'.eof_flag ≡ r.eof_flag)
      × (r'.output.input_ended_flag ≡ r.output.input_ended_flag)
unfolding read_out with_output
read_out-kept r r' n bytes v e =
    let (t, q, held, tv, tcap, tend, twritten, tread) = read_lem v.output_valid n in
    let same =
      some-injective (take n (contents r.output), record r { output = t }) (bytes, r')
        (sym (ap (with_output r) q) ∙ e) in
    (
      sym (ap (λ p. p.1.m_exist) same),
      sym (ap (λ p. p.1.eof_flag) same),
      sym (ap (λ p. p.1.output.input_ended_flag) same) ∙ tend,
    )

-- From any state that the invariant describes.
pub run_lem :
    {source : ℕ → ℕ} (es : List Event) (got : List ℕ) (r : StreamReassembler)
    → Inv source r
    → got ≡ slice source 0 r.output.read_count
    → limit r + asked es < u64_mod
    → FromSource source es
    → (out : List ℕ) × (r' : StreamReassembler) × (run got r es ≡ some (out, r'))
      × Inv source r'
      × (out ≡ slice source 0 r'.output.read_count)
unfolding run
run_lem [] got r v e h f = (got, r, refl, v, e)
run_lem {source} (pushes bytes index eof ∷ es) got r v e h f =
    let (sread, scap) = limit-push_substring r bytes index eof in
    run_lem es got _ (push_substring-Inv bytes index eof v f.0 f.1) (rw sread e) (omega arith) f.2
run_lem {source} (reads n ∷ es) got r v e h f =
    let (r', e', v', moved, same) = read_out_lem n v (omega arith) in
    let m = min n (r.first_unassembled - r.output.read_count) in
    let got' : got ++ slice source r.output.read_count m ≡ slice source 0 r'.output.read_count =
      ap (λ xs. xs ++ slice source r.output.read_count m) e
      ∙ ap (λ a. slice source 0 r.output.read_count ++ slice source a m)
          (zero_on r.output.read_count)
      ∙ slice-append source 0 r.output.read_count m
      ∙ ap (slice source 0) (sym moved) in
    rw (e', and_read) (run_lem es _ r' v' got' (omega arith) f)

-- Whatever the order in which the substrings of a source stream arrive, however they are cut,
-- repeated or dropped for want of room, and wherever the reader reads between them, no read throws
-- and all that the reader gets is a prefix of the source: every byte in its place, none twice and
-- none left out. The byte indices of the window are to stay below 2 ^ 64.
pub run_in_order :
    (source : ℕ → ℕ) (capacity : ℕ) (es : List Event)
    → capacity + asked es < u64_mod
    → FromSource source es
    → (out : List ℕ) × (r : StreamReassembler) × (run [] (init capacity) es ≡ some (out, r))
      × (out ≡ slice source 0 (length out))
      × Inv source r
unfolding init ByteStream.init
run_in_order source capacity es h f =
    let (out, r, e, v, o) =
      run_lem es [] (init capacity) (init-Inv source capacity (omega arith)) refl (omega arith) f in
    let long = ap length o ∙ length-slice source 0 r.output.read_count in
    (out, r, e, o ∙ ap (slice source 0) (sym long), v)

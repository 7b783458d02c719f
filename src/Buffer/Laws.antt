-- ===== src/Buffer/Laws.antt =====
-- A BufferList behaves as the string that `concatenate` makes of it.
use tcp.Prelude.{
  ℕ, zero, suc, ◌+◌, ◌-◌, ◌≤◌, ◌<◌, ◌%◌, ◌≡◌, refl, sym, ap, ◌∙◌, List, [], ◌∷◌, ◌++◌, append-nil,
  append_assoc, Option, none, some, arith, ltb, ◌==◌, length, drop, u64_mod, length-append,
  length-drop, drop-drop, drop_all, drop-nil, drop-append_le, drop-append_ge, inl, inr, Bool-cases,
  ltb→lt, ltb→ge, ==→eq,
}
use tcp.Buffer.{
  Buffer, BufferList, of_string, str, buffer_size, buffer_remove_prefix, list_of_string, append,
  concatenate, size, size_from, remove_prefix, view, release, cut_first,
}

pub str-of_string : (s : List ℕ) → str (of_string s) ≡ s
unfolding str of_string
str-of_string s = refl

pub concatenate-append :
    (bs cs : BufferList) → concatenate (append bs cs) ≡ concatenate bs ++ concatenate cs
unfolding concatenate append
concatenate-append [] cs = refl
concatenate-append (b ∷ bs) cs =
    ap (◌++◌ (str b)) (concatenate-append bs cs) ∙ sym (append_assoc (str b) _ _)

pub concatenate-list_of_string : (s : List ℕ) → concatenate (list_of_string s) ≡ s
unfolding concatenate list_of_string
concatenate-list_of_string s = append-nil _ ∙ str-of_string s

size_from_lem :
    (r : ℕ) (bs : BufferList)
    → r < u64_mod
    → size_from r bs ≡ (r + length (concatenate bs)) % u64_mod
unfolding size_from concatenate buffer_size
size_from_lem r [] h = omega arith
size_from_lem r (b ∷ bs) h = omega (
  arith,
  size_from_lem ((r + length (str b)) % u64_mod) bs (omega arith),
  length-append (str b) (concatenate bs),
)

-- Up to 2 ^ 64 bytes, `size` counts the bytes of the string.
pub size-concatenate :
    (bs : BufferList) → length (concatenate bs) < u64_mod → size bs ≡ length (concatenate bs)
unfolding size
size-concatenate bs h = omega (arith, size_from_lem 0 bs (omega arith))

view-release :
    (o : Option (List ℕ)) (k n : ℕ) → view (release o (k + n)) (k + n) ≡ drop n (view o k)
unfolding view release
view-release none k n = sym (drop-nil n)
view-release (some s) k n = elim (Bool-cases (k + n == length s)) [
  | inl e ↦
      rw e
        (sym (drop_all n (drop k s) (omega (arith, length-drop k s, ==→eq (k + n) (length s) e))))
  | inr e ↦ rw e (sym (drop-drop k n s))
]

pub str-remove_prefix :
    (b : Buffer) (n : ℕ)
    → n ≤ length (str b)
    → (b' : Buffer) × (buffer_remove_prefix b n ≡ some b') × (str b' ≡ drop n (str b))
unfolding buffer_remove_prefix buffer_size str
str-remove_prefix b n h = (
  record {
    storage = release b.storage (b.starting_offset + n);
    starting_offset = b.starting_offset + n;
  },
  ground arith,
  view-release b.storage b.starting_offset n,
)

-- `remove_prefix` drops the first `n` bytes of the string, and does not throw, if the string has
-- them.
pub concatenate-remove_prefix :
    (bs : BufferList) (n : ℕ)
    → n ≤ length (concatenate bs)
    → (cs : BufferList) × (remove_prefix bs n ≡ some cs)
      × (concatenate cs ≡ drop n (concatenate bs))
unfolding concatenate remove_prefix buffer_size
concatenate-remove_prefix [] zero h = ([], refl, refl)
concatenate-remove_prefix [] (suc n) h = absurd (omega arith)
concatenate-remove_prefix (b ∷ bs) n h = elim (Bool-cases (n == 0)) [
  | inl e ↦ (b ∷ bs, rw e, let z : n ≡ 0 = ==→eq n 0 e in rw z refl)
  | inr e ↦ elim (Bool-cases (ltb n (length (str b)))) [
    | inl l ↦
        let (b', e1, e2) = str-remove_prefix b n (omega (arith, ltb→lt n (length (str b)) l)) in
        (
          b' ∷ bs,
          rw (e, l, e1, cut_first),
          rw e2 (
              sym (
                drop-append_le n (str b) (concatenate bs)
                  (omega (arith, ltb→lt n (length (str b)) l)))),
        )
    | inr g ↦
        let ge = ltb→ge n (length (str b)) g in
        let (cs, e1, e2) =
          concatenate-remove_prefix bs (n - length (str b))
            (omega (arith, length-append (str b) (concatenate bs))) in
        (cs, rw (e, g) e1, e2 ∙ sym (drop-append_ge n (str b) (concatenate bs) ge))
  ]
]

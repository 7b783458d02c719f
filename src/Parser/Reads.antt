-- ===== src/Parser/Reads.antt =====
-- What a parser reads from bytes that are there: the rules that round trips are made of.
use tcp.Prelude.{
  ℕ, zero, suc, ◌+◌, ◌*◌, ◌%◌, ◌^◌, ◌≤◌, ◌<◌, ◌≡◌, refl, ap, ◌∙◌, subst, false, List, [], ◌++◌,
  append_assoc, Option, none, some, arith, inl, inr, Option-cases, get_elem?, length, drop,
  length-append, drop-append_length, u16_mod, u32_mod, ltb,
}
use tcp.Buffer.{Buffer, at, str, buffer_size, buffer_remove_prefix}
use tcp.Buffer.Laws.{str-remove_prefix}
use tcp.Parser.{
  no_error, NetParser, Parse, pure, ◌>>=◌, check_size, sum_bytes, take_int, advance, parse_int, u8,
  u16, u32, remove_prefix, unparse_int, get_error,
}

-- The parser `m` reads `bytes` from the front, without error, and returns `a`.
pub record Reads {A : Type 0} (m : Parse A) (bytes : List ℕ) (a : A) : Type 0 where
  pub run :
      (p : NetParser) (rest : List ℕ)
      → p.error ≡ no_error
      → str p.buffer ≡ bytes ++ rest
      → (p' : NetParser) × (m p ≡ some (a, p')) × (p'.error ≡ no_error) × (str p'.buffer ≡ rest)

pub Reads-pure : {A : Type 0} (a : A) → Reads (pure a) [] a
Reads-pure a = record { run = λ p rest e s. (p, refl, e, s) }

pub Reads-bind :
    {A B : Type 0} {m : Parse A} {xs : List ℕ} {a : A} {b : B} (f : A → Parse B) (ys : List ℕ)
    → Reads m xs a
    → Reads (f a) ys b
    → Reads (m >>= f) (xs ++ ys) b
unfolding ◌>>=◌
Reads-bind {m} {xs} {a} {b} f ys r q = record {
  run = λ p rest e s.
      let (p', m1, e1, s1) = r.run p (ys ++ rest) e (s ∙ append_assoc xs ys rest) in
      let (p'', m2, e2, s2) = q.run p' rest e1 s1 in (p'', rw (m1, ◌>>=◌) m2, e2, s2);
}

pub Reads-get_error : Reads get_error [] no_error
unfolding get_error
Reads-get_error = record { run = λ p rest e s. (p, ap (λ x. some (x, p)) e, e, s) }

-- A test of the size passes where the bytes are there.
pub long_enough :
    (n : ℕ) (b : Buffer) (bytes rest : List ℕ)
    → str b ≡ bytes ++ rest
    → n ≤ length bytes
    → ltb (buffer_size b) n ≡ false
unfolding buffer_size
long_enough n b bytes rest s h = ground (arith, ap length s, length-append bytes rest)

check_size_lem :
    (n : ℕ) (p : NetParser) (bytes rest : List ℕ)
    → str p.buffer ≡ bytes ++ rest
    → n ≤ length bytes
    → check_size n p ≡ p
unfolding check_size
check_size_lem n p bytes rest s h = rw (long_enough n p.buffer bytes rest s h) refl

advance_lem :
    {A : Type 0} (a : A) (p : NetParser) (bytes rest : List ℕ)
    → p.error ≡ no_error
    → str p.buffer ≡ bytes ++ rest
    → (p' : NetParser) × (advance a p (buffer_remove_prefix p.buffer (length bytes)) ≡ some (a, p'))
      × (p'.error ≡ no_error)
      × (str p'.buffer ≡ rest)
unfolding advance
advance_lem a p bytes rest e s =
    let (b, r, t) =
      str-remove_prefix p.buffer (length bytes)
        (omega (arith, ap length s, length-append bytes rest)) in
    (
      record p { buffer = b },
      rw r refl,
      e,
      t ∙ ap (drop (length bytes)) s ∙ drop-append_length bytes rest,
    )

pub Reads-remove_prefix : (bytes : List ℕ) → Reads (remove_prefix (length bytes)) bytes tt
unfolding remove_prefix
Reads-remove_prefix bytes = record {
  run = λ p rest e s.
      simp (check_size_lem (length bytes) p bytes rest s (omega arith), e)
        (advance_lem tt p bytes rest e s);
}

-- The loop over the bytes themselves.
unfoldable pub sum_list : ℕ → List ℕ → ℕ → ℕ → ℕ → Option ℕ
sum_list m xs zero i ret = some ret
sum_list m xs (suc k) i ret = elim (get_elem? xs i) [
  | none ↦ none
  | some c ↦ sum_list m xs k (i + 1) ((ret * 256 % m + c) % m)
]

pub sum_bytes_lem :
    (m : ℕ) (b : Buffer) (k i ret : ℕ) → sum_bytes m b k i ret ≡ sum_list m (str b) k i ret
unfolding sum_bytes sum_list at
sum_bytes_lem m b zero i ret = refl
sum_bytes_lem m b (suc k) i ret = elim (Option-cases (get_elem? (str b) i)) [
  | inl e ↦ rw (sum_bytes, sum_list, at, e) refl
  | inr (c, e) ↦
      rw (sum_bytes, sum_list, at, e) (sum_bytes_lem m b k (i + 1) ((ret * 256 % m + c) % m))
]

-- The loop over a buffer that begins with `bytes`.
sum_at :
    (m : ℕ) (bytes : List ℕ) (len v : ℕ)
    → ((rest : List ℕ) → sum_list m (bytes ++ rest) len 0 0 ≡ some v)
    → (b : Buffer) (rest : List ℕ) → str b ≡ bytes ++ rest
    → sum_bytes m b len 0 0 ≡ some v
sum_at m bytes len v sum b rest s =
    sum_bytes_lem m b len 0 0 ∙ ap (λ xs. sum_list m xs len 0 0) s ∙ sum rest

-- An integer is read from the bytes that the loop sums to it.
parse_int_lem :
    (len : ℕ) (bytes : List ℕ) (v : ℕ)
    → length bytes ≡ len
    → ((b : Buffer) (rest : List ℕ)
        → str b ≡ bytes ++ rest
        → sum_bytes (2 ^ (len * 8)) b len 0 0 ≡ some v)
    → Reads (parse_int len) bytes v
unfolding parse_int take_int
parse_int_lem len bytes v l sum = record {
  run = λ p rest e s.
      simp (check_size_lem len p bytes rest s (omega (arith, l)), e, sum p.buffer rest s)
        (subst
          (λ n.
            (p' : NetParser) × (advance v p (buffer_remove_prefix p.buffer n) ≡ some (v, p'))
            × (p'.error ≡ no_error)
            × (str p'.buffer ≡ rest))
          l (advance_lem v p bytes rest e s));
}

pub Reads-u8 : (v : ℕ) → v < 256 → Reads u8 (unparse_int 1 v) v
unfolding u8 unparse_int sum_list
Reads-u8 v h =
    parse_int_lem 1 (unparse_int 1 v) v refl
      (sum_at (2 ^ (1 * 8)) (unparse_int 1 v) 1 v (λ rest. ap some (omega arith)))

pub Reads-u16 : (v : ℕ) → v < u16_mod → Reads u16 (unparse_int 2 v) v
unfolding u16 unparse_int sum_list
Reads-u16 v h =
    parse_int_lem 2 (unparse_int 2 v) v refl
      (sum_at (2 ^ (2 * 8)) (unparse_int 2 v) 2 v (λ rest. ap some (omega arith)))

pub Reads-u32 : (v : ℕ) → v < u32_mod → Reads u32 (unparse_int 4 v) v
unfolding u32 unparse_int sum_list
Reads-u32 v h =
    parse_int_lem 4 (unparse_int 4 v) v refl
      (sum_at (2 ^ (4 * 8)) (unparse_int 4 v) 4 v (λ rest. ap some (omega arith)))

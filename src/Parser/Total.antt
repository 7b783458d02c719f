-- ===== src/Parser/Total.antt =====
-- Parsing throws nothing, whatever the bytes are: each access is behind the check of the size.
use mathlib.Core.Bool.{false≢true}
use tcp.Prelude.{
  ℕ, zero, suc, ◌+◌, ◌*◌, ◌%◌, ◌^◌, ◌≤◌, ◌<◌, ◌≡◌, refl, sym, ◌∙◌, false, List, [], ◌∷◌, some,
  arith, inl, inr, Bool-cases, get_elem?, length, ltb, ltb→ge,
}
use tcp.Buffer.{str, buffer_size, buffer_remove_prefix}
use tcp.Buffer.Laws.{str-remove_prefix}
use tcp.Parser.{
  NetParser, Parse, pure, ◌>>=◌, check_size, take_int, advance, parse_int, u8, u16, u32,
  remove_prefix, get_error, failed,
}
use tcp.Parser.Reads.{sum_list, sum_bytes_lem}

-- The parser `m` throws nothing.
pub record Total {A : Type 0} (m : Parse A) : Type 0 where
  pub run : (p : NetParser) → (a : A) × (p' : NetParser) × (m p ≡ some (a, p'))

pub Total-pure : {A : Type 0} (a : A) → Total (pure a)
Total-pure a = record { run = λ p. (a, p, refl) }

pub Total-bind :
    {A B : Type 0} {m : Parse A} (f : A → Parse B)
    → Total m
    → ((a : A) → Total (f a))
    → Total (m >>= f)
unfolding ◌>>=◌
Total-bind f t u = record {
  run = λ p.
      let (a, p', e) = t.run p in let (b, p'', e') = (u a).run p' in (b, p'', rw (e, ◌>>=◌) e');
}

pub Total-get_error : Total get_error
unfolding get_error
Total-get_error = record { run = λ p. (p.error, p, refl) }

get_elem?-lt : (xs : List ℕ) (i : ℕ) → i < length xs → (c : ℕ) × (get_elem? xs i ≡ some c)
get_elem?-lt [] i h = absurd (omega arith)
get_elem?-lt (x ∷ xs) zero h = (x, refl)
get_elem?-lt (x ∷ xs) (suc i) h = get_elem?-lt xs i (omega arith)

sum_list_total :
    (m : ℕ) (xs : List ℕ) (k i ret : ℕ)
    → i + k ≤ length xs
    → (v : ℕ) × (sum_list m xs k i ret ≡ some v)
unfolding sum_list
sum_list_total m xs zero i ret h = (ret, refl)
sum_list_total m xs (suc k) i ret h =
    let (c, e) = get_elem?-lt xs i (omega arith) in
    let (v, q) = sum_list_total m xs k (i + 1) ((ret * 256 % m + c) % m) (omega arith) in
    (v, rw (sum_list, e) q)

advance_total :
    {A : Type 0} (a : A) (p : NetParser) (n : ℕ)
    → n ≤ length (str p.buffer)
    → (p' : NetParser) × (advance a p (buffer_remove_prefix p.buffer n) ≡ some (a, p'))
unfolding advance
advance_total a p n h =
    let (b, e, t) = str-remove_prefix p.buffer n h in
    (record p { buffer = b }, rw (e, advance) refl)

-- Past the check, the bytes are there.
check_size_fits :
    (n : ℕ) (p : NetParser)
    → failed (check_size n p).error ≡ false
    → (check_size n p ≡ p) × (n ≤ length (str p.buffer))
unfolding check_size buffer_size
check_size_fits n p h = elim (Bool-cases (ltb (length (str p.buffer)) n)) [
  | inl e ↦ absurd (false≢true (sym h ∙ rw e refl))
  | inr e ↦ (rw e refl, ltb→ge _ _ e)
]

Total-parse_int : (len : ℕ) → Total (parse_int len)
unfolding parse_int take_int
Total-parse_int len = record {
  run = λ p. elim (Bool-cases (failed (check_size len p).error)) [
    | inl e ↦ (0, check_size len p, rw e refl)
    | inr e ↦
        let (same, fits) = check_size_fits len p e in
        let (v, q) = sum_list_total (2 ^ (len * 8)) (str p.buffer) len 0 0 (omega arith) in
        let sum = sum_bytes_lem (2 ^ (len * 8)) p.buffer len 0 0 ∙ q in
        let (p', r) = advance_total v p len fits in (v, p', simp e (simp (same, sum) r))
  ];
}

pub Total-u8 : Total u8
unfolding u8
Total-u8 = Total-parse_int 1

pub Total-u16 : Total u16
unfolding u16
Total-u16 = Total-parse_int 2

pub Total-u32 : Total u32
unfolding u32
Total-u32 = Total-parse_int 4

pub Total-remove_prefix : (n : ℕ) → Total (remove_prefix n)
unfolding remove_prefix
Total-remove_prefix n = record {
  run = λ p. elim (Bool-cases (failed (check_size n p).error)) [
    | inl e ↦ (tt, check_size n p, rw e refl)
    | inr e ↦
        let (same, fits) = check_size_fits n p e in
        let (p', r) = advance_total tt p n fits in (tt, p', simp e (simp same r))
  ];
}

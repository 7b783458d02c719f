-- ===== src/Checksum/Sum.antt =====
-- What `add` sums, of a string that need not be added in one piece.
use tcp.Prelude.{
  ℕ, zero, suc, some, replicate, ◌-◌, ◌+◌, ◌*◌, ◌%◌, ◌≤◌, ◌<◌, ◌≡◌, refl, ap, ◌∙◌, Bool, false, not,
  List, [], ◌∷◌, ◌++◌, arith, length, if◌then◌else◌, add32, u16_mod, u32_mod,
}
use tcp.Checksum.{InternetChecksum, init, add, value}
use tcp.Checksum.Fold.{ones_sum, value_lem, value_added}

-- The sum of a string's words, for the parity of its first byte.
abbrev pub words : Bool → List ℕ → ℕ
words parity [] = 0
words parity (b ∷ bs) = (if parity then b else b * 256 % u16_mod) + words (not parity) bs

-- The parity after a string.
abbrev pub parity_after : Bool → List ℕ → Bool
parity_after parity [] = parity
parity_after parity (b ∷ bs) = parity_after (not parity) bs

pub add_lem :
    (c : InternetChecksum) (bs : List ℕ)
    → c.sum + words c.parity bs < u32_mod
    → add c bs ≡ record { sum = c.sum + words c.parity bs; parity = parity_after c.parity bs }
unfolding add
add_lem c [] h = ap (λ k. record { sum = k; parity = c.parity }) {y = c.sum + 0} (omega arith)
add_lem c (b ∷ bs) h =
    let x : ℕ = if c.parity then b else b * 256 % u16_mod in
    let fits : add32 c.sum x ≡ c.sum + x = omega arith in
    let rest = add_lem (record { sum = c.sum + x; parity = not c.parity }) bs (omega arith) in
    ap (λ k. add (record { sum = k; parity = not c.parity }) bs) fits
    ∙ rest
    ∙ ap (λ k. record { sum = k; parity = parity_after (not c.parity) bs }) (omega arith)

pub words-append :
    (parity : Bool) (xs ys : List ℕ)
    → words parity (xs ++ ys) ≡ words parity xs + words (parity_after parity xs) ys
words-append parity [] ys = omega arith
words-append parity (x ∷ xs) ys = omega (arith, words-append (not parity) xs ys)

-- Every element is a byte.
abbrev pub AllBytes : List ℕ → Type 0
AllBytes [] = Unit {0}
AllBytes (b ∷ bs) = (b < 256) × AllBytes bs

-- A byte adds less than 2 ^ 16.
pub words-le : (parity : Bool) (bs : List ℕ) → AllBytes bs → words parity bs ≤ length bs * 0xff00
words-le parity [] h = omega arith
words-le parity (b ∷ bs) (h, k) = ground (arith, words-le (not parity) bs k)

-- A string that is added in two pieces.
pub add-append : (xs ys : List ℕ) (c : InternetChecksum) → add c (xs ++ ys) ≡ add (add c xs) ys
unfolding add
add-append [] ys c = refl
add-append (x ∷ xs) ys c = add-append xs ys _

pub AllBytes-append : (xs ys : List ℕ) → AllBytes xs → AllBytes ys → AllBytes (xs ++ ys)
AllBytes-append [] ys h k = k
AllBytes-append (x ∷ xs) ys h k = (h.0, AllBytes-append xs ys h.1 k)

pub AllBytes-zeros : (n : ℕ) → AllBytes (replicate n 0)
AllBytes-zeros zero = tt
AllBytes-zeros (suc n) = (omega arith, AllBytes-zeros n)

-- What a checksum over a whole string checks.
pub value-add :
    (initial : ℕ) (bs : List ℕ)
    → initial + words false bs < u32_mod
    → value (add (init initial) bs) ≡ some (0xffff - ones_sum (initial + words false bs))
unfolding init
value-add initial bs h =
    ap value (add_lem (record { sum = initial; parity = false }) bs h)
    ∙ value_lem (record { sum = initial + words false bs; parity = parity_after false bs }) h

-- A string whose words sum to a sum and its checksum checks to 0.
pub value-add_zero :
    (initial s : ℕ) (bs : List ℕ)
    → initial + words false bs ≡ s + (0xffff - ones_sum s)
    → s + 0xffff < u32_mod
    → value (add (init initial) bs) ≡ some 0
unfolding init
value-add_zero initial s bs e h =
    ap value (add_lem (record { sum = initial; parity = false }) bs (omega (arith, e)))
    ∙ value_added (record { sum = initial + words false bs; parity = parity_after false bs }) s e h

-- The sum stays in its 32 bits, also where it wraps.
pub add-lt : (bs : List ℕ) (c : InternetChecksum) → c.sum < u32_mod → (add c bs).sum < u32_mod
unfolding add
add-lt [] c h = h
add-lt (b ∷ bs) c h =
    add-lt bs
      (record {
        sum = add32 c.sum (if c.parity then b else b * 256 % u16_mod);
        parity = not c.parity;
      })
      (omega arith)

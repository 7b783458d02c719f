-- ===== src/Table.antt =====
-- `std::unordered_map` with a 32-bit number as the key. The order of its entries, which the standard
-- leaves open, is the order in which they were added.
use tcp.Prelude.{
  ℕ, ◌≡◌, ◌≢◌, refl, ap, Bool, true, false, List, [], ◌∷◌, ◌++◌, Option, none, some, arith, ◌==◌,
  if◌then◌else◌,
}

abbrev pub Table {ℓ} : Type ℓ → Type ℓ
Table V = List (ℕ × V)

module _ {ℓ} {V : Type ℓ} where
  abbrev pub lookup : ℕ → Table V → Option V
  lookup k [] = none
  lookup k (e ∷ t) = if e.0 == k then some e.1 else lookup k t

  -- `t[k] = v`
  abbrev pub assign : ℕ → V → Table V → Table V
  assign k v [] = (k, v) ∷ []
  assign k v (e ∷ t) = if e.0 == k then (k, v) ∷ t else e ∷ assign k v t

  abbrev pub erase : ℕ → Table V → Table V
  erase k [] = []
  erase k (e ∷ t) = if e.0 == k then erase k t else e ∷ erase k t

  pub lookup-assign : (k : ℕ) (v : V) (t : Table V) → lookup k (assign k v t) ≡ some v
  lookup-assign k v [] = ground arith
  lookup-assign k v (e ∷ t) = ground (arith, lookup-assign k v t)

  abbrev pub contains : ℕ → Table V → Bool
  contains k [] = false
  contains k (e ∷ t) = if e.0 == k then true else contains k t

  pub lookup-none : (k : ℕ) (t : Table V) → lookup k t ≡ none → contains k t ≡ false
  lookup-none k [] h = refl
  lookup-none k (e ∷ t) h = ground (arith, lookup-none k t)

  pub lookup-some : (k : ℕ) (t : Table V) (v : V) → lookup k t ≡ some v → contains k t ≡ true
  lookup-some k [] v h = ground arith
  lookup-some k (e ∷ t) v h = ground (arith, lookup-some k t v)

  pub contains-assign : (k : ℕ) (v : V) (t : Table V) → contains k (assign k v t) ≡ true
  contains-assign k v [] = ground arith
  contains-assign k v (e ∷ t) = ground (arith, contains-assign k v t)

  pub contains-assign_ne :
      (j k : ℕ) (v : V) (t : Table V) → j ≢ k → contains j (assign k v t) ≡ contains j t
  contains-assign_ne j k v [] h = ground arith
  contains-assign_ne j k v (e ∷ t) h = ground (arith, contains-assign_ne j k v t h)

  pub contains-erase : (k : ℕ) (t : Table V) → contains k (erase k t) ≡ false
  contains-erase k [] = refl
  contains-erase k (e ∷ t) = ground (arith, contains-erase k t)

  pub contains-erase_ne : (j k : ℕ) (t : Table V) → j ≢ k → contains j (erase k t) ≡ contains j t
  contains-erase_ne j k [] h = refl
  contains-erase_ne j k (e ∷ t) h = ground (arith, contains-erase_ne j k t h)

  -- Another value under a key that is there changes no key.
  pub contains-middle :
      (j k : ℕ) (v w : V) (s t : Table V)
      → contains j (s ++ (k, v) ∷ t) ≡ contains j (s ++ (k, w) ∷ t)
  contains-middle j k v w [] t = refl
  contains-middle j k v w (e ∷ s) t =
      ap (if◌then◌else◌ (e.0 == j) true) (contains-middle j k v w s t)

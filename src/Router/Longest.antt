-- ===== src/Router/Longest.antt =====
-- The loop over the table finds the longest matching prefix.
use mathlib.Core.Bool.{false≢true}
use mathlib.Core.Option.{some-injective, none-ne-some}
use tcp.Prelude.{
  ℕ, ◌+◌, ◌≤◌, ◌<◌, ◌≡◌, refl, sym, ap, subst, ◌∙◌, Bool, true, false, ◌&&◌, ◌⊎◌, List, [], ◌∷◌,
  Option, none, some, arith, Bool-cases, inl, inr, ltb, ltb→lt, ltb→ge,
}
use tcp.Router.{Routed, forward, route_one_datagram, RouteItem, matches, better, find_entry}

-- The item is one of the table.
pub data In (item : RouteItem) : List RouteItem → Type 0 where
  here : {rest : List RouteItem} → In item (item ∷ rest)
  there : {x : RouteItem} {rest : List RouteItem} → In item rest → In item (x ∷ rest)

-- No item of the table that matches `dst` has a longer prefix than `m`, and with no `m` none matches.
abbrev pub Best : ℕ → Option RouteItem → List RouteItem → Type 0
Best dst none table = (x : RouteItem) → In x table → matches dst x ≡ false
Best dst (some m) table =
    (x : RouteItem) → In x table → matches dst x ≡ true → x.prefix_length ≤ m.prefix_length

-- What the loop gives for the entry `m` that it starts with.
-- It is one of the table that matches, or the one that the loop had.
abbrev Found : ℕ → Option RouteItem → List RouteItem → Option RouteItem → Type 0
Found dst m table none = (m ≡ none) × Best dst none table
Found dst m table (some e) =
    Best dst (some e) table
    × ((m ≡ some e) ⊎ (In e table × (matches dst e ≡ true)))
    × ((x : RouteItem) → m ≡ some x → x.prefix_length ≤ e.prefix_length)

and_true : (a : Bool) → (a && true) ≡ false → a ≡ false
and_true true e = e
and_true false e = refl

and_left : (a b : Bool) → (a && b) ≡ true → a ≡ true
and_left true b e = refl
and_left false b e = absurd (false≢true e)

and_right : (a b : Bool) → (a && b) ≡ true → b ≡ true
and_right true b e = e
and_right false b e = absurd (false≢true e)

not_longer : (b : Bool) (n m r : ℕ) → b ≡ true → (b && ltb m n) ≡ false → m ≤ r → n ≤ r
not_longer true n m r h e le = omega (arith, ltb→ge m n e)
not_longer false n m r h e le = absurd (false≢true h)

in_either {ℓ} :
    (P : RouteItem → Type ℓ) (item : RouteItem) (rest : List RouteItem)
    → P item
    → ((x : RouteItem) → In x rest → P x)
    → (x : RouteItem) → In x (item ∷ rest)
    → P x
in_either P item rest p f x here = p
in_either P item rest p f x (there q) = f x q

abbrev length_or : Option RouteItem → ℕ
length_or none = 0
length_or (some x) = x.prefix_length

same_length : {x y : RouteItem} → some x ≡ some y → x.prefix_length ≡ y.prefix_length
same_length e = ap length_or e

-- Passing over an item that is not taken.
skip :
    (dst : ℕ) (m : Option RouteItem) (item : RouteItem) (rest : List RouteItem)
    (r : Option RouteItem)
    → (matches dst item && better m item) ≡ false
    → Found dst m rest r
    → Found dst m (item ∷ rest) r
unfolding better
skip dst none item rest none passed (e, best) =
    (e, in_either (λ x. matches dst x ≡ false) item rest (and_true (matches dst item) passed) best)
skip dst (some m) item rest none passed (e, best) = absurd (none-ne-some _ (sym e))
skip dst none item rest (some r) passed (best, inl e, longer) = absurd (none-ne-some _ e)
skip dst none item rest (some r) passed (best, inr (q, t), longer) = (
  in_either (λ x. matches dst x ≡ true → x.prefix_length ≤ r.prefix_length) item rest
      (λ h. absurd (false≢true (sym (and_true (matches dst item) passed) ∙ h))) best,
  inr (there q, t),
  longer,
)
skip dst (some m) item rest (some r) passed (best, origin, longer) = (
  in_either (λ x. matches dst x ≡ true → x.prefix_length ≤ r.prefix_length) item rest
      (λ h.
        let shorter = longer m refl in
        not_longer (matches dst item) item.prefix_length m.prefix_length r.prefix_length h passed
          shorter)
      best,
  still origin,
  longer,
)
  where
    still :
        ((some m ≡ some r) ⊎ (In r rest × (matches dst r ≡ true)))
        → ((some m ≡ some r) ⊎ (In r (item ∷ rest) × (matches dst r ≡ true)))
    still (inl e) = inl e
    still (inr (q, t)) = inr (there q, t)

-- Taking an item.
take_item :
    (dst : ℕ) (m : Option RouteItem) (item : RouteItem) (rest : List RouteItem)
    (r : Option RouteItem)
    → (matches dst item && better m item) ≡ true
    → Found dst (some item) rest r
    → Found dst m (item ∷ rest) r
unfolding better
take_item dst m item rest none taken (e, best) = absurd (none-ne-some _ (sym e))
take_item dst m item rest (some r) taken (best, origin, longer) = (
  in_either (λ x. matches dst x ≡ true → x.prefix_length ≤ r.prefix_length) item rest
      (λ h. longer item refl) best,
  inr (from origin),
  outgrows m taken,
)
  where
    from :
        ((some item ≡ some r) ⊎ (In r rest × (matches dst r ≡ true)))
        → In r (item ∷ rest) × (matches dst r ≡ true)
    from (inl e) =
        subst (λ x. In x (item ∷ rest) × (matches dst x ≡ true)) (some-injective _ _ e)
          (here, and_left _ _ taken)
    from (inr (q, t)) = (there q, t)

    outgrows :
        (k : Option RouteItem)
        → (matches dst item && better k item) ≡ true
        → (x : RouteItem) → k ≡ some x
        → x.prefix_length ≤ r.prefix_length
    outgrows none t x e = absurd (none-ne-some _ e)
    outgrows (some k) t x e = omega (
      arith,
      same_length e,
      ltb→lt k.prefix_length item.prefix_length (and_right _ _ t),
      longer item refl,
    )

find_entry-Found :
    (dst : ℕ) (m : Option RouteItem) (table : List RouteItem)
    → Found dst m table (find_entry dst m table)
unfolding find_entry
find_entry-Found dst none [] = (refl, λ x q. elim q [ ])
find_entry-Found dst (some m) [] =
    (λ x q. elim q [ ], inl refl, λ x e. omega (arith, same_length e))
find_entry-Found dst m (item ∷ rest) = elim (Bool-cases (matches dst item && better m item)) [
  | inl e ↦ rw e (take_item dst m item rest _ e (find_entry-Found dst (some item) rest))
  | inr e ↦ rw e (skip dst m item rest _ e (find_entry-Found dst m rest))
]

-- The loop over the table, from no entry, gives an entry of the table that matches the destination,
-- with no matching entry of a longer prefix, or no entry if none matches.
pub find_entry_lem :
    (dst : ℕ) (table : List RouteItem)
    → Best dst (find_entry dst none table) table
      × ((e : RouteItem) → find_entry dst none table ≡ some e → In e table × (matches dst e ≡ true))
find_entry_lem dst table = split (find_entry dst none table) (find_entry-Found dst none table)
  where
    split :
        (r : Option RouteItem)
        → Found dst none table r
        → Best dst r table × ((e : RouteItem) → r ≡ some e → In e table × (matches dst e ≡ true))
    split none (e, best) = (best, λ x h. absurd (none-ne-some _ h))
    split (some r) (best, inl e, longer) = absurd (none-ne-some _ e)
    split (some r) (best, inr q, longer) =
        (best, λ x h. subst (λ y. In y table × (matches dst y ≡ true)) (some-injective _ _ h) q)

-- A datagram with a ttl that fits a byte and that is routed goes to the interface of a matching
-- entry of the table, with no matching entry of a longer prefix, with its ttl, then at least 1, one
-- less.
pub route_one_datagram_lem :
    (table : List RouteItem) (dst ttl : ℕ) (r : Routed)
    → ttl < 256
    → route_one_datagram table dst ttl ≡ some r
    → (e : RouteItem) × In e table
      × (matches dst e ≡ true)
      × Best dst (some e) table
      × (r.interface_num ≡ e.interface_num)
      × (0 < r.ttl)
      × (r.ttl + 1 ≡ ttl)
unfolding route_one_datagram forward
route_one_datagram_lem table dst ttl r small h =
    split (find_entry dst none table) (find_entry_lem dst table) h
  where
    split :
        (m : Option RouteItem)
        → Best dst m table × ((e : RouteItem) → m ≡ some e → In e table × (matches dst e ≡ true))
        → forward dst ttl m ≡ some r
        → (e : RouteItem) × In e table
          × (matches dst e ≡ true)
          × Best dst (some e) table
          × (r.interface_num ≡ e.interface_num)
          × (0 < r.ttl)
          × (r.ttl + 1 ≡ ttl)
    split none f h = absurd (none-ne-some _ h)
    split (some e) (best, from) h = elim (Bool-cases (ltb 1 ttl)) [
      | inr late ↦ absurd (none-ne-some _ (rw late at h))
      | inl alive ↦
          let out = some-injective _ _ (rw alive at h) in
          let live = ltb→lt 1 ttl alive in
          let less = ap (λ x. x.ttl) out in
          (
            e,
            (from e refl).0,
            (from e refl).1,
            best,
            sym (ap (λ x. x.interface_num) out),
            omega (arith, less),
            omega (arith, less),
          )
    ]

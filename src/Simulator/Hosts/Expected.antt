-- ===== src/Simulator/Hosts/Expected.antt =====
-- What a host's check finds.
use mathlib.Core.List.{Perm, Mem, mem-cons_self, cons≢nil, eq-or-mem_of_mem-cons, not-mem-nil}
use mathlib.Core.List.Perm
use mathlib.Core.HLevel.{⊥_prop}
use mathlib.Core.Logic.Or
use mathlib.Core.Bool.{false≢true}
use tcp.Prelude.{
  ℕ, ◌≡◌, refl, sym, ap, ap₂, ◌∙◌, subst, ◌⊎◌, inl, inr, true, false, Bool-cases, List, [], ◌∷◌,
  ◌++◌, append-nil, none, some, and_then, ◌==◌, ==→eq, eq→==,
}
use tcp.Buffer.{BufferList, concatenate}
use tcp.Ipv4
use tcp.Ipv4.{Ipv4Datagram}
use tcp.Simulator.Hosts.{
  Host, same_string, same_bytes, expecting, remove_expectation, check_received, check_missing,
  check,
}

same_string_self : (a : List ℕ) → same_string a a ≡ true
unfolding same_string
same_string_self [] = refl
same_string_self (x ∷ a) = rw (eq→== x x refl, same_string_self a) refl

same_string_eq : (a b : List ℕ) → same_string a b ≡ true → a ≡ b
unfolding same_string
same_string_eq [] [] h = refl
same_string_eq [] (y ∷ b) h = absurd (false≢true h)
same_string_eq (x ∷ a) [] h = absurd (false≢true h)
same_string_eq (x ∷ a) (y ∷ b) h = elim (Bool-cases (x == y)) [
  | inl e ↦ ap₂ ◌∷◌ (==→eq x y e) (same_string_eq a b (rw e at h))
  | inr n ↦ absurd (false≢true (rw n at h))
]

-- The bytes of the datagrams, in their order.
pub data AreBytes : List Ipv4Datagram → List (List ℕ) → Type 0 where
  no_bytes : AreBytes [] []
  more_bytes :
      {d : Ipv4Datagram} {ds : List Ipv4Datagram} {bs : List (List ℕ)} (bl : BufferList)
      → Ipv4.serialize d ≡ some bl
      → AreBytes ds bs
      → AreBytes (d ∷ ds) (concatenate bl ∷ bs)

same_bytes_lem :
    (x d : Ipv4Datagram) (bx bd : BufferList)
    → Ipv4.serialize x ≡ some bx
    → Ipv4.serialize d ≡ some bd
    → same_bytes x d ≡ some (same_string (concatenate bx) (concatenate bd))
unfolding same_bytes
same_bytes_lem x d bx bd ex ed = rw (ex, ed) refl

-- Either the datagram is expected, and its removal takes its bytes out, or no expectation has its bytes.
Found : List Ipv4Datagram → List (List ℕ) → Ipv4Datagram → List ℕ → Type 0
Found es bs d b =
    (expecting es d ≡ some true)
    × (es' : List Ipv4Datagram) × (bs' : List (List ℕ)) × (remove_expectation es d ≡ some es')
    × AreBytes es' bs'
    × Perm bs (b ∷ bs')

Missing : List Ipv4Datagram → List (List ℕ) → Ipv4Datagram → List ℕ → Type 0
Missing es bs d b = (expecting es d ≡ some false) × ¬ Mem b bs

look_up :
    (es : List Ipv4Datagram) (bs : List (List ℕ)) (d : Ipv4Datagram) (bd : BufferList)
    → AreBytes es bs
    → Ipv4.serialize d ≡ some bd
    → Found es bs d (concatenate bd) ⊎ Missing es bs d (concatenate bd)
unfolding expecting remove_expectation Found Missing
look_up [] [] d bd no_bytes e = inr (refl, not-mem-nil)
look_up [] (b ∷ bs) d bd h e = elim h [ ]
look_up (x ∷ es) [] d bd h e = elim h [ ]
look_up (x ∷ es) (b ∷ bs) d bd (more_bytes bx ex rest) e =
    let test = same_bytes_lem x d bx bd ex e in
    elim (Bool-cases (same_string (concatenate bx) (concatenate bd))) [
      | inl same ↦ inl (
        rw (test, and_then) (rw same refl),
        es,
        bs,
        rw (test, and_then) (rw same refl),
        rest,
        subst (λ b. Perm (concatenate bx ∷ bs) (b ∷ bs)) (same_string_eq _ _ same) Perm.rfl,
      )
      | inr other ↦ elim (look_up es bs d bd rest e) [
        | inl (known, es', bs', gone, left, perm) ↦ inl (
          rw (test, and_then) (rw other known),
          x ∷ es',
          concatenate bx ∷ bs',
          rw (test, and_then) (rw other (rw gone refl)),
          more_bytes bx ex left,
          Perm.trans (Perm.cons (concatenate bx) perm)
              (Perm.swap (concatenate bd) (concatenate bx) bs'),
        )
        | inr (unknown, absent) ↦ inr (
          rw (test, and_then) (rw other unknown),
          λ m.
              Or.elim ⊥_prop (eq-or-mem_of_mem-cons m)
                (λ q. false≢true (
                  sym other
                  ∙ ap (same_string (concatenate bx)) q
                  ∙ same_string_self (concatenate bx)))
                absent,
        )
      ]
    ]

-- Either every datagram was expected, and what is left is, or one was not.
settle :
    (rs es : List Ipv4Datagram) (got bs : List (List ℕ))
    → AreBytes rs got
    → AreBytes es bs
    → ((left : List Ipv4Datagram) × (ls : List (List ℕ)) × (check_received rs es ≡ some left)
        × AreBytes left ls
        × Perm bs (got ++ ls))
      ⊎ ((check_received rs es ≡ none) × ((ls : List (List ℕ)) → ¬ Perm bs (got ++ ls)))
unfolding check_received Found Missing
settle [] es [] bs no_bytes expected = inl (es, bs, refl, expected, Perm.rfl)
settle [] es (a ∷ got) bs h expected = elim h [ ]
settle (d ∷ rs) es [] bs h expected = elim h [ ]
settle (d ∷ rs) es (a ∷ got) bs (more_bytes bd e rest) expected =
    elim (look_up es bs d bd expected e) [
      | inr (unknown, absent) ↦ inr (
        rw (unknown, and_then) refl,
        λ ls perm. absent (Perm.subset (Perm.symm perm) (concatenate bd) mem-cons_self),
      )
      | inl (known, es', bs', gone, left, perm) ↦ elim (settle rs es' got bs' rest left) [
        | inl (left', ls, e', are, perm') ↦ inl (
          left',
          ls,
          rw (known, and_then) (rw (gone, and_then) e'),
          are,
          Perm.trans perm (Perm.cons (concatenate bd) perm'),
        )
        | inr (stops, never) ↦ inr (
          rw (known, and_then) (rw (gone, and_then) stops),
          λ ls other. never ls (Perm.cons_inv (Perm.trans (Perm.symm perm) other)),
        )
      ]
    ]

-- Nothing is left of a permutation.
append_inv : (got ls : List (List ℕ)) → Perm got (got ++ ls) → ls ≡ []
append_inv [] ls perm = sym (Perm.nil-eq perm)
append_inv (a ∷ got) ls perm = append_inv got ls (Perm.cons_inv perm)

-- The host after a check that passes.
abbrev pub checked : Host → Host
checked h = record h {
  interface = record h.interface { datagrams_out = [] };
  expecting_to_receive = [];
}

-- If the datagrams that a host has received and those that it expects all have bytes: either the two are the same
-- up to their order, each counted as often as it comes and compared by its bytes, and the check passes and empties
-- both lists, or they are not, and it throws.
pub check_lem :
    (h : Host) (got bs : List (List ℕ))
    → AreBytes h.interface.datagrams_out got
    → AreBytes h.expecting_to_receive bs
    → (Perm bs got × (check h ≡ some (checked h))) ⊎ ((¬ Perm bs got) × (check h ≡ none))
unfolding check check_missing
check_lem h got bs received expected =
    elim (settle h.interface.datagrams_out h.expecting_to_receive got bs received expected) [
      | inr (stops, never) ↦
          inr ((λ perm. never [] (rw (append-nil got) perm)), rw (stops, and_then) refl)
      | inl (left, ls, e, are, perm) ↦ ends left ls e are perm
    ]
  where
    ends :
        (left : List Ipv4Datagram) (ls : List (List ℕ))
        → check_received h.interface.datagrams_out h.expecting_to_receive ≡ some left
        → AreBytes left ls
        → Perm bs (got ++ ls)
        → (Perm bs got × (check h ≡ some (checked h))) ⊎ ((¬ Perm bs got) × (check h ≡ none))
    ends [] [] e no_bytes perm = inl (rw (append-nil got) at perm, rw (e, and_then) refl)
    ends [] (l ∷ ls) e are perm = elim are [ ]
    ends (d ∷ left) [] e are perm = elim are [ ]
    ends (d ∷ left) (l ∷ ls) e are perm = inr (
      (λ whole. cons≢nil (append_inv got (l ∷ ls) (Perm.trans (Perm.symm whole) perm))),
      rw (e, and_then) refl,
    )

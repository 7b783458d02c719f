-- ===== src/EventLoop/Cooperative.antt =====
-- Rules whose callbacks keep the loop's contract.
use tcp.Prelude.{
  All, ◌≡◌, ◌≢◌, ◌⊎◌, inl, inr, refl, ap, Bool, true, false, Bool-cases, not, ◌&&◌, List, [], ◌∷◌,
  Option, some, ◌==◌, ne→==, if◌then◌else◌, and_then,
}
use tcp.EventLoop.{
  Rule, Direction, reading, writing, Revents, Result, Polled, success, timeout, exits, timed_out,
  interrupted, failed, ready, no_revents, first_revents, other_revents, poll_ready, has_direction,
  service_count, defunct, setup, something_to_poll, serve, dispatch, rules_of, dispatched, polls,
  wait_next_event,
}

and_false : (a b : Bool) → b ≡ false → (a && b) ≡ false
and_false true b h = h
and_false false b h = refl

-- No descriptor is reported broken.
abbrev pub Unbroken : Polled → Type 0
Unbroken (ready vs) = All (λ v. v.error ≡ false) vs
Unbroken timed_out = Unit
Unbroken interrupted = Unit
Unbroken failed = Unit

module _ {S : Type 0} (P : S → Type 0) where
  -- What the loop asks of a rule, in the worlds that satisfy `P`: its callbacks return and keep `P`, and after
  -- the callback its descriptor has been read or written, or the rule is not interested.
  pub record IsCooperative (r : Rule S) : Type 0 where
    pub serves :
        (s : S)
        → P s
        → (s' : S) × (r.callback s ≡ some s')
          × P s'
          × ((service_count r s ≢ service_count r s') ⊎ (r.interest s' ≡ false))
    pub cancels : (s : S) → P s → (s' : S) × (r.cancel s ≡ some s') × P s'

  Asks : Rule S × Bool → Type 0
  Asks (r, asks) = IsCooperative r

  setup-Cooperative :
      (rules : List (Rule S)) (s : S)
      → All IsCooperative rules
      → P s
      → (kept : List (Rule S × Bool)) × (s' : S) × (setup rules s ≡ some (kept, s'))
        × All Asks kept
        × P s'
  unfolding setup Asks
  setup-Cooperative [] s all p = ([], s, refl, tt, p)
  setup-Cooperative (r ∷ rules) s (c, all) p = elim (Bool-cases (defunct r s)) [
    | inl gone ↦
        let (s1, e, p1) = c.cancels s p in
        let (kept, s', e', all', p') = setup-Cooperative rules s1 all p1 in
        (kept, s', rw (setup, gone) (rw e e'), all', p')
    | inr stays ↦
        let (kept, s', e', all', p') = setup-Cooperative rules s all p in
        ((r, r.interest s) ∷ kept, s', rw (setup, stays) (rw e' refl), (c, all'), p')
  ]

  serve-Cooperative :
      (r : Rule S) (s : S) → IsCooperative r → P s → (s' : S) × (serve r s ≡ some s') × P s'
  unfolding serve
  serve-Cooperative r s c p =
      let (s', e, p', progress) = c.serves s p in
      let quiet : ((service_count r s == service_count r s') && r.interest s') ≡ false =
        elim progress [
          | inl counted ↦ ap (λ b. b && r.interest s') (ne→== _ _ counted)
          | inr idle ↦ and_false _ _ idle
        ] in
      (s', rw e (rw quiet refl), p')

  served-Cooperative :
      (is_ready : Bool) (r : Rule S) (s : S)
      → IsCooperative r
      → P s
      → (s' : S) × ((if is_ready then serve r s else some s) ≡ some s') × P s'
  served-Cooperative true r s c p = serve-Cooperative r s c p
  served-Cooperative false r s c p = (s, refl, p)

  first_revents-Unbroken :
      (vs : List Revents) → Unbroken (ready vs) → (first_revents vs).error ≡ false
  unfolding first_revents
  first_revents-Unbroken [] h = refl
  first_revents-Unbroken (v ∷ vs) (h, hs) = h

  other_revents-Unbroken :
      (vs : List Revents) → Unbroken (ready vs) → Unbroken (ready (other_revents vs))
  unfolding other_revents
  other_revents-Unbroken [] h = tt
  other_revents-Unbroken (v ∷ vs) (h, hs) = hs

  dispatch-Cooperative :
      (kept : List (Rule S × Bool)) (vs : List Revents) (s : S)
      → All Asks kept
      → Unbroken (ready vs)
      → P s
      → (rules : List (Rule S)) × (s' : S) × (dispatch kept vs s ≡ some (rules, s'))
        × All IsCooperative rules
        × P s'
  unfolding dispatch Asks
  dispatch-Cooperative [] vs s all h p = ([], s, refl, tt, p)
  dispatch-Cooperative ((r, asks) ∷ kept) vs s (c, all) h p =
      let v = first_revents vs in
      let is_ready = poll_ready asks r.direction v in
      let fine = first_revents-Unbroken vs h in
      elim (Bool-cases (v.hup && asks && not is_ready)) [
        | inl gone ↦
            let (s1, e, p1) = c.cancels s p in
            let (rules, s', e', all', p') =
              dispatch-Cooperative kept (other_revents vs) s1 all (other_revents-Unbroken vs h)
                p1 in
            (rules, s', rw (dispatch, fine) (rw gone (rw e e')), all', p')
        | inr stays ↦
            let (s1, e, p1) = served-Cooperative is_ready r s c p in
            let (rules, s', e', all', p') =
              dispatch-Cooperative kept (other_revents vs) s1 all (other_revents-Unbroken vs h)
                p1 in
            (r ∷ rules, s', rw (dispatch, fine) (rw stays (rw e (rw e' refl))), (c, all'), p')
      ]

  rules_of-Cooperative :
      (kept : List (Rule S × Bool)) → All Asks kept → All IsCooperative (rules_of kept)
  unfolding rules_of Asks
  rules_of-Cooperative [] all = tt
  rules_of-Cooperative ((r, asks) ∷ kept) (c, all) = (c, rules_of-Cooperative kept all)

  Fine : Option (Result × (List (Rule S) × S)) → Type 0
  Fine o =
      (result : Result) × (rules : List (Rule S)) × (s : S) × (o ≡ some (result, (rules, s)))
      × All IsCooperative rules
      × P s

  polls-Cooperative :
      (o : Polled) (kept : List (Rule S × Bool)) (s : S)
      → Unbroken o
      → All Asks kept
      → P s
      → Fine (polls o kept s)
  unfolding polls Fine dispatched
  polls-Cooperative timed_out kept s h all p =
      (timeout, rules_of kept, s, refl, rules_of-Cooperative kept all, p)
  polls-Cooperative interrupted kept s h all p =
      (exits, rules_of kept, s, refl, rules_of-Cooperative kept all, p)
  polls-Cooperative failed kept s h all p =
      let (rules, s', e, all', p') = dispatch-Cooperative kept [] s all tt p in
      (success, rules, s', rw e refl, all', p')
  polls-Cooperative (ready vs) kept s h all p =
      let (rules, s', e, all', p') = dispatch-Cooperative kept vs s all h p in
      (success, rules, s', rw e refl, all', p')

  -- Rules that keep the contract, in a world that satisfies `P`: unless poll(2) reports a broken descriptor,
  -- `wait_next_event` throws nothing, whatever else poll(2) does, finds no busy waiting, and leaves rules that
  -- keep the contract in a world that satisfies `P`.
  pub wait_next_event-Cooperative :
      (o : Polled) (rules : List (Rule S)) (s : S)
      → Unbroken o
      → All IsCooperative rules
      → P s
      → (result : Result) × (rules' : List (Rule S)) × (s' : S) × (wait_next_event o rules s
          ≡ some (result, (rules', s')))
        × All IsCooperative rules'
        × P s'
  unfolding wait_next_event Fine
  wait_next_event-Cooperative o rules s h all p =
      let (kept, s1, e, all1, p1) = setup-Cooperative rules s all p in
      elim (Bool-cases (something_to_poll kept)) [
        | inl some_asks ↦
            let (result, rules', s', e', all', p') = polls-Cooperative o kept s1 h all1 p1 in
            (result, rules', s', rw (e, and_then) (rw some_asks e'), all', p')
        | inr none_asks ↦ (
          exits,
          rules_of kept,
          s1,
          rw (e, and_then) (rw none_asks refl),
          rules_of-Cooperative kept all1,
          p1,
        )
      ]

not_ready : (asks : Bool) (d : Direction) → poll_ready asks d no_revents ≡ false
unfolding poll_ready has_direction
not_ready false d = refl
not_ready true reading = refl
not_ready true writing = refl

dispatch_nothing :
    {S : Type 0} (kept : List (Rule S × Bool)) (s : S)
    → dispatch kept [] s ≡ some (rules_of kept, s)
unfolding dispatch rules_of first_revents other_revents
dispatch_nothing [] s = refl
dispatch_nothing ((r, asks) ∷ kept) s =
    rw (not_ready asks r.direction) (rw (dispatch_nothing kept s) refl)

-- A failure of poll(2) that is not an interruption is no exception but a success in which no callback is
-- called: if the rules that are left ask for something, they and the world are as the first loop leaves them.
pub failed_poll_succeeds :
    {S : Type 0} (rules : List (Rule S)) (kept : List (Rule S × Bool)) (s s' : S)
    → setup rules s ≡ some (kept, s')
    → something_to_poll kept ≡ true
    → wait_next_event failed rules s ≡ some (success, (rules_of kept, s'))
unfolding wait_next_event polls dispatched
failed_poll_succeeds rules kept s s' e asks =
    rw (e, and_then) (rw asks (rw (dispatch_nothing kept s') refl))

-- ===== src/Reassembler/Loop.antt =====
-- The `for` loop of `push_substring`: what holds between its rounds.
use tcp.Prelude.{
  ℕ, suc, ◌+◌, ◌-◌, ◌≤◌, ◌<◌, ◌≡◌, ◌≢◌, refl, sym, ap, ap₂, subst, ◌∙◌, true, false, List, [], ◌∷◌,
  ◌++◌, arith, ◌==◌, if◌then◌else◌, ltb, length, u64_mod, add64, Bool-cases, inl, inr, ==→eq, ==→ne,
  eq→==, ne→==, ltb→lt, ltb→ge,
}
use tcp.Reassembler.{Work, update, store_byte, store_bytes}
use tcp.Reassembler.Count.{count, count-le, count-update, count_all, count_mono}
use tcp.Reassembler.Source.{slice, slice-snoc, Agrees}

pub update_self {ℓ} : {A : Type ℓ} (m : ℕ → A) (k : ℕ) (v : A) → update m k v k ≡ v
update_self m k v = rw (eq→== k k refl)

pub update_ne {ℓ} : {A : Type ℓ} (m : ℕ → A) (k : ℕ) (v : A) (j : ℕ) → j ≢ k → update m k v j ≡ m j
update_ne m k v j h = rw (ne→== j k h)

module _ (source : ℕ → ℕ) (start limit : ℕ) where
  -- `start` is `first_unassembled` before the loops, and `pos` the index of the next byte.
  pub record Mid (pos : ℕ) (w : Work) : Type 0 where
    pub low : start ≤ w.first_unassembled
    pub high : w.first_unassembled ≤ limit
    pub written : w.to_write ≡ slice source start (w.first_unassembled - start)
    pub assembled : (k : ℕ) → k < w.first_unassembled → w.m_exist k ≡ true
    pub missing : pos ≢ w.first_unassembled → w.m_exist w.first_unassembled ≡ false
    pub stored :
        (k : ℕ)
        → w.first_unassembled ≤ k
        → w.m_exist k ≡ true
        → (w.m_char k ≡ source k) × (k < limit)
    pub counted : count w.m_exist limit ≡ w.first_unassembled + w.unassembled

  -- A byte that stands at `first_unassembled` is among those counted.
  pub some_unassembled :
      {pos : ℕ} {w : Work} → Mid pos w → w.m_exist w.first_unassembled ≡ true → 0 < w.unassembled
  some_unassembled {w = w} m e = omega (
    arith,
    m.counted,
    count_mono w.m_exist (suc w.first_unassembled) limit
        (m.stored w.first_unassembled (omega arith) e).1,
    count_all w.m_exist w.first_unassembled m.assembled,
    marked,
  )
    where
      marked : ◌≡◌ {A = ℕ} (if w.m_exist w.first_unassembled then 1 else 0) 1
      marked = rw e

  -- `first_unassembled` moves over a byte that is marked and equal to the source's.
  pub advance :
      {pos : ℕ} {w : Work} (c : ℕ) (v : Work)
      → limit < u64_mod
      → Mid pos w
      → w.first_unassembled < limit
      → c ≡ source w.first_unassembled
      → v.first_unassembled ≡ suc w.first_unassembled
      → v.to_write ≡ w.to_write ++ c ∷ []
      → v.m_char ≡ w.m_char
      → v.m_exist w.first_unassembled ≡ true
      → ((k : ℕ) → k ≢ w.first_unassembled → v.m_exist k ≡ w.m_exist k)
      → count v.m_exist limit ≡ v.first_unassembled + v.unassembled
      → Mid (suc w.first_unassembled) v
  advance {pos} {w} c v hl m h s ef et ec here others n = record {
    low = omega (arith, m.low);
    high = omega arith;
    written =
        et
        ∙ ap₂ (λ xs x. xs ++ x ∷ []) m.written s
        ∙ slice-snoc source start w.first_unassembled m.low
        ∙ ap (λ k. slice source start (k - start)) (sym ef);
    assembled = λ k l. elim (Bool-cases (k == w.first_unassembled)) [
      | inl e ↦ ap v.m_exist (==→eq k _ e) ∙ here
      | inr e ↦ let ne = ==→ne k w.first_unassembled e in others k ne ∙ m.assembled k (omega arith)
    ];
    missing = λ ne. absurd (ne (sym ef));
    stored = λ k l e.
        let ne : k ≢ w.first_unassembled = omega arith in
        let (a, b) = m.stored k (omega arith) (sym (others k ne) ∙ e) in (ap (λ f. f k) ec ∙ a, b);
    counted = n;
  }

  -- A new byte at `first_unassembled` goes out at once.
  new_here :
      (c : ℕ) (w : Work)
      → limit < u64_mod
      → Mid w.first_unassembled w
      → w.first_unassembled < limit
      → c ≡ source w.first_unassembled
      → w.m_exist w.first_unassembled ≡ false
      → Mid (suc w.first_unassembled) (store_byte w.first_unassembled c w)
  unfolding store_byte
  new_here c w hl m h s e =
      rw (e, eq→== w.first_unassembled w.first_unassembled refl)
        (advance c _ hl m h s (omega arith) refl refl (update_self w.m_exist _ true)
          (update_ne w.m_exist _ true)
          (omega (arith, m.counted, count-update w.m_exist w.first_unassembled limit e h)))

  -- A stored byte at `first_unassembled` goes out.
  old_here :
      (c : ℕ) (w : Work)
      → limit < u64_mod
      → Mid w.first_unassembled w
      → w.first_unassembled < limit
      → w.m_exist w.first_unassembled ≡ true
      → Mid (suc w.first_unassembled) (store_byte w.first_unassembled c w)
  unfolding store_byte
  old_here c w hl m h e =
      rw (e, eq→== w.first_unassembled w.first_unassembled refl)
        (advance (w.m_char w.first_unassembled) _ hl m h (m.stored _ (omega arith) e).0
          (omega arith) refl refl e (λ k _. refl)
          (omega (arith, m.counted, some_unassembled m e, count-le w.m_exist limit)))

  -- A new byte elsewhere is stored.
  new_past :
      (pos c : ℕ) (w : Work)
      → limit < u64_mod
      → Mid pos w
      → pos < limit
      → pos ≢ w.first_unassembled
      → c ≡ source pos
      → w.m_exist pos ≡ false
      → Mid (suc pos) (store_byte pos c w)
  unfolding store_byte
  new_past pos c w hl m h ne s e =
      rw (e, ne→== pos w.first_unassembled ne)
        (record {
          low = m.low;
          high = m.high;
          written = m.written;
          assembled =
              λ k l. elim (Bool-cases (k == pos)) [ inl e ↦ rw e | inr e ↦ rw e (m.assembled k l) ];
          missing = λ _. update_ne w.m_exist pos true _ (λ z. ne (sym z)) ∙ m.missing ne;
          stored = λ k l. elim (Bool-cases (k == pos)) [
            | inl e ↦
                rw e (λ _. (s ∙ ap source (sym (==→eq k pos e)), omega (arith, ==→eq k pos e)))
            | inr e ↦ rw e (m.stored k l)
          ];
          counted = omega (
            arith,
            m.counted,
            count-update w.m_exist pos limit e h,
            count-le (update w.m_exist pos true) limit,
          );
        })

  -- A byte that is already known changes nothing.
  old_past :
      (pos c : ℕ) (w : Work)
      → Mid pos w
      → pos ≢ w.first_unassembled
      → w.m_exist pos ≡ true
      → Mid (suc pos) (store_byte pos c w)
  unfolding store_byte
  old_past pos c w m ne e =
      rw (e, ne→== pos w.first_unassembled ne)
        (record {
          low = m.low;
          high = m.high;
          written = m.written;
          assembled = m.assembled;
          missing = λ _. m.missing ne;
          stored = m.stored;
          counted = m.counted;
        })

  pub store_byte-Mid :
      (pos c : ℕ) (w : Work)
      → limit < u64_mod
      → Mid pos w
      → pos < limit
      → c ≡ source pos
      → Mid (suc pos) (store_byte pos c w)
  store_byte-Mid pos c w hl m h s = elim (Bool-cases (pos == w.first_unassembled)) [
    | inl z ↦ let p : pos ≡ w.first_unassembled = ==→eq pos w.first_unassembled z in here p
    | inr z ↦
        let ne = ==→ne pos w.first_unassembled z in
        elim (Bool-cases (w.m_exist pos)) [
          | inl e ↦ old_past pos c w m ne e
          | inr e ↦ new_past pos c w hl m h ne s e
        ]
  ]
    where
      here_at :
          Mid w.first_unassembled w
          → w.first_unassembled < limit
          → c ≡ source w.first_unassembled
          → Mid (suc w.first_unassembled) (store_byte w.first_unassembled c w)
      here_at m' h' s' = elim (Bool-cases (w.m_exist w.first_unassembled)) [
        | inl e ↦ old_here c w hl m' h' e
        | inr e ↦ new_here c w hl m' h' s' e
      ]

      here : pos ≡ w.first_unassembled → Mid (suc pos) (store_byte pos c w)
      here p =
          subst (λ k. Mid (suc k) (store_byte k c w)) (sym p)
            (here_at (subst (λ k. Mid k w) p m) (subst (λ k. k < limit) p h) (s ∙ ap source p))

  -- Where nothing stands at `first_unassembled`, the position does not matter.
  pub any_pos :
      {pos : ℕ} {w : Work} (q : ℕ) → Mid pos w → w.m_exist w.first_unassembled ≡ false → Mid q w
  any_pos q m e = record {
    low = m.low;
    high = m.high;
    written = m.written;
    assembled = m.assembled;
    missing = λ _. e;
    stored = m.stored;
    counted = m.counted;
  }

  -- Past the limit nothing stands at `first_unassembled`.
  missing_past :
      {pos : ℕ} {w : Work} → Mid pos w → limit ≤ pos → w.m_exist w.first_unassembled ≡ false
  missing_past {pos} {w} m h = elim (Bool-cases (w.m_exist w.first_unassembled)) [
    | inr e ↦ e
    | inl e ↦ m.missing (omega (arith, (m.stored w.first_unassembled (omega arith) e).1))
  ]

  -- After the `for` loop, wherever it breaks, the `while` loop can start.
  pub store_bytes-Mid :
      (index i : ℕ) (bytes : List ℕ) (w : Work)
      → limit < u64_mod
      → index + i < u64_mod
      → Agrees source (index + i) bytes
      → Mid (index + i) w
      → Mid (add64 (index + i) (length bytes)) (store_bytes limit index i bytes w)
  unfolding store_bytes
  store_bytes-Mid index i [] w hl hi a m =
      let e : index + i ≡ add64 (index + i) 0 = omega arith in rw e at m
  store_bytes-Mid index i (c ∷ cs) w hl hi a m = elim (Bool-cases (ltb (index + i) limit)) [
    | inl l ↦
        let below = ltb→lt (index + i) limit l in
        let at : add64 i index ≡ index + i = omega arith in
        let next : suc (index + i) ≡ index + (i + 1) = omega arith in
        let end : add64 (index + (i + 1)) (length cs) ≡ add64 (index + i) (suc (length cs)) =
          omega arith in
        let w' = store_byte (index + i) c w in
        rw (at, l)
          (subst (λ k. Mid k (store_bytes limit index (i + 1) cs w')) end
            (store_bytes-Mid index (i + 1) cs w' hl (omega arith)
              (subst (λ k. Agrees source k cs) next a.1)
              (subst (λ k. Mid k w') next (store_byte-Mid (index + i) c w hl m below a.0))))
    | inr g ↦
        let at : add64 i index ≡ index + i = omega arith in
        rw (at, g) (any_pos _ m (missing_past m (ltb→ge (index + i) limit g)))
  ]

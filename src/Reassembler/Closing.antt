-- ===== src/Reassembler/Closing.antt =====
-- The end of a stream of `stop` bytes: when the output is ended, and that it is complete then.
use tcp.Prelude.{
  ℕ, suc, ◌+◌, ◌-◌, ◌≤◌, ◌<◌, ◌≡◌, refl, sym, ap, ap₂, ◌∙◌, Bool, true, false, ◌&&◌, ◌||◌, List,
  some, arith, ◌==◌, ltb, leb, length, u64_mod, add64, Bool-cases, ◌⊎◌, inl, inr, ltb→lt, ltb→ge,
  eq→==, ne→==, ==→eq,
}
use mathlib.Core.Bool.{false≢true}
use tcp.ByteStream
use tcp.ByteStream.Invariant.{ended-write}
use tcp.Reassembler.{StreamReassembler, init, push_substring, finish, next_eof, end_if, assemble}
use tcp.Reassembler.Count.{count_all, count_stop}
use tcp.Reassembler.Source.{Agrees, Inv}
use tcp.Reassembler.Push.{limit, push_substring-Inv}
use tcp.Reassembler.Arrival.{in_range, exist-push_substring}
use tcp.Reassembler.Run.{read_out, read_out-same, read_out-kept}
use tcp.Reassembler.Eof.{count_more, range_last}

-- A substring of a stream of `stop` bytes. The last one ends where the stream does; without bytes, it comes
-- only after every byte of the stream is assembled.
pub record Within (stop : ℕ) (r : StreamReassembler) (bytes : List ℕ) (index : ℕ) (eof : Bool)
    : Type 0 where
  pub inside : index + length bytes ≤ stop
  pub last : eof ≡ true → index + length bytes ≡ stop
  pub in_turn : eof ≡ true → (0 < length bytes) ⊎ (stop ≤ r.first_unassembled)

-- Nothing has arrived from `stop` on; the last byte has if a last substring was accepted; and the output is
-- ended only with every byte.
pub record Closes (stop : ℕ) (r : StreamReassembler) : Type 0 where
  pub below : (k : ℕ) → r.m_exist k ≡ true → k < stop
  pub last_here : r.eof_flag ≡ true → (k : ℕ) → suc k ≡ stop → r.m_exist k ≡ true
  pub ended : r.output.input_ended_flag ≡ true → (r.eof_flag ≡ true) × (r.first_unassembled ≡ stop)

pub init-Closes : (stop capacity : ℕ) → Closes stop (init capacity)
unfolding init ByteStream.init
init-Closes stop capacity = record {
  below = λ k e. absurd (false≢true e);
  last_here = λ e. absurd (false≢true e);
  ended = λ e. absurd (false≢true e);
}

module _ {source : ℕ → ℕ} {r : StreamReassembler} {stop : ℕ} (v : Inv source r)
    (below : (k : ℕ) → r.m_exist k ≡ true → k < stop) where
  pub first-le : r.first_unassembled ≤ stop
  first-le = elim (Bool-cases (ltb stop r.first_unassembled)) [
    | inr g ↦ ltb→ge stop r.first_unassembled g
    | inl l ↦
        let past = ltb→lt stop r.first_unassembled l in
        absurd (omega (arith, below stop (v.assembled stop past)))
  ]

  -- With a last substring accepted and nothing left unassembled, every byte is there.
  complete :
      (r.eof_flag ≡ true → (k : ℕ) → suc k ≡ stop → r.m_exist k ≡ true)
      → r.eof_flag ≡ true
      → r.unassembled ≡ 0
      → r.first_unassembled ≡ stop
  complete last_here e none_left = elim (Bool-cases (ltb r.first_unassembled stop)) [
    | inr g ↦ omega (arith, first-le, ltb→ge r.first_unassembled stop g)
    | inl l ↦
        let k = stop - 1 in
        let less = ltb→lt r.first_unassembled stop l in
        let here = last_here e k (omega (arith, less)) in
        absurd (
          omega (
            arith,
            v.counted,
            none_left,
            count_all r.m_exist r.first_unassembled v.assembled,
            count_more r.m_exist r.first_unassembled k (limit r) here (omega (arith, less))
                (v.stored k (omega (arith, less)) here).1,
          ))
  ]

  -- With every byte there, nothing is left unassembled.
  finished : r.first_unassembled ≡ stop → r.unassembled ≡ 0
  finished e =
      let gone : (j : ℕ) → r.first_unassembled ≤ j → r.m_exist j ≡ false = λ j le.
        elim (Bool-cases (r.m_exist j)) [
          | inl h ↦ absurd (omega (arith, below j h, e))
          | inr h ↦ h
        ] in
      omega (
        arith,
        v.counted,
        count_stop r.m_exist r.first_unassembled (limit r) v.window gone,
        count_all r.m_exist r.first_unassembled v.assembled,
      )

eof-push_substring :
    (r : StreamReassembler) (bytes : List ℕ) (index : ℕ) (eof : Bool)
    → limit r < u64_mod
    → index + length bytes < u64_mod
    → (push_substring r bytes index eof).eof_flag
      ≡ (r.eof_flag || (eof && leb (index + length bytes) (limit r)))
unfolding push_substring finish next_eof ByteStream.bytes_read
eof-push_substring r bytes index eof hl h =
    let lim : add64 r.output.read_count r.capacity ≡ limit r = omega arith in
    let end : add64 index (length bytes) ≡ index + length bytes = omega arith in
    rw (lim, end) (ground arith)

ended-push_substring :
    (r : StreamReassembler) (bytes : List ℕ) (index : ℕ) (eof : Bool)
    → let r' = push_substring r bytes index eof in
      r'.output.input_ended_flag
      ≡ (r.output.input_ended_flag || ((r'.unassembled == 0) && r'.eof_flag))
unfolding push_substring finish end_if ByteStream.end_input
ended-push_substring r bytes index eof =
    let w = assemble r bytes index in
    let e = ended-write r.output w.to_write in
    let eof' = next_eof r (add64 index (length bytes)) eof in
    elim (Bool-cases ((w.unassembled == 0) && eof')) [
      | inl b ↦ ground arith
      | inr b ↦ ground (arith, e)
    ]

or_true : (a b : Bool) → (a || b) ≡ true → (a ≡ true) ⊎ (b ≡ true)
or_true true b e = inl refl
or_true false b e = inr e

or_right : (a b : Bool) → b ≡ true → (a || b) ≡ true
or_right true b e = refl
or_right false b e = e

module _ {source : ℕ → ℕ} {r : StreamReassembler} {stop : ℕ} (bytes : List ℕ) (index : ℕ)
    (eof : Bool) (v : Inv source r) (c : Closes stop r) (a : Agrees source index bytes)
    (w : Within stop r bytes index eof) (small : stop < u64_mod) (start : index < u64_mod) where
  pushed : StreamReassembler
  pushed = push_substring r bytes index eof

  pushed-Inv : Inv source pushed
  unfolding pushed
  pushed-Inv = push_substring-Inv bytes index eof v start a

  arrived : (k : ℕ) → pushed.m_exist k ≡ (r.m_exist k || in_range index (length bytes) (limit r) k)
  unfolding pushed
  arrived k = exist-push_substring r bytes index eof k v.room start

  accepted : pushed.eof_flag ≡ (r.eof_flag || (eof && leb (index + length bytes) (limit r)))
  unfolding pushed
  accepted = eof-push_substring r bytes index eof v.room (omega (arith, w.inside))

  pushed-below : (k : ℕ) → pushed.m_exist k ≡ true → k < stop
  pushed-below k e =
      elim (or_true (r.m_exist k) (in_range index (length bytes) (limit r) k)
        (sym (arrived k) ∙ e)) [ inl h ↦ c.below k h | inr h ↦ ground (arith, w.inside) ]

  pushed-last : pushed.eof_flag ≡ true → (k : ℕ) → suc k ≡ stop → pushed.m_exist k ≡ true
  pushed-last e k at =
      arrived k
      ∙ elim (or_true r.eof_flag (eof && leb (index + length bytes) (limit r)) (sym accepted ∙ e)) [
        | inl h ↦ ap (λ b. b || in_range index (length bytes) (limit r) k) (c.last_here h k at)
        | inr h ↦ fresh h
      ]
    where
      fresh :
          (eof && leb (index + length bytes) (limit r)) ≡ true
          → (r.m_exist k || in_range index (length bytes) (limit r) k) ≡ true
      fresh h =
          let is_last : eof ≡ true = ground arith in
          let fits : index + length bytes ≤ limit r = ground arith in
          elim (w.in_turn is_last) [
            | inl some_bytes ↦
                let here : k ≡ index + length bytes - 1 = omega (arith, w.last is_last, at) in
                rw here (
                  range_last (r.m_exist (index + length bytes - 1)) index (length bytes) (limit r)
                    some_bytes fits)
            | inr all ↦
                ap (λ b. b || in_range index (length bytes) (limit r) k)
                  (v.assembled k (omega (arith, all, at)))
          ]

  pushed-ended :
      pushed.output.input_ended_flag ≡ true
      → (pushed.eof_flag ≡ true) × (pushed.first_unassembled ≡ stop)
  unfolding pushed
  pushed-ended e =
      elim (or_true r.output.input_ended_flag ((pushed.unassembled == 0) && pushed.eof_flag)
        (sym (ended-push_substring r bytes index eof) ∙ e)) [
          | inr h ↦
              let flagged : pushed.eof_flag ≡ true = ground arith in
              let none_left : pushed.unassembled ≡ 0 = ground arith in
              (flagged, complete pushed-Inv pushed-below pushed-last flagged none_left)
          | inl h ↦
              let (flagged, all) = c.ended h in
              (
                accepted ∙ ap (λ b. b || (eof && leb (index + length bytes) (limit r))) flagged,
                still all,
              )
        ]
    where
      still : r.first_unassembled ≡ stop → pushed.first_unassembled ≡ stop
      still all = elim (Bool-cases (ltb pushed.first_unassembled stop)) [
        | inr g ↦
            omega (arith, first-le pushed-Inv pushed-below, ltb→ge pushed.first_unassembled stop g)
        | inl l ↦
            let f = pushed.first_unassembled in
            let had = v.assembled f (omega (arith, ltb→lt f stop l, all)) in
            absurd (
              false≢true (
                sym pushed-Inv.missing
                ∙ arrived f
                ∙ ap (λ b. b || in_range index (length bytes) (limit r) f) had))
      ]

  pub push_substring-Closes : Closes stop (push_substring r bytes index eof)
  unfolding pushed
  push_substring-Closes = record {
    below = pushed-below;
    last_here = pushed-last;
    ended = pushed-ended;
  }

  -- A push of a substring of a stream of fewer than 2 ^ 64 bytes, where a last substring without bytes comes
  -- only once all bytes are assembled, to a reassembler of that stream: nothing has arrived beyond its end,
  -- its last byte has if a last substring was accepted, and the output is ended only with every byte, which a
  -- new reassembler has and such pushes and reads keep. A last substring is accepted if all of it is within
  -- the window, and remembered; and the output is ended exactly if one has been accepted, by this push or an
  -- earlier one, and every byte of the stream has been delivered.
  pub end_complete :
      let r' = push_substring r bytes index eof in
      (r'.eof_flag ≡ (r.eof_flag || (eof && leb (index + length bytes) (limit r))))
      × (ByteStream.input_ended r'.output ≡ (r'.eof_flag && (r'.first_unassembled == stop)))
  unfolding pushed ByteStream.input_ended
  end_complete = (
    accepted,
    elim (Bool-cases pushed.output.input_ended_flag) [
      | inl e ↦
          let (flagged, all) = pushed-ended e in
          e ∙ sym (ap (λ b. b && (pushed.first_unassembled == stop)) flagged ∙ eq→== _ _ all)
      | inr e ↦ e ∙ sym (not_yet e)
    ],
  )
    where
      not_yet :
          pushed.output.input_ended_flag ≡ false
          → (pushed.eof_flag && (pushed.first_unassembled == stop)) ≡ false
      not_yet e = elim (Bool-cases (pushed.eof_flag && (pushed.first_unassembled == stop))) [
        | inr h ↦ h
        | inl h ↦
            let flagged : pushed.eof_flag ≡ true = ground arith in
            let all : pushed.first_unassembled ≡ stop = ground arith in
            let none_left = finished pushed-Inv pushed-below all in
            let both = ap₂ ◌&&◌ (eq→== pushed.unassembled 0 none_left) flagged in
            absurd (
              false≢true (
                sym e
                ∙ ended-push_substring r bytes index eof
                ∙ or_right r.output.input_ended_flag _ both))
      ]

-- A read changes nothing of it.
pub read_out-Closes :
    {source : ℕ → ℕ} {stop : ℕ} (r r' : StreamReassembler) (n : ℕ) (bytes : List ℕ)
    → Inv source r
    → read_out r n ≡ some (bytes, r')
    → Closes stop r
    → Closes stop r'
read_out-Closes r r' n bytes v e c =
    let (marks, flag, end) = read_out-kept r r' n bytes v e in
    let (fixed, still) = read_out-same r r' n bytes e in
    record {
      below = λ k h. c.below k (sym (ap (λ m. m k) marks) ∙ h);
      last_here = λ h k at. ap (λ m. m k) marks ∙ c.last_here (sym flag ∙ h) k at;
      ended = λ h. let (f, all) = c.ended (sym end ∙ h) in (flag ∙ f, sym fixed ∙ all);
    }

-- Once a last substring is accepted, nothing is left unassembled exactly if every byte has been delivered.
pub unassembled-stop :
    {source : ℕ → ℕ} {r : StreamReassembler} {stop : ℕ}
    → Inv source r
    → Closes stop r
    → r.eof_flag ≡ true
    → (r.unassembled == 0) ≡ (r.first_unassembled == stop)
unassembled-stop {r = r} {stop = stop} v c e = elim (Bool-cases (r.unassembled == 0)) [
  | inl h ↦ h ∙ sym (eq→== _ _ (complete v c.below c.last_here e (==→eq _ _ h)))
  | inr h ↦
      h
      ∙ sym (
          ne→== r.first_unassembled stop
            (λ all. false≢true (sym h ∙ eq→== r.unassembled 0 (finished v c.below all))))
]

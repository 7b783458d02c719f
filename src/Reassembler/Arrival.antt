-- ===== src/Reassembler/Arrival.antt =====
-- Which indices have arrived, and that everything contiguous is delivered at once.
use tcp.Prelude.{
  ℕ, zero, suc, ◌+◌, ◌≤◌, ◌<◌, ◌≡◌, ◌↔◌, refl, sym, ap, ◌∙◌, Bool, true, false, ◌&&◌, ◌||◌, List,
  [], ◌∷◌, arith, ◌==◌, ltb, leb, if◌then◌else◌, length, u64_mod, add64, Bool-cases, inl, inr,
  ==→eq, ltb→lt, ltb→ge,
}
use mathlib.Core.Bool.{false≢true}
use tcp.ByteStream
use tcp.Reassembler.{
  StreamReassembler, Work, store_byte, store_bytes, drain, drain_byte, assemble, finish,
  push_substring, begin,
}
use tcp.Reassembler.Source.{Agrees, Inv}
use tcp.Reassembler.Push.{limit, push_substring-Inv}

exist-store_byte :
    (pos c : ℕ) (w : Work) (k : ℕ)
    → (store_byte pos c w).m_exist k ≡ (if k == pos then true else w.m_exist k)
unfolding store_byte
exist-store_byte pos c w k = elim (Bool-cases (k == pos)) [
  | inl e ↦ rw e (ground (arith, ap w.m_exist (==→eq k pos e)))
  | inr e ↦ ground arith
]

exist-drain : (fuel cur : ℕ) (w : Work) → (drain fuel cur w).1.m_exist ≡ w.m_exist
unfolding drain drain_byte
exist-drain zero cur w = refl
exist-drain (suc fuel) cur w = ground (arith, exist-drain fuel (add64 cur 1) (drain_byte cur w))

-- Whether index `k` is among `n` indices from `pos` on and below `stop`.
abbrev pub in_range : ℕ → ℕ → ℕ → ℕ → Bool
in_range pos n stop k = leb pos k && ltb k (pos + n) && ltb k stop

range_step :
    (pos n stop k next : ℕ) (b : Bool)
    → next ≡ suc pos
    → pos < stop
    → ((if k == pos then true else b) || in_range next n stop k)
      ≡ (b || in_range pos (suc n) stop k)
range_step pos n stop k next true e h = ground arith
range_step pos n stop k next false e h = ground arith

range_out : (pos n stop k : ℕ) (b : Bool) → stop ≤ pos → b ≡ (b || in_range pos n stop k)
range_out pos n stop k true h = refl
range_out pos n stop k false h = ground arith

exist-store_bytes :
    (stop index i : ℕ) (bytes : List ℕ) (w : Work) (k : ℕ)
    → stop < u64_mod
    → index + i < u64_mod
    → (store_bytes stop index i bytes w).m_exist k
      ≡ (w.m_exist k || in_range (index + i) (length bytes) stop k)
unfolding store_bytes
exist-store_bytes stop index i [] w k hs hi = ground arith
exist-store_bytes stop index i (c ∷ cs) w k hs hi =
    let at : add64 i index ≡ index + i = omega arith in
    elim (Bool-cases (ltb (index + i) stop)) [
      | inl l ↦
          let below = ltb→lt (index + i) stop l in
          let w' = store_byte (index + i) c w in
          rw (at, l)
            (exist-store_bytes stop index (i + 1) cs w' k hs (omega arith)
              ∙ ap (λ b. b || in_range (index + (i + 1)) (length cs) stop k)
                  (exist-store_byte (index + i) c w k)
              ∙ range_step (index + i) (length cs) stop k (index + (i + 1)) (w.m_exist k)
                  (omega arith) below)
      | inr g ↦
          rw (at, g)
            (range_out (index + i) (suc (length cs)) stop k (w.m_exist k)
              (ltb→ge (index + i) stop g))
    ]

exist-assemble :
    (r : StreamReassembler) (bytes : List ℕ) (index k : ℕ)
    → limit r < u64_mod
    → index < u64_mod
    → (assemble r bytes index).m_exist k
      ≡ (r.m_exist k || in_range index (length bytes) (limit r) k)
unfolding assemble ByteStream.bytes_read
exist-assemble r bytes index k hl hi =
    let lim : add64 r.output.read_count r.capacity ≡ limit r = omega arith in
    let zero_on : index + 0 ≡ index = omega arith in
    let w = store_bytes (limit r) index 0 bytes (begin r) in
    rw (lim, assemble)
      (ap (λ m. m k) (exist-drain w.unassembled (add64 index (length bytes)) w)
        ∙ exist-store_bytes (limit r) index 0 bytes (begin r) k hl (omega arith)
        ∙ ap (λ p. r.m_exist k || in_range p (length bytes) (limit r) k) zero_on)

-- An index is marked after a substring exactly if it was before, or if it is one of the substring's
-- and lies in the window.
pub exist-push_substring :
    (r : StreamReassembler) (bytes : List ℕ) (index : ℕ) (eof : Bool) (k : ℕ)
    → limit r < u64_mod
    → index < u64_mod
    → (push_substring r bytes index eof).m_exist k
      ≡ (r.m_exist k || in_range index (length bytes) (limit r) k)
unfolding push_substring finish
exist-push_substring r bytes index eof k hl hi = exist-assemble r bytes index k hl hi

-- `push_substring` delivers as much as it can: the output has the first `n` bytes of the stream
-- after the call exactly if each of them had arrived before, or arrives in this substring within
-- the window.
pub delivered_iff :
    {source : ℕ → ℕ} {r : StreamReassembler} (bytes : List ℕ) (index : ℕ) (eof : Bool) (n : ℕ)
    → Inv source r
    → index < u64_mod
    → Agrees source index bytes
    → (n ≤ (push_substring r bytes index eof).first_unassembled)
      ↔ ((k : ℕ) → k < n → (r.m_exist k || in_range index (length bytes) (limit r) k) ≡ true)
delivered_iff {source} {r} bytes index eof n v h a = (forward, backward)
  where
    r' : StreamReassembler
    r' = push_substring r bytes index eof

    v' : Inv source r'
    v' = push_substring-Inv bytes index eof v h a

    arrived : (k : ℕ) → r'.m_exist k ≡ (r.m_exist k || in_range index (length bytes) (limit r) k)
    arrived k = exist-push_substring r bytes index eof k v.room h

    forward :
        n ≤ r'.first_unassembled
        → (k : ℕ) → k < n
        → (r.m_exist k || in_range index (length bytes) (limit r) k) ≡ true
    forward le k l = sym (arrived k) ∙ v'.assembled k (omega arith)

    backward :
        ((k : ℕ) → k < n → (r.m_exist k || in_range index (length bytes) (limit r) k) ≡ true)
        → n ≤ r'.first_unassembled
    backward all = elim (Bool-cases (ltb r'.first_unassembled n)) [
      | inr g ↦ ltb→ge r'.first_unassembled n g
      | inl l ↦
          let f = r'.first_unassembled in
          let here = all f (ltb→lt f n l) in absurd (false≢true (sym v'.missing ∙ arrived f ∙ here))
    ]

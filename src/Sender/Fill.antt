-- ===== src/Sender/Fill.antt =====
-- `fill_window` keeps the accounts of a sender, ends, and throws nothing.
use mathlib.Core.Bool.{false≢true}
use tcp.Prelude.{
  ℕ, zero, suc, ◌+◌, ◌-◌, ◌≤◌, ◌<◌, ◌≡◌, refl, sym, ap, ◌∙◌, subst, min, Bool, true, false, ◌&&◌,
  List, [], ◌∷◌, arith, length, take, drop, length-take, length-drop, add64, u32_mod, u64_mod,
  Bool-cases, inl, inr, if◌then◌else◌, leb, ==→eq,
}
use tcp.Buffer.{str, of_string}
use tcp.Buffer.Laws.{str-of_string}
use tcp.ByteStream
use tcp.ByteStream.{ByteStream}
use tcp.ByteStream.Invariant.{IsValid, contents, eof_iff}
use tcp.Reassembler.Source.{Agrees}
use tcp.Segment.{flag}
use tcp.Wrapping.{wrap, unwrap}
use tcp.Wrapping.RoundTrip.{unwrap-wrap}
use tcp.Sender.{
  TcpSender, emit, max_payload_size, send_data, send_syn, data_segment, fin_segment, syn_segment,
}
use tcp.Sender.Flight.{Sending, emit-Sending, flag_le}

-- What is left of a list that agrees with the source, and what is taken from it.
pub Agrees-drop :
    (source : ℕ → ℕ) (a n : ℕ) (xs : List ℕ)
    → Agrees source a xs
    → Agrees source (a + min n (length xs)) (drop n xs)
Agrees-drop source a zero xs h = let z : a + min 0 (length xs) ≡ a = omega arith in rw z h
Agrees-drop source a (suc n) [] h = tt
Agrees-drop source a (suc n) (x ∷ xs) h =
    let z : suc a + min n (length xs) ≡ a + min (suc n) (suc (length xs)) = omega arith in
    subst (λ k. Agrees source k (drop n xs)) z (Agrees-drop source (suc a) n xs h.1)

pub Agrees-take :
    (source : ℕ → ℕ) (a n : ℕ) (xs : List ℕ) → Agrees source a xs → Agrees source a (take n xs)
Agrees-take source a zero xs h = tt
Agrees-take source a (suc n) [] h = tt
Agrees-take source a (suc n) (x ∷ xs) h = (h.0, Agrees-take source (suc a) n xs h.1)

wrap_zero : (isn : ℕ) → isn < u32_mod → wrap 0 isn ≡ isn
unfolding wrap
wrap_zero isn h = omega arith

flag_if : (b fin : Bool) → fin ≡ false → flag (if b then true else fin) ≡ flag b
flag_if true fin e = refl
flag_if false fin e = ap flag e

pub next_number :
    (b : Bool) (u n l : ℕ)
    → u ≡ n
    → n + l + 1 < u64_mod
    → (if b then add64 (add64 u l) 1 else add64 u l) ≡ n + l + flag b
next_number true u n l e h = omega arith
next_number false u n l e h = omega arith

pub and_left : (a b : Bool) → (a && b) ≡ true → a ≡ true
and_left true b e = refl
and_left false b e = absurd (false≢true e)

pub and_right : (a b : Bool) → (a && b) ≡ true → b ≡ true
and_right true b e = e
and_right false b e = absurd (false≢true e)

nil_of_length : (xs : List ℕ) → length xs ≡ 0 → xs ≡ []
nil_of_length [] e = refl
nil_of_length (x ∷ xs) e = absurd (omega arith)

-- At the end of the stream it is empty and its input has ended.
pub eof_empty :
    (t : ByteStream)
    → IsValid t
    → ByteStream.eof t ≡ true
    → (contents t ≡ []) × (t.input_ended_flag ≡ true)
unfolding ByteStream.input_ended
eof_empty t v e =
    let both = sym (eof_iff v) ∙ e in
    (
      nil_of_length (contents t) (==→eq (length (contents t)) 0 (and_left _ _ both)),
      and_right _ _ both,
    )

fin_if :
    (b : Bool) (s : TcpSender) (t : ByteStream)
    → s.fin ≡ false
    → (b ≡ true → (contents t ≡ []) × (t.input_ended_flag ≡ true))
    → (if b then true else s.fin) ≡ true
    → (contents t ≡ []) × (t.input_ended_flag ≡ true)
fin_if true s t e last h = last refl
fin_if false s t e last h = absurd (false≢true (sym e ∙ h))

module _ {source : ℕ → ℕ} {isn una : ℕ} (hi : isn < u32_mod) where
  pub not_finished :
      (s : TcpSender) → Sending source isn una s → 0 < length (contents s.stream) → s.fin ≡ false
  not_finished s v h = elim (Bool-cases s.fin) [
    | inr e ↦ e
    | inl e ↦ absurd (omega (arith, ap length (v.finished e).0))
  ]

  -- The SYN opens the sender's numbers.
  pub send_syn-Sending :
      (s : TcpSender)
      → Sending source isn una s
      → s.syn ≡ false
      → Sending source isn una (send_syn s)
  unfolding send_syn syn_segment str
  send_syn-Sending s v e =
      let (n, o, r, f) = v.closed e in
      emit-Sending (record s { bytes_in_flight = 0; syn = true }) (syn_segment s.isn) 1 v.same_isn
        v.chain (omega (arith, v.flight))
        (record {
          numbered = v.same_isn ∙ sym (wrap_zero isn hi) ∙ ap (λ k. wrap k isn) (sym n);
          first = λ _. n;
          later = λ z. absurd (false≢true (sym z));
          bytes = tt;
          fits = omega arith;
          takes = omega arith;
        })
        (omega (arith, n)) v.stream_valid v.unsent v.room refl (omega (arith, n, r, ap flag f))
        v.finished

  -- A data segment at `next_seqno`, with a FIN if `b` says so.
  emit_data-Sending :
      (b : Bool) (s : TcpSender) (n : ℕ) (t : ByteStream)
      → Sending source isn una s
      → s.syn ≡ true
      → 0 < n
      → n ≤ max_payload_size
      → 0 < length (contents s.stream)
      → contents t ≡ drop n (contents s.stream)
      → IsValid t
      → t.read_count ≡ add64 s.stream.read_count (min n (length (contents s.stream)))
      → (b ≡ true → (contents t ≡ []) × (t.input_ended_flag ≡ true))
      → Sending source isn una (
          emit
            (record s { stream = t; fin = if b then true else s.fin })
            (data_segment (wrap s.next_seqno s.isn) (take n (contents s.stream)) b)
            (s.next_seqno + length (take n (contents s.stream)) + flag b))
  unfolding data_segment
  emit_data-Sending b s n t v sy pos small some_left left tv moved last =
      let none_yet = not_finished s v some_left in
      let taken = length-take n (contents s.stream) in
      let kept = ap length left ∙ length-drop n (contents s.stream) in
      let at = v.opened sy in
      let whole = str-of_string (take n (contents s.stream)) in
      let from : s.stream.read_count ≡ s.next_seqno + flag false - 1 =
        omega (arith, at, ap flag none_yet) in
      let to : s.stream.read_count + min n (length (contents s.stream)) ≡ t.read_count =
        omega (arith, moved, v.room) in
      emit-Sending (record s { stream = t; fin = if b then true else s.fin })
        (data_segment (wrap s.next_seqno s.isn) (take n (contents s.stream)) b) _ v.same_isn v.chain
        v.flight
        (record {
          numbered = ap (wrap s.next_seqno) v.same_isn;
          first = λ z. absurd (false≢true z);
          later = λ _. omega (arith, at);
          bytes =
              subst (λ k. Agrees source k (str (of_string (take n (contents s.stream))))) from
                (rw whole (Agrees-take source s.stream.read_count n (contents s.stream) v.unsent));
          fits = rw whole (omega (arith, taken));
          takes = rw whole (omega (arith, taken));
        })
        (rw whole (omega arith)) tv
        (rw left (
          subst (λ k. Agrees source k (drop n (contents s.stream))) to
            (Agrees-drop source s.stream.read_count n (contents s.stream) v.unsent)))
        (omega (arith, kept, moved, v.room)) sy
        (omega (arith, at, moved, v.room, taken, ap flag none_yet, flag_if b s.fin none_yet))
        (fin_if b s t none_yet last)

  -- One round of the loop, for the bytes that `read` gives.
  pub round-Sending :
      (moved_size : ℕ → ℕ) (s : TcpSender) (remain : ℕ) (n : ℕ) (t : ByteStream)
      → Sending source isn una s
      → s.syn ≡ true
      → 0 < n
      → n ≤ max_payload_size
      → 0 < length (contents s.stream)
      → contents t ≡ drop n (contents s.stream)
      → IsValid t
      → t.read_count ≡ add64 s.stream.read_count (min n (length (contents s.stream)))
      → Sending source isn una (send_data moved_size s remain (take n (contents s.stream)) t)
  unfolding send_data
  round-Sending moved_size s remain n t v sy pos small some_left left tv moved =
      let payload = take n (contents s.stream) in
      let at = v.opened sy in
      let here =
        unwrap-wrap s.next_seqno isn s.next_seqno (omega (arith, at, v.room, flag_le s.fin)) hi
          (omega arith) (omega arith) in
      let here' =
        subst (λ k. unwrap (wrap s.next_seqno k) k s.next_seqno ≡ s.next_seqno) (sym v.same_isn)
          here in
      let b = ByteStream.eof t && leb (add64 (moved_size (length payload)) 1) remain in
      let next = next_number b _ s.next_seqno (length payload) here' (
        omega (
          arith,
          at,
          v.room,
          ap flag (not_finished s v some_left),
          length-take n (contents s.stream),
        )) in
      subst
        (λ k. Sending source isn una (
          emit (record s { stream = t; fin = if b then true else s.fin })
            (data_segment (wrap s.next_seqno s.isn) payload b) k))
        (sym next)
        (emit_data-Sending b s n t v sy pos small some_left left tv moved
          (λ e. eof_empty t tv (and_left _ _ e)))

  -- The segment that carries only a FIN.
  pub fin-Sending :
      (s : TcpSender)
      → Sending source isn una s
      → s.syn ≡ true
      → s.fin ≡ false
      → ByteStream.eof s.stream ≡ true
      → Sending source isn una (
          emit
            (record s { fin = true })
            (fin_segment (wrap s.next_seqno s.isn))
            (add64 s.next_seqno 1))
  unfolding fin_segment str
  fin-Sending s v sy none_yet e =
      let at = v.opened sy in
      let (nothing, ended) = eof_empty s.stream v.stream_valid e in
      emit-Sending (record s { fin = true }) (fin_segment (wrap s.next_seqno s.isn)) _ v.same_isn
        v.chain v.flight
        (record {
          numbered = ap (wrap s.next_seqno) v.same_isn;
          first = λ z. absurd (false≢true z);
          later = λ _. omega (arith, at);
          bytes = tt;
          fits = omega arith;
          takes = omega arith;
        })
        (omega (arith, at, v.room, ap flag none_yet)) v.stream_valid v.unsent v.room sy
        (omega (arith, at, v.room, ap flag none_yet)) (λ _. (nothing, ended))

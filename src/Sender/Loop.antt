-- ===== src/Sender/Loop.antt =====
-- The loop of `fill_window`: it ends, throws nothing, keeps the accounts, and stays in the window.
use mathlib.Core.Bool.{false≢true}
use tcp.Prelude.{
  ℕ, zero, suc, ◌+◌, ◌-◌, ◌≤◌, ◌<◌, ◌≡◌, refl, sym, ap, ◌∙◌, subst, min, Bool, true, false, ◌&&◌,
  List, arith, length, take, length-take, length-drop, add64, sub64, u32_mod, u64_mod, Bool-cases,
  inl, inr, if◌then◌else◌, some, ltb, leb, ltb→lt,
}
use tcp.ByteStream
use tcp.ByteStream.{ByteStream}
use tcp.ByteStream.Invariant.{contents, read_lem, size-contents}
use tcp.Segment.{TcpSegment, flag}
use tcp.Wrapping.{wrap, unwrap}
use tcp.Wrapping.RoundTrip.{unwrap-wrap}
use tcp.Sender.{TcpSender, emit, max_payload_size, send_data, data_segment, fill_loop}
use tcp.Sender.Flight.{Sending, flag_le, start_timer_cases}
use tcp.Sender.Fill.{round-Sending, not_finished, and_left, and_right, next_number}

-- What `emit` leaves of the sender that it is given.
abbrev pub Kept : TcpSender → ℕ → TcpSender → Type 0
Kept s next x = (x.next_seqno ≡ next) × (x.fin ≡ s.fin) × (x.stream ≡ s.stream) × (x.syn ≡ s.syn)

pub emit-Kept : (s : TcpSender) (seg : TcpSegment) (next : ℕ) → Kept s next (emit s seg next)
unfolding emit
emit-Kept s seg next =
    start_timer_cases (Kept s next) _ (refl, refl, refl, refl) (refl, refl, refl, refl)

-- At most `w` numbers are in flight, and before the FIN what they leave of `w` is `remain`.
pub record Within (w : ℕ) (s : TcpSender) (remain : ℕ) : Type 0 where
  pub bounded : s.bytes_in_flight ≤ w
  pub free : s.fin ≡ false → s.bytes_in_flight + remain ≡ w

-- What a round leaves.
record Round (source : ℕ → ℕ) (isn una w : ℕ) (s s' : TcpSender) (remain' : ℕ) : Type 0 where
  sending : Sending source isn una s'
  open_still : s'.syn ≡ true
  within : Within w s' remain'
  shorter : length (contents s'.stream) < length (contents s.stream)
  conserved :
      s'.stream.read_count + length (contents s'.stream)
      ≡ s.stream.read_count + length (contents s.stream)

round-Within :
    (b : Bool) (w remain len flight flight' : ℕ) (fin : Bool)
    → flight + remain ≡ w
    → len ≤ remain
    → flight' ≡ flight + len + flag b
    → (b ≡ true → 0 < remain - len)
    → (flight' ≤ w) × ((if b then true else fin) ≡ false → flight' + (remain - len) ≡ w)
round-Within true w remain len flight flight' fin h l e p =
    let positive = p refl in (omega arith, λ z. absurd (false≢true (sym z)))
round-Within false w remain len flight flight' fin h l e p = (omega arith, λ _. omega arith)

and_zero : (b : Bool) (n : ℕ) → n ≡ 0 → (b && ltb 0 n) ≡ false
and_zero true n e = rw e
and_zero false n e = refl

leb→le : (a b : ℕ) → leb a b ≡ true → a ≤ b
leb→le a b h = ground arith

module _ (moved_size : ℕ → ℕ) where
  -- Whether a round sets the FIN.
  abbrev fin_now : ℕ → List ℕ → ByteStream → Bool
  fin_now remain payload t = ByteStream.eof t && leb (add64 (moved_size (length payload)) 1) remain

  send_data-Kept :
      (s : TcpSender) (remain : ℕ) (payload : List ℕ) (t : ByteStream)
      → let b = fin_now remain payload t in
        Kept
          (record s { stream = t; fin = if b then true else s.fin })
          (if b
            then add64
                (add64 (unwrap (wrap s.next_seqno s.isn) s.isn s.next_seqno) (length payload))
                1
            else add64 (unwrap (wrap s.next_seqno s.isn) s.isn s.next_seqno) (length payload))
          (send_data moved_size s remain payload t)
  unfolding send_data
  send_data-Kept s remain payload t =
      emit-Kept (record s { stream = t; fin = if fin_now remain payload t then true else s.fin })
        (data_segment (wrap s.next_seqno s.isn) payload (fin_now remain payload t)) _

module _ (source : ℕ → ℕ) (isn una : ℕ) (hi : isn < u32_mod) (moved_size : ℕ → ℕ)
    (string_size : (n : ℕ) → moved_size n + 1 < u64_mod) where
  here_lem :
      (s : TcpSender)
      → Sending source isn una s
      → s.syn ≡ true
      → unwrap (wrap s.next_seqno s.isn) s.isn s.next_seqno ≡ s.next_seqno
  here_lem s v sy =
      unwrap-wrap s.next_seqno s.isn s.next_seqno
        (omega (arith, v.opened sy, v.room, flag_le s.fin)) (omega (arith, v.same_isn))
        (omega arith) (omega arith)

  round_lem :
      (w : ℕ) (s : TcpSender) (remain : ℕ)
      → Sending source isn una s
      → s.syn ≡ true
      → Within w s remain
      → remain < u64_mod
      → 0 < remain
      → 0 < length (contents s.stream)
      → (payload : List ℕ) × (t : ByteStream) × (ByteStream.read s.stream
            (min remain max_payload_size)
          ≡ some (payload, t))
        × (sub64 remain (length payload) < u64_mod)
        × Round source isn una w s
            (send_data moved_size s (sub64 remain (length payload)) payload t)
            (sub64 remain (length payload))
  round_lem w s remain v sy within hr pos some_left =
      let n = min remain max_payload_size in
      let (t, e, left, tv, cap, same_end, written, moved) = read_lem v.stream_valid n in
      let payload = take n (contents s.stream) in
      let len = length-take n (contents s.stream) in
      let remain' = sub64 remain (length payload) in
      let less : remain' ≡ remain - length payload = omega arith in
      let b = fin_now moved_size remain' payload t in
      let (nx, fx, stx, sx) = send_data-Kept moved_size s remain' payload t in
      let at = v.opened sy in
      let none_yet = not_finished hi s v some_left in
      let number =
        next_number b _ s.next_seqno (length payload) (here_lem s v sy)
          (omega (arith, at, v.room, ap flag none_yet, len)) in
      let v' =
        round-Sending hi moved_size s remain' n t v sy (omega arith) (omega arith) some_left left tv
          moved in
      let big_enough = string_size (length payload) in
      let flight' : (send_data moved_size s remain' payload t).bytes_in_flight
          ≡ s.bytes_in_flight + length payload + flag b =
        omega (arith, v'.flight, v.flight, nx, number) in
      let (fits, free) =
        round-Within b w remain (length payload) s.bytes_in_flight _ s.fin (within.free none_yet)
          (omega (arith, len)) flight'
          (λ z.
            omega
              (arith, leb→le (add64 (moved_size (length payload)) 1) remain' (and_right _ _ z))) in
      (
        payload,
        t,
        e,
        omega arith,
        record {
          sending = v';
          open_still = sx ∙ sy;
          within = record {
            bounded = fits;
            free = λ z. let f = free (sym fx ∙ z) in omega (arith, f, less);
          };
          shorter = omega (
            arith,
            ap (λ x. length (contents x)) stx,
            ap length left,
            length-drop n (contents s.stream),
          );
          conserved = omega (
            arith,
            ap (λ x. length (contents x)) stx,
            ap (λ x. x.read_count) stx,
            moved,
            v.room,
            ap length left,
            length-drop n (contents s.stream),
          );
        },
      )

  -- What the loop leaves of a stream that is `bytes` long up to now.
  abbrev pub Filled : ℕ → ℕ → TcpSender × ℕ → Type 0
  Filled w bytes (s, remain) =
      Sending source isn una s
      × (s.syn ≡ true)
      × Within w s remain
      × ((ltb 0 remain && ltb 0 (ByteStream.buffer_size s.stream)) ≡ false)
      × (s.stream.read_count + length (contents s.stream) ≡ bytes)

  -- With as many rounds as there are bytes the loop ends by its own test.
  pub fill_loop_lem :
      (w fuel : ℕ) (s : TcpSender) (remain : ℕ)
      → Sending source isn una s
      → s.syn ≡ true
      → Within w s remain
      → remain < u64_mod
      → length (contents s.stream) ≤ fuel
      → (p : TcpSender × ℕ) × (fill_loop moved_size fuel s remain ≡ some p)
        × Filled w (s.stream.read_count + length (contents s.stream)) p
  unfolding fill_loop
  fill_loop_lem w zero s remain v sy within hr enough = (
    (s, remain),
    refl,
    (
      v,
      sy,
      within,
      and_zero (ltb 0 remain) (ByteStream.buffer_size s.stream)
          (omega (arith, size-contents v.stream_valid)),
      refl,
    ),
  )
  fill_loop_lem w (suc fuel) s remain v sy within hr enough =
      elim (Bool-cases (ltb 0 remain && ltb 0 (ByteStream.buffer_size s.stream))) [
        | inr e ↦ ((s, remain), rw e, (v, sy, within, e, refl))
        | inl e ↦
            let size = size-contents v.stream_valid in
            let (payload, t, read, hr', r) =
              round_lem w s remain v sy within hr (ltb→lt 0 remain (and_left _ _ e)) (
                omega
                  (arith, size, ltb→lt 0 (ByteStream.buffer_size s.stream) (and_right _ _ e))) in
            let (p, f, q) =
              fill_loop_lem w fuel _ _ r.sending r.open_still r.within hr'
                (omega (arith, r.shorter)) in
            (p, rw (e, read) f, subst (λ k. Filled w k p) r.conserved q)
      ]

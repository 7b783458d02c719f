-- ===== src/Sender/Window.antt =====
-- `fill_window` uses the window and stays in it.
use mathlib.Core.Bool.{false≢true}
use tcp.Prelude.{
  ℕ, ◌+◌, ◌≤◌, ◌<◌, ◌≡◌, refl, sym, ap, ◌∙◌, Bool, true, false, not, ◌&&◌, List, [], ◌∷◌, arith,
  length, add64, sub64, u16_mod, u32_mod, u64_mod, Bool-cases, inl, inr, if◌then◌else◌, some, ltb,
  ltb→lt, ltb→ge, ◌==◌, ne→==, ◌⊎◌,
}
use tcp.ByteStream
use tcp.ByteStream.Invariant.{IsValid, contents, size-contents}
use tcp.Segment.{flag}
use tcp.Wrapping.{wrap}
use tcp.Sender.{
  TcpSender, send_syn, send_fin, remaining, fin_segment, fill_loop, finish_fill, fill_window,
}
use tcp.Sender.Flight.{Sending, next_small}
use tcp.Sender.Fill.{send_syn-Sending, fin-Sending, not_finished}
use tcp.Sender.Loop.{emit-Kept, Within, Filled, fill_loop_lem}

-- The window that counts: a window of 0 counts as 1.
abbrev pub usable : ℕ → ℕ
usable window = if window == 0 then 1 else window

-- At most `w` numbers are in flight, and with fewer nothing that could go out is held back.
pub record Used (w : ℕ) (s : TcpSender) : Type 0 where
  pub bounded : s.bytes_in_flight ≤ w
  pub data_out : s.bytes_in_flight < w → contents s.stream ≡ []
  pub fin_out : s.bytes_in_flight < w → ByteStream.eof s.stream ≡ true → s.fin ≡ true

nil_of_size :
    (t : ByteStream.ByteStream) → IsValid t → ByteStream.buffer_size t ≡ 0 → contents t ≡ []
nil_of_size t v e = nil_of (contents t) (sym (size-contents v) ∙ e)
  where
    nil_of : (xs : List ℕ) → length xs ≡ 0 → xs ≡ []
    nil_of [] e = refl
    nil_of (x ∷ xs) e = absurd (omega arith)

lt_or_ge : (a b : ℕ) → (a < b) ⊎ (b ≤ a)
lt_or_ge a b = elim (Bool-cases (ltb a b)) [
  | inl e ↦ inl (ltb→lt a b e)
  | inr e ↦ inr (ltb→ge a b e)
]

module _ (source : ℕ → ℕ) (isn una : ℕ) (hi : isn < u32_mod) (moved_size : ℕ → ℕ)
    (string_size : (n : ℕ) → moved_size n + 1 < u64_mod) where
  -- Where something is free after the loop, the stream is empty.
  nothing_left :
      (w bytes : ℕ) (s : TcpSender) (remain : ℕ)
      → Filled source isn una hi moved_size string_size w bytes (s, remain)
      → 0 < remain
      → contents s.stream ≡ []
  nothing_left w bytes s remain (v, sy, within, done, all) pos =
      nil_of_size s.stream v.stream_valid (ground (arith, done))

  -- What is free in the window is what remains, unless the FIN is out.
  room_left :
      (w : ℕ) (s : TcpSender) (remain : ℕ)
      → Within w s remain
      → s.bytes_in_flight < w
      → s.fin ≡ false
      → 0 < remain
  room_left w s remain within h e = omega (arith, within.free e)

  still-Used :
      (w bytes : ℕ) (s : TcpSender) (remain : ℕ)
      → Filled source isn una hi moved_size string_size w bytes (s, remain)
      → (not s.fin && ByteStream.eof s.stream && not (remain == 0)) ≡ false
      → Used w s
  still-Used w bytes s remain (v, sy, within, done, all) g = record {
    bounded = within.bounded;
    data_out = λ h. elim (Bool-cases s.fin) [
      | inl e ↦ (v.finished e).0
      | inr e ↦
          nothing_left w bytes s remain (v, sy, within, done, all) (room_left w s remain within h e)
    ];
    fin_out = λ h e. elim (Bool-cases s.fin) [
      | inl f ↦ f
      | inr f ↦ let r = room_left w s remain within h f in ground arith
    ];
  }

  pub send_fin_lem :
      (w bytes : ℕ) (s : TcpSender) (remain : ℕ)
      → Filled source isn una hi moved_size string_size w bytes (s, remain)
      → Sending source isn una (send_fin s remain)
        × Used w (send_fin s remain)
        × ((send_fin s remain).stream.read_count + length (contents (send_fin s remain).stream)
            ≡ bytes)
  unfolding send_fin
  send_fin_lem w bytes s remain (v, sy, within, done, all) =
      elim (Bool-cases (not s.fin && ByteStream.eof s.stream && not (remain == 0))) [
        | inr g ↦ rw g (v, still-Used w bytes s remain (v, sy, within, done, all) g, all)
        | inl g ↦
            let none_yet : s.fin ≡ false = ground arith in
            let at_end : ByteStream.eof s.stream ≡ true = ground arith in
            let pos : 0 < remain = ground arith in
            let v' = fin-Sending hi s v sy none_yet at_end in
            let (nx, fx, stx, sx) =
              emit-Kept (record s { fin = true }) (fin_segment (wrap s.next_seqno s.isn))
                (add64 s.next_seqno 1) in
            let nothing = nothing_left w bytes s remain (v, sy, within, done, all) pos in
            rw g (
              v',
              record {
                bounded = omega (arith, v'.flight, v.flight, nx, within.free none_yet, pos);
                data_out = λ _. rw stx nothing;
                fin_out = λ _ _. fx;
              },
              rw stx all,
            )
      ]

  usable-remaining :
      (s : TcpSender)
      → s.receiver_window_size < u16_mod
      → s.bytes_in_flight ≤ usable s.receiver_window_size
      → (s.bytes_in_flight + remaining s ≡ usable s.receiver_window_size)
        × (usable s.receiver_window_size < u64_mod)
  unfolding remaining
  usable-remaining s small h = by_window s.receiver_window_size s.bytes_in_flight small h
    where
      by_window :
          (window flight : ℕ)
          → window < u16_mod
          → flight ≤ usable window
          → (flight + (if window == 0 then add64 (sub64 window flight) 1 else sub64 window flight)
              ≡ usable window)
            × (usable window < u64_mod)
      by_window window flight small h = (ground arith, ground arith)

  open_window :
      (s : TcpSender) (p : TcpSender × ℕ)
      → s.syn ≡ true
      → fill_loop moved_size (ByteStream.buffer_size s.stream) s (remaining s) ≡ some p
      → fill_window moved_size s ≡ some (send_fin p.0 p.1)
  unfolding fill_window finish_fill
  open_window s p sy e = second s.syn sy ∙ ap (finish_fill moved_size) e
    where
      second :
          (b : Bool)
          → b ≡ true
          → (if not b
              then some (send_syn s)
              else finish_fill moved_size
                  (fill_loop moved_size (ByteStream.buffer_size s.stream) s (remaining s)))
            ≡ finish_fill moved_size
                (fill_loop moved_size (ByteStream.buffer_size s.stream) s (remaining s))
      second true e = refl
      second false e = absurd (false≢true e)

  fill_window-Used :
      (w : ℕ) (s : TcpSender)
      → Sending source isn una s
      → s.syn ≡ true
      → Within w s (remaining s)
      → remaining s < u64_mod
      → (s' : TcpSender) × (fill_window moved_size s ≡ some s')
        × Sending source isn una s'
        × Used w s'
        × (s'.stream.read_count + length (contents s'.stream)
            ≡ s.stream.read_count + length (contents s.stream))
  fill_window-Used w s v sy within small =
      let ((t, remain), e, f) =
        fill_loop_lem source isn una hi moved_size string_size w (ByteStream.buffer_size s.stream) s
          (remaining s) v sy within small (omega (arith, size-contents v.stream_valid)) in
      let (v', u, all) = send_fin_lem w _ t remain f in
      (send_fin t remain, open_window s (t, remain) sy e, v', u, all)

  -- With the SYN out and no more in flight than the window allows, a window of 0 counting as 1,
  -- `fill_window` ends and throws nothing, keeps the accounts, sends no more than the window
  -- allows, loses no byte, and holds nothing back: where the window is not used up, no byte is left in the stream,
  -- and the FIN is out if the stream is at its end.
  pub fill_window_lem :
      (s : TcpSender)
      → Sending source isn una s
      → s.syn ≡ true
      → s.receiver_window_size < u16_mod
      → s.bytes_in_flight ≤ usable s.receiver_window_size
      → (s' : TcpSender) × (fill_window moved_size s ≡ some s')
        × Sending source isn una s'
        × Used (usable s.receiver_window_size) s'
        × (s'.stream.read_count + length (contents s'.stream)
            ≡ s.stream.read_count + length (contents s.stream))
  fill_window_lem s v sy small h =
      let remains = usable-remaining s small h in
      fill_window-Used (usable s.receiver_window_size) s v sy
        (record { bounded = h; free = λ _. remains.0 }) (omega (arith, remains))

  closed_window : (s : TcpSender) → s.syn ≡ false → fill_window moved_size s ≡ some (send_syn s)
  unfolding fill_window
  closed_window s e = rw e refl

  remaining_small : (s : TcpSender) → remaining s < u64_mod
  unfolding remaining
  remaining_small s = elim (Bool-cases (s.receiver_window_size == 0)) [
    | inl e ↦ rw e (omega arith)
    | inr e ↦ rw e (omega arith)
  ]

  -- `fill_window` ends, throws nothing and keeps the accounts of any sender, also before the SYN
  -- and where the window has shrunk.
  pub fill_window-Sending :
      (s : TcpSender)
      → Sending source isn una s
      → (s' : TcpSender) × (fill_window moved_size s ≡ some s') × Sending source isn una s'
  fill_window-Sending s v = elim (Bool-cases s.syn) [
    | inr e ↦ (send_syn s, closed_window s e, send_syn-Sending hi s v e)
    | inl e ↦
        let (s', f, v', u, all) =
          fill_window-Used (s.bytes_in_flight + remaining s) s v e
            (record { bounded = omega arith; free = λ _. refl }) (remaining_small s) in
        (s', f, v')
  ]

  overrun_remaining :
      (s : TcpSender)
      → 0 < s.receiver_window_size
      → s.receiver_window_size < s.bytes_in_flight
      → s.bytes_in_flight < u64_mod
      → 0 < remaining s
  unfolding remaining
  overrun_remaining s pos over small =
      rw (ne→== s.receiver_window_size 0 (λ e. omega (arith, e))) (omega arith)

  -- With a non-zero window smaller than what is in flight, as after a peer shrinks its window,
  -- `fill_window` still sends if the stream has data: the subtraction of unsigned numbers wraps,
  -- and nearly 2 ^ 64 numbers count as free.
  pub fill_window-overrun :
      (s : TcpSender)
      → Sending source isn una s
      → s.syn ≡ true
      → 0 < s.receiver_window_size
      → s.receiver_window_size < s.bytes_in_flight
      → 0 < length (contents s.stream)
      → (s' : TcpSender) × (fill_window moved_size s ≡ some s')
        × (s.bytes_in_flight < s'.bytes_in_flight)
  fill_window-overrun s v sy pos over some_left =
      let (s', f, v', u, all) =
        fill_window-Used (s.bytes_in_flight + remaining s) s v sy
          (record { bounded = omega arith; free = λ _. refl }) (remaining_small s) in
      (
        s',
        f,
        elim (lt_or_ge s'.bytes_in_flight (s.bytes_in_flight + remaining s)) [
          | inr e ↦
              omega (arith, e, overrun_remaining s pos over (omega (arith, next_small v, v.flight)))
          | inl e ↦ elim (Bool-cases s'.syn) [
            | inl o ↦ omega (
              arith,
              ap length (u.data_out e),
              all,
              v'.opened o,
              v'.flight,
              v.opened sy,
              v.flight,
              ap flag (not_finished hi s v some_left),
            )
            | inr o ↦ absurd (omega (arith, ap length (u.data_out e), all, (v'.closed o).2))
          ]
        ],
      )

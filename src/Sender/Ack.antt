-- ===== src/Sender/Ack.antt =====
-- An acknowledgment takes the segments that it covers off the queue.
use tcp.Prelude.{
  ℕ, ap₂, ◌+◌, ◌-◌, ◌≤◌, ◌<◌, ◌≡◌, refl, sym, ap, ◌∙◌, subst, true, false, not, ◌&&◌, ◌||◌, List,
  [], ◌∷◌, arith, add64, sub64, u16_mod, u32_mod, u64_mod, Bool-cases, inl, inr, if◌then◌else◌,
  some, ltb, leb, ◌==◌,
}
use tcp.Segment.{TcpSegment, length_in_sequence_space}
use tcp.Wrapping.{WrappingInt32, wrap, unwrap}
use tcp.Wrapping.RoundTrip.{unwrap-wrap}
use tcp.Sender.{TcpSender, pop_acked, stop_timer, rejects, update_window, acknowledge, ack_received}
use tcp.Sender.Flight.{
  Sending, Sending-aside, Placed, Chain-le, span, next_small, length_in_sequence_space_lem,
}
use tcp.Sender.Window.{fill_window-Sending}

-- The first number behind the segments that `acked` covers as a whole, from `una` on.
abbrev pub covered : ℕ → ℕ → List TcpSegment → ℕ
covered acked una [] = una
covered acked una (t ∷ ts) =
    let rest = covered acked (una + span t) ts in if leb (una + span t) acked then rest else una

-- The loop's test is whether the segment ends at or before the acknowledged number.
end_test :
    (acked u len una n : ℕ)
    → u ≡ una
    → len ≡ n
    → 0 < n
    → una + n < u64_mod
    → ltb (sub64 (add64 u len) 1) acked ≡ leb (una + n) acked
end_test acked u len una n e f pos small =
    rw (e, f) (ap (λ k. ltb k acked) one_less ∙ last_or_end (una + n) (omega arith))
  where
    one_less : sub64 (add64 una n) 1 ≡ una + n - 1
    one_less = omega arith

    last_or_end : (k : ℕ) → 0 < k → ltb (k - 1) acked ≡ leb k acked
    last_or_end k pos = ground arith

-- An acknowledgment that is refused covers nothing.
covered_front :
    (acked window end next : ℕ)
    → window < u16_mod
    → acked ≤ next
    → (ltb next acked
        || ltb (add64 (sub64 (add64 acked window) 1) (if window == 0 then 1 else 0)) end)
      ≡ true
    → next + u16_mod < u64_mod
    → leb end acked ≡ false
covered_front acked window end next ws le h room = ground arith

update_window_lem :
    (s : TcpSender) (acked window : ℕ)
    → ((update_window s acked window).next_seqno ≡ s.next_seqno)
      × ((update_window s acked window).segments_outstanding ≡ s.segments_outstanding)
unfolding update_window
update_window_lem s acked window =
    elim (Bool-cases ((acked == s.next_seqno) && not (window == s.receiver_window_size))) [
      | inl e ↦ simp e (refl, refl)
      | inr e ↦ simp e (refl, refl)
    ]

-- The number that the oldest segment starts at after an acknowledgment of `acked`.
abbrev pub next_una : ℕ → ℕ → ℕ → List TcpSegment → ℕ
next_una acked una next ts = if leb acked next then covered acked una ts else una

refused :
    (acked una window : ℕ) (s : TcpSender) (t : TcpSegment) (ts : List TcpSegment)
    → window < u16_mod
    → s.next_seqno + u16_mod < u64_mod
    → unwrap t.header.seqno s.isn s.next_seqno ≡ una
    → length_in_sequence_space t ≡ span t
    → una + span t < u64_mod
    → rejects s acked window t ≡ true
    → next_una acked una s.next_seqno (t ∷ ts) ≡ una
unfolding rejects
refused acked una window s t ts ws room at len small r =
    elim (Bool-cases (leb acked s.next_seqno)) [
      | inr e ↦ rw e refl
      | inl e ↦
          let front =
            covered_front acked window (una + span t) s.next_seqno ws (ground (arith, e))
              (subst
                (λ k.
                  (ltb s.next_seqno acked
                    || ltb (add64 (sub64 (add64 acked window) 1) (if window == 0 then 1 else 0)) k)
                  ≡ true)
                (end_of _ _ at len) r)
              room in
          rw (e, front) refl
    ]
  where
    end_of : (u len : ℕ) → u ≡ una → len ≡ span t → add64 u len ≡ una + span t
    end_of u len e f = omega (arith, e, f)

accepted :
    (acked una window : ℕ) (s : TcpSender) (t : TcpSegment) (ts : List TcpSegment)
    → rejects s acked window t ≡ false
    → next_una acked una s.next_seqno ts ≡ covered acked una ts
unfolding rejects
accepted acked una window s t ts r =
    let e : leb acked s.next_seqno ≡ true = ground arith in rw e refl

next_una-nil : (acked una next : ℕ) → next_una acked una next [] ≡ una
next_una-nil acked una next = elim (Bool-cases (leb acked next)) [
  | inl e ↦ rw e refl
  | inr e ↦ rw e refl
]

unwrapped :
    (moved_size : ℕ → ℕ) (s : TcpSender) (ackno : WrappingInt32) (acked window : ℕ)
    → unwrap ackno s.isn s.next_seqno ≡ acked
    → ack_received moved_size s ackno window
      ≡ acknowledge moved_size
          (update_window s acked window)
          acked
          window
          (update_window s acked window).segments_outstanding
unfolding ack_received
unwrapped moved_size s ackno acked window e =
    ap
      (λ k.
        acknowledge moved_size (update_window s k window) k window
          (update_window s k window).segments_outstanding)
      e

module _ {source : ℕ → ℕ} {isn : ℕ} (hi : isn < u32_mod) where
  -- A segment in flight starts at its own number.
  start_of :
      {una : ℕ} {t : TcpSegment}
      → (next : ℕ) → Placed source isn t una
      → una ≤ next
      → next < u64_mod
      → next < una + 0x8000_0000
      → unwrap t.header.seqno isn next ≡ una
  start_of {una} {t} next p le small near =
      ap (λ k. unwrap k isn next) p.numbered
      ∙ unwrap-wrap una isn next (omega arith) hi (omega arith) (omega arith)

  -- Without its oldest segment.
  drop_front :
      {una : ℕ} (s : TcpSender) (t : TcpSegment) (ts : List TcpSegment)
      → Sending source isn una (record s { segments_outstanding = t ∷ ts })
      → Sending source isn (una + span t) (record s {
        bytes_in_flight = sub64 s.bytes_in_flight (length_in_sequence_space t);
        consecutive_retransmissions = 0;
        rto = s.initial_retransmission_timeout;
        tick_count = 0;
        segments_outstanding = ts;
      })
  drop_front {una} s t ts v =
      let len = length_in_sequence_space_lem t v.chain.0.fits in
      let le = Chain-le source isn ts (una + span t) s.next_seqno v.chain.1 in
      let small = next_small v in
      let pos = v.chain.0.takes in
      record {
        same_isn = v.same_isn;
        chain = v.chain.1;
        flight = omega (arith, v.flight);
        stream_valid = v.stream_valid;
        unsent = v.unsent;
        room = v.room;
        opened = v.opened;
        closed = λ z. absurd (omega (arith, (v.closed z).0));
        finished = v.finished;
      }

  pop_acked-Sending :
      (acked : ℕ) (ts : List TcpSegment) (una : ℕ) (s : TcpSender)
      → Sending source isn una (record s { segments_outstanding = ts })
      → s.next_seqno < una + 0x8000_0000
      → Sending source isn (covered acked una ts) (pop_acked acked s ts)
  unfolding pop_acked
  pop_acked-Sending acked [] una s v near = v
  pop_acked-Sending acked (t ∷ ts) una s v near =
      let here = start_of s.next_seqno v.chain.0 (omega (arith, v.flight)) (next_small v) near in
      let at : unwrap t.header.seqno s.isn s.next_seqno ≡ una =
        ap (λ k. unwrap t.header.seqno k s.next_seqno) v.same_isn ∙ here in
      let le = Chain-le source isn ts (una + span t) s.next_seqno v.chain.1 in
      let small = next_small v in
      let test =
        end_test acked _ _ una (span t) at (length_in_sequence_space_lem t v.chain.0.fits)
          v.chain.0.takes (omega (arith, le, small)) in
      elim (Bool-cases (leb (una + span t) acked)) [
        | inl e ↦
            rw (test, e)
              (pop_acked-Sending acked ts (una + span t) _ (drop_front s t ts v)
                (omega (arith, near)))
        | inr e ↦ rw (test, e) v
      ]

  stop_timer-Sending :
      {una : ℕ} (s : TcpSender) → Sending source isn una s → Sending source isn una (stop_timer s)
  unfolding stop_timer
  stop_timer-Sending s v = elim (Bool-cases (s.bytes_in_flight == 0)) [
    | inl e ↦ simp e (
        Sending-aside s.segments_out s.receiver_window_size s.consecutive_retransmissions s.rto
          s.tick_count false v)
    | inr e ↦ simp e v
  ]

  update_window-Sending :
      {una : ℕ} (s : TcpSender) (acked window : ℕ)
      → Sending source isn una s
      → Sending source isn una (update_window s acked window)
  unfolding update_window
  update_window-Sending s acked window v =
      elim (Bool-cases ((acked == s.next_seqno) && not (window == s.receiver_window_size))) [
        | inl e ↦ simp e (
            Sending-aside s.segments_out window s.consecutive_retransmissions s.rto s.tick_count
              s.timer_running v)
        | inr e ↦ simp e v
      ]

  module _ (moved_size : ℕ → ℕ) (string_size : (n : ℕ) → moved_size n + 1 < u64_mod) where
    acknowledge-Sending :
        {una : ℕ} (acked window : ℕ) (s : TcpSender) (ts : List TcpSegment)
        → window < u16_mod
        → Sending source isn una s
        → ts ≡ s.segments_outstanding
        → s.next_seqno < una + 0x8000_0000
        → s.next_seqno + u16_mod < u64_mod
        → (s' : TcpSender) × (acknowledge moved_size s acked window ts ≡ some s')
          × Sending source isn (next_una acked una s.next_seqno ts) s'
    unfolding acknowledge
    acknowledge-Sending {una} acked window s [] ws v e near room =
        (s, refl, rw (next_una-nil acked una s.next_seqno) v)
    acknowledge-Sending {una} acked window s (t ∷ ts) ws v e near room =
        let w : Sending source isn una (record s { segments_outstanding = t ∷ ts }) =
          subst (λ k. Sending source isn una (record s { segments_outstanding = k })) (sym e) v in
        let at =
          ap (λ k. unwrap t.header.seqno k s.next_seqno) v.same_isn
          ∙ start_of s.next_seqno w.chain.0 (omega (arith, v.flight)) (next_small v) near in
        let len = length_in_sequence_space_lem t w.chain.0.fits in
        let le = Chain-le source isn ts (una + span t) s.next_seqno w.chain.1 in
        elim (Bool-cases (rejects s acked window t)) [
          | inl r ↦ (
            s,
            rw r refl,
            rw (refused acked una window s t ts ws room at len (omega (arith, le, room)) r) v,
          )
          | inr r ↦
              let popped =
                pop_acked-Sending acked (t ∷ ts) una (record s { receiver_window_size = window })
                  (Sending-aside s.segments_out window s.consecutive_retransmissions s.rto
                    s.tick_count s.timer_running w)
                  near in
              let (s', f, v') =
                fill_window-Sending source isn _ hi moved_size string_size _
                  (stop_timer-Sending _ popped) in
              (s', rw r f, rw (accepted acked una window s t (t ∷ ts) r) v')
        ]

    -- An acknowledgment of the absolute number `acked`, less than 2 ^ 31 away from the next number
    -- to send, ends without an exception and keeps the accounts: the segments in flight that it
    -- covers as a whole are gone, and they only. An acknowledgment of what was never sent changes
    -- nothing that is in flight. At most 2 ^ 31 numbers are in flight, and the numbers of the
    -- connection do not come within 2 ^ 16 of 2 ^ 64.
    pub ack_received-Sending :
        {una : ℕ} (s : TcpSender) (acked window : ℕ)
        → Sending source isn una s
        → window < u16_mod
        → s.next_seqno < una + 0x8000_0000
        → s.next_seqno + u16_mod < u64_mod
        → acked < s.next_seqno + 0x8000_0000
        → s.next_seqno < acked + 0x8000_0000
        → acked < u64_mod
        → (s' : TcpSender) × (ack_received moved_size s (wrap acked isn) window ≡ some s')
          × Sending source isn (next_una acked una s.next_seqno s.segments_outstanding) s'
    unfolding ack_received
    ack_received-Sending {una} s acked window v ws near room above below small =
        let at : unwrap (wrap acked isn) s.isn s.next_seqno ≡ acked =
          ap (λ k. unwrap (wrap acked isn) k s.next_seqno) v.same_isn
          ∙ unwrap-wrap acked isn s.next_seqno small hi above below in
        let (same_next, same_out) = update_window_lem s acked window in
        let (s', e, v') =
          acknowledge-Sending acked window (update_window s acked window) _ ws
            (update_window-Sending s acked window v) refl (omega (arith, same_next, near))
            (omega (arith, same_next, room)) in
        (
          s',
          unwrapped moved_size s (wrap acked isn) acked window at ∙ e,
          subst (λ k. Sending source isn k s') (ap₂ (next_una acked una) same_next same_out) v',
        )

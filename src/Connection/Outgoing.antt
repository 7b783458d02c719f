-- ===== src/Connection/Outgoing.antt =====
-- What `send_sender_segments` does to the queues.
use mathlib.Core.Bool.{false≢true}
use tcp.Prelude.{
  ℕ, ◌%◌, ◌≡◌, refl, sym, ap, ◌∙◌, Bool, true, false, not, ◌&&◌, ◌||◌, List, [], ◌∷◌, ◌++◌, some,
  u16_mod, arith, Bool-cases, inl, inr, ◌==◌, leb, ◌*◌,
}
use tcp.ByteStream
use tcp.Segment.{TcpSegment}
use tcp.Sender.Fill.{and_right}
use tcp.Receiver
use tcp.Receiver.{TcpReceiver}
use tcp.Sender
use tcp.Sender.{TcpSender}
use tcp.Connection.{
  TcpConnection, clean_shutdown, acknowledged, with_rst, stamp, stamp_all, is_empty, prepare_rst,
  move_segments, send_sender_segments,
}

-- What is true of the two changes that `clean_shutdown` may make is true of its result.
pub clean_shutdown_cases {ℓ} :
    (P : TcpConnection → Type ℓ) (c : TcpConnection)
    → P c
    → P (record c { linger_after_streams_finish = false })
    → P (record c { active = false })
    → P (clean_shutdown c)
unfolding clean_shutdown
clean_shutdown_cases P c same lingers closes =
    elim (Bool-cases (ByteStream.input_ended (Receiver.stream_out c.receiver))) [
      | inr e ↦ simp e same
      | inl e ↦ elim (Bool-cases (not c.sender.fin)) [
        | inl f ↦ simp (e, f) lingers
        | inr f ↦
            elim (Bool-cases (
              c.sender.bytes_in_flight == 0
              && (not c.linger_after_streams_finish
                  || leb (10 * c.cfg.rt_timeout) c.time_since_last_segment_received))) [
                    | inl g ↦ simp (e, f, g) closes
                    | inr g ↦ simp (e, f, g) same
                  ]
      ]
    ]

-- A segment that carries what the receiver `r` has to say.
pub record Stamped (r : TcpReceiver) (t : TcpSegment) : Type 0 where
  pub acks : (ackno : ℕ) → Receiver.ackno r ≡ some ackno → t.header.ack ≡ true
  pub number : (ackno : ℕ) → Receiver.ackno r ≡ some ackno → t.header.ackno ≡ ackno
  pub window :
      (ackno : ℕ) → Receiver.ackno r ≡ some ackno → t.header.win ≡ Receiver.window_size r % u16_mod

abbrev pub AllStamped : TcpReceiver → List TcpSegment → Type 0
AllStamped r [] = Unit {0}
AllStamped r (t ∷ ts) = Stamped r t × AllStamped r ts

stamp-Stamped : (r : TcpReceiver) (rst : Bool) (t : TcpSegment) → Stamped r (stamp r rst t)
unfolding stamp with_rst acknowledged
stamp-Stamped r true t = record {
  acks = λ a e. rw e refl;
  number = λ a e. rw e refl;
  window = λ a e. rw e refl;
}
stamp-Stamped r false t = record {
  acks = λ a e. rw e refl;
  number = λ a e. rw e refl;
  window = λ a e. rw e refl;
}

stamp_all-AllStamped :
    (r : TcpReceiver) (rst : Bool) (ts : List TcpSegment) → AllStamped r (stamp_all r rst ts)
unfolding stamp_all
stamp_all-AllStamped r rst [] = tt
stamp_all-AllStamped r rst (t ∷ ts) = (stamp-Stamped r rst t, stamp_all-AllStamped r false ts)

-- What `send_sender_segments` makes of `c`, with `new` going out.
pub record Sent (c : TcpConnection) (new : List TcpSegment) (c' : TcpConnection) : Type 0 where
  pub queued : c'.segments_out ≡ c.segments_out ++ new
  pub stamped : AllStamped c.receiver new
  pub drained : c'.sender.segments_out ≡ []
  pub no_rst_left : c'.need_send_rst ≡ false
  pub same_receiver : c'.receiver ≡ c.receiver
  pub same_stream : c'.sender.stream ≡ c.sender.stream
  pub first_rst :
      c.need_send_rst ≡ true
      → (t : TcpSegment) × (ts : List TcpSegment) × (new ≡ t ∷ ts) × (t.header.rst ≡ true)
  pub silent : c.need_send_rst ≡ false → c.sender.segments_out ≡ [] → new ≡ []
  pub never_opens : c.active ≡ false → c'.active ≡ false

clean_shutdown-Sent :
    (c : TcpConnection) (new : List TcpSegment) (d : TcpConnection)
    → Sent c new d
    → Sent c new (clean_shutdown d)
clean_shutdown-Sent c new d s =
    clean_shutdown_cases (Sent c new) d s (again s.never_opens) (again (λ _. refl))
  where
    again :
        {linger active : Bool}
        → (c.active ≡ false → active ≡ false)
        → Sent c new (record d { linger_after_streams_finish = linger; active = active })
    again h = record {
      queued = s.queued;
      stamped = s.stamped;
      drained = s.drained;
      no_rst_left = s.no_rst_left;
      same_receiver = s.same_receiver;
      same_stream = s.same_stream;
      first_rst = s.first_rst;
      silent = s.silent;
      never_opens = h;
    }

first_of :
    (r : TcpReceiver) (rst : Bool) (q : List TcpSegment)
    → (rst && is_empty q) ≡ false
    → rst ≡ true
    → (t : TcpSegment) × (ts : List TcpSegment) × (stamp_all r rst q ≡ t ∷ ts)
      × (t.header.rst ≡ true)
unfolding stamp_all is_empty stamp with_rst
first_of r false q h e = absurd (false≢true e)
first_of r true [] h e = absurd (false≢true (sym h))
first_of r true (t ∷ ts) h e = (stamp r true t, stamp_all r false ts, refl, refl)

move_segments-Sent :
    (c : TcpConnection) (s : TcpSender)
    → (c.need_send_rst && is_empty s.segments_out) ≡ false
    → s.stream ≡ c.sender.stream
    → (c.need_send_rst ≡ false → c.sender.segments_out ≡ [] → s.segments_out ≡ [])
    → Sent c (stamp_all c.receiver c.need_send_rst s.segments_out) (move_segments c s)
unfolding move_segments stamp_all
move_segments-Sent c s h e quiet = record {
  queued = refl;
  stamped = stamp_all-AllStamped c.receiver c.need_send_rst s.segments_out;
  drained = refl;
  no_rst_left = h;
  same_receiver = refl;
  same_stream = e;
  first_rst = first_of c.receiver c.need_send_rst s.segments_out h;
  silent = λ n q. ap (stamp_all c.receiver c.need_send_rst) (quiet n q);
  never_opens = λ x. x;
}

snoc_full : (q : List TcpSegment) (t : TcpSegment) → is_empty (q ++ t ∷ []) ≡ false
unfolding is_empty
snoc_full [] t = refl
snoc_full (x ∷ q) t = refl

and_swap : (a b : Bool) → (a && b) ≡ false → (b && a) ≡ false
and_swap true b e = ground arith
and_swap false b e = ground arith

and_false : (a b : Bool) → b ≡ false → (a && b) ≡ false
and_false a b e = ground arith

-- The sender that `prepare_rst` gives has a segment for the RST that is due.
prepare_rst_cases {ℓ} :
    (P : TcpSender → Type ℓ) (c : TcpConnection)
    → ((is_empty c.sender.segments_out && c.need_send_rst) ≡ true
        → P (Sender.send_empty_segment c.sender))
    → ((is_empty c.sender.segments_out && c.need_send_rst) ≡ false → P c.sender)
    → P (prepare_rst c)
unfolding prepare_rst
prepare_rst_cases P c added same =
    elim (Bool-cases (is_empty c.sender.segments_out && c.need_send_rst)) [
      | inl e ↦ simp e (added e)
      | inr e ↦ simp e (same e)
    ]

-- `send_sender_segments` moves the queue of the sender, with the segment added for a RST, to the
-- queue of the connection, each segment with what the receiver has to say.
pub send_sender_segments-Sent :
    (c : TcpConnection) → (new : List TcpSegment) × Sent c new (send_sender_segments c)
unfolding send_sender_segments Sender.send_empty_segment
send_sender_segments-Sent c =
    prepare_rst_cases
      (λ s. (new : List TcpSegment) × Sent c new (clean_shutdown (move_segments c s))) c
      (λ e. (
        stamp_all c.receiver c.need_send_rst (Sender.send_empty_segment c.sender).segments_out,
        clean_shutdown-Sent c _ _ (
            move_segments-Sent c (Sender.send_empty_segment c.sender)
              (and_false c.need_send_rst _ (snoc_full c.sender.segments_out _)) refl
              (λ n q. absurd (false≢true (sym n ∙ and_right _ _ e)))),
      ))
      (λ e. (
        stamp_all c.receiver c.need_send_rst c.sender.segments_out,
        clean_shutdown-Sent c _ _ (
            move_segments-Sent c c.sender
              (and_swap (is_empty c.sender.segments_out) c.need_send_rst e) refl (λ n q. q)),
      ))

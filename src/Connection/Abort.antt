-- ===== src/Connection/Abort.antt =====
-- How a connection is aborted: by a RST, or after too many retransmissions.
use tcp.Prelude.{
  ℕ, ◌+◌, ◌≤◌, ◌<◌, ◌≡◌, refl, ap, ◌∙◌, Bool, true, false, not, ◌||◌, List, [], ◌∷◌, ◌++◌,
  append-nil, append_assoc, arith, some, ltb, ◌==◌, add64, u16_mod, u64_mod,
}
use tcp.ByteStream
use tcp.Segment.{TcpSegment}
use tcp.Reassembler
use tcp.Receiver
use tcp.Sender
use tcp.Sender.Timer.{tick_retries}
use tcp.Connection.{
  TcpConnection, listening, set_inbound_error, unclean_shutdown, give_up, segment_received, tick,
  max_retx_attempts,
}
use tcp.Connection.Outgoing.{Sent, send_sender_segments-Sent}

-- The connection is dead, and both of its streams are in error.
pub record Aborted (c : TcpConnection) : Type 0 where
  pub inactive : c.active ≡ false
  pub outbound : ByteStream.error c.sender.stream ≡ true
  pub inbound : ByteStream.error (Receiver.stream_out c.receiver) ≡ true

abbrev pub StartsWithRst : List TcpSegment → Type 0
StartsWithRst ts =
    (t : TcpSegment) × (rest : List TcpSegment) × (ts ≡ t ∷ rest) × (t.header.rst ≡ true)

-- A connection that is aborted on its own account sends a RST first; one that is aborted by the peer
-- sends nothing if nothing waits.
pub unclean_shutdown-Aborted :
    (c : TcpConnection) (rst : Bool)
    → (new : List TcpSegment) × Aborted (unclean_shutdown c rst)
      × ((unclean_shutdown c rst).segments_out ≡ c.segments_out ++ new)
      × ((unclean_shutdown c rst).sender.segments_out ≡ [])
      × ((unclean_shutdown c rst).need_send_rst ≡ false)
      × (rst ≡ true → StartsWithRst new)
      × (rst ≡ false → c.sender.segments_out ≡ [] → new ≡ [])
unfolding unclean_shutdown set_inbound_error ByteStream.set_error ByteStream.error
    Receiver.stream_out Reassembler.stream_out
unclean_shutdown-Aborted c rst =
    let before = record c {
      sender = record c.sender { stream = ByteStream.set_error c.sender.stream };
      receiver = set_inbound_error c.receiver;
      active = false;
      need_send_rst = rst;
    } in
    let (new, s) = send_sender_segments-Sent before in
    (
      new,
      record {
        inactive = s.never_opens refl;
        outbound = ap ByteStream.error s.same_stream;
        inbound = ap (λ r. ByteStream.error (Receiver.stream_out r)) s.same_receiver;
      },
      s.queued,
      s.drained,
      s.no_rst_left,
      s.first_rst,
      s.silent,
    )

-- A RST to an open connection that is not listening, with nothing waiting in its sender, kills it, sets both
-- streams in error and is not answered, whatever the segment holds: also where its number is outside the
-- window, or where it does not acknowledge the SYN that was sent, which tests/fsm_ack_rst.cc wants ignored.
pub segment_received-Aborted :
    (moved_size : ℕ → ℕ) (c : TcpConnection) (seg : TcpSegment)
    → c.active ≡ true
    → listening c ≡ false
    → seg.header.rst ≡ true
    → c.sender.segments_out ≡ []
    → (c' : TcpConnection) × (segment_received moved_size c seg ≡ some c')
      × Aborted c'
      × (c'.segments_out ≡ c.segments_out)
unfolding segment_received listening
segment_received-Aborted moved_size c seg a l r q =
    let c' = record c { time_since_last_segment_received = 0 } in
    let (new, dead, out, drained, fine, first, silent) = unclean_shutdown-Aborted c' false in
    (
      unclean_shutdown c' false,
      rw (a, l, r) refl,
      dead,
      out ∙ ap (λ x. c.segments_out ++ x) (silent refl q) ∙ append-nil c.segments_out,
    )

Sent-Aborted :
    {c : TcpConnection} {new : List TcpSegment} {c' : TcpConnection}
    → Sent c new c'
    → Aborted c
    → Aborted c'
Sent-Aborted s dead = record {
  inactive = s.never_opens dead.inactive;
  outbound = ap ByteStream.error s.same_stream ∙ dead.outbound;
  inbound = ap (λ r. ByteStream.error (Receiver.stream_out r)) s.same_receiver ∙ dead.inbound;
}

starts_with :
    {xs : List TcpSegment} (ys : List TcpSegment) → StartsWithRst xs → StartsWithRst (xs ++ ys)
starts_with ys (t, rest, e, r) = (t, rest ++ ys, ap (λ x. x ++ ys) e, r)

lt→ltb : (a b : ℕ) → a < b → ltb a b ≡ true
lt→ltb a b h = ground arith

-- The time runs out on an open connection whose sender has something in flight, with a window other than 0 or
-- a SYN in front, and has made all the attempts that it may, fewer than 2 ^ 16 - 1, where the clock of the
-- timer does not overflow: the connection is dead, both its streams are in error, and a RST goes out before
-- anything else that is sent then. (With a window of 0 and no SYN in front an attempt is not counted.)
pub tick-Aborted :
    (c : TcpConnection) (ms : ℕ) (t : TcpSegment) (ts : List TcpSegment)
    → c.active ≡ true
    → c.sender.segments_outstanding ≡ t ∷ ts
    → (not (c.sender.receiver_window_size == 0) || t.header.syn) ≡ true
    → c.sender.rto ≤ c.sender.tick_count + ms
    → c.sender.tick_count + ms < u64_mod
    → max_retx_attempts ≤ c.sender.consecutive_retransmissions
    → c.sender.consecutive_retransmissions + 1 < u16_mod
    → (new : List TcpSegment) × Aborted (tick c ms)
      × ((tick c ms).segments_out ≡ c.segments_out ++ new)
      × StartsWithRst new
unfolding tick give_up unclean_shutdown
tick-Aborted c ms t ts a front nonzero late room enough small =
    let d = record c {
      time_since_last_segment_received = add64 c.time_since_last_segment_received ms;
      sender = Sender.tick c.sender ms;
    } in
    let retries = tick_retries c.sender ms t ts front late room nonzero in
    let many : ltb max_retx_attempts (Sender.tick c.sender ms).consecutive_retransmissions ≡ true =
      lt→ltb 8 _ (omega (arith, retries)) in
    let (new, dead, out, drained, fine, first, silent) = unclean_shutdown-Aborted d true in
    let (more, s) = send_sender_segments-Sent (unclean_shutdown d true) in
    rw (a, many)
      (
        new ++ more,
        Sent-Aborted s dead,
        s.queued ∙ ap (λ x. x ++ more) out ∙ append_assoc c.segments_out new more,
        starts_with more (first refl),
      )

-- ===== src/Connection/Total.antt =====
-- No call of a connection throws.
use tcp.Prelude.{
  ℕ, ap, min, length, ◌-◌, ◌≡◌, refl, Bool, true, false, not, ◌&&◌, ◌||◌, List, [], ◌∷◌, Option,
  none, some, ltb, leb, add64, ◌==◌, ◌*◌, Returns, Returns-then, one_of, All, All-append, arith,
}
use tcp.Buffer
use tcp.Segment.{TcpSegment, length_in_sequence_space}
use tcp.Wrapping.{WrappingInt32}
use tcp.ByteStream
use tcp.ByteStream.{ByteStream, set_error}
use tcp.ByteStream.Invariant.{
  IsValid, contents, write-count, remaining_capacity_lem, write-IsValid, end_input-IsValid,
}
use tcp.Receiver
use tcp.Receiver.{TcpReceiver}
use tcp.Receiver.Output as Inbound
use tcp.Sender
use tcp.Sender.{TcpSender}
use tcp.Sender.Total as Outbound
use tcp.Sender.Total.{Fits}
use tcp.Connection.{
  TcpConnection, max_retx_attempts, is_empty, connect, segment_received, write, written,
  end_input_stream, tick, acked_sender, reply_if, move_segments, prepare_rst,
  remaining_outbound_capacity, send_from, exchange, handshake, accept, send_sender_segments,
  unclean_shutdown, give_up, clean_shutdown, listening, syn_sent, set_inbound_error, acknowledged,
  with_rst, stamp, stamp_all,
}

-- Both streams are, and the segments to send fit.
pub record Sound (c : TcpConnection) : Type 0 where
  pub sender_sound : Outbound.Sound c.sender
  pub receiver_sound : Inbound.Sound c.receiver
  pub queued : All Fits c.segments_out

set_error-IsValid : {s : ByteStream} → IsValid s → IsValid (set_error s)
unfolding set_error
set_error-IsValid v = record {
  small = v.small;
  bounded = v.bounded;
  read_small = v.read_small;
  counted = v.counted;
}

clean_shutdown-Sound : (c : TcpConnection) → Sound c → Sound (clean_shutdown c)
unfolding clean_shutdown
clean_shutdown-Sound c v =
    let kept : (linger active : Bool)
        → Sound (record c { linger_after_streams_finish = linger; active = active }) =
      λ linger active. record {
        sender_sound = v.sender_sound;
        receiver_sound = v.receiver_sound;
        queued = v.queued;
      } in
    one_of Sound (ByteStream.input_ended (Receiver.stream_out c.receiver)) _ c
      (one_of Sound (not c.sender.fin) _ _ (kept false c.active) (
        one_of Sound
          ((c.sender.bytes_in_flight == 0)
            && (not c.linger_after_streams_finish
                || leb (10 * c.cfg.rt_timeout) c.time_since_last_segment_received))
          _ c (kept c.linger_after_streams_finish false) v))
      v

prepare_rst-Sound : (c : TcpConnection) → Sound c → Outbound.Sound (prepare_rst c)
unfolding prepare_rst
prepare_rst-Sound c v =
    one_of Outbound.Sound (is_empty c.sender.segments_out && c.need_send_rst) _ _
      (Outbound.send_empty_segment-Sound c.sender v.sender_sound) v.sender_sound

acknowledged-Fits :
    (ackno : Option WrappingInt32) (window : ℕ) (seg : TcpSegment)
    → Fits seg
    → Fits (acknowledged ackno window seg)
unfolding acknowledged
acknowledged-Fits none window seg h = h
acknowledged-Fits (some ackno) window seg h = record {
  least = h.least;
  most = h.most;
  short = h.short;
}

stamp-Fits : (r : TcpReceiver) (rst : Bool) (seg : TcpSegment) → Fits seg → Fits (stamp r rst seg)
unfolding stamp with_rst
stamp-Fits r rst seg h =
    let k = acknowledged-Fits (Receiver.ackno r) (Receiver.window_size r) seg h in
    one_of Fits rst _ _ (record { least = k.least; most = k.most; short = k.short }) k

stamp_all-Fits :
    (r : TcpReceiver) (rst : Bool) (segs : List TcpSegment)
    → All Fits segs
    → All Fits (stamp_all r rst segs)
unfolding stamp_all
stamp_all-Fits r rst [] h = tt
stamp_all-Fits r rst (seg ∷ segs) (h, hs) = (stamp-Fits r rst seg h, stamp_all-Fits r false segs hs)

send_sender_segments-Sound : (c : TcpConnection) → Sound c → Sound (send_sender_segments c)
unfolding send_sender_segments move_segments
send_sender_segments-Sound c v = clean_shutdown-Sound (move_segments c (prepare_rst c)) (record {
  sender_sound = record { stream_valid = ready.stream_valid; queued = tt; flying = ready.flying };
  receiver_sound = v.receiver_sound;
  queued =
      All-append Fits c.segments_out _ v.queued
        (stamp_all-Fits c.receiver c.need_send_rst _ ready.queued);
})
  where
    ready : Outbound.Sound (prepare_rst c)
    ready = prepare_rst-Sound c v

inbound_error-Sound : (r : TcpReceiver) → Inbound.Sound r → Inbound.Sound (set_inbound_error r)
unfolding set_inbound_error
inbound_error-Sound r v = record { stream_valid = set_error-IsValid v.stream_valid }

unclean_shutdown-Sound : (c : TcpConnection) (rst : Bool) → Sound c → Sound (unclean_shutdown c rst)
unfolding unclean_shutdown
unclean_shutdown-Sound c rst v = send_sender_segments-Sound _ (record {
  sender_sound = record {
    stream_valid = set_error-IsValid v.sender_sound.stream_valid;
    queued = v.sender_sound.queued;
    flying = v.sender_sound.flying;
  };
  receiver_sound = inbound_error-Sound c.receiver v.receiver_sound;
  queued = v.queued;
})

send_from-Sound :
    (c : TcpConnection) (o : Option TcpSender)
    → Sound c
    → Returns Outbound.Sound o
    → Returns Sound (send_from c o)
unfolding send_from
send_from-Sound c o v h = Returns-then o (send_from c) h (λ s sound. (
  _,
  refl,
  send_sender_segments-Sound (record c { sender = s })
      (record { sender_sound = sound; receiver_sound = v.receiver_sound; queued = v.queued }),
))

reply_if-Sound : (b : Bool) (s : TcpSender) → Outbound.Sound s → Outbound.Sound (reply_if b s)
unfolding reply_if
reply_if-Sound b s v =
    one_of Outbound.Sound (b && is_empty s.segments_out) _ s (Outbound.send_empty_segment-Sound s v)
      v

module _ (moved_size : ℕ → ℕ) where
  -- Both streams stay streams, and the call returns.
  pub connect-Sound : (c : TcpConnection) → Sound c → Returns Sound (connect moved_size c)
  unfolding connect
  connect-Sound c v =
      send_from-Sound c _ v (Outbound.fill_window-Sound moved_size c.sender v.sender_sound)

  received :
      (c : TcpConnection) (seg : TcpSegment)
      → Sound c
      → Sound (record c { receiver = Receiver.segment_received c.receiver seg })
  received c seg v = record {
    sender_sound = v.sender_sound;
    receiver_sound = Inbound.segment_received-Sound c.receiver seg v.receiver_sound;
    queued = v.queued;
  }

  exchange-Sound :
      (c : TcpConnection) (seg : TcpSegment) → Sound c → Returns Sound (exchange moved_size c seg)
  unfolding exchange acked_sender
  exchange-Sound c seg v =
      one_of (Returns Sound) seg.header.ack _ _
        (send_from-Sound _ _ (received c seg v) (
          Returns-then _ (acked_sender (ltb 0 (length_in_sequence_space seg)))
            (Outbound.ack_received-Sound moved_size c.sender seg.header.ackno seg.header.win
              v.sender_sound)
            (λ s sound. (_, refl, reply_if-Sound _ s sound))))
        (_, refl, received c seg v)

  handshake-Sound :
      (c : TcpConnection) (seg : TcpSegment) → Sound c → Returns Sound (handshake moved_size c seg)
  unfolding handshake
  handshake-Sound c seg v =
      one_of (Returns Sound) (ltb 0 (Buffer.buffer_size seg.payload)) _ _ (c, refl, v)
        (one_of (Returns Sound) seg.header.ack _ _ (exchange-Sound c seg v) (
          one_of (Returns Sound) seg.header.syn _ _
            (
              _,
              refl,
              send_sender_segments-Sound _ (record {
                sender_sound = Outbound.send_empty_segment-Sound c.sender v.sender_sound;
                receiver_sound = (received c seg v).receiver_sound;
                queued = v.queued;
              }),
            )
            (c, refl, v)))

  accept-Sound :
      (c : TcpConnection) (seg : TcpSegment) → Sound c → Returns Sound (accept moved_size c seg)
  unfolding accept
  accept-Sound c seg v =
      one_of (Returns Sound) seg.header.rst _ _ (c, refl, v)
        (one_of (Returns Sound) (not seg.header.syn) _ _ (c, refl, v)
          (connect-Sound _ (received c seg v)))

  pub segment_received-Sound :
      (c : TcpConnection) (seg : TcpSegment)
      → Sound c
      → Returns Sound (segment_received moved_size c seg)
  unfolding segment_received
  segment_received-Sound c seg v =
      let d = record c { time_since_last_segment_received = 0 } in
      let w : Sound d = record {
        sender_sound = v.sender_sound;
        receiver_sound = v.receiver_sound;
        queued = v.queued;
      } in
      one_of (Returns Sound) (not c.active) _ _ (c, refl, v)
        (one_of (Returns Sound) (listening d) _ _ (accept-Sound d seg w) (
          one_of (Returns Sound) seg.header.rst _ _ (_, refl, unclean_shutdown-Sound d false w)
            (one_of (Returns Sound) (syn_sent d) _ _ (handshake-Sound d seg w)
              (exchange-Sound d seg w))))

  -- `write`: beside that, it accepts what there is room for.
  pub write-Sound :
      (c : TcpConnection) (bytes : List ℕ)
      → Sound c
      → (c' : TcpConnection) × (write moved_size c bytes
          ≡ some (min (length bytes) (remaining_outbound_capacity c), c'))
        × Sound c'
  unfolding write written remaining_outbound_capacity
  write-Sound c [] v = (c, ap (λ n. some (n, c)) (omega arith), v)
  write-Sound c (b ∷ bs) v =
      let (n, stream) = ByteStream.write c.sender.stream (b ∷ bs) in
      let (c', e, w) =
        connect-Sound (record c { sender = record c.sender { stream = stream } })
          (record {
            sender_sound = record {
              stream_valid = write-IsValid v.sender_sound.stream_valid (b ∷ bs);
              queued = v.sender_sound.queued;
              flying = v.sender_sound.flying;
            };
            receiver_sound = v.receiver_sound;
            queued = v.queued;
          }) in
      (c', rw e (ap (λ k. some (k, c')) (accepted (b ∷ bs))), w)
    where
      room :
          ByteStream.remaining_capacity c.sender.stream
          ≡ c.sender.stream.capacity - length (contents c.sender.stream)
      room = remaining_capacity_lem v.sender_sound.stream_valid

      accepted :
          (xs : List ℕ)
          → (ByteStream.write c.sender.stream xs).0
            ≡ min (length xs) (ByteStream.remaining_capacity c.sender.stream)
      accepted xs = omega (arith, write-count v.sender_sound.stream_valid xs, room)

  pub end_input_stream-Sound :
      (c : TcpConnection) → Sound c → Returns Sound (end_input_stream moved_size c)
  unfolding end_input_stream
  end_input_stream-Sound c v = connect-Sound _ (record {
    sender_sound = record {
      stream_valid = end_input-IsValid v.sender_sound.stream_valid;
      queued = v.sender_sound.queued;
      flying = v.sender_sound.flying;
    };
    receiver_sound = v.receiver_sound;
    queued = v.queued;
  })

  pub tick-Sound : (c : TcpConnection) (ms : ℕ) → Sound c → Sound (tick c ms)
  unfolding tick give_up
  tick-Sound c ms v =
      let d = record c {
        time_since_last_segment_received = add64 c.time_since_last_segment_received ms;
        sender = Sender.tick c.sender ms;
      } in
      let w : Sound d = record {
        sender_sound = Outbound.tick-Sound c.sender ms v.sender_sound;
        receiver_sound = v.receiver_sound;
        queued = v.queued;
      } in
      one_of Sound (not c.active) c _ v (
        send_sender_segments-Sound (give_up d) (
          one_of Sound (ltb max_retx_attempts d.sender.consecutive_retransmissions) _ d
            (unclean_shutdown-Sound d true w) w))

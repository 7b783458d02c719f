-- ===== src/Sender/Total.antt =====
-- No call of a sender throws, whatever is acknowledged.
use tcp.Prelude.{
  ℕ, zero, suc, ◌≤◌, ◌<◌, ◌≡◌, refl, sym, subst, true, not, ◌&&◌, min, List, [], ◌∷◌, if◌then◌else◌,
  ltb, leb, add64, sub64, ◌==◌, length, Returns, Returns-then, one_of, length-take, All, All-append,
  arith,
}
use tcp.Buffer.{str, of_string}
use tcp.ByteStream
use tcp.ByteStream.{ByteStream}
use tcp.ByteStream.Invariant.{IsValid, contents, read_lem}
use tcp.Segment.{TcpSegment, TcpHeader, default_segment, length_in_sequence_space}
use tcp.Wrapping.{wrap, unwrap, WrappingInt32}
use tcp.Sender.{
  TcpSender, start_timer, emit, send_syn, send_fin, send_empty_segment, send_data, fill_loop,
  finish_fill, fill_window, pop_acked, stop_timer, update_window, acknowledge, ack_received,
  retransmit, max_payload_size, tick, remaining, rejects, fin_segment, data_segment, syn_segment,
}

-- A segment that goes in one datagram: its header has room for its fields, and its payload is no longer than
-- MAX_PAYLOAD_SIZE.
pub record Fits (s : TcpSegment) : Type 0 where
  pub least : 5 ≤ s.header.doff
  pub most : s.header.doff < 16
  pub short : length (str s.payload) ≤ max_payload_size

-- The stream is one, and the segments fit.
pub record Sound (s : TcpSender) : Type 0 where
  pub stream_valid : IsValid s.stream
  pub queued : All Fits s.segments_out
  pub flying : All Fits s.segments_outstanding

-- A sender with the same stream and the same segments.
kept :
    {s t : TcpSender}
    → t.stream ≡ s.stream
    → t.segments_out ≡ s.segments_out
    → t.segments_outstanding ≡ s.segments_outstanding
    → Sound s
    → Sound t
kept {s} {t} e f g v = record {
  stream_valid = subst IsValid (sym e) v.stream_valid;
  queued = subst (All Fits) (sym f) v.queued;
  flying = subst (All Fits) (sym g) v.flying;
}

-- A segment with only a header.
bare-Fits : (h : TcpHeader) → h.doff ≡ 5 → Fits (record default_segment { header = h })
unfolding str
bare-Fits h e = record { least = omega (arith, e); most = omega (arith, e); short = omega arith }

emit-Sound :
    (s : TcpSender) (seg : TcpSegment) (next : ℕ) → Fits seg → Sound s → Sound (emit s seg next)
unfolding emit start_timer
emit-Sound s seg next h v =
    let queued = All-append Fits s.segments_out (seg ∷ []) v.queued (h, tt) in
    let flying = All-append Fits s.segments_outstanding (seg ∷ []) v.flying (h, tt) in
    one_of Sound s.timer_running _ _
      (record { stream_valid = v.stream_valid; queued = queued; flying = flying })
      (record { stream_valid = v.stream_valid; queued = queued; flying = flying })

send_fin-Sound : (s : TcpSender) (remain : ℕ) → Sound s → Sound (send_fin s remain)
unfolding send_fin fin_segment
send_fin-Sound s remain v =
    one_of Sound (not s.fin && ByteStream.eof s.stream && not (remain == 0)) _ _
      (emit-Sound (record s { fin = true }) (fin_segment (wrap s.next_seqno s.isn))
        (add64 s.next_seqno 1) (bare-Fits _ refl) (kept refl refl refl v))
      v

pop_acked-Sound :
    (acked : ℕ) (ts : List TcpSegment) (s : TcpSender)
    → All Fits ts
    → Sound s
    → Sound (pop_acked acked s ts)
unfolding pop_acked
pop_acked-Sound acked [] s h v = record {
  stream_valid = v.stream_valid;
  queued = v.queued;
  flying = tt;
}
pop_acked-Sound acked (t ∷ ts) s h v =
    one_of Sound
      (ltb (sub64 (add64 (unwrap t.header.seqno s.isn s.next_seqno) (length_in_sequence_space t)) 1)
        acked)
      _ _ (pop_acked-Sound acked ts _ h.1 (kept refl refl refl v))
      (record { stream_valid = v.stream_valid; queued = v.queued; flying = h })

stop_timer-Sound : (s : TcpSender) → Sound s → Sound (stop_timer s)
unfolding stop_timer
stop_timer-Sound s v = one_of Sound (s.bytes_in_flight == 0) _ _ (kept refl refl refl v) v

update_window-Sound :
    (s : TcpSender) (acked window : ℕ) → Sound s → Sound (update_window s acked window)
unfolding update_window
update_window-Sound s acked window v =
    one_of Sound ((acked == s.next_seqno) && not (window == s.receiver_window_size)) _ _
      (kept refl refl refl v) v

retransmit-Sound :
    (s : TcpSender) (ts : List TcpSegment) → All Fits ts → Sound s → Sound (retransmit s ts)
unfolding retransmit
retransmit-Sound s [] h v = v
retransmit-Sound s (t ∷ ts) (h, hs) v = record {
  stream_valid = v.stream_valid;
  queued = All-append Fits s.segments_out (t ∷ []) v.queued (h, tt);
  flying = v.flying;
}

pub send_empty_segment-Sound : (s : TcpSender) → Sound s → Sound (send_empty_segment s)
unfolding send_empty_segment
send_empty_segment-Sound s v = record {
  stream_valid = v.stream_valid;
  queued = All-append Fits s.segments_out _ v.queued (bare-Fits _ refl, tt);
  flying = v.flying;
}

pub tick-Sound : (s : TcpSender) (ms : ℕ) → Sound s → Sound (tick s ms)
unfolding tick
tick-Sound s ms v =
    one_of Sound (leb s.rto (add64 s.tick_count ms)) _ _
      (retransmit-Sound _ s.segments_outstanding v.flying (kept refl refl refl v))
      (kept refl refl refl v)

module _ (moved_size : ℕ → ℕ) where
  send_data-Sound :
      (s : TcpSender) (remain : ℕ) (payload : List ℕ) (t : ByteStream)
      → IsValid t
      → length payload ≤ max_payload_size
      → Sound s
      → Sound (send_data moved_size s remain payload t)
  unfolding send_data data_segment str of_string
  send_data-Sound s remain payload t v short w =
      let fin_now = ByteStream.eof t && leb (add64 (moved_size (length payload)) 1) remain in
      let next = add64 (unwrap (wrap s.next_seqno s.isn) s.isn s.next_seqno) (length payload) in
      emit-Sound (record s { stream = t; fin = if fin_now then true else s.fin })
        (data_segment (wrap s.next_seqno s.isn) payload fin_now)
        (if fin_now then add64 next 1 else next)
        (record { least = omega arith; most = omega arith; short = short })
        (record { stream_valid = v; queued = w.queued; flying = w.flying })

  fill_loop-Sound :
      (fuel : ℕ) (s : TcpSender) (remain : ℕ)
      → Sound s
      → Returns (λ p. Sound p.0) (fill_loop moved_size fuel s remain)
  unfolding fill_loop
  fill_loop-Sound zero s remain v = ((s, remain), refl, v)
  fill_loop-Sound (suc fuel) s remain v =
      let (t, e, c, valid, cap, end, written, counted) =
        read_lem v.stream_valid (min remain max_payload_size) in
      one_of (Returns (λ p. Sound p.0)) (ltb 0 remain && ltb 0 (ByteStream.buffer_size s.stream)) _
        _
        (rw e (
          fill_loop-Sound fuel _ _ (
            send_data-Sound s _ _ t valid
              (omega (arith, length-take (min remain max_payload_size) (contents s.stream))) v)))
        ((s, remain), refl, v)

  pub fill_window-Sound : (s : TcpSender) → Sound s → Returns Sound (fill_window moved_size s)
  unfolding fill_window send_syn syn_segment
  fill_window-Sound s v =
      one_of (Returns Sound) (not s.syn) _ _
        (
          _,
          refl,
          emit-Sound (record s { bytes_in_flight = 0; syn = true }) (syn_segment s.isn) 1
              (bare-Fits _ refl) (kept refl refl refl v),
        )
        (Returns-then (fill_loop moved_size (ByteStream.buffer_size s.stream) s (remaining s))
          (finish_fill moved_size) (fill_loop-Sound _ s (remaining s) v)
          (λ (s', r) v'. (_, refl, send_fin-Sound s' r v')))

  acknowledge-Sound :
      (s : TcpSender) (acked window : ℕ) (ts : List TcpSegment)
      → All Fits ts
      → Sound s
      → Returns Sound (acknowledge moved_size s acked window ts)
  unfolding acknowledge
  acknowledge-Sound s acked window [] h v = (s, refl, v)
  acknowledge-Sound s acked window (t ∷ ts) h v =
      one_of (Returns Sound) (rejects s acked window t) _ _ (s, refl, v)
        (fill_window-Sound _
          (stop_timer-Sound _ (pop_acked-Sound acked (t ∷ ts) _ h (kept refl refl refl v))))

  -- `ack_received` returns whatever number and window it is given.
  pub ack_received-Sound :
      (s : TcpSender) (ackno : WrappingInt32) (window : ℕ)
      → Sound s
      → Returns Sound (ack_received moved_size s ackno window)
  unfolding ack_received
  ack_received-Sound s ackno window v =
      let w = update_window-Sound s _ window v in acknowledge-Sound _ _ window _ w.flying w

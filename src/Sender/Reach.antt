-- ===== src/Sender/Reach.antt =====
-- Every state that a sender comes to, whatever its user, the peer and the clock do.
use mathlib.Core.Bool.{false≢true}
use mathlib.Core.Option.{some-injective}
use tcp.Prelude.{
  ℕ, suc, ◌+◌, ◌-◌, ◌<◌, ◌≡◌, refl, sym, ap, ◌∙◌, subst, true, false, List, [], ◌∷◌, ◌++◌, arith,
  length, take, length-append, length-take, u16_mod, u32_mod, u64_mod, some,
}
use tcp.Buffer.{concatenate}
use tcp.ByteStream
use tcp.ByteStream.{ByteStream}
use tcp.ByteStream.Invariant.{
  contents, contents-write, write-IsValid, end_input-IsValid, read_count-write, init-IsValid,
  IsValid,
}
use tcp.Reassembler.Source.{Agrees}
use tcp.Wrapping.{wrap}
use tcp.Sender.{TcpSender, init, fill_window, ack_received, tick}
use tcp.Sender.Flight.{Sending}
use tcp.Sender.Window.{fill_window-Sending}
use tcp.Sender.Ack.{next_una, ack_received-Sending}
use tcp.Sender.Timer.{tick-Sending}

Agrees-append :
    (source : ℕ → ℕ) (a : ℕ) (xs ys : List ℕ)
    → Agrees source a xs
    → Agrees source (a + length xs) ys
    → Agrees source a (xs ++ ys)
Agrees-append source a [] ys h k =
    let z : a + length {A = ℕ} [] ≡ a = omega arith in subst (λ i. Agrees source i ys) z k
Agrees-append source a (x ∷ xs) ys h k =
    let z : a + length (x ∷ xs) ≡ suc a + length xs = omega arith in
    (h.0, Agrees-append source (suc a) xs ys h.1 (subst (λ i. Agrees source i ys) z k))

module _ {source : ℕ → ℕ} {isn : ℕ} where
  pub init-Sending :
      (capacity timeout : ℕ)
      → capacity + 2 < u64_mod
      → Sending source isn 0 (init capacity timeout isn)
  unfolding init ByteStream.init concatenate
  init-Sending capacity timeout h = record {
    same_isn = refl;
    chain = refl;
    flight = refl;
    stream_valid = init-IsValid capacity (omega arith);
    unsent = tt;
    room = omega arith;
    opened = λ e. absurd (false≢true e);
    closed = λ _. (refl, refl, refl, refl);
    finished = λ e. absurd (false≢true e);
  }

  -- A change of the stream that keeps its position and the source's bytes.
  with_stream :
      {una : ℕ} (s : TcpSender) (t : ByteStream)
      → Sending source isn una s
      → t.read_count ≡ s.stream.read_count
      → IsValid t
      → Agrees source s.stream.read_count (contents t)
      → s.stream.read_count + length (contents t) + 2 < u64_mod
      → (s.fin ≡ true → (contents t ≡ []) × (t.input_ended_flag ≡ true))
      → Sending source isn una (record s { stream = t })
  with_stream s t v at valid unsent room finished = record {
    same_isn = v.same_isn;
    chain = v.chain;
    flight = v.flight;
    stream_valid = valid;
    unsent = subst (λ k. Agrees source k (contents t)) (sym at) unsent;
    room = omega (arith, at, room);
    opened = λ e. omega (arith, at, v.opened e);
    closed = λ e. let (a, b, c, d) = v.closed e in (a, b, at ∙ c, d);
    finished = finished;
  }

  -- The bytes that the user writes come next in the stream.
  pub write-Sending :
      {una : ℕ} (s : TcpSender) (bytes : List ℕ)
      → Sending source isn una s
      → s.stream.input_ended_flag ≡ false
      → Agrees source
          (s.stream.read_count + length (contents s.stream))
          (take (s.stream.capacity - length (contents s.stream)) bytes)
      → s.stream.read_count + s.stream.capacity + 2 < u64_mod
      → Sending source isn una (record s { stream = (ByteStream.write s.stream bytes).1 })
  write-Sending s bytes v open_still more room =
      let accepted = take (s.stream.capacity - length (contents s.stream)) bytes in
      let all = contents-write v.stream_valid bytes in
      let fits = length-take (s.stream.capacity - length (contents s.stream)) bytes in
      with_stream s (ByteStream.write s.stream bytes).1 v (read_count-write s.stream bytes)
        (write-IsValid v.stream_valid bytes)
        (rw all
          (Agrees-append source s.stream.read_count (contents s.stream) accepted v.unsent more))
        (omega (
          arith,
          ap length all,
          length-append (contents s.stream) accepted,
          fits,
          room,
          v.stream_valid.bounded,
        ))
        (λ e. absurd (false≢true (sym open_still ∙ (v.finished e).1)))

  pub end_input-Sending :
      {una : ℕ} (s : TcpSender)
      → Sending source isn una s
      → Sending source isn una (record s { stream = ByteStream.end_input s.stream })
  unfolding ByteStream.end_input
  end_input-Sending s v =
      with_stream s (ByteStream.end_input s.stream) v refl (end_input-IsValid v.stream_valid)
        v.unsent v.room (λ e. ((v.finished e).0, refl))

-- `Reach … una s`: the sender can come to state `s`, with `una` its oldest unacknowledged number.
-- The user writes the bytes of `source` in order, and none after the end; an acknowledgment has any
-- number within 2 ^ 31 of the next one to send.
pub data Reach (source : ℕ → ℕ) (moved_size : ℕ → ℕ) (isn capacity timeout : ℕ)
    : ℕ → TcpSender → Type 0 where
  start : Reach source moved_size isn capacity timeout 0 (init capacity timeout isn)
  write :
      {una : ℕ} {s : TcpSender} (bytes : List ℕ)
      → Reach source moved_size isn capacity timeout una s
      → s.stream.input_ended_flag ≡ false
      → Agrees source
          (s.stream.read_count + length (contents s.stream))
          (take (s.stream.capacity - length (contents s.stream)) bytes)
      → s.stream.read_count + s.stream.capacity + 2 < u64_mod
      → Reach source moved_size isn capacity timeout una
          (record s { stream = (ByteStream.write s.stream bytes).1 })
  end_input :
      {una : ℕ} {s : TcpSender}
      → Reach source moved_size isn capacity timeout una s
      → Reach source moved_size isn capacity timeout una
          (record s { stream = ByteStream.end_input s.stream })
  fill :
      {una : ℕ} {s s' : TcpSender}
      → Reach source moved_size isn capacity timeout una s
      → fill_window moved_size s ≡ some s'
      → Reach source moved_size isn capacity timeout una s'
  acknowledge :
      {una : ℕ} {s s' : TcpSender} (acked window : ℕ)
      → Reach source moved_size isn capacity timeout una s
      → window < u16_mod
      → s.next_seqno < una + 0x8000_0000
      → s.next_seqno + u16_mod < u64_mod
      → acked < s.next_seqno + 0x8000_0000
      → s.next_seqno < acked + 0x8000_0000
      → acked < u64_mod
      → ack_received moved_size s (wrap acked isn) window ≡ some s'
      → Reach source moved_size isn capacity timeout
          (next_una acked una s.next_seqno s.segments_outstanding)
          s'
  pass :
      {una : ℕ} {s : TcpSender} (ms : ℕ)
      → Reach source moved_size isn capacity timeout una s
      → Reach source moved_size isn capacity timeout una (tick s ms)

module _ {source : ℕ → ℕ} {moved_size : ℕ → ℕ} {isn capacity timeout : ℕ} (hi : isn < u32_mod)
    (hc : capacity + 2 < u64_mod) (string_size : (n : ℕ) → moved_size n + 1 < u64_mod) where
  -- In every state that a sender can come to, whose user writes the bytes of the stream in order and none
  -- after its end, whose clock does what it will, and which is sent windows of 16 bits with acknowledgments
  -- less than 2 ^ 31 away from the next number to send, at times when less than 2 ^ 31 numbers are in flight,
  -- all numbers and sizes of strings staying below 2 ^ 64: the segments in flight follow one another without a
  -- gap from the oldest unacknowledged number to the next one to send, each with the bytes of the user for its
  -- numbers, and the count of bytes in flight is right.
  pub Reach-Sending :
      {una : ℕ} {s : TcpSender}
      → Reach source moved_size isn capacity timeout una s
      → Sending source isn una s
  Reach-Sending start = init-Sending capacity timeout hc
  Reach-Sending (write bytes q o more room) = write-Sending _ bytes (Reach-Sending q) o more room
  Reach-Sending (end_input q) = end_input-Sending _ (Reach-Sending q)
  Reach-Sending (fill {una} q e) =
      let (s', f, v) =
        fill_window-Sending source isn una hi moved_size string_size _ (Reach-Sending q) in
      subst (Sending source isn una) (some-injective _ _ (sym f ∙ e)) v
  Reach-Sending (acknowledge {una} {s} acked window q ws near room above below small e) =
      let (s', f, v) =
        ack_received-Sending hi moved_size string_size s acked window (Reach-Sending q) ws near room
          above below small in
      subst (Sending source isn (next_una acked una s.next_seqno s.segments_outstanding))
        (some-injective _ _ (sym f ∙ e)) v
  Reach-Sending (pass ms q) = tick-Sending _ ms (Reach-Sending q)

-- ===== src/Connection/Life.antt =====
-- The life of a connection: what every operation keeps.
use mathlib.Core.Option.{some-injective, none-ne-some}
use tcp.Prelude.{
  ℕ, ◌≡◌, refl, ap, subst, Bool, true, false, not, List, [], ◌∷◌, Option, none, some, if◌then◌else◌,
  ltb, add64, one_of,
}
use tcp.Buffer
use tcp.Segment.{TcpSegment}
use tcp.Wrapping.{WrappingInt32}
use tcp.Receiver
use tcp.Receiver.{TcpReceiver}
use tcp.Sender
use tcp.Sender.{TcpSender}
use tcp.Connection.{
  TcpConfig, TcpConnection, init, connect, segment_received, write, written, end_input_stream, tick,
  destroy, send_from, exchange, handshake, accept, send_sender_segments, unclean_shutdown, give_up,
  listening, syn_sent,
}
use tcp.Connection.Outgoing.{send_sender_segments-Sent}
use tcp.Connection.Abort.{unclean_shutdown-Aborted}

-- Nothing waits in the sender and no RST is due.
pub record Rest (c : TcpConnection) : Type 0 where
  pub drained : c.sender.segments_out ≡ []
  pub no_rst : c.need_send_rst ≡ false

-- `c'` is at rest, and not open again if `c` is closed.
abbrev pub Follows : TcpConnection → TcpConnection → Type 0
Follows c c' = Rest c' × (c.active ≡ false → c'.active ≡ false)

sent-Follows : (c : TcpConnection) → Follows c (send_sender_segments c)
sent-Follows c =
    let (new, s) = send_sender_segments-Sent c in
    (record { drained = s.drained; no_rst = s.no_rst_left }, s.never_opens)

unclean-Follows : (c : TcpConnection) (rst : Bool) → Follows c (unclean_shutdown c rst)
unclean-Follows c rst =
    let (new, dead, out, drained, fine, first, silent) = unclean_shutdown-Aborted c rst in
    (record { drained = drained; no_rst = fine }, λ _. dead.inactive)

send_from-Follows :
    (c : TcpConnection) (os : Option TcpSender) (c' : TcpConnection)
    → send_from c os ≡ some c'
    → Follows c c'
unfolding send_from
send_from-Follows c none c' e = absurd (none-ne-some _ e)
send_from-Follows c (some s) c' e =
    subst (Follows c) (some-injective _ _ e) (sent-Follows (record c { sender = s }))

-- A result of a test is the result of one of its branches.
either {ℓ m} :
    {A : Type ℓ} {P : Type m} (b : Bool) (x y z : A)
    → (if b then x else y) ≡ z
    → (x ≡ z → P)
    → (y ≡ z → P)
    → P
either true x y z e f g = f e
either false x y z e f g = g e

returned : (c d c' : TcpConnection) → Follows c d → some d ≡ some c' → Follows c c'
returned c d c' f e = subst (Follows c) (some-injective _ _ e) f

module _ (moved_size : ℕ → ℕ) where
  connect-Follows : (c c' : TcpConnection) → connect moved_size c ≡ some c' → Follows c c'
  unfolding connect
  connect-Follows c c' e = send_from-Follows c _ c' e

  exchange-Follows :
      (c : TcpConnection) (seg : TcpSegment) (c' : TcpConnection)
      → Rest c
      → exchange moved_size c seg ≡ some c'
      → Follows c c'
  unfolding exchange
  exchange-Follows c seg c' r e =
      let d = record c { receiver = Receiver.segment_received c.receiver seg } in
      either seg.header.ack _ _ (some c') e (λ x. send_from-Follows d _ c' x)
        (λ x. returned c d c' (record { drained = r.drained; no_rst = r.no_rst }, λ a. a) x)

  handshake-Follows :
      (c : TcpConnection) (seg : TcpSegment) (c' : TcpConnection)
      → Rest c
      → handshake moved_size c seg ≡ some c'
      → Follows c c'
  unfolding handshake
  handshake-Follows c seg c' r e =
      either (ltb 0 (Buffer.buffer_size seg.payload)) _ _ (some c') e (returned c c c' (r, λ a. a))
        (λ e1. either seg.header.ack _ _ (some c') e1 (exchange-Follows c seg c' r) (λ e2.
          either seg.header.syn _ _ (some c') e2 (returned c _ c' (sent-Follows _))
            (returned c c c' (r, λ a. a))))

  accept-Follows :
      (c : TcpConnection) (seg : TcpSegment) (c' : TcpConnection)
      → Rest c
      → accept moved_size c seg ≡ some c'
      → Follows c c'
  unfolding accept
  accept-Follows c seg c' r e =
      either seg.header.rst _ _ (some c') e (returned c c c' (r, λ a. a)) (λ e1.
        either (not seg.header.syn) _ _ (some c') e1 (returned c c c' (r, λ a. a))
          (connect-Follows _ c'))

  segment_received-Follows :
      (c : TcpConnection) (seg : TcpSegment) (c' : TcpConnection)
      → Rest c
      → segment_received moved_size c seg ≡ some c'
      → Follows c c'
  unfolding segment_received
  segment_received-Follows c seg c' r e =
      let d = record c { time_since_last_segment_received = 0 } in
      let r' : Rest d = record { drained = r.drained; no_rst = r.no_rst } in
      either (not c.active) _ _ (some c') e (returned c c c' (r, λ a. a)) (λ e1.
        either (listening d) _ _ (some c') e1 (accept-Follows d seg c' r') (λ e2.
          either seg.header.rst _ _ (some c') e2 (returned c _ c' (unclean-Follows d false)) (λ e3.
            either (syn_sent d) _ _ (some c') e3 (handshake-Follows d seg c' r')
              (exchange-Follows d seg c' r'))))

  write-Follows :
      (c : TcpConnection) (bytes : List ℕ) (n : ℕ) (c' : TcpConnection)
      → Rest c
      → write moved_size c bytes ≡ some (n, c')
      → Follows c c'
  unfolding write written
  write-Follows c [] n c' r e = subst (Follows c) (ap (λ p. p.1) (some-injective _ _ e)) (r, λ a. a)
  write-Follows c (b ∷ bs) n c' r e = after _ c _ (connect-Follows _) e
    where
      after :
          (k : ℕ) (d : TcpConnection) (o : Option TcpConnection)
          → ((x : TcpConnection) → o ≡ some x → Follows d x)
          → written moved_size d k o ≡ some (n, c')
          → Follows d c'
      after k d none f e = absurd (none-ne-some _ e)
      after k d (some x) f e = f c' (ap some (ap (λ p. p.1) (some-injective _ _ e)))

  pub tick-Follows : (c : TcpConnection) (ms : ℕ) → Rest c → Follows c (tick c ms)
  unfolding tick give_up
  tick-Follows c ms r =
      let d = record c {
        time_since_last_segment_received = add64 c.time_since_last_segment_received ms;
        sender = Sender.tick c.sender ms;
      } in
      one_of (Follows c) (not c.active) c _ (r, λ a. a)
        (
          (sent-Follows (give_up d)).0,
          λ a. (sent-Follows (give_up d)).1 (
              one_of (λ x. x.active ≡ false) (ltb 8 d.sender.consecutive_retransmissions)
                (unclean_shutdown d true) d ((unclean-Follows d true).1 a) a),
        )

  destroy-Follows : (c : TcpConnection) → Rest c → Follows c (destroy c)
  unfolding destroy
  destroy-Follows c r =
      one_of (Follows c) c.active (unclean_shutdown c true) c (unclean-Follows c true) (r, λ a. a)

-- A step of a connection: a call of one of its operations, or its owner takes what is to be sent or
-- reads from the inbound stream.
pub data Step (moved_size : ℕ → ℕ) (c : TcpConnection) : TcpConnection → Type 0 where
  connects : {c' : TcpConnection} → connect moved_size c ≡ some c' → Step moved_size c c'
  receives :
      {c' : TcpConnection} (seg : TcpSegment)
      → segment_received moved_size c seg ≡ some c'
      → Step moved_size c c'
  writes :
      {c' : TcpConnection} (bytes : List ℕ) (n : ℕ)
      → write moved_size c bytes ≡ some (n, c')
      → Step moved_size c c'
  ends : {c' : TcpConnection} → end_input_stream moved_size c ≡ some c' → Step moved_size c c'
  passes : (ms : ℕ) → Step moved_size c (tick c ms)
  destroys : Step moved_size c (destroy c)
  sends : (rest : List TcpSegment) → Step moved_size c (record c { segments_out = rest })
  reads : (r : TcpReceiver) → Step moved_size c (record c { receiver = r })

pub data Reach (moved_size : ℕ → ℕ) (cfg : TcpConfig) (random : WrappingInt32)
    : TcpConnection → Type 0 where
  start : Reach moved_size cfg random (init cfg random)
  next :
      {c c' : TcpConnection}
      → Reach moved_size cfg random c
      → Step moved_size c c'
      → Reach moved_size cfg random c'

module _ {moved_size : ℕ → ℕ} where
  -- Every step of a connection at rest, whatever it is, leaves it at rest, with nothing waiting in
  -- the sender and no RST due, and never opens a closed connection again.
  pub Step-Follows : {c c' : TcpConnection} → Rest c → Step moved_size c c' → Follows c c'
  unfolding end_input_stream
  Step-Follows r (connects e) = connect-Follows moved_size _ _ e
  Step-Follows r (receives seg e) = segment_received-Follows moved_size _ seg _ r e
  Step-Follows r (writes bytes n e) = write-Follows moved_size _ bytes n _ r e
  Step-Follows r (ends e) = connect-Follows moved_size _ _ e
  Step-Follows {c} r (passes ms) = tick-Follows moved_size c ms r
  Step-Follows {c} r destroys = destroy-Follows moved_size c r
  Step-Follows r (sends rest) = (record { drained = r.drained; no_rst = r.no_rst }, λ a. a)
  Step-Follows r (reads rc) = (record { drained = r.drained; no_rst = r.no_rst }, λ a. a)

  -- In every state that a connection comes to, nothing waits in the sender and no RST is due.
  pub Reach-Rest :
      {cfg : TcpConfig} {random : WrappingInt32} {c : TcpConnection}
      → Reach moved_size cfg random c
      → Rest c
  unfolding init Sender.init
  Reach-Rest start = record { drained = refl; no_rst = refl }
  Reach-Rest (next q s) = (Step-Follows (Reach-Rest q) s).0

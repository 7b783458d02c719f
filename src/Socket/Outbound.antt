-- ===== src/Socket/Outbound.antt =====
-- What the rule for outgoing segments does.
use tcp.Prelude.{
  ℕ, ◌≡◌, refl, sym, ap, ◌∙◌, false, List, [], ◌∷◌, ◌++◌, append-nil, append_assoc, some,
}
use tcp.Segment.{TcpSegment}
use tcp.Socket.{
  Kernel, DatagramAdapter, SpongeSocket, write_segments, write_datagrams, wants_to_send,
}

-- The adapter sends what it is given. `sent` is what has gone out.
pub record Sends {A : Type 0} (sent : A → List TcpSegment) (adapter : DatagramAdapter A)
    : Type 0 where
  pub sends :
      (seg : TcpSegment) (a : A)
      → (a' : A) × (adapter.write seg a ≡ some a') × (sent a' ≡ sent a ++ seg ∷ [])

module _ {A K : Type 0} (moved_size : ℕ → ℕ) (adapter : DatagramAdapter A) (kernel : Kernel K)
    (sent : A → List TcpSegment) (ok : Sends sent adapter) where
  write_segments_lem :
      (queue : List TcpSegment) (a : A)
      → (a' : A) × (write_segments moved_size adapter kernel queue a ≡ some a')
        × (sent a' ≡ sent a ++ queue)
  unfolding write_segments
  write_segments_lem [] a = (a, refl, sym (append-nil (sent a)))
  write_segments_lem (seg ∷ queue) a =
      let (a1, e, out) = ok.sends seg a in
      let (a', e', outs) = write_segments_lem queue a1 in
      (a', rw e e', outs ∙ ap (λ xs. xs ++ queue) out ∙ append_assoc (sent a) (seg ∷ []) queue)

  -- The callback of rule 4 sends every segment of the connection's queue once and in the queue's order, leaves
  -- the queue empty and so asks for nothing more, and changes nothing else of the connection: whenever the
  -- adapter sends what it is given.
  pub write_datagrams_lem :
      (s : SpongeSocket A K)
      → (s' : SpongeSocket A K) × (write_datagrams moved_size adapter kernel s ≡ some s')
        × (sent s'.datagram_adapter ≡ sent s.datagram_adapter ++ s.tcp.segments_out)
        × (s'.tcp ≡ record s.tcp { segments_out = [] })
        × (wants_to_send moved_size adapter kernel s' ≡ false)
  unfolding write_datagrams wants_to_send
  write_datagrams_lem s =
      let (a, e, out) = write_segments_lem s.tcp.segments_out s.datagram_adapter in
      (
        record s { datagram_adapter = a; tcp = record s.tcp { segments_out = [] } },
        rw e refl,
        out,
        refl,
        refl,
      )

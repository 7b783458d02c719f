-- ===== src/State/Sound.antt =====
-- What the summary of a sender says of it, and the states that a connection ends in.
use tcp.Prelude.{ℕ, ◌<◌, ◌≡◌, refl, Bool, true, false}
use tcp.ByteStream
use tcp.Sender.{TcpSender}
use tcp.Connection.{TcpConnection}
use tcp.Connection.Abort.{Aborted}
use tcp.State.{
  SenderSummary, sender_error, closed, syn_sent, syn_acked, fin_sent, fin_acked, sender_summary,
  receiver_summary, of_official, reset_state, state,
}

-- An aborted connection is in the official state RESET.
pub state-Aborted : (c : TcpConnection) → Aborted c → state c ≡ of_official reset_state
unfolding state receiver_summary sender_summary of_official
state-Aborted c a = rw (a.inactive, a.outbound, a.inbound) refl

abbrev pub Means : (source : ℕ → ℕ) → ℕ → ℕ → TcpSender → SenderSummary → Type 0
Means source isn una s sender_error = ByteStream.error s.stream ≡ true
Means source isn una s closed = s.syn ≡ false
Means source isn una s syn_sent = (s.syn ≡ true) × (una ≡ 0)
Means source isn una s syn_acked = (s.syn ≡ true) × (s.fin ≡ false) × (0 < una)
Means source isn una s fin_sent = (s.fin ≡ true) × (una < s.next_seqno)
Means source isn una s fin_acked = (s.fin ≡ true) × (una ≡ s.next_seqno)

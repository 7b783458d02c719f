-- ===== src/Interface/Reach.antt =====
-- Every state that an interface comes to.
use tcp.Prelude.{ℕ, ◌≡◌, subst, List, ◌∷◌, Option, some, Each}
use mathlib.Core.Bool.{false≢true}
use tcp.Router.{Address}
use tcp.Ethernet.{EthernetAddress, EthernetFrame}
use tcp.Ipv4.{Ipv4Datagram}
use tcp.Interface.{NetworkInterface, tick, ticked, send_datagram, recv_frame, new_interface}
use tcp.Interface.Invariant.{IsValid, AllFrom}
use tcp.Interface.Preserve.{send_datagram-IsValid, recv_frame-IsValid, EachTicked, tick-IsValid}

-- `Reach i`: an interface that has been made with its addresses comes to `i`.
pub data Reach (eth : EthernetAddress) (ip : Address) : NetworkInterface → Type 0 where
  made : Reach eth ip (new_interface eth ip)
  sends :
      {i j : NetworkInterface} (d : Ipv4Datagram) (next_hop : Address)
      → Reach eth ip i
      → send_datagram i d next_hop ≡ some j
      → Reach eth ip j
  receives :
      {i j : NetworkInterface} (frame : EthernetFrame) (d : Option Ipv4Datagram)
      → Reach eth ip i
      → recv_frame i frame ≡ some (d, j)
      → Reach eth ip j
  ticks :
      {i j : NetworkInterface} (fuel ms : ℕ)
      → Reach eth ip i
      → tick fuel i ms ≡ ticked j
      → Reach eth ip j
  -- The owner takes a frame from the queue.
  pops :
      {i : NetworkInterface} (f : EthernetFrame) (fs : List EthernetFrame)
      → Reach eth ip i
      → i.frames_out ≡ f ∷ fs
      → Reach eth ip (record i { frames_out = fs })

-- After any datagrams, frames and ticks, whose frames its owner may have taken: each datagram that
-- waits has a request that is pending, no request is pending for an address that the ARP table
-- knows, and each frame carries the interface's own address as its source.
pub Reach-IsValid :
    (eth : EthernetAddress) (ip : Address) (i : NetworkInterface) → Reach eth ip i → IsValid i
Reach-IsValid eth ip _ made = record {
  asked = tt;
  unknown = λ k h. absurd (false≢true h);
  own = tt;
}
Reach-IsValid eth ip j (sends {i} d hop r e) =
    subst (Each IsValid) e (send_datagram-IsValid i d hop (Reach-IsValid eth ip i r))
Reach-IsValid eth ip j (receives {i} frame d r e) =
    subst (Each (λ x. IsValid x.1)) e (recv_frame-IsValid i frame (Reach-IsValid eth ip i r))
Reach-IsValid eth ip j (ticks {i} fuel ms r e) =
    subst EachTicked e (tick-IsValid fuel i ms (Reach-IsValid eth ip i r))
Reach-IsValid eth ip _ (pops {i} f fs r e) =
    let v = Reach-IsValid eth ip i r in
    record {
      asked = v.asked;
      unknown = v.unknown;
      own = (subst (AllFrom i.ethernet_address) e v.own).1;
    }

-- ===== src/Interface/Invariant.antt =====
-- What holds of the interface after any calls: no datagram waits without a request.
use tcp.Prelude.{
  ℕ, ◌≡◌, sym, ap, ◌∙◌, subst, true, false, List, [], ◌∷◌, ◌++◌, ◌==◌, ==→eq, ==→ne, Bool-cases,
  inl, inr,
}
use tcp.Table.{Table, assign, contains, contains-assign, contains-assign_ne}
use tcp.Router.{Address}
use tcp.Ethernet.{EthernetAddress, EthernetFrame}
use tcp.Ipv4.{Ipv4Datagram}
use tcp.Interface.{NetworkInterface, arp_response_default_ttl, queue}
use tcp.Interface.Sent.{with_frames}

-- Each datagram that waits, waits for an address that has been asked for.
abbrev pub AllAsked : Table ℕ → List (Address × Ipv4Datagram) → Type 0
AllAsked t [] = Unit {0}
AllAsked t (w ∷ rest) = (contains w.0 t ≡ true) × AllAsked t rest

-- Each frame is from `src`.
abbrev pub AllFrom : EthernetAddress → List EthernetFrame → Type 0
AllFrom src [] = Unit {0}
AllFrom src (f ∷ fs) = (f.header.src ≡ src) × AllFrom src fs

-- Each datagram that waits has a request that is pending, no request is pending for an address that
-- the ARP table knows, and each frame carries the interface's own address as its source.
pub record IsValid (i : NetworkInterface) : Type 0 where
  pub asked : AllAsked i.waiting_arp_response i.waiting_datagrams
  pub unknown : (k : ℕ) → contains k i.waiting_arp_response ≡ true → contains k i.arp_table ≡ false
  pub own : AllFrom i.ethernet_address i.frames_out

AllAsked-append :
    (t : Table ℕ) (ws : List (Address × Ipv4Datagram)) (hop : Address) (d : Ipv4Datagram)
    → AllAsked t ws
    → contains hop t ≡ true
    → AllAsked t (ws ++ (hop, d) ∷ [])
AllAsked-append t [] hop d h k = (k, tt)
AllAsked-append t (w ∷ ws) hop d h k = (h.0, AllAsked-append t ws hop d h.1 k)

-- More keys do no harm.
pub AllAsked-more :
    (s t : Table ℕ) (ws : List (Address × Ipv4Datagram))
    → ((k : ℕ) → contains k s ≡ true → contains k t ≡ true)
    → AllAsked s ws
    → AllAsked t ws
AllAsked-more s t [] more h = tt
AllAsked-more s t (w ∷ ws) more h = (more w.0 h.0, AllAsked-more s t ws more h.1)

pub AllFrom-append :
    (src : EthernetAddress) (fs gs : List EthernetFrame)
    → AllFrom src fs
    → AllFrom src gs
    → AllFrom src (fs ++ gs)
AllFrom-append src [] gs h k = k
AllFrom-append src (f ∷ fs) gs h k = (h.0, AllFrom-append src fs gs h.1 k)

pub with_frames-IsValid :
    (i : NetworkInterface) (fs : List EthernetFrame)
    → IsValid i
    → AllFrom i.ethernet_address fs
    → IsValid (with_frames i fs)
with_frames-IsValid i fs v h = record {
  asked = v.asked;
  unknown = v.unknown;
  own = AllFrom-append i.ethernet_address i.frames_out fs v.own h;
}

pub queue-IsValid :
    (i : NetworkInterface) (d : Ipv4Datagram) (hop : Address)
    → IsValid i
    → contains hop i.waiting_arp_response ≡ true
    → IsValid (queue i d hop)
queue-IsValid i d hop v h = record {
  asked = AllAsked-append i.waiting_arp_response i.waiting_datagrams hop d v.asked h;
  unknown = v.unknown;
  own = v.own;
}

abbrev pub ask : NetworkInterface → Address → NetworkInterface
ask i hop = record i {
  waiting_arp_response = assign hop arp_response_default_ttl i.waiting_arp_response;
}

contains-assign_more :
    (k hop ttl : ℕ) (t : Table ℕ) → contains k t ≡ true → contains k (assign hop ttl t) ≡ true
contains-assign_more k hop ttl t h = elim (Bool-cases (k == hop)) [
  | inl e ↦
      subst (λ j. contains j (assign hop ttl t) ≡ true) (sym (==→eq k hop e))
        (contains-assign hop ttl t)
  | inr e ↦ contains-assign_ne k hop ttl t (==→ne k hop e) ∙ h
]

pub ask-IsValid :
    (i : NetworkInterface) (hop : Address)
    → IsValid i
    → contains hop i.arp_table ≡ false
    → IsValid (ask i hop)
ask-IsValid i hop v free = record {
  asked =
      AllAsked-more i.waiting_arp_response (ask i hop).waiting_arp_response i.waiting_datagrams
        (λ k. contains-assign_more k hop arp_response_default_ttl i.waiting_arp_response) v.asked;
  unknown = λ k h. elim (Bool-cases (k == hop)) [
    | inl e ↦ ap (λ j. contains j i.arp_table) (==→eq k hop e) ∙ free
    | inr e ↦ v.unknown k (
        sym
          (contains-assign_ne k hop arp_response_default_ttl i.waiting_arp_response (==→ne k hop e))
        ∙ h)
  ];
  own = v.own;
}

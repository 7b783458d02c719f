-- ===== src/Interface/Preserve.antt =====
-- Each call keeps the invariant of the interface.
use tcp.Prelude.{
  ℕ, zero, suc, ◌-◌, ◌≡◌, refl, sym, ap, ◌∙◌, subst, false, not, ◌&&◌, ◌||◌, List, [], ◌∷◌, ◌++◌,
  append_assoc, append-nil, Option, none, some, leb, ◌==◌, ==→eq, ==→ne, Bool-cases, Option-cases,
  inl, inr, and_then, Each, Each-and_then, Each-and_then_all, Each-if, or_false, arith,
}
use mathlib.Core.Bool.{false≢true}
use tcp.Table.{
  Table, lookup, erase, contains, lookup-none, lookup-some, contains-assign, contains-assign_ne,
  contains-erase, contains-erase_ne, contains-middle,
}
use tcp.Router.{Address}
use tcp.Buffer.{to_buffer}
use tcp.Parser.{failed}
use tcp.Ethernet.{
  EthernetAddress, EthernetFrame, type_ipv4, type_arp, same_address, ethernet_broadcast,
}
use tcp.Arp
use tcp.Arp.{ArpMessage, new_message}
use tcp.Ipv4
use tcp.Ipv4.{Ipv4Datagram}
use tcp.Interface.{
  ArpEntry, NetworkInterface, age, resend, tick, Ticked, ticked, thrown, still_running,
  arp_response_default_ttl, arp_entry_default_ttl, send_unknown, send_to, send_datagram,
  recv_message, recv_arp, recv_ipv4, recv_frame, is_valid_arp_reply, is_valid_arp_request,
  new_datagram,
}
use tcp.Interface.Sent.{with_frames, request_frame, send_request_lem}
use tcp.Interface.Tick.{resend_up, resend_left}
use tcp.Interface.Learn.{
  datagram_frames, others, learnt, waiting_frames, replies, recv_message_lem, send_known,
}
use tcp.Interface.Invariant.{
  IsValid, AllAsked, AllFrom, AllFrom-append, AllAsked-more, with_frames-IsValid, queue-IsValid,
  ask, ask-IsValid,
}

pub send_datagram-IsValid :
    (i : NetworkInterface) (d : Ipv4Datagram) (hop : Address)
    → IsValid i
    → Each IsValid (send_datagram i d hop)
unfolding send_datagram send_to send_unknown
send_datagram-IsValid i d hop v = elim (Option-cases (lookup hop i.arp_table)) [
  | inr (entry, e) ↦ subst (Each IsValid) (sym (send_known i d hop entry e)) (
      Each-and_then_all IsValid (Ipv4.serialize d) _
        (λ bytes. with_frames-IsValid i _ v (refl, tt)))
  | inl e ↦ elim (Option-cases (lookup hop i.waiting_arp_response)) [
    | inr (ttl, w) ↦
        rw (e, w) (queue-IsValid i d hop v (lookup-some hop i.waiting_arp_response ttl w))
    | inl w ↦
        let i' = with_frames i (request_frame i hop ∷ []) in
        let asked =
          ask-IsValid i' hop (with_frames-IsValid i _ v (refl, tt))
            (lookup-none hop i.arp_table e) in
        rw (e, w, send_request_lem i hop)
          (queue-IsValid (ask i' hop) d hop asked
            (contains-assign hop arp_response_default_ttl i.waiting_arp_response))
  ]
]

datagram_frames-AllFrom :
    (src dst : EthernetAddress) (ip : Address) (ws : List (Address × Ipv4Datagram))
    → Each (AllFrom src) (datagram_frames src dst ip ws)
datagram_frames-AllFrom src dst ip [] = tt
datagram_frames-AllFrom src dst ip (w ∷ rest) = elim (Bool-cases (w.0 == ip)) [
  | inr e ↦ rw e (datagram_frames-AllFrom src dst ip rest)
  | inl e ↦ elim (Option-cases (Ipv4.serialize w.1)) [
    | inl s ↦ rw (e, s) tt
    | inr (bytes, s) ↦
        rw (e, s)
          (Each-and_then (AllFrom src) (AllFrom src) (datagram_frames src dst ip rest) _
            (datagram_frames-AllFrom src dst ip rest) (λ fs h. (refl, h)))
  ]
]

-- The datagrams for other addresses need no request for `ip`.
others-AllAsked :
    (ip : Address) (t : Table ℕ) (ws : List (Address × Ipv4Datagram))
    → AllAsked t ws
    → AllAsked (erase ip t) (others ip ws)
others-AllAsked ip t [] h = tt
others-AllAsked ip t (w ∷ ws) h = elim (Bool-cases (w.0 == ip)) [
  | inl e ↦ rw e (others-AllAsked ip t ws h.1)
  | inr e ↦ rw e (contains-erase_ne w.0 ip t (==→ne w.0 ip e) ∙ h.0, others-AllAsked ip t ws h.1)
]

learnt-IsValid :
    (i : NetworkInterface) (m : ArpMessage) (fs : List EthernetFrame)
    → IsValid i
    → AllFrom i.ethernet_address fs
    → IsValid (learnt i m fs)
learnt-IsValid i m fs v h =
    let ip = m.sender_ip_address in
    let entry : ArpEntry = record {
      eth_addr = m.sender_ethernet_address;
      ttl = arp_entry_default_ttl;
    } in
    record {
      asked = others-AllAsked ip i.waiting_arp_response i.waiting_datagrams v.asked;
      unknown = λ k c. elim (Bool-cases (k == ip)) [
        | inl e ↦ absurd (
            false≢true (
              sym (
                ap (λ j. contains j (erase ip i.waiting_arp_response)) (==→eq k ip e)
                ∙ contains-erase ip i.waiting_arp_response)
              ∙ c))
        | inr e ↦
            contains-assign_ne k ip entry i.arp_table (==→ne k ip e)
            ∙ v.unknown k (sym (contains-erase_ne k ip i.waiting_arp_response (==→ne k ip e)) ∙ c)
      ];
      own = AllFrom-append i.ethernet_address i.frames_out fs v.own h;
    }

replies-AllFrom : (i : NetworkInterface) (m : ArpMessage) → AllFrom i.ethernet_address (replies i m)
replies-AllFrom i m = elim (Bool-cases (is_valid_arp_request i m)) [
  | inl e ↦ rw e (refl, tt)
  | inr e ↦ rw e tt
]

recv_message-IsValid :
    (i : NetworkInterface) (m : ArpMessage) → IsValid i → Each IsValid (recv_message i m)
unfolding recv_message
recv_message-IsValid i m v =
    elim (Bool-cases (is_valid_arp_reply i m || is_valid_arp_request i m)) [
      | inl e ↦ subst (Each IsValid) (sym (recv_message_lem i m e)) (
          Each-and_then (AllFrom i.ethernet_address) IsValid (waiting_frames i m) _
            (datagram_frames-AllFrom i.ethernet_address m.sender_ethernet_address
              m.sender_ip_address i.waiting_datagrams)
            (λ fs h.
              learnt-IsValid (with_frames i (replies i m)) m fs
                (with_frames-IsValid i _ v (replies-AllFrom i m)) h))
      | inr e ↦ rw (e, or_false (is_valid_arp_reply i m) (is_valid_arp_request i m) e) v
    ]

pub recv_frame-IsValid :
    (i : NetworkInterface) (frame : EthernetFrame)
    → IsValid i
    → Each (λ r. IsValid r.1) (recv_frame i frame)
unfolding recv_frame recv_arp recv_ipv4
recv_frame-IsValid i frame v =
    let P : Option Ipv4Datagram × NetworkInterface → Type 0 = λ r. IsValid r.1 in
    let other =
      not (same_address frame.header.dst i.ethernet_address)
      && not (same_address frame.header.dst ethernet_broadcast) in
    let ipv4 : Each P
        (and_then (and_then (to_buffer frame.payload) (Ipv4.parse new_datagram)) (recv_ipv4 i)) =
      Each-and_then_all P (and_then (to_buffer frame.payload) (Ipv4.parse new_datagram))
        (recv_ipv4 i) (λ d. Each-if P (failed d.0) (some (none, i)) (some (some d.1, i)) v v) in
    let arp : Each P
        (and_then (and_then (to_buffer frame.payload) (Arp.parse new_message)) (recv_arp i)) =
      Each-and_then_all P (and_then (to_buffer frame.payload) (Arp.parse new_message)) (recv_arp i)
        (λ d.
          Each-if P (failed d.0) (some (none, i))
            (and_then (recv_message i d.1) (λ i'. some (none, i'))) v
            (Each-and_then IsValid P (recv_message i d.1) (λ i'. some (none, i'))
              (recv_message-IsValid i d.1 v) (λ i' h. h))) in
    elim (Bool-cases other) [
      | inl e ↦ rw e v
      | inr e ↦ elim (Bool-cases (frame.header.ether_type == type_ipv4)) [
        | inl f ↦ rw (e, f) ipv4
        | inr f ↦ elim (Bool-cases (frame.header.ether_type == type_arp)) [
          | inl g ↦ rw (e, f, g) arp
          | inr g ↦ rw (e, f, g) v
        ]
      ]
    ]

-- The first loop of `tick` adds no key.
contains-age :
    (k ms : ℕ) (t : Table ArpEntry) → contains k t ≡ false → contains k (age ms t) ≡ false
unfolding age
contains-age k ms [] h = refl
contains-age k ms (e ∷ t) h = ground (arith, contains-age k ms t)

abbrev pub EachTicked : Ticked → Type 0
EachTicked still_running = Unit {0}
EachTicked thrown = Unit {0}
EachTicked (ticked i) = IsValid i

-- Another time for a request.
retimed-IsValid :
    (i : NetworkInterface) (before after : Table ℕ) (ip a b : ℕ)
    → IsValid (record i { waiting_arp_response = before ++ (ip, a) ∷ after })
    → IsValid (record i { waiting_arp_response = before ++ (ip, b) ∷ after })
retimed-IsValid i before after ip a b v = record {
  asked =
      AllAsked-more (before ++ (ip, a) ∷ after) (before ++ (ip, b) ∷ after) i.waiting_datagrams
        (λ k h. contains-middle k ip b a before after ∙ h) v.asked;
  unknown = λ k h. v.unknown k (contains-middle k ip a b before after ∙ h);
  own = v.own;
}

resend-IsValid :
    (fuel ms : ℕ) (i : NetworkInterface) (before after : Table ℕ)
    → IsValid (record i { waiting_arp_response = before ++ after })
    → EachTicked (resend fuel ms i before after)
unfolding resend
resend-IsValid zero ms i before [] v =
    subst (λ t. IsValid (record i { waiting_arp_response = t })) (append-nil before) v
resend-IsValid (suc fuel) ms i before [] v =
    subst (λ t. IsValid (record i { waiting_arp_response = t })) (append-nil before) v
resend-IsValid zero ms i before (e ∷ rest) v = tt
resend-IsValid (suc fuel) ms i before ((ip, ttl) ∷ rest) v = elim (Bool-cases (leb ttl ms)) [
  | inl up ↦
      let again = retimed-IsValid i before rest ip ttl arp_response_default_ttl v in
      subst EachTicked (sym (resend_up fuel ms i before rest ip ttl up)) (
        resend-IsValid fuel ms (with_frames i (request_frame i ip ∷ [])) before
          ((ip, arp_response_default_ttl) ∷ rest)
          (with_frames-IsValid _ (request_frame i ip ∷ []) again (refl, tt)))
  | inr left ↦ subst EachTicked (sym (resend_left fuel ms i before rest ip ttl left)) (
      resend-IsValid fuel ms i (before ++ (ip, ttl - ms) ∷ []) rest (
        subst (λ t. IsValid (record i { waiting_arp_response = t }))
          (sym (append_assoc before ((ip, ttl - ms) ∷ []) rest))
          (retimed-IsValid i before rest ip ttl (ttl - ms) v)))
]

pub tick-IsValid :
    (fuel : ℕ) (i : NetworkInterface) (ms : ℕ) → IsValid i → EachTicked (tick fuel i ms)
unfolding tick
tick-IsValid fuel i ms v =
    resend-IsValid fuel ms (record i { arp_table = age ms i.arp_table }) [] i.waiting_arp_response
      (record {
        asked = v.asked;
        unknown = λ k h. contains-age k ms i.arp_table (v.unknown k h);
        own = v.own;
      })

-- ===== src/Interface/Learn.antt =====
-- What an ARP message for this interface does: the sender's address is learnt, and what waits for it
-- is sent.
use tcp.Prelude.{
  ℕ, ◌≡◌, refl, sym, ap, ap₂, ◌∙◌, Bool, true, false, not, ◌&&◌, ◌||◌, List, [], ◌∷◌, ◌++◌,
  append_assoc, append-nil, Option, none, some, ◌==◌, ==→eq, if◌then◌else◌, Bool-cases,
  Option-cases, inl, inr, and_then, and_then_assoc,
}
use tcp.Table.{lookup, assign, erase, lookup-assign}
use tcp.Buffer.{Buffer, str, to_buffer}
use tcp.Router.{Address}
use tcp.Ethernet.{
  EthernetAddress, EthernetFrame, ethernet_broadcast, same_address, type_arp, type_ipv4,
}
use tcp.Arp.{ArpMessage, message_bytes, supported, new_message}
use tcp.Arp.Wire
use tcp.Ipv4
use tcp.Ipv4.{Ipv4Datagram}
use tcp.Interface.{
  ArpEntry, NetworkInterface, push_frame, send_datagram, send_to, queue, flush, learn,
  is_valid_arp_request, is_valid_arp_reply, recv_message, recv_arp, recv_frame,
  arp_entry_default_ttl,
}
use tcp.Interface.Sent.{frame_from, with_frames, reply_frame, send_reply_lem}

-- The frames of the datagrams that wait for `ip`, in order; `none` if one of them has no bytes.
abbrev pub datagram_frames :
    EthernetAddress
    → EthernetAddress
    → Address
    → List (Address × Ipv4Datagram)
    → Option (List EthernetFrame)
datagram_frames src dst ip [] = some []
datagram_frames src dst ip (w ∷ rest) =
    if w.0 == ip
    then and_then (Ipv4.serialize w.1) (λ bytes.
      and_then (datagram_frames src dst ip rest)
        (λ fs. some (frame_from src dst type_ipv4 bytes ∷ fs)))
    else datagram_frames src dst ip rest

-- The datagrams that wait for another address, in order.
abbrev pub others : Address → List (Address × Ipv4Datagram) → List (Address × Ipv4Datagram)
others ip [] = []
others ip (w ∷ rest) = if w.0 == ip then others ip rest else w ∷ others ip rest

abbrev flushed :
    Address
    → NetworkInterface
    → List (Address × Ipv4Datagram)
    → List EthernetFrame
    → NetworkInterface
flushed ip i ws fs = record i {
  frames_out = i.frames_out ++ fs;
  waiting_datagrams = i.waiting_datagrams ++ others ip ws;
}

-- A datagram whose hop is known.
pub send_known :
    (i : NetworkInterface) (d : Ipv4Datagram) (hop : Address) (entry : ArpEntry)
    → lookup hop i.arp_table ≡ some entry
    → send_datagram i d hop
      ≡ and_then (Ipv4.serialize d) (λ bytes.
        some (with_frames i (frame_from i.ethernet_address entry.eth_addr type_ipv4 bytes ∷ [])))
unfolding send_datagram send_to push_frame
send_known i d hop entry known = elim (Option-cases (Ipv4.serialize d)) [
  | inl e ↦ rw (known, e) refl
  | inr (bytes, e) ↦ rw (known, e) refl
]

-- A datagram that goes: the frame is put before those of the rest.
flush_sent :
    (ip : Address) (i : NetworkInterface) (f : EthernetFrame) (ws : List (Address × Ipv4Datagram))
    (o : Option (List EthernetFrame))
    → and_then o (λ fs. some (flushed ip (with_frames i (f ∷ [])) ws fs))
      ≡ and_then (and_then o (λ fs. some (f ∷ fs))) (λ fs. some (flushed ip i ws fs))
flush_sent ip i f ws none = refl
flush_sent ip i f ws (some fs) =
    ap
      (λ k.
        some (record i { frames_out = k; waiting_datagrams = i.waiting_datagrams ++ others ip ws }))
      (append_assoc i.frames_out (f ∷ []) fs)

flush_lem :
    (ip : Address) (i : NetworkInterface) (entry : ArpEntry) (ws : List (Address × Ipv4Datagram))
    → lookup ip i.arp_table ≡ some entry
    → flush ip i ws
      ≡ and_then
          (datagram_frames i.ethernet_address entry.eth_addr ip ws)
          (λ fs. some (flushed ip i ws fs))
unfolding flush
flush_lem ip i entry [] known =
    ap₂ (λ fs w. some (record i { frames_out = fs; waiting_datagrams = w }))
      (sym (append-nil i.frames_out)) (sym (append-nil i.waiting_datagrams))
flush_lem ip i entry ((hop, d) ∷ rest) known = elim (Bool-cases (hop == ip)) [
  | inl e ↦
      let same =
        send_known i d hop entry (ap (λ k. lookup k i.arp_table) (==→eq hop ip e) ∙ known) in
      elim (Option-cases (Ipv4.serialize d)) [
        | inl s ↦ rw (flush, e, same, s) refl
        | inr (bytes, s) ↦
            let f = frame_from i.ethernet_address entry.eth_addr type_ipv4 bytes in
            rw (flush, e, same, s)
              (flush_lem ip (with_frames i (f ∷ [])) entry rest known
                ∙ flush_sent ip i f rest
                    (datagram_frames i.ethernet_address entry.eth_addr ip rest))
      ]
  | inr e ↦
      rw (flush, e)
        (flush_lem ip (queue i d hop) entry rest known
          ∙ ap
              (λ k.
                and_then (datagram_frames i.ethernet_address entry.eth_addr ip rest) (λ fs.
                  some (record i { frames_out = i.frames_out ++ fs; waiting_datagrams = k })))
              (append_assoc i.waiting_datagrams ((hop, d) ∷ []) (others ip rest)))
]

-- The interface that has learnt from `m` and sent `fs`.
abbrev pub learnt : NetworkInterface → ArpMessage → List EthernetFrame → NetworkInterface
learnt i m fs = record i {
  frames_out = i.frames_out ++ fs;
  arp_table =
      assign m.sender_ip_address
        (record { eth_addr = m.sender_ethernet_address; ttl = arp_entry_default_ttl }) i.arp_table;
  waiting_arp_response = erase m.sender_ip_address i.waiting_arp_response;
  waiting_datagrams = others m.sender_ip_address i.waiting_datagrams;
}

abbrev pub waiting_frames : NetworkInterface → ArpMessage → Option (List EthernetFrame)
waiting_frames i m =
    datagram_frames i.ethernet_address m.sender_ethernet_address m.sender_ip_address
      i.waiting_datagrams

learn_lem :
    (i : NetworkInterface) (m : ArpMessage)
    → learn i m ≡ and_then (waiting_frames i m) (λ fs. some (learnt i m fs))
unfolding learn
learn_lem i m =
    let entry : ArpEntry = record {
      eth_addr = m.sender_ethernet_address;
      ttl = arp_entry_default_ttl;
    } in
    let table = assign m.sender_ip_address entry i.arp_table in
    let i' = record i { arp_table = table; waiting_datagrams = [] } in
    ap
      (λ o. and_then {A = NetworkInterface} o (λ j.
        some
          (record j { waiting_arp_response = erase m.sender_ip_address j.waiting_arp_response })))
      (flush_lem m.sender_ip_address i' entry i.waiting_datagrams
        (lookup-assign m.sender_ip_address entry i.arp_table))
    ∙ and_then_assoc (waiting_frames i m)
        (λ fs. some (flushed m.sender_ip_address i' i.waiting_datagrams fs)) _

-- The reply that a request gets.
abbrev pub replies : NetworkInterface → ArpMessage → List EthernetFrame
replies i m = if is_valid_arp_request i m then reply_frame i m ∷ [] else []

pub recv_message_lem :
    (i : NetworkInterface) (m : ArpMessage)
    → (is_valid_arp_reply i m || is_valid_arp_request i m) ≡ true
    → recv_message i m
      ≡ and_then (waiting_frames i m) (λ fs. some (learnt (with_frames i (replies i m)) m fs))
unfolding recv_message
recv_message_lem i m valid = elim (Bool-cases (is_valid_arp_request i m)) [
  | inl e ↦ rw (valid, e, send_reply_lem i m) (learn_lem (with_frames i (reply_frame i m ∷ [])) m)
  | inr e ↦
      rw (valid, e)
        (learn_lem i m
          ∙ ap
              (λ k.
                and_then (waiting_frames i m)
                  (λ fs. some (learnt (record i { frames_out = k }) m fs)))
              (sym (append-nil i.frames_out)))
]

abbrev pub for_us : NetworkInterface → EthernetFrame → Bool
for_us i f =
    same_address f.header.dst i.ethernet_address || same_address f.header.dst ethernet_broadcast

pub passes : (a b : Bool) → (a || b) ≡ true → (not a && not b) ≡ false
passes true b h = refl
passes false true h = refl
passes false false h = sym h

-- A frame for this interface or for everyone with the bytes of a supported ARP message `m`, whatever
-- padding follows them, that asks for this interface's IP address or replies to its Ethernet address:
-- a request is replied to, then each datagram that waits for the sender's IP address is sent to
-- the sender's Ethernet address, in order, and the others go on waiting; the sender's addresses
-- are learnt for 30 seconds, and no request for it is pending. If a datagram has no bytes, the call
-- throws.
pub recv_frame-learnt :
    (i : NetworkInterface) (frame : EthernetFrame) (b : Buffer) (m : ArpMessage) (padding : List ℕ)
    → for_us i frame ≡ true
    → frame.header.ether_type ≡ type_arp
    → frame.payload ≡ b ∷ []
    → str b ≡ message_bytes m ++ padding
    → Wire.IsValid m
    → supported m ≡ true
    → (is_valid_arp_reply i m || is_valid_arp_request i m) ≡ true
    → recv_frame i frame
      ≡ and_then (waiting_frames i m) (λ fs. some (none, learnt (with_frames i (replies i m)) m fs))
unfolding recv_frame recv_arp to_buffer
recv_frame-learnt i frame b m padding ours arp one text v sup valid =
    let parsed = Wire.parse_lem m new_message b padding v sup text in
    rw (passes _ _ ours, arp, one, parsed)
      (ap (λ o. and_then o (λ i'. some (none, i'))) (recv_message_lem i m valid)
        ∙ and_then_assoc (waiting_frames i m) _ _)

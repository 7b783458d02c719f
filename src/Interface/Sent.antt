-- ===== src/Interface/Sent.antt =====
-- The frames that are sent: the serializations of ARP messages never throw.
use tcp.Prelude.{none, ℕ, ◌≡◌, refl, List, [], ◌∷◌, ◌++◌, some}
use tcp.Buffer.{BufferList, list_of_string}
use tcp.Router.{Address}
use tcp.Ethernet.{EthernetAddress, EthernetFrame, ethernet_broadcast, type_arp}
use tcp.Arp.{ArpMessage, supported, message_bytes}
use tcp.Arp.Wire.{serialize_lem}
use tcp.Table.{assign, lookup}
use tcp.Ipv4.{Ipv4Datagram}
use tcp.Interface.{
  arp_response_default_ttl, send_datagram, send_to, send_unknown, NetworkInterface, push_frame,
  arp_payload, request, send_request, reply, send_reply,
}

abbrev pub frame_from : EthernetAddress → EthernetAddress → ℕ → BufferList → EthernetFrame
frame_from src dst ether_type payload = record {
  header = record { dst = dst; src = src; ether_type = ether_type };
  payload = payload;
}

-- The ARP request for `ip`, and the reply to `m`.
abbrev pub request_frame : NetworkInterface → Address → EthernetFrame
request_frame i ip =
    frame_from i.ethernet_address ethernet_broadcast type_arp
      (list_of_string (message_bytes (request i ip)))

abbrev pub reply_frame : NetworkInterface → ArpMessage → EthernetFrame
reply_frame i m =
    frame_from i.ethernet_address m.sender_ethernet_address type_arp
      (list_of_string (message_bytes (reply i m)))

abbrev pub with_frames : NetworkInterface → List EthernetFrame → NetworkInterface
with_frames i fs = record i { frames_out = i.frames_out ++ fs }

pub push_frame_lem :
    (i : NetworkInterface) (dst : EthernetAddress) (t : ℕ) (payload : BufferList)
    → push_frame i dst t (some payload)
      ≡ some (with_frames i (frame_from i.ethernet_address dst t payload ∷ []))
unfolding push_frame
push_frame_lem i dst t payload = refl

pub send_request_lem :
    (i : NetworkInterface) (ip : Address)
    → send_request i ip ≡ some (with_frames i (request_frame i ip ∷ []))
unfolding send_request push_frame arp_payload supported
send_request_lem i ip = rw (serialize_lem (request i ip) refl) refl

pub send_reply_lem :
    (i : NetworkInterface) (m : ArpMessage)
    → send_reply i m ≡ some (with_frames i (reply_frame i m ∷ []))
unfolding send_reply push_frame arp_payload supported
send_reply_lem i m = rw (serialize_lem (reply i m) refl) refl

-- A datagram for a hop that is neither known nor asked for.
abbrev pub asked : NetworkInterface → Ipv4Datagram → Address → NetworkInterface
asked i d hop = record (with_frames i (request_frame i hop ∷ [])) {
  waiting_arp_response = assign hop arp_response_default_ttl i.waiting_arp_response;
  waiting_datagrams = i.waiting_datagrams ++ (hop, d) ∷ [];
}

pub send_datagram_asks :
    (i : NetworkInterface) (d : Ipv4Datagram) (hop : Address)
    → lookup hop i.arp_table ≡ none
    → lookup hop i.waiting_arp_response ≡ none
    → send_datagram i d hop ≡ some (asked i d hop)
unfolding send_datagram send_to send_unknown
send_datagram_asks i d hop e w = rw (e, w, send_request_lem i hop) refl

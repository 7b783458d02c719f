-- ===== src/Interface.antt =====
-- libsponge/network_interface.hh and .cc: the interface between IP and Ethernet. A call that throws
-- returns `none`.
pub mod Sent
pub mod Tick
pub mod Learn
pub mod Datagram
pub mod Invariant
pub mod Preserve
pub mod Reach
mod Tests
use tcp.Prelude.{
  ℕ, zero, suc, ◌-◌, Bool, true, false, not, ◌&&◌, ◌||◌, List, [], ◌∷◌, ◌++◌, Option, none, some,
  leb, ◌==◌, if◌then◌else◌, and_then,
}
use tcp.Table.{Table, lookup, assign, erase}
use tcp.Buffer.{BufferList, to_buffer, list_of_string}
use tcp.Parser.{ParseResult, failed}
use tcp.Router.{Address}
use tcp.Ethernet.{
  EthernetAddress, EthernetFrame, all_bytes, ethernet_broadcast, same_address, type_arp, type_ipv4,
}
use tcp.Arp
use tcp.Arp.{ArpMessage, opcode_request, opcode_reply, new_message}
use tcp.Ipv4
use tcp.Ipv4.{Ipv4Datagram, new_header}

pub record ArpEntry : Type 0 where
  pub eth_addr : EthernetAddress
  pub ttl : ℕ

-- An Address is its 32-bit number.
pub record NetworkInterface : Type 0 where
  pub ethernet_address : EthernetAddress
  pub ip_address : Address
  pub frames_out : List EthernetFrame
  pub arp_table : Table ArpEntry
  pub waiting_arp_response : Table ℕ
  pub waiting_datagrams : List (Address × Ipv4Datagram)

-- `NetworkInterface(ethernet_address, ip_address)`
abbrev pub new_interface : EthernetAddress → Address → NetworkInterface
new_interface eth ip = record {
  ethernet_address = eth;
  ip_address = ip;
  frames_out = [];
  arp_table = [];
  waiting_arp_response = [];
  waiting_datagrams = [];
}

abbrev pub arp_entry_default_ttl : ℕ
arp_entry_default_ttl = 30000

abbrev pub arp_response_default_ttl : ℕ
arp_response_default_ttl = 5000

-- A frame to `dst` is put on the queue, if the serialization of its payload has not thrown.
pub push_frame :
    NetworkInterface → EthernetAddress → ℕ → Option BufferList → Option NetworkInterface
push_frame i dst ether_type none = none
push_frame i dst ether_type (some payload) = some (record i {
  frames_out =
      i.frames_out
      ++ record {
        header = record { dst = dst; src = i.ethernet_address; ether_type = ether_type };
        payload = payload;
      }
        ∷ [];
})

-- The bytes of a message as the payload of a frame.
pub arp_payload : Option (List ℕ) → Option BufferList
arp_payload none = none
arp_payload (some bytes) = some (list_of_string bytes)

abbrev pub request : NetworkInterface → Address → ArpMessage
request i ip = record new_message {
  opcode = opcode_request;
  sender_ethernet_address = i.ethernet_address;
  sender_ip_address = i.ip_address;
  target_ethernet_address = all_bytes 0;
  target_ip_address = ip;
}

-- An ARP request for `ip` to everyone.
pub send_request : NetworkInterface → Address → Option NetworkInterface
send_request i ip =
    push_frame i ethernet_broadcast type_arp (arp_payload (Arp.serialize (request i ip)))

abbrev pub queue : NetworkInterface → Ipv4Datagram → Address → NetworkInterface
queue i dgram next_hop = record i {
  waiting_datagrams = i.waiting_datagrams ++ (next_hop, dgram) ∷ [];
}

-- `send_datagram` to a hop whose Ethernet address is not known; the last argument is what the table
-- of the requests has for it.
send_unknown : NetworkInterface → Ipv4Datagram → Address → Option ℕ → Option NetworkInterface
send_unknown i dgram next_hop (some ttl) = some (queue i dgram next_hop)
send_unknown i dgram next_hop none = and_then (send_request i next_hop) (λ i'. some (
    queue
      (record i' {
        waiting_arp_response = assign next_hop arp_response_default_ttl i'.waiting_arp_response;
      })
      dgram next_hop))

send_to : NetworkInterface → Ipv4Datagram → Address → Option ArpEntry → Option NetworkInterface
send_to i dgram next_hop none =
    send_unknown i dgram next_hop (lookup next_hop i.waiting_arp_response)
send_to i dgram next_hop (some entry) = push_frame i entry.eth_addr type_ipv4 (Ipv4.serialize dgram)

-- `send_datagram`
pub send_datagram : NetworkInterface → Ipv4Datagram → Address → Option NetworkInterface
send_datagram i dgram next_hop = send_to i dgram next_hop (lookup next_hop i.arp_table)

-- The loop over the datagrams that wait: those for `ip` are sent and erased. The datagrams before the
-- iterator, which stay, are in `i`, the others in the last argument.
pub flush : Address → NetworkInterface → List (Address × Ipv4Datagram) → Option NetworkInterface
flush ip i [] = some i
flush ip i ((next_hop, dgram) ∷ rest) = elim (next_hop == ip) [
  | true ↦ and_then (send_datagram i dgram next_hop) (λ i'. flush ip i' rest)
  | false ↦ flush ip (queue i dgram next_hop) rest
]

abbrev pub reply : NetworkInterface → ArpMessage → ArpMessage
reply i m = record new_message {
  opcode = opcode_reply;
  sender_ethernet_address = i.ethernet_address;
  target_ethernet_address = m.sender_ethernet_address;
  sender_ip_address = i.ip_address;
  target_ip_address = m.sender_ip_address;
}

pub send_reply : NetworkInterface → ArpMessage → Option NetworkInterface
send_reply i m =
    push_frame i m.sender_ethernet_address type_arp (arp_payload (Arp.serialize (reply i m)))

-- `recv_frame` once it has found the sender's addresses to be of use.
pub learn : NetworkInterface → ArpMessage → Option NetworkInterface
learn i m =
    and_then
      (flush m.sender_ip_address
        (record i {
          arp_table =
              assign m.sender_ip_address
                (record { eth_addr = m.sender_ethernet_address; ttl = arp_entry_default_ttl })
                i.arp_table;
          waiting_datagrams = [];
        })
        i.waiting_datagrams)
      (λ i'.
        some
          (record i' { waiting_arp_response = erase m.sender_ip_address i'.waiting_arp_response }))

unfoldable pub is_valid_arp_request : NetworkInterface → ArpMessage → Bool
is_valid_arp_request i m = (m.opcode == opcode_request) && (m.target_ip_address == i.ip_address)

unfoldable pub is_valid_arp_reply : NetworkInterface → ArpMessage → Bool
is_valid_arp_reply i m =
    (m.opcode == opcode_reply) && same_address m.target_ethernet_address i.ethernet_address

-- `recv_frame` with the ARP message of the frame.
pub recv_message : NetworkInterface → ArpMessage → Option NetworkInterface
recv_message i m =
    and_then (if is_valid_arp_request i m then send_reply i m else some i)
      (λ i'. if is_valid_arp_reply i m || is_valid_arp_request i m then learn i' m else some i')

-- `recv_frame` after the parse of an ARP message.
recv_arp :
    NetworkInterface → ParseResult × ArpMessage → Option (Option Ipv4Datagram × NetworkInterface)
recv_arp i (r, m) =
    if failed r then some (none, i) else and_then (recv_message i m) (λ i'. some (none, i'))

-- `recv_frame` after the parse of a datagram.
recv_ipv4 :
    NetworkInterface → ParseResult × Ipv4Datagram → Option (Option Ipv4Datagram × NetworkInterface)
recv_ipv4 i (r, d) = if failed r then some (none, i) else some (some d, i)

abbrev pub new_datagram : Ipv4Datagram
new_datagram = record { header = new_header; payload = [] }

-- `recv_frame`: the datagram that it returns, beside the interface.
pub recv_frame : NetworkInterface → EthernetFrame → Option (Option Ipv4Datagram × NetworkInterface)
recv_frame i frame =
    if not (same_address frame.header.dst i.ethernet_address)
      && not (same_address frame.header.dst ethernet_broadcast)
    then some (none, i)
    else if frame.header.ether_type == type_ipv4
    then and_then (and_then (to_buffer frame.payload) (Ipv4.parse new_datagram)) (recv_ipv4 i)
    else if frame.header.ether_type == type_arp
    then and_then (and_then (to_buffer frame.payload) (Arp.parse new_message)) (recv_arp i)
    else some (none, i)

-- The first loop of `tick`.
pub age : ℕ → Table ArpEntry → Table ArpEntry
age ms [] = []
age ms ((ip, entry) ∷ rest) =
    let rest' = age ms rest in
    if leb entry.ttl ms then rest' else (ip, record entry { ttl = entry.ttl - ms }) ∷ rest'

-- What a loop gives on fuel.
pub data Ticked : Type 0 where
  still_running : Ticked
  thrown : Ticked
  ticked : NetworkInterface → Ticked

-- The second loop of `tick`: the requests before the iterator, and from it on. A request that is sent
-- again does not move the iterator.
pub resend : ℕ → ℕ → NetworkInterface → Table ℕ → Table ℕ → Ticked
resend zero ms i before [] = ticked (record i { waiting_arp_response = before })
resend zero ms i before (e ∷ rest) = still_running
resend (suc fuel) ms i before [] = ticked (record i { waiting_arp_response = before })
resend (suc fuel) ms i before ((ip, ttl) ∷ rest) = elim (leb ttl ms) [
  | true ↦ elim (send_request i ip) [
    | none ↦ thrown
    | some i' ↦ resend fuel ms i' before ((ip, arp_response_default_ttl) ∷ rest)
  ]
  | false ↦ resend fuel ms i (before ++ (ip, ttl - ms) ∷ []) rest
]

-- `tick`
pub tick : ℕ → NetworkInterface → ℕ → Ticked
tick fuel i ms =
    resend fuel ms (record i { arp_table = age ms i.arp_table }) [] i.waiting_arp_response

-- ===== src/Interface/Tests.antt =====
-- An interface that asks for an address, and what comes of it.
use tcp.Prelude.{◌≡◌, refl, [], ◌∷◌, ◌++◌, none, some, arith, map, and_then}
use tcp.Buffer.{Buffer, of_string}
use tcp.Buffer.Laws.{str-of_string}
use tcp.Ethernet.{EthernetFrame, all_bytes, type_arp, same_address}
use tcp.Router.{Address}
use tcp.Table.{Table, lookup}
use tcp.Arp.{ArpMessage, new_message, message_bytes, opcode_reply, supported}
use tcp.Ipv4.{Ipv4Datagram, new_header}
use tcp.Interface.{
  NetworkInterface, ArpEntry, new_interface, send_datagram, recv_frame, tick, ticked, still_running,
  is_valid_arp_request, is_valid_arp_reply,
}
use tcp.Interface.Sent.{send_datagram_asks, with_frames, request_frame}
use tcp.Interface.Tick.{expired, renewed, left_of, tick-ends, tick-never_ends}
use tcp.Interface.Learn.{waiting_frames, learnt, replies, recv_frame-learnt}
use tcp.Interface.Invariant.{IsValid}
use tcp.Interface.Reach.{made, sends, Reach-IsValid}

abbrev a_datagram : Ipv4Datagram
a_datagram = record { header = record new_header { len = 20; dst = 9 }; payload = [] }

abbrev empty : NetworkInterface
empty = new_interface (all_bytes 2) 0x0a000001

-- After a datagram for an unknown hop.
abbrev asking : NetworkInterface
asking = record (with_frames empty (request_frame empty 0x0a000002 ∷ [])) {
  waiting_arp_response = (0x0a000002, 5000) ∷ [];
  waiting_datagrams = (0x0a000002, a_datagram) ∷ [];
}

asks : send_datagram empty a_datagram 0x0a000002 ≡ some asking
asks = send_datagram_asks empty a_datagram 0x0a000002 refl refl

Reach-IsValid_example : IsValid asking
Reach-IsValid_example =
    Reach-IsValid (all_bytes 2) 0x0a000001 asking (sends a_datagram 0x0a000002 made asks)

-- It knows two addresses, one of them for a short time.
abbrev knowing : NetworkInterface
knowing = record asking {
  arp_table =
      (7, record { eth_addr = all_bytes 7; ttl = 30000 })
      ∷ (8, record { eth_addr = all_bytes 8; ttl = 4000 })
      ∷ [];
}

tick-ends_example :
    (table : Table ArpEntry) × (tick 2 knowing 4999
      ≡ ticked (record knowing {
        frames_out =
            knowing.frames_out
            ++ map (request_frame knowing) (expired 4999 knowing.waiting_arp_response);
        arp_table = table;
        waiting_arp_response = renewed 4999 knowing.waiting_arp_response;
      }))
    × ((ip : Address) → lookup ip table ≡ left_of 4999 (lookup ip knowing.arp_table))
tick-ends_example = tick-ends knowing 4999 2 (omega arith) (omega arith) (refl, (refl, tt))

tick-never_ends_example : tick 1000000 asking 5000 ≡ still_running
tick-never_ends_example =
    tick-never_ends asking 5000 [] [] 0x0a000002 5000 (omega arith) (omega arith) refl 1000000

abbrev an_answer : ArpMessage
an_answer = record new_message {
  opcode = opcode_reply;
  sender_ethernet_address = all_bytes 3;
  sender_ip_address = 0x0a000002;
  target_ethernet_address = all_bytes 2;
  target_ip_address = 0x0a000001;
}

abbrev a_buffer : Buffer
a_buffer = of_string (message_bytes an_answer ++ 0 ∷ [])

abbrev a_frame : EthernetFrame
a_frame = record {
  header = record { dst = all_bytes 2; src = all_bytes 3; ether_type = type_arp };
  payload = a_buffer ∷ [];
}

recv_frame-learnt_example :
    recv_frame asking a_frame
    ≡ and_then
        (waiting_frames asking an_answer)
        (λ fs. some (none, learnt (with_frames asking (replies asking an_answer)) an_answer fs))
unfolding same_address is_valid_arp_reply is_valid_arp_request supported
recv_frame-learnt_example =
    recv_frame-learnt asking a_frame a_buffer an_answer (0 ∷ []) refl refl refl
      (str-of_string (message_bytes an_answer ++ 0 ∷ [])) (omega arith) refl refl

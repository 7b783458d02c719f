-- ===== src/Simulator/Tests.antt =====
-- Two interfaces on one link.
use mathlib.Core.List.{Perm}
use tcp.Prelude.{none, ◌⊎◌, length, ◌+◌, ◌*◌, ◌≡◌, refl, [], ◌∷◌, some, arith}
use tcp.Buffer.{Buffer, BufferList, str, concatenate}
use tcp.Ethernet.{all_bytes}
use tcp.Ipv4.{Ipv4Datagram, new_header}
use tcp.Ipv4.RoundTrip.{with_sum, serialize_lem}
use tcp.Interface
use tcp.Interface.{NetworkInterface, new_interface}
use tcp.Simulator.{exchanges}
use tcp.Simulator.Hosts.{Host, check}
use tcp.Simulator.Hosts.Expected.{no_bytes, more_bytes, checked, check_lem}
use tcp.Simulator.Arrives.{IsQuiet, datagram_arrives}

abbrev a_datagram : Ipv4Datagram
a_datagram = record { header = record new_header { len = 20; dst = 9 }; payload = [] }

in_length :
    4 * a_datagram.header.hlen + length (concatenate a_datagram.payload) ≡ a_datagram.header.len
unfolding concatenate
in_length = refl

abbrev left : NetworkInterface
left = new_interface (all_bytes 2) 0x0a000001

abbrev right : NetworkInterface
right = new_interface (all_bytes 4) 0x0a000002

left-IsQuiet : IsQuiet left
left-IsQuiet = record { no_frames = refl; no_datagrams = refl }

right-IsQuiet : IsQuiet right
right-IsQuiet = record { no_frames = refl; no_datagrams = refl }

datagram_arrives_example :
    (sent x' y' : NetworkInterface) × (p : Buffer) × (Interface.send_datagram left a_datagram
        0x0a000002
      ≡ some sent)
    × (exchanges 3
          (record { interface = sent; datagrams_out = [] })
          (record { interface = right; datagrams_out = [] })
        ≡ some (
          record { interface = x'; datagrams_out = [] },
          record {
            interface = y';
            datagrams_out = record { header = with_sum a_datagram.header; payload = p ∷ [] } ∷ [];
          },
        ))
    × (str p ≡ [])
    × IsQuiet x'
    × IsQuiet y'
unfolding concatenate
datagram_arrives_example =
    datagram_arrives left right [] [] a_datagram (omega arith) (omega arith) left-IsQuiet
      right-IsQuiet refl refl (omega arith) refl

-- The bytes of the datagram.
abbrev its_bytes : BufferList
its_bytes = (serialize_lem a_datagram (omega arith) in_length).0

-- A host that has received what it expects.
abbrev a_host : Host
a_host = record {
  my_address = 9;
  interface = record { interface = right; datagrams_out = a_datagram ∷ [] };
  next_hop = 1;
  expecting_to_receive = a_datagram ∷ [];
}

check_lem_example :
    (Perm (concatenate its_bytes ∷ []) (concatenate its_bytes ∷ [])
      × (check a_host ≡ some (checked a_host)))
    ⊎ ((¬ Perm (concatenate its_bytes ∷ []) (concatenate its_bytes ∷ [])) × (check a_host ≡ none))
check_lem_example =
    check_lem a_host (concatenate its_bytes ∷ []) (concatenate its_bytes ∷ [])
      (more_bytes its_bytes (serialize_lem a_datagram (omega arith) in_length).1 no_bytes)
      (more_bytes its_bytes (serialize_lem a_datagram (omega arith) in_length).1 no_bytes)

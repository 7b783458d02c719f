-- ===== src/Network/Tests.antt =====
-- A router of two interfaces that passes a datagram on.
use tcp.Prelude.{◌≡◌, refl, [], ◌∷◌, some}
use tcp.Ethernet.{all_bytes}
use tcp.Ipv4.{Ipv4Datagram, new_header}
use tcp.Router as Choice
use tcp.Router.{RouteItem}
use tcp.Interface.{new_interface}
use tcp.Interface.Sent.{asked, send_datagram_asks}
use tcp.Network.{
  AsyncNetworkInterface, Router, route, route_from, route_interface, route_queue,
  route_one_datagram, send_routed, send_on, emptied,
}

abbrev a_datagram : Ipv4Datagram
a_datagram = record { header = record new_header { len = 20; dst = 0x0a000009 }; payload = [] }

abbrev sent_datagram : Ipv4Datagram
sent_datagram = record {
  header = record new_header { len = 20; dst = 0x0a000009; ttl = 127 };
  payload = [];
}

abbrev outer : AsyncNetworkInterface
outer = record { interface = new_interface (all_bytes 2) 1; datagrams_out = [] }

abbrev inner : AsyncNetworkInterface
inner = record { interface = new_interface (all_bytes 4) 2; datagrams_out = a_datagram ∷ [] }

abbrev before : Router
before = record {
  interfaces = outer ∷ inner ∷ [];
  route_table =
      record { route_prefix = 0; prefix_length = 0; next_hop = some 9; interface_num = 0 } ∷ [];
}

abbrev after : Router
after = record before {
  interfaces =
      record outer { interface = asked outer.interface sent_datagram 9 }
      ∷ record inner { datagrams_out = [] }
      ∷ [];
}

routed : route before ≡ some after
unfolding route route_from route_interface route_queue route_one_datagram send_routed send_on
    emptied Choice.route_one_datagram Choice.find_entry Choice.matches
routed = rw (send_datagram_asks outer.interface sent_datagram 9 refl refl) refl

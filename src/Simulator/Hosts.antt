-- ===== src/Simulator/Hosts.antt =====
-- apps/network_simulator.cc: Host, and the class Network of hosts around a router.
pub mod Expected
use tcp.Prelude.{
  ℕ, zero, suc, ◌+◌, ◌*◌, ◌/◌, ◌%◌, ◌^◌, Bool, true, false, not, ◌&&◌, List, [], ◌∷◌, ◌++◌, Option,
  none, some, and_then, ◌==◌, if◌then◌else◌, get_elem?, u16_mod,
}
use tcp.Buffer.{concatenate, list_of_string, size}
use tcp.Router.{Address, RouteItem}
use tcp.Ethernet.{EthernetAddress}
use tcp.Ipv4
use tcp.Ipv4.{Ipv4Datagram, new_header}
use tcp.Interface
use tcp.Interface.{NetworkInterface, new_interface}
use tcp.Network.{AsyncNetworkInterface, Router, route}
use tcp.Simulator.{exchange_frames, exchange_frames3}

pub record Host : Type 0 where
  pub my_address : Address
  pub interface : AsyncNetworkInterface
  pub next_hop : Address
  pub expecting_to_receive : List Ipv4Datagram

abbrev pub async_interface : EthernetAddress → Address → AsyncNetworkInterface
async_interface eth ip = record { interface = new_interface eth ip; datagrams_out = [] }

-- `random_host_ethernet_address`, of six random bytes.
pub random_host_ethernet_address : EthernetAddress → EthernetAddress
random_host_ethernet_address r = record r { byte0 = r.byte0 / 4 * 4 + 2 }

-- `random_router_ethernet_address`, of six random bytes.
pub random_router_ethernet_address : EthernetAddress → EthernetAddress
random_router_ethernet_address r = record r { byte0 = 2; byte1 = 0; byte2 = 0 }

-- `Host(name, my_address, next_hop)`
pub new_host : EthernetAddress → Address → Address → Host
new_host random my_address next_hop = record {
  my_address = my_address;
  interface = async_interface (random_host_ethernet_address random) my_address;
  next_hop = next_hop;
  expecting_to_receive = [];
}

-- The datagram of `send_to`, with `text` as the random payload.
unfoldable pub host_datagram : Host → Address → ℕ → List ℕ → Ipv4Datagram
host_datagram h destination ttl text = record {
  header = record new_header {
    src = h.my_address;
    dst = destination;
    len = (new_header.hlen * 4 + size (list_of_string text)) % u16_mod;
    ttl = ttl;
  };
  payload = list_of_string text;
}

abbrev pub with_interface : Host → AsyncNetworkInterface → Host
with_interface h a = record h { interface = a }

-- `send_to`: the datagram, beside the host.
unfoldable pub send_to : Host → Address → ℕ → List ℕ → Option (Ipv4Datagram × Host)
send_to h destination ttl text =
    let d = host_datagram h destination ttl text in
    and_then (Interface.send_datagram h.interface.interface d h.next_hop)
      (λ i. some (d, with_interface h (record h.interface { interface = i })))

abbrev pub expect : Host → Ipv4Datagram → Host
expect h d = record h { expecting_to_receive = h.expecting_to_receive ++ d ∷ [] }

-- `==` of two strings.
pub same_string : List ℕ → List ℕ → Bool
same_string [] [] = true
same_string [] (b ∷ t) = false
same_string (a ∷ s) [] = false
same_string (a ∷ s) (b ∷ t) = (a == b) && same_string s t

-- `x.serialize().concatenate() == expected.serialize().concatenate()`
pub same_bytes : Ipv4Datagram → Ipv4Datagram → Option Bool
same_bytes x expected = and_then (Ipv4.serialize x) (λ a.
    and_then (Ipv4.serialize expected) (λ b. some (same_string (concatenate a) (concatenate b))))

-- The loop of `expecting`.
pub expecting : List Ipv4Datagram → Ipv4Datagram → Option Bool
expecting [] d = some false
expecting (x ∷ rest) d =
    and_then (same_bytes x d) (λ same. elim same [ true ↦ some true | false ↦ expecting rest d ])

-- The loop of `remove_expectation`.
pub remove_expectation : List Ipv4Datagram → Ipv4Datagram → Option (List Ipv4Datagram)
remove_expectation [] d = some []
remove_expectation (x ∷ rest) d = and_then (same_bytes x d) (λ same. elim same [
  | true ↦ some rest
  | false ↦ and_then (remove_expectation rest d) (λ kept. some (x ∷ kept))
])

-- The loop of `check`: what is still expected after the datagrams.
pub check_received : List Ipv4Datagram → List Ipv4Datagram → Option (List Ipv4Datagram)
check_received [] expected = some expected
check_received (d ∷ rest) expected = and_then (expecting expected d) (λ known.
    if not known then none else and_then (remove_expectation expected d) (check_received rest))

-- `check` past its loop.
pub check_missing : Host → List Ipv4Datagram → Option Host
check_missing h [] =
    some (record h {
      interface = record h.interface { datagrams_out = [] };
      expecting_to_receive = [];
    })
check_missing h (d ∷ expected) = none

-- `check`
pub check : Host → Option Host
check h =
    and_then (check_received h.interface.datagrams_out h.expecting_to_receive) (check_missing h)

-- `ip("a.b.c.d")`
abbrev pub ip : ℕ → ℕ → ℕ → ℕ → Address
ip a b c d = a * 2 ^ 24 + b * 2 ^ 16 + c * 2 ^ 8 + d

-- The class Network: the router, whose interfaces have the numbers 0 to 6, and the hosts by name.
pub record Lan : Type 0 where
  pub router : Router
  pub applesauce : Host
  pub default_router : Host
  pub cherrypie : Host
  pub hs_router : Host
  pub dm42 : Host
  pub dm43 : Host

-- An interface of the router, of a random address.
router_interface : EthernetAddress → Address → AsyncNetworkInterface
router_interface random address = async_interface (random_router_ethernet_address random) address

abbrev route_to : Address → ℕ → Option Address → ℕ → RouteItem
route_to prefix length hop n = record {
  route_prefix = prefix;
  prefix_length = length;
  next_hop = hop;
  interface_num = n;
}

-- The router of `Network()`; `random` gives the bytes of its addresses.
pub lan_router : (ℕ → EthernetAddress) → Router
unfolding router_interface
lan_router random = record {
  interfaces =
      router_interface (random 0) (ip 171 67 76 46)
      ∷ router_interface (random 1) (ip 10 0 0 1)
      ∷ router_interface (random 2) (ip 172 16 0 1)
      ∷ router_interface (random 3) (ip 192 168 0 1)
      ∷ router_interface (random 4) (ip 198 178 229 1)
      ∷ router_interface (random 5) (ip 143 195 0 2)
      ∷ router_interface (random 6) (ip 128 30 76 255)
      ∷ [];
  route_table =
      route_to (ip 0 0 0 0) 0 (some (ip 171 67 76 1)) 0
      ∷ route_to (ip 10 0 0 0) 8 none 1
      ∷ route_to (ip 172 16 0 0) 16 none 2
      ∷ route_to (ip 192 168 0 0) 24 none 3
      ∷ route_to (ip 198 178 229 0) 24 none 4
      ∷ route_to (ip 143 195 0 0) 17 (some (ip 143 195 0 1)) 5
      ∷ route_to (ip 143 195 128 0) 18 (some (ip 143 195 0 1)) 5
      ∷ route_to (ip 143 195 192 0) 19 (some (ip 143 195 0 1)) 5
      ∷ route_to (ip 128 30 76 255) 16 (some (ip 128 30 0 1)) 6
      ∷ [];
}

-- `Network()`
pub new_lan : (ℕ → EthernetAddress) → Lan
new_lan random = record {
  router = lan_router random;
  applesauce = new_host (random 7) (ip 10 0 0 2) (ip 10 0 0 1);
  default_router = new_host (random 8) (ip 171 67 76 1) (ip 0 0 0 0);
  cherrypie = new_host (random 9) (ip 192 168 0 2) (ip 192 168 0 1);
  hs_router = new_host (random 10) (ip 143 195 0 1) (ip 0 0 0 0);
  dm42 = new_host (random 11) (ip 198 178 229 42) (ip 198 178 229 1);
  dm43 = new_host (random 12) (ip 198 178 229 43) (ip 198 178 229 1);
}

put_interface : ℕ → AsyncNetworkInterface → List AsyncNetworkInterface → List AsyncNetworkInterface
put_interface n a [] = []
put_interface zero a (b ∷ rest) = a ∷ rest
put_interface (suc n) a (b ∷ rest) = b ∷ put_interface n a rest

-- `exchange_frames` of the interface `n` of the router and a host.
pub exchange_with : ℕ → Router → Host → Option (Router × Host)
unfolding put_interface
exchange_with n r h = and_then (get_elem? r.interfaces n) (λ a.
    and_then (exchange_frames a h.interface) (λ (a', b').
      some (record r { interfaces = put_interface n a' r.interfaces }, with_interface h b')))

-- `exchange_frames` of the interface `n` of the router and two hosts.
pub exchange_with3 : ℕ → Router → Host → Host → Option (Router × (Host × Host))
unfolding put_interface
exchange_with3 n r h k = and_then (get_elem? r.interfaces n) (λ a.
    and_then (exchange_frames3 a h.interface k.interface) (λ (a', (b', c')). some (
      record r { interfaces = put_interface n a' r.interfaces },
      (with_interface h b', with_interface k c'),
    )))

pub simulate_physical_connections : Lan → Option Lan
simulate_physical_connections l =
    and_then (exchange_with 0 l.router l.default_router) (λ (r0, default_router).
      and_then (exchange_with 1 r0 l.applesauce) (λ (r1, applesauce).
        and_then (exchange_with 3 r1 l.cherrypie) (λ (r2, cherrypie).
          and_then (exchange_with 5 r2 l.hs_router) (λ (r3, hs_router).
            and_then (exchange_with3 4 r3 l.dm42 l.dm43) (λ (r4, (dm42, dm43)). some (record {
              router = r4;
              applesauce = applesauce;
              default_router = default_router;
              cherrypie = cherrypie;
              hs_router = hs_router;
              dm42 = dm42;
              dm43 = dm43;
            }))))))

-- The first loop of `simulate`, of so many rounds.
pub simulate_rounds : ℕ → Lan → Option Lan
simulate_rounds zero l = some l
simulate_rounds (suc n) l =
    and_then (route l.router)
      (λ r. and_then (simulate_physical_connections (record l { router = r })) (simulate_rounds n))

-- The second loop of `simulate`. The order of the hosts is not specified, and does not matter.
pub check_hosts : Lan → Option Lan
check_hosts l = and_then (check l.applesauce) (λ applesauce.
    and_then (check l.default_router) (λ default_router. and_then (check l.cherrypie) (λ cherrypie.
      and_then (check l.hs_router) (λ hs_router. and_then (check l.dm42) (λ dm42.
        and_then (check l.dm43) (λ dm43. some (record {
          router = l.router;
          applesauce = applesauce;
          default_router = default_router;
          cherrypie = cherrypie;
          hs_router = hs_router;
          dm42 = dm42;
          dm43 = dm43;
        })))))))

-- `simulate`
pub simulate : Lan → Option Lan
simulate l = and_then (simulate_rounds 256 l) check_hosts

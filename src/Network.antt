-- ===== src/Network.antt =====
-- libsponge/router.hh and .cc: the router with its interfaces. A call that throws returns `none`. The
-- choice of the route is in Router.
pub mod Queues
mod Tests
use tcp.Prelude.{
  ℕ, zero, suc, ◌+◌, List, [], ◌∷◌, ◌++◌, Option, none, some, and_then, length, get_elem?,
}
use tcp.Ethernet.{EthernetFrame}
use tcp.Ipv4.{Ipv4Datagram}
use tcp.Router as Choice
use tcp.Router.{Address, RouteItem, Routed}
use tcp.Interface
use tcp.Interface.{NetworkInterface}

pub record AsyncNetworkInterface : Type 0 where
  pub interface : NetworkInterface
  pub datagrams_out : List Ipv4Datagram

abbrev pub push_some : List Ipv4Datagram → Option Ipv4Datagram → List Ipv4Datagram
push_some ds none = ds
push_some ds (some d) = ds ++ d ∷ []

-- `AsyncNetworkInterface::recv_frame`
unfoldable pub recv_frame : AsyncNetworkInterface → EthernetFrame → Option AsyncNetworkInterface
recv_frame a frame =
    and_then (Interface.recv_frame a.interface frame)
      (λ (d, i). some (record { interface = i; datagrams_out = push_some a.datagrams_out d }))

pub record Router : Type 0 where
  pub interfaces : List AsyncNetworkInterface
  pub route_table : List RouteItem

-- `add_interface`: the number of the interface, beside the router.
pub add_interface : Router → AsyncNetworkInterface → ℕ × Router
add_interface r a = (length r.interfaces, record r { interfaces = r.interfaces ++ a ∷ [] })

-- `interface(n).send_datagram(dgram, next_hop)`
pub send_on :
    ℕ → List AsyncNetworkInterface → Ipv4Datagram → Address → Option (List AsyncNetworkInterface)
send_on n [] d next_hop = none
send_on zero (a ∷ others) d next_hop =
    and_then (Interface.send_datagram a.interface d next_hop)
      (λ i. some (record a { interface = i } ∷ others))
send_on (suc n) (a ∷ others) d next_hop =
    and_then (send_on n others d next_hop) (λ sent. some (a ∷ sent))

-- `route_one_datagram` past the choice of the route.
pub send_routed : Router → Ipv4Datagram → Option Routed → Option Router
send_routed r d none = some r
send_routed r d (some route) =
    and_then
      (send_on route.interface_num r.interfaces
        (record d { header = record d.header { ttl = route.ttl } }) route.next_hop)
      (λ others. some (record r { interfaces = others }))

-- `route_one_datagram`
pub route_one_datagram : Router → Ipv4Datagram → Option Router
route_one_datagram r d =
    send_routed r d (Choice.route_one_datagram r.route_table d.header.dst d.header.ttl)

-- The loop of `route` over the datagrams of one queue. Sending puts nothing on these queues.
pub route_queue : List Ipv4Datagram → Router → Option Router
route_queue [] r = some r
route_queue (d ∷ ds) r = and_then (route_one_datagram r d) (route_queue ds)

abbrev pub queue_of : Option AsyncNetworkInterface → List Ipv4Datagram
queue_of none = []
queue_of (some a) = a.datagrams_out

-- The queue of the interface `k` after its loop.
pub emptied : ℕ → List AsyncNetworkInterface → List AsyncNetworkInterface
emptied k [] = []
emptied zero (a ∷ others) = record a { datagrams_out = [] } ∷ others
emptied (suc k) (a ∷ others) = a ∷ emptied k others

-- A round of the outer loop of `route`.
pub route_interface : ℕ → Router → Option Router
route_interface k r =
    and_then (route_queue (queue_of (get_elem? r.interfaces k)) r)
      (λ r'. some (record r' { interfaces = emptied k r'.interfaces }))

-- The outer loop: the rounds that are left, and the next interface.
pub route_from : ℕ → ℕ → Router → Option Router
route_from zero k r = some r
route_from (suc n) k r = and_then (route_interface k r) (route_from n (k + 1))

-- `route`
pub route : Router → Option Router
route r = route_from (length r.interfaces) 0 r

-- ===== src/Router/Tests.antt =====
-- Tests and concrete instances for the router: 10.0.0.0/8, a longer route in it, and a default route.
use tcp.Prelude.{◌/◌, ◌^◌, ◌+◌, ◌<◌, ◌≡◌, refl, true, List, [], ◌∷◌, none, some, arith, ◌==◌}
use tcp.Router.{RouteItem, Routed, matches, find_entry, route_one_datagram}
use tcp.Router.Shift.{matches_lem}
use tcp.Router.Longest.{In, Best, route_one_datagram_lem}

abbrev wide : RouteItem
wide = record { route_prefix = 0x0a00_0000; prefix_length = 8; next_hop = none; interface_num = 1 }

abbrev narrow : RouteItem
narrow = record {
  route_prefix = 0x0a01_0000;
  prefix_length = 16;
  next_hop = some 7;
  interface_num = 2;
}

abbrev default_route : RouteItem
default_route = record { route_prefix = 0; prefix_length = 0; next_hop = some 9; interface_num = 0 }

abbrev table : List RouteItem
table = wide ∷ narrow ∷ default_route ∷ []

matches_lem_example : matches 0x0a01_0203 narrow ≡ (0x0a01_0000 / 2 ^ 16 == 0x0a01_0203 / 2 ^ 16)
matches_lem_example = matches_lem 0x0a01_0203 narrow (omega arith) (omega arith) (omega arith)

abbrev routed : Routed
routed = record { interface_num = 2; next_hop = 7; ttl = 63 }

routed_lem : route_one_datagram table 0x0a01_0203 64 ≡ some routed
unfolding route_one_datagram find_entry matches
routed_lem = refl

route_one_datagram_lem_example :
    (e : RouteItem) × In e table
    × (matches 0x0a01_0203 e ≡ true)
    × Best 0x0a01_0203 (some e) table
    × (2 ≡ e.interface_num)
    × (0 < 63)
    × (63 + 1 ≡ 64)
route_one_datagram_lem_example =
    route_one_datagram_lem table 0x0a01_0203 64 routed (omega arith) routed_lem

-- ===== src/Router.antt =====
-- libsponge/router.cc and .hh: the choice of the route for a datagram. Sending on the interface is in
-- Network: a routed datagram is the number of the interface, the next hop and the new ttl.
pub mod Shift
pub mod Longest
mod Tests
use tcp.Prelude.{
  ℕ, zero, suc, ◌+◌, ◌-◌, ◌*◌, ◌/◌, ◌%◌, Bool, true, false, not, ◌&&◌, ◌||◌, List, [], ◌∷◌, ◌++◌,
  Option, none, some, ltb, ◌==◌, if◌then◌else◌,
}

-- An Address, as its 32-bit number.
abbrev pub Address : Type 0
Address = ℕ

pub record RouteItem : Type 0 where
  pub route_prefix : ℕ
  pub prefix_length : ℕ
  pub next_hop : Option Address
  pub interface_num : ℕ

-- `a ^ b` on the lowest `w` bits.
pub xor : ℕ → ℕ → ℕ → ℕ
xor zero a b = 0
xor (suc w) a b = let rest = xor w (a / 2) (b / 2) in (if a % 2 == b % 2 then 0 else 1) + rest * 2

-- `a` without its `k` low bits.
pub drop_bits : ℕ → ℕ → ℕ
drop_bits zero a = a
drop_bits (suc k) a = drop_bits k (a / 2)

-- `a >> (32 - length)` on 32 bits: `none` where the language does not define it, by 32 or by less than 0.
pub shift_right : ℕ → ℕ → Option ℕ
unfolding drop_bits
shift_right length a =
    if (length == 0) || ltb 32 length then none else some (drop_bits (32 - length) a)

-- Whether the bits are all 0. What is not defined is taken to fail the test.
is_zero : Option ℕ → Bool
is_zero none = false
is_zero (some bits) = bits == 0

unfoldable pub add_route : List RouteItem → RouteItem → List RouteItem
add_route table item = table ++ item ∷ []

unfoldable pub matches : ℕ → RouteItem → Bool
unfolding xor shift_right is_zero
matches dst item =
    (item.prefix_length == 0)
    || is_zero (shift_right item.prefix_length (xor 32 item.route_prefix dst))

-- The entry is taken if there is none yet, or the one there has a shorter prefix.
pub better : Option RouteItem → RouteItem → Bool
better none item = true
better (some m) item = ltb m.prefix_length item.prefix_length

-- The loop over the table; `m` is `match_entry`.
unfoldable pub find_entry : ℕ → Option RouteItem → List RouteItem → Option RouteItem
unfolding better
find_entry dst m [] = m
find_entry dst m (item ∷ rest) =
    find_entry dst (if matches dst item && better m item then some item else m) rest

pub record Routed : Type 0 where
  pub interface_num : ℕ
  pub next_hop : Address
  pub ttl : ℕ

-- An entry without a next hop is for a network that is directly attached.
hop : ℕ → Option Address → Address
hop dst none = dst
hop dst (some a) = a

-- With an entry, `ttl--` is taken before the test of its old value.
forward : ℕ → ℕ → Option RouteItem → Option Routed
unfolding hop
forward dst ttl none = none
forward dst ttl (some m) =
    if ltb 1 ttl
    then some (record {
      interface_num = m.interface_num;
      next_hop = hop dst m.next_hop;
      ttl = (ttl + 255) % 256;
    })
    else none

-- What `route_one_datagram` sends for a datagram to `dst`; `none` drops it.
unfoldable pub route_one_datagram : List RouteItem → ℕ → ℕ → Option Routed
unfolding forward find_entry
route_one_datagram table dst ttl = forward dst ttl (find_entry dst none table)

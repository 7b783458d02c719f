-- ===== src/Network/Queues.antt =====
-- What `route` leaves: empty queues, and valid interfaces.
use tcp.Prelude.{
  ℕ, zero, suc, ◌+◌, ◌<◌, ◌≡◌, refl, sym, ap, ◌∙◌, List, [], ◌∷◌, ◌++◌, append_assoc, append-nil,
  Option, none, some, length, get_elem?, take, take_all, map, replicate, Each, Each-and_then,
  Each-weaken, subst, arith,
}
use tcp.Ipv4.{Ipv4Datagram}
use tcp.Router as Choice
use tcp.Router.{Address, RouteItem, Routed}
use tcp.Interface
use tcp.Interface.{NetworkInterface}
use tcp.Interface.Invariant
use tcp.Interface.Preserve.{send_datagram-IsValid}
use tcp.Network.{
  AsyncNetworkInterface, Router, send_on, send_routed, route_one_datagram, route_queue, queue_of,
  emptied, route_interface, route_from, route,
}

-- Each interface is valid.
abbrev pub AllValid : List AsyncNetworkInterface → Type 0
AllValid [] = Unit {0}
AllValid (a ∷ others) = Invariant.IsValid a.interface × AllValid others

abbrev pub queues : List AsyncNetworkInterface → List (List Ipv4Datagram)
queues = map (λ a. a.datagrams_out)

-- Sending keeps the interfaces valid and their queues of received datagrams as they are.
record Sends (before after : List AsyncNetworkInterface) : Type 0 where
  valid : AllValid after
  same : queues after ≡ queues before

send_on-Sends :
    (n : ℕ) (others : List AsyncNetworkInterface) (d : Ipv4Datagram) (hop : Address)
    → AllValid others
    → Each (Sends others) (send_on n others d hop)
unfolding send_on
send_on-Sends zero [] d hop v = tt
send_on-Sends (suc n) [] d hop v = tt
send_on-Sends zero (a ∷ others) d hop v =
    Each-and_then Invariant.IsValid (Sends (a ∷ others)) (Interface.send_datagram a.interface d hop)
      _ (send_datagram-IsValid a.interface d hop v.0)
      (λ i h. record { valid = (h, v.1); same = refl })
send_on-Sends (suc n) (a ∷ others) d hop v =
    Each-and_then (Sends others) (Sends (a ∷ others)) (send_on n others d hop) _
      (send_on-Sends n others d hop v.1)
      (λ sent h. record { valid = (v.0, h.valid); same = ap (◌∷◌ a.datagrams_out) h.same })

-- The same of a router, whose table stays.
record Routes (before after : Router) : Type 0 where
  sends : Sends before.interfaces after.interfaces
  table : after.route_table ≡ before.route_table

send_routed-Routes :
    (r : Router) (d : Ipv4Datagram) (o : Option Routed)
    → AllValid r.interfaces
    → Each (Routes r) (send_routed r d o)
unfolding send_routed
send_routed-Routes r d none v = record { sends = record { valid = v; same = refl }; table = refl }
send_routed-Routes r d (some x) v =
    Each-and_then (Sends r.interfaces) (Routes r)
      (send_on x.interface_num r.interfaces (record d { header = record d.header { ttl = x.ttl } })
        x.next_hop)
      _ (send_on-Sends x.interface_num r.interfaces _ x.next_hop v)
      (λ others h. record { sends = h; table = refl })

route_queue-Routes :
    (ds : List Ipv4Datagram) (r : Router)
    → AllValid r.interfaces
    → Each (Routes r) (route_queue ds r)
unfolding route_queue route_one_datagram
route_queue-Routes [] r v = record { sends = record { valid = v; same = refl }; table = refl }
route_queue-Routes (d ∷ ds) r v =
    Each-and_then (Routes r) (Routes r) (route_one_datagram r d) (route_queue ds)
      (send_routed-Routes r d (Choice.route_one_datagram r.route_table d.header.dst d.header.ttl) v)
      (λ r1 h1.
        Each-weaken (Routes r1) (Routes r) (route_queue ds r1)
          (λ r2 h2. record {
            sends = record { valid = h2.sends.valid; same = h2.sends.same ∙ h1.sends.same };
            table = h2.table ∙ h1.table;
          })
          (route_queue-Routes ds r1 h1.sends.valid))

-- The queues with the one at `k` empty.
abbrev without : ℕ → List (List Ipv4Datagram) → List (List Ipv4Datagram)
without k [] = []
without zero (q ∷ qs) = [] ∷ qs
without (suc k) (q ∷ qs) = q ∷ without k qs

queues-emptied :
    (k : ℕ) (l : List AsyncNetworkInterface) → queues (emptied k l) ≡ without k (queues l)
unfolding emptied
queues-emptied k [] = refl
queues-emptied zero (a ∷ l) = refl
queues-emptied (suc k) (a ∷ l) = ap (◌∷◌ a.datagrams_out) (queues-emptied k l)

emptied-AllValid : (k : ℕ) (l : List AsyncNetworkInterface) → AllValid l → AllValid (emptied k l)
unfolding emptied
emptied-AllValid k [] v = tt
emptied-AllValid zero (a ∷ l) v = v
emptied-AllValid (suc k) (a ∷ l) v = (v.0, emptied-AllValid k l v.1)

take-without :
    (k : ℕ) (qs : List (List Ipv4Datagram))
    → k < length qs
    → take (suc k) (without k qs) ≡ take k qs ++ [] ∷ []
take-without k [] h = absurd (omega arith)
take-without zero (q ∷ qs) h = refl
take-without (suc k) (q ∷ qs) h = ap (◌∷◌ q) (take-without k qs (omega arith))

length-without : (k : ℕ) (qs : List (List Ipv4Datagram)) → length (without k qs) ≡ length qs
length-without k [] = refl
length-without zero (q ∷ qs) = refl
length-without (suc k) (q ∷ qs) = ap suc (length-without k qs)

-- The queues are these, the interfaces are valid, and the table is that of `r`.
record Leaves (r : Router) (qs : List (List Ipv4Datagram)) (r' : Router) : Type 0 where
  pub valid : AllValid r'.interfaces
  pub left : queues r'.interfaces ≡ qs
  pub table : r'.route_table ≡ r.route_table

route_interface-Leaves :
    (k : ℕ) (r : Router)
    → AllValid r.interfaces
    → Each (Leaves r (without k (queues r.interfaces))) (route_interface k r)
unfolding route_interface
route_interface-Leaves k r v =
    let ds = queue_of (get_elem? r.interfaces k) in
    Each-and_then (Routes r) (Leaves r (without k (queues r.interfaces))) (route_queue ds r) _
      (route_queue-Routes ds r v)
      (λ r1 h. record {
        valid = emptied-AllValid k r1.interfaces h.sends.valid;
        left = queues-emptied k r1.interfaces ∙ ap (without k) h.sends.same;
        table = h.table;
      })

-- The queues before the next interface are kept, the others end up empty.
route_from-Leaves :
    (n k : ℕ) (r : Router)
    → AllValid r.interfaces
    → n + k ≡ length (queues r.interfaces)
    → Each (Leaves r (take k (queues r.interfaces) ++ replicate n [])) (route_from n k r)
unfolding route_from
route_from-Leaves zero k r v e = record {
  valid = v;
  left = sym (append-nil _ ∙ take_all k (queues r.interfaces) (omega (arith, e)));
  table = refl;
}
route_from-Leaves (suc n) k r v e =
    let qs = queues r.interfaces in
    let one : k + 1 ≡ suc k = omega arith in
    let next : (r1 : Router)
        → queues r1.interfaces ≡ without k qs
        → take (k + 1) (queues r1.interfaces) ++ replicate n [] ≡ take k qs ++ [] ∷ replicate n [] =
      λ r1 same.
        ap (λ x. take (k + 1) x ++ replicate n []) same
        ∙ ap (λ j. take j (without k qs) ++ replicate n []) one
        ∙ ap (λ x. x ++ replicate n []) (take-without k qs (omega (arith, e)))
        ∙ append_assoc (take k qs) ([] ∷ []) (replicate n []) in
    Each-and_then (Leaves r (without k qs)) (Leaves r (take k qs ++ [] ∷ replicate n []))
      (route_interface k r) (route_from n (k + 1)) (route_interface-Leaves k r v)
      (λ r1 h.
        Each-weaken (Leaves r1 (take (k + 1) (queues r1.interfaces) ++ replicate n []))
          (Leaves r (take k qs ++ [] ∷ replicate n [])) (route_from n (k + 1) r1)
          (λ r2 h2. record {
            valid = h2.valid;
            left = h2.left ∙ next r1 h.left;
            table = h2.table ∙ h.table;
          })
          (route_from-Leaves n (k + 1) r1 h.valid
            (omega (arith, e, ap length h.left, length-without k qs))))

length-queues : (l : List AsyncNetworkInterface) → length (queues l) ≡ length l
length-queues [] = refl
length-queues (a ∷ l) = ap suc (length-queues l)

-- If the interfaces are valid and routing throws nothing: every datagram that the interfaces had
-- received is gone from their queues, whose number stays, the interfaces are still valid, and the
-- table is as it was.
pub route-Leaves :
    (r r' : Router)
    → AllValid r.interfaces
    → route r ≡ some r'
    → (queues r'.interfaces ≡ replicate (length r.interfaces) [])
      × AllValid r'.interfaces
      × (r'.route_table ≡ r.route_table)
unfolding route
route-Leaves r r' v e =
    let all =
      route_from-Leaves (length r.interfaces) 0 r v (omega (arith, length-queues r.interfaces)) in
    let h =
      subst (Each (Leaves r (take 0 (queues r.interfaces) ++ replicate (length r.interfaces) []))) e
        all in
    (h.left, h.valid, h.table)

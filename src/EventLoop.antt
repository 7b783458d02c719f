-- ===== src/EventLoop.antt =====
-- libsponge/util/eventloop.cc and .hh: waiting for events and calling the callbacks of rules. What the
-- callbacks close over is the world `S`, passed from one to the next; what poll(2) reports is an
-- argument. A callback, or the loop, that throws returns `none`. No callback changes the rules.
pub mod Cooperative
mod Tests
use tcp.Prelude.{
  ℕ, Bool, true, false, not, ◌&&◌, ◌||◌, List, [], ◌∷◌, Option, none, some, ◌==◌, if◌then◌else◌,
  and_then, map,
}
use tcp.FileDescriptor.{FileDescriptor}

pub data Direction : Type 0 where
  reading : Direction
  writing : Direction

pub record Rule (S : Type 0) : Type 0 where
  pub fd : S → FileDescriptor
  pub direction : Direction
  pub callback : S → Option S
  pub interest : S → Bool
  pub cancel : S → Option S

pub data Result : Type 0 where
  success : Result
  timeout : Result
  exits : Result

-- `== Result::Exit`
unfoldable pub is_exit : Result → Bool
is_exit success = false
is_exit timeout = false
is_exit exits = true

-- The bits of `revents`: POLLIN, POLLOUT, POLLERR or POLLNVAL, and POLLHUP.
pub record Revents : Type 0 where
  pub readable : Bool
  pub writable : Bool
  pub error : Bool
  pub hup : Bool

abbrev pub no_revents : Revents
no_revents = record { readable = false; writable = false; error = false; hup = false }

-- What poll(2) does. An entry that the list does not reach has no bits.
pub data Polled : Type 0 where
  timed_out : Polled
  interrupted : Polled
  failed : Polled
  ready : List Revents → Polled

-- `revents & direction`
pub has_direction : Direction → Revents → Bool
has_direction reading v = v.readable
has_direction writing v = v.writable

-- `revents & events`, for an entry that asks or one that does not.
pub poll_ready : Bool → Direction → Revents → Bool
poll_ready asks d v = asks && has_direction d v

is_in : Direction → Bool
is_in reading = true
is_in writing = false

first_revents : List Revents → Revents
first_revents [] = no_revents
first_revents (v ∷ vs) = v

other_revents : List Revents → List Revents
other_revents [] = []
other_revents (v ∷ vs) = vs

module _ {S : Type 0} where
  unfoldable pub service_count : Rule S → S → ℕ
  service_count r s = elim r.direction [
    | reading ↦ (r.fd s).read_count
    | writing ↦ (r.fd s).write_count
  ]

  pub add_rule :
      List (Rule S)
      → (S → FileDescriptor)
      → Direction
      → (S → Option S)
      → (S → Bool)
      → (S → Option S)
      → List (Rule S)
  add_rule [] fd direction callback interest cancel =
      record {
        fd = fd;
        direction = direction;
        callback = callback;
        interest = interest;
        cancel = cancel;
      }
      ∷ []
  add_rule (r ∷ rules) fd direction callback interest cancel =
      r ∷ add_rule rules fd direction callback interest cancel

  -- The rule is at its end.
  pub defunct : Rule S → S → Bool
  unfolding is_in
  defunct r s = (is_in r.direction && (r.fd s).eof) || (r.fd s).closed

  -- The first loop of `wait_next_event`: the rules that are kept, and whether the entry of each asks.
  pub setup : List (Rule S) → S → Option (List (Rule S × Bool) × S)
  unfolding defunct
  setup [] s = some ([], s)
  setup (r ∷ rules) s = elim (defunct r s) [
    | true ↦ and_then (r.cancel s) (setup rules)
    | false ↦ and_then (setup rules s) (λ (kept, s'). some ((r, r.interest s) ∷ kept, s'))
  ]

  pub something_to_poll : List (Rule S × Bool) → Bool
  something_to_poll [] = false
  something_to_poll ((r, asks) ∷ kept) = asks || something_to_poll kept

  -- The callback of a ready descriptor, with the test for busy waiting.
  pub serve : Rule S → S → Option S
  unfolding service_count
  serve r s =
      and_then (r.callback s)
        (λ s'. if (service_count r s == service_count r s') && r.interest s' then none else some s')

  -- The second loop.
  pub dispatch : List (Rule S × Bool) → List Revents → S → Option (List (Rule S) × S)
  unfolding first_revents other_revents poll_ready has_direction serve
  dispatch [] vs s = some ([], s)
  dispatch ((r, asks) ∷ kept) vs s =
      let v = first_revents vs in
      let is_ready = poll_ready asks r.direction v in
      elim v.error [
        | true ↦ none
        | false ↦ elim (v.hup && asks && not is_ready) [
          | true ↦ and_then (r.cancel s) (dispatch kept (other_revents vs))
          | false ↦ and_then (if is_ready then serve r s else some s) (λ s'.
              and_then (dispatch kept (other_revents vs) s')
                (λ (rules, s''). some (r ∷ rules, s'')))
        ]
      ]

  pub rules_of : List (Rule S × Bool) → List (Rule S)
  rules_of [] = []
  rules_of ((r, asks) ∷ kept) = r ∷ rules_of kept

  dispatched : Option (List (Rule S) × S) → Option (Result × (List (Rule S) × S))
  dispatched o = and_then o (λ after. some (success, after))

  -- `wait_next_event` past its first loop. A failure that is not an interruption is caught, and the entries
  -- have no bits.
  pub polls : Polled → List (Rule S × Bool) → S → Option (Result × (List (Rule S) × S))
  unfolding dispatched
  polls timed_out kept s = some (timeout, (rules_of kept, s))
  polls interrupted kept s = some (exits, (rules_of kept, s))
  polls failed kept s = dispatched (dispatch kept [] s)
  polls (ready vs) kept s = dispatched (dispatch kept vs s)

  pub wait_next_event : Polled → List (Rule S) → S → Option (Result × (List (Rule S) × S))
  wait_next_event p rules s = and_then (setup rules s) (λ (kept, s').
      elim (something_to_poll kept) [
        | false ↦ some (exits, (rules_of kept, s'))
        | true ↦ polls p kept s'
      ])

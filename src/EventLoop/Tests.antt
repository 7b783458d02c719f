-- ===== src/EventLoop/Tests.antt =====
-- A descriptor that a rule reads, whatever comes.
use tcp.Prelude.{
  All, ℕ, ◌+◌, ◌%◌, ◌≡◌, ◌≢◌, refl, inl, true, List, [], ◌∷◌, some, arith, u32_mod, ◌<◌,
}
use tcp.FileDescriptor.{FileDescriptor, new_descriptor, register_read}
use tcp.EventLoop.{
  Rule, reading, Result, no_revents, failed, ready, success, setup, something_to_poll,
  service_count, wait_next_event, rules_of, defunct,
}
use tcp.EventLoop.Cooperative.{IsCooperative, wait_next_event-Cooperative, failed_poll_succeeds}

abbrev reader : Rule FileDescriptor
reader = record {
  fd = λ s. s;
  direction = reading;
  callback = λ s. some (register_read s);
  interest = λ s. true;
  cancel = λ s. some s;
}

-- The count is one of 32 bits.
abbrev Small : FileDescriptor → Type 0
Small s = s.read_count < u32_mod

moved : (n : ℕ) → n < u32_mod → n ≢ (n + 1) % u32_mod
moved n h e = omega arith

reader-IsCooperative : IsCooperative Small reader
unfolding service_count
reader-IsCooperative = record {
  serves = λ s small. (register_read s, refl, omega arith, inl (moved s.read_count small));
  cancels = λ s small. (s, refl, small);
}

wait_next_event-Cooperative_example :
    (result : Result) × (rules' : List (Rule FileDescriptor)) × (s' : FileDescriptor)
    × (wait_next_event
          (ready (record no_revents { readable = true } ∷ []))
          (reader ∷ [])
          new_descriptor
        ≡ some (result, (rules', s')))
    × All (IsCooperative Small) rules'
    × Small s'
wait_next_event-Cooperative_example =
    wait_next_event-Cooperative Small (ready (record no_revents { readable = true } ∷ []))
      (reader ∷ []) new_descriptor (refl, tt) (reader-IsCooperative, tt) (omega arith)

failed_poll_succeeds_example :
    wait_next_event failed (reader ∷ []) new_descriptor
    ≡ some (success, (reader ∷ [], new_descriptor))
unfolding setup something_to_poll defunct rules_of
failed_poll_succeeds_example =
    failed_poll_succeeds (reader ∷ []) ((reader, true) ∷ []) new_descriptor new_descriptor refl refl

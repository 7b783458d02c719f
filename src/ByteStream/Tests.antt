-- ===== src/ByteStream/Tests.antt =====
-- Tests and concrete instances for the byte stream.
use tcp.Prelude.{◌≡◌, List, [], ◌∷◌, some, arith}
use tcp.ByteStream.{init}
use tcp.ByteStream.Spec
use tcp.ByteStream.Spec.{Call, writes, peeks, pops, reads, ends}
use tcp.ByteStream.Refinement.{run, nothing, run_refines}

abbrev calls : List Call
calls = writes (1 ∷ 2 ∷ 3 ∷ 4 ∷ []) ∷ peeks 2 ∷ pops 1 ∷ writes (5 ∷ 6 ∷ []) ∷ ends ∷ reads 9 ∷ []

run_refines_example : run (init 3) calls ≡ some (Spec.run 3 nothing calls)
run_refines_example = run_refines 3 calls (omega arith)

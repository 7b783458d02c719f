-- ===== src/Reassembler/Tests.antt =====
-- Tests and concrete instances for the reassembler, over the source whose byte `k` is `k`.
use tcp.Prelude.{
  ℕ, ◌≤◌, ◌<◌, ◌≡◌, ◌↔◌, refl, true, false, ◌||◌, ◌&&◌, ◌==◌, leb, inl, List, [], ◌∷◌, some, arith,
  length,
}
use tcp.ByteStream
use tcp.Reassembler.{StreamReassembler, init, push_substring}
use tcp.Reassembler.Source.{slice, Inv}
use tcp.Reassembler.Push.{limit, init-Inv}
use tcp.Reassembler.Arrival.{in_range, delivered_iff}
use tcp.Reassembler.Run.{Event, pushes, reads, run, run_in_order}
use tcp.Reassembler.Eof.{early_end}
use tcp.Reassembler.Closing.{Within, init-Closes, end_complete}

abbrev identity : ℕ → ℕ
identity k = k

abbrev fresh : StreamReassembler
fresh = init 8

fresh-Inv : Inv identity fresh
fresh-Inv = init-Inv identity 8 (omega arith)

delivered_iff_example :
    (2 ≤ (push_substring fresh (0 ∷ 1 ∷ []) 0 false).first_unassembled)
    ↔ ((k : ℕ) → k < 2 → (fresh.m_exist k || in_range 0 2 (limit fresh) k) ≡ true)
delivered_iff_example = delivered_iff (0 ∷ 1 ∷ []) 0 false 2 fresh-Inv (omega arith) (omega arith)

abbrev schedule : List Event
schedule =
    pushes (2 ∷ 3 ∷ []) 2 true ∷ reads 4 ∷ pushes (0 ∷ 1 ∷ 2 ∷ []) 0 false ∷ reads 3 ∷ reads 3 ∷ []

run_in_order_example :
    (out : List ℕ) × (r : StreamReassembler) × (run [] (init 8) schedule ≡ some (out, r))
    × (out ≡ slice identity 0 (length out))
    × Inv identity r
run_in_order_example = run_in_order identity 8 schedule (omega arith) (omega arith)

last_bytes-Within : Within 2 fresh (0 ∷ 1 ∷ []) 0 true
last_bytes-Within = record {
  inside = omega arith;
  last = λ _. refl;
  in_turn = λ _. inl (omega arith);
}

end_complete_example :
    let r' = push_substring fresh (0 ∷ 1 ∷ []) 0 true in
    (r'.eof_flag ≡ (fresh.eof_flag || (true && leb 2 (limit fresh))))
    × (ByteStream.input_ended r'.output ≡ (r'.eof_flag && (r'.first_unassembled == 2)))
end_complete_example =
    end_complete (0 ∷ 1 ∷ []) 0 true fresh-Inv (init-Closes 2 8) (omega arith) last_bytes-Within
      (omega arith) (omega arith)

early_end_example :
    (ByteStream.input_ended (push_substring fresh [] 5 true).output ≡ true)
    × ((push_substring fresh [] 5 true).first_unassembled < 5)
unfolding init
early_end_example = early_end 5 fresh-Inv refl (omega arith) (omega arith)

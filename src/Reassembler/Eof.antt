-- ===== src/Reassembler/Eof.antt =====
-- The end of the stream: when `push_substring` ends the output's input.
use tcp.Prelude.{
  ℕ, suc, ◌+◌, ◌-◌, ◌≤◌, ◌<◌, ◌≡◌, refl, ap, ◌∙◌, Bool, true, false, ◌||◌, List, [], arith,
  if◌then◌else◌, length, u64_mod, add64, eq→==,
}
use tcp.ByteStream
use tcp.Reassembler.{
  StreamReassembler, push_substring, finish, next_eof, end_if, assemble, begin, store_bytes, drain,
}
use tcp.Reassembler.Count.{count, count_mono}
use tcp.Reassembler.Source.{Inv}
use tcp.Reassembler.Push.{limit}
use tcp.Reassembler.Arrival.{in_range}

-- A mark at `j` adds to those below `j`.
pub count_more : (m : ℕ → Bool) (k j n : ℕ) → m j ≡ true → k ≤ j → j < n → count m k + 1 ≤ count m n
count_more m k j n e h l =
    let one : ◌≡◌ {A = ℕ} (if m j then 1 else 0) 1 = rw e in
    omega (arith, one, count_mono m k j h, count_mono m (suc j) n l)

pub range_last :
    (b : Bool) (pos n stop : ℕ)
    → 0 < n
    → pos + n ≤ stop
    → (b || in_range pos n stop (pos + n - 1)) ≡ true
range_last true pos n stop h l = refl
range_last false pos n stop h l = ground arith

next_eof-true :
    (r : StreamReassembler) (end : ℕ)
    → limit r < u64_mod
    → end ≤ limit r
    → next_eof r end true ≡ true
unfolding next_eof ByteStream.bytes_read
next_eof-true r end hl fits =
    let lim : add64 r.output.read_count r.capacity ≡ limit r = omega arith in ground arith

ended-finish :
    (r : StreamReassembler) (bytes : List ℕ) (index : ℕ)
    → index + length bytes < u64_mod
    → limit r < u64_mod
    → index + length bytes ≤ limit r
    → (push_substring r bytes index true).unassembled ≡ 0
    → ByteStream.input_ended (push_substring r bytes index true).output ≡ true
unfolding push_substring finish end_if ByteStream.input_ended ByteStream.end_input
ended-finish r bytes index h hl fits u =
    let none_left : (assemble r bytes index).unassembled ≡ 0 = u in
    let end : add64 index (length bytes) ≡ index + length bytes = omega arith in
    rw (
      eq→== (assemble r bytes index).unassembled 0 none_left,
      end,
      next_eof-true r (index + length bytes) hl fits,
    )

assemble_nothing :
    (r : StreamReassembler) (index : ℕ) → r.unassembled ≡ 0 → assemble r [] index ≡ begin r
unfolding assemble store_bytes drain
assemble_nothing r index u = ap (λ n. (drain n (add64 index 0) (begin r)).1) u

nothing_left :
    (r : StreamReassembler) (index : ℕ)
    → r.unassembled ≡ 0
    → (push_substring r [] index true).unassembled ≡ 0
unfolding push_substring finish
nothing_left r index u = ap (λ w. w.unassembled) (assemble_nothing r index u) ∙ u

first_unchanged :
    (r : StreamReassembler) (index : ℕ)
    → r.unassembled ≡ 0
    → (push_substring r [] index true).first_unassembled ≡ r.first_unassembled
unfolding push_substring finish
first_unchanged r index u = ap (λ w. w.first_unassembled) (assemble_nothing r index u)

-- The fault: where nothing is stored, an empty last substring at any later index within the window,
-- such as a FIN with no data that overtakes the data before it, ends the output although the bytes
-- from `first_unassembled` to that index have not arrived.
pub early_end :
    {source : ℕ → ℕ} {r : StreamReassembler} (index : ℕ)
    → Inv source r
    → r.unassembled ≡ 0
    → r.first_unassembled < index
    → index ≤ limit r
    → (ByteStream.input_ended (push_substring r [] index true).output ≡ true)
      × ((push_substring r [] index true).first_unassembled < index)
early_end {r = r} index v u before within =
    let u' : (push_substring r [] index true).unassembled ≡ 0 = nothing_left r index u in
    (
      ended-finish r [] index (omega (arith, v.room)) v.room (omega arith) u',
      omega (arith, first_unchanged r index u),
    )

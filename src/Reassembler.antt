-- ===== src/Reassembler.antt =====
-- libsponge/stream_reassembler.cc and .hh: substrings of a stream that arrive in any order become
-- an in-order ByteStream. `m_exist` and `m_char` are functions: `operator[]` of an unordered_map
-- puts false, or the zero character, where a key is missing, and nothing else reads the maps.
pub mod Count
pub mod Source
pub mod Loop
pub mod Drain
pub mod Push
pub mod Arrival
pub mod Run
pub mod Eof
pub mod Closing
pub mod Output
mod Tests
use tcp.Prelude.{
  ℕ, zero, suc, ◌+◌, Bool, true, false, not, ◌&&◌, List, [], ◌∷◌, ◌++◌, ltb, leb, ◌==◌,
  if◌then◌else◌, length, add64, sub64,
}
use tcp.ByteStream
use tcp.ByteStream.{ByteStream}

pub record StreamReassembler : Type 0 where
  pub output : ByteStream
  pub capacity : ℕ
  pub first_unread : ℕ
  pub first_unassembled : ℕ
  pub first_unacceptable : ℕ
  pub unassembled : ℕ
  pub eof_flag : Bool
  pub m_exist : ℕ → Bool
  pub m_char : ℕ → ℕ

unfoldable pub init : ℕ → StreamReassembler
init capacity = record {
  output = ByteStream.init capacity;
  capacity = capacity;
  first_unread = 0;
  first_unassembled = 0;
  first_unacceptable = capacity;
  unassembled = 0;
  eof_flag = false;
  m_exist = λ _. false;
  m_char = λ _. 0;
}

-- The members that the two loops of `push_substring` change, and its local `to_write`.
pub record Work : Type 0 where
  pub first_unassembled : ℕ
  pub unassembled : ℕ
  pub m_exist : ℕ → Bool
  pub m_char : ℕ → ℕ
  pub to_write : List ℕ

-- `m[k] = v`
abbrev pub update {ℓ} : {A : Type ℓ} → (ℕ → A) → ℕ → A → ℕ → A
update m k v j = if j == k then v else m j

-- One round of the `for` loop for a byte below the capacity limit.
pub store_byte : ℕ → ℕ → Work → Work
store_byte cur c w =
    if not (w.m_exist cur)
    then (if cur == w.first_unassembled
        then record w {
          m_exist = update w.m_exist cur true;
          to_write = w.to_write ++ c ∷ [];
          first_unassembled = add64 w.first_unassembled 1;
        }
        else record w {
          m_exist = update w.m_exist cur true;
          m_char = update w.m_char cur c;
          unassembled = add64 w.unassembled 1;
        })
    else (if cur == w.first_unassembled
        then record w {
          to_write = w.to_write ++ w.m_char cur ∷ [];
          first_unassembled = add64 w.first_unassembled 1;
          unassembled = sub64 w.unassembled 1;
        }
        else w)

-- The `for` loop from round `i` on, over the bytes that are left; it breaks at `limit`, which is
-- `first_unread + _capacity`.
pub store_bytes : ℕ → ℕ → ℕ → List ℕ → Work → Work
store_bytes limit index i [] w = w
store_bytes limit index i (c ∷ cs) w =
    let rest = store_bytes limit index (i + 1) cs (store_byte (add64 i index) c w) in
    if ltb (add64 i index) limit then rest else w

-- The test of the `while` loop.
abbrev pub can_drain : ℕ → Work → Bool
can_drain cur w = (cur == w.first_unassembled) && w.m_exist cur

pub drain_byte : ℕ → Work → Work
drain_byte cur w = record w {
  to_write = w.to_write ++ w.m_char cur ∷ [];
  first_unassembled = add64 w.first_unassembled 1;
  unassembled = sub64 w.unassembled 1;
}

-- The `while` loop; `Drain.drain_ends` shows that a fuel of `unassembled` rounds is enough.
pub drain : ℕ → ℕ → Work → ℕ × Work
drain zero cur w = (cur, w)
drain (suc fuel) cur w =
    let rest = drain fuel (add64 cur 1) (drain_byte cur w) in
    if can_drain cur w then rest else (cur, w)

abbrev begin : StreamReassembler → Work
begin r = record {
  first_unassembled = r.first_unassembled;
  unassembled = r.unassembled;
  m_exist = r.m_exist;
  m_char = r.m_char;
  to_write = [];
}

-- Both loops.
pub assemble : StreamReassembler → List ℕ → ℕ → Work
assemble r bytes index =
    let w =
      store_bytes (add64 (ByteStream.bytes_read r.output) r.capacity) index 0 bytes (begin r) in
    (drain w.unassembled (add64 index (length bytes)) w).1

-- `_eof` after a substring that ends at `end`.
next_eof : StreamReassembler → ℕ → Bool → Bool
next_eof r end eof =
    if eof && not r.eof_flag && leb end (add64 (ByteStream.bytes_read r.output) r.capacity)
    then true
    else r.eof_flag

end_if : Bool → ByteStream → ByteStream
end_if ended s = if ended then ByteStream.end_input s else s

-- What follows the loops: the write, then `_eof`, then `end_input`.
finish : StreamReassembler → Work → ℕ → Bool → StreamReassembler
unfolding next_eof
finish r w end eof =
    let eof' = next_eof r end eof in
    record r {
      output = end_if ((w.unassembled == 0) && eof') (ByteStream.write r.output w.to_write).1;
      first_unread = ByteStream.bytes_read r.output;
      first_unassembled = w.first_unassembled;
      unassembled = w.unassembled;
      eof_flag = eof';
      m_exist = w.m_exist;
      m_char = w.m_char;
    }

pub push_substring : StreamReassembler → List ℕ → ℕ → Bool → StreamReassembler
unfolding finish
push_substring r bytes index eof =
    finish r (assemble r bytes index) (add64 index (length bytes)) eof

unfoldable pub stream_out : StreamReassembler → ByteStream
stream_out r = r.output

unfoldable pub unassembled_bytes : StreamReassembler → ℕ
unassembled_bytes r = r.unassembled

unfoldable pub first_unassembled_byte : StreamReassembler → ℕ
first_unassembled_byte r = r.first_unassembled

unfoldable pub is_eof : StreamReassembler → Bool
is_eof r = r.eof_flag

unfoldable pub empty : StreamReassembler → Bool
empty r = r.unassembled == 0

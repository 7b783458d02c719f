-- ===== src/Buffer.antt =====
-- libsponge/util/buffer.hh and buffer.cc: a string that can drop bytes from its front (Buffer),
-- and a queue of such strings (BufferList). The shared string behind a Buffer is never written,
-- so sharing it cannot be seen and a Buffer holds it by value. A member function that throws
-- returns `none` where it does.
pub mod Laws
pub mod View
use tcp.Prelude.{
  ℕ, zero, suc, ◌+◌, ◌-◌, List, [], ◌∷◌, ◌++◌, Option, none, some, ltb, ◌==◌, if◌then◌else◌, length,
  get_elem?, drop, add64,
}

-- `storage` is the shared pointer, `none` when it is null.
pub record Buffer : Type 0 where
  pub storage : Option (List ℕ)
  pub starting_offset : ℕ

abbrev pub BufferList : Type 0
BufferList = List Buffer

-- `Buffer(std::string &&)`
unfoldable pub of_string : List ℕ → Buffer
of_string s = record { storage = some s; starting_offset = 0 }

view : Option (List ℕ) → ℕ → List ℕ
view none offset = []
view (some s) offset = drop offset s

unfoldable pub str : Buffer → List ℕ
unfolding view
str b = view b.storage b.starting_offset

unfoldable pub buffer_size : Buffer → ℕ
buffer_size b = length (str b)

-- `at`, which throws out of range.
unfoldable pub at : Buffer → ℕ → Option ℕ
at b n = get_elem? (str b) n

-- `_storage.reset()` once every byte of the string is dropped.
release : Option (List ℕ) → ℕ → Option (List ℕ)
release none offset = none
release (some s) offset = if offset == length s then none else some s

pub buffer_remove_prefix : Buffer → ℕ → Option Buffer
unfolding release
buffer_remove_prefix b n =
    let offset = b.starting_offset + n in
    if ltb (buffer_size b) n
    then none
    else some (record { storage = release b.storage offset; starting_offset = offset })

-- `BufferList(std::string &&)`
unfoldable pub list_of_string : List ℕ → BufferList
list_of_string s = of_string s ∷ []

-- `operator Buffer`, which throws for more than one buffer.
unfoldable pub to_buffer : BufferList → Option Buffer
to_buffer [] = some (record { storage = none; starting_offset = 0 })
to_buffer (b ∷ []) = some b
to_buffer (b ∷ c ∷ bs) = none

pub append : BufferList → BufferList → BufferList
append bs other = bs ++ other

unfoldable pub concatenate : BufferList → List ℕ
concatenate [] = []
concatenate (b ∷ bs) = str b ++ concatenate bs

-- The loop of `size`, with the sum so far.
size_from : ℕ → BufferList → ℕ
size_from ret [] = ret
size_from ret (b ∷ bs) = size_from (add64 ret (buffer_size b)) bs

pub size : BufferList → ℕ
unfolding size_from
size bs = size_from 0 bs

-- The round of `remove_prefix` that cuts the first buffer.
cut_first : Option Buffer → BufferList → Option BufferList
cut_first none bs = none
cut_first (some b) bs = some (b ∷ bs)

-- The loop of `remove_prefix`: each round ends it or drops the first buffer.
pub remove_prefix : BufferList → ℕ → Option BufferList
unfolding cut_first
remove_prefix [] n = if n == 0 then some [] else none
remove_prefix (b ∷ bs) n =
    let rest = remove_prefix bs (n - buffer_size b) in
    if n == 0
    then some (b ∷ bs)
    else if ltb n (buffer_size b)
    then cut_first (buffer_remove_prefix b n) bs
    else rest

-- ===== src/ByteStream/Spec.antt =====
-- What a byte stream promises: a log of every byte written, a reading position in it, and a mark
-- that the writer has finished. It knows nothing of buffers.
use tcp.Prelude.{
  ℕ, ◌+◌, ◌-◌, ◌%◌, min, Bool, true, ◌&&◌, List, [], ◌∷◌, ◌++◌, ◌==◌, length, take, drop, u64_mod,
}

pub record Stream : Type 0 where
  pub log : List ℕ
  pub taken : ℕ
  pub ended : Bool

-- The calls of the writer and of the reader.
pub data Call : Type 0 where
  writes : List ℕ → Call
  peeks : ℕ → Call
  pops : ℕ → Call
  reads : ℕ → Call
  ends : Call

-- What a call returns, and what every accessor returns after it.
pub record Reply : Type 0 where
  pub count : ℕ
  pub bytes : List ℕ
  pub size : ℕ
  pub room : ℕ
  pub is_empty : Bool
  pub closed : Bool
  pub at_end : Bool
  pub total_written : ℕ
  pub total_read : ℕ

abbrev pub unread : Stream → List ℕ
unread a = drop a.taken a.log

abbrev pub observe : ℕ → ℕ → List ℕ → Stream → Reply
observe capacity count bytes a = record {
  count = count;
  bytes = bytes;
  size = length (unread a);
  room = capacity - length (unread a);
  is_empty = length (unread a) == 0;
  closed = a.ended;
  at_end = (length (unread a) == 0) && a.ended;
  total_written = length a.log % u64_mod;
  total_read = a.taken % u64_mod;
}

abbrev pub skip : Stream → ℕ → Stream
skip a n = record a { taken = a.taken + min n (length (unread a)) }

abbrev pub extend : ℕ → Stream → List ℕ → Stream
extend capacity a bytes = record a { log = a.log ++ take (capacity - length (unread a)) bytes }

unfoldable pub step : ℕ → Stream → Call → Reply × Stream
step capacity a (writes bytes) =
    let a' = extend capacity a bytes in
    (observe capacity (min (length bytes) (capacity - length (unread a))) [] a', a')
step capacity a (peeks n) = (observe capacity 0 (take n (unread a)) a, a)
step capacity a (pops n) = let a' = skip a n in (observe capacity 0 [] a', a')
step capacity a (reads n) = let a' = skip a n in (observe capacity 0 (take n (unread a)) a', a')
step capacity a ends = let a' = record a { ended = true } in (observe capacity 0 [] a', a')

unfoldable pub run : ℕ → Stream → List Call → List Reply
run capacity a [] = []
run capacity a (c ∷ cs) = let (r, a') = step capacity a c in r ∷ run capacity a' cs

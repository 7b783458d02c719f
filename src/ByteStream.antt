-- ===== src/ByteStream.antt =====
-- libsponge/byte_stream.cc and .hh: the in-order byte stream of bounded capacity, over the
-- BufferList of libsponge/util. A member function returns the new stream beside its result, and
-- `none` where it throws. `size_t` sums and differences wrap.
pub mod Invariant
pub mod Spec
pub mod Refinement
mod Tests
use tcp.Prelude.{
  ℕ, Bool, true, false, ◌&&◌, List, [], Option, none, some, ltb, ◌==◌, if◌then◌else◌, length, take,
  add64, sub64,
}
use tcp.Buffer.{BufferList, append, list_of_string, concatenate, remove_prefix}
use tcp.Buffer

pub record ByteStream : Type 0 where
  pub buffer : BufferList
  pub capacity : ℕ
  pub read_count : ℕ
  pub write_count : ℕ
  pub input_ended_flag : Bool
  pub error_flag : Bool

unfoldable pub init : ℕ → ByteStream
init capacity = record {
  buffer = [];
  capacity = capacity;
  read_count = 0;
  write_count = 0;
  input_ended_flag = false;
  error_flag = false;
}

pub remaining_capacity : ByteStream → ℕ
remaining_capacity s = sub64 s.capacity (Buffer.size s.buffer)

-- `len`, cut to the free space.
accepted : ByteStream → List ℕ → ℕ
unfolding remaining_capacity
accepted s bytes =
    if ltb (remaining_capacity s) (length bytes) then remaining_capacity s else length bytes

-- `write`: the number of bytes accepted, and the stream.
pub write : ByteStream → List ℕ → ℕ × ByteStream
unfolding accepted
write s bytes =
    let len = accepted s bytes in
    (
      len,
      record s {
        write_count = add64 s.write_count len;
        buffer = append s.buffer (list_of_string (take len bytes));
      },
    )

-- `len`, cut to the bytes that are held.
available : ByteStream → ℕ → ℕ
available s len = if ltb (Buffer.size s.buffer) len then Buffer.size s.buffer else len

pub peek_output : ByteStream → ℕ → List ℕ
unfolding available
peek_output s len = take (available s len) (concatenate s.buffer)

-- `pop_output` after `_buffer.remove_prefix(length)`, which may throw.
popped : ByteStream → ℕ → Option BufferList → Option ByteStream
popped s n none = none
popped s n (some rest) = some (record s { read_count = add64 s.read_count n; buffer = rest })

pub pop_output : ByteStream → ℕ → Option ByteStream
unfolding available popped
pop_output s len = let n = available s len in popped s n (remove_prefix s.buffer n)

-- `read`: the bytes copied before the pop, beside the stream after it.
with_bytes : List ℕ → Option ByteStream → Option (List ℕ × ByteStream)
with_bytes bytes none = none
with_bytes bytes (some s) = some (bytes, s)

pub read : ByteStream → ℕ → Option (List ℕ × ByteStream)
unfolding with_bytes
read s len = with_bytes (peek_output s len) (pop_output s len)

unfoldable pub end_input : ByteStream → ByteStream
end_input s = record s { input_ended_flag = true }

unfoldable pub set_error : ByteStream → ByteStream
set_error s = record s { error_flag = true }

unfoldable pub input_ended : ByteStream → Bool
input_ended s = s.input_ended_flag

unfoldable pub error : ByteStream → Bool
error s = s.error_flag

pub buffer_size : ByteStream → ℕ
buffer_size s = Buffer.size s.buffer

pub buffer_empty : ByteStream → Bool
buffer_empty s = Buffer.size s.buffer == 0

pub eof : ByteStream → Bool
eof s = buffer_empty s && input_ended s

unfoldable pub bytes_written : ByteStream → ℕ
bytes_written s = s.write_count

unfoldable pub bytes_read : ByteStream → ℕ
bytes_read s = s.read_count

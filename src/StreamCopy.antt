-- ===== src/StreamCopy.antt =====
-- apps/bidirectional_stream_copy.cc: the bytes of the standard input go to a socket, and those of the socket to
-- the standard output, through two ByteStreams, driven by the event loop. `Endpoints` are the system calls on
-- the three descriptors, on the state of the kernel. A callback that throws returns `none`.
pub mod Streams
pub mod Traffic
pub mod Reads
pub mod Rules
pub mod Lossless
mod Tests
use tcp.Prelude.{
  ℕ, min, Bool, true, false, not, ◌&&◌, ◌||◌, List, [], ◌∷◌, Option, none, some, ltb, if◌then◌else◌,
  and_then,
}
use tcp.ByteStream
use tcp.ByteStream.{ByteStream}
use tcp.FileDescriptor
use tcp.FileDescriptor.{
  FileDescriptor, new_descriptor, Written, still_writing, thrown, written, register_write,
}
use tcp.EventLoop.{
  is_exit, Rule, reading, writing, Polled, Result, success, timeout, exits, wait_next_event,
}

pub record Endpoints (K : Type 0) : Type 0 where
  pub read_input : ℕ → K → Option (List ℕ × K)
  pub read_socket : ℕ → K → Option (List ℕ × K)
  pub write_socket : List ℕ → K → Option (ℕ × K)
  pub write_output : List ℕ → K → Option (ℕ × K)
  pub shutdown_socket : K → Option K
  pub close_output : K → Option K

-- The local variables.
pub record Copier (K : Type 0) : Type 0 where
  pub kernel : K
  pub input : FileDescriptor
  pub socket : FileDescriptor
  pub output : FileDescriptor
  pub outbound : ByteStream
  pub inbound : ByteStream
  pub outbound_shutdown : Bool
  pub inbound_shutdown : Bool

abbrev pub max_copy_length : ℕ
max_copy_length = 65536

abbrev pub buffer_size : ℕ
buffer_size = 1048576

-- At the start, with the socket's descriptor.
pub new_copier : {K : Type 0} → K → FileDescriptor → Copier K
new_copier k socket = record {
  kernel = k;
  input = new_descriptor;
  socket = socket;
  output = new_descriptor;
  outbound = ByteStream.init buffer_size;
  inbound = ByteStream.init buffer_size;
  outbound_shutdown = false;
  inbound_shutdown = false;
}

-- `if (fd.eof()) stream.end_input()`
pub end_at_eof : FileDescriptor → ByteStream → ByteStream
end_at_eof fd stream = if fd.eof then ByteStream.end_input stream else stream

module _ {K : Type 0} where
  -- From a descriptor into a stream, as the rules 1 and 3 do.
  pub fill :
      (ℕ → K → Option (List ℕ × K))
      → FileDescriptor
      → ByteStream
      → K
      → Option (FileDescriptor × (ByteStream × K))
  unfolding end_at_eof
  fill sys_read fd stream k =
      and_then (FileDescriptor.read sys_read (ByteStream.remaining_capacity stream) fd k)
        (λ (bytes, (fd', k')). some (fd', (end_at_eof fd' (ByteStream.write stream bytes).1, k')))

  popped : ByteStream → Written K → Option (FileDescriptor × (ByteStream × K))
  popped stream still_writing = none
  popped stream thrown = none
  popped stream (written n fd k) =
      and_then (ByteStream.pop_output stream n) (λ stream'. some (fd, (stream', k)))

  -- From a stream to a descriptor, as the rules 2 and 4 do.
  pub pour :
      (List ℕ → K → Option (ℕ × K))
      → FileDescriptor
      → ByteStream
      → K
      → Option (FileDescriptor × (ByteStream × K))
  unfolding popped
  pour sys_writev fd stream k =
      let bytes_to_write = min max_copy_length (ByteStream.buffer_size stream) in
      popped stream (
        FileDescriptor.write sys_writev 1 (ByteStream.peek_output stream bytes_to_write) false fd k)

  module _ (ends : Endpoints K) where
    -- Rule 1
    pub read_input : Copier K → Option (Copier K)
    read_input c =
        and_then (fill ends.read_input c.input c.outbound c.kernel)
          (λ (fd, (stream, k)). some (record c { input = fd; outbound = stream; kernel = k }))

    pub wants_input : Copier K → Bool
    wants_input c =
        not (ByteStream.error c.outbound)
        && ltb 0 (ByteStream.remaining_capacity c.outbound)
        && not (ByteStream.error c.inbound)

    pub end_outbound : Copier K → Option (Copier K)
    end_outbound c = some (record c { outbound = ByteStream.end_input c.outbound })

    -- The end of rule 2.
    pub shut_socket : Copier K → Option (Copier K)
    shut_socket c =
        if ByteStream.eof c.outbound
        then and_then (ends.shutdown_socket c.kernel) (λ k.
          some
            (record c { socket = register_write c.socket; kernel = k; outbound_shutdown = true }))
        else some c

    -- Rule 2
    pub write_socket : Copier K → Option (Copier K)
    unfolding shut_socket
    write_socket c =
        and_then (pour ends.write_socket c.socket c.outbound c.kernel) (λ (fd, (stream, k)).
          shut_socket (record c { socket = fd; outbound = stream; kernel = k }))

    pub wants_write_socket : Copier K → Bool
    wants_write_socket c =
        not (ByteStream.buffer_empty c.outbound)
        || ByteStream.eof c.outbound && not c.outbound_shutdown

    -- Rule 3
    pub read_socket : Copier K → Option (Copier K)
    read_socket c =
        and_then (fill ends.read_socket c.socket c.inbound c.kernel)
          (λ (fd, (stream, k)). some (record c { socket = fd; inbound = stream; kernel = k }))

    pub wants_read_socket : Copier K → Bool
    wants_read_socket c =
        not (ByteStream.error c.inbound)
        && ltb 0 (ByteStream.remaining_capacity c.inbound)
        && not (ByteStream.error c.outbound)

    pub end_inbound : Copier K → Option (Copier K)
    end_inbound c = some (record c { inbound = ByteStream.end_input c.inbound })

    -- The end of rule 4.
    pub shut_output : Copier K → Option (Copier K)
    shut_output c =
        if ByteStream.eof c.inbound
        then and_then (FileDescriptor.close ends.close_output c.output c.kernel)
            (λ (fd, k). some (record c { output = fd; kernel = k; inbound_shutdown = true }))
        else some c

    -- Rule 4
    pub write_output : Copier K → Option (Copier K)
    unfolding shut_output
    write_output c =
        and_then (pour ends.write_output c.output c.inbound c.kernel) (λ (fd, (stream, k)).
          shut_output (record c { output = fd; inbound = stream; kernel = k }))

    pub wants_output : Copier K → Bool
    wants_output c =
        not (ByteStream.buffer_empty c.inbound)
        || ByteStream.eof c.inbound && not c.inbound_shutdown

    pub rules : List (Rule (Copier K))
    rules =
        record {
          fd = λ c. c.input;
          direction = reading;
          callback = read_input;
          interest = wants_input;
          cancel = end_outbound;
        }
        ∷ record {
          fd = λ c. c.socket;
          direction = writing;
          callback = write_socket;
          interest = wants_write_socket;
          cancel = end_outbound;
        }
        ∷ record {
          fd = λ c. c.socket;
          direction = reading;
          callback = read_socket;
          interest = wants_read_socket;
          cancel = end_inbound;
        }
        ∷ record {
          fd = λ c. c.output;
          direction = writing;
          callback = write_output;
          interest = wants_output;
          cancel = end_inbound;
        }
        ∷ []

-- What comes of the loop.
pub data Copied (K : Type 0) : Type 0 where
  copying : Copier K → List (Rule (Copier K)) → Copied K
  returned : Copier K → Copied K
  failed : Copied K

-- The `while` loop, on what poll(2) does in each round.
pub copy_loop : {K : Type 0} → List Polled → List (Rule (Copier K)) → Copier K → Copied K
unfolding is_exit
copy_loop [] rules c = copying c rules
copy_loop (p ∷ ps) rules c = elim (wait_next_event p rules c) [
  | none ↦ failed
  | some q ↦ elim (is_exit q.0) [ true ↦ returned q.1.1 | false ↦ copy_loop ps q.1.0 q.1.1 ]
]

-- `bidirectional_stream_copy`
pub bidirectional_stream_copy :
    {K : Type 0} → Endpoints K → K → FileDescriptor → List Polled → Copied K
bidirectional_stream_copy ends k socket ps = copy_loop ps (rules ends) (new_copier k socket)

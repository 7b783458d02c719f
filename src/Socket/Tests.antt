-- ===== src/Socket/Tests.antt =====
-- A socket whose application has closed its end, and whose peer sends a SYN whenever it is read.
use tcp.Prelude.{
  ℕ, ◌≤◌, ◌<◌, ◌≡◌, ◌≢◌, refl, sym, append-nil, true, false, List, [], ◌∷◌, ◌++◌, Option, some,
  arith, length, take, u32_mod,
}
use tcp.Segment.{TcpSegment, default_segment, default_header}
use tcp.Connection.{TcpConnection, TcpConfig}
use tcp.Connection
use tcp.Connection.Calls.{init-Sound, with_inbound, with_inbound-Sound}
use tcp.ByteStream
use tcp.ByteStream.{ByteStream}
use tcp.ByteStream.Invariant.{contents, init-IsValid, write-IsValid}
use tcp.Adapter.{FdAdapterConfig, Endpoint}
use tcp.FileDescriptor.{FileDescriptor, new_descriptor, register_read}
use tcp.EventLoop.{Revents, ready, timed_out}
use tcp.Socket.{Kernel, DatagramAdapter, SpongeSocket, write_inbound, inbound}
use tcp.Socket.Running.{Works, Serves, IsRunning, counted_once}
use tcp.Socket.Inbound.{write_inbound-IsRunning}
use tcp.Socket.Loop.{Event, connect, listen_and_accept}
use tcp.Socket.Loop.Alive.{IsAlive, open-IsAlive}

-- The pipe takes one byte at each call.
abbrev pub slow : List ℕ → List ℕ → Option (ℕ × List ℕ)
slow [] k = some (0, k)
slow (b ∷ bs) k = some (1, k ++ b ∷ [])

abbrev pub pipe : Kernel (List ℕ)
pipe = record { sys_read = λ n k. some ([], k); sys_writev = slow; sys_shutdown = some }

pub slow_taken :
    (buffer k : List ℕ)
    → (n : ℕ) × (k' : List ℕ) × (slow buffer k ≡ some (n, k'))
      × (n ≤ length buffer)
      × (0 < length buffer → 0 < n)
      × (k' ≡ k ++ take n buffer)
slow_taken [] k = (0, k, refl, omega arith, (λ h. h), sym (append-nil k))
slow_taken (b ∷ bs) k = (1, k ++ b ∷ [], refl, omega arith, (λ h. omega arith), refl)

pub pipe-Works : Works {K = List ℕ} (λ k. k) pipe
pipe-Works = record {
  gives = record { given = λ n k. ([], k, refl, omega arith, refl) };
  accepts = record { taken = slow_taken };
  shuts = λ k. (k, refl, refl);
}

-- The adapter, with what it has sent.
abbrev Line : Type 0
Line = FileDescriptor × List TcpSegment

abbrev a_syn : TcpSegment
a_syn = record default_segment { header = record default_header { syn = true } }

abbrev line : DatagramAdapter Line
line = record {
  fd = λ a. a.0;
  read = λ a. some (some a_syn, (register_read a.0, a.1));
  write = λ seg a. some (a.0, a.1 ++ seg ∷ []);
  tick = λ ms a. some a;
  config_mut = λ c a. a;
  set_listening = λ b a. a;
}

abbrev Small : Line → Type 0
Small a = a.0.read_count < u32_mod

line-Serves : Serves Small line
line-Serves = record {
  counts_reads = λ a h.
      (some a_syn, (register_read a.0, a.1), refl, omega arith, counted_once a.0.read_count h);
  writes = λ seg a least h. ((a.0, a.1 ++ seg ∷ []), refl, h);
  ticks = λ ms a h. (a, refl, h);
  configures = λ c a h. h;
  listens = λ b a h. h;
}

abbrev pub config : TcpConfig
config = record { rt_timeout = 1000; recv_capacity = 4; send_capacity = 4; fixed_isn = some 0 }

abbrev pub endpoint : Endpoint
endpoint = record { ip = 1; port = 80 }

abbrev pub adapter_config : FdAdapterConfig
adapter_config = record {
  source = endpoint;
  destination = endpoint;
  loss_rate_dn = 0;
  loss_rate_up = 0;
}

abbrev pub all_ready : Revents
all_ready = record { readable = true; writable = true; error = false; hup = false }

abbrev pub rounds : List Event
rounds =
    record {
      polled = ready (all_ready ∷ all_ready ∷ all_ready ∷ all_ready ∷ []);
      now = 5;
      aborted = false;
    }
    ∷ record { polled = timed_out; now = 9; aborted = false }
    ∷ []

abbrev opened : FileDescriptor × List TcpSegment
opened = (new_descriptor, [])

open-IsAlive_example :
    IsAlive
      (λ n. n)
      line
      pipe
      Small
      (λ k. k)
      line-Serves
      pipe-Works
      (connect (λ n. n) line pipe config 0 adapter_config new_descriptor [] opened rounds 0)
    × IsAlive
        (λ n. n)
        line
        pipe
        Small
        (λ k. k)
        line-Serves
        pipe-Works
        (listen_and_accept
          (λ n. n)
          line
          pipe
          config
          0
          adapter_config
          new_descriptor
          []
          opened
          rounds
          0)
open-IsAlive_example =
    open-IsAlive (λ n. n) line pipe Small (λ k. k) line-Serves pipe-Works config 0 adapter_config
      new_descriptor [] opened rounds 0 (omega arith) (omega arith) (omega arith) (omega arith)
      (omega arith) ((refl, (refl, (refl, (refl, tt)))), (tt, tt))

abbrev a_socket : SpongeSocket Line (List ℕ)
a_socket = record {
  thread_data = new_descriptor;
  kernel = [];
  datagram_adapter = opened;
  tcp = record (Connection.init config 0) { segments_out = a_syn ∷ default_segment ∷ [] };
  inbound_shutdown = false;
  outbound_shutdown = false;
  fully_acked = false;
}

-- Two bytes wait for the application.
abbrev two_bytes : ByteStream
two_bytes = (ByteStream.write (ByteStream.init 4) (7 ∷ 8 ∷ [])).1

abbrev a_reader : SpongeSocket Line (List ℕ)
a_reader = record a_socket { tcp = with_inbound (Connection.init config 0) two_bytes }

a_reader-IsRunning : IsRunning Small a_reader
a_reader-IsRunning = record {
  connection =
      with_inbound-Sound (Connection.init config 0) two_bytes
        (init-Sound config 0 (omega arith) (omega arith))
        (write-IsValid (init-IsValid 4 (omega arith)) (7 ∷ 8 ∷ []));
  reads_small = omega arith;
  writes_small = omega arith;
  adapter_fine = omega arith;
}

write_inbound-IsRunning_example :
    (s' : SpongeSocket Line (List ℕ)) × (write_inbound (λ n. n) line pipe a_reader ≡ some s')
    × IsRunning Small s'
    × (a_reader.thread_data.write_count ≢ s'.thread_data.write_count)
    × (s'.kernel ++ contents (inbound s') ≡ contents two_bytes)
write_inbound-IsRunning_example =
    write_inbound-IsRunning (λ n. n) line pipe Small (λ k. k) line-Serves pipe-Works a_reader
      a_reader-IsRunning

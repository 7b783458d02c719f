-- ===== src/Socket/Running.antt =====
-- What the socket asks of the kernel and of its adapter, and the invariant of a socket that runs.
use tcp.Prelude.{ℕ, ◌<◌, ◌≡◌, ◌≢◌, Bool, List, Option, some, arith, Returns, add32, u32_mod}
use tcp.Segment.{TcpSegment}
use tcp.Sender.Total.{Fits}
use tcp.Connection.Total.{Sound}
use tcp.Adapter.{FdAdapterConfig}
use tcp.FileDescriptor.Whole.{Accepts}
use tcp.FileDescriptor.Once.{Gives}
use tcp.Socket.{Kernel, DatagramAdapter, SpongeSocket}

-- The system calls on the pipe do not fail. `received` is what has gone to the application.
pub record Works {K : Type 0} (received : K → List ℕ) (kernel : Kernel K) : Type 0 where
  pub gives : Gives received kernel.sys_read
  pub accepts : Accepts received kernel.sys_writev
  pub shuts : (k : K) → (k' : K) × (kernel.sys_shutdown k ≡ some k') × (received k' ≡ received k)

-- The adapter does not throw in the states that are `Fine`, given segments that fit, and counts what it reads.
pub record Serves {A : Type 0} (Fine : A → Type 0) (adapter : DatagramAdapter A) : Type 0 where
  pub counts_reads :
      (a : A)
      → Fine a
      → (seg : Option TcpSegment) × (a' : A) × (adapter.read a ≡ some (seg, a'))
        × Fine a'
        × ((adapter.fd a).read_count ≢ (adapter.fd a').read_count)
  pub writes : (seg : TcpSegment) (a : A) → Fits seg → Fine a → Returns Fine (adapter.write seg a)
  pub ticks : (ms : ℕ) (a : A) → Fine a → Returns Fine (adapter.tick ms a)
  pub configures : (c : FdAdapterConfig) (a : A) → Fine a → Fine (adapter.config_mut c a)
  pub listens : (b : Bool) (a : A) → Fine a → Fine (adapter.set_listening b a)

module _ {A K : Type 0} (Fine : A → Type 0) where
  -- The connection has its two streams, the counts have 32 bits, and the adapter is fine.
  pub record IsRunning (s : SpongeSocket A K) : Type 0 where
    pub connection : Sound s.tcp
    pub reads_small : s.thread_data.read_count < u32_mod
    pub writes_small : s.thread_data.write_count < u32_mod
    pub adapter_fine : Fine s.datagram_adapter

-- A count moves on.
pub counted_once : (n : ℕ) → n < u32_mod → n ≢ add32 n 1
counted_once n h e = omega arith

pub counted_twice : (n : ℕ) → n < u32_mod → n ≢ add32 (add32 n 1) 1
counted_twice n h e = omega arith

-- ===== src/StreamCopy/Traffic.antt =====
-- What comes through the three descriptors, and what the copier keeps true of it.
use tcp.Prelude.{ℕ, ◌<◌, ◌≡◌, List, ◌++◌, some, u32_mod}
use tcp.ByteStream.{ByteStream}
use tcp.ByteStream.Invariant.{IsValid, contents}
use tcp.StreamCopy.{Endpoints, Copier}
use tcp.StreamCopy.Streams.{Gives, Takes}

-- All that has come through the descriptors.
pub record Traffic : Type 0 where
  pub from_input : List ℕ
  pub to_socket : List ℕ
  pub from_socket : List ℕ
  pub to_output : List ℕ

-- The bytes come through one of them.
abbrev pub FromInput : {K : Type 0} → (K → Traffic) → K → List ℕ → K → Type 0
FromInput traffic k bytes k' =
    traffic k' ≡ record (traffic k) { from_input = (traffic k).from_input ++ bytes }

abbrev pub ToSocket : {K : Type 0} → (K → Traffic) → K → List ℕ → K → Type 0
ToSocket traffic k bytes k' =
    traffic k' ≡ record (traffic k) { to_socket = (traffic k).to_socket ++ bytes }

abbrev pub FromSocket : {K : Type 0} → (K → Traffic) → K → List ℕ → K → Type 0
FromSocket traffic k bytes k' =
    traffic k' ≡ record (traffic k) { from_socket = (traffic k).from_socket ++ bytes }

abbrev pub ToOutput : {K : Type 0} → (K → Traffic) → K → List ℕ → K → Type 0
ToOutput traffic k bytes k' =
    traffic k' ≡ record (traffic k) { to_output = (traffic k).to_output ++ bytes }

-- The system calls do not fail: a read gives no more than is asked for, and a write takes a first part of what it
-- is offered, and each adds its bytes to the traffic and nothing else.
pub record Works {K : Type 0} (traffic : K → Traffic) (ends : Endpoints K) : Type 0 where
  pub gives_input : Gives ends.read_input (FromInput traffic)
  pub takes_socket : Takes ends.write_socket (ToSocket traffic)
  pub gives_socket : Gives ends.read_socket (FromSocket traffic)
  pub takes_output : Takes ends.write_output (ToOutput traffic)
  pub shuts : (k : K) → (k' : K) × (ends.shutdown_socket k ≡ some k') × (traffic k' ≡ traffic k)
  pub closes : (k : K) → (k' : K) × (ends.close_output k ≡ some k') × (traffic k' ≡ traffic k)

-- What was read is what was written, followed by what is on the way.
pub record Carries (t : Traffic) (outbound inbound : ByteStream) : Type 0 where
  pub out_whole : t.to_socket ++ contents outbound ≡ t.from_input
  pub in_whole : t.to_output ++ contents inbound ≡ t.from_socket

module _ {K : Type 0} (traffic : K → Traffic) where
  pub record IsCopying (c : Copier K) : Type 0 where
    pub outbound_valid : IsValid c.outbound
    pub inbound_valid : IsValid c.inbound
    pub carries : Carries (traffic c.kernel) c.outbound c.inbound
    pub input_reads : c.input.read_count < u32_mod
    pub socket_reads : c.socket.read_count < u32_mod
    pub socket_writes : c.socket.write_count < u32_mod
    pub output_writes : c.output.write_count < u32_mod

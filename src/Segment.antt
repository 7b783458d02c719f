-- ===== src/Segment.antt =====
-- libsponge/tcp_helpers/tcp_header.hh and tcp_segment.hh: the fields of a TCP segment. `Wire` has its
-- bytes.
pub mod Flag
pub mod Wire
use tcp.Prelude.{ℕ, Bool, false, if◌then◌else◌, length, none, add64}
use tcp.Buffer.{Buffer, str}
use tcp.Wrapping.{WrappingInt32}

pub record TcpHeader : Type 0 where
  pub sport : ℕ
  pub dport : ℕ
  pub seqno : WrappingInt32
  pub ackno : WrappingInt32
  pub doff : ℕ
  pub urg : Bool
  pub ack : Bool
  pub psh : Bool
  pub rst : Bool
  pub syn : Bool
  pub fin : Bool
  pub win : ℕ
  pub cksum : ℕ
  pub uptr : ℕ

-- TCPHeader::LENGTH
abbrev pub header_length : ℕ
header_length = 20

-- The default values of the fields.
abbrev pub default_header : TcpHeader
default_header = record {
  sport = 0;
  dport = 0;
  seqno = 0;
  ackno = 0;
  doff = 5;
  urg = false;
  ack = false;
  psh = false;
  rst = false;
  syn = false;
  fin = false;
  win = 0;
  cksum = 0;
  uptr = 0;
}

pub record TcpSegment : Type 0 where
  pub header : TcpHeader
  pub payload : Buffer

abbrev pub empty_buffer : Buffer
empty_buffer = record { storage = none; starting_offset = 0 }

abbrev pub default_segment : TcpSegment
default_segment = record { header = default_header; payload = empty_buffer }

-- A flag that takes a sequence number.
abbrev pub flag : Bool → ℕ
flag b = if b then 1 else 0

unfoldable pub length_in_sequence_space : TcpSegment → ℕ
length_in_sequence_space s =
    add64 (add64 (length (str s.payload)) (flag s.header.syn)) (flag s.header.fin)

-- ===== src/Receiver.antt =====
-- libsponge/tcp_receiver.cc and .hh: the receiver of a TCP endpoint. It turns the sequence number
-- of a segment into a stream index, gives the payload to the reassembler and keeps the number to
-- acknowledge.
pub mod Invariant
pub mod Follows
pub mod Reach
pub mod Output
mod Tests
use tcp.Prelude.{ℕ, Bool, true, false, not, ◌&&◌, Option, none, some, if◌then◌else◌, add64, sub64}
use tcp.Buffer.{str}
use tcp.ByteStream
use tcp.ByteStream.{ByteStream}
use tcp.Reassembler
use tcp.Reassembler.{StreamReassembler, push_substring, first_unassembled_byte, is_eof}
use tcp.Segment.{TcpSegment, flag}
use tcp.Wrapping.{WrappingInt32, plus, wrap, unwrap}

pub record TcpReceiver : Type 0 where
  pub reassembler : StreamReassembler
  pub capacity : ℕ
  pub syn : Bool
  pub fin : Bool
  pub isn : WrappingInt32
  pub last_ackno : WrappingInt32
  pub checkpoint : ℕ

unfoldable pub init : ℕ → TcpReceiver
init capacity = record {
  reassembler = Reassembler.init capacity;
  capacity = capacity;
  syn = false;
  fin = false;
  isn = 0;
  last_ackno = 0;
  checkpoint = 0;
}

unfoldable pub stream_out : TcpReceiver → ByteStream
unfolding Reassembler.stream_out
stream_out r = Reassembler.stream_out r.reassembler

-- The stream index of the segment's first byte, for the initial number `isn`.
pub stream_index : WrappingInt32 → ℕ → TcpSegment → ℕ
stream_index isn checkpoint seg =
    sub64 (unwrap (plus seg.header.seqno (flag seg.header.syn)) isn checkpoint) 1

-- `_isn` after the segment: a first SYN sets it.
pub next_isn : TcpReceiver → TcpSegment → WrappingInt32
next_isn r seg = if seg.header.syn && not r.syn then seg.header.seqno else r.isn

-- What follows the guards, for the initial number that the segment leaves.
pub deliver : TcpReceiver → WrappingInt32 → TcpSegment → TcpReceiver
unfolding stream_index Reassembler.empty
deliver r isn seg =
    let re =
      push_substring r.reassembler (str seg.payload) (stream_index isn r.checkpoint seg)
        seg.header.fin in
    let fin' = if seg.header.fin && not r.fin && is_eof re then true else r.fin in
    record r {
      reassembler = re;
      syn = true;
      fin = fin';
      isn = isn;
      last_ackno =
          if Reassembler.empty re && fin'
          then wrap (add64 (first_unassembled_byte re) 2) isn
          else wrap (add64 (first_unassembled_byte re) 1) isn;
      checkpoint = first_unassembled_byte re;
    }

-- Past the first guard `_syn` is set, or this segment sets it.
pub segment_received : TcpReceiver → TcpSegment → TcpReceiver
unfolding next_isn
segment_received r seg =
    if not seg.header.syn && not r.syn
    then r
    else if ByteStream.eof (stream_out r) && r.fin
    then r
    else deliver r (next_isn r seg) seg

unfoldable pub ackno : TcpReceiver → Option WrappingInt32
ackno r = if not r.syn then none else some r.last_ackno

pub window_size : TcpReceiver → ℕ
window_size r = ByteStream.remaining_capacity (stream_out r)

unfoldable pub unassembled_bytes : TcpReceiver → ℕ
unfolding Reassembler.unassembled_bytes
unassembled_bytes r = Reassembler.unassembled_bytes r.reassembler

-- ===== src/Receiver/Output.antt =====
-- The stream that the receiver gives to its reader, whatever arrives.
use tcp.Prelude.{not, ◌&&◌, one_of}
use tcp.Buffer.{str}
use tcp.ByteStream
use tcp.ByteStream.Invariant.{IsValid}
use tcp.Reassembler.Output.{output-push_substring}
use tcp.Segment.{TcpSegment}
use tcp.Wrapping.{WrappingInt32}
use tcp.Receiver.{TcpReceiver, segment_received, deliver, stream_out, stream_index, next_isn}

pub record Sound (r : TcpReceiver) : Type 0 where
  pub stream_valid : IsValid r.reassembler.output

deliver-Sound :
    (r : TcpReceiver) (isn : WrappingInt32) (seg : TcpSegment) → Sound r → Sound (deliver r isn seg)
unfolding deliver
deliver-Sound r isn seg v = record {
  stream_valid =
      output-push_substring r.reassembler (str seg.payload) (stream_index isn r.checkpoint seg)
        seg.header.fin v.stream_valid;
}

-- The output stays a stream, whatever segment arrives.
pub segment_received-Sound :
    (r : TcpReceiver) (seg : TcpSegment) → Sound r → Sound (segment_received r seg)
unfolding segment_received
segment_received-Sound r seg v = one_of Sound (not seg.header.syn && not r.syn) r _ v (
    one_of Sound (ByteStream.eof (stream_out r) && r.fin) r _ v
      (deliver-Sound r (next_isn r seg) seg v))

-- ===== src/Segment/Wire.antt =====
-- libsponge/tcp_helpers/tcp_header.cc and tcp_segment.cc: the bytes of a TCP segment. A call that
-- throws returns `none`.
pub mod Header
pub mod RoundTrip
pub mod Faults
mod Tests
use tcp.Prelude.{
  ℕ, ◌+◌, ◌-◌, ◌*◌, ◌/◌, ◌%◌, ◌^◌, Bool, true, false, not, List, [], ◌∷◌, ◌++◌, Option, none, some,
  ltb, ◌==◌, if◌then◌else◌, length, take, replicate, bit, resize,
}
use tcp.Buffer.{Buffer, BufferList, str, list_of_string, append}
use tcp.Checksum
use tcp.Parser.{
  ParseResult, no_error, bad_checksum, header_too_short, NetParser, parser, Parse, pure, ◌>>=◌,
  ◌>>◌, get_error, u8, u16, u32, remove_prefix, unparse_int,
}
use tcp.Segment.{TcpHeader, TcpSegment, flag, header_length}

-- What `TCPHeader::parse` does with the fields that it has read.
pub finish_header : TcpHeader → Parse (ParseResult × TcpHeader)
finish_header h =
    if ltb h.doff 5
    then pure (header_too_short, h)
    else do remove_prefix (h.doff * 4 - header_length); e ← get_error; pure (e, h)

-- `TCPHeader::parse`: its result, beside the header that it fills in.
pub parse_header : Parse (ParseResult × TcpHeader)
parse_header = do
  sport ← u16
  dport ← u16
  seqno ← u32
  ackno ← u32
  off ← u8
  fl_b ← u8
  win ← u16
  cksum ← u16
  uptr ← u16
  finish_header (record {
    sport = sport;
    dport = dport;
    seqno = seqno;
    ackno = ackno;
    doff = off / 2 ^ 4;
    urg = bit fl_b 5;
    ack = bit fl_b 4;
    psh = bit fl_b 3;
    rst = bit fl_b 2;
    syn = bit fl_b 1;
    fin = bit fl_b 0;
    win = win;
    cksum = cksum;
    uptr = uptr;
  })

-- The byte of the flags, a sum of different bits.
abbrev pub flag_byte : TcpHeader → ℕ
flag_byte h =
    flag h.urg * 32
    + flag h.ack * 16
    + flag h.psh * 8
    + flag h.rst * 4
    + flag h.syn * 2
    + flag h.fin

-- The 20 bytes of the fields.
pub header_bytes : TcpHeader → List ℕ
header_bytes h =
    unparse_int 2 h.sport
    ++ (unparse_int 2 h.dport
        ++ (unparse_int 4 h.seqno
            ++ (unparse_int 4 h.ackno
                ++ (unparse_int 1 (h.doff * 2 ^ 4 % 2 ^ 8)
                    ++ (unparse_int 1 (flag_byte h)
                        ++ (unparse_int 2 h.win
                            ++ (unparse_int 2 h.cksum ++ unparse_int 2 h.uptr)))))))

-- `TCPHeader::serialize`
pub serialize_header : TcpHeader → Option (List ℕ)
serialize_header h = if ltb h.doff 5 then none else some (resize (4 * h.doff) (header_bytes h))

-- `TCPSegment::parse` past the checksum. The result of the header is not used.
fill_segment : Option ((ParseResult × TcpHeader) × NetParser) → Option (ParseResult × TcpSegment)
fill_segment none = none
fill_segment (some ((result, h), p)) = some (p.error, record { header = h; payload = p.buffer })

-- `TCPSegment::parse` after `check.value()`.
check_segment : TcpSegment → Buffer → Option ℕ → Option (ParseResult × TcpSegment)
check_segment seg b none = none
check_segment seg b (some v) =
    if not (v == 0) then some (bad_checksum, seg) else fill_segment (parse_header (parser b))

-- `TCPSegment::parse` on `seg`: its result, beside what it leaves of `seg`.
pub parse : TcpSegment → Buffer → ℕ → Option (ParseResult × TcpSegment)
parse seg b datagram_layer_checksum =
    check_segment seg b
      (Checksum.value (Checksum.add (Checksum.init datagram_layer_checksum) (str b)))

-- `TCPSegment::serialize` after the checksum, of a header and a payload.
with_payload : Buffer → Option (List ℕ) → Option BufferList
with_payload payload none = none
with_payload payload (some bytes) = some (append (list_of_string bytes) (payload ∷ []))

with_checksum : TcpSegment → Option ℕ → Option BufferList
with_checksum seg none = none
with_checksum seg (some ck) =
    with_payload seg.payload (serialize_header (record seg.header { cksum = ck }))

over_zero : TcpSegment → ℕ → Option (List ℕ) → Option BufferList
over_zero seg pseudo none = none
over_zero seg pseudo (some bytes) =
    with_checksum seg
      (Checksum.value (Checksum.add (Checksum.add (Checksum.init pseudo) bytes) (str seg.payload)))

-- `TCPSegment::serialize`
pub serialize : TcpSegment → ℕ → Option BufferList
serialize seg datagram_layer_checksum =
    over_zero seg datagram_layer_checksum (serialize_header (record seg.header { cksum = 0 }))

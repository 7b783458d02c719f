-- ===== src/Segment/Wire/Tests.antt =====
-- Segments and their bytes.
use tcp.Prelude.{◌≡◌, false, true, [], ◌∷◌, ◌++◌, some, arith}
use tcp.Buffer.{Buffer, BufferList, str, of_string, concatenate}
use tcp.Checksum
use tcp.Checksum.Sum.{value-add}
use tcp.Parser.{unparse_int, no_error}
use tcp.Segment.{TcpHeader, TcpSegment}
use tcp.Segment.Wire.{header_bytes, parse, serialize}
use tcp.Segment.Wire.Header.{IsValid}
use tcp.Segment.Wire.RoundTrip.{checksum, parse-serialize}

abbrev a_header : TcpHeader
a_header = record {
  sport = 80;
  dport = 1025;
  seqno = 0xfffffffe;
  ackno = 7;
  doff = 6;
  urg = false;
  ack = true;
  psh = false;
  rst = false;
  syn = true;
  fin = true;
  win = 64000;
  cksum = 0;
  uptr = 0;
}

abbrev a_payload : Buffer
a_payload = of_string (104 ∷ 105 ∷ 33 ∷ [])

abbrev a_segment : TcpSegment
a_segment = record { header = a_header; payload = a_payload }

a_header-IsValid : IsValid a_header
a_header-IsValid = omega arith

-- The bytes in one buffer, whatever they are.
abbrev a_buffer : Buffer
a_buffer = of_string (header_bytes (record a_header { cksum = 1 }))

parse-serialize_example :
    (bl : BufferList) × (serialize a_segment 11 ≡ some bl)
    × (str a_buffer ≡ concatenate bl
        → (rest : Buffer) × (parse a_segment a_buffer 11
            ≡ some (
              no_error,
              record { header = record a_header { cksum = checksum a_segment 11 }; payload = rest },
            ))
          × (str rest ≡ str a_payload))
unfolding str of_string
parse-serialize_example =
    parse-serialize a_segment a_segment 11 a_buffer a_header-IsValid (omega arith) (omega arith)
      (omega arith)

-- A header of four words, whose checksum is right.
abbrev short_header : TcpHeader
short_header = record {
  sport = 0;
  dport = 0;
  seqno = 0;
  ackno = 0;
  doff = 4;
  urg = false;
  ack = false;
  psh = false;
  rst = false;
  syn = false;
  fin = false;
  win = 0;
  cksum = 0xbfff;
  uptr = 0;
}

abbrev short_buffer : Buffer
short_buffer = of_string (header_bytes short_header ++ [])

short_checks : Checksum.value (Checksum.add (Checksum.init 0) (str short_buffer)) ≡ some 0
unfolding header_bytes of_string str unparse_int
short_checks = value-add 0 (header_bytes short_header ++ []) (omega arith)

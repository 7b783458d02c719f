-- ===== src/Ipv4/Tests.antt =====
-- Datagrams and their bytes.
use tcp.Prelude.{refl, none, ◌≡◌, [], ◌∷◌, ◌++◌, some, arith}
use tcp.Buffer.{Buffer, BufferList, str, of_string, concatenate}
use tcp.Buffer.Laws.{str-of_string}
use tcp.Checksum
use tcp.Checksum.Sum.{value-add}
use tcp.Parser.{unparse_int, NetParser, parser, no_error, wrong_ip_version}
use tcp.Ipv4.{Ipv4Header, Ipv4Datagram, new_header, parse_header, header_bytes, parse, serialize}
use tcp.Ipv4.Wire.{IsValid, all_header}
use tcp.Ipv4.RoundTrip.{with_sum, parse-serialize_ipv4}
use tcp.Ipv4.Faults.{wrong_version_throws}

abbrev a_header : Ipv4Header
a_header = record new_header { len = 26; src = 0x0a000001; dst = 0xc0a80001; hlen = 6 }

abbrev a_datagram : Ipv4Datagram
a_datagram = record { header = a_header; payload = of_string (1 ∷ 2 ∷ []) ∷ [] }

a_header-IsValid : IsValid a_header
a_header-IsValid = omega arith

abbrev a_buffer : Buffer
a_buffer = of_string (all_header a_header ++ 1 ∷ 2 ∷ [])

parse-serialize_ipv4_example :
    (bl : BufferList) × (serialize a_datagram ≡ some bl)
    × (str a_buffer ≡ concatenate bl
        → (p : NetParser) × (parse_header new_header (parser a_buffer)
            ≡ some ((no_error, with_sum a_header), p))
          × (parse (record { header = new_header; payload = [] }) a_buffer
              ≡ some (no_error, record { header = with_sum a_header; payload = p.buffer ∷ [] }))
          × (str p.buffer ≡ concatenate a_datagram.payload))
unfolding concatenate str of_string
parse-serialize_ipv4_example =
    parse-serialize_ipv4 a_datagram (record { header = new_header; payload = [] }) a_buffer
      a_header-IsValid (omega arith)

wrong_sum : Checksum.value (Checksum.add (Checksum.init 0) (all_header a_header)) ≡ some 12084
unfolding header_bytes unparse_int
wrong_sum = value-add 0 (all_header a_header) (omega arith)

abbrev version_6 : Ipv4Header
version_6 = record new_header { ver = 6; len = 22 }

abbrev buffer_6 : Buffer
buffer_6 = of_string (header_bytes version_6 ++ 1 ∷ 2 ∷ [])

wrong_version_throws_example :
    (p : NetParser) × (parse_header new_header (parser buffer_6)
      ≡ some ((wrong_ip_version, version_6), p))
    × (parse (record { header = new_header; payload = [] }) buffer_6
        ≡ some (no_error, record { header = version_6; payload = p.buffer ∷ [] }))
    × (serialize (record { header = version_6; payload = p.buffer ∷ [] }) ≡ none)
wrong_version_throws_example =
    wrong_version_throws version_6 (record { header = new_header; payload = [] }) buffer_6
      (1 ∷ 2 ∷ []) (omega arith) (omega arith) refl
      (str-of_string (header_bytes version_6 ++ 1 ∷ 2 ∷ [])) (omega arith)

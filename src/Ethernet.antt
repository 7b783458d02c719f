-- ===== src/Ethernet.antt =====
-- libsponge/tcp_helpers/ethernet_header.hh and .cc and ethernet_frame.hh and .cc: the frames of the
-- link layer.
pub mod Wire
use tcp.Prelude.{ℕ, Bool, ◌&&◌, List, [], ◌∷◌, ◌++◌, Option, none, some, ltb, ◌==◌, if◌then◌else◌}
use tcp.Buffer.{Buffer, BufferList, buffer_size, list_of_string, append}
use tcp.Parser.{
  ParseResult, packet_too_short, NetParser, parser, Parse, pure, ◌>>=◌, get_error, u8, u16,
  unparse_int,
}

-- The array of six bytes.
pub record EthernetAddress : Type 0 where
  pub byte0 : ℕ
  pub byte1 : ℕ
  pub byte2 : ℕ
  pub byte3 : ℕ
  pub byte4 : ℕ
  pub byte5 : ℕ

-- The address of six equal bytes: 0xff in a broadcast, 0 where nothing is set.
abbrev pub all_bytes : ℕ → EthernetAddress
all_bytes b = record { byte0 = b; byte1 = b; byte2 = b; byte3 = b; byte4 = b; byte5 = b }

abbrev pub ethernet_broadcast : EthernetAddress
ethernet_broadcast = all_bytes 0xff

-- `==` of two arrays.
unfoldable pub same_address : EthernetAddress → EthernetAddress → Bool
same_address a b =
    (a.byte0 == b.byte0)
    && (a.byte1 == b.byte1)
    && (a.byte2 == b.byte2)
    && (a.byte3 == b.byte3)
    && (a.byte4 == b.byte4)
    && (a.byte5 == b.byte5)

pub record EthernetHeader : Type 0 where
  pub dst : EthernetAddress
  pub src : EthernetAddress
  pub ether_type : ℕ

pub record EthernetFrame : Type 0 where
  pub header : EthernetHeader
  pub payload : BufferList

abbrev pub ethernet_length : ℕ
ethernet_length = 14

abbrev pub type_ipv4 : ℕ
type_ipv4 = 0x800

abbrev pub type_arp : ℕ
type_arp = 0x806

-- `for (auto &byte : address) byte = p.u8();`
pub read_address : Parse EthernetAddress
read_address = do
  byte0 ← u8
  byte1 ← u8
  byte2 ← u8
  byte3 ← u8
  byte4 ← u8
  byte5 ← u8
  pure (record {
    byte0 = byte0;
    byte1 = byte1;
    byte2 = byte2;
    byte3 = byte3;
    byte4 = byte4;
    byte5 = byte5;
  })

-- `for (auto &byte : address) NetUnparser::u8(ret, byte);`
unfoldable pub address_bytes : EthernetAddress → List ℕ
address_bytes a =
    unparse_int 1 a.byte0
    ++ (unparse_int 1 a.byte1
        ++ (unparse_int 1 a.byte2
            ++ (unparse_int 1 a.byte3 ++ (unparse_int 1 a.byte4 ++ unparse_int 1 a.byte5))))

-- The fields that `EthernetHeader::parse` reads, and its result.
pub read_header : Parse (ParseResult × EthernetHeader)
read_header = do
  dst ← read_address
  src ← read_address
  ether_type ← u16
  e ← get_error
  pure (e, record { dst = dst; src = src; ether_type = ether_type })

-- `EthernetHeader::parse` on `h`: its result, beside what it leaves of `h`.
pub parse_header : EthernetHeader → Parse (ParseResult × EthernetHeader)
parse_header h p =
    if ltb (buffer_size p.buffer) ethernet_length
    then some ((packet_too_short, h), p)
    else read_header p

-- `EthernetHeader::serialize`
pub header_bytes : EthernetHeader → List ℕ
header_bytes h = address_bytes h.dst ++ (address_bytes h.src ++ unparse_int 2 h.ether_type)

-- `EthernetFrame::parse` past the header, whose result is not used.
fill_frame :
    Option ((ParseResult × EthernetHeader) × NetParser) → Option (ParseResult × EthernetFrame)
fill_frame none = none
fill_frame (some ((result, h), p)) = some (p.error, record { header = h; payload = p.buffer ∷ [] })

-- `EthernetFrame::parse` on `f`: its result, beside what it leaves of `f`.
pub parse : EthernetFrame → Buffer → Option (ParseResult × EthernetFrame)
parse f b = fill_frame (parse_header f.header (parser b))

-- `EthernetFrame::serialize`
pub serialize : EthernetFrame → BufferList
serialize f = append (list_of_string (header_bytes f.header)) f.payload

-- ===== src/Ipv4.antt =====
-- libsponge/tcp_helpers/ipv4_header.hh and .cc and ipv4_datagram.hh and .cc: the datagrams of the
-- Internet layer.
pub mod Wire
pub mod RoundTrip
pub mod Faults
pub mod Total
mod Tests
use tcp.Prelude.{
  ℕ, ◌+◌, ◌-◌, ◌*◌, ◌/◌, ◌%◌, ◌^◌, Bool, true, false, not, List, [], ◌∷◌, ◌++◌, Option, none, some,
  ltb, ◌==◌, if◌then◌else◌, take, u16_mod, add32, bit, resize,
}
use tcp.Buffer.{Buffer, BufferList, str, buffer_size, size, list_of_string, append}
use tcp.Checksum
use tcp.Parser.{
  ParseResult, no_error, bad_checksum, packet_too_short, wrong_ip_version, header_too_short,
  truncated_packet, failed, NetParser, parser, Parse, pure, ◌>>=◌, ◌>>◌, get_error, u8, u16, u32,
  remove_prefix, unparse_int,
}
use tcp.Segment.{flag}

pub record Ipv4Header : Type 0 where
  pub ver : ℕ
  pub hlen : ℕ
  pub tos : ℕ
  pub len : ℕ
  pub id : ℕ
  pub df : Bool
  pub mf : Bool
  pub offset : ℕ
  pub ttl : ℕ
  pub proto : ℕ
  pub cksum : ℕ
  pub src : ℕ
  pub dst : ℕ

pub record Ipv4Datagram : Type 0 where
  pub header : Ipv4Header
  pub payload : BufferList

abbrev pub ipv4_length : ℕ
ipv4_length = 20

-- `IPv4Header h;`: what the initialisers of the fields give.
abbrev pub new_header : Ipv4Header
new_header = record {
  ver = 4;
  hlen = ipv4_length / 4;
  tos = 0;
  len = 0;
  id = 0;
  df = true;
  mf = false;
  offset = 0;
  ttl = 128;
  proto = 6;
  cksum = 0;
  src = 0;
  dst = 0;
}

-- The fields that `IPv4Header::parse` reads.
pub read_fields : Parse Ipv4Header
read_fields = do
  first_byte ← u8
  tos ← u8
  len ← u16
  id ← u16
  fo_val ← u16
  ttl ← u8
  proto ← u8
  cksum ← u16
  src ← u32
  dst ← u32
  pure (record {
    ver = first_byte / 2 ^ 4;
    hlen = first_byte % 2 ^ 4;
    tos = tos;
    len = len;
    id = id;
    df = bit fo_val 14;
    mf = bit fo_val 13;
    offset = fo_val % 2 ^ 13;
    ttl = ttl;
    proto = proto;
    cksum = cksum;
    src = src;
    dst = dst;
  })

-- `if (check.value())`
check_value : Ipv4Header → Option ℕ → Parse (ParseResult × Ipv4Header)
check_value h none p = none
check_value h (some v) p = some ((if not (v == 0) then bad_checksum else no_error, h), p)

-- `IPv4Header::parse` from `if (p.error())` on; `e` is the parser's error.
pub verify : Buffer → Ipv4Header → ParseResult → Parse (ParseResult × Ipv4Header)
verify original h e =
    if failed e
    then pure (e, h)
    else check_value h
        (Checksum.value (Checksum.add (Checksum.init 0) (take (4 * h.hlen) (str original))))

-- `IPv4Header::parse` after the fields.
pub check_fields : Buffer → Ipv4Header → Parse (ParseResult × Ipv4Header)
check_fields original h =
    let data_size = buffer_size original in
    if ltb data_size (4 * h.hlen)
    then pure (packet_too_short, h)
    else if not (h.ver == 4)
    then pure (wrong_ip_version, h)
    else if ltb h.hlen 5
    then pure (header_too_short, h)
    else if not (data_size == h.len)
    then pure (truncated_packet, h)
    else do remove_prefix (h.hlen * 4 - ipv4_length); e ← get_error; verify original h e

-- `IPv4Header::parse` on `h`: its result, beside what it leaves of `h`.
pub parse_header : Ipv4Header → Parse (ParseResult × Ipv4Header)
parse_header h p =
    if ltb (buffer_size p.buffer) ipv4_length
    then some ((packet_too_short, h), p)
    else (read_fields >>= check_fields p.buffer) p

-- The 20 bytes of the fields. What is combined by `|` are different bits, and so a sum.
pub header_bytes : Ipv4Header → List ℕ
header_bytes h =
    unparse_int 1 ((h.ver * 2 ^ 4 + h.hlen % 2 ^ 4) % 2 ^ 8)
    ++ (unparse_int 1 h.tos
        ++ (unparse_int 2 h.len
            ++ (unparse_int 2 h.id
                ++ (unparse_int 2 (flag h.df * 0x4000 + flag h.mf * 0x2000 + h.offset % 2 ^ 13)
                    ++ (unparse_int 1 h.ttl
                        ++ (unparse_int 1 h.proto
                            ++ (unparse_int 2 h.cksum
                                ++ (unparse_int 4 h.src ++ unparse_int 4 h.dst))))))))

-- `IPv4Header::serialize`
pub serialize_header : Ipv4Header → Option (List ℕ)
serialize_header h =
    if not (h.ver == 4)
    then none
    else if ltb (4 * h.hlen) ipv4_length
    then none
    else some (resize (4 * h.hlen) (header_bytes h))

-- In 16 bits; `hlen` is a byte.
pub payload_length : Ipv4Header → ℕ
payload_length h = (h.len + u16_mod - 4 * h.hlen) % u16_mod

pub pseudo_cksum : Ipv4Header → ℕ
pseudo_cksum h =
    let pcksum = add32 (h.src / 2 ^ 16) (h.src % 2 ^ 16) in
    let pcksum = add32 pcksum (add32 (h.dst / 2 ^ 16) (h.dst % 2 ^ 16)) in
    let pcksum = add32 pcksum h.proto in add32 pcksum (payload_length h)

-- `IPv4Datagram::parse` past the header, whose result is not used.
fill_datagram :
    Option ((ParseResult × Ipv4Header) × NetParser) → Option (ParseResult × Ipv4Datagram)
fill_datagram none = none
fill_datagram (some ((result, h), p)) = some (
  if not (size (p.buffer ∷ []) == payload_length h) then packet_too_short else p.error,
  record { header = h; payload = p.buffer ∷ [] },
)

-- `IPv4Datagram::parse` on `d`: its result, beside what it leaves of `d`.
pub parse : Ipv4Datagram → Buffer → Option (ParseResult × Ipv4Datagram)
parse d b = fill_datagram (parse_header d.header (parser b))

-- `IPv4Datagram::serialize` after the checksum.
with_payload : BufferList → Option (List ℕ) → Option BufferList
with_payload payload none = none
with_payload payload (some bytes) = some (append (list_of_string bytes) payload)

with_checksum : Ipv4Datagram → Option ℕ → Option BufferList
with_checksum d none = none
with_checksum d (some ck) =
    with_payload d.payload (serialize_header (record d.header { cksum = ck }))

over_zero : Ipv4Datagram → Option (List ℕ) → Option BufferList
over_zero d none = none
over_zero d (some bytes) = with_checksum d (Checksum.value (Checksum.add (Checksum.init 0) bytes))

-- `IPv4Datagram::serialize`
pub serialize : Ipv4Datagram → Option BufferList
serialize d =
    if not (size d.payload == payload_length d.header)
    then none
    else over_zero d (serialize_header (record d.header { cksum = 0 }))

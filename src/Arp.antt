-- ===== src/Arp.antt =====
-- libsponge/tcp_helpers/arp_message.hh and .cc: the messages that ask for the Ethernet address of an
-- IP address.
pub mod Wire
use tcp.Prelude.{ℕ, Bool, not, ◌&&◌, ◌||◌, List, ◌++◌, Option, none, some, ltb, ◌==◌, if◌then◌else◌}
use tcp.Buffer.{Buffer, buffer_size}
use tcp.Parser.{
  ParseResult, packet_too_short, unsupported, NetParser, parser, Parse, pure, ◌>>=◌, get_error, u8,
  u16, u32, unparse_int,
}
use tcp.Ethernet.{EthernetAddress, all_bytes, type_ipv4, read_address, address_bytes}

pub record ArpMessage : Type 0 where
  pub hardware_type : ℕ
  pub protocol_type : ℕ
  pub hardware_address_size : ℕ
  pub protocol_address_size : ℕ
  pub opcode : ℕ
  pub sender_ethernet_address : EthernetAddress
  pub sender_ip_address : ℕ
  pub target_ethernet_address : EthernetAddress
  pub target_ip_address : ℕ

abbrev pub arp_length : ℕ
arp_length = 28

abbrev pub type_ethernet : ℕ
type_ethernet = 1

abbrev pub opcode_request : ℕ
opcode_request = 1

abbrev pub opcode_reply : ℕ
opcode_reply = 2

-- `ARPMessage m;`: what the initialisers of the fields give.
abbrev pub new_message : ArpMessage
new_message = record {
  hardware_type = type_ethernet;
  protocol_type = type_ipv4;
  hardware_address_size = 6;
  protocol_address_size = 4;
  opcode = 0;
  sender_ethernet_address = all_bytes 0;
  sender_ip_address = 0;
  target_ethernet_address = all_bytes 0;
  target_ip_address = 0;
}

-- `ARPMessage::supported`
unfoldable pub supported : ArpMessage → Bool
supported m =
    (m.hardware_type == type_ethernet)
    && (m.protocol_type == type_ipv4)
    && (m.hardware_address_size == 6)
    && (m.protocol_address_size == 4)
    && ((m.opcode == opcode_request) || (m.opcode == opcode_reply))

-- `ARPMessage::parse` from the test for `supported` on.
pub read_addresses : ArpMessage → Parse (ParseResult × ArpMessage)
read_addresses m = if not (supported m) then pure (unsupported, m) else do
  sender_ethernet ← read_address
  sender_ip ← u32
  target_ethernet ← read_address
  target_ip ← u32
  e ← get_error
  pure (
    e,
    record m {
      sender_ethernet_address = sender_ethernet;
      sender_ip_address = sender_ip;
      target_ethernet_address = target_ethernet;
      target_ip_address = target_ip;
    },
  )

-- `ARPMessage::parse` from the first field on.
pub read_message : ArpMessage → Parse (ParseResult × ArpMessage)
read_message m = do
  hardware_type ← u16
  protocol_type ← u16
  hardware_size ← u8
  protocol_size ← u8
  opcode ← u16
  read_addresses (record m {
    hardware_type = hardware_type;
    protocol_type = protocol_type;
    hardware_address_size = hardware_size;
    protocol_address_size = protocol_size;
    opcode = opcode;
  })

-- The result and the message, once the parser is gone.
abbrev pub result : {A : Type 0} → Option (A × NetParser) → Option A
result none = none
result (some (a, p)) = some a

-- `ARPMessage::parse` on `m`: its result, beside what it leaves of `m`.
pub parse : ArpMessage → Buffer → Option (ParseResult × ArpMessage)
parse m b =
    if ltb (buffer_size b) arp_length
    then some (packet_too_short, m)
    else result (read_message m (parser b))

-- The bytes of the fields.
pub message_bytes : ArpMessage → List ℕ
message_bytes m =
    unparse_int 2 m.hardware_type
    ++ (unparse_int 2 m.protocol_type
        ++ (unparse_int 1 m.hardware_address_size
            ++ (unparse_int 1 m.protocol_address_size
                ++ (unparse_int 2 m.opcode
                    ++ (address_bytes m.sender_ethernet_address
                        ++ (unparse_int 4 m.sender_ip_address
                            ++ (address_bytes m.target_ethernet_address
                                ++ unparse_int 4 m.target_ip_address)))))))

-- `ARPMessage::serialize`
pub serialize : ArpMessage → Option (List ℕ)
serialize m = if not (supported m) then none else some (message_bytes m)

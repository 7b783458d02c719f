-- ===== src/Arp/Wire.antt =====
-- An ARP message survives its bytes, and only a supported one is accepted.
use tcp.Prelude.{
  ℕ, ◌<◌, ◌≡◌, refl, true, not, List, [], ◌++◌, some, arith, length, u16_mod, u32_mod, inl, inr,
  ltb, Bool-cases,
}
use tcp.Buffer.{Buffer, str, buffer_size}
use tcp.Parser.{ParseResult, no_error, packet_too_short, unsupported, parser, unparse_int}
use tcp.Parser.Reads.{
  Reads, Reads-pure, Reads-bind, Reads-u8, Reads-u16, Reads-u32, Reads-get_error, long_enough,
}
use tcp.Parser.Total.{
  Total, Total-pure, Total-bind, Total-u8, Total-u16, Total-u32, Total-get_error,
}
use tcp.Ethernet.{address_bytes}
use tcp.Ethernet.Wire.{AddressIsValid, read_address-Reads, read_address-Total}
use tcp.Arp.{ArpMessage, supported, read_addresses, read_message, parse, message_bytes, serialize}

-- The fields fit their types.
pub record IsValid (m : ArpMessage) : Type 0 where
  pub hardware_type_fits : m.hardware_type < u16_mod
  pub protocol_type_fits : m.protocol_type < u16_mod
  pub hardware_size_fits : m.hardware_address_size < 256
  pub protocol_size_fits : m.protocol_address_size < 256
  pub opcode_fits : m.opcode < u16_mod
  pub sender_ethernet_valid : AddressIsValid m.sender_ethernet_address
  pub sender_ip_fits : m.sender_ip_address < u32_mod
  pub target_ethernet_valid : AddressIsValid m.target_ethernet_address
  pub target_ip_fits : m.target_ip_address < u32_mod

-- The bytes of the addresses.
abbrev addresses_bytes : ArpMessage → List ℕ
addresses_bytes m =
    address_bytes m.sender_ethernet_address
    ++ (unparse_int 4 m.sender_ip_address
        ++ (address_bytes m.target_ethernet_address ++ unparse_int 4 m.target_ip_address))

-- `m` with the other addresses of `before`.
abbrev with_addresses : ArpMessage → ArpMessage → ArpMessage
with_addresses m before = record m {
  sender_ethernet_address = before.sender_ethernet_address;
  sender_ip_address = before.sender_ip_address;
  target_ethernet_address = before.target_ethernet_address;
  target_ip_address = before.target_ip_address;
}

read_addresses-Reads :
    (m before : ArpMessage)
    → IsValid m
    → supported m ≡ true
    → Reads {A = ParseResult × ArpMessage}
        (read_addresses (with_addresses m before))
        (addresses_bytes m)
        (no_error, m)
unfolding read_addresses supported unparse_int address_bytes
read_addresses-Reads m before v sup = rw sup (
    Reads-bind _ _ (read_address-Reads m.sender_ethernet_address v.sender_ethernet_valid) (
      Reads-bind _ _ (Reads-u32 m.sender_ip_address v.sender_ip_fits) (
        Reads-bind _ _ (read_address-Reads m.target_ethernet_address v.target_ethernet_valid) (
          Reads-bind _ [] (Reads-u32 m.target_ip_address v.target_ip_fits)
            (Reads-bind _ [] Reads-get_error (Reads-pure (no_error, m)))))))

read_message-Reads :
    (m before : ArpMessage)
    → IsValid m
    → supported m ≡ true
    → Reads {A = ParseResult × ArpMessage} (read_message before) (message_bytes m) (no_error, m)
unfolding read_message message_bytes
read_message-Reads m before v sup =
    Reads-bind _ _ (Reads-u16 m.hardware_type v.hardware_type_fits) (
      Reads-bind _ _ (Reads-u16 m.protocol_type v.protocol_type_fits) (
        Reads-bind _ _ (Reads-u8 m.hardware_address_size v.hardware_size_fits) (
          Reads-bind _ _ (Reads-u8 m.protocol_address_size v.protocol_size_fits) (
            Reads-bind _ _ (Reads-u16 m.opcode v.opcode_fits)
              (read_addresses-Reads m before v sup)))))

length-message_bytes : (m : ArpMessage) → length (message_bytes m) ≡ 28
unfolding message_bytes address_bytes unparse_int
length-message_bytes m = refl

pub serialize_lem : (m : ArpMessage) → supported m ≡ true → serialize m ≡ some (message_bytes m)
unfolding serialize
serialize_lem m sup = rw sup refl

pub parse_lem :
    (m before : ArpMessage) (b : Buffer) (rest : List ℕ)
    → IsValid m
    → supported m ≡ true
    → str b ≡ message_bytes m ++ rest
    → parse before b ≡ some (no_error, m)
unfolding parse
parse_lem m before b rest v sup same =
    let (p, e, fine, left) = (read_message-Reads m before v sup).run (parser b) rest refl same in
    let enough =
      long_enough 28 b (message_bytes m) rest same (omega (arith, length-message_bytes m)) in
    rw (enough, e) refl

-- A supported message whose fields fit their types has bytes, and parsing these, whatever follows
-- them, gives the message back.
pub parse-serialize_arp :
    (m before : ArpMessage) (b : Buffer) (rest : List ℕ)
    → IsValid m
    → supported m ≡ true
    → (bytes : List ℕ) × (serialize m ≡ some bytes)
      × (str b ≡ bytes ++ rest → parse before b ≡ some (no_error, m))
parse-serialize_arp m before b rest v sup =
    (message_bytes m, serialize_lem m sup, parse_lem m before b rest v sup)

read_addresses-Total : (m : ArpMessage) → Total {A = ParseResult × ArpMessage} (read_addresses m)
unfolding read_addresses
read_addresses-Total m = elim (Bool-cases (not (supported m))) [
  | inl e ↦ rw e (Total-pure (unsupported, m))
  | inr e ↦ rw e (
      Total-bind _ read_address-Total (λ se. Total-bind _ Total-u32 (λ si.
        Total-bind _ read_address-Total
          (λ te. Total-bind _ Total-u32 (λ ti. Total-bind _ Total-get_error (λ e. Total-pure _))))))
]

read_message-Total : (m : ArpMessage) → Total {A = ParseResult × ArpMessage} (read_message m)
unfolding read_message
read_message-Total m = Total-bind _ Total-u16 (λ h. Total-bind _ Total-u16 (λ p.
    Total-bind _ Total-u8
      (λ hs. Total-bind _ Total-u8 (λ ps. Total-bind _ Total-u16 (λ o. read_addresses-Total _)))))

pub parse-total :
    (m : ArpMessage) (b : Buffer)
    → (r : ParseResult) × (m' : ArpMessage) × (parse m b ≡ some (r, m'))
unfolding parse
parse-total m b = elim (Bool-cases (ltb (buffer_size b) 28)) [
  | inl e ↦ (packet_too_short, m, rw e refl)
  | inr e ↦ let ((r, m'), p, q) = (read_message-Total m).run (parser b) in (r, m', rw (e, q) refl)
]

-- ===== src/Ethernet/Wire.antt =====
-- An Ethernet frame survives its bytes.
use tcp.Prelude.{◌<◌, ◌≡◌, refl, ap, ◌∙◌, [], ◌∷◌, ◌++◌, some, arith, length, u16_mod}
use tcp.Buffer.{Buffer, str, list_of_string, concatenate}
use tcp.Buffer.Laws.{concatenate-append, concatenate-list_of_string}
use tcp.Parser.{ParseResult, no_error, parser, unparse_int}
use tcp.Parser.Reads.{
  Reads, Reads-pure, Reads-bind, Reads-u8, Reads-u16, Reads-get_error, long_enough,
}
use tcp.Parser.Total.{Total, Total-pure, Total-bind, Total-u8}
use tcp.Ethernet.{
  EthernetAddress, EthernetHeader, EthernetFrame, read_address, address_bytes, read_header,
  parse_header, header_bytes, fill_frame, parse, serialize,
}

-- Six bytes.
pub record AddressIsValid (a : EthernetAddress) : Type 0 where
  pub byte0_fits : a.byte0 < 256
  pub byte1_fits : a.byte1 < 256
  pub byte2_fits : a.byte2 < 256
  pub byte3_fits : a.byte3 < 256
  pub byte4_fits : a.byte4 < 256
  pub byte5_fits : a.byte5 < 256

pub read_address-Reads :
    (a : EthernetAddress) → AddressIsValid a → Reads read_address (address_bytes a) a
unfolding read_address address_bytes unparse_int
read_address-Reads a v = Reads-bind _ _ (Reads-u8 a.byte0 v.byte0_fits) (
    Reads-bind _ _ (Reads-u8 a.byte1 v.byte1_fits) (
      Reads-bind _ _ (Reads-u8 a.byte2 v.byte2_fits) (
        Reads-bind _ _ (Reads-u8 a.byte3 v.byte3_fits) (
          Reads-bind _ _ (Reads-u8 a.byte4 v.byte4_fits)
            (Reads-bind _ [] (Reads-u8 a.byte5 v.byte5_fits) (Reads-pure a))))))

pub read_address-Total : Total read_address
unfolding read_address
read_address-Total = Total-bind _ Total-u8 (λ b0. Total-bind _ Total-u8 (λ b1.
    Total-bind _ Total-u8 (λ b2.
      Total-bind _ Total-u8
        (λ b3. Total-bind _ Total-u8 (λ b4. Total-bind _ Total-u8 (λ b5. Total-pure _))))))

pub length-address_bytes : (a : EthernetAddress) → length (address_bytes a) ≡ 6
unfolding address_bytes unparse_int
length-address_bytes a = refl

-- The fields fit their types.
pub record IsValid (h : EthernetHeader) : Type 0 where
  pub dst_valid : AddressIsValid h.dst
  pub src_valid : AddressIsValid h.src
  pub type_fits : h.ether_type < u16_mod

read_header-Reads :
    (h : EthernetHeader)
    → IsValid h
    → Reads {A = ParseResult × EthernetHeader} read_header (header_bytes h) (no_error, h)
unfolding read_header header_bytes unparse_int address_bytes
read_header-Reads h v = Reads-bind _ _ (read_address-Reads h.dst v.dst_valid) (
    Reads-bind _ _ (read_address-Reads h.src v.src_valid) (
      Reads-bind _ [] (Reads-u16 h.ether_type v.type_fits)
        (Reads-bind _ [] Reads-get_error (Reads-pure (no_error, h)))))

length-header_bytes : (h : EthernetHeader) → length (header_bytes h) ≡ 14
unfolding header_bytes address_bytes unparse_int
length-header_bytes h = refl

-- Parsing the bytes of a frame whose fields fit their types, in one buffer, gives the frame back,
-- with its payload in one buffer.
pub parse-serialize_ethernet :
    (f before : EthernetFrame) (b : Buffer)
    → IsValid f.header
    → str b ≡ concatenate (serialize f)
    → (rest : Buffer) × (parse before b
        ≡ some (no_error, record { header = f.header; payload = rest ∷ [] }))
      × (str rest ≡ concatenate f.payload)
unfolding parse fill_frame parse_header serialize
parse-serialize_ethernet f before b v same =
    let bytes = header_bytes f.header in
    let text =
      same
      ∙ concatenate-append (list_of_string bytes) f.payload
      ∙ ap (λ xs. xs ++ concatenate f.payload) (concatenate-list_of_string bytes) in
    let enough =
      long_enough 14 b bytes (concatenate f.payload) text
        (omega (arith, length-header_bytes f.header)) in
    let (p, e, fine, left) =
      (read_header-Reads f.header v).run (parser b) (concatenate f.payload) refl text in
    (p.buffer, rw (enough, e, fine) refl, left)

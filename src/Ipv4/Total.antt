-- ===== src/Ipv4/Total.antt =====
-- What throws nothing: parsing, whatever the bytes, and serialising a datagram of version 4.
use tcp.Prelude.{
  ℕ, ◌+◌, ◌-◌, ◌*◌, ◌<◌, ◌≡◌, refl, ap, ◌∙◌, not, List, [], ◌∷◌, if◌then◌else◌, ◌++◌, take, some,
  arith, length, length-append, resize, ltb, ◌==◌, eq→==, one_of, u16_mod, false, true,
}
use tcp.Buffer.{Buffer, BufferList, str, buffer_size, concatenate, size, append, list_of_string}
use tcp.Buffer.Laws.{size-concatenate, concatenate-append, concatenate-list_of_string}
use tcp.Checksum
use tcp.Checksum.Sum.{add-lt}
use tcp.Checksum.Fold.{ones_sum, value_lem}
use tcp.Parser.{
  ParseResult, NetParser, parser, failed, packet_too_short, wrong_ip_version, header_too_short,
  truncated_packet, unparse_int, bad_checksum, no_error,
}
use tcp.Parser.Total.{
  Total, Total-pure, Total-bind, Total-u8, Total-u16, Total-u32, Total-get_error,
  Total-remove_prefix,
}
use tcp.Ipv4.{
  Ipv4Header, Ipv4Datagram, ipv4_length, read_fields, check_value, verify, check_fields,
  parse_header, header_bytes, serialize_header, payload_length, fill_datagram, parse, with_payload,
  with_checksum, over_zero, serialize,
}

read_fields-Total : Total {A = Ipv4Header} read_fields
unfolding read_fields
read_fields-Total = Total-bind _ Total-u8 (λ first_byte. Total-bind _ Total-u8 (λ tos.
    Total-bind _ Total-u16 (λ len. Total-bind _ Total-u16 (λ id. Total-bind _ Total-u16 (λ fo_val.
      Total-bind _ Total-u8 (λ ttl. Total-bind _ Total-u8 (λ proto. Total-bind _ Total-u16 (λ cksum.
        Total-bind _ Total-u32 (λ src. Total-bind _ Total-u32 (λ dst. Total-pure _))))))))))

verify-Total : (original : Buffer) (h : Ipv4Header) (e : ParseResult) → Total (verify original h e)
unfolding verify check_value Checksum.init
verify-Total original h e =
    let sum = Checksum.add (Checksum.init 0) (take (4 * h.hlen) (str original)) in
    let known =
      value_lem sum (add-lt (take (4 * h.hlen) (str original)) (Checksum.init 0) (omega arith)) in
    one_of Total (failed e) _ _ (Total-pure (e, h)) (record {
      run = λ p. (
        (if not (0xffff - ones_sum sum.sum == 0) then bad_checksum else no_error, h),
        p,
        rw known refl,
      );
    })

check_fields-Total : (original : Buffer) (h : Ipv4Header) → Total (check_fields original h)
unfolding check_fields
check_fields-Total original h =
    one_of Total (ltb (buffer_size original) (4 * h.hlen)) _ _ (Total-pure (packet_too_short, h)) (
      one_of Total (not (h.ver == 4)) _ _ (Total-pure (wrong_ip_version, h)) (
        one_of Total (ltb h.hlen 5) _ _ (Total-pure (header_too_short, h)) (
          one_of Total (not (buffer_size original == h.len)) _ _ (Total-pure (truncated_packet, h))
            (Total-bind _ (Total-remove_prefix (h.hlen * 4 - ipv4_length))
              (λ _. Total-bind _ Total-get_error (λ e. verify-Total original h e))))))

parse_header_total :
    (h : Ipv4Header) (p : NetParser)
    → (r : ParseResult × Ipv4Header) × (p' : NetParser) × (parse_header h p ≡ some (r, p'))
unfolding parse_header
parse_header_total h p =
    one_of (λ o. (r : ParseResult × Ipv4Header) × (p' : NetParser) × (o ≡ some (r, p')))
      (ltb (buffer_size p.buffer) ipv4_length) _ _ ((packet_too_short, h), p, refl)
      ((Total-bind (check_fields p.buffer) read_fields-Total (check_fields-Total p.buffer)).run p)

-- What is parsed has its payload in one buffer.
pub parse-total_ipv4 :
    (d : Ipv4Datagram) (b : Buffer)
    → (r : ParseResult) × (h : Ipv4Header) × (payload : Buffer) × (parse d b
        ≡ some (r, record { header = h; payload = payload ∷ [] }))
unfolding parse fill_datagram
parse-total_ipv4 d b =
    let ((r, h), p, e) = parse_header_total d.header (parser b) in
    (
      if not (size (p.buffer ∷ []) == payload_length h) then packet_too_short else p.error,
      h,
      p.buffer,
      rw e refl,
    )

serialize_header_total :
    (h : Ipv4Header)
    → h.ver ≡ 4
    → h.hlen ≡ 5
    → (bytes : List ℕ) × (serialize_header h ≡ some bytes) × (length bytes ≡ 20)
unfolding serialize_header header_bytes unparse_int
serialize_header_total h four five =
    let version : (h.ver == 4) ≡ true = eq→== h.ver 4 four in
    let long : ltb (4 * h.hlen) ipv4_length ≡ false = ground (arith, five) in
    (resize (4 * h.hlen) (header_bytes h), rw (version, long) refl, rw five refl)

pub length-serialize_ipv4 :
    (d : Ipv4Datagram)
    → d.header.ver ≡ 4
    → d.header.hlen ≡ 5
    → d.header.len ≡ 20 + length (concatenate d.payload)
    → d.header.len < u16_mod
    → (bl : BufferList) × (serialize d ≡ some bl)
      × (length (concatenate bl) ≡ 20 + length (concatenate d.payload))
unfolding serialize over_zero with_checksum with_payload payload_length Checksum.init
length-serialize_ipv4 d four five counted small =
    let fits =
      eq→== (size d.payload) (payload_length d.header)
        (size-concatenate d.payload (omega (arith, counted)) ∙ omega (arith, counted, five)) in
    let (zeros, e, _) = serialize_header_total (record d.header { cksum = 0 }) four five in
    let sum = Checksum.add (Checksum.init 0) zeros in
    let known = value_lem sum (add-lt zeros (Checksum.init 0) (omega arith)) in
    let (text, q, twenty) =
      serialize_header_total (record d.header { cksum = 0xffff - ones_sum sum.sum }) four five in
    let shown = ap length (
      concatenate-append (list_of_string text) d.payload
      ∙ ap (λ xs. xs ++ concatenate d.payload) (concatenate-list_of_string text)) in
    (
      append (list_of_string text) d.payload,
      rw (fits, e) (ap (with_checksum d) known ∙ ap (with_payload d.payload) q),
      omega (arith, shown, length-append text (concatenate d.payload), twenty),
    )

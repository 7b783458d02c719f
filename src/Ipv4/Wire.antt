-- ===== src/Ipv4/Wire.antt =====
-- The header of an IPv4 datagram is read back, up to its checksum.
use tcp.Prelude.{
  ℕ, zero, suc, ◌+◌, ◌-◌, ◌*◌, ◌/◌, ◌%◌, ◌^◌, ◌≤◌, ◌<◌, ◌≡◌, refl, sym, ap, ◌∙◌, subst, Bool, false,
  not, List, [], ◌∷◌, ◌++◌, append-nil, some, arith, ltb, ◌==◌, if◌then◌else◌, length, take,
  replicate, length-replicate, u16_mod, u32_mod, length-append, bit, eq→==, ne→==, ◌≢◌,
}
use tcp.Buffer.{Buffer, str, buffer_size}
use tcp.Checksum
use tcp.Parser.{
  ParseResult, no_error, bad_checksum, wrong_ip_version, NetParser, parser, pure, ◌>>=◌, get_error,
  remove_prefix, unparse_int,
}
use tcp.Parser.Reads.{
  Reads, Reads-pure, Reads-bind, Reads-u8, Reads-u16, Reads-u32, Reads-get_error,
  Reads-remove_prefix, long_enough,
}
use tcp.Segment.{flag}
use tcp.Segment.Flag.{one_flag, flag_le}
use tcp.Ipv4.{
  Ipv4Header, ipv4_length, read_fields, check_value, verify, check_fields, parse_header,
  header_bytes, payload_length, pseudo_cksum,
}

-- The fields fit their types and their bits, and the header is of version 4 and long enough.
pub record IsValid (h : Ipv4Header) : Type 0 where
  pub ver_is : h.ver ≡ 4
  pub hlen_least : 5 ≤ h.hlen
  pub hlen_fits : h.hlen < 16
  pub tos_fits : h.tos < 256
  pub len_fits : h.len < u16_mod
  pub id_fits : h.id < u16_mod
  pub offset_fits : h.offset < 2 ^ 13
  pub ttl_fits : h.ttl < 256
  pub proto_fits : h.proto < 256
  pub cksum_fits : h.cksum < u16_mod
  pub src_fits : h.src < u32_mod
  pub dst_fits : h.dst < u32_mod

-- The fields fit their types and their bits.
pub record FieldsFit (h : Ipv4Header) : Type 0 where
  pub ver_fits : h.ver < 16
  pub hlen_fits : h.hlen < 16
  pub tos_fits : h.tos < 256
  pub len_fits : h.len < u16_mod
  pub id_fits : h.id < u16_mod
  pub offset_fits : h.offset < 2 ^ 13
  pub ttl_fits : h.ttl < 256
  pub proto_fits : h.proto < 256
  pub cksum_fits : h.cksum < u16_mod
  pub src_fits : h.src < u32_mod
  pub dst_fits : h.dst < u32_mod

IsValid-FieldsFit : (h : Ipv4Header) → IsValid h → FieldsFit h
IsValid-FieldsFit h v = omega (arith, v)

-- The byte of the version and the length, and the word of the flags and the offset.
abbrev first_byte : Ipv4Header → ℕ
first_byte h = (h.ver * 2 ^ 4 + h.hlen % 2 ^ 4) % 2 ^ 8

abbrev fo_val : Ipv4Header → ℕ
fo_val h = flag h.df * 0x4000 + flag h.mf * 0x2000 + h.offset % 2 ^ 13

fo_val_lem :
    (d m : Bool) (o : ℕ)
    → o < 2 ^ 13
    → let f = flag d * 0x4000 + flag m * 0x2000 + o % 2 ^ 13 in
      (bit f 14 ≡ d) × (bit f 13 ≡ m) × (f % 2 ^ 13 ≡ o) × (f < u16_mod)
fo_val_lem d m o h =
    let hd = flag_le d in
    let hm = flag_le m in
    (
      ap (λ k. k == 1) (omega arith) ∙ one_flag d,
      ap (λ k. k == 1) (omega arith) ∙ one_flag m,
      omega arith,
      omega arith,
    )

-- The header that the fields make is the one that they are of.
same_header :
    (h : Ipv4Header)
    → FieldsFit h
    → Path Ipv4Header
        (record h {
          ver = first_byte h / 2 ^ 4;
          hlen = first_byte h % 2 ^ 4;
          df = bit (fo_val h) 14;
          mf = bit (fo_val h) 13;
          offset = fo_val h % 2 ^ 13;
        })
        h
same_header h v =
    let (d, m, o, _) = fo_val_lem h.df h.mf h.offset v.offset_fits in
    let e1 : first_byte h / 2 ^ 4 ≡ h.ver = omega (arith, v.ver_fits, v.hlen_fits) in
    let e2 : first_byte h % 2 ^ 4 ≡ h.hlen = omega (arith, v.ver_fits, v.hlen_fits) in
    λ i. record h { ver = e1 i; hlen = e2 i; df = d i; mf = m i; offset = o i }

read_fields-Reads : (h : Ipv4Header) → FieldsFit h → Reads read_fields (header_bytes h) h
unfolding read_fields header_bytes unparse_int
read_fields-Reads h v =
    let (_, _, _, fo_fits) = fo_val_lem h.df h.mf h.offset v.offset_fits in
    Reads-bind _ _ (Reads-u8 (first_byte h) (omega arith)) (
      Reads-bind _ _ (Reads-u8 h.tos v.tos_fits) (
        Reads-bind _ _ (Reads-u16 h.len v.len_fits) (
          Reads-bind _ _ (Reads-u16 h.id v.id_fits) (
            Reads-bind _ _ (Reads-u16 (fo_val h) fo_fits) (
              Reads-bind _ _ (Reads-u8 h.ttl v.ttl_fits) (
                Reads-bind _ _ (Reads-u8 h.proto v.proto_fits) (
                  Reads-bind _ _ (Reads-u16 h.cksum v.cksum_fits) (
                    Reads-bind _ _ (Reads-u32 h.src v.src_fits) (
                      Reads-bind _ [] (Reads-u32 h.dst v.dst_fits) (
                        subst (λ k. Reads (pure k) [] h) (sym (same_header h v))
                          (Reads-pure h)))))))))))

abbrev pub padding : Ipv4Header → List ℕ
padding h = replicate (h.hlen * 4 - ipv4_length) 0

-- All of the header's bytes.
abbrev pub all_header : Ipv4Header → List ℕ
all_header h = header_bytes h ++ padding h

pub length-header_bytes : (h : Ipv4Header) → length (header_bytes h) ≡ 20
unfolding header_bytes unparse_int
length-header_bytes h = refl

pub length-all_header : (h : Ipv4Header) → 5 ≤ h.hlen → length (all_header h) ≡ 4 * h.hlen
length-all_header h least = omega (
  arith,
  length-header_bytes h,
  length-append (header_bytes h) (padding h),
  length-replicate {A = ℕ} (h.hlen * 4 - ipv4_length) 0,
)

-- What the header's own checksum says.
abbrev pub verdict : ℕ → ParseResult
verdict v = if not (v == 0) then bad_checksum else no_error

take-append_length : (n : ℕ) (xs ys : List ℕ) → length xs ≡ n → take n (xs ++ ys) ≡ xs
take-append_length n [] ys e = ap (λ k. take k ys) (sym e)
take-append_length zero (x ∷ xs) ys e = absurd (omega (arith, e))
take-append_length (suc n) (x ∷ xs) ys e =
    ap (◌∷◌ x) (take-append_length n xs ys (omega (arith, e)))

-- The tests and the checksum, over a buffer that is as long as the header says.
check_fields-Reads :
    (h : Ipv4Header) (original : Buffer) (rest : List ℕ) (v : ℕ)
    → IsValid h
    → str original ≡ all_header h ++ rest
    → length (str original) ≡ h.len
    → Checksum.value (Checksum.add (Checksum.init 0) (all_header h)) ≡ some v
    → Reads {A = ParseResult × Ipv4Header} (check_fields original h) (padding h) (verdict v, h)
unfolding check_fields verify check_value buffer_size
check_fields-Reads h original rest v valid text size sum =
    let all = length-all_header h valid.hlen_least in
    let long : ltb (length (str original)) (4 * h.hlen) ≡ false =
      long_enough (4 * h.hlen) original (all_header h) rest text (omega (arith, all)) in
    let four = eq→== h.ver 4 valid.ver_is in
    let least : ltb h.hlen 5 ≡ false = ground (arith, valid.hlen_least) in
    let exact = eq→== (length (str original)) h.len size in
    let cut =
      ap (take (4 * h.hlen)) text ∙ take-append_length (4 * h.hlen) (all_header h) rest all in
    let skip =
      subst (λ n. Reads (remove_prefix n) (padding h) tt)
        (length-replicate (h.hlen * 4 - ipv4_length) 0) (Reads-remove_prefix (padding h)) in
    let judged : Reads {A = ParseResult × Ipv4Header} (verify original h no_error) []
        (verdict v, h) =
      record { run = λ p rest' e s. (p, rw (cut, sum) refl, e, s) } in
    rw (long, four, least, exact)
      (subst
        (λ xs.
          Reads {A = ParseResult × Ipv4Header}
            (remove_prefix (h.hlen * 4 - ipv4_length) >>= (λ _. get_error >>= verify original h)) xs
            (verdict v, h))
        (append-nil (padding h)) (Reads-bind _ [] skip (Reads-bind _ [] Reads-get_error judged)))

-- The header of a buffer that is as long as it says is read, and its result is what its checksum says.
pub parse_header_lem :
    (h before : Ipv4Header) (b : Buffer) (rest : List ℕ) (v : ℕ)
    → IsValid h
    → str b ≡ all_header h ++ rest
    → length (str b) ≡ h.len
    → Checksum.value (Checksum.add (Checksum.init 0) (all_header h)) ≡ some v
    → (p : NetParser) × (parse_header before (parser b) ≡ some ((verdict v, h), p))
      × (p.error ≡ no_error)
      × (str p.buffer ≡ rest)
unfolding parse_header
parse_header_lem h before b rest v valid text size sum =
    let all = length-all_header h valid.hlen_least in
    let enough = long_enough 20 b (all_header h) rest text (omega (arith, all, valid.hlen_least)) in
    let both =
      Reads-bind (check_fields b) (padding h) (read_fields-Reads h (IsValid-FieldsFit h valid))
        (check_fields-Reads h b rest v valid text size sum) in
    let (p, e, fine, left) = both.run (parser b) rest refl text in
    (p, rw (enough, e) refl, fine, left)

-- The pseudo header is small, and does not take the checksum in.
pub pseudo_cksum_lt :
    (h : Ipv4Header) → h.src < u32_mod → h.dst < u32_mod → h.proto < 256 → pseudo_cksum h < 400000
unfolding pseudo_cksum payload_length
pseudo_cksum_lt h s d p = omega arith

pub pseudo_cksum_small : (h : Ipv4Header) → pseudo_cksum h < u32_mod
unfolding pseudo_cksum
pseudo_cksum_small h = omega arith

pub pseudo_cksum-cksum :
    (h : Ipv4Header) (c : ℕ) → pseudo_cksum (record h { cksum = c }) ≡ pseudo_cksum h
unfolding pseudo_cksum payload_length
pseudo_cksum-cksum h c = refl

-- A header of another version is told, and what follows the fields is left.
pub parse_header_version :
    (h before : Ipv4Header) (b : Buffer) (rest : List ℕ)
    → FieldsFit h
    → h.ver ≢ 4
    → h.hlen ≡ 5
    → str b ≡ header_bytes h ++ rest
    → (p : NetParser) × (parse_header before (parser b) ≡ some ((wrong_ip_version, h), p))
      × (p.error ≡ no_error)
      × (str p.buffer ≡ rest)
unfolding parse_header check_fields
parse_header_version h before b rest v other five text =
    let n = length-header_bytes h in
    let enough = long_enough 20 b (header_bytes h) rest text (omega (arith, n)) in
    let long = long_enough (4 * h.hlen) b (header_bytes h) rest text (omega (arith, n, five)) in
    let version = ne→== h.ver 4 other in
    let told : Reads {A = ParseResult × Ipv4Header} (check_fields b h) [] (wrong_ip_version, h) =
      rw (long, version) (Reads-pure (wrong_ip_version, h)) in
    let both = Reads-bind (check_fields b) [] (read_fields-Reads h v) told in
    let (p, e, fine, left) =
      both.run (parser b) rest refl
        (text ∙ ap (λ xs. xs ++ rest) (sym (append-nil (header_bytes h)))) in
    (p, rw (enough, e) refl, fine, left)

-- ===== src/Segment/Wire/Header.antt =====
-- The bytes of a TCP header are read back.
use tcp.Prelude.{
  ℕ, ◌+◌, ◌-◌, ◌*◌, ◌/◌, ◌%◌, ◌^◌, ◌≤◌, ◌<◌, ◌≡◌, refl, sym, ap, ap₂, ◌∙◌, subst, Bool, true, false,
  List, [], ◌++◌, append_assoc, append-nil, some, arith, ltb, ◌==◌, length, take_all, replicate,
  length-replicate, u16_mod, u32_mod, bit,
}
use tcp.Checksum.Sum.{words, AllBytes}
use tcp.Parser.{
  ParseResult, no_error, header_too_short, pure, ◌>>=◌, get_error, remove_prefix, unparse_int,
}
use tcp.Parser.Reads.{
  Reads, Reads-pure, Reads-bind, Reads-u8, Reads-u16, Reads-u32, Reads-get_error,
  Reads-remove_prefix,
}
use tcp.Segment.{TcpHeader, flag, header_length}
use tcp.Segment.Flag.{one_flag, flag_le}
use tcp.Segment.Wire.{finish_header, parse_header, flag_byte, header_bytes, serialize_header}

-- The fields fit their types, and the data offset its four bits.
pub record IsValid (h : TcpHeader) : Type 0 where
  pub sport_fits : h.sport < u16_mod
  pub dport_fits : h.dport < u16_mod
  pub seqno_fits : h.seqno < u32_mod
  pub ackno_fits : h.ackno < u32_mod
  pub doff_fits : h.doff < 16
  pub win_fits : h.win < u16_mod
  pub cksum_fits : h.cksum < u16_mod
  pub uptr_fits : h.uptr < u16_mod

-- Each flag is its bit of the byte.
flag_bits :
    (u a p r s f : Bool)
    → let b = flag u * 32 + flag a * 16 + flag p * 8 + flag r * 4 + flag s * 2 + flag f in
      (bit b 5 ≡ u) × (bit b 4 ≡ a) × (bit b 3 ≡ p) × (bit b 2 ≡ r) × (bit b 1 ≡ s) × (bit b 0 ≡ f)
flag_bits u a p r s f =
    let hu = flag_le u in
    let ha = flag_le a in
    let hp = flag_le p in
    let hr = flag_le r in
    let hs = flag_le s in
    let hf = flag_le f in
    (
      ap (λ k. k == 1) (omega arith) ∙ one_flag u,
      ap (λ k. k == 1) (omega arith) ∙ one_flag a,
      ap (λ k. k == 1) (omega arith) ∙ one_flag p,
      ap (λ k. k == 1) (omega arith) ∙ one_flag r,
      ap (λ k. k == 1) (omega arith) ∙ one_flag s,
      ap (λ k. k == 1) (omega arith) ∙ one_flag f,
    )

abbrev pub padding : TcpHeader → List ℕ
padding h = replicate (h.doff * 4 - header_length) 0

finish_header-Reads :
    (h : TcpHeader) → 5 ≤ h.doff → Reads (finish_header h) (padding h) (no_error, h)
unfolding finish_header
finish_header-Reads h least =
    let long : ltb h.doff 5 ≡ false = ground arith in
    let zeros = Reads-remove_prefix (padding h) in
    let skip =
      subst (λ n. Reads (remove_prefix n) (padding h) tt)
        (length-replicate (h.doff * 4 - header_length) 0) zeros in
    rw long (
      subst
        (λ xs.
          Reads {A = ParseResult × TcpHeader}
            (remove_prefix (h.doff * 4 - header_length) >>= (λ _. get_error >>= (λ e. pure (e, h))))
            xs (no_error, h))
        (append-nil (padding h))
        (Reads-bind _ [] skip (Reads-bind _ [] Reads-get_error (Reads-pure (no_error, h)))))

-- The header that the fields make is the one that they are of.
same_header :
    (h : TcpHeader)
    → IsValid h
    → Path TcpHeader
        (record {
          sport = h.sport;
          dport = h.dport;
          seqno = h.seqno;
          ackno = h.ackno;
          doff = h.doff * 2 ^ 4 % 2 ^ 8 / 2 ^ 4;
          urg = bit (flag_byte h) 5;
          ack = bit (flag_byte h) 4;
          psh = bit (flag_byte h) 3;
          rst = bit (flag_byte h) 2;
          syn = bit (flag_byte h) 1;
          fin = bit (flag_byte h) 0;
          win = h.win;
          cksum = h.cksum;
          uptr = h.uptr;
        })
        h
same_header h v =
    let (u, a, p, r, s, f) = flag_bits h.urg h.ack h.psh h.rst h.syn h.fin in
    let d : h.doff * 2 ^ 4 % 2 ^ 8 / 2 ^ 4 ≡ h.doff = omega (arith, v.doff_fits) in
    λ i. record {
      sport = h.sport;
      dport = h.dport;
      seqno = h.seqno;
      ackno = h.ackno;
      doff = d i;
      urg = u i;
      ack = a i;
      psh = p i;
      rst = r i;
      syn = s i;
      fin = f i;
      win = h.win;
      cksum = h.cksum;
      uptr = h.uptr;
    }

flag_byte_lt : (h : TcpHeader) → flag_byte h < 256
flag_byte_lt h = omega (
  arith,
  flag_le h.urg,
  flag_le h.ack,
  flag_le h.psh,
  flag_le h.rst,
  flag_le h.syn,
  flag_le h.fin,
)

-- The bytes of the fields, with what follows them.
abbrev fields_then : TcpHeader → List ℕ → List ℕ
fields_then h tail =
    unparse_int 2 h.sport
    ++ (unparse_int 2 h.dport
        ++ (unparse_int 4 h.seqno
            ++ (unparse_int 4 h.ackno
                ++ (unparse_int 1 (h.doff * 2 ^ 4 % 2 ^ 8)
                    ++ (unparse_int 1 (flag_byte h)
                        ++ (unparse_int 2 h.win
                            ++ (unparse_int 2 h.cksum ++ (unparse_int 2 h.uptr ++ tail))))))))

fields_then-append : (h : TcpHeader) (tail : List ℕ) → fields_then h tail ≡ header_bytes h ++ tail
unfolding header_bytes
fields_then-append h tail = simp append_assoc

-- The fields are read, whatever `finish_header` makes of them.
fields_then-Reads :
    (h : TcpHeader) (tail : List ℕ) (r : ParseResult)
    → IsValid h
    → Reads {A = ParseResult × TcpHeader} (finish_header h) tail (r, h)
    → Reads {A = ParseResult × TcpHeader} parse_header (fields_then h tail) (r, h)
unfolding parse_header
fields_then-Reads h tail r v finish =
    let doff_byte : h.doff * 2 ^ 4 % 2 ^ 8 < 256 = omega arith in
    let last =
      subst (λ k. Reads {A = ParseResult × TcpHeader} (finish_header k) tail (r, h))
        (sym (same_header h v)) finish in
    Reads-bind _ _ (Reads-u16 h.sport v.sport_fits) (
      Reads-bind _ _ (Reads-u16 h.dport v.dport_fits) (
        Reads-bind _ _ (Reads-u32 h.seqno v.seqno_fits) (
          Reads-bind _ _ (Reads-u32 h.ackno v.ackno_fits) (
            Reads-bind _ _ (Reads-u8 (h.doff * 2 ^ 4 % 2 ^ 8) doff_byte) (
              Reads-bind _ _ (Reads-u8 (flag_byte h) (flag_byte_lt h)) (
                Reads-bind _ _ (Reads-u16 h.win v.win_fits) (
                  Reads-bind _ _ (Reads-u16 h.cksum v.cksum_fits)
                    (Reads-bind _ tail (Reads-u16 h.uptr v.uptr_fits) last))))))))

parse_header-Reads_then :
    (h : TcpHeader) (tail : List ℕ) (r : ParseResult)
    → IsValid h
    → Reads {A = ParseResult × TcpHeader} (finish_header h) tail (r, h)
    → Reads {A = ParseResult × TcpHeader} parse_header (header_bytes h ++ tail) (r, h)
parse_header-Reads_then h tail r v finish =
    subst (λ xs. Reads {A = ParseResult × TcpHeader} parse_header xs (r, h))
      (fields_then-append h tail) (fields_then-Reads h tail r v finish)

pub parse_header-Reads :
    (h : TcpHeader)
    → IsValid h
    → 5 ≤ h.doff
    → Reads {A = ParseResult × TcpHeader} parse_header (header_bytes h ++ padding h) (no_error, h)
parse_header-Reads h v least =
    parse_header-Reads_then h (padding h) no_error v (finish_header-Reads h least)

-- A data offset below 5 is told, and what follows the fields is left.
pub parse_header-Reads_short :
    (h : TcpHeader)
    → IsValid h
    → h.doff < 5
    → Reads {A = ParseResult × TcpHeader} parse_header (header_bytes h ++ []) (header_too_short, h)
unfolding finish_header
parse_header-Reads_short h v short =
    let e : ltb h.doff 5 ≡ true = ground arith in
    parse_header-Reads_then h [] header_too_short v (rw e (Reads-pure (header_too_short, h)))

pub length-header_bytes : (h : TcpHeader) → length (header_bytes h) ≡ 20
unfolding header_bytes unparse_int
length-header_bytes h = refl

pub serialize_header_lem :
    (h : TcpHeader) → 5 ≤ h.doff → serialize_header h ≡ some (header_bytes h ++ padding h)
unfolding serialize_header
serialize_header_lem h least =
    let long : ltb h.doff 5 ≡ false = ground arith in
    let n = length-header_bytes h in
    rw long (
      ap some (
        ap₂ ◌++◌ (take_all (4 * h.doff) (header_bytes h) (omega (arith, n)))
          (ap (λ k. replicate k 0) (omega (arith, n)))))

-- The checksum adds itself to the words of the header.
pub header_words :
    (h : TcpHeader) (c : ℕ) (tail : List ℕ)
    → c < u16_mod
    → words false (header_bytes (record h { cksum = c }) ++ tail)
      ≡ words false (header_bytes (record h { cksum = 0 }) ++ tail) + c
unfolding header_bytes unparse_int
header_words h c tail small = omega arith

pub header_bytes-AllBytes : (h : TcpHeader) → AllBytes (header_bytes h)
unfolding header_bytes unparse_int
header_bytes-AllBytes h = omega arith

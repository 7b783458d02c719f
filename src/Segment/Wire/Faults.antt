-- ===== src/Segment/Wire/Faults.antt =====
-- What `TCPSegment::parse` answers to bytes that are no segment.
use tcp.Prelude.{
  ℕ, ◌*◌, ◌-◌, append-nil, ◌<◌, ◌≡◌, refl, sym, ap, ◌∙◌, not, List, ◌++◌, some, u32_mod, ◌==◌,
  Bool-cases, inl, inr, ltb,
}
use tcp.Buffer.{Buffer, str}
use tcp.Checksum
use tcp.Checksum.Sum.{add-lt}
use tcp.Checksum.Fold.{value_lem, ones_sum}
use tcp.Parser.{ParseResult, no_error, bad_checksum, header_too_short, parser}
use tcp.Parser.Total.{
  Total, Total-pure, Total-bind, Total-u8, Total-u16, Total-u32, Total-get_error,
  Total-remove_prefix,
}
use tcp.Segment.{TcpHeader, TcpSegment, header_length}
use tcp.Segment.Wire.{finish_header, parse_header, header_bytes, parse, check_segment, fill_segment}
use tcp.Segment.Wire.Header.{IsValid, parse_header-Reads_short}

finish_header-Total : (h : TcpHeader) → Total {A = ParseResult × TcpHeader} (finish_header h)
unfolding finish_header
finish_header-Total h = elim (Bool-cases (ltb h.doff 5)) [
  | inl e ↦ rw e (Total-pure (header_too_short, h))
  | inr e ↦ rw e (
      Total-bind _ (Total-remove_prefix (h.doff * 4 - header_length))
        (λ _. Total-bind _ Total-get_error (λ r. Total-pure (r, h))))
]

pub parse_header-Total : Total {A = ParseResult × TcpHeader} parse_header
unfolding parse_header
parse_header-Total = Total-bind _ Total-u16 (λ sport. Total-bind _ Total-u16 (λ dport.
    Total-bind _ Total-u32 (λ seqno. Total-bind _ Total-u32 (λ ackno. Total-bind _ Total-u8 (λ off.
      Total-bind _ Total-u8 (λ fl_b. Total-bind _ Total-u16 (λ win.
        Total-bind _ Total-u16
          (λ cksum. Total-bind _ Total-u16 (λ uptr. finish_header-Total _)))))))))

-- Parsing a segment throws nothing, whatever the bytes and their number.
pub parse-total :
    (seg : TcpSegment) (b : Buffer) (pseudo : ℕ)
    → pseudo < u32_mod
    → (r : ParseResult) × (seg' : TcpSegment) × (parse seg b pseudo ≡ some (r, seg'))
unfolding parse check_segment fill_segment Checksum.init
parse-total seg b pseudo small =
    let sum = Checksum.add (Checksum.init pseudo) (str b) in
    let e = value_lem sum (add-lt (str b) (Checksum.init pseudo) small) in
    let v = 0xffff - ones_sum sum.sum in
    elim (Bool-cases (not (v == 0))) [
      | inl f ↦ (bad_checksum, seg, ap (check_segment seg b) e ∙ rw f refl)
      | inr f ↦
          let ((r, h), p, q) = parse_header-Total.run (parser b) in
          (
            p.error,
            record { header = h; payload = p.buffer },
            ap (check_segment seg b) e ∙ rw (f, q) refl,
          )
    ]

-- The fault: a segment whose checksum is right is accepted although its data offset is below 5. The
-- header's result, which tells of it, is dropped, and what follows the fields is the payload.
pub short_header_accepted :
    (seg : TcpSegment) (b : Buffer) (pseudo : ℕ) (h : TcpHeader) (rest : List ℕ)
    → IsValid h
    → h.doff < 5
    → str b ≡ header_bytes h ++ rest
    → Checksum.value (Checksum.add (Checksum.init pseudo) (str b)) ≡ some 0
    → (payload : Buffer) × (parse seg b pseudo
        ≡ some (no_error, record { header = h; payload = payload }))
      × (str payload ≡ rest)
unfolding parse check_segment fill_segment
short_header_accepted seg b pseudo h rest v short same good =
    let (p, e, fine, left) =
      (parse_header-Reads_short h v short).run (parser b) rest refl
        (same ∙ ap (λ xs. xs ++ rest) (sym (append-nil (header_bytes h)))) in
    (p.buffer, rw (good, e, fine) refl, left)

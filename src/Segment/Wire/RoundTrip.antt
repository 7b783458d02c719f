-- ===== src/Segment/Wire/RoundTrip.antt =====
-- A TCP segment survives its bytes.
use tcp.Prelude.{
  ℕ, ◌+◌, ◌-◌, ◌*◌, ◌≤◌, ◌<◌, ◌≡◌, refl, sym, ap, ap₂, ◌∙◌, false, List, [], ◌∷◌, ◌++◌,
  append_assoc, append-nil, some, arith, length, replicate, length-replicate, u16_mod, u32_mod,
  length-append,
}
use tcp.Buffer.{Buffer, BufferList, str, list_of_string, append, concatenate}
use tcp.Checksum
use tcp.Checksum.Fold.{ones_sum, value_lem}
use tcp.Checksum.Sum.{
  add-lt, words, words-le, AllBytes, AllBytes-append, AllBytes-zeros, add-append, value-add,
  value-add_zero,
}
use tcp.Buffer.Laws.{concatenate-append, concatenate-list_of_string}
use tcp.Parser.{no_error, parser}
use tcp.Segment.{TcpHeader, TcpSegment, header_length}
use tcp.Segment.Wire.Header.{
  IsValid, padding, parse_header-Reads, length-header_bytes, serialize_header_lem, header_words,
  header_bytes-AllBytes,
}
use tcp.Segment.Wire.{
  check_segment, fill_segment, over_zero, with_checksum, with_payload, header_bytes, parse,
  serialize,
}

-- The bytes of a segment with the checksum `c`.
abbrev pub bytes_with : TcpSegment → ℕ → List ℕ
bytes_with seg c =
    header_bytes (record seg.header { cksum = c }) ++ (padding seg.header ++ str seg.payload)

pub length-bytes_with :
    (seg : TcpSegment) (c : ℕ)
    → 5 ≤ seg.header.doff
    → length (bytes_with seg c) ≡ seg.header.doff * 4 + length (str seg.payload)
length-bytes_with seg c least =
    let h = record seg.header { cksum = c } in
    let l1 = length-append (header_bytes h) (padding seg.header ++ str seg.payload) in
    let l2 = length-append (padding seg.header) (str seg.payload) in
    omega (
      arith,
      l1,
      l2,
      length-header_bytes h,
      length-replicate {A = ℕ} (seg.header.doff * 4 - header_length) 0,
    )

-- A header that has room for its fields is always serialised, and the length is that of the two parts.
pub length-serialize :
    (seg : TcpSegment) (pseudo : ℕ)
    → 5 ≤ seg.header.doff
    → pseudo < u32_mod
    → (bl : BufferList) × (serialize seg pseudo ≡ some bl)
      × (length (concatenate bl) ≡ 4 * seg.header.doff + length (str seg.payload))
unfolding serialize over_zero with_checksum with_payload Checksum.init concatenate
length-serialize seg pseudo least small =
    let h0 = record seg.header { cksum = 0 } in
    let bytes = header_bytes h0 ++ padding h0 in
    let sum = Checksum.add (Checksum.add (Checksum.init pseudo) bytes) (str seg.payload) in
    let in_range = add-lt (str seg.payload) _ (add-lt bytes (Checksum.init pseudo) small) in
    let h1 = record seg.header { cksum = 0xffff - ones_sum sum.sum } in
    let text = header_bytes h1 ++ padding h1 in
    let shown = ap length (
      concatenate-append (list_of_string text) (seg.payload ∷ [])
      ∙ ap₂ ◌++◌ (concatenate-list_of_string text) (append-nil (str seg.payload))) in
    (
      append (list_of_string text) (seg.payload ∷ []),
      ap (over_zero seg pseudo) (serialize_header_lem h0 least)
          ∙ ap (with_checksum seg) (value_lem sum in_range)
          ∙ ap (with_payload seg.payload) (serialize_header_lem h1 least),
      omega (
        arith,
        shown,
        length-append text (str seg.payload),
        length-append (header_bytes h1) (padding h1),
        length-header_bytes h1,
        length-replicate {A = ℕ} (seg.header.doff * 4 - header_length) 0,
      ),
    )

-- The sum over a segment with a checksum of 0.
abbrev pub base_sum : TcpSegment → ℕ → ℕ
base_sum seg pseudo = pseudo + words false (bytes_with seg 0)

-- The checksum that `serialize` puts in.
abbrev pub checksum : TcpSegment → ℕ → ℕ
checksum seg pseudo = 0xffff - ones_sum (base_sum seg pseudo)

pub base_sum_small :
    (seg : TcpSegment) (pseudo : ℕ)
    → seg.header.doff < 16
    → AllBytes (str seg.payload)
    → pseudo + (60 + length (str seg.payload)) * 0xff00 + 0xffff < u32_mod
    → base_sum seg pseudo + 0xffff < u32_mod
base_sum_small seg pseudo d all room =
    let h0 = record seg.header { cksum = 0 } in
    let zeros = seg.header.doff * 4 - header_length in
    let le = words-le false (bytes_with seg 0) (
      AllBytes-append (header_bytes h0) _ (header_bytes-AllBytes h0)
        (AllBytes-append (replicate zeros 0) (str seg.payload) (AllBytes-zeros zeros) all)) in
    let l1 = length-append (header_bytes h0) (replicate zeros 0 ++ str seg.payload) in
    let l2 = length-append (replicate zeros 0) (str seg.payload) in
    omega (arith, le, l1, l2, length-header_bytes h0, length-replicate {A = ℕ} zeros 0)

-- What `serialize` gives.
pub serialize_lem :
    (seg : TcpSegment) (pseudo : ℕ)
    → 5 ≤ seg.header.doff
    → base_sum seg pseudo + 0xffff < u32_mod
    → (bl : BufferList) × (serialize seg pseudo ≡ some bl)
      × (concatenate bl ≡ bytes_with seg (checksum seg pseudo))
unfolding serialize over_zero with_checksum with_payload concatenate
serialize_lem seg pseudo least room =
    let h0 = record seg.header { cksum = 0 } in
    let ck = checksum seg pseudo in
    let h1 = record seg.header { cksum = ck } in
    let zero_lem = serialize_header_lem h0 least in
    let one_lem = serialize_header_lem h1 least in
    let sum =
      ap Checksum.value (
        sym (
          add-append (header_bytes h0 ++ padding seg.header) (str seg.payload)
            (Checksum.init pseudo)))
      ∙ ap (λ xs. Checksum.value (Checksum.add (Checksum.init pseudo) xs))
          (append_assoc (header_bytes h0) (padding seg.header) (str seg.payload))
      ∙ value-add pseudo (bytes_with seg 0) (omega (arith, room)) in
    let text = header_bytes h1 ++ padding seg.header in
    (
      append (list_of_string text) (seg.payload ∷ []),
      ap (over_zero seg pseudo) zero_lem
          ∙ ap (with_checksum seg) sum
          ∙ ap (with_payload seg.payload) one_lem,
      concatenate-append (list_of_string text) (seg.payload ∷ [])
          ∙ ap₂ ◌++◌ (concatenate-list_of_string text) (append-nil (str seg.payload))
          ∙ append_assoc (header_bytes h1) (padding seg.header) (str seg.payload),
    )

-- The checksum of these bytes is right.
checks :
    (seg : TcpSegment) (pseudo : ℕ)
    → base_sum seg pseudo + 0xffff < u32_mod
    → Checksum.value (Checksum.add (Checksum.init pseudo) (bytes_with seg (checksum seg pseudo)))
      ≡ some 0
checks seg pseudo small =
    let put =
      header_words seg.header (checksum seg pseudo) (padding seg.header ++ str seg.payload)
        (omega arith) in
    value-add_zero pseudo (base_sum seg pseudo) _ (omega (arith, put)) small

checked-IsValid :
    (h : TcpHeader) (c : ℕ) → c < u16_mod → IsValid h → IsValid (record h { cksum = c })
checked-IsValid h c small v = omega (arith, v)

pub parsed :
    (seg before : TcpSegment) (pseudo : ℕ) (b : Buffer)
    → IsValid seg.header
    → 5 ≤ seg.header.doff
    → base_sum seg pseudo + 0xffff < u32_mod
    → str b ≡ bytes_with seg (checksum seg pseudo)
    → (rest : Buffer) × (parse before b pseudo
        ≡ some (
          no_error,
          record { header = record seg.header { cksum = checksum seg pseudo }; payload = rest },
        ))
      × (str rest ≡ str seg.payload)
unfolding parse check_segment fill_segment
parsed seg before pseudo b v least small same =
    let h = record seg.header { cksum = checksum seg pseudo } in
    let good =
      ap (λ xs. Checksum.value (Checksum.add (Checksum.init pseudo) xs)) same
      ∙ checks seg pseudo small in
    let read =
      parse_header-Reads h (checked-IsValid seg.header (checksum seg pseudo) (omega arith) v)
        least in
    let (p, e, fine, left) =
      read.run (parser b) (str seg.payload) refl
        (same ∙ sym (append_assoc (header_bytes h) (padding seg.header) (str seg.payload))) in
    (p.buffer, rw (good, e, fine) refl, left)

-- A segment whose header fields fit their types, with a data offset of at least 5 and in its four bits, and whose
-- payload is short enough for the 32-bit sum not to overflow, has bytes, and parsing these bytes in
-- one buffer gives the segment back, with the checksum that was put in.
pub parse-serialize :
    (seg before : TcpSegment) (pseudo : ℕ) (b : Buffer)
    → IsValid seg.header
    → 5 ≤ seg.header.doff
    → AllBytes (str seg.payload)
    → pseudo + (60 + length (str seg.payload)) * 0xff00 + 0xffff < u32_mod
    → (bl : BufferList) × (serialize seg pseudo ≡ some bl)
      × (str b ≡ concatenate bl
          → (rest : Buffer) × (parse before b pseudo
              ≡ some (
                no_error,
                record {
                  header = record seg.header { cksum = checksum seg pseudo };
                  payload = rest;
                },
              ))
            × (str rest ≡ str seg.payload))
parse-serialize seg before pseudo b v least all room =
    let small = base_sum_small seg pseudo v.doff_fits all room in
    let (bl, e, c) = serialize_lem seg pseudo least small in
    (bl, e, λ same. parsed seg before pseudo b v least small (same ∙ c))

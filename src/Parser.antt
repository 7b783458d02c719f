-- ===== src/Parser.antt =====
-- libsponge/util/parser.hh and parser.cc: reading and writing integers in network byte order. A
-- parser is a state monad over the buffer that is left and the first error; `none` is an exception.
pub mod Reads
pub mod Total
use tcp.Prelude.{
  ℕ, zero, suc, ◌+◌, ◌*◌, ◌/◌, ◌%◌, ◌^◌, Bool, true, false, List, [], ◌∷◌, ◌++◌, Option, none, some,
  ltb, if◌then◌else◌,
}
use tcp.Buffer.{Buffer, at, buffer_size, buffer_remove_prefix}

pub data ParseResult : Type 0 where
  no_error : ParseResult
  bad_checksum : ParseResult
  packet_too_short : ParseResult
  wrong_ip_version : ParseResult
  header_too_short : ParseResult
  truncated_packet : ParseResult
  unsupported : ParseResult

pub record NetParser : Type 0 where
  pub buffer : Buffer
  pub error : ParseResult

-- `NetParser(Buffer buffer)`
abbrev pub parser : Buffer → NetParser
parser b = record { buffer = b; error = no_error }

-- Whether there has been an error.
abbrev pub failed : ParseResult → Bool
failed no_error = false
failed bad_checksum = true
failed packet_too_short = true
failed wrong_ip_version = true
failed header_too_short = true
failed truncated_packet = true
failed unsupported = true

-- A member of NetParser, or a function that is given one by reference.
abbrev pub Parse : Type 0 → Type 0
Parse A = NetParser → Option (A × NetParser)

abbrev pub pure : {A : Type 0} → A → Parse A
pure a p = some (a, p)

infixl 5 ◌>>=◌ ◌>>◌
unfoldable pub ◌>>=◌ : {A B : Type 0} → Parse A → (A → Parse B) → Parse B
◌>>=◌ m f p = elim (m p) [ none ↦ none | some (a, p') ↦ f a p' ]

abbrev pub ◌>>◌ : {B : Type 0} → Parse (Unit {0}) → Parse B → Parse B
m >> k = m >>= λ _. k

unfoldable pub get_error : Parse ParseResult
get_error p = some (p.error, p)

unfoldable pub check_size : ℕ → NetParser → NetParser
check_size n p = if ltb (buffer_size p.buffer) n then record p { error = packet_too_short } else p

-- The loop of `_parse_int` for a type of modulus `m`: the rounds that are left, the next index, and
-- the number so far.
pub sum_bytes : ℕ → Buffer → ℕ → ℕ → ℕ → Option ℕ
sum_bytes m b zero i ret = some ret
sum_bytes m b (suc k) i ret = elim (at b i) [
  | none ↦ none
  | some c ↦ sum_bytes m b k (i + 1) ((ret * 256 % m + c) % m)
]

-- What follows the loop, with the number that it gave.
pub advance : {A : Type 0} → A → NetParser → Option Buffer → Option (A × NetParser)
advance a p none = none
advance a p (some b) = some (a, record p { buffer = b })

pub take_int : ℕ → NetParser → Option ℕ → Option (ℕ × NetParser)
unfolding advance
take_int len p none = none
take_int len p (some ret) = advance ret p (buffer_remove_prefix p.buffer len)

-- `_parse_int<T>` for a type of `len` bytes.
pub parse_int : ℕ → Parse ℕ
unfolding take_int check_size
parse_int len p =
    let p' = check_size len p in
    if failed p'.error
    then some (0, p')
    else take_int len p' (sum_bytes (2 ^ (len * 8)) p'.buffer len 0 0)

unfoldable pub u32 : Parse ℕ
u32 = parse_int 4

unfoldable pub u16 : Parse ℕ
u16 = parse_int 2

unfoldable pub u8 : Parse ℕ
u8 = parse_int 1

pub remove_prefix : ℕ → Parse (Unit {0})
unfolding check_size advance
remove_prefix n p =
    let p' = check_size n p in
    if failed p'.error then some (tt, p') else advance tt p' (buffer_remove_prefix p'.buffer n)

-- What `_unparse_int` appends for a value of `len` bytes.
unfoldable pub unparse_int : ℕ → ℕ → List ℕ
unparse_int zero val = []
unparse_int (suc k) val = (val / 2 ^ (k * 8) % 256) ∷ unparse_int k val

-- ===== src/Wrapping.antt =====
-- libsponge/wrapping_integers.cc and .hh: 32-bit sequence numbers and the 64-bit indices that
-- they stand for. A WrappingInt32 is its raw value, a number below 2 ^ 32.
pub mod RoundTrip
pub mod Closest
mod Tests
use tcp.Prelude.{ℕ, ◌+◌, ◌-◌, ◌*◌, ◌/◌, ◌%◌, leb, ltb, if◌then◌else◌, u32_mod, add32, sub32, add64}

abbrev pub WrappingInt32 : Type 0
WrappingInt32 = ℕ

-- `operator+(WrappingInt32, uint32_t)`
unfoldable pub plus : WrappingInt32 → ℕ → WrappingInt32
plus a b = add32 a b

unfoldable pub wrap : ℕ → WrappingInt32 → WrappingInt32
unfolding plus
wrap n isn = plus isn (n % u32_mod)

-- The last part of `unwrap`, for `t < checkpoint` after the whole periods are added.
round_up : ℕ → ℕ → ℕ
round_up t checkpoint = if ltb 0x8000_0000 (checkpoint - t) then add64 t u32_mod else t

unfoldable pub unwrap : WrappingInt32 → WrappingInt32 → ℕ → ℕ
unfolding round_up
unwrap n isn checkpoint =
    let t = sub32 n isn in
    if leb checkpoint t then t else round_up (t + (checkpoint - t) / u32_mod * u32_mod) checkpoint

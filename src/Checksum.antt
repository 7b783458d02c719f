-- ===== src/Checksum.antt =====
-- libsponge/util/util.cc: the Internet checksum.
pub mod Fold
pub mod Sum
mod Tests
use tcp.Prelude.{
  ℕ, zero, suc, ◌+◌, ◌-◌, ◌*◌, ◌/◌, ◌%◌, Bool, true, false, not, List, [], ◌∷◌, Option, none, some,
  ltb, if◌then◌else◌, add32, u16_mod, ◌^◌,
}

pub record InternetChecksum : Type 0 where
  pub sum : ℕ
  pub parity : Bool

unfoldable pub init : ℕ → InternetChecksum
init initial_sum = record { sum = initial_sum; parity = false }

-- `add` of a string of bytes: a byte at an even place is the high one of its word.
unfoldable pub add : InternetChecksum → List ℕ → InternetChecksum
add c [] = c
add c (b ∷ bs) =
    add
      (record c {
        sum = add32 c.sum (if c.parity then b else b * 256 % u16_mod);
        parity = not c.parity;
      })
      bs

-- The loop of `value`, which adds the carries; `Fold` shows that a fuel of 2 is enough.
pub fold : ℕ → ℕ → Option ℕ
fold zero ret = if ltb 0xffff ret then none else some ret
fold (suc fuel) ret =
    let rest = fold fuel (add32 (ret / 2 ^ 16) (ret % 2 ^ 16)) in
    if ltb 0xffff ret then rest else some ret

-- `~ret`, in 16 bits.
complement : Option ℕ → Option ℕ
complement none = none
complement (some ret) = some (0xffff - ret % u16_mod)

pub value : InternetChecksum → Option ℕ
unfolding complement
value c = complement (fold 2 c.sum)

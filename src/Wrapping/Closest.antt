-- ===== src/Wrapping/Closest.antt =====
-- `unwrap` returns the index that is closest to the checkpoint.
use tcp.Prelude.{ℕ, ◌+◌, ◌-◌, ◌<◌, ◌≤◌, ◌≡◌, arith, u32_mod, u64_mod}
use tcp.Wrapping.{wrap, unwrap}

-- The distance between two indices.
abbrev pub distance : ℕ → ℕ → ℕ
distance a b = (a - b) + (b - a)

-- No index that wraps to the same number is closer to the checkpoint, if the checkpoint is not
-- within 2 ^ 31 of the end of the 64-bit range.
pub unwrap_closest :
    (n isn checkpoint m : ℕ)
    → n < u32_mod
    → isn < u32_mod
    → checkpoint + 0x8000_0000 < u64_mod
    → wrap m isn ≡ n
    → distance (unwrap n isn checkpoint) checkpoint ≤ distance m checkpoint
unfolding wrap unwrap
unwrap_closest n isn checkpoint m hn hi hc e = ground arith

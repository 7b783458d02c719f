-- ===== src/Wrapping/RoundTrip.antt =====
-- `wrap` and `unwrap` undo one another.
use tcp.Prelude.{ℕ, ◌+◌, ◌<◌, ◌≡◌, arith, u32_mod, u64_mod}
use tcp.Wrapping.{wrap, unwrap}

-- Whatever the checkpoint is, the index that `unwrap` returns is one that wraps to the given
-- 32-bit number, also where the 64-bit sum in `unwrap` wraps.
pub wrap-unwrap :
    (n isn checkpoint : ℕ)
    → n < u32_mod
    → isn < u32_mod
    → checkpoint < u64_mod
    → wrap (unwrap n isn checkpoint) isn ≡ n
unfolding wrap unwrap
wrap-unwrap n isn checkpoint hn hi hc = ground arith

-- Unwrapping a wrapped index gives the index back if the checkpoint is less than 2 ^ 31 away from
-- it on either side.
pub unwrap-wrap :
    (n isn checkpoint : ℕ)
    → n < u64_mod
    → isn < u32_mod
    → n < checkpoint + 0x8000_0000
    → checkpoint < n + 0x8000_0000
    → unwrap (wrap n isn) isn checkpoint ≡ n
unfolding wrap unwrap
unwrap-wrap n isn checkpoint hn hi h k = ground arith

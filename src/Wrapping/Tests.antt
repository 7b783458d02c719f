-- ===== src/Wrapping/Tests.antt =====
-- Tests and concrete instances for the sequence numbers.
use tcp.Prelude.{◌≡◌, ◌≤◌, refl, arith}
use tcp.Wrapping.{wrap, unwrap}
use tcp.Wrapping.RoundTrip.{unwrap-wrap}
use tcp.Wrapping.Closest.{distance, unwrap_closest}

unwrap_runs : unwrap 0xffff_ffff 10 0x3_0000_0000 ≡ 0x2_ffff_fff5
unfolding unwrap
unwrap_runs = refl

unwrap-wrap_example : unwrap (wrap 0x2_0000_0005 9) 9 0x1_ffff_ffff ≡ 0x2_0000_0005
unwrap-wrap_example =
    unwrap-wrap 0x2_0000_0005 9 0x1_ffff_ffff (omega arith) (omega arith) (omega arith)
      (omega arith)

unwrap_closest_example :
    distance (unwrap (wrap 0x1_0000_0003 9) 9 0x8000_0000) 0x8000_0000
    ≤ distance 0x1_0000_0003 0x8000_0000
unfolding wrap
unwrap_closest_example =
    unwrap_closest (wrap 0x1_0000_0003 9) 9 0x8000_0000 0x1_0000_0003 (omega arith) (omega arith)
      (omega arith) refl

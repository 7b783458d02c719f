-- ===== src/Segment/Flag.antt =====
-- A flag as the bit of a number.
use tcp.Prelude.{◌≤◌, ◌≡◌, refl, Bool, true, false, ◌==◌, arith}
use tcp.Segment.{flag}

pub one_flag : (b : Bool) → (flag b == 1) ≡ b
one_flag true = refl
one_flag false = refl

pub flag_le : (b : Bool) → flag b ≤ 1
flag_le true = omega arith
flag_le false = omega arith

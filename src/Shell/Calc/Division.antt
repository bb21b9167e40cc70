-- ===== src/Shell/Calc/Division.antt =====
-- The division of the calculator of kernel/shell.c, as integers.
use basedos.Prelude.{ℕ, ◌^◌, ◌<◌, ◌≡◌, arith, true, false, Bool, ◌≤◌, if◌then◌else◌}
use basedos.Prelude.Int.{ℤ, sub_ℕ}
use basedos.Fs.Vfs.{signed}
use basedos.Str.Num.{negate}

-- an integer from its sign and its magnitude
abbrev signed_as : Bool → ℕ → ℤ
signed_as negative n = sub_ℕ (if negative then 0 else n) (if negative then n else 0)

signed_small : (w : ℕ) → w < 2 ^ 31 → signed w ≡ signed_as false w
signed_small w h = ground arith

signed-negate : (w : ℕ) → w ≤ 2 ^ 31 → signed (negate w) ≡ signed_as true w
signed-negate w h = ground arith

-- ===== src/Prelude/Below.antt =====
-- A test that is run on every number under a limit.
use Prim.Native.Nat.{ℕ, zero, suc, ◌<◌}
use mathlib.Core.Path.{◌≡◌}
use mathlib.Core.Bool.{Bool, true, false}
use basedos.Prelude.Tests.{if◌then◌else◌}
use native.Mathlib.Omega.{arith}

unfoldable pub passes_below : (ℕ → Bool) → ℕ → Bool
passes_below test zero = true
passes_below test (suc limit) =
    let smaller = passes_below test limit in if test limit then smaller else false

-- What passes for all of them passes for each.
pub passes_below_lem :
    (test : ℕ → Bool) (limit k : ℕ) → k < limit → passes_below test limit ≡ true → test k ≡ true
unfolding passes_below
passes_below_lem test zero k h passed = absurd (omega arith)
passes_below_lem test (suc limit) k h passed = ground (arith, passes_below_lem test limit k)

-- ===== src/Common/Ints.antt =====
-- Signed numbers, as far as the sources subtract and compare them.
use Prim.Native.Nat.{ℕ, suc, ◌+◌, ◌-◌}
use mathlib.Core.Bool.{Bool, true, false}
use cmds.Common.Tests.{ltb, leb, if◌then◌else◌}

pub data ℤ : Type 0 where
  pos : ℕ → ℤ
  negsuc : ℕ → ℤ

-- z - n
unfoldable pub sub_nat : ℤ → ℕ → ℤ
sub_nat (pos m) n = if leb n m then pos (m - n) else negsuc (n - suc m)
sub_nat (negsuc m) n = negsuc (m + n)

unfoldable pub less : ℤ → ℤ → Bool
less (pos m) (pos n) = ltb m n
less (pos m) (negsuc n) = false
less (negsuc m) (pos n) = true
less (negsuc m) (negsuc n) = ltb n m

-- The int of 32 bits.
unfoldable pub of_word : ℕ → ℤ
of_word w = if ltb w 2147483648 then pos w else negsuc (4294967295 - w)

-- ===== src/Shared/Integers.antt =====
-- Signed integers, and the values of a JavaScript `number` as the program tells them apart.
use Prim.Native.Nat.{ℕ, ◌-◌}
use konvo_pro.Shared.Tests.{leb, if◌then◌else◌}

-- `negsuc n` is -(n + 1).
pub data ℤ : Type 0 where
  pos : ℕ → ℤ
  negsuc : ℕ → ℤ

-- a - b, as an integer.
abbrev pub sub_ℕ : ℕ → ℕ → ℤ
sub_ℕ a b = if leb b a then pos (a - b) else negsuc (b - a - 1)

-- `fraction` stands for every number that `Number.isInteger` refuses.
pub data Number : Type 0 where
  int : ℤ → Number
  fraction : Number

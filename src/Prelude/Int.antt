-- ===== src/Prelude/Int.antt =====
-- Integers over the native numbers, as far as a Redis counter needs them.
use ai_provider_gateway.Prelude.Tests.{leb}
use Prim.Native.Nat.{ℕ, zero, suc, ◌-◌}
use mathlib.Core.Bool.{Bool, true}

-- `negsuc n` is -(n + 1).
pub data ℤ : Type 0 where
  pos : ℕ → ℤ
  negsuc : ℕ → ℤ

abbrev pub incr : ℤ → ℤ
incr (pos n) = pos (suc n)
incr (negsuc zero) = pos 0
incr (negsuc (suc n)) = negsuc n

abbrev pub decr : ℤ → ℤ
decr (pos zero) = negsuc 0
decr (pos (suc n)) = pos n
decr (negsuc n) = negsuc (suc n)

-- `z <= n` and `n - z` for a natural n; the difference is read only where the test holds.
abbrev pub leb_nat : ℤ → ℕ → Bool
leb_nat (pos k) n = leb k n
leb_nat (negsuc k) n = true

abbrev pub below : ℕ → ℤ → ℕ
below n (pos k) = n - k
below n (negsuc k) = n

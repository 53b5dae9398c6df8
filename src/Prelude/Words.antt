-- ===== src/Prelude/Words.antt =====
-- Go's 64-bit integers as native numbers below `u64_mod`, wrapping as Go's do: those with a sign are
-- their bit patterns.
use mathlib.Core.Bool.{Bool}
use algo_vnode.Prelude.Tests.{ltb}
use Prim.Native.Nat.{ℕ, ◌+◌, ◌-◌, ◌%◌, ◌^◌}

abbrev pub u64_mod : ℕ
u64_mod = 2 ^ 64

abbrev pub add64 : ℕ → ℕ → ℕ
add64 a b = (a + b) % u64_mod

-- `a - b`: the modulus is added first, since `-` on ℕ stops at 0.
abbrev pub sub64 : ℕ → ℕ → ℕ
sub64 a b = (a + u64_mod - b) % u64_mod

-- `a < b` on signed numbers.
abbrev pub ltb_int64 : ℕ → ℕ → Bool
ltb_int64 a b = ltb ((a + 2 ^ 63) % u64_mod) ((b + 2 ^ 63) % u64_mod)

-- ===== src/Prelude/Word.antt =====
-- `u64` arithmetic: the operators wrap in a release build, the `checked_` forms return an `Option`,
-- and the `saturating_` forms stop at the ends.
use Prim.Native.Nat.{ℕ, ◌+◌, ◌-◌, ◌*◌, ◌%◌, ◌≤◌, ◌<◌, min}
use mathlib.Core.Path.{◌≡◌}
use mathlib.Core.Option.{Option, none, some}
use native.Mathlib.Omega.{arith}
use cex_matching_engine.Prelude.Tests.{ltb, if◌then◌else◌}

abbrev pub u64_mod : ℕ
u64_mod = 18446744073709551616

abbrev pub u64_max : ℕ
u64_max = 18446744073709551615

-- `a + b`
unfoldable pub add_u64 : ℕ → ℕ → ℕ
add_u64 a b = (a + b) % u64_mod

-- `a - b`
unfoldable pub sub_u64 : ℕ → ℕ → ℕ
sub_u64 a b = (a + (u64_mod - b)) % u64_mod

-- `a * b`
unfoldable pub mul_u64 : ℕ → ℕ → ℕ
mul_u64 a b = (a * b) % u64_mod

unfoldable pub checked_add : ℕ → ℕ → Option ℕ
checked_add a b = if ltb (a + b) u64_mod then some (a + b) else none

unfoldable pub checked_mul : ℕ → ℕ → Option ℕ
checked_mul a b = if ltb (a * b) u64_mod then some (a * b) else none

unfoldable pub saturating_add : ℕ → ℕ → ℕ
saturating_add a b = min (a + b) u64_max

unfoldable pub saturating_mul : ℕ → ℕ → ℕ
saturating_mul a b = min (a * b) u64_max

-- `-` on ℕ stops at 0 by itself
unfoldable pub saturating_sub : ℕ → ℕ → ℕ
saturating_sub a b = a - b

pub add_u64-eq : (a b : ℕ) → a + b < u64_mod → add_u64 a b ≡ a + b
unfolding add_u64
add_u64-eq a b h = omega arith

pub sub_u64-eq : (a b : ℕ) → b ≤ a → a < u64_mod → sub_u64 a b ≡ a - b
unfolding sub_u64
sub_u64-eq a b h k = omega arith

pub mul_u64-eq : (a b : ℕ) → a * b < u64_mod → mul_u64 a b ≡ a * b
unfolding mul_u64
mul_u64-eq a b h = omega arith

pub checked_add-eq-some : (a b c : ℕ) → checked_add a b ≡ some c → (c ≡ a + b) × (c < u64_mod)
unfolding checked_add
checked_add-eq-some a b c h = ground arith

pub checked_mul-eq-some : (a b c : ℕ) → checked_mul a b ≡ some c → (c ≡ a * b) × (c < u64_mod)
unfolding checked_mul
checked_mul-eq-some a b c h = ground arith

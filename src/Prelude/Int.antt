-- ===== src/Prelude/Int.antt =====
-- Signed integers, and the `i64` among them.
use Prim.Native.Nat.{ℕ, zero, suc, ◌+◌, ◌-◌, ◌*◌, ◌/◌, ◌≤◌, ◌<◌}
use mathlib.Core.Path.{◌≡◌}
use mathlib.Core.Logic.{◌↔◌}
use mathlib.Core.Bool.{Bool, true, false}
use native.Mathlib.Omega.{arith}
use cex_matching_engine.Prelude.Tests.{ltb, leb, nat_eqb, if◌then◌else◌, Key}
use cex_matching_engine.Prelude.Word.{u64_mod}

-- `negsuc n` is -(n + 1).
pub data ℤ : Type 0 where
  pos : ℕ → ℤ
  negsuc : ℕ → ℤ

abbrev pub pos_part : ℤ → ℕ
pos_part (pos n) = n
pos_part (negsuc n) = 0

abbrev pub neg_part : ℤ → ℕ
neg_part (pos n) = 0
neg_part (negsuc n) = suc n

abbrev pub int_eqb : ℤ → ℤ → Bool
int_eqb (pos m) (pos n) = nat_eqb m n
int_eqb (negsuc m) (negsuc n) = nat_eqb m n
int_eqb _ _ = false

pub int_eqb_iff : (a b : ℤ) → (int_eqb a b ≡ true) ↔ (a ≡ b)
int_eqb_iff a b = ground arith

instance abbrev pub int_eq : Key ℤ
int_eq = record { same = int_eqb; agrees = int_eqb_iff }

infix 50 ◌≤ℤ◌
abbrev pub ◌≤ℤ◌ : ℤ → ℤ → Type 0
a ≤ℤ b = pos_part a + neg_part b ≤ pos_part b + neg_part a

abbrev pub ltb_ℤ : ℤ → ℤ → Bool
ltb_ℤ a b = ltb (pos_part a + neg_part b) (pos_part b + neg_part a)

infixl 65 ◌+ℤ◌
unfoldable pub ◌+ℤ◌ : ℤ → ℤ → ℤ
a +ℤ b =
    let up = pos_part a + pos_part b in
    let down = neg_part a + neg_part b in
    if leb down up then pos (up - down) else negsuc (down - up - 1)

pub +ℤ_parts :
    (a b : ℤ)
    → pos_part (a +ℤ b) + neg_part a + neg_part b ≡ neg_part (a +ℤ b) + pos_part a + pos_part b
unfolding ◌+ℤ◌
+ℤ_parts a b = ground arith

pub eq_of_parts : (a b : ℤ) → pos_part a + neg_part b ≡ pos_part b + neg_part a → a ≡ b
eq_of_parts a b h = ground arith

pub ruleset int_laws = (arith, +ℤ_parts, eq_of_parts)

pub +ℤ_assoc : (a b c : ℤ) → a +ℤ b +ℤ c ≡ a +ℤ (b +ℤ c)
+ℤ_assoc a b c = omega int_laws

pub add_pos_zero : (a : ℤ) → a +ℤ pos 0 ≡ a
add_pos_zero a = omega int_laws

-- `-n`
abbrev pub opposite : ℕ → ℤ
opposite zero = pos 0
opposite (suc n) = negsuc n

-- Division by a positive number, towards zero, as in Rust and in SQL.
unfoldable pub quot : ℤ → ℕ → ℤ
quot (pos n) k = pos (n / k)
quot (negsuc n) k = opposite (suc n / k)

unfoldable pub times : ℤ → ℕ → ℤ
times (pos n) k = pos (n * k)
times (negsuc n) k = opposite (suc n * k)

abbrev pub i64_size : ℕ
i64_size = 9223372036854775808

abbrev pub is_i64 : ℤ → Bool
is_i64 (pos n) = ltb n i64_size
is_i64 (negsuc n) = ltb n i64_size

-- `n as i64` of a `u64`
unfoldable pub as_i64 : ℕ → ℤ
as_i64 n = if ltb n i64_size then pos n else negsuc (u64_mod - 1 - n)

-- `a as u64` of an `i64`
unfoldable pub as_u64 : ℤ → ℕ
as_u64 (pos n) = n
as_u64 (negsuc n) = u64_mod - 1 - n

pub as_u64-as_i64 : (n : ℕ) → n < u64_mod → as_u64 (as_i64 n) ≡ n
unfolding as_u64 as_i64
as_u64-as_i64 n h = ground arith

-- ===== src/Prelude/Text.antt =====
-- Texts as lists of code points, with the operations of the standard library that the program uses.
use Prim.Native.Nat.{ℕ, zero, suc, ◌+◌, ◌-◌, ◌*◌, ◌/◌, ◌%◌, ◌≤◌}
use Prim.Native.Char.{code}
use Prim.Native.String.{String}
use mathlib.Core.Path.{◌≡◌, refl}
use mathlib.Core.Logic.{◌≢◌, ◌↔◌}
use mathlib.Core.Bool.{Bool, true, false, ◌&&◌}
use mathlib.Core.Option.{Option, none, some}
use mathlib.Core.List.{List, [], ◌∷◌, ◌++◌}
use native.Mathlib.Omega.{arith}
use cex_matching_engine.Prelude.Tests.{
  ltb, leb, nat_eqb, nat_eqb_iff, Key, if◌then◌else◌, Bool-cases,
}
use cex_matching_engine.Prelude.Lists.{All, All-append}
use cex_matching_engine.Prelude.Word.{u64_mod}
use cex_matching_engine.Prelude.{Bool-cases, inl, inr}

abbrev pub Text : Type 0
Text = List ℕ

abbrev pub codes : String → Text
codes String.[] = []
codes (String.◌∷◌ c s) = code c ∷ codes s

abbrev pub text_eqb : Text → Text → Bool
text_eqb [] [] = true
text_eqb (c ∷ s) (d ∷ t) = nat_eqb c d && text_eqb s t
text_eqb _ _ = false

pub text_eqb_sound : (s t : Text) → text_eqb s t ≡ true → s ≡ t
text_eqb_sound [] [] e = refl
text_eqb_sound (c ∷ s) (d ∷ t) e = ground (arith, nat_eqb_iff c d, text_eqb_sound s t)
text_eqb_sound [] (d ∷ t) e = cc
text_eqb_sound (c ∷ s) [] e = cc

pub text_eqb_refl : (s : Text) → text_eqb s s ≡ true
text_eqb_refl [] = refl
text_eqb_refl (c ∷ s) = ground (arith, nat_eqb_iff c c, text_eqb_refl s)

pub text_eqb_iff : (s t : Text) → (text_eqb s t ≡ true) ↔ (s ≡ t)
text_eqb_iff s t = (text_eqb_sound s t, λ e. rw (← e) (text_eqb_refl s))

instance abbrev pub text_eq : Key Text
text_eq = record { same = text_eqb; agrees = text_eqb_iff }

abbrev prefixed : ℕ → Text × Text → Text × Text
prefixed c (s, t) = (c ∷ s, t)

-- `str::split_once` at a character: what stands before its first occurrence, and after it.
unfoldable pub split_once : ℕ → Text → Option (Text × Text)
split_once d [] = none
split_once d (c ∷ s) =
    let later : Option (Text × Text) = elim (split_once d s) [
      | none ↦ none
      | some p ↦ some (prefixed c p)
    ] in
    if nat_eqb c d then some ([], s) else later

split_once-cons :
    (d c : ℕ) (s a b : Text) (o : Option (Text × Text))
    → split_once d s ≡ o
    → ((a' b' : Text) → split_once d s ≡ some (a', b') → s ≡ a' ++ d ∷ b')
    → split_once d (c ∷ s) ≡ some (a, b)
    → c ∷ s ≡ a ++ d ∷ b
unfolding split_once
split_once-cons d c s a b none found ih e = ground (arith, nat_eqb_iff c d)
split_once-cons d c s a b (some (a', b')) found ih e =
    ground (arith, nat_eqb_iff c d, ih a' b' found)

-- The parts and the character between them are the whole text.
pub split_once-some : (d : ℕ) (s a b : Text) → split_once d s ≡ some (a, b) → s ≡ a ++ d ∷ b
split_once-some d [] a b e = unfold split_once in cc
split_once-some d (c ∷ s) a b e =
    split_once-cons d c s a b (split_once d s) refl (split_once-some d s) e

-- A text that does not hold the character is not split.
pub split_once-none : (d : ℕ) (s : Text) → All (λ c. c ≢ d) s → split_once d s ≡ none
unfolding split_once
split_once-none d [] h = refl
split_once-none d (c ∷ s) h = ground (arith, nat_eqb_iff c d, split_once-none d s)

abbrev pub is_digit : ℕ → Bool
is_digit c = leb b'0' c && leb c b'9'

-- The digits of a number in decimal, on fuel; a number has fewer digits than itself plus one.
unfoldable pub show_digits : ℕ → ℕ → Text
show_digits zero n = []
show_digits (suc fuel) n =
    let higher = show_digits fuel (n / 10) in
    if ltb n 10 then (b'0' + n) ∷ [] else higher ++ (b'0' + n % 10) ∷ []

-- `format!("{}", n)`
unfoldable pub show : ℕ → Text
unfolding show_digits
show n = show_digits (suc n) n

abbrev pub AllDigits : Text → Type 0
AllDigits = All (λ c. (b'0' ≤ c) × (c ≤ b'9'))

pub show_digits-AllDigits : (fuel n : ℕ) → AllDigits (show_digits fuel n)
unfolding show_digits
show_digits-AllDigits zero n = tt
show_digits-AllDigits (suc fuel) n = elim (Bool-cases (ltb n 10)) [
  | inl small ↦ rw small (ground arith)
  | inr large ↦ rw large (
      All-append (λ c. (b'0' ≤ c) × (c ≤ b'9')) (show_digits fuel (n / 10)) _
        (show_digits-AllDigits fuel (n / 10)) (omega arith))
]

-- The value of a text of digits, continuing from `acc`; `none` at any other character and where the
-- value leaves the range of a `u64`.
unfoldable pub read_digits : ℕ → Text → Option ℕ
read_digits acc [] = some acc
read_digits acc (c ∷ s) =
    let next = read_digits (acc * 10 + (c - b'0')) s in
    if is_digit c && ltb (acc * 10 + (c - b'0')) u64_mod then next else none

-- `str::parse::<u64>`: a `+` may stand in front, and there must be a digit.
unfoldable pub parse_u64 : Text → Option ℕ
parse_u64 [] = none
parse_u64 (c ∷ []) = read_digits 0 (c ∷ [])
parse_u64 (c ∷ d ∷ s) = if nat_eqb c b'+' then read_digits 0 (d ∷ s) else read_digits 0 (c ∷ d ∷ s)

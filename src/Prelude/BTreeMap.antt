-- ===== src/Prelude/BTreeMap.antt =====
-- `BTreeMap<u64, V>` of the standard library: entries in ascending order of their keys.
use Prim.Native.Nat.{ℕ, ◌<◌, compare, Ordering}
use mathlib.Core.Path.{◌≡◌, refl}
use mathlib.Core.Option.{Option, none, some}
use mathlib.Core.List.{List, [], ◌∷◌, ◌++◌}
use native.Mathlib.Omega.{arith}
use cex_matching_engine.Prelude.Tests.{nat_eqb, if◌then◌else◌}

abbrev pub BTreeMap {ℓ} : Type ℓ → Type ℓ
BTreeMap V = List (ℕ × V)

module _ {ℓ} {V : Type ℓ} where
  unfoldable pub get : ℕ → BTreeMap V → Option V
  get k [] = none
  get k ((j, v) ∷ m) = if nat_eqb k j then some v else get k m

  -- also the write through `get_mut` at a key that is there
  unfoldable pub insert : ℕ → V → BTreeMap V → BTreeMap V
  insert k v [] = (k, v) ∷ []
  insert k v ((j, w) ∷ m) = elim (compare k j) [
    | Ordering.lt ↦ (k, v) ∷ (j, w) ∷ m
    | Ordering.eq ↦ (k, v) ∷ m
    | Ordering.gt ↦ (j, w) ∷ insert k v m
  ]

  unfoldable pub remove : ℕ → BTreeMap V → BTreeMap V
  remove k [] = []
  remove k ((j, w) ∷ m) = if nat_eqb k j then remove k m else (j, w) ∷ remove k m

  unfoldable pub first_key_value : BTreeMap V → Option (ℕ × V)
  first_key_value [] = none
  first_key_value (x ∷ m) = some x

  unfoldable pub pop_first : BTreeMap V → BTreeMap V
  pop_first [] = []
  pop_first (x ∷ m) = m

  unfoldable pub last_key_value : BTreeMap V → Option (ℕ × V)
  last_key_value [] = none
  last_key_value (x ∷ []) = some x
  last_key_value (x ∷ y ∷ m) = last_key_value (y ∷ m)

  unfoldable pub pop_last : BTreeMap V → BTreeMap V
  pop_last [] = []
  pop_last (x ∷ []) = []
  pop_last (x ∷ y ∷ m) = x ∷ pop_last (y ∷ m)

  -- every key is above `k`
  abbrev pub Above : ℕ → BTreeMap V → Type 0
  Above k [] = Unit
  Above k ((j, v) ∷ m) = (k < j) × Above k m

  -- every key is below `k`
  abbrev pub Below : ℕ → BTreeMap V → Type 0
  Below k [] = Unit
  Below k ((j, v) ∷ m) = (j < k) × Below k m

  abbrev pub IsSorted : BTreeMap V → Type 0
  IsSorted [] = Unit
  IsSorted ((j, v) ∷ m) = Above j m × IsSorted m

  pub get-insert :
      (j k : ℕ) (v : V) (m : BTreeMap V)
      → get j (insert k v m) ≡ (if nat_eqb j k then some v else get j m)
  unfolding get insert
  get-insert j k v [] = refl
  get-insert j k v ((i, w) ∷ m) = ground (arith, get-insert j k v m)

  pub get-remove :
      (j k : ℕ) (m : BTreeMap V) → get j (remove k m) ≡ (if nat_eqb j k then none else get j m)
  unfolding get remove
  get-remove j k [] = ground arith
  get-remove j k ((i, w) ∷ m) = ground (arith, get-remove j k m)

  pub Above-weaken : (i j : ℕ) (m : BTreeMap V) → i < j → Above j m → Above i m
  Above-weaken i j [] h a = tt
  Above-weaken i j ((k, v) ∷ m) h a = (omega arith, Above-weaken i j m h a.1)

  pub insert-Above : (i k : ℕ) (v : V) (m : BTreeMap V) → i < k → Above i m → Above i (insert k v m)
  unfolding insert
  insert-Above i k v [] h a = (h, tt)
  insert-Above i k v ((j, w) ∷ m) h a = ground (arith, insert-Above i k v m)

  pub insert-IsSorted : (k : ℕ) (v : V) (m : BTreeMap V) → IsSorted m → IsSorted (insert k v m)
  unfolding insert
  insert-IsSorted k v [] s = (tt, tt)
  insert-IsSorted k v ((j, w) ∷ m) s =
      ground (arith, insert-IsSorted k v m, insert-Above j k v m, Above-weaken k j m)

  pub remove-Above : (i k : ℕ) (m : BTreeMap V) → Above i m → Above i (remove k m)
  unfolding remove
  remove-Above i k [] a = tt
  remove-Above i k ((j, w) ∷ m) a = ground (arith, remove-Above i k m)

  pub remove-IsSorted : (k : ℕ) (m : BTreeMap V) → IsSorted m → IsSorted (remove k m)
  unfolding remove
  remove-IsSorted k [] s = tt
  remove-IsSorted k ((j, w) ∷ m) s = ground (arith, remove-IsSorted k m, remove-Above j k m)

  -- The last entry of a map that is written with its last entry apart.
  pub last_key_value-snoc : (m : BTreeMap V) (x : ℕ × V) → last_key_value (m ++ x ∷ []) ≡ some x
  unfolding last_key_value
  last_key_value-snoc [] x = refl
  last_key_value-snoc (y ∷ []) x = refl
  last_key_value-snoc (y ∷ z ∷ m) x = last_key_value-snoc (z ∷ m) x

  pub pop_last-snoc : (m : BTreeMap V) (x : ℕ × V) → pop_last (m ++ x ∷ []) ≡ m
  unfolding pop_last
  pop_last-snoc [] x = refl
  pop_last-snoc (y ∷ []) x = refl
  pop_last-snoc (y ∷ z ∷ m) x = λ i. y ∷ pop_last-snoc (z ∷ m) x i

  pub insert-snoc :
      (k : ℕ) (v w : V) (m : BTreeMap V)
      → Below k m
      → insert k v (m ++ (k, w) ∷ []) ≡ m ++ (k, v) ∷ []
  unfolding insert
  insert-snoc k v w [] b = ground arith
  insert-snoc k v w ((j, u) ∷ m) b = ground (arith, insert-snoc k v w m)

  pub Below-of_IsSorted : (m : BTreeMap V) (k : ℕ) (v : V) → IsSorted (m ++ (k, v) ∷ []) → Below k m
  Below-of_IsSorted [] k v s = tt
  Below-of_IsSorted ((j, w) ∷ m) k v s = (last m s.0, Below-of_IsSorted m k v s.1)
    where
      last : (n : BTreeMap V) → Above j (n ++ (k, v) ∷ []) → j < k
      last [] a = a.0
      last (y ∷ n) a = last n a.1

  pub insert-head : (k : ℕ) (v w : V) (m : BTreeMap V) → insert k v ((k, w) ∷ m) ≡ (k, v) ∷ m
  unfolding insert
  insert-head k v w m = ground arith

  pub pop_first-IsSorted : (m : BTreeMap V) → IsSorted m → IsSorted (pop_first m)
  unfolding pop_first
  pop_first-IsSorted [] s = tt
  pop_first-IsSorted (x ∷ m) s = s.1

  pub pop_last-Above : (k : ℕ) (m : BTreeMap V) → Above k m → Above k (pop_last m)
  unfolding pop_last
  pop_last-Above k [] a = tt
  pop_last-Above k (x ∷ []) a = tt
  pop_last-Above k (x ∷ y ∷ m) a = (a.0, pop_last-Above k (y ∷ m) a.1)

  pub pop_last-IsSorted : (m : BTreeMap V) → IsSorted m → IsSorted (pop_last m)
  unfolding pop_last
  pop_last-IsSorted [] s = tt
  pop_last-IsSorted (x ∷ []) s = tt
  pop_last-IsSorted (x ∷ y ∷ m) s = (pop_last-Above x.0 (y ∷ m) s.0, pop_last-IsSorted (y ∷ m) s.1)

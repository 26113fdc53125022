-- ===== src/Prelude/HashMap.antt =====
-- `HashMap` and `HashSet` of the standard library, as lists without repeated keys. The order of the
-- entries stands for the unspecified order of iteration.
use mathlib.Core.Path.{◌≡◌, refl}
use mathlib.Core.Bool.{Bool, true, false}
use mathlib.Core.Option.{Option, none, some}
use mathlib.Core.List.{List, [], ◌∷◌}
use native.Mathlib.Omega.{arith}
use cex_matching_engine.Prelude.Tests.{Key, if◌then◌else◌}

abbrev pub HashMap {ℓ κ} : Type ℓ → Type κ → Type (ℓ ⊔ κ)
HashMap K V = List (K × V)

abbrev pub or_else {ℓ} : {V : Type ℓ} → V → Option V → V
or_else d none = d
or_else d (some v) = v

module _ {ℓ κ} {K : Type ℓ} {V : Type κ} ⦃e : Key K⦄ where
  unfoldable pub get : K → HashMap K V → Option V
  get k [] = none
  get k ((j, v) ∷ m) = if e.same k j then some v else get k m

  unfoldable pub contains_key : K → HashMap K V → Bool
  unfolding get
  contains_key k m = elim (get k m) [ none ↦ false | some _ ↦ true ]

  -- `map.get(k)` or a default, as `entry(k).or_default()` reads it
  unfoldable pub get_or : V → K → HashMap K V → V
  unfolding get
  get_or d k m = or_else d (get k m)

  unfoldable pub insert : K → V → HashMap K V → HashMap K V
  insert k v [] = (k, v) ∷ []
  insert k v ((j, w) ∷ m) = if e.same k j then (k, v) ∷ m else (j, w) ∷ insert k v m

  unfoldable pub remove : K → HashMap K V → HashMap K V
  remove k [] = []
  remove k ((j, w) ∷ m) = if e.same k j then remove k m else (j, w) ∷ remove k m

  pub get-insert :
      (j k : K) (v : V) (m : HashMap K V)
      → get j (insert k v m) ≡ (if e.same j k then some v else get j m)
  unfolding get insert
  get-insert j k v [] = refl
  get-insert j k v ((i, w) ∷ m) =
      ground (arith, e.agrees j k, e.agrees k i, e.agrees j i, get-insert j k v m)

  pub get-remove :
      (j k : K) (m : HashMap K V) → get j (remove k m) ≡ (if e.same j k then none else get j m)
  unfolding get remove
  get-remove j k [] = ground arith
  get-remove j k ((i, w) ∷ m) =
      ground (arith, e.agrees j k, e.agrees k i, e.agrees j i, get-remove j k m)

abbrev pub HashSet {ℓ} : Type ℓ → Type ℓ
HashSet A = List A

module _ {ℓ} {A : Type ℓ} ⦃e : Key A⦄ where
  unfoldable pub contains : A → HashSet A → Bool
  contains a [] = false
  contains a (x ∷ s) = if e.same a x then true else contains a s

  -- the set after `set.insert(a)`
  unfoldable pub with_elem : A → HashSet A → HashSet A
  with_elem a [] = a ∷ []
  with_elem a (x ∷ s) = if e.same a x then x ∷ s else x ∷ with_elem a s

  -- the set after `set.remove(a)`
  unfoldable pub without : A → HashSet A → HashSet A
  without a [] = []
  without a (x ∷ s) = if e.same a x then without a s else x ∷ without a s

  pub contains-with_elem :
      (b a : A) (s : HashSet A)
      → contains b (with_elem a s) ≡ (if e.same b a then true else contains b s)
  unfolding contains with_elem
  contains-with_elem b a [] = refl
  contains-with_elem b a (x ∷ s) =
      ground (arith, e.agrees b a, e.agrees a x, e.agrees b x, contains-with_elem b a s)

  pub contains-without :
      (b a : A) (s : HashSet A)
      → contains b (without a s) ≡ (if e.same b a then false else contains b s)
  unfolding contains without
  contains-without b a [] = ground arith
  contains-without b a (x ∷ s) =
      ground (arith, e.agrees b a, e.agrees a x, e.agrees b x, contains-without b a s)

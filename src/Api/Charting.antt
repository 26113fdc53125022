-- ===== src/Api/Charting.antt =====
-- bin/api/main.rs, `get_candles`: which candles the answer holds.
use mathlib.Core.List.{Perm}
use mathlib.Core.List.Perm
use cex_matching_engine.Prelude.{
  refl, ℕ, zero, suc, ◌+◌, ◌≤◌, ◌≡◌, ◌++◌, Bool, true, false, Option-cases, none, some, List, [],
  ◌∷◌, map, arith, All, length, Bool-cases, inl, inr, ◌∙◌, ap, sym, subst, ◌⊎◌, min, max,
}
use cex_matching_engine.Prelude.Int.{ℤ, pos, negsuc, ◌≤ℤ◌}
use cex_matching_engine.Prelude.HashMap.{HashMap}
use cex_matching_engine.Prelude.Text.{Text, codes}
use cex_matching_engine.DbWriter.Tables.{CandleKey, CandleRow}
use cex_matching_engine.Api.{ApiError, Option}
use cex_matching_engine.Api.Auth.{failed, done}
use cex_matching_engine.Market.{Pair}
use cex_matching_engine.Market.Symbol.{parse_pair, show_pair}
use cex_matching_engine.Candle.{interval_seconds}
use cex_matching_engine.Prelude.HashMap.{or_else}
use cex_matching_engine.Api.Queries.{
  get_candles, insert_sorted, order_by, filter, take, drop, clamp_limit, Candle, candle_of, by_time,
  by_time_desc, select_candles, selects, CandlesQuery, default_candles_limit,
}

module _ {ℓ} {A : Type ℓ} (later : A → A → Bool) where
  insert_sorted-perm : (x : A) (ys : List A) → Perm (insert_sorted later x ys) (x ∷ ys)
  unfolding insert_sorted
  insert_sorted-perm x [] = Perm.rfl
  insert_sorted-perm x (y ∷ ys) = elim (Bool-cases (later x y)) [
    | inl behind ↦ rw behind (Perm.trans (Perm.cons y (insert_sorted-perm x ys)) (Perm.swap x y ys))
    | inr ahead ↦ rw ahead Perm.rfl
  ]

  order_by-perm : (xs : List A) → Perm (order_by later xs) xs
  unfolding order_by
  order_by-perm [] = Perm.rfl
  order_by-perm (x ∷ xs) =
      Perm.trans (insert_sorted-perm x (order_by later xs)) (Perm.cons x (order_by-perm xs))

  insert_sorted-All {κ} :
      (P : A → Type κ) (x : A) (ys : List A) → P x → All P ys → All P (insert_sorted later x ys)
  unfolding insert_sorted
  insert_sorted-All P x [] hx h = (hx, tt)
  insert_sorted-All P x (y ∷ ys) hx h = elim (Bool-cases (later x y)) [
    | inl behind ↦ rw behind (h.0, insert_sorted-All P x ys hx h.1)
    | inr ahead ↦ rw ahead (hx, h)
  ]

  order_by-All {κ} : (P : A → Type κ) (xs : List A) → All P xs → All P (order_by later xs)
  unfolding order_by
  order_by-All P [] h = tt
  order_by-All P (x ∷ xs) h = insert_sorted-All P x (order_by later xs) h.0 (order_by-All P xs h.1)

  length-insert_sorted : (x : A) (ys : List A) → length (insert_sorted later x ys) ≡ length ys + 1
  unfolding insert_sorted
  length-insert_sorted x [] = omega arith
  length-insert_sorted x (y ∷ ys) = ground (arith, length-insert_sorted x ys)

  length-order_by : (xs : List A) → length (order_by later xs) ≡ length xs
  unfolding order_by
  length-order_by [] = omega arith
  length-order_by (x ∷ xs) =
      omega (arith, length-insert_sorted x (order_by later xs), length-order_by xs)

module _ {ℓ} {A : Type ℓ} (R : A → A → Type 0) where
  abbrev pub Sorted : List A → Type 0
  Sorted [] = Unit
  Sorted (x ∷ xs) = All (R x) xs × Sorted xs

  All-weaken : (x y : A) (xs : List A) → ((z : A) → R y z → R x z) → All (R y) xs → All (R x) xs
  All-weaken x y [] w h = tt
  All-weaken x y (z ∷ xs) w h = (w z h.0, All-weaken x y xs w h.1)

  -- An order that the test decides.
  module _ (later : A → A → Bool) (behind : (x y : A) → later x y ≡ true → R y x)
      (ahead : (x y : A) → later x y ≡ false → R x y)
      (trans : (x y z : A) → R x y → R y z → R x z) where
    insert_sorted-Sorted : (x : A) (ys : List A) → Sorted ys → Sorted (insert_sorted later x ys)
    unfolding insert_sorted
    insert_sorted-Sorted x [] h = (tt, tt)
    insert_sorted-Sorted x (y ∷ ys) h = elim (Bool-cases (later x y)) [
      | inl b ↦
          rw b
            (insert_sorted-All later (R y) x ys (behind x y b) h.0, insert_sorted-Sorted x ys h.1)
      | inr a ↦ rw a ((ahead x y a, All-weaken x y ys (λ z. trans x y z (ahead x y a)) h.0), h)
    ]

    order_by-Sorted : (xs : List A) → Sorted (order_by later xs)
    unfolding order_by
    order_by-Sorted [] = tt
    order_by-Sorted (x ∷ xs) = insert_sorted-Sorted x (order_by later xs) (order_by-Sorted xs)

  -- What is dropped from a sorted list comes behind what is taken.
  take-before-drop :
      (n : ℕ) (xs : List A) → Sorted xs → All (λ x. All (R x) (drop n xs)) (take n xs)
  take-before-drop zero xs h = tt
  take-before-drop (suc n) [] h = tt
  take-before-drop (suc n) (x ∷ xs) h = (All-drop n x xs h.0, take-before-drop n xs h.1)
    where
      All-drop : (m : ℕ) (y : A) (ys : List A) → All (R y) ys → All (R y) (drop m ys)
      All-drop zero y ys h = h
      All-drop (suc m) y [] h = tt
      All-drop (suc m) y (z ∷ ys) h = All-drop m y ys h.1

take-drop {ℓ} : {A : Type ℓ} (n : ℕ) (xs : List A) → take n xs ++ drop n xs ≡ xs
take-drop zero xs = refl
take-drop (suc n) [] = refl
take-drop (suc n) (x ∷ xs) = ap (λ ys. x ∷ ys) (take-drop n xs)

length-take {ℓ} :
    {A : Type ℓ} (n : ℕ) (xs : List A)
    → (length (take n xs) ≤ n) × ((drop n xs ≡ []) ⊎ (length (take n xs) ≡ n))
length-take zero xs = (omega arith, inr refl)
length-take (suc n) [] = (omega arith, inl refl)
length-take (suc n) (x ∷ xs) =
    let (short, full) = length-take n xs in
    (omega arith, elim full [ inl none_left ↦ inl none_left | inr same ↦ inr (omega arith) ])

abbrev pub NotAfter : Candle → Candle → Type 0
NotAfter x y = x.time ≤ℤ y.time

abbrev pub NotBefore : Candle → Candle → Type 0
NotBefore x y = y.time ≤ℤ x.time

-- The candles that the WHERE clause selects.
abbrev pub selected : Text → ℕ → CandlesQuery → HashMap CandleKey CandleRow → List Candle
selected pair seconds q rows = map candle_of (filter (selects pair seconds q) rows)

-- The answer is a part of the candles that are selected, in the order of their time; none of those
-- left out is later than one that is in; and where any is left out, as many are in as the limit
-- says, and never more.
pub select_candles_latest :
    (pair : Text) (seconds : ℕ) (q : CandlesQuery) (limit : ℕ) (rows : HashMap CandleKey CandleRow)
    → let answer = select_candles pair seconds q limit rows in
      (rest : List Candle) × Perm (answer ++ rest) (selected pair seconds q rows)
      × Sorted NotAfter answer
      × All (λ c. All (NotBefore c) rest) answer
      × (length answer ≤ limit)
      × ((rest ≡ []) ⊎ (length answer ≡ limit))
unfolding select_candles
select_candles_latest pair seconds q limit rows =
    let found = selected pair seconds q rows in
    let latest = order_by by_time_desc found in
    let (short, full) = length-take limit latest in
    let same_length = length-order_by by_time (take limit latest) in
    (
      drop limit latest,
      Perm.trans (Perm.append_right (drop limit latest) (order_by-perm by_time (take limit latest)))
          (subst (λ xs. Perm xs found) (sym (take-drop limit latest))
            (order_by-perm by_time_desc found)),
      order_by-Sorted NotAfter by_time (λ x y e. ground arith) (λ x y e. ground arith)
          (λ x y z e f. omega arith) (take limit latest),
      order_by-All by_time (λ c. All (NotBefore c) (drop limit latest)) (take limit latest)
          (take-before-drop NotBefore limit latest (
            order_by-Sorted NotBefore by_time_desc (λ x y e. ground arith) (λ x y e. ground arith)
              (λ x y z e f. omega arith) found)),
      omega arith,
      elim full [ inl none_left ↦ inl none_left | inr same ↦ inr (same_length ∙ same) ],
    )

-- How many candles a query asks for: 200 where it does not say, and from 1 to 1000.
abbrev pub wanted : Option ℤ → ℕ
wanted none = 200
wanted (some (pos n)) = min (max n 1) 1000
wanted (some (negsuc n)) = 1

wanted-clamp_limit :
    (limit : Option ℤ) → clamp_limit (or_else default_candles_limit limit) ≡ wanted limit
unfolding clamp_limit
wanted-clamp_limit none = refl
wanted-clamp_limit (some (pos n)) = ground arith
wanted-clamp_limit (some (negsuc n)) = refl

-- A pair or an interval that does not parse, an unknown currency included, is a bad request. Else
-- the answer is a part of the candles of that pair and interval which the query selects, in the
-- order of their time; none of those left out is later than one that is in; and as many are in as
-- the query asks for (200 where it does not say, and from 1 to 1000), or all of them where they are
-- fewer.
pub get_candles_bounds :
    (raw_pair : Text) (q : CandlesQuery) (rows : HashMap CandleKey CandleRow)
    → ((message : Text) × (get_candles raw_pair q rows ≡ failed (ApiError.bad_request message))
        × ((parse_pair raw_pair ≡ none) ⊎ (interval_seconds q.interval ≡ none)))
      ⊎ ((pair : Pair) × (seconds : ℕ) × (answer rest : List Candle) × (parse_pair raw_pair
            ≡ some pair)
          × (interval_seconds q.interval ≡ some seconds)
          × (get_candles raw_pair q rows ≡ done answer)
          × Perm (answer ++ rest) (selected (show_pair pair) seconds q rows)
          × Sorted NotAfter answer
          × All (λ c. All (NotBefore c) rest) answer
          × (length answer ≤ wanted q.limit)
          × ((rest ≡ []) ⊎ (length answer ≡ wanted q.limit)))
unfolding get_candles
get_candles_bounds raw_pair q rows = elim (Option-cases (parse_pair raw_pair)) [
  | inl invalid ↦
      inl (codes "invalid pair, expected BASE-QUOTE", rw (invalid, get_candles) refl, inl invalid)
  | inr (pair, valid) ↦ elim (Option-cases (interval_seconds q.interval)) [
    | inl unknown ↦ inl (
      codes "invalid interval, expected one of 1s/15m/1h/4h/1d/1w",
      rw (valid, unknown, get_candles) refl,
      inr unknown,
    )
    | inr (seconds, known) ↦
        let limit = wanted q.limit in
        let (rest, perm, sorted, latest, short, full) =
          select_candles_latest (show_pair pair) seconds q limit rows in
        inr (
          pair,
          seconds,
          select_candles (show_pair pair) seconds q limit rows,
          rest,
          valid,
          known,
          rw (valid, known, get_candles)
              (ap (λ (n : ℕ). done (select_candles (show_pair pair) seconds q n rows))
                (wanted-clamp_limit q.limit)),
          perm,
          sorted,
          latest,
          short,
          full,
        )
  ]
]

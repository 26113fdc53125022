-- ===== src/Engine/Window.antt =====
-- The window of idempotency keys: `seen` and the queues of `order` are two views of one window.
use cex_matching_engine.Prelude.{
  ℕ, ◌+◌, ◌≤◌, ◌≡◌, refl, List, [], ◌∷◌, ◌++◌, arith, Bool, true, false, if◌then◌else◌, nat_eqb,
  length, Option, none, some, nat_eq, pair_eq, ◌&&◌, nat_eqb_iff, sym, subst, Bool-cases, ap, ◌∙◌,
  inl, not, ◌<◌, inr, length-append, ◌⊎◌,
}
use cex_matching_engine.Prelude.HashMap
use cex_matching_engine.Market.{AccountId}
use cex_matching_engine.Engine.State.{Dedup, evict, forget_key, insert_key}

-- Whether a queue holds a key.
abbrev pub holds : ℕ → List ℕ → Bool
holds id [] = false
holds id (x ∷ xs) = if nat_eqb id x then true else holds id xs

abbrev pub DistinctKeys : List ℕ → Type 0
DistinctKeys [] = Unit
DistinctKeys (x ∷ xs) = (holds x xs ≡ false) × DistinctKeys xs

abbrev pub recent_keys : AccountId → Dedup → List ℕ
recent_keys a d = HashMap.get_or [] a d.order

abbrev pub was_seen : AccountId → ℕ → Dedup → Bool
was_seen a id d = HashMap.contains (a, id) d.seen

pub record IsWindow (window : ℕ) (d : Dedup) : Type 0 where
  pub agree : (a : AccountId) (id : ℕ) → was_seen a id d ≡ holds id (recent_keys a d)
  pub distinct : (a : AccountId) → DistinctKeys (recent_keys a d)
  pub bounded : (a : AccountId) → length (recent_keys a d) ≤ window

-- The queue of an account after a new key.
abbrev pub pushed : ℕ → AccountId → ℕ → Dedup → Option ℕ × List ℕ
pushed window a id d = evict window (recent_keys a d ++ id ∷ [])

holds-append :
    (id y : ℕ) (xs : List ℕ)
    → holds id (xs ++ y ∷ []) ≡ (if nat_eqb id y then true else holds id xs)
holds-append id y [] = refl
holds-append id y (x ∷ xs) = ground (arith, holds-append id y xs)

DistinctKeys-append :
    (y : ℕ) (xs : List ℕ) → DistinctKeys xs → holds y xs ≡ false → DistinctKeys (xs ++ y ∷ [])
DistinctKeys-append y [] d h = (refl, tt)
DistinctKeys-append y (x ∷ xs) d h = ground (arith, holds-append x y xs, DistinctKeys-append y xs)

-- Eviction from a queue of different keys.
abbrev Evicts : ℕ → List ℕ → Option ℕ × List ℕ → Type 0
Evicts window xs (none, ys) = (ys ≡ xs) × (length ys ≤ window)
Evicts window xs (some x, ys) = (xs ≡ x ∷ ys) × (length ys ≡ window)

evict-Evicts :
    (window : ℕ) (xs : List ℕ) → length xs ≤ window + 1 → Evicts window xs (evict window xs)
unfolding evict
evict-Evicts window [] h = (refl, omega arith)
evict-Evicts window (x ∷ xs) h = ground arith

abbrev same_key : AccountId → ℕ → AccountId → ℕ → Bool
same_key a' i a x = nat_eqb a' a && nat_eqb i x

-- The state after a new key, with the outcome of the eviction given.
abbrev after_key : AccountId → ℕ → Option ℕ × List ℕ → Dedup → Dedup
after_key a id (evicted, recent) d = record {
  seen = forget_key a evicted (HashMap.with_elem (a, id) d.seen);
  order = HashMap.insert a recent d.order;
}

module _ (a : AccountId) (id : ℕ) (d : Dedup) (a' : AccountId) where
  recent_keys-after :
      (o : Option ℕ) (ys : List ℕ)
      → recent_keys a' (after_key a id (o, ys) d) ≡ (if nat_eqb a' a then ys else recent_keys a' d)
  unfolding HashMap.get_or
  recent_keys-after o ys = ground (arith, HashMap.get-insert a' a ys d.order)

  was_seen-none :
      (i : ℕ) (ys : List ℕ)
      → was_seen a' i (after_key a id (none, ys) d)
        ≡ (if same_key a' i a id then true else was_seen a' i d)
  unfolding forget_key
  was_seen-none i ys = HashMap.contains-with_elem (a', i) (a, id) d.seen

  was_seen-some :
      (i x : ℕ) (ys : List ℕ)
      → was_seen a' i (after_key a id (some x, ys) d) ≡ (
          if same_key a' i a x then false else if same_key a' i a id then true else was_seen a' i d)
  unfolding forget_key
  was_seen-some i x ys = ground (
    arith,
    HashMap.contains-without (a', i) (a, x) (HashMap.with_elem (a, id) d.seen),
    HashMap.contains-with_elem (a', i) (a, id) d.seen,
  )

module _ (window : ℕ) (a : AccountId) (id : ℕ) (d : Dedup) (v : IsWindow window d)
    (fresh : was_seen a id d ≡ false) where
  all_distinct : DistinctKeys (recent_keys a d ++ id ∷ [])
  all_distinct =
      DistinctKeys-append id (recent_keys a d) (v.distinct a) (sym (v.agree a id) ∙ fresh)

  evicted_distinct :
      (x : ℕ) (ys : List ℕ)
      → recent_keys a d ++ id ∷ [] ≡ x ∷ ys
      → (holds x ys ≡ false) × DistinctKeys ys
  evicted_distinct x ys e = subst DistinctKeys e all_distinct

  distinct-after :
      (o : Option ℕ) (ys : List ℕ)
      → DistinctKeys ys
      → (a' : AccountId) → DistinctKeys (recent_keys a' (after_key a id (o, ys) d))
  distinct-after o ys h a' =
      rw (recent_keys-after a id d a' o ys) (elim (Bool-cases (nat_eqb a' a)) [
        | inl same ↦ rw same h
        | inr other ↦ rw other (v.distinct a')
      ])

  after_key-IsWindow :
      (r : Option ℕ × List ℕ)
      → Evicts window (recent_keys a d ++ id ∷ []) r
      → IsWindow window (after_key a id r d)
  after_key-IsWindow (none, ys) e = record {
    agree = λ a' i. ground (
      arith,
      e,
      was_seen-none a id d a' i ys,
      recent_keys-after a id d a' none ys,
      holds-append i id (recent_keys a d),
      v.agree a' i,
      nat_eqb_iff a' a,
    );
    distinct = distinct-after none ys (rw e.0 all_distinct);
    bounded = λ a'. ground (arith, e, recent_keys-after a id d a' none ys, v.bounded a');
  }
  after_key-IsWindow (some x, ys) e = record {
    agree = λ a' i. ground (
      arith,
      was_seen-some a id d a' i x ys,
      recent_keys-after a id d a' (some x) ys,
      ap (holds i) e.0,
      holds-append i id (recent_keys a d),
      (evicted_distinct x ys e.0).0,
      v.agree a' i,
      nat_eqb_iff a' a,
      nat_eqb_iff i x,
    );
    distinct = distinct-after (some x) ys (evicted_distinct x ys e.0).1;
    bounded = λ a'. ground (arith, e, recent_keys-after a id d a' (some x) ys, v.bounded a');
  }

-- `insert_key` keeps the window: afterwards `seen` and the queues again hold the same keys, each
-- once, and no queue is longer than the window. It answers `true` exactly for a key that was not
-- in its account's window, and a key that was there changes nothing.
pub insert_key-IsWindow :
    (window : ℕ) (a : AccountId) (id : ℕ) (d : Dedup)
    → IsWindow window d
    → let (fresh, d') = insert_key window a id d in
      IsWindow window d' × (fresh ≡ not (holds id (recent_keys a d))) × ((fresh ≡ true) ⊎ (d' ≡ d))
unfolding insert_key
insert_key-IsWindow window a id d v = elim (Bool-cases (was_seen a id d)) [
  | inl old ↦ rw old (v, ground (arith, v.agree a id), inr refl)
  | inr fresh ↦ rw fresh (
    after_key-IsWindow window a id d v fresh (pushed window a id d) (
        evict-Evicts window (recent_keys a d ++ id ∷ [])
          (omega (arith, length-append (recent_keys a d) (id ∷ []), v.bounded a))),
    ground (arith, v.agree a id),
    inl refl,
  )
]

holds-evict :
    (window id : ℕ) (xs : List ℕ) → 0 < window → holds id (evict window (xs ++ id ∷ [])).1 ≡ true
unfolding evict
holds-evict window id [] h = ground (arith, nat_eqb_iff id id)
holds-evict window id (x ∷ xs) h = ground (arith, holds-append id id xs, nat_eqb_iff id id)

-- With a window of some size, a key that was just presented is refused when it comes again.
pub insert_key_retry :
    (window : ℕ) (a : AccountId) (id : ℕ) (d : Dedup)
    → IsWindow window d
    → 0 < window
    → (insert_key window a id (insert_key window a id d).1).0 ≡ false
unfolding insert_key
insert_key_retry window a id d v h =
    let d' = (insert_key window a id d).1 in
    let again = insert_key-IsWindow window a id d' (insert_key-IsWindow window a id d v).0 in
    again.1 ∙ ap not (kept (Bool-cases (was_seen a id d)))
  where
    kept :
        (was_seen a id d ≡ true) ⊎ (was_seen a id d ≡ false)
        → holds id (recent_keys a (insert_key window a id d).1) ≡ true
    kept (inl old) = rw (old, insert_key) (sym (v.agree a id) ∙ old)
    kept (inr fresh) =
        rw (fresh, insert_key)
          (ground (
            arith,
            recent_keys-after a id d a (pushed window a id d).0 (pushed window a id d).1,
            holds-evict window id (recent_keys a d) h,
            nat_eqb_iff a a,
          ))

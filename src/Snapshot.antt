-- ===== src/Snapshot.antt =====
-- snapshot.rs: stream ids, and how far a stream may be trimmed. The files are in the child.
pub mod Files
use cex_matching_engine.Prelude.{
  ◌>>=◌, ℕ, ◌≤◌, ◌<◌, ◌≡◌, refl, ◌⊎◌, inl, inr, Bool, true, false, Option, some, arith, ltb,
  if◌then◌else◌, nat_eqb, Bool-cases, ap, ◌∙◌,
}
use cex_matching_engine.Prelude.Text.{Text, split_once, parse_u64}

abbrev pub StreamId : Type 0
StreamId = ℕ × ℕ

unfoldable pub parse_id : Text → Option StreamId
parse_id id = do (ms, seq) ← split_once b'-' id; m ← parse_u64 ms; s ← parse_u64 seq; some (m, s)

-- the order of tuples
unfoldable pub id_ltb : StreamId → StreamId → Bool
id_ltb (m, s) (n, t) = if ltb m n then true else if nat_eqb m n then ltb s t else false

unfoldable pub choose : Option StreamId → Option StreamId → Text → Text → Text
unfolding id_ltb
choose (some x) (some y) a b = if id_ltb y x then b else a
choose _ _ a b = a

-- `earlier`
unfoldable pub earlier : Text → Text → Text
unfolding choose
earlier a b = choose (parse_id a) (parse_id b) a b

-- Stream ids in order: neither part may go back behind the other's.
abbrev pub AtMost : StreamId → StreamId → Type 0
AtMost x y = (x.0 < y.0) ⊎ ((x.0 ≡ y.0) × (x.1 ≤ y.1))

-- Of two ids that parse, `earlier` is one of the two and at most each of them in the order of ids.
pub earlier-AtMost :
    (a b : Text) (x y : StreamId)
    → parse_id a ≡ some x
    → parse_id b ≡ some y
    → (z : StreamId) × (parse_id (earlier a b) ≡ some z)
      × AtMost z x
      × AtMost z y
      × ((earlier a b ≡ a) ⊎ (earlier a b ≡ b))
unfolding earlier id_ltb
earlier-AtMost a b x y ea eb = elim (Bool-cases (id_ltb y x)) [
  | inl less ↦
      let picked : earlier a b ≡ b = ground arith in
      (y, ap parse_id picked ∙ eb, ground arith, inr (refl, omega arith), inr picked)
  | inr not_less ↦
      let picked : earlier a b ≡ a = ground arith in
      (x, ap parse_id picked ∙ ea, inr (refl, omega arith), ground arith, inl picked)
]

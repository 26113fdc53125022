-- ===== src/DbWriter/Upserts.antt =====
-- bin/db_writer.rs, `apply_event`: the statement that adds one trade to the candles of every width.
use cex_matching_engine.Prelude.{
  ℕ, ◌≡◌, Option, none, some, List, [], ◌∷◌, if◌then◌else◌, arith, nat_eqb, inl, inr, ◌⊎◌,
  Option-cases, nat_eqb_iff, Bool-cases, Bool, true, false, ◌&&◌, sym, ◌∙◌, ap,
}
use cex_matching_engine.Prelude.Int.{ℤ, int_eqb, int_eqb_iff}
use cex_matching_engine.Prelude.HashMap
use cex_matching_engine.Prelude.HashMap.{HashMap}
use cex_matching_engine.Prelude.Text.{Text, text_eqb}
use cex_matching_engine.Candle.{maintained}
use cex_matching_engine.DbWriter.Tables.{
  CandleRow, CandleKey, candle_eq, candle_eqb, candle_eqb_iff, candle_after, upsert_widths,
  upsert_candle, bucket_of,
}

-- The widths at which the statement meets a row.
abbrev pub lands : CandleKey → Text → ℤ → List ℕ → Bool
lands (p, w, b) pair secs widths =
    if text_eqb p pair then maintained w widths && int_eqb b (bucket_of secs w) else false

abbrev pub NoRepeat : List ℕ → Type 0
NoRepeat [] = Unit
NoRepeat (w ∷ ws) = (maintained w ws ≡ false) × NoRepeat ws

-- A row that the statement meets is the one that `candle_after` says, and no other changes.
abbrev pub Upserted :
    CandleKey → Text → ℤ → ℤ → ℤ → List ℕ → Option CandleRow → Option CandleRow → Type 0
Upserted k pair secs price qty ws o o' =
    ((lands k pair secs ws ≡ false) × (o' ≡ o))
    ⊎ ((c : CandleRow) × (lands k pair secs ws ≡ true)
        × (candle_after price qty o ≡ some c)
        × (o' ≡ some c))

lands_hit :
    (k : CandleKey) (pair : Text) (secs : ℤ) (w : ℕ) (ws : List ℕ)
    → candle_eqb k (pair, w, bucket_of secs w) ≡ true
    → maintained w ws ≡ false
    → (lands k pair secs (w ∷ ws) ≡ true) × (lands k pair secs ws ≡ false)
lands_hit (p, v, b) pair secs w ws hit once = ground (
  arith,
  nat_eqb_iff v w,
  int_eqb_iff b (bucket_of secs w),
  ap (λ n. maintained n ws) ((nat_eqb_iff v w).0 (ground arith)),
  ap (λ n. bucket_of secs n) ((nat_eqb_iff v w).0 (ground arith)),
)

lands_miss :
    (k : CandleKey) (pair : Text) (secs : ℤ) (w : ℕ) (ws : List ℕ)
    → candle_eqb k (pair, w, bucket_of secs w) ≡ false
    → lands k pair secs (w ∷ ws) ≡ lands k pair secs ws
lands_miss (p, v, b) pair secs w ws miss = elim (Bool-cases (nat_eqb v w)) [
  | inl same ↦ ground (arith, ap (λ n. bucket_of secs n) ((nat_eqb_iff v w).0 same))
  | inr other ↦ ground arith
]

pub upsert_widths-Upserted :
    (k : CandleKey) (pair : Text) (secs price qty : ℤ) (ws : List ℕ)
    (m m' : HashMap CandleKey CandleRow)
    → NoRepeat ws
    → upsert_widths pair secs price qty ws m ≡ some m'
    → Upserted k pair secs price qty ws (HashMap.get k m) (HashMap.get k m')
unfolding upsert_widths upsert_candle
upsert_widths-Upserted k pair secs price qty [] m m' distinct e = inl (ground arith, ground arith)
upsert_widths-Upserted k pair secs price qty (w ∷ ws) m m' distinct e =
    elim (Option-cases (candle_after price qty (HashMap.get (pair, w, bucket_of secs w) m))) [
      | inl failed ↦ absurd (
          let no : ◌≡◌ {A = Option (HashMap CandleKey CandleRow)} none (some m') = ground arith in
          cc)
      | inr (c, after) ↦
          let rest : upsert_widths pair secs price qty ws
                (HashMap.insert (pair, w, bucket_of secs w) c m)
              ≡ some m' =
            ground arith in
          let ih = upsert_widths-Upserted k pair secs price qty ws _ m' distinct.1 rest in
          let written = HashMap.get-insert k (pair, w, bucket_of secs w) c m in
          elim (Bool-cases (candle_eqb k (pair, w, bucket_of secs w))) [
            | inl hit ↦
                let (here, later) = lands_hit k pair secs w ws hit distinct.0 in
                let same = (candle_eqb_iff k (pair, w, bucket_of secs w)).0 hit in
                inr (
                  c,
                  here,
                  ap (λ j. candle_after price qty (HashMap.get j m)) same ∙ after,
                  elim ih [
                    | inl kept ↦ kept.1 ∙ written ∙ rw hit
                    | inr found ↦ absurd (let no : true ≡ false = sym found.1 ∙ later in cc)
                  ],
                )
            | inr miss ↦
                let unchanged : HashMap.get k (HashMap.insert (pair, w, bucket_of secs w) c m)
                    ≡ HashMap.get k m =
                  written ∙ rw miss in
                let same_lands = lands_miss k pair secs w ws miss in
                elim ih [
                  | inl kept ↦ inl (same_lands ∙ kept.0, kept.1 ∙ unchanged)
                  | inr (d, found, adds, sets) ↦ inr (
                    d,
                    same_lands ∙ found,
                    ap (candle_after price qty) (sym unchanged) ∙ adds,
                    sets,
                  )
                ]
          ]
    ]

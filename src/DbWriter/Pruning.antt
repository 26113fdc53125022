-- ===== src/DbWriter/Pruning.antt =====
-- bin/db_writer.rs, `prune` and `sweep`: what a sweep deletes.
use cex_matching_engine.Prelude.{
  refl, ℕ, zero, suc, ◌+◌, ◌*◌, ◌≤◌, ◌≡◌, min, List, [], ◌∷◌, arith, inl, inr, Bool-cases, Bool,
  ltb, if◌then◌else◌, nat_eqb,
}
use cex_matching_engine.DbWriter.Retention.{
  delete_limit, prune_batches, retention_batch, prune, sweep, Retention, retention_max_batches,
  order_expired, cutoff, trade_expired, candle_expired,
}
use cex_matching_engine.Prelude.Int.{ℤ}
use cex_matching_engine.DbWriter.Tables.{Database}

module _ {ℓ} {A : Type ℓ} (expired : A → Bool) where
  -- How many rows are expired, and those that are not.
  abbrev pub expired_count : List A → ℕ
  expired_count [] = 0
  expired_count (x ∷ xs) = (if expired x then 1 else 0) + expired_count xs

  abbrev pub unexpired : List A → List A
  unexpired [] = []
  unexpired (x ∷ xs) = if expired x then unexpired xs else x ∷ unexpired xs

  delete_limit_lem :
      (limit : ℕ) (rows : List A)
      → ((delete_limit expired limit rows).1 ≡ min limit (expired_count rows))
        × (expired_count (delete_limit expired limit rows).0 + (delete_limit expired limit rows).1
            ≡ expired_count rows)
        × (unexpired (delete_limit expired limit rows).0 ≡ unexpired rows)
  unfolding delete_limit
  delete_limit_lem limit [] = (ground arith, ground arith, refl)
  delete_limit_lem zero (x ∷ xs) = (ground arith, ground arith, refl)
  delete_limit_lem (suc n) (x ∷ xs) = elim (Bool-cases (expired x)) [
    | inl old ↦ let (deleted, left, kept) = delete_limit_lem n xs in ground arith
    | inr new ↦ let (deleted, left, kept) = delete_limit_lem (suc n) xs in ground arith
  ]

  -- The total of `n` batches, and the rows that they leave.
  prune_batches_lem :
      (n total : ℕ) (rows : List A)
      → let (left, sum, ran) = prune_batches expired n total rows in
        (sum ≡ total + min (n * retention_batch) (expired_count rows))
        × (expired_count left + sum ≡ total + expired_count rows)
        × (unexpired left ≡ unexpired rows)
        × (ran ≤ n)
  unfolding prune_batches
  prune_batches_lem zero total rows = (ground arith, ground arith, refl, ground arith)
  prune_batches_lem (suc n) total rows =
      let (deleted, left, kept) = delete_limit_lem retention_batch rows in
      let (sum, more, same, steps) =
        prune_batches_lem n (total + (delete_limit expired retention_batch rows).1)
          (delete_limit expired retention_batch rows).0 in
      elim (Bool-cases (ltb (delete_limit expired retention_batch rows).1 retention_batch)) [
        | inl short ↦ rw short (ground arith, ground arith, kept, ground arith)
        | inr full ↦ rw full (ground arith, ground arith, ground arith, ground arith)
      ]

  -- With 0 days nothing is deleted; else the expired rows are, up to 100,000 of them, in at most
  -- twenty statements; and the rows that are not expired stay, in their order.
  pub prune_bounds :
      (days : ℕ) (rows : List A)
      → let (left, total, ran) = prune expired days rows in
        (total ≡ (if nat_eqb days 0 then 0 else min 100000 (expired_count rows)))
        × (expired_count left + total ≡ expired_count rows)
        × (unexpired left ≡ unexpired rows)
        × (ran ≤ 20)
  unfolding prune
  prune_bounds days rows =
      let (total, left, kept, ran) = prune_batches_lem retention_max_batches 0 rows in
      elim (Bool-cases (nat_eqb days 0)) [
        | inl off ↦ rw off (refl, ground arith, refl, ground arith)
        | inr on ↦ rw on (ground arith, ground arith, kept, ran)
      ]

-- A sweep keeps the rows of each table that are not expired, in their order, and every balance.
pub sweep-unexpired :
    (r : Retention) (now : ℤ) (updated_at : ℕ → ℤ) (db : Database)
    → let swept = sweep r now updated_at db in
      let old_order = order_expired updated_at (cutoff now r.order_days) in
      let old_trade = trade_expired (cutoff now r.trade_days) in
      let old_candle = candle_expired (cutoff now r.candle_1s_days) in
      (unexpired old_order swept.orders ≡ unexpired old_order db.orders)
      × (unexpired old_trade swept.trades ≡ unexpired old_trade db.trades)
      × (unexpired old_candle swept.candles ≡ unexpired old_candle db.candles)
      × (swept.balances ≡ db.balances)
unfolding sweep
sweep-unexpired r now updated_at db = (
  (prune_bounds (order_expired updated_at (cutoff now r.order_days)) r.order_days db.orders).2,
  (prune_bounds (trade_expired (cutoff now r.trade_days)) r.trade_days db.trades).2,
  (prune_bounds (candle_expired (cutoff now r.candle_1s_days)) r.candle_1s_days db.candles).2,
  refl,
)

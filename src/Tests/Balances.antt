-- ===== src/Tests/Balances.antt =====
-- The ledger on small inputs.
use cex_matching_engine.Prelude.{◌≡◌, some, [], ◌∷◌, arith, ◌<◌, ◌≤◌, u64_mod, ◌+◌}
use cex_matching_engine.Market.{AccountId, Currency, usd, sol}
use cex_matching_engine.Prelude.HashMap
use cex_matching_engine.Book.Types.{bid, Trade}
use cex_matching_engine.Tests.Sample.{sol_usd, two_accounts}
use cex_matching_engine.Engine.State.{Engine, new_engine}
use cex_matching_engine.Engine.Operations.{deposit}
use cex_matching_engine.Engine.Faucet.{Deposited, deposit-Deposited, worth_of}
use cex_matching_engine.Prelude.{◌<◌, ◌≤◌}
use cex_matching_engine.Ledger.Total.{total}
use cex_matching_engine.Ledger.{balance_of, Ledger}
use cex_matching_engine.Engine.Settling.{CoversAll, all_pays, all_receives, settle_all-pays}
use cex_matching_engine.Ledger.Settlement.{Covers}
use cex_matching_engine.Engine.Operations.{settle_all}
use cex_matching_engine.Ledger.Balances.{reserved_of, available_of}

abbrev sale : Trade
sale = record {
  pair = sol_usd;
  price = 100;
  qty = 5;
  maker_id = 0;
  taker_id = 1;
  taker_side = bid;
  maker_account = 2;
  taker_account = 1;
}

totals_bounded : (c : Currency) → total c two_accounts < u64_mod
unfolding total HashMap.get_or HashMap.get
totals_bounded usd = omega arith
totals_bounded sol = omega arith

sale-Covers : Covers sol_usd sale two_accounts
unfolding balance_of HashMap.get_or HashMap.get
sale-Covers = record {
  distinct = λ e. cc;
  quote_covered = omega arith;
  base_covered = omega arith;
  bounded = totals_bounded;
}

sale_covered :
    (a : AccountId) (c : Currency) → all_pays sol_usd (sale ∷ []) a c ≤ reserved_of a c two_accounts
unfolding balance_of HashMap.get_or HashMap.get
sale_covered a usd = ground arith
sale_covered a sol = ground arith

sale-CoversAll : CoversAll sol_usd (sale ∷ []) two_accounts
sale-CoversAll = record { distinct = λ e. cc; covered = sale_covered; bounded = totals_bounded }

settle_all-pays_example :
    (l' : Ledger) × (settle_all sol_usd (sale ∷ []) two_accounts ≡ some l')
    × ((a : AccountId) (c : Currency)
        → (reserved_of a c l' + all_pays sol_usd (sale ∷ []) a c ≡ reserved_of a c two_accounts)
          × (available_of a c l'
              ≡ available_of a c two_accounts + all_receives sol_usd (sale ∷ []) a c)
          × (total c l' ≡ total c two_accounts))
settle_all-pays_example = settle_all-pays sol_usd (sale ∷ []) two_accounts sale-CoversAll

abbrev funded : Engine
funded = record new_engine { ledger = two_accounts }

funded_fits : worth_of 1 usd two_accounts < u64_mod
unfolding balance_of HashMap.get_or HashMap.get
funded_fits = omega arith

deposit-Deposited_example :
    Deposited 1
      (record { amount = 70; currency = usd })
      funded
      (deposit 1 (record { amount = 70; currency = usd }) funded)
deposit-Deposited_example =
    deposit-Deposited 1 (record { amount = 70; currency = usd }) funded funded_fits

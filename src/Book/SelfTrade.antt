-- ===== src/Book/SelfTrade.antt =====
-- `would_self_trade` predicts what `add_order` would do.
use cex_matching_engine.Prelude.{
  ◌||◌, leb, ℕ, ◌-◌, ◌<◌, ◌≡◌, refl, List, [], ◌∷◌, ◌++◌, arith, Bool, true, false, nat_eqb,
  if◌then◌else◌, Bool-cases, inl, inr, ◌∙◌, saturating_sub, map, sym, ap, reverse,
}
use cex_matching_engine.Market.{AccountId, Pair}
use cex_matching_engine.Book.Types.{
  Order, Trade, OrderRequest, OrderBook, Side, order_type_eqb, market, bid, ask,
}
use cex_matching_engine.Book.Levels.{Scan, answer, go_on, scan_level, scan, would_self_trade}
use cex_matching_engine.Book.Matching.{trade_of, add_order, new_order}
use cex_matching_engine.Book.Fills.{Fill, fills, fills-zero}
use cex_matching_engine.Book.Sides.{Level, facing}
use cex_matching_engine.Book.Reach.{crosses, reachable}
use cex_matching_engine.Prelude.BTreeMap.{IsSorted}
use cex_matching_engine.Book.Queue.{fill_trade}
use cex_matching_engine.Book.Priority.{makers, taker, add_order-fills}

-- Whether some fill takes from an order of the account.
abbrev pub any_own : AccountId → List Fill → Bool
any_own account_id [] = false
any_own account_id (f ∷ fs) =
    if nat_eqb f.0.account_id account_id then true else any_own account_id fs

-- What the scan of a level says of the fills from that level on.
abbrev Says : AccountId → ℕ → List Order → List Order → Scan → Type 0
Says a n q later (answer b) = any_own a (fills n (q ++ later)) ≡ b
Says a n q later (go_on left) =
    (0 < left) × (any_own a (fills n (q ++ later)) ≡ any_own a (fills left later))

-- A maker of another account that leaves something of the order is passed over.
Says-pass :
    (a : AccountId) (n : ℕ) (m : Order) (q later : List Order) (s : Scan)
    → any_own a (fills n (m ∷ q ++ later)) ≡ any_own a (fills (n - m.remaining_size) (q ++ later))
    → Says a (n - m.remaining_size) q later s
    → Says a n (m ∷ q) later s
Says-pass a n m q later (answer b) e h = e ∙ h
Says-pass a n m q later (go_on left) e h = (h.0, e ∙ h.1)

scan_level-Says :
    (a : AccountId) (n : ℕ) (q later : List Order) → 0 < n → Says a n q later (scan_level a n q)
unfolding scan_level fills saturating_sub
scan_level-Says a n [] later h = (h, refl)
scan_level-Says a n (m ∷ q) later h = elim (Bool-cases (nat_eqb m.account_id a)) [
  | inl same ↦ rw same (ground arith)
  | inr other ↦ rw other (elim (Bool-cases (nat_eqb (n - m.remaining_size) 0)) [
    | inl full ↦ rw full (ground (arith, fills-zero (q ++ later)))
    | inr more ↦ rw more (
        Says-pass a n m q later (scan_level a (n - m.remaining_size) q) (ground arith)
          (scan_level-Says a (n - m.remaining_size) q later (ground arith)))
  ])
]

module _ (a : AccountId) (t : Order) (within : ℕ → Bool)
    (agree : (p : ℕ) → within p ≡ crosses t p) where
  scan-step :
      (n p : ℕ) (q : List Order) (ls : List Level) (s : Scan)
      → scan_level a n q ≡ s
      → Says a n q (reachable t ls) s
      → ((left : ℕ) → 0 < left → scan a within left ls ≡ any_own a (fills left (reachable t ls)))
      → scan a within n ((p, q) ∷ ls) ≡ any_own a (fills n (reachable t ((p, q) ∷ ls)))
  unfolding scan reachable fills
  scan-step n p q ls (answer b) e says later = ground (arith, agree p)
  scan-step n p q ls (go_on left) e says later = ground (arith, agree p, later left)

  scan-any_own :
      (n : ℕ) (ls : List Level) → 0 < n → scan a within n ls ≡ any_own a (fills n (reachable t ls))
  unfolding scan reachable fills
  scan-any_own n [] h = refl
  scan-any_own n ((p, q) ∷ ls) h =
      scan-step n p q ls (scan_level a n q) refl (scan_level-Says a n q (reachable t ls) h)
        (λ left h'. scan-any_own left ls h')

-- Whether some trade has the account as its maker.
abbrev pub any_maker : AccountId → List Trade → Bool
any_maker account_id [] = false
any_maker account_id (t ∷ ts) =
    if nat_eqb t.maker_account account_id then true else any_maker account_id ts

any_maker-fill_trade :
    (a : AccountId) (pair : Pair) (t : Order) (fs : List Fill)
    → any_maker a (map (fill_trade pair t) fs) ≡ any_own a fs
unfolding trade_of
any_maker-fill_trade a pair t [] = refl
any_maker-fill_trade a pair t (f ∷ fs) = ground (arith, any_maker-fill_trade a pair t fs)

module _ (order_id : ℕ) (a : AccountId) (req : OrderRequest) (book : OrderBook) where
  any_price : Bool
  any_price = order_type_eqb req.order_type market

  agree_bid :
      req.side ≡ bid
      → (p : ℕ) → (any_price || leb p req.price) ≡ crosses (taker order_id a req book) p
  unfolding new_order any_price
  agree_bid e p = ground arith

  agree_ask :
      req.side ≡ ask
      → (p : ℕ) → (any_price || leb req.price p) ≡ crosses (taker order_id a req book) p
  unfolding new_order any_price
  agree_ask e p = ground arith

  would_self_trade-makers :
      (s : Side)
      → req.side ≡ s
      → 0 < req.size
      → would_self_trade a req book ≡ any_own a (fills req.size (makers order_id a req book))
  unfolding would_self_trade any_price
  would_self_trade-makers bid e h =
      simp (e, would_self_trade)
        (scan-any_own a (taker order_id a req book) _ (agree_bid e) req.size book.asks h)
  would_self_trade-makers ask e h =
      simp (e, would_self_trade)
        (scan-any_own a (taker order_id a req book) _ (agree_ask e) req.size (reverse book.bids) h)

  -- For an order of some size and a book in order, `would_self_trade` answers whether `add_order`
  -- would record a trade against a maker of the same account.
  pub would_self_trade-add_order :
      IsSorted (facing req.side book)
      → 0 < req.size
      → would_self_trade a req book ≡ any_maker a (add_order order_id a req book).0.trades
  would_self_trade-add_order sorted h =
      would_self_trade-makers req.side refl h
      ∙ sym (
          any_maker-fill_trade a req.pair (taker order_id a req book)
            (fills req.size (makers order_id a req book)))
      ∙ ap (any_maker a) (sym (add_order-fills order_id a req book sorted).0)

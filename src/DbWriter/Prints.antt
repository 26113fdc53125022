-- ===== src/DbWriter/Prints.antt =====
-- bin/db_writer.rs: what a candle says of the trades in its bucket, and one more trade.
use cex_matching_engine.Prelude.{
  refl, subst, ◌≡◌, Option, none, some, List, [], ◌∷◌, ◌++◌, arith, inl, inr, ◌⊎◌, Bool-cases, All,
  sym, ◌∙◌, ap,
}
use cex_matching_engine.Prelude.Int.{ℤ, pos, ◌+ℤ◌, ◌≤ℤ◌, int_laws, ltb_ℤ, +ℤ_assoc, add_pos_zero}
use cex_matching_engine.DbWriter.Tables.{
  CandleRow, candle_eq, candle_after, new_candle, merged, greatest, least,
}

-- A trade, as a candle reads it.
pub record Print : Type 0 where
  pub price : ℤ
  pub qty : ℤ

abbrev last_price : Print → List Print → ℤ
last_price p [] = p.price
last_price p (q ∷ ps) = last_price q ps

abbrev volume_of : List Print → ℤ
volume_of [] = pos 0
volume_of (p ∷ ps) = p.qty +ℤ volume_of ps

abbrev Somewhere : ℤ → List Print → Type 0
Somewhere x [] = ⊥
Somewhere x (p ∷ ps) = (p.price ≡ x) ⊎ Somewhere x ps

-- A candle over prints in the order of their arrival.
pub record Summarises (c : CandleRow) (p : Print) (ps : List Print) : Type 0 where
  pub opens : c.open_price ≡ p.price
  pub closes : c.close ≡ last_price p ps
  pub above : All (λ q. q.price ≤ℤ c.high) (p ∷ ps)
  pub reached_above : Somewhere c.high (p ∷ ps)
  pub below : All (λ q. c.low ≤ℤ q.price) (p ∷ ps)
  pub reached_below : Somewhere c.low (p ∷ ps)
  pub traded : c.volume ≡ volume_of (p ∷ ps)

-- No prints, no candle.
abbrev pub Charted : List Print → Option CandleRow → Type 0
Charted [] o = o ≡ none
Charted (p ∷ ps) o = (c : CandleRow) × (o ≡ some c) × Summarises c p ps

last_price-snoc : (p q : Print) (ps : List Print) → last_price p (ps ++ q ∷ []) ≡ q.price
last_price-snoc p q [] = refl
last_price-snoc p q (r ∷ ps) = last_price-snoc r q ps

volume_of-snoc : (ps : List Print) (q : Print) → volume_of (ps ++ q ∷ []) ≡ volume_of ps +ℤ q.qty
volume_of-snoc [] q = omega int_laws
volume_of-snoc (p ∷ ps) q =
    ap (λ v. p.qty +ℤ v) (volume_of-snoc ps q) ∙ sym (+ℤ_assoc p.qty (volume_of ps) q.qty)

Somewhere-snoc_old :
    (x : ℤ) (ps : List Print) (q : Print) → Somewhere x ps → Somewhere x (ps ++ q ∷ [])
Somewhere-snoc_old x [] q h = elim h [ ]
Somewhere-snoc_old x (p ∷ ps) q (inl here) = inl here
Somewhere-snoc_old x (p ∷ ps) q (inr there) = inr (Somewhere-snoc_old x ps q there)

Somewhere-snoc_new :
    (x : ℤ) (ps : List Print) (q : Print) → q.price ≡ x → Somewhere x (ps ++ q ∷ [])
Somewhere-snoc_new x [] q e = inl e
Somewhere-snoc_new x (p ∷ ps) q e = inr (Somewhere-snoc_new x ps q e)

All-snoc_above :
    (x y : ℤ) (ps : List Print) (q : Print)
    → All (λ p. p.price ≤ℤ x) ps
    → x ≤ℤ y
    → q.price ≤ℤ y
    → All (λ p. p.price ≤ℤ y) (ps ++ q ∷ [])
All-snoc_above x y [] q h le last = (last, tt)
All-snoc_above x y (p ∷ ps) q h le last = (omega arith, All-snoc_above x y ps q h.1 le last)

All-snoc_below :
    (x y : ℤ) (ps : List Print) (q : Print)
    → All (λ p. x ≤ℤ p.price) ps
    → y ≤ℤ x
    → y ≤ℤ q.price
    → All (λ p. y ≤ℤ p.price) (ps ++ q ∷ [])
All-snoc_below x y [] q h le last = (last, tt)
All-snoc_below x y (p ∷ ps) q h le last = (omega arith, All-snoc_below x y ps q h.1 le last)

-- One more print in the bucket.
merged-Summarises :
    (c c' : CandleRow) (p q : Print) (ps : List Print)
    → Summarises c p ps
    → merged q.price q.qty c ≡ some c'
    → Summarises c' p (ps ++ q ∷ [])
unfolding merged
merged-Summarises c c' p q ps s e =
    let high : c'.high ≡ greatest c.high q.price = ground arith in
    let low : c'.low ≡ least c.low q.price = ground arith in
    let volume : c'.volume ≡ c.volume +ℤ q.qty = ground arith in
    record {
      opens = ground arith;
      closes = ground (arith, last_price-snoc p q ps);
      above = All-snoc_above c.high c'.high (p ∷ ps) q s.above (ground arith) (ground arith);
      reached_above = elim (Bool-cases (ltb_ℤ c.high q.price)) [
        | inl new ↦ Somewhere-snoc_new c'.high (p ∷ ps) q (ground arith)
        | inr old ↦
            let same : c'.high ≡ c.high = ground arith in
            Somewhere-snoc_old c'.high (p ∷ ps) q
              (subst (λ x. Somewhere x (p ∷ ps)) (sym same) s.reached_above)
      ];
      below = All-snoc_below c.low c'.low (p ∷ ps) q s.below (ground arith) (ground arith);
      reached_below = elim (Bool-cases (ltb_ℤ q.price c.low)) [
        | inl new ↦ Somewhere-snoc_new c'.low (p ∷ ps) q (ground arith)
        | inr old ↦
            let same : c'.low ≡ c.low = ground arith in
            Somewhere-snoc_old c'.low (p ∷ ps) q
              (subst (λ x. Somewhere x (p ∷ ps)) (sym same) s.reached_below)
      ];
      traded = volume ∙ ap (λ v. v +ℤ q.qty) s.traded ∙ sym (volume_of-snoc (p ∷ ps) q);
    }

pub candle_after-Charted :
    (ps : List Print) (q : Print) (o : Option CandleRow) (c : CandleRow)
    → Charted ps o
    → candle_after q.price q.qty o ≡ some c
    → Charted (ps ++ q ∷ []) (some c)
unfolding candle_after
candle_after-Charted [] q o c h e =
    let same : c ≡ new_candle q.price q.qty = ground arith in
    let volume : c.volume ≡ q.qty = ground arith in
    (
      c,
      refl,
      record {
        opens = ground arith;
        closes = ground arith;
        above = (ground arith, tt);
        reached_above = inl (ground arith);
        below = (ground arith, tt);
        reached_below = inl (ground arith);
        traded = volume ∙ sym (add_pos_zero q.qty);
      },
    )
candle_after-Charted (p ∷ ps) q o c (before, there, s) e =
    let merges : merged q.price q.qty before ≡ some c =
      ap (candle_after q.price q.qty) (sym there) ∙ e in
    (c, refl, merged-Summarises before c p q ps s merges)

-- ===== src/DbWriter/OrderRows.antt =====
-- bin/db_writer.rs: a run over events and the row of an order; twice over is as once where each
-- event that changes a row found it.
use cex_matching_engine.Prelude.{
  refl, ℕ, ◌≡◌, ◌≢◌, Option, none, some, [], ◌∷◌, if◌then◌else◌, arith, nat_eqb, ◌⊎◌, inl, inr, ◌∙◌,
  ap, Option-cases, nat_eqb_iff, Bool-cases, sym, nat_eq,
}
use cex_matching_engine.Prelude.HashMap
use cex_matching_engine.Prelude.HashMap.{HashMap, or_else}
use cex_matching_engine.Prelude.Text.{Text, codes}
use cex_matching_engine.Book.Types.{show_status}
use cex_matching_engine.Command.{
  Event, trade, balance_changed, order_accepted, order_cancelled, order_updated, book_delta,
}
use cex_matching_engine.DbWriter.Tables.{
  OrderRow, insert_order, update_order, cancelled_row, updated_row, open_row,
}
use cex_matching_engine.DbWriter.Stored.{Events, orders_step, orders_after}

-- Each event that changes a row finds it.
abbrev Found : Event → HashMap ℕ OrderRow → Type 0
Found (order_cancelled id) m = HashMap.get id m ≢ none
Found (order_updated u) m = HashMap.get u.order_id m ≢ none
Found _ m = Unit

abbrev pub AllFound : Events → HashMap ℕ OrderRow → Type 0
AllFound [] m = Unit
AllFound ((id, e) ∷ es) m = Found e m × AllFound es (orders_step e m)

abbrev changed : (OrderRow → OrderRow) → Option OrderRow → Option OrderRow
changed f none = none
changed f (some row) = some (f row)

order_step : ℕ → Event → Option OrderRow → Option OrderRow
order_step k (order_accepted a) o =
    if nat_eqb k a.order_id then some (or_else (open_row a) o) else o
order_step k (order_cancelled id) o = if nat_eqb k id then changed cancelled_row o else o
order_step k (order_updated u) o = if nat_eqb k u.order_id then changed (updated_row u) o else o
order_step k (trade t) o = o
order_step k (balance_changed b) o = o
order_step k (book_delta d) o = o

pub order_after : ℕ → Events → Option OrderRow → Option OrderRow
order_after k [] o = o
order_after k ((id, e) ∷ es) o = order_after k es (order_step k e o)

get-update_order :
    (k id : ℕ) (f : OrderRow → OrderRow) (m : HashMap ℕ OrderRow)
    → HashMap.get k (update_order id f m)
      ≡ (if nat_eqb k id then changed f (HashMap.get k m) else HashMap.get k m)
unfolding update_order
get-update_order k id f m = elim (Option-cases (HashMap.get id m)) [
  | inl missing ↦ ground (arith, nat_eqb_iff k id)
  | inr (row, there) ↦ ground (arith, nat_eqb_iff k id, HashMap.get-insert k id (f row) m)
]

get-orders_step :
    (k : ℕ) (e : Event) (m : HashMap ℕ OrderRow)
    → HashMap.get k (orders_step e m) ≡ order_step k e (HashMap.get k m)
unfolding orders_step order_step insert_order
get-orders_step k (order_accepted a) m = elim (Option-cases (HashMap.get a.order_id m)) [
  | inl missing ↦
      ground (arith, nat_eqb_iff k a.order_id, HashMap.get-insert k a.order_id (open_row a) m)
  | inr (row, there) ↦ ground (arith, nat_eqb_iff k a.order_id)
]
get-orders_step k (order_cancelled id) m = get-update_order k id cancelled_row m
get-orders_step k (order_updated u) m = get-update_order k u.order_id (updated_row u) m
get-orders_step k (trade t) m = refl
get-orders_step k (balance_changed b) m = refl
get-orders_step k (book_delta d) m = refl

pub get-orders_after :
    (k : ℕ) (es : Events) (m : HashMap ℕ OrderRow)
    → HashMap.get k (orders_after es m) ≡ order_after k es (HashMap.get k m)
unfolding orders_after order_after
get-orders_after k [] m = refl
get-orders_after k ((id, e) ∷ es) m =
    get-orders_after k es (orders_step e m) ∙ ap (order_after k es) (get-orders_step k e m)

-- What a run does to a row that is there: it sets the status, the filled quantity, or neither.
abbrev written : Option Text → Option ℕ → OrderRow → OrderRow
written status filled row = record row {
  status = or_else row.status status;
  filled_qty = or_else row.filled_qty filled;
}

abbrev Writes : (Option OrderRow → Option OrderRow) → Type 0
Writes f =
    (status : Option Text) × (filled : Option ℕ) × ((row : OrderRow)
      → f (some row) ≡ some (written status filled row))

order_step-Writes : (k : ℕ) (e : Event) → Writes (order_step k e)
unfolding order_step
order_step-Writes k (order_accepted a) = (none, none, λ row. ground arith)
order_step-Writes k (order_cancelled id) = elim (Bool-cases (nat_eqb k id)) [
  | inl same ↦ (some (codes "cancelled"), none, λ row. rw same)
  | inr other ↦ (none, none, λ row. rw other)
]
order_step-Writes k (order_updated u) = elim (Bool-cases (nat_eqb k u.order_id)) [
  | inl same ↦ (some (show_status u.status), some u.filled_qty, λ row. rw same)
  | inr other ↦ (none, none, λ row. rw other)
]
order_step-Writes k (trade t) = (none, none, λ row. refl)
order_step-Writes k (balance_changed b) = (none, none, λ row. refl)
order_step-Writes k (book_delta d) = (none, none, λ row. refl)

abbrev later {ℓ} : {A : Type ℓ} → Option A → Option A → Option A
later first none = first
later first (some a) = some a

written_twice :
    (s t : Option Text) (f g : Option ℕ) (row : OrderRow)
    → written t g (written s f row) ≡ written (later s t) (later f g) row
written_twice s t f g row = ground arith

order_after-Writes : (k : ℕ) (es : Events) → Writes (order_after k es)
unfolding order_after
order_after-Writes k [] = (none, none, λ row. refl)
order_after-Writes k ((id, e) ∷ es) =
    let (s, f, here) = order_step-Writes k e in
    let (t, g, rest) = order_after-Writes k es in
    (
      later s t,
      later f g,
      λ row.
          ap (order_after k es) (here row)
          ∙ rest (written s f row)
          ∙ ap some (written_twice s t f g row),
    )

written_idem :
    (s : Option Text) (f : Option ℕ) (row : OrderRow)
    → written s f (written s f row) ≡ written s f row
written_idem none none row = refl
written_idem none (some n) row = refl
written_idem (some t) none row = refl
written_idem (some t) (some n) row = refl

order_after-again :
    (k : ℕ) (es : Events) (row : OrderRow)
    → order_after k es (order_after k es (some row)) ≡ order_after k es (some row)
order_after-again k es row =
    let (s, f, writes) = order_after-Writes k es in
    ap (order_after k es) (writes row)
    ∙ writes (written s f row)
    ∙ ap some (written_idem s f row)
    ∙ sym (writes row)

-- Where the row is not there: it stays so, or a run writes one that a second run keeps.
order_after-none :
    (k : ℕ) (es : Events) (m : HashMap ℕ OrderRow)
    → AllFound es m
    → HashMap.get k m ≡ none
    → (order_after k es none ≡ none)
      ⊎ ((row : OrderRow) × (order_after k es none ≡ some row)
          × (order_after k es (some row) ≡ some row))
unfolding order_after order_step
order_after-none k [] m found missing = inl refl
order_after-none k ((id, order_accepted a) ∷ es) m found missing =
    let same_row = get-orders_step k (order_accepted a) m in
    elim (Bool-cases (nat_eqb k a.order_id)) [
      | inl same ↦
          let (s, f, writes) = order_after-Writes k es in
          inr (
            written s f (open_row a),
            rw same (writes (open_row a)),
            rw same (writes (written s f (open_row a)) ∙ ap some (written_idem s f (open_row a))),
          )
      | inr other ↦
          let rest =
            order_after-none k es (orders_step (order_accepted a) m) found.1 (ground arith) in
          rw other rest
    ]
order_after-none k ((id, order_cancelled target) ∷ es) m found missing =
    let same_row = get-orders_step k (order_cancelled target) m in
    elim (Bool-cases (nat_eqb k target)) [
      | inl same ↦ absurd (found.0 (ground (arith, nat_eqb_iff k target)))
      | inr other ↦
          rw other
            (order_after-none k es (orders_step (order_cancelled target) m) found.1 (ground arith))
    ]
order_after-none k ((id, order_updated u) ∷ es) m found missing =
    let same_row = get-orders_step k (order_updated u) m in
    elim (Bool-cases (nat_eqb k u.order_id)) [
      | inl same ↦ absurd (found.0 (ground (arith, nat_eqb_iff k u.order_id)))
      | inr other ↦
          rw other (order_after-none k es (orders_step (order_updated u) m) found.1 (ground arith))
    ]
order_after-none k ((id, trade t) ∷ es) m found missing =
    order_after-none k es (orders_step (trade t) m) found.1
      (get-orders_step k (trade t) m ∙ missing)
order_after-none k ((id, balance_changed b) ∷ es) m found missing =
    order_after-none k es (orders_step (balance_changed b) m) found.1
      (get-orders_step k (balance_changed b) m ∙ missing)
order_after-none k ((id, book_delta d) ∷ es) m found missing =
    order_after-none k es (orders_step (book_delta d) m) found.1
      (get-orders_step k (book_delta d) m ∙ missing)

pub order_after_twice :
    (k : ℕ) (es : Events) (m : HashMap ℕ OrderRow)
    → AllFound es m
    → order_after k es (order_after k es (HashMap.get k m)) ≡ order_after k es (HashMap.get k m)
order_after_twice k es m found = elim (Option-cases (HashMap.get k m)) [
  | inr (row, there) ↦ rw there (order_after-again k es row)
  | inl missing ↦ elim (order_after-none k es m found missing) [
    | inl stays ↦ rw missing (ap (order_after k es) stays)
    | inr (row, once, again) ↦ rw missing (ap (order_after k es) once ∙ again ∙ sym once)
  ]
]

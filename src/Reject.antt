-- ===== src/Reject.antt =====
-- error.rs: why the engine turns a command down, and results that carry such a reason.
pub data RejectReason : Type 0 where
  insufficient_funds unsupported_order_type invalid_amount invalid_pair : RejectReason
  deposit_limit_exceeded price_out_of_band self_trade : RejectReason

pub data Result {ℓ} (A : Type ℓ) : Type ℓ where
  ok : A → Result A
  err : RejectReason → Result A

infixl 5 ◌>>=◌
abbrev pub ◌>>=◌ {ℓ κ} : {A : Type ℓ} {B : Type κ} → Result A → (A → Result B) → Result B
ok a >>= f = f a
err e >>= f = err e

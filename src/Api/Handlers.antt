-- ===== src/Api/Handlers.antt =====
-- bin/api/main.rs: the handlers that submit a command, from the headers of a request and its body.
-- What a submission brings is an argument of the answer.
use cex_matching_engine.Prelude.{ℕ, none, some, nat_eqb, if◌then◌else◌}
use cex_matching_engine.Prelude.Text.{Text, codes}
use cex_matching_engine.Market.{AccountId, Currency, Pair}
use cex_matching_engine.Market.Symbol.{parse_pair}
use cex_matching_engine.Book.Types.{OrderType, Side}
use cex_matching_engine.Command.{Command, CommandResponse}
use cex_matching_engine.Api.{ApiError, Response, error_response, response_for}
use cex_matching_engine.Api.Auth.{Jwt, Headers, Outcome, done, failed, auth_user, client_order_id}

pub record PlaceOrderBody : Type 0 where
  pub pair : Pair
  pub order_type : OrderType
  pub side : Side
  pub price : ℕ
  pub size : ℕ

pub record DepositBody : Type 0 where
  pub amount : ℕ
  pub currency : Currency

pub record WithdrawBody : Type 0 where
  pub amount : ℕ
  pub currency : Currency

-- A handler answers at once, or submits a command under an account and a client's key.
pub data Action : Type 0 where
  respond : Response → Action
  submit : AccountId → ℕ → Command → Action

-- The `match` on what a submission brought, the same in every handler.
unfoldable pub answer : Outcome CommandResponse → Response
unfolding response_for
answer (done resp) = response_for resp
answer (failed e) = error_response e

unfoldable pub place_order : AccountId → ℕ → PlaceOrderBody → Action
place_order account_id key body = submit account_id key (
    Command.place (record {
      pair = body.pair;
      order_type = body.order_type;
      side = body.side;
      price = body.price;
      size = body.size;
    }))

unfoldable pub cancel_order : AccountId → ℕ → ℕ → Action
cancel_order account_id key order_id =
    submit account_id key (Command.cancel (record { order_id = order_id }))

unfoldable pub deposit : AccountId → ℕ → DepositBody → Action
deposit account_id key body =
    submit account_id key
      (Command.deposit (record { amount = body.amount; currency = body.currency }))

unfoldable pub withdraw : AccountId → ℕ → WithdrawBody → Action
withdraw account_id key body =
    submit account_id key
      (Command.withdraw (record { amount = body.amount; currency = body.currency }))

unfoldable pub require_admin : AccountId → AccountId → Outcome (Unit {0})
require_admin admin account_id =
    if nat_eqb account_id admin then done tt else failed ApiError.forbidden

unfoldable pub list_pair : AccountId → AccountId → ℕ → Pair → Action
unfolding require_admin
list_pair admin account_id key pair = elim (require_admin admin account_id) [
  | failed e ↦ respond (error_response e)
  | done _ ↦ submit account_id key (Command.list_pair pair)
]

unfoldable pub delist_pair : AccountId → AccountId → ℕ → Text → Action
unfolding require_admin
delist_pair admin account_id key raw_pair = elim (require_admin admin account_id) [
  | failed e ↦ respond (error_response e)
  | done _ ↦ elim (parse_pair raw_pair) [
    | none ↦
        respond (error_response (ApiError.bad_request (codes "invalid pair, expected BASE-QUOTE")))
    | some pair ↦ submit account_id key (Command.delist_pair pair)
  ]
]

-- The routes that submit a command, with their bodies and paths as they were read.
pub data Route : Type 0 where
  post_orders : PlaceOrderBody → Route
  delete_order : ℕ → Route
  post_deposits : DepositBody → Route
  post_withdrawals : WithdrawBody → Route
  post_admin_pairs : Pair → Route
  delete_admin_pair : Text → Route

unfoldable pub handler : AccountId → AccountId → ℕ → Route → Action
unfolding place_order cancel_order deposit withdraw list_pair delist_pair
handler admin account_id key (post_orders body) = place_order account_id key body
handler admin account_id key (delete_order order_id) = cancel_order account_id key order_id
handler admin account_id key (post_deposits body) = deposit account_id key body
handler admin account_id key (post_withdrawals body) = withdraw account_id key body
handler admin account_id key (post_admin_pairs pair) = list_pair admin account_id key pair
handler admin account_id key (delete_admin_pair raw) = delist_pair admin account_id key raw

-- The extractors run in the order of a handler's arguments, and the first refusal is the answer.
unfoldable pub serve : Jwt → AccountId → ℕ → Headers → Route → Action
unfolding auth_user client_order_id handler
serve jwt admin now headers route = elim (auth_user jwt now headers) [
  | failed e ↦ respond (error_response e)
  | done account_id ↦ elim (client_order_id headers) [
    | failed e ↦ respond (error_response e)
    | done key ↦ handler admin account_id key route
  ]
]

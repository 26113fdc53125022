-- ===== src/Api.antt =====
-- bin/api/main.rs and bin/api/auth.rs: status codes, errors, and what a handler answers. The bodies
-- of answers other than the engine's values are left out.
pub mod Auth
pub mod Tokens
pub mod Accounts
pub mod Logins
pub mod Pending
pub mod Replies
pub mod Steps
pub mod Waiting
pub mod Changes
pub mod Later
pub mod Arrival
pub mod Queries
pub mod Charting
pub mod Handlers
pub mod Guards
use cex_matching_engine.Prelude.{ℕ, true, false, Option, none, some}
use cex_matching_engine.Prelude.Text.{Text}
use cex_matching_engine.Reject.{Result, RejectReason, ok, err}
use cex_matching_engine.Command.{CommandResponse, PlaceOrderResponse, duplicate}

pub data ApiError : Type 0 where
  unauthorized forbidden email_taken : ApiError
  bad_request : Text → ApiError
  not_found timed_out : ApiError
  internal : Text → ApiError

pub data StatusCode : Type 0 where
  success created no_content bad_request unauthorized forbidden not_found conflict gateway_timeout
        internal_server_error :
      StatusCode

-- The codes of the `http` crate.
abbrev pub number : StatusCode → ℕ
number success = 200
number created = 201
number no_content = 204
number StatusCode.bad_request = 400
number StatusCode.unauthorized = 401
number StatusCode.forbidden = 403
number StatusCode.not_found = 404
number conflict = 409
number gateway_timeout = 504
number internal_server_error = 500

-- `ApiError::into_response`
unfoldable pub error_status : ApiError → StatusCode
error_status ApiError.unauthorized = StatusCode.unauthorized
error_status ApiError.forbidden = StatusCode.forbidden
error_status email_taken = conflict
error_status (ApiError.bad_request message) = StatusCode.bad_request
error_status ApiError.not_found = StatusCode.not_found
error_status timed_out = gateway_timeout
error_status (internal message) = internal_server_error

pub data Body : Type 0 where
  empty : Body
  order : PlaceOrderResponse → Body
  available : ℕ → Body
  reason : RejectReason → Body

abbrev pub Response : Type 0
Response = StatusCode × Body

abbrev pub error_response : ApiError → Response
error_response e = (error_status e, empty)

-- `response_for`
unfoldable pub response_for : CommandResponse → Response
unfolding error_status
response_for (CommandResponse.place (ok r)) = (success, order r)
response_for (CommandResponse.place (err e)) = (StatusCode.bad_request, reason e)
response_for (CommandResponse.cancel true) = (no_content, empty)
response_for (CommandResponse.cancel false) = error_response ApiError.not_found
response_for (CommandResponse.deposit (ok n)) = (success, available n)
response_for (CommandResponse.deposit (err e)) = (StatusCode.bad_request, reason e)
response_for (CommandResponse.withdraw (ok u)) = (no_content, empty)
response_for (CommandResponse.withdraw (err e)) = (StatusCode.bad_request, reason e)
response_for (CommandResponse.list_pair (ok new)) = (no_content, empty)
response_for (CommandResponse.list_pair (err e)) = (StatusCode.bad_request, reason e)
response_for (CommandResponse.delist_pair true) = (no_content, empty)
response_for (CommandResponse.delist_pair false) = error_response ApiError.not_found
response_for duplicate = (conflict, empty)

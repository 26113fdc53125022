-- ===== src/Tests/Requests.antt =====
-- The API on small requests.
use mathlib.Core.List.{Perm}
use mathlib.Core.Option.{some-injective}
use cex_matching_engine.Prelude.{
  refl, ℕ, ◌+◌, ◌≤◌, ◌≡◌, ◌≢◌, ◌++◌, ◌⊎◌, inr, Bool, true, Option, none, some, List, [], ◌∷◌, arith,
  All, length, ltb, if◌then◌else◌, nat_eq, add_u64, ap, subst,
}
use cex_matching_engine.Prelude.Int.{ℤ, pos}
use cex_matching_engine.Prelude.HashMap
use cex_matching_engine.Prelude.HashMap.{HashMap}
use cex_matching_engine.Prelude.Text.{
  Text, codes, text_eqb, text_eqb_refl, parse_u64, read_digits, split_once,
}
use cex_matching_engine.Market.{Pair}
use cex_matching_engine.Market.Symbol.{parse_pair, show_pair}
use cex_matching_engine.Candle.{interval_seconds}
use cex_matching_engine.Command.{Command, CommandResponse}
use cex_matching_engine.DbWriter.Tables.{CandleKey, CandleRow, new_candle}
use cex_matching_engine.Api.{ApiError, created, success}
use cex_matching_engine.Api.Auth.{
  Jwt, Claims, Headers, done, failed, auth_user, client_order_id, sign, strip_prefix, trim, verify,
  token_ttl_secs,
}
use cex_matching_engine.Api.Handlers.{
  serve, handler, submit, post_admin_pairs, list_pair, require_admin,
}
use cex_matching_engine.Api.Guards.{serve_sound, Authenticated, Keyed, Allowed}
use cex_matching_engine.Api.Tokens.{ReadsBack, auth_user-sign}
use cex_matching_engine.Api.Accounts.{Hasher, no_users, signup, login, find_user, issued}
use cex_matching_engine.Api.Logins.{Recognises, signup-login}
use cex_matching_engine.Api.Pending.{
  ResponseEnvelope, Request, Desk, new_desk, waiting, logging, register, logged, put, Reach, start,
  next, registers, is_logged, receives, delivers, drops, stay, more, receive, deliver, expire,
  abandon, send,
}
use cex_matching_engine.Api.Replies.{IsSound}
use cex_matching_engine.Api.Waiting.{Reach-IsSound}
use cex_matching_engine.Api.Arrival.{HasAnswer, HasTimedOut, reply_settles, timeout_settles}
use cex_matching_engine.Api.Queries.{CandlesQuery, Candle, select_candles, get_candles}
use cex_matching_engine.Api.Charting.{
  Sorted, NotAfter, NotBefore, selected, wanted, select_candles_latest, get_candles_bounds,
}
use cex_matching_engine.Tests.Sample.{sol_usd}

-- Tokens that spell their claims out.
abbrev spell : Claims → Option Text
spell claims = some (claims.sub ∷ claims.exp ∷ [])

abbrev unspell : ℕ → Text → Option Claims
unspell now (sub ∷ exp ∷ []) =
    if ltb (exp + 60) now then none else some (record { sub = sub; exp = exp })
unspell now _ = none

abbrev jwt : Jwt
jwt = record { encode = spell; decode = unspell }

jwt-ReadsBack : ReadsBack jwt
jwt-ReadsBack claims token now made =
    subst (λ (t : Text). unspell now t ≡ (if ltb (claims.exp + 60) now then none else some claims))
      (some-injective _ _ made) refl

-- Account 5 at the second 100.
abbrev token : Text
token = 5 ∷ 86500 ∷ []

abbrev headers : Headers
headers = record {
  authorization = some (codes "Bearer " ++ token);
  client_order_id = some (codes " 7");
}

admin_request :
    serve jwt 5 200 headers (post_admin_pairs sol_usd) ≡ submit 5 7 (Command.list_pair sol_usd)
unfolding serve auth_user client_order_id handler list_pair require_admin strip_prefix verify trim
    parse_u64 read_digits
admin_request = refl

serve_sound_example :
    Authenticated jwt 200 headers 5 × Keyed headers 7 × Allowed 5 5 (Command.list_pair sol_usd)
serve_sound_example =
    serve_sound jwt 5 200 headers (post_admin_pairs sol_usd) 5 7 (Command.list_pair sol_usd)
      admin_request

token_signed : sign jwt 100 5 ≡ some token
unfolding sign add_u64
token_signed = refl

auth_user-sign_example :
    auth_user jwt 200 headers
    ≡ (if ltb (100 + token_ttl_secs + 60) 200 then failed ApiError.unauthorized else done 5)
auth_user-sign_example =
    auth_user-sign jwt 5 100 200 token headers jwt-ReadsBack (omega arith) token_signed refl

-- A hasher that keeps the password.
abbrev keep : Text → Text → Option Text
keep salt pw = some pw

abbrev compare_text : Text → Text → Option Bool
compare_text pw hash = some (text_eqb pw hash)

abbrev hasher : Hasher
hasher = record { hash = keep; check = compare_text }

hasher-Recognises : Recognises hasher
hasher-Recognises salt pw hash e =
    subst (λ (h : Text). some (text_eqb pw h) ≡ some true) (some-injective _ _ e)
      (ap some (text_eqb_refl pw))

signup-login_example :
    let (result, users') =
      signup hasher jwt 100 (codes "salt") (codes "a@b") (codes "pw") no_users in
    ((find_user (codes "a@b") no_users.rows ≢ none)
      × (result ≡ failed ApiError.email_taken)
      × (users'.rows ≡ no_users.rows))
    ⊎ ((find_user (codes "a@b") no_users.rows ≡ none)
        × (result ≡ issued created (sign jwt 100 no_users.next_id))
        × (login hasher jwt 200 (codes "a@b") (codes "pw") users'
            ≡ issued success (sign jwt 200 no_users.next_id)))
signup-login_example =
    signup-login hasher jwt 100 (codes "salt") (codes "a@b") (codes "pw") no_users 200 (codes "pw")
      hasher-Recognises refl

-- One request that waits.
abbrev one : Request
one = record { correlation_id = 9; phase = logging; inbox = none }

abbrev waits : Request
waits = record one { phase = waiting }

desk : Desk
desk = logged 0 one (register 0 9 new_desk)

nobody : HashMap.get 0 new_desk.requests ≡ none
unfolding HashMap.get
nobody = refl

nobody_else : (u : ℕ) (r : Request) → HashMap.get u new_desk.requests ≡ some r → ⊥
unfolding HashMap.get
nobody_else u r e = cc

one_there : HashMap.get 0 (register 0 9 new_desk).requests ≡ some one
unfolding register HashMap.get HashMap.insert
one_there = refl

desk-Reach : Reach desk
unfolding desk
desk-Reach =
    next (next start (registers 0 9 nobody (λ u r e. absurd (nobody_else u r e))))
      (is_logged 0 one one_there refl)

waits_there : HashMap.get 0 desk.requests ≡ some waits
unfolding desk logged put register HashMap.get HashMap.insert
waits_there = refl

Reach-IsSound_example : IsSound desk
Reach-IsSound_example = Reach-IsSound desk desk-Reach

abbrev reply : ResponseEnvelope
reply = record { correlation_id = 9; response = CommandResponse.cancel true }

abbrev mailed : Request
mailed = record waits { inbox = some reply }

mailed_there : HashMap.get 0 (deliver reply desk).requests ≡ some mailed
unfolding desk deliver send logged put register HashMap.get HashMap.insert
mailed_there = refl

-- The state after the request took its answer.
reply_settles_example : HasAnswer reply 0 9 (receive 0 mailed reply (deliver reply desk))
reply_settles_example =
    reply_settles desk desk-Reach 0 waits waits_there refl refl
      (receive 0 mailed reply (deliver reply desk)) reply refl
      (more stay (receives 0 mailed reply mailed_there refl refl))

-- The state after a reply that came too late.
timeout_settles_example : HasTimedOut 0 9 (deliver reply (expire 0 waits desk))
timeout_settles_example =
    timeout_settles desk desk-Reach 0 waits waits_there refl refl
      (deliver reply (expire 0 waits desk)) (more stay (delivers reply))

-- The client goes away while its request waits, and the entry stays behind.
abandoned-Reach : Reach (abandon 0 waits desk)
abandoned-Reach = next desk-Reach (drops 0 waits waits_there (inr refl))

entry_left : HashMap.get 9 (abandon 0 waits desk).pending ≡ some 0
unfolding abandon desk logged put register HashMap.get HashMap.insert
entry_left = refl

abbrev candle_at : ℤ → CandleKey × CandleRow
candle_at time = ((codes "SOL-USD", 900, time), new_candle (pos 100) (pos 1))

abbrev charted : HashMap CandleKey CandleRow
charted = candle_at (pos 900) ∷ candle_at (pos 2700) ∷ candle_at (pos 1800) ∷ []

abbrev query : CandlesQuery
query = record {
  interval = codes "15m";
  start = some (pos 900);
  finish = none;
  limit = some (pos 2);
}

select_candles_latest_example :
    let answer = select_candles (codes "SOL-USD") 900 query 2 charted in
    (rest : List Candle) × Perm (answer ++ rest) (selected (codes "SOL-USD") 900 query charted)
    × Sorted NotAfter answer
    × All (λ c. All (NotBefore c) rest) answer
    × (length answer ≤ 2)
    × ((rest ≡ []) ⊎ (length answer ≡ 2))
select_candles_latest_example = select_candles_latest (codes "SOL-USD") 900 query 2 charted

get_candles_bounds_example :
    ((message : Text) × (get_candles (codes "SOL-USD") query charted
        ≡ failed (ApiError.bad_request message))
      × ((parse_pair (codes "SOL-USD") ≡ none) ⊎ (interval_seconds query.interval ≡ none)))
    ⊎ ((pair : Pair) × (seconds : ℕ) × (answer rest : List Candle) × (parse_pair (codes "SOL-USD")
          ≡ some pair)
        × (interval_seconds query.interval ≡ some seconds)
        × (get_candles (codes "SOL-USD") query charted ≡ done answer)
        × Perm (answer ++ rest) (selected (show_pair pair) seconds query charted)
        × Sorted NotAfter answer
        × All (λ c. All (NotBefore c) rest) answer
        × (length answer ≤ wanted query.limit)
        × ((rest ≡ []) ⊎ (length answer ≡ wanted query.limit)))
get_candles_bounds_example = get_candles_bounds (codes "SOL-USD") query charted

unknown_currency :
    get_candles (codes "EUR-USD") query charted
    ≡ failed (ApiError.bad_request (codes "invalid pair, expected BASE-QUOTE"))
unfolding get_candles parse_pair split_once
unknown_currency = refl

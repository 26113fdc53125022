-- ===== src/Api/Guards.antt =====
-- bin/api/main.rs and bin/api/auth.rs: what stands when a request gets as far as a command.
use cex_matching_engine.Prelude.{
  refl, ◌∙◌, [], ◌∷◌, ℕ, ◌≡◌, ◌++◌, some, arith, nat_eqb, nat_eqb_iff, inl, inr, ◌⊎◌, ap,
  Bool-cases, Option-cases, ◌∷◌, subst, sym,
}
use cex_matching_engine.Prelude.Text.{Text, codes, parse_u64}
use cex_matching_engine.Market.{AccountId}
use cex_matching_engine.Command.{Command}
use cex_matching_engine.Api.{ApiError, error_response}
use cex_matching_engine.Api.Auth.{
  Jwt, Headers, Outcome, done, failed, auth_user, client_order_id, strip_prefix, trim, verify,
  Claims,
}
use cex_matching_engine.Api.Handlers.{
  Action, respond, submit, Route, handler, serve, post_orders, delete_order, post_deposits,
  post_withdrawals, post_admin_pairs, delete_admin_pair,
}
use cex_matching_engine.Market.Symbol.{parse_pair}

strip_prefix-some : (p s rest : Text) → strip_prefix p s ≡ some rest → s ≡ p ++ rest
unfolding strip_prefix
strip_prefix-some [] s rest e = ground arith
strip_prefix-some (c ∷ p) [] rest e = cc
strip_prefix-some (c ∷ p) (d ∷ s) rest e =
    ground (arith, nat_eqb_iff c d, strip_prefix-some p s rest)

-- The token of the request was verified for the account.
abbrev pub Authenticated : Jwt → ℕ → Headers → AccountId → Type 0
Authenticated jwt now headers account_id =
    (token : Text) × (claims : Claims) × (headers.authorization ≡ some (codes "Bearer " ++ token))
    × (jwt.decode now token ≡ some claims)
    × (claims.sub ≡ account_id)

abbrev pub Keyed : Headers → ℕ → Type 0
Keyed headers key =
    (value : Text) × (headers.client_order_id ≡ some value) × (parse_u64 (trim value) ≡ some key)

-- Only the admin opens and closes markets.
abbrev pub Allowed : AccountId → AccountId → Command → Type 0
Allowed admin account_id (Command.list_pair pair) = account_id ≡ admin
Allowed admin account_id (Command.delist_pair pair) = account_id ≡ admin
Allowed admin account_id _ = Unit

auth_user-done :
    (jwt : Jwt) (now : ℕ) (headers : Headers) (account_id : AccountId)
    → auth_user jwt now headers ≡ done account_id
    → Authenticated jwt now headers account_id
unfolding auth_user
auth_user-done jwt now headers account_id e = elim (Option-cases headers.authorization) [
  | inl missing ↦
      let no : ◌≡◌ {A = Outcome ℕ} (failed ApiError.unauthorized) (done account_id) =
        ground arith in
      cc
  | inr (header, given) ↦ elim (Option-cases (strip_prefix (codes "Bearer ") header)) [
    | inl other ↦
        let no : ◌≡◌ {A = Outcome ℕ} (failed ApiError.unauthorized) (done account_id) =
          ground arith in
        cc
    | inr (token, bearer) ↦ elim (Option-cases (verify jwt now token)) [
      | inl invalid ↦
          let no : ◌≡◌ {A = Outcome ℕ} (failed ApiError.unauthorized) (done account_id) =
            ground arith in
          cc
      | inr (claims, valid) ↦ (
        token,
        claims,
        given ∙ ap some (strip_prefix-some (codes "Bearer ") header token bearer),
        unfold verify in valid,
        ground arith,
      )
    ]
  ]
]

abbrev missing_header : ApiError
missing_header = ApiError.bad_request (codes "missing or invalid X-Client-Order-Id header")

client_order_id-done :
    (headers : Headers) (key : ℕ) → client_order_id headers ≡ done key → Keyed headers key
unfolding client_order_id
client_order_id-done headers key e = elim (Option-cases headers.client_order_id) [
  | inl missing ↦
      let no : ◌≡◌ {A = Outcome ℕ} (failed missing_header) (done key) = ground arith in cc
  | inr (value, given) ↦ (value, given, ground arith)
]

-- What holds of an action that submits.
abbrev WhereSubmitted : (AccountId → ℕ → Command → Type 0) → Action → Type 0
WhereSubmitted P (respond r) = Unit
WhereSubmitted P (submit account_id key command) = P account_id key command

abbrev invalid_pair : ApiError
invalid_pair = ApiError.bad_request (codes "invalid pair, expected BASE-QUOTE")

Outcome-cases {ℓ} :
    {A : Type ℓ} (o : Outcome A) → ((e : ApiError) × (o ≡ failed e)) ⊎ ((a : A) × (o ≡ done a))
Outcome-cases (failed e) = inl (e, refl)
Outcome-cases (done a) = inr (a, refl)

abbrev Requested : AccountId → AccountId → ℕ → AccountId → ℕ → Command → Type 0
Requested admin account k account_id key command =
    (account_id ≡ account) × (key ≡ k) × Allowed admin account_id command

handler-Requested :
    (admin account : AccountId) (k : ℕ) (route : Route)
    → WhereSubmitted (Requested admin account k) (handler admin account k route)
unfolding handler
handler-Requested admin account k (post_orders body) = (refl, refl, tt)
handler-Requested admin account k (delete_order id) = (refl, refl, tt)
handler-Requested admin account k (post_deposits body) = (refl, refl, tt)
handler-Requested admin account k (post_withdrawals body) = (refl, refl, tt)
handler-Requested admin account k (post_admin_pairs pair) =
    let meets = WhereSubmitted (Requested admin account k) in
    elim (Bool-cases (nat_eqb account admin)) [
      | inl same ↦
          let opened : handler admin account k (post_admin_pairs pair)
              ≡ submit account k (Command.list_pair pair) =
            ground arith in
          subst meets (sym opened) (refl, refl, (nat_eqb_iff account admin).0 same)
      | inr other ↦
          let refused : handler admin account k (post_admin_pairs pair)
              ≡ respond (error_response ApiError.forbidden) =
            ground arith in
          subst meets (sym refused) tt
    ]
handler-Requested admin account k (delete_admin_pair raw) =
    let meets = WhereSubmitted (Requested admin account k) in
    elim (Bool-cases (nat_eqb account admin)) [
      | inl same ↦ elim (Option-cases (parse_pair raw)) [
        | inl invalid ↦
            let refused : handler admin account k (delete_admin_pair raw)
                ≡ respond (error_response invalid_pair) =
              ground arith in
            subst meets (sym refused) tt
        | inr (pair, valid) ↦
            let closed : handler admin account k (delete_admin_pair raw)
                ≡ submit account k (Command.delist_pair pair) =
              ground arith in
            subst meets (sym closed) (refl, refl, (nat_eqb_iff account admin).0 same)
      ]
      | inr other ↦
          let refused : handler admin account k (delete_admin_pair raw)
              ≡ respond (error_response ApiError.forbidden) =
            ground arith in
          subst meets (sym refused) tt
    ]

abbrev Sound : Jwt → AccountId → ℕ → Headers → AccountId → ℕ → Command → Type 0
Sound jwt admin now headers account_id key command =
    Authenticated jwt now headers account_id × Keyed headers key × Allowed admin account_id command

Requested-Sound :
    (jwt : Jwt) (admin : AccountId) (now : ℕ) (headers : Headers) (account k : ℕ) (action : Action)
    → Authenticated jwt now headers account
    → Keyed headers k
    → WhereSubmitted (Requested admin account k) action
    → WhereSubmitted (Sound jwt admin now headers) action
Requested-Sound jwt admin now headers account k (respond r) auth keyed h = tt
Requested-Sound jwt admin now headers account k (submit account_id key command) auth keyed h = (
  subst (Authenticated jwt now headers) (sym h.0) auth,
  subst (Keyed headers) (sym h.1) keyed,
  h.2,
)

serve-Sound :
    (jwt : Jwt) (admin : AccountId) (now : ℕ) (headers : Headers) (route : Route)
    → WhereSubmitted (Sound jwt admin now headers) (serve jwt admin now headers route)
unfolding serve
serve-Sound jwt admin now headers route =
    let meets = WhereSubmitted (Sound jwt admin now headers) in
    elim (Outcome-cases (auth_user jwt now headers)) [
      | inl (e, refused) ↦
          let early : serve jwt admin now headers route ≡ respond (error_response e) =
            ground arith in
          subst meets (sym early) tt
      | inr (account, known) ↦ elim (Outcome-cases (client_order_id headers)) [
        | inl (e, refused) ↦
            let early : serve jwt admin now headers route ≡ respond (error_response e) =
              ground arith in
            subst meets (sym early) tt
        | inr (k, given) ↦
            let served : serve jwt admin now headers route ≡ handler admin account k route =
              ground arith in
            subst meets (sym served) (
              Requested-Sound jwt admin now headers account k (handler admin account k route)
                (auth_user-done jwt now headers account known)
                (client_order_id-done headers k given) (handler-Requested admin account k route))
      ]
    ]

-- A request gets as far as a command only under the account of a token that was verified, under
-- the number in its header, and, to open or close a market, under the account of the admin.
pub serve_sound :
    (jwt : Jwt) (admin : AccountId) (now : ℕ) (headers : Headers) (route : Route)
    (account_id : AccountId) (key : ℕ) (command : Command)
    → serve jwt admin now headers route ≡ submit account_id key command
    → Authenticated jwt now headers account_id
      × Keyed headers key
      × Allowed admin account_id command
serve_sound jwt admin now headers route account_id key command e =
    subst (WhereSubmitted (Sound jwt admin now headers)) e (serve-Sound jwt admin now headers route)

-- ===== src/Api/Tokens.antt =====
-- bin/api/auth.rs: the token that `sign` makes, in the header of a later request.
use cex_matching_engine.Prelude.{
  refl, ℕ, ◌+◌, ◌<◌, ◌≡◌, ◌++◌, none, some, arith, [], ◌∷◌, nat_eqb_iff, ltb, if◌then◌else◌,
  u64_mod, add_u64, add_u64-eq,
}
use cex_matching_engine.Prelude.Text.{Text, codes}
use cex_matching_engine.Market.{AccountId}
use cex_matching_engine.Api.{ApiError}
use cex_matching_engine.Api.Auth.{
  Jwt, Claims, Headers, done, failed, auth_user, sign, verify, strip_prefix, token_ttl_secs,
}

-- What the library documents: a token that it made is read back until a leeway of a minute after
-- its expiry, and refused from then on.
abbrev pub ReadsBack : Jwt → Type 0
ReadsBack jwt =
    (claims : Claims) (token : Text) (now : ℕ)
    → jwt.encode claims ≡ some token
    → jwt.decode now token ≡ (if ltb (claims.exp + 60) now then none else some claims)

strip_prefix-append : (p s : Text) → strip_prefix p (p ++ s) ≡ some s
unfolding strip_prefix
strip_prefix-append [] s = refl
strip_prefix-append (c ∷ p) s = ground (arith, nat_eqb_iff c c, strip_prefix-append p s)

-- With a token library that does so, a request that carries the token of an account as a bearer
-- token is that account's for a day and a minute after it was signed, and unauthorized after.
pub auth_user-sign :
    (jwt : Jwt) (account_id : AccountId) (signed now : ℕ) (token : Text) (headers : Headers)
    → ReadsBack jwt
    → signed + token_ttl_secs < u64_mod
    → sign jwt signed account_id ≡ some token
    → headers.authorization ≡ some (codes "Bearer " ++ token)
    → auth_user jwt now headers ≡ (
        if ltb (signed + token_ttl_secs + 60) now
        then failed ApiError.unauthorized
        else done account_id)
unfolding auth_user verify sign
auth_user-sign jwt account_id signed now token headers reads h made carried =
    let claims : Claims = record { sub = account_id; exp = add_u64 signed token_ttl_secs } in
    let bearer = strip_prefix-append (codes "Bearer ") token in
    let fits = add_u64-eq signed token_ttl_secs h in
    let back = reads claims token now made in ground arith

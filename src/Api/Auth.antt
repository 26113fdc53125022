-- ===== src/Api/Auth.antt =====
-- bin/api/auth.rs: tokens, and the two extractors that read the headers of a request. The token
-- library and the password hasher are arguments.
use cex_matching_engine.Prelude.{
  ℕ, Option, none, some, [], ◌∷◌, nat_eqb, leb, if◌then◌else◌, add_u64, Bool, ◌||◌, ◌&&◌,
}
use cex_matching_engine.Prelude.Text.{Text, codes, parse_u64}
use cex_matching_engine.Market.{AccountId}
use cex_matching_engine.Api.{ApiError}

-- `TOKEN_TTL_SECS`
abbrev pub token_ttl_secs : ℕ
token_ttl_secs = 86400

pub record Claims : Type 0 where
  pub sub : AccountId
  pub exp : ℕ

-- `jsonwebtoken`, with the keys of this process: signing, and the check of a token at a time.
pub record Jwt : Type 0 where
  pub encode : Claims → Option Text
  pub decode : ℕ → Text → Option Claims

pub data Outcome {ℓ} (A : Type ℓ) : Type ℓ where
  done : A → Outcome A
  failed : ApiError → Outcome A

-- `sign`
unfoldable pub sign : Jwt → ℕ → AccountId → Option Text
sign jwt now account_id = jwt.encode (record { sub = account_id; exp = add_u64 now token_ttl_secs })

-- `verify`
unfoldable pub verify : Jwt → ℕ → Text → Option Claims
verify jwt now token = jwt.decode now token

-- `str::strip_prefix`
unfoldable pub strip_prefix : Text → Text → Option Text
strip_prefix [] s = some s
strip_prefix (c ∷ p) [] = none
strip_prefix (c ∷ p) (d ∷ s) = let rest = strip_prefix p s in if nat_eqb c d then rest else none

abbrev pub is_space : ℕ → Bool
is_space c = nat_eqb c 32 || (leb 9 c && leb c 13)

abbrev pub skip_spaces : Text → Text
skip_spaces [] = []
skip_spaces (c ∷ s) = if is_space c then skip_spaces s else c ∷ s

-- without the spaces at the end
abbrev drop_spaces : ℕ → Text → Text
drop_spaces c [] = if is_space c then [] else c ∷ []
drop_spaces c (d ∷ s) = c ∷ d ∷ s

abbrev pub skip_last_spaces : Text → Text
skip_last_spaces [] = []
skip_last_spaces (c ∷ s) = drop_spaces c (skip_last_spaces s)

-- `str::trim` of a header, whose visible characters are ASCII
unfoldable pub trim : Text → Text
trim s = skip_last_spaces (skip_spaces s)

-- The headers of a request that the handlers read, where they are there and `to_str` accepts them.
pub record Headers : Type 0 where
  pub authorization : Option Text
  pub client_order_id : Option Text

-- The extractor of `ClientOrderId`.
unfoldable pub client_order_id : Headers → Outcome ℕ
unfolding trim parse_u64
client_order_id h = elim h.client_order_id [
  | none ↦ failed (ApiError.bad_request (codes "missing or invalid X-Client-Order-Id header"))
  | some s ↦ elim (parse_u64 (trim s)) [
    | none ↦ failed (ApiError.bad_request (codes "missing or invalid X-Client-Order-Id header"))
    | some n ↦ done n
  ]
]

-- The extractor of `AuthUser`.
unfoldable pub auth_user : Jwt → ℕ → Headers → Outcome AccountId
unfolding strip_prefix verify
auth_user jwt now h = elim h.authorization [
  | none ↦ failed ApiError.unauthorized
  | some header ↦ elim (strip_prefix (codes "Bearer ") header) [
    | none ↦ failed ApiError.unauthorized
    | some token ↦ elim (verify jwt now token) [
      | none ↦ failed ApiError.unauthorized
      | some claims ↦ done claims.sub
    ]
  ]
]

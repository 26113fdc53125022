-- ===== src/Api/Logins.antt =====
-- bin/api/auth.rs: an account from its sign-up to its log-ins.
use cex_matching_engine.Prelude.{
  refl, ℕ, ◌≡◌, ◌++◌, true, none, some, arith, List, [], ◌∷◌, if◌then◌else◌, Option-cases, inr, inl,
  ◌≢◌, ◌⊎◌,
}
use cex_matching_engine.Prelude.Text.{Text, text_eqb, text_eqb_refl}
use cex_matching_engine.Api.Accounts.{
  Hasher, User, Users, find_user, insert_user, signup, hash_password, login, issued,
  verify_password,
}
use cex_matching_engine.Api.Auth.{Jwt, failed, sign}
use cex_matching_engine.Api.{ApiError, created, success}

-- What the hasher documents: a password is recognised against a hash of its own.
abbrev pub Recognises : Hasher → Type 0
Recognises hasher =
    (salt pw hash : Text) → hasher.hash salt pw ≡ some hash → hasher.check pw hash ≡ some true

find_user-snoc :
    (email : Text) (u : User) (users : List User)
    → find_user email (users ++ u ∷ []) ≡ elim (find_user email users) [
      | none ↦ (if text_eqb u.email email then some u else none)
      | some v ↦ some v
    ]
unfolding find_user
find_user-snoc email u [] = refl
find_user-snoc email u (v ∷ users) = ground (arith, find_user-snoc email u users)

module _ (hasher : Hasher) (jwt : Jwt) (now : ℕ) (salt email password : Text) (users : Users) where
  -- Where the hash is made: a taken address is a conflict and changes no row. A new address becomes
  -- the next account, for which a token is signed; and where the hasher recognises its own
  -- hashes, a log-in with that address and password signs a token for the same account.
  pub signup-login :
      (later : ℕ) (hash : Text)
      → Recognises hasher
      → hasher.hash salt password ≡ some hash
      → let (result, users') = signup hasher jwt now salt email password users in
        ((find_user email users.rows ≢ none)
          × (result ≡ failed ApiError.email_taken)
          × (users'.rows ≡ users.rows))
        ⊎ ((find_user email users.rows ≡ none)
            × (result ≡ issued created (sign jwt now users.next_id))
            × (login hasher jwt later email password users'
                ≡ issued success (sign jwt later users.next_id)))
  unfolding signup hash_password insert_user login verify_password
  signup-login later hash recognises hashed = elim (Option-cases (find_user email users.rows)) [
    | inr (u, taken) ↦ inl (ground arith, ground arith, ground arith)
    | inl free ↦
        let u : User = record { id = users.next_id; email = email; password_hash = hash } in
        let same = text_eqb_refl email in
        let found = find_user-snoc email u users.rows in
        let known = recognises salt password hash hashed in inr (free, ground arith, ground arith)
  ]

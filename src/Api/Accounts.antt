-- ===== src/Api/Accounts.antt =====
-- bin/api/auth.rs: signing up and logging in. The hasher and the token library are arguments, and
-- the table of users is that of the migration create_users: its ids count from 1, and the e-mail
-- addresses are unique.
use cex_matching_engine.Prelude.{
  ℕ, ◌+◌, Bool, true, false, Option, none, some, List, [], ◌∷◌, ◌++◌, if◌then◌else◌,
}
use cex_matching_engine.Prelude.Text.{Text, codes, text_eqb}
use cex_matching_engine.Api.{ApiError, StatusCode, success, created}
use cex_matching_engine.Api.Auth.{Jwt, Outcome, done, failed, sign}

-- `argon2`: hashing under a salt, and the check of a password against a stored hash, which fails
-- where the hash cannot be read.
pub record Hasher : Type 0 where
  pub hash : Text → Text → Option Text
  pub check : Text → Text → Option Bool

-- `hash_password`
unfoldable pub hash_password : Hasher → Text → Text → Outcome Text
hash_password hasher salt pw = elim (hasher.hash salt pw) [
  | none ↦ failed (ApiError.internal (codes "password hashing error"))
  | some h ↦ done h
]

-- `verify_password`
unfoldable pub verify_password : Hasher → Text → Text → Outcome Bool
verify_password hasher pw hash = elim (hasher.check pw hash) [
  | none ↦ failed (ApiError.internal (codes "password hashing error"))
  | some b ↦ done b
]

pub record User : Type 0 where
  pub id : ℕ
  pub email : Text
  pub password_hash : Text

pub record Users : Type 0 where
  pub rows : List User
  pub next_id : ℕ

abbrev pub no_users : Users
no_users = record { rows = []; next_id = 1 }

-- `SELECT id, password_hash FROM users WHERE email = $1`
unfoldable pub find_user : Text → List User → Option User
find_user email [] = none
find_user email (u ∷ users) =
    let later = find_user email users in if text_eqb u.email email then some u else later

-- An INSERT into the table that the migration makes: an e-mail address is unique, and ids come from a
-- sequence. `none` is a violation of uniqueness, and it uses up an id too.
unfoldable pub insert_user : Text → Text → Users → Option ℕ × Users
insert_user email hash users = elim (find_user email users.rows) [
  | some _ ↦ (none, record users { next_id = users.next_id + 1 })
  | none ↦ (
    some users.next_id,
    record {
      rows = users.rows ++ record { id = users.next_id; email = email; password_hash = hash } ∷ [];
      next_id = users.next_id + 1;
    },
  )
]

-- A token in an answer, with its status.
abbrev pub AuthResponse : Type 0
AuthResponse = StatusCode × Text

abbrev pub issued : StatusCode → Option Text → Outcome AuthResponse
issued status none = failed (ApiError.internal (codes "jwt error"))
issued status (some token) = done (status, token)

unfoldable pub signup : Hasher → Jwt → ℕ → Text → Text → Text → Users → Outcome AuthResponse × Users
unfolding hash_password insert_user
signup hasher jwt now salt email password users = elim (hash_password hasher salt password) [
  | failed e ↦ (failed e, users)
  | done hash ↦
      let (inserted, users') = insert_user email hash users in
      elim inserted [
        | none ↦ (failed ApiError.email_taken, users')
        | some id ↦ (issued created (sign jwt now id), users')
      ]
]

unfoldable pub login : Hasher → Jwt → ℕ → Text → Text → Users → Outcome AuthResponse
unfolding find_user verify_password
login hasher jwt now email password users = elim (find_user email users.rows) [
  | none ↦ failed ApiError.unauthorized
  | some u ↦ elim (verify_password hasher password u.password_hash) [
    | failed e ↦ failed e
    | done true ↦ issued success (sign jwt now u.id)
    | done false ↦ failed ApiError.unauthorized
  ]
]

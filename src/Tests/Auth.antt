-- ===== src/Tests/Auth.antt =====
-- The theorems on accounts and refresh tokens at concrete users and tokens.
use konvo_pro.Shared.{
  ℕ, suc, ◌≡◌, ◌≤◌, ==_iff, refl, arith, true, false, none, some, List, [], ◌∷◌, ok, err, ◌⊎◌,
  str_eq, if◌then◌else◌,
}
use Prim.Native.Nat.{max}
use konvo_pro.Auth.Tokens.{
  TokenRow, TokenDeps, Session, Call, rotating, revoking_all, invalid_refresh_token, find_hash,
  mark_rotated, insert_token, rotate_row, rotate, token_run,
}
use konvo_pro.Auth.Spent.{IsSignedOut, rotate-once}
use konvo_pro.Auth.Model.{grants_of, grant_run, token_results, grant_results}
use konvo_pro.Auth.Keys.{HasFreshKeys, HasUniqueKeys, has_key}
use konvo_pro.Auth.Refinement.{token_run-refines}
use konvo_pro.Auth.Routes.{
  UserRow, AuthState, AuthDeps, LoginBody, failure, unchanged, cleared, reply, find_handle, login,
  refresh, logout, serve_all, logging_in,
}
use konvo_pro.Auth.Answers.{
  target_hash, has_factors, session_opened, login-IsUniform, logout-refresh,
}

abbrev bound : List TokenRow → ℕ
bound [] = 0
bound (r ∷ rs) = suc (max r.id (bound rs))

abbrev token_deps : TokenDeps
token_deps = record { hash = λ raw. raw; ttl_ms = 1000; fresh_id = λ rows. suc (bound rows) }

above_bound : (id : ℕ) (rows : List TokenRow) → bound rows ≤ id → has_key (suc id) rows ≡ false
unfolding has_key
above_bound id [] h = refl
above_bound id (r ∷ rs) h =
    ground (arith, h, ==_iff r.id (suc id), above_bound id rs (omega (arith, h)))

fresh : HasFreshKeys token_deps
fresh rows = above_bound (bound rows) rows (omega arith)

abbrev laptop : TokenRow
laptop = record {
  id = 1;
  user_id = "ada";
  token_hash = "t1";
  expires_at = 5000;
  rotated_at = none;
  revoked_at = none;
}

abbrev first_call : Call
first_call = record { raw = "t2"; tested_at = 100; issued_at = 100; db_now = 101 }

abbrev second_call : Call
second_call = record { raw = "t3"; tested_at = 200; issued_at = 200; db_now = 201 }

abbrev ada_session : Session
ada_session = record { user_id = "ada"; raw = "t2"; expires_at = 1100 }

laptop_rotates : (rotate token_deps (laptop ∷ []) "t1" first_call).result ≡ ok ada_session
unfolding rotate rotate_row insert_token find_hash mark_rotated
laptop_rotates = refl

rotate-once_example :
    let r =
      rotate token_deps
        (token_run token_deps
          (rotate token_deps (laptop ∷ []) "t1" first_call).rows
          (rotating "t2" second_call ∷ []))
        "t1"
        second_call in
    (r.result ≡ err invalid_refresh_token) × IsSignedOut "ada" r.rows
rotate-once_example =
    rotate-once token_deps (laptop ∷ []) "t1" first_call ada_session laptop_rotates
      (rotating "t2" second_call ∷ []) second_call

laptop-HasUniqueKeys : HasUniqueKeys (laptop ∷ [])
unfolding has_key
laptop-HasUniqueKeys = (refl, tt)

token_run-refines_example :
    let ops = rotating "t1" first_call ∷ revoking_all "ada" 300 ∷ [] in
    (grants_of (token_run token_deps (laptop ∷ []) ops)
      ≡ grant_run token_deps (grants_of (laptop ∷ [])) ops)
    × (token_results token_deps (laptop ∷ []) ops
        ≡ grant_results token_deps (grants_of (laptop ∷ [])) ops)
token_run-refines_example =
    token_run-refines token_deps fresh (laptop ∷ [])
      (rotating "t1" first_call ∷ revoking_all "ada" 300 ∷ []) laptop-HasUniqueKeys

abbrev auth_deps : AuthDeps
auth_deps = record {
  tokens = token_deps;
  argon2_hash = λ salt password. password;
  argon2_verify = λ hash password. str_eq hash password;
  verify_totp = λ totp secret. str_eq totp secret;
  sentinel_salt = "salt";
  sign = λ user device. user;
  lower = λ handle. if str_eq handle "Ada_L" then "ada_l" else handle;
}

abbrev ada : UserRow
ada = record {
  id = "ada";
  handle = "ada_l";
  password_hash = "correct horse";
  totp_secret = some "123456";
}

abbrev accounts : AuthState
accounts = record { users = ada ∷ []; tokens = laptop ∷ [] }

abbrev ada_login : LoginBody
ada_login = record {
  handle = "Ada_L";
  password = "correct horse";
  totp = some "123456";
  device_id = none;
}

t2_free : find_hash "t2" accounts.tokens ≡ none
unfolding find_hash
t2_free = refl

login-IsUniform_example :
    let hash = target_hash auth_deps (find_handle auth_deps "Ada_L" accounts.users) in
    let r = login auth_deps accounts (some ada_login) first_call in
    (r.compared ≡ record { hash = hash; password = "correct horse" } ∷ [])
    × (((has_factors auth_deps accounts ada_login ≡ false)
          × (r.state ≡ accounts)
          × (r.reply ≡ reply 401 (failure "invalid_credentials") unchanged))
        ⊎ ((has_factors auth_deps accounts ada_login ≡ true)
            × ((u : UserRow) × (find_handle auth_deps "Ada_L" accounts.users ≡ some u)
                × (r.state ≡ (session_opened auth_deps accounts u ada_login first_call).state)
                × (r.reply ≡ (session_opened auth_deps accounts u ada_login first_call).reply))))
login-IsUniform_example = login-IsUniform auth_deps accounts ada_login first_call t2_free

laptop_found : find_hash "t1" (laptop ∷ []) ≡ some laptop
unfolding find_hash
laptop_found = refl

logout-refresh_example :
    let a =
      refresh auth_deps
        (serve_all auth_deps
          (logout auth_deps accounts "t1" 50).state
          (logging_in (some ada_login) first_call ∷ []))
        (some none)
        "t1"
        second_call in
    (a.reply ≡ reply 401 (failure "invalid_credentials") cleared) × IsSignedOut "ada" a.state.tokens
logout-refresh_example =
    logout-refresh auth_deps accounts "t1" 50 laptop refl laptop_found
      (logging_in (some ada_login) first_call ∷ []) none second_call

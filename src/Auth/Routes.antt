-- ===== src/Auth/Routes.antt =====
-- apps/api/src/routes/auth.ts: signup, login, refresh and logout over users and refresh tokens.
use konvo_pro.Shared.{
  ℕ, ◌/◌, Bool, Option, none, some, List, [], ◌∷◌, ◌++◌, String, str_eq, if◌then◌else◌, ok, err,
}
use konvo_pro.Auth.Tokens.{
  TokenRow, TokenDeps, Call, invalid_refresh_token, refresh_token_expired, unique_violation, issue,
  rotate, revoke,
}

-- A row of `users`.
pub record UserRow : Type 0 where
  pub id : String
  pub handle : String
  pub password_hash : String
  pub totp_secret : Option String

pub record AuthState : Type 0 where
  pub users : List UserRow
  pub tokens : List TokenRow

-- Argon2id under a salt, the salt of the hash that the timing defense makes at the start, the TOTP
-- check at the time of the call, the JWT of a user and a device, and the lower case that the `citext`
-- type of Postgres compares.
pub record AuthDeps : Type 0 where
  pub tokens : TokenDeps
  pub argon2_hash : String → String → String
  pub argon2_verify : String → String → Bool
  pub sentinel_salt : String
  pub verify_totp : String → String → Bool
  pub sign : String → String → String
  pub lower : String → String

-- The bodies that the schemas accept.
pub record SignupBody : Type 0 where
  pub handle : String
  pub password : String

pub record LoginBody : Type 0 where
  pub handle : String
  pub password : String
  pub totp : Option String
  pub device_id : Option String

pub data Body : Type 0 where
  empty : Body
  failure : String → Body
  created : String → Body
  logged_in : String → String → String → String → Body
  refreshed : String → Body

-- What the reply does with the cookie of the refresh token: `setCookie` with its maximal age in
-- seconds, or `clearCookie`.
pub data Cookie : Type 0 where
  unchanged : Cookie
  set_cookie : String → ℕ → Cookie
  cleared : Cookie

pub data Reply : Type 0 where
  reply : ℕ → Body → Cookie → Reply
  throws : Reply

-- A call of `argon2.verify`.
pub record Comparison : Type 0 where
  pub hash : String
  pub password : String

-- The state after a request, the reply, and the passwords that Argon2id compared, with which hash.
pub record Answer : Type 0 where
  pub state : AuthState
  pub reply : Reply
  pub compared : List Comparison

abbrev pub answer : AuthState → ℕ → Body → Cookie → Answer
answer state status body cookie = record {
  state = state;
  reply = reply status body cookie;
  compared = [];
}

abbrev pub comparing : String → String → Answer → Answer
comparing hash password rest = record rest {
  compared = record { hash = hash; password = password } ∷ rest.compared;
}

-- `prepareTimingDefense`
abbrev pub sentinel_hash : AuthDeps → String
sentinel_hash deps = deps.argon2_hash deps.sentinel_salt "konvo-timing-defense-sentinel"

-- The column is a `citext`.
unfoldable pub find_handle : AuthDeps → String → List UserRow → Option UserRow
find_handle deps h [] = none
find_handle deps h (u ∷ us) =
    if str_eq (deps.lower u.handle) (deps.lower h) then some u else find_handle deps h us

abbrev pub or_empty : Option String → String
or_empty none = ""
or_empty (some s) = s

module _ (deps : AuthDeps) where
  -- The unique index on `handle` refuses a second row.
  unfoldable pub insert_user : AuthState → SignupBody → String → String → Answer
  insert_user s body id salt = elim (find_handle deps body.handle s.users) [
    | some taken ↦ answer s 409 (failure "handle_unavailable") unchanged
    | none ↦
        answer
          (record s {
            users =
                s.users
                ++ (record {
                  id = id;
                  handle = body.handle;
                  password_hash = deps.argon2_hash salt body.password;
                  totp_secret = none;
                }
                    ∷ []);
          })
          201 (created id) unchanged
  ]

  unfoldable pub signup : AuthState → Option SignupBody → String → String → Answer
  signup s none id salt = answer s 400 (failure "invalid_request") unchanged
  signup s (some body) id salt = insert_user s body id salt

  abbrev pub max_age : ℕ
  max_age = deps.tokens.ttl_ms / 1000

  -- The access token and the refresh token of an account whose factors hold.
  unfoldable pub open_session : AuthState → UserRow → LoginBody → Call → Answer
  open_session s row body call =
      let issued = issue deps.tokens s.tokens row.id call in
      elim issued.result [
        | err e ↦ record { state = s; reply = throws; compared = [] }
        | ok refresh ↦
            answer (record s { tokens = issued.rows }) 200
              (logged_in (deps.sign row.id (or_empty body.device_id)) refresh.raw row.id row.handle)
              (set_cookie refresh.raw max_age)
      ]

  unfoldable pub check_totp : AuthState → UserRow → LoginBody → Call → Answer
  check_totp s row body call = elim row.totp_secret [
    | none ↦ open_session s row body call
    | some secret ↦ elim body.totp [
      | none ↦ answer s 401 (failure "invalid_credentials") unchanged
      | some totp ↦
          if deps.verify_totp totp secret
          then open_session s row body call
          else answer s 401 (failure "invalid_credentials") unchanged
    ]
  ]

  -- An unknown handle costs the comparison with the sentinel hash.
  unfoldable pub login : AuthState → Option LoginBody → Call → Answer
  login s none call = answer s 400 (failure "invalid_request") unchanged
  login s (some body) call = elim (find_handle deps body.handle s.users) [
    | none ↦
        comparing (sentinel_hash deps) body.password
          (answer s 401 (failure "invalid_credentials") unchanged)
    | some row ↦ comparing row.password_hash body.password (
        if deps.argon2_verify row.password_hash body.password
        then check_totp s row body call
        else answer s 401 (failure "invalid_credentials") unchanged)
  ]

  unfoldable pub refresh_with : AuthState → Option String → String → Call → Answer
  refresh_with s device_id raw call =
      let rotated = rotate deps.tokens s.tokens raw call in
      let next = record s { tokens = rotated.rows } in
      elim rotated.result [
        | err refresh_token_expired ↦ answer next 401 (failure "session_expired") cleared
        | err invalid_refresh_token ↦ answer next 401 (failure "invalid_credentials") cleared
        | err unique_violation ↦ record { state = next; reply = throws; compared = [] }
        | ok session ↦
            answer next 200 (refreshed (deps.sign session.user_id (or_empty device_id)))
              (set_cookie session.raw max_age)
      ]

  -- The query is the device's id, if the schema accepts it; the cookie is an empty text where the
  -- request has none.
  unfoldable pub refresh : AuthState → Option (Option String) → String → Call → Answer
  refresh s none cookie call = answer s 400 (failure "invalid_request") unchanged
  refresh s (some device_id) cookie call =
      if str_eq cookie ""
      then answer s 401 (failure "invalid_credentials") unchanged
      else refresh_with s device_id cookie call

  unfoldable pub logout : AuthState → String → ℕ → Answer
  logout s cookie at =
      answer
        (record s {
          tokens = if str_eq cookie "" then s.tokens else revoke deps.tokens s.tokens cookie at;
        })
        204 empty cleared

-- The requests to the four routes.
pub data Request : Type 0 where
  signing_up : Option SignupBody → String → String → Request
  logging_in : Option LoginBody → Call → Request
  refreshing : Option (Option String) → String → Call → Request
  logging_out : String → ℕ → Request

unfoldable pub serve : AuthDeps → AuthState → Request → Answer
serve deps s (signing_up body id salt) = signup deps s body id salt
serve deps s (logging_in body call) = login deps s body call
serve deps s (refreshing query cookie call) = refresh deps s query cookie call
serve deps s (logging_out cookie at) = logout deps s cookie at

unfoldable pub serve_all : AuthDeps → AuthState → List Request → AuthState
serve_all deps s [] = s
serve_all deps s (r ∷ rs) = serve_all deps (serve deps s r).state rs

-- ===== src/Auth/Tokens.antt =====
-- apps/api/src/services/auth/tokens.ts: the store of refresh tokens over the table `refresh_tokens`.
use konvo_pro.Shared.{
  ℕ, ◌+◌, ◌*◌, Bool, true, false, ◌||◌, leb, ◌==◌, Option, none, some, List, [], ◌∷◌, ◌++◌, String,
  str_eq, if◌then◌else◌, Result, ok, err,
}

-- A row of `refresh_tokens`.
pub record TokenRow : Type 0 where
  pub id : ℕ
  pub user_id : String
  pub token_hash : String
  pub expires_at : ℕ
  pub rotated_at : Option ℕ
  pub revoked_at : Option ℕ

abbrev pub default_refresh_token_ttl_ms : ℕ
default_refresh_token_ttl_ms = 30 * 24 * 60 * 60 * 1000

-- `InvalidRefreshTokenError`, `RefreshTokenExpiredError`, and the error of the unique index on
-- `token_hash`.
pub data RotateError : Type 0 where
  invalid_refresh_token : RotateError
  refresh_token_expired : RotateError
  unique_violation : RotateError

-- What `hashRefreshToken` gives under the store's pepper, the lifetime of a token, and the key that
-- `gen_random_uuid` gives the next row, a UUID as a number.
pub record TokenDeps : Type 0 where
  pub hash : String → String
  pub ttl_ms : ℕ
  pub fresh_id : List TokenRow → ℕ

-- The token that is handed out, with the account it belongs to.
pub record Session : Type 0 where
  pub user_id : String
  pub raw : String
  pub expires_at : ℕ

-- What one call reads from outside: the random token, `Date.now()` at the expiry test and at the
-- issue, and `now()` of the database.
pub record Call : Type 0 where
  pub raw : String
  pub tested_at : ℕ
  pub issued_at : ℕ
  pub db_now : ℕ

-- The table after a call, and what the call returned or threw.
pub record TokenAnswer : Type 0 where
  pub rows : List TokenRow
  pub result : Result RotateError Session

abbrev pub is_set : Option ℕ → Bool
is_set none = false
is_set (some at) = true

unfoldable pub find_hash : String → List TokenRow → Option TokenRow
find_hash h [] = none
find_hash h (r ∷ rs) = if str_eq r.token_hash h then some r else find_hash h rs

-- `SET revoked_at = now() … AND revoked_at IS NULL`.
abbrev pub revoked : ℕ → TokenRow → TokenRow
revoked at r = if is_set r.revoked_at then r else record r { revoked_at = some at }

unfoldable pub revoke_user : ℕ → String → List TokenRow → List TokenRow
revoke_user at user [] = []
revoke_user at user (r ∷ rs) =
    (if str_eq r.user_id user then revoked at r else r) ∷ revoke_user at user rs

unfoldable pub revoke_hash : ℕ → String → List TokenRow → List TokenRow
revoke_hash at h [] = []
revoke_hash at h (r ∷ rs) =
    (if str_eq r.token_hash h then revoked at r else r) ∷ revoke_hash at h rs

unfoldable pub mark_rotated : ℕ → ℕ → List TokenRow → List TokenRow
mark_rotated at id [] = []
mark_rotated at id (r ∷ rs) =
    (if r.id == id then record r { rotated_at = some at } else r) ∷ mark_rotated at id rs

module _ (deps : TokenDeps) where
  abbrev pub new_token : List TokenRow → String → Call → TokenRow
  new_token rows user call = record {
    id = deps.fresh_id rows;
    user_id = user;
    token_hash = deps.hash call.raw;
    expires_at = call.issued_at + deps.ttl_ms;
    rotated_at = none;
    revoked_at = none;
  }

  -- The insert of a new token, in a transaction that began at `before`.
  unfoldable pub insert_token : List TokenRow → List TokenRow → String → Call → TokenAnswer
  insert_token before rows user call = elim (find_hash (deps.hash call.raw) rows) [
    | some taken ↦ record { rows = before; result = err unique_violation }
    | none ↦ record {
      rows = rows ++ (new_token rows user call ∷ []);
      result =
          ok (record { user_id = user; raw = call.raw; expires_at = call.issued_at + deps.ttl_ms });
    }
  ]

  unfoldable pub issue : List TokenRow → String → Call → TokenAnswer
  issue rows user call = insert_token rows rows user call

  -- A token that the lookup found.
  unfoldable pub rotate_row : List TokenRow → TokenRow → Call → TokenAnswer
  rotate_row rows row call =
      if is_set row.rotated_at || is_set row.revoked_at
      then record {
        rows = revoke_user call.db_now row.user_id rows;
        result = err invalid_refresh_token;
      }
      else if leb row.expires_at call.tested_at
      then record { rows = rows; result = err refresh_token_expired }
      else insert_token rows (mark_rotated call.db_now row.id rows) row.user_id call

  unfoldable pub rotate : List TokenRow → String → Call → TokenAnswer
  rotate rows presented call = elim (find_hash (deps.hash presented) rows) [
    | none ↦ record { rows = rows; result = err invalid_refresh_token }
    | some row ↦ rotate_row rows row call
  ]

  unfoldable pub revoke : List TokenRow → String → ℕ → List TokenRow
  revoke rows presented at = revoke_hash at (deps.hash presented) rows

  unfoldable pub revoke_all_for_user : List TokenRow → String → ℕ → List TokenRow
  revoke_all_for_user rows user at = revoke_user at user rows

-- The calls of the store.
pub data TokenOp : Type 0 where
  issuing : String → Call → TokenOp
  rotating : String → Call → TokenOp
  revoking : String → ℕ → TokenOp
  revoking_all : String → ℕ → TokenOp

unfoldable pub token_step : TokenDeps → List TokenRow → TokenOp → List TokenRow
token_step deps rows (issuing user call) = (issue deps rows user call).rows
token_step deps rows (rotating raw call) = (rotate deps rows raw call).rows
token_step deps rows (revoking raw at) = revoke deps rows raw at
token_step deps rows (revoking_all user at) = revoke_all_for_user deps rows user at

unfoldable pub token_run : TokenDeps → List TokenRow → List TokenOp → List TokenRow
token_run deps rows [] = rows
token_run deps rows (op ∷ ops) = token_run deps (token_step deps rows op) ops

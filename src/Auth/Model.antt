-- ===== src/Auth/Model.antt =====
-- What the refresh-token store promises: a grant for each hash, without rows, keys or times of
-- writing.
use konvo_pro.Shared.{
  ℕ, ◌+◌, Bool, true, false, ◌||◌, leb, Option, none, some, List, [], ◌∷◌, String, str_eq,
  if◌then◌else◌, Result, ok, err,
}
use konvo_pro.Auth.Tokens.{
  TokenRow, TokenDeps, Session, Call, RotateError, invalid_refresh_token, refresh_token_expired,
  unique_violation, find_hash, issue, rotate, TokenOp, issuing, rotating, revoking, revoking_all,
  token_step,
}
use konvo_pro.Auth.Spent.{is_spent}

-- An account may use its grant once, before it expires.
pub record Grant : Type 0 where
  pub user_id : String
  pub expires_at : ℕ
  pub spent : Bool

abbrev pub Grants : Type 0
Grants = String → Option Grant

pub record GrantAnswer : Type 0 where
  pub grants : Grants
  pub result : Result RotateError Session

abbrev pub grant_of : TokenRow → Grant
grant_of r = record { user_id = r.user_id; expires_at = r.expires_at; spent = is_spent r }

abbrev pub view_grant : Option TokenRow → Option Grant
view_grant none = none
view_grant (some r) = some (grant_of r)

-- The grants that a table stands for.
abbrev pub grants_of : List TokenRow → Grants
grants_of rows h = view_grant (find_hash h rows)

abbrev pub spend : Option Grant → Option Grant
spend none = none
spend (some g) = some (record g { spent = true })

abbrev pub spend_owned : String → Option Grant → Option Grant
spend_owned user none = none
spend_owned user (some g) = some (record g { spent = g.spent || str_eq g.user_id user })

abbrev pub spend_hash : String → Grants → Grants
spend_hash gone grants h = if str_eq gone h then spend (grants h) else grants h

abbrev pub spend_user : String → Grants → Grants
spend_user user grants h = spend_owned user (grants h)

module _ (deps : TokenDeps) where
  abbrev pub grant_new : Grants → Grants → String → Call → GrantAnswer
  grant_new before grants user call = elim (grants (deps.hash call.raw)) [
    | some taken ↦ record { grants = before; result = err unique_violation }
    | none ↦ record {
      grants = λ h.
          if str_eq (deps.hash call.raw) h
          then some
              (record { user_id = user; expires_at = call.issued_at + deps.ttl_ms; spent = false })
          else grants h;
      result =
          ok (record { user_id = user; raw = call.raw; expires_at = call.issued_at + deps.ttl_ms });
    }
  ]

  abbrev pub use_grant : Grants → String → Grant → Call → GrantAnswer
  use_grant grants h g call =
      if g.spent
      then record { grants = spend_user g.user_id grants; result = err invalid_refresh_token }
      else if leb g.expires_at call.tested_at
      then record { grants = grants; result = err refresh_token_expired }
      else grant_new grants (spend_hash h grants) g.user_id call

  abbrev pub grant_rotate : Grants → String → Call → GrantAnswer
  grant_rotate grants presented call = elim (grants (deps.hash presented)) [
    | none ↦ record { grants = grants; result = err invalid_refresh_token }
    | some g ↦ use_grant grants (deps.hash presented) g call
  ]

  unfoldable pub grant_step : Grants → TokenOp → Grants
  grant_step grants (issuing user call) = (grant_new grants grants user call).grants
  grant_step grants (rotating raw call) = (grant_rotate grants raw call).grants
  grant_step grants (revoking raw at) = spend_hash (deps.hash raw) grants
  grant_step grants (revoking_all user at) = spend_user user grants

  -- What the caller sees; revocations return nothing.
  unfoldable pub grant_result : Grants → TokenOp → Option (Result RotateError Session)
  grant_result grants (issuing user call) = some (grant_new grants grants user call).result
  grant_result grants (rotating raw call) = some (grant_rotate grants raw call).result
  grant_result grants (revoking raw at) = none
  grant_result grants (revoking_all user at) = none

  unfoldable pub token_result : List TokenRow → TokenOp → Option (Result RotateError Session)
  token_result rows (issuing user call) = some (issue deps rows user call).result
  token_result rows (rotating raw call) = some (rotate deps rows raw call).result
  token_result rows (revoking raw at) = none
  token_result rows (revoking_all user at) = none

unfoldable pub grant_run : TokenDeps → Grants → List TokenOp → Grants
grant_run deps grants [] = grants
grant_run deps grants (op ∷ ops) = grant_run deps (grant_step deps grants op) ops

unfoldable pub grant_results :
    TokenDeps → Grants → List TokenOp → List (Option (Result RotateError Session))
grant_results deps grants [] = []
grant_results deps grants (op ∷ ops) =
    grant_result deps grants op ∷ grant_results deps (grant_step deps grants op) ops

unfoldable pub token_results :
    TokenDeps → List TokenRow → List TokenOp → List (Option (Result RotateError Session))
token_results deps rows [] = []
token_results deps rows (op ∷ ops) =
    token_result deps rows op ∷ token_results deps (token_step deps rows op) ops

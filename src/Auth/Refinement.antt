-- ===== src/Auth/Refinement.antt =====
-- apps/api/src/services/auth/tokens.ts against the grants of Auth.Model.
use konvo_pro.Shared.{
  ℕ, ◌≡◌, refl, ap, ◌∙◌, arith, some, List, [], ◌∷◌, String, eq_iff, Bool-cases, Option-cases, leb,
  inl, inr,
}
use konvo_pro.Auth.Tokens.{
  TokenRow, TokenDeps, Call, find_hash, revoke_user, revoke_hash, mark_rotated, new_token,
  insert_token, issue, rotate_row, rotate, revoke, revoke_all_for_user, TokenOp, issuing, rotating,
  revoking, revoking_all, token_step, token_run,
}
use konvo_pro.Auth.Table.{
  find_hash-revoke_user, find_hash-mark_rotated, find_hash-revoke_hash, find_hash-append,
}
use konvo_pro.Auth.Spent.{is_spent}
use mathlib.Core.Path.{fun_ext}
use konvo_pro.Auth.Model.{
  Grants, grant_of, grants_of, spend_hash, spend_user, grant_new, use_grant, grant_step,
  grant_result, token_result, grant_run, grant_results, token_results,
}
use konvo_pro.Auth.Keys.{HasUniqueKeys, same_row, HasFreshKeys, token_step-HasUniqueKeys}

-- The view of each write.
view-revoke_user :
    (at : ℕ) (user h : String) (rows : List TokenRow)
    → grants_of (revoke_user at user rows) h ≡ spend_user user (grants_of rows) h
view-revoke_user at user h rows = ground (arith, find_hash-revoke_user at user h rows)

view-revoke_hash :
    (at : ℕ) (gone h : String) (rows : List TokenRow)
    → grants_of (revoke_hash at gone rows) h ≡ spend_hash gone (grants_of rows) h
view-revoke_hash at gone h rows = ground (arith, find_hash-revoke_hash at gone h rows)

view-mark_rotated :
    (at : ℕ) (g h : String) (rows : List TokenRow) (row : TokenRow)
    → HasUniqueKeys rows
    → find_hash g rows ≡ some row
    → grants_of (mark_rotated at row.id rows) h ≡ spend_hash g (grants_of rows) h
view-mark_rotated at g h rows row u found = elim (Option-cases (find_hash h rows)) [
  | inl missing ↦ ground (arith, missing, find_hash-mark_rotated at row.id h rows)
  | inr (q, there) ↦ ground (
    arith,
    there,
    found,
    same_row h g rows q row u there found,
    find_hash-mark_rotated at row.id h rows,
  )
]

module _ (deps : TokenDeps) where
  view-insert_token :
      (before rows : List TokenRow) (past now : Grants) (user h : String) (call : Call)
      → grants_of before h ≡ past h
      → grants_of rows h ≡ now h
      → grants_of rows (deps.hash call.raw) ≡ now (deps.hash call.raw)
      → grants_of (insert_token deps before rows user call).rows h
        ≡ (grant_new deps past now user call).grants h
  unfolding insert_token
  view-insert_token before rows past now user h call b e e' = ground (
    arith,
    b,
    e,
    e',
    eq_iff (deps.hash call.raw) h,
    find_hash-append h rows (new_token deps rows user call),
  )

  result-insert_token :
      (before rows : List TokenRow) (past now : Grants) (user : String) (call : Call)
      → grants_of rows (deps.hash call.raw) ≡ now (deps.hash call.raw)
      → (insert_token deps before rows user call).result
        ≡ (grant_new deps past now user call).result
  unfolding insert_token
  result-insert_token before rows past now user call e = ground (arith, e)

  view-rotate_row :
      (rows : List TokenRow) (presented h : String) (row : TokenRow) (call : Call)
      → HasUniqueKeys rows
      → find_hash (deps.hash presented) rows ≡ some row
      → grants_of (rotate_row deps rows row call).rows h
        ≡ (use_grant deps (grants_of rows) (deps.hash presented) (grant_of row) call).grants h
  unfolding rotate_row
  view-rotate_row rows presented h row call u found =
      let g = deps.hash presented in
      let marked = mark_rotated call.db_now row.id rows in
      let there =
        view-insert_token rows marked (grants_of rows) (spend_hash g (grants_of rows)) row.user_id h
          call refl (view-mark_rotated call.db_now g h rows row u found)
          (view-mark_rotated call.db_now g (deps.hash call.raw) rows row u found) in
      let gone = view-revoke_user call.db_now row.user_id h rows in
      elim (Bool-cases (is_spent row)) [
        | inl s ↦ ground (arith, s, gone)
        | inr s ↦ elim (Bool-cases (leb row.expires_at call.tested_at)) [
          | inl late ↦ ground (arith, s, late)
          | inr early ↦ ground (arith, s, early, there)
        ]
      ]

  result-rotate_row :
      (rows : List TokenRow) (presented : String) (row : TokenRow) (call : Call)
      → HasUniqueKeys rows
      → find_hash (deps.hash presented) rows ≡ some row
      → (rotate_row deps rows row call).result
        ≡ (use_grant deps (grants_of rows) (deps.hash presented) (grant_of row) call).result
  unfolding rotate_row
  result-rotate_row rows presented row call u found =
      let g = deps.hash presented in
      let there =
        result-insert_token rows (mark_rotated call.db_now row.id rows) (grants_of rows)
          (spend_hash g (grants_of rows)) row.user_id call
          (view-mark_rotated call.db_now g (deps.hash call.raw) rows row u found) in
      elim (Bool-cases (is_spent row)) [
        | inl s ↦ ground (arith, s)
        | inr s ↦ elim (Bool-cases (leb row.expires_at call.tested_at)) [
          | inl late ↦ ground (arith, s, late)
          | inr early ↦ ground (arith, s, early, there)
        ]
      ]

  view-token_step :
      (rows : List TokenRow) (op : TokenOp) (h : String)
      → HasUniqueKeys rows
      → grants_of (token_step deps rows op) h ≡ grant_step deps (grants_of rows) op h
  unfolding token_step grant_step issue rotate revoke revoke_all_for_user
  view-token_step rows (issuing user call) h u =
      view-insert_token rows rows (grants_of rows) (grants_of rows) user h call refl refl refl
  view-token_step rows (rotating raw call) h u =
      elim (Option-cases (find_hash (deps.hash raw) rows)) [
        | inl missing ↦ ground (arith, missing)
        | inr (row, found) ↦ ground (arith, found, view-rotate_row rows raw h row call u found)
      ]
  view-token_step rows (revoking raw at) h u = view-revoke_hash at (deps.hash raw) h rows
  view-token_step rows (revoking_all user at) h u = view-revoke_user at user h rows

  result-token_step :
      (rows : List TokenRow) (op : TokenOp)
      → HasUniqueKeys rows
      → token_result deps rows op ≡ grant_result deps (grants_of rows) op
  unfolding token_result grant_result issue rotate
  result-token_step rows (issuing user call) u =
      ap some (result-insert_token rows rows (grants_of rows) (grants_of rows) user call refl)
  result-token_step rows (rotating raw call) u =
      elim (Option-cases (find_hash (deps.hash raw) rows)) [
        | inl missing ↦ ground (arith, missing)
        | inr (row, found) ↦ ground (arith, found, result-rotate_row rows raw row call u found)
      ]
  result-token_step rows (revoking raw at) u = refl
  result-token_step rows (revoking_all user at) u = refl

module _ (deps : TokenDeps) (fresh : HasFreshKeys deps) where
  -- The store implements the grants: where the keys of the rows differ and each new key is a new
  -- one, any calls from a table leave the table that stands for the grants which the same calls leave,
  -- and return or throw what those return or throw.
  pub token_run-refines :
      (rows : List TokenRow) (ops : List TokenOp)
      → HasUniqueKeys rows
      → (grants_of (token_run deps rows ops) ≡ grant_run deps (grants_of rows) ops)
        × (token_results deps rows ops ≡ grant_results deps (grants_of rows) ops)
  unfolding token_run grant_run token_results grant_results
  token_run-refines rows [] u = (refl, refl)
  token_run-refines rows (op ∷ ops) u =
      let next = fun_ext (λ (h : String). view-token_step deps rows op h u) in
      let rest =
        token_run-refines (token_step deps rows op) ops
          (token_step-HasUniqueKeys deps fresh rows op u) in
      (
        rest.0 ∙ ap (λ (g : Grants). grant_run deps g ops) next,
        cc (result-token_step deps rows op u, rest.1, next),
      )

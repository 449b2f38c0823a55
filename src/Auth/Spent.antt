-- ===== src/Auth/Spent.antt =====
-- apps/api/src/services/auth/tokens.ts: tokens that were rotated or revoked, over any further calls.
use konvo_pro.Shared.{
  ℕ, ◌≡◌, ap, sym, subst, ◌∙◌, arith, ==_refl, Bool, true, false, ◌&&◌, ◌||◌, not, Option, none,
  some, List, [], ◌∷◌, All, String, str_eq, eq_iff, eq_refl, Bool-cases, Option-cases, ok, err, inl,
  inr,
}
use konvo_pro.Auth.Tokens.{
  TokenRow, TokenDeps, Session, Call, invalid_refresh_token, is_set, find_hash, revoke_user,
  mark_rotated, new_token, insert_token, issue, rotate_row, rotate, revoke, revoke_all_for_user,
  TokenOp, issuing, rotating, revoking, revoking_all, token_step, token_run,
}
use konvo_pro.Auth.Table.{
  change, revoke_owned, mark_same, find_hash-revoke_user, find_hash-mark_rotated,
  find_hash-revoke_hash, find_hash-append,
}

abbrev pub is_spent : TokenRow → Bool
is_spent r = is_set r.rotated_at || is_set r.revoked_at

-- The lookup found a token of the user that was rotated or revoked.
abbrev pub spent_of : String → Option TokenRow → Bool
spent_of user none = false
spent_of user (some r) = str_eq r.user_id user && is_spent r

spent_of-change_user :
    (user : String) (at : ℕ) (gone : String) (o : Option TokenRow)
    → spent_of user o ≡ true
    → spent_of user (change (revoke_owned at gone) o) ≡ true
spent_of-change_user user at gone none e = e
spent_of-change_user user at gone (some r) e = ground (arith, e)

spent_of-change_mark :
    (user : String) (at id : ℕ) (o : Option TokenRow)
    → spent_of user o ≡ true
    → spent_of user (change (mark_same at id) o) ≡ true
spent_of-change_mark user at id none e = e
spent_of-change_mark user at id (some r) e = ground (arith, e)

module _ (deps : TokenDeps) (user h : String) where
  insert_token-spent :
      (before rows : List TokenRow) (owner : String) (call : Call)
      → spent_of user (find_hash h before) ≡ true
      → spent_of user (find_hash h rows) ≡ true
      → spent_of user (find_hash h (insert_token deps before rows owner call).rows) ≡ true
  unfolding insert_token
  insert_token-spent before rows owner call e e' =
      ground (arith, e, e', find_hash-append h rows (new_token deps rows owner call))

  rotate_row-spent :
      (rows : List TokenRow) (row : TokenRow) (call : Call)
      → spent_of user (find_hash h rows) ≡ true
      → spent_of user (find_hash h (rotate_row deps rows row call).rows) ≡ true
  unfolding rotate_row
  rotate_row-spent rows row call e =
      let marked = spent_of-change_mark user call.db_now row.id (find_hash h rows) e in
      let gone = spent_of-change_user user call.db_now row.user_id (find_hash h rows) e in
      let marked_eq = find_hash-mark_rotated call.db_now row.id h rows in
      let gone_eq = find_hash-revoke_user call.db_now row.user_id h rows in
      let kept =
        insert_token-spent rows (mark_rotated call.db_now row.id rows) row.user_id call e
          (ap (spent_of user) marked_eq ∙ marked) in
      elim (Bool-cases (is_spent row)) [
        | inl s ↦ ground (arith, s, gone, gone_eq)
        | inr s ↦ ground (arith, s, e, kept)
      ]

  token_step-spent :
      (rows : List TokenRow) (op : TokenOp)
      → spent_of user (find_hash h rows) ≡ true
      → spent_of user (find_hash h (token_step deps rows op)) ≡ true
  unfolding token_step issue rotate revoke revoke_all_for_user
  token_step-spent rows (issuing owner call) e = insert_token-spent rows rows owner call e e
  token_step-spent rows (rotating raw call) e =
      elim (Option-cases (find_hash (deps.hash raw) rows)) [
        | inl missing ↦ ground (arith, e, missing)
        | inr (row, found) ↦ ground (arith, found, rotate_row-spent rows row call e)
      ]
  token_step-spent rows (revoking raw at) e =
      ground (arith, e, find_hash-revoke_hash at (deps.hash raw) h rows)
  token_step-spent rows (revoking_all gone at) e =
      ap (spent_of user) (find_hash-revoke_user at gone h rows)
      ∙ spent_of-change_user user at gone (find_hash h rows) e

  token_run-spent :
      (rows : List TokenRow) (ops : List TokenOp)
      → spent_of user (find_hash h rows) ≡ true
      → spent_of user (find_hash h (token_run deps rows ops)) ≡ true
  unfolding token_run
  token_run-spent rows [] e = e
  token_run-spent rows (op ∷ ops) e =
      token_run-spent (token_step deps rows op) ops (token_step-spent rows op e)

-- No token of the account is still in use.
abbrev pub IsSignedOut : String → List TokenRow → Type 0
IsSignedOut user rows =
    All (λ (r : TokenRow). (str_eq r.user_id user && not (is_set r.revoked_at)) ≡ false) rows

revoke_user-IsSignedOut :
    (at : ℕ) (user : String) (rows : List TokenRow) → IsSignedOut user (revoke_user at user rows)
unfolding revoke_user
revoke_user-IsSignedOut at user [] = tt
revoke_user-IsSignedOut at user (r ∷ rs) = (ground arith, revoke_user-IsSignedOut at user rs)

module _ (deps : TokenDeps) where
  rotate_spent :
      (rows : List TokenRow) (user presented : String) (call : Call)
      → spent_of user (find_hash (deps.hash presented) rows) ≡ true
      → let r = rotate deps rows presented call in
        (r.result ≡ err invalid_refresh_token) × (r.rows ≡ revoke_user call.db_now user rows)
  unfolding rotate rotate_row
  rotate_spent rows user presented call e =
      elim (Option-cases (find_hash (deps.hash presented) rows)) [
        | inl missing ↦ ground (arith, e, missing)
        | inr (row, found) ↦ ground (arith, e, found, eq_iff row.user_id user)
      ]

  pub spent-refused :
      (rows : List TokenRow) (user presented : String) (ops : List TokenOp) (again : Call)
      → spent_of user (find_hash (deps.hash presented) rows) ≡ true
      → let r = rotate deps (token_run deps rows ops) presented again in
        (r.result ≡ err invalid_refresh_token) × IsSignedOut user r.rows
  spent-refused rows user presented ops again e =
      let later = token_run deps rows ops in
      let kept = token_run-spent deps user (deps.hash presented) rows ops e in
      let eqs = rotate_spent later user presented again kept in
      (
        eqs.0,
        subst (IsSignedOut user) (sym eqs.1) (revoke_user-IsSignedOut again.db_now user later),
      )

  rotate-spends :
      (rows : List TokenRow) (presented : String) (call : Call) (s : Session)
      → (rotate deps rows presented call).result ≡ ok s
      → spent_of s.user_id (find_hash (deps.hash presented) (rotate deps rows presented call).rows)
        ≡ true
  unfolding rotate rotate_row insert_token
  rotate-spends rows presented call s e =
      elim (Option-cases (find_hash (deps.hash presented) rows)) [
        | inl missing ↦ ground (arith, e, missing)
        | inr (row, found) ↦ ground (
          arith,
          e,
          found,
          ==_refl row.id,
          eq_refl row.user_id,
          find_hash-mark_rotated call.db_now row.id (deps.hash presented) rows,
          find_hash-append (deps.hash presented) (mark_rotated call.db_now row.id rows)
              (new_token deps (mark_rotated call.db_now row.id rows) row.user_id call),
        )
      ]

  -- A refresh token rotates once: after a call of rotate that returned a session, and any further
  -- calls of the store, rotate refuses the same token as invalid, and revokes every token of that
  -- session's account.
  pub rotate-once :
      (rows : List TokenRow) (presented : String) (call : Call) (s : Session)
      → (rotate deps rows presented call).result ≡ ok s
      → (ops : List TokenOp) (again : Call)
      → let r =
          rotate deps (token_run deps (rotate deps rows presented call).rows ops) presented again in
        (r.result ≡ err invalid_refresh_token) × IsSignedOut s.user_id r.rows
  rotate-once rows presented call s e ops again =
      spent-refused (rotate deps rows presented call).rows s.user_id presented ops again
        (rotate-spends rows presented call s e)

  pub revoke-spends :
      (rows : List TokenRow) (presented : String) (at : ℕ) (row : TokenRow)
      → find_hash (deps.hash presented) rows ≡ some row
      → spent_of row.user_id (find_hash (deps.hash presented) (revoke deps rows presented at))
        ≡ true
  unfolding revoke
  revoke-spends rows presented at row found = ground (
    arith,
    found,
    eq_refl row.user_id,
    eq_refl (deps.hash presented),
    find_hash-revoke_hash at (deps.hash presented) (deps.hash presented) rows,
  )

-- ===== src/Auth/Keys.antt =====
-- apps/api/src/services/auth/tokens.ts: the primary keys of the refresh tokens.
use konvo_pro.Shared.{
  ℕ, ◌==◌, ==_iff, ==_refl, ◌≡◌, refl, sym, subst, arith, Bool, true, false, ◌||◌, some, List, [],
  ◌∷◌, ◌++◌, String, str_eq, eq_iff, Bool-cases, Option-cases, leb, ◌⊎◌, inl, inr,
}
use konvo_pro.Auth.Tokens.{
  TokenRow, TokenDeps, Call, find_hash, revoke_user, revoke_hash, mark_rotated, new_token,
  insert_token, issue, rotate_row, rotate, revoke, revoke_all_for_user, TokenOp, issuing, rotating,
  revoking, revoking_all, token_step,
}
use konvo_pro.Auth.Spent.{is_spent}

unfoldable pub has_key : ℕ → List TokenRow → Bool
has_key id [] = false
has_key id (r ∷ rs) = r.id == id || has_key id rs

-- The primary key.
abbrev pub HasUniqueKeys : List TokenRow → Type 0
HasUniqueKeys [] = Unit
HasUniqueKeys (r ∷ rs) = (has_key r.id rs ≡ false) × HasUniqueKeys rs

has_key-find_hash :
    (h : String) (rows : List TokenRow) (r : TokenRow)
    → find_hash h rows ≡ some r
    → has_key r.id rows ≡ true
unfolding find_hash has_key
has_key-find_hash h [] r e = cc
has_key-find_hash h (q ∷ rs) r e = ground (arith, e, ==_refl r.id, has_key-find_hash h rs r)

find_hash_holds :
    (h : String) (rows : List TokenRow) (r : TokenRow)
    → find_hash h rows ≡ some r
    → str_eq r.token_hash h ≡ true
unfolding find_hash
find_hash_holds h [] r e = cc
find_hash_holds h (q ∷ rs) r e = ground (arith, e, find_hash_holds h rs r)

pub same_row :
    (h g : String) (rows : List TokenRow) (q r : TokenRow)
    → HasUniqueKeys rows
    → find_hash h rows ≡ some q
    → find_hash g rows ≡ some r
    → (q.id == r.id) ≡ str_eq g h
unfolding find_hash has_key
same_row h g [] q r u e e' = cc
same_row h g (p ∷ rs) q r u e e' = ground (
  arith,
  u.0,
  e,
  e',
  eq_iff p.token_hash h,
  eq_iff p.token_hash g,
  eq_iff g h,
  ==_iff q.id r.id,
  ==_refl q.id,
  has_key-find_hash h rs q,
  has_key-find_hash g rs r,
  same_row h g rs q r u.1,
)

has_key-revoke_user :
    (at id : ℕ) (user : String) (rows : List TokenRow)
    → has_key id (revoke_user at user rows) ≡ has_key id rows
unfolding has_key revoke_user
has_key-revoke_user at id user [] = refl
has_key-revoke_user at id user (r ∷ rs) = ground (arith, has_key-revoke_user at id user rs)

has_key-revoke_hash :
    (at id : ℕ) (gone : String) (rows : List TokenRow)
    → has_key id (revoke_hash at gone rows) ≡ has_key id rows
unfolding has_key revoke_hash
has_key-revoke_hash at id gone [] = refl
has_key-revoke_hash at id gone (r ∷ rs) = ground (arith, has_key-revoke_hash at id gone rs)

has_key-mark_rotated :
    (at marked id : ℕ) (rows : List TokenRow)
    → has_key id (mark_rotated at marked rows) ≡ has_key id rows
unfolding has_key mark_rotated
has_key-mark_rotated at marked id [] = refl
has_key-mark_rotated at marked id (r ∷ rs) = ground (arith, has_key-mark_rotated at marked id rs)

revoke_user-HasUniqueKeys :
    (at : ℕ) (user : String) (rows : List TokenRow)
    → HasUniqueKeys rows
    → HasUniqueKeys (revoke_user at user rows)
unfolding revoke_user
revoke_user-HasUniqueKeys at user [] u = u
revoke_user-HasUniqueKeys at user (r ∷ rs) u = (
  ground (arith, u.0, has_key-revoke_user at r.id user rs),
  revoke_user-HasUniqueKeys at user rs u.1,
)

revoke_hash-HasUniqueKeys :
    (at : ℕ) (gone : String) (rows : List TokenRow)
    → HasUniqueKeys rows
    → HasUniqueKeys (revoke_hash at gone rows)
unfolding revoke_hash
revoke_hash-HasUniqueKeys at gone [] u = u
revoke_hash-HasUniqueKeys at gone (r ∷ rs) u = (
  ground (arith, u.0, has_key-revoke_hash at r.id gone rs),
  revoke_hash-HasUniqueKeys at gone rs u.1,
)

mark_rotated-HasUniqueKeys :
    (at marked : ℕ) (rows : List TokenRow)
    → HasUniqueKeys rows
    → HasUniqueKeys (mark_rotated at marked rows)
unfolding mark_rotated
mark_rotated-HasUniqueKeys at marked [] u = u
mark_rotated-HasUniqueKeys at marked (r ∷ rs) u = (
  ground (arith, u.0, has_key-mark_rotated at marked r.id rs),
  mark_rotated-HasUniqueKeys at marked rs u.1,
)

has_key-append :
    (id : ℕ) (rows : List TokenRow) (new : TokenRow)
    → has_key id (rows ++ (new ∷ [])) ≡ (has_key id rows || new.id == id)
unfolding has_key
has_key-append id [] new = ground arith
has_key-append id (r ∷ rs) new = ground (arith, has_key-append id rs new)

append-HasUniqueKeys :
    (rows : List TokenRow) (new : TokenRow)
    → has_key new.id rows ≡ false
    → HasUniqueKeys rows
    → HasUniqueKeys (rows ++ (new ∷ []))
unfolding has_key
append-HasUniqueKeys [] new e u = (refl, tt)
append-HasUniqueKeys (r ∷ rs) new e u = (
  ground (arith, e, u.0, ==_iff r.id new.id, ==_iff new.id r.id, has_key-append r.id rs new),
  append-HasUniqueKeys rs new (ground (arith, e)) u.1,
)

-- What PostgreSQL documents of `gen_random_uuid` as a primary key: the key it gives is a new one.
abbrev pub HasFreshKeys : TokenDeps → Type 0
HasFreshKeys deps = (rows : List TokenRow) → has_key (deps.fresh_id rows) rows ≡ false

module _ (deps : TokenDeps) where
  insert_token-rows :
      (before rows : List TokenRow) (user : String) (call : Call)
      → ((insert_token deps before rows user call).rows ≡ before)
        ⊎ ((insert_token deps before rows user call).rows
            ≡ rows ++ (new_token deps rows user call ∷ []))
  unfolding insert_token
  insert_token-rows before rows user call =
      elim (Option-cases (find_hash (deps.hash call.raw) rows)) [
        | inl free ↦ inr (ground (arith, free))
        | inr (r, taken) ↦ inl (ground (arith, taken))
      ]

  rotate_row-rows :
      (rows : List TokenRow) (row : TokenRow) (call : Call)
      → let r = (rotate_row deps rows row call).rows in
        (r ≡ revoke_user call.db_now row.user_id rows)
        ⊎ (r ≡ rows)
        ⊎ (r
            ≡ (insert_token deps rows (mark_rotated call.db_now row.id rows) row.user_id call).rows)
  unfolding rotate_row
  rotate_row-rows rows row call = elim (Bool-cases (is_spent row)) [
    | inl s ↦ inl (ground (arith, s))
    | inr s ↦ elim (Bool-cases (leb row.expires_at call.tested_at)) [
      | inl late ↦ inr (inl (ground (arith, s, late)))
      | inr early ↦ inr (inr (ground (arith, s, early)))
    ]
  ]

module _ (deps : TokenDeps) (fresh : HasFreshKeys deps) where
  insert_token-HasUniqueKeys :
      (before rows : List TokenRow) (user : String) (call : Call)
      → HasUniqueKeys before
      → HasUniqueKeys rows
      → HasUniqueKeys (insert_token deps before rows user call).rows
  insert_token-HasUniqueKeys before rows user call b u =
      elim (insert_token-rows deps before rows user call) [
        | inl e ↦ subst HasUniqueKeys (sym e) b
        | inr e ↦
            subst HasUniqueKeys (sym e)
              (append-HasUniqueKeys rows (new_token deps rows user call) (fresh rows) u)
      ]

  rotate_row-HasUniqueKeys :
      (rows : List TokenRow) (row : TokenRow) (call : Call)
      → HasUniqueKeys rows
      → HasUniqueKeys (rotate_row deps rows row call).rows
  rotate_row-HasUniqueKeys rows row call u = elim (rotate_row-rows deps rows row call) [
    | inl e ↦ subst HasUniqueKeys (sym e) (revoke_user-HasUniqueKeys call.db_now row.user_id rows u)
    | inr (inl e) ↦ subst HasUniqueKeys (sym e) u
    | inr (inr e) ↦ subst HasUniqueKeys (sym e) (
        insert_token-HasUniqueKeys rows (mark_rotated call.db_now row.id rows) row.user_id call u
          (mark_rotated-HasUniqueKeys call.db_now row.id rows u))
  ]

  pub token_step-HasUniqueKeys :
      (rows : List TokenRow) (op : TokenOp)
      → HasUniqueKeys rows
      → HasUniqueKeys (token_step deps rows op)
  unfolding token_step issue rotate revoke revoke_all_for_user
  token_step-HasUniqueKeys rows (issuing user call) u =
      insert_token-HasUniqueKeys rows rows user call u u
  token_step-HasUniqueKeys rows (rotating raw call) u =
      elim (Option-cases (find_hash (deps.hash raw) rows)) [
        | inl missing ↦ subst HasUniqueKeys (ground (arith, missing)) u
        | inr (row, found) ↦
            subst HasUniqueKeys (ground (arith, found)) (rotate_row-HasUniqueKeys rows row call u)
      ]
  token_step-HasUniqueKeys rows (revoking raw at) u =
      revoke_hash-HasUniqueKeys at (deps.hash raw) rows u
  token_step-HasUniqueKeys rows (revoking_all user at) u = revoke_user-HasUniqueKeys at user rows u

-- ===== src/Auth/Table.antt =====
-- apps/api/src/services/auth/tokens.ts: each write, and the row that a lookup finds.
use konvo_pro.Shared.{
  ℕ, ◌≡◌, refl, arith, ◌==◌, Option, none, some, List, [], ◌∷◌, ◌++◌, String, str_eq, eq_iff,
  if◌then◌else◌,
}
use konvo_pro.Auth.Tokens.{TokenRow, find_hash, revoked, revoke_user, revoke_hash, mark_rotated}

abbrev pub change : (TokenRow → TokenRow) → Option TokenRow → Option TokenRow
change f none = none
change f (some r) = some (f r)

abbrev pub revoke_owned : ℕ → String → TokenRow → TokenRow
revoke_owned at user r = if str_eq r.user_id user then revoked at r else r

abbrev pub mark_same : ℕ → ℕ → TokenRow → TokenRow
mark_same at id r = if r.id == id then record r { rotated_at = some at } else r

pub find_hash-revoke_user :
    (at : ℕ) (user h : String) (rows : List TokenRow)
    → find_hash h (revoke_user at user rows) ≡ change (revoke_owned at user) (find_hash h rows)
unfolding find_hash revoke_user
find_hash-revoke_user at user h [] = refl
find_hash-revoke_user at user h (r ∷ rs) = ground (arith, find_hash-revoke_user at user h rs)

pub find_hash-mark_rotated :
    (at id : ℕ) (h : String) (rows : List TokenRow)
    → find_hash h (mark_rotated at id rows) ≡ change (mark_same at id) (find_hash h rows)
unfolding find_hash mark_rotated
find_hash-mark_rotated at id h [] = refl
find_hash-mark_rotated at id h (r ∷ rs) = ground (arith, find_hash-mark_rotated at id h rs)

pub find_hash-revoke_hash :
    (at : ℕ) (gone h : String) (rows : List TokenRow)
    → find_hash h (revoke_hash at gone rows)
      ≡ change (λ (r : TokenRow). if str_eq gone h then revoked at r else r) (find_hash h rows)
unfolding find_hash revoke_hash
find_hash-revoke_hash at gone h [] = refl
find_hash-revoke_hash at gone h (r ∷ rs) = ground (
  arith,
  eq_iff r.token_hash gone,
  eq_iff r.token_hash h,
  eq_iff gone h,
  find_hash-revoke_hash at gone h rs,
)

pub find_hash-append :
    (h : String) (rows : List TokenRow) (new : TokenRow)
    → find_hash h (rows ++ (new ∷ [])) ≡ elim (find_hash h rows) [
      | some r ↦ some r
      | none ↦ if str_eq new.token_hash h then some new else none
    ]
unfolding find_hash
find_hash-append h [] new = refl
find_hash-append h (r ∷ rs) new = ground (arith, find_hash-append h rs new)

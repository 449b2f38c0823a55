-- ===== src/Outbox/Rows.antt =====
-- The rows of the outbox in the order of their keys, and what the operations of the table do to them.
use konvo_pro.Shared.{
  ℕ, zero, suc, ◌<◌, ◌≡◌, refl, arith, Bool, false, ◌&&◌, ◌||◌, ltb, ◌==◌, ==_refl, Option, none,
  some, List, [], ◌∷◌, ◌++◌, take, drop, All, String, str_eq, if◌then◌else◌,
}
use konvo_pro.Outbox.{OutboxEntry, OutboxRow, OutboxTable, with_id}

unfoldable pub find_nonce : String → List OutboxEntry → Option OutboxEntry
find_nonce nonce [] = none
find_nonce nonce (r ∷ rs) = if str_eq r.client_nonce nonce then some r else find_nonce nonce rs

unfoldable pub without : ℕ → List OutboxEntry → List OutboxEntry
without id [] = []
without id (r ∷ rs) = let rest = without id rs in if r.id == id then rest else r ∷ rest

-- The row of the same key is replaced.
unfoldable pub replace : OutboxEntry → List OutboxEntry → List OutboxEntry
replace e [] = []
replace e (r ∷ rs) = if r.id == e.id then e ∷ rs else r ∷ replace e rs

unfoldable pub has_id : ℕ → List OutboxEntry → Bool
has_id id [] = false
has_id id (r ∷ rs) = r.id == id || has_id id rs

unfoldable pub has_stale : ℕ → ℕ → List OutboxEntry → Bool
has_stale cutoff id [] = false
has_stale cutoff id (r ∷ rs) = (r.id == id && ltb r.enqueued_at cutoff) || has_stale cutoff id rs

-- The rows from the cutoff on.
unfoldable pub recent : ℕ → List OutboxEntry → List OutboxEntry
recent cutoff [] = []
recent cutoff (r ∷ rs) =
    let rest = recent cutoff rs in if ltb r.enqueued_at cutoff then rest else r ∷ rest

abbrev pub IsAscending : List OutboxEntry → Type 0
IsAscending [] = Unit
IsAscending (r ∷ rs) = All (λ (q : OutboxEntry). r.id < q.id) rs × IsAscending rs

-- The unique index on `clientNonce`.
abbrev pub HasUniqueNonces : List OutboxEntry → Type 0
HasUniqueNonces [] = Unit
HasUniqueNonces (r ∷ rs) = (find_nonce r.client_nonce rs ≡ none) × HasUniqueNonces rs

-- What Dexie documents of the table's operations. A new key is above all others, and the unique
-- index takes a new nonce.
pub record TableLaws {T : Type 0} (tb : OutboxTable T) : Type 0 where
  pub first_row : (t : T) (nonce : String) → tb.first t nonce ≡ find_nonce nonce (tb.rows t)
  pub below_ids :
      (t : T) (cutoff id : ℕ) → has_id id (tb.below t cutoff) ≡ has_stale cutoff id (tb.rows t)
  pub rows_add :
      (t : T) (row : OutboxRow)
      → find_nonce row.client_nonce (tb.rows t) ≡ none
      → tb.rows (tb.add t row).0 ≡ tb.rows t ++ (with_id (tb.add t row).1 row ∷ [])
  pub add_above :
      (t : T) (row : OutboxRow) → All (λ (r : OutboxEntry). r.id < (tb.add t row).1) (tb.rows t)
  pub rows_put : (t : T) (e : OutboxEntry) → tb.rows (tb.put t e) ≡ replace e (tb.rows t)
  pub rows_delete : (t : T) (id : ℕ) → tb.rows (tb.delete t id) ≡ without id (tb.rows t)

-- The rows whose keys are not among those of `ds`.
unfoldable pub remove_ids : List OutboxEntry → List OutboxEntry → List OutboxEntry
remove_ids ds [] = []
remove_ids ds (r ∷ rs) = let rest = remove_ids ds rs in if has_id r.id ds then rest else r ∷ rest

pub remove_ids-nil : (rs : List OutboxEntry) → remove_ids [] rs ≡ rs
unfolding remove_ids has_id
remove_ids-nil [] = refl
remove_ids-nil (r ∷ rs) = ground (arith, remove_ids-nil rs)

pub remove_ids-cons :
    (d : OutboxEntry) (ds rs : List OutboxEntry)
    → remove_ids (d ∷ ds) rs ≡ remove_ids ds (without d.id rs)
unfolding remove_ids has_id without
remove_ids-cons d ds [] = refl
remove_ids-cons d ds (r ∷ rs) = ground (arith, remove_ids-cons d ds rs)

remove_ids-above :
    (d : OutboxEntry) (ds rs : List OutboxEntry)
    → All (λ (q : OutboxEntry). d.id < q.id) rs
    → remove_ids (d ∷ ds) rs ≡ remove_ids ds rs
unfolding remove_ids has_id
remove_ids-above d ds [] above = refl
remove_ids-above d ds (r ∷ rs) above = ground (arith, above.0, remove_ids-above d ds rs above.1)

pub remove_ids-take :
    (k : ℕ) (rs : List OutboxEntry) → IsAscending rs → remove_ids (take k rs) rs ≡ drop k rs
unfolding remove_ids has_id
remove_ids-take zero rs asc = remove_ids-nil rs
remove_ids-take (suc k) [] asc = refl
remove_ids-take (suc k) (r ∷ rs) asc =
    ground
      (arith, ==_refl r.id, remove_ids-above r (take k rs) rs asc.0, remove_ids-take k rs asc.1)

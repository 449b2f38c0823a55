-- ===== src/Outbox/Sweeps.antt =====
-- What the two sweeps of apps/web/src/db/repositories/outbox.ts leave of the rows.
use konvo_pro.Shared.{
  ℕ, zero, suc, ◌-◌, ◌<◌, ◌≡◌, refl, sym, ◌∙◌, ap, arith, false, ltb, leb, ==_refl, none, List, [],
  ◌∷◌, length, take, drop, All, String, Bool-cases, inl, inr,
}
use konvo_pro.Outbox.{
  OutboxEntry, OutboxTable, outbox_max_age_ms, delete_all, sweep_aged, sweep_capacity,
}
use konvo_pro.Outbox.Rows.{
  find_nonce, has_id, has_stale, recent, IsAscending, HasUniqueNonces, TableLaws, remove_ids,
  remove_ids-nil, remove_ids-cons, remove_ids-take,
}

has_stale-above :
    (cutoff id : ℕ) (rs : List OutboxEntry)
    → All (λ (q : OutboxEntry). id < q.id) rs
    → has_stale cutoff id rs ≡ false
unfolding has_stale
has_stale-above cutoff id [] above = refl
has_stale-above cutoff id (r ∷ rs) above =
    ground (arith, above.0, has_stale-above cutoff id rs above.1)

-- Keys are distinct, so a key is stale just when its row is.
remove_ids-recent :
    (cutoff : ℕ) (ds rs : List OutboxEntry)
    → IsAscending rs
    → All (λ (q : OutboxEntry). has_id q.id ds ≡ has_stale cutoff q.id rs) rs
    → remove_ids ds rs ≡ recent cutoff rs
unfolding remove_ids recent has_stale
remove_ids-recent cutoff ds [] asc same = refl
remove_ids-recent cutoff ds (r ∷ rs) asc same =
    let rest =
      remove_ids-recent cutoff ds rs asc.1
        (both (λ q above e. e ∙ later q above) rs asc.0 same.1) in
    ground (arith, rest, same.0, ==_refl r.id, has_stale-above cutoff r.id rs asc.0)
  where
    later :
        (q : OutboxEntry) → r.id < q.id → has_stale cutoff q.id (r ∷ rs) ≡ has_stale cutoff q.id rs
    later q above = ground (arith, above)

    both :
        {P Q S : OutboxEntry → Type 0}
        → ((q : OutboxEntry) → P q → Q q → S q)
        → (qs : List OutboxEntry) → All P qs
        → All Q qs
        → All S qs
    both f [] p q = tt
    both f (x ∷ xs) p q = (f x p.0 q.0, both f xs p.1 q.1)

recent-All :
    (P : OutboxEntry → Type 0) (cutoff : ℕ) (rs : List OutboxEntry)
    → All P rs
    → All P (recent cutoff rs)
unfolding recent
recent-All P cutoff [] h = tt
recent-All P cutoff (r ∷ rs) h = elim (Bool-cases (ltb r.enqueued_at cutoff)) [
  | inl stale ↦ rw stale (recent-All P cutoff rs h.1)
  | inr fresh ↦ rw fresh (h.0, recent-All P cutoff rs h.1)
]

pub recent-IsAscending :
    (cutoff : ℕ) (rs : List OutboxEntry) → IsAscending rs → IsAscending (recent cutoff rs)
unfolding recent
recent-IsAscending cutoff [] h = tt
recent-IsAscending cutoff (r ∷ rs) h = elim (Bool-cases (ltb r.enqueued_at cutoff)) [
  | inl stale ↦ rw stale (recent-IsAscending cutoff rs h.1)
  | inr fresh ↦ rw fresh (recent-All _ cutoff rs h.0, recent-IsAscending cutoff rs h.1)
]

pub recent-find_none :
    (cutoff : ℕ) (nonce : String) (rs : List OutboxEntry)
    → find_nonce nonce rs ≡ none
    → find_nonce nonce (recent cutoff rs) ≡ none
unfolding recent find_nonce
recent-find_none cutoff nonce [] h = refl
recent-find_none cutoff nonce (r ∷ rs) h = ground (arith, h, recent-find_none cutoff nonce rs)

pub drop-IsAscending : (k : ℕ) (rs : List OutboxEntry) → IsAscending rs → IsAscending (drop k rs)
drop-IsAscending zero rs h = h
drop-IsAscending (suc k) [] h = tt
drop-IsAscending (suc k) (r ∷ rs) h = drop-IsAscending k rs h.1

pub drop-find_none :
    (k : ℕ) (nonce : String) (rs : List OutboxEntry)
    → find_nonce nonce rs ≡ none
    → find_nonce nonce (drop k rs) ≡ none
unfolding find_nonce
drop-find_none zero nonce rs h = h
drop-find_none (suc k) nonce [] h = refl
drop-find_none (suc k) nonce (r ∷ rs) h = drop-find_none k nonce rs (ground (arith, h))

pub recent-HasUniqueNonces :
    (cutoff : ℕ) (rs : List OutboxEntry) → HasUniqueNonces rs → HasUniqueNonces (recent cutoff rs)
unfolding recent
recent-HasUniqueNonces cutoff [] h = tt
recent-HasUniqueNonces cutoff (r ∷ rs) h = elim (Bool-cases (ltb r.enqueued_at cutoff)) [
  | inl stale ↦ rw stale (recent-HasUniqueNonces cutoff rs h.1)
  | inr fresh ↦
      rw fresh (recent-find_none cutoff r.client_nonce rs h.0, recent-HasUniqueNonces cutoff rs h.1)
]

pub drop-HasUniqueNonces :
    (k : ℕ) (rs : List OutboxEntry) → HasUniqueNonces rs → HasUniqueNonces (drop k rs)
drop-HasUniqueNonces zero rs h = h
drop-HasUniqueNonces (suc k) [] h = tt
drop-HasUniqueNonces (suc k) (r ∷ rs) h = drop-HasUniqueNonces k rs h.1

module _ {T : Type 0} (tb : OutboxTable T) (laws : TableLaws tb) where
  rows-delete_all :
      (ds : List OutboxEntry) (t : T) → tb.rows (delete_all tb ds t) ≡ remove_ids ds (tb.rows t)
  unfolding delete_all
  rows-delete_all [] t = sym (remove_ids-nil (tb.rows t))
  rows-delete_all (d ∷ ds) t =
      rows-delete_all ds (tb.delete t d.id)
      ∙ ap (remove_ids ds) (laws.rows_delete t d.id)
      ∙ sym (remove_ids-cons d ds (tb.rows t))

  every :
      {P : OutboxEntry → Type 0} → ((q : OutboxEntry) → P q) → (qs : List OutboxEntry) → All P qs
  every f [] = tt
  every f (x ∷ xs) = (f x, every f xs)

  pub rows-sweep_aged :
      (now : ℕ) (t : T)
      → IsAscending (tb.rows t)
      → tb.rows (sweep_aged tb now t).0 ≡ recent (now - outbox_max_age_ms) (tb.rows t)
  unfolding sweep_aged
  rows-sweep_aged now t asc =
      let cutoff = now - outbox_max_age_ms in
      rows-delete_all (tb.below t cutoff) t
      ∙ remove_ids-recent cutoff (tb.below t cutoff) (tb.rows t) asc
          (every (λ q. laws.below_ids t cutoff q.id) (tb.rows t))

  pub rows-sweep_capacity :
      (max_after : ℕ) (t : T)
      → IsAscending (tb.rows t)
      → tb.rows (sweep_capacity tb max_after t) ≡ drop (length (tb.rows t) - max_after) (tb.rows t)
  unfolding sweep_capacity
  rows-sweep_capacity max_after t asc = elim (Bool-cases (leb (length (tb.rows t)) max_after)) [
    | inl small ↦
        let none_over : length (tb.rows t) - max_after ≡ 0 = ground (arith, small) in
        rw (small, none_over) refl
    | inr large ↦
        let k = length (tb.rows t) - max_after in
        rw large (rows-delete_all (take k (tb.rows t)) t ∙ remove_ids-take k (tb.rows t) asc)
  ]

-- ===== src/Outbox/Memory.antt =====
-- A table of apps/web/src/db/repositories/outbox.ts in memory, for which Dexie's laws hold.
use konvo_pro.Shared.{
  ℕ, suc, ◌+◌, ◌<◌, ◌≡◌, refl, arith, ltb, List, [], ◌∷◌, ◌++◌, All, All-map, if◌then◌else◌,
}
use konvo_pro.Outbox.{OutboxEntry, OutboxTable, with_id}
use konvo_pro.Outbox.Rows.{find_nonce, without, replace, has_id, has_stale, TableLaws}

unfoldable pub stale : ℕ → List OutboxEntry → List OutboxEntry
stale cutoff [] = []
stale cutoff (r ∷ rs) =
    let rest = stale cutoff rs in if ltb r.enqueued_at cutoff then r ∷ rest else rest

-- A key above all keys.
unfoldable pub next_key : List OutboxEntry → ℕ
next_key [] = 1
next_key (r ∷ rs) = suc (r.id + next_key rs)

unfoldable pub memory : OutboxTable (List OutboxEntry)
memory = record {
  rows = λ t. t;
  first = λ t nonce. find_nonce nonce t;
  below = λ t cutoff. stale cutoff t;
  add = λ t row. (t ++ (with_id (next_key t) row ∷ []), next_key t);
  put = λ t e. replace e t;
  delete = λ t id. without id t;
}

stale-ids :
    (t : List OutboxEntry) (cutoff id : ℕ) → has_id id (stale cutoff t) ≡ has_stale cutoff id t
unfolding stale has_id has_stale
stale-ids [] cutoff id = refl
stale-ids (r ∷ rs) cutoff id = ground (arith, stale-ids rs cutoff id)

next_key-above : (t : List OutboxEntry) → All (λ (r : OutboxEntry). r.id < next_key t) t
unfolding next_key
next_key-above [] = tt
next_key-above (r ∷ rs) = (omega arith, All-map rs (λ q lt. omega (arith, lt)) (next_key-above rs))

pub memory-Laws : TableLaws memory
unfolding memory
memory-Laws = record {
  first_row = λ t nonce. refl;
  below_ids = stale-ids;
  rows_add = λ t row fresh. refl;
  add_above = λ t row. next_key-above t;
  rows_put = λ t e. refl;
  rows_delete = λ t id. refl;
}

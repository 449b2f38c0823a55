-- ===== src/Outbox.antt =====
-- apps/web/src/db/repositories/outbox.ts: the offline-send queue over a Dexie table.
pub mod Rows
pub mod Sweeps
pub mod Enqueue
pub mod Acknowledge
pub mod Memory
pub mod Coordinator
pub mod Replay
use konvo_pro.Shared.{
  ℕ, suc, ◌-◌, ◌*◌, ◌+◌, Option, none, some, List, [], ◌∷◌, length, take, leb, String,
  if◌then◌else◌,
}
use konvo_pro.Protocol.Messages.{CiphertextEnvelope}

abbrev pub outbox_max_entries : ℕ
outbox_max_entries = 1000

abbrev pub outbox_max_age_ms : ℕ
outbox_max_age_ms = 7 * 24 * 60 * 60 * 1000

-- A row before it has its key.
pub record OutboxRow : Type 0 where
  pub client_nonce : String
  pub envelope : CiphertextEnvelope
  pub enqueued_at : ℕ
  pub retry_count : ℕ

-- A row of the table, which is also what the reads return: `rowToEntry` copies its fields.
pub record OutboxEntry : Type 0 where
  pub id : ℕ
  pub client_nonce : String
  pub envelope : CiphertextEnvelope
  pub enqueued_at : ℕ
  pub last_try_at : Option ℕ
  pub retry_count : ℕ

abbrev pub with_id : ℕ → OutboxRow → OutboxEntry
with_id id row = record {
  id = id;
  client_nonce = row.client_nonce;
  envelope = row.envelope;
  enqueued_at = row.enqueued_at;
  last_try_at = none;
  retry_count = row.retry_count;
}

-- Dexie's table `outbox` in the state `T`: `rows` is `orderBy('id').toArray()`, `first` is
-- `where('clientNonce').equals(…).first()`, `below` is `where('enqueuedAt').below(…).toArray()`.
pub record OutboxTable (T : Type 0) : Type 0 where
  pub rows : T → List OutboxEntry
  pub first : T → String → Option OutboxEntry
  pub below : T → ℕ → List OutboxEntry
  pub add : T → OutboxRow → T × ℕ
  pub put : T → OutboxEntry → T
  pub delete : T → ℕ → T

pub record Enqueued (T : Type 0) : Type 0 where
  pub table : T
  pub entry : OutboxEntry

module _ {T : Type 0} (tb : OutboxTable T) where
  -- The loop of `delete` over the rows found.
  unfoldable pub delete_all : List OutboxEntry → T → T
  delete_all [] t = t
  delete_all (r ∷ rs) t = delete_all rs (tb.delete t r.id)

  -- A cutoff before the epoch has no row below it, as `0` has none.
  unfoldable pub sweep_aged : ℕ → T → T × ℕ
  unfolding delete_all
  sweep_aged now t =
      let stale = tb.below t (now - outbox_max_age_ms) in (delete_all stale t, length stale)

  unfoldable pub sweep_capacity : ℕ → T → T
  unfolding delete_all
  sweep_capacity max_after_sweep t =
      let count = length (tb.rows t) in
      if leb count max_after_sweep
      then t
      else delete_all (take (count - max_after_sweep) (tb.rows t)) t

  unfoldable pub insert_new : ℕ → T → OutboxRow → Enqueued T
  unfolding sweep_aged sweep_capacity
  insert_new now t row =
      let swept = sweep_capacity (outbox_max_entries - 1) (sweep_aged now t).0 in
      let added = tb.add swept row in record { table = added.0; entry = with_id added.1 row }

  -- `args.enqueuedAt ?? this.#now()`
  abbrev pub time_or : ℕ → Option ℕ → ℕ
  time_or now none = now
  time_or now (some at) = at

  unfoldable pub enqueue : ℕ → T → String → CiphertextEnvelope → Option ℕ → Enqueued T
  unfolding insert_new
  enqueue now t nonce env enqueued_at = elim (tb.first t nonce) [
    | some existing ↦ record { table = t; entry = existing }
    | none ↦ insert_new now t (record {
      client_nonce = nonce;
      envelope = env;
      enqueued_at = time_or now enqueued_at;
      retry_count = 0;
    })
  ]

  unfoldable pub list_in_order : T → List OutboxEntry
  list_in_order t = tb.rows t

  unfoldable pub find_by_client_nonce : T → String → Option OutboxEntry
  find_by_client_nonce t nonce = tb.first t nonce

  unfoldable pub delete_by_client_nonce : T → String → T
  delete_by_client_nonce t nonce = elim (tb.first t nonce) [
    | none ↦ t
    | some existing ↦ tb.delete t existing.id
  ]

  unfoldable pub record_replay_attempt : T → String → ℕ → T
  record_replay_attempt t nonce at = elim (tb.first t nonce) [
    | none ↦ t
    | some existing ↦
        tb.put t (record existing { last_try_at = some at; retry_count = existing.retry_count + 1 })
  ]

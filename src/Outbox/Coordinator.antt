-- ===== src/Outbox/Coordinator.antt =====
-- `OutboxCoordinator` of apps/web/src/ws/outbox.ts over the store: sending what is enqueued, replay on
-- a new connection, and deletion once the server has the envelope.
use konvo_pro.Shared.{ℕ, suc, Bool, true, false, ◌&&◌, Option, List, [], ◌∷◌, String, if◌then◌else◌}
use konvo_pro.Protocol.Messages.{ClientToServer, send_envelope, CiphertextEnvelope}
use konvo_pro.Outbox.{
  OutboxEntry, OutboxTable, Enqueued, enqueue, list_in_order, delete_by_client_nonce,
  record_replay_attempt,
}

-- `#sendFrame`
abbrev pub send_frame : OutboxEntry → ClientToServer
send_frame e = send_envelope e.client_nonce e.envelope

-- The client at one row of the loop: whether it is ready, whether `send` goes through, whether the
-- attempt is recorded, when, and what others do to the table before the next row.
pub record Turn (T : Type 0) : Type 0 where
  pub is_ready : Bool
  pub is_send_ok : Bool
  pub is_record_ok : Bool
  pub at : ℕ
  pub between : T → T

pub record Replayed (T : Type 0) : Type 0 where
  pub sent : List ClientToServer
  pub table : T

pub record Queued (T : Type 0) : Type 0 where
  pub stored : Enqueued T
  pub sent : List ClientToServer

-- The flags of `#kickReplay`, with the count of passes that it has begun.
pub record ReplayFlags : Type 0 where
  pub replay_in_flight : Bool
  pub replay_pending : Bool
  pub passes : ℕ

-- `#kickReplay`, up to the first wait.
unfoldable pub kick_replay : ReplayFlags → ReplayFlags
kick_replay f =
    if f.replay_in_flight
    then record f { replay_pending = true }
    else record { replay_in_flight = true; replay_pending = false; passes = suc f.passes }

-- The `while` after a pass.
unfoldable pub pass_done : ReplayFlags → ReplayFlags
pass_done f =
    if f.replay_pending
    then record f { replay_pending = false; passes = suc f.passes }
    else record f { replay_in_flight = false }

-- The `finally` where a pass throws.
unfoldable pub pass_failed : ReplayFlags → ReplayFlags
pass_failed f = record f { replay_in_flight = false }

module _ {T : Type 0} (tb : OutboxTable T) where
  -- The row is stored first; a send that throws is reported and the row stays.
  unfoldable pub enqueue_and_send :
      ℕ → T → String → CiphertextEnvelope → Option ℕ → Bool → Bool → Queued T
  enqueue_and_send now t nonce env at is_ready is_send_ok =
      let r = enqueue tb now t nonce env at in
      record { stored = r; sent = if is_ready && is_send_ok then send_frame r.entry ∷ [] else [] }

  abbrev pub sent_first : OutboxEntry → Replayed T → Replayed T
  sent_first e r = record { sent = send_frame e ∷ r.sent; table = r.table }

  -- The loop over the pending rows, the turns counted from `i`.
  unfoldable pub replay_rows : (ℕ → Turn T) → ℕ → List OutboxEntry → T → Replayed T
  replay_rows turns i [] t = record { sent = []; table = t }
  replay_rows turns i (e ∷ es) t =
      let w = turns i in
      let next = w.between (record_replay_attempt tb t e.client_nonce w.at) in
      let rest = replay_rows turns (suc i) es next in
      if w.is_ready && w.is_send_ok
      then (if w.is_record_ok
          then sent_first e rest
          else record { sent = send_frame e ∷ []; table = t })
      else record { sent = []; table = t }

  unfoldable pub run_replay : Bool → (ℕ → Turn T) → T → Replayed T
  unfolding replay_rows
  run_replay is_ready turns t =
      if is_ready
      then replay_rows turns 0 (list_in_order tb t) t
      else record { sent = []; table = t }

  unfoldable pub handle_queued : T → String → T
  handle_queued t nonce = delete_by_client_nonce tb t nonce

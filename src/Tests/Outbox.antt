-- ===== src/Tests/Outbox.antt =====
-- The outbox's theorems on a table in memory.
use konvo_pro.Shared.{
  ℕ, ◌+◌, ◌≡◌, refl, arith, true, false, none, some, List, [], ◌∷◌, ◌++◌, map, take,
}
use konvo_pro.Protocol.Messages.{send_envelope}
use konvo_pro.Outbox.{OutboxEntry, enqueue}
use konvo_pro.Outbox.Rows.{find_nonce}
use konvo_pro.Outbox.Enqueue.{IsOutbox, kept, enqueue-IsOutbox}
use konvo_pro.Outbox.Memory.{memory, memory-Laws}
use konvo_pro.Outbox.Coordinator.{send_frame, Turn, run_replay, enqueue_and_send}
use konvo_pro.Outbox.Replay.{GoesThrough, run_replay-order, enqueue_and_send-replayed}
use konvo_pro.Tests.Protocol.{letter}

abbrev first_entry : OutboxEntry
first_entry = record {
  id = 1;
  client_nonce = "n";
  envelope = letter;
  enqueued_at = 1000000000;
  last_try_at = none;
  retry_count = 0;
}

abbrev table : List OutboxEntry
table = first_entry ∷ []

table-IsOutbox : IsOutbox (memory.rows table)
unfolding memory find_nonce
table-IsOutbox = record { ascending = (tt, tt); nonces = (refl, tt); fits = omega arith }

m_is_new : find_nonce "m" (memory.rows table) ≡ none
unfolding memory find_nonce
m_is_new = refl

enqueue-IsOutbox_example :
    let r = enqueue memory 1000500000 table "m" letter none in
    IsOutbox (memory.rows r.table) × (find_nonce "m" (memory.rows r.table) ≡ some r.entry)
enqueue-IsOutbox_example =
    enqueue-IsOutbox memory memory-Laws 1000500000 table "m" letter none table-IsOutbox

abbrev turns : ℕ → Turn (List OutboxEntry)
turns i = record {
  is_ready = true;
  is_send_ok = true;
  is_record_ok = true;
  at = 2000000000 + i;
  between = λ t. t;
}

turns-GoesThrough : GoesThrough memory turns
turns-GoesThrough = record { ready = λ i. refl; sends = λ i. refl; records = λ i. refl }

run_replay-order_example :
    let sent = (run_replay memory true turns table).sent in
    ((k : ℕ) × (sent ≡ map send_frame (take k (memory.rows table))))
    × (true ≡ true → GoesThrough memory turns → sent ≡ map send_frame (memory.rows table))
run_replay-order_example = run_replay-order memory true turns table

enqueue_and_send-replayed_example :
    let q = enqueue_and_send memory 1000500000 table "m" letter none false true in
    (run_replay memory true turns q.stored.table).sent
    ≡ map send_frame (kept memory memory-Laws 1000500000 (memory.rows table))
      ++ (send_envelope "m" letter ∷ [])
enqueue_and_send-replayed_example =
    enqueue_and_send-replayed memory memory-Laws 1000500000 table "m" letter none false true turns
      table-IsOutbox m_is_new turns-GoesThrough

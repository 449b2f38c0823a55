-- ===== src/Outbox/Replay.antt =====
-- What a replay of apps/web/src/ws/outbox.ts sends.
use konvo_pro.Shared.{
  ℕ, zero, suc, ◌≡◌, refl, ◌∙◌, ap, arith, Bool, true, false, ◌&&◌, Option, none, List, [], ◌∷◌,
  ◌++◌, map, take, String, Bool-cases, inl, inr,
}
use konvo_pro.Protocol.Messages.{ClientToServer, send_envelope, CiphertextEnvelope}
use konvo_pro.Outbox.{OutboxEntry, OutboxTable, enqueue, list_in_order, record_replay_attempt}
use konvo_pro.Outbox.Rows.{find_nonce, TableLaws}
use konvo_pro.Outbox.Enqueue.{kept, IsOutbox, enqueue-IsEnqueued}
use konvo_pro.Outbox.Coordinator.{
  send_frame, Turn, ReplayFlags, kick_replay, pass_done, replay_rows, run_replay, enqueue_and_send,
}

module _ {T : Type 0} (tb : OutboxTable T) where
  replay_rows-prefix :
      (turns : ℕ → Turn T) (i : ℕ) (es : List OutboxEntry) (t : T)
      → (k : ℕ) × ((replay_rows tb turns i es t).sent ≡ map send_frame (take k es))
  unfolding replay_rows
  replay_rows-prefix turns i [] t = (0, refl)
  replay_rows-prefix turns i (e ∷ es) t =
      let w = turns i in
      let next = w.between (record_replay_attempt tb t e.client_nonce w.at) in
      let (k, rest) = replay_rows-prefix turns (suc i) es next in
      elim (Bool-cases (w.is_ready && w.is_send_ok)) [
        | inr stops ↦ (0, rw stops refl)
        | inl goes ↦ elim (Bool-cases w.is_record_ok) [
          | inr fails ↦ (1, rw (goes, fails) refl)
          | inl done ↦ (suc k, rw (goes, done) (ap (λ fs. send_frame e ∷ fs) rest))
        ]
      ]

  -- Every turn goes through.
  pub record GoesThrough (turns : ℕ → Turn T) : Type 0 where
    pub ready : (i : ℕ) → (turns i).is_ready ≡ true
    pub sends : (i : ℕ) → (turns i).is_send_ok ≡ true
    pub records : (i : ℕ) → (turns i).is_record_ok ≡ true

  replay_rows-all :
      (turns : ℕ → Turn T) (i : ℕ) (es : List OutboxEntry) (t : T)
      → GoesThrough turns
      → (replay_rows tb turns i es t).sent ≡ map send_frame es
  unfolding replay_rows
  replay_rows-all turns i [] t g = refl
  replay_rows-all turns i (e ∷ es) t g =
      let w = turns i in
      let next = w.between (record_replay_attempt tb t e.client_nonce w.at) in
      rw (g.ready i, g.sends i, g.records i)
        (ap (λ fs. send_frame e ∷ fs) (replay_rows-all turns (suc i) es next g))

  -- Whatever the connection does and whatever others do to the table while a replay waits, it sends
  -- a prefix of the rows that were pending when it began, in the order of their keys; and if the
  -- connection was ready and every row goes through, it sends all of them.
  pub run_replay-order :
      (is_ready : Bool) (turns : ℕ → Turn T) (t : T)
      → let sent = (run_replay tb is_ready turns t).sent in
        ((k : ℕ) × (sent ≡ map send_frame (take k (tb.rows t))))
        × (is_ready ≡ true → GoesThrough turns → sent ≡ map send_frame (tb.rows t))
  unfolding run_replay list_in_order
  run_replay-order true turns t =
      (replay_rows-prefix turns 0 (tb.rows t) t, λ r g. replay_rows-all turns 0 (tb.rows t) t g)
  run_replay-order false turns t = ((0, refl), λ r g. absurd (ground arith))

  map-append :
      (es : List OutboxEntry) (e : OutboxEntry)
      → map send_frame (es ++ (e ∷ [])) ≡ map send_frame es ++ (send_frame e ∷ [])
  map-append [] e = refl
  map-append (x ∷ es) e = ap (λ fs. send_frame x ∷ fs) (map-append es e)

  -- On a sound outbox, an envelope of a new nonce that is enqueued while the connection is down, or
  -- whose first send fails, is sent as given, under its nonce, in the last frame of the next replay
  -- that goes through, after all older pending rows.
  pub enqueue_and_send-replayed :
      (laws : TableLaws tb) (now : ℕ) (t : T) (nonce : String) (env : CiphertextEnvelope)
      (at : Option ℕ) (is_ready is_send_ok : Bool) (turns : ℕ → Turn T)
      → IsOutbox (tb.rows t)
      → find_nonce nonce (tb.rows t) ≡ none
      → GoesThrough turns
      → let q = enqueue_and_send tb now t nonce env at is_ready is_send_ok in
        (run_replay tb true turns q.stored.table).sent
        ≡ map send_frame (kept tb laws now (tb.rows t)) ++ (send_envelope nonce env ∷ [])
  unfolding enqueue_and_send
  enqueue_and_send-replayed laws now t nonce env at is_ready is_send_ok turns good fresh g =
      let r = enqueue tb now t nonce env at in
      let i = enqueue-IsEnqueued tb laws now t nonce env at good.ascending fresh in
      (run_replay-order true turns r.table).1 refl g
      ∙ ap (map send_frame) i.rows
      ∙ map-append (kept tb laws now (tb.rows t)) r.entry
      ∙ ap (λ (f : ClientToServer). map send_frame (kept tb laws now (tb.rows t)) ++ (f ∷ []))
          (cc (i.nonce_kept, i.envelope_kept))

pub kicks : ℕ → ReplayFlags → ReplayFlags
kicks zero f = f
kicks (suc n) f = kicks n (kick_replay f)

kicks-pending :
    (n : ℕ) (f : ReplayFlags) → f.replay_in_flight ≡ true → f.replay_pending ≡ true → kicks n f ≡ f
unfolding kicks kick_replay
kicks-pending zero f running pending = refl
kicks-pending (suc n) f running pending =
    let same : kick_replay f ≡ f = ground (arith, running, pending) in
    ap (kicks n) same ∙ kicks-pending n f running pending

kick-pending :
    (f : ReplayFlags)
    → f.replay_in_flight ≡ true
    → kick_replay f ≡ record f { replay_pending = true }
unfolding kick_replay
kick-pending f running = ground (arith, running)

kicks-suc :
    (n : ℕ) (f : ReplayFlags)
    → f.replay_in_flight ≡ true
    → kicks (suc n) f ≡ record f { replay_pending = true }
unfolding kicks
kicks-suc n f running =
    ap (kicks n) (kick-pending f running)
    ∙ kicks-pending n (record f { replay_pending = true }) running refl

kicks-passes : (n : ℕ) (f : ReplayFlags) → f.replay_in_flight ≡ true → (kicks n f).passes ≡ f.passes
unfolding kicks
kicks-passes zero f running = refl
kicks-passes (suc n) f running = ap (λ (g : ReplayFlags). g.passes) (kicks-suc n f running)

pass_done-pending :
    (f : ReplayFlags)
    → f.replay_in_flight ≡ true
    → pass_done (record f { replay_pending = true })
      ≡ record { replay_in_flight = true; replay_pending = false; passes = suc f.passes }
unfolding pass_done
pass_done-pending f running = ground (arith, running)

-- While a pass runs and nothing is owed, any number of kicks begins no pass beside it, and they are
-- answered by exactly one more pass once it is done; with no kick the replay ends.
pub pass_done-kicks :
    (n : ℕ) (f : ReplayFlags)
    → f.replay_in_flight ≡ true
    → f.replay_pending ≡ false
    → ((kicks n f).passes ≡ f.passes)
      × (pass_done (kicks (suc n) f)
          ≡ record { replay_in_flight = true; replay_pending = false; passes = suc f.passes })
      × ((pass_done f).replay_in_flight ≡ false)
unfolding pass_done
pass_done-kicks n f running idle = (
  kicks-passes n f running,
  ap pass_done (kicks-suc n f running) ∙ pass_done-pending f running,
  ground (arith, idle),
)

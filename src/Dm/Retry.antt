-- ===== src/Dm/Retry.antt =====
-- `retry` of apps/web/src/features/dm/controller.ts. The clock stands still during a call.
use konvo_pro.Shared.{
  ℕ, ◌≡◌, refl, arith, none, some, List, [], ◌∷◌, String, ==_iff, Option-cases, inl, inr,
}
use konvo_pro.Crypto.{Primitives}
use konvo_pro.Dm.Tables.{sending, failed, MessageState, Message, find_id, set_state, update_state}
use konvo_pro.Dm.Controller.{
  message_state_changed, Dm, Done, emit, Outgoing, send_to_devices, mark_failed,
}

-- What the row says of the message, with the session id that the resolver answers.
abbrev outgoing_of : Message → String → ℕ → Outgoing
outgoing_of m session_id now = record {
  peer_user_id = m.thread_id;
  session_id = session_id;
  sender_device_id = m.sender_device_id;
  body = m.body;
  base_nonce = m.client_nonce;
  now = now;
}

abbrev tell_changed : Message → Dm → Dm
tell_changed m d = emit (message_state_changed m.thread_id m.id) d

unfoldable finish_retry : Message → Done → Done
finish_retry m s = elim s.thrown [
  | some x ↦ s
  | none ↦ record { dm = tell_changed m s.dm; thrown = none }
]

module _ (c : Primitives) where
  -- The row that was flipped to sending.
  unfoldable retry_row : ℕ → Message → String → ℕ → List String → Dm → Done
  retry_row id m session_id now [] d = record {
    dm = tell_changed m (record d { messages = (update_state id failed d.messages).table });
    thrown = none;
  }
  retry_row id m session_id now (primary ∷ others) d =
      finish_retry m (send_to_devices c (outgoing_of m session_id now) (primary ∷ others) d)

  unfoldable retry : ℕ → String → ℕ → List String → Dm → Done
  retry id session_id now devices d =
      let u = update_state id sending d.messages in
      elim u.message [
        | none ↦ record { dm = d; thrown = none }
        | some m ↦ retry_row id m session_id now devices (record d { messages = u.table })
      ]

find_id_holds : (id : ℕ) (rows : List Message) (m : Message) → find_id id rows ≡ some m → m.id ≡ id
unfolding find_id
find_id_holds id [] m e = cc
find_id_holds id (q ∷ rs) m e = ground (arith, e, ==_iff q.id id, find_id_holds id rs m)

find_id-set_state :
    (id : ℕ) (s : MessageState) (rows : List Message) (m : Message)
    → find_id id rows ≡ some m
    → find_id id (set_state id s rows) ≡ some (record m { state = s })
unfolding find_id set_state
find_id-set_state id s [] m e = cc
find_id-set_state id s (q ∷ rs) m e = ground (arith, e, find_id-set_state id s rs m)

set_state-set_state :
    (id : ℕ) (s r : MessageState) (rows : List Message)
    → set_state id s (set_state id r rows) ≡ set_state id s rows
unfolding set_state
set_state-set_state id s r [] = refl
set_state-set_state id s r (q ∷ rs) = ground (arith, set_state-set_state id s r rs)

-- With no recipient devices a retry comes to markFailed, whatever the state of the row.
retry-mark_failed :
    (c : Primitives) (id : ℕ) (session_id : String) (now : ℕ) (d : Dm)
    → retry c id session_id now [] d ≡ record { dm = mark_failed id d; thrown = none }
unfolding retry retry_row mark_failed update_state
retry-mark_failed c id session_id now d = elim (Option-cases (find_id id d.messages.rows)) [
  | inl missing ↦ ground (arith, missing)
  | inr (m, found) ↦
      let same = find_id_holds id d.messages.rows m found in
      ground (
        arith,
        found,
        same,
        find_id-set_state id sending d.messages.rows m found,
        set_state-set_state id failed sending d.messages.rows,
      )
]

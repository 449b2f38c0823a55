-- ===== src/Dm/Controller.antt =====
-- `DmController` of apps/web/src/features/dm/controller.ts. The outbox is known by the calls of
-- `enqueue`, the listeners by the changes that they are told.
use Prim.Native.String.{◌++◌ as cat, find, len, slice}
use konvo_pro.Shared.{
  ℕ, Bool, true, false, ltb, Option, none, some, List, [], ◌∷◌, ◌++◌, String, ℤ, if◌then◌else◌, Map,
  Result, ok, err,
}
use konvo_pro.Crypto.{Bytes, Primitives}
use konvo_pro.Protocol.Messages.{EnvelopeRouterType, message, ack, call, CiphertextEnvelope}
use konvo_pro.Ratchet.State.{
  RatchetState, RatchetError, DecryptResult, plaintext, invalid_message, duplicate, message_lost,
}
use konvo_pro.Ratchet.Keys.{utf8}
use konvo_pro.Ratchet.Send.{encrypt_to_device}
use konvo_pro.Ratchet.Receive.{decrypt_from_device}
use konvo_pro.Ratchet.Steps.{inbound}
use konvo_pro.Dm.Wire.{WireFrame, encode_wire_ciphertext, decode_wire_ciphertext}
use konvo_pro.Dm.Tables.{
  delivered, failed, tampered, is_sending, NewMessage, MessageTable, insert_outgoing,
  insert_incoming, find_by_client_nonce, update_state, set_state_by_client_nonce, Thread, upsert,
  record_incoming, load_session, save_session,
}

pub data DmChange : Type 0 where
  message_inserted : String → ℕ → DmChange
  message_state_changed : String → ℕ → DmChange
  thread_updated : String → DmChange

-- A call of `OutboxCoordinator.enqueue`.
pub record Enqueue : Type 0 where
  pub client_nonce : String
  pub envelope : CiphertextEnvelope
  pub enqueued_at : ℕ

pub record Dm : Type 0 where
  pub messages : MessageTable
  pub threads : Map Thread
  pub sessions : Map RatchetState
  pub enqueued : List Enqueue
  pub changes : List DmChange

pub data DmError : Type 0 where
  no_recipient_devices : DmError
  no_session : DmError
  ratchet_error : RatchetError → DmError

-- The state after a call, and what it threw.
pub record Done : Type 0 where
  pub dm : Dm
  pub thrown : Option DmError

abbrev pub emit : DmChange → Dm → Dm
emit change d = record d { changes = d.changes ++ (change ∷ []) }

abbrev pub tampered_placeholder_text : Bytes
tampered_placeholder_text = utf8 "message couldn't be decrypted (tampered or corrupted)"

-- One message to all devices of a peer: what stays the same for each.
pub record Outgoing : Type 0 where
  pub peer_user_id : String
  pub session_id : String
  pub sender_device_id : String
  pub body : Bytes
  pub base_nonce : String
  pub now : ℕ

unfoldable pub device_envelope : Outgoing → String → Bytes → CiphertextEnvelope
device_envelope o device wire = record {
  id = none;
  session_id = o.session_id;
  sender_device_id = o.sender_device_id;
  recipient_device_id = device;
  type = message;
  ciphertext = wire;
  created_at = none;
}

-- `#encryptForDevice`: the session is saved before the frame is made.
pub record Encrypted : Type 0 where
  pub sessions : Map RatchetState
  pub wire : Result DmError Bytes

abbrev pub framed : Result RatchetError Bytes → Result DmError Bytes
framed (ok bytes) = ok bytes
framed (err e) = err (ratchet_error e)

abbrev pub enqueue_one : Outgoing → String → Bytes → Dm → Dm
enqueue_one o device wire d = record d {
  enqueued =
      d.enqueued
      ++ (record {
        client_nonce = cat o.base_nonce (cat ":" device);
        envelope = device_envelope o device wire;
        enqueued_at = o.now;
      }
          ∷ []);
}

abbrev pub new_outgoing : Outgoing → String → NewMessage
new_outgoing o primary = record {
  thread_id = o.peer_user_id;
  sender_device_id = o.sender_device_id;
  recipient_device_id = primary;
  body = o.body;
  client_nonce = o.base_nonce;
  created_at = o.now;
}

abbrev pub inserted : Outgoing → String → Dm → Dm
inserted o primary d =
    emit (message_inserted o.peer_user_id d.messages.next_id)
      (record d { messages = insert_outgoing d.messages (new_outgoing o primary) })

unfoldable pub finish_send : Outgoing → Option String → Done → Done
finish_send o handle s = elim s.thrown [
  | some x ↦ s
  | none ↦ record {
    dm =
        emit (thread_updated o.peer_user_id)
          (record s.dm { threads = upsert s.dm.threads o.peer_user_id handle o.now });
    thrown = none;
  }
]

-- The device of this client, `BigInt.toString`, and what one inbound call draws: the random bytes
-- of the ratchet, a nonce where the envelope has no id, the time.
pub record Receiver : Type 0 where
  pub device_id : String
  pub to_text : ℤ → String

pub record Drawn : Type 0 where
  pub random : Bytes
  pub nonce : String
  pub now : ℕ

abbrev pub inbound_nonce : Receiver → CiphertextEnvelope → Drawn → String
inbound_nonce r env x = elim env.id [
  | some id ↦ cat "inbound-" (r.to_text id)
  | none ↦ cat "inbound-" x.nonce
]

abbrev pub new_incoming : Receiver → CiphertextEnvelope → Drawn → String → Bytes → NewMessage
new_incoming r env x peer body = record {
  thread_id = peer;
  sender_device_id = env.sender_device_id;
  recipient_device_id = r.device_id;
  body = body;
  client_nonce = inbound_nonce r env x;
  created_at = x.now;
}

abbrev pub announced : String → ℕ → ℕ → Dm → Dm
announced peer id at d =
    emit (thread_updated peer)
      (emit (message_inserted peer id) (record d { threads = record_incoming d.threads peer at }))

unfoldable pub insert_tampered_row : Receiver → CiphertextEnvelope → Drawn → String → Dm → Dm
insert_tampered_row r env x peer d =
    let id = d.messages.next_id in
    let added = insert_incoming d.messages (new_incoming r env x peer tampered_placeholder_text) in
    announced peer id x.now (record d { messages = (update_state id tampered added).table })

unfoldable pub on_result : Receiver → CiphertextEnvelope → Drawn → String → DecryptResult → Dm → Dm
on_result r env x peer (plaintext text) d =
    announced peer d.messages.next_id x.now
      (record d { messages = insert_incoming d.messages (new_incoming r env x peer text) })
on_result r env x peer invalid_message d = insert_tampered_row r env x peer d
on_result r env x peer duplicate d = d
on_result r env x peer (message_lost details) d = d

abbrev pub is_message : EnvelopeRouterType → Bool
is_message message = true
is_message ack = false
is_message call = false

module _ (c : Primitives) where
  unfoldable pub encrypt_with :
      Map RatchetState → String → String → Bytes → Option RatchetState → Encrypted
  encrypt_with sessions peer device text none = record {
    sessions = sessions;
    wire = err no_session;
  }
  encrypt_with sessions peer device text (some state) = elim (encrypt_to_device c state text) [
    | err e ↦ record { sessions = sessions; wire = err (ratchet_error e) }
    | ok sent ↦ record {
      sessions = save_session sessions peer device sent.state;
      wire = framed (encode_wire_ciphertext sent.header sent.ciphertext);
    }
  ]

  unfoldable pub encrypt_for_device : Map RatchetState → String → String → Bytes → Encrypted
  encrypt_for_device sessions peer device text =
      encrypt_with sessions peer device text (load_session sessions peer device)

  -- The loop over the devices, which a throw ends.
  unfoldable pub send_to_devices : Outgoing → List String → Dm → Done
  send_to_devices o [] d = record { dm = d; thrown = none }
  send_to_devices o (device ∷ devices) d =
      let e = encrypt_for_device d.sessions o.peer_user_id device o.body in
      let saved : Dm = record d { sessions = e.sessions } in
      elim e.wire [
        | err x ↦ record { dm = saved; thrown = some x }
        | ok wire ↦ send_to_devices o devices (enqueue_one o device wire saved)
      ]

  -- What the resolvers answer, the nonce and the time are in `Outgoing` and `devices`.
  unfoldable pub send_message : Outgoing → Option String → List String → Dm → Done
  send_message o handle [] d = record { dm = d; thrown = some no_recipient_devices }
  send_message o handle (primary ∷ others) d =
      finish_send o handle (send_to_devices o (primary ∷ others) (inserted o primary d))

  -- The new state is saved whatever the result; a throw of the ratchet saves nothing.
  unfoldable pub open_frame :
      Receiver → CiphertextEnvelope → Drawn → String → WireFrame → RatchetState → Dm → Done
  open_frame r env x peer frame state d =
      elim (decrypt_from_device c x.random state frame.body (inbound frame.header)) [
        | err e ↦ record { dm = d; thrown = some (ratchet_error e) }
        | ok opened ↦ record {
          dm = on_result r env x peer opened.result (record d {
            sessions = save_session d.sessions peer env.sender_device_id opened.state;
          });
          thrown = none;
        }
      ]

  unfoldable pub read_frame :
      Receiver → CiphertextEnvelope → Drawn → String → Option WireFrame → Dm → Done
  read_frame r env x peer none d = record { dm = insert_tampered_row r env x peer d; thrown = none }
  read_frame r env x peer (some frame) d =
      elim (load_session d.sessions peer env.sender_device_id) [
        | none ↦ record { dm = insert_tampered_row r env x peer d; thrown = none }
        | some state ↦ open_frame r env x peer frame state d
      ]

  -- `peer` is what the resolver answers for the envelope.
  unfoldable pub handle_inbound : Receiver → CiphertextEnvelope → Drawn → Option String → Dm → Done
  handle_inbound r env x peer d =
      if is_message env.type
      then elim peer [
        | none ↦ record { dm = d; thrown = none }
        | some user ↦ read_frame r env x user (decode_wire_ciphertext env.ciphertext) d
      ]
      else record { dm = d; thrown = none }

-- `stripDeviceShardSuffix`: up to the first `:`.
unfoldable pub strip_device_shard_suffix : String → String
strip_device_shard_suffix nonce =
    let at = find nonce ":" in if ltb (len nonce) at then nonce else slice nonce 0 at

-- `#handleQueued`
unfoldable pub handle_queued : String → Dm → Dm
handle_queued nonce d =
    let base = strip_device_shard_suffix nonce in
    elim (find_by_client_nonce base d.messages.rows) [
      | none ↦ d
      | some existing ↦
          if is_sending existing.state
          then emit (message_state_changed existing.thread_id existing.id)
              (record d { messages = (set_state_by_client_nonce base delivered d.messages).table })
          else d
    ]

-- `markFailed`
unfoldable pub mark_failed : ℕ → Dm → Dm
mark_failed id d =
    let u = update_state id failed d.messages in
    elim u.message [
      | none ↦ d
      | some m ↦ emit (message_state_changed m.thread_id m.id) (record d { messages = u.table })
    ]

-- ===== src/Gateway/Envelopes.antt =====
-- `onSendEnvelope` of apps/api/src/ws/gateway.ts, with the two statements it runs on
-- `ciphertext_envelopes` and the push to an offline recipient.
use konvo_pro.Shared.{
  ℕ, suc, Bool, true, false, not, ◌&&◌, ltb, String, str_eq, List, [], ◌∷◌, ◌++◌, Option, none,
  some, pos, lookup, if◌then◌else◌,
}
use konvo_pro.Protocol.Messages.{
  EnvelopeRouterType, ack, call, CiphertextEnvelope, invalid_payload, rate_limited, internal, error,
  envelope_queued,
}
use konvo_pro.RateLimit.{TokenBucketOpts, try_consume}
use konvo_pro.Gateway.State.{
  EnvelopeRow, OfflinePush, PushType, dm_message, dm_call, Server, WsContext, Handled, send,
}

-- The unique index on `(sender_device, client_nonce)`, as the SELECT of the retry reads it.
unfoldable pub select_by_nonce : String → String → List EnvelopeRow → Option EnvelopeRow
select_by_nonce sender nonce [] = none
select_by_nonce sender nonce (r ∷ rs) =
    if str_eq r.sender_device sender && str_eq r.client_nonce nonce
    then some r
    else select_by_nonce sender nonce rs

-- What `SendEnvelopeDeps` is set up with.
pub record SendDeps : Type 0 where
  pub send_envelope_bucket : TokenBucketOpts
  pub has_offline_push_sender : Bool
  pub has_sender_handle_resolver : Bool
  pub offline_push_delay_ms : ℕ

-- What the clock, Postgres and Redis do during one call: `publish` is `none` where it throws, else
-- the count of subscribers; `between` is what other writers do to the table between the statements.
pub record Outside : Type 0 where
  pub consume_now : ℕ
  pub reply_now : ℕ
  pub is_insert_ok : Bool
  pub is_lookup_ok : Bool
  pub between : List EnvelopeRow → List EnvelopeRow
  pub publish : Option ℕ

abbrev pub new_row : ℕ → CiphertextEnvelope → String → EnvelopeRow
new_row id env nonce = record {
  id = id;
  session_id = env.session_id;
  sender_device = env.sender_device_id;
  recipient_device = env.recipient_device_id;
  ciphertext = env.ciphertext;
  type = env.type;
  client_nonce = nonce;
  is_delivered = false;
}

pub record Inserted : Type 0 where
  pub row : Option ℕ
  pub server : Server

-- `INSERT … ON CONFLICT (sender_device, client_nonce) DO NOTHING RETURNING id`; a conflict uses a
-- value of the sequence too.
unfoldable pub insert_envelope : Server → CiphertextEnvelope → String → Inserted
unfolding select_by_nonce
insert_envelope server env nonce =
    let next = suc server.next_id in
    elim (select_by_nonce env.sender_device_id nonce server.envelopes) [
      | some r ↦ record { row = none; server = record server { next_id = next } }
      | none ↦ record {
        row = some server.next_id;
        server = record server {
          envelopes = server.envelopes ++ (new_row server.next_id env nonce ∷ []);
          next_id = next;
        };
      }
    ]

unfoldable pub is_ack : EnvelopeRouterType → Bool
is_ack ack = true
is_ack t = false

abbrev pub push_type : EnvelopeRouterType → PushType
push_type call = dm_call
push_type t = dm_message

unfoldable pub has_subscriber : Option ℕ → Bool
has_subscriber none = false
has_subscriber (some n) = ltb 0 n

abbrev pub is_some {ℓ} : {A : Type ℓ} → Option A → Bool
is_some none = false
is_some (some a) = true

unfoldable pub is_recipient_offline : Server → Option ℕ → String → Bool
unfolding has_subscriber
is_recipient_offline server publish recipient =
    not (is_some (lookup recipient server.connected_devices)) && not (has_subscriber publish)

-- Step 4b.
unfoldable pub schedule_offline_push :
    SendDeps → Outside → WsContext → CiphertextEnvelope → Server → Server
unfolding is_recipient_offline is_ack
schedule_offline_push deps out ctx env server =
    if is_recipient_offline server out.publish env.recipient_device_id
      && (not (is_ack env.type)
          && (deps.has_offline_push_sender && deps.has_sender_handle_resolver))
    then record server {
      offline_queued_total = suc server.offline_queued_total;
      scheduled =
          server.scheduled
          ++ (record {
            delay_ms = deps.offline_push_delay_ms;
            recipient_device_id = env.recipient_device_id;
            conversation_id = env.session_id;
            sender_user_id = ctx.user_id;
            push_type = push_type env.type;
          }
              ∷ []);
    }
    else server

-- The three fields of the payload beside the device.
pub record OfflinePushArgs : Type 0 where
  pub device_id : String
  pub type : PushType
  pub sender_handle : String
  pub conversation_id : String

-- The scheduled callback: what the sender of pushes is called with, given `senderHandleResolver`,
-- which gives `none` where it throws and `some none` where there is no such user.
unfoldable pub run_offline_push :
    (String → Option (Option String)) → OfflinePush → Option OfflinePushArgs
run_offline_push resolve push = elim (resolve push.sender_user_id) [
  | none ↦ none
  | some handle ↦ elim handle [
    | none ↦ none
    | some sender_handle ↦ some (record {
      device_id = push.recipient_device_id;
      type = push.push_type;
      sender_handle = sender_handle;
      conversation_id = push.conversation_id;
    })
  ]
]

-- Step 4. A publish that throws reaches no channel.
unfoldable pub publish_envelope : Outside → String → ℕ → Server → Server
publish_envelope out recipient id server = elim out.publish [
  | none ↦ server
  | some n ↦ record server {
    published = server.published ++ (record { recipient = recipient; envelope_id = id } ∷ []);
  }
]

-- The steps after a fresh insert.
unfoldable pub fan_out :
    SendDeps → Outside → WsContext → CiphertextEnvelope → String → ℕ → Server → Handled
unfolding schedule_offline_push publish_envelope send
fan_out deps out ctx env nonce id server =
    let published = publish_envelope out env.recipient_device_id id server in
    let pushed = schedule_offline_push deps out ctx env published in
    record {
      server = record pushed { routed = pushed.routed ++ (env.type ∷ []) };
      ctx = send ctx (envelope_queued nonce (pos id) (pos out.reply_now));
    }

-- The reply to a retry: the row that is there, and nothing published.
unfoldable pub reply_existing : Outside → WsContext → CiphertextEnvelope → String → Server → Handled
unfolding select_by_nonce send
reply_existing out ctx env nonce server =
    let rows = out.between server.envelopes in
    let later = record server { envelopes = rows } in
    let found =
      if out.is_lookup_ok then select_by_nonce env.sender_device_id nonce rows else none in
    elim found [
      | none ↦ record { server = later; ctx = send ctx (error internal "internal error") }
      | some r ↦ record {
        server = later;
        ctx = send ctx (envelope_queued nonce (pos r.id) (pos out.reply_now));
      }
    ]

-- Step 3.
unfoldable pub store_envelope :
    SendDeps → Outside → WsContext → CiphertextEnvelope → String → Server → Handled
unfolding insert_envelope fan_out reply_existing send
store_envelope deps out ctx env nonce server =
    if out.is_insert_ok
    then (let inserted = insert_envelope server env nonce in
        elim inserted.row [
          | some id ↦ fan_out deps out ctx env nonce id inserted.server
          | none ↦ reply_existing out ctx env nonce inserted.server
        ])
    else record { server = server; ctx = send ctx (error internal "internal error") }

unfoldable pub on_send_envelope :
    SendDeps → Outside → Server → WsContext → String → CiphertextEnvelope → Handled
unfolding store_envelope send
on_send_envelope deps out server ctx nonce env =
    if str_eq env.sender_device_id ctx.device_id
    then (let consumed =
          try_consume server.buckets ctx.device_id out.consume_now deps.send_envelope_bucket in
        let limited = record server { buckets = consumed.buckets } in
        if consumed.allowed then store_envelope deps out ctx env nonce limited else record {
          server = record limited { rate_limited_total = suc limited.rate_limited_total };
          ctx = send ctx (error rate_limited "rate limit exceeded");
        })
    else record { server = server; ctx = send ctx (error invalid_payload "sender mismatch") }

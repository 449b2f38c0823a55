-- ===== src/Gateway/Push.antt =====
-- When `onSendEnvelope` of apps/api/src/ws/gateway.ts schedules an offline push, and what the push says.
use konvo_pro.Shared.{
  ℕ, suc, ◌≡◌, refl, ap, sym, ◌∙◌, arith, false, not, ◌&&◌, ◌⊎◌, inl, inr, String, str_eq, [], ◌∷◌,
  ◌++◌, Option, some, Bool-cases, Option-cases, lookup,
}
use konvo_pro.Protocol.Messages.{CiphertextEnvelope}
use konvo_pro.RateLimit.{try_consume}
use konvo_pro.Gateway.State.{OfflinePush, Server, WsContext}
use konvo_pro.Gateway.Envelopes.{
  SendDeps, Outside, OfflinePushArgs, select_by_nonce, new_row, is_some, is_ack, has_subscriber,
  push_type, is_recipient_offline, schedule_offline_push, run_offline_push, publish_envelope,
  fan_out, store_envelope, on_send_envelope,
}
use konvo_pro.Gateway.Outcome.{reply_existing-server, store-fresh, store-conflict}

module _ (deps : SendDeps) (out : Outside) (ctx : WsContext) (env : CiphertextEnvelope)
    (nonce : String) where
  abbrev pub push : OfflinePush
  push = record {
    delay_ms = deps.offline_push_delay_ms;
    recipient_device_id = env.recipient_device_id;
    conversation_id = env.session_id;
    sender_user_id = ctx.user_id;
    push_type = push_type env.type;
  }

  -- One push is new, for an envelope that is no ACK, to a device without a socket here or a
  -- subscriber elsewhere.
  pub record IsPushed (s t : Server) : Type 0 where
    pub scheduled : t.scheduled ≡ s.scheduled ++ (push ∷ [])
    pub no_ack : is_ack env.type ≡ false
    pub no_socket : is_some (lookup env.recipient_device_id s.connected_devices) ≡ false
    pub no_subscriber : has_subscriber out.publish ≡ false

  abbrev pub IsPushOrNone : Server → Server → Type 0
  IsPushOrNone s t = (t.scheduled ≡ s.scheduled) ⊎ IsPushed s t

  schedule-IsPushOrNone : (s : Server) → IsPushOrNone s (schedule_offline_push deps out ctx env s)
  unfolding schedule_offline_push is_recipient_offline
  schedule-IsPushOrNone s =
      let test =
        is_recipient_offline s out.publish env.recipient_device_id
        && (not (is_ack env.type)
            && (deps.has_offline_push_sender && deps.has_sender_handle_resolver)) in
      elim (Bool-cases test) [
        | inr fails ↦ inl (ground (arith, fails))
        | inl holds ↦ inr (record {
          scheduled = ground (arith, holds);
          no_ack = ground (arith, holds);
          no_socket = ground (arith, holds);
          no_subscriber = ground (arith, holds);
        })
      ]

  publish-same :
      (s : Server) (id : ℕ)
      → let t = publish_envelope out env.recipient_device_id id s in
        (t.scheduled ≡ s.scheduled) × (t.connected_devices ≡ s.connected_devices)
  unfolding publish_envelope
  publish-same s id = ground arith

  fan_out-IsPushOrNone :
      (s : Server) (id : ℕ) → IsPushOrNone s (fan_out deps out ctx env nonce id s).server
  unfolding fan_out
  fan_out-IsPushOrNone s id =
      let t = publish_envelope out env.recipient_device_id id s in
      let (same, devices) = publish-same s id in
      elim (schedule-IsPushOrNone t) [
        | inl kept ↦ inl (kept ∙ same)
        | inr p ↦ inr (record {
          scheduled = p.scheduled ∙ ap (λ ps. ps ++ (push ∷ [])) same;
          no_ack = p.no_ack;
          no_socket =
              ap (λ ds. is_some (lookup env.recipient_device_id ds)) (sym devices) ∙ p.no_socket;
          no_subscriber = p.no_subscriber;
        })
      ]

  store-IsPushOrNone :
      (s : Server) → IsPushOrNone s (store_envelope deps out ctx env nonce s).server
  unfolding store_envelope
  store-IsPushOrNone s = elim (Bool-cases out.is_insert_ok) [
    | inr failed ↦ inl (ground (arith, failed))
    | inl inserts ↦ elim (Option-cases (select_by_nonce env.sender_device_id nonce s.envelopes)) [
      | inl fresh ↦
          rw (store-fresh deps out ctx env nonce s inserts fresh)
            (elim (fan_out-IsPushOrNone
              (record s {
                envelopes = s.envelopes ++ (new_row s.next_id env nonce ∷ []);
                next_id = suc s.next_id;
              })
              s.next_id) [
                | inl kept ↦ inl kept
                | inr p ↦ inr (record {
                  scheduled = p.scheduled;
                  no_ack = p.no_ack;
                  no_socket = p.no_socket;
                  no_subscriber = p.no_subscriber;
                })
              ])
      | inr (r, found) ↦ rw (store-conflict deps out ctx env nonce s inserts found) (
          inl (
            ap (λ (x : Server). x.scheduled)
              (reply_existing-server deps out ctx env nonce
                (record s { next_id = suc s.next_id }))))
    ]
  ]

  on_send-IsPushOrNone :
      (s : Server) → IsPushOrNone s (on_send_envelope deps out s ctx nonce env).server
  unfolding on_send_envelope
  on_send-IsPushOrNone s =
      let consumed =
        try_consume s.buckets ctx.device_id out.consume_now deps.send_envelope_bucket in
      elim (Bool-cases (str_eq env.sender_device_id ctx.device_id)) [
        | inr other ↦ rw other (inl refl)
        | inl own ↦ elim (Bool-cases consumed.allowed) [
          | inr limited ↦ rw (own, limited) (inl refl)
          | inl allowed ↦
              rw (own, allowed)
                (elim (store-IsPushOrNone (record s { buckets = consumed.buckets })) [
                  | inl kept ↦ inl kept
                  | inr p ↦ inr (record {
                    scheduled = p.scheduled;
                    no_ack = p.no_ack;
                    no_socket = p.no_socket;
                    no_subscriber = p.no_subscriber;
                  })
                ])
        ]
      ]

  payload :
      (resolve : String → Option (Option String)) (args : OfflinePushArgs)
      → run_offline_push resolve push ≡ some args
      → (args.device_id ≡ env.recipient_device_id)
        × (args.type ≡ push_type env.type)
        × (args.conversation_id ≡ env.session_id)
        × (resolve ctx.user_id ≡ some (some args.sender_handle))
  unfolding run_offline_push
  payload resolve args ran = elim (Option-cases (resolve ctx.user_id)) [
    | inl failed ↦ absurd (ground (arith, ran, failed))
    | inr (handle, answered) ↦ elim (Option-cases handle) [
      | inl unknown ↦ absurd (ground (arith, ran, answered, unknown))
      | inr (name, known) ↦ (
        ground (arith, ran, answered, known),
        ground (arith, ran, answered, known),
        ground (arith, ran, answered, known),
        ground (arith, ran, answered, known),
      )
    ]
  ]

  -- A SEND_ENVELOPE schedules no push, or one to the recipient of an envelope that is no ACK, where
  -- the device has no socket here and the publish found no subscriber; and the payload of that push
  -- has nothing of the envelope but the recipient, the kind of the message and the session.
  pub on_send_envelope-IsPushOrNone :
      (resolve : String → Option (Option String)) (s : Server)
      → IsPushOrNone s (on_send_envelope deps out s ctx nonce env).server
        × ((args : OfflinePushArgs)
            → run_offline_push resolve push ≡ some args
            → (args.device_id ≡ env.recipient_device_id)
              × (args.type ≡ push_type env.type)
              × (args.conversation_id ≡ env.session_id)
              × (resolve ctx.user_id ≡ some (some args.sender_handle)))
  on_send_envelope-IsPushOrNone resolve s = (on_send-IsPushOrNone s, payload resolve)

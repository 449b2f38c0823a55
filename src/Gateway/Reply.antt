-- ===== src/Gateway/Reply.antt =====
-- What a sender is told by `onSendEnvelope` of apps/api/src/ws/gateway.ts, and when a push is
-- scheduled.
use konvo_pro.Shared.{
  ◌≡◌, refl, arith, ◌⊎◌, inl, inr, String, str_eq, eq_refl, List, [], ◌∷◌, some, pos, Bool-cases,
  Option-cases,
}
use konvo_pro.Protocol.Messages.{CiphertextEnvelope, ErrorCode, error, internal, envelope_queued}
use konvo_pro.RateLimit.{try_consume}
use konvo_pro.Gateway.State.{EnvelopeRow, Server, WsContext, send}
use konvo_pro.Gateway.Envelopes.{
  SendDeps, Outside, select_by_nonce, new_row, fan_out, reply_existing, store_envelope,
  on_send_envelope,
}
use konvo_pro.Gateway.Outcome.{fan_out-Stored, store-fresh, store-conflict}
use konvo_pro.Gateway.Ledger.{select-append_none}

module _ (deps : SendDeps) (out : Outside) (ctx : WsContext) (env : CiphertextEnvelope)
    (nonce : String) where
  -- The one frame of the reply, on the rows that the call leaves.
  abbrev pub IsReply : List EnvelopeRow → WsContext → Type 0
  IsReply rows after =
      ((code : ErrorCode) × (text : String) × (after ≡ send ctx (error code text)))
      ⊎ ((r : EnvelopeRow) × (select_by_nonce env.sender_device_id nonce rows ≡ some r)
          × (after ≡ send ctx (envelope_queued nonce (pos r.id) (pos out.reply_now))))

  reply_existing-IsReply :
      (t : Server) → let h = reply_existing out ctx env nonce t in IsReply h.server.envelopes h.ctx
  unfolding reply_existing
  reply_existing-IsReply t = elim (Bool-cases out.is_lookup_ok) [
    | inr failed ↦ inl (internal, "internal error", ground (arith, failed))
    | inl looked ↦
        elim (Option-cases (select_by_nonce env.sender_device_id nonce (out.between t.envelopes))) [
          | inl gone ↦ inl (internal, "internal error", ground (arith, looked, gone))
          | inr (r, found) ↦ inr (r, ground (arith, looked, found), ground (arith, looked, found))
        ]
  ]

  store_envelope-IsReply :
      (s : Server)
      → let h = store_envelope deps out ctx env nonce s in IsReply h.server.envelopes h.ctx
  unfolding store_envelope fan_out select_by_nonce
  store_envelope-IsReply s = elim (Bool-cases out.is_insert_ok) [
    | inr failed ↦ inl (internal, "internal error", ground (arith, failed))
    | inl inserts ↦ elim (Option-cases (select_by_nonce env.sender_device_id nonce s.envelopes)) [
      | inr (r, found) ↦
          rw (store-conflict deps out ctx env nonce s inserts found) (reply_existing-IsReply _)
      | inl fresh ↦
          let row = new_row s.next_id env nonce in
          let stored = fan_out-Stored deps out ctx env nonce s fresh in
          let last = select-append_none env.sender_device_id nonce s.envelopes (row ∷ []) fresh in
          rw (store-fresh deps out ctx env nonce s inserts fresh) (
            inr (
              row,
              rw (stored.rows, last) (rw (eq_refl env.sender_device_id, eq_refl nonce) refl),
              refl,
            ))
    ]
  ]

  -- Every SEND_ENVELOPE is answered by one frame, whatever fails: an error, or ENVELOPE_QUEUED with
  -- the id of the row that the table has for the sender and the nonce after the call.
  pub on_send_envelope-IsReply :
      (s : Server)
      → let h = on_send_envelope deps out s ctx nonce env in IsReply h.server.envelopes h.ctx
  unfolding on_send_envelope
  on_send_envelope-IsReply s =
      let consumed =
        try_consume s.buckets ctx.device_id out.consume_now deps.send_envelope_bucket in
      elim (Bool-cases (str_eq env.sender_device_id ctx.device_id)) [
        | inr other ↦ rw other (inl (_, _, refl))
        | inl own ↦ elim (Bool-cases consumed.allowed) [
          | inr limited ↦ rw (own, limited) (inl (_, _, refl))
          | inl allowed ↦
              rw (own, allowed) (store_envelope-IsReply (record s { buckets = consumed.buckets }))
        ]
      ]

-- ===== src/Gateway/Outcome.antt =====
-- What one `onSendEnvelope` of apps/api/src/ws/gateway.ts can do to the table and to the channels.
use konvo_pro.Shared.{
  ℕ, suc, ◌≤◌, ◌≡◌, refl, ◌∙◌, eq_iff, arith, true, ◌⊎◌, inl, inr, String, str_eq, List, [], ◌∷◌,
  ◌++◌, none, some, Bool-cases, Option-cases,
}
use konvo_pro.Protocol.Messages.{CiphertextEnvelope}
use konvo_pro.RateLimit.{try_consume}
use konvo_pro.Gateway.State.{EnvelopeRow, Server, WsContext}
use konvo_pro.Gateway.Envelopes.{
  SendDeps, Outside, select_by_nonce, new_row, insert_envelope, schedule_offline_push,
  publish_envelope, fan_out, reply_existing, store_envelope, on_send_envelope,
}

-- The table and the channels are as before.
pub record Kept (s t : Server) : Type 0 where
  pub rows : t.envelopes ≡ s.envelopes
  pub published : t.published ≡ s.published
  pub scheduled : t.scheduled ≡ s.scheduled
  pub next : s.next_id ≤ t.next_id

-- One row is new, and at most one publish, which is the row's.
pub record Stored (env : CiphertextEnvelope) (nonce : String) (s t : Server) : Type 0 where
  pub fresh : select_by_nonce env.sender_device_id nonce s.envelopes ≡ none
  pub rows : t.envelopes ≡ s.envelopes ++ (new_row s.next_id env nonce ∷ [])
  pub published :
      (t.published ≡ s.published)
      ⊎ (t.published
          ≡ s.published
            ++ (record { recipient = env.recipient_device_id; envelope_id = s.next_id } ∷ []))
  pub next : t.next_id ≡ suc s.next_id

-- No one else writes between the two statements of a retry.
abbrev pub IsQuiet : Outside → Type 0
IsQuiet out = (rows : List EnvelopeRow) → out.between rows ≡ rows

module _ (deps : SendDeps) (out : Outside) (ctx : WsContext) (env : CiphertextEnvelope)
    (nonce : String) where
  schedule-keeps :
      (s : Server)
      → let t = schedule_offline_push deps out ctx env s in
        (t.envelopes ≡ s.envelopes) × (t.published ≡ s.published) × (t.next_id ≡ s.next_id)
  unfolding schedule_offline_push
  schedule-keeps s = ground arith

  publish-keeps :
      (s : Server) (id : ℕ)
      → let t = publish_envelope out env.recipient_device_id id s in
        (t.envelopes ≡ s.envelopes)
        × (t.next_id ≡ s.next_id)
        × ((t.published ≡ s.published)
            ⊎ (t.published
                ≡ s.published
                  ++ (record { recipient = env.recipient_device_id; envelope_id = id } ∷ [])))
  unfolding publish_envelope
  publish-keeps s id = elim (Option-cases out.publish) [
    | inl failed ↦ rw failed (refl, refl, inl refl)
    | inr (n, sent) ↦ rw sent (refl, refl, inr refl)
  ]

  pub reply_existing-server :
      (s : Server)
      → (reply_existing out ctx env nonce s).server
        ≡ record s { envelopes = out.between s.envelopes }
  unfolding reply_existing
  reply_existing-server s = ground arith

  pub insert-conflict :
      (s : Server) {r : EnvelopeRow}
      → select_by_nonce env.sender_device_id nonce s.envelopes ≡ some r
      → insert_envelope s env nonce
        ≡ record { row = none; server = record s { next_id = suc s.next_id } }
  unfolding insert_envelope
  insert-conflict s found = ground (arith, found)

  pub insert-fresh :
      (s : Server)
      → select_by_nonce env.sender_device_id nonce s.envelopes ≡ none
      → insert_envelope s env nonce ≡ record {
        row = some s.next_id;
        server = record s {
          envelopes = s.envelopes ++ (new_row s.next_id env nonce ∷ []);
          next_id = suc s.next_id;
        };
      }
  unfolding insert_envelope
  insert-fresh s fresh = ground (arith, fresh)

  reply-Kept :
      (s : Server)
      → IsQuiet out
      → Kept s (reply_existing out ctx env nonce (record s { next_id = suc s.next_id })).server
  reply-Kept s quiet =
      rw (reply_existing-server (record s { next_id = suc s.next_id })) (record {
        rows = quiet s.envelopes;
        published = refl;
        scheduled = refl;
        next = omega arith;
      })

  pub fan_out-Stored :
      (s : Server)
      → select_by_nonce env.sender_device_id nonce s.envelopes ≡ none
      → let t = record s {
        envelopes = s.envelopes ++ (new_row s.next_id env nonce ∷ []);
        next_id = suc s.next_id;
      } in
        Stored env nonce s (fan_out deps out ctx env nonce s.next_id t).server
  unfolding fan_out
  fan_out-Stored s fresh =
      let t = record s {
        envelopes = s.envelopes ++ (new_row s.next_id env nonce ∷ []);
        next_id = suc s.next_id;
      } in
      let (rows, next, channel) = publish-keeps t s.next_id in
      let (rows', channel', next') =
        schedule-keeps (publish_envelope out env.recipient_device_id s.next_id t) in
      record {
        fresh = fresh;
        rows = rows' ∙ rows;
        next = next' ∙ next;
        published = elim channel [ inl e ↦ inl (channel' ∙ e) | inr e ↦ inr (channel' ∙ e) ];
      }

  pub store-fresh :
      (s : Server)
      → out.is_insert_ok ≡ true
      → select_by_nonce env.sender_device_id nonce s.envelopes ≡ none
      → store_envelope deps out ctx env nonce s
        ≡ fan_out deps out ctx env nonce s.next_id (record s {
          envelopes = s.envelopes ++ (new_row s.next_id env nonce ∷ []);
          next_id = suc s.next_id;
        })
  unfolding store_envelope
  store-fresh s stored fresh = ground (arith, stored, insert-fresh s fresh)

  pub store-conflict :
      (s : Server) {r : EnvelopeRow}
      → out.is_insert_ok ≡ true
      → select_by_nonce env.sender_device_id nonce s.envelopes ≡ some r
      → store_envelope deps out ctx env nonce s
        ≡ reply_existing out ctx env nonce (record s { next_id = suc s.next_id })
  unfolding store_envelope
  store-conflict s stored found = ground (arith, stored, insert-conflict s found)

  store_envelope-Outcome :
      (s : Server)
      → IsQuiet out
      → let t = (store_envelope deps out ctx env nonce s).server in Kept s t ⊎ Stored env nonce s t
  unfolding store_envelope
  store_envelope-Outcome s quiet = elim (Bool-cases out.is_insert_ok) [
    | inr failed ↦
        rw failed
          (inl (record { rows = refl; published = refl; scheduled = refl; next = omega arith }))
    | inl stored ↦ elim (Option-cases (select_by_nonce env.sender_device_id nonce s.envelopes)) [
      | inl fresh ↦ rw (store-fresh s stored fresh) (inr (fan_out-Stored s fresh))
      | inr (r, found) ↦ rw (store-conflict s stored found) (inl (reply-Kept s quiet))
    ]
  ]

  -- A frame is the device's own where a row is stored.
  pub on_send_envelope-Outcome :
      (s : Server)
      → IsQuiet out
      → let t = (on_send_envelope deps out s ctx nonce env).server in
        Kept s t ⊎ ((env.sender_device_id ≡ ctx.device_id) × Stored env nonce s t)
  unfolding on_send_envelope
  on_send_envelope-Outcome s quiet =
      let consumed =
        try_consume s.buckets ctx.device_id out.consume_now deps.send_envelope_bucket in
      elim (Bool-cases (str_eq env.sender_device_id ctx.device_id)) [
        | inr other ↦
            rw other
              (inl (record { rows = refl; published = refl; scheduled = refl; next = omega arith }))
        | inl own ↦ elim (Bool-cases consumed.allowed) [
          | inr limited ↦
              rw (own, limited)
                (inl
                  (record { rows = refl; published = refl; scheduled = refl; next = omega arith }))
          | inl allowed ↦
              let same = (eq_iff env.sender_device_id ctx.device_id).0 own in
              rw (own, allowed)
                (elim (store_envelope-Outcome (record s { buckets = consumed.buckets }) quiet) [
                  | inl k ↦ inl (record {
                    rows = k.rows;
                    published = k.published;
                    scheduled = k.scheduled;
                    next = k.next;
                  })
                  | inr k ↦ inr (
                    same,
                    record {
                      fresh = k.fresh;
                      rows = k.rows;
                      published = k.published;
                      next = k.next;
                    },
                  )
                ])
        ]
      ]

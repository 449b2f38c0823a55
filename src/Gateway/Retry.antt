-- ===== src/Gateway/Retry.antt =====
-- A SEND_ENVELOPE frame that the client sends again: the reply of `onSendEnvelope` of
-- apps/api/src/ws/gateway.ts to each.
use konvo_pro.Shared.{
  suc, ◌≡◌, refl, ap, ◌∙◌, arith, true, String, eq_iff, eq_refl, List, [], ◌∷◌, none, some, pos,
}
use konvo_pro.Protocol.Messages.{CiphertextEnvelope, envelope_queued}
use konvo_pro.RateLimit.{try_consume}
use konvo_pro.Gateway.State.{EnvelopeRow, Server, WsContext, send}
use konvo_pro.Gateway.Envelopes.{
  SendDeps, Outside, select_by_nonce, new_row, fan_out, reply_existing, store_envelope,
  on_send_envelope,
}
use konvo_pro.Gateway.Outcome.{
  IsQuiet, fan_out-Stored, reply_existing-server, store-fresh, store-conflict,
}
use konvo_pro.Gateway.Ledger.{Sending, AreQuiet, run_sends, select-run_sends, select-append_none}

-- The frame is the device's own, the limiter lets it through, and Postgres answers.
pub record IsServed (deps : SendDeps) (out : Outside) (s : Server) (ctx : WsContext)
    (env : CiphertextEnvelope) : Type 0 where
  pub own : env.sender_device_id ≡ ctx.device_id
  pub allowed :
      (try_consume s.buckets ctx.device_id out.consume_now deps.send_envelope_bucket).allowed ≡ true
  pub inserts : out.is_insert_ok ≡ true
  pub looks_up : out.is_lookup_ok ≡ true
  pub quiet : IsQuiet out

module _ (deps : SendDeps) (out : Outside) (s : Server) (ctx : WsContext) (env : CiphertextEnvelope)
    (nonce : String) (served : IsServed deps out s ctx env) where
  limited : Server
  limited = record s {
    buckets =
        (try_consume s.buckets ctx.device_id out.consume_now deps.send_envelope_bucket).buckets;
  }

  on_send-store :
      on_send_envelope deps out s ctx nonce env ≡ store_envelope deps out ctx env nonce limited
  unfolding on_send_envelope limited
  on_send-store =
      ground (arith, served.allowed, (eq_iff env.sender_device_id ctx.device_id).1 served.own)

  reply_found :
      {r : EnvelopeRow} (t : Server)
      → select_by_nonce env.sender_device_id nonce t.envelopes ≡ some r
      → let h = reply_existing out ctx env nonce t in
        (h.ctx ≡ send ctx (envelope_queued nonce (pos r.id) (pos out.reply_now)))
        × (h.server.envelopes ≡ t.envelopes)
        × (h.server.published ≡ t.published)
  unfolding reply_existing
  reply_found {r} t found =
      let still : select_by_nonce env.sender_device_id nonce (out.between t.envelopes) ≡ some r =
        rw (served.quiet t.envelopes) found in
      let server = reply_existing-server deps out ctx env nonce t in
      (
        ground (arith, served.looks_up, still),
        ap (λ (x : Server). x.envelopes) server ∙ served.quiet t.envelopes,
        ap (λ (x : Server). x.published) server,
      )

  on_send_again :
      {r : EnvelopeRow}
      → select_by_nonce env.sender_device_id nonce s.envelopes ≡ some r
      → let h = on_send_envelope deps out s ctx nonce env in
        (h.ctx ≡ send ctx (envelope_queued nonce (pos r.id) (pos out.reply_now)))
        × (h.server.envelopes ≡ s.envelopes)
        × (h.server.published ≡ s.published)
  unfolding limited
  on_send_again found =
      rw (on_send-store, store-conflict deps out ctx env nonce limited served.inserts found)
        (reply_found (record limited { next_id = suc s.next_id }) found)

  on_send_first :
      select_by_nonce env.sender_device_id nonce s.envelopes ≡ none
      → let h = on_send_envelope deps out s ctx nonce env in
        (h.ctx ≡ send ctx (envelope_queued nonce (pos s.next_id) (pos out.reply_now)))
        × (select_by_nonce env.sender_device_id nonce h.server.envelopes
            ≡ some (new_row s.next_id env nonce))
  unfolding limited fan_out select_by_nonce
  on_send_first fresh =
      let stored = fan_out-Stored deps out ctx env nonce limited fresh in
      rw (on_send-store, store-fresh deps out ctx env nonce limited served.inserts fresh)
        (
          refl,
          rw
              (
                stored.rows,
                select-append_none env.sender_device_id nonce s.envelopes
                    (new_row s.next_id env nonce ∷ []) fresh,
              )
              (rw (eq_refl env.sender_device_id, eq_refl nonce) refl),
        )

-- Where the limiter lets both frames through and Postgres answers, a nonce that the sender has no row
-- for is answered with the next id of the sequence, and the table then has a row of that id, with the
-- frame's nonce, devices and ciphertext, for the sender and the nonce; a retry of the frame, on any
-- connection of the device and after any other sends, is answered with the same id, adds no row and
-- publishes nothing.
pub on_send_envelope-retry :
    (deps : SendDeps) (s : Server) (env : CiphertextEnvelope) (nonce : String) (out : Outside)
    (ctx : WsContext) (ks : List Sending) (out' : Outside) (ctx' : WsContext)
    → IsServed deps out s ctx env
    → select_by_nonce env.sender_device_id nonce s.envelopes ≡ none
    → AreQuiet ks
    → let first = on_send_envelope deps out s ctx nonce env in
      let later = run_sends first.server ks in
      IsServed deps out' later ctx' env
      → let retry = on_send_envelope deps out' later ctx' nonce env in
        (first.ctx ≡ send ctx (envelope_queued nonce (pos s.next_id) (pos out.reply_now)))
        × ((r : EnvelopeRow) × (select_by_nonce env.sender_device_id nonce first.server.envelopes
              ≡ some r)
            × (r.id ≡ s.next_id)
            × (r.client_nonce ≡ nonce)
            × (r.recipient_device ≡ env.recipient_device_id)
            × (r.ciphertext ≡ env.ciphertext))
        × (retry.ctx ≡ send ctx' (envelope_queued nonce (pos s.next_id) (pos out'.reply_now)))
        × (retry.server.envelopes ≡ later.envelopes)
        × (retry.server.published ≡ later.published)
on_send_envelope-retry deps s env nonce out ctx ks out' ctx' served fresh quiet again =
    let (reply, there) = on_send_first deps out s ctx env nonce served fresh in
    let first = on_send_envelope deps out s ctx nonce env in
    let later = run_sends first.server ks in
    let still = select-run_sends env.sender_device_id nonce first.server ks quiet there in
    let (reply', rows, published) = on_send_again deps out' later ctx' env nonce again still in
    (reply, (new_row s.next_id env nonce, there, refl, refl, refl, refl), reply', rows, published)

-- ===== src/Gateway/Senders.antt =====
-- Who can write what through `handleClientMessage` of apps/api/src/ws/gateway.ts.
use konvo_pro.Shared.{
  ◌≡◌, refl, ◌∙◌, ap, true, ◌⊎◌, inl, inr, String, Option, some, Bool-cases, Option-cases,
  if◌then◌else◌, arith,
}
use konvo_pro.Crypto.{Bytes}
use konvo_pro.Protocol.Messages.{
  CiphertextEnvelope, ClientToServer, hello, send_envelope, envelope_received, presence_ping,
  subscribe_room, unsubscribe_room,
}
use konvo_pro.Protocol.Codec.{Msgpack}
use konvo_pro.Gateway.State.{Server, WsContext}
use konvo_pro.Gateway.Envelopes.{SendDeps}
use konvo_pro.Gateway.Outcome.{Stored, IsQuiet, on_send_envelope-Outcome}
use konvo_pro.Gateway.Dispatch.{
  Moment, try_decode, after_hello, before_hello, on_presence_ping, on_envelope_received,
  handle_client_message,
}
use konvo_pro.Gateway.Handshake.{
  handle_client_message-IsHandshake, handle-malformed, handle-decoded,
}

module _ (mp : Msgpack) (deps : SendDeps) (at : Moment) (quiet : IsQuiet at.sending) where
  -- The table and the channels are kept, or the frame is a SEND_ENVELOPE of the token's own device
  -- past HELLO, and its row is new.
  abbrev pub IsWrite : WsContext → Server → Option ClientToServer → Server → Type 0
  IsWrite ctx s msg t =
      ((t.envelopes ≡ s.envelopes) × (t.published ≡ s.published))
      ⊎ ((env : CiphertextEnvelope) × (nonce : String) × (ctx.hello_received ≡ true)
          × (msg ≡ some (send_envelope nonce env))
          × (env.sender_device_id ≡ ctx.device_id)
          × Stored env nonce s t)

  ping-keeps :
      (s : Server) (ctx : WsContext) (m : Option ClientToServer)
      → IsWrite ctx s m (on_presence_ping at.pinging s ctx)
  unfolding on_presence_ping
  ping-keeps s ctx m = inl (ground arith, ground arith)

  after_hello-IsWrite :
      (s : Server) (ctx : WsContext) (m : ClientToServer)
      → ctx.hello_received ≡ true
      → IsWrite ctx s (some m) (after_hello deps at s ctx m).server
  unfolding after_hello on_envelope_received
  after_hello-IsWrite s ctx (hello d) past = inl (refl, refl)
  after_hello-IsWrite s ctx (send_envelope n e) past =
      elim (on_send_envelope-Outcome deps at.sending ctx e n s quiet) [
        | inl kept ↦ inl (kept.rows, kept.published)
        | inr (own, stored) ↦ inr (e, n, past, refl, own, stored)
      ]
  after_hello-IsWrite s ctx (envelope_received i) past = inl (refl, refl)
  after_hello-IsWrite s ctx presence_ping past = ping-keeps s ctx _
  after_hello-IsWrite s ctx (subscribe_room r) past = inl (refl, refl)
  after_hello-IsWrite s ctx (unsubscribe_room r) past = inl (refl, refl)

  -- No bytes that a client sends can add a row or a publish except as a SEND_ENVELOPE past HELLO
  -- that carries the device id of the connection's own token; then one row is new, with at most one
  -- publish, which is the row's. (No other writer of the table in between.)
  pub handle_client_message-IsWrite :
      (s : Server) (ctx : WsContext) (raw : Bytes)
      → IsWrite ctx s (try_decode mp raw) (handle_client_message mp deps at s ctx raw).server
  handle_client_message-IsWrite s ctx raw = elim (Bool-cases ctx.hello_received) [
    | inr before ↦
        let same = (handle_client_message-IsHandshake mp deps at s ctx raw before).0 in
        inl (ap (λ (x : Server). x.envelopes) same, ap (λ (x : Server). x.published) same)
    | inl past ↦ elim (Option-cases (try_decode mp raw)) [
      | inl bad ↦ rw (handle-malformed mp deps at s ctx raw bad) (inl (refl, refl))
      | inr (m, good) ↦
          let e : handle_client_message mp deps at s ctx raw ≡ after_hello deps at s ctx m =
            handle-decoded mp deps at s ctx raw good
            ∙ ap (λ b. if b then after_hello deps at s ctx m else before_hello at s ctx m) past in
          rw (e, good) (after_hello-IsWrite s ctx m past)
    ]
  ]

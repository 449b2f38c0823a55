-- ===== src/Gateway/Handshake.antt =====
-- `handleClientMessage` of apps/api/src/ws/gateway.ts before and after HELLO: what a frame can reach.
use konvo_pro.Shared.{
  ◌≡◌, refl, ◌∙◌, arith, true, false, inl, inr, String, eq_iff, Option, none, some, if◌then◌else◌,
  Option-cases, ap,
}
use konvo_pro.Crypto.{Bytes}
use konvo_pro.Protocol.Messages.{
  ClientToServer, hello, send_envelope, envelope_received, presence_ping, subscribe_room,
  unsubscribe_room, ErrorCode, invalid_payload,
}
use konvo_pro.Protocol.Codec.{Msgpack}
use konvo_pro.Gateway.State.{Server, WsContext, send, reject_and_close, close}
use konvo_pro.Gateway.Envelopes.{SendDeps}
use konvo_pro.Gateway.Hello.{HelloOutside, handle_hello}
use konvo_pro.Gateway.Dispatch.{
  Moment, try_decode, before_hello, after_hello, on_client_message, handle_client_message,
}

reject-hello_received :
    (ctx : WsContext) (code : ErrorCode) (text : String)
    → (reject_and_close ctx code text).hello_received ≡ ctx.hello_received
unfolding reject_and_close send close
reject-hello_received ctx code text = ground arith

handle_hello-device :
    (out : HelloOutside) (s : Server) (ctx : WsContext) (device_id : String)
    → ctx.hello_received ≡ false
    → (handle_hello out s ctx device_id).hello_received ≡ true
    → device_id ≡ ctx.device_id
unfolding handle_hello
handle_hello-device out s ctx device_id before after =
    ground (arith, before, after, eq_iff device_id ctx.device_id, reject-hello_received ctx)

module _ (mp : Msgpack) (deps : SendDeps) (at : Moment) where
  -- The server is as it was, and a HELLO that is taken names the token's device.
  abbrev pub IsHandshake : Server → WsContext → Option ClientToServer → Server → WsContext → Type 0
  IsHandshake s ctx msg t after =
      (t ≡ s) × (after.hello_received ≡ true → msg ≡ some (hello ctx.device_id))

  rejected :
      (s : Server) (ctx : WsContext) (m : Option ClientToServer) (code : ErrorCode) (text : String)
      → ctx.hello_received ≡ false
      → IsHandshake s ctx m s (reject_and_close ctx code text)
  rejected s ctx m code text before =
      (refl, λ taken. absurd (ground (arith, before, taken, reject-hello_received ctx code text)))

  before_hello-IsHandshake :
      (s : Server) (ctx : WsContext) (m : ClientToServer)
      → ctx.hello_received ≡ false
      → let h = before_hello at s ctx m in IsHandshake s ctx (some m) h.server h.ctx
  unfolding before_hello
  before_hello-IsHandshake s ctx (hello d) before = (
    refl,
    λ taken. ap (λ x. some (hello x)) (handle_hello-device at.greeting s ctx d before taken),
  )
  before_hello-IsHandshake s ctx (send_envelope n e) before = rejected s ctx _ _ _ before
  before_hello-IsHandshake s ctx (envelope_received i) before = rejected s ctx _ _ _ before
  before_hello-IsHandshake s ctx presence_ping before = rejected s ctx _ _ _ before
  before_hello-IsHandshake s ctx (subscribe_room r) before = rejected s ctx _ _ _ before
  before_hello-IsHandshake s ctx (unsubscribe_room r) before = rejected s ctx _ _ _ before

  pub handle-malformed :
      (s : Server) (ctx : WsContext) (raw : Bytes)
      → try_decode mp raw ≡ none
      → handle_client_message mp deps at s ctx raw
        ≡ record { server = s; ctx = reject_and_close ctx invalid_payload "malformed frame" }
  unfolding handle_client_message
  handle-malformed s ctx raw bad = ground (arith, bad)

  pub handle-decoded :
      (s : Server) (ctx : WsContext) (raw : Bytes) {m : ClientToServer}
      → try_decode mp raw ≡ some m
      → handle_client_message mp deps at s ctx raw
        ≡ (if ctx.hello_received then after_hello deps at s ctx m else before_hello at s ctx m)
  unfolding handle_client_message on_client_message
  handle-decoded s ctx raw good = ground (arith, good)

  -- Before HELLO no frame, whatever its bytes, changes the server; and the connection is past HELLO
  -- after it only if the frame is the HELLO of the token's own device.
  pub handle_client_message-IsHandshake :
      (s : Server) (ctx : WsContext) (raw : Bytes)
      → ctx.hello_received ≡ false
      → let h = handle_client_message mp deps at s ctx raw in
        IsHandshake s ctx (try_decode mp raw) h.server h.ctx
  handle_client_message-IsHandshake s ctx raw before = elim (Option-cases (try_decode mp raw)) [
    | inl bad ↦ rw (handle-malformed s ctx raw bad) (rejected s ctx (try_decode mp raw) _ _ before)
    | inr (m, good) ↦
        let e : handle_client_message mp deps at s ctx raw ≡ before_hello at s ctx m =
          handle-decoded s ctx raw good
          ∙ ap (λ b. if b then after_hello deps at s ctx m else before_hello at s ctx m) before in
        rw (e, good) (before_hello-IsHandshake s ctx m before)
  ]

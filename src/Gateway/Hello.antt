-- ===== src/Gateway/Hello.antt =====
-- The access-token check and the HELLO handshake of apps/api/src/ws/gateway.ts.
use konvo_pro.Shared.{
  ℕ, suc, ◌+◌, min, Bool, true, not, ◌&&◌, ◌||◌, ltb, String, str_eq, List, [], ◌∷◌, Option, none,
  some, pos, if◌then◌else◌, Result, ok, err,
}
use konvo_pro.Protocol.Messages.{ServerToClient, auth_required, internal, hello_ok}
use konvo_pro.Gateway.State.{EnvelopeRow, Server, WsContext, send, reject_and_close}

abbrev pub min_token_lifetime_sec : ℕ
min_token_lifetime_sec = 600

abbrev pub queued_count_cap : ℕ
queued_count_cap = 10000

-- The claims that `verify` returns.
pub record Claims : Type 0 where
  pub sub : String
  pub did : String
  pub exp : ℕ

pub data Refusal : Type 0 where
  missing_token invalid_token token_too_short : Refusal

pub record Identity : Type 0 where
  pub user_id : String
  pub device_id : String

-- On what `extractToken` found, with `AccessTokenService.verify`, `none` where it throws.
-- `exp - nowSec < 600` is written without the difference.
unfoldable pub authenticate : (String → Option Claims) → Option String → ℕ → Result Refusal Identity
authenticate verify none now_sec = err missing_token
authenticate verify (some token) now_sec = elim (verify token) [
  | none ↦ err invalid_token
  | some claims ↦
      if ltb claims.exp (now_sec + min_token_lifetime_sec)
      then err token_too_short
      else if str_eq claims.sub "" || str_eq claims.did ""
      then err invalid_token
      else ok (record { user_id = claims.sub; device_id = claims.did })
]

unfoldable pub count_undelivered : String → List EnvelopeRow → ℕ
count_undelivered device_id [] = 0
count_undelivered device_id (r ∷ rs) =
    (if str_eq r.recipient_device device_id && not r.is_delivered then 1 else 0)
    + count_undelivered device_id rs

-- The inner SELECT stops at one row more than the cap.
unfoldable pub queued_count_for_device : List EnvelopeRow → String → ℕ
queued_count_for_device rows device_id =
    let parsed = min (suc queued_count_cap) (count_undelivered device_id rows) in
    if ltb queued_count_cap parsed then queued_count_cap else parsed

-- What `attachInbox` does: the frames it sends before it is done or fails.
pub data Attach : Type 0 where
  no_attacher : Attach
  attach_fails attached : List ServerToClient → Attach

pub record HelloOutside : Type 0 where
  pub now : ℕ
  pub is_count_ok : Bool
  pub attach : Attach

unfoldable pub send_all : WsContext → List ServerToClient → WsContext
unfolding send
send_all ctx [] = ctx
send_all ctx (f ∷ fs) = send_all (send ctx f) fs

unfoldable pub attach_inbox : Attach → WsContext → WsContext
unfolding send_all
attach_inbox no_attacher ctx = ctx
attach_inbox (attach_fails fs) ctx = send_all ctx fs
attach_inbox (attached fs) ctx = record (send_all ctx fs) { inbox_handle = true }

-- The message has passed the codec, so its `protoVersion` is 1 and the first check never fires.
unfoldable pub handle_hello : HelloOutside → Server → WsContext → String → WsContext
unfolding reject_and_close attach_inbox send
handle_hello out server ctx device_id =
    if str_eq device_id ctx.device_id
    then (if out.is_count_ok
        then attach_inbox out.attach (
            send (record ctx { hello_received = true })
              (hello_ok (pos out.now)
                (pos (queued_count_for_device server.envelopes ctx.device_id))))
        else reject_and_close ctx internal "internal error")
    else reject_and_close ctx auth_required "deviceId does not match token"

-- ===== src/Gateway/State.antt =====
-- What apps/api/src/ws/gateway.ts reads and writes: the server's tables and registries, and the
-- `WSContext` of one connection.
use konvo_pro.Shared.{ℕ, Bool, true, false, String, List, [], ◌∷◌, ◌++◌, if◌then◌else◌}
use konvo_pro.Crypto.{Bytes}
use konvo_pro.Protocol.Messages.{EnvelopeRouterType, ErrorCode, ServerToClient, error}
use konvo_pro.RateLimit.{Buckets}

-- A row of `ciphertext_envelopes`, the columns that the gateway writes or asks for.
pub record EnvelopeRow : Type 0 where
  pub id : ℕ
  pub session_id : String
  pub sender_device : String
  pub recipient_device : String
  pub ciphertext : Bytes
  pub type : EnvelopeRouterType
  pub client_nonce : String
  pub is_delivered : Bool

-- The payload that Redis gets on the channel of `recipient`.
pub record Publish : Type 0 where
  pub recipient : String
  pub envelope_id : ℕ

pub data PushType : Type 0 where
  dm_message dm_call : PushType

-- What the scheduled callback of the offline push closes over.
pub record OfflinePush : Type 0 where
  pub delay_ms : ℕ
  pub recipient_device_id : String
  pub conversation_id : String
  pub sender_user_id : String
  pub push_type : PushType

-- `routed` has the label of each increment of the counter of routed envelopes. `next_id` is the sequence of the BIGSERIAL key; `scheduled` is what the scheduler was given.
pub record Server : Type 0 where
  pub envelopes : List EnvelopeRow
  pub next_id : ℕ
  pub buckets : Buckets
  pub published : List Publish
  pub scheduled : List OfflinePush
  pub connected_devices : List (String × Unit {0})
  pub last_seen : List (String × ℕ)
  pub presence : List (String × ℕ)
  pub envelope_received_count : ℕ
  pub rate_limited_total : ℕ
  pub offline_queued_total : ℕ
  pub routed : List EnvelopeRouterType

-- `sent` is what was handed to an open socket. `room_listeners` and `inbox_handle` are the slots
-- `__roomListeners` and `__inboxHandle`; a listener is known by its slug.
pub record WsContext : Type 0 where
  pub user_id : String
  pub device_id : String
  pub hello_received : Bool
  pub is_open : Bool
  pub sent : List ServerToClient
  pub subscribed_rooms : List (String × Unit {0})
  pub room_listeners : List (String × Unit {0})
  pub inbox_handle : Bool

-- `buildContext`, for a socket that is open.
unfoldable pub build_context : String → String → WsContext
build_context user_id device_id = record {
  user_id = user_id;
  device_id = device_id;
  hello_received = false;
  is_open = true;
  sent = [];
  subscribed_rooms = [];
  room_listeners = [];
  inbox_handle = false;
}

unfoldable pub send : WsContext → ServerToClient → WsContext
send ctx msg = if ctx.is_open then record ctx { sent = ctx.sent ++ (msg ∷ []) } else ctx

unfoldable pub close : WsContext → WsContext
close ctx = record ctx { is_open = false }

unfoldable pub reject_and_close : WsContext → ErrorCode → String → WsContext
unfolding send close
reject_and_close ctx code message = close (send ctx (error code message))

pub record Handled : Type 0 where
  pub server : Server
  pub ctx : WsContext

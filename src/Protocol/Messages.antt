-- ===== src/Protocol/Messages.antt =====
-- packages/protocol/src/envelopes.ts and ws-messages.ts: the types of the wire, and the numbers of
-- their enums.
use konvo_pro.Shared.{ℕ, String, ℤ, Option}
use konvo_pro.Crypto.{Bytes}

pub data EnvelopeRouterType : Type 0 where
  message ack call : EnvelopeRouterType

abbrev pub router_code : EnvelopeRouterType → ℕ
router_code message = 1
router_code ack = 2
router_code call = 3

pub record CiphertextEnvelope : Type 0 where
  pub id : Option ℤ
  pub session_id : String
  pub sender_device_id : String
  pub recipient_device_id : String
  pub type : EnvelopeRouterType
  pub ciphertext : Bytes
  pub created_at : Option ℤ

pub data ErrorCode : Type 0 where
  auth_required rate_limited invalid_payload recipient_unknown internal : ErrorCode

abbrev pub error_code : ErrorCode → ℕ
error_code auth_required = 1
error_code rate_limited = 2
error_code invalid_payload = 3
error_code recipient_unknown = 4
error_code internal = 99

pub data ClientToServer : Type 0 where
  hello : String → ClientToServer
  send_envelope : String → CiphertextEnvelope → ClientToServer
  envelope_received : ℤ → ClientToServer
  presence_ping : ClientToServer
  subscribe_room : String → ClientToServer
  unsubscribe_room : String → ClientToServer

-- The discriminator `t`; the `protoVersion` of `hello` is the literal 1.
abbrev pub c2s_code : ClientToServer → ℕ
c2s_code (hello device_id) = 1
c2s_code (send_envelope nonce envelope) = 2
c2s_code (envelope_received id) = 3
c2s_code presence_ping = 4
c2s_code (subscribe_room slug) = 5
c2s_code (unsubscribe_room slug) = 6

pub record BroadcastPost : Type 0 where
  pub id : ℤ
  pub room_id : String
  pub author_user_id : String
  pub author_handle : String
  pub author_identity_pub : Bytes
  pub body : String
  pub author_signature : Bytes
  pub created_at : ℤ

pub data ServerToClient : Type 0 where
  hello_ok : ℤ → ℤ → ServerToClient
  envelope : CiphertextEnvelope → ServerToClient
  envelope_queued : String → ℤ → ℤ → ServerToClient
  room_post : BroadcastPost → ServerToClient
  error : ErrorCode → String → ServerToClient

abbrev pub s2c_code : ServerToClient → ℕ
s2c_code (hello_ok time queued) = 101
s2c_code (envelope e) = 102
s2c_code (envelope_queued nonce id time) = 103
s2c_code (room_post post) = 104
s2c_code (error code text) = 199

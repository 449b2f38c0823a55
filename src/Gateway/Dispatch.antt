-- ===== src/Gateway/Dispatch.antt =====
-- `handleClientMessage` of apps/api/src/ws/gateway.ts, with its two small handlers.
use konvo_pro.Shared.{
  ℕ, suc, Bool, Option, none, some, insert, Result-cases, inl, inr, if◌then◌else◌,
}
use konvo_pro.Crypto.{Bytes}
use konvo_pro.Protocol.Messages.{
  ClientToServer, hello, send_envelope, envelope_received, presence_ping, subscribe_room,
  unsubscribe_room, invalid_payload,
}
use konvo_pro.Protocol.Codec.{Msgpack, decode_c2s}
use konvo_pro.Protocol.Frames.{decode_c2s_iff}
use konvo_pro.Gateway.State.{Server, WsContext, Handled, reject_and_close}
use konvo_pro.Gateway.Envelopes.{SendDeps, Outside, on_send_envelope}
use konvo_pro.Gateway.Hello.{HelloOutside, handle_hello}
use konvo_pro.Gateway.Rooms.{on_subscribe_room, on_unsubscribe_room}

-- The message that the frame's value is the object of.
unfoldable pub try_decode : Msgpack → Bytes → Option ClientToServer
try_decode mp raw = elim (Result-cases (decode_c2s mp raw)) [
  | inl (v, e) ↦ some ((decode_c2s_iff mp raw v).0 e).1.0
  | inr (e, bad) ↦ none
]

abbrev pub presence_ttl_sec : ℕ
presence_ttl_sec = 30

pub record PresenceOutside : Type 0 where
  pub now : ℕ
  pub is_update_ok : Bool
  pub is_set_ok : Bool

-- The UPDATE and the SET, each on its own; `presence` keeps the time to live of the key.
unfoldable pub on_presence_ping : PresenceOutside → Server → WsContext → Server
on_presence_ping out server ctx =
    let seen =
      if out.is_update_ok
      then record server { last_seen = insert ctx.device_id out.now server.last_seen }
      else server in
    if out.is_set_ok
    then record seen { presence = insert ctx.device_id presence_ttl_sec seen.presence }
    else seen

unfoldable pub on_envelope_received : Server → Server
on_envelope_received server = record server {
  envelope_received_count = suc server.envelope_received_count;
}

-- What the outside does while one frame is handled.
pub record Moment : Type 0 where
  pub sending : Outside
  pub greeting : HelloOutside
  pub pinging : PresenceOutside
  pub is_redis_ok : Bool

-- Only HELLO is taken.
unfoldable pub before_hello : Moment → Server → WsContext → ClientToServer → Handled
before_hello at server ctx (hello device_id) = record {
  server = server;
  ctx = handle_hello at.greeting server ctx device_id;
}
before_hello at server ctx msg = record {
  server = server;
  ctx = reject_and_close ctx invalid_payload "expected HELLO";
}

-- The `switch` over the discriminator.
unfoldable pub after_hello : SendDeps → Moment → Server → WsContext → ClientToServer → Handled
after_hello deps at server ctx (hello device_id) = record {
  server = server;
  ctx = reject_and_close ctx invalid_payload "duplicate HELLO";
}
after_hello deps at server ctx (send_envelope nonce env) =
    on_send_envelope deps at.sending server ctx nonce env
after_hello deps at server ctx (envelope_received id) = record {
  server = on_envelope_received server;
  ctx = ctx;
}
after_hello deps at server ctx presence_ping = record {
  server = on_presence_ping at.pinging server ctx;
  ctx = ctx;
}
after_hello deps at server ctx (subscribe_room slug) = record {
  server = server;
  ctx = on_subscribe_room ctx slug at.is_redis_ok;
}
after_hello deps at server ctx (unsubscribe_room slug) = record {
  server = server;
  ctx = on_unsubscribe_room ctx slug;
}

unfoldable pub on_client_message : SendDeps → Moment → Server → WsContext → ClientToServer → Handled
on_client_message deps at server ctx msg =
    if ctx.hello_received
    then after_hello deps at server ctx msg
    else before_hello at server ctx msg

unfoldable pub handle_client_message :
    Msgpack → SendDeps → Moment → Server → WsContext → Bytes → Handled
handle_client_message mp deps at server ctx raw = elim (try_decode mp raw) [
  | none ↦ record { server = server; ctx = reject_and_close ctx invalid_payload "malformed frame" }
  | some msg ↦ on_client_message deps at server ctx msg
]

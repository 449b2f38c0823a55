-- ===== src/Gateway/Connection.antt =====
-- `handleConnection` of apps/api/src/ws/gateway.ts: what the events of one socket do, with the set of
-- connected devices given, as the plugin always gives it.
use konvo_pro.Shared.{
  ℕ, suc, ◌-◌, Bool, true, false, not, ◌&&◌, insert, delete, if◌then◌else◌, List, [], ◌∷◌,
}
use konvo_pro.Crypto.{Bytes}
use konvo_pro.Protocol.Messages.{invalid_payload}
use konvo_pro.Protocol.Codec.{Msgpack}
use konvo_pro.Gateway.State.{Server, WsContext, reject_and_close, close}
use konvo_pro.Gateway.Envelopes.{SendDeps}
use konvo_pro.Gateway.Rooms.{drain_room_subscriptions}
use konvo_pro.Gateway.Dispatch.{Moment, handle_client_message}

-- The variables of the closure, with the gauge of open sockets.
pub record Connection : Type 0 where
  pub server : Server
  pub ctx : WsContext
  pub ws_connections : ℕ
  pub connection_accounted : Bool
  pub connected_registered : Bool
  pub is_hello_timer_set : Bool

unfoldable pub open_connection : Server → ℕ → WsContext → Connection
open_connection server ws_connections ctx = record {
  server = server;
  ctx = ctx;
  ws_connections = suc ws_connections;
  connection_accounted = true;
  connected_registered = false;
  is_hello_timer_set = true;
}

unfoldable pub decrement_once : Connection → Connection
decrement_once k =
    let counted = (if k.connection_accounted then k.ws_connections - 1 else k.ws_connections) in
    let devices =
      (if k.connected_registered
        then delete k.ctx.device_id k.server.connected_devices
        else k.server.connected_devices) in
    record k {
      server = record (k.server) { connected_devices = devices };
      ws_connections = counted;
      connection_accounted = false;
      connected_registered = false;
    }

-- The `then` after a frame: the device counts as connected once its HELLO has been taken.
unfoldable pub register_connected : Connection → Connection
register_connected k =
    if k.ctx.hello_received && not k.connected_registered
    then record k {
      server = record (k.server) {
        connected_devices = insert k.ctx.device_id tt k.server.connected_devices;
      };
      connected_registered = true;
    }
    else k

pub data SocketEvent : Type 0 where
  frame : Moment → Bytes → SocketEvent
  hello_timeout socket_close socket_error : SocketEvent

module _ (mp : Msgpack) (deps : SendDeps) where
  unfoldable pub on_frame : Moment → Bytes → Connection → Connection
  unfolding register_connected handle_client_message
  on_frame at raw k =
      let h = handle_client_message mp deps at k.server k.ctx raw in
      register_connected (record k { server = h.server; ctx = h.ctx })

  unfoldable pub on_hello_timeout : Connection → Connection
  unfolding reject_and_close
  on_hello_timeout k =
      if k.is_hello_timer_set && not k.ctx.hello_received
      then record k { ctx = reject_and_close k.ctx invalid_payload "HELLO timeout" }
      else k

  unfoldable pub on_close : Connection → Connection
  unfolding decrement_once drain_room_subscriptions close
  on_close k =
      let d = decrement_once k in
      let drained = drain_room_subscriptions d.ctx in
      record d { ctx = record (close drained) { inbox_handle = false }; is_hello_timer_set = false }

  unfoldable pub on_socket_event : SocketEvent → Connection → Connection
  unfolding on_frame on_hello_timeout on_close decrement_once
  on_socket_event (frame at raw) k = on_frame at raw k
  on_socket_event hello_timeout k = on_hello_timeout k
  on_socket_event socket_close k = on_close k
  on_socket_event socket_error k = decrement_once k

  unfoldable pub run_events : List SocketEvent → Connection → Connection
  unfolding on_socket_event
  run_events [] k = k
  run_events (e ∷ es) k = run_events es (on_socket_event e k)

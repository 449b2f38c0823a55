-- ===== src/Tests/Client.antt =====
-- The theorems on the WebSocket client, on runs from its construction.
use konvo_pro.Shared.{◌≡◌, refl, arith, true, false, none, some, List, [], ◌∷◌, ◌++◌, pos}
use konvo_pro.Protocol.Messages.{presence_ping}
use konvo_pro.Client.State.{
  reconnect_backoff_ms, reconnect_backoff_cap_ms, ready, disconnected, WsClient, throws_not_ready,
  Input, connect, close, sending, token_arrives, token_fails, socket_closed, timer_fires,
  new_client, is_set, holds, client_step, client_run,
}
use konvo_pro.Client.Pending.{IsTended, client_run-IsTended}
use konvo_pro.Client.Closing.{StaysShut, handshake, close-StaysClosed, close_connect-loses}
use konvo_pro.Client.Backoff.{Failure, no_token, no_socket, unreachable, hung_up}

abbrev inputs : List Input
inputs =
    connect ∷ (handshake 0 (pos 1) (pos 0) ++ (socket_closed 0 ∷ timer_fires ∷ token_fails ∷ []))

client_run-IsTended_example :
    IsTended (client_run reconnect_backoff_cap_ms reconnect_backoff_ms "d" inputs new_client).client
client_run-IsTended_example =
    client_run-IsTended reconnect_backoff_cap_ms reconnect_backoff_ms "d" inputs new_client
      (refl, refl)

abbrev online : WsClient
online = record {
  state = ready;
  socket = some 0;
  attempt_count = 0;
  reconnect_timer = none;
  explicitly_closed = false;
  waiting = 0;
  sockets = 0 ∷ [];
  next_socket = 1;
}

close-StaysClosed_example : StaysShut (
    client_run reconnect_backoff_cap_ms reconnect_backoff_ms "d"
      (close ∷ socket_closed 0 ∷ token_arrives true ∷ timer_fires ∷ [])
      online)
close-StaysClosed_example =
    close-StaysClosed reconnect_backoff_cap_ms reconnect_backoff_ms "d"
      (socket_closed 0 ∷ token_arrives true ∷ timer_fires ∷ []) online refl
      (refl, (refl, (refl, tt)))

close_connect-loses_example :
    let r =
      client_run reconnect_backoff_cap_ms reconnect_backoff_ms "d"
        (close ∷ connect ∷ (handshake 1 (pos 1) (pos 0) ++ (socket_closed 0 ∷ [])))
        online in
    (holds 1 r.client.sockets ≡ true)
    × (r.client.socket ≡ none)
    × (r.client.state ≡ disconnected)
    × (is_set r.client.reconnect_timer ≡ true)
    × ((client_step reconnect_backoff_cap_ms reconnect_backoff_ms "d"
          (sending presence_ping true)
          r.client).outputs
        ≡ throws_not_ready ∷ [])
close_connect-loses_example =
    close_connect-loses reconnect_backoff_cap_ms reconnect_backoff_ms "d" online 0 (pos 1) (pos 0)
      presence_ping refl refl refl (omega arith)

abbrev kinds : List Failure
kinds = no_token ∷ unreachable ∷ hung_up true ∷ no_socket ∷ []

-- ===== src/Client/Pending.antt =====
-- `WsClient` of apps/web/src/ws/client.ts: what is pending after any run of steps.
use konvo_pro.Shared.{
  ℕ, ◌≡◌, refl, arith, Bool, true, false, ◌&&◌, ◌||◌, ltb, List, [], ◌∷◌, String,
}
use konvo_pro.Protocol.Messages.{hello_ok, envelope, envelope_queued, room_post, error}
use konvo_pro.Client.State.{
  idle, same_state, WsClient, decoded, undecodable, not_bytes, Input, connect, close, sending,
  token_arrives, token_fails, opened, messaged, errored, socket_closed, timer_fires, is_set,
  set_state, holds, drop_socket, schedule_reconnect, open_socket, on_connect, on_close_call, send,
  with_token, without_token, on_open, on_close, on_decoded, on_message, on_timer, client_step,
  client_run,
}

abbrev has_any : List ℕ → Bool
has_any [] = false
has_any (s ∷ ss) = true

-- A timer is set, a call waits for its token, or a socket is still to close.
abbrev pub is_pending : WsClient → Bool
is_pending c = is_set c.reconnect_timer || ltb 0 c.waiting || has_any c.sockets

-- A client that was connected and not closed has something pending; a closed one has no timer.
abbrev pub IsTended : WsClient → Type 0
IsTended c =
    ((c.explicitly_closed || same_state c.state idle || is_pending c) ≡ true)
    × ((c.explicitly_closed && is_set c.reconnect_timer) ≡ false)

holds-has_any : (s : ℕ) (ss : List ℕ) → holds s ss ≡ true → has_any ss ≡ true
holds-has_any s [] e = cc
holds-has_any s (t ∷ ts) e = refl

module _ (cap : ℕ) (schedule : List ℕ) (device_id : String) where
  client_step-IsTended :
      (i : Input) (c : WsClient)
      → IsTended c
      → IsTended (client_step cap schedule device_id i c).client
  unfolding client_step set_state open_socket on_connect on_close_call send with_token without_token
      on_open on_close on_message on_decoded on_timer schedule_reconnect drop_socket
  client_step-IsTended connect c h = ground (arith, h)
  client_step-IsTended close c h = ground (arith, h)
  client_step-IsTended (sending msg fits) c h = ground (arith, h)
  client_step-IsTended (token_arrives true) c h = ground (arith, h)
  client_step-IsTended (token_arrives false) c h = ground (arith, h)
  client_step-IsTended token_fails c h = ground (arith, h)
  client_step-IsTended (opened s goes) c h = ground (arith, h, holds-has_any s c.sockets)
  client_step-IsTended (messaged s (decoded (hello_ok t q))) c h =
      ground (arith, h, holds-has_any s c.sockets)
  client_step-IsTended (messaged s (decoded (envelope e))) c h =
      ground (arith, h, holds-has_any s c.sockets)
  client_step-IsTended (messaged s (decoded (envelope_queued n id t))) c h =
      ground (arith, h, holds-has_any s c.sockets)
  client_step-IsTended (messaged s (decoded (room_post p))) c h =
      ground (arith, h, holds-has_any s c.sockets)
  client_step-IsTended (messaged s (decoded (error k text))) c h =
      ground (arith, h, holds-has_any s c.sockets)
  client_step-IsTended (messaged s undecodable) c h = ground (arith, h, holds-has_any s c.sockets)
  client_step-IsTended (messaged s not_bytes) c h = ground (arith, h, holds-has_any s c.sockets)
  client_step-IsTended (errored s) c h = ground (arith, h)
  client_step-IsTended (socket_closed s) c h = ground (arith, h)
  client_step-IsTended timer_fires c h = ground (arith, h)

  -- Whatever calls and events follow each other, a client that was connected and not closed has a
  -- reconnection timer, a call that waits for its token, or a socket whose close is still to come;
  -- a closed client has no timer.
  pub client_run-IsTended :
      (is : List Input) (c : WsClient)
      → IsTended c
      → IsTended (client_run cap schedule device_id is c).client
  unfolding client_run
  client_run-IsTended [] c h = h
  client_run-IsTended (i ∷ is) c h =
      client_run-IsTended is (client_step cap schedule device_id i c).client
        (client_step-IsTended i c h)

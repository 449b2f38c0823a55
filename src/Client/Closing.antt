-- ===== src/Client/Closing.antt =====
-- `close` of `WsClient` (apps/web/src/ws/client.ts), and what comes after it.
use konvo_pro.Shared.{
  ℕ, ◌≡◌, ◌<◌, refl, arith, Bool, true, false, ◌||◌, ==_refl, none, some, List, [], ◌∷◌, ◌++◌, All,
  String, ℤ,
}
use konvo_pro.Protocol.Messages.{
  ClientToServer, hello_ok, envelope, envelope_queued, room_post, error,
}
use konvo_pro.Client.State.{
  ready, disconnected, WsClient, Output, opens, throws_not_ready, Stepped, decoded, undecodable,
  not_bytes, Input, connect, close, sending, token_arrives, token_fails, opened, messaged, errored,
  socket_closed, timer_fires, is_set, set_state, holds, drop_socket, schedule_reconnect,
  open_socket, on_connect, on_close_call, send, with_token, without_token, on_open, on_close,
  on_decoded, on_message, on_timer, client_step, client_run,
}

abbrev pub is_opens : Output → Bool
is_opens (opens s) = true
is_opens _ = false

abbrev pub any_opens : List Output → Bool
any_opens [] = false
any_opens (o ∷ os) = is_opens o || any_opens os

any_opens-append : (os ps : List Output) → any_opens (os ++ ps) ≡ (any_opens os || any_opens ps)
any_opens-append [] ps = refl
any_opens-append (o ∷ os) ps = ground (arith, any_opens-append os ps)

abbrev pub is_connect : Input → Bool
is_connect connect = true
is_connect _ = false

-- Closed, no reconnection planned, and no call waiting for its token.
abbrev pub IsShut : WsClient → Type 0
IsShut c = (c.explicitly_closed ≡ true) × (c.reconnect_timer ≡ none) × (c.waiting ≡ 0)

-- A step that opens no socket and leaves a closed client closed.
abbrev pub StaysShut : Stepped → Type 0
StaysShut s = IsShut s.client × (any_opens s.outputs ≡ false)

-- A token, an open socket and HELLO_OK.
abbrev pub handshake : ℕ → ℤ → ℤ → List Input
handshake s time queued =
    token_arrives true ∷ opened s true ∷ messaged s (decoded (hello_ok time queued)) ∷ []

module _ (cap : ℕ) (schedule : List ℕ) (device_id : String) where
  client_step-StaysShut :
      (i : Input) (c : WsClient)
      → is_connect i ≡ false
      → IsShut c
      → StaysShut (client_step cap schedule device_id i c)
  unfolding client_step set_state open_socket on_connect on_close_call send with_token without_token
      on_open on_close on_message on_decoded on_timer schedule_reconnect
  client_step-StaysShut connect c e h = cc
  client_step-StaysShut close c e h = ground (arith, h)
  client_step-StaysShut (sending msg fits) c e h = ground (arith, h)
  client_step-StaysShut (token_arrives made) c e h = ground (arith, h)
  client_step-StaysShut token_fails c e h = ground (arith, h)
  client_step-StaysShut (opened s goes) c e h = ground (arith, h)
  client_step-StaysShut (messaged s (decoded (hello_ok t q))) c e h = ground (arith, h)
  client_step-StaysShut (messaged s (decoded (envelope e))) c unconnected h = ground (arith, h)
  client_step-StaysShut (messaged s (decoded (envelope_queued n id t))) c e h = ground (arith, h)
  client_step-StaysShut (messaged s (decoded (room_post p))) c e h = ground (arith, h)
  client_step-StaysShut (messaged s (decoded (error k text))) c e h = ground (arith, h)
  client_step-StaysShut (messaged s undecodable) c e h = ground (arith, h)
  client_step-StaysShut (messaged s not_bytes) c e h = ground (arith, h)
  client_step-StaysShut (errored s) c e h = ground (arith, h)
  client_step-StaysShut (socket_closed s) c e h = ground (arith, h)
  client_step-StaysShut timer_fires c e h = ground (arith, h)

  client_run-StaysShut :
      (is : List Input) (c : WsClient)
      → All (λ (i : Input). is_connect i ≡ false) is
      → IsShut c
      → StaysShut (client_run cap schedule device_id is c)
  unfolding client_run
  client_run-StaysShut [] c unconnected h = (h, refl)
  client_run-StaysShut (i ∷ is) c unconnected h =
      let s = client_step cap schedule device_id i c in
      let here = client_step-StaysShut i c unconnected.0 h in
      let rest = client_run-StaysShut is s.client unconnected.1 here.0 in
      (
        rest.0,
        ground (
          arith,
          here.1,
          rest.1,
          any_opens-append s.outputs (client_run cap schedule device_id is s.client).outputs,
        ),
      )

  close-StaysShut :
      (c : WsClient) → c.waiting ≡ 0 → StaysShut (client_step cap schedule device_id close c)
  unfolding client_step on_close_call set_state
  close-StaysShut c none_waits = ground (arith, none_waits)

  -- After close on a client that has no call waiting for its token, and until the next connect, no
  -- call or event opens a socket or sets the reconnection timer.
  pub close-StaysClosed :
      (is : List Input) (c : WsClient)
      → c.waiting ≡ 0
      → All (λ (i : Input). is_connect i ≡ false) is
      → StaysShut (client_run cap schedule device_id (close ∷ is) c)
  unfolding client_run
  close-StaysClosed is c none_waits unconnected =
      let s = client_step cap schedule device_id close c in
      let here = close-StaysShut c none_waits in
      let rest = client_run-StaysShut is s.client unconnected here.0 in
      (
        rest.0,
        ground (
          arith,
          here.1,
          rest.1,
          any_opens-append s.outputs (client_run cap schedule device_id is s.client).outputs,
        ),
      )

  -- But close does not reach a call that waits for its token: when the token comes, the client opens
  -- a socket and, with HELLO_OK, is ready, although it was closed.
  pub close-reopens :
      (c : WsClient) (time queued : ℤ)
      → 0 < c.waiting
      → let r = client_run cap schedule device_id (close ∷ handshake c.next_socket time queued) c in
        (any_opens r.outputs ≡ true)
        × (r.client.state ≡ ready)
        × (r.client.socket ≡ some c.next_socket)
        × (r.client.explicitly_closed ≡ true)
  unfolding client_run client_step on_close_call set_state with_token on_open on_message on_decoded
  close-reopens c time queued waits = ground (arith, waits, ==_refl c.next_socket)

  -- A client that is ready on a socket, closed and connected again, loses its new connection when
  -- the close event of the old socket comes after the new HELLO_OK: the new socket is still open, but
  -- the client forgets it, sets a timer to open a third, and refuses to send.
  pub close_connect-loses :
      (c : WsClient) (old : ℕ) (time queued : ℤ) (msg : ClientToServer)
      → c.socket ≡ some old
      → c.waiting ≡ 0
      → c.sockets ≡ old ∷ []
      → old < c.next_socket
      → let new = c.next_socket in
        let r =
          client_run cap schedule device_id
            (close ∷ connect ∷ (handshake new time queued ++ (socket_closed old ∷ [])))
            c in
        (holds new r.client.sockets ≡ true)
        × (r.client.socket ≡ none)
        × (r.client.state ≡ disconnected)
        × (is_set r.client.reconnect_timer ≡ true)
        × ((client_step cap schedule device_id (sending msg true) r.client).outputs
            ≡ throws_not_ready ∷ [])
  unfolding client_run client_step on_close_call set_state on_connect open_socket with_token on_open
      on_message on_decoded on_close schedule_reconnect drop_socket send
  close_connect-loses c old time queued msg on none_waits only earlier =
      ground (arith, on, none_waits, only, earlier, ==_refl c.next_socket, ==_refl old)

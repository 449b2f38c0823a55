-- ===== src/Client/State.antt =====
-- apps/web/src/ws/client.ts: the fields of `WsClient`, and each of its entry points as a step.
use konvo_pro.Shared.{
  ℕ, zero, suc, ◌+◌, ◌-◌, Bool, true, false, ◌&&◌, ◌||◌, ltb, ◌==◌, Option, none, some, List, [],
  ◌∷◌, ◌++◌, String, ℤ, if◌then◌else◌,
}
use konvo_pro.Protocol.Messages.{
  ClientToServer, hello, CiphertextEnvelope, BroadcastPost, ErrorCode, ServerToClient, hello_ok,
  envelope, envelope_queued, room_post, error,
}

abbrev pub reconnect_backoff_ms : List ℕ
reconnect_backoff_ms = 1000 ∷ 2000 ∷ 4000 ∷ 8000 ∷ 16000 ∷ 30000 ∷ []

abbrev pub reconnect_backoff_cap_ms : ℕ
reconnect_backoff_cap_ms = 30000

pub data WsState : Type 0 where
  idle connecting authenticating ready disconnected closed : WsState

-- `=` on states.
abbrev pub same_state : WsState → WsState → Bool
same_state idle idle = true
same_state connecting connecting = true
same_state authenticating authenticating = true
same_state ready ready = true
same_state disconnected disconnected = true
same_state closed closed = true
same_state _ _ = false

-- The fields, the timer by its delay, and around them what the browser holds: the calls of
-- `#openSocket` that wait for a token, the sockets whose `onclose` is still to come, and the name of
-- the next socket.
pub record WsClient : Type 0 where
  pub state : WsState
  pub socket : Option ℕ
  pub attempt_count : ℕ
  pub reconnect_timer : Option ℕ
  pub explicitly_closed : Bool
  pub waiting : ℕ
  pub sockets : List ℕ
  pub next_socket : ℕ

-- What the client emits to listeners, and what it does to sockets. Listeners do not call back.
pub data Output : Type 0 where
  emit_state : WsState → Output
  emit_frame_error : Output
  emit_unexpected_state : ℕ → Output
  emit_hello_ok : ℤ → ℤ → Output
  emit_envelope : CiphertextEnvelope → Output
  emit_queued : String → ℤ → ℤ → Output
  emit_room_post : BroadcastPost → Output
  emit_server_error : ErrorCode → String → Output
  emit_disconnect : Option ℕ → Output
  opens : ℕ → Output
  shuts : ℕ → Output
  transmits : ℕ → ClientToServer → Output
  throws_not_ready : Output
  throws_send : Output

pub record Stepped : Type 0 where
  pub client : WsClient
  pub outputs : List Output

-- The payload of a message event.
pub data Frame : Type 0 where
  decoded : ServerToClient → Frame
  undecodable : Frame
  not_bytes : Frame

-- The calls of the caller and the events of the browser.
pub data Input : Type 0 where
  connect : Input
  close : Input
  sending : ClientToServer → Bool → Input
  token_arrives : Bool → Input
  token_fails : Input
  opened : ℕ → Bool → Input
  messaged : ℕ → Frame → Input
  errored : ℕ → Input
  socket_closed : ℕ → Input
  timer_fires : Input

abbrev pub new_client : WsClient
new_client = record {
  state = idle;
  socket = none;
  attempt_count = 0;
  reconnect_timer = none;
  explicitly_closed = false;
  waiting = 0;
  sockets = [];
  next_socket = 0;
}

abbrev pub is_set : Option ℕ → Bool
is_set none = false
is_set (some n) = true

-- `#setState`
unfoldable pub set_state : WsState → WsClient → Stepped
set_state next c =
    if same_state c.state next
    then record { client = c; outputs = [] }
    else record { client = record c { state = next }; outputs = emit_state next ∷ [] }

-- One step after another; the outputs follow each other.
abbrev pub and_then : Stepped → (WsClient → Stepped) → Stepped
and_then s f = let t = f s.client in record { client = t.client; outputs = s.outputs ++ t.outputs }

abbrev pub also : List Output → WsClient → Stepped
also os c = record { client = c; outputs = os }

-- The entry of the schedule at a place, or the cap beyond it.
abbrev pub entry_or : ℕ → ℕ → List ℕ → ℕ
entry_or cap k [] = cap
entry_or cap zero (d ∷ ds) = d
entry_or cap (suc k) (d ∷ ds) = entry_or cap k ds

-- The schedule and the cap are options of the constructor.
unfoldable pub compute_backoff_ms : ℕ → List ℕ → ℕ → ℕ
compute_backoff_ms cap schedule zero = 0
compute_backoff_ms cap schedule (suc k) = entry_or cap k schedule

abbrev pub holds : ℕ → List ℕ → Bool
holds s [] = false
holds s (t ∷ ts) = t == s || holds s ts

unfoldable pub drop_socket : ℕ → List ℕ → List ℕ
drop_socket s [] = []
drop_socket s (t ∷ ts) = let rest = drop_socket s ts in if t == s then rest else t ∷ rest

module _ (cap : ℕ) (schedule : List ℕ) (device_id : String) where
  -- `#scheduleReconnect`
  unfoldable pub schedule_reconnect : WsClient → Stepped
  schedule_reconnect c =
      if c.explicitly_closed || is_set c.reconnect_timer
      then also [] c
      else also [] (record c {
        attempt_count = suc c.attempt_count;
        reconnect_timer = some (compute_backoff_ms cap schedule (suc c.attempt_count));
      })

  -- `#openSocket` up to its wait for the token.
  unfoldable pub open_socket : WsClient → Stepped
  open_socket c =
      and_then (set_state connecting c) (λ d. also [] (record d { waiting = suc d.waiting }))

  unfoldable pub on_connect : WsClient → Stepped
  on_connect c =
      if same_state c.state connecting
        || same_state c.state authenticating
        || same_state c.state ready
      then also [] c
      else (let d : WsClient = record c { explicitly_closed = false } in
          if same_state d.state disconnected && is_set d.reconnect_timer
          then also [] d
          else open_socket d)

  abbrev pub shut_current : WsClient → List Output
  shut_current c = elim c.socket [ none ↦ [] | some s ↦ shuts s ∷ [] ]

  unfoldable pub on_close_call : WsClient → Stepped
  on_close_call c =
      and_then
        (also (shut_current c) (record c { explicitly_closed = true; reconnect_timer = none }))
        (set_state closed)

  -- `fits`: the frame encodes and the socket takes it.
  unfoldable pub send : ClientToServer → Bool → WsClient → Stepped
  send msg fits c = elim c.socket [
    | none ↦ also (throws_not_ready ∷ []) c
    | some s ↦
        if same_state c.state ready
        then (if fits then also (transmits s msg ∷ []) c else also (throws_send ∷ []) c)
        else also (throws_not_ready ∷ []) c
  ]

  -- A call that waited goes on with its token; `made` tells whether the constructor returns.
  unfoldable pub with_token : Bool → WsClient → Stepped
  with_token made c =
      let d : WsClient = record c { waiting = c.waiting - 1 } in
      if made
      then also (opens d.next_socket ∷ []) (record d {
        socket = some d.next_socket;
        sockets = d.next_socket ∷ d.sockets;
        next_socket = suc d.next_socket;
      })
      else and_then (also (emit_frame_error ∷ []) d) schedule_reconnect

  unfoldable pub without_token : WsClient → Stepped
  without_token c =
      and_then (also (emit_frame_error ∷ []) (record c { waiting = c.waiting - 1 }))
        schedule_reconnect

  -- `onopen`
  unfoldable pub on_open : ℕ → Bool → WsClient → Stepped
  on_open s goes c =
      and_then (set_state authenticating c) (
        also (if goes then transmits s (hello device_id) ∷ [] else emit_frame_error ∷ shuts s ∷ []))

  -- `onclose`
  unfoldable pub on_close : ℕ → WsClient → Stepped
  on_close s c =
      let d : WsClient = record c { socket = none; sockets = drop_socket s c.sockets } in
      let gone = set_state disconnected d in
      if c.explicitly_closed
      then and_then (and_then gone (also (emit_disconnect none ∷ []))) (set_state closed)
      else and_then
          (and_then gone (
            also (
              emit_disconnect (some (compute_backoff_ms cap schedule (c.attempt_count + 1))) ∷ [])))
          schedule_reconnect

  -- `#onMessage`
  unfoldable pub on_decoded : ServerToClient → WsClient → Stepped
  on_decoded (hello_ok time queued) c =
      and_then (set_state ready (record c { attempt_count = 0 }))
        (also (emit_hello_ok time queued ∷ []))
  on_decoded (envelope e) c =
      also
        (if same_state c.state ready then emit_envelope e ∷ [] else emit_unexpected_state 102 ∷ [])
        c
  on_decoded (envelope_queued nonce id time) c = also (emit_queued nonce id time ∷ []) c
  on_decoded (room_post post) c = also (emit_room_post post ∷ []) c
  on_decoded (error code text) c = also (emit_server_error code text ∷ []) c

  unfoldable pub on_message : Frame → WsClient → Stepped
  on_message (decoded msg) c = on_decoded msg c
  on_message undecodable c = also (emit_frame_error ∷ []) c
  on_message not_bytes c = also (emit_frame_error ∷ []) c

  unfoldable pub on_timer : WsClient → Stepped
  on_timer c = open_socket (record c { reconnect_timer = none })

  -- An event that the browser cannot have, of a socket that is gone, of a timer that is not set or a
  -- token that nobody waits for, changes nothing.
  unfoldable pub client_step : Input → WsClient → Stepped
  client_step connect c = on_connect c
  client_step close c = on_close_call c
  client_step (sending msg fits) c = send msg fits c
  client_step (token_arrives made) c = if ltb 0 c.waiting then with_token made c else also [] c
  client_step token_fails c = if ltb 0 c.waiting then without_token c else also [] c
  client_step (opened s goes) c = if holds s c.sockets then on_open s goes c else also [] c
  client_step (messaged s frame) c = if holds s c.sockets then on_message frame c else also [] c
  client_step (errored s) c =
      if holds s c.sockets then also (emit_frame_error ∷ []) c else also [] c
  client_step (socket_closed s) c = if holds s c.sockets then on_close s c else also [] c
  client_step timer_fires c = if is_set c.reconnect_timer then on_timer c else also [] c

  unfoldable pub client_run : List Input → WsClient → Stepped
  client_run [] c = also [] c
  client_run (i ∷ is) c = and_then (client_step i c) (client_run is)

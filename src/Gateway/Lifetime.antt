-- ===== src/Gateway/Lifetime.antt =====
-- The rooms, the gauge and the timer of one connection over the events of its socket, as
-- `handleConnection` of apps/api/src/ws/gateway.ts wires them.
use konvo_pro.Shared.{
  ℕ, ◌+◌, ◌≡◌, refl, ap, ◌∙◌, ◌++◌, Bool, true, false, ◌||◌, arith, not, ◌&&◌, List, [], ◌∷◌,
  if◌then◌else◌, Bool-cases, inl, inr,
}
use konvo_pro.Protocol.Codec.{Msgpack}
use konvo_pro.Gateway.State.{close}
use konvo_pro.Gateway.Envelopes.{SendDeps}
use konvo_pro.Gateway.Rooms.{drain_room_subscriptions}
use konvo_pro.Gateway.Connection.{
  Connection, decrement_once, register_connected, SocketEvent, frame, hello_timeout, socket_close,
  socket_error, on_frame, on_hello_timeout, on_close, on_socket_event, run_events,
}
use konvo_pro.Gateway.Listed.{
  IsListed, SameRooms-IsListed, reject-SameRooms, message-IsListed, drain-IsListed,
}

-- The events that end a connection.
abbrev pub is_end : SocketEvent → Bool
is_end (frame at raw) = false
is_end hello_timeout = false
is_end socket_close = true
is_end socket_error = true

abbrev pub has_ended : List SocketEvent → Bool
has_ended [] = false
has_ended (e ∷ es) = is_end e || has_ended es

has_ended-close : (es : List SocketEvent) → has_ended (es ++ (socket_close ∷ [])) ≡ true
has_ended-close [] = refl
has_ended-close (e ∷ es) = ground (arith, has_ended-close es)

module _ (mp : Msgpack) (deps : SendDeps) where
  -- The open sockets are counted right, the other `base` being other connections', and the rooms are
  -- listed.
  pub record IsAlive (base : ℕ) (k : Connection) : Type 0 where
    pub gauge : k.ws_connections ≡ base + (if k.connection_accounted then 1 else 0)
    pub rooms : IsListed k.ctx

  decrement-IsAlive : (base : ℕ) (k : Connection) → IsAlive base k → IsAlive base (decrement_once k)
  unfolding decrement_once
  decrement-IsAlive base k a = record { gauge = ground (arith, a.gauge); rooms = a.rooms }

  register-IsAlive :
      (base : ℕ) (k : Connection) → IsAlive base k → IsAlive base (register_connected k)
  unfolding register_connected
  register-IsAlive base k a =
      elim (Bool-cases (k.ctx.hello_received && not k.connected_registered)) [
        | inr fails ↦ rw fails a
        | inl holds ↦ rw holds (record { gauge = a.gauge; rooms = a.rooms })
      ]

  event-IsAlive :
      (base : ℕ) (e : SocketEvent) (k : Connection)
      → IsAlive base k
      → IsAlive base (on_socket_event mp deps e k)
  unfolding on_socket_event on_frame on_hello_timeout on_close drain_room_subscriptions close
  event-IsAlive base (frame at raw) k a =
      register-IsAlive base _
        (record { gauge = a.gauge; rooms = message-IsListed mp deps at k.server k.ctx raw a.rooms })
  event-IsAlive base hello_timeout k a =
      elim (Bool-cases (k.is_hello_timer_set && not k.ctx.hello_received)) [
        | inr fails ↦ rw fails a
        | inl holds ↦ rw holds (record {
          gauge = a.gauge;
          rooms = SameRooms-IsListed (reject-SameRooms k.ctx _ _) a.rooms;
        })
      ]
  event-IsAlive base socket_close k a =
      let d = decrement-IsAlive base k a in
      record {
        gauge = d.gauge;
        rooms =
            let d = drain-IsListed (decrement_once k).ctx in
            record { listeners = d.listeners; slugs = d.slugs };
      }
  event-IsAlive base socket_error k a = decrement-IsAlive base k a

  run_events-stays_IsAlive :
      (base : ℕ) (es : List SocketEvent) (k : Connection)
      → IsAlive base k
      → IsAlive base (run_events mp deps es k)
  unfolding run_events
  run_events-stays_IsAlive base [] k a = a
  run_events-stays_IsAlive base (e ∷ es) k a =
      run_events-stays_IsAlive base es (on_socket_event mp deps e k) (event-IsAlive base e k a)

  event-accounted :
      (e : SocketEvent) (k : Connection)
      → (on_socket_event mp deps e k).connection_accounted
        ≡ (k.connection_accounted && not (is_end e))
  unfolding on_socket_event on_frame on_hello_timeout on_close register_connected decrement_once
  event-accounted (frame at raw) k = ground arith
  event-accounted hello_timeout k = ground arith
  event-accounted socket_close k = ground arith
  event-accounted socket_error k = ground arith

  run_events-accounted :
      (es : List SocketEvent) (k : Connection)
      → (run_events mp deps es k).connection_accounted
        ≡ (k.connection_accounted && not (has_ended es))
  unfolding run_events
  run_events-accounted [] k = ground arith
  run_events-accounted (e ∷ es) k =
      ground (arith, event-accounted e k, run_events-accounted es (on_socket_event mp deps e k))

  run_events-append :
      (es : List SocketEvent) (e : SocketEvent) (k : Connection)
      → run_events mp deps (es ++ (e ∷ [])) k ≡ on_socket_event mp deps e (run_events mp deps es k)
  unfolding run_events
  run_events-append [] e k = refl
  run_events-append (x ∷ es) e k = run_events-append es e (on_socket_event mp deps x k)

  closed-rooms :
      (k : Connection)
      → let q = on_socket_event mp deps socket_close k in
        (q.ctx.subscribed_rooms ≡ []) × (q.ctx.room_listeners ≡ [])
  unfolding on_socket_event on_close drain_room_subscriptions close
  closed-rooms k = (refl, refl)

  -- From a counted connection, beside `base` others and with its rooms listed, whatever the events of
  -- its socket and their order: the gauge is one above the others' until the socket has closed or
  -- failed, and theirs from then on, however often it does; every subscribed room is a slug with its
  -- listener; and a close leaves no room and no listener.
  pub run_events-IsAlive :
      (base : ℕ) (es : List SocketEvent) (k : Connection)
      → IsAlive base k
      → k.connection_accounted ≡ true
      → let q = run_events mp deps es k in
        let closed = run_events mp deps (es ++ (socket_close ∷ [])) k in
        (q.ws_connections ≡ base + (if has_ended es then 0 else 1))
        × IsListed q.ctx
        × (closed.ws_connections ≡ base)
        × (closed.ctx.subscribed_rooms ≡ [])
        × (closed.ctx.room_listeners ≡ [])
  run_events-IsAlive base es k a counted =
      let q = run_events-stays_IsAlive base es k a in
      let closed = run_events-append es socket_close k in
      let c = run_events-stays_IsAlive base (es ++ (socket_close ∷ [])) k a in
      let empty = closed-rooms (run_events mp deps es k) in
      (
        ground (arith, q.gauge, run_events-accounted es k, counted),
        q.rooms,
        ground (
          arith,
          c.gauge,
          run_events-accounted (es ++ (socket_close ∷ [])) k,
          has_ended-close es,
        ),
        ap (λ (x : Connection). x.ctx.subscribed_rooms) closed ∙ empty.0,
        ap (λ (x : Connection). x.ctx.room_listeners) closed ∙ empty.1,
      )

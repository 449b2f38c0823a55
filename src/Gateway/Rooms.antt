-- ===== src/Gateway/Rooms.antt =====
-- The room subscriptions of one connection: `onSubscribeRoom`, `onUnsubscribeRoom` and
-- `drainRoomSubscriptions` of apps/api/src/ws/gateway.ts.
use Prim.Native.Char.{code}
use Prim.Native.String.{[] as no_chars, ◌∷◌ as ◌then_chars◌, count}
use konvo_pro.Shared.{
  ℕ, Bool, true, ◌&&◌, ◌||◌, leb, ◌==◌, String, [], lookup, insert, delete, if◌then◌else◌,
}
use konvo_pro.Protocol.Messages.{invalid_payload, internal, error}
use konvo_pro.Gateway.State.{WsContext, send}
use konvo_pro.Gateway.Envelopes.{is_some}

-- One character of `[a-z0-9-]`.
abbrev pub is_slug_code : ℕ → Bool
is_slug_code n = (leb 97 n && leb n 122) || ((leb 48 n && leb n 57) || n == 45)

unfoldable pub is_slug_text : String → Bool
is_slug_text no_chars = true
is_slug_text (c then_chars s) = is_slug_code (code c) && is_slug_text s

-- `SLUG_REGEX.test(slug)`
unfoldable pub is_slug : String → Bool
unfolding is_slug_text
is_slug slug = is_slug_text slug && (leb 3 (count slug) && leb (count slug) 64)

unfoldable pub is_subscribed : WsContext → String → Bool
is_subscribed ctx slug = is_some (lookup slug ctx.subscribed_rooms)

-- `is_redis_ok`: whether `subscribeRoom` resolves.
unfoldable pub on_subscribe_room : WsContext → String → Bool → WsContext
unfolding is_subscribed send
on_subscribe_room ctx slug is_redis_ok =
    if is_slug slug
    then (if is_subscribed ctx slug
        then ctx
        else if is_redis_ok
        then record ctx {
          subscribed_rooms = insert slug tt ctx.subscribed_rooms;
          room_listeners = insert slug tt ctx.room_listeners;
        }
        else send ctx (error internal "internal error"))
    else send ctx (error invalid_payload "invalid slug")

-- A failing `unsubscribeRoom` is logged and changes nothing here.
unfoldable pub on_unsubscribe_room : WsContext → String → WsContext
unfolding is_subscribed send
on_unsubscribe_room ctx slug =
    if is_slug slug
    then (if is_subscribed ctx slug
        then record ctx {
          subscribed_rooms = delete slug ctx.subscribed_rooms;
          room_listeners = delete slug ctx.room_listeners;
        }
        else ctx)
    else send ctx (error invalid_payload "invalid slug")

unfoldable pub drain_room_subscriptions : WsContext → WsContext
drain_room_subscriptions ctx = record ctx { subscribed_rooms = []; room_listeners = [] }

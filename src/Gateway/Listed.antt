-- ===== src/Gateway/Listed.antt =====
-- The room subscriptions of a connection under every handler of apps/api/src/ws/gateway.ts.
use konvo_pro.Shared.{
  ◌≡◌, refl, ap, sym, ◌∙◌, arith, Bool, true, String, str_eq, eq_iff, List, [], ◌∷◌, some,
  if◌then◌else◌, Bool-cases, Option-cases, inl, inr, lookup, insert, delete, lookup-insert,
  lookup-delete,
}
use konvo_pro.Crypto.{Bytes}
use konvo_pro.Protocol.Messages.{
  ServerToClient, ErrorCode, ClientToServer, hello, send_envelope, envelope_received, presence_ping,
  subscribe_room, unsubscribe_room, CiphertextEnvelope,
}
use konvo_pro.Protocol.Codec.{Msgpack}
use konvo_pro.Gateway.State.{Server, WsContext, send, close, reject_and_close}
use konvo_pro.Gateway.Envelopes.{is_some, SendDeps, Outside, on_send_envelope}
use konvo_pro.Gateway.Hello.{
  Attach, no_attacher, attach_fails, attached, HelloOutside, send_all, attach_inbox, handle_hello,
}
use konvo_pro.Gateway.Rooms.{
  is_slug, on_subscribe_room, on_unsubscribe_room, drain_room_subscriptions,
}
use konvo_pro.Gateway.Dispatch.{
  Moment, try_decode, after_hello, before_hello, handle_client_message,
}
use konvo_pro.Gateway.Handshake.{handle-malformed, handle-decoded}
use konvo_pro.Gateway.Reply.{on_send_envelope-IsReply}

-- Every subscribed room has its listener and the other way round, and is a slug.
pub record IsListed (ctx : WsContext) : Type 0 where
  pub listeners : ctx.room_listeners ≡ ctx.subscribed_rooms
  pub slugs : (slug : String) → lookup slug ctx.subscribed_rooms ≡ some tt → is_slug slug ≡ true

-- The rooms of `b` are those of `a`.
pub record SameRooms (a b : WsContext) : Type 0 where
  pub rooms : b.subscribed_rooms ≡ a.subscribed_rooms
  pub listeners : b.room_listeners ≡ a.room_listeners

pub SameRooms-IsListed : {a b : WsContext} → SameRooms a b → IsListed a → IsListed b
SameRooms-IsListed {a} {b} same l = record {
  listeners = same.listeners ∙ l.listeners ∙ sym same.rooms;
  slugs = rw (same.rooms) l.slugs;
}

send-SameRooms : (ctx : WsContext) (msg : ServerToClient) → SameRooms ctx (send ctx msg)
unfolding send
send-SameRooms ctx msg = record { rooms = ground arith; listeners = ground arith }

pub reject-SameRooms :
    (ctx : WsContext) (code : ErrorCode) (text : String)
    → SameRooms ctx (reject_and_close ctx code text)
unfolding reject_and_close close send
reject-SameRooms ctx code text = record { rooms = ground arith; listeners = ground arith }

subscribe-IsListed :
    (ctx : WsContext) (slug : String) (is_redis_ok : Bool)
    → IsListed ctx
    → IsListed (on_subscribe_room ctx slug is_redis_ok)
unfolding on_subscribe_room
subscribe-IsListed ctx slug ok l = elim (Bool-cases (is_slug slug)) [
  | inr bad ↦ rw bad (SameRooms-IsListed (send-SameRooms ctx _) l)
  | inl valid ↦ elim (Bool-cases (is_some (lookup slug ctx.subscribed_rooms))) [
    | inl already ↦ rw (valid, already) l
    | inr absent ↦ elim (Bool-cases ok) [
      | inr failed ↦ rw (valid, absent, failed) (SameRooms-IsListed (send-SameRooms ctx _) l)
      | inl done ↦
          rw (valid, absent, done)
            (record {
              listeners = ap (insert slug tt) l.listeners;
              slugs = λ j found. ground (
                arith,
                eq_iff slug j,
                valid,
                found,
                lookup-insert slug j tt ctx.subscribed_rooms,
                l.slugs j,
              );
            })
    ]
  ]
]

unsubscribe-IsListed :
    (ctx : WsContext) (slug : String) → IsListed ctx → IsListed (on_unsubscribe_room ctx slug)
unfolding on_unsubscribe_room
unsubscribe-IsListed ctx slug l = elim (Bool-cases (is_slug slug)) [
  | inr bad ↦ rw bad (SameRooms-IsListed (send-SameRooms ctx _) l)
  | inl valid ↦ elim (Bool-cases (is_some (lookup slug ctx.subscribed_rooms))) [
    | inr absent ↦ rw (valid, absent) l
    | inl there ↦
        rw (valid, there)
          (record {
            listeners = ap (delete slug) l.listeners;
            slugs = λ j found.
                ground (arith, found, lookup-delete slug j ctx.subscribed_rooms, l.slugs j);
          })
  ]
]

pub drain-IsListed : (ctx : WsContext) → IsListed (drain_room_subscriptions ctx)
unfolding drain_room_subscriptions lookup
drain-IsListed ctx = record { listeners = refl; slugs = λ slug found. absurd (ground arith) }

send_all-SameRooms : (ctx : WsContext) (fs : List ServerToClient) → SameRooms ctx (send_all ctx fs)
unfolding send_all send
send_all-SameRooms ctx [] = record { rooms = refl; listeners = refl }
send_all-SameRooms ctx (f ∷ fs) =
    let one = send-SameRooms ctx f in
    let rest = send_all-SameRooms (send ctx f) fs in
    record { rooms = rest.rooms ∙ one.rooms; listeners = rest.listeners ∙ one.listeners }

attach-SameRooms : (a : Attach) (ctx : WsContext) → SameRooms ctx (attach_inbox a ctx)
unfolding attach_inbox
attach-SameRooms no_attacher ctx = record { rooms = refl; listeners = refl }
attach-SameRooms (attach_fails fs) ctx = send_all-SameRooms ctx fs
attach-SameRooms (attached fs) ctx =
    let s = send_all-SameRooms ctx fs in record { rooms = s.rooms; listeners = s.listeners }

hello-SameRooms :
    (out : HelloOutside) (s : Server) (ctx : WsContext) (device_id : String)
    → SameRooms ctx (handle_hello out s ctx device_id)
unfolding handle_hello
hello-SameRooms out s ctx device_id = elim (Bool-cases (str_eq device_id ctx.device_id)) [
  | inr other ↦ rw other (reject-SameRooms ctx _ _)
  | inl own ↦ elim (Bool-cases out.is_count_ok) [
    | inr failed ↦ rw (own, failed) (reject-SameRooms ctx _ _)
    | inl counted ↦
        let greeted = record ctx { hello_received = true } in
        let a = attach-SameRooms out.attach (send greeted _) in
        let b = send-SameRooms greeted _ in
        rw (own, counted)
          (record { rooms = a.rooms ∙ b.rooms; listeners = a.listeners ∙ b.listeners })
  ]
]

send_envelope-SameRooms :
    (deps : SendDeps) (out : Outside) (s : Server) (ctx : WsContext) (nonce : String)
    (env : CiphertextEnvelope)
    → SameRooms ctx (on_send_envelope deps out s ctx nonce env).ctx
send_envelope-SameRooms deps out s ctx nonce env =
    elim (on_send_envelope-IsReply deps out ctx env nonce s) [
      | inl (code, text, e) ↦ rw e (send-SameRooms ctx _)
      | inr (r, found, e) ↦ rw e (send-SameRooms ctx _)
    ]

before_hello-IsListed :
    (at : Moment) (s : Server) (ctx : WsContext) (m : ClientToServer)
    → IsListed ctx
    → IsListed (before_hello at s ctx m).ctx
unfolding before_hello
before_hello-IsListed at s ctx (hello d) l =
    SameRooms-IsListed (hello-SameRooms at.greeting s ctx d) l
before_hello-IsListed at s ctx (send_envelope n e) l =
    SameRooms-IsListed (reject-SameRooms ctx _ _) l
before_hello-IsListed at s ctx (envelope_received i) l =
    SameRooms-IsListed (reject-SameRooms ctx _ _) l
before_hello-IsListed at s ctx presence_ping l = SameRooms-IsListed (reject-SameRooms ctx _ _) l
before_hello-IsListed at s ctx (subscribe_room r) l =
    SameRooms-IsListed (reject-SameRooms ctx _ _) l
before_hello-IsListed at s ctx (unsubscribe_room r) l =
    SameRooms-IsListed (reject-SameRooms ctx _ _) l

after_hello-IsListed :
    (deps : SendDeps) (at : Moment) (s : Server) (ctx : WsContext) (m : ClientToServer)
    → IsListed ctx
    → IsListed (after_hello deps at s ctx m).ctx
unfolding after_hello
after_hello-IsListed deps at s ctx (hello d) l = SameRooms-IsListed (reject-SameRooms ctx _ _) l
after_hello-IsListed deps at s ctx (send_envelope n e) l =
    SameRooms-IsListed (send_envelope-SameRooms deps at.sending s ctx n e) l
after_hello-IsListed deps at s ctx (envelope_received i) l = l
after_hello-IsListed deps at s ctx presence_ping l = l
after_hello-IsListed deps at s ctx (subscribe_room r) l = subscribe-IsListed ctx r at.is_redis_ok l
after_hello-IsListed deps at s ctx (unsubscribe_room r) l = unsubscribe-IsListed ctx r l

module _ (mp : Msgpack) (deps : SendDeps) where
  pub message-IsListed :
      (at : Moment) (s : Server) (ctx : WsContext) (raw : Bytes)
      → IsListed ctx
      → IsListed (handle_client_message mp deps at s ctx raw).ctx
  message-IsListed at s ctx raw l = elim (Option-cases (try_decode mp raw)) [
    | inl bad ↦
        rw (handle-malformed mp deps at s ctx raw bad)
          (SameRooms-IsListed (reject-SameRooms ctx _ _) l)
    | inr (m, good) ↦ elim (Bool-cases ctx.hello_received) [
      | inl past ↦
          let e : handle_client_message mp deps at s ctx raw ≡ after_hello deps at s ctx m =
            handle-decoded mp deps at s ctx raw good
            ∙ ap (λ b. if b then after_hello deps at s ctx m else before_hello at s ctx m) past in
          rw e (after_hello-IsListed deps at s ctx m l)
      | inr before ↦
          let e : handle_client_message mp deps at s ctx raw ≡ before_hello at s ctx m =
            handle-decoded mp deps at s ctx raw good
            ∙ ap (λ b. if b then after_hello deps at s ctx m else before_hello at s ctx m) before in
          rw e (before_hello-IsListed at s ctx m l)
    ]
  ]

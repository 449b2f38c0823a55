-- ===== src/Tests/Gateway.antt =====
-- The gateway's theorems at concrete states and frames.
use konvo_pro.Shared.{
  ◌+◌, if◌then◌else◌, ◌++◌, ℕ, ◌≡◌, refl, arith, true, false, String, List, [], ◌∷◌, none, some,
  pos, lookup, insert,
}
use konvo_pro.Protocol.Messages.{send_envelope, message, envelope, envelope_queued}
use konvo_pro.Protocol.Codec.{Msgpack}
use konvo_pro.Protocol.RoundTrip.{c2s_value}
use konvo_pro.RateLimit.{send_envelope_bucket, try_consume, refill, round, nearest, bits}
use konvo_pro.Gateway.State.{EnvelopeRow, Server, WsContext, build_context, send}
use konvo_pro.Gateway.Envelopes.{SendDeps, Outside, select_by_nonce, on_send_envelope}
use konvo_pro.Gateway.Inbox.{
  LivePublish, handle_all, Inbox, InboxRow, live, handle_live_publish, attach_device_inbox,
  row_to_envelope, handle_live_publish-once, attach_device_inbox-twice,
}
use konvo_pro.Gateway.Hello.{no_attacher}
use konvo_pro.Gateway.Ledger.{Sending, run_sends, IsLedger, run_sends-IsLedger}
use konvo_pro.Gateway.Retry.{IsServed, on_send_envelope-retry}
use konvo_pro.Gateway.Reply.{IsReply, on_send_envelope-IsReply}
use konvo_pro.Gateway.Dispatch.{Moment, try_decode, handle_client_message}
use konvo_pro.Gateway.Handshake.{IsHandshake, handle_client_message-IsHandshake}
use konvo_pro.Gateway.Senders.{IsWrite, handle_client_message-IsWrite}
use konvo_pro.Gateway.Connection.{
  SocketEvent, Connection, open_connection, frame, socket_close, socket_error, run_events,
}
use konvo_pro.Gateway.Lifetime.{IsAlive, run_events-IsAlive, has_ended}
use konvo_pro.Gateway.Listed.{IsListed}
use konvo_pro.Tests.Protocol.{letter, greeting, only}

abbrev empty_server : Server
empty_server = record {
  envelopes = [];
  next_id = 1;
  buckets = [];
  published = [];
  scheduled = [];
  connected_devices = [];
  last_seen = [];
  presence = [];
  envelope_received_count = 0;
  rate_limited_total = 0;
  offline_queued_total = 0;
  routed = [];
}

abbrev past_hello : WsContext
past_hello = record {
  user_id = "u";
  device_id = "a";
  hello_received = true;
  is_open = true;
  sent = [];
  subscribed_rooms = [];
  room_listeners = [];
  inbox_handle = false;
}

abbrev deps : SendDeps
deps = record {
  send_envelope_bucket = send_envelope_bucket;
  has_offline_push_sender = true;
  has_sender_handle_resolver = true;
  offline_push_delay_ms = 0;
}

abbrev fine : ℕ → Outside
fine now = record {
  consume_now = now;
  reply_now = now;
  is_insert_ok = true;
  is_lookup_ok = true;
  between = λ rows. rows;
  publish = some 0;
}

abbrev sending : ℕ → String → Sending
sending now nonce = record {
  deps = deps;
  out = fine now;
  ctx = past_hello;
  nonce = nonce;
  env = letter;
}

empty-IsLedger : IsLedger empty_server
empty-IsLedger = record { ids = tt; nonces = tt; backed = tt; numbered = tt; once = tt }

run_sends-IsLedger_example :
    IsLedger (run_sends empty_server (sending 1000 "n" ∷ sending 1500 "n" ∷ sending 1600 "m" ∷ []))
run_sends-IsLedger_example =
    run_sends-IsLedger empty_server (sending 1000 "n" ∷ sending 1500 "n" ∷ sending 1600 "m" ∷ [])
      (λ rows. refl, (λ rows. refl, (λ rows. refl, tt))) empty-IsLedger

IsServed-first : IsServed deps (fine 1000) empty_server past_hello letter
unfolding try_consume refill round nearest bits lookup
IsServed-first = record {
  own = refl;
  allowed = refl;
  inserts = refl;
  looks_up = refl;
  quiet = λ rows. refl;
}

abbrev others : List Sending
others = sending 1500 "m" ∷ []

IsServed-again :
    IsServed deps
      (fine 2000)
      (run_sends
        (on_send_envelope deps (fine 1000) empty_server past_hello "n" letter).server
        others)
      past_hello
      letter
unfolding try_consume refill round nearest bits lookup run_sends on_send_envelope insert
IsServed-again = record {
  own = refl;
  allowed = refl;
  inserts = refl;
  looks_up = refl;
  quiet = λ rows. refl;
}

nothing_stored : select_by_nonce "a" "n" [] ≡ none
unfolding select_by_nonce
nothing_stored = refl

on_send_envelope-retry_example :
    let first = on_send_envelope deps (fine 1000) empty_server past_hello "n" letter in
    let later = run_sends first.server others in
    let retry = on_send_envelope deps (fine 2000) later past_hello "n" letter in
    (first.ctx ≡ send past_hello (envelope_queued "n" (pos 1) (pos 1000)))
    × ((r : EnvelopeRow) × (select_by_nonce letter.sender_device_id "n" first.server.envelopes
          ≡ some r)
        × (r.id ≡ 1)
        × (r.client_nonce ≡ "n")
        × (r.recipient_device ≡ letter.recipient_device_id)
        × (r.ciphertext ≡ letter.ciphertext))
    × (retry.ctx ≡ send past_hello (envelope_queued "n" (pos 1) (pos 2000)))
    × (retry.server.envelopes ≡ later.envelopes)
    × (retry.server.published ≡ later.published)
on_send_envelope-retry_example =
    on_send_envelope-retry deps empty_server letter "n" (fine 1000) past_hello others (fine 2000)
      past_hello IsServed-first nothing_stored (λ rows. refl, tt) IsServed-again

on_send_envelope-IsReply_example :
    let h = on_send_envelope deps (fine 1000) empty_server past_hello "n" letter in
    IsReply deps (fine 1000) past_hello letter "n" h.server.envelopes h.ctx
on_send_envelope-IsReply_example =
    on_send_envelope-IsReply deps (fine 1000) past_hello letter "n" empty_server

abbrev moment : Moment
moment = record {
  sending = fine 1000;
  greeting = record { now = 1000; is_count_ok = true; attach = no_attacher };
  pinging = record { now = 1000; is_update_ok = true; is_set_ok = true };
  is_redis_ok = true;
}

abbrev mp : Msgpack
mp = only (c2s_value greeting)

handle_client_message-IsHandshake_example :
    let h = handle_client_message mp deps moment empty_server (build_context "u" "a") (1 ∷ []) in
    IsHandshake mp deps moment empty_server
      (build_context "u" "a")
      (try_decode mp (1 ∷ []))
      h.server
      h.ctx
unfolding build_context
handle_client_message-IsHandshake_example =
    handle_client_message-IsHandshake mp deps moment empty_server (build_context "u" "a") (1 ∷ [])
      refl

-- Every frame is a SEND_ENVELOPE of `letter`.
abbrev sends : Msgpack
sends = only (c2s_value (send_envelope "n" letter))

handle_client_message-IsWrite_example :
    IsWrite sends deps moment
      (λ rows. refl)
      past_hello
      empty_server
      (try_decode sends (1 ∷ []))
      (handle_client_message sends deps moment empty_server past_hello (1 ∷ [])).server
handle_client_message-IsWrite_example =
    handle_client_message-IsWrite sends deps moment (λ rows. refl) empty_server past_hello (1 ∷ [])

abbrev opened : Connection
opened = open_connection empty_server 4 (build_context "u" "a")

opened-IsAlive : IsAlive mp deps 4 opened
unfolding open_connection build_context lookup
opened-IsAlive = record {
  gauge = refl;
  rooms = record { listeners = refl; slugs = λ slug found. absurd (ground arith) };
}

opened_accounted : opened.connection_accounted ≡ true
unfolding open_connection
opened_accounted = refl

abbrev socket_events : List SocketEvent
socket_events = frame moment (1 ∷ []) ∷ socket_error ∷ []

run_events-IsAlive_example :
    let q = run_events mp deps socket_events opened in
    let closed = run_events mp deps (socket_events ++ (socket_close ∷ [])) opened in
    (q.ws_connections ≡ 4 + (if has_ended socket_events then 0 else 1))
    × IsListed q.ctx
    × (closed.ws_connections ≡ 4)
    × (closed.ctx.subscribed_rooms ≡ [])
    × (closed.ctx.room_listeners ≡ [])
run_events-IsAlive_example =
    run_events-IsAlive mp deps 4 socket_events opened opened-IsAlive opened_accounted

abbrev stored_row : InboxRow
stored_row = record {
  id = 7;
  session_id = "s";
  sender_device = "b";
  recipient_device = "a";
  type = message;
  ciphertext = 1 ∷ [];
  created_at = 1000;
}

abbrev other_publish : LivePublish
other_publish = live 8 none

handle_live_publish-once_example :
    let inbox : Inbox = record { ctx = past_hello; seen = [] } in
    let once =
      handle_all
        (handle_live_publish inbox (live 7 (some (some stored_row))))
        (other_publish ∷ []) in
    let replayed =
      handle_all
        (attach_device_inbox past_hello [] (some ([] ++ (stored_row ∷ []))))
        (other_publish ∷ []) in
    (handle_live_publish once (live 7 none) ≡ once)
    × (handle_live_publish replayed (live 7 none) ≡ replayed)
handle_live_publish-once_example =
    handle_live_publish-once past_hello [] (other_publish ∷ []) [] [] stored_row
      (record { ctx = past_hello; seen = [] }) 7 (some (some stored_row)) none

attach_device_inbox-twice_example :
    (attach_device_inbox past_hello
      (live 7 (some (some stored_row)) ∷ [])
      (some (stored_row ∷ []))).ctx.sent
    ≡ [] ++ (envelope (row_to_envelope stored_row) ∷ envelope (row_to_envelope stored_row) ∷ [])
attach_device_inbox-twice_example = attach_device_inbox-twice past_hello stored_row refl

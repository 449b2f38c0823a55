-- ===== src/Gateway/Inbox.antt =====
-- apps/api/src/ws/redis-fanout.ts: the replay of what waits for a device, and the envelopes that are
-- published while it is connected.
use konvo_pro.Shared.{
  ℕ, ◌≡◌, arith, Bool, true, false, ◌||◌, ◌==◌, ==_refl, Option, none, some, List, [], ◌∷◌, ◌++◌,
  map, pos, String, if◌then◌else◌, append_assoc,
}
use konvo_pro.Crypto.{Bytes}
use konvo_pro.Protocol.Messages.{EnvelopeRouterType, CiphertextEnvelope, envelope}
use konvo_pro.Gateway.State.{WsContext, send}

-- `EnvelopeRow` of that file.
pub record InboxRow : Type 0 where
  pub id : ℕ
  pub session_id : String
  pub sender_device : String
  pub recipient_device : String
  pub type : EnvelopeRouterType
  pub ciphertext : Bytes
  pub created_at : ℕ

unfoldable pub row_to_envelope : InboxRow → CiphertextEnvelope
row_to_envelope r = record {
  id = some (pos r.id);
  session_id = r.session_id;
  sender_device_id = r.sender_device;
  recipient_device_id = r.recipient_device;
  type = r.type;
  ciphertext = r.ciphertext;
  created_at = some (pos r.created_at);
}

-- A connection with the ids in `seenEnvelopeIds`.
pub record Inbox : Type 0 where
  pub ctx : WsContext
  pub seen : List ℕ

unfoldable pub has_seen : ℕ → List ℕ → Bool
has_seen id [] = false
has_seen id (s ∷ ss) = s == id || has_seen id ss

-- A payload of the channel, `none` where it is no decimal number, and what the SELECT by its id
-- gives: `none` where it throws, `some none` where there is no row.
pub record LivePublish : Type 0 where
  pub payload : Option ℕ
  pub hydrated : Option (Option InboxRow)

abbrev pub live : ℕ → Option (Option InboxRow) → LivePublish
live id hydrated = record { payload = some id; hydrated = hydrated }

unfoldable pub send_hydrated : WsContext → Option (Option InboxRow) → WsContext
unfolding send row_to_envelope
send_hydrated ctx none = ctx
send_hydrated ctx (some none) = ctx
send_hydrated ctx (some (some r)) = send ctx (envelope (row_to_envelope r))

unfoldable pub handle_live_publish : Inbox → LivePublish → Inbox
unfolding has_seen send_hydrated
handle_live_publish inbox p = elim p.payload [
  | none ↦ inbox
  | some id ↦
      if has_seen id inbox.seen
      then inbox
      else record { ctx = send_hydrated inbox.ctx p.hydrated; seen = id ∷ inbox.seen }
]

unfoldable pub handle_all : Inbox → List LivePublish → Inbox
unfolding handle_live_publish
handle_all inbox [] = inbox
handle_all inbox (p ∷ ps) = handle_all (handle_live_publish inbox p) ps

unfoldable pub send_rows : WsContext → List InboxRow → WsContext
unfolding send row_to_envelope
send_rows ctx [] = ctx
send_rows ctx (r ∷ rs) = send_rows (send ctx (envelope (row_to_envelope r))) rs

abbrev pub row_ids : List InboxRow → List ℕ
row_ids = map (λ (r : InboxRow). r.id)

-- `rows` is what the SELECT of the undelivered gives, `none` where it throws.
unfoldable pub replay_undelivered_envelopes : Inbox → Option (List InboxRow) → Inbox
unfolding send_rows
replay_undelivered_envelopes inbox none = inbox
replay_undelivered_envelopes inbox (some rows) = record {
  ctx = send_rows inbox.ctx rows;
  seen = row_ids rows ++ inbox.seen;
}

-- After a subscription that succeeds, with the publishes that come before the SELECT is answered.
unfoldable pub attach_device_inbox : WsContext → List LivePublish → Option (List InboxRow) → Inbox
unfolding handle_all replay_undelivered_envelopes
attach_device_inbox ctx early rows =
    replay_undelivered_envelopes (handle_all (record { ctx = ctx; seen = [] }) early) rows

has_seen-append :
    (id : ℕ) (rows : List InboxRow) (ss : List ℕ)
    → has_seen id (row_ids rows) ≡ true
    → has_seen id (row_ids rows ++ ss) ≡ true
unfolding has_seen
has_seen-append id [] ss h = absurd (ground arith)
has_seen-append id (r ∷ rs) ss h = ground (arith, h, has_seen-append id rs ss)

live-again :
    (inbox : Inbox) (id : ℕ) (hydrated : Option (Option InboxRow))
    → has_seen id inbox.seen ≡ true
    → handle_live_publish inbox (live id hydrated) ≡ inbox
unfolding handle_live_publish
live-again inbox id hydrated seen = ground (arith, seen)

live-sees :
    (inbox : Inbox) (id : ℕ) (hydrated : Option (Option InboxRow))
    → has_seen id (handle_live_publish inbox (live id hydrated)).seen ≡ true
unfolding handle_live_publish has_seen
live-sees inbox id hydrated = ground (arith, ==_refl id)

live-keeps :
    (inbox : Inbox) (id : ℕ) (p : LivePublish)
    → has_seen id inbox.seen ≡ true
    → has_seen id (handle_live_publish inbox p).seen ≡ true
unfolding handle_live_publish has_seen
live-keeps inbox id p seen = ground (arith, seen)

handle_all-keeps :
    (inbox : Inbox) (id : ℕ) (ps : List LivePublish)
    → has_seen id inbox.seen ≡ true
    → has_seen id (handle_all inbox ps).seen ≡ true
unfolding handle_all
handle_all-keeps inbox id [] seen = seen
handle_all-keeps inbox id (p ∷ ps) seen =
    handle_all-keeps (handle_live_publish inbox p) id ps (live-keeps inbox id p seen)

has_seen-row_ids :
    (r : InboxRow) (before after : List InboxRow)
    → has_seen r.id (row_ids (before ++ (r ∷ after))) ≡ true
unfolding has_seen
has_seen-row_ids r [] after = ground (arith, ==_refl r.id)
has_seen-row_ids r (q ∷ before) after = ground (arith, has_seen-row_ids r before after)

-- Once an envelope was published, or the replay has sent its row, a further publish of it changes
-- nothing and sends nothing, whatever other publishes came in between and whatever the table holds by
-- then.
pub handle_live_publish-once :
    (ctx : WsContext) (early between : List LivePublish) (before after : List InboxRow)
    (r : InboxRow) (inbox : Inbox) (id : ℕ) (first again : Option (Option InboxRow))
    → let once = handle_all (handle_live_publish inbox (live id first)) between in
      let replayed =
        handle_all (attach_device_inbox ctx early (some (before ++ (r ∷ after)))) between in
      (handle_live_publish once (live id again) ≡ once)
      × (handle_live_publish replayed (live r.id again) ≡ replayed)
unfolding attach_device_inbox replay_undelivered_envelopes
handle_live_publish-once ctx early between before after r inbox id first again = (
  live-again _ id again (handle_all-keeps _ id between (live-sees inbox id first)),
  live-again _ r.id again (
      handle_all-keeps _ r.id between
        (has_seen-append r.id (before ++ (r ∷ after)) _ (has_seen-row_ids r before after))),
)

-- An envelope that is published after the subscription and before the replay has read its rows is
-- sent twice on an open socket, once by each.
pub attach_device_inbox-twice :
    (ctx : WsContext) (r : InboxRow)
    → ctx.is_open ≡ true
    → (attach_device_inbox ctx (live r.id (some (some r)) ∷ []) (some (r ∷ []))).ctx.sent
      ≡ ctx.sent ++ (envelope (row_to_envelope r) ∷ envelope (row_to_envelope r) ∷ [])
unfolding attach_device_inbox replay_undelivered_envelopes handle_all handle_live_publish has_seen
    send_hydrated send_rows send
attach_device_inbox-twice ctx r open_socket =
    rw open_socket (
      append_assoc ctx.sent (envelope (row_to_envelope r) ∷ []) (envelope (row_to_envelope r) ∷ []))

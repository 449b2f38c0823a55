-- ===== src/Dm/Tables.antt =====
-- apps/web/src/db/repositories: messages.ts, threads.ts and the sessions of sessions.ts, over Dexie
-- tables.
use konvo_pro.Shared.{
  ℕ, suc, ◌+◌, Bool, true, false, Option, none, some, List, [], ◌∷◌, ◌++◌, String, str_eq, ◌==◌,
  if◌then◌else◌, Map, lookup, insert, delete,
}
use Prim.Native.Nat.{max}
use konvo_pro.Crypto.{Bytes}
use konvo_pro.Ratchet.State.{RatchetState}
use konvo_pro.Trust.Pins.{composite_id}

pub data MessageState : Type 0 where
  sending delivered read failed tampered : MessageState

abbrev pub is_sending : MessageState → Bool
is_sending sending = true
is_sending _ = false

pub record Message : Type 0 where
  pub id : ℕ
  pub thread_id : String
  pub sender_device_id : String
  pub recipient_device_id : String
  pub body : Bytes
  pub state : MessageState
  pub client_nonce : String
  pub created_at : ℕ

-- The arguments of the two inserts.
pub record NewMessage : Type 0 where
  pub thread_id : String
  pub sender_device_id : String
  pub recipient_device_id : String
  pub body : Bytes
  pub client_nonce : String
  pub created_at : ℕ

-- The rows in the order of their keys, and the next key.
pub record MessageTable : Type 0 where
  pub rows : List Message
  pub next_id : ℕ

abbrev pub row_of : ℕ → MessageState → NewMessage → Message
row_of id state m = record {
  id = id;
  thread_id = m.thread_id;
  sender_device_id = m.sender_device_id;
  recipient_device_id = m.recipient_device_id;
  body = m.body;
  state = state;
  client_nonce = m.client_nonce;
  created_at = m.created_at;
}

abbrev pub add_message : MessageState → MessageTable → NewMessage → MessageTable
add_message state t m = record {
  rows = t.rows ++ (row_of t.next_id state m ∷ []);
  next_id = suc t.next_id;
}

abbrev pub insert_outgoing : MessageTable → NewMessage → MessageTable
insert_outgoing = add_message sending

abbrev pub insert_incoming : MessageTable → NewMessage → MessageTable
insert_incoming = add_message delivered

unfoldable pub find_by_client_nonce : String → List Message → Option Message
find_by_client_nonce nonce [] = none
find_by_client_nonce nonce (m ∷ ms) =
    if str_eq m.client_nonce nonce then some m else find_by_client_nonce nonce ms

unfoldable pub find_id : ℕ → List Message → Option Message
find_id id [] = none
find_id id (m ∷ ms) = if m.id == id then some m else find_id id ms

unfoldable pub set_state : ℕ → MessageState → List Message → List Message
set_state id state [] = []
set_state id state (m ∷ ms) =
    (if m.id == id then record m { state = state } else m) ∷ set_state id state ms

-- The table, and the row that was changed, if it was there.
pub record Updated : Type 0 where
  pub table : MessageTable
  pub message : Option Message

abbrev pub put_state : MessageState → MessageTable → Option Message → Updated
put_state state t none = record { table = t; message = none }
put_state state t (some m) = record {
  table = record t { rows = set_state m.id state t.rows };
  message = some (record m { state = state });
}

unfoldable pub update_state : ℕ → MessageState → MessageTable → Updated
update_state id state t = put_state state t (find_id id t.rows)

unfoldable pub set_state_by_client_nonce : String → MessageState → MessageTable → Updated
set_state_by_client_nonce nonce state t = put_state state t (find_by_client_nonce nonce t.rows)

pub record Thread : Type 0 where
  pub peer_handle : Option String
  pub last_message_at : ℕ
  pub unread_count : ℕ
  pub created_at : ℕ

abbrev pub handle_of : Option Thread → Option String
handle_of none = none
handle_of (some t) = t.peer_handle

abbrev pub or_else : Option String → Option String → Option String
or_else none other = other
or_else (some s) other = some s

abbrev pub last_at : Option Thread → ℕ
last_at none = 0
last_at (some t) = t.last_message_at

abbrev pub unread_of : Option Thread → ℕ
unread_of none = 0
unread_of (some t) = t.unread_count

abbrev pub created_or : ℕ → Option Thread → ℕ
created_or now none = now
created_or now (some t) = t.created_at

-- `upsert` as the controller calls it, with `lastMessageAt` and `now` the same time.
unfoldable pub upsert : Map Thread → String → Option String → ℕ → Map Thread
upsert t peer handle now =
    let existing = lookup peer t in
    insert peer
      (record {
        peer_handle = or_else handle (handle_of existing);
        last_message_at = now;
        unread_count = unread_of existing;
        created_at = created_or now existing;
      })
      t

unfoldable pub record_incoming : Map Thread → String → ℕ → Map Thread
record_incoming t peer at =
    let existing = lookup peer t in
    insert peer
      (record {
        peer_handle = handle_of existing;
        last_message_at = max (last_at existing) at;
        unread_count = unread_of existing + 1;
        created_at = created_or at existing;
      })
      t

unfoldable pub record_outgoing : Map Thread → String → ℕ → Map Thread
record_outgoing t peer at =
    let existing = lookup peer t in
    insert peer
      (record {
        peer_handle = handle_of existing;
        last_message_at = max (last_at existing) at;
        unread_count = unread_of existing;
        created_at = created_or at existing;
      })
      t

unfoldable pub mark_read : Map Thread → String → Map Thread
mark_read t peer = elim (lookup peer t) [
  | none ↦ t
  | some thread ↦
      if thread.unread_count == 0 then t else insert peer (record thread { unread_count = 0 }) t
]

-- `DexieSessionsStore`: the copies of buffers have no counterpart, nor has `updatedAt`.
unfoldable pub load_session : Map RatchetState → String → String → Option RatchetState
load_session t user device = lookup (composite_id user device) t

unfoldable pub save_session : Map RatchetState → String → String → RatchetState → Map RatchetState
save_session t user device state = insert (composite_id user device) state t

unfoldable pub delete_session : Map RatchetState → String → String → Map RatchetState
delete_session t user device = delete (composite_id user device) t

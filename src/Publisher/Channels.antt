-- ===== src/Publisher/Channels.antt =====
-- apps/api/src/ws/redis-publisher.ts: the map of listeners, whose arrays are shared objects, and the
-- subscriptions that Redis holds.
use Prim.Native.String.{◌++◌ as cat}
use konvo_pro.Shared.{
  ℕ, suc, Bool, true, false, Option, none, some, List, [], ◌∷◌, ◌++◌, String, ◌==◌, if◌then◌else◌,
  Map, lookup, insert, delete,
}

abbrev pub room_channel_for : String → String
room_channel_for slug = cat "room:" slug

abbrev pub device_channel_for : String → String
device_channel_for device_id = cat "dev:" device_id

abbrev pub presence_key_for : String → String
presence_key_for device_id = cat "presence:" device_id

-- A call of addChannelListener that waits for the subscription holds its array and its listener, and
-- finds at the end of its wait whether Redis has taken the subscription.
pub record Waiting : Type 0 where
  pub subscribed : Bool
  pub array : ℕ
  pub listener : ℕ

-- `channelListeners` gives a channel its array; `arrays` is what the arrays hold; `upstream` has the
-- channels that Redis delivers.
pub record Publisher : Type 0 where
  pub channels : Map ℕ
  pub arrays : ℕ → List ℕ
  pub next_array : ℕ
  pub upstream : Map Bool

abbrev pub new_publisher : Publisher
new_publisher = record { channels = []; arrays = λ a. []; next_array = 0; upstream = [] }

abbrev pub write : ℕ → List ℕ → (ℕ → List ℕ) → ℕ → List ℕ
write a listeners arrays b = if a == b then listeners else arrays b

abbrev pub push : ℕ → ℕ → Publisher → Publisher
push a listener p = record p { arrays = write a (p.arrays a ++ (listener ∷ [])) p.arrays }

-- Up to the wait for `subscribe`: `some` call waits, where the channel had no array. SUBSCRIBE and
-- UNSUBSCRIBE go out on one connection in the order of the calls, and take effect in that order; so
-- the subscription, if Redis takes it, is there from here on.
pub record Begun : Type 0 where
  pub publisher : Publisher
  pub waiting : Option Waiting

unfoldable pub begin_add : Publisher → String → ℕ → Bool → Begun
begin_add p channel listener subscribed = elim (lookup channel p.channels) [
  | some a ↦ record { publisher = push a listener p; waiting = none }
  | none ↦ record {
    publisher = record p {
      channels = insert channel p.next_array p.channels;
      arrays = write p.next_array [] p.arrays;
      next_array = suc p.next_array;
      upstream = if subscribed then insert channel true p.upstream else p.upstream;
    };
    waiting = some (record { subscribed = subscribed; array = p.next_array; listener = listener });
  }
]

-- The wait ends: the listener is pushed, or the call throws.
unfoldable pub end_add : Waiting → Publisher → Publisher
end_add w p = if w.subscribed then push w.array w.listener p else p

-- `addChannelListener` where no other call comes between.
unfoldable pub add_channel_listener : Publisher → String → ℕ → Publisher
add_channel_listener p channel listener =
    let b = begin_add p channel listener true in
    elim b.waiting [ none ↦ b.publisher | some w ↦ end_add w b.publisher ]

-- `splice(indexOf(listener), 1)`
unfoldable pub remove_first : ℕ → List ℕ → List ℕ
remove_first l [] = []
remove_first l (x ∷ xs) = if x == l then xs else x ∷ remove_first l xs

abbrev pub is_empty : List ℕ → Bool
is_empty [] = true
is_empty (x ∷ xs) = false

unfoldable pub detach : Publisher → String → ℕ → List ℕ → Publisher
detach p channel a left =
    let q : Publisher = record p { arrays = write a left p.arrays } in
    if is_empty left
    then (record q { channels = delete channel q.channels; upstream = delete channel q.upstream })
    else q

unfoldable pub remove_channel_listener : Publisher → String → ℕ → Publisher
remove_channel_listener p channel listener = elim (lookup channel p.channels) [
  | none ↦ p
  | some a ↦ detach p channel a (remove_first listener (p.arrays a))
]

-- The listeners that a message of the channel would reach, in order.
unfoldable pub listeners_of : Publisher → String → List ℕ
listeners_of p channel = elim (lookup channel p.channels) [ none ↦ [] | some a ↦ p.arrays a ]

abbrev pub is_present : Option Bool → Bool
is_present none = false
is_present (some b) = true

-- The message handler, on what Redis delivers.
unfoldable pub dispatch : Publisher → String → List ℕ
dispatch p channel =
    let reached = listeners_of p channel in
    if is_present (lookup channel p.upstream) then reached else []

pub data ListenOp : Type 0 where
  adds : String → ℕ → ListenOp
  removes : String → ℕ → ListenOp

unfoldable pub listen_step : Publisher → ListenOp → Publisher
listen_step p (adds channel listener) = add_channel_listener p channel listener
listen_step p (removes channel listener) = remove_channel_listener p channel listener

unfoldable pub listen_run : Publisher → List ListenOp → Publisher
listen_run p [] = p
listen_run p (op ∷ ops) = listen_run (listen_step p op) ops

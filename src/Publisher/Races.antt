-- ===== src/Publisher/Races.antt =====
-- apps/api/src/ws/redis-publisher.ts: calls of addChannelListener that fail or are overtaken while
-- they wait for Redis.
use konvo_pro.Shared.{
  ℕ, ◌≡◌, arith, Bool, true, false, none, some, [], ◌∷◌, String, eq_refl, ==_refl, lookup, insert,
  lookup-insert, lookup-delete,
}
use konvo_pro.Publisher.Channels.{
  Waiting, Publisher, begin_add, end_add, remove_first, detach, remove_channel_listener,
  listeners_of, dispatch,
}

abbrev pub first_call : Publisher → ℕ → Bool → Waiting
first_call p listener subscribed = record {
  subscribed = subscribed;
  array = p.next_array;
  listener = listener;
}

-- The first call for a channel begins to wait, and the subscription fails.
abbrev pub after_failure : Publisher → String → ℕ → Publisher
after_failure p channel listener =
    end_add (first_call p listener false) (begin_add p channel listener false).publisher

-- A subscription that fails leaves its channel in the map: the next listener of the channel is taken
-- without a wait and without a subscription, and no message reaches it.
pub begin_add-deaf :
    (p : Publisher) (channel : String) (one two : ℕ)
    → lookup channel p.channels ≡ none
    → lookup channel p.upstream ≡ none
    → let next = begin_add (after_failure p channel one) channel two true in
      ((begin_add p channel one false).waiting ≡ some (first_call p one false))
      × (next.waiting ≡ none)
      × (listeners_of next.publisher channel ≡ two ∷ [])
      × (dispatch next.publisher channel ≡ [])
unfolding begin_add end_add listeners_of dispatch
begin_add-deaf p channel one two missing silent =
    let written = lookup-insert channel channel p.next_array p.channels in
    (
      ground (arith, missing),
      ground (arith, missing, written, eq_refl channel),
      ground (arith, missing, written, eq_refl channel, ==_refl p.next_array),
      ground (arith, missing, written, silent, eq_refl channel, ==_refl p.next_array),
    )

-- While the first call waits, another listener of the channel comes and goes.
abbrev pub overtaken : Publisher → String → ℕ → ℕ → Publisher
overtaken p channel one two =
    remove_channel_listener
      (begin_add (begin_add p channel one true).publisher channel two true).publisher channel two

-- A listener that waits for its subscription while another one comes and goes is lost, although Redis
-- has taken the subscription and the call returns: the UNSUBSCRIBE of the other one comes after it, so
-- Redis delivers the channel no longer, its listener stands in an array that the map does not have,
-- and no message reaches it.
pub end_add-orphan :
    (p : Publisher) (channel : String) (one two : ℕ)
    → lookup channel p.channels ≡ none
    → let q = end_add (first_call p one true) (overtaken p channel one two) in
      ((begin_add p channel one true).waiting ≡ some (first_call p one true))
      × (lookup channel q.upstream ≡ none)
      × (q.arrays p.next_array ≡ one ∷ [])
      × (lookup channel q.channels ≡ none)
      × (dispatch q channel ≡ [])
unfolding begin_add end_add remove_channel_listener detach remove_first listeners_of dispatch
end_add-orphan p channel one two missing =
    let written = lookup-insert channel channel p.next_array p.channels in
    let gone = lookup-delete channel channel (insert channel p.next_array p.channels) in
    let off = lookup-delete channel channel (insert channel true p.upstream) in
    (
      ground (arith, missing),
      ground (arith, missing, written, off, eq_refl channel, ==_refl p.next_array, ==_refl two),
      ground (arith, missing, written, eq_refl channel, ==_refl p.next_array, ==_refl two),
      ground (arith, missing, written, gone, eq_refl channel, ==_refl p.next_array, ==_refl two),
      ground (arith, missing, written, gone, eq_refl channel, ==_refl p.next_array, ==_refl two),
    )

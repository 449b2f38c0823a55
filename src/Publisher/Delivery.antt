-- ===== src/Publisher/Delivery.antt =====
-- apps/api/src/ws/redis-publisher.ts: delivery against a list of listeners for each channel.
use konvo_pro.Shared.{
  ◌==◌, ℕ, ◌≡◌, refl, ap, ◌∙◌, arith, some, List, [], ◌∷◌, ◌++◌, String, str_eq, eq_iff, ==_iff,
  ==_refl, if◌then◌else◌, Map, lookup, lookup-insert, lookup-delete, Option-cases, inl, inr,
}
use konvo_pro.Publisher.Channels.{
  Publisher, push, add_channel_listener, remove_first, detach, remove_channel_listener,
  listeners_of, dispatch, ListenOp, adds, removes, listen_step, listen_run,
}
use konvo_pro.Publisher.Listening.{
  IsListening, add_known, add_unknown, detach_none, detach_some, remove_unknown, remove_known,
  listen_step-IsListening,
}

abbrev pub op_channel : ListenOp → String
op_channel (adds channel listener) = channel
op_channel (removes channel listener) = channel

-- The list without the first occurrence of `l`; as it is where there is none.
unfoldable pub unsubscribed : ℕ → List ℕ → List ℕ
unsubscribed l [] = []
unsubscribed l (x ∷ xs) = if x == l then xs else x ∷ unsubscribed l xs

remove_first-unsubscribed : (l : ℕ) (xs : List ℕ) → remove_first l xs ≡ unsubscribed l xs
unfolding remove_first unsubscribed
remove_first-unsubscribed l [] = refl
remove_first-unsubscribed l (x ∷ xs) = ground (arith, remove_first-unsubscribed l xs)

-- The listeners of one channel, without arrays.
abbrev pub list_step : ListenOp → List ℕ → List ℕ
list_step (adds channel listener) ls = ls ++ (listener ∷ [])
list_step (removes channel listener) ls = unsubscribed listener ls

abbrev pub list_run : String → List ListenOp → List ℕ → List ℕ
list_run channel [] ls = ls
list_run channel (op ∷ ops) ls =
    list_run channel ops (if str_eq (op_channel op) channel then list_step op ls else ls)

push-listeners_of :
    (p : Publisher) (channel ch : String) (listener a : ℕ)
    → lookup channel p.channels ≡ some a
    → IsListening p
    → listeners_of (push a listener p) ch
      ≡ (if str_eq channel ch then listeners_of p channel ++ (listener ∷ []) else listeners_of p ch)
unfolding listeners_of
push-listeners_of p channel ch listener a found inv = elim (Option-cases (lookup ch p.channels)) [
  | inl missing ↦ ground (arith, found, missing, eq_iff channel ch)
  | inr (b, there) ↦
      ground (arith, found, there, eq_iff channel ch, inv.apart channel ch a, ==_iff a b)
]

add-listeners_of :
    (p : Publisher) (channel ch : String) (listener : ℕ)
    → IsListening p
    → listeners_of (add_channel_listener p channel listener) ch
      ≡ (if str_eq channel ch then listeners_of p channel ++ (listener ∷ []) else listeners_of p ch)
add-listeners_of p channel ch listener inv = elim (Option-cases (lookup channel p.channels)) [
  | inr (a, found) ↦
      ap (λ (q : Publisher). listeners_of q ch) (add_known p channel listener a found)
      ∙ push-listeners_of p channel ch listener a found inv
  | inl missing ↦
      let q = add_channel_listener p channel listener in
      let eqs = add_unknown p channel listener missing in
      let at =
        ap (λ (m : Map ℕ). lookup ch m) eqs.0 ∙ lookup-insert channel ch p.next_array p.channels in
      unfold listeners_of in
      (elim (Option-cases (lookup ch p.channels)) [
        | inl absent ↦ ground (arith, missing, absent, at, eqs.1 p.next_array, ==_refl p.next_array)
        | inr (b, there) ↦ ground (
          arith,
          missing,
          there,
          at,
          eqs.1 p.next_array,
          eqs.1 b,
          eq_iff channel ch,
          inv.below ch b there,
          ==_iff p.next_array b,
          ==_refl p.next_array,
        )
      ])
]

detach-listeners_of :
    (p : Publisher) (channel ch : String) (a : ℕ) (left : List ℕ)
    → lookup channel p.channels ≡ some a
    → IsListening p
    → listeners_of (detach p channel a left) ch
      ≡ (if str_eq channel ch then left else listeners_of p ch)
detach-listeners_of p channel ch a [] found inv =
    ap (λ (q : Publisher). listeners_of q ch) (detach_none p channel a)
    ∙ unfold listeners_of in
      (elim (Option-cases (lookup ch p.channels)) [
        | inl absent ↦ ground (arith, absent, lookup-delete channel ch p.channels)
        | inr (b, there) ↦ ground (
          arith,
          found,
          there,
          lookup-delete channel ch p.channels,
          eq_iff channel ch,
          inv.apart channel ch a,
          ==_iff a b,
        )
      ])
detach-listeners_of p channel ch a (x ∷ left) found inv =
    ap (λ (q : Publisher). listeners_of q ch) (detach_some p channel a (x ∷ left) refl)
    ∙ unfold listeners_of in
      (elim (Option-cases (lookup ch p.channels)) [
        | inl absent ↦ ground (arith, found, absent, eq_iff channel ch)
        | inr (b, there) ↦
            ground (arith, found, there, eq_iff channel ch, inv.apart channel ch a, ==_iff a b)
      ])

remove-listeners_of :
    (p : Publisher) (channel ch : String) (listener : ℕ)
    → IsListening p
    → listeners_of (remove_channel_listener p channel listener) ch ≡ (
        if str_eq channel ch
        then remove_first listener (listeners_of p channel)
        else listeners_of p ch)
unfolding listeners_of remove_first
remove-listeners_of p channel ch listener inv = elim (Option-cases (lookup channel p.channels)) [
  | inl missing ↦
      ground (arith, missing, eq_iff channel ch, remove_unknown p channel listener missing)
  | inr (a, found) ↦
      ap (λ (q : Publisher). listeners_of q ch) (remove_known p channel listener a found)
      ∙ detach-listeners_of p channel ch a (remove_first listener (p.arrays a)) found inv
      ∙ ground (arith, found)
]

step-listeners_of :
    (p : Publisher) (op : ListenOp) (ch : String)
    → IsListening p
    → listeners_of (listen_step p op) ch
      ≡ (if str_eq (op_channel op) ch then list_step op (listeners_of p ch) else listeners_of p ch)
unfolding listen_step
step-listeners_of p (adds channel listener) ch inv =
    ground (arith, eq_iff channel ch, add-listeners_of p channel ch listener inv)
step-listeners_of p (removes channel listener) ch inv = ground (
  arith,
  eq_iff channel ch,
  remove-listeners_of p channel ch listener inv,
  remove_first-unsubscribed listener (listeners_of p ch),
)

dispatch_lem : (p : Publisher) (ch : String) → IsListening p → dispatch p ch ≡ listeners_of p ch
unfolding dispatch listeners_of
dispatch_lem p ch inv = ground (arith, inv.upstream ch)

-- Where the calls run one after another and Redis takes every subscription, a message of a channel
-- reaches the listeners that were added to it and not removed, in the order in which they came: an
-- add appends one occurrence, a removal takes away the first one of its listener and no other, and
-- calls for other channels change nothing.
pub listen_run-refines :
    (p : Publisher) (ops : List ListenOp) (channel : String)
    → IsListening p
    → dispatch (listen_run p ops) channel ≡ list_run channel ops (dispatch p channel)
unfolding listen_run
listen_run-refines p [] channel inv = refl
listen_run-refines p (op ∷ ops) channel inv =
    let next = listen_step-IsListening p op inv in
    let here : dispatch (listen_step p op) channel ≡ (
        if str_eq (op_channel op) channel
        then list_step op (dispatch p channel)
        else dispatch p channel) =
      dispatch_lem (listen_step p op) channel next
      ∙ step-listeners_of p op channel inv
      ∙ ground (arith, dispatch_lem p channel inv) in
    listen_run-refines (listen_step p op) ops channel next
    ∙ ap (λ (ls : List ℕ). list_run channel ops ls) here

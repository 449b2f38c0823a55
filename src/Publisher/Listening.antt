-- ===== src/Publisher/Listening.antt =====
-- apps/api/src/ws/redis-publisher.ts: calls that run one after another.
use konvo_pro.Shared.{
  ℕ, suc, ◌<◌, ◌≡◌, refl, ap, sym, subst, ◌∙◌, arith, true, false, none, some, List, [], ◌∷◌, ◌++◌,
  String, str_eq, eq_iff, ==_iff, ==_refl, if◌then◌else◌, Map, lookup, insert, delete,
  lookup-insert, lookup-delete, Option-cases, inl, inr,
}
use konvo_pro.Publisher.Channels.{
  Publisher, new_publisher, write, push, begin_add, end_add, add_channel_listener, remove_first,
  is_empty, detach, remove_channel_listener, is_present, ListenOp, adds, removes, listen_step,
}

-- Each channel of the map has an array of its own that holds listeners, and Redis is subscribed to
-- exactly those channels.
pub record IsListening (p : Publisher) : Type 0 where
  pub below : (ch : String) (a : ℕ) → lookup ch p.channels ≡ some a → a < p.next_array
  pub apart :
      (ch other : String) (a : ℕ)
      → lookup ch p.channels ≡ some a
      → lookup other p.channels ≡ some a
      → ch ≡ other
  pub filled : (ch : String) (a : ℕ) → lookup ch p.channels ≡ some a → is_empty (p.arrays a) ≡ false
  pub upstream :
      (ch : String)
      → is_present (lookup ch p.upstream)
        ≡ (elim (lookup ch p.channels) [ none ↦ false | some a ↦ true ])

pub new_publisher-IsListening : IsListening new_publisher
unfolding lookup
new_publisher-IsListening = record {
  below = λ ch a e. absurd (ground (arith, e));
  apart = λ ch other a e e'. absurd (ground (arith, e));
  filled = λ ch a e. absurd (ground (arith, e));
  upstream = λ ch. refl;
}

pub add_known :
    (p : Publisher) (channel : String) (listener a : ℕ)
    → lookup channel p.channels ≡ some a
    → add_channel_listener p channel listener ≡ push a listener p
unfolding add_channel_listener begin_add
add_known p channel listener a found = ground (arith, found)

abbrev opened : Publisher → String → ℕ → Publisher
opened p channel listener = record {
  channels = insert channel p.next_array p.channels;
  arrays = write p.next_array (listener ∷ []) p.arrays;
  next_array = suc p.next_array;
  upstream = insert channel true p.upstream;
}

is_empty-snoc : (xs : List ℕ) (x : ℕ) → is_empty (xs ++ (x ∷ [])) ≡ false
is_empty-snoc [] x = refl
is_empty-snoc (y ∷ xs) x = refl

pub add_unknown :
    (p : Publisher) (channel : String) (listener : ℕ)
    → lookup channel p.channels ≡ none
    → let q = add_channel_listener p channel listener in
      (q.channels ≡ insert channel p.next_array p.channels)
      × ((b : ℕ) → q.arrays b ≡ write p.next_array (listener ∷ []) p.arrays b)
      × (q.next_array ≡ suc p.next_array)
      × (q.upstream ≡ insert channel true p.upstream)
unfolding add_channel_listener begin_add end_add
add_unknown p channel listener missing = (
  ground (arith, missing),
  λ b. ground (arith, missing, ==_refl p.next_array),
  ground (arith, missing),
  ground (arith, missing),
)

add_known-IsListening :
    (p : Publisher) (channel : String) (listener a : ℕ)
    → lookup channel p.channels ≡ some a
    → IsListening p
    → IsListening (push a listener p)
add_known-IsListening p channel listener a found inv = record {
  below = inv.below;
  apart = inv.apart;
  filled =
      λ ch b e. ground (arith, inv.filled ch b e, is_empty-snoc (p.arrays a) listener, ==_iff a b);
  upstream = inv.upstream;
}

add_unknown-IsListening :
    (p : Publisher) (channel : String) (listener : ℕ)
    → lookup channel p.channels ≡ none
    → IsListening p
    → IsListening (add_channel_listener p channel listener)
add_unknown-IsListening p channel listener missing inv =
    let q = add_channel_listener p channel listener in
    let eqs = add_unknown p channel listener missing in
    let at : (ch : String)
        → lookup ch q.channels
          ≡ (if str_eq channel ch then some p.next_array else lookup ch p.channels) =
      λ ch.
        ap (λ (m : Map ℕ). lookup ch m) eqs.0 ∙ lookup-insert channel ch p.next_array p.channels in
    record {
      below = λ ch a e. ground (arith, at ch, e, eqs.2, inv.below ch a);
      apart = λ ch other a e e'. ground (
        arith,
        at ch,
        at other,
        e,
        e',
        eq_iff channel ch,
        eq_iff channel other,
        eq_iff ch other,
        inv.below ch a,
        inv.below other a,
        inv.apart ch other a,
      );
      filled = λ ch a e.
          ground (arith, at ch, e, eqs.1 a, inv.below ch a, inv.filled ch a, ==_iff p.next_array a);
      upstream = λ ch.
          ground (arith, at ch, eqs.3, lookup-insert channel ch true p.upstream, inv.upstream ch);
    }

detach_some-IsListening :
    (p : Publisher) (channel : String) (a : ℕ) (left : List ℕ)
    → lookup channel p.channels ≡ some a
    → is_empty left ≡ false
    → IsListening p
    → IsListening (record p { arrays = write a left p.arrays })
detach_some-IsListening p channel a left found some_left inv = record {
  below = inv.below;
  apart = inv.apart;
  filled = λ ch b e. ground (arith, some_left, inv.filled ch b e, ==_iff a b);
  upstream = inv.upstream;
}

abbrev pub shut : Publisher → String → ℕ → Publisher
shut p channel a = record p {
  channels = delete channel p.channels;
  arrays = write a [] p.arrays;
  upstream = delete channel p.upstream;
}

detach_none-IsListening :
    (p : Publisher) (channel : String) (a : ℕ)
    → lookup channel p.channels ≡ some a
    → IsListening p
    → IsListening (shut p channel a)
detach_none-IsListening p channel a found inv = record {
  below = λ ch b e. ground (arith, e, lookup-delete channel ch p.channels, inv.below ch b);
  apart = λ ch other b e e'. ground (
    arith,
    e,
    e',
    lookup-delete channel ch p.channels,
    lookup-delete channel other p.channels,
    inv.apart ch other b,
  );
  filled = λ ch b e. ground (
    arith,
    e,
    found,
    lookup-delete channel ch p.channels,
    inv.filled ch b,
    inv.apart channel ch b,
    eq_iff channel ch,
    ==_iff a b,
  );
  upstream = λ ch. ground (
    arith,
    lookup-delete channel ch p.channels,
    lookup-delete channel ch p.upstream,
    inv.upstream ch,
  );
}

pub detach_none :
    (p : Publisher) (channel : String) (a : ℕ) → detach p channel a [] ≡ shut p channel a
unfolding detach
detach_none p channel a = refl

pub detach_some :
    (p : Publisher) (channel : String) (a : ℕ) (left : List ℕ)
    → is_empty left ≡ false
    → detach p channel a left ≡ record p { arrays = write a left p.arrays }
unfolding detach
detach_some p channel a left e = ground (arith, e)

detach-IsListening :
    (p : Publisher) (channel : String) (a : ℕ) (left : List ℕ)
    → lookup channel p.channels ≡ some a
    → IsListening p
    → IsListening (detach p channel a left)
detach-IsListening p channel a [] found inv =
    subst IsListening (sym (detach_none p channel a))
      (detach_none-IsListening p channel a found inv)
detach-IsListening p channel a (x ∷ left) found inv =
    subst IsListening (sym (detach_some p channel a (x ∷ left) refl))
      (detach_some-IsListening p channel a (x ∷ left) found refl inv)

pub remove_unknown :
    (p : Publisher) (channel : String) (listener : ℕ)
    → lookup channel p.channels ≡ none
    → remove_channel_listener p channel listener ≡ p
unfolding remove_channel_listener
remove_unknown p channel listener missing = ground (arith, missing)

pub remove_known :
    (p : Publisher) (channel : String) (listener a : ℕ)
    → lookup channel p.channels ≡ some a
    → remove_channel_listener p channel listener
      ≡ detach p channel a (remove_first listener (p.arrays a))
unfolding remove_channel_listener
remove_known p channel listener a found = ground (arith, found)

pub listen_step-IsListening :
    (p : Publisher) (op : ListenOp) → IsListening p → IsListening (listen_step p op)
unfolding listen_step
listen_step-IsListening p (adds channel listener) inv =
    elim (Option-cases (lookup channel p.channels)) [
      | inl missing ↦ add_unknown-IsListening p channel listener missing inv
      | inr (a, found) ↦
          subst IsListening (sym (add_known p channel listener a found))
            (add_known-IsListening p channel listener a found inv)
    ]
listen_step-IsListening p (removes channel listener) inv =
    elim (Option-cases (lookup channel p.channels)) [
      | inl missing ↦ subst IsListening (sym (remove_unknown p channel listener missing)) inv
      | inr (a, found) ↦
          subst IsListening (sym (remove_known p channel listener a found))
            (detach-IsListening p channel a (remove_first listener (p.arrays a)) found inv)
    ]

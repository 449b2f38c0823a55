-- ===== src/Trust/Pinning.antt =====
-- apps/web/src/db/repositories/remote-identities.ts against a register for each peer device.
use konvo_pro.Shared.{
  ℕ, ◌≡◌, ◌≢◌, refl, ap, sym, subst, ◌∙◌, arith, Bool, true, false, ◌&&◌, Option, none, some, List,
  [], ◌∷◌, All, String, str_eq, eq_iff, eq_refl, if◌then◌else◌, lookup, lookup-insert, Option-cases,
  Bool-cases, ◌⊎◌, inl, inr,
}
use konvo_pro.Crypto.{Bytes}
use konvo_pro.Ratchet.State.{bytes_equal, bytes_equal_iff}
use konvo_pro.Trust.Pins.{
  RemoteIdentity, FirstSightOutcome, unchanged, changed, Pins, composite_id, get, Seen,
  first_record, record_first_sight_or_detect_change, marked, mark, mark_trusted, mark_untrusted,
  TrustOp, sees, trusts, distrusts, trust_step, trust_run,
}
use konvo_pro.Trust.Keys.{IsUuid, composite_id_eq}

abbrev pub op_user : TrustOp → String
op_user (sees user device key now) = user
op_user (trusts user device key now) = user
op_user (distrusts user device key now) = user

abbrev pub op_device : TrustOp → String
op_device (sees user device key now) = device
op_device (trusts user device key now) = device
op_device (distrusts user device key now) = device

abbrev pub NamesUuids : TrustOp → Type 0
NamesUuids op = IsUuid (op_user op) × IsUuid (op_device op)

-- What a call does to the register of the device that it names.
abbrev pub register_step : TrustOp → Option RemoteIdentity → Option RemoteIdentity
register_step (sees user device key now) none = some (first_record user device key now)
register_step (sees user device key now) (some r) = some r
register_step (trusts user device key now) none = none
register_step (trusts user device key now) (some r) = some (marked true key now r)
register_step (distrusts user device key now) none = none
register_step (distrusts user device key now) (some r) = some (marked false key now r)

-- The register of one device through all calls, of which only those that name it count.
abbrev pub register_run :
    String → String → Option RemoteIdentity → List TrustOp → Option RemoteIdentity
register_run user device pin [] = pin
register_run user device pin (op ∷ ops) =
    register_run user device
      (if str_eq (op_user op) user && str_eq (op_device op) device
        then register_step op pin
        else pin)
      ops

lookup-step :
    (t : Pins) (op : TrustOp) (id : String)
    → lookup id (trust_step t op) ≡ (
        if str_eq (composite_id (op_user op) (op_device op)) id
        then register_step op (lookup (composite_id (op_user op) (op_device op)) t)
        else lookup id t)
unfolding trust_step record_first_sight_or_detect_change mark_trusted mark_untrusted mark
lookup-step t (sees user device key now) id = ground (
  arith,
  eq_iff (composite_id user device) id,
  lookup-insert (composite_id user device) id (first_record user device key now) t,
)
lookup-step t (trusts user device key now) id =
    elim (Option-cases (lookup (composite_id user device) t)) [
      | inl missing ↦ ground (arith, missing, eq_iff (composite_id user device) id)
      | inr (r, found) ↦
          ground
            (arith, found, lookup-insert (composite_id user device) id (marked true key now r) t)
    ]
lookup-step t (distrusts user device key now) id =
    elim (Option-cases (lookup (composite_id user device) t)) [
      | inl missing ↦ ground (arith, missing, eq_iff (composite_id user device) id)
      | inr (r, found) ↦
          ground
            (arith, found, lookup-insert (composite_id user device) id (marked false key now r) t)
    ]

get-step :
    (user device : String)
    → IsUuid user
    → IsUuid device
    → (t : Pins) (op : TrustOp) → NamesUuids op
    → get (trust_step t op) user device ≡ (
        if str_eq (op_user op) user && str_eq (op_device op) device
        then register_step op (get t user device)
        else get t user device)
unfolding get
get-step user device u d t op names = ground (
  arith,
  lookup-step t op (composite_id user device),
  composite_id_eq (op_user op) (op_device op) user device names.0 u names.1 d,
  eq_iff (composite_id (op_user op) (op_device op)) (composite_id user device),
)

-- The store is one register for each peer device: after any calls on UUIDs, what get returns for a
-- device is what the calls that name this device, and no others, make of its register.
pub trust_run-refines :
    (user device : String)
    → IsUuid user
    → IsUuid device
    → (t : Pins) (ops : List TrustOp) → All NamesUuids ops
    → get (trust_run t ops) user device ≡ register_run user device (get t user device) ops
unfolding trust_run
trust_run-refines user device u d t [] names = refl
trust_run-refines user device u d t (op ∷ ops) names =
    trust_run-refines user device u d (trust_step t op) ops names.1
    ∙ ap (λ (pin : Option RemoteIdentity). register_run user device pin ops)
        (get-step user device u d t op names.0)

-- A mark with a key, of this device.
abbrev pub rekeys : String → String → TrustOp → Bool
rekeys user device (sees u d key now) = false
rekeys user device (trusts u d none now) = false
rekeys user device (trusts u d (some key) now) = str_eq u user && str_eq d device
rekeys user device (distrusts u d none now) = false
rekeys user device (distrusts u d (some key) now) = str_eq u user && str_eq d device

-- The register holds this key since that time.
pub record HasPin (key : Bytes) (since : ℕ) (pin : Option RemoteIdentity) : Type 0 where
  pub identity : RemoteIdentity
  pub held : pin ≡ some identity
  pub same_key : identity.identity_pub ≡ key
  pub same_time : identity.first_seen_at ≡ since

abbrev one_call : String → String → TrustOp → Option RemoteIdentity → Option RemoteIdentity
one_call user device op pin =
    if str_eq (op_user op) user && str_eq (op_device op) device then register_step op pin else pin

one_call-HasPin :
    (user device : String) (key : Bytes) (since : ℕ) (op : TrustOp) (r : RemoteIdentity)
    → rekeys user device op ≡ false
    → r.identity_pub ≡ key
    → r.first_seen_at ≡ since
    → HasPin key since (one_call user device op (some r))
one_call-HasPin user device key since (sees u d k now) r e same time = record {
  identity = r;
  held = ground arith;
  same_key = same;
  same_time = time;
}
one_call-HasPin user device key since (trusts u d none now) r e same time =
    elim (Bool-cases (str_eq u user && str_eq d device)) [
      | inl here ↦ record {
        identity = record r { trusted = true };
        held = ground (arith, here);
        same_key = same;
        same_time = time;
      }
      | inr other ↦ record {
        identity = r;
        held = ground (arith, other);
        same_key = same;
        same_time = time;
      }
    ]
one_call-HasPin user device key since (trusts u d (some k) now) r e same time = record {
  identity = r;
  held = ground (arith, e);
  same_key = same;
  same_time = time;
}
one_call-HasPin user device key since (distrusts u d none now) r e same time =
    elim (Bool-cases (str_eq u user && str_eq d device)) [
      | inl here ↦ record {
        identity = record r { trusted = false };
        held = ground (arith, here);
        same_key = same;
        same_time = time;
      }
      | inr other ↦ record {
        identity = r;
        held = ground (arith, other);
        same_key = same;
        same_time = time;
      }
    ]
one_call-HasPin user device key since (distrusts u d (some k) now) r e same time = record {
  identity = r;
  held = ground (arith, e);
  same_key = same;
  same_time = time;
}

register_run-HasPin :
    (user device : String) (key : Bytes) (since : ℕ) (ops : List TrustOp)
    → (pin : Option RemoteIdentity) → All (λ (op : TrustOp). rekeys user device op ≡ false) ops
    → HasPin key since pin
    → HasPin key since (register_run user device pin ops)
register_run-HasPin user device key since [] pin kept h = h
register_run-HasPin user device key since (op ∷ ops) pin kept h =
    register_run-HasPin user device key since ops (one_call user device op pin) kept.1 (
      subst (λ (p : Option RemoteIdentity). HasPin key since (one_call user device op p))
        (sym h.held)
        (one_call-HasPin user device key since op h.identity kept.0 h.same_key h.same_time))

seen_again :
    (t : Pins) (user device : String) (key : Bytes) (now : ℕ) (r : RemoteIdentity)
    → get t user device ≡ some r
    → record_first_sight_or_detect_change t user device key now ≡ record {
      pins = t;
      outcome = if bytes_equal r.identity_pub key then unchanged r else changed r key;
    }
unfolding get record_first_sight_or_detect_change
seen_again t user device key now r found = ground (arith, found)

judged :
    (r : RemoteIdentity) (key seen : Bytes) {o : FirstSightOutcome}
    → r.identity_pub ≡ key
    → o ≡ (if bytes_equal r.identity_pub seen then unchanged r else changed r seen)
    → ((seen ≡ key) × (o ≡ unchanged r)) ⊎ ((seen ≢ key) × (o ≡ changed r seen))
judged r key seen held e = elim (Bool-cases (bytes_equal r.identity_pub seen)) [
  | inl same ↦ inl (
    sym (ground (arith, same, bytes_equal_iff r.identity_pub seen)) ∙ held,
    ground (arith, e, same),
  )
  | inr other ↦ inr (
    λ same. absurd (ground (arith, other, same, held, bytes_equal_iff r.identity_pub seen)),
    ground (arith, e, other),
  )
]

-- Trust on first use: once a device is first seen with a key, then after any calls on UUIDs of which
-- none marks this device with a new key, a sight of the same key is reported as unchanged, and of any
-- other key as changed, with the record that holds the first key and the time of its first sight; the
-- sight writes nothing.
pub record_first_sight-IsPinned :
    (user device : String)
    → IsUuid user
    → IsUuid device
    → (t : Pins) (key : Bytes) (since : ℕ) (ops : List TrustOp) → get t user device ≡ none
    → All NamesUuids ops
    → All (λ (op : TrustOp). rekeys user device op ≡ false) ops
    → (seen : Bytes) (now : ℕ)
    → let later = trust_run t (sees user device key since ∷ ops) in
      let s = record_first_sight_or_detect_change later user device seen now in
      (r : RemoteIdentity) × (r.identity_pub ≡ key)
      × (r.first_seen_at ≡ since)
      × (s.pins ≡ later)
      × (((seen ≡ key) × (s.outcome ≡ unchanged r)) ⊎ ((seen ≢ key) × (s.outcome ≡ changed r seen)))
record_first_sight-IsPinned user device u d t key since ops new names kept seen now =
    let all = sees user device key since ∷ ops in
    let later = trust_run t all in
    let first = first_record user device key since in
    let start : HasPin key since (some first) = record {
      identity = first;
      held = refl;
      same_key = refl;
      same_time = refl;
    } in
    let pinned = register_run-HasPin user device key since ops (some first) kept start in
    let runs : get later user device ≡ register_run user device (some first) ops =
      trust_run-refines user device u d t all ((u, d), names)
      ∙ ap (λ (pin : Option RemoteIdentity). register_run user device pin ops)
          (ground (arith, new, eq_refl user, eq_refl device)) in
    let again = seen_again later user device seen now pinned.identity (runs ∙ pinned.held) in
    (
      pinned.identity,
      pinned.same_key,
      pinned.same_time,
      ap (λ (s : Seen). s.pins) again,
      judged pinned.identity key seen pinned.same_key (ap (λ (s : Seen). s.outcome) again),
    )

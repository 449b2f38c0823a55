-- ===== src/Trust/Pins.antt =====
-- apps/web/src/db/repositories/remote-identities.ts: the Dexie table `remoteIdentities` as a map, and
-- its operations.
use Prim.Native.String.{◌++◌ as cat}
use konvo_pro.Shared.{
  ℕ, Bool, true, false, Option, none, some, List, [], ◌∷◌, String, str_eq, if◌then◌else◌, Map,
  lookup, insert,
}
use konvo_pro.Crypto.{Bytes}
use konvo_pro.Ratchet.State.{bytes_equal}

-- A row of the table, without its key, and what the reads return: `rowToRemoteIdentity` copies.
pub record RemoteIdentity : Type 0 where
  pub peer_user_id : String
  pub peer_device_id : String
  pub identity_pub : Bytes
  pub trusted : Bool
  pub first_seen_at : ℕ
  pub last_changed_at : Option ℕ

pub data FirstSightOutcome : Type 0 where
  first_sight : RemoteIdentity → FirstSightOutcome
  unchanged : RemoteIdentity → FirstSightOutcome
  changed : RemoteIdentity → Bytes → FirstSightOutcome

abbrev pub Pins : Type 0
Pins = Map RemoteIdentity

unfoldable pub composite_id : String → String → String
composite_id user device = cat user (cat ":" device)

unfoldable pub get : Pins → String → String → Option RemoteIdentity
get t user device = lookup (composite_id user device) t

pub record Seen : Type 0 where
  pub pins : Pins
  pub outcome : FirstSightOutcome

abbrev pub first_record : String → String → Bytes → ℕ → RemoteIdentity
first_record user device key now = record {
  peer_user_id = user;
  peer_device_id = device;
  identity_pub = key;
  trusted = true;
  first_seen_at = now;
  last_changed_at = none;
}

unfoldable pub record_first_sight_or_detect_change : Pins → String → String → Bytes → ℕ → Seen
record_first_sight_or_detect_change t user device key now =
    elim (lookup (composite_id user device) t) [
      | none ↦ record {
        pins = insert (composite_id user device) (first_record user device key now) t;
        outcome = first_sight (first_record user device key now);
      }
      | some r ↦ record {
        pins = t;
        outcome = if bytes_equal r.identity_pub key then unchanged r else changed r key;
      }
    ]

-- The row that a mark leaves, with the new key if there is one.
abbrev pub marked : Bool → Option Bytes → ℕ → RemoteIdentity → RemoteIdentity
marked trusted none now r = record r { trusted = trusted }
marked trusted (some key) now r = record r {
  identity_pub = key;
  trusted = trusted;
  last_changed_at = if bytes_equal r.identity_pub key then r.last_changed_at else some now;
}

-- `none` where the call throws: there is no row.
pub record Marked : Type 0 where
  pub pins : Pins
  pub returned : Option RemoteIdentity

unfoldable pub mark : Bool → Pins → String → String → Option Bytes → ℕ → Marked
mark trusted t user device key now = elim (lookup (composite_id user device) t) [
  | none ↦ record { pins = t; returned = none }
  | some r ↦ record {
    pins = insert (composite_id user device) (marked trusted key now r) t;
    returned = some (marked trusted key now r);
  }
]

unfoldable pub mark_trusted : Pins → String → String → Option Bytes → ℕ → Marked
mark_trusted = mark true

unfoldable pub mark_untrusted : Pins → String → String → Option Bytes → ℕ → Marked
mark_untrusted = mark false

unfoldable pub list_for_user : Pins → String → List RemoteIdentity
list_for_user [] user = []
list_for_user ((id, r) ∷ rest) user =
    let others = list_for_user rest user in
    if str_eq r.peer_user_id user then r ∷ others else others

-- The calls of the store.
pub data TrustOp : Type 0 where
  sees : String → String → Bytes → ℕ → TrustOp
  trusts : String → String → Option Bytes → ℕ → TrustOp
  distrusts : String → String → Option Bytes → ℕ → TrustOp

unfoldable pub trust_step : Pins → TrustOp → Pins
trust_step t (sees user device key now) =
    (record_first_sight_or_detect_change t user device key now).pins
trust_step t (trusts user device key now) = (mark_trusted t user device key now).pins
trust_step t (distrusts user device key now) = (mark_untrusted t user device key now).pins

unfoldable pub trust_run : Pins → List TrustOp → Pins
trust_run t [] = t
trust_run t (op ∷ ops) = trust_run (trust_step t op) ops

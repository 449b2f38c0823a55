-- ===== src/Session/Dexie.antt =====
-- apps/web/src/db/repositories/prekeys.ts, and markOpkUsed of sessions.ts: the prekey store over the
-- Dexie table `prekeys`, whose rows stand here in the order of their keys.
use konvo_pro.Shared.{
  ℕ, suc, Bool, true, false, not, ◌&&◌, ltb, ◌==◌, Option, none, some, List, [], ◌∷◌, ◌++◌,
  if◌then◌else◌, Result, ok, err,
}
use konvo_pro.Crypto.{Bytes}
use konvo_pro.Session.PreKeys.{
  SignedPreKeyRecord, OneTimePreKeyRecord, PreKeyError, missing_signature, PreKeyStore,
}

pub data PreKeyType : Type 0 where
  signed : PreKeyType
  opk : PreKeyType

abbrev pub is_opk : PreKeyType → Bool
is_opk signed = false
is_opk opk = true

abbrev pub same_type : PreKeyType → PreKeyType → Bool
same_type signed signed = true
same_type opk opk = true
same_type signed opk = false
same_type opk signed = false

pub record PreKeyRow : Type 0 where
  pub key_type : PreKeyType
  pub key_id : ℕ
  pub public_key : Bytes
  pub wrapped_private_key : Bytes
  pub signature : Option Bytes
  pub created_at : ℕ
  pub used : Bool

-- `where('[keyType+used]').equals(['opk', 0]).count()`
unfoldable pub list_unused_one_time_pre_key_count : List PreKeyRow → ℕ
list_unused_one_time_pre_key_count [] = 0
list_unused_one_time_pre_key_count (r ∷ rs) =
    let rest = list_unused_one_time_pre_key_count rs in
    if is_opk r.key_type && not r.used then suc rest else rest

-- The loop of `#nextKeyIdFor` over the rows of a type.
unfoldable pub highest_id : PreKeyType → ℕ → List PreKeyRow → ℕ
highest_id t best [] = best
highest_id t best (r ∷ rs) =
    highest_id t (if same_type r.key_type t && ltb best r.key_id then r.key_id else best) rs

unfoldable pub next_key_id_for : PreKeyType → List PreKeyRow → ℕ
next_key_id_for t rows = suc (highest_id t 0 rows)

unfoldable pub save_signed_pre_key : List PreKeyRow → SignedPreKeyRecord → List PreKeyRow
save_signed_pre_key rows r =
    rows
    ++ (record {
      key_type = signed;
      key_id = r.key_id;
      public_key = r.public_key;
      wrapped_private_key = r.wrapped_private_key;
      signature = some r.signature;
      created_at = r.created_at;
      used = false;
    }
        ∷ [])

unfoldable pub save_one_time_pre_key : List PreKeyRow → OneTimePreKeyRecord → List PreKeyRow
save_one_time_pre_key rows r =
    rows
    ++ (record {
      key_type = opk;
      key_id = r.key_id;
      public_key = r.public_key;
      wrapped_private_key = r.wrapped_private_key;
      signature = none;
      created_at = r.created_at;
      used = r.used;
    }
        ∷ [])

-- The signed row with the highest number, the first of them where two have it.
abbrev pub newer : Option PreKeyRow → PreKeyRow → Option PreKeyRow
newer none r = some r
newer (some best) r = if ltb best.key_id r.key_id then some r else some best

unfoldable pub newest_signed : Option PreKeyRow → List PreKeyRow → Option PreKeyRow
newest_signed best [] = best
newest_signed best (r ∷ rs) = newest_signed (if is_opk r.key_type then best else newer best r) rs

abbrev pub with_signature :
    PreKeyRow → Option Bytes → Result PreKeyError (Option SignedPreKeyRecord)
with_signature row none = err missing_signature
with_signature row (some signature) = ok (
    some (record {
      key_id = row.key_id;
      public_key = row.public_key;
      wrapped_private_key = row.wrapped_private_key;
      signature = signature;
      created_at = row.created_at;
    }))

unfoldable pub get_current_signed_pre_key :
    List PreKeyRow → Result PreKeyError (Option SignedPreKeyRecord)
get_current_signed_pre_key rows = elim (newest_signed none rows) [
  | none ↦ ok none
  | some row ↦ with_signature row row.signature
]

-- `markOpkUsed`
unfoldable pub mark_opk_used : ℕ → List PreKeyRow → List PreKeyRow
mark_opk_used key_id [] = []
mark_opk_used key_id (r ∷ rs) =
    (if is_opk r.key_type && r.key_id == key_id then record r { used = true } else r)
    ∷ mark_opk_used key_id rs

abbrev pub dexie : PreKeyStore (List PreKeyRow)
dexie = record {
  unused_count = list_unused_one_time_pre_key_count;
  next_signed_id = next_key_id_for signed;
  next_one_time_id = next_key_id_for opk;
  save_signed = save_signed_pre_key;
  save_one_time = save_one_time_pre_key;
  current_signed = get_current_signed_pre_key;
}

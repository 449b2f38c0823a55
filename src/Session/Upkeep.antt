-- ===== src/Session/Upkeep.antt =====
-- apps/web/src/features/auth/opkReplenishment.ts: one check of the one-time prekeys, and one of the
-- signed prekey.
use konvo_pro.Shared.{
  ℕ, zero, suc, ◌+◌, Bool, true, false, leb, Option, none, some, List, [], ◌∷◌, length, int, pos,
  if◌then◌else◌, Result, ok, err,
}
use konvo_pro.Crypto.{Bytes, Primitives, Signing}
use konvo_pro.Session.Identity.{
  IdentityKeyPair, WrappedIdentityRecord, IdentityError, Draws, get_or_create_identity,
}
use konvo_pro.Session.PreKeys.{
  SignedPreKey, OneTimePreKey, SignedPreKeyRecord, PreKeyError, PreKeyStore, Supply,
  signed_prekey_max_age_ms, replenish_one_time_pre_keys, rotate_signed_pre_key,
  should_rotate_signed_pre_key,
}

-- The identity row, the prekeys, and `localStorage`, where the browser has one, with the time under
-- `LAST_ROTATED_STORAGE_KEY`.
pub record Device (S : Type 0) : Type 0 where
  pub identity : Option WrappedIdentityRecord
  pub keys : S
  pub storage : Option (Option ℕ)

pub data UpkeepError : Type 0 where
  no_identity : IdentityError → UpkeepError
  no_keys : PreKeyError → UpkeepError
  upload_failed : UpkeepError

-- The device after a check, what the check sent to the API, and what it returned or threw.
pub record Checked (S U A : Type 0) : Type 0 where
  pub device : Device S
  pub sent : Option U
  pub result : Result UpkeepError A

-- What one check draws, and whether the API takes the upload.
pub record Attempt : Type 0 where
  pub draws : Draws
  pub supply : Supply
  pub uploads : Bool

abbrev pub positive : Option ℕ → Option ℕ
positive none = none
positive (some zero) = none
positive (some (suc n)) = some (suc n)

abbrev pub read_last_rotated_at : Option (Option ℕ) → Option ℕ
read_last_rotated_at none = none
read_last_rotated_at (some raw) = positive raw

abbrev pub write_last_rotated_at : ℕ → Option (Option ℕ) → Option (Option ℕ)
write_last_rotated_at at none = none
write_last_rotated_at at (some raw) = some (some at)

module _ {S : Type 0} (c : Primitives) (g : Signing) (kek : Bytes) (st : PreKeyStore S) where
  unfoldable pub upload_minted :
      Device S → Bool → List OneTimePreKey → Checked S (List OneTimePreKey) ℕ
  upload_minted d uploads [] = record { device = d; sent = none; result = ok 0 }
  upload_minted d uploads (k ∷ ks) = record {
    device = d;
    sent = some (k ∷ ks);
    result = if uploads then ok (length (k ∷ ks)) else err upload_failed;
  }

  unfoldable pub check_and_replenish_opks :
      ℕ → ℕ → Device S → Attempt → Checked S (List OneTimePreKey) ℕ
  check_and_replenish_opks threshold target d a =
      if leb threshold (st.unused_count d.keys)
      then record { device = d; sent = none; result = ok 0 }
      else let identity = get_or_create_identity c g kek d.identity a.draws in
        let known : Device S = record d { identity = identity.stored } in
        elim identity.result [
          | err e ↦ record { device = known; sent = none; result = err (no_identity e) }
          | ok pair ↦
              let minted =
                replenish_one_time_pre_keys c g kek st a.supply (int (pos threshold))
                  (int (pos target)) d.keys in
              let held : Device S = record known { keys = minted.store } in
              elim minted.result [
                | err e ↦ record { device = held; sent = none; result = err (no_keys e) }
                | ok fresh ↦ upload_minted held a.uploads fresh
              ]
        ]

  -- The time is cached before the upload.
  unfoldable pub rotate_and_upload :
      Device S → Attempt → IdentityKeyPair → Checked S SignedPreKey (Option SignedPreKey)
  rotate_and_upload d a pair =
      let rotated = rotate_signed_pre_key c g kek st a.supply pair d.keys in
      record {
        device = record d {
          keys = rotated.0;
          storage = write_last_rotated_at rotated.1.created_at d.storage;
        };
        sent = some rotated.1;
        result = if a.uploads then ok (some rotated.1) else err upload_failed;
      }

  unfoldable pub rotate_with_identity :
      Device S → Attempt → Checked S SignedPreKey (Option SignedPreKey)
  rotate_with_identity d a =
      let identity = get_or_create_identity c g kek d.identity a.draws in
      let known : Device S = record d { identity = identity.stored } in
      elim identity.result [
        | err e ↦ record { device = known; sent = none; result = err (no_identity e) }
        | ok pair ↦ rotate_and_upload known a pair
      ]

  unfoldable pub rotate_stale :
      ℕ → Device S → Attempt → SignedPreKeyRecord → Checked S SignedPreKey (Option SignedPreKey)
  rotate_stale now d a current =
      if should_rotate_signed_pre_key current.created_at now
      then rotate_with_identity d a
      else record {
        device = record d { storage = write_last_rotated_at current.created_at d.storage };
        sent = none;
        result = ok none;
      }

  abbrev pub is_recent : ℕ → Option ℕ → Bool
  is_recent now none = false
  is_recent now (some at) = if leb (at + signed_prekey_max_age_ms) now then false else true

  unfoldable pub check_and_rotate_signed_pre_key :
      ℕ → Device S → Attempt → Checked S SignedPreKey (Option SignedPreKey)
  check_and_rotate_signed_pre_key now d a =
      if is_recent now (read_last_rotated_at d.storage)
      then record { device = d; sent = none; result = ok none }
      else elim (st.current_signed d.keys) [
        | err e ↦ record { device = d; sent = none; result = err (no_keys e) }
        | ok none ↦ record { device = d; sent = none; result = ok none }
        | ok (some current) ↦ rotate_stale now d a current
      ]

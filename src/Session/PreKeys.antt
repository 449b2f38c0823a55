-- ===== src/Session/PreKeys.antt =====
-- packages/crypto/src/prekeys.ts: signed and one-time prekeys over the store that the caller gives.
use konvo_pro.Shared.{
  ℕ, zero, suc, ◌+◌, ◌-◌, ◌*◌, ◌≡◌, Bool, false, ltb, leb, Option, none, some, List, [], ◌∷◌, pos,
  negsuc, Number, int, fraction, if◌then◌else◌, Result, ok, err,
}
use Prim.Native.Nat.{max}
use konvo_pro.Crypto.{Bytes, Primitives, Signing}
use konvo_pro.Session.Identity.{IdentityKeyPair}

pub record SignedPreKey : Type 0 where
  pub key_id : ℕ
  pub public_key : Bytes
  pub signature : Bytes
  pub created_at : ℕ

pub record OneTimePreKey : Type 0 where
  pub key_id : ℕ
  pub public_key : Bytes

pub record PreKeyBundleUpload : Type 0 where
  pub identity_pub : Bytes
  pub identity_ed_pub : Bytes
  pub registration_id : ℕ
  pub signed_pre_key : SignedPreKey
  pub one_time_pre_keys : List OneTimePreKey

pub record SignedPreKeyRecord : Type 0 where
  pub key_id : ℕ
  pub public_key : Bytes
  pub wrapped_private_key : Bytes
  pub signature : Bytes
  pub created_at : ℕ

pub record OneTimePreKeyRecord : Type 0 where
  pub key_id : ℕ
  pub public_key : Bytes
  pub wrapped_private_key : Bytes
  pub created_at : ℕ
  pub used : Bool

abbrev pub one_time_prekey_target : ℕ
one_time_prekey_target = 100

abbrev pub one_time_prekey_threshold : ℕ
one_time_prekey_threshold = 20

abbrev pub signed_prekey_max_age_ms : ℕ
signed_prekey_max_age_ms = 7 * 24 * 60 * 60 * 1000

-- The errors of the arguments, of a bundle over a filled store, and of a signed row that has no
-- signature.
pub data PreKeyError : Type 0 where
  bad_threshold : PreKeyError
  bad_target : PreKeyError
  store_not_empty : PreKeyError
  missing_signature : PreKeyError

-- The store in the state `S`.
pub record PreKeyStore (S : Type 0) : Type 0 where
  pub unused_count : S → ℕ
  pub next_signed_id : S → ℕ
  pub next_one_time_id : S → ℕ
  pub save_signed : S → SignedPreKeyRecord → S
  pub save_one_time : S → OneTimePreKeyRecord → S
  pub current_signed : S → Result PreKeyError (Option SignedPreKeyRecord)

-- What a caller of the store relies on: a saved key counts while it is unused, takes its number, and
-- the signed prekey with a new number becomes the current one.
pub record PreKeyStoreLaws {S : Type 0} (st : PreKeyStore S) : Type 0 where
  pub count_saved :
      (s : S) (r : OneTimePreKeyRecord)
      → st.unused_count (st.save_one_time s r)
        ≡ (if r.used then st.unused_count s else suc (st.unused_count s))
  pub next_saved :
      (s : S) (r : OneTimePreKeyRecord)
      → st.next_one_time_id (st.save_one_time s r) ≡ max (st.next_one_time_id s) (suc r.key_id)
  pub count_signed :
      (s : S) (r : SignedPreKeyRecord) → st.unused_count (st.save_signed s r) ≡ st.unused_count s
  pub next_signed :
      (s : S) (r : SignedPreKeyRecord)
      → st.next_one_time_id (st.save_signed s r) ≡ st.next_one_time_id s
  pub current_saved :
      (s : S) (r : SignedPreKeyRecord)
      → r.key_id ≡ st.next_signed_id s
      → st.current_signed (st.save_signed s r) ≡ ok (some r)

-- What one call draws: the private key and `Date.now()` of each key that it builds, by its place.
pub record Supply : Type 0 where
  pub random : ℕ → Bytes
  pub clock : ℕ → ℕ

-- The record for the store, and the public part.
pub record Built (R D : Type 0) : Type 0 where
  pub record_of : R
  pub dto : D

pub record Minted (S : Type 0) : Type 0 where
  pub store : S
  pub keys : List OneTimePreKey

pub record Stored (S A : Type 0) : Type 0 where
  pub store : S
  pub result : Result PreKeyError A

abbrev pub as_count : Number → Option ℕ
as_count (int (pos n)) = some n
as_count (int (negsuc n)) = none
as_count fraction = none

module _ {S : Type 0} (c : Primitives) (g : Signing) (kek : Bytes) (st : PreKeyStore S)
    (draw : Supply) where
  unfoldable pub build_signed_pre_key :
      IdentityKeyPair → S → ℕ → Built SignedPreKeyRecord SignedPreKey
  build_signed_pre_key identity s i =
      let private_key = draw.random i in
      let public_key = c.public_key private_key in
      let signature = g.sign public_key identity.ed25519_private_key in
      record {
        record_of = record {
          key_id = st.next_signed_id s;
          public_key = public_key;
          wrapped_private_key = g.wrap private_key kek;
          signature = signature;
          created_at = draw.clock i;
        };
        dto = record {
          key_id = st.next_signed_id s;
          public_key = public_key;
          signature = signature;
          created_at = draw.clock i;
        };
      }

  unfoldable pub build_one_time_pre_key : S → ℕ → Built OneTimePreKeyRecord OneTimePreKey
  build_one_time_pre_key s i = record {
    record_of = record {
      key_id = st.next_one_time_id s;
      public_key = c.public_key (draw.random i);
      wrapped_private_key = g.wrap (draw.random i) kek;
      created_at = draw.clock i;
      used = false;
    };
    dto = record { key_id = st.next_one_time_id s; public_key = c.public_key (draw.random i) };
  }

  -- The loop that mints and saves, from the place `i` on.
  unfoldable pub mint : ℕ → ℕ → S → Minted S
  mint i zero s = record { store = s; keys = [] }
  mint i (suc n) s =
      let built = build_one_time_pre_key s i in
      let rest = mint (suc i) n (st.save_one_time s built.record_of) in
      record { store = rest.store; keys = built.dto ∷ rest.keys }

  unfoldable pub fill_bundle : IdentityKeyPair → S → Stored S PreKeyBundleUpload
  fill_bundle identity s =
      let signed = build_signed_pre_key identity s 0 in
      let minted = mint 1 one_time_prekey_target (st.save_signed s signed.record_of) in
      record {
        store = minted.store;
        result = ok (record {
          identity_pub = identity.public_key;
          identity_ed_pub = identity.ed25519_public_key;
          registration_id = identity.registration_id;
          signed_pre_key = signed.dto;
          one_time_pre_keys = minted.keys;
        });
      }

  unfoldable pub generate_initial_bundle : IdentityKeyPair → S → Stored S PreKeyBundleUpload
  generate_initial_bundle identity s = elim (st.current_signed s) [
    | err e ↦ record { store = s; result = err e }
    | ok (some signed) ↦ record { store = s; result = err store_not_empty }
    | ok none ↦
        if ltb 0 (st.unused_count s)
        then record { store = s; result = err store_not_empty }
        else fill_bundle identity s
  ]

  unfoldable pub replenish : ℕ → ℕ → S → Stored S (List OneTimePreKey)
  replenish threshold target s =
      let count = st.unused_count s in
      if leb threshold count
      then record { store = s; result = ok [] }
      else let minted = mint 0 (target - count) s in
        record { store = minted.store; result = ok minted.keys }

  unfoldable pub replenish_one_time_pre_keys : Number → Number → S → Stored S (List OneTimePreKey)
  replenish_one_time_pre_keys threshold target s = elim (as_count threshold) [
    | none ↦ record { store = s; result = err bad_threshold }
    | some least ↦ elim (as_count target) [
      | none ↦ record { store = s; result = err bad_target }
      | some most ↦
          if ltb most least
          then record { store = s; result = err bad_target }
          else replenish least most s
    ]
  ]

  unfoldable pub rotate_signed_pre_key : IdentityKeyPair → S → S × SignedPreKey
  rotate_signed_pre_key identity s =
      let built = build_signed_pre_key identity s 0 in (st.save_signed s built.record_of, built.dto)

-- `now - createdAt >= SIGNED_PREKEY_MAX_AGE_MS`, where the clock may have been set back.
unfoldable pub should_rotate_signed_pre_key : ℕ → ℕ → Bool
should_rotate_signed_pre_key created_at now = leb (created_at + signed_prekey_max_age_ms) now

unfoldable pub verify_signed_pre_key_signature : Signing → SignedPreKey → Bytes → Bool
verify_signed_pre_key_signature g spk identity_ed_pub =
    g.verify spk.signature spk.public_key identity_ed_pub

-- ===== src/Session/Retries.antt =====
-- apps/web/src/features/auth/opkReplenishment.ts: a check of the prekeys, and the next one.
use konvo_pro.Shared.{
  ℕ, ◌+◌, ◌-◌, ◌≡◌, ◌≤◌, ◌<◌, refl, ap, ◌∙◌, arith, Bool, false, Option, none, some, List, [], ◌∷◌,
  length, int, pos, if◌then◌else◌, ok, err,
}
use konvo_pro.Crypto.{Bytes, Primitives, Signing}
use konvo_pro.Session.Identity.{IdentityKeyPair, get_or_create_identity}
use konvo_pro.Session.PreKeys.{
  SignedPreKey, OneTimePreKey, SignedPreKeyRecord, PreKeyStore, PreKeyStoreLaws, Stored,
  signed_prekey_max_age_ms, replenish_one_time_pre_keys, build_signed_pre_key,
  rotate_signed_pre_key, should_rotate_signed_pre_key,
}
use konvo_pro.Session.Minting.{replenish_low-IsRefilled}
use konvo_pro.Session.Upkeep.{
  Device, upload_failed, Checked, Attempt, read_last_rotated_at, write_last_rotated_at,
  upload_minted, check_and_replenish_opks, rotate_and_upload, rotate_with_identity, rotate_stale,
  is_recent, check_and_rotate_signed_pre_key,
}

module _ {S : Type 0} (c : Primitives) (g : Signing) (kek : Bytes) (st : PreKeyStore S) where
  pub record IsSent (threshold target : ℕ) (d : Device S) (a : Attempt) : Type 0 where
    pub keys : List OneTimePreKey
    pub many : length keys ≡ target - st.unused_count d.keys
    pub sent : (check_and_replenish_opks c g kek st threshold target d a).sent ≡ some keys
    pub answered :
        (check_and_replenish_opks c g kek st threshold target d a).result
        ≡ (if a.uploads then ok (length keys) else err upload_failed)
    pub count :
        st.unused_count (check_and_replenish_opks c g kek st threshold target d a).device.keys
        ≡ target

  module _ (laws : PreKeyStoreLaws st) (threshold target : ℕ) (fits : threshold ≤ target) where
    upload_some :
        (d : Device S) (uploads : Bool) (keys : List OneTimePreKey)
        → 0 < length keys
        → upload_minted c g kek st d uploads keys ≡ record {
          device = d;
          sent = some keys;
          result = if uploads then ok (length keys) else err upload_failed;
        }
    unfolding upload_minted
    upload_some d uploads [] h = absurd (omega (arith, h))
    upload_some d uploads (k ∷ ks) h = refl

    check_low :
        (d : Device S) (a : Attempt) (pair : IdentityKeyPair) (r : Stored S (List OneTimePreKey))
        → (keys : List OneTimePreKey) → st.unused_count d.keys < threshold
        → (get_or_create_identity c g kek d.identity a.draws).result ≡ ok pair
        → replenish_one_time_pre_keys c g kek st a.supply
            (int (pos threshold))
            (int (pos target))
            d.keys
          ≡ r
        → r.result ≡ ok keys
        → check_and_replenish_opks c g kek st threshold target d a
          ≡ upload_minted c g kek st
              (record d {
                identity = (get_or_create_identity c g kek d.identity a.draws).stored;
                keys = r.store;
              })
              a.uploads
              keys
    unfolding check_and_replenish_opks
    check_low d a pair r keys few known e returned = ground (arith, few, known, e, returned)

    check-IsSent :
        (d : Device S) (a : Attempt) (pair : IdentityKeyPair)
        → st.unused_count d.keys < threshold
        → (get_or_create_identity c g kek d.identity a.draws).result ≡ ok pair
        → IsSent threshold target d a
    check-IsSent d a pair few known =
        let r =
          replenish_one_time_pre_keys c g kek st a.supply (int (pos threshold)) (int (pos target))
            d.keys in
        let filled =
          replenish_low-IsRefilled c g kek st laws a.supply threshold target d.keys fits few in
        let next : Device S = record d {
          identity = (get_or_create_identity c g kek d.identity a.draws).stored;
          keys = r.store;
        } in
        let e =
          check_low d a pair r filled.keys few known refl filled.returned
          ∙ upload_some next a.uploads filled.keys (omega (arith, filled.many, few, fits)) in
        record {
          keys = filled.keys;
          many = filled.many;
          sent = ap (λ (x : Checked S (List OneTimePreKey) ℕ). x.sent) e;
          answered = ap (λ (x : Checked S (List OneTimePreKey) ℕ). x.result) e;
          count =
              ap (λ (x : Checked S (List OneTimePreKey) ℕ). st.unused_count x.device.keys) e
              ∙ filled.count;
        }

    idle :
        (d : Device S) (a : Attempt)
        → threshold ≤ st.unused_count d.keys
        → check_and_replenish_opks c g kek st threshold target d a
          ≡ record { device = d; sent = none; result = ok 0 }
    unfolding check_and_replenish_opks
    idle d a enough = ground (arith, enough)

    -- A check that finds too few unused keys, on a device whose identity loads, mints the missing
    -- keys and sends them. Whether or not the upload succeeds, the next check finds enough: it sends
    -- nothing and returns 0. So keys whose upload fails are not sent again.
    pub check_and_replenish_opks-once :
        (d : Device S) (a : Attempt) (pair : IdentityKeyPair)
        → st.unused_count d.keys < threshold
        → (get_or_create_identity c g kek d.identity a.draws).result ≡ ok pair
        → (later : Attempt)
        → let next = (check_and_replenish_opks c g kek st threshold target d a).device in
          IsSent threshold target d a
          × (check_and_replenish_opks c g kek st threshold target next later
              ≡ record { device = next; sent = none; result = ok 0 })
    check_and_replenish_opks-once d a pair few known later =
        let s = check-IsSent d a pair few known in
        (
          s,
          idle (check_and_replenish_opks c g kek st threshold target d a).device later
              (omega (arith, s.count, fits)),
        )

  abbrev pub new_record : Device S → Attempt → IdentityKeyPair → SignedPreKeyRecord
  new_record d a pair = (build_signed_pre_key c g kek st a.supply pair d.keys 0).record_of

  abbrev pub new_dto : Device S → Attempt → IdentityKeyPair → SignedPreKey
  new_dto d a pair = (build_signed_pre_key c g kek st a.supply pair d.keys 0).dto

  module _ (laws : PreKeyStoreLaws st) where
    rotates :
        (now : ℕ) (d : Device S) (a : Attempt) (pair : IdentityKeyPair)
        → (current : SignedPreKeyRecord)
        → is_recent c g kek st now (read_last_rotated_at d.storage) ≡ false
        → st.current_signed d.keys ≡ ok (some current)
        → current.created_at + signed_prekey_max_age_ms ≤ now
        → (get_or_create_identity c g kek d.identity a.draws).result ≡ ok pair
        → check_and_rotate_signed_pre_key c g kek st now d a ≡ record {
          device = record {
            identity = (get_or_create_identity c g kek d.identity a.draws).stored;
            keys = st.save_signed d.keys (new_record d a pair);
            storage = write_last_rotated_at (new_dto d a pair).created_at d.storage;
          };
          sent = some (new_dto d a pair);
          result = if a.uploads then ok (some (new_dto d a pair)) else err upload_failed;
        }
    unfolding check_and_rotate_signed_pre_key rotate_stale rotate_with_identity rotate_and_upload
        rotate_signed_pre_key should_rotate_signed_pre_key
    rotates now d a pair current old there stale known = ground (arith, old, there, stale, known)

    new_record-id :
        (d : Device S) (a : Attempt) (pair : IdentityKeyPair)
        → (new_record d a pair).key_id ≡ st.next_signed_id d.keys
    unfolding build_signed_pre_key
    new_record-id d a pair = refl

    new_record-time :
        (d : Device S) (a : Attempt) (pair : IdentityKeyPair)
        → (new_record d a pair).created_at ≡ a.supply.clock 0
    unfolding build_signed_pre_key
    new_record-time d a pair = refl

    young :
        (now : ℕ) (d : Device S) (a : Attempt) (current : SignedPreKeyRecord)
        → st.current_signed d.keys ≡ ok (some current)
        → now < current.created_at + signed_prekey_max_age_ms
        → let r = check_and_rotate_signed_pre_key c g kek st now d a in
          (r.sent ≡ none) × (r.result ≡ ok none)
    unfolding check_and_rotate_signed_pre_key rotate_stale should_rotate_signed_pre_key
    young now d a current there fresh = ground (arith, there, fresh)

    -- A check that finds a signed prekey of seven days or more, and no later time in the cache,
    -- makes a new one, which is the current one of the store from then on, and sends it. Whether or
    -- not the upload succeeds, a check within seven days of its making sends nothing.
    pub check_and_rotate_signed_pre_key-once :
        (now : ℕ) (d : Device S) (a : Attempt) (pair : IdentityKeyPair)
        → (current : SignedPreKeyRecord)
        → is_recent c g kek st now (read_last_rotated_at d.storage) ≡ false
        → st.current_signed d.keys ≡ ok (some current)
        → current.created_at + signed_prekey_max_age_ms ≤ now
        → (get_or_create_identity c g kek d.identity a.draws).result ≡ ok pair
        → (at : ℕ) (later : Attempt) → at < a.supply.clock 0 + signed_prekey_max_age_ms
        → let r = check_and_rotate_signed_pre_key c g kek st now d a in
          let x = check_and_rotate_signed_pre_key c g kek st at r.device later in
          (r.sent ≡ some (new_dto d a pair))
          × (st.current_signed r.device.keys ≡ ok (some (new_record d a pair)))
          × (r.result ≡ (if a.uploads then ok (some (new_dto d a pair)) else err upload_failed))
          × (x.sent ≡ none)
          × (x.result ≡ ok none)
    check_and_rotate_signed_pre_key-once now d a pair current old there stale known at later soon =
        let e = rotates now d a pair current old there stale known in
        let r = check_and_rotate_signed_pre_key c g kek st now d a in
        let saved : st.current_signed r.device.keys ≡ ok (some (new_record d a pair)) =
          ap (λ (x : Checked S SignedPreKey (Option SignedPreKey)). st.current_signed x.device.keys)
            e
          ∙ laws.current_saved d.keys (new_record d a pair) (new_record-id d a pair) in
        let quiet =
          young at r.device later (new_record d a pair) saved
            (omega (arith, soon, new_record-time d a pair)) in
        (
          ap (λ (x : Checked S SignedPreKey (Option SignedPreKey)). x.sent) e,
          saved,
          ap (λ (x : Checked S SignedPreKey (Option SignedPreKey)). x.result) e,
          quiet.0,
          quiet.1,
        )

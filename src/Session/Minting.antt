-- ===== src/Session/Minting.antt =====
-- packages/crypto/src/prekeys.ts: replenishment and the first bundle.
use konvo_pro.Shared.{
  ℕ, zero, suc, ◌+◌, ◌-◌, ◌≡◌, ◌≢◌, ◌≤◌, ◌<◌, refl, ap, sym, subst, ◌∙◌, arith, true, false, leb,
  Option, none, some, List, [], ◌∷◌, length, int, pos, ok, err, Bool-cases, Option-cases, ◌⊎◌, inl,
  inr,
}
use konvo_pro.Crypto.{Bytes, Primitives, Signing, SigningLaws}
use konvo_pro.Session.Identity.{IdentityKeyPair}
use konvo_pro.Session.PreKeys.{
  OneTimePreKey, OneTimePreKeyRecord, SignedPreKey, PreKeyBundleUpload, SignedPreKeyRecord,
  one_time_prekey_target, store_not_empty, PreKeyStore, PreKeyStoreLaws, Supply, Minted, Stored,
  build_signed_pre_key, build_one_time_pre_key, mint, fill_bundle, generate_initial_bundle,
  replenish, replenish_one_time_pre_keys, verify_signed_pre_key_signature,
}

-- The numbers from `n` on, one for each key.
abbrev pub AreNumberedFrom : ℕ → List OneTimePreKey → Type 0
AreNumberedFrom n [] = Unit
AreNumberedFrom n (k ∷ ks) = (k.key_id ≡ n) × AreNumberedFrom (suc n) ks

module _ {S : Type 0} (c : Primitives) (g : Signing) (kek : Bytes) (st : PreKeyStore S) where
  -- Records saved one after another.
  abbrev pub save_all : S → List OneTimePreKeyRecord → S
  save_all s [] = s
  save_all s (r ∷ rs) = save_all (st.save_one_time s r) rs

  -- The wrapped key is the private key of the public one.
  abbrev pub Unlocks : Bytes → Bytes → Type 0
  Unlocks wrapped public_key =
      (private_key : Bytes) × (wrapped ≡ g.wrap private_key kek)
      × (public_key ≡ c.public_key private_key)

  -- The record of a one-time prekey that is shown.
  pub record IsKept (r : OneTimePreKeyRecord) (k : OneTimePreKey) : Type 0 where
    pub same_id : r.key_id ≡ k.key_id
    pub same_key : r.public_key ≡ k.public_key
    pub unused : r.used ≡ false
    pub unlocks : Unlocks r.wrapped_private_key k.public_key

  abbrev pub AreKept : List OneTimePreKeyRecord → List OneTimePreKey → Type 0
  AreKept [] [] = Unit
  AreKept [] (k ∷ ks) = ⊥
  AreKept (r ∷ rs) [] = ⊥
  AreKept (r ∷ rs) (k ∷ ks) = IsKept r k × AreKept rs ks

  -- The record of the signed prekey that is shown.
  pub record IsSignedKept (r : SignedPreKeyRecord) (k : SignedPreKey) : Type 0 where
    pub same_id : r.key_id ≡ k.key_id
    pub same_key : r.public_key ≡ k.public_key
    pub same_signature : r.signature ≡ k.signature
    pub same_time : r.created_at ≡ k.created_at
    pub unlocks : Unlocks r.wrapped_private_key k.public_key

  pub record IsMinted (n : ℕ) (s : S) (m : Minted S) : Type 0 where
    pub many : length m.keys ≡ n
    pub numbers : AreNumberedFrom (st.next_one_time_id s) m.keys
    pub count : st.unused_count m.store ≡ st.unused_count s + n
    pub next : st.next_one_time_id m.store ≡ st.next_one_time_id s + n
    pub records : List OneTimePreKeyRecord
    pub kept : AreKept records m.keys
    pub saved : m.store ≡ save_all s records

  pub record IsRefilled (target : ℕ) (s : S) (r : Stored S (List OneTimePreKey)) : Type 0 where
    pub keys : List OneTimePreKey
    pub returned : r.result ≡ ok keys
    pub many : length keys ≡ target - st.unused_count s
    pub numbers : AreNumberedFrom (st.next_one_time_id s) keys
    pub count : st.unused_count r.store ≡ target

  pub record IsBundle (s : S) (r : Stored S PreKeyBundleUpload) : Type 0 where
    pub bundle : PreKeyBundleUpload
    pub returned : r.result ≡ ok bundle
    pub signed :
        verify_signed_pre_key_signature g bundle.signed_pre_key bundle.identity_ed_pub ≡ true
    pub many : length bundle.one_time_pre_keys ≡ one_time_prekey_target
    pub numbers : AreNumberedFrom (st.next_one_time_id s) bundle.one_time_pre_keys
    pub count : st.unused_count r.store ≡ one_time_prekey_target
    pub signed_record : SignedPreKeyRecord
    pub signed_id : bundle.signed_pre_key.key_id ≡ st.next_signed_id s
    pub signed_kept : IsSignedKept signed_record bundle.signed_pre_key
    pub records : List OneTimePreKeyRecord
    pub kept : AreKept records bundle.one_time_pre_keys
    pub saved : r.store ≡ save_all (st.save_signed s signed_record) records

  module _ (laws : PreKeyStoreLaws st) (draw : Supply) where
    mint-IsMinted : (i n : ℕ) (s : S) → IsMinted n s (mint c g kek st draw i n s)
    unfolding mint build_one_time_pre_key
    mint-IsMinted i zero s = record {
      many = refl;
      numbers = tt;
      count = omega arith;
      next = omega arith;
      records = [];
      kept = tt;
      saved = refl;
    }
    mint-IsMinted i (suc n) s =
        let r = (build_one_time_pre_key c g kek st draw s i).record_of in
        let saved = st.save_one_time s r in
        let rest = mint-IsMinted (suc i) n saved in
        let count = laws.count_saved s r in
        let next : st.next_one_time_id saved ≡ suc (st.next_one_time_id s) =
          omega (arith, laws.next_saved s r) in
        record {
          many = omega (arith, rest.many);
          numbers = (
            refl,
            subst (λ (k : ℕ). AreNumberedFrom k (mint c g kek st draw (suc i) n saved).keys) next
                rest.numbers,
          );
          count = omega (arith, rest.count, count);
          next = omega (arith, rest.next, next);
          records = r ∷ rest.records;
          kept = (
            record {
              same_id = refl;
              same_key = refl;
              unused = refl;
              unlocks = (draw.random i, refl, refl);
            },
            rest.kept,
          );
          saved = rest.saved;
        }

    replenish_idle :
        (threshold target : ℕ) (s : S)
        → threshold ≤ target
        → threshold ≤ st.unused_count s
        → replenish_one_time_pre_keys c g kek st draw (int (pos threshold)) (int (pos target)) s
          ≡ record { store = s; result = ok [] }
    unfolding replenish_one_time_pre_keys replenish
    replenish_idle threshold target s fits enough = ground (arith, fits, enough)

    replenish_low :
        (threshold target : ℕ) (s : S)
        → threshold ≤ target
        → st.unused_count s < threshold
        → let m = mint c g kek st draw 0 (target - st.unused_count s) s in
          replenish_one_time_pre_keys c g kek st draw (int (pos threshold)) (int (pos target)) s
          ≡ record { store = m.store; result = ok m.keys }
    unfolding replenish_one_time_pre_keys replenish
    replenish_low threshold target s fits few = ground (arith, fits, few)

    pub replenish_low-IsRefilled :
        (threshold target : ℕ) (s : S)
        → threshold ≤ target
        → st.unused_count s < threshold
        → IsRefilled target s
            (replenish_one_time_pre_keys c g kek st draw (int (pos threshold)) (int (pos target)) s)
    replenish_low-IsRefilled threshold target s fits few =
        let n = target - st.unused_count s in
        let m = mint-IsMinted 0 n s in
        subst (IsRefilled target s) (sym (replenish_low threshold target s fits few)) (record {
          keys = (mint c g kek st draw 0 n s).keys;
          returned = refl;
          many = m.many;
          numbers = m.numbers;
          count = omega (arith, m.count, few, fits);
        })

    -- Replenishing with whole numbers, the target no lower than the threshold: a store with enough
    -- unused keys stays as it is and nothing is returned; a store with fewer is filled to the target
    -- exactly, and the keys that are missing come back under the numbers that follow its last.
    pub replenish_one_time_pre_keys-refills :
        (threshold target : ℕ) (s : S)
        → threshold ≤ target
        → let r =
            replenish_one_time_pre_keys c g kek st draw
              (int (pos threshold))
              (int (pos target))
              s in
          ((threshold ≤ st.unused_count s) × (r ≡ record { store = s; result = ok [] }))
          ⊎ ((st.unused_count s < threshold) × IsRefilled target s r)
    replenish_one_time_pre_keys-refills threshold target s fits =
        elim (Bool-cases (leb threshold (st.unused_count s))) [
          | inl enough ↦ inl (
            ground (arith, enough),
            replenish_idle threshold target s fits (ground (arith, enough)),
          )
          | inr low ↦
              let few : st.unused_count s < threshold = ground (arith, low) in
              inr (few, replenish_low-IsRefilled threshold target s fits few)
        ]

    filled :
        (signing : SigningLaws g) (identity : IdentityKeyPair) (s : S)
        → identity.ed25519_public_key ≡ g.ed_public_key identity.ed25519_private_key
        → st.unused_count s ≡ 0
        → IsBundle s (fill_bundle c g kek st draw identity s)
    unfolding fill_bundle build_signed_pre_key verify_signed_pre_key_signature
    filled signing identity s own none_left =
        let signed = (build_signed_pre_key c g kek st draw identity s 0).record_of in
        let saved = st.save_signed s signed in
        let m = mint-IsMinted 1 one_time_prekey_target saved in
        record {
          bundle = record {
            identity_pub = identity.public_key;
            identity_ed_pub = identity.ed25519_public_key;
            registration_id = identity.registration_id;
            signed_pre_key = (build_signed_pre_key c g kek st draw identity s 0).dto;
            one_time_pre_keys = (mint c g kek st draw 1 one_time_prekey_target saved).keys;
          };
          returned = refl;
          signed = ground (
            arith,
            own,
            signing.verify-sign (c.public_key (draw.random 0)) identity.ed25519_private_key,
          );
          many = m.many;
          numbers =
              subst
                (λ (k : ℕ).
                  AreNumberedFrom k (mint c g kek st draw 1 one_time_prekey_target saved).keys)
                (laws.next_signed s signed) m.numbers;
          count = omega (arith, m.count, laws.count_signed s signed, none_left);
          signed_record = signed;
          signed_id = refl;
          signed_kept = record {
            same_id = refl;
            same_key = refl;
            same_signature = refl;
            same_time = refl;
            unlocks = (draw.random 0, refl, refl);
          };
          records = m.records;
          kept = m.kept;
          saved = m.saved;
        }

    bundle_of_empty :
        (identity : IdentityKeyPair) (s : S)
        → st.current_signed s ≡ ok none
        → st.unused_count s ≡ 0
        → generate_initial_bundle c g kek st draw identity s
          ≡ fill_bundle c g kek st draw identity s
    unfolding generate_initial_bundle
    bundle_of_empty identity s no_signed none_left = ground (arith, no_signed, none_left)

    bundle_of_filled :
        (identity : IdentityKeyPair) (s : S) (signed : Option SignedPreKeyRecord)
        → st.current_signed s ≡ ok signed
        → (signed ≢ none) ⊎ (0 < st.unused_count s)
        → generate_initial_bundle c g kek st draw identity s
          ≡ record { store = s; result = err store_not_empty }
    unfolding generate_initial_bundle
    bundle_of_filled identity s (some r) there h = ground (arith, there)
    bundle_of_filled identity s none there (inl h) = absurd (h refl)
    bundle_of_filled identity s none there (inr h) = ground (arith, there, h)

    -- The first bundle of a device: over an empty store it has a signed prekey whose signature
    -- verifies under the identity that the bundle shows, and one hundred one-time prekeys under the
    -- numbers that the store gives. The store then has exactly these saved in order, the signed one
    -- first: for each a record with the same number and public key (and signature and time), with the
    -- private key of that public key wrapped under the caller's key, the one-time ones unused. Over a
    -- store that has a signed prekey or an unused one-time prekey nothing is written and the call
    -- throws.
    pub generate_initial_bundle-fills :
        (signing : SigningLaws g) (identity : IdentityKeyPair) (s : S)
        → (signed : Option SignedPreKeyRecord)
        → identity.ed25519_public_key ≡ g.ed_public_key identity.ed25519_private_key
        → st.current_signed s ≡ ok signed
        → let r = generate_initial_bundle c g kek st draw identity s in
          ((signed ≡ none) × (st.unused_count s ≡ 0) × IsBundle s r)
          ⊎ (((signed ≢ none) ⊎ (0 < st.unused_count s))
              × (r ≡ record { store = s; result = err store_not_empty }))
    generate_initial_bundle-fills signing identity s signed own there = elim (Option-cases signed) [
      | inr (x, some_signed) ↦
          let there_is : signed ≢ none = λ missing. absurd (ground (arith, missing, some_signed)) in
          inr (inl there_is, bundle_of_filled identity s signed there (inl there_is))
      | inl no_signed ↦ elim (Bool-cases (leb 1 (st.unused_count s))) [
        | inl some_left ↦
            let left : 0 < st.unused_count s = ground (arith, some_left) in
            inr (inr left, bundle_of_filled identity s signed there (inr left))
        | inr none_left ↦
            let gone : st.unused_count s ≡ 0 = ground (arith, none_left) in
            inl (
              no_signed,
              gone,
              subst (IsBundle s) (sym (bundle_of_empty identity s (there ∙ ap ok no_signed) gone))
                  (filled signing identity s own gone),
            )
      ]
    ]

-- ===== src/Ratchet/Skipped/Keeping.antt =====
-- Which positions the store of skipped keys has, and that it keeps them while there is room.
use konvo_pro.Shared.{
  ℕ, zero, suc, ◌+◌, ◌≤◌, ◌<◌, ◌≡◌, ◌≢◌, Bool, true, false, ◌||◌, some, List, [], ◌∷◌, ◌++◌, arith,
  ◌==◌, ==_refl, length, Bool-cases, Option-cases, inl, inr, ◌⊎◌,
}
use konvo_pro.Crypto.{Bytes, Primitives}
use konvo_pro.Ratchet.State.{max_skipped_keys, SkippedKey, bytes_equal_refl}
use konvo_pro.Ratchet.Keys.{chain_step}
use konvo_pro.Ratchet.Skipped.{Found, append_skipped, is_entry, find_skipped, skip_keys}
use konvo_pro.Ratchet.Skipped.Bounds.{evict_short, length-append_skipped}

pub has_key : Bytes → ℕ → List SkippedKey → Bool
has_key dh_pub n [] = false
has_key dh_pub n (k ∷ ks) = is_entry dh_pub n k || has_key dh_pub n ks

module _ (dh_pub : Bytes) (n : ℕ) where
  pub has_key-find :
      (ks : List SkippedKey)
      → has_key dh_pub n ks ≡ true
      → (f : Found) × (find_skipped dh_pub n ks ≡ some f)
  unfolding has_key find_skipped
  has_key-find [] h = ground arith
  has_key-find (k ∷ ks) h = elim (Bool-cases (is_entry dh_pub n k)) [
    | inl hit ↦ (record { entry = k; others = ks }, rw hit)
    | inr pass ↦
        let (f, found) = has_key-find ks (rw pass at h) in
        (record { entry = f.entry; others = k ∷ f.others }, rw (pass, found))
  ]

  pub has_key-others :
      (m : ℕ) (ks : List SkippedKey) {f : Found}
      → find_skipped dh_pub m ks ≡ some f
      → m ≢ n
      → has_key dh_pub n ks ≡ true
      → has_key dh_pub n f.others ≡ true
  unfolding has_key find_skipped is_entry
  has_key-others m [] q ne h = ground arith
  has_key-others m (k ∷ ks) q ne h = elim (Option-cases (find_skipped dh_pub m ks)) [
    | inl missing ↦ ground arith
    | inr (g, found) ↦ ground (arith, has_key-others m ks found ne)
  ]

  pub has_key-append :
      (ks js : List SkippedKey)
      → (has_key dh_pub n ks ≡ true) ⊎ (has_key dh_pub n js ≡ true)
      → has_key dh_pub n (ks ++ js) ≡ true
  unfolding has_key
  has_key-append [] js h = ground arith
  has_key-append (k ∷ ks) js h = ground (arith, has_key-append ks js)

  has_key-new :
      (key : Bytes)
      → has_key dh_pub n (record { dh_pub = dh_pub; message_number = n; message_key = key } ∷ [])
        ≡ true
  unfolding has_key is_entry
  has_key-new key = rw (==_refl n, bytes_equal_refl dh_pub)

module _ (c : Primitives) (dh_pub : Bytes) where
  pub has_key-append_skipped :
      (n m : ℕ) (key : Bytes) (ks : List SkippedKey)
      → length ks < max_skipped_keys
      → (has_key dh_pub n ks ≡ true) ⊎ (m ≡ n)
      → has_key dh_pub n (append_skipped ks dh_pub m key) ≡ true
  unfolding append_skipped
  has_key-append_skipped n m key ks room (inl h) =
      rw (evict_short ks room) (has_key-append dh_pub n ks _ (inl h))
  has_key-append_skipped n m key ks room (inr e) =
      rw (evict_short ks room, e) (has_key-append dh_pub n ks _ (inr (has_key-new dh_pub n key)))

  -- After a walk with room for its keys, the old keys and those of the positions passed are there.
  pub has_key-skip_keys :
      (n m count : ℕ) (key : Bytes) (ks : List SkippedKey)
      → length ks + count ≤ max_skipped_keys
      → (has_key dh_pub n ks ≡ true) ⊎ ((m ≤ n) × (n < m + count))
      → has_key dh_pub n (skip_keys c dh_pub m count key ks).skipped ≡ true
  unfolding skip_keys
  has_key-skip_keys n m zero key ks room h = ground arith
  has_key-skip_keys n m (suc count) key ks room h =
      let s = chain_step c key in
      let ks' = append_skipped ks dh_pub m s.message_key in
      let l = length-append_skipped ks dh_pub m s.message_key in
      has_key-skip_keys n (suc m) count s.next_chain_key ks' (omega (arith, l.1)) (passes h)
    where
      passes :
          (has_key dh_pub n ks ≡ true) ⊎ ((m ≤ n) × (n < m + suc count))
          → (has_key dh_pub n (append_skipped ks dh_pub m (chain_step c key).message_key) ≡ true)
            ⊎ ((suc m ≤ n) × (n < suc m + count))
      passes (inl old) = inl (has_key-append_skipped n m _ ks (omega arith) (inl old))
      passes (inr new) = elim (Bool-cases (m == n)) [
        | inl same ↦ inl (has_key-append_skipped n m _ ks (omega arith) (inr (ground arith)))
        | inr later ↦ inr (ground arith)
      ]

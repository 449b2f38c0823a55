-- ===== src/Ratchet/OldChain.antt =====
-- What a DH ratchet of packages/crypto/src/ratchet.ts does to the chain that it leaves.
use konvo_pro.Shared.{
  ℕ, zero, suc, ◌+◌, ◌-◌, ◌≤◌, ◌≡◌, refl, false, some, List, [], ◌∷◌, ◌++◌, arith, Option-cases,
  inl, inr,
}
use konvo_pro.Crypto.{Bytes, Primitives}
use konvo_pro.Ratchet.State.{max_skipped_keys, SkippedKey, RatchetState, bytes_equal}
use konvo_pro.Ratchet.Skipped.{append_skipped, skip_keys}
use konvo_pro.Ratchet.Chain.{Between, end, mine, other, Between-evict}
use konvo_pro.Ratchet.Receive.{is_some_bytes, finish_old_chain}

module _ (c : Primitives) where
  module _ {dh_pub k0 : Bytes} where
    Between-concat_other :
        {lo hi : ℕ} {ks : List SkippedKey} (k : SkippedKey)
        → bytes_equal k.dh_pub dh_pub ≡ false
        → Between c dh_pub k0 lo hi ks
        → Between c dh_pub k0 lo hi (ks ++ k ∷ [])
    Between-concat_other k e (end h) = other e (end h)
    Between-concat_other k e (mine p h key b) = mine p h key (Between-concat_other k e b)
    Between-concat_other k e (other p b) = other p (Between-concat_other k e b)

    -- Keys of another chain leave this one's entries alone.
    pub skip_keys-other :
        (old : Bytes) (n count : ℕ) (key : Bytes) (ks : List SkippedKey) {lo hi : ℕ}
        → bytes_equal old dh_pub ≡ false
        → Between c dh_pub k0 lo hi ks
        → Between c dh_pub k0 lo hi (skip_keys c old n count key ks).skipped
    unfolding skip_keys append_skipped
    skip_keys-other old n zero key ks e b = b
    skip_keys-other old n (suc count) key ks e b =
        skip_keys-other old (suc n) count _ _ e (Between-concat_other _ e (Between-evict c b))

  pub skip_keys-none :
      (dh_pub : Bytes) (n count : ℕ) (key : Bytes) (ks : List SkippedKey)
      → count ≡ 0
      → (skip_keys c dh_pub n count key ks).skipped ≡ ks
  unfolding skip_keys
  skip_keys-none dh_pub n zero key ks e = refl
  skip_keys-none dh_pub n (suc count) key ks e = absurd (omega arith)

  pub finish_old_chain-same :
      (s : RatchetState) (previous : ℕ)
      → previous ≤ s.receiving_message_number
      → finish_old_chain c s previous ≡ some s.skipped_keys
  unfolding finish_old_chain
  finish_old_chain-same s previous le = elim (Option-cases s.receiving_chain_key) [
    | inl nothing ↦ ground arith
    | inr (key, chain) ↦ elim (Option-cases s.receiving_dh_pub) [
      | inl nobody ↦ ground arith
      | inr (old, at) ↦
          let n = s.receiving_message_number in
          ground (arith, skip_keys-none old n (previous - n) key s.skipped_keys (omega arith))
    ]
  ]

  -- The old chain is closed unless more than the cap is left of it, and no key of `dh_pub` is added.
  pub finish_old_chain-closes :
      (s : RatchetState) (previous : ℕ) (dh_pub k0 : Bytes)
      → previous ≤ s.receiving_message_number + max_skipped_keys
      → is_some_bytes s.receiving_dh_pub dh_pub ≡ false
      → Between c dh_pub k0 0 0 s.skipped_keys
      → (skipped : List SkippedKey) × (finish_old_chain c s previous ≡ some skipped)
        × Between c dh_pub k0 0 0 skipped
  unfolding finish_old_chain
  finish_old_chain-closes s previous dh_pub k0 fits unseen b =
      elim (Option-cases s.receiving_chain_key) [
        | inl nothing ↦ (s.skipped_keys, ground arith, b)
        | inr (key, chain) ↦ elim (Option-cases s.receiving_dh_pub) [
          | inl nobody ↦ (s.skipped_keys, ground arith, b)
          | inr (old, at) ↦ (
            (skip_keys c old s.receiving_message_number (previous - s.receiving_message_number) key
                s.skipped_keys).skipped,
            ground arith,
            skip_keys-other old _ _ key s.skipped_keys (ground arith) b,
          )
        ]
      ]

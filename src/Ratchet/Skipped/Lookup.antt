-- ===== src/Ratchet/Skipped/Lookup.antt =====
-- How a lookup in the store of skipped keys goes by one entry.
use konvo_pro.Shared.{
  ℕ, ◌≡◌, true, false, none, some, List, ◌∷◌, arith, ◌⊎◌, inl, inr, Bool-cases, Option-cases,
}
use konvo_pro.Crypto.{Bytes}
use konvo_pro.Ratchet.State.{SkippedKey}
use konvo_pro.Ratchet.Skipped.{Found, is_entry, find_skipped, under}

module _ (dh_pub : Bytes) (n : ℕ) (k : SkippedKey) (ks : List SkippedKey) where
  pub find_skipped-hit :
      is_entry dh_pub n k ≡ true
      → find_skipped dh_pub n (k ∷ ks) ≡ some (record { entry = k; others = ks })
  unfolding find_skipped
  find_skipped-hit e = rw e

  pub find_skipped-pass :
      is_entry dh_pub n k ≡ false
      → find_skipped dh_pub n (k ∷ ks) ≡ under k (find_skipped dh_pub n ks)
  unfolding find_skipped
  find_skipped-pass e = rw e

  pub find_skipped-miss :
      is_entry dh_pub n k ≡ false
      → find_skipped dh_pub n ks ≡ none
      → find_skipped dh_pub n (k ∷ ks) ≡ none
  find_skipped-miss e m = rw (find_skipped-pass e, m)

  -- A found entry is this one, or one further on.
  pub find_skipped-cases :
      {f : Found}
      → find_skipped dh_pub n (k ∷ ks) ≡ some f
      → ((is_entry dh_pub n k ≡ true) × (f ≡ record { entry = k; others = ks }))
        ⊎ ((g : Found) × (is_entry dh_pub n k ≡ false)
            × (find_skipped dh_pub n ks ≡ some g)
            × (f ≡ record { entry = g.entry; others = k ∷ g.others }))
  find_skipped-cases q = elim (Bool-cases (is_entry dh_pub n k)) [
    | inl hit ↦ inl (hit, ground (arith, find_skipped-hit hit))
    | inr pass ↦ elim (Option-cases (find_skipped dh_pub n ks)) [
      | inl missing ↦ ground (arith, find_skipped-pass pass)
      | inr (g, found) ↦ inr (g, pass, found, ground (arith, find_skipped-pass pass))
    ]
  ]

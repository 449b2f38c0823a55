-- ===== src/Ratchet/Skipped/Bounds.antt =====
-- The store of skipped keys never holds more than `MAX_SKIPPED_KEYS` entries.
use konvo_pro.Shared.{
  ℕ, zero, suc, ◌+◌, ◌≤◌, ◌<◌, ◌≡◌, refl, some, List, [], ◌∷◌, arith, length, length-append, inl,
  inr, Option-cases,
}
use konvo_pro.Crypto.{Bytes, Primitives}
use konvo_pro.Ratchet.State.{max_skipped_keys, SkippedKey}
use konvo_pro.Ratchet.Keys.{chain_step}
use konvo_pro.Ratchet.Skipped.{Found, evict, append_skipped, find_skipped, skip_keys}

pub length-evict : (ks : List SkippedKey) → length (evict ks) < max_skipped_keys
unfolding evict
length-evict [] = omega arith
length-evict (k ∷ ks) = ground (arith, length-evict ks)

pub evict_short : (ks : List SkippedKey) → length ks < max_skipped_keys → evict ks ≡ ks
unfolding evict
evict_short [] h = refl
evict_short (k ∷ ks) h = ground arith

pub length-evict-le : (ks : List SkippedKey) → length (evict ks) ≤ length ks
unfolding evict
length-evict-le [] = omega arith
length-evict-le (k ∷ ks) = ground (arith, length-evict-le ks)

pub length-append_skipped :
    (ks : List SkippedKey) (dh_pub : Bytes) (n : ℕ) (key : Bytes)
    → (length (append_skipped ks dh_pub n key) ≤ max_skipped_keys)
      × (length (append_skipped ks dh_pub n key) ≤ length ks + 1)
unfolding append_skipped
length-append_skipped ks dh_pub n key = omega (
  arith,
  length-evict ks,
  length-evict-le ks,
  length-append (evict ks) (record { dh_pub = dh_pub; message_number = n; message_key = key } ∷ []),
)

pub length-skip_keys :
    (c : Primitives) (dh_pub : Bytes) (n count : ℕ) (key : Bytes) (ks : List SkippedKey)
    → length ks ≤ max_skipped_keys
    → (length (skip_keys c dh_pub n count key ks).skipped ≤ max_skipped_keys)
      × (length (skip_keys c dh_pub n count key ks).skipped ≤ length ks + count)
unfolding skip_keys
length-skip_keys c dh_pub n zero key ks h = omega arith
length-skip_keys c dh_pub n (suc count) key ks h = omega (
  arith,
  length-append_skipped ks dh_pub n (chain_step c key).message_key,
  length-skip_keys c dh_pub (suc n) count (chain_step c key).next_chain_key
      (append_skipped ks dh_pub n (chain_step c key).message_key)
      (length-append_skipped ks dh_pub n (chain_step c key).message_key).0,
)

pub length-find_skipped :
    (dh_pub : Bytes) (n : ℕ) (ks : List SkippedKey) {f : Found}
    → find_skipped dh_pub n ks ≡ some f
    → suc (length f.others) ≡ length ks
unfolding find_skipped
length-find_skipped dh_pub n [] e = ground arith
length-find_skipped dh_pub n (k ∷ ks) e = elim (Option-cases (find_skipped dh_pub n ks)) [
  | inl missing ↦ ground arith
  | inr (g, found) ↦ ground (arith, length-find_skipped dh_pub n ks found)
]

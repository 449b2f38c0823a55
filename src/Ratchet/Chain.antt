-- ===== src/Ratchet/Chain.antt =====
-- What a receiver knows of one sending chain: the keys at its positions, and those of them that
-- stand in the store.
use native.Mathlib.Numerals.{add-one}
use konvo_pro.Shared.{
  ℕ, zero, suc, ◌+◌, ◌≤◌, ◌<◌, ◌≡◌, refl, Bool, false, true, none, some, List, [], ◌∷◌, ◌++◌, arith,
  if◌then◌else◌, inl, inr,
}
use konvo_pro.Crypto.{Bytes, Primitives}
use konvo_pro.Ratchet.State.{SkippedKey, bytes_equal, bytes_equal_refl}
use konvo_pro.Ratchet.Keys.{chain_step}
use konvo_pro.Ratchet.Skipped.Lookup.{find_skipped-cases, find_skipped-miss}
use konvo_pro.Ratchet.Skipped.{Found, evict, append_skipped, is_entry, find_skipped, skip_keys}

if_either {ℓ κ} :
    {A : Type ℓ} (P : A → Type κ) (b : Bool) {x y : A} → P x → P y → P (if b then x else y)
if_either P true p q = p
if_either P false p q = q

module _ (c : Primitives) where
  -- The chain key at position `n` of the chain that starts with `k0`.
  unfoldable pub chain_key_at : ℕ → Bytes → Bytes
  chain_key_at zero k0 = k0
  chain_key_at (suc n) k0 = (chain_step c (chain_key_at n k0)).next_chain_key

  abbrev pub message_key_at : ℕ → Bytes → Bytes
  message_key_at n k0 = (chain_step c (chain_key_at n k0)).message_key

  pub chain_key_at-add_one :
      (n : ℕ) (k0 : Bytes)
      → chain_key_at (n + 1) k0 ≡ (chain_step c (chain_key_at n k0)).next_chain_key
  unfolding chain_key_at
  chain_key_at-add_one n k0 = rw add-one

  -- The entries of the chain `dh_pub` in the store have the chain's keys, at positions that rise
  -- from `lo` and stay below `hi`.
  pub data Between (dh_pub k0 : Bytes) : ℕ → ℕ → List SkippedKey → Type 0 where
    end : {lo hi : ℕ} → lo ≤ hi → Between dh_pub k0 lo hi []
    mine :
        {lo hi : ℕ} {k : SkippedKey} {ks : List SkippedKey}
        → bytes_equal k.dh_pub dh_pub ≡ true
        → lo ≤ k.message_number
        → k.message_key ≡ message_key_at k.message_number k0
        → Between dh_pub k0 (suc k.message_number) hi ks
        → Between dh_pub k0 lo hi (k ∷ ks)
    other :
        {lo hi : ℕ} {k : SkippedKey} {ks : List SkippedKey}
        → bytes_equal k.dh_pub dh_pub ≡ false
        → Between dh_pub k0 lo hi ks
        → Between dh_pub k0 lo hi (k ∷ ks)

  -- What is found is the key of that position, and it is stored once.
  pub record IsTaken (dh_pub k0 : Bytes) (lo hi n : ℕ) (f : Found) : Type 0 where
    pub key : f.entry.message_key ≡ message_key_at n k0
    pub others : Between dh_pub k0 lo hi f.others
    pub once : find_skipped dh_pub n f.others ≡ none
    pub below : n < hi

  module _ {dh_pub k0 : Bytes} where
    pub Between-le : {lo hi : ℕ} {ks : List SkippedKey} → Between dh_pub k0 lo hi ks → lo ≤ hi
    Between-le (end h) = h
    Between-le (mine e h key b) = omega (arith, Between-le b)
    Between-le (other e b) = Between-le b

    pub Between-weaken :
        {lo hi : ℕ} {ks : List SkippedKey} (lo' : ℕ)
        → Between dh_pub k0 lo hi ks
        → lo' ≤ lo
        → Between dh_pub k0 lo' hi ks
    Between-weaken lo' (end h) l = end (omega arith)
    Between-weaken lo' (mine e h key b) l = mine e (omega arith) key b
    Between-weaken lo' (other e b) l = other e (Between-weaken lo' b l)

    pub Between-raise :
        {lo hi : ℕ} {ks : List SkippedKey} (hi' : ℕ)
        → Between dh_pub k0 lo hi ks
        → hi ≤ hi'
        → Between dh_pub k0 lo hi' ks
    Between-raise hi' (end h) l = end (omega arith)
    Between-raise hi' (mine e h key b) l = mine e h key (Between-raise hi' b l)
    Between-raise hi' (other e b) l = other e (Between-raise hi' b l)

    pub Between-evict :
        {lo hi : ℕ} {ks : List SkippedKey}
        → Between dh_pub k0 lo hi ks
        → Between dh_pub k0 lo hi (evict ks)
    unfolding evict
    Between-evict (end h) = end h
    Between-evict {lo} {hi} (mine e h key b) =
        if_either (Between dh_pub k0 lo hi) _ (Between-weaken lo (Between-evict b) (omega arith))
          (mine e h key b)
    Between-evict {lo} {hi} (other e b) =
        if_either (Between dh_pub k0 lo hi) _ (Between-evict b) (other e b)

    pub Between-concat :
        {lo hi : ℕ} {ks : List SkippedKey}
        → Between dh_pub k0 lo hi ks
        → Between dh_pub k0 lo (suc hi) (
            ks
            ++ record { dh_pub = dh_pub; message_number = hi; message_key = message_key_at hi k0 }
              ∷ [])
    Between-concat (end h) = mine (bytes_equal_refl dh_pub) h refl (end (omega arith))
    Between-concat (mine e h key b) = mine e h key (Between-concat b)
    Between-concat (other e b) = other e (Between-concat b)

    pub Between-append_skipped :
        {lo hi : ℕ} {ks : List SkippedKey}
        → Between dh_pub k0 lo hi ks
        → Between dh_pub k0 lo (suc hi) (append_skipped ks dh_pub hi (message_key_at hi k0))
    unfolding append_skipped
    Between-append_skipped b = Between-concat (Between-evict b)

    -- Walking the chain from its position `n` stores the keys of the positions passed.
    pub skip_keys-Between :
        (n count m : ℕ) (lo : ℕ) (ks : List SkippedKey)
        → n + count ≡ m
        → Between dh_pub k0 lo n ks
        → ((skip_keys c dh_pub n count (chain_key_at n k0) ks).chain_key ≡ chain_key_at m k0)
          × Between dh_pub k0 lo m (skip_keys c dh_pub n count (chain_key_at n k0) ks).skipped
    unfolding skip_keys chain_key_at
    skip_keys-Between n zero m lo ks e b = let e' : n ≡ m = omega arith in rw (← e') (refl, b)
    skip_keys-Between n (suc count) m lo ks e b =
        skip_keys-Between (suc n) count m lo _ (omega arith) (Between-append_skipped b)

    -- No key is found beyond the last position passed, nor below the first one stored.
    pub find_skipped-above :
        {lo hi : ℕ} {ks : List SkippedKey} (n : ℕ)
        → Between dh_pub k0 lo hi ks
        → hi ≤ n
        → find_skipped dh_pub n ks ≡ none
    unfolding find_skipped is_entry
    find_skipped-above n (end h) l = refl
    find_skipped-above n (mine e h key b) l = ground (arith, Between-le b, find_skipped-above n b l)
    find_skipped-above n (other e b) l = ground (arith, find_skipped-above n b l)

    pub find_skipped-below :
        {lo hi : ℕ} {ks : List SkippedKey} (n : ℕ)
        → Between dh_pub k0 lo hi ks
        → n < lo
        → find_skipped dh_pub n ks ≡ none
    unfolding find_skipped is_entry
    find_skipped-below n (end h) l = refl
    find_skipped-below n (mine e h key b) l = ground (arith, find_skipped-below n b (omega arith))
    find_skipped-below n (other e b) l = ground (arith, find_skipped-below n b l)

    pub find_skipped-IsTaken :
        {lo hi : ℕ} {ks : List SkippedKey} (n : ℕ) {f : Found}
        → Between dh_pub k0 lo hi ks
        → find_skipped dh_pub n ks ≡ some f
        → IsTaken dh_pub k0 lo hi n f
    unfolding find_skipped is_entry
    find_skipped-IsTaken n (end h) q = cc
    find_skipped-IsTaken n {f} (mine {lo} {hi} {k} {ks} e h key b) q =
        elim (find_skipped-cases dh_pub n k ks q) [
          | inl (hit, this) ↦
              let at : k.message_number ≡ n = ground arith in
              rw this (record {
                key = rw (← at) key;
                others = Between-weaken lo b (omega arith);
                once = find_skipped-below n b (omega arith);
                below = omega (arith, Between-le b);
              })
          | inr (g, pass, found, this) ↦
              let t = find_skipped-IsTaken n b found in
              rw this (record {
                key = t.key;
                others = mine e h key t.others;
                once = find_skipped-miss dh_pub n k g.others pass t.once;
                below = t.below;
              })
        ]
    find_skipped-IsTaken n {f} (other {lo} {hi} {k} {ks} e b) q =
        elim (find_skipped-cases dh_pub n k ks q) [
          | inl (hit, this) ↦ absurd (ground arith)
          | inr (g, pass, found, this) ↦
              let t = find_skipped-IsTaken n b found in
              rw this (record {
                key = t.key;
                others = other e t.others;
                once = find_skipped-miss dh_pub n k g.others pass t.once;
                below = t.below;
              })
        ]

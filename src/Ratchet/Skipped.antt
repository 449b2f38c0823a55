-- ===== src/Ratchet/Skipped.antt =====
-- The store of skipped message keys of packages/crypto/src/ratchet.ts: `appendSkipped`, the loops
-- that fill it, and the lookup of `decryptFromDevice`.
pub mod Bounds
pub mod Lookup
pub mod Keeping
use konvo_pro.Shared.{
  ℕ, zero, suc, ◌+◌, Bool, Option, none, some, List, [], ◌∷◌, ◌++◌, ◌&&◌, length, leb, ◌==◌,
  if◌then◌else◌,
}
use konvo_pro.Crypto.{Bytes, Primitives}
use konvo_pro.Ratchet.State.{max_skipped_keys, SkippedKey, bytes_equal}
use konvo_pro.Ratchet.Keys.{chain_step}

-- The `while` loop of `appendSkipped`: the oldest entry stands first.
unfoldable pub evict : List SkippedKey → List SkippedKey
evict [] = []
evict (k ∷ ks) =
    let rest = evict ks in if leb max_skipped_keys (length (k ∷ ks)) then rest else k ∷ ks

unfoldable pub append_skipped : List SkippedKey → Bytes → ℕ → Bytes → List SkippedKey
append_skipped ks dh_pub n key =
    evict ks ++ (record { dh_pub = dh_pub; message_number = n; message_key = key } ∷ [])

-- The predicate of `findIndex`.
unfoldable pub is_entry : Bytes → ℕ → SkippedKey → Bool
is_entry dh_pub n k = k.message_number == n && bytes_equal k.dh_pub dh_pub

pub record Found : Type 0 where
  pub entry : SkippedKey
  pub others : List SkippedKey

abbrev pub under : SkippedKey → Option Found → Option Found
under k none = none
under k (some f) = some (record { entry = f.entry; others = k ∷ f.others })

-- `findIndex`, with what the entry's `splice` leaves.
unfoldable pub find_skipped : Bytes → ℕ → List SkippedKey → Option Found
find_skipped dh_pub n [] = none
find_skipped dh_pub n (k ∷ ks) =
    if is_entry dh_pub n k
    then some (record { entry = k; others = ks })
    else under k (find_skipped dh_pub n ks)

pub record Walk : Type 0 where
  pub chain_key : Bytes
  pub skipped : List SkippedKey

-- `for (i = 0; i < count; i++)`: step the chain and store the key of message `n + i`.
unfoldable pub skip_keys : Primitives → Bytes → ℕ → ℕ → Bytes → List SkippedKey → Walk
skip_keys c dh_pub n zero key ks = record { chain_key = key; skipped = ks }
skip_keys c dh_pub n (suc count) key ks =
    let s = chain_step c key in
    skip_keys c dh_pub (suc n) count s.next_chain_key (append_skipped ks dh_pub n s.message_key)

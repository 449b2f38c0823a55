-- ===== src/Ratchet/State.antt =====
-- The types and constants of packages/crypto/src/ratchet.ts, and the byte helpers.
use konvo_pro.Shared.{
  ℕ, ◌≡◌, refl, Bool, true, false, ◌↔◌, Option, List, [], ◌∷◌, arith, ℤ, Number, length, ◌==◌,
  if◌then◌else◌, Result,
}
use konvo_pro.Crypto.{Bytes}

abbrev pub max_skipped_keys : ℕ
max_skipped_keys = 1000

abbrev pub key_length : ℕ
key_length = 32

abbrev pub aes_key_length : ℕ
aes_key_length = 32

abbrev pub aes_iv_length : ℕ
aes_iv_length = 12

pub record SkippedKey : Type 0 where
  pub dh_pub : Bytes
  pub message_number : ℕ
  pub message_key : Bytes

pub record RatchetState : Type 0 where
  pub root_key : Bytes
  pub sending_dh_priv : Bytes
  pub sending_dh_pub : Bytes
  pub receiving_dh_pub : Option Bytes
  pub sending_chain_key : Option Bytes
  pub receiving_chain_key : Option Bytes
  pub sending_message_number : ℕ
  pub receiving_message_number : ℕ
  pub previous_sending_chain_length : ℕ
  pub skipped_keys : List SkippedKey

-- A header whose counters have passed the range checks, as every header that is sent has.
pub record RatchetMessageHeader : Type 0 where
  pub dh_pub : Bytes
  pub prev_chain_length : ℕ
  pub message_number : ℕ

-- A header as it arrives: the counters are any numbers.
pub record InboundHeader : Type 0 where
  pub dh_pub : Bytes
  pub prev_chain_length : Number
  pub message_number : Number

-- The `details` of a `message_lost` notice.
pub data LossDetails : Type 0 where
  gap : ℤ → LossDetails
  new_chain : ℕ → LossDetails

pub data DecryptResult : Type 0 where
  plaintext : Bytes → DecryptResult
  invalid_message : DecryptResult
  duplicate : DecryptResult
  message_lost : LossDetails → DecryptResult

-- The errors that are thrown, and not returned.
pub data RatchetError : Type 0 where
  bad_root_key bad_recipient_pub bad_priv bad_pub : RatchetError
  bad_dh_pub bad_message_number bad_prev_chain_length : RatchetError
  no_sending_chain shared_secret_failed : RatchetError

abbrev pub Thrown : Type 0 → Type 0
Thrown A = Result RatchetError A

-- The loop of `bytesEqual`, on arrays of one length.
same_bytes : Bytes → Bytes → Bool
same_bytes [] b = true
same_bytes (x ∷ a) [] = false
same_bytes (x ∷ a) (y ∷ b) = if x == y then same_bytes a b else false

unfoldable pub bytes_equal : Bytes → Bytes → Bool
unfolding same_bytes
bytes_equal a b = if length a == length b then same_bytes a b else false

same_bytes_sound : (a b : Bytes) → length a ≡ length b → same_bytes a b ≡ true → a ≡ b
unfolding same_bytes
same_bytes_sound [] [] h e = refl
same_bytes_sound [] (y ∷ b) h e = ground arith
same_bytes_sound (x ∷ a) [] h e = ground arith
same_bytes_sound (x ∷ a) (y ∷ b) h e = ground (arith, same_bytes_sound a b)

same_bytes_refl : (a : Bytes) → same_bytes a a ≡ true
unfolding same_bytes
same_bytes_refl [] = refl
same_bytes_refl (x ∷ a) = ground (arith, same_bytes_refl a)

pub bytes_equal_refl : (a : Bytes) → bytes_equal a a ≡ true
unfolding bytes_equal
bytes_equal_refl a = ground (arith, same_bytes_refl a)

bytes_equal_sound : (a b : Bytes) → bytes_equal a b ≡ true → a ≡ b
unfolding bytes_equal
bytes_equal_sound a b h = ground (arith, same_bytes_sound a b)

pub bytes_equal_iff : (a b : Bytes) → (bytes_equal a b ≡ true) ↔ (a ≡ b)
bytes_equal_iff a b = (bytes_equal_sound a b, λ h. rw (← h) (bytes_equal_refl a))

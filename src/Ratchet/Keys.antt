-- ===== src/Ratchet/Keys.antt =====
-- The key derivations of packages/crypto/src/ratchet.ts. Buffers are values here, so the copies of
-- `cloneState` and the overwriting of used keys have no counterpart.
use Prim.Native.String.{String}
use Prim.Native.Char.{code}
use konvo_pro.Shared.{
  ℕ, ◌+◌, ◌/◌, ◌%◌, ◌^◌, Option, none, some, [], ◌∷◌, ◌++◌, length, take, drop, replicate, ◌==◌,
  if◌then◌else◌, ok, err, ◌>>=◌,
}
use konvo_pro.Crypto.{Bytes, Primitives}
use konvo_pro.Ratchet.State.{
  key_length, aes_key_length, aes_iv_length, RatchetMessageHeader, Thrown, bad_dh_pub,
  shared_secret_failed,
}

-- `new TextEncoder().encode(text)`, on ASCII.
abbrev pub utf8 : String → Bytes
utf8 String.[] = []
utf8 (String.◌∷◌ c s) = code c ∷ utf8 s

abbrev root_kdf_info : Bytes
root_kdf_info = utf8 "konvo-ratchet-rk"

abbrev message_key_info : Bytes
message_key_info = utf8 "konvo-ratchet-mk"

abbrev hmac_tag_chain_key : Bytes
hmac_tag_chain_key = 2 ∷ []

abbrev hmac_tag_message_key : Bytes
hmac_tag_message_key = 1 ∷ []

pub record RootStep : Type 0 where
  pub new_root_key : Bytes
  pub new_chain_key : Bytes

pub record ChainStep : Type 0 where
  pub next_chain_key : Bytes
  pub message_key : Bytes

pub record AesKey : Type 0 where
  pub aes_key : Bytes
  pub iv : Bytes

pub record Keypair : Type 0 where
  pub priv : Bytes
  pub pub_key : Bytes

-- `view.setUint32(at, n >>> 0, false)`: four bytes, the highest first.
unfoldable pub uint32_be : ℕ → Bytes
uint32_be n = (n / 2 ^ 24) % 256 ∷ (n / 2 ^ 16) % 256 ∷ (n / 2 ^ 8) % 256 ∷ n % 256 ∷ []

unfoldable pub serialize_header : RatchetMessageHeader → Thrown Bytes
unfolding uint32_be
serialize_header h =
    if length h.dh_pub == key_length
    then ok (h.dh_pub ++ (uint32_be h.prev_chain_length ++ uint32_be h.message_number))
    else err bad_dh_pub

module _ (c : Primitives) where
  open c use {hkdf, hmac, shared_secret, public_key, aes_encrypt, aes_decrypt}

  unfoldable pub root_kdf : Bytes → Bytes → RootStep
  root_kdf root_key dh_output =
      let expanded = hkdf dh_output root_key root_kdf_info 64 in
      record { new_root_key = take 32 expanded; new_chain_key = take 32 (drop 32 expanded) }

  unfoldable pub chain_step : Bytes → ChainStep
  chain_step chain_key = record {
    next_chain_key = hmac chain_key hmac_tag_chain_key;
    message_key = hmac chain_key hmac_tag_message_key;
  }

  unfoldable pub expand_message_key : Bytes → AesKey
  expand_message_key message_key =
      let expanded =
        hkdf message_key (replicate 32 0) message_key_info (aes_key_length + aes_iv_length) in
      record {
        aes_key = take aes_key_length expanded;
        iv = take aes_iv_length (drop aes_key_length expanded);
      }

  -- `expandMessageKey` and `aesGcmEncrypt`, as every caller joins them.
  unfoldable pub seal : Bytes → Bytes → Bytes → Bytes
  unfolding expand_message_key
  seal message_key aad text =
      let k = expand_message_key message_key in aes_encrypt k.aes_key k.iv aad text

  unfoldable pub unseal : Bytes → Bytes → Bytes → Option Bytes
  unfolding expand_message_key
  unseal message_key aad ciphertext =
      let k = expand_message_key message_key in aes_decrypt k.aes_key k.iv aad ciphertext

  unfoldable pub shared : Bytes → Bytes → Thrown Bytes
  shared priv other = elim (shared_secret priv other) [
    | none ↦ err shared_secret_failed
    | some secret ↦ ok secret
  ]

  unfoldable pub dh_ratchet_receive_step : Bytes → Bytes → Bytes → Thrown RootStep
  dh_ratchet_receive_step root_key our_priv their_new_pub = do
    dh_output ← shared our_priv their_new_pub
    ok (root_kdf root_key dh_output)

  -- The random bytes are an argument.
  unfoldable pub generate_ratchet_keypair : Bytes → Keypair
  generate_ratchet_keypair random = record { priv = random; pub_key = public_key random }

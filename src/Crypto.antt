-- ===== src/Crypto.antt =====
-- The cryptographic libraries that packages/crypto calls: @noble/curves (X25519, Ed25519), @noble/hashes
-- (HKDF and HMAC over SHA-256) and WebCrypto (AES-256-GCM, AES-KW). They are parameters of the model.
pub mod Toy
use konvo_pro.Shared.{ℕ, Bool, true, ◌≡◌, Option, some, List, length}

abbrev pub Bytes : Type 0
Bytes = List ℕ

pub record Primitives : Type 0 where
  -- `hkdf(sha256, ikm, salt, info, length)`
  pub hkdf : Bytes → Bytes → Bytes → ℕ → Bytes
  -- `hmac(sha256, key, message)`
  pub hmac : Bytes → Bytes → Bytes
  -- `x25519.getSharedSecret(priv, pub)`; `none` where it throws, on a point of low order
  pub shared_secret : Bytes → Bytes → Option Bytes
  -- `x25519.getPublicKey(priv)`
  pub public_key : Bytes → Bytes
  -- `crypto.subtle.encrypt` and `decrypt`: key, iv, additional data, text; `none` where the tag fails
  pub aes_encrypt : Bytes → Bytes → Bytes → Bytes → Bytes
  pub aes_decrypt : Bytes → Bytes → Bytes → Bytes → Option Bytes

-- What the code relies on.
pub record Laws (c : Primitives) : Type 0 where
  pub decrypt-encrypt :
      (key iv aad plaintext : Bytes)
      → c.aes_decrypt key iv aad (c.aes_encrypt key iv aad plaintext) ≡ some plaintext
  pub agreement :
      (a b : Bytes) → c.shared_secret a (c.public_key b) ≡ c.shared_secret b (c.public_key a)
  pub length-public_key : (a : Bytes) → length (c.public_key a) ≡ 32
  pub length-hkdf : (ikm salt info : Bytes) (n : ℕ) → length (c.hkdf ikm salt info n) ≡ n

-- Ed25519 of @noble/curves, and AES-KW of WebCrypto.
pub record Signing : Type 0 where
  -- `ed25519.getPublicKey(priv)`, `ed25519.sign(message, priv)`
  pub ed_public_key : Bytes → Bytes
  pub sign : Bytes → Bytes → Bytes
  -- `ed25519.verify(signature, message, pub)`
  pub verify : Bytes → Bytes → Bytes → Bool
  -- `wrapKey` and `unwrapKey` under the key-encryption key; `none` where the integrity check fails
  pub wrap : Bytes → Bytes → Bytes
  pub unwrap : Bytes → Bytes → Option Bytes

pub record SigningLaws (g : Signing) : Type 0 where
  pub verify-sign :
      (message priv : Bytes) → g.verify (g.sign message priv) message (g.ed_public_key priv) ≡ true
  pub unwrap-wrap : (raw kek : Bytes) → g.unwrap (g.wrap raw kek) kek ≡ some raw

-- ===== src/Session/X3dh.antt =====
-- packages/crypto/src/session.ts: X3DH, on both sides.
use konvo_pro.Shared.{
  ℕ, Bool, true, false, Option, none, some, List, [], ◌∷◌, ◌++◌, replicate, if◌then◌else◌, Result,
  ok, err, ◌>>=◌,
}
use konvo_pro.Crypto.{Bytes, Primitives, Signing}
use konvo_pro.Ratchet.Keys.{utf8}
use konvo_pro.Session.Identity.{IdentityKeyPair}

pub record RemoteSignedPreKey : Type 0 where
  pub key_id : ℕ
  pub public_key : Bytes
  pub signature : Bytes
  pub created_at : ℕ

pub record RemoteOneTimePreKey : Type 0 where
  pub key_id : ℕ
  pub public_key : Bytes

pub record RemotePreKeyBundle : Type 0 where
  pub recipient_device_id : Bytes
  pub identity_pub : Bytes
  pub identity_ed_pub : Bytes
  pub registration_id : ℕ
  pub signed_pre_key : RemoteSignedPreKey
  pub one_time_pre_key : Option RemoteOneTimePreKey

pub record SessionInit : Type 0 where
  pub alice_identity_pub : Bytes
  pub ephemeral_pub : Bytes
  pub signed_pre_key_id : ℕ
  pub one_time_pre_key_id : Option ℕ

pub record EstablishedSession : Type 0 where
  pub root_key : Bytes
  pub session_init : SessionInit

-- `InvalidSignedPreKeyError`, the error on the presence of a one-time prekey, and what X25519 throws
-- on a point of low order.
pub data SessionError : Type 0 where
  invalid_signed_pre_key : SessionError
  one_time_mismatch : SessionError
  shared_secret_failed : SessionError

abbrev pub x3dh_info : Bytes
x3dh_info = utf8 "konvo-x3dh"

abbrev pub x3dh_salt : Bytes
x3dh_salt = replicate 32 0

abbrev pub sk_length : ℕ
sk_length = 32

unfoldable pub concat_bytes : List Bytes → Bytes
concat_bytes [] = []
concat_bytes (b ∷ bs) = b ++ concat_bytes bs

abbrev pub is_present {ℓ} : {A : Type ℓ} → Option A → Bool
is_present none = false
is_present (some a) = true

abbrev pub xor : Bool → Bool → Bool
xor true true = false
xor true false = true
xor false b = b

abbrev pub one_time_public : Option RemoteOneTimePreKey → Option Bytes
one_time_public none = none
one_time_public (some k) = some k.public_key

abbrev pub one_time_id : Option RemoteOneTimePreKey → Option ℕ
one_time_id none = none
one_time_id (some k) = some k.key_id

module _ (c : Primitives) where
  unfoldable pub derive_session_key : List Bytes → Bytes
  derive_session_key shares = c.hkdf (concat_bytes shares) x3dh_salt x3dh_info sk_length

  unfoldable pub dh : Bytes → Bytes → Result SessionError Bytes
  dh private_key public_key = elim (c.shared_secret private_key public_key) [
    | none ↦ err shared_secret_failed
    | some secret ↦ ok secret
  ]

  -- The fourth share, where a one-time prekey takes part.
  unfoldable pub last_share : Bytes → Option Bytes → Result SessionError (List Bytes)
  last_share private_key none = ok []
  last_share private_key (some public_key) = dh private_key public_key >>= λ dh4. ok (dh4 ∷ [])

  unfoldable pub alice_shares :
      IdentityKeyPair → Bytes → RemotePreKeyBundle → Result SessionError (List Bytes)
  alice_shares alice ephemeral b = do
    dh1 ← dh alice.private_key b.signed_pre_key.public_key
    dh2 ← dh ephemeral b.identity_pub
    dh3 ← dh ephemeral b.signed_pre_key.public_key
    dh4 ← last_share ephemeral (one_time_public b.one_time_pre_key)
    ok (dh1 ∷ dh2 ∷ dh3 ∷ dh4)

  -- The random bytes of the ephemeral key are an argument.
  unfoldable pub establish_session :
      Signing
      → IdentityKeyPair
      → Bytes
      → RemotePreKeyBundle
      → Result SessionError EstablishedSession
  establish_session g alice ephemeral b =
      if g.verify b.signed_pre_key.signature b.signed_pre_key.public_key b.identity_ed_pub
      then (alice_shares alice ephemeral b >>= λ shares. ok (record {
        root_key = derive_session_key shares;
        session_init = record {
          alice_identity_pub = alice.public_key;
          ephemeral_pub = c.public_key ephemeral;
          signed_pre_key_id = b.signed_pre_key.key_id;
          one_time_pre_key_id = one_time_id b.one_time_pre_key;
        };
      }))
      else err invalid_signed_pre_key

  unfoldable pub bob_last_share : Option Bytes → Bytes → Result SessionError (List Bytes)
  bob_last_share none ephemeral_pub = ok []
  bob_last_share (some one_time) ephemeral_pub = dh one_time ephemeral_pub >>= λ dh4. ok (dh4 ∷ [])

  unfoldable pub bob_shares :
      IdentityKeyPair → Bytes → Option Bytes → SessionInit → Result SessionError (List Bytes)
  bob_shares bob signed one_time init = do
    dh1 ← dh signed init.alice_identity_pub
    dh2 ← dh bob.private_key init.ephemeral_pub
    dh3 ← dh signed init.ephemeral_pub
    dh4 ← bob_last_share one_time init.ephemeral_pub
    ok (dh1 ∷ dh2 ∷ dh3 ∷ dh4)

  unfoldable pub accept_session :
      IdentityKeyPair → Bytes → Option Bytes → SessionInit → Result SessionError Bytes
  accept_session bob signed one_time init =
      if xor (is_present init.one_time_pre_key_id) (is_present one_time)
      then err one_time_mismatch
      else bob_shares bob signed one_time init >>= λ shares. ok (derive_session_key shares)

-- ===== src/Session/Identity.antt =====
-- packages/crypto/src/identity.ts: the identity of a device, made once and kept wrapped.
use konvo_pro.Shared.{
  ℕ, ◌%◌, ◌≡◌, refl, arith, ◌&&◌, leb, ◌==◌, Option, none, some, List, [], ◌∷◌, length,
  if◌then◌else◌, Result, ok, err, ◌>>=◌,
}
use konvo_pro.Crypto.{Bytes, Primitives, Signing, SigningLaws}

abbrev pub identity_key_length : ℕ
identity_key_length = 32

abbrev pub registration_id_min : ℕ
registration_id_min = 1

abbrev pub registration_id_max : ℕ
registration_id_max = 16383

-- The bytes of an `IdentityPrivateKey` stand for it.
pub record IdentityKeyPair : Type 0 where
  pub public_key : Bytes
  pub private_key : Bytes
  pub ed25519_public_key : Bytes
  pub ed25519_private_key : Bytes
  pub registration_id : ℕ

pub record WrappedIdentityRecord : Type 0 where
  pub public_key : Bytes
  pub wrapped_private_key : Bytes
  pub ed25519_public_key : Bytes
  pub wrapped_ed25519_private_key : Bytes
  pub registration_id : ℕ

-- `starved` is no error of the code: the loop waits for a draw that the list does not have.
pub data IdentityError : Type 0 where
  unwrap_failed : IdentityError
  bad_private_key : IdentityError
  starved : IdentityError

abbrev pub identity_private_key : Bytes → Result IdentityError Bytes
identity_private_key bytes =
    if length bytes == identity_key_length then ok bytes else err bad_private_key

-- The 16-bit draws are the list; `& 0x3fff` keeps 14 bits.
unfoldable pub generate_registration_id : List ℕ → Option ℕ
generate_registration_id [] = none
generate_registration_id (draw ∷ draws) =
    let candidate = draw % 16384 in
    if leb registration_id_min candidate && leb candidate registration_id_max
    then some candidate
    else generate_registration_id draws

-- The random bytes of one first run.
pub record Draws : Type 0 where
  pub x25519 : Bytes
  pub ed25519 : Bytes
  pub registration : List ℕ

-- The stored record after a call, and what the call returned or threw.
pub record IdentityAnswer : Type 0 where
  pub stored : Option WrappedIdentityRecord
  pub result : Result IdentityError IdentityKeyPair

abbrev pub unwrapped : Option Bytes → Result IdentityError Bytes
unwrapped none = err unwrap_failed
unwrapped (some raw) = ok raw

module _ (c : Primitives) (g : Signing) (kek : Bytes) where
  unfoldable pub load_identity : WrappedIdentityRecord → Result IdentityError IdentityKeyPair
  load_identity w = do
    raw ← unwrapped (g.unwrap w.wrapped_private_key kek)
    raw_ed ← unwrapped (g.unwrap w.wrapped_ed25519_private_key kek)
    private_key ← identity_private_key raw
    ed25519_private_key ← identity_private_key raw_ed
    ok (record {
      public_key = w.public_key;
      private_key = private_key;
      ed25519_public_key = w.ed25519_public_key;
      ed25519_private_key = ed25519_private_key;
      registration_id = w.registration_id;
    })

  abbrev pub wrap_identity : Draws → ℕ → WrappedIdentityRecord
  wrap_identity draws id = record {
    public_key = c.public_key draws.x25519;
    wrapped_private_key = g.wrap draws.x25519 kek;
    ed25519_public_key = g.ed_public_key draws.ed25519;
    wrapped_ed25519_private_key = g.wrap draws.ed25519 kek;
    registration_id = id;
  }

  -- The record is saved before the key objects are made.
  unfoldable pub create_identity : Draws → IdentityAnswer
  create_identity draws = elim (generate_registration_id draws.registration) [
    | none ↦ record { stored = none; result = err starved }
    | some id ↦ record {
      stored = some (wrap_identity draws id);
      result = identity_private_key draws.x25519 >>= λ private_key.
          identity_private_key draws.ed25519 >>= λ ed25519_private_key. ok (record {
            public_key = c.public_key draws.x25519;
            private_key = private_key;
            ed25519_public_key = g.ed_public_key draws.ed25519;
            ed25519_private_key = ed25519_private_key;
            registration_id = id;
          });
    }
  ]

  unfoldable pub get_or_create_identity : Option WrappedIdentityRecord → Draws → IdentityAnswer
  get_or_create_identity none draws = create_identity draws
  get_or_create_identity (some w) draws = record { stored = some w; result = load_identity w }

  loads_back :
      (laws : SigningLaws g) (draws : Draws) (id : ℕ)
      → load_identity (wrap_identity draws id) ≡ (
          identity_private_key draws.x25519 >>= λ private_key.
          identity_private_key draws.ed25519 >>= λ ed25519_private_key. ok (record {
            public_key = c.public_key draws.x25519;
            private_key = private_key;
            ed25519_public_key = g.ed_public_key draws.ed25519;
            ed25519_private_key = ed25519_private_key;
            registration_id = id;
          }))
  unfolding load_identity
  loads_back laws draws id =
      ground (arith, laws.unwrap-wrap draws.x25519 kek, laws.unwrap-wrap draws.ed25519 kek)

  -- The first call makes the identity and any later call, whatever it draws, loads the same one and
  -- writes nothing.
  pub get_or_create_identity-again :
      (laws : SigningLaws g) (stored : Option WrappedIdentityRecord) (first later : Draws)
      → (id : ℕ) → generate_registration_id first.registration ≡ some id
      → let r = get_or_create_identity stored first in get_or_create_identity r.stored later ≡ r
  unfolding get_or_create_identity create_identity
  get_or_create_identity-again laws none first later id e =
      ground (arith, e, loads_back laws first id)
  get_or_create_identity-again laws (some w) first later id e = refl

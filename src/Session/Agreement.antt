-- ===== src/Session/Agreement.antt =====
-- packages/crypto/src/session.ts: the two sides of X3DH, and a conversation on their root keys.
use konvo_pro.Shared.{
  ◌≡◌, refl, sym, subst, arith, false, Option, none, some, List, map, length, ok, ◌>>=◌,
  Result-cases, inl, inr,
}
use konvo_pro.Crypto.{Bytes, Primitives, Laws, Signing}
use konvo_pro.Ratchet.State.{key_length, DecryptResult, plaintext, Thrown}
use konvo_pro.Ratchet.Keys.{Keypair}
use konvo_pro.Ratchet.Conversation.{
  Line, talk, talk_from_start, AreUsable, talk_from_start-delivers,
}
use konvo_pro.Ratchet.Send.{init_sender_ratchet, init_receiver_ratchet}
use konvo_pro.Session.Identity.{IdentityKeyPair}
use konvo_pro.Session.X3dh.{
  RemoteOneTimePreKey, RemotePreKeyBundle, SessionInit, EstablishedSession, sk_length, x3dh_salt,
  x3dh_info, concat_bytes, derive_session_key, dh, last_share, one_time_public, one_time_id,
  alice_shares, establish_session, bob_last_share, bob_shares, accept_session, is_present, xor,
}

-- The private keys behind a bundle.
pub record BobKeys : Type 0 where
  pub identity : IdentityKeyPair
  pub signed : Bytes
  pub one_time : Option Bytes

module _ (c : Primitives) where
  -- The bundle shows the public keys of those private keys.
  abbrev pub OneTimeFits : Option RemoteOneTimePreKey → Option Bytes → Type 0
  OneTimeFits none none = Unit
  OneTimeFits (some k) (some priv) = k.public_key ≡ c.public_key priv
  OneTimeFits none (some priv) = ⊥
  OneTimeFits (some k) none = ⊥

  pub record Fits (b : RemotePreKeyBundle) (keys : BobKeys) : Type 0 where
    pub identity : b.identity_pub ≡ c.public_key keys.identity.private_key
    pub signed : b.signed_pre_key.public_key ≡ c.public_key keys.signed
    pub one_time : OneTimeFits b.one_time_pre_key keys.one_time

module _ (c : Primitives) (laws : Laws c) where
  dh_agrees : (a b : Bytes) → dh c a (c.public_key b) ≡ dh c b (c.public_key a)
  unfolding dh
  dh_agrees a b = ground (arith, laws.agreement a b)

  last_agrees :
      (ephemeral : Bytes) (k : Option RemoteOneTimePreKey) (priv : Option Bytes)
      → OneTimeFits c k priv
      → last_share c ephemeral (one_time_public k) ≡ bob_last_share c priv (c.public_key ephemeral)
  unfolding last_share bob_last_share
  last_agrees ephemeral none none fits = refl
  last_agrees ephemeral (some k) (some priv) fits = ground (arith, fits, dh_agrees ephemeral priv)
  last_agrees ephemeral none (some priv) fits = elim fits [ ]
  last_agrees ephemeral (some k) none fits = elim fits [ ]

  presence_agrees :
      (k : Option RemoteOneTimePreKey) (priv : Option Bytes)
      → OneTimeFits c k priv
      → xor (is_present (one_time_id k)) (is_present priv) ≡ false
  presence_agrees none none fits = refl
  presence_agrees (some k) (some priv) fits = refl
  presence_agrees none (some priv) fits = elim fits [ ]
  presence_agrees (some k) none fits = elim fits [ ]

  shares_agree :
      (alice : IdentityKeyPair) (ephemeral : Bytes) (b : RemotePreKeyBundle) (keys : BobKeys)
      (init : SessionInit)
      → alice.public_key ≡ c.public_key alice.private_key
      → Fits c b keys
      → init.alice_identity_pub ≡ alice.public_key
      → init.ephemeral_pub ≡ c.public_key ephemeral
      → alice_shares c alice ephemeral b ≡ bob_shares c keys.identity keys.signed keys.one_time init
  unfolding alice_shares bob_shares
  shares_agree alice ephemeral b keys init own fits a e = ground (
    arith,
    own,
    fits.identity,
    fits.signed,
    a,
    e,
    dh_agrees alice.private_key keys.signed,
    dh_agrees ephemeral keys.identity.private_key,
    dh_agrees ephemeral keys.signed,
    last_agrees ephemeral b.one_time_pre_key keys.one_time fits.one_time,
  )

  -- What alice sends opens bob's side: whatever session establishSession returns for a bundle of
  -- bob's, acceptSession derives the same root key from its SessionInit and bob's private keys,
  -- with or without a one-time prekey.
  pub accept_session-establish_session :
      (g : Signing) (alice : IdentityKeyPair) (ephemeral : Bytes) (b : RemotePreKeyBundle)
      → (keys : BobKeys) (e : EstablishedSession)
      → alice.public_key ≡ c.public_key alice.private_key
      → Fits c b keys
      → establish_session c g alice ephemeral b ≡ ok e
      → accept_session c keys.identity keys.signed keys.one_time e.session_init ≡ ok e.root_key
  unfolding establish_session accept_session
  accept_session-establish_session g alice ephemeral b keys e own fits made =
      elim (Result-cases (alice_shares c alice ephemeral b)) [
        | inr (x, bad) ↦ absurd (ground (arith, made, bad))
        | inl (shares, derived) ↦
            let init : SessionInit = record {
              alice_identity_pub = alice.public_key;
              ephemeral_pub = c.public_key ephemeral;
              signed_pre_key_id = b.signed_pre_key.key_id;
              one_time_pre_key_id = one_time_id b.one_time_pre_key;
            } in
            let eqs : e ≡ record { root_key = derive_session_key c shares; session_init = init } =
              ground (arith, made, derived) in
            let same = shares_agree alice ephemeral b keys init own fits refl refl in
            let there : accept_session c keys.identity keys.signed keys.one_time init
                ≡ ok (derive_session_key c shares) =
              ground (
                arith,
                derived,
                same,
                presence_agrees b.one_time_pre_key keys.one_time fits.one_time,
              ) in
            subst
              (λ (x : EstablishedSession).
                accept_session c keys.identity keys.signed keys.one_time x.session_init
                ≡ ok x.root_key)
              (sym eqs) there
      ]

abbrev pub pre_key_pair : Primitives → Bytes → Keypair
pre_key_pair c priv = record { priv = priv; pub_key = c.public_key priv }

-- Alice begins on her root key and bob's signed prekey, bob on his root key and the pair of that
-- prekey.
pub talk_after :
    Primitives → Bytes → Bytes → Bytes → Bytes → Keypair → List Line → Thrown (List DecryptResult)
talk_after c random alice_root their_pub bob_root ours ls = do
  a ← init_sender_ratchet c random alice_root their_pub
  b ← init_receiver_ratchet bob_root ours
  talk c a b ls

module _ (c : Primitives) (laws : Laws c) where
  root_key-length :
      (g : Signing) (alice : IdentityKeyPair) (ephemeral : Bytes) (b : RemotePreKeyBundle)
      → (e : EstablishedSession) → establish_session c g alice ephemeral b ≡ ok e
      → length e.root_key ≡ 32
  unfolding establish_session derive_session_key
  root_key-length g alice ephemeral b e made =
      elim (Result-cases (alice_shares c alice ephemeral b)) [
        | inr (x, bad) ↦ absurd (ground (arith, made, bad))
        | inl (shares, derived) ↦ ground (
          arith,
          made,
          derived,
          laws.length-hkdf (concat_bytes shares) x3dh_salt x3dh_info sk_length,
        )
      ]

  -- From X3DH to plaintext: on the root keys that establishSession and acceptSession derive, the two
  -- ratchets deliver a conversation of any length in turns, if alice opens on the signed prekey of
  -- the bundle and bob on the pair of that prekey. (The X25519 secrets of the turns exist, and no
  -- fresh public key is the one before.)
  pub establish_session-delivers :
      (g : Signing) (alice : IdentityKeyPair) (ephemeral : Bytes) (b : RemotePreKeyBundle)
      → (keys : BobKeys) (e : EstablishedSession)
      → alice.public_key ≡ c.public_key alice.private_key
      → Fits c b keys
      → establish_session c g alice ephemeral b ≡ ok e
      → length keys.signed ≡ key_length
      → (random secret : Bytes) (ls : List Line)
      → c.shared_secret random (c.public_key keys.signed) ≡ some secret
      → AreUsable c (c.public_key random) (c.public_key keys.signed) ls
      → (root : Bytes) × (accept_session c keys.identity keys.signed keys.one_time e.session_init
          ≡ ok root)
        × (talk_after c random e.root_key b.signed_pre_key.public_key root
              (pre_key_pair c keys.signed)
              ls
            ≡ ok (map (λ l. plaintext l.text) ls))
  unfolding talk_after talk_from_start
  establish_session-delivers g alice ephemeral b keys e own fits made long random secret ls agrees
        usable =
      let talked =
        talk_from_start-delivers c laws random e.root_key keys.signed secret ls
          (root_key-length g alice ephemeral b e made) long agrees usable in
      (
        e.root_key,
        accept_session-establish_session c laws g alice ephemeral b keys e own fits made,
        subst
            (λ (p : Bytes).
              talk_after c random e.root_key p e.root_key (pre_key_pair c keys.signed) ls
              ≡ ok (map (λ l. plaintext l.text) ls))
            (sym fits.signed) talked,
      )

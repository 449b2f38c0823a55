-- ===== src/Tests/Session.antt =====
-- The theorems on identities, prekeys and X3DH on toy primitives and the Dexie store.
use konvo_pro.Shared.{
  ℕ, ◌+◌, ◌≡◌, ◌≢◌, ◌<◌, refl, arith, false, Option, none, some, List, [], ◌∷◌, map, replicate, ok,
  err, ◌⊎◌,
}
use konvo_pro.Crypto.{Bytes}
use konvo_pro.Crypto.Toy.{toy, toy-Laws, toy_signing, toy_signing-Laws}
use konvo_pro.Ratchet.State.{bytes_equal, plaintext}
use konvo_pro.Ratchet.Conversation.{Line, AreUsable}
use konvo_pro.Session.Identity.{
  IdentityKeyPair, Draws, generate_registration_id, create_identity, get_or_create_identity,
}
use konvo_pro.Session.X3dh.{
  RemotePreKeyBundle, EstablishedSession, concat_bytes, derive_session_key, dh, last_share,
  alice_shares, establish_session, accept_session,
}
use konvo_pro.Session.Agreement.{
  BobKeys, Fits, accept_session-establish_session, talk_after, pre_key_pair,
  establish_session-delivers,
}
use konvo_pro.Session.PreKeys.{SignedPreKeyRecord, Supply, store_not_empty, generate_initial_bundle}
use konvo_pro.Session.Minting.{IsBundle, generate_initial_bundle-fills}
use konvo_pro.Session.Dexie.{
  PreKeyRow, signed, dexie, list_unused_one_time_pre_key_count, newest_signed,
  get_current_signed_pre_key,
}
use konvo_pro.Session.Stored.{dexie-Laws}
use konvo_pro.Session.Upkeep.{Device, Attempt, check_and_replenish_opks}
use konvo_pro.Session.Retries.{IsSent, check_and_replenish_opks-once}

abbrev key : ℕ → Bytes
key b = replicate 32 b

abbrev kek : Bytes
kek = key 77

abbrev draws : Draws
draws = record { x25519 = key 1; ed25519 = key 2; registration = 16384 ∷ 5 ∷ [] }

abbrev alice : IdentityKeyPair
alice = record {
  public_key = toy.public_key (key 1);
  private_key = key 1;
  ed25519_public_key = toy_signing.ed_public_key (key 2);
  ed25519_private_key = key 2;
  registration_id = 5;
}

abbrev bob : IdentityKeyPair
bob = record {
  public_key = toy.public_key (key 9);
  private_key = key 9;
  ed25519_public_key = toy_signing.ed_public_key (key 10);
  ed25519_private_key = key 10;
  registration_id = 6;
}

abbrev bundle : RemotePreKeyBundle
bundle = record {
  recipient_device_id = [];
  identity_pub = bob.public_key;
  identity_ed_pub = bob.ed25519_public_key;
  registration_id = 6;
  signed_pre_key = record {
    key_id = 1;
    public_key = toy.public_key (key 4);
    signature = toy_signing.sign (toy.public_key (key 4)) (key 10);
    created_at = 0;
  };
  one_time_pre_key = some (record { key_id = 3; public_key = toy.public_key (key 11) });
}

abbrev bob_keys : BobKeys
bob_keys = record { identity = bob; signed = key 4; one_time = some (key 11) }

bundle-Fits : Fits toy bundle bob_keys
bundle-Fits = record { identity = refl; signed = refl; one_time = refl }

session : EstablishedSession
unfolding establish_session
session = elim (establish_session toy toy_signing alice (key 12) bundle) [
  | ok e ↦ e
  | err x ↦ record {
    root_key = [];
    session_init = record {
      alice_identity_pub = [];
      ephemeral_pub = [];
      signed_pre_key_id = 0;
      one_time_pre_key_id = none;
    };
  }
]

session_made : establish_session toy toy_signing alice (key 12) bundle ≡ ok session
unfolding session establish_session alice_shares dh last_share derive_session_key concat_bytes
session_made = refl

accept_session-establish_session_example :
    accept_session toy bob (key 4) (some (key 11)) session.session_init ≡ ok session.root_key
accept_session-establish_session_example =
    accept_session-establish_session toy toy-Laws toy_signing alice (key 12) bundle bob_keys session
      refl bundle-Fits session_made

abbrev lines : List Line
lines =
    record { random = key 6; text = 104 ∷ 105 ∷ [] }
    ∷ record { random = key 7; text = 121 ∷ 111 ∷ [] }
    ∷ []

usable : AreUsable toy (toy.public_key (key 3)) (toy.public_key (key 4)) lines
unfolding bytes_equal
usable = (
  record { secret = _; agrees = refl; fresh = refl },
  (record { secret = _; agrees = refl; fresh = refl }, tt),
)

establish_session-delivers_example :
    (root : Bytes) × (accept_session toy bob (key 4) (some (key 11)) session.session_init ≡ ok root)
    × (talk_after toy
          (key 3)
          session.root_key
          (toy.public_key (key 4))
          root
          (pre_key_pair toy (key 4))
          lines
        ≡ ok (map (λ l. plaintext l.text) lines))
establish_session-delivers_example =
    establish_session-delivers toy toy-Laws toy_signing alice (key 12) bundle bob_keys session refl
      bundle-Fits session_made refl (key 3) _ lines refl usable

abbrev supply : Supply
supply = record { random = λ i. key (20 + i); clock = λ i. 5000 + i }

abbrev rows : List PreKeyRow
rows =
    record {
      key_type = signed;
      key_id = 1;
      public_key = toy.public_key (key 4);
      wrapped_private_key = key 4;
      signature = some (toy_signing.sign (toy.public_key (key 4)) (key 10));
      created_at = 100;
      used = false;
    }
    ∷ []

no_opk : dexie.unused_count rows ≡ 0
unfolding list_unused_one_time_pre_key_count
no_opk = refl

empty_has_none : dexie.current_signed [] ≡ ok none
unfolding get_current_signed_pre_key newest_signed
empty_has_none = refl

generate_initial_bundle-fills_example :
    let r = generate_initial_bundle toy toy_signing kek dexie supply bob [] in
    ((◌≡◌ {A = Option SignedPreKeyRecord} none none)
      × (dexie.unused_count [] ≡ 0)
      × IsBundle toy toy_signing kek dexie [] r)
    ⊎ (((◌≢◌ {A = Option SignedPreKeyRecord} none none) ⊎ (0 < dexie.unused_count []))
        × (r ≡ record { store = []; result = err store_not_empty }))
generate_initial_bundle-fills_example =
    generate_initial_bundle-fills toy toy_signing kek dexie dexie-Laws supply toy_signing-Laws bob
      [] none refl empty_has_none

abbrev device : Device (List PreKeyRow)
device = record { identity = none; keys = rows; storage = some none }

abbrev failing : Attempt
failing = record { draws = draws; supply = supply; uploads = false }

identity_loads :
    (get_or_create_identity toy toy_signing kek device.identity draws).result ≡ ok alice
unfolding get_or_create_identity create_identity generate_registration_id
identity_loads = refl

check_and_replenish_opks-once_example :
    let next = (check_and_replenish_opks toy toy_signing kek dexie 2 3 device failing).device in
    IsSent toy toy_signing kek dexie 2 3 device failing
    × (check_and_replenish_opks toy toy_signing kek dexie 2 3 next failing
        ≡ record { device = next; sent = none; result = ok 0 })
check_and_replenish_opks-once_example =
    check_and_replenish_opks-once toy toy_signing kek dexie dexie-Laws 2 3 (omega arith) device
      failing alice (omega (arith, no_opk)) identity_loads failing

-- ===== src/Ratchet/Conversation.antt =====
-- A conversation in turns, from `initSenderRatchet` and `initReceiverRatchet` on.
use mathlib.Core.Path.{subst₂}
use konvo_pro.Shared.{
  ◌≤◌, ◌≡◌, refl, ap, sym, subst, ◌∙◌, false, none, some, List, [], ◌∷◌, map, arith, length, ok,
  ◌>>=◌,
}
use konvo_pro.Crypto.{Bytes, Primitives, Laws}
use konvo_pro.Ratchet.State.{
  key_length, RatchetState, DecryptResult, plaintext, Thrown, bytes_equal,
}
use konvo_pro.Ratchet.Keys.{
  RootStep, Keypair, root_kdf, shared, dh_ratchet_receive_step, generate_ratchet_keypair,
}
use konvo_pro.Ratchet.Chain.{chain_key_at, Between, end}
use konvo_pro.Ratchet.Send.{init_sender_ratchet, init_receiver_ratchet, encrypt_to_device}
use konvo_pro.Ratchet.Receive.{decrypt_from_device}
use konvo_pro.Ratchet.Steps.{inbound}
use konvo_pro.Ratchet.Sending.{Sends, SentBy, encrypt-genuine}
use konvo_pro.Ratchet.Turns.{Turn, TurnTaken, turn-opens}

-- One message: the receiver's random bytes, and the text.
pub record Line : Type 0 where
  pub random : Bytes
  pub text : Bytes

-- `a` sends the first line, `b` the second, and so on.
unfoldable pub talk :
    Primitives → RatchetState → RatchetState → List Line → Thrown (List DecryptResult)
talk c a b [] = ok []
talk c a b (l ∷ ls) = do
  sent ← encrypt_to_device c a l.text
  r ← decrypt_from_device c l.random b sent.ciphertext (inbound sent.header)
  results ← talk c r.state sent.state ls
  ok (r.result ∷ results)

-- Both parties open with `initSenderRatchet` and `initReceiverRatchet` on one root key.
unfoldable pub talk_from_start :
    Primitives → Bytes → Bytes → Keypair → List Line → Thrown (List DecryptResult)
talk_from_start c random root_key ours ls = do
  a ← init_sender_ratchet c random root_key ours.pub_key
  b ← init_receiver_ratchet root_key ours
  talk c a b ls

module _ (c : Primitives) where
  pub record IsUsable (a_pub b_pub : Bytes) (l : Line) : Type 0 where
    pub secret : Bytes
    pub agrees : c.shared_secret l.random a_pub ≡ some secret
    pub fresh : bytes_equal b_pub (c.public_key l.random) ≡ false

  -- X25519 accepts each fresh key, and no party draws the key again that it replaces.
  abbrev pub AreUsable : Bytes → Bytes → List Line → Type 0
  AreUsable a_pub b_pub [] = Unit
  AreUsable a_pub b_pub (l ∷ ls) =
      IsUsable a_pub b_pub l × AreUsable (c.public_key l.random) a_pub ls

module _ (c : Primitives) (laws : Laws c) where
  pub record Ready (k0 : Bytes) (a b : RatchetState) : Type 0 where
    pub turn : Turn c k0 a b
    pub sends : Sends c laws k0 a
    pub starts : a.sending_message_number ≡ 0
    pub read : a.previous_sending_chain_length ≤ b.receiving_message_number
    pub answered : b.sending_message_number ≤ a.receiving_message_number
    pub few : b.sending_message_number ≤ 1
    pub a_empty : a.skipped_keys ≡ []
    pub b_empty : b.skipped_keys ≡ []

  -- The roles swap.
  next_turn :
      (k0 : Bytes) (a b : RatchetState) (l : Line)
      → Ready k0 a b
      → IsUsable c a.sending_dh_pub b.sending_dh_pub l
      → (by : SentBy c laws k0 a l.text)
      → (t : TurnTaken c laws l.random k0 a b by.sent.header by.sent.ciphertext l.text)
      → Ready t.k1 t.next by.sent.state
  next_turn k0 a b l ready u by t =
      let kept_priv = ap (λ (x : RatchetState). x.sending_dh_priv) by.rest in
      let kept_root = ap (λ (x : RatchetState). x.root_key) by.rest in
      let kept_peer : by.sent.state.receiving_dh_pub ≡ some b.sending_dh_pub =
        ap (λ (x : RatchetState). x.receiving_dh_pub) by.rest ∙ ready.turn.knows in
      let kept_keys : by.sent.state.skipped_keys ≡ [] =
        ap (λ (x : RatchetState). x.skipped_keys) by.rest ∙ ready.a_empty in
      let kept_count = ap (λ (x : RatchetState). x.receiving_message_number) by.rest in
      record {
        turn = record {
          a_pair = t.pair;
          b_pair = by.same ∙ ready.turn.a_pair ∙ ap c.public_key (sym kept_priv);
          knows = t.a_known ∙ ap some (sym by.same);
          unseen = rw (kept_peer, t.fresh) u.fresh;
          reaches =
              subst₂
                (λ r p.
                  dh_ratchet_receive_step c r p t.next.sending_dh_pub
                  ≡ ok (record { new_root_key = t.next.root_key; new_chain_key = t.k1 }))
                (sym kept_root) (sym kept_priv) t.reaches;
          unstored =
              subst (Between c t.next.sending_dh_pub t.k1 0 0) (sym kept_keys) (end (omega arith));
        };
        sends = t.sends;
        starts = t.restarts;
        read = omega (arith, t.previous, ready.answered, kept_count);
        answered = omega (arith, by.count, t.behind, by.number);
        few = omega (arith, by.count, ready.starts);
        a_empty =
            t.unskipped (omega (arith, by.previous, ready.read)) (by.number ∙ ready.starts)
            ∙ ready.b_empty;
        b_empty = kept_keys;
      }

  talk-Ready :
      (k0 : Bytes) (a b : RatchetState) (ls : List Line)
      → Ready k0 a b
      → AreUsable c a.sending_dh_pub b.sending_dh_pub ls
      → talk c a b ls ≡ ok (map (λ l. plaintext l.text) ls)
  unfolding talk
  talk-Ready k0 a b [] ready usable = refl
  talk-Ready k0 a b (l ∷ ls) ready usable =
      let by = encrypt-genuine c laws k0 a l.text ready.sends (omega (arith, ready.starts)) in
      let u = usable.0 in
      let t =
        turn-opens c laws l.random k0 a b by.sent.header by.sent.ciphertext l.text ready.turn
          by.genuine by.from u.secret u.agrees (omega (arith, by.previous, ready.read))
          (omega (arith, by.number, ready.starts)) (omega (arith, ready.few)) in
      rw (by.answer, t.answer)
        (rw (
          talk-Ready t.k1 t.next by.sent.state ls (next_turn k0 a b l ready u by t) (
            subst (λ p. AreUsable c p by.sent.state.sending_dh_pub ls) (sym t.fresh)
              (subst (λ p. AreUsable c (c.public_key l.random) p ls) (sym by.same) usable.1))))

  module _ (random root_key priv secret : Bytes) where
    abbrev first_step : RootStep
    first_step = root_kdf c root_key secret

    abbrev sender_start : RatchetState
    sender_start = record {
      root_key = first_step.new_root_key;
      sending_dh_priv = random;
      sending_dh_pub = c.public_key random;
      receiving_dh_pub = some (c.public_key priv);
      sending_chain_key = some first_step.new_chain_key;
      receiving_chain_key = none;
      sending_message_number = 0;
      receiving_message_number = 0;
      previous_sending_chain_length = 0;
      skipped_keys = [];
    }

    abbrev receiver_start : RatchetState
    receiver_start = record {
      root_key = root_key;
      sending_dh_priv = priv;
      sending_dh_pub = c.public_key priv;
      receiving_dh_pub = none;
      sending_chain_key = none;
      receiving_chain_key = none;
      sending_message_number = 0;
      receiving_message_number = 0;
      previous_sending_chain_length = 0;
      skipped_keys = [];
    }

    abbrev pub keypair : Keypair
    keypair = record { priv = priv; pub_key = c.public_key priv }

    module _ (root_ok : length root_key ≡ 32) where
      init_sender-starts :
          c.shared_secret random (c.public_key priv) ≡ some secret
          → init_sender_ratchet c random root_key (c.public_key priv) ≡ ok sender_start
      unfolding init_sender_ratchet generate_ratchet_keypair shared
      init_sender-starts agrees = ground (arith, laws.length-public_key priv)

      init_receiver-starts :
          length priv ≡ key_length → init_receiver_ratchet root_key keypair ≡ ok receiver_start
      unfolding init_receiver_ratchet
      init_receiver-starts priv_ok = ground (arith, laws.length-public_key priv)

    start-Ready :
        c.shared_secret random (c.public_key priv) ≡ some secret
        → Ready first_step.new_chain_key sender_start receiver_start
    unfolding chain_key_at dh_ratchet_receive_step shared
    start-Ready agrees =
        let swapped : c.shared_secret priv (c.public_key random) ≡ some secret =
          laws.agreement priv random ∙ agrees in
        record {
          turn = record {
            a_pair = refl;
            b_pair = refl;
            knows = refl;
            unseen = refl;
            reaches = rw (swapped, shared);
            unstored = end (omega arith);
          };
          sends = record {
            chain = refl;
            pub_key = laws.length-public_key random;
            previous = omega arith;
          };
          starts = refl;
          read = omega arith;
          answered = omega arith;
          few = omega arith;
          a_empty = refl;
          b_empty = refl;
        }

    -- From the states that `initSenderRatchet` and `initReceiverRatchet` make of one root key of 32
    -- bytes and a key pair of the right length, a conversation of any length in turns gives every
    -- text: no call throws, and each line is opened by the other side. (The X25519 secret exists at
    -- the start and at each turn, and no fresh public key is the one before.)
    pub talk_from_start-delivers :
        (ls : List Line)
        → length root_key ≡ 32
        → length priv ≡ key_length
        → c.shared_secret random (c.public_key priv) ≡ some secret
        → AreUsable c (c.public_key random) (c.public_key priv) ls
        → talk_from_start c random root_key keypair ls ≡ ok (map (λ l. plaintext l.text) ls)
    unfolding talk_from_start
    talk_from_start-delivers ls root_ok priv_ok agrees usable =
        rw (init_sender-starts root_ok agrees) (
          rw (init_receiver-starts root_ok priv_ok) (
            talk-Ready first_step.new_chain_key sender_start receiver_start ls (start-Ready agrees)
              usable))

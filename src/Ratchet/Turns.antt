-- ===== src/Ratchet/Turns.antt =====
-- The DH ratchet: how the two sides agree on a new chain when the direction changes.
use konvo_pro.Shared.{◌+◌, ◌≤◌, ◌≡◌, refl, ap, sym, subst, ◌∙◌, false, some, List, arith, ok}
use konvo_pro.Crypto.{Bytes, Primitives, Laws}
use konvo_pro.Ratchet.State.{
  max_skipped_keys, SkippedKey, RatchetState, RatchetMessageHeader, plaintext,
}
use konvo_pro.Ratchet.Keys.{
  RootStep, root_kdf, shared, dh_ratchet_receive_step, generate_ratchet_keypair,
}
use konvo_pro.Ratchet.Chain.{chain_key_at, Between, find_skipped-above}
use konvo_pro.Ratchet.Receive.{
  is_some_bytes, finish_old_chain, dh_ratchet, open_new_chain, decrypt_new_chain, decrypt_valid,
  decrypt_from_device,
}
use konvo_pro.Ratchet.OldChain.{skip_keys-none, finish_old_chain-same, finish_old_chain-closes}
use konvo_pro.Ratchet.Steps.{
  inbound, Genuine, Follows, passed, passed-Follows, walk-opens, decrypt-inbound,
}
use konvo_pro.Ratchet.Sending.{Sends}

module _ (c : Primitives) where
  -- `a` sends on a chain `k0` that `b` reaches by one step of its DH ratchet, and has not taken yet.
  pub record Turn (k0 : Bytes) (a b : RatchetState) : Type 0 where
    pub a_pair : a.sending_dh_pub ≡ c.public_key a.sending_dh_priv
    pub b_pair : b.sending_dh_pub ≡ c.public_key b.sending_dh_priv
    pub knows : a.receiving_dh_pub ≡ some b.sending_dh_pub
    pub unseen : is_some_bytes b.receiving_dh_pub a.sending_dh_pub ≡ false
    pub reaches :
        dh_ratchet_receive_step c b.root_key b.sending_dh_priv a.sending_dh_pub
        ≡ ok (record { new_root_key = a.root_key; new_chain_key = k0 })
    pub unstored : Between c a.sending_dh_pub k0 0 0 b.skipped_keys

  abbrev sending_step : RatchetState → Bytes → RootStep
  sending_step a secret = root_kdf c a.root_key secret

  -- `b` after both halves of the ratchet, with a fresh key from `random`.
  abbrev turned :
      Bytes → RatchetState → RatchetState → Bytes → Bytes → List SkippedKey → RatchetState
  turned random a b k0 secret skipped = record {
    root_key = (sending_step a secret).new_root_key;
    sending_dh_priv = random;
    sending_dh_pub = c.public_key random;
    receiving_dh_pub = some a.sending_dh_pub;
    sending_chain_key = some (sending_step a secret).new_chain_key;
    receiving_chain_key = some k0;
    sending_message_number = 0;
    receiving_message_number = 0;
    previous_sending_chain_length = b.sending_message_number;
    skipped_keys = skipped;
  }

  dh_ratchet-turned :
      (random k0 secret : Bytes) (a b : RatchetState) (skipped : List SkippedKey)
      → Turn k0 a b
      → c.shared_secret random a.sending_dh_pub ≡ some secret
      → dh_ratchet c random b skipped a.sending_dh_pub
        ≡ ok (record { next = turned random a b k0 secret skipped; chain_key = k0 })
  unfolding dh_ratchet generate_ratchet_keypair shared
  dh_ratchet-turned random k0 secret a b skipped t e = rw (t.reaches, e, shared)

module _ (c : Primitives) (laws : Laws c) where
  -- The other side's view: the step that `a` will take on the fresh key gives `b`'s sending chain.
  turned-reaches :
      (random k0 secret : Bytes) (a b : RatchetState) (skipped : List SkippedKey)
      → Turn c k0 a b
      → c.shared_secret random a.sending_dh_pub ≡ some secret
      → dh_ratchet_receive_step c a.root_key a.sending_dh_priv (c.public_key random)
        ≡ ok (record {
          new_root_key = (root_kdf c a.root_key secret).new_root_key;
          new_chain_key = (root_kdf c a.root_key secret).new_chain_key;
        })
  unfolding dh_ratchet_receive_step shared
  turned-reaches random k0 secret a b skipped t e =
      let same : c.shared_secret a.sending_dh_priv (c.public_key random) ≡ some secret =
        laws.agreement a.sending_dh_priv random ∙ ap (c.shared_secret random) (sym t.a_pair) ∙ e in
      rw (same, shared, dh_ratchet_receive_step)

  -- What the first message of a turn does to its receiver.
  pub record TurnTaken (random k0 : Bytes) (a b : RatchetState) (h : RatchetMessageHeader)
      (ciphertext text : Bytes) : Type 0 where
    pub next : RatchetState
    pub answer :
        decrypt_from_device c random b ciphertext (inbound h)
        ≡ ok (record { state = next; result = plaintext text })
    pub follows : Follows c laws a.sending_dh_pub k0 next
    pub behind : next.receiving_message_number ≡ h.message_number + 1
    pub k1 : Bytes
    pub sends : Sends c laws k1 next
    pub restarts : next.sending_message_number ≡ 0
    pub previous : next.previous_sending_chain_length ≡ b.sending_message_number
    pub fresh : next.sending_dh_pub ≡ c.public_key random
    pub reaches :
        dh_ratchet_receive_step c a.root_key a.sending_dh_priv next.sending_dh_pub
        ≡ ok (record { new_root_key = next.root_key; new_chain_key = k1 })
    pub a_known : next.receiving_dh_pub ≡ some a.sending_dh_pub
    pub pair : next.sending_dh_pub ≡ c.public_key next.sending_dh_priv
    pub unskipped :
        h.prev_chain_length ≤ b.receiving_message_number
        → h.message_number ≡ 0
        → next.skipped_keys ≡ b.skipped_keys

  module _ (random k0 : Bytes) (a b : RatchetState) (h : RatchetMessageHeader)
      (ciphertext text : Bytes) (turn : Turn c k0 a b)
      (genuine : Genuine c laws k0 h ciphertext text) (from : h.dh_pub ≡ a.sending_dh_pub) where
    -- The message goes to the new-chain path, and is opened there.
    new_chain-opens :
        (skipped : List SkippedKey) (secret : Bytes)
        → c.shared_secret random a.sending_dh_pub ≡ some secret
        → finish_old_chain c b h.prev_chain_length ≡ some skipped
        → Between c h.dh_pub k0 0 0 skipped
        → h.message_number ≤ max_skipped_keys
        → decrypt_from_device c random b ciphertext (inbound h)
          ≡ ok (record {
            state = passed c laws (turned c random a b k0 secret skipped) 0 h.message_number k0 h;
            result = plaintext text;
          })
    unfolding decrypt_valid decrypt_new_chain open_new_chain chain_key_at
    new_chain-opens skipped secret e closed unstored fits =
        rw (decrypt-inbound c random b ciphertext h genuine.range) (
          ground (
            arith,
            genuine.header,
            find_skipped-above c h.message_number turn.unstored (omega arith),
            turn.unseen,
            closed,
            from,
            dh_ratchet-turned c random k0 secret a b skipped turn e,
            walk-opens c laws k0 h ciphertext text genuine (turned c random a b k0 secret skipped) 0
                h.message_number (omega arith) unstored b,
          ))

    -- The first message of a peer's new chain is opened, the receiver follows that chain, and its own
    -- fresh chain is the one that the peer reaches by one step; where at most `MAX_SKIPPED_KEYS` keys
    -- are missing on the old chain and on the new one, the counters fit 32 bits, and the X25519
    -- secret exists.
    pub turn-opens :
        (secret : Bytes)
        → c.shared_secret random a.sending_dh_pub ≡ some secret
        → h.prev_chain_length ≤ b.receiving_message_number + max_skipped_keys
        → h.message_number ≤ max_skipped_keys
        → b.sending_message_number ≤ 0xffffffff
        → TurnTaken random k0 a b h ciphertext text
    unfolding passed chain_key_at
    turn-opens secret e left fits small =
        let (skipped, closed, unstored) =
          finish_old_chain-closes c b h.prev_chain_length a.sending_dh_pub k0 left turn.unseen
            turn.unstored in
        let unstored' = subst (λ p. Between c p k0 0 0 skipped) (sym from) unstored in
        let taken = turned c random a b k0 secret skipped in
        record {
          next = passed c laws taken 0 h.message_number k0 h;
          answer = new_chain-opens skipped secret e closed unstored' fits;
          follows =
              subst (λ p. Follows c laws p k0 (passed c laws taken 0 h.message_number k0 h)) from
                (passed-Follows c laws k0 h ciphertext text genuine taken 0 h.message_number
                  (omega arith) unstored' (ap some (sym from)));
          behind = refl;
          k1 = (root_kdf c a.root_key secret).new_chain_key;
          sends = record {
            chain = refl;
            pub_key = laws.length-public_key random;
            previous = small;
          };
          restarts = refl;
          previous = refl;
          fresh = refl;
          reaches = turned-reaches random k0 secret a b skipped turn e;
          a_known = refl;
          pair = refl;
          unskipped = λ all_read first.
              skip_keys-none c h.dh_pub 0 h.message_number k0 skipped first
              ∙ (cc (closed, finish_old_chain-same c b h.prev_chain_length all_read));
        }

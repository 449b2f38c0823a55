-- ===== src/Ratchet/Steps.antt =====
-- How `decryptFromDevice` answers a genuine message of the current receiving chain, on each branch.
use konvo_pro.Shared.{ℕ, ◌+◌, ◌-◌, ◌≤◌, ◌<◌, ◌≡◌, refl, none, some, arith, length, ok, int, pos}
use konvo_pro.Crypto.{Bytes, Primitives, Laws}
use konvo_pro.Ratchet.State.{
  max_skipped_keys, key_length, RatchetState, RatchetMessageHeader, InboundHeader, plaintext,
  duplicate, bytes_equal_refl,
}
use konvo_pro.Ratchet.Keys.{serialize_header, seal, unseal}
use konvo_pro.Ratchet.Skipped.{Found, find_skipped, skip_keys}
use konvo_pro.Ratchet.Chain.{
  chain_key_at, chain_key_at-add_one, message_key_at, Between, Between-raise, skip_keys-Between,
  find_skipped-above, find_skipped-IsTaken,
}
use konvo_pro.Ratchet.Receive.{
  validate_header, advance_past_loss_threshold, walk_and_open, decrypt_same_chain, open_skipped,
  decrypt_valid, decrypt_from_device,
}

-- A sent header, as it arrives unchanged.
abbrev pub inbound : RatchetMessageHeader → InboundHeader
inbound h = record {
  dh_pub = h.dh_pub;
  prev_chain_length = int (pos h.prev_chain_length);
  message_number = int (pos h.message_number);
}

pub record InRange (h : RatchetMessageHeader) : Type 0 where
  pub pub_key : length h.dh_pub ≡ key_length
  pub number : h.message_number ≤ 0xffffffff
  pub previous : h.prev_chain_length ≤ 0xffffffff

pub validate_header-inbound :
    (h : RatchetMessageHeader) → InRange h → validate_header (inbound h) ≡ ok h
unfolding validate_header
validate_header-inbound h r = ground arith

module _ (c : Primitives) where
  -- The range checks pass a header that was sent.
  pub decrypt-inbound :
      (random : Bytes) (s : RatchetState) (ciphertext : Bytes) (h : RatchetMessageHeader)
      → InRange h
      → decrypt_from_device c random s ciphertext (inbound h)
        ≡ decrypt_valid c random s ciphertext h
  unfolding decrypt_from_device
  decrypt-inbound random s ciphertext h r = rw (validate_header-inbound h r)

module _ (c : Primitives) (laws : Laws c) where
  pub unseal-seal : (key aad text : Bytes) → unseal c key aad (seal c key aad text) ≡ some text
  unfolding seal unseal
  unseal-seal key aad text = laws.decrypt-encrypt _ _ aad text

  -- `ciphertext` is the message that stands at its header's position of the chain `k0`.
  pub record Genuine (k0 : Bytes) (h : RatchetMessageHeader) (ciphertext text : Bytes)
      : Type 0 where
    pub range : InRange h
    pub aad : Bytes
    pub header : serialize_header h ≡ ok aad
    pub sealed : ciphertext ≡ seal c (message_key_at c h.message_number k0) aad text

  -- The receiver's state agrees with the chain `k0` of the sender's key `dh_pub`.
  pub record Follows (dh_pub k0 : Bytes) (s : RatchetState) : Type 0 where
    pub receiving : s.receiving_dh_pub ≡ some dh_pub
    pub chain : s.receiving_chain_key ≡ some (chain_key_at c s.receiving_message_number k0)
    pub stored : Between c dh_pub k0 0 s.receiving_message_number s.skipped_keys

  -- The candidate state after a walk of `count` positions from `n` and the message itself.
  unfoldable pub passed : RatchetState → ℕ → ℕ → Bytes → RatchetMessageHeader → RatchetState
  passed next n count k0 h =
      let walk = skip_keys c h.dh_pub n count (chain_key_at c n k0) next.skipped_keys in
      record next {
        receiving_chain_key = some (chain_key_at c (h.message_number + 1) k0);
        receiving_message_number = h.message_number + 1;
        skipped_keys = walk.skipped;
      }

  module _ (k0 : Bytes) (h : RatchetMessageHeader) (ciphertext text : Bytes)
      (genuine : Genuine k0 h ciphertext text) where
    module _ (next : RatchetState) (n count : ℕ) (e : n + count ≡ h.message_number)
        (stored : Between c h.dh_pub k0 0 n next.skipped_keys) where
      pub walk-opens :
          (s : RatchetState)
          → walk_and_open c s next count (chain_key_at c n k0) n h genuine.aad ciphertext
            ≡ record { state = passed next n count k0 h; result = plaintext text }
      unfolding walk_and_open passed
      walk-opens s =
          let w = skip_keys-Between c n count h.message_number 0 next.skipped_keys e stored in
          rw (w.0, genuine.sealed, unseal-seal, chain_key_at-add_one) refl

      pub passed-Follows :
          next.receiving_dh_pub ≡ some h.dh_pub → Follows h.dh_pub k0 (passed next n count k0 h)
      unfolding passed
      passed-Follows at = record {
        receiving = at;
        chain = refl;
        stored =
            Between-raise c _
              (skip_keys-Between c n count h.message_number 0 next.skipped_keys e stored).1
              (omega arith);
      }

      pub find_skipped-passed :
          find_skipped h.dh_pub h.message_number (passed next n count k0 h).skipped_keys ≡ none
      unfolding passed
      find_skipped-passed =
          find_skipped-above c h.message_number
            (skip_keys-Between c n count h.message_number 0 next.skipped_keys e stored).1
            (omega arith)

    module _ (random : Bytes) (s : RatchetState) (follows : Follows h.dh_pub k0 s) where
      pub skipped-opens :
          (f : Found)
          → find_skipped h.dh_pub h.message_number s.skipped_keys ≡ some f
          → decrypt_from_device c random s ciphertext (inbound h)
            ≡ ok (record { state = record s { skipped_keys = f.others }; result = plaintext text })
      unfolding decrypt_valid open_skipped
      skipped-opens f found =
          let t = find_skipped-IsTaken c h.message_number follows.stored found in
          rw (decrypt-inbound c random s ciphertext h genuine.range) (
            rw (
              genuine.header, found, decrypt_valid, genuine.sealed, t.key, unseal-seal,
              open_skipped,
            ))

      -- With no stored key the message goes to the current chain.
      same_chain_valid :
          find_skipped h.dh_pub h.message_number s.skipped_keys ≡ none
          → decrypt_from_device c random s ciphertext (inbound h)
            ≡ ok (decrypt_same_chain c s ciphertext h genuine.aad)
      unfolding decrypt_valid
      same_chain_valid missing = rw (decrypt-inbound c random s ciphertext h genuine.range) (
          rw (genuine.header, missing, decrypt_valid, follows.receiving, bytes_equal_refl h.dh_pub))

      pub ahead-opens :
          find_skipped h.dh_pub h.message_number s.skipped_keys ≡ none
          → s.receiving_message_number ≤ h.message_number
          → h.message_number ≤ s.receiving_message_number + max_skipped_keys
          → decrypt_from_device c random s ciphertext (inbound h)
            ≡ ok (record {
              state =
                  passed s s.receiving_message_number
                    (h.message_number - s.receiving_message_number)
                    k0
                    h;
              result = plaintext text;
            })
      unfolding decrypt_same_chain
      ahead-opens missing le fits =
          let n = s.receiving_message_number in
          let count = h.message_number - n in
          ground (
            arith,
            same_chain_valid missing,
            follows.chain,
            walk-opens s n count (omega arith) follows.stored s,
          )

      pub spent-duplicate :
          find_skipped h.dh_pub h.message_number s.skipped_keys ≡ none
          → h.message_number < s.receiving_message_number
          → decrypt_from_device c random s ciphertext (inbound h)
            ≡ ok (record { state = s; result = duplicate })
      unfolding decrypt_same_chain
      spent-duplicate missing lt = ground (arith, same_chain_valid missing, follows.chain)

      pub far-lost :
          find_skipped h.dh_pub h.message_number s.skipped_keys ≡ none
          → s.receiving_message_number + max_skipped_keys < h.message_number
          → decrypt_from_device c random s ciphertext (inbound h)
            ≡ ok (advance_past_loss_threshold s h)
      unfolding decrypt_same_chain
      far-lost missing lt = ground (arith, same_chain_valid missing, follows.chain)

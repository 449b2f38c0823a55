-- ===== src/Ratchet/Loss.antt =====
-- What a `message_lost` notice does to the chain that it is about.
use konvo_pro.Shared.{◌+◌, ◌<◌, ◌≡◌, none, some, arith, ok, sub_ℕ, ◌++◌, ◌∙◌, ap, sym}
use konvo_pro.Crypto.{Bytes, Primitives}
use konvo_pro.Ratchet.State.{
  max_skipped_keys, RatchetState, RatchetMessageHeader, duplicate, message_lost, gap,
  bytes_equal_refl,
}
use konvo_pro.Ratchet.Keys.{serialize_header, uint32_be}
use konvo_pro.Ratchet.Skipped.{find_skipped}
use konvo_pro.Ratchet.Receive.{
  Received, advance_past_loss_threshold, decrypt_same_chain, decrypt_valid, decrypt_from_device,
}
use konvo_pro.Ratchet.Steps.{inbound, InRange, decrypt-inbound}

module _ (c : Primitives) where
  -- A header on the current chain whose key is not stored goes to the same-chain path.
  same_chain_valid :
      (random : Bytes) (s : RatchetState) (ciphertext : Bytes) (h : RatchetMessageHeader)
      → InRange h
      → s.receiving_dh_pub ≡ some h.dh_pub
      → find_skipped h.dh_pub h.message_number s.skipped_keys ≡ none
      → (aad : Bytes) × (decrypt_from_device c random s ciphertext (inbound h)
          ≡ ok (decrypt_same_chain c s ciphertext h aad))
  unfolding decrypt_valid serialize_header
  same_chain_valid random s ciphertext h range current missing = (
    h.dh_pub ++ (uint32_be h.prev_chain_length ++ uint32_be h.message_number),
    rw (decrypt-inbound c random s ciphertext h range)
        (ground (arith, range.pub_key, current, missing, bytes_equal_refl h.dh_pub)),
  )

  module _ (random : Bytes) (s : RatchetState) (h : RatchetMessageHeader) (key : Bytes)
      (current : s.receiving_dh_pub ≡ some h.dh_pub)
      (chain : s.receiving_chain_key ≡ some key) where
    -- Whatever the ciphertext, a header on the current chain that is more than the cap ahead is
    -- answered by `message_lost`, and the chain key is dropped: AES-GCM is not asked.
    pub loss-unauthenticated :
        (ciphertext : Bytes)
        → InRange h
        → find_skipped h.dh_pub h.message_number s.skipped_keys ≡ none
        → s.receiving_message_number + max_skipped_keys < h.message_number
        → decrypt_from_device c random s ciphertext (inbound h)
          ≡ ok (record {
            state = record s {
              receiving_chain_key = none;
              receiving_message_number = h.message_number + 1;
            };
            result = message_lost (gap (sub_ℕ h.message_number s.receiving_message_number));
          })
    unfolding decrypt_same_chain advance_past_loss_threshold
    loss-unauthenticated ciphertext range missing far =
        let (aad, same) = same_chain_valid random s ciphertext h range current missing in
        ground (arith, same, chain)

  -- A message of the current chain that is more than `MAX_SKIPPED_KEYS` ahead, whatever its
  -- ciphertext, closes the chain: after it every message of the chain whose key is not stored, at any position and
  -- genuine or not, is answered by `duplicate` and leaves the state as it is: the chain does not
  -- recover before the peer's next DH ratchet.
  pub loss-closes_chain :
      (random later : Bytes) (s : RatchetState) (h g : RatchetMessageHeader)
      (key ciphertext other : Bytes)
      → s.receiving_dh_pub ≡ some h.dh_pub
      → s.receiving_chain_key ≡ some key
      → InRange h
      → find_skipped h.dh_pub h.message_number s.skipped_keys ≡ none
      → s.receiving_message_number + max_skipped_keys < h.message_number
      → InRange g
      → g.dh_pub ≡ h.dh_pub
      → find_skipped g.dh_pub g.message_number s.skipped_keys ≡ none
      → (r : Received) × (decrypt_from_device c random s ciphertext (inbound h) ≡ ok r)
        × (decrypt_from_device c later r.state other (inbound g)
            ≡ ok (record { state = r.state; result = duplicate }))
  unfolding decrypt_same_chain
  loss-closes_chain random later s h g key ciphertext other current chain range missing far range'
        same_chain missing' =
      let next = record s {
        receiving_chain_key = none;
        receiving_message_number = h.message_number + 1;
      } in
      let (aad, same) =
        same_chain_valid later next other g range' (current ∙ ap some (sym same_chain)) missing' in
      (
        record {
          state = next;
          result = message_lost (gap (sub_ℕ h.message_number s.receiving_message_number));
        },
        loss-unauthenticated random s h key current chain ciphertext range missing far,
        same,
      )

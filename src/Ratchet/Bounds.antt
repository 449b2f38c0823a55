-- ===== src/Ratchet/Bounds.antt =====
-- The skipped-key store stays within its cap through every call.
use konvo_pro.Shared.{
  ℕ, ◌-◌, ◌≤◌, ◌≡◌, some, List, arith, length, ok, Option-cases, inl, inr, Result-cases, sym, subst,
}
use konvo_pro.Crypto.{Bytes, Primitives}
use konvo_pro.Ratchet.State.{
  max_skipped_keys, SkippedKey, RatchetState, RatchetMessageHeader, InboundHeader,
}
use konvo_pro.Ratchet.Keys.{serialize_header}
use konvo_pro.Ratchet.Skipped.{Found, find_skipped}
use konvo_pro.Ratchet.Skipped.Bounds.{length-find_skipped, length-skip_keys}
use konvo_pro.Ratchet.Receive.{
  Received, validate_header, advance_past_loss_threshold, accept, walk_and_open, decrypt_same_chain,
  finish_old_chain, Ratcheted, dh_ratchet, open_new_chain, decrypt_new_chain, open_skipped,
  decrypt_valid, decrypt_from_device,
}

abbrev pub IsBounded : RatchetState → Type 0
IsBounded s = length s.skipped_keys ≤ max_skipped_keys

module _ (c : Primitives) where
  walk-IsBounded :
      (s next : RatchetState) (count : ℕ) (key : Bytes) (n : ℕ) (h : RatchetMessageHeader)
      (aad ciphertext : Bytes)
      → IsBounded s
      → IsBounded next
      → IsBounded (walk_and_open c s next count key n h aad ciphertext).state
  unfolding walk_and_open
  walk-IsBounded s next count key n h aad ciphertext b b' =
      ground (arith, length-skip_keys c h.dh_pub n count key next.skipped_keys)

  same_chain-IsBounded :
      (s : RatchetState) (ciphertext : Bytes) (h : RatchetMessageHeader) (aad : Bytes)
      → IsBounded s
      → IsBounded (decrypt_same_chain c s ciphertext h aad).state
  unfolding decrypt_same_chain advance_past_loss_threshold
  same_chain-IsBounded s ciphertext h aad b = elim (Option-cases s.receiving_chain_key) [
    | inl nothing ↦ ground arith
    | inr (key, chain) ↦
        let n = s.receiving_message_number in
        ground (arith, walk-IsBounded s s (h.message_number - n) key n h aad ciphertext b b)
  ]

  finish-IsBounded :
      (s : RatchetState) (previous : ℕ) {skipped : List SkippedKey}
      → IsBounded s
      → finish_old_chain c s previous ≡ some skipped
      → length skipped ≤ max_skipped_keys
  unfolding finish_old_chain
  finish-IsBounded s previous b e = elim (Option-cases s.receiving_chain_key) [
    | inl nothing ↦ ground arith
    | inr (key, chain) ↦ elim (Option-cases s.receiving_dh_pub) [
      | inl nobody ↦ ground arith
      | inr (old, at) ↦
          let n = s.receiving_message_number in
          ground (arith, length-skip_keys c old n (previous - n) key s.skipped_keys)
    ]
  ]

  dh_ratchet-skipped :
      (random : Bytes) (s : RatchetState) (skipped : List SkippedKey) (their_pub : Bytes)
      {r : Ratcheted c}
      → dh_ratchet c random s skipped their_pub ≡ ok r
      → r.next.skipped_keys ≡ skipped
  unfolding dh_ratchet
  dh_ratchet-skipped random s skipped their_pub e = ground arith

  open_new-IsBounded :
      (s : RatchetState) (r : Ratcheted c) (h : RatchetMessageHeader) (aad ciphertext : Bytes)
      → IsBounded s
      → IsBounded r.next
      → IsBounded (open_new_chain c s r h aad ciphertext).state
  unfolding open_new_chain
  open_new-IsBounded s r h aad ciphertext b b' =
      ground (arith, walk-IsBounded s r.next h.message_number r.chain_key 0 h aad ciphertext b b')

  new_chain-IsBounded :
      (random : Bytes) (s : RatchetState) (ciphertext : Bytes) (h : RatchetMessageHeader)
      (aad : Bytes) (r : Received)
      → IsBounded s
      → decrypt_new_chain c random s ciphertext h aad ≡ ok r
      → IsBounded r.state
  unfolding decrypt_new_chain advance_past_loss_threshold
  new_chain-IsBounded random s ciphertext h aad r b e =
      elim (Option-cases (finish_old_chain c s h.prev_chain_length)) [
        | inl lost ↦ ground arith
        | inr (skipped, closed) ↦ elim (Result-cases (dh_ratchet c random s skipped h.dh_pub)) [
          | inl (t, turned) ↦
              let kept = dh_ratchet-skipped random s skipped h.dh_pub turned in
              let small : IsBounded t.next =
                subst (λ ks. length ks ≤ max_skipped_keys) (sym kept)
                  (finish-IsBounded s h.prev_chain_length b closed) in
              ground (arith, open_new-IsBounded s t h aad ciphertext b small)
          | inr (thrown, turned) ↦ ground arith
        ]
      ]

  skipped-IsBounded :
      (s : RatchetState) (f : Found) (dh_pub : Bytes) (n : ℕ) (aad ciphertext : Bytes)
      → IsBounded s
      → find_skipped dh_pub n s.skipped_keys ≡ some f
      → IsBounded (open_skipped c s f aad ciphertext).state
  unfolding open_skipped accept
  skipped-IsBounded s f dh_pub n aad ciphertext b found =
      ground (arith, length-find_skipped dh_pub n s.skipped_keys found)

  valid-IsBounded :
      (random : Bytes) (s : RatchetState) (ciphertext : Bytes) (h : RatchetMessageHeader)
      (r : Received)
      → IsBounded s
      → decrypt_valid c random s ciphertext h ≡ ok r
      → IsBounded r.state
  unfolding decrypt_valid
  valid-IsBounded random s ciphertext h r b e = elim (Result-cases (serialize_header h)) [
    | inr (thrown, bad) ↦ ground arith
    | inl (aad, good) ↦
        elim (Option-cases (find_skipped h.dh_pub h.message_number s.skipped_keys)) [
          | inr (f, found) ↦
              ground (arith, skipped-IsBounded s f h.dh_pub h.message_number aad ciphertext b found)
          | inl missing ↦ ground (
            arith,
            same_chain-IsBounded s ciphertext h aad b,
            new_chain-IsBounded random s ciphertext h aad r b,
          )
        ]
  ]

  -- From a state with at most `MAX_SKIPPED_KEYS` stored keys, whatever arrives, a call of
  -- `decryptFromDevice` that returns leaves at most as many.
  pub decrypt_from_device-IsBounded :
      (random : Bytes) (s : RatchetState) (ciphertext : Bytes) (inbound : InboundHeader)
      (r : Received)
      → IsBounded s
      → decrypt_from_device c random s ciphertext inbound ≡ ok r
      → IsBounded r.state
  unfolding decrypt_from_device
  decrypt_from_device-IsBounded random s ciphertext inbound r b e =
      elim (Result-cases (validate_header inbound)) [
        | inr (thrown, bad) ↦ ground arith
        | inl (h, good) ↦ ground (arith, valid-IsBounded random s ciphertext h r b)
      ]

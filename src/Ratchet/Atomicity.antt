-- ===== src/Ratchet/Atomicity.antt =====
-- Trial decryption: a refused message changes nothing, and an opened one was authentic.
use konvo_pro.Shared.{
  ℕ, List, ◌++◌, length, ◌-◌, ◌≡◌, refl, some, arith, ok, ltb, ◌⊎◌, inl, inr, Bool-cases,
  Option-cases, Result-cases,
}
use konvo_pro.Crypto.{Bytes, Primitives}
use konvo_pro.Ratchet.State.{
  key_length, max_skipped_keys, SkippedKey, bad_message_number, bad_prev_chain_length, RatchetState,
  RatchetMessageHeader, InboundHeader, LossDetails, message_lost, plaintext, invalid_message,
  duplicate,
}
use konvo_pro.Ratchet.Keys.{
  serialize_header, uint32_be, unseal, shared, dh_ratchet_receive_step, generate_ratchet_keypair,
}
use konvo_pro.Ratchet.Skipped.{find_skipped}
use konvo_pro.Ratchet.Receive.{
  Received, check_counter, validate_header, is_some_bytes, advance_past_loss_threshold, accept,
  walk_and_open, decrypt_same_chain, finish_old_chain, Ratcheted, dh_ratchet, open_new_chain,
  decrypt_new_chain, open_skipped, decrypt_valid, decrypt_from_device,
}

-- The two refusals.
abbrev pub IsRefused : Received → Type 0
IsRefused r = (r.result ≡ invalid_message) ⊎ (r.result ≡ duplicate)

module _ (c : Primitives) where
  -- What a call did: it refused and gave the state back, or its text is what AES-GCM opened under
  -- the header `aad`, or it reported a loss.
  pub data Answer (s : RatchetState) (aad ciphertext : Bytes) (r : Received) : Type 0 where
    refused : IsRefused r → r.state ≡ s → Answer s aad ciphertext r
    opened :
        (key text : Bytes)
        → r.result ≡ plaintext text
        → unseal c key aad ciphertext ≡ some text
        → Answer s aad ciphertext r
    lost : (details : LossDetails) → r.result ≡ message_lost details → Answer s aad ciphertext r

  module _ (s : RatchetState) (aad ciphertext : Bytes) where
    accept-Answer :
        (next : RatchetState) (key : Bytes)
        → Answer s aad ciphertext (accept c s next (unseal c key aad ciphertext))
    unfolding accept
    accept-Answer next key = elim (Option-cases (unseal c key aad ciphertext)) [
      | inl fails ↦ rw fails (refused (inl refl) refl)
      | inr (text, opens) ↦ rw opens (opened key text refl opens)
    ]

    -- The ways through the same-chain path.
    same_chain-ways :
        (h : RatchetMessageHeader)
        → (decrypt_same_chain c s ciphertext h aad ≡ record { state = s; result = duplicate })
          ⊎ (decrypt_same_chain c s ciphertext h aad ≡ advance_past_loss_threshold s h)
          ⊎ ((count : ℕ) × (key : Bytes) × (n : ℕ) × (decrypt_same_chain c s ciphertext h aad
                ≡ walk_and_open c s s count key n h aad ciphertext))
    unfolding decrypt_same_chain
    same_chain-ways h = elim (Option-cases s.receiving_chain_key) [
      | inl nothing ↦ inl (ground arith)
      | inr (key, chain) ↦
          let n = s.receiving_message_number in
          elim (Bool-cases (ltb h.message_number n)) [
            | inl old ↦ inl (ground arith)
            | inr new ↦ elim (Bool-cases (ltb max_skipped_keys (h.message_number - n))) [
              | inl far ↦ inr (inl (ground arith))
              | inr near ↦ inr (inr (h.message_number - n, key, n, ground arith))
            ]
          ]
    ]

    walk-Answer :
        (next : RatchetState) (count : ℕ) (key : Bytes) (n : ℕ) (h : RatchetMessageHeader)
        → Answer s aad ciphertext (walk_and_open c s next count key n h aad ciphertext)
    unfolding walk_and_open
    walk-Answer next count key n h = accept-Answer _ _

    loss-Answer :
        (h : RatchetMessageHeader) → Answer s aad ciphertext (advance_past_loss_threshold s h)
    unfolding advance_past_loss_threshold
    loss-Answer h = lost _ refl

    same_chain-Answer :
        (h : RatchetMessageHeader)
        → Answer s aad ciphertext (decrypt_same_chain c s ciphertext h aad)
    same_chain-Answer h = elim (same_chain-ways h) [
      | inl e ↦ rw e (refused (inr refl) refl)
      | inr (inl e) ↦ rw e (loss-Answer h)
      | inr (inr (count, key, n, e)) ↦ rw e (walk-Answer s count key n h)
    ]

    open_new-Answer :
        (r : Ratcheted c) (h : RatchetMessageHeader)
        → Answer s aad ciphertext (open_new_chain c s r h aad ciphertext)
    unfolding open_new_chain
    open_new-Answer r h = elim (Bool-cases (ltb max_skipped_keys h.message_number)) [
      | inl far ↦ rw far (lost _ refl)
      | inr near ↦ rw near (walk-Answer r.next h.message_number r.chain_key 0 h)
    ]

    new_chain-Answer :
        (random : Bytes) (h : RatchetMessageHeader) (r : Received)
        → decrypt_new_chain c random s ciphertext h aad ≡ ok r
        → Answer s aad ciphertext r
    unfolding decrypt_new_chain
    new_chain-Answer random h r e = elim (Option-cases (finish_old_chain c s h.prev_chain_length)) [
      | inl full ↦
          let same : r ≡ advance_past_loss_threshold s h = ground arith in rw same (loss-Answer h)
      | inr (skipped, closed) ↦ elim (Result-cases (dh_ratchet c random s skipped h.dh_pub)) [
        | inl (t, turned) ↦
            let same : r ≡ open_new_chain c s t h aad ciphertext = ground arith in
            rw same (open_new-Answer t h)
        | inr (thrown, turned) ↦ absurd (ground arith)
      ]
    ]

  -- Every call that returns gives one of the three answers, for the header that it received.
  pub decrypt_valid-Answer :
      (random : Bytes) (s : RatchetState) (ciphertext : Bytes) (h : RatchetMessageHeader)
      (r : Received)
      → decrypt_valid c random s ciphertext h ≡ ok r
      → (aad : Bytes) × (serialize_header h ≡ ok aad) × Answer s aad ciphertext r
  unfolding decrypt_valid open_skipped
  decrypt_valid-Answer random s ciphertext h r e = elim (Result-cases (serialize_header h)) [
    | inr (thrown, bad) ↦ absurd (ground arith)
    | inl (aad, good) ↦ (
      aad,
      good,
      elim (Option-cases (find_skipped h.dh_pub h.message_number s.skipped_keys)) [
        | inr (f, found) ↦
            let same : r ≡ open_skipped c s f aad ciphertext = ground arith in
            rw same (accept-Answer s aad ciphertext _ _)
        | inl missing ↦ elim (Bool-cases (is_some_bytes s.receiving_dh_pub h.dh_pub)) [
          | inl current ↦
              let same : r ≡ decrypt_same_chain c s ciphertext h aad = ground arith in
              rw same (same_chain-Answer s aad ciphertext h)
          | inr other ↦ new_chain-Answer s aad ciphertext random h r (ground arith)
        ]
      ],
    )
  ]

  -- Whatever arrives, a call of `decryptFromDevice` that returns has accepted the header's ranges,
  -- and then either refused and given the same state back, or opened the ciphertext under this very
  -- header, or reported a loss.
  pub decrypt_from_device-Answer :
      (random : Bytes) (s : RatchetState) (ciphertext : Bytes) (inbound : InboundHeader)
      (r : Received)
      → decrypt_from_device c random s ciphertext inbound ≡ ok r
      → (h : RatchetMessageHeader) × (validate_header inbound ≡ ok h)
        × ((aad : Bytes) × (serialize_header h ≡ ok aad) × Answer s aad ciphertext r)
  unfolding decrypt_from_device
  decrypt_from_device-Answer random s ciphertext inbound r e =
      elim (Result-cases (validate_header inbound)) [
        | inr (thrown, bad) ↦ absurd (ground arith)
        | inl (h, good) ↦ (h, good, decrypt_valid-Answer random s ciphertext h r (ground arith))
      ]

  validate_header-length :
      (inbound : InboundHeader) (h : RatchetMessageHeader)
      → validate_header inbound ≡ ok h
      → length h.dh_pub ≡ key_length
  unfolding validate_header
  validate_header-length inbound h e =
      elim (Result-cases (check_counter inbound.message_number bad_message_number)) [
        | inr (thrown, bad) ↦ ground arith
        | inl (n, good) ↦
            elim (Result-cases (check_counter inbound.prev_chain_length bad_prev_chain_length)) [
              | inr (thrown, bad) ↦ ground arith
              | inl (pn, good') ↦ ground arith
            ]
      ]

  dh_ratchet-returns :
      (random : Bytes) (s : RatchetState) (skipped : List SkippedKey) (dh_pub ours fresh : Bytes)
      → c.shared_secret s.sending_dh_priv dh_pub ≡ some ours
      → c.shared_secret random dh_pub ≡ some fresh
      → (t : Ratcheted c) × (dh_ratchet c random s skipped dh_pub ≡ ok t)
  unfolding dh_ratchet shared dh_ratchet_receive_step generate_ratchet_keypair
  dh_ratchet-returns random s skipped dh_pub ours fresh e e' =
      elim (Result-cases (dh_ratchet c random s skipped dh_pub)) [
        | inl returned ↦ returned
        | inr (thrown, bad) ↦ absurd (ground arith)
      ]

  new_chain-returns :
      (random : Bytes) (s : RatchetState) (ciphertext : Bytes) (h : RatchetMessageHeader)
      (aad ours fresh : Bytes)
      → c.shared_secret s.sending_dh_priv h.dh_pub ≡ some ours
      → c.shared_secret random h.dh_pub ≡ some fresh
      → (r : Received) × (decrypt_new_chain c random s ciphertext h aad ≡ ok r)
  unfolding decrypt_new_chain
  new_chain-returns random s ciphertext h aad ours fresh e e' =
      elim (Option-cases (finish_old_chain c s h.prev_chain_length)) [
        | inl full ↦ (advance_past_loss_threshold s h, ground arith)
        | inr (skipped, closed) ↦
            let (t, turned) = dh_ratchet-returns random s skipped h.dh_pub ours fresh e e' in
            (open_new_chain c s t h aad ciphertext, ground arith)
      ]

  -- A call of `decryptFromDevice` on a header in range returns, where X25519 takes the header's key
  -- with the private key of the state and with the fresh one.
  pub decrypt_from_device-returns :
      (random : Bytes) (s : RatchetState) (ciphertext : Bytes) (inbound : InboundHeader)
      (h : RatchetMessageHeader) (ours fresh : Bytes)
      → validate_header inbound ≡ ok h
      → c.shared_secret s.sending_dh_priv h.dh_pub ≡ some ours
      → c.shared_secret random h.dh_pub ≡ some fresh
      → (r : Received) × (decrypt_from_device c random s ciphertext inbound ≡ ok r)
  unfolding decrypt_from_device serialize_header
  decrypt_from_device-returns random s ciphertext inbound h ours fresh good e e' =
      elim (Result-cases (decrypt_from_device c random s ciphertext inbound)) [
        | inl returned ↦ returned
        | inr (thrown, bad) ↦
            let aad = h.dh_pub ++ (uint32_be h.prev_chain_length ++ uint32_be h.message_number) in
            let t = new_chain-returns random s ciphertext h aad ours fresh e e' in
            absurd (ground (arith, good, validate_header-length inbound h good, t.1))
      ]

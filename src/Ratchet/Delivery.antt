-- ===== src/Ratchet/Delivery.antt =====
-- Messages of one sending chain reach `decryptFromDevice` in any order.
use konvo_pro.Shared.{
  ℕ, ◌+◌, ◌-◌, ◌≤◌, ◌<◌, ◌≡◌, ◌≢◌, true, none, some, arith, length, ok, ◌⊎◌, inl, inr, ltb, tests,
  Bool-cases, sym,
}
use konvo_pro.Crypto.{Bytes, Primitives, Laws}
use konvo_pro.Ratchet.State.{
  max_skipped_keys, RatchetState, RatchetMessageHeader, plaintext, duplicate,
}
use konvo_pro.Ratchet.Skipped.{Found, find_skipped}
use konvo_pro.Ratchet.Skipped.Bounds.{length-find_skipped, length-skip_keys}
use konvo_pro.Ratchet.Skipped.Keeping.{has_key, has_key-find, has_key-others, has_key-skip_keys}
use konvo_pro.Ratchet.Chain.{chain_key_at, find_skipped-IsTaken, find_skipped-above}
use konvo_pro.Ratchet.Receive.{decrypt_from_device}
use konvo_pro.Ratchet.Steps.{
  inbound, Genuine, Follows, passed, passed-Follows, find_skipped-passed, skipped-opens,
  ahead-opens, spent-duplicate,
}

-- The message at position `n` can still be opened: its key is stored, or the chain reaches it.
abbrev pub CanOpen : RatchetState → Bytes → ℕ → Type 0
CanOpen s dh_pub n =
    (has_key dh_pub n s.skipped_keys ≡ true)
    ⊎ ((s.receiving_message_number ≤ n) × (n ≤ s.receiving_message_number + max_skipped_keys))

-- Room for every position below `m` that has not come yet.
abbrev pub HasRoom : RatchetState → ℕ → Type 0
HasRoom s m = length s.skipped_keys + m ≤ max_skipped_keys + s.receiving_message_number

module _ (c : Primitives) (laws : Laws c) where
  -- What a successful call leaves.
  pub record Delivered (random : Bytes) (k0 : Bytes) (s : RatchetState) (h : RatchetMessageHeader)
      (ciphertext text : Bytes) : Type 0 where
    pub next : RatchetState
    pub answer :
        decrypt_from_device c random s ciphertext (inbound h)
        ≡ ok (record { state = next; result = plaintext text })
    pub follows : Follows c laws h.dh_pub k0 next
    pub spent : find_skipped h.dh_pub h.message_number next.skipped_keys ≡ none
    pub behind : h.message_number < next.receiving_message_number
    pub room : (m : ℕ) → h.message_number < m → HasRoom s m → HasRoom next m
    pub keeps :
        (n m : ℕ)
        → n ≢ h.message_number
        → n < m
        → h.message_number < m
        → HasRoom s m
        → CanOpen s h.dh_pub n
        → CanOpen next h.dh_pub n

  keeps_stored :
      (dh_pub : Bytes) (s : RatchetState) (k n : ℕ) (f : Found)
      → find_skipped dh_pub k s.skipped_keys ≡ some f
      → n ≢ k
      → CanOpen s dh_pub n
      → CanOpen (record s { skipped_keys = f.others }) dh_pub n
  keeps_stored dh_pub s k n f found ne (inl h) =
      inl (has_key-others dh_pub n k s.skipped_keys found (λ e. ne (sym e)) h)
  keeps_stored dh_pub s k n f found ne (inr h) = inr h

  passed-HasRoom :
      (k0 : Bytes) (s : RatchetState) (h : RatchetMessageHeader) (m : ℕ)
      → s.receiving_message_number ≤ h.message_number
      → h.message_number < m
      → HasRoom s m
      → let r = s.receiving_message_number in
        HasRoom (passed c laws s r (h.message_number - r) k0 h) m
  unfolding passed
  passed-HasRoom k0 s h m le lt room =
      let r = s.receiving_message_number in
      omega (
        arith,
        length-skip_keys c h.dh_pub r (h.message_number - r) (chain_key_at c r k0) s.skipped_keys
            (omega arith),
      )

  keeps_ahead :
      (k0 : Bytes) (s : RatchetState) (h : RatchetMessageHeader) (n m : ℕ)
      → s.receiving_message_number ≤ h.message_number
      → n ≢ h.message_number
      → n < m
      → h.message_number < m
      → HasRoom s m
      → CanOpen s h.dh_pub n
      → let r = s.receiving_message_number in
        CanOpen (passed c laws s r (h.message_number - r) k0 h) h.dh_pub n
  unfolding passed
  keeps_ahead k0 s h n m le ne lt lth room can =
      let r = s.receiving_message_number in
      let count = h.message_number - r in
      let key = chain_key_at c r k0 in
      let ks = s.skipped_keys in
      let keep = has_key-skip_keys c h.dh_pub n r count key ks (omega arith) in
      elim can [
        | inl old ↦ inl (keep (inl old))
        | inr window ↦ elim (Bool-cases (ltb n h.message_number)) [
          | inl passes ↦ inl (keep (inr (omega tests)))
          | inr later ↦ inr (ground (arith, ne))
        ]
      ]

  module _ (k0 : Bytes) (s : RatchetState) (h : RatchetMessageHeader) (ciphertext text : Bytes)
      (follows : Follows c laws h.dh_pub k0 s) (genuine : Genuine c laws k0 h ciphertext text)
      (random : Bytes) where
    opens_stored :
        (f : Found)
        → find_skipped h.dh_pub h.message_number s.skipped_keys ≡ some f
        → Delivered random k0 s h ciphertext text
    opens_stored f found =
        let t = find_skipped-IsTaken c h.message_number follows.stored found in
        record {
          next = record s { skipped_keys = f.others };
          answer = skipped-opens c laws k0 h ciphertext text genuine random s follows f found;
          follows = record {
            receiving = follows.receiving;
            chain = follows.chain;
            stored = t.others;
          };
          spent = t.once;
          behind = t.below;
          keeps =
              λ n m ne lt lth room can. keeps_stored h.dh_pub s h.message_number n f found ne can;
          room = λ m lt r.
              omega (arith, length-find_skipped h.dh_pub h.message_number s.skipped_keys found);
        }

    opens_ahead :
        find_skipped h.dh_pub h.message_number s.skipped_keys ≡ none
        → s.receiving_message_number ≤ h.message_number
        → h.message_number ≤ s.receiving_message_number + max_skipped_keys
        → Delivered random k0 s h ciphertext text
    unfolding passed
    opens_ahead missing le fits =
        let n = s.receiving_message_number in
        let count = h.message_number - n in
        record {
          next = passed c laws s n count k0 h;
          answer = ahead-opens c laws k0 h ciphertext text genuine random s follows missing le fits;
          follows =
              passed-Follows c laws k0 h ciphertext text genuine s n count (omega arith)
                follows.stored follows.receiving;
          spent =
              find_skipped-passed c laws k0 h ciphertext text genuine s n count (omega arith)
                follows.stored;
          behind = omega arith;
          keeps = λ n m ne lt lth room can. keeps_ahead k0 s h n m le ne lt lth room can;
          room = λ m lt r. passed-HasRoom k0 s h m le lt r;
        }

    -- A genuine message whose key is stored, or to which the chain reaches, is opened.
    pub decrypt-genuine :
        CanOpen s h.dh_pub h.message_number → Delivered random k0 s h ciphertext text
    decrypt-genuine (inl stored) =
        let (f, found) = has_key-find h.dh_pub h.message_number s.skipped_keys stored in
        opens_stored f found
    decrypt-genuine (inr window) =
        opens_ahead (find_skipped-above c h.message_number follows.stored window.0) window.0
          window.1

    -- A second copy of a genuine message of the chain that has been opened once is answered by
    -- `duplicate`, and the state stays.
    pub decrypt_again-duplicate :
        (d : Delivered random k0 s h ciphertext text) (later : Bytes)
        → decrypt_from_device c later d.next ciphertext (inbound h)
          ≡ ok (record { state = d.next; result = duplicate })
    decrypt_again-duplicate d later =
        spent-duplicate c laws k0 h ciphertext text genuine later d.next d.follows d.spent d.behind

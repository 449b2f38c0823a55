-- ===== src/Ratchet/Receive.antt =====
-- `decryptFromDevice` of packages/crypto/src/ratchet.ts and the functions that it calls.
use konvo_pro.Shared.{
  ℕ, ◌+◌, ◌-◌, Bool, false, not, Option, none, some, List, length, ltb, leb, ◌==◌, if◌then◌else◌,
  sub_ℕ, Number, int, fraction, pos, negsuc, ok, err, ◌>>=◌,
}
use konvo_pro.Crypto.{Bytes, Primitives}
use konvo_pro.Ratchet.State.{
  max_skipped_keys, key_length, SkippedKey, RatchetState, RatchetMessageHeader, InboundHeader, gap,
  new_chain, DecryptResult, plaintext, invalid_message, duplicate, message_lost, RatchetError,
  Thrown, bad_dh_pub, bad_message_number, bad_prev_chain_length, bytes_equal,
}
use konvo_pro.Ratchet.Keys.{
  serialize_header, root_kdf, chain_step, unseal, shared, dh_ratchet_receive_step,
  generate_ratchet_keypair,
}
use konvo_pro.Ratchet.Skipped.{Found, find_skipped, skip_keys}

pub record Received : Type 0 where
  pub state : RatchetState
  pub result : DecryptResult

-- `!Number.isInteger(n) || n < 0 || n > 0xffff_ffff`
unfoldable pub check_counter : Number → RatchetError → Thrown ℕ
check_counter (int (pos n)) e = if leb n 0xffffffff then ok n else err e
check_counter (int (negsuc n)) e = err e
check_counter fraction e = err e

unfoldable pub validate_header : InboundHeader → Thrown RatchetMessageHeader
unfolding check_counter
validate_header h = if not (length h.dh_pub == key_length) then err bad_dh_pub else do
  n ← check_counter h.message_number bad_message_number
  pn ← check_counter h.prev_chain_length bad_prev_chain_length
  ok (record { dh_pub = h.dh_pub; prev_chain_length = pn; message_number = n })

abbrev pub is_some_bytes : Option Bytes → Bytes → Bool
is_some_bytes none b = false
is_some_bytes (some a) b = bytes_equal a b

unfoldable pub advance_past_loss_threshold : RatchetState → RatchetMessageHeader → Received
advance_past_loss_threshold s h = record {
  state = record s { receiving_chain_key = none; receiving_message_number = h.message_number + 1 };
  result = message_lost (gap (sub_ℕ h.message_number s.receiving_message_number));
}

module _ (c : Primitives) where
  -- The trial: on failure the state `s` that was passed in comes back.
  unfoldable pub accept : RatchetState → RatchetState → Option Bytes → Received
  accept s next none = record { state = s; result = invalid_message }
  accept s next (some text) = record { state = next; result = plaintext text }

  -- The end of both receive paths: derive the key of `h` after `count` skipped ones, and try it on
  -- the candidate `next`, whose receiving chain stands at `n` with key `chain_key`.
  unfoldable pub walk_and_open :
      RatchetState → RatchetState → ℕ → Bytes → ℕ → RatchetMessageHeader → Bytes → Bytes → Received
  unfolding accept
  walk_and_open s next count chain_key n h aad ciphertext =
      let walk = skip_keys c h.dh_pub n count chain_key next.skipped_keys in
      let step = chain_step c walk.chain_key in
      accept s
        (record next {
          receiving_chain_key = some step.next_chain_key;
          receiving_message_number = h.message_number + 1;
          skipped_keys = walk.skipped;
        })
        (unseal c step.message_key aad ciphertext)

  unfoldable pub decrypt_same_chain : RatchetState → Bytes → RatchetMessageHeader → Bytes → Received
  unfolding walk_and_open
  decrypt_same_chain s ciphertext h aad = elim s.receiving_chain_key [
    | none ↦ record { state = s; result = duplicate }
    | some chain_key ↦
        if ltb h.message_number s.receiving_message_number
        then record { state = s; result = duplicate }
        else (let count = h.message_number - s.receiving_message_number in
            if ltb max_skipped_keys count
            then advance_past_loss_threshold s h
            else walk_and_open s s count chain_key s.receiving_message_number h aad ciphertext)
  ]

  -- The keys that remain on the old receiving chain are stored; `none` where they are too many.
  unfoldable pub finish_old_chain : RatchetState → ℕ → Option (List SkippedKey)
  finish_old_chain s prev_chain_length = elim s.receiving_chain_key [
    | none ↦ some s.skipped_keys
    | some chain_key ↦ elim s.receiving_dh_pub [
      | none ↦ some s.skipped_keys
      | some dh_pub ↦
          let n = s.receiving_message_number in
          let count = prev_chain_length - n in
          if ltb max_skipped_keys count
          then none
          else some (skip_keys c dh_pub n count chain_key s.skipped_keys).skipped
    ]
  ]

  -- Steps 2 and 3: both halves of the DH ratchet; the receiving chain comes beside the state.
  pub record Ratcheted : Type 0 where
    pub next : RatchetState
    pub chain_key : Bytes

  unfoldable pub dh_ratchet : Bytes → RatchetState → List SkippedKey → Bytes → Thrown Ratcheted
  dh_ratchet random s skipped their_pub = do
    receiving ← dh_ratchet_receive_step c s.root_key s.sending_dh_priv their_pub
    let fresh = generate_ratchet_keypair c random
    secret ← shared c fresh.priv their_pub
    let sending = root_kdf c receiving.new_root_key secret
    ok (record {
      next = record {
        root_key = sending.new_root_key;
        sending_dh_priv = fresh.priv;
        sending_dh_pub = fresh.pub_key;
        receiving_dh_pub = some their_pub;
        sending_chain_key = some sending.new_chain_key;
        receiving_chain_key = some receiving.new_chain_key;
        sending_message_number = 0;
        receiving_message_number = 0;
        previous_sending_chain_length = s.sending_message_number;
        skipped_keys = skipped;
      };
      chain_key = receiving.new_chain_key;
    })

  -- Steps 4 and 5.
  unfoldable pub open_new_chain :
      RatchetState → Ratcheted → RatchetMessageHeader → Bytes → Bytes → Received
  unfolding walk_and_open
  open_new_chain s r h aad ciphertext =
      if ltb max_skipped_keys h.message_number
      then record {
        state = record r.next {
          receiving_chain_key = none;
          receiving_message_number = h.message_number + 1;
        };
        result = message_lost (new_chain h.message_number);
      }
      else walk_and_open s r.next h.message_number r.chain_key 0 h aad ciphertext

  unfoldable pub decrypt_new_chain :
      Bytes → RatchetState → Bytes → RatchetMessageHeader → Bytes → Thrown Received
  unfolding open_new_chain
  decrypt_new_chain random s ciphertext h aad = elim (finish_old_chain s h.prev_chain_length) [
    | none ↦ ok (advance_past_loss_threshold s h)
    | some skipped ↦ do
      r ← dh_ratchet random s skipped h.dh_pub
      ok (open_new_chain s r h aad ciphertext)
  ]

  -- Step 1: the skipped key of this message is tried, and dropped when it opens.
  unfoldable pub open_skipped : RatchetState → Found → Bytes → Bytes → Received
  unfolding accept
  open_skipped s f aad ciphertext =
      accept s (record s { skipped_keys = f.others }) (unseal c f.entry.message_key aad ciphertext)

  unfoldable pub decrypt_valid :
      Bytes → RatchetState → Bytes → RatchetMessageHeader → Thrown Received
  decrypt_valid random s ciphertext h = do
    aad ← serialize_header h
    elim (find_skipped h.dh_pub h.message_number s.skipped_keys) [
      | some f ↦ ok (open_skipped s f aad ciphertext)
      | none ↦
          if is_some_bytes s.receiving_dh_pub h.dh_pub
          then ok (decrypt_same_chain s ciphertext h aad)
          else decrypt_new_chain random s ciphertext h aad
    ]

  -- `random` is what `crypto.getRandomValues` gives if a new sending key is needed.
  unfoldable pub decrypt_from_device :
      Bytes → RatchetState → Bytes → InboundHeader → Thrown Received
  unfolding decrypt_valid
  decrypt_from_device random s ciphertext inbound = do
    h ← validate_header inbound
    decrypt_valid random s ciphertext h

-- ===== src/Ratchet/Send.antt =====
-- `initSenderRatchet`, `initReceiverRatchet` and `encryptToDevice` of packages/crypto/src/ratchet.ts.
use konvo_pro.Shared.{◌+◌, none, some, [], length, ◌==◌, not, if◌then◌else◌, ok, err, ◌>>=◌}
use konvo_pro.Crypto.{Bytes, Primitives}
use konvo_pro.Ratchet.State.{
  key_length, RatchetState, RatchetMessageHeader, Thrown, bad_root_key, bad_recipient_pub, bad_priv,
  bad_pub, no_sending_chain,
}
use konvo_pro.Ratchet.Keys.{
  Keypair, serialize_header, root_kdf, chain_step, seal, shared, generate_ratchet_keypair,
}

pub record Sent : Type 0 where
  pub state : RatchetState
  pub ciphertext : Bytes
  pub header : RatchetMessageHeader

-- The header of the next message.
unfoldable pub next_header : RatchetState → RatchetMessageHeader
next_header s = record {
  dh_pub = s.sending_dh_pub;
  prev_chain_length = s.previous_sending_chain_length;
  message_number = s.sending_message_number;
}

unfoldable pub init_receiver_ratchet : Bytes → Keypair → Thrown RatchetState
init_receiver_ratchet root_key ours =
    if not (length root_key == 32)
    then err bad_root_key
    else if not (length ours.priv == key_length)
    then err bad_priv
    else if not (length ours.pub_key == key_length)
    then err bad_pub
    else ok (record {
      root_key = root_key;
      sending_dh_priv = ours.priv;
      sending_dh_pub = ours.pub_key;
      receiving_dh_pub = none;
      sending_chain_key = none;
      receiving_chain_key = none;
      sending_message_number = 0;
      receiving_message_number = 0;
      previous_sending_chain_length = 0;
      skipped_keys = [];
    })

module _ (c : Primitives) where
  unfoldable pub start_sending : Bytes → Bytes → Keypair → Thrown RatchetState
  start_sending root_key recipient_dh_pub fresh = do
    dh_output ← shared c fresh.priv recipient_dh_pub
    let step = root_kdf c root_key dh_output
    ok (record {
      root_key = step.new_root_key;
      sending_dh_priv = fresh.priv;
      sending_dh_pub = fresh.pub_key;
      receiving_dh_pub = some recipient_dh_pub;
      sending_chain_key = some step.new_chain_key;
      receiving_chain_key = none;
      sending_message_number = 0;
      receiving_message_number = 0;
      previous_sending_chain_length = 0;
      skipped_keys = [];
    })

  unfoldable pub init_sender_ratchet : Bytes → Bytes → Bytes → Thrown RatchetState
  unfolding start_sending
  init_sender_ratchet random root_key recipient_dh_pub =
      if not (length root_key == 32)
      then err bad_root_key
      else if not (length recipient_dh_pub == key_length)
      then err bad_recipient_pub
      else start_sending root_key recipient_dh_pub (generate_ratchet_keypair c random)

  unfoldable pub encrypt_under : RatchetState → Bytes → Bytes → Thrown Sent
  encrypt_under s chain_key text = do
    let step = chain_step c chain_key
    let header = next_header s
    aad ← serialize_header header
    ok (record {
      state = record s {
        sending_chain_key = some step.next_chain_key;
        sending_message_number = s.sending_message_number + 1;
      };
      ciphertext = seal c step.message_key aad text;
      header = header;
    })

  unfoldable pub encrypt_to_device : RatchetState → Bytes → Thrown Sent
  unfolding encrypt_under
  encrypt_to_device s text = elim s.sending_chain_key [
    | none ↦ err no_sending_chain
    | some chain_key ↦ encrypt_under s chain_key text
  ]

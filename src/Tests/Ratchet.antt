-- ===== src/Tests/Ratchet.antt =====
-- The Double Ratchet on the toy cryptography: the theorems at concrete states.
use mathlib.Core.List.{Memᴰ}
use konvo_pro.Shared.{
  ℕ, ◌+◌, ◌*◌, ◌%◌, ◌≡◌, refl, some, none, List, [], ◌∷◌, ◌++◌, All, map, arith, replicate, ok, err,
}
use konvo_pro.Crypto.{Bytes}
use konvo_pro.Crypto.Toy.{toy, toy-Laws}
use konvo_pro.Ratchet.State.{
  RatchetState, RatchetMessageHeader, plaintext, invalid_message, duplicate, bytes_equal,
}
use konvo_pro.Ratchet.Keys.{RootStep, seal, unseal, serialize_header, chain_step, root_kdf}
use konvo_pro.Ratchet.Chain.{chain_key_at, message_key_at, end}
use konvo_pro.Ratchet.Send.{encrypt_to_device, next_header}
use konvo_pro.Ratchet.Receive.{Received, validate_header, decrypt_same_chain, decrypt_from_device}
use konvo_pro.Ratchet.Skipped.{find_skipped, skip_keys}
use konvo_pro.Ratchet.Bounds.{IsBounded, decrypt_from_device-IsBounded}
use konvo_pro.Ratchet.Atomicity.{Answer, decrypt_from_device-Answer, decrypt_from_device-returns}
use konvo_pro.Ratchet.Loss.{loss-closes_chain}
use konvo_pro.Ratchet.Steps.{inbound, Follows}
use konvo_pro.Ratchet.AnyOrder.{Message, receive_all, IsDistinct}
use konvo_pro.Ratchet.Sending.{Sends, IsSent, send_all, send_all-genuine, send_receive-any_order}
use konvo_pro.Ratchet.Conversation.{Line, talk_from_start, AreUsable, talk_from_start-delivers}

abbrev pub key : ℕ → Bytes
key b = replicate 32 b

abbrev pub alice : RatchetState
alice = record {
  root_key = key 1;
  sending_dh_priv = key 2;
  sending_dh_pub = toy.public_key (key 2);
  receiving_dh_pub = some (key 9);
  sending_chain_key = some (key 5);
  receiving_chain_key = none;
  sending_message_number = 0;
  receiving_message_number = 0;
  previous_sending_chain_length = 0;
  skipped_keys = [];
}

abbrev pub bob : RatchetState
bob = record {
  root_key = key 1;
  sending_dh_priv = key 4;
  sending_dh_pub = toy.public_key (key 4);
  receiving_dh_pub = some (toy.public_key (key 2));
  sending_chain_key = none;
  receiving_chain_key = some (key 5);
  sending_message_number = 0;
  receiving_message_number = 0;
  previous_sending_chain_length = 0;
  skipped_keys = [];
}

pub alice-Sends : Sends toy toy-Laws (key 5) alice
unfolding chain_key_at
alice-Sends = record { chain = refl; pub_key = refl; previous = omega arith }

pub bob-Follows : Follows toy toy-Laws (toy.public_key (key 2)) (key 5) bob
unfolding chain_key_at
bob-Follows = record { receiving = refl; chain = refl; stored = end (omega arith) }

abbrev lines : List Line
lines =
    record { random = key 6; text = 104 ∷ 105 ∷ [] }
    ∷ record { random = key 7; text = 121 ∷ 111 ∷ [] }
    ∷ record { random = key 8; text = [] }
    ∷ []

usable : AreUsable toy (toy.public_key (key 3)) (toy.public_key (key 4)) lines
unfolding bytes_equal
usable = (
  record { secret = _; agrees = refl; fresh = refl },
  (
    record { secret = _; agrees = refl; fresh = refl },
    (record { secret = _; agrees = refl; fresh = refl }, tt),
  ),
)

talk_from_start-delivers_example :
    talk_from_start toy
      (key 3)
      (key 1)
      (record { priv = key 4; pub_key = toy.public_key (key 4) })
      lines
    ≡ ok (map (λ l. plaintext l.text) lines)
talk_from_start-delivers_example =
    talk_from_start-delivers toy toy-Laws (key 3) (key 1) (key 4) _ lines refl refl refl usable

-- What `alice` sends for a text, and her state afterwards.
letter : RatchetState → Bytes → Message
unfolding encrypt_to_device
letter s text = elim (encrypt_to_device toy s text) [
  | ok t ↦ record { header = t.header; ciphertext = t.ciphertext; text = text }
  | err _ ↦ record { header = next_header s; ciphertext = []; text = [] }
]

later : RatchetState → Bytes → RatchetState
unfolding encrypt_to_device
later s text = elim (encrypt_to_device toy s text) [ ok t ↦ t.state | err _ ↦ s ]

abbrev texts : List Bytes
texts = (1 ∷ []) ∷ (2 ∷ 2 ∷ []) ∷ (3 ∷ []) ∷ []

abbrev after_one : RatchetState
after_one = later alice (1 ∷ [])

abbrev sent : List Message
sent =
    letter alice (1 ∷ [])
    ∷ letter after_one (2 ∷ 2 ∷ [])
    ∷ letter (later after_one (2 ∷ 2 ∷ [])) (3 ∷ [])
    ∷ []

sending : send_all toy alice texts ≡ ok sent
unfolding send_all letter later next_header serialize_header chain_step seal
sending = refl

-- The last message comes first, and the second one is lost.
abbrev arrivals : List Message
arrivals = letter (later after_one (2 ∷ 2 ∷ [])) (3 ∷ []) ∷ letter alice (1 ∷ []) ∷ []

distinct : IsDistinct arrivals
unfolding letter later next_header serialize_header
distinct = ((omega arith, tt), (tt, tt))

send_receive-any_order_example :
    receive_all toy (key 6) bob arrivals ≡ ok (map (λ j. plaintext j.text) arrivals)
send_receive-any_order_example =
    send_receive-any_order toy toy-Laws (key 6) (key 5) alice bob texts 3 sent arrivals alice-Sends
      bob-Follows refl (omega arith) (omega arith) (omega arith) sending
      (Memᴰ.tail (Memᴰ.tail (Memᴰ.head refl)), (Memᴰ.head refl, tt)) distinct

abbrev first_header : RatchetMessageHeader
first_header = record { dh_pub = toy.public_key (key 2); prev_chain_length = 0; message_number = 0 }

abbrev first_aad : Bytes
first_aad = toy.public_key (key 2) ++ replicate 8 0

first_ciphertext : Bytes
first_ciphertext = seal toy (message_key_at toy 0 (key 5)) first_aad (1 ∷ [])

-- A forged body under the first header.
forged : Received
forged = record { state = bob; result = invalid_message }

forged_answer : decrypt_from_device toy (key 6) bob (0 ∷ 1 ∷ []) (inbound first_header) ≡ ok forged
unfolding forged decrypt_from_device bytes_equal decrypt_same_chain serialize_header validate_header
    find_skipped skip_keys chain_step unseal
forged_answer = refl

decrypt_from_device-Answer_example :
    (h : RatchetMessageHeader) × (validate_header (inbound first_header) ≡ ok h)
    × ((aad : Bytes) × (serialize_header h ≡ ok aad) × Answer toy bob aad (0 ∷ 1 ∷ []) forged)
decrypt_from_device-Answer_example =
    decrypt_from_device-Answer toy (key 6) bob (0 ∷ 1 ∷ []) (inbound first_header) forged
      forged_answer

decrypt_from_device-IsBounded_example : IsBounded forged.state
decrypt_from_device-IsBounded_example =
    decrypt_from_device-IsBounded toy (key 6) bob (0 ∷ 1 ∷ []) (inbound first_header) forged
      (omega arith) forged_answer

decrypt_from_device-returns_example :
    (r : Received) × (decrypt_from_device toy (key 6) bob (0 ∷ 1 ∷ []) (inbound first_header)
      ≡ ok r)
unfolding validate_header
decrypt_from_device-returns_example =
    decrypt_from_device-returns toy (key 6) bob (0 ∷ 1 ∷ []) (inbound first_header) first_header _ _
      refl refl refl

abbrev far_header : RatchetMessageHeader
far_header = record {
  dh_pub = toy.public_key (key 2);
  prev_chain_length = 0;
  message_number = 5000;
}

loss-closes_chain_example :
    (r : Received) × (decrypt_from_device toy (key 6) bob [] (inbound far_header) ≡ ok r)
    × (decrypt_from_device toy (key 6) r.state first_ciphertext (inbound first_header)
        ≡ ok (record { state = r.state; result = duplicate }))
unfolding find_skipped
loss-closes_chain_example =
    loss-closes_chain toy (key 6) (key 6) bob far_header first_header (key 5) [] first_ciphertext
      refl refl (record { pub_key = refl; number = omega arith; previous = omega arith }) refl
      (omega arith) (record { pub_key = refl; number = omega arith; previous = omega arith }) refl
      refl

send_all-genuine_example :
    (ms : List Message) × (send_all toy alice texts ≡ ok ms)
    × All (IsSent toy toy-Laws alice.sending_dh_pub (key 5) 0 3) ms
    × (map (λ j. j.text) ms ≡ texts)
    × IsDistinct ms
send_all-genuine_example =
    send_all-genuine toy toy-Laws (key 5) alice texts 3 alice-Sends refl (omega arith)

-- `carol` has the root key from which `dave`'s chain was made, and has not heard from him.
abbrev carol : RatchetState
carol = record bob { receiving_dh_pub = none; receiving_chain_key = none }

abbrev secret : Bytes
secret = replicate 32 ((32 * 4 + 32 * 2) % 256)

abbrev dave_step : RootStep
dave_step = root_kdf toy (key 1) secret

abbrev dave : RatchetState
dave = record alice {
  root_key = dave_step.new_root_key;
  receiving_dh_pub = some carol.sending_dh_pub;
  sending_chain_key = some dave_step.new_chain_key;
}

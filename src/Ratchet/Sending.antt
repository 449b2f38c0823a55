-- ===== src/Ratchet/Sending.antt =====
-- `encryptToDevice`: what it sends is genuine, and a peer that follows the chain opens it.
use mathlib.Core.List.{Memᴰ}
use konvo_pro.Shared.{
  ℕ, ◌+◌, ◌≤◌, ◌<◌, ◌≡◌, refl, some, List, [], ◌∷◌, ◌++◌, map, arith, length, All, ok, ◌>>=◌, inr,
  ap, subst, sym, All-map,
}
use konvo_pro.Crypto.{Bytes, Primitives, Laws}
use konvo_pro.Ratchet.State.{key_length, RatchetState, plaintext, Thrown}
use konvo_pro.Ratchet.Keys.{chain_step, seal, serialize_header, uint32_be}
use konvo_pro.Ratchet.Chain.{chain_key_at, chain_key_at-add_one}
use konvo_pro.Ratchet.Send.{Sent, next_header, encrypt_to_device}
use konvo_pro.Ratchet.Steps.{Genuine, Follows}
use konvo_pro.Ratchet.Delivery.{HasRoom}
use konvo_pro.Ratchet.AnyOrder.{Message, receive_all, IsDistinct, IsAwaited, receive_all-any_order}

-- The calls one after the other.
unfoldable pub send_all : Primitives → RatchetState → List Bytes → Thrown (List Message)
send_all c s [] = ok []
send_all c s (text ∷ texts) = do
  sent ← encrypt_to_device c s text
  messages ← send_all c sent.state texts
  ok (record { header = sent.header; ciphertext = sent.ciphertext; text = text } ∷ messages)

module _ (c : Primitives) (laws : Laws c) where
  -- The sender stands on the chain `k0`, and its counters fit the header's four bytes.
  pub record Sends (k0 : Bytes) (s : RatchetState) : Type 0 where
    pub chain : s.sending_chain_key ≡ some (chain_key_at c s.sending_message_number k0)
    pub pub_key : length s.sending_dh_pub ≡ key_length
    pub previous : s.previous_sending_chain_length ≤ 0xffffffff

  pub record SentBy (k0 : Bytes) (s : RatchetState) (text : Bytes) : Type 0 where
    pub sent : Sent
    pub answer : encrypt_to_device c s text ≡ ok sent
    pub genuine : Genuine c laws k0 sent.header sent.ciphertext text
    pub from : sent.header.dh_pub ≡ s.sending_dh_pub
    pub number : sent.header.message_number ≡ s.sending_message_number
    pub previous : sent.header.prev_chain_length ≡ s.previous_sending_chain_length
    pub sends : Sends k0 sent.state
    pub count : sent.state.sending_message_number ≡ s.sending_message_number + 1
    -- All else stays.
    pub rest : sent.state ≡ record s {
      sending_chain_key = sent.state.sending_chain_key;
      sending_message_number = sent.state.sending_message_number;
    }
    pub same : sent.state.sending_dh_pub ≡ s.sending_dh_pub

  -- A sender on a chain sends the genuine message of its position, and moves on by one.
  pub encrypt-genuine :
      (k0 : Bytes) (s : RatchetState) (text : Bytes)
      → Sends k0 s
      → s.sending_message_number ≤ 0xffffffff
      → SentBy k0 s text
  unfolding encrypt_to_device next_header serialize_header
  encrypt-genuine k0 s text sends small =
      let step = chain_step c (chain_key_at c s.sending_message_number k0) in
      let aad =
        s.sending_dh_pub
        ++ (uint32_be s.previous_sending_chain_length ++ uint32_be s.sending_message_number) in
      record {
        sent = record {
          state = record s {
            sending_chain_key = some step.next_chain_key;
            sending_message_number = s.sending_message_number + 1;
          };
          ciphertext = seal c step.message_key aad text;
          header = next_header s;
        };
        answer = ground (arith, sends.chain, sends.pub_key);
        genuine = record {
          range = record { pub_key = sends.pub_key; number = small; previous = sends.previous };
          aad = aad;
          header = ground (arith, sends.pub_key);
          sealed = refl;
        };
        from = refl;
        number = refl;
        previous = refl;
        rest = refl;
        sends = record {
          chain = rw chain_key_at-add_one;
          pub_key = sends.pub_key;
          previous = sends.previous;
        };
        same = refl;
        count = refl;
      }

  -- A message of the chain, sent at a position from `lo` and below `hi`.
  pub record IsSent (dh_pub k0 : Bytes) (lo hi : ℕ) (j : Message) : Type 0 where
    pub from : j.header.dh_pub ≡ dh_pub
    pub genuine : Genuine c laws k0 j.header j.ciphertext j.text
    pub above : lo ≤ j.header.message_number
    pub below : j.header.message_number < hi

  module _ (k0 : Bytes) where
    raise :
        {dh_pub : Bytes} {lo lo' hi hi' : ℕ}
        → lo ≤ lo'
        → hi' ≤ hi
        → (j : Message) → IsSent dh_pub k0 lo' hi' j
        → IsSent dh_pub k0 lo hi j
    raise l h j i = record {
      from = i.from;
      genuine = i.genuine;
      above = omega arith;
      below = omega arith;
    }

    -- From a state that sends on the chain of a key, sending any texts throws nothing while the
    -- counter stays within 2^32; the messages carry the texts in order, each genuine for that chain,
    -- and no two have the same number.
    pub send_all-genuine :
        (s : RatchetState) (texts : List Bytes) (hi : ℕ)
        → Sends k0 s
        → s.sending_message_number + length texts ≡ hi
        → hi ≤ 0x100000000
        → (ms : List Message) × (send_all c s texts ≡ ok ms)
          × All (IsSent s.sending_dh_pub k0 s.sending_message_number hi) ms
          × (map (λ j. j.text) ms ≡ texts)
          × IsDistinct ms
    unfolding send_all
    send_all-genuine s [] hi sends e small = ([], refl, tt, refl, tt)
    send_all-genuine s (text ∷ texts) hi sends e small =
        let n = s.sending_message_number in
        let by = encrypt-genuine k0 s text sends (omega arith) in
        let (ms, answer, all, same, distinct) =
          send_all-genuine by.sent.state texts hi by.sends (omega (arith, by.count)) small in
        let m : Message = record {
          header = by.sent.header;
          ciphertext = by.sent.ciphertext;
          text = text;
        } in
        (
          m ∷ ms,
          rw by.answer (rw answer),
          (
            record {
              from = by.from;
              genuine = by.genuine;
              above = omega (arith, by.number);
              below = omega (arith, by.number);
            },
            All-map ms (raise (omega (arith, by.count)) (omega arith)) (
                subst (λ p. All (IsSent p k0 by.sent.state.sending_message_number hi) ms) by.same
                  all),
          ),
          ap (◌∷◌ text) same,
          (All-map ms (λ j i. omega (arith, i.above, by.count, by.number)) all, distinct),
        )

  all_mem : (P : Message → Type 0) (ms : List Message) {j : Message} → All P ms → Memᴰ j ms → P j
  all_mem P [] h m = elim m [ ]
  all_mem P (m ∷ ms) h (Memᴰ.head e) = subst P (sym e) h.0
  all_mem P (m ∷ ms) h (Memᴰ.tail t) = all_mem P ms h.1 t

  awaited :
      (random k0 : Bytes) (a b : RatchetState) (hi : ℕ) (sent ms : List Message)
      → b.receiving_message_number ≤ a.sending_message_number
      → HasRoom b hi
      → All (IsSent a.sending_dh_pub k0 a.sending_message_number hi) sent
      → All (λ j. Memᴰ j sent) ms
      → All (IsAwaited c laws random a.sending_dh_pub k0 hi b) ms
  awaited random k0 a b hi sent ms behind room all picked =
      All-map ms
        (λ j t.
          let i = all_mem _ sent all t in
          record {
            same = i.from;
            genuine = i.genuine;
            can = inr (omega (arith, i.above), omega (arith, i.above, i.below));
            below = i.below;
          })
        picked

  -- `a` sends texts on a chain that `b` follows. If `b` has room for the key of every position that it
  -- has not seen and the counter stays within 2^32, then whichever of the messages arrive, each once
  -- and in any order, `b` opens each to its text.
  pub send_receive-any_order :
      (random k0 : Bytes) (a b : RatchetState) (texts : List Bytes) (hi : ℕ)
      (sent ms : List Message)
      → Sends k0 a
      → Follows c laws a.sending_dh_pub k0 b
      → a.sending_message_number + length texts ≡ hi
      → hi ≤ 0x100000000
      → b.receiving_message_number ≤ a.sending_message_number
      → HasRoom b hi
      → send_all c a texts ≡ ok sent
      → All (λ j. Memᴰ j sent) ms
      → IsDistinct ms
      → receive_all c random b ms ≡ ok (map (λ j. plaintext j.text) ms)
  send_receive-any_order random k0 a b texts hi sent ms sends follows e small behind room sending
        picked distinct =
      let (sent', answer, all', texts', distinct') = send_all-genuine k0 a texts hi sends e small in
      let same : sent' ≡ sent = cc in
      let all = subst (All (IsSent a.sending_dh_pub k0 a.sending_message_number hi)) same all' in
      receive_all-any_order c laws random a.sending_dh_pub k0 hi b ms follows
        (awaited random k0 a b hi sent ms behind room all picked) distinct room

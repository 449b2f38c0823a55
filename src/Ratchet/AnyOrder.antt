-- ===== src/Ratchet/AnyOrder.antt =====
-- A receiver's whole history of one sending chain, in any order of arrival.
use konvo_pro.Shared.{ℕ, ◌<◌, ◌≡◌, ◌≢◌, refl, List, [], ◌∷◌, map, All, ok, ◌>>=◌, sym, subst}
use konvo_pro.Crypto.{Bytes, Primitives, Laws}
use konvo_pro.Ratchet.State.{RatchetState, RatchetMessageHeader, DecryptResult, plaintext, Thrown}
use konvo_pro.Ratchet.Receive.{decrypt_from_device}
use konvo_pro.Ratchet.Delivery.{CanOpen, HasRoom, Delivered, decrypt-genuine}
use konvo_pro.Ratchet.Steps.{inbound, Genuine, Follows}

pub record Message : Type 0 where
  pub header : RatchetMessageHeader
  pub ciphertext : Bytes
  pub text : Bytes

-- The results of the calls, one after the other, each on the state that the last one returned.
unfoldable pub receive_all :
    Primitives → Bytes → RatchetState → List Message → Thrown (List DecryptResult)
receive_all c random s [] = ok []
receive_all c random s (m ∷ ms) = do
  r ← decrypt_from_device c random s m.ciphertext (inbound m.header)
  results ← receive_all c random r.state ms
  ok (r.result ∷ results)

-- No two messages at one position.
abbrev pub IsDistinct : List Message → Type 0
IsDistinct [] = Unit
IsDistinct (m ∷ ms) =
    All (λ j. j.header.message_number ≢ m.header.message_number) ms × IsDistinct ms

module _ (c : Primitives) (laws : Laws c) (random dh_pub k0 : Bytes) (m : ℕ) where
  pub record IsAwaited (s : RatchetState) (j : Message) : Type 0 where
    pub same : j.header.dh_pub ≡ dh_pub
    pub genuine : Genuine c laws k0 j.header j.ciphertext j.text
    pub can : CanOpen s dh_pub j.header.message_number
    pub below : j.header.message_number < m

  module _ (s : RatchetState) (j : Message) (awaited : IsAwaited s j) (room : HasRoom s m) where
    -- The other awaited messages stay awaited when `j` has been delivered.
    still-IsAwaited :
        (d : Delivered c laws random k0 s j.header j.ciphertext j.text) (ms : List Message)
        → All (λ i. i.header.message_number ≢ j.header.message_number) ms
        → All (IsAwaited s) ms
        → All (IsAwaited d.next) ms
    still-IsAwaited d [] ne h = tt
    still-IsAwaited d (i ∷ ms) ne h = (
      record {
        same = h.0.same;
        genuine = h.0.genuine;
        can =
            subst (λ p. CanOpen d.next p i.header.message_number) awaited.same
              (d.keeps _ m ne.0 h.0.below awaited.below room
                (subst (λ p. CanOpen s p i.header.message_number) (sym awaited.same) h.0.can));
        below = h.0.below;
      },
      still-IsAwaited d ms ne.1 h.1,
    )

  -- Messages of one chain at different positions, each awaited, come in any order: with room for
  -- all of them every call succeeds and gives the text that was sent.
  pub receive_all-any_order :
      (s : RatchetState) (ms : List Message)
      → Follows c laws dh_pub k0 s
      → All (IsAwaited s) ms
      → IsDistinct ms
      → HasRoom s m
      → receive_all c random s ms ≡ ok (map (λ j. plaintext j.text) ms)
  unfolding receive_all
  receive_all-any_order s [] follows awaited distinct room = refl
  receive_all-any_order s (j ∷ ms) follows awaited distinct room =
      let a = awaited.0 in
      let d =
        decrypt-genuine c laws k0 s j.header j.ciphertext j.text (rw a.same follows) a.genuine
          random (rw a.same a.can) in
      rw d.answer (
        rw (
          receive_all-any_order d.next ms (subst (λ p. Follows c laws p k0 d.next) a.same d.follows)
            (still-IsAwaited s j a room d ms distinct.0 awaited.1) distinct.1
            (d.room m a.below room)))

-- ===== src/Protocol/Frames.antt =====
-- `decodeEnvelope`, `decodeC2S` and `decodeS2C` of packages/protocol/src/codec.ts: exactly which
-- frames they take, and that they take what `encodeC2S` and its like have made.
use konvo_pro.Shared.{
  ◌≤◌, ◌≡◌, ap, ◌∙◌, subst, some, arith, length, ok, ◌>>=◌, ◌>>◌, ◌↔◌, Result-cases, inl, inr,
}
use konvo_pro.Crypto.{Bytes}
use konvo_pro.Protocol.Value.{Value}
use konvo_pro.Protocol.Messages.{CiphertextEnvelope, ClientToServer, ServerToClient}
use konvo_pro.Protocol.Codec.{
  max_frame_bytes, Checked, Msgpack, decode_msgpack, validate_envelope_shape, validate_c2s_shape,
  validate_s2c_shape, decode_envelope, decode_c2s, decode_s2c,
}
use konvo_pro.Protocol.Shapes.{IsEnvelope, IsEnvelope-sound, envelope_complete}
use konvo_pro.Protocol.ClientFrames.{IsC2s, IsC2s-sound, c2s_complete}
use konvo_pro.Protocol.ServerFrames.{IsS2c, IsS2c-sound, s2c_complete}

module _ (mp : Msgpack) where
  -- The bytes of `v`, within the limit.
  pub record Frames (buf : Bytes) (v : Value) : Type 0 where
    pub fits : length buf ≤ max_frame_bytes
    pub parsed : mp.decode buf ≡ some v

  decode_msgpack_iff : (buf : Bytes) (v : Value) → (decode_msgpack mp buf ≡ ok v) ↔ Frames buf v
  unfolding decode_msgpack
  decode_msgpack_iff buf v = (λ h. ground arith, λ f. ground (arith, f.fits, f.parsed))

  checked_iff :
      (check : Value → Checked) (buf : Bytes) (v : Value)
      → ((decode_msgpack mp buf >>= λ w. check w >> ok w) ≡ ok v)
        ↔ (Frames buf v × (check v ≡ ok tt))
  checked_iff check buf v = (forth, back)
    where
      forth :
          (decode_msgpack mp buf >>= λ w. check w >> ok w) ≡ ok v → Frames buf v × (check v ≡ ok tt)
      forth h = elim (Result-cases (decode_msgpack mp buf)) [
        | inr (e, bad) ↦ absurd (ground arith)
        | inl (w, good) ↦ elim (Result-cases (check w)) [
          | inr (e, bad) ↦ absurd (ground arith)
          | inl (u, fine) ↦
              let same : w ≡ v = ground arith in
              (
                (decode_msgpack_iff buf v).0 (good ∙ ap ok same),
                subst (λ x. check x ≡ ok tt) same fine,
              )
        ]
      ]

      back :
          Frames buf v × (check v ≡ ok tt) → (decode_msgpack mp buf >>= λ w. check w >> ok w) ≡ ok v
      back h = rw ((decode_msgpack_iff buf v).1 h.0, h.1)

  -- `decodeEnvelope` returns `v` exactly for a frame within the limit that parses to `v`, where `v`
  -- has the shape of an envelope.
  pub decode_envelope_iff :
      (buf : Bytes) (v : Value)
      → (decode_envelope mp buf ≡ ok v)
        ↔ (Frames buf v × ((e : CiphertextEnvelope) × IsEnvelope v e))
  unfolding decode_envelope
  decode_envelope_iff buf v = (
    λ h. let (f, c) = (checked_iff validate_envelope_shape buf v).0 h in (f, IsEnvelope-sound v c),
    λ h. (checked_iff validate_envelope_shape buf v).1 (h.0, envelope_complete v h.1.0 h.1.1),
  )

  -- `decodeC2S` returns `v` exactly for a frame within the limit that parses to `v`, where `v` has
  -- the shape of a client's message.
  pub decode_c2s_iff :
      (buf : Bytes) (v : Value)
      → (decode_c2s mp buf ≡ ok v) ↔ (Frames buf v × ((m : ClientToServer) × IsC2s v m))
  unfolding decode_c2s
  decode_c2s_iff buf v = (
    λ h. let (f, c) = (checked_iff validate_c2s_shape buf v).0 h in (f, IsC2s-sound v c),
    λ h. (checked_iff validate_c2s_shape buf v).1 (h.0, c2s_complete v h.1.0 h.1.1),
  )

  -- `decodeS2C` returns `v` exactly for a frame within the limit that parses to `v`, where `v` has
  -- the shape of a server's message.
  pub decode_s2c_iff :
      (buf : Bytes) (v : Value)
      → (decode_s2c mp buf ≡ ok v) ↔ (Frames buf v × ((m : ServerToClient) × IsS2c v m))
  unfolding decode_s2c
  decode_s2c_iff buf v = (
    λ h. let (f, c) = (checked_iff validate_s2c_shape buf v).0 h in (f, IsS2c-sound v c),
    λ h. (checked_iff validate_s2c_shape buf v).1 (h.0, s2c_complete v h.1.0 h.1.1),
  )

  -- Each of the three decoders returns `v` exactly for a frame within the limit that parses to `v`,
  -- where `v` has the shape of a message of its kind: of a client, of the server, or of an envelope.
  pub decode_iff :
      (buf : Bytes) (v : Value)
      → ((decode_c2s mp buf ≡ ok v) ↔ (Frames buf v × ((m : ClientToServer) × IsC2s v m)))
        × ((decode_s2c mp buf ≡ ok v) ↔ (Frames buf v × ((m : ServerToClient) × IsS2c v m)))
        × ((decode_envelope mp buf ≡ ok v)
            ↔ (Frames buf v × ((e : CiphertextEnvelope) × IsEnvelope v e)))
  decode_iff buf v = (decode_c2s_iff buf v, decode_s2c_iff buf v, decode_envelope_iff buf v)

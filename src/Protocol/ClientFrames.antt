-- ===== src/Protocol/ClientFrames.antt =====
-- Which values packages/protocol/src/codec.ts takes for a `ClientToServer` message.
use konvo_pro.Shared.{◌≡◌, refl, true, arith, ok, ◌⊎◌, inl, inr, Bool-cases}
use konvo_pro.Protocol.Value.{Value, bigint, str, get, is_number}
use konvo_pro.Protocol.Messages.{
  ClientToServer, hello, send_envelope, envelope_received, presence_ping, subscribe_room,
  unsubscribe_room, c2s_code,
}
use konvo_pro.Protocol.Codec.{
  unknown_type, require, is_record, assert_record, assert_string, assert_big_int, assert_literal,
  is_c2s_discriminator, validate_c2s_fields, validate_c2s_shape,
}
use konvo_pro.Protocol.Shapes.{
  natural, is_number_iff, then_ok, require-eq_ok, assert_string-eq_ok, assert_big_int-eq_ok,
  IsEnvelope, IsEnvelope-sound, envelope_complete,
}

-- The fields of each message, next to the discriminator.
abbrev pub HasC2sFields : Value → ClientToServer → Type 0
HasC2sFields v (hello device_id) =
    (get v "deviceId" ≡ str device_id) × (get v "protoVersion" ≡ natural 1)
HasC2sFields v (send_envelope nonce envelope) =
    (get v "clientNonce" ≡ str nonce) × IsEnvelope (get v "envelope") envelope
HasC2sFields v (envelope_received id) = get v "envelopeId" ≡ bigint id
HasC2sFields v presence_ping = Unit
HasC2sFields v (subscribe_room slug) = get v "slug" ≡ str slug
HasC2sFields v (unsubscribe_room slug) = get v "slug" ≡ str slug

-- `v` has the shape of the message `m`.
pub record IsC2s (v : Value) (m : ClientToServer) : Type 0 where
  pub object : is_record v ≡ true
  pub discriminator : get v "t" ≡ natural (c2s_code m)
  pub fields : HasC2sFields v m

abbrev Codes : Value → Type 0
Codes t =
    (t ≡ natural 1)
    ⊎ ((t ≡ natural 2)
        ⊎ ((t ≡ natural 3) ⊎ ((t ≡ natural 4) ⊎ ((t ≡ natural 5) ⊎ (t ≡ natural 6)))))

c2s-Codes : (t : Value) → is_c2s_discriminator t ≡ true → Codes t
unfolding is_c2s_discriminator
c2s-Codes t h = elim (Bool-cases (is_number 1 t)) [
  | inl a ↦ inl ((is_number_iff 1 t).0 a)
  | inr a ↦ elim (Bool-cases (is_number 2 t)) [
    | inl b ↦ inr (inl ((is_number_iff 2 t).0 b))
    | inr b ↦ elim (Bool-cases (is_number 3 t)) [
      | inl c ↦ inr (inr (inl ((is_number_iff 3 t).0 c)))
      | inr c ↦ elim (Bool-cases (is_number 4 t)) [
        | inl d ↦ inr (inr (inr (inl ((is_number_iff 4 t).0 d))))
        | inr d ↦ elim (Bool-cases (is_number 5 t)) [
          | inl e ↦ inr (inr (inr (inr (inl ((is_number_iff 5 t).0 e)))))
          | inr e ↦ inr (inr (inr (inr (inr ((is_number_iff 6 t).0 (ground arith))))))
        ]
      ]
    ]
  ]
]

IsC2s-fields_sound :
    (v : Value)
    → is_record v ≡ true
    → Codes (get v "t")
    → validate_c2s_fields v ≡ ok tt
    → (m : ClientToServer) × IsC2s v m
unfolding validate_c2s_fields assert_literal
IsC2s-fields_sound v object (inl t) h =
    let (device, version) =
      then_ok (assert_string (get v "deviceId")) (rw (t, validate_c2s_fields) at h) in
    let d = assert_string-eq_ok _ device in
    (
      hello d.0,
      record {
        object = object;
        discriminator = t;
        fields = (d.1, (is_number_iff 1 _).0 (require-eq_ok _ _ version));
      },
    )
IsC2s-fields_sound v object (inr (inl t)) h =
    let (nonce, body) =
      then_ok (assert_string (get v "clientNonce")) (rw (t, validate_c2s_fields) at h) in
    let n = assert_string-eq_ok _ nonce in
    let e = IsEnvelope-sound _ body in
    (send_envelope n.0 e.0, record { object = object; discriminator = t; fields = (n.1, e.1) })
IsC2s-fields_sound v object (inr (inr (inl t))) h =
    let i = assert_big_int-eq_ok _ (rw (t, validate_c2s_fields) at h) in
    (envelope_received i.0, record { object = object; discriminator = t; fields = i.1 })
IsC2s-fields_sound v object (inr (inr (inr (inl t)))) h =
    (presence_ping, record { object = object; discriminator = t; fields = tt })
IsC2s-fields_sound v object (inr (inr (inr (inr (inl t))))) h =
    let s = assert_string-eq_ok _ (rw (t, validate_c2s_fields) at h) in
    (subscribe_room s.0, record { object = object; discriminator = t; fields = s.1 })
IsC2s-fields_sound v object (inr (inr (inr (inr (inr t))))) h =
    let s = assert_string-eq_ok _ (rw (t, validate_c2s_fields) at h) in
    (unsubscribe_room s.0, record { object = object; discriminator = t; fields = s.1 })

pub IsC2s-sound : (v : Value) → validate_c2s_shape v ≡ ok tt → (m : ClientToServer) × IsC2s v m
unfolding validate_c2s_shape assert_record
IsC2s-sound v h =
    let (object, h) = then_ok (assert_record v) h in
    let (code, h) = then_ok (require (is_c2s_discriminator (get v "t")) unknown_type) h in
    IsC2s-fields_sound v (require-eq_ok _ _ object) (c2s-Codes _ (require-eq_ok _ _ code)) h

c2s_code_known : (m : ClientToServer) → is_c2s_discriminator (natural (c2s_code m)) ≡ true
unfolding is_c2s_discriminator
c2s_code_known presence_ping = refl
c2s_code_known _ = refl

c2s_fields_complete :
    (v : Value) (m : ClientToServer)
    → get v "t" ≡ natural (c2s_code m)
    → HasC2sFields v m
    → validate_c2s_fields v ≡ ok tt
unfolding validate_c2s_fields assert_literal assert_string assert_big_int
c2s_fields_complete v (hello d) t f = rw (t, f.0, f.1)
c2s_fields_complete v (send_envelope n e) t f = rw (t, f.0, envelope_complete _ e f.1)
c2s_fields_complete v (envelope_received i) t f = rw (t, f)
c2s_fields_complete v presence_ping t f = rw t
c2s_fields_complete v (subscribe_room s) t f = rw (t, f)
c2s_fields_complete v (unsubscribe_room s) t f = rw (t, f)

pub c2s_complete : (v : Value) (m : ClientToServer) → IsC2s v m → validate_c2s_shape v ≡ ok tt
unfolding validate_c2s_shape assert_record
c2s_complete v m i =
    rw (i.object, i.discriminator, c2s_code_known m)
      (c2s_fields_complete v m i.discriminator i.fields)

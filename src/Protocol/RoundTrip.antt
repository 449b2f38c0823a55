-- ===== src/Protocol/RoundTrip.antt =====
-- `encodeC2S`, `encodeS2C` and `encodeEnvelope` of packages/protocol/src/codec.ts: what they make is
-- decoded to the message again.
use konvo_pro.Shared.{◌≡◌, refl, subst, Option, none, some, arith, String, ℤ, Result, ok}
use konvo_pro.Crypto.{Bytes}
use konvo_pro.Protocol.Value.{Value, Fields, bigint, str, bytes, obj, end, field, get}
use konvo_pro.Protocol.Messages.{
  CiphertextEnvelope, ClientToServer, hello, send_envelope, envelope_received, presence_ping,
  subscribe_room, unsubscribe_room, c2s_code, ServerToClient, hello_ok, envelope, envelope_queued,
  room_post, error, s2c_code, error_code, BroadcastPost, router_code,
}
use konvo_pro.Protocol.Codec.{
  CodecError, Msgpack, encode_msgpack, decode_c2s, decode_s2c, is_record,
}
use konvo_pro.Protocol.Shapes.{IsEnvelope, natural, integer, optional_value}
use konvo_pro.Protocol.ClientFrames.{IsC2s, HasC2sFields}
use konvo_pro.Protocol.ServerFrames.{IsS2c, HasS2cFields, IsPost}
use konvo_pro.Protocol.Frames.{Frames, decode_c2s_iff, decode_s2c_iff}

-- An absent optional field is no property of the object.
abbrev optional_field : String → (ℤ → Value) → Option ℤ → Fields → Fields
optional_field name make none fs = fs
optional_field name make (some n) fs = field name (make n) fs

-- The objects that the senders build.
pub envelope_value : CiphertextEnvelope → Value
envelope_value e = obj (
    field "sessionId" (str e.session_id) (
      field "senderDeviceId" (str e.sender_device_id) (
        field "recipientDeviceId" (str e.recipient_device_id) (
          field "type" (natural (router_code e.type)) (
            field "ciphertext" (bytes e.ciphertext) (
              optional_field "id" bigint e.id
                (optional_field "createdAt" integer e.created_at end)))))))

pub c2s_value : ClientToServer → Value
c2s_value m = obj (field "t" (natural (c2s_code m)) (fields m))
  where
    fields : ClientToServer → Fields
    fields (hello device_id) =
        field "deviceId" (str device_id) (field "protoVersion" (natural 1) end)
    fields (send_envelope nonce e) =
        field "clientNonce" (str nonce) (field "envelope" (envelope_value e) end)
    fields (envelope_received id) = field "envelopeId" (bigint id) end
    fields presence_ping = end
    fields (subscribe_room slug) = field "slug" (str slug) end
    fields (unsubscribe_room slug) = field "slug" (str slug) end

pub post_value : BroadcastPost → Value
post_value p = obj (
    field "id" (bigint p.id) (
      field "roomId" (str p.room_id) (
        field "authorUserId" (str p.author_user_id) (
          field "authorHandle" (str p.author_handle) (
            field "authorIdentityPub" (bytes p.author_identity_pub) (
              field "body" (str p.body) (
                field "authorSignature" (bytes p.author_signature)
                  (field "createdAt" (integer p.created_at) end))))))))

abbrev s2c_fields : ServerToClient → Fields
s2c_fields (hello_ok time queued) =
    field "serverTimeMs" (integer time) (field "queuedCount" (integer queued) end)
s2c_fields (envelope e) = field "envelope" (envelope_value e) end
s2c_fields (envelope_queued nonce id time) =
    field "clientNonce" (str nonce)
      (field "envelopeId" (bigint id) (field "serverTimeMs" (integer time) end))
s2c_fields (room_post p) = field "post" (post_value p) end
s2c_fields (error code text) =
    field "code" (natural (error_code code)) (field "message" (str text) end)

pub s2c_value : ServerToClient → Value
s2c_value m = obj (field "t" (natural (s2c_code m)) (s2c_fields m))

envelope_value-IsEnvelope : (e : CiphertextEnvelope) → IsEnvelope (envelope_value e) e
unfolding envelope_value get is_record
envelope_value-IsEnvelope e = record {
  object = refl;
  type = refl;
  session = refl;
  sender = refl;
  recipient = refl;
  ciphertext = refl;
  id = read_id e.id e.created_at;
  created = read_created e.id e.created_at;
}
  where
    read_id :
        (i c : Option ℤ)
        → get (obj (optional_field "id" bigint i (optional_field "createdAt" integer c end))) "id"
          ≡ optional_value bigint i
    read_id none none = refl
    read_id none (some c) = refl
    read_id (some i) c = refl

    read_created :
        (i c : Option ℤ)
        → get
            (obj (optional_field "id" bigint i (optional_field "createdAt" integer c end)))
            "createdAt"
          ≡ optional_value integer c
    read_created none none = refl
    read_created none (some c) = refl
    read_created (some i) none = refl
    read_created (some i) (some c) = refl

post_value-IsPost : (p : BroadcastPost) → IsPost (post_value p) p
unfolding post_value get is_record
post_value-IsPost p = record {
  object = refl;
  id = refl;
  room = refl;
  author = refl;
  handle = refl;
  key = refl;
  body = refl;
  signature = refl;
  created = refl;
}

c2s_fields-Has : (m : ClientToServer) → HasC2sFields (c2s_value m) m
unfolding c2s_value get
c2s_fields-Has (hello d) = (refl, refl)
c2s_fields-Has (send_envelope n e) = (refl, envelope_value-IsEnvelope e)
c2s_fields-Has (envelope_received i) = refl
c2s_fields-Has presence_ping = tt
c2s_fields-Has (subscribe_room s) = refl
c2s_fields-Has (unsubscribe_room s) = refl

c2s_value-IsC2s : (m : ClientToServer) → IsC2s (c2s_value m) m
unfolding c2s_value get is_record
c2s_value-IsC2s m = record { object = refl; discriminator = refl; fields = c2s_fields-Has m }

s2c_fields-Has : (m : ServerToClient) → HasS2cFields (s2c_value m) m
unfolding s2c_value get
s2c_fields-Has (hello_ok a b) = (refl, refl)
s2c_fields-Has (envelope e) = envelope_value-IsEnvelope e
s2c_fields-Has (envelope_queued n i t) = (refl, refl, refl)
s2c_fields-Has (room_post p) = post_value-IsPost p
s2c_fields-Has (error c s) = (refl, refl)

s2c_value-IsS2c : (m : ServerToClient) → IsS2c (s2c_value m) m
unfolding s2c_value get is_record
s2c_value-IsS2c m = record { object = refl; discriminator = refl; fields = s2c_fields-Has m }

module _ (mp : Msgpack) where
  unfoldable pub encode_envelope : CiphertextEnvelope → Result CodecError Bytes
  encode_envelope e = encode_msgpack mp (envelope_value e)

  unfoldable pub encode_c2s : ClientToServer → Result CodecError Bytes
  encode_c2s m = encode_msgpack mp (c2s_value m)

  unfoldable pub encode_s2c : ServerToClient → Result CodecError Bytes
  encode_s2c m = encode_msgpack mp (s2c_value m)

  -- What msgpack is relied on for, at one value.
  abbrev pub IsFaithful : Value → Type 0
  IsFaithful v = mp.decode (mp.encode v) ≡ some v

  encode_msgpack-Frames :
      (v : Value) (buf : Bytes) → IsFaithful v → encode_msgpack mp v ≡ ok buf → Frames mp buf v
  unfolding encode_msgpack
  encode_msgpack-Frames v buf faithful h =
      let e : mp.encode v ≡ buf = ground arith in
      record { fits = ground arith; parsed = subst (λ b. mp.decode b ≡ some v) e faithful }

  -- Where msgpack gives the message's object back, a client message that is encoded without an error
  -- is decoded to the same object, which has the message's shape.
  pub decode_c2s-encode_c2s :
      (m : ClientToServer) (buf : Bytes)
      → IsFaithful (c2s_value m)
      → encode_c2s m ≡ ok buf
      → (decode_c2s mp buf ≡ ok (c2s_value m)) × IsC2s (c2s_value m) m
  unfolding encode_c2s
  decode_c2s-encode_c2s m buf faithful h =
      let shape = c2s_value-IsC2s m in
      (
        (decode_c2s_iff mp buf (c2s_value m)).1
            (encode_msgpack-Frames (c2s_value m) buf faithful h, (m, shape)),
        shape,
      )

  -- Where msgpack gives the message's object back, a server message that is encoded without an error
  -- is decoded to the same object, which has the message's shape.
  pub decode_s2c-encode_s2c :
      (m : ServerToClient) (buf : Bytes)
      → IsFaithful (s2c_value m)
      → encode_s2c m ≡ ok buf
      → (decode_s2c mp buf ≡ ok (s2c_value m)) × IsS2c (s2c_value m) m
  unfolding encode_s2c
  decode_s2c-encode_s2c m buf faithful h =
      let shape = s2c_value-IsS2c m in
      (
        (decode_s2c_iff mp buf (s2c_value m)).1
            (encode_msgpack-Frames (s2c_value m) buf faithful h, (m, shape)),
        shape,
      )

-- ===== src/Protocol/ServerFrames.antt =====
-- Which values packages/protocol/src/codec.ts takes for a `ServerToClient` message.
use konvo_pro.Shared.{ℕ, ◌≡◌, refl, true, ◌||◌, arith, ok, ◌⊎◌, inl, inr, Bool-cases}
use konvo_pro.Protocol.Value.{Value, bigint, str, bytes, get, is_number}
use konvo_pro.Protocol.Messages.{
  ServerToClient, hello_ok, envelope, envelope_queued, room_post, error, s2c_code, BroadcastPost,
  ErrorCode, auth_required, rate_limited, invalid_payload, recipient_unknown, internal, error_code,
}
use konvo_pro.Protocol.Codec.{
  unknown_type, require, is_record, assert_record, assert_string, assert_big_int, assert_bytes,
  assert_integer, is_s2c_discriminator, is_error_code, validate_broadcast_post_shape,
  validate_s2c_fields, validate_s2c_shape,
}
use konvo_pro.Protocol.Shapes.{
  natural, integer, is_number_iff, then_ok, require-eq_ok, assert_string-eq_ok,
  assert_big_int-eq_ok, assert_bytes-eq_ok, assert_integer-eq_ok, IsEnvelope, IsEnvelope-sound,
  envelope_complete,
}

pub record IsPost (v : Value) (p : BroadcastPost) : Type 0 where
  pub object : is_record v ≡ true
  pub id : get v "id" ≡ bigint p.id
  pub room : get v "roomId" ≡ str p.room_id
  pub author : get v "authorUserId" ≡ str p.author_user_id
  pub handle : get v "authorHandle" ≡ str p.author_handle
  pub key : get v "authorIdentityPub" ≡ bytes p.author_identity_pub
  pub body : get v "body" ≡ str p.body
  pub signature : get v "authorSignature" ≡ bytes p.author_signature
  pub created : get v "createdAt" ≡ integer p.created_at

IsPost-sound :
    (v : Value) → validate_broadcast_post_shape v ≡ ok tt → (p : BroadcastPost) × IsPost v p
unfolding validate_broadcast_post_shape assert_record
IsPost-sound v h =
    let (object, h) = then_ok (assert_record v) h in
    let (id, h) = then_ok (assert_big_int (get v "id")) h in
    let (room, h) = then_ok (assert_string (get v "roomId")) h in
    let (author, h) = then_ok (assert_string (get v "authorUserId")) h in
    let (handle, h) = then_ok (assert_string (get v "authorHandle")) h in
    let (key, h) = then_ok (assert_bytes (get v "authorIdentityPub")) h in
    let (body, h) = then_ok (assert_string (get v "body")) h in
    let (signature, created) = then_ok (assert_bytes (get v "authorSignature")) h in
    let i = assert_big_int-eq_ok _ id in
    let r = assert_string-eq_ok _ room in
    let a = assert_string-eq_ok _ author in
    let n = assert_string-eq_ok _ handle in
    let k = assert_bytes-eq_ok _ key in
    let b = assert_string-eq_ok _ body in
    let s = assert_bytes-eq_ok _ signature in
    let m = assert_integer-eq_ok _ created in
    (
      record {
        id = i.0;
        room_id = r.0;
        author_user_id = a.0;
        author_handle = n.0;
        author_identity_pub = k.0;
        body = b.0;
        author_signature = s.0;
        created_at = m.0;
      },
      record {
        object = require-eq_ok _ _ object;
        id = i.1;
        room = r.1;
        author = a.1;
        handle = n.1;
        key = k.1;
        body = b.1;
        signature = s.1;
        created = m.1;
      },
    )

post_complete :
    (v : Value) (p : BroadcastPost) → IsPost v p → validate_broadcast_post_shape v ≡ ok tt
unfolding validate_broadcast_post_shape assert_record assert_string assert_bytes assert_big_int
    assert_integer
post_complete v p i =
    rw (i.object, i.id, i.room, i.author, i.handle, i.key, i.body, i.signature, i.created)

-- The fields of each message, next to the discriminator.
abbrev pub HasS2cFields : Value → ServerToClient → Type 0
HasS2cFields v (hello_ok time queued) =
    (get v "serverTimeMs" ≡ integer time) × (get v "queuedCount" ≡ integer queued)
HasS2cFields v (envelope e) = IsEnvelope (get v "envelope") e
HasS2cFields v (envelope_queued nonce id time) =
    (get v "clientNonce" ≡ str nonce)
    × (get v "envelopeId" ≡ bigint id)
    × (get v "serverTimeMs" ≡ integer time)
HasS2cFields v (room_post post) = IsPost (get v "post") post
HasS2cFields v (error code text) =
    (get v "code" ≡ natural (error_code code)) × (get v "message" ≡ str text)

-- `v` has the shape of the message `m`.
pub record IsS2c (v : Value) (m : ServerToClient) : Type 0 where
  pub object : is_record v ≡ true
  pub discriminator : get v "t" ≡ natural (s2c_code m)
  pub fields : HasS2cFields v m

-- Five numbers in a row of tests.
abbrev Codes : ℕ → ℕ → ℕ → ℕ → ℕ → Value → Type 0
Codes a b c d e t =
    (t ≡ natural a) ⊎ ((t ≡ natural b) ⊎ ((t ≡ natural c) ⊎ ((t ≡ natural d) ⊎ (t ≡ natural e))))

five-Codes :
    (a b c d e : ℕ) (t : Value)
    → (is_number a t || (is_number b t || (is_number c t || (is_number d t || is_number e t))))
      ≡ true
    → Codes a b c d e t
five-Codes a b c d e t h = elim (Bool-cases (is_number a t)) [
  | inl p ↦ inl ((is_number_iff a t).0 p)
  | inr p ↦ elim (Bool-cases (is_number b t)) [
    | inl q ↦ inr (inl ((is_number_iff b t).0 q))
    | inr q ↦ elim (Bool-cases (is_number c t)) [
      | inl r ↦ inr (inr (inl ((is_number_iff c t).0 r)))
      | inr r ↦ elim (Bool-cases (is_number d t)) [
        | inl s ↦ inr (inr (inr (inl ((is_number_iff d t).0 s))))
        | inr s ↦ inr (inr (inr (inr ((is_number_iff e t).0 (ground arith)))))
      ]
    ]
  ]
]

error_code_of :
    (v : Value) → is_error_code v ≡ true → (c : ErrorCode) × (v ≡ natural (error_code c))
unfolding is_error_code
error_code_of v h = elim (five-Codes 1 2 3 4 99 v h) [
  | inl e ↦ (auth_required, e)
  | inr (inl e) ↦ (rate_limited, e)
  | inr (inr (inl e)) ↦ (invalid_payload, e)
  | inr (inr (inr (inl e))) ↦ (recipient_unknown, e)
  | inr (inr (inr (inr e))) ↦ (internal, e)
]

IsS2c-fields_sound :
    (v : Value)
    → is_record v ≡ true
    → Codes 101 102 103 104 199 (get v "t")
    → validate_s2c_fields v ≡ ok tt
    → (m : ServerToClient) × IsS2c v m
unfolding validate_s2c_fields
IsS2c-fields_sound v object (inl t) h =
    let (time, queued) =
      then_ok (assert_integer (get v "serverTimeMs")) (rw (t, validate_s2c_fields) at h) in
    let m = assert_integer-eq_ok _ time in
    let q = assert_integer-eq_ok _ queued in
    (hello_ok m.0 q.0, record { object = object; discriminator = t; fields = (m.1, q.1) })
IsS2c-fields_sound v object (inr (inl t)) h =
    let e = IsEnvelope-sound _ (rw (t, validate_s2c_fields) at h) in
    (envelope e.0, record { object = object; discriminator = t; fields = e.1 })
IsS2c-fields_sound v object (inr (inr (inl t))) h =
    let (nonce, h) =
      then_ok (assert_string (get v "clientNonce")) (rw (t, validate_s2c_fields) at h) in
    let (id, time) = then_ok (assert_big_int (get v "envelopeId")) h in
    let n = assert_string-eq_ok _ nonce in
    let i = assert_big_int-eq_ok _ id in
    let m = assert_integer-eq_ok _ time in
    (
      envelope_queued n.0 i.0 m.0,
      record { object = object; discriminator = t; fields = (n.1, i.1, m.1) },
    )
IsS2c-fields_sound v object (inr (inr (inr (inl t)))) h =
    let p = IsPost-sound _ (rw (t, validate_s2c_fields) at h) in
    (room_post p.0, record { object = object; discriminator = t; fields = p.1 })
IsS2c-fields_sound v object (inr (inr (inr (inr t)))) h =
    let (code, text) =
      then_ok (require (is_error_code (get v "code")) unknown_type)
        (rw (t, validate_s2c_fields) at h) in
    let c = error_code_of _ (require-eq_ok _ _ code) in
    let s = assert_string-eq_ok _ text in
    (error c.0 s.0, record { object = object; discriminator = t; fields = (c.1, s.1) })

pub IsS2c-sound : (v : Value) → validate_s2c_shape v ≡ ok tt → (m : ServerToClient) × IsS2c v m
unfolding validate_s2c_shape assert_record is_s2c_discriminator
IsS2c-sound v h =
    let (object, h) = then_ok (assert_record v) h in
    let (code, h) = then_ok (require (is_s2c_discriminator (get v "t")) unknown_type) h in
    IsS2c-fields_sound v (require-eq_ok _ _ object)
      (five-Codes 101 102 103 104 199 _ (require-eq_ok _ _ code)) h

s2c_code_known : (m : ServerToClient) → is_s2c_discriminator (natural (s2c_code m)) ≡ true
unfolding is_s2c_discriminator
s2c_code_known (hello_ok a b) = refl
s2c_code_known _ = refl

error_code_known : (c : ErrorCode) → is_error_code (natural (error_code c)) ≡ true
unfolding is_error_code
error_code_known internal = refl
error_code_known _ = refl

s2c_fields_complete :
    (v : Value) (m : ServerToClient)
    → get v "t" ≡ natural (s2c_code m)
    → HasS2cFields v m
    → validate_s2c_fields v ≡ ok tt
unfolding validate_s2c_fields assert_string assert_big_int assert_integer
s2c_fields_complete v (hello_ok time queued) t f = rw (t, f.0, f.1)
s2c_fields_complete v (envelope e) t f = rw (t, envelope_complete _ e f)
s2c_fields_complete v (envelope_queued n i m) t f = rw (t, f.0, f.1, f.2)
s2c_fields_complete v (room_post p) t f = rw (t, post_complete _ p f)
s2c_fields_complete v (error c s) t f = rw (t, f.0, error_code_known c, f.1)

pub s2c_complete : (v : Value) (m : ServerToClient) → IsS2c v m → validate_s2c_shape v ≡ ok tt
unfolding validate_s2c_shape assert_record
s2c_complete v m i =
    rw (i.object, i.discriminator, s2c_code_known m)
      (s2c_fields_complete v m i.discriminator i.fields)

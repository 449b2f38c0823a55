-- ===== src/Protocol/Shapes.antt =====
-- The shape checks of packages/protocol/src/codec.ts against the types that they assert.
use konvo_pro.Shared.{
  ℕ, ◌≡◌, refl, Bool, true, false, Option, none, some, arith, String, ℤ, int, fraction, pos, negsuc,
  ==_iff, ==_refl, ok, err, ◌>>◌, ◌↔◌, inl, inr, Bool-cases,
}
use konvo_pro.Crypto.{Bytes}
use konvo_pro.Protocol.Value.{
  Value, undefined, null, bool, number, bigint, str, bytes, arr, obj, get, is_number,
}
use konvo_pro.Protocol.Messages.{
  EnvelopeRouterType, message, ack, call, router_code, CiphertextEnvelope,
}
use konvo_pro.Protocol.Codec.{
  CodecError, unknown_type, Checked, require, is_record, assert_record, assert_string,
  assert_integer, assert_big_int, assert_bytes, optional, is_envelope_router_type,
  validate_envelope_shape,
}

pub is_number_iff : (n : ℕ) (v : Value) → (is_number n v ≡ true) ↔ (v ≡ number (int (pos n)))
is_number_iff n v = (forth v, λ e. rw e (==_refl n))
  where
    forth : (w : Value) → is_number n w ≡ true → w ≡ number (int (pos n))
    forth (number (int (pos m))) h = ground (arith, ==_iff m n)
    forth (number (int (negsuc m))) h = cc
    forth (number fraction) h = cc
    forth undefined h = cc
    forth null h = cc
    forth (bool b) h = cc
    forth (bigint m) h = cc
    forth (str s) h = cc
    forth (bytes b) h = cc
    forth (arr xs) h = cc
    forth (obj fs) h = cc

module _ {k : Checked} where
  pub then_ok : (m : Checked) → (m >> k) ≡ ok tt → (m ≡ ok tt) × (k ≡ ok tt)
  then_ok (ok tt) h = (refl, h)
  then_ok (err e) h = cc

pub require-eq_ok : (b : Bool) (e : CodecError) → require b e ≡ ok tt → b ≡ true
require-eq_ok true e h = refl
require-eq_ok false e h = cc

pub assert_string-eq_ok : (v : Value) → assert_string v ≡ ok tt → (s : String) × (v ≡ str s)
unfolding assert_string
assert_string-eq_ok (str s) h = (s, refl)
assert_string-eq_ok _ h = cc

pub assert_bytes-eq_ok : (v : Value) → assert_bytes v ≡ ok tt → (b : Bytes) × (v ≡ bytes b)
unfolding assert_bytes
assert_bytes-eq_ok (bytes b) h = (b, refl)
assert_bytes-eq_ok _ h = cc

pub assert_big_int-eq_ok : (v : Value) → assert_big_int v ≡ ok tt → (n : ℤ) × (v ≡ bigint n)
unfolding assert_big_int
assert_big_int-eq_ok (bigint n) h = (n, refl)
assert_big_int-eq_ok _ h = cc

pub assert_integer-eq_ok : (v : Value) → assert_integer v ≡ ok tt → (n : ℤ) × (v ≡ number (int n))
unfolding assert_integer
assert_integer-eq_ok (number (int n)) h = (n, refl)
assert_integer-eq_ok (number fraction) h = cc
assert_integer-eq_ok _ h = cc

-- An optional field is absent or has the value.
abbrev pub optional_value : (ℤ → Value) → Option ℤ → Value
optional_value make none = undefined
optional_value make (some n) = make n

pub optional-eq_ok :
    (make : ℤ → Value) (check : Value → Checked)
    → ((v : Value) → check v ≡ ok tt → (n : ℤ) × (v ≡ make n))
    → (v : Value) → optional check v ≡ ok tt
    → (o : Option ℤ) × (v ≡ optional_value make o)
unfolding optional
optional-eq_ok make check sound undefined h = (none, refl)
optional-eq_ok make check sound v h = let (n, e) = sound v h in (some n, e)

abbrev pub integer : ℤ → Value
integer n = number (int n)

abbrev pub natural : ℕ → Value
natural n = number (int (pos n))

router_type_of :
    (v : Value)
    → is_envelope_router_type v ≡ true
    → (t : EnvelopeRouterType) × (v ≡ natural (router_code t))
unfolding is_envelope_router_type
router_type_of v h = elim (Bool-cases (is_number 1 v)) [
  | inl one ↦ (message, (is_number_iff 1 v).0 one)
  | inr not_one ↦ elim (Bool-cases (is_number 2 v)) [
    | inl two ↦ (ack, (is_number_iff 2 v).0 two)
    | inr not_two ↦ (call, (is_number_iff 3 v).0 (ground arith))
  ]
]

-- `v` has the shape of the envelope `e`.
pub record IsEnvelope (v : Value) (e : CiphertextEnvelope) : Type 0 where
  pub object : is_record v ≡ true
  pub type : get v "type" ≡ natural (router_code e.type)
  pub session : get v "sessionId" ≡ str e.session_id
  pub sender : get v "senderDeviceId" ≡ str e.sender_device_id
  pub recipient : get v "recipientDeviceId" ≡ str e.recipient_device_id
  pub ciphertext : get v "ciphertext" ≡ bytes e.ciphertext
  pub id : get v "id" ≡ optional_value bigint e.id
  pub created : get v "createdAt" ≡ optional_value integer e.created_at

pub IsEnvelope-sound :
    (v : Value) → validate_envelope_shape v ≡ ok tt → (e : CiphertextEnvelope) × IsEnvelope v e
unfolding validate_envelope_shape assert_record
IsEnvelope-sound v h =
    let (object, h) = then_ok (assert_record v) h in
    let (router, h) = then_ok (require (is_envelope_router_type (get v "type")) unknown_type) h in
    let (session, h) = then_ok (assert_string (get v "sessionId")) h in
    let (sender, h) = then_ok (assert_string (get v "senderDeviceId")) h in
    let (recipient, h) = then_ok (assert_string (get v "recipientDeviceId")) h in
    let (body, h) = then_ok (assert_bytes (get v "ciphertext")) h in
    let (id, created) = then_ok (optional assert_big_int (get v "id")) h in
    let t = router_type_of _ (require-eq_ok _ _ router) in
    let s = assert_string-eq_ok _ session in
    let a = assert_string-eq_ok _ sender in
    let b = assert_string-eq_ok _ recipient in
    let c = assert_bytes-eq_ok _ body in
    let i = optional-eq_ok bigint assert_big_int assert_big_int-eq_ok _ id in
    let m = optional-eq_ok integer assert_integer assert_integer-eq_ok _ created in
    (
      record {
        id = i.0;
        session_id = s.0;
        sender_device_id = a.0;
        recipient_device_id = b.0;
        type = t.0;
        ciphertext = c.0;
        created_at = m.0;
      },
      record {
        object = require-eq_ok _ _ object;
        type = t.1;
        session = s.1;
        sender = a.1;
        recipient = b.1;
        ciphertext = c.1;
        id = i.1;
        created = m.1;
      },
    )

router_type_complete :
    (t : EnvelopeRouterType) → is_envelope_router_type (natural (router_code t)) ≡ true
unfolding is_envelope_router_type
router_type_complete message = refl
router_type_complete _ = refl

optional_big_int : (o : Option ℤ) → optional assert_big_int (optional_value bigint o) ≡ ok tt
unfolding optional assert_big_int
optional_big_int none = refl
optional_big_int _ = refl

optional-integer : (o : Option ℤ) → optional assert_integer (optional_value integer o) ≡ ok tt
unfolding optional assert_integer
optional-integer none = refl
optional-integer _ = refl

pub envelope_complete :
    (v : Value) (e : CiphertextEnvelope) → IsEnvelope v e → validate_envelope_shape v ≡ ok tt
unfolding validate_envelope_shape assert_record assert_string assert_bytes
envelope_complete v e i = rw (
  i.object,
  i.type,
  router_type_complete e.type,
  i.session,
  i.sender,
  i.recipient,
  i.ciphertext,
  i.id,
  i.created,
  optional_big_int e.id,
  optional-integer e.created_at,
)

-- ===== src/Protocol/Codec.antt =====
-- packages/protocol/src/codec.ts: the shape checks of decoded frames, and the size limit.
use konvo_pro.Shared.{
  ℕ, ◌*◌, Bool, true, false, ◌||◌, Option, none, some, int, length, ltb, if◌then◌else◌, Result, ok,
  err, ◌>>=◌, ◌>>◌,
}
use konvo_pro.Crypto.{Bytes}
use konvo_pro.Protocol.Value.{Value, undefined, number, bigint, str, bytes, obj, get, is_number}

abbrev pub max_frame_bytes : ℕ
max_frame_bytes = 1 * 1024 * 1024

pub data CodecError : Type 0 where
  malformed unknown_type version_mismatch : CodecError

abbrev pub Checked : Type 0
Checked = Result CodecError (Unit {0})

-- `assertX` goes on or throws `malformed`.
abbrev pub require : Bool → CodecError → Checked
require true e = ok tt
require false e = err e

-- `typeof v === 'object'`, not null, no array: a byte array passes.
unfoldable pub is_record : Value → Bool
is_record (obj fs) = true
is_record (bytes b) = true
is_record v = false

unfoldable pub assert_record : Value → Checked
unfolding is_record
assert_record v = require (is_record v) malformed

unfoldable pub assert_string : Value → Checked
assert_string (str s) = ok tt
assert_string v = err malformed

unfoldable pub assert_integer : Value → Checked
assert_integer (number (int n)) = ok tt
assert_integer v = err malformed

unfoldable pub assert_big_int : Value → Checked
assert_big_int (bigint n) = ok tt
assert_big_int v = err malformed

unfoldable pub assert_bytes : Value → Checked
assert_bytes (bytes b) = ok tt
assert_bytes v = err malformed

unfoldable pub assert_literal : Value → ℕ → Checked
assert_literal v expected = require (is_number expected v) malformed

-- `if (v !== undefined) check(v)`
unfoldable pub optional : (Value → Checked) → Value → Checked
optional check undefined = ok tt
optional check v = check v

unfoldable pub is_envelope_router_type : Value → Bool
is_envelope_router_type v = is_number 1 v || (is_number 2 v || is_number 3 v)

unfoldable pub validate_envelope_shape : Value → Checked
validate_envelope_shape v = do
  assert_record v
  require (is_envelope_router_type (get v "type")) unknown_type
  assert_string (get v "sessionId")
  assert_string (get v "senderDeviceId")
  assert_string (get v "recipientDeviceId")
  assert_bytes (get v "ciphertext")
  optional assert_big_int (get v "id")
  optional assert_integer (get v "createdAt")

unfoldable pub is_c2s_discriminator : Value → Bool
is_c2s_discriminator v =
    is_number 1 v
    || (is_number 2 v || (is_number 3 v || (is_number 4 v || (is_number 5 v || is_number 6 v))))

-- The `switch` over a known discriminator.
unfoldable pub validate_c2s_fields : Value → Checked
validate_c2s_fields v =
    let t = get v "t" in
    if is_number 1 t
    then (do assert_string (get v "deviceId"); assert_literal (get v "protoVersion") 1)
    else if is_number 2 t
    then (do assert_string (get v "clientNonce"); validate_envelope_shape (get v "envelope"))
    else if is_number 3 t
    then assert_big_int (get v "envelopeId")
    else if is_number 4 t
    then ok tt
    else assert_string (get v "slug")

unfoldable pub validate_c2s_shape : Value → Checked
validate_c2s_shape v = do
  assert_record v
  require (is_c2s_discriminator (get v "t")) unknown_type
  validate_c2s_fields v

unfoldable pub is_s2c_discriminator : Value → Bool
is_s2c_discriminator v =
    is_number 101 v
    || (is_number 102 v || (is_number 103 v || (is_number 104 v || is_number 199 v)))

unfoldable pub is_error_code : Value → Bool
is_error_code v =
    is_number 1 v || (is_number 2 v || (is_number 3 v || (is_number 4 v || is_number 99 v)))

unfoldable pub validate_broadcast_post_shape : Value → Checked
validate_broadcast_post_shape v = do
  assert_record v
  assert_big_int (get v "id")
  assert_string (get v "roomId")
  assert_string (get v "authorUserId")
  assert_string (get v "authorHandle")
  assert_bytes (get v "authorIdentityPub")
  assert_string (get v "body")
  assert_bytes (get v "authorSignature")
  assert_integer (get v "createdAt")

unfoldable pub validate_s2c_fields : Value → Checked
validate_s2c_fields v =
    let t = get v "t" in
    if is_number 101 t
    then (do assert_integer (get v "serverTimeMs"); assert_integer (get v "queuedCount"))
    else if is_number 102 t
    then validate_envelope_shape (get v "envelope")
    else if is_number 103 t
    then (do
      assert_string (get v "clientNonce")
      assert_big_int (get v "envelopeId")
      assert_integer (get v "serverTimeMs"))
    else if is_number 104 t
    then validate_broadcast_post_shape (get v "post")
    else (do require (is_error_code (get v "code")) unknown_type; assert_string (get v "message"))

unfoldable pub validate_s2c_shape : Value → Checked
validate_s2c_shape v = do
  assert_record v
  require (is_s2c_discriminator (get v "t")) unknown_type
  validate_s2c_fields v

-- @msgpack/msgpack, with `useBigInt64`; `none` where `decode` throws.
pub record Msgpack : Type 0 where
  pub encode : Value → Bytes
  pub decode : Bytes → Option Value

abbrev pub Decoded : Type 0
Decoded = Result CodecError Value

module _ (mp : Msgpack) where
  unfoldable pub encode_msgpack : Value → Result CodecError Bytes
  encode_msgpack v =
      let buf = mp.encode v in if ltb max_frame_bytes (length buf) then err malformed else ok buf

  unfoldable pub decode_msgpack : Bytes → Decoded
  decode_msgpack buf =
      if ltb max_frame_bytes (length buf)
      then err malformed
      else (elim (mp.decode buf) [ none ↦ err malformed | some v ↦ ok v ])

  unfoldable pub decode_envelope : Bytes → Decoded
  decode_envelope buf = do v ← decode_msgpack buf; validate_envelope_shape v; ok v

  unfoldable pub decode_c2s : Bytes → Decoded
  decode_c2s buf = do v ← decode_msgpack buf; validate_c2s_shape v; ok v

  unfoldable pub decode_s2c : Bytes → Decoded
  decode_s2c buf = do v ← decode_msgpack buf; validate_s2c_shape v; ok v

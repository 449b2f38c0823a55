-- ===== src/Calls/Inner.antt =====
-- apps/web/src/features/calls/signaling.ts: the payloads of call signals, and their values.
use konvo_pro.Shared.{
  ℕ, ◌≡◌, refl, arith, Bool, true, false, Option, none, some, String, str_eq, int, pos,
  if◌then◌else◌,
}
use konvo_pro.Protocol.Value.{
  Value, undefined, null, number, bigint, bool, bytes, str, obj, arr, Fields, end, field, read, get,
  is_number,
}

pub data HangupReason : Type 0 where
  normal busy declined failed : HangupReason

abbrev pub reason_text : HangupReason → String
reason_text normal = "normal"
reason_text busy = "busy"
reason_text declined = "declined"
reason_text failed = "failed"

-- The call payloads of `InnerPayload`, as `buildInnerPayload` makes them; a candidate is the value
-- that it is on the wire.
pub data InnerPayload : Type 0 where
  call_offer : String → String → String → InnerPayload
  call_answer : String → String → String → InnerPayload
  call_ice_candidate : String → Value → InnerPayload
  call_hangup : String → HangupReason → InnerPayload

-- `InnerType`
abbrev pub inner_code : InnerPayload → ℕ
inner_code (call_offer id sdp fingerprint) = 20
inner_code (call_answer id sdp fingerprint) = 21
inner_code (call_ice_candidate id candidate) = 22
inner_code (call_hangup id reason) = 23

abbrev kind_field : ℕ → Fields → Value
kind_field n fs = obj (field "kind" (number (int (pos n))) fs)

abbrev session_fields : String → String → String → Fields
session_fields id sdp fingerprint =
    field "callId" (str id) (field "sdp" (str sdp) (field "dtlsFingerprint" (str fingerprint) end))

-- The object that `encodeInnerPayload` hands to msgpack.
unfoldable pub inner_value : InnerPayload → Value
inner_value (call_offer id sdp fingerprint) = kind_field 20 (session_fields id sdp fingerprint)
inner_value (call_answer id sdp fingerprint) = kind_field 21 (session_fields id sdp fingerprint)
inner_value (call_ice_candidate id candidate) =
    kind_field 22 (field "callId" (str id) (field "candidate" candidate end))
inner_value (call_hangup id reason) =
    kind_field 23 (field "callId" (str id) (field "reason" (str (reason_text reason)) end))

-- `typeof v === 'object'`
abbrev pub is_object : Value → Bool
is_object undefined = false
is_object null = true
is_object (number n) = false
is_object (bigint n) = false
is_object (bool b) = false
is_object (bytes b) = true
is_object (str s) = false
is_object (obj fs) = true
is_object (arr vs) = true

-- `isCallInnerPayload`, with the payload that the cast reads.
abbrev pub session_of :
    (String → String → String → InnerPayload) → Value → Value → Value → Option InnerPayload
session_of make (str id) (str sdp) (str fingerprint) = some (make id sdp fingerprint)
session_of make _ _ _ = none

abbrev pub ice_of : Value → Value → Option InnerPayload
ice_of (str id) candidate =
    if is_object candidate then some (call_ice_candidate id candidate) else none
ice_of _ _ = none

abbrev pub reason_of : String → Option HangupReason
reason_of s =
    if str_eq s "normal"
    then some normal
    else if str_eq s "busy"
    then some busy
    else if str_eq s "declined"
    then some declined
    else if str_eq s "failed"
    then some failed
    else none

abbrev pub hangup_with : String → Option HangupReason → Option InnerPayload
hangup_with id none = none
hangup_with id (some reason) = some (call_hangup id reason)

abbrev pub hangup_of : Value → Value → Option InnerPayload
hangup_of (str id) (str reason) = hangup_with id (reason_of reason)
hangup_of _ _ = none

unfoldable pub inner_of : Value → Option InnerPayload
inner_of v =
    let kind = get v "kind" in
    let id = get v "callId" in
    if is_number 20 kind
    then session_of call_offer id (get v "sdp") (get v "dtlsFingerprint")
    else if is_number 21 kind
    then session_of call_answer id (get v "sdp") (get v "dtlsFingerprint")
    else if is_number 22 kind
    then ice_of id (get v "candidate")
    else if is_number 23 kind
    then hangup_of id (get v "reason")
    else none

-- A candidate is an object.
abbrev pub IsSendable : InnerPayload → Type 0
IsSendable (call_offer id sdp fingerprint) = Unit
IsSendable (call_answer id sdp fingerprint) = Unit
IsSendable (call_ice_candidate id candidate) = is_object candidate ≡ true
IsSendable (call_hangup id reason) = Unit

pub inner_of-inner_value : (p : InnerPayload) → IsSendable p → inner_of (inner_value p) ≡ some p
unfolding inner_of inner_value get read
inner_of-inner_value (call_offer id sdp fingerprint) sendable = refl
inner_of-inner_value (call_answer id sdp fingerprint) sendable = refl
inner_of-inner_value (call_ice_candidate id candidate) sendable = ground (arith, sendable)
inner_of-inner_value (call_hangup id normal) sendable = refl
inner_of-inner_value (call_hangup id busy) sendable = refl
inner_of-inner_value (call_hangup id declined) sendable = refl
inner_of-inner_value (call_hangup id failed) sendable = refl

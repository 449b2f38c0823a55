-- ===== src/Calls/Signaling.antt =====
-- apps/web/src/features/calls/signaling.ts: `sendCallSignal` and `handleInboundCallEnvelope`.
use konvo_pro.Shared.{
  ℕ, Bool, true, false, Option, none, some, List, [], ◌∷◌, ◌++◌, String, str_eq, if◌then◌else◌, Map,
  Result, ok, err,
}
use konvo_pro.Crypto.{Bytes, Primitives}
use konvo_pro.Protocol.Value.{Value}
use konvo_pro.Protocol.Codec.{Msgpack}
use konvo_pro.Protocol.Messages.{EnvelopeRouterType, message, ack, call, CiphertextEnvelope}
use konvo_pro.Ratchet.State.{
  RatchetState, RatchetError, DecryptResult, plaintext, invalid_message, duplicate, message_lost,
}
use konvo_pro.Ratchet.Receive.{decrypt_from_device}
use konvo_pro.Ratchet.Steps.{inbound}
use konvo_pro.Dm.Wire.{WireFrame, decode_wire_ciphertext}
use konvo_pro.Dm.Tables.{load_session, save_session}
use konvo_pro.Dm.Controller.{DmError, Enqueue, encrypt_for_device}
use konvo_pro.Calls.Fingerprint.{extract_dtls_fingerprint, trim, collapse}
use konvo_pro.Calls.Inner.{
  InnerPayload, call_offer, call_answer, call_ice_candidate, call_hangup, HangupReason, inner_value,
  inner_of,
}

-- `toLowerCase`
pub record Texts : Type 0 where
  pub lower : String → String

pub data Side : Type 0 where
  offer answer : Side

pub data BindingCause : Type 0 where
  mismatch sdp_missing envelope_missing : BindingCause

pub data FingerprintBindingResult : Type 0 where
  bound : String → FingerprintBindingResult
  unbound : BindingCause → String → Option String → FingerprintBindingResult

pub data DropReason : Type 0 where
  wrong_type no_session decrypt_failed malformed : DropReason

pub data HandleInboundCallResult : Type 0 where
  got_offer : String → HandleInboundCallResult
  got_answer : String → HandleInboundCallResult
  got_ice : String → HandleInboundCallResult
  got_hangup : String → HangupReason → HandleInboundCallResult
  dropped : DropReason → HandleInboundCallResult
  fingerprint_mismatch :
      String → Side → BindingCause → String → Option String → HandleInboundCallResult

-- What a signal does to the handlers and the peer connection.
pub data CallEffect : Type 0 where
  on_session : Side → String → String → String → CallEffect
  set_remote_description : Side → String → CallEffect
  add_ice_candidate : Value → CallEffect
  on_hangup : String → HangupReason → CallEffect
  closes : CallEffect
  on_fingerprint_mismatch : String → Side → BindingCause → String → Option String → CallEffect

-- Whether there is a peer connection, and whether it can be closed. The callbacks are all given.
pub record Handlers : Type 0 where
  pub has_peer : Bool
  pub can_close : Bool

pub record Dispatched : Type 0 where
  pub effects : List CallEffect
  pub result : HandleInboundCallResult

abbrev pub only_if : Bool → CallEffect → List CallEffect
only_if true e = e ∷ []
only_if false e = []

module _ (texts : Texts) where
  unfoldable pub canonicalise_fingerprint : String → String
  canonicalise_fingerprint fp = texts.lower (collapse (trim fp))

  unfoldable pub compare_fingerprints : String → String → FingerprintBindingResult
  compare_fingerprints envelope sdp_fp =
      if str_eq (canonicalise_fingerprint envelope) (canonicalise_fingerprint sdp_fp)
      then bound (canonicalise_fingerprint envelope)
      else unbound mismatch envelope (some sdp_fp)

  unfoldable pub verify_dtls_fingerprint_binding : String → String → FingerprintBindingResult
  verify_dtls_fingerprint_binding envelope sdp =
      if str_eq (trim envelope) ""
      then unbound envelope_missing envelope (extract_dtls_fingerprint sdp)
      else elim (extract_dtls_fingerprint sdp) [
        | none ↦ unbound sdp_missing envelope none
        | some sdp_fp ↦ compare_fingerprints envelope sdp_fp
      ]

  unfoldable pub reject_fingerprint_binding :
      String → Side → BindingCause → String → Option String → Handlers → Dispatched
  reject_fingerprint_binding id side cause envelope sdp_fp h = record {
    effects =
        (if h.has_peer then only_if h.can_close closes else [])
        ++ (on_fingerprint_mismatch id side cause envelope sdp_fp ∷ []);
    result = fingerprint_mismatch id side cause envelope sdp_fp;
  }

  abbrev pub result_of : Side → String → HandleInboundCallResult
  result_of offer id = got_offer id
  result_of answer id = got_answer id

  -- The cases of an offer and of an answer.
  unfoldable pub dispatch_session : Side → String → String → String → Handlers → Dispatched
  dispatch_session side id sdp fp h = elim (verify_dtls_fingerprint_binding fp sdp) [
    | unbound cause envelope sdp_fp ↦ reject_fingerprint_binding id side cause envelope sdp_fp h
    | bound canonical ↦ record {
      effects = on_session side id sdp fp ∷ only_if h.has_peer (set_remote_description side sdp);
      result = result_of side id;
    }
  ]

  unfoldable pub dispatch_inner : InnerPayload → Handlers → Dispatched
  dispatch_inner (call_offer id sdp fp) h = dispatch_session offer id sdp fp h
  dispatch_inner (call_answer id sdp fp) h = dispatch_session answer id sdp fp h
  dispatch_inner (call_ice_candidate id candidate) h = record {
    effects = only_if h.has_peer (add_ice_candidate candidate);
    result = got_ice id;
  }
  dispatch_inner (call_hangup id reason) h = record {
    effects = on_hangup id reason ∷ [];
    result = got_hangup id reason;
  }

module _ (mp : Msgpack) where
  unfoldable pub encode_inner_payload : InnerPayload → Bytes
  encode_inner_payload p = mp.encode (inner_value p)

  abbrev pub inner_of_decoded : Option Value → Option InnerPayload
  inner_of_decoded none = none
  inner_of_decoded (some v) = inner_of v

  unfoldable pub decode_inner_payload : Bytes → Option InnerPayload
  decode_inner_payload bytes = inner_of_decoded (mp.decode bytes)

-- The route of a signal, with the nonce and the time that are given or drawn.
pub record CallSignalRoute : Type 0 where
  pub peer_user_id : String
  pub peer_device_id : String
  pub sender_device_id : String
  pub session_id : String
  pub client_nonce : String
  pub now : ℕ

-- The sessions after a call, and what it enqueued or threw.
pub record SignalSent : Type 0 where
  pub sessions : Map RatchetState
  pub result : Result DmError Enqueue

-- The sessions after an inbound call, what it did, and what it returned or threw.
pub record SignalHandled : Type 0 where
  pub sessions : Map RatchetState
  pub effects : List CallEffect
  pub result : Result RatchetError HandleInboundCallResult

abbrev pub drops : Map RatchetState → DropReason → SignalHandled
drops sessions reason = record { sessions = sessions; effects = []; result = ok (dropped reason) }

abbrev pub call_envelope : CallSignalRoute → Bytes → CiphertextEnvelope
call_envelope route wire = record {
  id = none;
  session_id = route.session_id;
  sender_device_id = route.sender_device_id;
  recipient_device_id = route.peer_device_id;
  type = call;
  ciphertext = wire;
  created_at = none;
}

abbrev pub is_call : EnvelopeRouterType → Bool
is_call call = true
is_call message = false
is_call ack = false

module _ (c : Primitives) (mp : Msgpack) (texts : Texts) where
  unfoldable pub send_call_signal : InnerPayload → CallSignalRoute → Map RatchetState → SignalSent
  send_call_signal p route sessions =
      let e =
        encrypt_for_device c sessions route.peer_user_id route.peer_device_id
          (encode_inner_payload mp p) in
      elim e.wire [
        | err x ↦ record { sessions = e.sessions; result = err x }
        | ok wire ↦ record {
          sessions = e.sessions;
          result = ok (record {
            client_nonce = route.client_nonce;
            envelope = call_envelope route wire;
            enqueued_at = route.now;
          });
        }
      ]

  unfoldable pub on_inner : Map RatchetState → Option InnerPayload → Handlers → SignalHandled
  on_inner sessions none h = drops sessions malformed
  on_inner sessions (some p) h =
      let d = dispatch_inner texts p h in
      record { sessions = sessions; effects = d.effects; result = ok d.result }

  unfoldable pub on_opened : Map RatchetState → DecryptResult → Handlers → SignalHandled
  on_opened sessions (plaintext text) h = on_inner sessions (decode_inner_payload mp text) h
  on_opened sessions invalid_message h = drops sessions decrypt_failed
  on_opened sessions duplicate h = drops sessions decrypt_failed
  on_opened sessions (message_lost details) h = drops sessions decrypt_failed

  unfoldable pub open_signal :
      Bytes
      → String
      → String
      → WireFrame
      → Map RatchetState
      → RatchetState
      → Handlers
      → SignalHandled
  open_signal random peer device frame sessions state h =
      elim (decrypt_from_device c random state frame.body (inbound frame.header)) [
        | err e ↦ record { sessions = sessions; effects = []; result = err e }
        | ok opened ↦ on_opened (save_session sessions peer device opened.state) opened.result h
      ]

  unfoldable pub read_signal :
      Bytes → String → String → Option WireFrame → Map RatchetState → Handlers → SignalHandled
  read_signal random peer device none sessions h = drops sessions malformed
  read_signal random peer device (some frame) sessions h =
      elim (load_session sessions peer device) [
        | none ↦ drops sessions no_session
        | some state ↦ open_signal random peer device frame sessions state h
      ]

  unfoldable pub handle_inbound_call_envelope :
      Bytes → CiphertextEnvelope → String → Map RatchetState → Handlers → SignalHandled
  handle_inbound_call_envelope random env peer sessions h =
      if is_call env.type
      then read_signal random peer env.sender_device_id (decode_wire_ciphertext env.ciphertext)
          sessions h
      else drops sessions wrong_type

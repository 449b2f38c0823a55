-- ===== src/Calls/Arrival.antt =====
-- apps/web/src/features/calls/signaling.ts: a signal from one device to another.
use konvo_pro.Shared.{ℕ, ◌≤◌, ◌≡◌, refl, ap, sym, subst, ◌∙◌, arith, some, String, Map, ok}
use konvo_pro.Crypto.{Bytes, Primitives, Laws}
use konvo_pro.Protocol.Codec.{Msgpack}
use konvo_pro.Protocol.Messages.{CiphertextEnvelope}
use konvo_pro.Ratchet.State.{RatchetState, plaintext}
use konvo_pro.Ratchet.Receive.{decrypt_from_device}
use konvo_pro.Ratchet.Steps.{inbound, Follows}
use konvo_pro.Ratchet.Sending.{Sends, encrypt-genuine}
use konvo_pro.Ratchet.Delivery.{CanOpen, decrypt-genuine}
use konvo_pro.Dm.Wire.{WireFrame, decode_wire-encode_wire}
use konvo_pro.Dm.Tables.{load_session, save_session}
use konvo_pro.Dm.Controller.{Enqueue, encrypt_for_device, encrypt_with}
use konvo_pro.Calls.Inner.{InnerPayload, inner_value, IsSendable, inner_of-inner_value}
use konvo_pro.Calls.Signaling.{
  Texts, Handlers, dispatch_inner, encode_inner_payload, decode_inner_payload, CallSignalRoute,
  SignalHandled, call_envelope, send_call_signal, on_inner, on_opened, open_signal,
  handle_inbound_call_envelope,
}
use konvo_pro.Calls.Guard.{handled_call, session_read}

module _ (c : Primitives) (mp : Msgpack) (texts : Texts) where
  -- What msgpack documents, for the value of a payload: it comes back from its encoding.
  abbrev pub DecodesBack : InnerPayload → Type 0
  DecodesBack p = mp.decode (mp.encode (inner_value p)) ≡ some (inner_value p)

  decode_inner-encode_inner :
      (p : InnerPayload)
      → DecodesBack p
      → IsSendable p
      → decode_inner_payload mp (encode_inner_payload mp p) ≡ some p
  unfolding decode_inner_payload encode_inner_payload
  decode_inner-encode_inner p back sendable = ground (arith, back, inner_of-inner_value p sendable)

  signal_opened :
      (random : Bytes) (env : CiphertextEnvelope) (peer : String) (sessions : Map RatchetState)
      → (h : Handlers) (frame : WireFrame) (state next : RatchetState) (text : Bytes)
      → (p : InnerPayload)
      → decrypt_from_device c random state frame.body (inbound frame.header)
        ≡ ok (record { state = next; result = plaintext text })
      → decode_inner_payload mp text ≡ some p
      → open_signal c mp texts random peer env.sender_device_id frame sessions state h ≡ record {
        sessions = save_session sessions peer env.sender_device_id next;
        effects = (dispatch_inner texts p h).effects;
        result = ok (dispatch_inner texts p h).result;
      }
  unfolding open_signal on_opened on_inner
  signal_opened random env peer sessions h frame state next text p opens_so payload =
      ground (arith, opens_so, payload)

  module _ (laws : Laws c) (k0 : Bytes) (p : InnerPayload) (route : CallSignalRoute) where
    -- A signal from one device to another: where the sender's session stands on a chain that the
    -- receiver's session follows, and the receiver can still open its next number, sendCallSignal
    -- enqueues one call envelope, and handleInboundCallEnvelope does on the other side exactly what
    -- dispatchInner does with the payload that was sent.
    pub send_call_signal-handled :
        (sessions theirs : Map RatchetState) (peer : String) (a b : RatchetState)
        → DecodesBack p
        → IsSendable p
        → load_session sessions route.peer_user_id route.peer_device_id ≡ some a
        → Sends c laws k0 a
        → a.sending_message_number ≤ 0xffffffff
        → load_session theirs peer route.sender_device_id ≡ some b
        → Follows c laws a.sending_dh_pub k0 b
        → CanOpen b a.sending_dh_pub a.sending_message_number
        → (random : Bytes) (h : Handlers)
        → (sent : Enqueue) × ((send_call_signal c mp texts p route sessions).result ≡ ok sent)
          × (let r = handle_inbound_call_envelope c mp texts random sent.envelope peer theirs h in
              (r.effects ≡ (dispatch_inner texts p h).effects)
              × (r.result ≡ ok (dispatch_inner texts p h).result))
    unfolding send_call_signal encrypt_for_device encrypt_with
    send_call_signal-handled sessions theirs peer a b back sendable ours sends small session follows
          can random h =
        let text = encode_inner_payload mp p in
        let by = encrypt-genuine c laws k0 a text sends small in
        let head = by.sent.header in
        let body = by.sent.ciphertext in
        let (wire, framed_ok, reads) =
          decode_wire-encode_wire head body by.genuine.range.pub_key by.genuine.range.previous
            by.genuine.range.number in
        let follows' : Follows c laws head.dh_pub k0 b =
          subst (λ (k : Bytes). Follows c laws k k0 b) (sym by.from) follows in
        let can' : CanOpen b head.dh_pub head.message_number =
          subst (λ (k : Bytes). CanOpen b k head.message_number) (sym by.from)
            (subst (λ (n : ℕ). CanOpen b a.sending_dh_pub n) (sym by.number) can) in
        let got = decrypt-genuine c laws k0 b head body text follows' by.genuine random can' in
        let env = call_envelope route wire in
        let frame : WireFrame = record { header = head; body = body } in
        let whole =
          handled_call c mp texts random env peer theirs h refl
          ∙ session_read c mp texts random env peer theirs h frame b reads session
          ∙ signal_opened random env peer theirs h frame b got.next text p got.answer
              (decode_inner-encode_inner p back sendable) in
        (
          record { client_nonce = route.client_nonce; envelope = env; enqueued_at = route.now },
          ground (arith, ours, by.answer, framed_ok),
          (ap (λ (s : SignalHandled). s.effects) whole, ap (λ (s : SignalHandled). s.result) whole),
        )

-- ===== src/Calls/Guard.antt =====
-- apps/web/src/features/calls/signaling.ts: what an inbound call envelope can do.
use konvo_pro.Shared.{
  ◌≡◌, refl, ap, sym, subst, ◌∙◌, arith, false, none, some, List, [], All, String, Map, ok,
  Option-cases, Result-cases, ◌⊎◌, inl, inr,
}
use konvo_pro.Crypto.{Bytes, Primitives}
use konvo_pro.Protocol.Codec.{Msgpack}
use konvo_pro.Protocol.Messages.{EnvelopeRouterType, message, ack, call, CiphertextEnvelope}
use konvo_pro.Ratchet.State.{
  RatchetState, DecryptResult, plaintext, invalid_message, duplicate, message_lost,
}
use konvo_pro.Ratchet.Receive.{decrypt_from_device}
use konvo_pro.Ratchet.Steps.{inbound}
use konvo_pro.Dm.Wire.{WireFrame, decode_wire_ciphertext}
use konvo_pro.Dm.Tables.{load_session, save_session}
use konvo_pro.Calls.Inner.{InnerPayload}
use konvo_pro.Calls.Signaling.{
  Texts, CallEffect, Handlers, decode_inner_payload, SignalHandled, is_call, on_inner, on_opened,
  open_signal, read_signal, handle_inbound_call_envelope,
}
use konvo_pro.Calls.Binding.{IsAllowed, dispatch_inner-IsAllowed}

module _ (c : Primitives) (mp : Msgpack) (texts : Texts) where
  -- The payload that the session of the sending device opens from the envelope.
  pub record Opens (random : Bytes) (env : CiphertextEnvelope) (peer : String)
      (sessions : Map RatchetState) (p : InnerPayload) : Type 0 where
    pub frame : WireFrame
    pub state : RatchetState
    pub next : RatchetState
    pub text : Bytes
    pub kind : env.type ≡ call
    pub reads : decode_wire_ciphertext env.ciphertext ≡ some frame
    pub session : load_session sessions peer env.sender_device_id ≡ some state
    answer :
        decrypt_from_device c random state frame.body (inbound frame.header)
        ≡ ok (record { state = next; result = plaintext text })
    pub payload : decode_inner_payload mp text ≡ some p

  -- Either nothing is done, or what is done is allowed by the payload that the session opened.
  abbrev pub IsGuarded :
      Bytes → CiphertextEnvelope → String → Map RatchetState → List CallEffect → Type 0
  IsGuarded random env peer sessions effects =
      (effects ≡ [])
      ⊎ ((p : InnerPayload) × Opens random env peer sessions p × All (IsAllowed texts p) effects)

  module _ (random : Bytes) (env : CiphertextEnvelope) (peer : String) (sessions : Map RatchetState)
      (h : Handlers) where
    on_opened-IsGuarded :
        (frame : WireFrame) (state next : RatchetState) (result : DecryptResult)
        → (later : Map RatchetState) → env.type ≡ call
        → decode_wire_ciphertext env.ciphertext ≡ some frame
        → load_session sessions peer env.sender_device_id ≡ some state
        → decrypt_from_device c random state frame.body (inbound frame.header)
          ≡ ok (record { state = next; result = result })
        → IsGuarded random env peer sessions (on_opened c mp texts later result h).effects
    unfolding on_opened on_inner
    on_opened-IsGuarded frame state next invalid_message later kind reads session opens_so =
        inl refl
    on_opened-IsGuarded frame state next duplicate later kind reads session opens_so = inl refl
    on_opened-IsGuarded frame state next (message_lost d) later kind reads session opens_so =
        inl refl
    on_opened-IsGuarded frame state next (plaintext text) later kind reads session opens_so =
        elim (Option-cases (decode_inner_payload mp text)) [
          | inl missing ↦ inl (ground (arith, missing))
          | inr (p, payload) ↦ inr (
            p,
            record {
              frame = frame;
              state = state;
              next = next;
              text = text;
              kind = kind;
              reads = reads;
              session = session;
              answer = opens_so;
              payload = payload;
            },
            subst (All (IsAllowed texts p)) (sym (ground (arith, payload)))
                (dispatch_inner-IsAllowed texts p h),
          )
        ]

    read-IsGuarded :
        (frame : WireFrame) (state : RatchetState)
        → env.type ≡ call
        → decode_wire_ciphertext env.ciphertext ≡ some frame
        → load_session sessions peer env.sender_device_id ≡ some state
        → IsGuarded random env peer sessions
            (open_signal c mp texts random peer env.sender_device_id frame sessions state h).effects
    unfolding open_signal
    read-IsGuarded frame state kind reads session =
        elim (Result-cases (decrypt_from_device c random state frame.body (inbound frame.header))) [
          | inr (e, thrown) ↦ inl (ground (arith, thrown))
          | inl (opened, opens_so) ↦
              subst (IsGuarded random env peer sessions) (sym (ground (arith, opens_so))) (
                on_opened-IsGuarded frame state opened.state opened.result
                  (save_session sessions peer env.sender_device_id opened.state) kind reads session
                  opens_so)
        ]

    pub handled_call :
        env.type ≡ call
        → handle_inbound_call_envelope c mp texts random env peer sessions h
          ≡ read_signal c mp texts random peer env.sender_device_id
              (decode_wire_ciphertext env.ciphertext)
              sessions
              h
    unfolding handle_inbound_call_envelope
    handled_call kind = ground (arith, kind)

    handled_other :
        is_call env.type ≡ false
        → (handle_inbound_call_envelope c mp texts random env peer sessions h).effects ≡ []
    unfolding handle_inbound_call_envelope
    handled_other other = ground (arith, other)

    unread :
        decode_wire_ciphertext env.ciphertext ≡ none
        → (read_signal c mp texts random peer env.sender_device_id
            (decode_wire_ciphertext env.ciphertext)
            sessions
            h).effects
          ≡ []
    unfolding read_signal
    unread bad = ground (arith, bad)

    no_session_read :
        (frame : WireFrame)
        → decode_wire_ciphertext env.ciphertext ≡ some frame
        → load_session sessions peer env.sender_device_id ≡ none
        → (read_signal c mp texts random peer env.sender_device_id
            (decode_wire_ciphertext env.ciphertext)
            sessions
            h).effects
          ≡ []
    unfolding read_signal
    no_session_read frame reads missing = ground (arith, reads, missing)

    pub session_read :
        (frame : WireFrame) (state : RatchetState)
        → decode_wire_ciphertext env.ciphertext ≡ some frame
        → load_session sessions peer env.sender_device_id ≡ some state
        → read_signal c mp texts random peer env.sender_device_id
            (decode_wire_ciphertext env.ciphertext)
            sessions
            h
          ≡ open_signal c mp texts random peer env.sender_device_id frame sessions state h
    unfolding read_signal
    session_read frame state reads session = ground (arith, reads, session)

    type-cases : (t : EnvelopeRouterType) → (t ≡ call) ⊎ (is_call t ≡ false)
    type-cases call = inl refl
    type-cases message = inr refl
    type-cases ack = inr refl

    -- Whatever arrives, an inbound call envelope does nothing to the handlers and the peer
    -- connection unless it is a call frame that the stored session of the sending device opens to a
    -- call payload; and then an SDP reaches the application or the peer connection only as that
    -- payload carries it, with a fingerprint that is not blank and that equals, up to case and the
    -- length of the spaces in and around it, the one of the SDP's own first fingerprint line.
    pub handle_inbound_call_envelope-IsGuarded :
        IsGuarded random env peer sessions
          (handle_inbound_call_envelope c mp texts random env peer sessions h).effects
    handle_inbound_call_envelope-IsGuarded = elim (type-cases env.type) [
      | inr other ↦ inl (handled_other other)
      | inl kind ↦
          let e = ap (λ (s : SignalHandled). s.effects) (handled_call kind) in
          elim (Option-cases (decode_wire_ciphertext env.ciphertext)) [
            | inl bad ↦ inl (e ∙ unread bad)
            | inr (frame, reads) ↦
                elim (Option-cases (load_session sessions peer env.sender_device_id)) [
                  | inl missing ↦ inl (e ∙ no_session_read frame reads missing)
                  | inr (state, session) ↦
                      subst (IsGuarded random env peer sessions)
                        (sym (
                          e
                          ∙ ap (λ (s : SignalHandled). s.effects)
                              (session_read frame state reads session)))
                        (read-IsGuarded frame state kind reads session)
                ]
          ]
    ]

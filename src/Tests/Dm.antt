-- ===== src/Tests/Dm.antt =====
-- Direct messages and call signals on the toy cryptography: the theorems at concrete states.
use konvo_pro.Shared.{
  ◌≡◌, refl, arith, true, some, none, [], ◌∷◌, ◌++◌, ok, pos, inr, replicate, lookup, insert,
  String,
}
use konvo_pro.Crypto.{Bytes}
use konvo_pro.Crypto.Toy.{toy, toy-Laws}
use konvo_pro.Protocol.Messages.{CiphertextEnvelope, call}
use konvo_pro.Ratchet.Keys.{seal}
use konvo_pro.Ratchet.Chain.{message_key_at}
use konvo_pro.Trust.Pins.{composite_id}
use konvo_pro.Dm.Tables.{load_session, save_session}
use konvo_pro.Dm.Controller.{Dm, Enqueue, Outgoing, Receiver, Drawn, send_message}
use konvo_pro.Dm.Exchange.{IsRead, carried, send_message-delivered}
use konvo_pro.Calls.Inner.{InnerPayload, call_offer, inner_value}
use konvo_pro.Calls.Guard.{IsGuarded, handle_inbound_call_envelope-IsGuarded}
use konvo_pro.Calls.Arrival.{send_call_signal-handled}
use konvo_pro.Calls.Fingerprint.{
  extract_dtls_fingerprint, first_match, match_line, match_value, strip_prefix, run_of, after_run,
  trim, trim_end, collapse, collapse_from,
}
use konvo_pro.Calls.Signaling.{
  offer, on_session, set_remote_description, dispatch_session, verify_dtls_fingerprint_binding,
  compare_fingerprints, canonicalise_fingerprint, dispatch_inner, send_call_signal, CallSignalRoute,
  Texts, Handlers, handle_inbound_call_envelope,
}
use konvo_pro.Tests.Protocol.{only}
use konvo_pro.Tests.Ratchet.{alice, bob, key, alice-Sends, bob-Follows}

abbrev note : Outgoing
note = record {
  peer_user_id = "bob";
  session_id = "s";
  sender_device_id = "phone";
  body = 104 ∷ 105 ∷ [];
  base_nonce = "n";
  now = 5;
}

abbrev sender_side : Dm
sender_side = record {
  messages = record { rows = []; next_id = 1 };
  threads = [];
  sessions = save_session [] "bob" "tablet" alice;
  enqueued = [];
  changes = [];
}

abbrev receiver_side : Dm
receiver_side = record {
  messages = record { rows = []; next_id = 1 };
  threads = [];
  sessions = save_session [] "alice" "phone" bob;
  enqueued = [];
  changes = [];
}

abbrev tablet : Receiver
tablet = record { device_id = "tablet"; to_text = λ i. "4" }

abbrev drawn : Drawn
drawn = record { random = key 6; nonce = "x"; now = 9 }

alice_loaded : load_session sender_side.sessions "bob" "tablet" ≡ some alice
unfolding load_session lookup save_session insert composite_id
alice_loaded = refl

bob_loaded : load_session receiver_side.sessions "alice" "phone" ≡ some bob
unfolding load_session lookup save_session insert composite_id
bob_loaded = refl

send_message-delivered_example :
    (sent : Enqueue) × ((send_message toy note none ("tablet" ∷ []) sender_side).thrown ≡ none)
    × ((send_message toy note none ("tablet" ∷ []) sender_side).dm.enqueued ≡ [] ++ (sent ∷ []))
    × IsRead toy toy-Laws tablet
        (carried sent.envelope (some (pos 4)) none)
        "alice"
        note.body
        receiver_side
        drawn
        drawn
send_message-delivered_example =
    send_message-delivered toy toy-Laws (key 5) note "tablet" "alice" sender_side receiver_side
      alice bob alice_loaded alice-Sends (omega arith) bob_loaded bob-Follows
      (inr (omega arith, omega arith)) tablet (some (pos 4)) none drawn drawn

-- Every text is in lower case.
abbrev plain_texts : Texts
plain_texts = record { lower = λ s. s }

abbrev ring_sdp : String
ring_sdp = "v=0\r\nb=a=fingerprint:x 0\r\na=fingerprint:sha-256 12:34\r\na=setup:actpass\r\n"

ring_fingerprint : extract_dtls_fingerprint ring_sdp ≡ some "sha-256 12:34"
unfolding extract_dtls_fingerprint first_match match_line match_value strip_prefix run_of after_run
ring_fingerprint = refl

abbrev ring : InnerPayload
ring = call_offer "c1" ring_sdp " sha-256  12:34"

-- A fingerprint with other spaces is bound, and the offer goes to the peer connection.
ring_is_bound :
    (dispatch_inner plain_texts ring (record { has_peer = true; can_close = true })).effects
    ≡ on_session offer "c1" ring_sdp " sha-256  12:34" ∷ set_remote_description offer ring_sdp ∷ []
unfolding dispatch_inner dispatch_session verify_dtls_fingerprint_binding compare_fingerprints
    canonicalise_fingerprint extract_dtls_fingerprint first_match match_line match_value
    strip_prefix run_of after_run trim trim_end collapse collapse_from
ring_is_bound = refl

-- The first message of `alice`, as a frame.
abbrev ring_frame : Bytes
ring_frame =
    toy.public_key (key 2)
    ++ (replicate 8 0
        ++ seal toy (message_key_at toy 0 (key 5)) (toy.public_key (key 2) ++ replicate 8 0)
            (1 ∷ []))

abbrev ring_envelope : CiphertextEnvelope
ring_envelope = record {
  id = none;
  session_id = "s";
  sender_device_id = "phone";
  recipient_device_id = "tablet";
  type = call;
  ciphertext = ring_frame;
  created_at = none;
}

abbrev handlers : Handlers
handlers = record { has_peer = true; can_close = true }

handle_inbound_call_envelope-IsGuarded_example :
    IsGuarded toy
      (only (inner_value ring))
      plain_texts
      (key 6)
      ring_envelope
      "alice"
      receiver_side.sessions
      (handle_inbound_call_envelope toy
        (only (inner_value ring))
        plain_texts
        (key 6)
        ring_envelope
        "alice"
        receiver_side.sessions
        handlers).effects
handle_inbound_call_envelope-IsGuarded_example =
    handle_inbound_call_envelope-IsGuarded toy (only (inner_value ring)) plain_texts (key 6)
      ring_envelope "alice" receiver_side.sessions handlers

abbrev route : CallSignalRoute
route = record {
  peer_user_id = "bob";
  peer_device_id = "tablet";
  sender_device_id = "phone";
  session_id = "s";
  client_nonce = "n";
  now = 5;
}

send_call_signal-handled_example :
    (sent : Enqueue) × ((send_call_signal toy
        (only (inner_value ring))
        plain_texts
        ring
        route
        sender_side.sessions).result
      ≡ ok sent)
    × (let r =
          handle_inbound_call_envelope toy
            (only (inner_value ring))
            plain_texts
            (key 6)
            sent.envelope
            "alice"
            receiver_side.sessions
            handlers in
        (r.effects ≡ (dispatch_inner plain_texts ring handlers).effects)
        × (r.result ≡ ok (dispatch_inner plain_texts ring handlers).result))
send_call_signal-handled_example =
    send_call_signal-handled toy (only (inner_value ring)) plain_texts toy-Laws (key 5) ring route
      sender_side.sessions receiver_side.sessions "alice" alice bob refl tt alice_loaded alice-Sends
      (omega arith) bob_loaded bob-Follows (inr (omega arith, omega arith)) (key 6) handlers

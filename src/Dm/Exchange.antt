-- ===== src/Dm/Exchange.antt =====
-- apps/web/src/features/dm/controller.ts: a message from one controller to another.
use Prim.Native.String.{◌++◌ as cat}
use konvo_pro.Shared.{
  ℕ, suc, ◌≤◌, ◌≡◌, refl, ap, sym, subst, ◌∙◌, arith, Option, none, some, [], ◌∷◌, ◌++◌, String, ℤ,
  eq_refl, Map, lookup-insert, ok,
}
use konvo_pro.Crypto.{Bytes, Primitives, Laws}
use konvo_pro.Protocol.Messages.{message, CiphertextEnvelope}
use konvo_pro.Ratchet.State.{
  RatchetState, DecryptResult, plaintext, duplicate, RatchetMessageHeader,
}
use konvo_pro.Ratchet.Receive.{decrypt_from_device}
use konvo_pro.Ratchet.Steps.{inbound, Genuine, Follows}
use konvo_pro.Ratchet.Sending.{Sends, encrypt-genuine}
use konvo_pro.Ratchet.Delivery.{CanOpen, decrypt-genuine, decrypt_again-duplicate}
use konvo_pro.Trust.Pins.{composite_id}
use konvo_pro.Dm.Wire.{WireFrame, decode_wire_ciphertext, decode_wire-encode_wire}
use konvo_pro.Dm.Tables.{delivered, Message, insert_incoming, load_session, save_session}
use konvo_pro.Dm.Controller.{
  inbound_nonce, Enqueue, Dm, Done, Outgoing, device_envelope, encrypt_with, encrypt_for_device,
  finish_send, send_to_devices, send_message, Receiver, Drawn, new_incoming, on_result, open_frame,
  read_frame, handle_inbound,
}

-- The envelope as the router hands it on: an id and a time are filled in, or not.
abbrev pub carried : CiphertextEnvelope → Option ℤ → Option ℤ → CiphertextEnvelope
carried env id at = record env { id = id; created_at = at }

-- The row of a text that came in an envelope.
abbrev pub received : Receiver → CiphertextEnvelope → String → Bytes → Dm → Drawn → Message
received r env peer text e x = record {
  id = e.messages.next_id;
  thread_id = peer;
  sender_device_id = env.sender_device_id;
  recipient_device_id = r.device_id;
  body = text;
  state = delivered;
  client_nonce = inbound_nonce r env x;
  created_at = x.now;
}

module _ (c : Primitives) (laws : Laws c) where
  -- What a send to one device puts into the outbox.
  pub record Queued (o : Outgoing) (device : String) (d : Dm) (k0 : Bytes) : Type 0 where
    pub header : RatchetMessageHeader
    pub ciphertext : Bytes
    pub wire : Bytes
    pub genuine : Genuine c laws k0 header ciphertext o.body
    pub reads : decode_wire_ciphertext wire ≡ some (record { header = header; body = ciphertext })
    pub done : (send_message c o none (device ∷ []) d).thrown ≡ none
    pub put :
        (send_message c o none (device ∷ []) d).dm.enqueued
        ≡ d.enqueued
          ++ (record {
            client_nonce = cat o.base_nonce (cat ":" device);
            envelope = device_envelope o device wire;
            enqueued_at = o.now;
          }
              ∷ [])

  module _ (k0 : Bytes) (o : Outgoing) (device : String) (d : Dm) (a : RatchetState) where
    pub send_message-Queued :
        load_session d.sessions o.peer_user_id device ≡ some a
        → Sends c laws k0 a
        → a.sending_message_number ≤ 0xffffffff
        → (q : Queued o device d k0) × (q.header.dh_pub ≡ a.sending_dh_pub)
          × (q.header.message_number ≡ a.sending_message_number)
    unfolding send_message send_to_devices encrypt_for_device encrypt_with finish_send
    send_message-Queued session sends small =
        let by = encrypt-genuine c laws k0 a o.body sends small in
        let (wire, framed_ok, reads) =
          decode_wire-encode_wire by.sent.header by.sent.ciphertext by.genuine.range.pub_key
            by.genuine.range.previous by.genuine.range.number in
        (
          record {
            header = by.sent.header;
            ciphertext = by.sent.ciphertext;
            wire = wire;
            genuine = by.genuine;
            reads = reads;
            done = ground (arith, session, by.answer, framed_ok);
            put = ground (arith, session, by.answer, framed_ok);
          },
          by.from,
          by.number,
        )

  read_ready :
      (r : Receiver) (env : CiphertextEnvelope) (x : Drawn) (peer : String) (frame : WireFrame)
      → (state : RatchetState) (e : Dm) → env.type ≡ message
      → decode_wire_ciphertext env.ciphertext ≡ some frame
      → load_session e.sessions peer env.sender_device_id ≡ some state
      → handle_inbound c r env x (some peer) e ≡ open_frame c r env x peer frame state e
  unfolding handle_inbound read_frame
  read_ready r env x peer frame state e kind reads session = ground (arith, kind, reads, session)

  opened :
      (r : Receiver) (env : CiphertextEnvelope) (x : Drawn) (peer : String) (frame : WireFrame)
      → (state next : RatchetState) (result : DecryptResult) (e : Dm)
      → decrypt_from_device c x.random state frame.body (inbound frame.header)
        ≡ ok (record { state = next; result = result })
      → open_frame c r env x peer frame state e ≡ record {
        dm =
            on_result r env x peer result
              (record e { sessions = save_session e.sessions peer env.sender_device_id next });
        thrown = none;
      }
  unfolding open_frame
  opened r env x peer frame state next result e answer = ground (arith, answer)

  saved :
      (sessions : Map RatchetState) (peer device : String) (next : RatchetState)
      → load_session (save_session sessions peer device next) peer device ≡ some next
  unfolding load_session save_session
  saved sessions peer device next =
      let id = composite_id peer device in
      ground (arith, lookup-insert id id next sessions, eq_refl id)

  abbrev after_plain :
      Receiver → CiphertextEnvelope → Drawn → String → Bytes → RatchetState → Dm → Dm
  after_plain r env x peer text next e =
      on_result r env x peer (plaintext text)
        (record e { sessions = save_session e.sessions peer env.sender_device_id next })

  plain_inserts :
      (r : Receiver) (env : CiphertextEnvelope) (x : Drawn) (peer : String) (text : Bytes)
      → (next : RatchetState) (e : Dm)
      → ((after_plain r env x peer text next e).messages
          ≡ insert_incoming e.messages (new_incoming r env x peer text))
        × ((after_plain r env x peer text next e).sessions
            ≡ save_session e.sessions peer env.sender_device_id next)
  unfolding on_result
  plain_inserts r env x peer text next e = (refl, refl)

  duplicate_inserts_nothing :
      (r : Receiver) (env : CiphertextEnvelope) (x : Drawn) (peer : String) (d : Dm)
      → on_result r env x peer duplicate d ≡ d
  unfolding on_result
  duplicate_inserts_nothing r env x peer d = refl

  -- What a peer makes of the envelope, once and a second time.
  pub record IsRead (r : Receiver) (env : CiphertextEnvelope) (peer : String) (text : Bytes)
      (e : Dm) (x again : Drawn) : Type 0 where
    pub fine : (handle_inbound c r env x (some peer) e).thrown ≡ none
    pub inserted : (handle_inbound c r env x (some peer) e).dm.messages ≡ record {
      rows = e.messages.rows ++ (received r env peer text e x ∷ []);
      next_id = suc e.messages.next_id;
    }
    pub once :
        (handle_inbound c r env again
          (some peer)
          (handle_inbound c r env x (some peer) e).dm).dm.messages
        ≡ (handle_inbound c r env x (some peer) e).dm.messages

  module _ (k0 : Bytes) (r : Receiver) (env : CiphertextEnvelope) (peer : String) (e : Dm) where
    handle_inbound-IsRead :
        (h : RatchetMessageHeader) (ciphertext text : Bytes) (b : RatchetState) (x again : Drawn)
        → env.type ≡ message
        → decode_wire_ciphertext env.ciphertext ≡ some (record { header = h; body = ciphertext })
        → load_session e.sessions peer env.sender_device_id ≡ some b
        → Genuine c laws k0 h ciphertext text
        → Follows c laws h.dh_pub k0 b
        → CanOpen b h.dh_pub h.message_number
        → IsRead r env peer text e x again
    handle_inbound-IsRead h ciphertext text b x again kind reads session genuine follows can =
        let frame : WireFrame = record { header = h; body = ciphertext } in
        let got = decrypt-genuine c laws k0 b h ciphertext text follows genuine x.random can in
        let first = after_plain r env x peer text got.next e in
        let one : handle_inbound c r env x (some peer) e ≡ record { dm = first; thrown = none } =
          read_ready r env x peer frame b e kind reads session
          ∙ opened r env x peer frame b got.next (plaintext text) e got.answer in
        let kept = plain_inserts r env x peer text got.next e in
        let resumed : load_session first.sessions peer env.sender_device_id ≡ some got.next =
          ap (λ (s : Map RatchetState). load_session s peer env.sender_device_id) kept.1
          ∙ saved e.sessions peer env.sender_device_id got.next in
        let twice =
          decrypt_again-duplicate c laws k0 b h ciphertext text follows genuine x.random got
            again.random in
        let two : (handle_inbound c r env again (some peer) first).dm.messages ≡ first.messages =
          ap (λ (s : Done). s.dm.messages)
            (read_ready r env again peer frame got.next first kind reads resumed
              ∙ opened r env again peer frame got.next got.next duplicate first twice)
          ∙ ap (λ (s : Dm). s.messages)
              (duplicate_inserts_nothing r env again peer (record first {
                sessions = save_session first.sessions peer env.sender_device_id got.next;
              })) in
        record {
          fine = ap (λ (s : Done). s.thrown) one;
          inserted = ap (λ (s : Done). s.dm.messages) one ∙ kept.0;
          once =
              subst
                (λ (s : Done).
                  (handle_inbound c r env again (some peer) s.dm).dm.messages ≡ s.dm.messages)
                (sym one) two;
        }

  -- A message from one controller to another: where alice's session for the device stands on a chain
  -- that bob's session for hers follows, and bob can still open its next number, sendMessage throws
  -- nothing and puts one envelope into the outbox; whatever id and time the router gives it,
  -- handleInbound on bob's side inserts one row with exactly the text that alice sent, as delivered,
  -- and a second copy of the envelope leaves bob's messages as they are.
  pub send_message-delivered :
      (k0 : Bytes) (o : Outgoing) (device peer : String) (d e : Dm) (a b : RatchetState)
      → load_session d.sessions o.peer_user_id device ≡ some a
      → Sends c laws k0 a
      → a.sending_message_number ≤ 0xffffffff
      → load_session e.sessions peer o.sender_device_id ≡ some b
      → Follows c laws a.sending_dh_pub k0 b
      → CanOpen b a.sending_dh_pub a.sending_message_number
      → (r : Receiver) (id at : Option ℤ) (x again : Drawn)
      → let s = send_message c o none (device ∷ []) d in
        (sent : Enqueue) × (s.thrown ≡ none)
        × (s.dm.enqueued ≡ d.enqueued ++ (sent ∷ []))
        × IsRead r (carried sent.envelope id at) peer o.body e x again
  unfolding device_envelope
  send_message-delivered k0 o device peer d e a b ours sends small theirs follows can r id at x
        again =
      let (q, from, number) = send_message-Queued k0 o device d a ours sends small in
      let follows' : Follows c laws q.header.dh_pub k0 b =
        subst (λ (p : Bytes). Follows c laws p k0 b) (sym from) follows in
      let can' : CanOpen b q.header.dh_pub q.header.message_number =
        subst (λ (p : Bytes). CanOpen b p q.header.message_number) (sym from)
          (subst (λ (n : ℕ). CanOpen b a.sending_dh_pub n) (sym number) can) in
      (
        record {
          client_nonce = cat o.base_nonce (cat ":" device);
          envelope = device_envelope o device q.wire;
          enqueued_at = o.now;
        },
        q.done,
        q.put,
        handle_inbound-IsRead k0 r (carried (device_envelope o device q.wire) id at) peer e q.header
            q.ciphertext o.body b x again refl q.reads theirs q.genuine follows' can',
      )

-- ===== src/Gateway/Ledger.antt =====
-- The table of envelopes and the channels over any sequence of SEND_ENVELOPE frames, of any devices:
-- one row for a sender and a nonce, one publish for a row.
use konvo_pro.Shared.{
  ℕ, suc, ◌<◌, ◌≡◌, refl, arith, inl, inr, String, eq_iff, List, [], ◌∷◌, ◌++◌, Option, none, some,
  All, All-append, All-map, ◌==◌, ==_refl, if◌then◌else◌,
}
use konvo_pro.Protocol.Messages.{CiphertextEnvelope}
use konvo_pro.Gateway.State.{EnvelopeRow, Publish, Server, WsContext}
use konvo_pro.Gateway.Envelopes.{SendDeps, Outside, select_by_nonce, new_row, on_send_envelope}
use konvo_pro.Gateway.Outcome.{Kept, Stored, IsQuiet, on_send_envelope-Outcome}

-- One frame, with the connection it came on.
pub record Sending : Type 0 where
  pub deps : SendDeps
  pub out : Outside
  pub ctx : WsContext
  pub nonce : String
  pub env : CiphertextEnvelope

abbrev pub after_send : Server → Sending → Server
after_send s k = (on_send_envelope k.deps k.out s k.ctx k.nonce k.env).server

unfoldable pub run_sends : Server → List Sending → Server
run_sends s [] = s
run_sends s (k ∷ ks) = run_sends (after_send s k) ks

abbrev pub AreQuiet : List Sending → Type 0
AreQuiet = All (λ (k : Sending). IsQuiet k.out)

unfoldable pub row_of : ℕ → List EnvelopeRow → Option EnvelopeRow
row_of id [] = none
row_of id (r ∷ rs) = if r.id == id then some r else row_of id rs

-- The published id is that of a row for the channel's device.
pub record IsBacked (rows : List EnvelopeRow) (p : Publish) : Type 0 where
  pub row : EnvelopeRow
  pub found : row_of p.envelope_id rows ≡ some row
  pub recipient : row.recipient_device ≡ p.recipient

abbrev pub HasOneRowPerNonce : List EnvelopeRow → Type 0
HasOneRowPerNonce [] = Unit
HasOneRowPerNonce (r ∷ rs) =
    (select_by_nonce r.sender_device r.client_nonce rs ≡ none) × HasOneRowPerNonce rs

abbrev pub IsOncePerRow : List Publish → Type 0
IsOncePerRow [] = Unit
IsOncePerRow (p ∷ ps) = All (λ (q : Publish). p.envelope_id < q.envelope_id) ps × IsOncePerRow ps

pub record IsLedger (s : Server) : Type 0 where
  pub ids : All (λ (r : EnvelopeRow). r.id < s.next_id) s.envelopes
  pub nonces : HasOneRowPerNonce s.envelopes
  pub backed : All (IsBacked s.envelopes) s.published
  pub numbered : All (λ (p : Publish). p.envelope_id < s.next_id) s.published
  pub once : IsOncePerRow s.published

pub select-append_found :
    (sender nonce : String) (rs ys : List EnvelopeRow) {r : EnvelopeRow}
    → select_by_nonce sender nonce rs ≡ some r
    → select_by_nonce sender nonce (rs ++ ys) ≡ some r
unfolding select_by_nonce
select-append_found sender nonce [] ys h = absurd (ground arith)
select-append_found sender nonce (x ∷ rs) ys {r} h =
    ground (arith, h, select-append_found sender nonce rs ys {r = r})

pub select-append_none :
    (sender nonce : String) (rs ys : List EnvelopeRow)
    → select_by_nonce sender nonce rs ≡ none
    → select_by_nonce sender nonce (rs ++ ys) ≡ select_by_nonce sender nonce ys
unfolding select_by_nonce
select-append_none sender nonce [] ys h = refl
select-append_none sender nonce (x ∷ rs) ys h =
    ground (arith, h, select-append_none sender nonce rs ys)

HasOneRowPerNonce-append :
    (rs : List EnvelopeRow) (x : EnvelopeRow)
    → select_by_nonce x.sender_device x.client_nonce rs ≡ none
    → HasOneRowPerNonce rs
    → HasOneRowPerNonce (rs ++ (x ∷ []))
unfolding select_by_nonce
HasOneRowPerNonce-append [] x fresh h = (refl, tt)
HasOneRowPerNonce-append (r ∷ rs) x fresh h = (
  ground (
    arith,
    fresh,
    h.0,
    eq_iff r.sender_device x.sender_device,
    eq_iff r.client_nonce x.client_nonce,
    eq_iff x.sender_device r.sender_device,
    eq_iff x.client_nonce r.client_nonce,
    select-append_none r.sender_device r.client_nonce rs (x ∷ []),
  ),
  HasOneRowPerNonce-append rs x (ground (arith, fresh)) h.1,
)

row_of-append_found :
    (id : ℕ) (rs ys : List EnvelopeRow) {r : EnvelopeRow}
    → row_of id rs ≡ some r
    → row_of id (rs ++ ys) ≡ some r
unfolding row_of
row_of-append_found id [] ys h = absurd (ground arith)
row_of-append_found id (x ∷ rs) ys {r} h = ground (arith, h, row_of-append_found id rs ys {r = r})

row_of-append_last :
    (rs : List EnvelopeRow) (x : EnvelopeRow)
    → All (λ (r : EnvelopeRow). r.id < x.id) rs
    → row_of x.id (rs ++ (x ∷ [])) ≡ some x
unfolding row_of
row_of-append_last [] x h = rw (==_refl x.id) refl
row_of-append_last (r ∷ rs) x h = ground (arith, h.0, row_of-append_last rs x h.1)

IsOncePerRow-append :
    (ps : List Publish) (q : Publish)
    → All (λ (p : Publish). p.envelope_id < q.envelope_id) ps
    → IsOncePerRow ps
    → IsOncePerRow (ps ++ (q ∷ []))
IsOncePerRow-append [] q below h = (tt, tt)
IsOncePerRow-append (p ∷ ps) q below h = (
  All-append (λ (x : Publish). p.envelope_id < x.envelope_id) ps (q ∷ []) h.0 (below.0, tt),
  IsOncePerRow-append ps q below.1 h.1,
)

IsBacked-append :
    (rows more : List EnvelopeRow) (p : Publish) → IsBacked rows p → IsBacked (rows ++ more) p
IsBacked-append rows more p b = record {
  row = b.row;
  found = row_of-append_found p.envelope_id rows more b.found;
  recipient = b.recipient;
}

Kept-IsLedger : {s t : Server} → Kept s t → IsLedger s → IsLedger t
Kept-IsLedger {s} {t} k l = record {
  ids = rw (k.rows) (All-map s.envelopes (λ r lt. omega (arith, lt, k.next)) l.ids);
  nonces = rw (k.rows) l.nonces;
  backed = rw (k.rows, k.published) l.backed;
  numbered = rw (k.published) (All-map s.published (λ p lt. omega (arith, lt, k.next)) l.numbered);
  once = rw (k.published) l.once;
}

module _ {env : CiphertextEnvelope} {nonce : String} {s t : Server} (k : Stored env nonce s t)
    (l : IsLedger s) where
  abbrev row : EnvelopeRow
  row = new_row s.next_id env nonce

  old-IsBacked : All (IsBacked t.envelopes) s.published
  old-IsBacked =
      rw (k.rows) (All-map s.published (λ p. IsBacked-append s.envelopes (row ∷ []) p) l.backed)

  old_numbered : All (λ (p : Publish). p.envelope_id < t.next_id) s.published
  old_numbered = rw (k.next) (All-map s.published (λ p lt. omega (arith, lt)) l.numbered)

  new-IsBacked :
      IsBacked t.envelopes (record { recipient = env.recipient_device_id; envelope_id = s.next_id })
  new-IsBacked = record {
    row = row;
    found = rw (k.rows) (row_of-append_last s.envelopes row l.ids);
    recipient = refl;
  }

  Stored-IsLedger : IsLedger t
  Stored-IsLedger = record {
    ids =
        rw (k.rows, k.next)
          (All-append (λ (r : EnvelopeRow). r.id < suc s.next_id) s.envelopes (row ∷ [])
            (All-map s.envelopes (λ r lt. omega (arith, lt)) l.ids) (omega arith, tt));
    nonces = rw (k.rows) (HasOneRowPerNonce-append s.envelopes row k.fresh l.nonces);
    backed = elim k.published [
      | inl same ↦ rw same old-IsBacked
      | inr more ↦
          rw more (All-append (IsBacked t.envelopes) s.published _ old-IsBacked (new-IsBacked, tt))
    ];
    numbered = elim k.published [
      | inl same ↦ rw same old_numbered
      | inr more ↦ rw more (
          All-append (λ (p : Publish). p.envelope_id < t.next_id) s.published _ old_numbered
            (rw (k.next) (omega arith), tt))
    ];
    once = elim k.published [
      | inl same ↦ rw same l.once
      | inr more ↦ rw more (IsOncePerRow-append s.published _ l.numbered l.once)
    ];
  }

-- From a sound ledger, after any SEND_ENVELOPE frames on any connections and with no other writer of
-- the table, the ledger is sound: a sender and a nonce have at most one row, ids are below the
-- sequence, every publish is of a row and on the channel of its recipient, and no row is published
-- twice.
pub run_sends-IsLedger :
    (s : Server) (ks : List Sending) → AreQuiet ks → IsLedger s → IsLedger (run_sends s ks)
unfolding run_sends
run_sends-IsLedger s [] quiet l = l
run_sends-IsLedger s (k ∷ ks) quiet l =
    run_sends-IsLedger (after_send s k) ks quiet.1
      (elim (on_send_envelope-Outcome k.deps k.out k.ctx k.env k.nonce s quiet.0) [
        | inl kept ↦ Kept-IsLedger kept l
        | inr (own, stored) ↦ Stored-IsLedger stored l
      ])

-- A row that is there stays the row of its nonce.
pub select-run_sends :
    (sender nonce : String) (s : Server) (ks : List Sending) {r : EnvelopeRow}
    → AreQuiet ks
    → select_by_nonce sender nonce s.envelopes ≡ some r
    → select_by_nonce sender nonce (run_sends s ks).envelopes ≡ some r
unfolding run_sends
select-run_sends sender nonce s [] quiet found = found
select-run_sends sender nonce s (k ∷ ks) quiet found =
    select-run_sends sender nonce (after_send s k) ks quiet.1
      (elim (on_send_envelope-Outcome k.deps k.out k.ctx k.env k.nonce s quiet.0) [
        | inl kept ↦ rw (kept.rows) found
        | inr (own, stored) ↦
            rw (stored.rows) (select-append_found sender nonce s.envelopes _ found)
      ])

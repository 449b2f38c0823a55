-- ===== src/Outbox/Enqueue.antt =====
-- `enqueue` of apps/web/src/db/repositories/outbox.ts: what it leaves of the rows.
use konvo_pro.Shared.{
  ℕ, ◌-◌, ◌≤◌, ◌<◌, ◌≡◌, refl, sym, ◌∙◌, ap, subst, arith, false, Option, none, some, List, [], ◌∷◌,
  ◌++◌, length, drop, length-append, length-drop, All, All-append, String, str_eq, eq_refl, eq_iff,
  Option-cases, inl, inr,
}
use konvo_pro.Protocol.Messages.{CiphertextEnvelope}
use konvo_pro.Outbox.{
  OutboxEntry, OutboxRow, OutboxTable, Enqueued, with_id, outbox_max_age_ms, sweep_aged,
  sweep_capacity, insert_new, enqueue, time_or,
}
use konvo_pro.Outbox.Rows.{find_nonce, recent, IsAscending, HasUniqueNonces, TableLaws}
use konvo_pro.Outbox.Sweeps.{
  recent-IsAscending, recent-find_none, drop-IsAscending, drop-find_none, recent-HasUniqueNonces,
  drop-HasUniqueNonces, rows-sweep_aged, rows-sweep_capacity,
}

-- The rows are in the order of their keys, with one for a nonce, and at most 1000.
pub record IsOutbox (rs : List OutboxEntry) : Type 0 where
  pub ascending : IsAscending rs
  pub nonces : HasUniqueNonces rs
  pub fits : length rs ≤ 1000

IsAscending-append :
    (rs : List OutboxEntry) (x : OutboxEntry)
    → All (λ (r : OutboxEntry). r.id < x.id) rs
    → IsAscending rs
    → IsAscending (rs ++ (x ∷ []))
IsAscending-append [] x below h = (tt, tt)
IsAscending-append (r ∷ rs) x below h = (
  All-append (λ (q : OutboxEntry). r.id < q.id) rs (x ∷ []) h.0 (below.0, tt),
  IsAscending-append rs x below.1 h.1,
)

find_nonce-append_other :
    (nonce : String) (rs : List OutboxEntry) (x : OutboxEntry)
    → find_nonce nonce rs ≡ none
    → str_eq x.client_nonce nonce ≡ false
    → find_nonce nonce (rs ++ (x ∷ [])) ≡ none
unfolding find_nonce
find_nonce-append_other nonce [] x fresh e = ground (arith, e)
find_nonce-append_other nonce (r ∷ rs) x fresh e =
    ground (arith, fresh, e, find_nonce-append_other nonce rs x)

HasUniqueNonces-append :
    (rs : List OutboxEntry) (x : OutboxEntry)
    → find_nonce x.client_nonce rs ≡ none
    → HasUniqueNonces rs
    → HasUniqueNonces (rs ++ (x ∷ []))
unfolding find_nonce
HasUniqueNonces-append [] x fresh h = (refl, tt)
HasUniqueNonces-append (r ∷ rs) x fresh h = (
  find_nonce-append_other r.client_nonce rs x h.0 (
      ground
        (arith, fresh, eq_iff r.client_nonce x.client_nonce, eq_iff x.client_nonce r.client_nonce)),
  HasUniqueNonces-append rs x (ground (arith, fresh)) h.1,
)

find_nonce-append :
    (nonce : String) (rs : List OutboxEntry) (x : OutboxEntry)
    → find_nonce nonce rs ≡ none
    → x.client_nonce ≡ nonce
    → find_nonce nonce (rs ++ (x ∷ [])) ≡ some x
unfolding find_nonce
find_nonce-append nonce [] x fresh e = rw e (rw (eq_refl nonce) refl)
find_nonce-append nonce (r ∷ rs) x fresh e = ground (arith, fresh, find_nonce-append nonce rs x)

module _ {T : Type 0} (tb : OutboxTable T) (laws : TableLaws tb) where
  -- What the sweeps leave before an insert: the rows of the last seven days, the newest 999 of them.
  pub kept : ℕ → List OutboxEntry → List OutboxEntry
  kept now rs = let young = recent (now - outbox_max_age_ms) rs in drop (length young - 999) young

  swept : ℕ → T → T
  swept now t = sweep_capacity tb 999 (sweep_aged tb now t).0

  rows-swept :
      (now : ℕ) (t : T) → IsAscending (tb.rows t) → tb.rows (swept now t) ≡ kept now (tb.rows t)
  unfolding swept kept
  rows-swept now t asc =
      let cutoff = now - outbox_max_age_ms in
      let aged = rows-sweep_aged tb laws now t asc in
      rows-sweep_capacity tb laws 999 (sweep_aged tb now t).0
        (subst IsAscending (sym aged) (recent-IsAscending cutoff (tb.rows t) asc))
      ∙ ap (λ rs. drop (length rs - 999) rs) aged

  kept-find_none :
      (now : ℕ) (nonce : String) (rs : List OutboxEntry)
      → find_nonce nonce rs ≡ none
      → find_nonce nonce (kept now rs) ≡ none
  unfolding kept
  kept-find_none now nonce rs h =
      let cutoff = now - outbox_max_age_ms in
      drop-find_none (length (recent cutoff rs) - 999) nonce (recent cutoff rs)
        (recent-find_none cutoff nonce rs h)

  kept-IsAscending : (now : ℕ) (rs : List OutboxEntry) → IsAscending rs → IsAscending (kept now rs)
  unfolding kept
  kept-IsAscending now rs h =
      let cutoff = now - outbox_max_age_ms in
      drop-IsAscending (length (recent cutoff rs) - 999) (recent cutoff rs)
        (recent-IsAscending cutoff rs h)

  kept-HasUniqueNonces :
      (now : ℕ) (rs : List OutboxEntry) → HasUniqueNonces rs → HasUniqueNonces (kept now rs)
  unfolding kept
  kept-HasUniqueNonces now rs h =
      let cutoff = now - outbox_max_age_ms in
      drop-HasUniqueNonces (length (recent cutoff rs) - 999) (recent cutoff rs)
        (recent-HasUniqueNonces cutoff rs h)

  length-kept : (now : ℕ) (rs : List OutboxEntry) → length (kept now rs) ≤ 999
  unfolding kept
  length-kept now rs =
      let young = recent (now - outbox_max_age_ms) rs in
      omega (arith, length-drop (length young - 999) young)

  -- The entry, its place and the table.
  pub record IsEnqueued (now : ℕ) (nonce : String) (env : CiphertextEnvelope) (t : T)
      (r : Enqueued T) : Type 0 where
    pub rows : tb.rows r.table ≡ kept now (tb.rows t) ++ (r.entry ∷ [])
    pub nonce_kept : r.entry.client_nonce ≡ nonce
    pub envelope_kept : r.entry.envelope ≡ env
    pub last : All (λ (q : OutboxEntry). q.id < r.entry.id) (kept now (tb.rows t))

  insert_new-IsEnqueued :
      (now : ℕ) (t : T) (row : OutboxRow)
      → IsAscending (tb.rows t)
      → find_nonce row.client_nonce (tb.rows t) ≡ none
      → IsEnqueued now row.client_nonce row.envelope t (insert_new tb now t row)
  unfolding insert_new swept
  insert_new-IsEnqueued now t row asc fresh =
      let e = rows-swept now t asc in
      let still : find_nonce row.client_nonce (tb.rows (swept now t)) ≡ none =
        rw e (kept-find_none now row.client_nonce (tb.rows t) fresh) in
      record {
        rows =
            laws.rows_add (swept now t) row still
            ∙ ap (λ rs. rs ++ (with_id (tb.add (swept now t) row).1 row ∷ [])) e;
        nonce_kept = refl;
        envelope_kept = refl;
        last =
            subst (All (λ (q : OutboxEntry). q.id < (tb.add (swept now t) row).1)) e
              (laws.add_above (swept now t) row);
      }

  enqueue-new :
      (now : ℕ) (t : T) (nonce : String) (env : CiphertextEnvelope) (at : Option ℕ)
      → find_nonce nonce (tb.rows t) ≡ none
      → enqueue tb now t nonce env at
        ≡ insert_new tb now t (record {
          client_nonce = nonce;
          envelope = env;
          enqueued_at = time_or tb now at;
          retry_count = 0;
        })
  unfolding enqueue
  enqueue-new now t nonce env at fresh =
      let e : tb.first t nonce ≡ none = laws.first_row t nonce ∙ fresh in ground (arith, e)

  enqueue-known :
      (now : ℕ) (t : T) (nonce : String) (env : CiphertextEnvelope) (at : Option ℕ)
      {r : OutboxEntry}
      → find_nonce nonce (tb.rows t) ≡ some r
      → enqueue tb now t nonce env at ≡ record { table = t; entry = r }
  unfolding enqueue
  enqueue-known now t nonce env at {r} found =
      let e : tb.first t nonce ≡ some r = laws.first_row t nonce ∙ found in ground (arith, e)

  -- Enqueueing a new nonce on rows in key order drops the rows older than seven days, then the oldest
  -- until 999 are left, and appends an entry of that nonce and envelope after all others.
  pub enqueue-IsEnqueued :
      (now : ℕ) (t : T) (nonce : String) (env : CiphertextEnvelope) (at : Option ℕ)
      → IsAscending (tb.rows t)
      → find_nonce nonce (tb.rows t) ≡ none
      → IsEnqueued now nonce env t (enqueue tb now t nonce env at)
  enqueue-IsEnqueued now t nonce env at asc fresh =
      rw (enqueue-new now t nonce env at fresh) (insert_new-IsEnqueued now t _ asc fresh)

  -- Enqueueing, with a known nonce or a new one, keeps the rows in key order, one for a nonce and
  -- at most 1000, and afterwards the nonce finds the entry that was returned.
  pub enqueue-IsOutbox :
      (now : ℕ) (t : T) (nonce : String) (env : CiphertextEnvelope) (at : Option ℕ)
      → IsOutbox (tb.rows t)
      → let r = enqueue tb now t nonce env at in
        IsOutbox (tb.rows r.table) × (find_nonce nonce (tb.rows r.table) ≡ some r.entry)
  enqueue-IsOutbox now t nonce env at good = elim (Option-cases (find_nonce nonce (tb.rows t))) [
    | inr (r, found) ↦ rw (enqueue-known now t nonce env at found) (good, found)
    | inl fresh ↦
        let q = enqueue-IsEnqueued now t nonce env at good.ascending fresh in
        let rs = kept now (tb.rows t) in
        let entry = (enqueue tb now t nonce env at).entry in
        rw (q.rows) (
          record {
            ascending =
                IsAscending-append rs entry q.last
                  (kept-IsAscending now (tb.rows t) good.ascending);
            nonces =
                HasUniqueNonces-append rs entry
                  (rw (q.nonce_kept) (kept-find_none now nonce (tb.rows t) fresh))
                  (kept-HasUniqueNonces now (tb.rows t) good.nonces);
            fits = omega (arith, length-append rs (entry ∷ []), length-kept now (tb.rows t));
          },
          find_nonce-append nonce rs entry (kept-find_none now nonce (tb.rows t) fresh)
              q.nonce_kept,
        )
  ]

  -- A second enqueue of the nonce, whatever envelope and time it brings, returns the first entry and
  -- leaves the table as it is.
  pub enqueue-again :
      (now later : ℕ) (t : T) (nonce : String) (env other : CiphertextEnvelope)
      (at again : Option ℕ)
      → IsOutbox (tb.rows t)
      → let r = enqueue tb now t nonce env at in enqueue tb later r.table nonce other again ≡ r
  enqueue-again now later t nonce env other at again good =
      enqueue-known later _ nonce other again (enqueue-IsOutbox now t nonce env at good).1

-- ===== src/Outbox/Acknowledge.antt =====
-- `deleteByClientNonce` and `recordReplayAttempt` of apps/web/src/db/repositories/outbox.ts.
use konvo_pro.Shared.{
  ℕ, ◌+◌, ◌<◌, ◌≡◌, ◌≢◌, refl, sym, ◌∙◌, ap, subst, arith, none, some, List, [], ◌∷◌, All, map,
  String, str_eq, eq_iff, eq_refl, ◌==◌, ==_iff, ==_refl, Option-cases, Bool-cases, inl, inr,
}
use konvo_pro.Outbox.{OutboxEntry, OutboxTable, delete_by_client_nonce, record_replay_attempt}
use konvo_pro.Outbox.Rows.{find_nonce, without, replace, IsAscending, HasUniqueNonces, TableLaws}
use konvo_pro.Outbox.Enqueue.{IsOutbox}

find_nonce-All :
    (P : OutboxEntry → Type 0) (nonce : String) (rs : List OutboxEntry) {r : OutboxEntry}
    → All P rs
    → find_nonce nonce rs ≡ some r
    → P r
unfolding find_nonce
find_nonce-All P nonce [] h found = absurd (ground arith)
find_nonce-All P nonce (x ∷ rs) {r} h found = elim (Bool-cases (str_eq x.client_nonce nonce)) [
  | inl here ↦ let e : x ≡ r = ground (arith, found, here) in subst P e h.0
  | inr there ↦ find_nonce-All P nonce rs h.1 (ground (arith, found, there))
]

without-above :
    (id : ℕ) (rs : List OutboxEntry) → All (λ (q : OutboxEntry). id < q.id) rs → without id rs ≡ rs
unfolding without
without-above id [] above = refl
without-above id (r ∷ rs) above = ground (arith, above.0, without-above id rs above.1)

without-find :
    (nonce : String) (rs : List OutboxEntry) {r : OutboxEntry}
    → IsAscending rs
    → HasUniqueNonces rs
    → find_nonce nonce rs ≡ some r
    → find_nonce nonce (without r.id rs) ≡ none
unfolding without find_nonce
without-find nonce [] asc one found = absurd (ground arith)
without-find nonce (x ∷ rs) {r} asc one found = elim (Bool-cases (str_eq x.client_nonce nonce)) [
  | inl here ↦
      let e : x ≡ r = ground (arith, found, here) in
      let same : x.client_nonce ≡ nonce = (eq_iff x.client_nonce nonce).0 here in
      subst (λ (q : OutboxEntry). find_nonce nonce (without q.id (x ∷ rs)) ≡ none) e
        (rw (==_refl x.id, without-above x.id rs asc.0)
          (subst (λ n. find_nonce n rs ≡ none) same one.0))
  | inr there ↦
      let later : find_nonce nonce rs ≡ some r = ground (arith, found, there) in
      let above : x.id < r.id =
        find_nonce-All (λ (q : OutboxEntry). x.id < q.id) nonce rs asc.0 later in
      ground (arith, above, there, without-find nonce rs asc.1 one.1 later)
]

without-find_other :
    (nonce other : String) (rs : List OutboxEntry) {r : OutboxEntry}
    → IsAscending rs
    → nonce ≢ other
    → find_nonce nonce rs ≡ some r
    → find_nonce other (without r.id rs) ≡ find_nonce other rs
unfolding without find_nonce
without-find_other nonce other [] asc ne found = absurd (ground arith)
without-find_other nonce other (x ∷ rs) {r} asc ne found =
    elim (Bool-cases (str_eq x.client_nonce nonce)) [
      | inl here ↦
          let e : x ≡ r = ground (arith, found, here) in
          subst
            (λ (q : OutboxEntry).
              find_nonce other (without q.id (x ∷ rs)) ≡ find_nonce other (x ∷ rs))
            e
            (rw (==_refl x.id, without-above x.id rs asc.0)
              (ground (arith, here, ne, eq_iff x.client_nonce nonce, eq_iff x.client_nonce other)))
      | inr there ↦
          let later : find_nonce nonce rs ≡ some r = ground (arith, found, there) in
          let above : x.id < r.id =
            find_nonce-All (λ (q : OutboxEntry). x.id < q.id) nonce rs asc.0 later in
          ground (arith, above, there, without-find_other nonce other rs asc.1 ne later)
    ]

replace-ids :
    (e : OutboxEntry) (rs : List OutboxEntry)
    → map (λ (r : OutboxEntry). r.id) (replace e rs) ≡ map (λ (r : OutboxEntry). r.id) rs
unfolding replace
replace-ids e [] = refl
replace-ids e (r ∷ rs) = elim (Bool-cases (r.id == e.id)) [
  | inl here ↦
      rw here (ap (λ n. n ∷ map (λ (q : OutboxEntry). q.id) rs) (sym ((==_iff r.id e.id).0 here)))
  | inr there ↦ rw there (ap (λ ns. r.id ∷ ns) (replace-ids e rs))
]

replace-find :
    (nonce : String) (e : OutboxEntry) (rs : List OutboxEntry) {r : OutboxEntry}
    → IsAscending rs
    → e.client_nonce ≡ nonce
    → find_nonce nonce rs ≡ some r
    → r.id ≡ e.id
    → find_nonce nonce (replace e rs) ≡ some e
unfolding replace find_nonce
replace-find nonce e [] asc same found id = absurd (ground arith)
replace-find nonce e (x ∷ rs) {r} asc same found id =
    elim (Bool-cases (str_eq x.client_nonce nonce)) [
      | inl here ↦
          let first : x ≡ r = ground (arith, found, here) in
          let at : x.id ≡ e.id = ap (λ (q : OutboxEntry). q.id) first ∙ id in
          rw ((==_iff x.id e.id).1 at) (rw (same, eq_refl nonce) refl)
      | inr there ↦
          let later : find_nonce nonce rs ≡ some r = ground (arith, found, there) in
          let above : x.id < r.id =
            find_nonce-All (λ (q : OutboxEntry). x.id < q.id) nonce rs asc.0 later in
          ground (arith, above, id, there, replace-find nonce e rs asc.1 same later id)
    ]

find_nonce-nonce :
    (nonce : String) (rs : List OutboxEntry) {r : OutboxEntry}
    → find_nonce nonce rs ≡ some r
    → r.client_nonce ≡ nonce
unfolding find_nonce
find_nonce-nonce nonce [] found = absurd (ground arith)
find_nonce-nonce nonce (x ∷ rs) {r} found =
    ground (arith, found, eq_iff x.client_nonce nonce, find_nonce-nonce nonce rs {r = r})

module _ {T : Type 0} (tb : OutboxTable T) (laws : TableLaws tb) where
  deleted-missing :
      (t : T) (nonce : String) → tb.first t nonce ≡ none → delete_by_client_nonce tb t nonce ≡ t
  unfolding delete_by_client_nonce
  deleted-missing t nonce e = ground (arith, e)

  deleted-found :
      (t : T) (nonce : String) {r : OutboxEntry}
      → tb.first t nonce ≡ some r
      → delete_by_client_nonce tb t nonce ≡ tb.delete t r.id
  unfolding delete_by_client_nonce
  deleted-found t nonce e = ground (arith, e)

  -- On a sound outbox, an acknowledged nonce is no longer found, and every other nonce finds what it
  -- found before.
  pub delete_by_client_nonce-find :
      (t : T) (nonce : String)
      → IsOutbox (tb.rows t)
      → let u = delete_by_client_nonce tb t nonce in
        (find_nonce nonce (tb.rows u) ≡ none)
        × ((other : String)
            → nonce ≢ other
            → find_nonce other (tb.rows u) ≡ find_nonce other (tb.rows t))
  delete_by_client_nonce-find t nonce good = elim (Option-cases (tb.first t nonce)) [
    | inl missing ↦
        rw (deleted-missing t nonce missing)
          (sym (laws.first_row t nonce) ∙ missing, λ other ne. refl)
    | inr (r, found) ↦
        let there : find_nonce nonce (tb.rows t) ≡ some r = sym (laws.first_row t nonce) ∙ found in
        rw (deleted-found t nonce found) (
          rw (laws.rows_delete t r.id)
              (without-find nonce (tb.rows t) good.ascending good.nonces there),
          λ other ne.
              rw (laws.rows_delete t r.id)
                (without-find_other nonce other (tb.rows t) good.ascending ne there),
        )
  ]

  attempted-found :
      (t : T) (nonce : String) (at : ℕ) {r : OutboxEntry}
      → tb.first t nonce ≡ some r
      → record_replay_attempt tb t nonce at
        ≡ tb.put t (record r { last_try_at = some at; retry_count = r.retry_count + 1 })
  unfolding record_replay_attempt
  attempted-found t nonce at e = ground (arith, e)

  -- On rows in key order, an attempt at a pending nonce keeps every key and the order, and the nonce
  -- then finds its entry with one more retry and the time of the attempt.
  pub record_replay_attempt-find :
      (t : T) (nonce : String) (at : ℕ) (r : OutboxEntry)
      → IsAscending (tb.rows t)
      → find_nonce nonce (tb.rows t) ≡ some r
      → let u = record_replay_attempt tb t nonce at in
        (map (λ (q : OutboxEntry). q.id) (tb.rows u) ≡ map (λ (q : OutboxEntry). q.id) (tb.rows t))
        × (find_nonce nonce (tb.rows u)
            ≡ some (record r { last_try_at = some at; retry_count = r.retry_count + 1 }))
  record_replay_attempt-find t nonce at r asc found =
      let e = record r { last_try_at = some at; retry_count = r.retry_count + 1 } in
      rw (attempted-found t nonce at (laws.first_row t nonce ∙ found), laws.rows_put t e)
        (
          replace-ids e (tb.rows t),
          replace-find nonce e (tb.rows t) asc (find_nonce-nonce nonce (tb.rows t) found) found
              refl,
        )

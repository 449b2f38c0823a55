-- ===== src/Gateway/Access.antt =====
-- `authenticate` and `queuedCountForDevice` of apps/api/src/ws/gateway.ts.
use konvo_pro.Shared.{
  ℕ, ◌+◌, ◌≤◌, ◌≡◌, ◌≢◌, ◌↔◌, refl, ap, ◌∙◌, arith, min, String, eq_iff, Option, none, some, ok,
  Option-cases, inl, inr, List,
}
use konvo_pro.Gateway.State.{EnvelopeRow}
use konvo_pro.Gateway.Hello.{
  Claims, Identity, authenticate, count_undelivered, queued_count_for_device,
}

-- The claims let the device in at `now_sec`.
pub record Admits (claims : Claims) (now_sec : ℕ) (who : Identity) : Type 0 where
  pub lives : now_sec + 600 ≤ claims.exp
  pub user : claims.sub ≢ ""
  pub device : claims.did ≢ ""
  pub is_user : claims.sub ≡ who.user_id
  pub is_device : claims.did ≡ who.device_id

module _ (verify : String → Option Claims) (now_sec : ℕ) where
  admit-some :
      (token : String) (claims : Claims) (who : Identity)
      → verify token ≡ some claims
      → (authenticate verify (some token) now_sec ≡ ok who) ↔ Admits claims now_sec who
  unfolding authenticate
  admit-some token claims who valid = (
    λ h. record {
      lives = ground (arith, h, valid);
      user = λ empty. ground (arith, h, valid, (eq_iff claims.sub "").1 empty);
      device = λ empty. ground (arith, h, valid, (eq_iff claims.did "").1 empty);
      is_user = ground (arith, h, valid);
      is_device = ground (arith, h, valid);
    },
    λ a. ground (
      arith,
      valid,
      a.lives,
      a.user,
      a.device,
      a.is_user,
      a.is_device,
      eq_iff claims.sub "",
      eq_iff claims.did "",
    ),
  )

  -- A connection is let in as `who` exactly when a token was presented that verifies to claims that
  -- live ten more minutes and name `who`'s user and device, neither empty.
  pub authenticate_iff :
      (presented : Option String) (who : Identity)
      → (authenticate verify presented now_sec ≡ ok who) ↔ (
          (token : String) × (claims : Claims) × (presented ≡ some token)
          × (verify token ≡ some claims)
          × Admits claims now_sec who)
  unfolding authenticate
  authenticate_iff none who =
      (λ h. absurd (ground arith), λ (token, claims, shown, valid, admits). absurd (ground arith))
  authenticate_iff (some token) who = (
    λ h. elim (Option-cases (verify token)) [
      | inl bad ↦ absurd (ground (arith, h, bad))
      | inr (claims, valid) ↦ (token, claims, refl, valid, (admit-some token claims who valid).0 h)
    ],
    λ (token', claims, shown, valid, admits).
        let same : token ≡ token' = ground arith in
        (admit-some token claims who (ap verify same ∙ valid)).1 admits,
  )

-- The count of HELLO_OK is the number of undelivered rows for the device, or the cap where there are
-- more; the bounded scan of the SQL loses nothing.
pub queued_count-min :
    (device_id : String) (rows : List EnvelopeRow)
    → queued_count_for_device rows device_id ≡ min 10000 (count_undelivered device_id rows)
unfolding queued_count_for_device
queued_count-min device_id rows = ground arith

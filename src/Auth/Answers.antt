-- ===== src/Auth/Answers.antt =====
-- apps/api/src/routes/auth.ts: the answers of login, and of refresh after logout.
use konvo_pro.Shared.{
  ℕ, ◌≡◌, refl, ap, sym, subst, ◌∙◌, arith, Bool, true, false, ◌&&◌, Option, none, some, List, [],
  ◌∷◌, ◌++◌, String, str_eq, Bool-cases, Option-cases, err, Result-cases, ◌⊎◌, inl, inr,
}
use konvo_pro.Auth.Tokens.{
  TokenRow, Call, invalid_refresh_token, find_hash, new_token, insert_token, issue, rotate, revoke,
  TokenOp, issuing, rotating, revoking, token_step, token_run,
}
use konvo_pro.Auth.Spent.{IsSignedOut, spent-refused, revoke-spends}
use konvo_pro.Auth.Routes.{
  UserRow, AuthState, AuthDeps, LoginBody, failure, logged_in, unchanged, set_cookie, cleared,
  reply, Answer, answer, comparing, sentinel_hash, find_handle, or_empty, insert_user, signup,
  max_age, open_session, check_totp, login, refresh_with, refresh, logout, Request, signing_up,
  logging_in, refreshing, logging_out, serve, serve_all,
}

module _ (deps : AuthDeps) where
  abbrev totp_holds : Option String → Option String → Bool
  totp_holds none given = true
  totp_holds (some secret) none = false
  totp_holds (some secret) (some totp) = deps.verify_totp totp secret

  abbrev factors_hold : LoginBody → Option UserRow → Bool
  factors_hold body none = false
  factors_hold body (some u) =
      deps.argon2_verify u.password_hash body.password && totp_holds u.totp_secret body.totp

  -- The factors of the account that has the handle: its password, and its TOTP code if it has one.
  pub has_factors : AuthState → LoginBody → Bool
  has_factors s body = factors_hold body (find_handle deps body.handle s.users)

  -- The hash to compare with: the account's, or the sentinel where there is none.
  pub target_hash : Option UserRow → String
  target_hash none = sentinel_hash deps
  target_hash (some u) = u.password_hash

  check_totp-compared :
      (s : AuthState) (u : UserRow) (body : LoginBody) (call : Call)
      → (check_totp deps s u body call).compared ≡ []
  unfolding check_totp open_session
  check_totp-compared s u body call = ground arith

  login-compared :
      (s : AuthState) (body : LoginBody) (call : Call)
      → let hash = target_hash (find_handle deps body.handle s.users) in
        (login deps s (some body) call).compared
        ≡ record { hash = hash; password = body.password } ∷ []
  unfolding login target_hash
  login-compared s body call = elim (Option-cases (find_handle deps body.handle s.users)) [
    | inl missing ↦ ground (arith, missing)
    | inr (u, found) ↦ ground (arith, found, check_totp-compared s u body call)
  ]

  login_refuses :
      (s : AuthState) (body : LoginBody) (call : Call)
      → has_factors s body ≡ false
      → let hash = target_hash (find_handle deps body.handle s.users) in
        login deps s (some body) call
        ≡ comparing hash body.password (answer s 401 (failure "invalid_credentials") unchanged)
  unfolding has_factors login check_totp target_hash
  login_refuses s body call e = ground (arith, e)

  abbrev pub session_opened : AuthState → UserRow → LoginBody → Call → Answer
  session_opened s u body call =
      answer (record s { tokens = s.tokens ++ (new_token deps.tokens s.tokens u.id call ∷ []) }) 200
        (logged_in (deps.sign u.id (or_empty body.device_id)) call.raw u.id u.handle)
        (set_cookie call.raw (max_age deps))

  pub open_session_lem :
      (s : AuthState) (u : UserRow) (body : LoginBody) (call : Call)
      → find_hash (deps.tokens.hash call.raw) s.tokens ≡ none
      → open_session deps s u body call ≡ session_opened s u body call
  unfolding open_session issue insert_token
  open_session_lem s u body call free = ground (arith, free)

  check_totp_lem :
      (s : AuthState) (u : UserRow) (body : LoginBody) (call : Call)
      → totp_holds u.totp_secret body.totp ≡ true
      → check_totp deps s u body call ≡ open_session deps s u body call
  unfolding check_totp
  check_totp_lem s u body call e = ground (arith, e)

  login_accepts :
      (s : AuthState) (body : LoginBody) (call : Call)
      → has_factors s body ≡ true
      → find_hash (deps.tokens.hash call.raw) s.tokens ≡ none
      → (u : UserRow) × (find_handle deps body.handle s.users ≡ some u)
        × (login deps s (some body) call
            ≡ comparing u.password_hash body.password (session_opened s u body call))
  unfolding has_factors login
  login_accepts s body call e free = elim (Option-cases (find_handle deps body.handle s.users)) [
    | inl missing ↦ absurd (ground (arith, e, missing))
    | inr (u, found) ↦ (
      u,
      found,
      ground (arith, e, found, check_totp_lem s u body call, open_session_lem s u body call free),
    )
  ]

  -- A login with a valid body, where the new token's hash is not taken, calls `argon2.verify` exactly
  -- once, on the given password: with the hash of the account that has the handle, in any case, or with
  -- the sentinel hash where there is none. Either the factors of the account do not hold, and the state
  -- stays and the reply is one and the same; or they hold, and the token is added for that account, and
  -- the reply carries it.
  pub login-IsUniform :
      (s : AuthState) (body : LoginBody) (call : Call)
      → find_hash (deps.tokens.hash call.raw) s.tokens ≡ none
      → let hash = target_hash (find_handle deps body.handle s.users) in
        let r = login deps s (some body) call in
        (r.compared ≡ record { hash = hash; password = body.password } ∷ [])
        × (((has_factors s body ≡ false)
              × (r.state ≡ s)
              × (r.reply ≡ reply 401 (failure "invalid_credentials") unchanged))
            ⊎ ((has_factors s body ≡ true)
                × ((u : UserRow) × (find_handle deps body.handle s.users ≡ some u)
                    × (r.state ≡ (session_opened s u body call).state)
                    × (r.reply ≡ (session_opened s u body call).reply))))
  login-IsUniform s body call free = (
    login-compared s body call,
    elim (Bool-cases (has_factors s body)) [
      | inl holds ↦
          let (u, found, e) = login_accepts s body call holds free in
          inr (holds, (u, found, ap (λ (a : Answer). a.state) e, ap (λ (a : Answer). a.reply) e))
      | inr fails ↦
          let e = login_refuses s body call fails in
          inl (fails, ap (λ (a : Answer). a.state) e, ap (λ (a : Answer). a.reply) e)
    ],
  )

  -- A request makes at most one call of the store.
  abbrev OneCall : AuthState → Answer → Type 0
  OneCall s a =
      (a.state.tokens ≡ s.tokens)
      ⊎ ((op : TokenOp) × (a.state.tokens ≡ token_step deps.tokens s.tokens op))

  open_session-OneCall :
      (s : AuthState) (u : UserRow) (body : LoginBody) (call : Call)
      → OneCall s (open_session deps s u body call)
  unfolding open_session token_step
  open_session-OneCall s u body call =
      elim (Result-cases (issue deps.tokens s.tokens u.id call).result) [
        | inl (session, fine) ↦ inr (issuing u.id call, ground (arith, fine))
        | inr (e, bad) ↦ inl (ground (arith, bad))
      ]

  login-OneCall :
      (s : AuthState) (body : LoginBody) (call : Call) → OneCall s (login deps s (some body) call)
  unfolding login check_totp
  login-OneCall s body call = elim (Option-cases (find_handle deps body.handle s.users)) [
    | inl missing ↦ inl (ground (arith, missing))
    | inr (u, found) ↦ elim (Bool-cases (factors_hold body (some u))) [
      | inl e ↦
          let same : login deps s (some body) call
              ≡ comparing u.password_hash body.password (open_session deps s u body call) =
            ground (arith, e, found) in
          subst (OneCall s) (sym same) (open_session-OneCall s u body call)
      | inr e ↦ inl (ground (arith, e, found))
    ]
  ]

  refresh_with-tokens :
      (s : AuthState) (device : Option String) (raw : String) (call : Call)
      → (refresh_with deps s device raw call).state.tokens
        ≡ (rotate deps.tokens s.tokens raw call).rows
  unfolding refresh_with
  refresh_with-tokens s device raw call = ground arith

  serve-OneCall : (s : AuthState) (r : Request) → OneCall s (serve deps s r)
  unfolding serve signup insert_user refresh logout login token_step
  serve-OneCall s (signing_up none id salt) = inl refl
  serve-OneCall s (signing_up (some body) id salt) = inl (ground arith)
  serve-OneCall s (logging_in none call) = inl refl
  serve-OneCall s (logging_in (some body) call) = login-OneCall s body call
  serve-OneCall s (refreshing none cookie call) = inl refl
  serve-OneCall s (refreshing (some device) cookie call) = elim (Bool-cases (str_eq cookie "")) [
    | inl e ↦ inl (ground (arith, e))
    | inr e ↦
        inr (rotating cookie call, ground (arith, e, refresh_with-tokens s device cookie call))
  ]
  serve-OneCall s (logging_out cookie at) = elim (Bool-cases (str_eq cookie "")) [
    | inl e ↦ inl (ground (arith, e))
    | inr e ↦ inr (revoking cookie at, ground (arith, e))
  ]

  serve_all-tokens :
      (s : AuthState) (rs : List Request)
      → (ops : List TokenOp) × ((serve_all deps s rs).tokens ≡ token_run deps.tokens s.tokens ops)
  unfolding serve_all token_run
  serve_all-tokens s [] = ([], refl)
  serve_all-tokens s (r ∷ rs) =
      let (ops, e) = serve_all-tokens (serve deps s r).state rs in
      elim (serve-OneCall s r) [
        | inl same ↦ (ops, e ∙ ap (λ (t : List TokenRow). token_run deps.tokens t ops) same)
        | inr (op, called) ↦
            (op ∷ ops, e ∙ ap (λ (t : List TokenRow). token_run deps.tokens t ops) called)
      ]

  refresh-refused :
      (s : AuthState) (device : Option String) (cookie : String) (call : Call)
      → (rotate deps.tokens s.tokens cookie call).result ≡ err invalid_refresh_token
      → str_eq cookie "" ≡ false
      → refresh deps s (some device) cookie call
        ≡ answer
            (record s { tokens = (rotate deps.tokens s.tokens cookie call).rows })
            401
            (failure "invalid_credentials")
            cleared
  unfolding refresh refresh_with
  refresh-refused s device cookie call e c = ground (arith, e, c)

  -- After a logout with a token of the table, and any further requests by anyone, a refresh with the
  -- same cookie is answered 401 with the cookie cleared, and leaves every token of the account
  -- revoked.
  pub logout-refresh :
      (s : AuthState) (cookie : String) (at : ℕ) (row : TokenRow)
      → str_eq cookie "" ≡ false
      → find_hash (deps.tokens.hash cookie) s.tokens ≡ some row
      → (rs : List Request) (device : Option String) (call : Call)
      → let a =
          refresh deps
            (serve_all deps (logout deps s cookie at).state rs)
            (some device)
            cookie
            call in
        (a.reply ≡ reply 401 (failure "invalid_credentials") cleared)
        × IsSignedOut row.user_id a.state.tokens
  unfolding logout
  logout-refresh s cookie at row present found rs device call =
      let out = (logout deps s cookie at).state in
      let later = serve_all deps out rs in
      let (ops, e) = serve_all-tokens out rs in
      let gone : out.tokens ≡ revoke deps.tokens s.tokens cookie at = ground (arith, present) in
      let e' = e ∙ ap (λ (t : List TokenRow). token_run deps.tokens t ops) gone in
      let refused =
        subst
          (λ (t : List TokenRow).
            let r = rotate deps.tokens t cookie call in
            (r.result ≡ err invalid_refresh_token) × IsSignedOut row.user_id r.rows)
          (sym e')
          (spent-refused deps.tokens (revoke deps.tokens s.tokens cookie at) row.user_id cookie ops
            call (revoke-spends deps.tokens s.tokens cookie at row found)) in
      let reads = refresh-refused later device cookie call refused.0 present in
      (
        ap (λ (a : Answer). a.reply) reads,
        subst (λ (a : Answer). IsSignedOut row.user_id a.state.tokens) (sym reads) refused.1,
      )

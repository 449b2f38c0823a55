-- ===== src/Auth/Signup.antt =====
-- apps/api/src/routes/auth.ts: a login after a signup.
use konvo_pro.Shared.{
  ◌≡◌, refl, ap, sym, subst, ◌∙◌, arith, true, none, some, List, [], ◌∷◌, ◌++◌, String, str_eq,
  eq_refl,
}
use konvo_pro.Auth.Tokens.{Call, find_hash}
use konvo_pro.Auth.Routes.{
  UserRow, AuthState, AuthDeps, SignupBody, LoginBody, created, unchanged, Answer, answer,
  comparing, find_handle, insert_user, signup, check_totp, login,
}
use konvo_pro.Auth.Answers.{session_opened, open_session_lem}

find_handle-append :
    (deps : AuthDeps) (h : String) (us : List UserRow) (u : UserRow)
    → find_handle deps h us ≡ none
    → str_eq (deps.lower u.handle) (deps.lower h) ≡ true
    → find_handle deps h (us ++ (u ∷ [])) ≡ some u
unfolding find_handle
find_handle-append deps h [] u e same = ground (arith, same)
find_handle-append deps h (v ∷ us) u e same =
    ground (arith, e, find_handle-append deps h us u (ground (arith, e)) same)

abbrev pub signed_up : AuthDeps → SignupBody → String → String → UserRow
signed_up deps body id salt = record {
  id = id;
  handle = body.handle;
  password_hash = deps.argon2_hash salt body.password;
  totp_secret = none;
}

-- What Argon2id documents: a password matches its own hash.
abbrev pub HashesMatch : AuthDeps → Type 0
HashesMatch deps =
    (salt password : String) → deps.argon2_verify (deps.argon2_hash salt password) password ≡ true

module _ (deps : AuthDeps) (matches : HashesMatch deps) where
  after_signup :
      (s : AuthState) (body : SignupBody) (id salt : String)
      → find_handle deps body.handle s.users ≡ none
      → signup deps s (some body) id salt
        ≡ answer
            (record s { users = s.users ++ (signed_up deps body id salt ∷ []) })
            201
            (created id)
            unchanged
  unfolding signup insert_user
  after_signup s body id salt free = ground (arith, free)

  new_login :
      (s : AuthState) (u : UserRow) (asked : LoginBody) (call : Call)
      → find_handle deps asked.handle s.users ≡ some u
      → deps.argon2_verify u.password_hash asked.password ≡ true
      → u.totp_secret ≡ none
      → find_hash (deps.tokens.hash call.raw) s.tokens ≡ none
      → login deps s (some asked) call
        ≡ comparing u.password_hash asked.password (session_opened deps s u asked call)
  unfolding login check_totp
  new_login s u asked call there e plain fresh =
      ground (arith, there, e, plain, open_session_lem deps s u asked call fresh)

  -- After a signup of a handle that is not taken, a login with the same handle and password, with or
  -- without a TOTP code or a device, opens a session of the new account, if the new token's hash is
  -- not taken.
  pub signup-login :
      (s : AuthState) (body : SignupBody) (id salt : String) (asked : LoginBody) (call : Call)
      → find_handle deps body.handle s.users ≡ none
      → asked.handle ≡ body.handle
      → asked.password ≡ body.password
      → find_hash (deps.tokens.hash call.raw) s.tokens ≡ none
      → let next = (signup deps s (some body) id salt).state in
        let u = signed_up deps body id salt in
        login deps next (some asked) call
        ≡ comparing u.password_hash asked.password (session_opened deps next u asked call)
  signup-login s body id salt asked call free h p fresh =
      let u = signed_up deps body id salt in
      let next : AuthState = record s { users = s.users ++ (u ∷ []) } in
      let e : (signup deps s (some body) id salt).state ≡ next =
        ap (λ (a : Answer). a.state) (after_signup s body id salt free) in
      let there : find_handle deps asked.handle next.users ≡ some u =
        ap (λ (x : String). find_handle deps x next.users) h
        ∙ find_handle-append deps body.handle s.users u free (eq_refl (deps.lower body.handle)) in
      let fits : deps.argon2_verify u.password_hash asked.password ≡ true =
        ap (λ (x : String). deps.argon2_verify u.password_hash x) p ∙ matches salt body.password in
      subst
        (λ (x : AuthState).
          login deps x (some asked) call
          ≡ comparing u.password_hash asked.password (session_opened deps x u asked call))
        (sym e) (new_login next u asked call there fits refl fresh)

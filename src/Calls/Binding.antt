-- ===== src/Calls/Binding.antt =====
-- apps/web/src/features/calls/signaling.ts: `dispatchInner` and the binding of fingerprints.
use konvo_pro.Shared.{
  ◌≡◌, refl, ap, sym, subst, arith, Bool, true, false, Option, some, [], ◌∷◌, ◌++◌, All, String,
  str_eq, eq_iff, if◌then◌else◌, Bool-cases, Option-cases, ◌⊎◌, inl, inr,
}
use konvo_pro.Calls.Fingerprint.{extract_dtls_fingerprint, trim}
use konvo_pro.Calls.Inner.{InnerPayload, call_offer, call_answer, call_ice_candidate, call_hangup}
use konvo_pro.Calls.Signaling.{
  Texts, Side, offer, answer, FingerprintBindingResult, bound, unbound, BindingCause, CallEffect,
  on_session, set_remote_description, add_ice_candidate, on_hangup, closes, on_fingerprint_mismatch,
  Handlers, Dispatched, only_if, canonicalise_fingerprint, compare_fingerprints,
  verify_dtls_fingerprint_binding, reject_fingerprint_binding, dispatch_session, dispatch_inner,
}

abbrev pub session_payload : Side → String → String → String → InnerPayload
session_payload offer id sdp fp = call_offer id sdp fp
session_payload answer id sdp fp = call_answer id sdp fp

module _ (texts : Texts) where
  -- The fingerprint of the signal is not blank, and it is the one of the first fingerprint line of the
  -- SDP, up to their canonical form.
  pub record IsBound (fp sdp : String) : Type 0 where
    pub present : str_eq (trim fp) "" ≡ false
    pub sdp_fp : String
    pub found : extract_dtls_fingerprint sdp ≡ some sdp_fp
    pub same : canonicalise_fingerprint texts fp ≡ canonicalise_fingerprint texts sdp_fp

  verify-IsBound :
      (fp sdp canonical : String)
      → verify_dtls_fingerprint_binding texts fp sdp ≡ bound canonical
      → IsBound fp sdp
  unfolding verify_dtls_fingerprint_binding compare_fingerprints
  verify-IsBound fp sdp canonical e = elim (Bool-cases (str_eq (trim fp) "")) [
    | inl blank ↦ absurd (ground (arith, e, blank))
    | inr present ↦ elim (Option-cases (extract_dtls_fingerprint sdp)) [
      | inl missing ↦ absurd (ground (arith, e, present, missing))
      | inr (sdp_fp, found) ↦ record {
        present = present;
        sdp_fp = sdp_fp;
        found = found;
        same = ground (
          arith,
          e,
          present,
          found,
          eq_iff (canonicalise_fingerprint texts fp) (canonicalise_fingerprint texts sdp_fp),
        );
      }
    ]
  ]

  -- An SDP reaches the application or the peer connection only if the payload carries it with a
  -- fingerprint that is bound to it.
  pub record Carries (p : InnerPayload) (side : Side) (sdp : String) : Type 0 where
    pub id : String
    pub fp : String
    pub payload : p ≡ session_payload side id sdp fp
    pub is_bound : IsBound fp sdp

  abbrev pub IsAllowed : InnerPayload → CallEffect → Type 0
  IsAllowed p (on_session side id sdp fp) = Carries p side sdp
  IsAllowed p (set_remote_description side sdp) = Carries p side sdp
  IsAllowed p (add_ice_candidate candidate) = Unit
  IsAllowed p (on_hangup id reason) = Unit
  IsAllowed p closes = Unit
  IsAllowed p (on_fingerprint_mismatch id side cause envelope sdp_fp) = Unit

  reject-IsAllowed :
      (p : InnerPayload) (id : String) (side : Side) (cause : BindingCause) (envelope : String)
      → (sdp_fp : Option String) (h : Handlers)
      → All (IsAllowed p) (reject_fingerprint_binding texts id side cause envelope sdp_fp h).effects
  unfolding reject_fingerprint_binding
  reject-IsAllowed p id side cause envelope sdp_fp h =
      elim h.has_peer
        as (λ (b : Bool). All (IsAllowed p) (
          (if b then only_if h.can_close closes else [])
          ++ (on_fingerprint_mismatch id side cause envelope sdp_fp ∷ []))) [
            | false ↦ (tt, tt)
            | true ↦
                elim h.can_close
                  as (λ (b : Bool). All (IsAllowed p) (
                    only_if b closes
                    ++ (on_fingerprint_mismatch id side cause envelope sdp_fp ∷ []))) [
                      | false ↦ (tt, tt)
                      | true ↦ (tt, (tt, tt))
                    ]
          ]

  verify-cases :
      (fp sdp : String)
      → ((canonical : String) × (verify_dtls_fingerprint_binding texts fp sdp ≡ bound canonical))
        ⊎ ((cause : BindingCause) × (envelope : String) × (sdp_fp : Option String)
            × (verify_dtls_fingerprint_binding texts fp sdp ≡ unbound cause envelope sdp_fp))
  verify-cases fp sdp =
      elim (verify_dtls_fingerprint_binding texts fp sdp)
        as (λ (r : FingerprintBindingResult).
          ((canonical : String) × (r ≡ bound canonical))
          ⊎ ((cause : BindingCause) × (envelope : String) × (sdp_fp : Option String) × (r
                ≡ unbound cause envelope sdp_fp))) [
                  | bound canonical ↦ inl (canonical, refl)
                  | unbound cause envelope sdp_fp ↦ inr (cause, envelope, sdp_fp, refl)
                ]

  accepted :
      (side : Side) (id sdp fp : String) (p : InnerPayload) (h : Handlers)
      → Carries p side sdp
      → All
          (IsAllowed p)
          (on_session side id sdp fp ∷ only_if h.has_peer (set_remote_description side sdp))
  accepted side id sdp fp p h carries =
      elim h.has_peer
        as (λ (b : Bool).
          All (IsAllowed p)
            (on_session side id sdp fp ∷ only_if b (set_remote_description side sdp))) [
              | true ↦ (carries, (carries, tt))
              | false ↦ (carries, tt)
            ]

  bound_effects :
      (side : Side) (id sdp fp canonical : String) (h : Handlers)
      → verify_dtls_fingerprint_binding texts fp sdp ≡ bound canonical
      → (dispatch_session texts side id sdp fp h).effects
        ≡ on_session side id sdp fp ∷ only_if h.has_peer (set_remote_description side sdp)
  unfolding dispatch_session
  bound_effects side id sdp fp canonical h e = ground (arith, e)

  unbound_effects :
      (side : Side) (id sdp fp : String) (cause : BindingCause) (envelope : String)
      → (sdp_fp : Option String) (h : Handlers)
      → verify_dtls_fingerprint_binding texts fp sdp ≡ unbound cause envelope sdp_fp
      → dispatch_session texts side id sdp fp h
        ≡ reject_fingerprint_binding texts id side cause envelope sdp_fp h
  unfolding dispatch_session
  unbound_effects side id sdp fp cause envelope sdp_fp h e = ground (arith, e)

  dispatch_session-IsAllowed :
      (side : Side) (id sdp fp : String) (h : Handlers)
      → All
          (IsAllowed (session_payload side id sdp fp))
          (dispatch_session texts side id sdp fp h).effects
  unfolding dispatch_session
  dispatch_session-IsAllowed side id sdp fp h =
      let p = session_payload side id sdp fp in
      elim (verify-cases fp sdp) [
        | inl (canonical, e) ↦
            subst (All (IsAllowed p)) (sym (bound_effects side id sdp fp canonical h e)) (
              accepted side id sdp fp p h (record {
                id = id;
                fp = fp;
                payload = refl;
                is_bound = verify-IsBound fp sdp canonical e;
              }))
        | inr (cause, envelope, sdp_fp, e) ↦
            subst (All (IsAllowed p))
              (sym (
                ap (λ (d : Dispatched). d.effects)
                  (unbound_effects side id sdp fp cause envelope sdp_fp h e)))
              (reject-IsAllowed p id side cause envelope sdp_fp h)
      ]

  pub dispatch_inner-IsAllowed :
      (p : InnerPayload) (h : Handlers) → All (IsAllowed p) (dispatch_inner texts p h).effects
  unfolding dispatch_inner
  dispatch_inner-IsAllowed (call_offer id sdp fp) h = dispatch_session-IsAllowed offer id sdp fp h
  dispatch_inner-IsAllowed (call_answer id sdp fp) h = dispatch_session-IsAllowed answer id sdp fp h
  dispatch_inner-IsAllowed (call_ice_candidate id candidate) h =
      elim h.has_peer
        as (λ (b : Bool).
          All (IsAllowed (call_ice_candidate id candidate))
            (only_if b (add_ice_candidate candidate))) [ true ↦ (tt, tt) | false ↦ tt ]
  dispatch_inner-IsAllowed (call_hangup id reason) h = (tt, tt)

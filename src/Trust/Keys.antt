-- ===== src/Trust/Keys.antt =====
-- `compositeId` of apps/web/src/db/repositories/remote-identities.ts.
use Prim.Native.String.{◌++◌, len, slice}
use text.Mathlib.TextPositions.{len-append, slice-append_left, slice-append_right}
use konvo_pro.Shared.{
  ℕ, zero, ◌≡◌, refl, ap, sym, ◌∙◌, arith, ◌&&◌, String, str_eq, eq_iff, Bool-cases, inl, inr,
}
use konvo_pro.Trust.Pins.{composite_id}

-- A UUID has 36 characters.
abbrev pub IsUuid : String → Type 0
IsUuid id = len id ≡ 36

same_left : (a b s t : String) → len a ≡ len b → (a ++ s) ≡ (b ++ t) → a ≡ b
same_left a b s t same e =
    sym (slice-append_left a s)
    ∙ ap (λ (x : String). slice x zero (len a)) e
    ∙ ap (λ (n : ℕ). slice (b ++ t) zero n) same
    ∙ slice-append_left b t

same_right : (a b s t : String) → len a ≡ len b → len s ≡ len t → (a ++ s) ≡ (b ++ t) → s ≡ t
same_right a b s t same same' e =
    sym (slice-append_right a s) ∙ cc (e, same, same') ∙ slice-append_right b t

pub composite_id_injective :
    (user device user' device' : String)
    → IsUuid user
    → IsUuid user'
    → IsUuid device
    → IsUuid device'
    → composite_id user device ≡ composite_id user' device'
    → (user ≡ user') × (device ≡ device')
unfolding composite_id
composite_id_injective user device user' device' u u' d d' e =
    let tails : len (":" ++ device) ≡ len (":" ++ device') =
      omega (arith, len-append ":" device, len-append ":" device', d, d') in
    (
      same_left user user' (":" ++ device) (":" ++ device') (u ∙ sym u') e,
      same_right ":" ":" device device' refl (d ∙ sym d')
          (same_right user user' (":" ++ device) (":" ++ device') (u ∙ sym u') tails e),
    )

pub composite_id_eq :
    (user device user' device' : String)
    → IsUuid user
    → IsUuid user'
    → IsUuid device
    → IsUuid device'
    → str_eq (composite_id user device) (composite_id user' device')
      ≡ (str_eq user user' && str_eq device device')
composite_id_eq user device user' device' u u' d d' =
    elim (Bool-cases (str_eq (composite_id user device) (composite_id user' device'))) [
      | inl e ↦
          let same =
            composite_id_injective user device user' device' u u' d d'
              ((eq_iff (composite_id user device) (composite_id user' device')).0 e) in
          ground (arith, e, (eq_iff user user').1 same.0, (eq_iff device device').1 same.1)
      | inr e ↦ elim (Bool-cases (str_eq user user' && str_eq device device')) [
        | inr other ↦ e ∙ sym other
        | inl both ↦
            let a : user ≡ user' = (eq_iff user user').0 (ground (arith, both)) in
            let b : device ≡ device' = (eq_iff device device').0 (ground (arith, both)) in
            absurd (
              ground (
                arith,
                e,
                (eq_iff (composite_id user device) (composite_id user' device')).1 (cc (a, b)),
              ))
      ]
    ]

-- ===== src/Shared/Maps.antt =====
-- Dictionaries with text keys: `Map` and `Set` of the source.
use Prim.Native.String.{String}
use mathlib.Core.Path.{◌≡◌, refl}
use mathlib.Core.Option.{Option, none, some}
use mathlib.Core.List.{List, [], ◌∷◌}
use native.Mathlib.Omega.{arith}
use text.Mathlib.Text.{◌==◌ as str_eq}
use text.Mathlib.TextEquality.{eq_iff}
use konvo_pro.Shared.Tests.{if◌then◌else◌}

abbrev pub Map {ℓ} : Type ℓ → Type ℓ
Map V = List (String × V)

module _ {ℓ} {V : Type ℓ} where
  unfoldable pub lookup : String → Map V → Option V
  lookup key [] = none
  lookup key ((other, v) ∷ rest) = if str_eq other key then some v else lookup key rest

  unfoldable pub insert : String → V → Map V → Map V
  insert key new [] = (key, new) ∷ []
  insert key new ((other, old) ∷ rest) =
      if str_eq other key then (key, new) ∷ rest else (other, old) ∷ insert key new rest

  -- Every entry of the key goes, as a map has one.
  unfoldable pub delete : String → Map V → Map V
  delete key [] = []
  delete key ((other, v) ∷ rest) =
      let kept = delete key rest in if str_eq other key then kept else (other, v) ∷ kept

  pub lookup-insert :
      (written asked : String) (new : V) (m : Map V)
      → lookup asked (insert written new m)
        ≡ (if str_eq written asked then some new else lookup asked m)
  unfolding lookup insert
  lookup-insert written asked new [] = refl
  lookup-insert written asked new ((key, old) ∷ rest) = ground (
    arith,
    eq_iff key written,
    eq_iff key asked,
    eq_iff written asked,
    lookup-insert written asked new rest,
  )

  pub lookup-delete :
      (gone asked : String) (m : Map V)
      → lookup asked (delete gone m) ≡ (if str_eq gone asked then none else lookup asked m)
  unfolding lookup delete
  lookup-delete gone asked [] = ground arith
  lookup-delete gone asked ((key, old) ∷ rest) =
      ground
        (arith, eq_iff key gone, eq_iff key asked, eq_iff gone asked, lookup-delete gone asked rest)

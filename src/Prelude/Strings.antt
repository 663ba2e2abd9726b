-- ===== src/Prelude/Strings.antt =====
-- A JavaScript string as the list of its UTF-16 code units.
use Prim.Native.Nat.{ℕ}
use Prim.Native.Char.{code}
use Prim.Native.String.{String}
use mathlib.Core.Path.{◌≡◌, refl}
use mathlib.Core.Logic.{◌↔◌}
use mathlib.Core.Bool.{Bool, true, false, ◌&&◌, ◌||◌}
use mathlib.Core.List.{List, [], ◌∷◌, ◌++◌}
use native.Mathlib.Omega.{arith}
use hacienda.Prelude.Tests.{◌==◌}

abbrev pub Text : Type 0
Text = List ℕ

-- The code units of a literal in the source, which are its characters for the basic plane.
abbrev pub codes : String → Text
codes String.[] = []
codes (String.◌∷◌ c s) = code c ∷ codes s

-- `===` on strings.
infix 50 ◌===◌
unfoldable pub ◌===◌ : Text → Text → Bool
[] === [] = true
(a ∷ s) === (b ∷ t) = a == b && s === t
[] === (b ∷ t) = false
(a ∷ s) === [] = false

pub ===_refl : (s : Text) → (s === s) ≡ true
unfolding ◌===◌
===_refl [] = refl
===_refl (a ∷ s) = ground (arith, ===_refl s)

pub ===_sound : (s t : Text) → (s === t) ≡ true → s ≡ t
unfolding ◌===◌
===_sound [] [] h = refl
===_sound (a ∷ s) (b ∷ t) h = ground (arith, ===_sound s t)
===_sound [] (b ∷ t) h = ground arith
===_sound (a ∷ s) [] h = ground arith

pub ===_iff : (s t : Text) → ((s === t) ≡ true) ↔ (s ≡ t)
===_iff s t = (===_sound s t, λ e. subst_refl s t e)
  where
    subst_refl : (s t : Text) → s ≡ t → (s === t) ≡ true
    subst_refl s t e = rw e (===_refl t)

-- `Array.prototype.includes` on strings.
unfoldable pub includes : List Text → Text → Bool
includes [] s = false
includes (t ∷ ts) s = t === s || includes ts s

-- `String.prototype.startsWith`.
unfoldable pub starts_with : Text → Text → Bool
starts_with [] s = true
starts_with (a ∷ p) [] = false
starts_with (a ∷ p) (b ∷ s) = a == b && starts_with p s

-- `String.prototype.includes`: whether the text occurs at some position.
unfoldable pub contains : Text → Text → Bool
unfolding starts_with
contains p [] = starts_with p []
contains p (a ∷ s) = starts_with p (a ∷ s) || contains p s

pub starts_with-append : (p s : Text) → starts_with p (p ++ s) ≡ true
unfolding starts_with
starts_with-append [] s = refl
starts_with-append (a ∷ p) s = ground (arith, starts_with-append p s)

pub starts_with_sound : (p s : Text) → starts_with p s ≡ true → (r : Text) × (s ≡ p ++ r)
unfolding starts_with
starts_with_sound [] s h = (s, refl)
starts_with_sound (a ∷ p) [] h = cc
starts_with_sound (a ∷ p) (b ∷ s) h =
    let (r, e) = starts_with_sound p s (ground arith) in (r, ground arith)

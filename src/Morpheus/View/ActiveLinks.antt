-- ===== src/Morpheus/View/ActiveLinks.antt =====
-- Which links packages/morpheus/src/morpheus.js marks as the current page.
use hacienda.Prelude.{
  ◌≡◌, refl, ap, sym, ◌∙◌, ◌⊎◌, inl, inr, ◌≢◌, true, ◌||◌, Option, none, some, [], ◌∷◌, ◌++◌, ℕ,
  Text, codes, ◌===◌, ===_iff, ===_sound, ===_refl, Bool-cases, starts_with, starts_with-append,
  starts_with_sound, arith, ◌↔◌, length, length-append, ◌==◌,
}
use hacienda.Morpheus.View.{strip_slash, is_active}

abbrev pub EndsInSlash : Text → Type 0
EndsInSlash prefix = (d : Text) × (prefix ≡ d ++ codes "/")

-- The directory that a prefix names, with a slash at its end.
abbrev pub IsDirectory : Text → Text → Type 0
IsDirectory prefix d =
    (EndsInSlash prefix × (d ≡ prefix)) ⊎ ((¬ EndsInSlash prefix) × (d ≡ prefix ++ codes "/"))

-- The path is the prefix, or lies in its directory.
abbrev pub IsBelow : Text → Text → Type 0
IsBelow path prefix =
    (path ≡ prefix) ⊎ ((d : Text) × (rest : Text) × IsDirectory prefix d × (path ≡ d ++ rest))

-- No attribute, and an empty one, are the root.
abbrev pub IsCurrent : Text → Option Text → Type 0
IsCurrent path none = path ≡ codes "/"
IsCurrent path (some []) = path ≡ codes "/"
IsCurrent path (some (c ∷ p)) =
    (((c ∷ p) ≡ codes "/") × (path ≡ codes "/")) ⊎ (((c ∷ p) ≢ codes "/") × IsBelow path (c ∷ p))

strip_slash-slash : (d : Text) → strip_slash (d ++ codes "/") ≡ d
unfolding strip_slash
strip_slash-slash [] = refl
strip_slash-slash (c ∷ []) = refl
strip_slash-slash (c ∷ e ∷ d) = ap (λ x. c ∷ x) (strip_slash-slash (e ∷ d))

strip_slash-cases : (p : Text) → (p ≡ strip_slash p ++ codes "/") ⊎ (strip_slash p ≡ p)
unfolding strip_slash
strip_slash-cases [] = inr refl
strip_slash-cases (c ∷ []) = elim (Bool-cases (c == b'/')) [
  | inl e ↦ inl (ground arith)
  | inr e ↦ inr (rw e refl)
]
strip_slash-cases (c ∷ d ∷ s) = elim (strip_slash-cases (d ∷ s)) [
  | inl e ↦ inl (ap (λ x. c ∷ x) e)
  | inr e ↦ inr (ap (λ x. c ∷ x) e)
]

no_slash : (p : Text) → strip_slash p ≡ p → ¬ EndsInSlash p
no_slash p h (d, e) =
    let same : d ≡ d ++ codes "/" = sym (strip_slash-slash d) ∙ ap strip_slash (sym e) ∙ h ∙ e in
    absurd (omega (arith, ap length same, length-append d (codes "/")))

stripped-IsDirectory : (prefix : Text) → IsDirectory prefix (strip_slash prefix ++ codes "/")
stripped-IsDirectory prefix = elim (strip_slash-cases prefix) [
  | inl e ↦ inl ((strip_slash prefix, e), sym e)
  | inr e ↦ inr (no_slash prefix e, ap (λ x. x ++ codes "/") e)
]

IsDirectory-stripped :
    (prefix d : Text) → IsDirectory prefix d → d ≡ strip_slash prefix ++ codes "/"
IsDirectory-stripped prefix d (inl ((e, h), same)) =
    same ∙ h ∙ ap (λ x. x ++ codes "/") (sym (strip_slash-slash e) ∙ ap strip_slash (sym h))
IsDirectory-stripped prefix d (inr (open_end, same)) = elim (strip_slash-cases prefix) [
  | inl e ↦ elim (open_end (strip_slash prefix, e)) [ ]
  | inr e ↦ same ∙ ap (λ x. x ++ codes "/") (sym e)
]

active_sound :
    (path prefix : Text)
    → (path === prefix || starts_with (strip_slash prefix ++ codes "/") path) ≡ true
    → IsBelow path prefix
active_sound path prefix h = elim (Bool-cases (path === prefix)) [
  | inl same ↦ inl (===_sound path prefix same)
  | inr other ↦
      let (rest, e) = starts_with_sound (strip_slash prefix ++ codes "/") path (rw other at h) in
      inr (strip_slash prefix ++ codes "/", rest, stripped-IsDirectory prefix, e)
]

active_complete :
    (path prefix : Text)
    → IsBelow path prefix
    → (path === prefix || starts_with (strip_slash prefix ++ codes "/") path) ≡ true
active_complete path prefix (inl same) = rw (same, ===_refl prefix)
active_complete path prefix (inr (d, rest, directory, below)) =
    let found : starts_with (strip_slash prefix ++ codes "/") path ≡ true =
      rw (below, IsDirectory-stripped prefix d directory)
        (starts_with-append (strip_slash prefix ++ codes "/") rest) in
    ground arith

is_active-root : (path : Text) → (is_active path (some (codes "/")) ≡ true) ↔ (path ≡ codes "/")
unfolding is_active ◌===◌
is_active-root path = ===_iff path (codes "/")

is_active-below :
    (path prefix : Text) (c : ℕ)
    → (c ∷ prefix) ≢ codes "/"
    → is_active path (some (c ∷ prefix))
      ≡ (path === (c ∷ prefix) || starts_with (strip_slash (c ∷ prefix) ++ codes "/") path)
unfolding is_active
is_active-below path prefix c other = ground (arith, ===_iff (c ∷ prefix) (codes "/"), other)

-- A link is marked as the current page exactly if the path is its prefix or lies in the directory
-- that the prefix names: the prefix with a slash at its end, which is added where it has none; so
-- `/posts` does not mark `/postscript`. The prefix "/", an empty one and a missing one mark the path
-- "/" only.
pub is_active_iff :
    (path : Text) (attribute : Option Text)
    → (is_active path attribute ≡ true) ↔ IsCurrent path attribute
unfolding is_active ◌===◌
is_active_iff path none = ===_iff path (codes "/")
is_active_iff path (some []) = ===_iff path (codes "/")
is_active_iff path (some (c ∷ p)) = elim (Bool-cases ((c ∷ p) === codes "/")) [
  | inl e ↦
      let same : (c ∷ p) ≡ codes "/" = ===_sound (c ∷ p) (codes "/") e in
      (
        λ h. inl (same, (is_active-root path).0 (ap (λ x. is_active path (some x)) (sym same) ∙ h)),
        λ w. elim w [
          | inl (s, root) ↦ ap (λ x. is_active path (some x)) same ∙ (is_active-root path).1 root
          | inr (other, below) ↦ absurd (other same)
        ],
      )
  | inr e ↦
      let other : (c ∷ p) ≢ codes "/" =
        λ same. absurd (ground (arith, (===_iff (c ∷ p) (codes "/")).1 same, e)) in
      let open_form = is_active-below path p c other in
      (
        λ h. inr (other, active_sound path (c ∷ p) (sym open_form ∙ h)),
        λ w. elim w [
          | inl (same, root) ↦ absurd (other same)
          | inr (o, below) ↦ open_form ∙ active_complete path (c ∷ p) below
        ],
      )
]

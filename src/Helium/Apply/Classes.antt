-- ===== src/Helium/Apply/Classes.antt =====
-- The classes that a `:class` binding of lib/lunula/assets/helium.js leaves on its element.
use hacienda.Prelude.{
  ◌≡◌, refl, ◌∙◌, Bool, true, false, not, ◌&&◌, ◌||◌, Option, none, some, List, [], ◌∷◌, ◌++◌, Text,
  ◌===◌, ===_iff, includes, keep_if, if◌then◌else◌, arith,
}
use hacienda.Helium.Changes.{add_key}
use hacienda.Helium.Apply.{toggle, toggle_all, remove_old, class_tokens, apply_classes}

includes-append :
    (ks : List Text) (k j : Text) → includes (ks ++ k ∷ []) j ≡ (includes ks j || (k === j))
unfolding includes
includes-append [] k j = ground arith
includes-append (i ∷ ks) k j = ground (arith, includes-append ks k j)

includes-add_key :
    (c : Text) (ks : List Text) (x : Text)
    → includes (add_key c ks) x ≡ (includes ks x || (c === x))
unfolding add_key
includes-add_key c ks x = ground (arith, includes-append ks c x, ===_iff c x)

includes-others :
    (c : Text) (ks : List Text) (x : Text)
    → includes (keep_if (λ d. not (c === d)) ks) x ≡ (not (c === x) && includes ks x)
unfolding includes
includes-others c [] x = ground arith
includes-others c (k ∷ ks) x =
    ground (arith, includes-others c ks x, ===_iff c k, ===_iff k x, ===_iff c x)

includes-toggle :
    (c : Text) (v : Bool) (ks : List Text) (x : Text)
    → includes (toggle c v ks) x ≡ (if c === x then v else includes ks x)
unfolding toggle
includes-toggle c true ks x = includes-add_key c ks x ∙ ground arith
includes-toggle c false ks x = includes-others c ks x ∙ ground arith

-- The truth of the last entry that names the class.
abbrev pub last_value : Text → List (Text × Bool) → Option Bool
last_value x [] = none
last_value x ((c, v) ∷ tokens) = elim (last_value x tokens) [
  | none ↦ if c === x then some v else none
  | some w ↦ some w
]

abbrev pub value_or : Option Bool → Bool → Bool
value_or none b = b
value_or (some v) b = v

abbrev pub is_named : Option Bool → Bool
is_named none = false
is_named (some v) = true

includes-toggle_all :
    (tokens : List (Text × Bool)) (next classes : List Text) (x : Text)
    → (includes (toggle_all tokens next classes).1 x
        ≡ value_or (last_value x tokens) (includes classes x))
      × (includes (toggle_all tokens next classes).0 x
          ≡ (includes next x || is_named (last_value x tokens)))
unfolding toggle_all
includes-toggle_all [] next classes x = (refl, ground arith)
includes-toggle_all ((c, v) ∷ tokens) next classes x =
    let rest = includes-toggle_all tokens (add_key c next) (toggle c v classes) x in
    (
      rest.0 ∙ ground (arith, includes-toggle c v classes x),
      rest.1 ∙ ground (arith, includes-add_key c next x),
    )

includes-remove_old :
    (old next classes : List Text) (x : Text)
    → includes (remove_old old next classes) x
      ≡ (includes classes x && (includes next x || not (includes old x)))
unfolding remove_old includes
includes-remove_old [] next classes x = ground arith
includes-remove_old (c ∷ old) next classes x =
    includes-remove_old old next (if includes next c then classes else toggle c false classes) x
    ∙ ground (arith, includes-toggle c false classes x, ===_iff c x)

by_value :
    (o : Option Bool) (class_there was_there : Bool)
    → (value_or o class_there && (is_named o || not was_there))
      ≡ value_or o (class_there && not was_there)
by_value none class_there was_there = refl
by_value (some v) class_there was_there = ground arith

-- A class that the object names is on the element exactly if the last entry that names it is truthy.
-- One that the object does not name stays as it was, but is taken away if the object named it the last
-- time; the binding remembers the classes that the object names.
pub apply_classes-includes :
    (entries : List (Text × Bool)) (old classes : List Text) (x : Text)
    → (includes (apply_classes entries old classes).1 x
        ≡ value_or
            (last_value x (class_tokens entries))
            (includes classes x && not (includes old x)))
      × (includes (apply_classes entries old classes).0 x
          ≡ is_named (last_value x (class_tokens entries)))
unfolding apply_classes includes
apply_classes-includes entries old classes x =
    let r = toggle_all (class_tokens entries) [] classes in
    let toggled = includes-toggle_all (class_tokens entries) [] classes x in
    (
      includes-remove_old old r.0 r.1 x
          ∙ rw (toggled.0, toggled.1)
              (by_value (last_value x (class_tokens entries)) (includes classes x)
                (includes old x)),
      toggled.1,
    )

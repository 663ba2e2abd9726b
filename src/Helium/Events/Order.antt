-- ===== src/Helium/Events/Order.antt =====
-- The order of the modifiers of an event attribute of lib/lunula/assets/helium.js.
use hacienda.Prelude.{
  ◌≡◌, refl, ap, Bool, false, ◌&&◌, ◌||◌, some, List, [], ◌∷◌, ◌++◌, Text, codes, ◌===◌, includes,
  if◌then◌else◌, arith,
}
use hacienda.Helium.Events.{is_key_mod, find, handle, DomEvent}

includes-swap :
    (xs ys : List Text) (x y m : Text)
    → includes (xs ++ x ∷ y ∷ ys) m ≡ includes (xs ++ y ∷ x ∷ ys) m
unfolding includes
includes-swap [] ys x y m = ground arith
includes-swap (z ∷ xs) ys x y m = ap (λ b. z === m || b) (includes-swap xs ys x y m)

find-swap :
    (p : Text → Bool) (xs ys : List Text) (x y : Text)
    → (p x && p y) ≡ false
    → find p (xs ++ x ∷ y ∷ ys) ≡ find p (xs ++ y ∷ x ∷ ys)
unfolding find
find-swap p [] ys x y h = ground arith
find-swap p (z ∷ xs) ys x y h = ap (λ o. if p z then some z else o) (find-swap p xs ys x y h)

-- Two neighbours among the modifiers can change places, if they do not both name a key: the handler
-- then makes the same calls for every event.
pub handle-swap :
    (lower : Text → Text) (is_current acts : Bool) (event : Text) (xs ys : List Text) (x y : Text)
    (e : DomEvent)
    → (is_key_mod x && is_key_mod y) ≡ false
    → handle lower is_current event (xs ++ x ∷ y ∷ ys) acts e
      ≡ handle lower is_current event (xs ++ y ∷ x ∷ ys) acts e
unfolding handle
handle-swap lower is_current acts event xs ys x y e h =
    rw
      (
        includes-swap xs ys x y (codes "shift"),
        includes-swap xs ys x y (codes "ctrl"),
        includes-swap xs ys x y (codes "alt"),
        includes-swap xs ys x y (codes "meta"),
        includes-swap xs ys x y (codes "outside"),
        includes-swap xs ys x y (codes "prevent"),
        includes-swap xs ys x y (codes "stop"),
        includes-swap xs ys x y (codes "once"),
        find-swap is_key_mod xs ys x y h,
      )
      refl

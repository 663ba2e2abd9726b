-- ===== src/Helium/Scopes.antt =====
-- The element scopes of lib/lunula/assets/helium.js: `scopesFor`, `ownerFor`, the overlay that
-- `createScope` puts on the state, and `setStateValue`. Objects are numbers, and what they hold is a
-- table of its own properties and a prototype; the values of a scope and the state are objects. What
-- prototypes give, what an assignment to `__proto__` makes of them, and the bindings that a trap runs
-- at once are arguments.
pub mod Shadowing
use hacienda.Prelude.{
  ℕ, zero, suc, Bool, true, false, Option, none, some, List, [], ◌∷◌, ◌++◌, Text, codes, ◌==◌,
  ◌===◌, if◌then◌else◌, JsMap, map_get, map_set, map,
}
use hacienda.HeliumCsp.Strings.{trim}
use hacienda.Helium.Directives.{split_on}

pub data Held {ℓ} (P : Type ℓ) : Type ℓ where
  undefined : Held P
  primitive : P → Held P
  object : ℕ → Held P

abbrev pub Heap {ℓ} : Type ℓ → Type ℓ
Heap P = ℕ → JsMap (Held P)

pub record Objects {ℓ} (P : Type ℓ) : Type ℓ where
  pub own : Heap P
  pub prototype : ℕ → Held P

pub record Reflection {ℓ} (P : Type ℓ) : Type ℓ where
  -- What the prototypes of an object give for a property.
  pub inherited : Objects P → ℕ → Text → Held P
  -- The prototype that an assigned value makes of the one before.
  pub new_prototype : Held P → Held P → Held P
  -- The bindings that the `set` trap of an object runs for a property.
  pub react : ℕ → Text → Objects P → Objects P

-- `slice().reverse()` of the scopes of an element.
unfoldable pub reversed : List ℕ → List ℕ
reversed [] = []
reversed (s ∷ ss) = reversed ss ++ s ∷ []

-- The loop over the element and its ancestors.
unfoldable pub scopes_above : (ℕ → List ℕ) → List ℕ → List ℕ
unfolding reversed
scopes_above scopes [] = []
scopes_above scopes (e ∷ es) = reversed (scopes e) ++ scopes_above scopes es

unfoldable pub scopes_for : (ℕ → List ℕ) → List ℕ → Option ℕ → List ℕ
unfolding scopes_above
scopes_for scopes chain none = scopes_above scopes chain
scopes_for scopes chain (some extra) = extra ∷ scopes_above scopes chain

-- `addScope`.
unfoldable pub add_scope : ℕ → ℕ → (ℕ → List ℕ) → ℕ → List ℕ
add_scope el scope scopes e = if e == el then scopes e ++ scope ∷ [] else scopes e

abbrev pub owner_or : ℕ → Option ℕ → ℕ
owner_or root none = root
owner_or root (some s) = s

abbrev pub path_of : List Text → List Text
path_of [] = []
path_of (p ∷ []) = []
path_of (p ∷ q ∷ ps) = p ∷ path_of (q ∷ ps)

abbrev pub last_of : List Text → Text
last_of [] = []
last_of (p ∷ []) = p
last_of (p ∷ q ∷ ps) = last_of (q ∷ ps)

abbrev pub first_or : List Text → Text → Text
first_or [] last = last
first_or (p ∷ ps) last = p

module _ {ℓ} {P : Type ℓ} where
  -- The nearest scope that has the property itself.
  unfoldable pub owner_for : Heap P → List ℕ → Text → Option ℕ
  owner_for heap [] p = none
  owner_for heap (s ∷ scopes) p =
      let rest = owner_for heap scopes p in
      elim (map_get p (heap s)) [ none ↦ rest | some v ↦ some s ]

  abbrev pub set_key : Heap P → ℕ → Text → Held P → Heap P
  set_key heap o p v n = if n == o then map_set p v (heap n) else heap n

  abbrev pub own_or : Option (Held P) → Held P → Held P
  own_or none inherited = inherited
  own_or (some v) inherited = v

  module _ (engine : Reflection P) where
    -- `Reflect.get` behind the trap.
    abbrev pub get_key : Objects P → ℕ → Text → Held P
    get_key objects o p = own_or (map_get p (objects.own o)) (engine.inherited objects o p)

    -- `Reflect.set` of the trap: `__proto__` that is no own property is the prototype.
    unfoldable pub assign_key : ℕ → Text → Held P → Objects P → Objects P
    assign_key o p v objects =
        let own = record objects { own = set_key objects.own o p v } in
        let proto : Objects P = record objects {
          prototype = λ n.
              if n == o then engine.new_prototype v (objects.prototype n) else objects.prototype n;
        } in
        elim (map_get p (objects.own o)) [
          | some w ↦ own
          | none ↦ if p === codes "__proto__" then proto else own
        ]

    -- The `set` trap: the bindings run before it returns.
    unfoldable pub trap_set : ℕ → Text → Held P → Objects P → Objects P
    unfolding assign_key
    trap_set o p v objects = engine.react o p (assign_key o p v objects)

    module _ (root : ℕ) (scopes : List ℕ) where
      -- The traps of the overlay.
      unfoldable pub scoped_get : Objects P → Text → Held P
      unfolding owner_for
      scoped_get objects p = get_key objects (owner_or root (owner_for objects.own scopes p)) p

      unfoldable pub scoped_set : Objects P → Text → Held P → Objects P
      unfolding owner_for trap_set
      scoped_set objects p v = trap_set (owner_or root (owner_for objects.own scopes p)) p v objects

      -- `target?.[key]`; a primitive's own properties are none that an assignment goes on with.
      abbrev pub step_into : Objects P → Held P → Text → Held P
      step_into objects undefined key = undefined
      step_into objects (primitive v) key = undefined
      step_into objects (object n) key = get_key objects n key

      unfoldable pub walk : Objects P → Held P → List Text → Held P
      walk objects target [] = target
      walk objects target (key ∷ path) = walk objects (step_into objects target key) path

      -- Whether it was set, and the objects then.
      unfoldable pub set_at : Objects P → Held P → Text → Held P → Bool × Objects P
      unfolding trap_set
      set_at objects undefined last v = (false, objects)
      set_at objects (primitive x) last v = (false, objects)
      set_at objects (object n) last v = (true, trap_set n last v objects)

      unfoldable pub set_state_value : Objects P → Text → Held P → Bool × Objects P
      unfolding split_on owner_for walk set_at
      set_state_value objects prop v =
          let parts = map trim (split_on 46 prop) in
          let path = path_of parts in
          let last = last_of parts in
          let target = owner_or root (owner_for objects.own scopes (first_or path last)) in
          set_at objects (walk objects (object target) path) last v

  unfoldable pub scoped_has : List ℕ → Heap P → (Text → Bool) → Text → Bool
  unfolding owner_for
  scoped_has scopes heap root_has p = elim (owner_for heap scopes p) [
    | none ↦ root_has p
    | some s ↦ true
  ]

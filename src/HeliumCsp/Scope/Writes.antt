-- ===== src/HeliumCsp/Scope/Writes.antt =====
-- Writes to a scope, and to the allowed globals, of lib/lunula/assets/helium-csp.js.
use hacienda.Prelude.{
  ◌≡◌, refl, ap, sym, ◌∙◌, Bool, true, false, Option, none, some, List, [], ◌∷◌, Text, codes, ◌===◌,
  ===_refl, ===_sound, includes, if◌then◌else◌, JsMap, map_get, map_set, map_delete,
  map_get-map_set, map_get-map_delete, Bool-cases, inl, inr,
}
use hacienda.HeliumCsp.Scope.{
  allow_globals, Scope, Assigning, Found, local, from_prototype, from_state, found_behind,
  scope_get, scope_set, write_state,
}

module _ {ℓ} {V : Type ℓ} where
  -- What the last entry for a name says.
  abbrev pub last_entry : Text → List (Text × Option V) → Option (Option V)
  last_entry p [] = none
  last_entry p ((k, o) ∷ globals) = elim (last_entry p globals) [
    | some r ↦ some r
    | none ↦ if k === p then some o else none
  ]

  abbrev pub overridden : Option (Option V) → Option V → Option V
  overridden none old = old
  overridden (some o) old = o

  overridden-last_entry :
      (r : Option (Option V)) (b : Bool) (o old : Option V)
      → overridden r (if b then o else old)
        ≡ overridden (elim r [ some x ↦ some x | none ↦ if b then some o else none ]) old
  overridden-last_entry (some x) b o old = refl
  overridden-last_entry none true o old = refl
  overridden-last_entry none false o old = refl

  -- After `allowGlobals`, the last entry for a name counts: a value allows it, `undefined` takes it
  -- back; a name without an entry is as it was.
  pub map_get-allow_globals :
      (globals : List (Text × Option V)) (extra_globals : JsMap V) (p : Text)
      → map_get p (allow_globals globals extra_globals)
        ≡ overridden (last_entry p globals) (map_get p extra_globals)
  unfolding allow_globals
  map_get-allow_globals [] extra_globals p = refl
  map_get-allow_globals ((k, none) ∷ globals) extra_globals p =
      map_get-allow_globals globals (map_delete k extra_globals) p
      ∙ ap (overridden (last_entry p globals)) (map_get-map_delete k p extra_globals)
      ∙ overridden-last_entry (last_entry p globals) (k === p) none (map_get p extra_globals)
  map_get-allow_globals ((k, some v) ∷ globals) extra_globals p =
      map_get-allow_globals globals (map_set k v extra_globals) p
      ∙ ap (overridden (last_entry p globals)) (map_get-map_set k p v extra_globals)
      ∙ overridden-last_entry (last_entry p globals) (k === p) (some v) (map_get p extra_globals)

  -- The place of a written value.
  abbrev pub written : V → Found V → Found V
  written v (local w) = local v
  written v from_prototype = local v
  written v (from_state o) = from_state (some v)

  -- The bindings that run leave what the name means as it is.
  abbrev pub Leaves : Assigning V → Text → Type ℓ
  Leaves assigning q =
      (p : Text) (scope : Scope V) → scope_get q (assigning.react p scope) ≡ scope_get q scope

  found_behind-if :
      (b : Bool) (names : List Text) (q : Text) (v : V) (o : Option V) (state : JsMap V)
      → found_behind names q (if b then some v else o) state
        ≡ (if b then local v else found_behind names q o state)
  found_behind-if true names q v o state = refl
  found_behind-if false names q v o state = refl

  local_write :
      (p q : Text) (v : V) (scope : Scope V)
      → written v (scope_get p scope) ≡ local v
      → scope_get q (record scope { locals = map_set p v scope.locals })
        ≡ (if p === q then written v (scope_get p scope) else scope_get q scope)
  unfolding scope_get
  local_write p q v scope h =
      ap (λ o. found_behind scope.prototype q o scope.state) (map_get-map_set p q v scope.locals)
      ∙ found_behind-if (p === q) scope.prototype q v (map_get q scope.locals) scope.state
      ∙ ap (λ x. if p === q then x else scope_get q scope) (sym h)

  found_behind-state :
      (names : List Text) (q : Text) (o : Option V) (m n : JsMap V)
      → map_get q m ≡ map_get q n
      → found_behind names q o m ≡ found_behind names q o n
  found_behind-state names q (some w) m n h = refl
  found_behind-state names q none m n h =
      ap (λ x. if includes names q then from_prototype else from_state x) h

  state_write :
      (p q : Text) (v : V) (scope : Scope V)
      → map_get p scope.locals ≡ none
      → includes scope.prototype p ≡ false
      → scope_get q (record scope { state = map_set p v scope.state })
        ≡ (if p === q then written v (scope_get p scope) else scope_get q scope)
  unfolding scope_get
  state_write p q v scope e i = elim (Bool-cases (p === q)) [
    | inl same ↦
        rw (same, sym (===_sound p q same))
          (rw (e, i) (ap from_state (map_get-map_set p p v scope.state ∙ rw (===_refl p) refl)))
    | inr other ↦ rw other (
        found_behind-state scope.prototype q (map_get q scope.locals) (map_set p v scope.state)
          scope.state (map_get-map_set p q v scope.state ∙ rw other refl))
  ]

  write_to_locals :
      (assigning : Assigning V) (p : Text) (v : V) (scope : Scope V) (w : V)
      → map_get p scope.locals ≡ some w
      → scope_set assigning p v scope ≡ record scope { locals = map_set p v scope.locals }
  unfolding scope_set
  write_to_locals assigning p v scope w e = rw (scope_set, e) refl

  write_to_prototype :
      (assigning : Assigning V) (p : Text) (v : V) (scope : Scope V)
      → (p === codes "__proto__") ≡ false
      → map_get p scope.locals ≡ none
      → includes scope.prototype p ≡ true
      → scope_set assigning p v scope ≡ record scope { locals = map_set p v scope.locals }
  unfolding scope_set
  write_to_prototype assigning p v scope ordinary e i = rw (scope_set, e) (rw (i, ordinary) refl)

  write_to_state :
      (assigning : Assigning V) (p : Text) (v : V) (scope : Scope V)
      → (p === codes "__proto__") ≡ false
      → map_get p scope.locals ≡ none
      → includes scope.prototype p ≡ false
      → scope_set assigning p v scope
        ≡ assigning.react p (record scope { state = map_set p v scope.state })
  unfolding scope_set write_state
  write_to_state assigning p v scope ordinary e i =
      rw (scope_set, e) (rw (i, write_state, ordinary) refl)

  -- A name that is written reads as that value, from where it was found before, except that a name
  -- of the prototype becomes a local; every other name reads as before. The written name is not
  -- `__proto__`, and the bindings that the state's trap runs at once leave the name that is read.
  pub scope_get-scope_set :
      (assigning : Assigning V) (p q : Text) (v : V) (scope : Scope V)
      → (p === codes "__proto__") ≡ false
      → Leaves assigning q
      → scope_get q (scope_set assigning p v scope)
        ≡ (if p === q then written v (scope_get p scope) else scope_get q scope)
  unfolding scope_get scope_set
  scope_get-scope_set assigning p q v scope ordinary leaves = by_place (map_get p scope.locals) refl
    where
      by_place :
          (o : Option V)
          → map_get p scope.locals ≡ o
          → scope_get q (scope_set assigning p v scope)
            ≡ (if p === q then written v (scope_get p scope) else scope_get q scope)
      by_place (some w) e =
          ap (scope_get q) (write_to_locals assigning p v scope w e)
          ∙ local_write p q v scope
              (ap (λ o. written v (found_behind scope.prototype p o scope.state)) e)
      by_place none e = elim (Bool-cases (includes scope.prototype p)) [
        | inl i ↦
            ap (scope_get q) (write_to_prototype assigning p v scope ordinary e i)
            ∙ local_write p q v scope
                (ap (λ o. written v (found_behind scope.prototype p o scope.state)) e ∙ rw i refl)
        | inr i ↦
            ap (scope_get q) (write_to_state assigning p v scope ordinary e i)
            ∙ leaves p (record scope { state = map_set p v scope.state })
            ∙ state_write p q v scope e i
      ]

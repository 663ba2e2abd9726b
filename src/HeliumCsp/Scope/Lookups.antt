-- ===== src/HeliumCsp/Scope/Lookups.antt =====
-- What a name means in a scope of lib/lunula/assets/helium-csp.js.
use hacienda.Prelude.{
  ◌≡◌, refl, ap, sym, ◌∙◌, Bool, true, false, Option, none, some, List, [], ◌∷◌, Text, ◌===◌,
  ===_sound, includes, if◌then◌else◌, JsMap, map_get, map_set, map_get-map_set, Distinct,
  Bool-cases, inl, inr,
}
use hacienda.HeliumCsp.Scope.{
  builtins, helpers, spread, named, Context, create_scope, local, found_in, scope_get,
}

module _ {ℓ} {V : Type ℓ} where
  abbrev pub or_else : Option V → Option V → Option V
  or_else none o = o
  or_else (some v) o = some v

  map_get-named :
      (value : Text → V) (ks : List Text) (p : Text)
      → map_get p (named value ks) ≡ (if includes ks p then some (value p) else none)
  unfolding map_get includes named
  map_get-named value [] p = refl
  map_get-named value (k ∷ ks) p = elim (Bool-cases (k === p)) [
    | inl e ↦ rw (e, ===_sound k p e) refl
    | inr e ↦ rw e (map_get-named value ks p)
  ]

  or_else-if :
      (b : Bool) (v : V) (source target : Option V)
      → (b ≡ true → source ≡ none)
      → or_else source (if b then some v else target)
        ≡ or_else (if b then some v else source) target
  or_else-if true v source target h = rw (h refl) refl
  or_else-if false v source target h = refl

  map_get-spread :
      (source target : JsMap V) (p : Text)
      → Distinct source
      → map_get p (spread source target) ≡ or_else (map_get p source) (map_get p target)
  unfolding map_get spread
  map_get-spread [] target p d = refl
  map_get-spread ((k, v) ∷ source) target p d =
      map_get-spread source (map_set k v target) p d.1
      ∙ ap (or_else (map_get p source)) (map_get-map_set k p v target)
      ∙ or_else-if (k === p) v (map_get p source) (map_get p target)
          λ e. rw (sym (===_sound k p e)) d.0

  helpers-Distinct : (value : Text → V) → Distinct (named value helpers)
  unfolding map_get named ◌===◌
  helpers-Distinct value = (
    refl,
    (refl, (refl, (refl, (refl, (refl, (refl, (refl, (refl, (refl, (refl, (refl, tt))))))))))),
  )

  -- A name means a ref, else a helper, else a global that the page has allowed, else a builtin, else
  -- what every object inherits, else a property of the state.
  pub scope_get-create_scope :
      (extra_globals : JsMap V) (ctx : Context V) (state : JsMap V) (p : Text)
      → Distinct ctx.refs
      → Distinct extra_globals
      → scope_get p (create_scope extra_globals ctx state)
        ≡ found_in p
            (or_else (map_get p ctx.refs) (
              or_else (if includes helpers p then some (ctx.helper p) else none) (
                or_else
                  (map_get p extra_globals)
                  (if includes builtins p then some (ctx.builtin p) else none))))
            state
  unfolding scope_get create_scope
  scope_get-create_scope extra_globals ctx state p dr de =
      let base = named ctx.builtin builtins in
      let allowed = spread extra_globals base in
      let helped = spread (named ctx.helper helpers) allowed in
      ap (λ o. found_in p o state)
        (map_get-spread ctx.refs helped p dr
          ∙ ap (or_else (map_get p ctx.refs)) (
              map_get-spread (named ctx.helper helpers) allowed p (helpers-Distinct ctx.helper)
              ∙ rw
                  (
                    map_get-named ctx.helper helpers p,
                    map_get-spread extra_globals base p de,
                    map_get-named ctx.builtin builtins p,
                  )
                  refl))

  -- A helper cannot be replaced by a global that the page allows: only a ref of that name hides it.
  pub scope_get-helpers :
      (extra_globals : JsMap V) (ctx : Context V) (state : JsMap V) (p : Text)
      → Distinct ctx.refs
      → Distinct extra_globals
      → includes helpers p ≡ true
      → map_get p ctx.refs ≡ none
      → scope_get p (create_scope extra_globals ctx state) ≡ local (ctx.helper p)
  scope_get-helpers extra_globals ctx state p dr de h r =
      scope_get-create_scope extra_globals ctx state p dr de ∙ rw (r, h) refl

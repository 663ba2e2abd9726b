-- ===== src/HeliumCsp/Scope.antt =====
-- `allowGlobals` and `jexprEngine.createScope` of lib/lunula/assets/helium-csp.js, over any values.
pub mod Lookups
pub mod Writes
use hacienda.Prelude.{
  ℕ, Bool, true, false, Option, none, some, List, [], ◌∷◌, ◌++◌, Text, codes, ◌===◌, includes,
  if◌then◌else◌, JsMap, map_get, map_set, map_delete,
}

-- The properties that every object inherits, which `in` finds, too.
abbrev pub inherited : List Text
inherited =
    codes "constructor"
    ∷ codes "__defineGetter__"
    ∷ codes "__defineSetter__"
    ∷ codes "hasOwnProperty"
    ∷ codes "__lookupGetter__"
    ∷ codes "__lookupSetter__"
    ∷ codes "isPrototypeOf"
    ∷ codes "propertyIsEnumerable"
    ∷ codes "toString"
    ∷ codes "valueOf"
    ∷ codes "__proto__"
    ∷ codes "toLocaleString"
    ∷ []

abbrev pub builtins : List Text
builtins =
    codes "console"
    ∷ codes "Math"
    ∷ codes "Date"
    ∷ codes "JSON"
    ∷ codes "Object"
    ∷ codes "Array"
    ∷ codes "String"
    ∷ codes "Number"
    ∷ codes "Boolean"
    ∷ codes "Map"
    ∷ codes "Set"
    ∷ codes "Promise"
    ∷ codes "URL"
    ∷ codes "URLSearchParams"
    ∷ codes "parseInt"
    ∷ codes "parseFloat"
    ∷ codes "isNaN"
    ∷ codes "isFinite"
    ∷ codes "encodeURIComponent"
    ∷ codes "decodeURIComponent"
    ∷ codes "encodeURI"
    ∷ codes "decodeURI"
    ∷ codes "atob"
    ∷ codes "btoa"
    ∷ []

abbrev pub helpers : List Text
helpers =
    codes "$"
    ∷ codes "$el"
    ∷ codes "$event"
    ∷ codes "$data"
    ∷ codes "$html"
    ∷ codes "$Date"
    ∷ codes "$FormData"
    ∷ codes "$get"
    ∷ codes "$post"
    ∷ codes "$put"
    ∷ codes "$patch"
    ∷ codes "$delete"
    ∷ []

module _ {ℓ} {V : Type ℓ} where
  -- A spread of `source` behind what is there: its properties override.
  unfoldable pub spread : JsMap V → JsMap V → JsMap V
  spread [] target = target
  spread ((k, v) ∷ source) target = spread source (map_set k v target)

  -- Properties with values that the page or Helium gives.
  unfoldable pub named : (Text → V) → List Text → JsMap V
  named value [] = []
  named value (k ∷ ks) = (k, value k) ∷ named value ks

  -- `allowGlobals`: `none` is `undefined`.
  unfoldable pub allow_globals : List (Text × Option V) → JsMap V → JsMap V
  allow_globals [] extra_globals = extra_globals
  allow_globals ((k, none) ∷ globals) extra_globals =
      allow_globals globals (map_delete k extra_globals)
  allow_globals ((k, some v) ∷ globals) extra_globals =
      allow_globals globals (map_set k v extra_globals)

-- What a scope is made of: the page's own builtins, the helpers of the context, its refs.
pub record Context {ℓ} (V : Type ℓ) : Type ℓ where
  pub builtin : Text → V
  pub helper : Text → V
  pub refs : JsMap V

-- A scope: its own names, what `in` finds through the prototype of these, and the state behind them.
pub record Scope {ℓ} (V : Type ℓ) : Type ℓ where
  pub locals : JsMap V
  pub prototype : List Text
  pub state : JsMap V

-- What assignments do beyond this file's code.
pub record Assigning {ℓ} (V : Type ℓ) : Type ℓ where
  -- What is found through the prototype that an assigned value makes of the one before.
  pub new_prototype : V → List Text → List Text
  -- What the `set` trap of the reactive state does once the property is set: the bindings it runs.
  pub react : Text → Scope V → Scope V

-- Where a property comes from: the locals, the prototype of the locals, or the state, which is
-- nothing where it has no such property.
pub data Found {ℓ} (V : Type ℓ) : Type ℓ where
  local : V → Found V
  from_prototype : Found V
  from_state : Option V → Found V

module _ {ℓ} {V : Type ℓ} where
  unfoldable pub create_scope : JsMap V → Context V → JsMap V → Scope V
  create_scope extra_globals ctx state = record {
    locals =
        spread ctx.refs
          (spread (named ctx.helper helpers) (spread extra_globals (named ctx.builtin builtins)));
    prototype = inherited;
    state = state;
  }

  -- `p in t ? t[p] : ctx.state[p]`, where `t` has `own` as its own property, and its prototype the
  -- names.
  abbrev pub found_behind : List Text → Text → Option V → JsMap V → Found V
  found_behind names p (some v) state = local v
  found_behind names p none state =
      if includes names p then from_prototype else from_state (map_get p state)

  abbrev pub found_in : Text → Option V → JsMap V → Found V
  found_in p own state = found_behind inherited p own state

  -- The `get` trap.
  unfoldable pub scope_get : Text → Scope V → Found V
  scope_get p scope = found_behind scope.prototype p (map_get p scope.locals) scope.state

  -- `t[p] = v` for a property that the prototype has: `__proto__` sets the prototype.
  abbrev pub set_inherited : Assigning V → Text → V → Scope V → Scope V
  set_inherited assigning p v scope =
      if p === codes "__proto__"
      then record scope { prototype = assigning.new_prototype v scope.prototype }
      else record scope { locals = map_set p v scope.locals }

  -- `ctx.state[p] = v`; the prototype of the state, which `__proto__` sets, is none of the model.
  unfoldable pub write_state : Assigning V → Text → V → Scope V → Scope V
  write_state assigning p v scope =
      assigning.react p (
        if p === codes "__proto__" then scope else record scope { state = map_set p v scope.state })

  -- The `set` trap.
  unfoldable pub scope_set : Assigning V → Text → V → Scope V → Scope V
  unfolding write_state
  scope_set assigning p v scope = elim (map_get p scope.locals) [
    | some w ↦ record scope { locals = map_set p v scope.locals }
    | none ↦
        if includes scope.prototype p
        then set_inherited assigning p v scope
        else write_state assigning p v scope
  ]

-- ===== src/Jexpr/Values/Proxies.antt =====
-- The `Proxy` that `arrowFunction` of lib/lunula/assets/jexpr.js makes for a call.
use hacienda.Prelude.{
  ℕ, zero, suc, Option, none, some, List, [], ◌∷◌, Text, codes, JsMap, map_get, map_set,
  if◌then◌else◌,
}
use hacienda.Jexpr.Syntax.{Param, name, value, nameless}
use hacienda.Jexpr.Values.{
  Value, host, proxy, function, done, Run, pure, throw, ◌>>◌, Call, Engine, is_truthy, nothing,
}

module _ {V : Type 0} where
  unfoldable pub frame_at : ℕ → List (JsMap (Value V)) → JsMap (Value V)
  frame_at n [] = []
  frame_at zero (f ∷ fs) = f
  frame_at (suc n) (f ∷ fs) = frame_at n fs

  unfoldable pub set_frame : ℕ → JsMap (Value V) → List (JsMap (Value V)) → List (JsMap (Value V))
  set_frame n g [] = []
  set_frame zero g (f ∷ fs) = g ∷ fs
  set_frame (suc n) g (f ∷ fs) = f ∷ set_frame n g fs

  -- `Object.hasOwn(paramsObj, prop)` with the value; a symbol is no parameter.
  abbrev pub own : Option Text → JsMap (Value V) → Option (Value V)
  own none frame = none
  own (some k) frame = map_get k frame

  -- `if (Object.hasOwn(paramsObj, prop)) paramsObj[prop] = value`.
  abbrev pub set_own : Option Text → Value V → JsMap (Value V) → JsMap (Value V)
  set_own none v frame = frame
  set_own (some k) v frame = elim (map_get k frame) [ none ↦ frame | some old ↦ map_set k v frame ]

module _ {V W : Type 0} where
  unfoldable pub write_frame : ℕ → Option Text → Value V → Run V W (Unit {0})
  unfolding frame_at set_frame
  write_frame n k v s =
      done tt (record s { frames = set_frame n (set_own k v (frame_at n s.frames)) s.frames })

  module _ (e : Engine V W) (call : Call V W) where
    -- `receiver[key]`, with the trap `get` of every proxy on the way.
    unfoldable pub get_property : Value V → Value V → Run V W (Value V)
    unfolding frame_at
    get_property (host v) key s = e.get call (host v) key s
    get_property (function ps b t) key s = e.get call (function ps b t) key s
    get_property (proxy n target) key s =
        let rest = get_property target key s in
        elim (own (e.key key) (frame_at n s.frames)) [ none ↦ rest | some v ↦ done v s ]

    -- A trap `set` that returns a falsy value makes an assignment in a module throw.
    abbrev pub accepted : Value V → Run V W (Unit {0})
    accepted v = if is_truthy e v then pure tt else throw

    -- `receiver[key] = value`, with the trap `set`, which returns the value.
    unfoldable pub set_property : Value V → Value V → Value V → Run V W (Unit {0})
    unfolding write_frame
    set_property (host v) key x = e.set call (host v) key x
    set_property (function ps b t) key x = e.set call (function ps b t) key x
    set_property (proxy n target) key x = do
      write_frame n (e.key key) x
      set_property target key x
      accepted x

module _ {V W : Type 0} (e : Engine V W) where
  -- `Object.fromEntries` makes a key of what the parameter is.
  abbrev pub param_key : Param → Option Text
  param_key (name p) = some p
  param_key (value l) = e.key (host (e.literal l))
  param_key nameless = some (codes "undefined")

  abbrev pub set_param : Option Text → Value V → JsMap (Value V) → JsMap (Value V)
  set_param none v frame = frame
  set_param (some p) v frame = map_set p v frame

  -- `args[i]`.
  abbrev pub first_of : List (Value V) → Value V
  first_of [] = nothing e
  first_of (a ∷ rest) = a

  abbrev pub later : List (Value V) → List (Value V)
  later [] = []
  later (a ∷ rest) = rest

  unfoldable pub params_object : List Param → List (Value V) → JsMap (Value V) → JsMap (Value V)
  params_object [] args frame = frame
  params_object (p ∷ ps) args frame =
      params_object ps (later args) (set_param (param_key p) (first_of args) frame)

-- ===== src/Jexpr/Evaluate/Parameters.antt =====
-- The parameters of an arrow function of lib/lunula/assets/jexpr.js in its body.
use hacienda.Prelude.{
  ℕ, suc, ◌≡◌, refl, ap, ◌∙◌, inl, inr, false, Option, none, some, List, [], ◌∷◌, ◌++◌, length, map,
  Text, codes, ◌===◌, JsMap, map_get, map_set, map_get-map_set, if◌then◌else◌, Option-cases, arith,
}
use hacienda.Jexpr.Syntax.{Expr, id, name}
use hacienda.Jexpr.Values.{
  Value, proxy, function, State, Outcome, done, Call, Engine, is_nullish, text,
}
use hacienda.Jexpr.Values.Proxies.{frame_at, get_property, params_object, first_of, later}
use hacienda.Jexpr.Evaluate.{evaluate, enter_call, apply}

frame_at-append :
    {V : Type 0} (fs : List (JsMap (Value V))) (f : JsMap (Value V))
    → frame_at (length fs) (fs ++ f ∷ []) ≡ f
unfolding frame_at
frame_at-append [] f = refl
frame_at-append (g ∷ fs) f = frame_at-append fs f

module _ {V W : Type 0} (e : Engine V W) where
  -- The argument of a name: the last of those that it names.
  unfoldable pub argument : Text → List Text → List (Value V) → Option (Value V)
  argument p [] args = none
  argument p (q ∷ qs) args = elim (argument p qs (later e args)) [
    | none ↦ if q === p then some (first_of e args) else none
    | some v ↦ some v
  ]

  abbrev or_frame : Option (Value V) → Option (Value V) → Option (Value V)
  or_frame none o = o
  or_frame (some v) o = some v

  map_get-params_object :
      (p : Text) (qs : List Text) (args : List (Value V)) (frame : JsMap (Value V))
      → map_get p (params_object e (map name qs) args frame)
        ≡ or_frame (argument p qs args) (map_get p frame)
  unfolding params_object argument
  map_get-params_object p [] args frame = refl
  map_get-params_object p (q ∷ qs) args frame = ground (
    arith,
    map_get-params_object p qs (later e args) (map_set q (first_of e args) frame),
    map_get-map_set q p (first_of e args) frame,
  )

  abbrev entered : List Text → List (Value V) → State V W → State V W
  entered ps args s = record s { frames = s.frames ++ params_object e (map name ps) args [] ∷ [] }

  abbrev argument_or : Option (Value V) → Outcome V W (Value V) → State V W → Outcome V W (Value V)
  argument_or none outer s = outer
  argument_or (some v) outer s = done v s

  get_property-proxy :
      (call : Call V W) (p : Text) (n : ℕ) (target : Value V) (s : State V W)
      → e.key (text e p) ≡ some p
      → get_property e call (proxy n target) (text e p) s
        ≡ argument_or (map_get p (frame_at n s.frames)) (get_property e call target (text e p) s) s
  unfolding get_property
  get_property-proxy call p n target s key =
      rw (get_property, key)
        (elim (Option-cases (map_get p (frame_at n s.frames))) [
          | inl a ↦ rw a refl
          | inr (v, a) ↦ rw a refl
        ])

  or_frame-none : (o : Option (Value V)) → or_frame o none ≡ o
  or_frame-none none = refl
  or_frame-none (some v) = refl

  -- The parameters are so at the start of the body.
  pub frame_at-entered :
      (ps : List Text) (args : List (Value V)) (s : State V W)
      → frame_at (length s.frames) (entered ps args s).frames
        ≡ params_object e (map name ps) args []
  frame_at-entered ps args s = frame_at-append s.frames (params_object e (map name ps) args [])

  -- A call of an arrow function whose parameters are names evaluates its body, whatever it is, in a
  -- scope of its own. Wherever a name other than `this` is evaluated in that scope while its
  -- parameters are as the call set them, no matter what else has changed, it is the last argument
  -- that it names, and `undefined` where the argument is missing; a name of no parameter is that
  -- property of the scope that the function closes over. That scope is no `undefined` or `null`, and
  -- the engine keeps the text of the name.
  pub apply-parameter :
      (fuel : ℕ) (p : Text) (ps : List Text) (body : Expr) (scope this : Value V)
      (args : List (Value V)) (s t : State V W)
      → (p === codes "this") ≡ false
      → is_nullish e scope ≡ false
      → e.key (text e p) ≡ some p
      → frame_at (length s.frames) t.frames ≡ params_object e (map name ps) args []
      → (apply e (suc fuel) (function (map name ps) body scope) this args s
          ≡ evaluate e (apply e fuel) body (proxy (length s.frames) scope) (entered ps args s))
        × (evaluate e (apply e fuel) (id p) (proxy (length s.frames) scope) t
            ≡ argument_or (argument p ps args) (get_property e (apply e fuel) scope (text e p) t) t)
  unfolding apply enter_call evaluate map_get
  apply-parameter fuel p ps body scope this args s t other nullish key kept =
      let inside : evaluate e (apply e fuel) (id p) (proxy (length s.frames) scope) t
          ≡ get_property e (apply e fuel) (proxy (length s.frames) scope) (text e p) t =
        rw other refl in
      (
        rw nullish refl,
        inside
            ∙ get_property-proxy (apply e fuel) p (length s.frames) scope t key
            ∙ ap (λ o. argument_or o (get_property e (apply e fuel) scope (text e p) t) t)
                (ap (map_get p) kept
                  ∙ map_get-params_object p ps args []
                  ∙ or_frame-none (argument p ps args)),
      )

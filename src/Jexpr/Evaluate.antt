-- ===== src/Jexpr/Evaluate.antt =====
-- `evaluate` of the nodes that the factory of lib/lunula/assets/jexpr.js makes.
pub mod Parameters
pub mod Assignments
pub mod Complete
pub mod Followed
pub mod Inverse
pub mod Rules
mod Tests
use hacienda.Prelude.{
  ℕ, zero, suc, Option, none, some, List, [], ◌∷◌, ◌++◌, length, Text, codes, ◌===◌, if◌then◌else◌,
}
use hacienda.Jexpr.Parser.{is_absent}
use hacienda.Jexpr.Syntax.{
  Param, Expr, Exprs, Entries, absent, empty, literal, id, unary, binary, getter, invoke, index,
  ternary, list, arrow_function, nil, cons, end, entry,
}
use hacienda.Jexpr.Values.{
  Value, host, proxy, function, done, running, Run, pure, throw, ◌>>=◌, ◌>>◌, Call, Engine,
  is_truthy, is_nullish, is_undefined, nothing, text,
}
use hacienda.Jexpr.Values.Proxies.{get_property, set_property, params_object}

module _ {V W : Type 0} (e : Engine V W) where
  module _ (call : Call V W) where
    -- `receiver?.[key]`.
    abbrev pub get_safe : Value V → Value V → Run V W (Value V)
    get_safe receiver key =
        if is_nullish e receiver then pure (nothing e) else get_property e call receiver key

    -- What an assignment does once the receiver and the property are known.
    abbrev pub assign : Value V → Value V → Value V → Run V W (Value V)
    assign receiver key v =
        if is_undefined e receiver
        then pure (nothing e)
        else (do set_property e call receiver key v; pure v)

    -- `scope?.['this'] ?? scope`.
    abbrev pub this_of : Value V → Run V W (Value V)
    this_of scope = do
      this ← get_safe scope (text e (codes "this"))
      pure (if is_nullish e this then scope else this)

    -- `f?.apply?.(this, args)`.
    abbrev pub apply_safe : Value V → Value V → List (Value V) → Run V W (Value V)
    apply_safe f this args = if is_nullish e f then pure (nothing e) else call f this args

    -- The receiver and the value of `this`, and the function.
    abbrev pub method_of : Option Text → Value V → Value V → Run V W (Value V × Value V)
    method_of none scope receiver = do this ← this_of scope; pure (this, receiver)
    method_of (some []) scope receiver = do this ← this_of scope; pure (this, receiver)
    method_of (some (c ∷ m)) scope receiver = do
      f ← get_safe receiver (text e (c ∷ m))
      pure (receiver, f)

    unfoldable mutual
      pub evaluate : Expr → Value V → Run V W (Value V)
      evaluate absent scope = throw
      evaluate empty scope = pure scope
      evaluate (literal l) scope = pure (host (e.literal l))
      evaluate (id v) scope = if v === codes "this" then pure scope else get_safe scope (text e v)
      evaluate (unary op x) scope = do v ← evaluate x scope; e.unary call op v
      evaluate (binary l op r) scope =
          if op === codes "="
          then evaluate_assignment l (evaluate r scope) scope
          else (if op === codes "&&"
              then (do v ← evaluate l scope; if is_truthy e v then evaluate r scope else pure v)
              else (if op === codes "||"
                  then (do v ← evaluate l scope; if is_truthy e v then pure v else evaluate r scope)
                  else (if op === codes "??"
                      then (do
                        v ← evaluate l scope
                        if is_nullish e v then evaluate r scope else pure v)
                      else (do v ← evaluate l scope; w ← evaluate r scope; e.binary call op v w))))
      evaluate (getter g n) scope = do receiver ← evaluate g scope; get_safe receiver (text e n)
      evaluate (invoke r m args) scope = do
        receiver ← evaluate r scope
        (this, f) ← method_of m scope receiver
        values ← evaluate_each args scope
        apply_safe f this values
      evaluate (index x a) scope = do
        receiver ← evaluate x scope
        if is_nullish e receiver
            then pure (nothing e)
            else (do key ← evaluate a scope; get_property e call receiver key)
      evaluate (ternary c t f) scope = do
        v ← evaluate c scope
        if is_truthy e v then evaluate t scope else evaluate f scope
      evaluate (Expr.map entries) scope = do m ← e.new_map; evaluate_entries entries scope m
      evaluate (list items) scope = do values ← evaluate_each items scope; e.new_list values
      evaluate (arrow_function params body) scope = pure (function params body scope)

      -- The branch of `=`: the target must be a name, a getter or an index; its value comes first.
      pub evaluate_assignment : Expr → Run V W (Value V) → Value V → Run V W (Value V)
      evaluate_assignment (id v) right scope = do x ← right; assign scope (text e v) x
      evaluate_assignment (getter g n) right scope = do
        x ← right
        receiver ← evaluate g scope
        assign receiver (text e n) x
      evaluate_assignment (index g a) right scope = do
        x ← right
        receiver ← evaluate g scope
        key ← evaluate a scope
        assign receiver key x
      evaluate_assignment absent right scope = throw
      evaluate_assignment empty right scope = throw
      evaluate_assignment (literal l) right scope = throw
      evaluate_assignment (unary op x) right scope = throw
      evaluate_assignment (binary l op r) right scope = throw
      evaluate_assignment (invoke r m args) right scope = throw
      evaluate_assignment (ternary c t f) right scope = throw
      evaluate_assignment (Expr.map entries) right scope = throw
      evaluate_assignment (list items) right scope = throw
      evaluate_assignment (arrow_function params body) right scope = throw

      -- `map((a) => a?.evaluate(scope))`.
      pub evaluate_each : Exprs → Value V → Run V W (List (Value V))
      evaluate_each nil scope = pure []
      evaluate_each (cons x xs) scope = do
        v ← (if is_absent x then pure (nothing e) else evaluate x scope)
        vs ← evaluate_each xs scope
        pure (v ∷ vs)

      -- The entries go into the new object, one by one.
      pub evaluate_entries : Entries → Value V → Value V → Run V W (Value V)
      evaluate_entries end scope m = pure m
      evaluate_entries (entry k x xs) scope m = do
        if is_absent x then pure tt else (do v ← evaluate x scope; e.set call m (text e k) v)
        evaluate_entries xs scope m

  -- `scope ?? {}`.
  abbrev pub target_of : Value V → Run V W (Value V)
  target_of scope = if is_nullish e scope then e.new_map else pure scope

  -- A call makes an object of the parameters and a proxy, its scope.
  unfoldable pub enter_call : List Param → List (Value V) → Value V → Run V W (Value V)
  unfolding params_object
  enter_call params args scope = do
    target ← target_of scope
    λ s.
        done (proxy (length s.frames) target)
          (record s { frames = s.frames ++ params_object e params args [] ∷ [] })

  -- `f.apply(this, args)`, with a bound on the calls of arrow functions within each other.
  unfoldable pub apply : ℕ → Call V W
  unfolding enter_call evaluate
  apply zero f this args s = running
  apply (suc fuel) (function params body scope) this args s =
      (enter_call params args scope >>= evaluate (apply fuel) body) s
  apply (suc fuel) (host v) this args s = e.apply (apply fuel) (host v) this args s
  apply (suc fuel) (proxy n t) this args s = e.apply (apply fuel) (proxy n t) this args s

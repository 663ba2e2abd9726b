-- ===== src/Jexpr/Values.antt =====
-- What the evaluator of lib/lunula/assets/jexpr.js computes with: values, the parameters of the arrow
-- functions that run, and the JavaScript engine, which is a parameter. `V` are the engine's own values
-- and `W` is what they can change.
pub mod Proxies
use hacienda.Prelude.{
  ℕ, zero, suc, Bool, Option, none, some, List, [], ◌∷◌, ◌++◌, length, Text, JsMap,
}
use hacienda.Jexpr.Syntax.{Literal, Param, Expr}

pub data Value (V : Type 0) : Type 0 where
  host : V → Value V
  -- The scope of a call of an arrow function: the number of its parameters' object, and its target.
  proxy : ℕ → Value V → Value V
  -- What `arrowFunction` evaluates to, with the scope that it closes over.
  function : List Param → Expr → Value V → Value V

pub record State (V W : Type 0) : Type 0 where
  pub world : W
  -- Every `paramsObj` that was made.
  pub frames : List (JsMap (Value V))

-- What evaluation ends with; `running` has not ended within its bound on nested calls.
pub data Outcome (V W A : Type 0) : Type 0 where
  done : A → State V W → Outcome V W A
  thrown : State V W → Outcome V W A
  running : Outcome V W A

abbrev pub Run : Type 0 → Type 0 → Type 0 → Type 0
Run V W A = State V W → Outcome V W A

module _ {V W : Type 0} where
  abbrev pub pure : {A : Type 0} → A → Run V W A
  pure a s = done a s

  abbrev pub throw : {A : Type 0} → Run V W A
  throw s = thrown s

  infixl 5 ◌>>=◌ ◌>>◌
  abbrev pub ◌>>=◌ : {A B : Type 0} → Run V W A → (A → Run V W B) → Run V W B
  ◌>>=◌ m f s = elim (m s) [ done a t ↦ f a t | thrown t ↦ thrown t | running ↦ running ]

  abbrev pub ◌>>◌ : {A B : Type 0} → Run V W A → Run V W B → Run V W B
  m >> k = m >>= λ _. k

-- What applies a function to `this` and to arguments.
abbrev pub Call : Type 0 → Type 0 → Type 0
Call V W = Value V → Value V → List (Value V) → Run V W (Value V)

-- The engine. What it does may call functions of the program, and change the state.
pub record Engine (V W : Type 0) : Type 0 where
  pub undefined : V
  pub text : Text → V
  pub literal : Literal → V
  -- `null` and `undefined`.
  pub is_nullish : V → Bool
  pub is_undefined : V → Bool
  pub is_truthy : V → Bool
  -- The text of a key; a symbol has none.
  pub key : Value V → Option Text
  pub unary : Call V W → Text → Value V → Run V W (Value V)
  pub binary : Call V W → Text → Value V → Value V → Run V W (Value V)
  -- `receiver[key]`, and `receiver[key] = value`, of what is no proxy of an arrow function.
  pub get : Call V W → Value V → Value V → Run V W (Value V)
  pub set : Call V W → Value V → Value V → Value V → Run V W (Unit {0})
  -- `f.apply(this, args)` of what is no arrow function of the program.
  pub apply : Call V W → Call V W
  pub new_map : Run V W (Value V)
  pub new_list : List (Value V) → Run V W (Value V)

module _ {V W : Type 0} (e : Engine V W) where
  -- A function or a proxy is an object: it is neither nullish nor falsy.
  abbrev pub is_nullish : Value V → Bool
  is_nullish (host v) = e.is_nullish v
  is_nullish (proxy n t) = Bool.false
  is_nullish (function ps b s) = Bool.false

  abbrev pub is_undefined : Value V → Bool
  is_undefined (host v) = e.is_undefined v
  is_undefined (proxy n t) = Bool.false
  is_undefined (function ps b s) = Bool.false

  abbrev pub is_truthy : Value V → Bool
  is_truthy (host v) = e.is_truthy v
  is_truthy (proxy n t) = Bool.true
  is_truthy (function ps b s) = Bool.true

  abbrev pub nothing : Value V
  nothing = host e.undefined

  abbrev pub text : Text → Value V
  text t = host (e.text t)

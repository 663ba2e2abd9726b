-- ===== src/Jexpr/Evaluate/Rules.antt =====
-- What the expressions of lib/lunula/assets/jexpr.js mean, as rules, and that `evaluate` follows them.
use hacienda.Prelude.{◌≡◌, ◌≢◌, true, false, Option, none, some, List, [], ◌∷◌, Text, codes}
use hacienda.Jexpr.Parser.{is_absent}
use hacienda.Jexpr.Syntax.{
  Literal, Param, Expr, Exprs, Entries, absent, empty, literal, id, unary, binary, getter, invoke,
  index, ternary, list, arrow_function, nil, cons, end, entry,
}
use hacienda.Jexpr.Values.{
  Value, host, function, State, done, Call, Engine, is_truthy, is_nullish, is_undefined, nothing,
  text,
}
use hacienda.Jexpr.Values.Proxies.{get_property, set_property}

module _ {V W : Type 0} (e : Engine V W) (call : Call V W) where
  -- `receiver?.[key]`: the receiver and the key, the state, and the value and the state then.
  pub data Gets (o k : Value V) (s : State V W) : Value V → State V W → Type 0 where
    of_nothing : is_nullish e o ≡ true → Gets o k s (nothing e) s
    of_object :
        {r : Value V} {t : State V W}
        → is_nullish e o ≡ false
        → get_property e call o k s ≡ done r t
        → Gets o k s r t

  -- Nothing is set on `undefined`; otherwise the result is the value.
  pub data Sets (o k v : Value V) (s : State V W) : Value V → State V W → Type 0 where
    on_undefined : is_undefined e o ≡ true → Sets o k v s (nothing e) s
    on_object :
        {t : State V W}
        → is_undefined e o ≡ false
        → set_property e call o k v s ≡ done tt t
        → Sets o k v s v t

  pub data Calls (f this : Value V) (args : List (Value V)) (s : State V W)
      : Value V → State V W → Type 0 where
    no_function : is_nullish e f ≡ true → Calls f this args s (nothing e) s
    function_call :
        {r : Value V} {t : State V W}
        → is_nullish e f ≡ false
        → call f this args s ≡ done r t
        → Calls f this args s r t

  -- The value of `this` in a call without a method: that of the scope, or else the scope.
  pub data ThisOf (scope : Value V) (s : State V W) : Value V → State V W → Type 0 where
    given_this :
        {this : Value V} {t : State V W}
        → Gets scope (text e (codes "this")) s this t
        → is_nullish e this ≡ false
        → ThisOf scope s this t
    scope_this :
        {this : Value V} {t : State V W}
        → Gets scope (text e (codes "this")) s this t
        → is_nullish e this ≡ true
        → ThisOf scope s scope t

  -- `this` and the function of a call, by the method's name and what the receiver is.
  pub data Method (scope o : Value V) (s : State V W)
      : Option Text → Value V → Value V → State V W → Type 0 where
    no_method :
        {this : Value V} {t : State V W} → ThisOf scope s this t → Method scope o s none this o t
    empty_method :
        {this : Value V} {t : State V W}
        → ThisOf scope s this t
        → Method scope o s (some []) this o t
    of_receiver :
        {c : _} {m : Text} {f : Value V} {t : State V W}
        → Gets o (text e (c ∷ m)) s f t
        → Method scope o s (some (c ∷ m)) o f t

  mutual
    -- From the expression, the scope and the state to the value and the state then.
    pub data Means : Expr → Value V → State V W → Value V → State V W → Type 0 where
      nothing_said : {scope : Value V} {s : State V W} → Means empty scope s scope s
      constant :
          {l : Literal} {scope : Value V} {s : State V W}
          → Means (literal l) scope s (host (e.literal l)) s
      this_name : {scope : Value V} {s : State V W} → Means (id (codes "this")) scope s scope s
      other_name :
          {v : Text} {scope r : Value V} {s t : State V W}
          → v ≢ codes "this"
          → Gets scope (text e v) s r t
          → Means (id v) scope s r t
      unary_rule :
          {op : Text} {x : Expr} {scope v r : Value V} {s t u : State V W}
          → Means x scope s v t
          → e.unary call op v t ≡ done r u
          → Means (unary op x) scope s r u
      and_right :
          {l r : Expr} {scope v w : Value V} {s t u : State V W}
          → Means l scope s v t
          → is_truthy e v ≡ true
          → Means r scope t w u
          → Means (binary l (codes "&&") r) scope s w u
      and_left :
          {l r : Expr} {scope v : Value V} {s t : State V W}
          → Means l scope s v t
          → is_truthy e v ≡ false
          → Means (binary l (codes "&&") r) scope s v t
      or_left :
          {l r : Expr} {scope v : Value V} {s t : State V W}
          → Means l scope s v t
          → is_truthy e v ≡ true
          → Means (binary l (codes "||") r) scope s v t
      or_right :
          {l r : Expr} {scope v w : Value V} {s t u : State V W}
          → Means l scope s v t
          → is_truthy e v ≡ false
          → Means r scope t w u
          → Means (binary l (codes "||") r) scope s w u
      nullish_left :
          {l r : Expr} {scope v : Value V} {s t : State V W}
          → Means l scope s v t
          → is_nullish e v ≡ false
          → Means (binary l (codes "??") r) scope s v t
      nullish_right :
          {l r : Expr} {scope v w : Value V} {s t u : State V W}
          → Means l scope s v t
          → is_nullish e v ≡ true
          → Means r scope t w u
          → Means (binary l (codes "??") r) scope s w u
      -- Any other operator has both of its operands evaluated, the left one first.
      operator :
          {l r : Expr} {op : Text} {scope v w x : Value V} {s t u z : State V W}
          → op ≢ codes "="
          → op ≢ codes "&&"
          → op ≢ codes "||"
          → op ≢ codes "??"
          → Means l scope s v t
          → Means r scope t w u
          → e.binary call op v w u ≡ done x z
          → Means (binary l op r) scope s x z
      -- The value of an assignment comes before its receiver and its key.
      to_name :
          {v : Text} {r : Expr} {scope x y : Value V} {s t u : State V W}
          → Means r scope s x t
          → Sets scope (text e v) x t y u
          → Means (binary (id v) (codes "=") r) scope s y u
      to_getter :
          {g r : Expr} {n : Text} {scope x o y : Value V} {s t u z : State V W}
          → Means r scope s x t
          → Means g scope t o u
          → Sets o (text e n) x u y z
          → Means (binary (getter g n) (codes "=") r) scope s y z
      to_index :
          {g a r : Expr} {scope x o k y : Value V} {s t u z z' : State V W}
          → Means r scope s x t
          → Means g scope t o u
          → Means a scope u k z
          → Sets o k x z y z'
          → Means (binary (index g a) (codes "=") r) scope s y z'
      getter_rule :
          {g : Expr} {n : Text} {scope o r : Value V} {s t u : State V W}
          → Means g scope s o t
          → Gets o (text e n) t r u
          → Means (getter g n) scope s r u
      call_rule :
          {x : Expr} {m : Option Text} {args : Exprs} {scope o this f r : Value V}
          {vs : List (Value V)} {s t u z z' : State V W}
          → Means x scope s o t
          → Method scope o t m this f u
          → MeansEach args scope u vs z
          → Calls f this vs z r z'
          → Means (invoke x m args) scope s r z'
      index_of_nothing :
          {x a : Expr} {scope o : Value V} {s t : State V W}
          → Means x scope s o t
          → is_nullish e o ≡ true
          → Means (index x a) scope s (nothing e) t
      index_of_object :
          {x a : Expr} {scope o k r : Value V} {s t u z : State V W}
          → Means x scope s o t
          → is_nullish e o ≡ false
          → Means a scope t k u
          → get_property e call o k u ≡ done r z
          → Means (index x a) scope s r z
      chosen :
          {c x y : Expr} {scope v r : Value V} {s t u : State V W}
          → Means c scope s v t
          → is_truthy e v ≡ true
          → Means x scope t r u
          → Means (ternary c x y) scope s r u
      otherwise :
          {c x y : Expr} {scope v r : Value V} {s t u : State V W}
          → Means c scope s v t
          → is_truthy e v ≡ false
          → Means y scope t r u
          → Means (ternary c x y) scope s r u
      map_rule :
          {entries : Entries} {scope m r : Value V} {s t u : State V W}
          → e.new_map s ≡ done m t
          → MeansEntries entries scope m t r u
          → Means (Expr.map entries) scope s r u
      list_rule :
          {items : Exprs} {scope r : Value V} {vs : List (Value V)} {s t u : State V W}
          → MeansEach items scope s vs t
          → e.new_list vs t ≡ done r u
          → Means (list items) scope s r u
      closure :
          {params : List Param} {body : Expr} {scope : Value V} {s : State V W}
          → Means (arrow_function params body) scope s (function params body scope) s

    -- From left to right; a missing one is `undefined`.
    pub data MeansEach : Exprs → Value V → State V W → List (Value V) → State V W → Type 0 where
      none_left : {scope : Value V} {s : State V W} → MeansEach nil scope s [] s
      hole_next :
          {xs : Exprs} {scope : Value V} {vs : List (Value V)} {s t : State V W}
          → MeansEach xs scope s vs t
          → MeansEach (cons absent xs) scope s (nothing e ∷ vs) t
      value_next :
          {x : Expr} {xs : Exprs} {scope v : Value V} {vs : List (Value V)} {s t u : State V W}
          → is_absent x ≡ false
          → Means x scope s v t
          → MeansEach xs scope t vs u
          → MeansEach (cons x xs) scope s (v ∷ vs) u

    -- The entries are set on the object, in their order.
    pub data MeansEntries
        : Entries → Value V → Value V → State V W → Value V → State V W → Type 0 where
      no_more : {scope m : Value V} {s : State V W} → MeansEntries end scope m s m s
      hole_entry :
          {k : Text} {xs : Entries} {scope m r : Value V} {s t : State V W}
          → MeansEntries xs scope m s r t
          → MeansEntries (entry k absent xs) scope m s r t
      set_entry :
          {k : Text} {x : Expr} {xs : Entries} {scope m v r : Value V} {s t u z : State V W}
          → is_absent x ≡ false
          → Means x scope s v t
          → e.set call m (text e k) v t ≡ done tt u
          → MeansEntries xs scope m u r z
          → MeansEntries (entry k x xs) scope m s r z

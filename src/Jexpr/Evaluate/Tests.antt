-- ===== src/Jexpr/Evaluate/Tests.antt =====
-- Runs of the evaluator of lib/lunula/assets/jexpr.js, with an engine that has one object.
use hacienda.Prelude.{
  ◌≡◌, ◌↔◌, refl, ap, map_get-map_set, Bool, true, false, Option, none, some, [], ◌∷◌, map, Text,
  codes, ◌===◌, JsMap, map_get, map_set,
}
use hacienda.Jexpr.Syntax.{Expr, Literal, name, id, literal, binary, ternary}
use hacienda.Jexpr.Values.{Value, host, proxy, function, State, done, Call, Engine, text}
use hacienda.Jexpr.Values.Proxies.{get_property, set_property, frame_at, params_object}
use hacienda.Jexpr.Evaluate.{evaluate, apply}
use hacienda.Jexpr.Evaluate.Parameters.{apply-parameter, argument}
use hacienda.Jexpr.Evaluate.Assignments.{is_done, evaluate-falsy_assignment, set_property-parameter}
use hacienda.Jexpr.Evaluate.Rules.{
  Means, otherwise, and_right, other_name, constant, to_name, of_object, on_object,
}
use hacienda.Jexpr.Evaluate.Complete.{evaluate_iff}

data Small : Type 0 where
  nothing page : Small
  flag : Bool → Small
  word : Text → Small

abbrev Things : Type 0
Things = JsMap (Value Small)

abbrev literal_of : Literal → Small
literal_of Literal.true = flag true
literal_of Literal.false = flag false
literal_of (Literal.text t) = word t
literal_of Literal.null = nothing
literal_of Literal.undefined = nothing
literal_of (Literal.integer s t) = word t
literal_of (Literal.decimal s t) = word t

abbrev is_nothing : Small → Bool
is_nothing nothing = true
is_nothing page = false
is_nothing (flag b) = false
is_nothing (word t) = false

abbrev is_true : Small → Bool
is_true nothing = false
is_true page = true
is_true (flag b) = b
is_true (word []) = false
is_true (word (c ∷ t)) = true

abbrev key_of : Value Small → Option Text
key_of (host (word t)) = some t
key_of (host nothing) = some (codes "undefined")
key_of (host page) = some (codes "page")
key_of (host (flag b)) = some (codes "flag")
key_of (proxy n t) = none
key_of (function ps b t) = none

abbrev found : Option (Value Small) → Value Small
found none = host nothing
found (some v) = v

abbrev read : Option Text → Things → Value Small
read none w = host nothing
read (some k) w = found (map_get k w)

abbrev write : Option Text → Value Small → Things → Things
write none v w = w
write (some k) v w = map_set k v w

abbrev put_value : Option Text → Value Small → State Small Things → State Small Things
put_value k v s = record s { world = write k v s.world }

abbrev small : Engine Small Things
small = record {
  undefined = nothing;
  text = word;
  literal = literal_of;
  is_nullish = is_nothing;
  is_undefined = is_nothing;
  is_truthy = is_true;
  key = key_of;
  unary = λ call op v s. done v s;
  binary = λ call op v w s. done w s;
  get = λ call o k s. done (read (key_of k) s.world) s;
  set = λ call o k v s. done tt (put_value (key_of k) v s);
  apply = λ call f this args s. done f s;
  new_map = λ s. done (host page) s;
  new_list = λ vs s. done (host page) s;
}

abbrev no_call : Call Small Things
no_call f this args s = done (host nothing) s

abbrev x : Text
x = codes "x"

abbrev seven : Value Small
seven = host (word (codes "7"))

abbrev outer : Value Small
outer = host page

abbrev start : State Small Things
start = record { world = (x, host (flag true)) ∷ []; frames = [] }

-- (x => …)(7)
abbrev entered : State Small Things
entered = record { world = (x, host (flag true)) ∷ []; frames = ((x, seven) ∷ []) ∷ [] }

-- (x => false || x)(7), and its parameter in a call within that call, once the page has changed.
abbrev either : Expr
either = binary (literal Literal.false) (codes "||") (id x)

abbrev deeper : State Small Things
deeper = record { world = []; frames = ((x, seven) ∷ []) ∷ ((x, outer) ∷ []) ∷ [] }

apply-parameter_example :
    (apply small 1 (function (map name (x ∷ [])) either outer) outer (seven ∷ []) start
      ≡ evaluate small (apply small 0) either (proxy 0 outer) entered)
    × (evaluate small (apply small 0) (id x) (proxy 0 outer) deeper ≡ done seven deeper)
unfolding argument ◌===◌ params_object map_set frame_at
apply-parameter_example =
    apply-parameter small 0 x (x ∷ []) either outer outer (seven ∷ []) start deeper refl refl refl
      refl

-- (x => x = false)(7)
evaluate-falsy_assignment_example :
    is_done (
      evaluate small no_call
        (binary (id x) (codes "=") (literal Literal.false))
        (proxy 0 outer)
        entered)
    ≡ false
unfolding evaluate
evaluate-falsy_assignment_example =
    evaluate-falsy_assignment small no_call x (literal Literal.false) 0 outer (host (flag false))
      entered entered refl refl

abbrev stale : State Small Things
stale = record { world = (x, host (flag true)) ∷ []; frames = ((x, host (flag true)) ∷ []) ∷ [] }

set_property-parameter_example :
    (s' : State Small Things) × (set_property small no_call
        (proxy 0 outer)
        (text small x)
        seven
        stale
      ≡ done tt s')
    × (get_property small no_call (proxy 0 outer) (text small x) s' ≡ done seven s')
    × (get_property small no_call outer (text small x) s' ≡ done seven s')
unfolding frame_at map_get map_set ◌===◌
set_property-parameter_example =
    set_property-parameter small no_call x seven (host (flag true)) 0 page stale
      (put_value (some x) seven) refl refl refl (λ t. refl)
      (λ t.
        ap (λ o. done (found o) (put_value (some x) seven t)) (map_get-map_set x x seven t.world))
      (λ t. refl)

-- x && false ? null : (x = '7')
abbrev choice : Expr
choice =
    ternary (binary (id x) (codes "&&") (literal Literal.false)) (literal Literal.null)
      (binary (id x) (codes "=") (literal (Literal.text (codes "7"))))

evaluate_iff_example :
    (evaluate small no_call choice outer start ≡ done seven (put_value (some x) seven start))
    ↔ Means small no_call choice outer start seven (put_value (some x) seven start)
evaluate_iff_example =
    evaluate_iff small no_call choice outer start seven (put_value (some x) seven start)

choice-Means : Means small no_call choice outer start seven (put_value (some x) seven start)
unfolding map_get ◌===◌ get_property set_property
choice-Means =
    otherwise (and_right (other_name (λ same. cc) (of_object refl refl)) refl constant) refl
      (to_name constant (on_object refl refl))

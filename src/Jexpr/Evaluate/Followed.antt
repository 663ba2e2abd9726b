-- ===== src/Jexpr/Evaluate/Followed.antt =====
-- `evaluate` of lib/lunula/assets/jexpr.js follows the rules of what its expressions mean.
use hacienda.Prelude.{
  ◌≡◌, ◌≢◌, refl, false, Option, List, ◌∷◌, Text, codes, ◌===◌, ===_sound, Bool-cases, inl, inr,
}
use hacienda.Jexpr.Syntax.{Expr, Exprs, Entries}
use hacienda.Jexpr.Values.{Value, State, Outcome, done, Run, ◌>>=◌, Call, Engine, text}
use hacienda.Jexpr.Values.Proxies.{set_property}
use hacienda.Jexpr.Evaluate.{
  evaluate, evaluate_assignment, evaluate_each, evaluate_entries, get_safe, assign, this_of,
  method_of, apply_safe,
}
use hacienda.Jexpr.Evaluate.Rules.{
  Gets, of_nothing, of_object, Sets, on_undefined, on_object, Calls, no_function, function_call,
  ThisOf, given_this, scope_this, Method, no_method, empty_method, of_receiver, Means, nothing_said,
  constant, this_name, other_name, unary_rule, and_right, and_left, or_left, or_right, nullish_left,
  nullish_right, operator, to_name, to_getter, to_index, getter_rule, call_rule, index_of_nothing,
  index_of_object, chosen, otherwise, map_rule, list_rule, closure, MeansEach, none_left, hole_next,
  value_next, MeansEntries, no_more, hole_entry, set_entry,
}

differs : (v w : Text) → v ≢ w → (v === w) ≡ false
differs v w n = elim (Bool-cases (v === w)) [ inl e ↦ absurd (n (===_sound v w e)) | inr e ↦ e ]

module _ {V W : Type 0} where
  pub after :
      {A B : Type 0} (m : Run V W A) (k : A → Run V W B) (s : State V W) {a : A} {t : State V W}
      {o : Outcome V W B}
      → m s ≡ done a t
      → k a t ≡ o
      → (m >>= k) s ≡ o
  after m k s h g = rw (◌>>=◌, h) g

module _ {V W : Type 0} (e : Engine V W) (call : Call V W) where
  get_safe-Gets :
      (o k : Value V) (s : State V W) (r : Value V) (t : State V W)
      → Gets e call o k s r t
      → get_safe e call o k s ≡ done r t
  get_safe-Gets o k s _ _ (of_nothing h) = rw h refl
  get_safe-Gets o k s _ _ (of_object h g) = rw h g

  assign-Sets :
      (o k v : Value V) (s : State V W) (r : Value V) (t : State V W)
      → Sets e call o k v s r t
      → assign e call o k v s ≡ done r t
  assign-Sets o k v s _ _ (on_undefined h) = rw h refl
  assign-Sets o k v s _ _ (on_object h g) = rw h (after (set_property e call o k v) _ s g refl)

  apply_safe-Calls :
      (f this : Value V) (args : List (Value V)) (s : State V W) (r : Value V) (t : State V W)
      → Calls e call f this args s r t
      → apply_safe e call f this args s ≡ done r t
  apply_safe-Calls f this args s _ _ (no_function h) = rw h refl
  apply_safe-Calls f this args s _ _ (function_call h g) = rw h g

  this_of-ThisOf :
      (scope : Value V) (s : State V W) (this : Value V) (t : State V W)
      → ThisOf e call scope s this t
      → this_of e call scope s ≡ done this t
  this_of-ThisOf scope s _ _ (given_this g h) =
      after (get_safe e call scope (text e (codes "this"))) _ s (get_safe-Gets scope _ s _ _ g)
        (rw h refl)
  this_of-ThisOf scope s _ _ (scope_this g h) =
      after (get_safe e call scope (text e (codes "this"))) _ s (get_safe-Gets scope _ s _ _ g)
        (rw h refl)

  method_of-Method :
      (scope o : Value V) (s : State V W) (m : Option Text) (this f : Value V) (t : State V W)
      → Method e call scope o s m this f t
      → method_of e call m scope o s ≡ done (this, f) t
  method_of-Method scope o s _ _ _ _ (no_method h) =
      after (this_of e call scope) _ s (this_of-ThisOf scope s _ _ h) refl
  method_of-Method scope o s _ _ _ _ (empty_method h) =
      after (this_of e call scope) _ s (this_of-ThisOf scope s _ _ h) refl
  method_of-Method scope o s _ _ _ _ (of_receiver {c = c} {m = m} h) =
      after (get_safe e call o (text e (c ∷ m))) _ s (get_safe-Gets o _ s _ _ h) refl

  mutual
    unfolding evaluate evaluate_assignment evaluate_each evaluate_entries ◌===◌

    followed :
        (x : Expr) (scope : Value V) (s : State V W) (v : Value V) (t : State V W)
        → Means e call x scope s v t
        → evaluate e call x scope s ≡ done v t
    followed _ scope s _ _ nothing_said = refl
    followed _ scope s _ _ constant = refl
    followed _ scope s _ _ this_name = refl
    followed _ scope s _ _ (other_name {v = v} other g) =
        rw (differs v (codes "this") other) (get_safe-Gets scope (text e v) s _ _ g)
    followed _ scope s _ _ (unary_rule {x = x} d h) =
        after (evaluate e call x scope) _ s (followed x scope s _ _ d) h
    followed _ scope s _ _ (and_right {l = l} {r = r} d h d') =
        after (evaluate e call l scope) _ s (followed l scope s _ _ d)
          (rw h (followed r scope _ _ _ d'))
    followed _ scope s _ _ (and_left {l = l} d h) =
        after (evaluate e call l scope) _ s (followed l scope s _ _ d) (rw h refl)
    followed _ scope s _ _ (or_left {l = l} d h) =
        after (evaluate e call l scope) _ s (followed l scope s _ _ d) (rw h refl)
    followed _ scope s _ _ (or_right {l = l} {r = r} d h d') =
        after (evaluate e call l scope) _ s (followed l scope s _ _ d)
          (rw h (followed r scope _ _ _ d'))
    followed _ scope s _ _ (nullish_left {l = l} d h) =
        after (evaluate e call l scope) _ s (followed l scope s _ _ d) (rw h refl)
    followed _ scope s _ _ (nullish_right {l = l} {r = r} d h d') =
        after (evaluate e call l scope) _ s (followed l scope s _ _ d)
          (rw h (followed r scope _ _ _ d'))
    followed _ scope s _ _ (operator {l = l} {r = r} {op = op} a b c n d d' h) =
        rw
          (
            differs op (codes "=") a,
            differs op (codes "&&") b,
            differs op (codes "||") c,
            differs op (codes "??") n,
          )
          (after (evaluate e call l scope) _ s (followed l scope s _ _ d)
            (after (evaluate e call r scope) _ _ (followed r scope _ _ _ d') h))
    followed _ scope s _ _ (to_name {v = v} {r = r} {x = x} d h) =
        after (evaluate e call r scope) _ s (followed r scope s _ _ d)
          (assign-Sets scope (text e v) x _ _ _ h)
    followed _ scope s _ _ (to_getter {g = g} {r = r} d d' h) =
        after (evaluate e call r scope) _ s (followed r scope s _ _ d) (
          after (evaluate e call g scope) _ _ (followed g scope _ _ _ d')
            (assign-Sets _ _ _ _ _ _ h))
    followed _ scope s _ _ (to_index {g = g} {a = a} {r = r} d d' k h) =
        after (evaluate e call r scope) _ s (followed r scope s _ _ d) (
          after (evaluate e call g scope) _ _ (followed g scope _ _ _ d') (
            after (evaluate e call a scope) _ _ (followed a scope _ _ _ k)
              (assign-Sets _ _ _ _ _ _ h)))
    followed _ scope s _ _ (getter_rule {g = g} d h) =
        after (evaluate e call g scope) _ s (followed g scope s _ _ d) (get_safe-Gets _ _ _ _ _ h)
    followed _ scope s _ _ (call_rule {x = x} {m = m} {args = args} {o = o} d f ds h) =
        after (evaluate e call x scope) _ s (followed x scope s _ _ d) (
          after (method_of e call m scope o) _ _ (method_of-Method scope o _ m _ _ _ f) (
            after (evaluate_each e call args scope) _ _ (each_followed args scope _ _ _ ds)
              (apply_safe-Calls _ _ _ _ _ _ h)))
    followed _ scope s _ _ (index_of_nothing {x = x} d h) =
        after (evaluate e call x scope) _ s (followed x scope s _ _ d) (rw h refl)
    followed _ scope s _ _ (index_of_object {x = x} {a = a} d h k g) =
        after (evaluate e call x scope) _ s (followed x scope s _ _ d)
          (rw h (after (evaluate e call a scope) _ _ (followed a scope _ _ _ k) g))
    followed _ scope s _ _ (chosen {c = c} {x = x} d h d') =
        after (evaluate e call c scope) _ s (followed c scope s _ _ d)
          (rw h (followed x scope _ _ _ d'))
    followed _ scope s _ _ (otherwise {c = c} {y = y} d h d') =
        after (evaluate e call c scope) _ s (followed c scope s _ _ d)
          (rw h (followed y scope _ _ _ d'))
    followed _ scope s _ _ (map_rule {entries = entries} {m = m} h d) =
        after e.new_map _ s h (entries_followed entries scope m _ _ _ d)
    followed _ scope s _ _ (list_rule {items = items} d h) =
        after (evaluate_each e call items scope) _ s (each_followed items scope s _ _ d) h
    followed _ scope s _ _ closure = refl

    each_followed :
        (xs : Exprs) (scope : Value V) (s : State V W) (vs : List (Value V)) (t : State V W)
        → MeansEach e call xs scope s vs t
        → evaluate_each e call xs scope s ≡ done vs t
    each_followed _ scope s _ _ none_left = refl
    each_followed _ scope s _ _ (hole_next {xs = xs} d) =
        after (evaluate_each e call xs scope) _ s (each_followed xs scope s _ _ d) refl
    each_followed _ scope s _ _ (value_next {x = x} {xs = xs} there d ds) = rw there (
        after (evaluate e call x scope) _ s (followed x scope s _ _ d)
          (after (evaluate_each e call xs scope) _ _ (each_followed xs scope _ _ _ ds) refl))

    entries_followed :
        (xs : Entries) (scope m : Value V) (s : State V W) (r : Value V) (t : State V W)
        → MeansEntries e call xs scope m s r t
        → evaluate_entries e call xs scope m s ≡ done r t
    entries_followed _ scope m s _ _ no_more = refl
    entries_followed _ scope m s _ _ (hole_entry {xs = xs} d) = entries_followed xs scope m s _ _ d
    entries_followed _ scope m s _ _ (set_entry {k = k} {x = x} {xs = xs} {v = v} there d h ds) =
        rw there (
          after (evaluate e call x scope >>= λ v'. e.set call m (text e k) v') _ s
            (after (evaluate e call x scope) _ s (followed x scope s _ _ d) h)
            (entries_followed xs scope m _ _ _ ds))

  -- If an expression means a value by the rules, `evaluate` ends with it.
  pub evaluate-Means :
      (x : Expr) (scope : Value V) (s : State V W) (v : Value V) (t : State V W)
      → Means e call x scope s v t
      → evaluate e call x scope s ≡ done v t
  evaluate-Means x scope s v t d = followed x scope s v t d

-- ===== src/Jexpr/Evaluate/Complete.antt =====
-- The rules of what the expressions of lib/lunula/assets/jexpr.js mean are all that `evaluate` does
-- when it ends normally.
use hacienda.Prelude.{
  ◌≡◌, ◌≢◌, ◌↔◌, ap, sym, ◌∙◌, true, false, List, ◌∷◌, Text, codes, arith, ◌===◌, ===_sound,
  ===_refl, if◌then◌else◌, Bool-cases, inl, inr, subst,
}
use hacienda.Jexpr.Parser.{is_absent}
use hacienda.Jexpr.Syntax.{
  Expr, Exprs, Entries, absent, empty, literal, id, unary, binary, getter, invoke, index, ternary,
  list, arrow_function, nil, cons, end, entry,
}
use hacienda.Jexpr.Values.{
  Value, State, done, thrown, ◌>>=◌, pure, Call, Engine, is_truthy, is_nullish, nothing, text,
}
use hacienda.Jexpr.Evaluate.{
  evaluate, evaluate_assignment, evaluate_each, evaluate_entries, method_of,
}
use hacienda.Jexpr.Evaluate.Rules.{
  Means, nothing_said, constant, this_name, other_name, unary_rule, and_right, and_left, or_left,
  or_right, nullish_left, nullish_right, operator, to_name, to_getter, to_index, getter_rule,
  call_rule, index_of_nothing, index_of_object, chosen, otherwise, map_rule, list_rule, closure,
  MeansEach, none_left, hole_next, value_next, MeansEntries, no_more, hole_entry, set_entry,
}
use hacienda.Jexpr.Evaluate.Followed.{evaluate-Means}
use hacienda.Jexpr.Evaluate.Inverse.{
  moved, before, Gets-get_safe, Sets-assign, Calls-apply_safe, Method-method_of,
}

module _ {V W : Type 0} (e : Engine V W) (call : Call V W) where
  not_thrown : {A B : Type 0} {a : A} {s t : State V W} → thrown s ≡ done a t → B
  not_thrown h = absurd (ground (arith, h))

  is_not : (v w : Text) → (v === w) ≡ false → v ≢ w
  is_not v w h same = absurd (ground (arith, sym (===_refl w) ∙ ap (λ x. x === w) (sym same) ∙ h))

  absent_is : (x : Expr) → is_absent x ≡ true → x ≡ absent
  absent_is x h = ground (arith, h)

  -- An operator other than the assignment.
  operator_meant :
      (l : Expr) (op : Text) (r : Expr) (scope : Value V) (s : State V W) (v : Value V)
      (t : State V W)
      → op ≢ codes "="
      → ((s' : State V W) (a : Value V) (u : State V W)
          → evaluate e call l scope s' ≡ done a u
          → Means e call l scope s' a u)
      → ((s' : State V W) (a : Value V) (u : State V W)
          → evaluate e call r scope s' ≡ done a u
          → Means e call r scope s' a u)
      → (if op === codes "&&"
            then (evaluate e call l scope >>= λ a.
                if is_truthy e a then evaluate e call r scope else pure a)
            else if op === codes "||"
            then (evaluate e call l scope >>= λ a.
                if is_truthy e a then pure a else evaluate e call r scope)
            else if op === codes "??"
            then (evaluate e call l scope >>= λ a.
                if is_nullish e a then evaluate e call r scope else pure a)
            else (evaluate e call l scope >>= λ a.
                evaluate e call r scope >>= λ b. e.binary call op a b))
          s
        ≡ done v t
      → Means e call (binary l op r) scope s v t
  operator_meant l op r scope s v t other on_left on_right h =
      elim (Bool-cases (op === codes "&&")) [
        | inl n ↦
            let (a, u, d, k) = before (evaluate e call l scope) _ s v t (rw n at h) in
            let left = on_left s a u d in
            subst (λ y. Means e call (binary l y r) scope s v t) (sym (===_sound op (codes "&&") n))
              (elim (Bool-cases (is_truthy e a)) [
                | inl p ↦ and_right left p (on_right u v t (rw p at k))
                | inr p ↦
                    moved (Means e call (binary l (codes "&&") r) scope s) (rw p at k)
                      (and_left left p)
              ])
        | inr n ↦ elim (Bool-cases (op === codes "||")) [
          | inl n' ↦
              let (a, u, d, k) = before (evaluate e call l scope) _ s v t (rw (n, n') at h) in
              let left = on_left s a u d in
              subst (λ y. Means e call (binary l y r) scope s v t)
                (sym (===_sound op (codes "||") n'))
                (elim (Bool-cases (is_truthy e a)) [
                  | inl p ↦
                      moved (Means e call (binary l (codes "||") r) scope s) (rw p at k)
                        (or_left left p)
                  | inr p ↦ or_right left p (on_right u v t (rw p at k))
                ])
          | inr n' ↦ elim (Bool-cases (op === codes "??")) [
            | inl n'' ↦
                let (a, u, d, k) =
                  before (evaluate e call l scope) _ s v t (rw (n, n', n'') at h) in
                let left = on_left s a u d in
                subst (λ y. Means e call (binary l y r) scope s v t)
                  (sym (===_sound op (codes "??") n''))
                  (elim (Bool-cases (is_nullish e a)) [
                    | inl p ↦ nullish_right left p (on_right u v t (rw p at k))
                    | inr p ↦
                        moved (Means e call (binary l (codes "??") r) scope s) (rw p at k)
                          (nullish_left left p)
                  ])
            | inr n'' ↦
                let (a, u, d, k) =
                  before (evaluate e call l scope) _ s v t (rw (n, n', n'') at h) in
                let (b, u', d', k') = before (evaluate e call r scope) _ u v t k in
                operator other (is_not op (codes "&&") n) (is_not op (codes "||") n')
                  (is_not op (codes "??") n'') (on_left s a u d) (on_right u b u' d') k'
          ]
        ]
      ]

  mutual
    unfolding evaluate evaluate_assignment evaluate_each evaluate_entries ◌===◌

    meant :
        (x : Expr) (scope : Value V) (s : State V W) (v : Value V) (t : State V W)
        → evaluate e call x scope s ≡ done v t
        → Means e call x scope s v t
    meant absent scope s v t h = not_thrown h
    meant empty scope s v t h = moved (Means e call empty scope s) h nothing_said
    meant (literal l) scope s v t h = moved (Means e call (literal l) scope s) h constant
    meant (id x) scope s v t h = elim (Bool-cases (x === codes "this")) [
      | inl n ↦
          subst (λ y. Means e call (id y) scope s v t) (sym (===_sound x (codes "this") n))
            (moved (Means e call (id (codes "this")) scope s) (rw n at h) this_name)
      | inr n ↦
          other_name (is_not x (codes "this") n)
            (Gets-get_safe e call scope (text e x) s v t (rw n at h))
    ]
    meant (unary op x) scope s v t h =
        let (a, u, d, g) = before (evaluate e call x scope) _ s v t h in
        unary_rule (meant x scope s a u d) g
    meant (binary l op r) scope s v t h = elim (Bool-cases (op === codes "=")) [
      | inl n ↦
          subst (λ y. Means e call (binary l y r) scope s v t) (sym (===_sound op (codes "=") n))
            (assignment_meant l r scope s v t (λ s' a u d. meant r scope s' a u d) (rw n at h))
      | inr n ↦
          operator_meant l op r scope s v t (is_not op (codes "=") n)
            (λ s' a u d. meant l scope s' a u d) (λ s' a u d. meant r scope s' a u d) (rw n at h)
    ]
    meant (getter g n) scope s v t h =
        let (a, u, d, k) = before (evaluate e call g scope) _ s v t h in
        getter_rule (meant g scope s a u d) (Gets-get_safe e call a (text e n) u v t k)
    meant (invoke x m args) scope s v t h =
        let (o, u, d, k) = before (evaluate e call x scope) _ s v t h in
        let (f, u', d', k') = before (method_of e call m scope o) _ u v t k in
        let (vs, u'', ds, k'') = before (evaluate_each e call args scope) _ u' v t k' in
        call_rule (meant x scope s o u d) (Method-method_of e call scope o u m f u' d')
          (each_meant args scope u' vs u'' ds) (Calls-apply_safe e call f.1 f.0 vs u'' v t k'')
    meant (index x a) scope s v t h =
        let (o, u, d, k) = before (evaluate e call x scope) _ s v t h in
        elim (Bool-cases (is_nullish e o)) [
          | inl n ↦
              moved (Means e call (index x a) scope s) (rw n at k)
                (index_of_nothing (meant x scope s o u d) n)
          | inr n ↦
              let (i, u', d', k') = before (evaluate e call a scope) _ u v t (rw n at k) in
              index_of_object (meant x scope s o u d) n (meant a scope u i u' d') k'
        ]
    meant (ternary c x y) scope s v t h =
        let (a, u, d, k) = before (evaluate e call c scope) _ s v t h in
        elim (Bool-cases (is_truthy e a)) [
          | inl n ↦ chosen (meant c scope s a u d) n (meant x scope u v t (rw n at k))
          | inr n ↦ otherwise (meant c scope s a u d) n (meant y scope u v t (rw n at k))
        ]
    meant (Expr.map entries) scope s v t h =
        let (m, u, d, k) = before e.new_map _ s v t h in
        map_rule d (entries_meant entries scope m u v t k)
    meant (list items) scope s v t h =
        let (vs, u, d, k) = before (evaluate_each e call items scope) _ s v t h in
        list_rule (each_meant items scope s vs u d) k
    meant (arrow_function params body) scope s v t h =
        moved (Means e call (arrow_function params body) scope s) h closure

    assignment_meant :
        (l r : Expr) (scope : Value V) (s : State V W) (v : Value V) (t : State V W)
        → ((s' : State V W) (a : Value V) (u : State V W)
            → evaluate e call r scope s' ≡ done a u
            → Means e call r scope s' a u)
        → evaluate_assignment e call l (evaluate e call r scope) scope s ≡ done v t
        → Means e call (binary l (codes "=") r) scope s v t
    assignment_meant (id x) r scope s v t on_right h =
        let (a, u, d, k) = before (evaluate e call r scope) _ s v t h in
        to_name (on_right s a u d) (Sets-assign e call scope (text e x) a u v t k)
    assignment_meant (getter g n) r scope s v t on_right h =
        let (a, u, d, k) = before (evaluate e call r scope) _ s v t h in
        let (o, u', d', k') = before (evaluate e call g scope) _ u v t k in
        to_getter (on_right s a u d) (meant g scope u o u' d')
          (Sets-assign e call o (text e n) a u' v t k')
    assignment_meant (index g i) r scope s v t on_right h =
        let (a, u, d, k) = before (evaluate e call r scope) _ s v t h in
        let (o, u', d', k') = before (evaluate e call g scope) _ u v t k in
        let (j, u'', d'', k'') = before (evaluate e call i scope) _ u' v t k' in
        to_index (on_right s a u d) (meant g scope u o u' d') (meant i scope u' j u'' d'')
          (Sets-assign e call o j a u'' v t k'')
    assignment_meant absent r scope s v t on_right h = not_thrown h
    assignment_meant empty r scope s v t on_right h = not_thrown h
    assignment_meant (literal l) r scope s v t on_right h = not_thrown h
    assignment_meant (unary op x) r scope s v t on_right h = not_thrown h
    assignment_meant (binary x op y) r scope s v t on_right h = not_thrown h
    assignment_meant (invoke x m args) r scope s v t on_right h = not_thrown h
    assignment_meant (ternary c x y) r scope s v t on_right h = not_thrown h
    assignment_meant (Expr.map entries) r scope s v t on_right h = not_thrown h
    assignment_meant (list items) r scope s v t on_right h = not_thrown h
    assignment_meant (arrow_function params body) r scope s v t on_right h = not_thrown h

    each_meant :
        (xs : Exprs) (scope : Value V) (s : State V W) (vs : List (Value V)) (t : State V W)
        → evaluate_each e call xs scope s ≡ done vs t
        → MeansEach e call xs scope s vs t
    each_meant nil scope s vs t h = moved (MeansEach e call nil scope s) h none_left
    each_meant (cons x xs) scope s vs t h = elim (Bool-cases (is_absent x)) [
      | inl n ↦
          let (ws, u, d, k) =
            before (evaluate_each e call xs scope) (λ ws. pure (nothing e ∷ ws)) s vs t
              (rw n at h) in
          subst (λ y. MeansEach e call (cons y xs) scope s vs t) (sym (absent_is x n))
            (moved (MeansEach e call (cons absent xs) scope s) k
              (hole_next (each_meant xs scope s ws u d)))
      | inr n ↦
          let (a, u, d, k) = before (evaluate e call x scope) _ s vs t (rw n at h) in
          let (ws, u', d', k') = before (evaluate_each e call xs scope) _ u vs t k in
          moved (MeansEach e call (cons x xs) scope s) k'
            (value_next n (meant x scope s a u d) (each_meant xs scope u ws u' d'))
    ]

    entries_meant :
        (xs : Entries) (scope m : Value V) (s : State V W) (r : Value V) (t : State V W)
        → evaluate_entries e call xs scope m s ≡ done r t
        → MeansEntries e call xs scope m s r t
    entries_meant end scope m s r t h = moved (MeansEntries e call end scope m s) h no_more
    entries_meant (entry k x xs) scope m s r t h = elim (Bool-cases (is_absent x)) [
      | inl n ↦
          subst (λ y. MeansEntries e call (entry k y xs) scope m s r t) (sym (absent_is x n))
            (hole_entry (entries_meant xs scope m s r t (rw n at h)))
      | inr n ↦
          let (b, u, d, g) =
            before (evaluate e call x scope >>= λ v'. e.set call m (text e k) v')
              (λ w. evaluate_entries e call xs scope m) s r t (rw n at h) in
          let (a, u', d', g') = before (evaluate e call x scope) _ s b u d in
          set_entry n (meant x scope s a u' d') g' (entries_meant xs scope m u r t g)
    ]

  -- `evaluate` ends normally with a value and in a state exactly if the expression means that value
  -- and state by the rules. The rules say which operands are evaluated, in what order, and what
  -- becomes of their values; what the engine does, and calls, are as they are given.
  pub evaluate_iff :
      (x : Expr) (scope : Value V) (s : State V W) (v : Value V) (t : State V W)
      → (evaluate e call x scope s ≡ done v t) ↔ Means e call x scope s v t
  evaluate_iff x scope s v t = (meant x scope s v t, evaluate-Means e call x scope s v t)

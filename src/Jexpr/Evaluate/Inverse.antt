-- ===== src/Jexpr/Evaluate/Inverse.antt =====
-- What the steps of `evaluate` in lib/lunula/assets/jexpr.js were, when they ended normally.
use hacienda.Prelude.{
  ◌≡◌, refl, sym, ◌∙◌, Option, none, some, List, [], ◌∷◌, Text, codes, arith, Bool-cases, inl, inr,
  subst,
}
use hacienda.Jexpr.Values.{
  Value, State, Outcome, done, thrown, running, Run, ◌>>=◌, Call, Engine, is_nullish, is_undefined,
  text,
}
use hacienda.Jexpr.Values.Proxies.{set_property}
use hacienda.Jexpr.Evaluate.{get_safe, assign, this_of, method_of, apply_safe}
use hacienda.Jexpr.Evaluate.Rules.{
  Gets, of_nothing, of_object, Sets, on_undefined, on_object, Calls, no_function, function_call,
  ThisOf, given_this, scope_this, Method, no_method, empty_method, of_receiver,
}
use hacienda.Jexpr.Evaluate.Followed.{after}

module _ {V W : Type 0} where
  -- What a run that ends normally ends with.
  pub moved :
      {A : Type 0} (P : A → State V W → Type 0) {a b : A} {s t : State V W}
      → done a s ≡ done b t
      → P a s
      → P b t
  moved P {a} {b} {s} {t} h p =
      let left : a ≡ b = ground (arith, h) in
      let right : s ≡ t = ground (arith, h) in subst (λ u. P b u) right (subst (λ x. P x s) left p)

  pub before :
      {A B : Type 0} (m : Run V W A) (k : A → Run V W B) (s : State V W) (b : B) (u : State V W)
      → (m >>= k) s ≡ done b u
      → (a : A) × (t : State V W) × (m s ≡ done a t) × (k a t ≡ done b u)
  before {A = A} m k s b u h = by_outcome (m s) refl
    where
      by_outcome :
          (o : Outcome V W A)
          → m s ≡ o
          → (a : A) × (t : State V W) × (m s ≡ done a t) × (k a t ≡ done b u)
      by_outcome (done a t) g = (a, t, g, sym (after m k s g refl) ∙ h)
      by_outcome (thrown t) g =
          let stuck : (m >>= k) s ≡ thrown t = rw (◌>>=◌, g) refl in
          absurd (ground (arith, stuck, h))
      by_outcome running g =
          let stuck : (m >>= k) s ≡ running = rw (◌>>=◌, g) refl in
          absurd (ground (arith, stuck, h))

module _ {V W : Type 0} (e : Engine V W) (call : Call V W) where
  pub Gets-get_safe :
      (o k : Value V) (s : State V W) (r : Value V) (t : State V W)
      → get_safe e call o k s ≡ done r t
      → Gets e call o k s r t
  Gets-get_safe o k s r t h = elim (Bool-cases (is_nullish e o)) [
    | inl n ↦ moved (Gets e call o k s) (rw n at h) (of_nothing n)
    | inr n ↦ of_object n (rw n at h)
  ]

  pub Sets-assign :
      (o k v : Value V) (s : State V W) (r : Value V) (t : State V W)
      → assign e call o k v s ≡ done r t
      → Sets e call o k v s r t
  Sets-assign o k v s r t h = elim (Bool-cases (is_undefined e o)) [
    | inl n ↦ moved (Sets e call o k v s) (rw n at h) (on_undefined n)
    | inr n ↦
        let (a, u, d, g) = before (set_property e call o k v) _ s r t (rw n at h) in
        moved (Sets e call o k v s) g (on_object n d)
  ]

  pub Calls-apply_safe :
      (f this : Value V) (args : List (Value V)) (s : State V W) (r : Value V) (t : State V W)
      → apply_safe e call f this args s ≡ done r t
      → Calls e call f this args s r t
  Calls-apply_safe f this args s r t h = elim (Bool-cases (is_nullish e f)) [
    | inl n ↦ moved (Calls e call f this args s) (rw n at h) (no_function n)
    | inr n ↦ function_call n (rw n at h)
  ]

  pub ThisOf-this_of :
      (scope : Value V) (s : State V W) (this : Value V) (t : State V W)
      → this_of e call scope s ≡ done this t
      → ThisOf e call scope s this t
  ThisOf-this_of scope s this t h =
      let (a, u, d, g) = before (get_safe e call scope (text e (codes "this"))) _ s this t h in
      elim (Bool-cases (is_nullish e a)) [
        | inl n ↦
            moved (ThisOf e call scope s) (rw n at g)
              (scope_this (Gets-get_safe scope (text e (codes "this")) s a u d) n)
        | inr n ↦
            moved (ThisOf e call scope s) (rw n at g)
              (given_this (Gets-get_safe scope (text e (codes "this")) s a u d) n)
      ]

  pub Method-method_of :
      (scope o : Value V) (s : State V W) (m : Option Text) (f : Value V × Value V) (t : State V W)
      → method_of e call m scope o s ≡ done f t
      → Method e call scope o s m f.0 f.1 t
  Method-method_of scope o s none f t h =
      let (a, u, d, g) = before (this_of e call scope) _ s f t h in
      moved (λ p. Method e call scope o s none p.0 p.1) g (no_method (ThisOf-this_of scope s a u d))
  Method-method_of scope o s (some []) f t h =
      let (a, u, d, g) = before (this_of e call scope) _ s f t h in
      moved (λ p. Method e call scope o s (some []) p.0 p.1) g
        (empty_method (ThisOf-this_of scope s a u d))
  Method-method_of scope o s (some (c ∷ m)) f t h =
      let (a, u, d, g) = before (get_safe e call o (text e (c ∷ m))) _ s f t h in
      moved (λ p. Method e call scope o s (some (c ∷ m)) p.0 p.1) g
        (of_receiver (Gets-get_safe o (text e (c ∷ m)) s a u d))

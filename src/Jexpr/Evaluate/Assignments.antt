-- ===== src/Jexpr/Evaluate/Assignments.antt =====
-- Assignments inside an arrow function of lib/lunula/assets/jexpr.js.
use hacienda.Prelude.{
  ℕ, zero, suc, ◌≡◌, ◌≢◌, refl, ap, ◌∙◌, ◌⊎◌, inl, inr, Bool, true, false, some, List, [], ◌∷◌,
  Text, codes, ◌===◌, JsMap, map_get, arith, ===_refl, map_get-map_set,
}
use hacienda.Jexpr.Syntax.{Expr, id, binary}
use hacienda.Jexpr.Values.{
  Value, host, proxy, State, Outcome, done, thrown, running, Run, pure, throw, ◌>>=◌, ◌>>◌, Call,
  Engine, is_truthy, text,
}
use hacienda.Jexpr.Values.Proxies.{
  frame_at, set_frame, write_frame, get_property, set_property, set_own,
}
use hacienda.Jexpr.Evaluate.{evaluate, evaluate_assignment}

abbrev pub is_done : {V W A : Type 0} → Outcome V W A → Bool
is_done (done a s) = true
is_done (thrown s) = false
is_done running = false

Outcome-cases :
    {V W A : Type 0} (o : Outcome V W A)
    → ((a : A) × (t : State V W) × (o ≡ done a t))
      ⊎ (((t : State V W) × (o ≡ thrown t)) ⊎ (o ≡ running))
Outcome-cases (done a t) = inl (a, t, refl)
Outcome-cases (thrown t) = inr (inl (t, refl))
Outcome-cases running = inr (inr refl)

module _ {V W : Type 0} (e : Engine V W) (call : Call V W) where
  evaluate-assignment :
      (p : Text) (r : Expr) (n : ℕ) (target v : Value V) (s s' : State V W)
      → evaluate e call r (proxy n target) s ≡ done v s'
      → evaluate e call (binary (id p) (codes "=") r) (proxy n target) s
        ≡ (set_property e call (proxy n target) (text e p) v >> pure v) s'
  unfolding evaluate evaluate_assignment ◌===◌
  evaluate-assignment p r n target v s s' value = rw (evaluate, ◌>>=◌, value) refl

  then_throw :
      {A B C : Type 0} (m : Run V W A) (k : B → Run V W C) (s : State V W)
      → is_done ((m >> throw {A = B} >>= k) s) ≡ false
  then_throw m k s = elim (Outcome-cases (m s)) [
    | inl (a, t, o) ↦ rw (◌>>=◌, ◌>>◌, o) refl
    | inr (inl (t, o)) ↦ rw (◌>>=◌, ◌>>◌, o) refl
    | inr (inr o) ↦ rw (◌>>=◌, ◌>>◌, o) refl
  ]

  falsy_rejected :
      (key : Value V) (n : ℕ) (target v w : Value V) (s : State V W)
      → is_truthy e v ≡ false
      → is_done ((set_property e call (proxy n target) key v >> pure w) s) ≡ false
  unfolding set_property write_frame
  falsy_rejected key n target v w s falsy =
      rw falsy (then_throw (set_property e call target key v) (λ _. pure w) _)

  -- An assignment of a falsy value to a name inside an arrow function never ends normally: the trap
  -- `set` returns the value, and a falsy result throws.
  pub evaluate-falsy_assignment :
      (p : Text) (r : Expr) (n : ℕ) (target v : Value V) (s s' : State V W)
      → evaluate e call r (proxy n target) s ≡ done v s'
      → is_truthy e v ≡ false
      → is_done (evaluate e call (binary (id p) (codes "=") r) (proxy n target) s) ≡ false
  evaluate-falsy_assignment p r n target v s s' value falsy =
      ap is_done (evaluate-assignment p r n target v s s' value)
      ∙ falsy_rejected (text e p) n target v v s' falsy

  map_get-set_own :
      (p : Text) (v old : Value V) (f : JsMap (Value V))
      → map_get p f ≡ some old
      → map_get p (set_own (some p) v f) ≡ some v
  map_get-set_own p v old f h = rw (set_own, h) (map_get-map_set p p v f ∙ rw (===_refl p) refl)

  missing : (p : Text) (old : Value V) → map_get p [] ≢ some old
  unfolding map_get
  missing p old = ground arith

  write_own :
      (p : Text) (v old : Value V) (n : ℕ) (fs : List (JsMap (Value V)))
      → map_get p (frame_at n fs) ≡ some old
      → map_get p (frame_at n (set_frame n (set_own (some p) v (frame_at n fs)) fs)) ≡ some v
  unfolding frame_at set_frame
  write_own p v old n [] h = elim (missing p old h) [ ]
  write_own p v old zero (f ∷ fs) h = map_get-set_own p v old f h
  write_own p v old (suc n) (f ∷ fs) h = write_own p v old n fs h

  own_read :
      (p : Text) (v target : Value V) (n : ℕ) (s : State V W)
      → e.key (text e p) ≡ some p
      → map_get p (frame_at n s.frames) ≡ some v
      → get_property e call (proxy n target) (text e p) s ≡ done v s
  unfolding get_property
  own_read p v target n s key h = rw (get_property, key, h) refl

  -- A truthy value that an arrow function assigns to its parameter is what the parameter holds then,
  -- and it is written into the scope outside, too, where a property of that name holds it as well. The
  -- scope outside is an object of the engine, which keeps what is written and makes no call.
  pub set_property-parameter :
      (p : Text) (v old : Value V) (n : ℕ) (o : V) (s : State V W) (write : State V W → State V W)
      → is_truthy e v ≡ true
      → e.key (text e p) ≡ some p
      → map_get p (frame_at n s.frames) ≡ some old
      → ((t : State V W) → e.set call (host o) (text e p) v t ≡ done tt (write t))
      → ((t : State V W) → e.get call (host o) (text e p) (write t) ≡ done v (write t))
      → ((t : State V W) → (write t).frames ≡ t.frames)
      → (s' : State V W) × (set_property e call (proxy n (host o)) (text e p) v s ≡ done tt s')
        × (get_property e call (proxy n (host o)) (text e p) s' ≡ done v s')
        × (get_property e call (host o) (text e p) s' ≡ done v s')
  unfolding set_property get_property write_frame
  set_property-parameter p v old n o s write truthy key held set get kept =
      let t = record s {
        frames = set_frame n (set_own (some p) v (frame_at n s.frames)) s.frames;
      } in
      (
        write t,
        rw (key, ◌>>=◌, set t, truthy) refl,
        own_read p v (host o) n (write t) key
            (ap (λ fs. map_get p (frame_at n fs)) (kept t) ∙ write_own p v old n s.frames held),
        get t,
      )

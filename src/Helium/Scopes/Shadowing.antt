-- ===== src/Helium/Scopes/Shadowing.antt =====
-- Reading and writing through the scopes of lib/lunula/assets/helium.js.
use hacienda.Prelude.{
  ℕ, ◌≡◌, refl, ap, sym, ◌∙◌, inl, inr, Bool, true, false, ◌&&◌, Option, none, some, List, [], ◌∷◌,
  Text, codes, ◌≢◌, arith, ◌==◌, ==_refl, ◌===◌, ===_refl, ===_iff, if◌then◌else◌, map_get,
  map_get-map_set, Bool-cases, Option-cases,
}
use hacienda.Helium.Scopes.{
  Held, Heap, Objects, Reflection, owner_for, owner_or, own_or, set_key, get_key, assign_key,
  trap_set, scoped_get, scoped_set,
}

module _ {ℓ} {P : Type ℓ} (root : ℕ) where
  map_get-set_key :
      (heap : Heap P) (o n : ℕ) (p q : Text) (v : Held P)
      → map_get q (set_key heap o p v n)
        ≡ (if (n == o) && (p === q) then some v else map_get q (heap n))
  map_get-set_key heap o n p q v = elim (Bool-cases (n == o)) [
    | inl e ↦ rw e (map_get-map_set p q v (heap n))
    | inr e ↦ rw e refl
  ]

  abbrev first_some : Option (Held P) → Option (Held P) → Option (Held P)
  first_some none o = o
  first_some (some v) o = some v

  -- What the overlay finds, by recursion on the scopes.
  abbrev found : Heap P → List ℕ → Text → Option (Held P)
  found heap [] p = map_get p (heap root)
  found heap (s ∷ scopes) p = first_some (map_get p (heap s)) (found heap scopes p)

  owner : Heap P → List ℕ → Text → ℕ
  owner heap scopes p = owner_or root (owner_for heap scopes p)

  owner-missing :
      (heap : Heap P) (s : ℕ) (scopes : List ℕ) (p : Text)
      → map_get p (heap s) ≡ none
      → owner heap (s ∷ scopes) p ≡ owner heap scopes p
  unfolding owner owner_for
  owner-missing heap s scopes p e =
      let h : owner_for heap (s ∷ scopes) p ≡ owner_for heap scopes p = rw (owner_for, e) refl in
      ap (owner_or root) h

  owner-own :
      (heap : Heap P) (s : ℕ) (scopes : List ℕ) (p : Text) (v : Held P)
      → map_get p (heap s) ≡ some v
      → owner heap (s ∷ scopes) p ≡ s
  unfolding owner owner_for
  owner-own heap s scopes p v e =
      let h : owner_for heap (s ∷ scopes) p ≡ some s = rw (owner_for, e) refl in
      ap (owner_or root) h

  owned :
      (heap : Heap P) (scopes : List ℕ) (p : Text)
      → map_get p (heap (owner heap scopes p)) ≡ found heap scopes p
  unfolding owner owner_for
  owned heap [] p = refl
  owned heap (s ∷ scopes) p = elim (Option-cases (map_get p (heap s))) [
    | inl e ↦
        ap (λ o. map_get p (heap o)) (owner-missing heap s scopes p e)
        ∙ owned heap scopes p
        ∙ ap (λ x. first_some x (found heap scopes p)) (sym e)
    | inr (v, e) ↦
        ap (λ o. map_get p (heap o)) (owner-own heap s scopes p v e)
        ∙ e
        ∙ ap (λ x. first_some x (found heap scopes p)) (sym e)
  ]

  found-other :
      (heap : Heap P) (o : ℕ) (scopes : List ℕ) (p q : Text) (v : Held P)
      → (p === q) ≡ false
      → found (set_key heap o p v) scopes q ≡ found heap scopes q
  found-other heap o [] p q v h = map_get-set_key heap o root p q v ∙ rw h (unchanged (root == o))
    where
      unchanged :
          (b : Bool)
          → (if b && false then some v else map_get q (heap root)) ≡ map_get q (heap root)
      unchanged true = refl
      unchanged false = refl
  found-other heap o (s ∷ scopes) p q v h =
      ap (λ x. first_some x (found (set_key heap o p v) scopes q))
        (map_get-set_key heap o s p q v ∙ rw h (unchanged (s == o)))
      ∙ ap (first_some (map_get q (heap s))) (found-other heap o scopes p q v h)
    where
      unchanged :
          (b : Bool) → (if b && false then some v else map_get q (heap s)) ≡ map_get q (heap s)
      unchanged true = refl
      unchanged false = refl

  written :
      (heap : Heap P) (o n : ℕ) (p : Text) (v : Held P)
      → map_get p (set_key heap o p v n) ≡ (if n == o then some v else map_get p (heap n))
  written heap o n p v = map_get-set_key heap o n p p v ∙ rw (===_refl p) (by_object (n == o))
    where
      by_object :
          (b : Bool)
          → (if b && true then some v else map_get p (heap n))
            ≡ (if b then some v else map_get p (heap n))
      by_object true = refl
      by_object false = refl

  written_there :
      (heap : Heap P) (s : ℕ) (p : Text) (v : Held P) → map_get p (set_key heap s p v s) ≡ some v
  written_there heap s p v = written heap s s p v ∙ rw (==_refl s) refl

  found-written :
      (heap : Heap P) (scopes : List ℕ) (p : Text) (v : Held P)
      → found (set_key heap (owner heap scopes p) p v) scopes p ≡ some v
  unfolding owner owner_for
  found-written heap [] p v = written heap root root p v ∙ rw (==_refl root) refl
  found-written heap (s ∷ scopes) p v = elim (Option-cases (map_get p (heap s))) [
    | inl e ↦
        ap (λ o. found (set_key heap o p v) (s ∷ scopes) p) (owner-missing heap s scopes p e)
        ∙ ap (λ x. first_some x (found (set_key heap (owner heap scopes p) p v) scopes p))
            (written heap (owner heap scopes p) s p v ∙ rw e refl)
        ∙ by_object (found (set_key heap (owner heap scopes p) p v) scopes p)
            (s == owner heap scopes p) (found-written heap scopes p v)
    | inr (w, e) ↦
        ap (λ o. found (set_key heap o p v) (s ∷ scopes) p) (owner-own heap s scopes p w e)
        ∙ ap (λ x. first_some x (found (set_key heap s p v) scopes p)) (written_there heap s p v)
  ]
    where
      by_object :
          (rest : Option (Held P)) (b : Bool)
          → rest ≡ some v
          → first_some (if b then some v else none) rest ≡ some v
      by_object rest true h = refl
      by_object rest false h = h

  owner-missing_everywhere :
      (heap : Heap P) (scopes : List ℕ) (p : Text)
      → found heap scopes p ≡ none
      → owner heap scopes p ≡ root
  unfolding owner owner_for
  owner-missing_everywhere heap [] p h = refl
  owner-missing_everywhere heap (s ∷ scopes) p h = elim (Option-cases (map_get p (heap s))) [
    | inl e ↦
        owner-missing heap s scopes p e
        ∙ owner-missing_everywhere heap scopes p
            (ap (λ x. first_some x (found heap scopes p)) (sym e) ∙ h)
    | inr (v, e) ↦ absurd (
        some_found v (found heap scopes p)
          (ap (λ x. first_some x (found heap scopes p)) (sym e) ∙ h))
  ]
    where
      some_found : (v : Held P) (o : Option (Held P)) → first_some (some v) o ≢ none
      some_found v o e = ground arith

  scoped_get-found :
      (engine : Reflection P) (scopes : List ℕ) (objects : Objects P) (p : Text)
      → scoped_get engine root scopes objects p
        ≡ own_or (found objects.own scopes p) (engine.inherited objects root p)
  unfolding scoped_get owner
  scoped_get-found engine scopes objects p = by_found (found objects.own scopes p) refl
    where
      by_found :
          (o : Option (Held P))
          → found objects.own scopes p ≡ o
          → get_key engine objects (owner objects.own scopes p) p
            ≡ own_or (found objects.own scopes p) (engine.inherited objects root p)
      by_found none e =
          ap (λ n. get_key engine objects n p) (owner-missing_everywhere objects.own scopes p e)
          ∙ ap (λ x. own_or x (engine.inherited objects root p))
              (ap (λ n. map_get p (objects.own n))
                  (sym (owner-missing_everywhere objects.own scopes p e))
                ∙ owned objects.own scopes p)
      by_found (some v) e =
          ap (λ x. own_or x (engine.inherited objects (owner objects.own scopes p) p))
            (owned objects.own scopes p ∙ e)
          ∙ ap (λ x. own_or x (engine.inherited objects root p)) (sym e)

  found-same :
      (scopes : List ℕ) (q : Text) (heap heap' : Heap P)
      → ((n : ℕ) → map_get q (heap' n) ≡ map_get q (heap n))
      → found heap' scopes q ≡ found heap scopes q
  found-same [] q heap heap' h = h root
  found-same (s ∷ scopes) q heap heap' h =
      ap (λ x. first_some x (found heap' scopes q)) (h s)
      ∙ ap (first_some (map_get q (heap s))) (found-same scopes q heap heap' h)

  assign_key-own :
      (engine : Reflection P) (o : ℕ) (p : Text) (v : Held P) (objects : Objects P)
      → (p === codes "__proto__") ≡ false
      → assign_key engine o p v objects ≡ record objects { own = set_key objects.own o p v }
  unfolding assign_key
  assign_key-own engine o p v objects h = elim (Option-cases (map_get p (objects.own o))) [
    | inl e ↦ rw (assign_key, e, h) refl
    | inr (w, e) ↦ rw (assign_key, e) refl
  ]

module _ {ℓ} {P : Type ℓ} where
  -- The bindings that run leave the property of every object, and every prototype, as they are.
  abbrev pub Leaves : Reflection P → Text → Type ℓ
  Leaves engine q =
      (o : ℕ) (p : Text) (objects : Objects P) (n : ℕ)
      → (map_get q ((engine.react o p objects).own n) ≡ map_get q (objects.own n))
        × ((engine.react o p objects).prototype n ≡ objects.prototype n)

  -- What an object inherits depends on its prototype only, which is none of these objects.
  abbrev pub InheritsFixed : Reflection P → Type ℓ
  InheritsFixed engine =
      (before after : Objects P) (n : ℕ) (q : Text)
      → after.prototype n ≡ before.prototype n
      → engine.inherited after n q ≡ engine.inherited before n q

module _ {ℓ} {P : Type ℓ} (engine : Reflection P) (root : ℕ) where
  -- A property that is written through the scopes of an element reads as that value through the same
  -- scopes, whether the nearest scope that has it or the state got it, and any other property reads
  -- as before, as far as the bindings that run at once leave the property that is read. The written
  -- property is not `__proto__`, and no prototype is one of the objects.
  pub scoped_get-scoped_set :
      (scopes : List ℕ) (objects : Objects P) (p q : Text) (v : Held P)
      → (p === codes "__proto__") ≡ false
      → Leaves engine q
      → InheritsFixed engine
      → scoped_get engine root scopes (scoped_set engine root scopes objects p v) q
        ≡ (if p === q then v else scoped_get engine root scopes objects q)
  unfolding scoped_set trap_set owner
  scoped_get-scoped_set scopes objects p q v ordinary leaves fixed =
      let o : ℕ = owner_or root (owner_for objects.own scopes p) in
      let set : Objects P = record objects { own = set_key objects.own o p v } in
      let assigned : assign_key engine o p v objects ≡ set =
        assign_key-own root engine o p v objects ordinary in
      let last : Objects P = engine.react o p set in
      ap (λ x. scoped_get engine root scopes (engine.react o p x) q) assigned
      ∙ scoped_get-found root engine scopes last q
      ∙ ap (λ x. own_or x (engine.inherited last root q))
          (found-same root scopes q set.own last.own (λ n. (leaves o p set n).0))
      ∙ ap (own_or (found root set.own scopes q))
          (fixed objects last root q ((leaves o p set root).1))
      ∙ elim (Bool-cases (p === q)) [
        | inl e ↦
            rw (e, ← (===_iff p q).0 e)
              (ap (λ x. own_or x (engine.inherited objects root p))
                (found-written root objects.own scopes p v))
        | inr e ↦ rw e (
            ap (λ x. own_or x (engine.inherited objects root q))
              (found-other root objects.own o scopes p q v e)
            ∙ sym (scoped_get-found root engine scopes objects q))
      ]

-- ===== src/Helium/Cleanup/Leaving.antt =====
-- What `cleanup` of lib/lunula/assets/helium.js leaves of the elements that leave the page.
use hacienda.Prelude.{
  ℕ, ◌≡◌, ◌≢◌, refl, ◌∙◌, inl, inr, Bool, true, false, ◌||◌, none, List, [], ◌∷◌, Text, ◌==◌,
  if◌then◌else◌, JsMap, Bool-cases, arith,
}
use hacienda.Helium.Changes.{has}
use hacienda.Helium.Cleanup.{
  Bound, Tables, clean_element, clean_elements, prune_refs, kept_bindings, entry_or_none,
  prune_bindings, cleanup,
}

if-or {ℓ} :
    {A : Type ℓ} (b c : Bool) (x y : A)
    → (if c then x else if b then x else y) ≡ (if b || c then x else y)
if-or true true x y = refl
if-or true false x y = refl
if-or false true x y = refl
if-or false false x y = refl

==_comm : (a b : ℕ) → (a == b) ≡ (b == a)
==_comm a b = ground arith

-- An element's entries go, if it is among the removed ones; others stay.
entries-clean :
    (es : List ℕ) (t : Tables) (o : ℕ)
    → ((clean_elements es t).0.cleanups o ≡ (if has es o then none else t.cleanups o))
      × ((clean_elements es t).0.listeners o ≡ (if has es o then none else t.listeners o))
      × ((clean_elements es t).0.scopes o ≡ (if has es o then none else t.scopes o))
      × ((clean_elements es t).0.processed o ≡ (if has es o then false else t.processed o))
unfolding clean_elements clean_element has
entries-clean [] t o = (refl, refl, refl, refl)
entries-clean (e ∷ es) t o =
    let (a, b, c, d) = entries-clean es (clean_element e t).0 o in
    let f : (e == o) ≡ (o == e) = ==_comm e o in
    (
      a ∙ rw f (if-or (o == e) (has es o) none (t.cleanups o)),
      b ∙ rw f (if-or (o == e) (has es o) none (t.listeners o)),
      c ∙ rw f (if-or (o == e) (has es o) none (t.scopes o)),
      d ∙ rw f (if-or (o == e) (has es o) false (t.processed o)),
    )

-- No reference to a removed element.
abbrev pub NoRef : List ℕ → JsMap ℕ → Type 0
NoRef removed [] = Unit
NoRef removed ((name, e) ∷ refs) = (has removed e ≡ false) × NoRef removed refs

abbrev pub NoneBound : List ℕ → List Bound → Type 0
NoneBound removed [] = Unit
NoneBound removed ((n, e) ∷ bs) = (has removed e ≡ false) × NoneBound removed bs

-- No binding of a removed element, and no empty list.
abbrev pub NoBinding : List ℕ → JsMap (List Bound) → Type 0
NoBinding removed [] = Unit
NoBinding removed ((key, bs) ∷ table) = ((bs ≢ []) × NoneBound removed bs) × NoBinding removed table

NoRef-prune_refs : (removed : List ℕ) (refs : JsMap ℕ) → NoRef removed (prune_refs removed refs)
unfolding prune_refs
NoRef-prune_refs removed [] = tt
NoRef-prune_refs removed ((name, e) ∷ refs) = elim (Bool-cases (has removed e)) [
  | inl h ↦ rw h (NoRef-prune_refs removed refs)
  | inr h ↦ rw h (h, NoRef-prune_refs removed refs)
]

NoneBound-kept : (removed : List ℕ) (bs : List Bound) → NoneBound removed (kept_bindings removed bs)
NoneBound-kept removed [] = tt
NoneBound-kept removed ((n, e) ∷ bs) = elim (Bool-cases (has removed e)) [
  | inl h ↦ rw h (NoneBound-kept removed bs)
  | inr h ↦ rw h (h, NoneBound-kept removed bs)
]

NoBinding-entry :
    (removed : List ℕ) (key : Text) (bs : List Bound) (rest : JsMap (List Bound))
    → NoneBound removed bs
    → NoBinding removed rest
    → NoBinding removed (entry_or_none key bs rest)
NoBinding-entry removed key [] rest h r = r
NoBinding-entry removed key (b ∷ bs) rest h r = ((ground arith, h), r)

NoBinding-prune_bindings :
    (removed : List ℕ) (table : JsMap (List Bound))
    → NoBinding removed (prune_bindings removed table)
unfolding prune_bindings
NoBinding-prune_bindings removed [] = tt
NoBinding-prune_bindings removed ((key, bs) ∷ table) =
    NoBinding-entry removed key (kept_bindings removed bs) (prune_bindings removed table)
      (NoneBound-kept removed bs) (NoBinding-prune_bindings removed table)

-- After `cleanup` no table has anything of a removed element: no cleanup, listener, scope or mark, no
-- reference and no binding, and no key is left with an empty list. The cleanups, the listeners, the
-- scopes and the mark of every other element are as they were.
pub cleanup-leaves :
    (removed : List ℕ) (t : Tables) (o : ℕ)
    → ((cleanup removed t).0.cleanups o ≡ (if has removed o then none else t.cleanups o))
      × ((cleanup removed t).0.listeners o ≡ (if has removed o then none else t.listeners o))
      × ((cleanup removed t).0.scopes o ≡ (if has removed o then none else t.scopes o))
      × ((cleanup removed t).0.processed o ≡ (if has removed o then false else t.processed o))
      × NoRef removed (cleanup removed t).0.refs
      × NoBinding removed (cleanup removed t).0.bindings
unfolding cleanup
cleanup-leaves removed t o =
    let (a, b, c, d) = entries-clean removed t o in
    (
      a,
      b,
      c,
      d,
      NoRef-prune_refs removed (clean_elements removed t).0.refs,
      NoBinding-prune_bindings removed (clean_elements removed t).0.bindings,
    )

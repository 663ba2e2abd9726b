-- ===== src/Helium/Changes/Ending.antt =====
-- How many rounds the trap `set` of lib/lunula/assets/helium.js makes.
use hacienda.Prelude.{
  ℕ, zero, suc, ◌+◌, ◌≤◌, ◌<◌, ◌≡◌, refl, ◌∙◌, ◌⊎◌, inl, inr, false, not, some, List, [], ◌∷◌, Text,
  ==_iff, Bool-cases, In, In-append, keep_if, length, arith,
}
use hacienda.Helium.Changes.{Edge, Parents, Search, has, visit, visit_all, search}

-- The objects that were not seen.
abbrev pub fresh : List ℕ → List ℕ → ℕ
fresh objects seen = length (keep_if (λ o. not (has seen o)) objects)

fresh-more :
    (objects : List ℕ) (q : ℕ) (seen : List ℕ) → fresh objects (q ∷ seen) ≤ fresh objects seen
unfolding has
fresh-more [] q seen = omega arith
fresh-more (o ∷ objects) q seen = ground (arith, fresh-more objects q seen)

fresh-less :
    (objects : List ℕ) (q : ℕ) (seen : List ℕ)
    → In q objects
    → has seen q ≡ false
    → fresh objects (q ∷ seen) < fresh objects seen
unfolding has
fresh-less [] q seen w h = elim w [ ]
fresh-less (o ∷ objects) q seen (inl e) h = ground (arith, fresh-more objects q seen, ==_iff q o)
fresh-less (o ∷ objects) q seen (inr i) h = ground (arith, fresh-less objects q seen i h)

module _ (parents : Parents) (objects : List ℕ) where
  -- Where a search adds edges it sees an object for the first time.
  abbrev Progress : Search → Search → Type 0
  Progress s s' =
      (fresh objects s'.seen ≤ fresh objects s.seen)
      × ((s'.next ≡ s.next) ⊎ (fresh objects s'.seen < fresh objects s.seen))

  Progress-visit :
      (k : Text) (q : ℕ) (s : Search) → In q objects → Progress s (visit parents (k, q) s)
  unfolding visit
  Progress-visit k q s i = elim (Bool-cases (has s.seen q)) [
    | inl h ↦ rw h (omega arith, inl refl)
    | inr h ↦ rw h (fresh-more objects q s.seen, inr (fresh-less objects q s.seen i h))
  ]

  Progress-trans : (r s t : Search) → Progress r s → Progress s t → Progress r t
  Progress-trans r s t (a, inl e) (b, inl f) = (omega (arith, a, b), inl (f ∙ e))
  Progress-trans r s t (a, inr e) (b, f) = (omega (arith, a, b), inr (omega (arith, e, b)))
  Progress-trans r s t (a, inl e) (b, inr f) = (omega (arith, a, b), inr (omega (arith, a, f)))

  Progress-visit_all :
      (frontier : List Edge) (s : Search)
      → ((e : Edge) → In e frontier → In e.1 objects)
      → Progress s (visit_all parents frontier s)
  unfolding visit_all
  Progress-visit_all [] s known = (omega arith, inl refl)
  Progress-visit_all ((k, q) ∷ frontier) s known =
      let first = Progress-visit k q s (known (k, q) (inl refl)) in
      let rest = Progress-visit_all frontier (visit parents (k, q) s) (λ e i. known e (inr i)) in
      Progress-trans s (visit parents (k, q) s)
        (visit_all parents frontier (visit parents (k, q) s)) first rest

  abbrev Known : List Edge → Type 0
  Known edges = (e : Edge) → In e edges → In e.1 objects

  Known-visit :
      (k : Text) (q : ℕ) (s : Search)
      → Known (parents q)
      → Known s.next
      → Known (visit parents (k, q) s).next
  unfolding visit
  Known-visit k q s above known = elim (Bool-cases (has s.seen q)) [
    | inl h ↦ rw h known
    | inr h ↦
        rw h
          (λ e i. elim (In-append e s.next (parents q) i) [ inl i ↦ known e i | inr i ↦ above e i ])
  ]

  module _ (known : (q : ℕ) → Known (parents q)) where
    Known-visit_all :
        (frontier : List Edge) (s : Search)
        → Known s.next
        → Known (visit_all parents frontier s).next
    unfolding visit_all
    Known-visit_all [] s h = h
    Known-visit_all ((k, q) ∷ frontier) s h =
        Known-visit_all frontier (visit parents (k, q) s) (Known-visit k q s (known q) h)

    pub search-ends :
        (fuel : ℕ) (frontier : List Edge) (keys : List Text) (seen : List ℕ)
        → Known frontier
        → fresh objects seen + 2 ≤ fuel
        → (result : List Text) × (search parents fuel frontier keys seen ≡ some result)
    unfolding search
    search-ends zero frontier keys seen h enough = absurd (omega (arith, enough))
    search-ends (suc fuel) [] keys seen h enough = (keys, refl)
    search-ends (suc fuel) (e ∷ frontier) keys seen h enough =
        let start : Search = record { keys = keys; seen = seen; next = [] } in
        let s = visit_all parents (e ∷ frontier) start in
        let progress = Progress-visit_all (e ∷ frontier) start h in
        elim progress.1 [
          | inl same ↦ last fuel s.next s.keys s.seen same (omega (arith, enough))
          | inr less ↦
              search-ends fuel s.next s.keys s.seen
                (Known-visit_all (e ∷ frontier) start (λ e w. elim w [ ]))
                (omega (arith, less, enough))
        ]
      where
        last :
            (fuel : ℕ) (next : List Edge) (keys : List Text) (seen : List ℕ)
            → next ≡ []
            → 1 ≤ fuel
            → (result : List Text) × (search parents fuel next keys seen ≡ some result)
        last zero next keys seen same one = absurd (omega (arith, one))
        last (suc fuel) next keys seen same one = (keys, rw same refl)

-- ===== src/Helium/Changes/Keys.antt =====
-- The keys whose bindings run after a write, in lib/lunula/assets/helium.js.
use hacienda.Prelude.{
  ℕ, zero, suc, ◌+◌, ◌≤◌, ◌≡◌, ◌⊎◌, ◌↔◌, inl, inr, true, some, List, [], ◌∷◌, append-nil, Text, In,
  length, arith, length-keep_if, not, ◌≢◌, Bool-cases,
}
use hacienda.Helium.Changes.{Edge, Parents, Search, has, visit, visit_all, search, changed_keys}
use hacienda.Helium.Changes.Ancestors.{
  AboveEdge, here, up, Covers, Closed, Closed-visit_all, Found-search, from, In-add_key_kept,
}
use hacienda.Helium.Changes.Ending.{fresh, search-ends}

has_none : (q : ℕ) → has [] q ≢ true
unfolding has
has_none q = ground arith

module _ (parents : Parents) (t : ℕ) where
  Closed-search :
      (fuel : ℕ) (frontier : List Edge) (keys : List Text) (seen : List ℕ) (result : List Text)
      → search parents fuel frontier keys seen ≡ some result
      → Closed parents t frontier keys seen
      → (seen' : List ℕ) × Closed parents t [] result seen'
  unfolding search
  Closed-search zero frontier keys seen result h closed = ground arith
  Closed-search (suc fuel) [] keys seen result h closed = (seen, rw (← some_inj h) closed)
    where
      some_inj : some keys ≡ some result → keys ≡ result
      some_inj h = ground arith
  Closed-search (suc fuel) (e ∷ frontier) keys seen result h closed =
      let s = visit_all parents (e ∷ frontier) (from parents t keys seen) in
      Closed-search fuel s.next s.keys s.seen result h (
        Closed-visit_all parents t (e ∷ frontier) (from parents t keys seen)
          (rw (append-nil frontier) closed))

  behind :
      (keys : List Text) (seen : List ℕ) (e : Edge)
      → Covers parents t [] keys seen e
      → In e.0 keys × (has seen e.1 ≡ true)
  behind keys seen e (inl w) = elim w [ ]
  behind keys seen e (inr h) = h

  above-Closed :
      (keys : List Text) (seen : List ℕ) (e : Edge)
      → Closed parents t [] keys seen
      → AboveEdge parents t e
      → In e.0 keys × (has seen e.1 ≡ true)
  above-Closed keys seen e closed (here i) = behind keys seen e (closed.0 e i)
  above-Closed keys seen e closed (up {k = k} {q = q} above i) =
      behind keys seen e (closed.1 q (above-Closed keys seen (k, q) closed above).1 e i)

  In-visit : (k : Text) (e : Edge) (s : Search) → In k s.keys → In k (visit parents e s).keys
  unfolding visit
  In-visit k (j, q) s i = elim (Bool-cases (has s.seen q)) [
    | inl h ↦ rw h (In-add_key_kept k j s.keys i)
    | inr h ↦ rw h (In-add_key_kept k j s.keys i)
  ]

  In-visit_all :
      (k : Text) (frontier : List Edge) (s : Search)
      → In k s.keys
      → In k (visit_all parents frontier s).keys
  unfolding visit_all
  In-visit_all k [] s i = i
  In-visit_all k (e ∷ frontier) s i = In-visit_all k frontier (visit parents e s) (In-visit k e s i)

  In-search :
      (k : Text) (fuel : ℕ) (frontier : List Edge) (keys : List Text) (seen : List ℕ)
      (result : List Text)
      → search parents fuel frontier keys seen ≡ some result
      → In k keys
      → In k result
  unfolding search
  In-search k zero frontier keys seen result h i = ground arith
  In-search k (suc fuel) [] keys seen result h i = rw (← some_inj h) i
    where
      some_inj : some keys ≡ some result → keys ≡ result
      some_inj h = ground arith
  In-search k (suc fuel) (e ∷ frontier) keys seen result h i =
      let s = visit_all parents (e ∷ frontier) (from parents t keys seen) in
      In-search k fuel s.next s.keys s.seen result h
        (In-visit_all k (e ∷ frontier) (from parents t keys seen) i)

  -- The search ends, within two rounds more than there are objects, if `objects` lists every object
  -- that an edge leads to. It finds the key that was written, and exactly the keys on the edges from
  -- the object up, however they meet or go in circles.
  pub changed_keys-above :
      (p : Text) (objects : List ℕ)
      → ((q : ℕ) (e : Edge) → In e (parents q) → In e.1 objects)
      → (keys : List Text) × (changed_keys parents (length objects + 2) p t ≡ some keys)
        × ((k : Text) → In k keys ↔ ((p ≡ k) ⊎ ((q : ℕ) × AboveEdge parents t (k, q))))
  unfolding changed_keys
  changed_keys-above p objects known =
      let enough : fresh objects [] + 2 ≤ length objects + 2 =
        omega (arith, length-keep_if (λ o. not (has [] o)) objects) in
      let (keys, found) =
        search-ends parents objects known (length objects + 2) (parents t) (p ∷ []) [] (known t)
          enough in
      let start : Closed parents t (parents t) (p ∷ []) [] =
        (λ e i. inl i, λ q h e i. absurd (has_none q h)) in
      let (seen, closed) =
        Closed-search (length objects + 2) (parents t) (p ∷ []) [] keys found start in
      (
        keys,
        found,
        λ k. (
          Found-search parents t p (length objects + 2) (parents t) (p ∷ []) [] keys (λ e i. here i)
              (λ k i. elim i [ inl e ↦ inl e | inr w ↦ elim w [ ] ]) found k,
          λ h. elim h [
            | inl e ↦ In-search k (length objects + 2) (parents t) (p ∷ []) [] keys found (inl e)
            | inr (q, above) ↦ (above-Closed keys seen (k, q) closed above).0
          ],
        ),
      )

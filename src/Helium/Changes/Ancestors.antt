-- ===== src/Helium/Changes/Ancestors.antt =====
-- Which keys the trap `set` of lib/lunula/assets/helium.js finds.
use hacienda.Prelude.{
  ℕ, zero, suc, ◌≡◌, refl, sym, ◌⊎◌, inl, inr, true, some, List, [], ◌∷◌, ◌++◌, append_assoc, Text,
  ◌==◌, ==_iff, ◌===◌, ===_sound, includes, Bool-cases, In, In-append, In-append_left,
  In-append_right, arith, subst,
}
use hacienda.Helium.Changes.{Edge, Parents, Search, has, add_key, visit, visit_all, search}

includes-In : (keys : List Text) (k : Text) → includes keys k ≡ true → In k keys
unfolding includes
includes-In [] k h = ground arith
includes-In (j ∷ keys) k h = elim (Bool-cases (j === k)) [
  | inl e ↦ inl (===_sound j k e)
  | inr e ↦ inr (includes-In keys k (ground arith))
]

has-In : (seen : List ℕ) (q : ℕ) → has seen q ≡ true → In q seen
unfolding has
has-In [] q h = ground arith
has-In (s ∷ seen) q h = elim (Bool-cases (s == q)) [
  | inl e ↦ inl ((==_iff s q).0 e)
  | inr e ↦ inr (has-In seen q (ground arith))
]

In-add_key : (k : Text) (keys : List Text) → In k (add_key k keys)
unfolding add_key
In-add_key k keys = elim (Bool-cases (includes keys k)) [
  | inl e ↦ rw e (includes-In keys k e)
  | inr e ↦ rw e (In-append_right k keys (k ∷ []) (inl refl))
]

pub In-add_key_kept : (j k : Text) (keys : List Text) → In j keys → In j (add_key k keys)
unfolding add_key
In-add_key_kept j k keys i = elim (Bool-cases (includes keys k)) [
  | inl e ↦ rw e i
  | inr e ↦ rw e (In-append_left j keys (k ∷ []) i)
]

In-add_key_cases : (j k : Text) (keys : List Text) → In j (add_key k keys) → In j keys ⊎ (k ≡ j)
unfolding add_key
In-add_key_cases j k keys = elim (Bool-cases (includes keys k)) [
  | inl e ↦ rw e (λ i. inl i)
  | inr e ↦ rw e (λ i. elim (In-append j keys (k ∷ []) i) [
    | inl i ↦ inl i
    | inr (inl e) ↦ inr e
    | inr (inr w) ↦ elim w [ ]
  ])
]

-- The edges from the object `t` up: its own, and those of the objects that they lead to.
pub data AboveEdge (parents : Parents) (t : ℕ) : Edge → Type 0 where
  here : {e : Edge} → In e (parents t) → AboveEdge parents t e
  up :
      {k : Text} {q : ℕ} {e : Edge}
      → AboveEdge parents t (k, q)
      → In e (parents q)
      → AboveEdge parents t e

module _ (parents : Parents) (t : ℕ) where
  -- What is found: keys of edges from `t` up, and their objects.
  abbrev pub IsFound : Text → Search → Type 0
  IsFound p s =
      ((k : Text) → In k s.keys → (p ≡ k) ⊎ ((q : ℕ) × AboveEdge parents t (k, q)))
      × ((e : Edge) → In e s.next → AboveEdge parents t e)

  Found-visit :
      (p : Text) (e : Edge) (s : Search)
      → AboveEdge parents t e
      → IsFound p s
      → IsFound p (visit parents e s)
  unfolding visit
  Found-visit p (k, q) s above (found, next) = elim (Bool-cases (has s.seen q)) [
    | inl h ↦ rw h (by_key, next)
    | inr h ↦ rw h (
      by_key,
      λ e i. elim (In-append e s.next (parents q) i) [ inl i ↦ next e i | inr i ↦ up above i ],
    )
  ]
    where
      by_key :
          (j : Text) → In j (add_key k s.keys) → (p ≡ j) ⊎ ((q : ℕ) × AboveEdge parents t (j, q))
      by_key j i = elim (In-add_key_cases j k s.keys i) [
        | inl i ↦ found j i
        | inr e ↦ inr (q, rw (sym e) above)
      ]

  Found-visit_all :
      (p : Text) (frontier : List Edge) (s : Search)
      → ((e : Edge) → In e frontier → AboveEdge parents t e)
      → IsFound p s
      → IsFound p (visit_all parents frontier s)
  unfolding visit_all
  Found-visit_all p [] s above found = found
  Found-visit_all p (e ∷ frontier) s above found =
      Found-visit_all p frontier (visit parents e s) (λ f i. above f (inr i))
        (Found-visit p e s (above e (inl refl)) found)

  abbrev pub from : List Text → List ℕ → Search
  from keys seen = record { keys = keys; seen = seen; next = [] }

  pub Found-search :
      (p : Text) (fuel : ℕ) (frontier : List Edge) (keys : List Text) (seen : List ℕ)
      (result : List Text)
      → ((e : Edge) → In e frontier → AboveEdge parents t e)
      → ((k : Text) → In k keys → (p ≡ k) ⊎ ((q : ℕ) × AboveEdge parents t (k, q)))
      → search parents fuel frontier keys seen ≡ some result
      → (k : Text) → In k result
      → (p ≡ k) ⊎ ((q : ℕ) × AboveEdge parents t (k, q))
  unfolding search
  Found-search p zero frontier keys seen result above found h k i = ground arith
  Found-search p (suc fuel) [] keys seen result above found h k i = found k (rw (some_inj h) i)
    where
      some_inj : some keys ≡ some result → keys ≡ result
      some_inj h = ground arith
  Found-search p (suc fuel) (e ∷ frontier) keys seen result above found h k i =
      let s = visit_all parents (e ∷ frontier) (from keys seen) in
      let f = Found-visit_all p (e ∷ frontier) (from keys seen) above (found, λ e w. elim w [ ]) in
      Found-search p fuel s.next s.keys s.seen result f.1 f.0 h k i

  -- An edge is behind the search or ahead of it.
  abbrev pub Covers : List Edge → List Text → List ℕ → Edge → Type 0
  Covers frontier keys seen e = In e frontier ⊎ (In e.0 keys × (has seen e.1 ≡ true))

  abbrev pub Closed : List Edge → List Text → List ℕ → Type 0
  Closed frontier keys seen =
      ((e : Edge) → In e (parents t) → Covers frontier keys seen e)
      × ((q : ℕ) → has seen q ≡ true → (e : Edge) → In e (parents q) → Covers frontier keys seen e)

  has_more : (s q : ℕ) (seen : List ℕ) → has seen q ≡ true → has (s ∷ seen) q ≡ true
  unfolding has
  has_more s q seen h = ground arith

  has_cases : (s q : ℕ) (seen : List ℕ) → has (s ∷ seen) q ≡ true → (s ≡ q) ⊎ (has seen q ≡ true)
  unfolding has
  has_cases s q seen h = elim (Bool-cases (s == q)) [
    | inl e ↦ inl ((==_iff s q).0 e)
    | inr e ↦ inr (ground arith)
  ]

  has_first : (q : ℕ) (seen : List ℕ) → has (q ∷ seen) q ≡ true
  unfolding has
  has_first q seen = ground arith

  Covers-seen :
      (k : Text) (q : ℕ) (rest next : List Edge) (keys : List Text) (seen : List ℕ) (e : Edge)
      → has seen q ≡ true
      → Covers (((k, q) ∷ rest) ++ next) keys seen e
      → Covers (rest ++ next) (add_key k keys) seen e
  Covers-seen k q rest next keys seen e h (inl (inl same)) =
      inr (subst (λ e. In e.0 (add_key k keys) × (has seen e.1 ≡ true)) same (In-add_key k keys, h))
  Covers-seen k q rest next keys seen e h (inl (inr i)) = inl i
  Covers-seen k q rest next keys seen e h (inr (i, g)) = inr (In-add_key_kept e.0 k keys i, g)

  Covers-unseen :
      (k : Text) (q : ℕ) (rest next : List Edge) (keys : List Text) (seen : List ℕ) (e : Edge)
      → Covers (((k, q) ∷ rest) ++ next) keys seen e
      → Covers (rest ++ (next ++ parents q)) (add_key k keys) (q ∷ seen) e
  Covers-unseen k q rest next keys seen e (inl (inl same)) = inr (
      subst (λ e. In e.0 (add_key k keys) × (has (q ∷ seen) e.1 ≡ true)) same
        (In-add_key k keys, has_first q seen))
  Covers-unseen k q rest next keys seen e (inl (inr i)) =
      inl
        (rw (← append_assoc rest next (parents q)) (In-append_left e (rest ++ next) (parents q) i))
  Covers-unseen k q rest next keys seen e (inr (i, g)) =
      inr (In-add_key_kept e.0 k keys i, has_more q e.1 seen g)

  Closed-visit :
      (e : Edge) (rest : List Edge) (s : Search)
      → Closed ((e ∷ rest) ++ s.next) s.keys s.seen
      → Closed (rest ++ (visit parents e s).next) (visit parents e s).keys (visit parents e s).seen
  unfolding visit
  Closed-visit (k, q) rest s (own, others) = elim (Bool-cases (has s.seen q)) [
    | inl h ↦ rw h (
      λ e i. Covers-seen k q rest s.next s.keys s.seen e h (own e i),
      λ o g e i. Covers-seen k q rest s.next s.keys s.seen e h (others o g e i),
    )
    | inr h ↦ rw h (
      λ e i. Covers-unseen k q rest s.next s.keys s.seen e (own e i),
      λ o g e i. elim (has_cases q o s.seen g) [
        | inl same ↦ inl (
            In-append_right e rest (s.next ++ parents q)
              (In-append_right e s.next (parents q) (subst (λ o. In e (parents o)) (sym same) i)))
        | inr g ↦ Covers-unseen k q rest s.next s.keys s.seen e (others o g e i)
      ],
    )
  ]

  pub Closed-visit_all :
      (frontier : List Edge) (s : Search)
      → Closed (frontier ++ s.next) s.keys s.seen
      → Closed
          (visit_all parents frontier s).next
          (visit_all parents frontier s).keys
          (visit_all parents frontier s).seen
  unfolding visit_all
  Closed-visit_all [] s closed = closed
  Closed-visit_all (e ∷ frontier) s closed =
      Closed-visit_all frontier (visit parents e s) (Closed-visit e frontier s closed)

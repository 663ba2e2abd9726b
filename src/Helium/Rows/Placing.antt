-- ===== src/Helium/Rows/Placing.antt =====
-- Where `renderFor` of lib/lunula/assets/helium.js puts the nodes of the rows.
use hacienda.Prelude.{
  ℕ, ◌≡◌, refl, ap, sym, ◌∙◌, inl, inr, Bool, true, false, not, ◌&&◌, ◌||◌, List, [], ◌∷◌, ◌++◌,
  append_assoc, ◌==◌, ==_iff, ==_refl, subst, if◌then◌else◌, Bool-cases, arith,
}
use hacienda.Helium.Changes.{has}
use hacienda.Helium.Rows.{remove, remove_all, insert_after, is_first, is_next, place}

-- No node stands twice.
abbrev pub Distinct : List ℕ → Type 0
Distinct [] = Unit
Distinct (n ∷ ns) = (has ns n ≡ false) × Distinct ns

has-append : (q : ℕ) (xs ys : List ℕ) → has (xs ++ ys) q ≡ (has xs q || has ys q)
unfolding has
has-append q [] ys = refl
has-append q (x ∷ xs) ys = ground (arith, has-append q xs ys)

has-remove : (q n : ℕ) (xs : List ℕ) → has (remove n xs) q ≡ (not (n == q) && has xs q)
unfolding has
has-remove q n [] = ground arith
has-remove q n (x ∷ xs) = ground (arith, has-remove q n xs)

remove_absent : (n : ℕ) (xs : List ℕ) → has xs n ≡ false → remove n xs ≡ xs
unfolding has
remove_absent n [] h = refl
remove_absent n (x ∷ xs) h = ground (arith, remove_absent n xs)

remove-append : (n : ℕ) (xs ys : List ℕ) → remove n (xs ++ ys) ≡ remove n xs ++ remove n ys
remove-append n [] ys = refl
remove-append n (x ∷ xs) ys = ground (arith, remove-append n xs ys)

insert_after-append :
    (c n : ℕ) (pre post : List ℕ)
    → has pre c ≡ false
    → insert_after c n (pre ++ c ∷ post) ≡ pre ++ c ∷ n ∷ post
unfolding insert_after has
insert_after-append c n [] post h = ground (arith, ==_refl c)
insert_after-append c n (x ∷ pre) post h = ground (arith, insert_after-append c n pre post)

is_next-append :
    (c n : ℕ) (pre post : List ℕ)
    → has pre c ≡ false
    → is_next c n (pre ++ c ∷ post) ≡ is_first n post
unfolding is_next has
is_next-append c n [] post h = ground (arith, ==_refl c)
is_next-append c n (x ∷ pre) post h = ground (arith, is_next-append c n pre post)

Distinct-remove : (n : ℕ) (xs : List ℕ) → Distinct xs → Distinct (remove n xs)
Distinct-remove n [] d = tt
Distinct-remove n (x ∷ xs) d = ground (arith, Distinct-remove n xs, has-remove x n xs)

-- The children with `n` moved behind `c`.
abbrev moved : ℕ → ℕ → List ℕ → List ℕ → List ℕ
moved c n pre post = remove n pre ++ c ∷ n ∷ remove n post

has-moved :
    (q c n : ℕ) (pre post : List ℕ)
    → has (moved c n pre post) q
      ≡ ((not (n == q) && has pre q) || ((c == q) || ((n == q) || (not (n == q) && has post q))))
unfolding has
has-moved q c n pre post = ground (
  arith,
  has-append q (remove n pre) (c ∷ n ∷ remove n post),
  has-remove q n pre,
  has-remove q n post,
)

Distinct-moved :
    (c n : ℕ) (pre post : List ℕ)
    → (n == c) ≡ false
    → Distinct (pre ++ c ∷ post)
    → Distinct (moved c n pre post)
unfolding has
Distinct-moved c n [] post h d = (
  ground (arith, has-remove c n post, ==_iff n c, ==_iff c n),
  (ground (arith, has-remove n n post, ==_refl n), Distinct-remove n post d.1),
)
Distinct-moved c n (x ∷ pre) post h d = elim (Bool-cases (n == x)) [
  | inl e ↦ rw e (Distinct-moved c n pre post h d.1)
  | inr e ↦ rw e (
    has-moved x c n pre post ∙ ground (arith, has-append x pre (c ∷ post)),
    Distinct-moved c n pre post h d.1,
  )
]

Distinct-before : (c : ℕ) (pre post : List ℕ) → Distinct (pre ++ c ∷ post) → has pre c ≡ false
unfolding has
Distinct-before c [] post d = refl
Distinct-before c (x ∷ pre) post d =
    ground
      (arith, has-append x pre (c ∷ post), Distinct-before c pre post d.1, ==_iff c x, ==_iff x c)

Distinct-behind : (c : ℕ) (pre post : List ℕ) → Distinct (pre ++ c ∷ post) → Distinct (c ∷ post)
Distinct-behind c [] post d = d
Distinct-behind c (x ∷ pre) post d = Distinct-behind c pre post d.1

-- What one turn of the loop makes of the children.
Distinct-drop : (c : ℕ) (pre post : List ℕ) → Distinct (pre ++ c ∷ post) → Distinct (pre ++ post)
unfolding has
Distinct-drop c [] post d = d.1
Distinct-drop c (x ∷ pre) post d = (
  ground (arith, has-append x pre (c ∷ post), has-append x pre post),
  Distinct-drop c pre post d.1,
)

and_false : (b : Bool) → (b && false) ≡ false
and_false true = refl
and_false false = refl

-- A node that is next already is moved nowhere.
kept_moved :
    (c n : ℕ) (pre post : List ℕ)
    → Distinct (pre ++ c ∷ n ∷ post)
    → pre ++ c ∷ n ∷ post ≡ moved c n pre (n ∷ post)
unfolding has
kept_moved c n pre post d =
    let behind = Distinct-behind c pre (n ∷ post) d in
    let absent : has pre n ≡ false =
      Distinct-before n pre post (Distinct-drop c pre (n ∷ post) d) in
    rw (==_refl n, remove_absent n pre absent, remove_absent n post behind.1.0) refl

step_moved :
    (c n : ℕ) (pre post : List ℕ)
    → (n == c) ≡ false
    → Distinct (pre ++ c ∷ post)
    → (if is_next c n (pre ++ c ∷ post)
        then pre ++ c ∷ post
        else insert_after c n (remove n (pre ++ c ∷ post)))
      ≡ moved c n pre post
step_moved c n pre post h d =
    rw (is_next-append c n pre post (Distinct-before c pre post d)) (by_head post d)
  where
    inserted :
        (post : List ℕ)
        → Distinct (pre ++ c ∷ post)
        → insert_after c n (remove n (pre ++ c ∷ post)) ≡ moved c n pre post
    inserted post d =
        ap (insert_after c n) (remove-append n pre (c ∷ post) ∙ rw h refl)
        ∙ insert_after-append c n (remove n pre) (remove n post)
            (has-remove c n pre ∙ rw (Distinct-before c pre post d) (and_false (not (n == c))))

    by_head :
        (post : List ℕ)
        → Distinct (pre ++ c ∷ post)
        → (if is_first n post
            then pre ++ c ∷ post
            else insert_after c n (remove n (pre ++ c ∷ post)))
          ≡ moved c n pre post
    by_head [] d = inserted [] d
    by_head (m ∷ post) d = elim (Bool-cases (m == n)) [
      | inl e ↦
          rw (e, (==_iff m n).0 e)
            (kept_moved c n pre post
              (subst (λ m. Distinct (pre ++ c ∷ m ∷ post)) ((==_iff m n).0 e) d))
      | inr e ↦ rw e (inserted (m ∷ post) d)
    ]

remove_all-append :
    (ns xs ys : List ℕ) → remove_all ns (xs ++ ys) ≡ remove_all ns xs ++ remove_all ns ys
unfolding remove_all
remove_all-append [] xs ys = refl
remove_all-append (n ∷ ns) xs ys =
    ap (remove_all ns) (remove-append n xs ys) ∙ remove_all-append ns (remove n xs) (remove n ys)

remove_all_kept : (c : ℕ) (ns : List ℕ) → has ns c ≡ false → remove_all ns (c ∷ []) ≡ c ∷ []
unfolding remove_all has
remove_all_kept c [] h = refl
remove_all_kept c (n ∷ ns) h = ground (arith, remove_all_kept c ns)

-- Wherever the nodes stand among the children of the template's parent, or if they are new, they end
-- up behind the template in their order, and the other children keep theirs; the template and the
-- nodes are distinct, and no child stands twice.
pub place-order :
    (c : ℕ) (ns pre post : List ℕ)
    → Distinct (pre ++ c ∷ post)
    → Distinct (c ∷ ns)
    → place c ns (pre ++ c ∷ post) ≡ remove_all ns pre ++ c ∷ (ns ++ remove_all ns post)
unfolding place remove_all has
place-order c [] pre post d e = refl
place-order c (n ∷ ns) pre post d e =
    let h : (n == c) ≡ false = ground (arith, e) in
    let rest =
      place-order n ns (remove n pre ++ c ∷ []) (remove n post)
        (rw (append_assoc (remove n pre) (c ∷ []) (n ∷ remove n post))
          (Distinct-moved c n pre post h d))
        e.1 in
    ap (place n ns)
      (step_moved c n pre post h d ∙ sym (append_assoc (remove n pre) (c ∷ []) (n ∷ remove n post)))
    ∙ rest
    ∙ ap (λ xs. xs ++ n ∷ (ns ++ remove_all ns (remove n post)))
        (remove_all-append ns (remove n pre) (c ∷ [])
          ∙ ap (λ xs. remove_all ns (remove n pre) ++ xs)
              (remove_all_kept c ns (ground (arith, e))))
    ∙ append_assoc (remove_all ns (remove n pre)) (c ∷ [])
        (n ∷ (ns ++ remove_all ns (remove n post)))

-- ===== src/Morpheus/Morphing/Signatures.antt =====
-- Which elements packages/morpheus/src/morpheus.js replaces for their attributes.
use hacienda.Prelude.{
  ℕ, ◌≡◌, refl, ap, sym, ◌∙◌, inl, inr, Bool, true, false, List, [], ◌∷◌, ◌++◌, Text, if◌then◌else◌,
  Bool-cases, arith,
}
use hacienda.HeliumCsp.Strings.{join}
use hacienda.Morpheus.Morphing.{
  le_text, insert, sort, is_reactive, reactive_lines, signature, DomNode, helium_attributes_changed,
  before_node_morphed,
}

le_text_total : (s t : Text) → le_text s t ≡ false → le_text t s ≡ true
unfolding le_text
le_text_total [] t h = ground arith
le_text_total (a ∷ s) [] h = refl
le_text_total (a ∷ s) (b ∷ t) h = ground (arith, le_text_total s t)

le_text_antisym : (s t : Text) → le_text s t ≡ true → le_text t s ≡ true → s ≡ t
unfolding le_text
le_text_antisym [] [] h g = refl
le_text_antisym [] (b ∷ t) h g = ground arith
le_text_antisym (a ∷ s) [] h g = ground arith
le_text_antisym (a ∷ s) (b ∷ t) h g = ground (arith, le_text_antisym s t)

le_text_trans : (s t u : Text) → le_text s t ≡ true → le_text t u ≡ true → le_text s u ≡ true
unfolding le_text
le_text_trans [] t u h g = refl
le_text_trans (a ∷ s) [] u h g = ground arith
le_text_trans (a ∷ s) (b ∷ t) [] h g = ground arith
le_text_trans (a ∷ s) (b ∷ t) (c ∷ u) h g = ground (arith, le_text_trans s t u)

insert-insert : (s t : Text) (l : List Text) → insert s (insert t l) ≡ insert t (insert s l)
unfolding insert
insert-insert s t [] = ground (arith, le_text_total s t, le_text_antisym s t)
insert-insert s t (u ∷ l) = ground (
  arith,
  insert-insert s t l,
  le_text_total s t,
  le_text_antisym s t,
  le_text_total s u,
  le_text_total t u,
  le_text_trans s t u,
  le_text_trans t s u,
  le_text_antisym s u,
  le_text_antisym t u,
)

sort-swap : (s t : Text) (xs ys : List Text) → sort (xs ++ s ∷ t ∷ ys) ≡ sort (xs ++ t ∷ s ∷ ys)
unfolding sort
sort-swap s t [] ys = insert-insert s t (sort ys)
sort-swap s t (x ∷ xs) ys = ap (insert x) (sort-swap s t xs ys)

abbrev line_of : Text × Text → List Text
line_of (name, value) = if is_reactive name then (name ++ (61 ∷ value)) ∷ [] else []

reactive_lines-append :
    (xs ys : List (Text × Text))
    → reactive_lines (xs ++ ys) ≡ reactive_lines xs ++ reactive_lines ys
unfolding reactive_lines
reactive_lines-append [] ys = refl
reactive_lines-append ((name, value) ∷ xs) ys = elim (Bool-cases (is_reactive name)) [
  | inl e ↦ rw e (ap (λ ls. (name ++ (61 ∷ value)) ∷ ls) (reactive_lines-append xs ys))
  | inr e ↦ rw e (reactive_lines-append xs ys)
]

sort-lines :
    (x y : Text × Text) (before : List Text) (ys : List (Text × Text))
    → sort (before ++ reactive_lines (x ∷ y ∷ ys)) ≡ sort (before ++ reactive_lines (y ∷ x ∷ ys))
unfolding reactive_lines
sort-lines (n, v) (m, w) before ys = elim (Bool-cases (is_reactive n)) [
  | inl e ↦ elim (Bool-cases (is_reactive m)) [
    | inl f ↦ rw (e, f) (sort-swap (n ++ (61 ∷ v)) (m ++ (61 ∷ w)) before (reactive_lines ys))
    | inr f ↦ rw (e, f) refl
  ]
  | inr e ↦ rw e refl
]

signature-swap :
    (x y : Text × Text) (xs ys : List (Text × Text))
    → signature (xs ++ x ∷ y ∷ ys) ≡ signature (xs ++ y ∷ x ∷ ys)
unfolding signature
signature-swap x y xs ys =
    ap (λ ls. join (10 ∷ []) (sort ls)) (reactive_lines-append xs (x ∷ y ∷ ys))
    ∙ ap (join (10 ∷ [])) (sort-lines x y (reactive_lines xs) ys)
    ∙ ap (λ ls. join (10 ∷ []) (sort ls)) (sym (reactive_lines-append xs (y ∷ x ∷ ys)))

-- Two neighbours among the attributes of the new node can change places, whatever the nodes: the
-- answer to Idiomorph and the replacement that is noted stay the same.
pub before_node_morphed-swap :
    (old : DomNode) (number : ℕ) (is_element is_permanent : Bool) (x y : Text × Text)
    (xs ys : List (Text × Text))
    → before_node_morphed old (record {
      number = number;
      is_element = is_element;
      is_permanent = is_permanent;
      attributes = xs ++ x ∷ y ∷ ys;
    })
      ≡ before_node_morphed old (record {
        number = number;
        is_element = is_element;
        is_permanent = is_permanent;
        attributes = xs ++ y ∷ x ∷ ys;
      })
unfolding before_node_morphed helium_attributes_changed
before_node_morphed-swap old number is_element is_permanent x y xs ys =
    rw (signature-swap x y xs ys) refl

-- ===== src/Helium/Rows/Keyed.antt =====
-- Which rows `renderFor` of lib/lunula/assets/helium.js makes.
use hacienda.Prelude.{
  ℕ, suc, ◌≡◌, refl, ap, sym, ◌∙◌, inl, inr, Bool, true, false, not, ◌||◌, Option, none, some, List,
  [], ◌∷◌, ◌++◌, append_assoc, append-nil, Text, ◌===◌, ===_iff, includes, keep_if, if◌then◌else◌,
  JsMap, map_get, map_set_absent, Bool-cases, Option-cases, arith,
}
use hacienda.Helium.Bindings.{unique}
use hacienda.Helium.Rows.{
  Local, Row, Loop, Rows, set_values, add_row, add_rows, add_keyed, unless, new_row, old_row,
}

abbrev pub keys {ℓ} : {V : Type ℓ} → JsMap V → List Text
keys [] = []
keys ((k, v) ∷ m) = k ∷ keys m

abbrev pub without : List Text → List Text → List Text
without ks = keep_if (λ k. not (includes ks k))

abbrev is_some {ℓ} : {A : Type ℓ} → Option A → Bool
is_some none = false
is_some (some a) = true

includes-keys {ℓ} :
    {V : Type ℓ} (k : Text) (m : JsMap V) → includes (keys m) k ≡ is_some (map_get k m)
unfolding includes map_get
includes-keys k [] = refl
includes-keys k ((j, v) ∷ m) = ground (arith, includes-keys k m)

keys-append {ℓ} : {V : Type ℓ} (m n : JsMap V) → keys (m ++ n) ≡ keys m ++ keys n
keys-append [] n = refl
keys-append ((j, v) ∷ m) n = ap (λ ks. j ∷ ks) (keys-append m n)

includes-append :
    (ks : List Text) (k j : Text) → includes (ks ++ k ∷ []) j ≡ (includes ks j || (k === j))
unfolding includes
includes-append [] k j = ground arith
includes-append (i ∷ ks) k j = ground (arith, includes-append ks k j)

without_known :
    (ks us : List Text) (k : Text)
    → includes ks k ≡ true
    → without ks (keep_if (λ j. not (k === j)) us) ≡ without ks us
unfolding includes
without_known ks [] k h = refl
without_known ks (u ∷ us) k h = elim (Bool-cases (k === u)) [
  | inl e ↦ rw (e, ← (===_iff k u).0 e, h) (without_known ks us k h)
  | inr e ↦ rw e (ap (λ xs. if not (includes ks u) then u ∷ xs else xs) (without_known ks us k h))
]

without-append :
    (ks us : List Text) (k : Text)
    → without (ks ++ k ∷ []) us ≡ without ks (keep_if (λ j. not (k === j)) us)
without-append ks [] k = refl
without-append ks (u ∷ us) k = rw (includes-append ks k u) (elim (Bool-cases (k === u)) [
  | inl e ↦ rw e (elim (Bool-cases (includes ks u)) [
    | inl i ↦ rw i (without-append ks us k)
    | inr i ↦ rw i (without-append ks us k)
  ])
  | inr e ↦ rw e (elim (Bool-cases (includes ks u)) [
    | inl i ↦ rw i (without-append ks us k)
    | inr i ↦ rw i (ap (λ xs. u ∷ xs) (without-append ks us k))
  ])
])

module _ {ℓ} {V : Type ℓ} (loop : Loop) (dependencies : List Text) (key_of : JsMap (Local V) → Text)
    (clone : ℕ → List ℕ) (is_element : ℕ → Bool) (old : JsMap (Row V)) where
  -- The keys of the items from an index on.
  abbrev pub item_keys : List V → ℕ → List Text
  item_keys [] i = []
  item_keys (v ∷ vs) i = key_of (set_values loop v i []) ∷ item_keys vs (suc i)

  keys-add_keyed :
      (v : V) (i : ℕ) (k : Text) (o : Option (Row V)) (r : Rows V)
      → map_get k r.rows ≡ none
      → keys (add_keyed loop dependencies key_of clone is_element old v i k o r).rows
        ≡ keys r.rows ++ k ∷ []
  keys-add_keyed v i k none r h =
      ap keys (
        map_set_absent k (new_row loop dependencies key_of clone is_element old v i r.clones) r.rows
          h)
      ∙ keys-append r.rows
          ((k, new_row loop dependencies key_of clone is_element old v i r.clones) ∷ [])
  keys-add_keyed v i k (some row) r h =
      ap keys
        (map_set_absent k (old_row loop dependencies key_of clone is_element old v i row) r.rows h)
      ∙ keys-append r.rows ((k, old_row loop dependencies key_of clone is_element old v i row) ∷ [])

  keys-add_row :
      (v : V) (i : ℕ) (r : Rows V) (us : List Text)
      → keys (add_row loop dependencies key_of clone is_element old v i r).rows
          ++ without (keys (add_row loop dependencies key_of clone is_element old v i r).rows) us
        ≡ keys r.rows
          ++ without (keys r.rows) (
              key_of (set_values loop v i [])
              ∷ keep_if (λ j. not (key_of (set_values loop v i []) === j)) us)
  unfolding add_row
  keys-add_row v i r us =
      by_key (key_of (set_values loop v i [])) (map_get (key_of (set_values loop v i [])) old)
    where
      by_key :
          (k : Text) (o : Option (Row V))
          → keys
                (unless loop dependencies key_of clone is_element old
                  (map_get k r.rows)
                  r
                  (add_keyed loop dependencies key_of clone is_element old v i k o r)).rows
              ++ without
                  (keys
                    (unless loop dependencies key_of clone is_element old
                      (map_get k r.rows)
                      r
                      (add_keyed loop dependencies key_of clone is_element old v i k o r)).rows)
                  us
            ≡ keys r.rows ++ without (keys r.rows) (k ∷ keep_if (λ j. not (k === j)) us)
      by_key k o = elim (Option-cases (map_get k r.rows)) [
        | inl e ↦
            rw
              (
                e,
                keys-add_keyed v i k o r e,
                includes-keys k r.rows,
                e,
                without-append (keys r.rows) us k,
              )
              (append_assoc (keys r.rows) (k ∷ [])
                (without (keys r.rows) (keep_if (λ j. not (k === j)) us)))
        | inr (row, e) ↦
            rw (includes-keys k r.rows, e)
              (ap (λ xs. keys r.rows ++ xs)
                (sym (without_known (keys r.rows) us k (includes-keys k r.rows ∙ rw e refl))))
      ]

  pub keys-add_rows :
      (vs : List V) (i : ℕ) (r : Rows V)
      → keys (add_rows loop dependencies key_of clone is_element old vs i r).rows
        ≡ keys r.rows ++ without (keys r.rows) (unique (item_keys vs i))
  unfolding add_rows unique
  keys-add_rows [] i r = sym (append-nil (keys r.rows))
  keys-add_rows (v ∷ vs) i r =
      keys-add_rows vs (suc i) (add_row loop dependencies key_of clone is_element old v i r)
      ∙ keys-add_row v i r (unique (item_keys vs (suc i)))

  pub without_none : (us : List Text) → without [] us ≡ us
  unfolding includes
  without_none [] = refl
  without_none (u ∷ us) = ap (λ xs. u ∷ xs) (without_none us)

-- ===== src/Helium/Rows/Reuse.antt =====
-- Which nodes `renderFor` of lib/lunula/assets/helium.js keeps.
use hacienda.Prelude.{
  ℕ, suc, ◌≡◌, ◌≢◌, refl, ap, sym, ◌∙◌, inl, inr, Bool, Option, none, some, List, [], ◌∷◌, Text,
  ◌===◌, ===_iff, JsMap, map_get, map_set, map_get-map_set, Bool-cases, arith,
}
use hacienda.Helium.Bindings.{unique}
use hacienda.Helium.Rows.{
  Local, Row, Loop, Rows, set_values, add_row, add_rows, add_keyed, unless, new_row, old_row,
  start_rows, render_for,
}
use hacienda.Helium.Rows.Keyed.{keys, item_keys, keys-add_rows, without_none}

module _ {ℓ} {V : Type ℓ} (loop : Loop) (dependencies : List Text) (key_of : JsMap (Local V) → Text)
    (clone : ℕ → List ℕ) (is_element : ℕ → Bool) (old : JsMap (Row V)) where
  some≢none : (row : Row V) → some row ≢ none
  some≢none row = ground arith

  no_row : (k : Text) (row : Row V) → map_get k [] ≢ some row
  unfolding map_get
  no_row k row = ground arith

  -- A row of a key that had one keeps its nodes.
  abbrev Reuses : Rows V → Type ℓ
  Reuses r =
      (k : Text) (row row' : Row V)
      → map_get k old ≡ some row
      → map_get k r.rows ≡ some row'
      → row'.nodes ≡ row.nodes

  abbrev nodes_or : Option (Row V) → List ℕ → List ℕ
  nodes_or none ns = ns
  nodes_or (some row) ns = row.nodes

  nodes_same : (row row' : Row V) → some row ≡ some row' → row.nodes ≡ row'.nodes
  nodes_same row row' e = ap (λ o. nodes_or o []) e

  Reuses-map_set :
      (j : Text) (new : Row V) (r : Rows V)
      → ((row : Row V) → map_get j old ≡ some row → new.nodes ≡ row.nodes)
      → Reuses r
      → (k : Text) (row row' : Row V) → map_get k old ≡ some row
      → map_get k (map_set j new r.rows) ≡ some row'
      → row'.nodes ≡ row.nodes
  Reuses-map_set j new r same reuses k row row' h h' = elim (Bool-cases (j === k)) [
    | inl e ↦
        sym (nodes_same new row' (sym (map_get-map_set j k new r.rows ∙ rw e refl) ∙ h'))
        ∙ same row (ap (λ k. map_get k old) ((===_iff j k).0 e) ∙ h)
    | inr e ↦ reuses k row row' h (sym (map_get-map_set j k new r.rows ∙ rw e refl) ∙ h')
  ]

  Reuses-add_keyed :
      (v : V) (i : ℕ) (j : Text) (r : Rows V)
      → Reuses r
      → Reuses (add_keyed loop dependencies key_of clone is_element old v i j (map_get j old) r)
  Reuses-add_keyed v i j r reuses = by_old (map_get j old) refl
    where
      by_old :
          (o : Option (Row V))
          → map_get j old ≡ o
          → Reuses (add_keyed loop dependencies key_of clone is_element old v i j o r)
      by_old none e =
          Reuses-map_set j (new_row loop dependencies key_of clone is_element old v i r.clones) r
            (λ row h. elim (some≢none row (sym h ∙ e)) [ ]) reuses
      by_old (some row) e =
          Reuses-map_set j (old_row loop dependencies key_of clone is_element old v i row) r
            (λ row' h. nodes_same row row' (sym e ∙ h)) reuses

  Reuses-add_rows :
      (vs : List V) (i : ℕ) (r : Rows V)
      → Reuses r
      → Reuses (add_rows loop dependencies key_of clone is_element old vs i r)
  unfolding add_rows add_row
  Reuses-add_rows [] i r reuses = reuses
  Reuses-add_rows (v ∷ vs) i r reuses =
      Reuses-add_rows vs (suc i) (add_row loop dependencies key_of clone is_element old v i r)
        (by_known (map_get (key_of (set_values loop v i [])) r.rows))
    where
      by_known :
          (o : Option (Row V))
          → Reuses (
              unless loop dependencies key_of clone is_element old o r (
                add_keyed loop dependencies key_of clone is_element old v i
                  (key_of (set_values loop v i []))
                  (map_get (key_of (set_values loop v i [])) old)
                  r))
      by_known none = Reuses-add_keyed v i (key_of (set_values loop v i [])) r reuses
      by_known (some row) = reuses

  -- There is one row for each key that the items have, in the order of their first items, and a row
  -- whose key had a row before keeps its nodes.
  pub render_for-rows :
      (template clones : ℕ) (items : List V) (children : List ℕ)
      → (keys
            (render_for loop dependencies key_of clone is_element template items old clones
              children).0.rows
          ≡ unique (item_keys loop dependencies key_of clone is_element old items 0))
        × ((k : Text) (row row' : Row V)
            → map_get k old ≡ some row
            → map_get k
                (render_for loop dependencies key_of clone is_element template items old clones
                  children).0.rows
              ≡ some row'
            → row'.nodes ≡ row.nodes)
  unfolding render_for
  render_for-rows template clones items children = (
    keys-add_rows loop dependencies key_of clone is_element old items 0
          (start_rows loop dependencies key_of clone is_element clones)
        ∙ without_none loop dependencies key_of clone is_element old
            (unique (item_keys loop dependencies key_of clone is_element old items 0)),
    Reuses-add_rows items 0 (start_rows loop dependencies key_of clone is_element clones)
        (λ k row row' h h'. elim (no_row k row' h') [ ]),
  )

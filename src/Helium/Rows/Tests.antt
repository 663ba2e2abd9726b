-- ===== src/Helium/Rows/Tests.antt =====
-- Lists that `renderFor` of lib/lunula/assets/helium.js renders.
use hacienda.Prelude.{
  ℕ, suc, ◌≡◌, refl, Bool, true, none, some, List, [], ◌∷◌, Text, codes, JsMap, map_get, ◌===◌,
  map_set,
}
use hacienda.Helium.Bindings.{unique}
use hacienda.Helium.Changes.{has}
use hacienda.Helium.Rows.{Local, item, index, Row, Loop, place, remove_all, render_for}
use hacienda.Helium.Rows.Placing.{place-order}
use hacienda.Helium.Rows.Keyed.{keys}
use hacienda.Helium.Rows.Reuse.{render_for-rows}

-- The template 0, between 8 and 9; the rows' nodes 1 and 2 are to stand the other way round.
place-order_example : place 0 (2 ∷ 1 ∷ []) (8 ∷ 0 ∷ 1 ∷ 2 ∷ 9 ∷ []) ≡ 8 ∷ 0 ∷ 2 ∷ 1 ∷ 9 ∷ []
unfolding remove_all has
place-order_example =
    place-order 0 (2 ∷ 1 ∷ []) (8 ∷ []) (1 ∷ 2 ∷ 9 ∷ []) (refl, (refl, (refl, (refl, (refl, tt)))))
      (refl, (refl, (refl, tt)))

abbrev loop : Loop
loop = record { item_name = codes "t"; index_name = none }

abbrev item_text : List (Text × Local Text) → Text
item_text [] = []
item_text ((k, item t) ∷ values) = t
item_text ((k, index i) ∷ values) = []

abbrev two_nodes : ℕ → List ℕ
two_nodes n = n ∷ suc n ∷ []

abbrev all : ℕ → Bool
all n = true

abbrev old_rows : JsMap (Row Text)
old_rows = (codes "b", record { nodes = 1 ∷ []; values = []; dependencies = [] }) ∷ []

abbrev texts : List Text
texts = codes "a" ∷ codes "b" ∷ codes "a" ∷ []

render_for-rows_example :
    (keys (render_for loop [] item_text two_nodes all 0 texts old_rows 5 (0 ∷ 1 ∷ [])).0.rows
      ≡ codes "a" ∷ codes "b" ∷ [])
    × ((k : Text) (row row' : Row Text)
        → map_get k old_rows ≡ some row
        → map_get k
            (render_for loop [] item_text two_nodes all 0 texts old_rows 5 (0 ∷ 1 ∷ [])).0.rows
          ≡ some row'
        → row'.nodes ≡ row.nodes)
unfolding unique ◌===◌ map_set
render_for-rows_example =
    render_for-rows loop [] item_text two_nodes all old_rows 0 5 texts (0 ∷ 1 ∷ [])

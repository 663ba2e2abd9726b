-- ===== src/Helium/Rows.antt =====
-- `renderFor` and `renderIf` of lib/lunula/assets/helium.js. Nodes are numbers, and what stands in the
-- parent of the template is the list of its children. The n-th clone of the template's content is an
-- argument.
pub mod Placing
pub mod Keyed
pub mod Reuse
mod Tests
use hacienda.Prelude.{
  ℕ, zero, suc, Bool, true, false, not, Option, none, some, List, [], ◌∷◌, ◌++◌, Text, ◌==◌,
  keep_if, if◌then◌else◌, JsMap, map_get, map_set,
}
use hacienda.Helium.Changes.{has}

pub data Local {ℓ} (V : Type ℓ) : Type ℓ where
  item : V → Local V
  index : ℕ → Local V

pub record Row {ℓ} (V : Type ℓ) : Type ℓ where
  pub nodes : List ℕ
  pub values : JsMap (Local V)
  pub dependencies : List Text

-- The names of the item and of the index, if that has one; `""` is none.
pub record Loop : Type 0 where
  pub item_name : Text
  pub index_name : Option Text

-- `nextRows`, how many clones were made, and the nodes that got the scope of their row.
pub record Rows {ℓ} (V : Type ℓ) : Type ℓ where
  pub rows : JsMap (Row V)
  pub clones : ℕ
  pub scoped : List ℕ

module _ {ℓ} {V : Type ℓ} where
  abbrev pub set_index : Option Text → ℕ → JsMap (Local V) → JsMap (Local V)
  set_index none i values = values
  set_index (some []) i values = values
  set_index (some (c ∷ name)) i values = map_set (c ∷ name) (index i) values

  -- The item and the index, written over the values of a row.
  abbrev pub set_values : Loop → V → ℕ → JsMap (Local V) → JsMap (Local V)
  set_values loop v i values = set_index loop.index_name i (map_set loop.item_name (item v) values)

  module _ (loop : Loop) (dependencies : List Text) (key_of : JsMap (Local V) → Text)
      (clone : ℕ → List ℕ) (is_element : ℕ → Bool) (old : JsMap (Row V)) where
    abbrev pub new_row : V → ℕ → ℕ → Row V
    new_row v i clones = record {
      nodes = clone clones;
      values = set_values loop v i [];
      dependencies = dependencies;
    }

    abbrev pub old_row : V → ℕ → Row V → Row V
    old_row v i row = record row {
      values = set_values loop v i row.values;
      dependencies = dependencies;
    }

    abbrev pub add_keyed : V → ℕ → Text → Option (Row V) → Rows V → Rows V
    add_keyed v i key (some row) r = record r { rows = map_set key (old_row v i row) r.rows }
    add_keyed v i key none r = record {
      rows = map_set key (new_row v i r.clones) r.rows;
      clones = suc r.clones;
      scoped = r.scoped ++ keep_if is_element (clone r.clones);
    }

    abbrev pub unless : Option (Row V) → Rows V → Rows V → Rows V
    unless (some row) r r' = r
    unless none r r' = r'

    -- One item: a key that stands already is skipped.
    unfoldable pub add_row : V → ℕ → Rows V → Rows V
    add_row v i r =
        let key = key_of (set_values loop v i []) in
        unless (map_get key r.rows) r (add_keyed v i key (map_get key old) r)

    unfoldable pub add_rows : List V → ℕ → Rows V → Rows V
    unfolding add_row
    add_rows [] i r = r
    add_rows (v ∷ vs) i r = add_rows vs (suc i) (add_row v i r)

  -- The nodes of the rows whose keys are gone.
  unfoldable pub removed_nodes : JsMap (Row V) → JsMap (Row V) → List ℕ
  removed_nodes [] next = []
  removed_nodes ((key, row) ∷ old) next =
      let rest = removed_nodes old next in
      elim (map_get key next) [ none ↦ row.nodes ++ rest | some r ↦ rest ]

  unfoldable pub nodes_of : JsMap (Row V) → List ℕ
  nodes_of [] = []
  nodes_of ((key, row) ∷ rows) = row.nodes ++ nodes_of rows

-- `node.remove()`.
abbrev pub remove : ℕ → List ℕ → List ℕ
remove n children = keep_if (λ m. not (n == m)) children

unfoldable pub remove_all : List ℕ → List ℕ → List ℕ
remove_all [] children = children
remove_all (n ∷ ns) children = remove_all ns (remove n children)

unfoldable pub insert_after : ℕ → ℕ → List ℕ → List ℕ
insert_after cursor n [] = []
insert_after cursor n (m ∷ ms) = if m == cursor then m ∷ n ∷ ms else m ∷ insert_after cursor n ms

-- `cursor.nextSibling === node`.
abbrev pub is_first : ℕ → List ℕ → Bool
is_first n [] = false
is_first n (m ∷ ms) = m == n

unfoldable pub is_next : ℕ → ℕ → List ℕ → Bool
is_next cursor n [] = false
is_next cursor n (m ∷ ms) = if m == cursor then is_first n ms else is_next cursor n ms

-- The last loop: `cursor.after(node)` takes the node from where it stands.
unfoldable pub place : ℕ → List ℕ → List ℕ → List ℕ
unfolding is_next insert_after
place cursor [] children = children
place cursor (n ∷ ns) children =
    place n ns
      (if is_next cursor n children then children else insert_after cursor n (remove n children))

module _ {ℓ} {V : Type ℓ} (loop : Loop) (dependencies : List Text) (key_of : JsMap (Local V) → Text)
    (clone : ℕ → List ℕ) (is_element : ℕ → Bool) where
  abbrev pub start_rows : ℕ → Rows V
  start_rows clones = record { rows = []; clones = clones; scoped = [] }

  -- The rows, the children of the parent, and the elements that `cleanup` gets.
  unfoldable pub render_for : ℕ → List V → JsMap (Row V) → ℕ → List ℕ → Rows V × List ℕ × List ℕ
  unfolding add_rows removed_nodes nodes_of remove_all place
  render_for template items old clones children =
      let next =
        add_rows loop dependencies key_of clone is_element old items 0 (start_rows clones) in
      let gone = removed_nodes old next.rows in
      (
        next,
        place template (nodes_of next.rows) (remove_all gone children),
        keep_if is_element gone,
      )

-- What `renderIf` makes: the nodes that are shown, the children of the parent, the elements that get
-- the scopes of the template, and those that are cleaned up.
pub record Shown : Type 0 where
  pub nodes : List ℕ
  pub children : List ℕ
  pub scoped : List ℕ
  pub cleaned : List ℕ

-- `content` is the clone; the second test is that the template has scopes.
unfoldable pub render_if : (ℕ → Bool) → Bool → List ℕ → ℕ → Bool → List ℕ → List ℕ → Shown
unfolding place remove_all
render_if is_element has_scopes content template true [] children = record {
  nodes = content;
  children = place template content children;
  scoped = if has_scopes then keep_if is_element content else [];
  cleaned = [];
}
render_if is_element has_scopes content template true (n ∷ shown) children = record {
  nodes = n ∷ shown;
  children = children;
  scoped = [];
  cleaned = [];
}
render_if is_element has_scopes content template false [] children = record {
  nodes = [];
  children = children;
  scoped = [];
  cleaned = [];
}
render_if is_element has_scopes content template false (n ∷ shown) children = record {
  nodes = [];
  children = remove_all (n ∷ shown) children;
  scoped = [];
  cleaned = keep_if is_element (n ∷ shown);
}

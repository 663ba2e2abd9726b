-- ===== src/Helium/Changes.antt =====
-- The traps `get` and `set` of the reactive state in lib/lunula/assets/helium.js: the edges from an
-- object to the properties that hold it, and the keys whose bindings run after a write. Objects are
-- numbers; an object without edges has none in the WeakMap.
pub mod Ancestors
pub mod Ending
pub mod Keys
use hacienda.Prelude.{
  ℕ, zero, suc, Bool, true, false, Option, none, some, List, [], ◌∷◌, ◌++◌, Text, ◌==◌, ◌===◌, ◌||◌,
  ◌&&◌, includes, if◌then◌else◌,
}
use hacienda.Helium.Bindings.{Table, bindings_of}

-- A property, and the object that it is of.
abbrev pub Edge : Type 0
Edge = Text × ℕ

abbrev pub Parents : Type 0
Parents = ℕ → List Edge

-- `edges.some(e => e.key === p && e.parent === t)`.
unfoldable pub has_edge : List Edge → Text → ℕ → Bool
has_edge [] p t = false
has_edge ((k, q) ∷ edges) p t = (k === p && q == t) || has_edge edges p t

-- What reading the property `p` of `t` records of the reactive object that it holds.
unfoldable pub record_edge : Text → ℕ → ℕ → Parents → Parents
unfolding has_edge
record_edge p t v parents o =
    if o == v
    then (if has_edge (parents v) p t then parents v else parents v ++ (p, t) ∷ [])
    else parents o

-- `seen.has(parent)`.
unfoldable pub has : List ℕ → ℕ → Bool
has [] q = false
has (s ∷ seen) q = s == q || has seen q

-- `keys.add(key)`.
unfoldable pub add_key : Text → List Text → List Text
add_key k keys = if includes keys k then keys else keys ++ k ∷ []

pub record Search : Type 0 where
  pub keys : List Text
  pub seen : List ℕ
  -- The next frontier.
  pub next : List Edge

module _ (parents : Parents) where
  unfoldable pub visit : Edge → Search → Search
  unfolding add_key has
  visit (k, q) s =
      if has s.seen q
      then record s { keys = add_key k s.keys }
      else record { keys = add_key k s.keys; seen = q ∷ s.seen; next = s.next ++ parents q }

  unfoldable pub visit_all : List Edge → Search → Search
  unfolding visit
  visit_all [] s = s
  visit_all (e ∷ frontier) s = visit_all frontier (visit e s)

  -- The loop, with a bound on its rounds.
  unfoldable pub search : ℕ → List Edge → List Text → List ℕ → Option (List Text)
  unfolding visit_all
  search zero frontier keys seen = none
  search (suc fuel) [] keys seen = some keys
  search (suc fuel) (e ∷ frontier) keys seen =
      let s = visit_all (e ∷ frontier) (record { keys = keys; seen = seen; next = [] }) in
      search fuel s.next s.keys s.seen

  unfoldable pub changed_keys : ℕ → Text → ℕ → Option (List Text)
  unfolding search
  changed_keys fuel p t = search fuel (parents t) (p ∷ []) []

-- The bindings that run for the keys, and then those of every key.
unfoldable pub triggered : List Text → Table → List ℕ → List ℕ
triggered [] table all = all
triggered (k ∷ keys) table all = bindings_of k table ++ triggered keys table all

-- `safeApplyBinding`: whether the binding runs, inside the root and not while it runs already.
unfoldable pub runs : (ℕ → Bool) → List ℕ → ℕ → Bool
unfolding has
runs in_root applying b = if in_root b then (if has applying b then false else true) else false

-- ===== src/Helium/Bindings.antt =====
-- `updateBindingDependencies` of lib/lunula/assets/helium.js: the table that says which bindings a key
-- of the state has, by their numbers, and the keys that a binding depends on.
pub mod Upkeep
use hacienda.Prelude.{
  ℕ, Bool, true, false, ◌||◌, not, Option, none, some, List, [], ◌∷◌, ◌++◌, Text, ◌==◌, ◌===◌,
  includes, keep_if, if◌then◌else◌, JsMap, map_get, map_set, map_delete,
}

pub record Binding : Type 0 where
  pub number : ℕ
  pub calc : Bool
  pub loop : Bool
  pub cond : Bool
  -- A Set; empty for `undefined`.
  pub dependencies : List Text

abbrev pub Table : Type 0
Table = JsMap (List ℕ)

-- `HELIUM.bindings.get(key) || []`.
abbrev pub or_nil : Option (List ℕ) → List ℕ
or_nil none = []
or_nil (some bs) = bs

abbrev pub bindings_of : Text → Table → List ℕ
bindings_of key table = or_nil (map_get key table)

-- `filter(binding => binding !== b)`.
abbrev pub others : ℕ → List ℕ → List ℕ
others n bs = keep_if (λ m. not (m == n)) bs

-- `kept.length ? HELIUM.bindings.set(key, kept) : HELIUM.bindings.delete(key)`.
abbrev pub set_or_delete : Text → List ℕ → Table → Table
set_or_delete key [] table = map_delete key table
set_or_delete key (b ∷ bs) table = map_set key (b ∷ bs) table

-- `new Set(keys)`.
unfoldable pub unique : List Text → List Text
unique [] = []
unique (k ∷ ks) = k ∷ keep_if (λ j. not (k === j)) (unique ks)

-- `b.dependencies?.forEach(…)`.
unfoldable pub leave : ℕ → List Text → List Text → Table → Table
leave n next [] table = table
leave n next (key ∷ keys) table = leave n next keys (
    if includes next key then table else set_or_delete key (others n (bindings_of key table)) table)

-- `b.calc || b.loop || b.cond ? [b, ...bindings] : [...bindings, b]`.
abbrev pub place : Bool → ℕ → List ℕ → List ℕ
place in_front n bs = if in_front then n ∷ bs else bs ++ n ∷ []

-- `next.forEach(…)`.
unfoldable pub enter : Bool → ℕ → List Text → List Text → Table → Table
enter in_front n dependencies [] table = table
enter in_front n dependencies (key ∷ keys) table = enter in_front n dependencies keys (
    if includes dependencies key
    then table
    else map_set key (place in_front n (bindings_of key table)) table)

abbrev pub in_front : Binding → Bool
in_front b = b.calc || b.loop || b.cond

unfoldable pub update_binding_dependencies : Binding → List Text → Table → Binding × Table
unfolding leave enter unique
update_binding_dependencies b keys table =
    let next = unique keys in
    (
      record b { dependencies = next },
      enter (in_front b) b.number b.dependencies next (leave b.number next b.dependencies table),
    )

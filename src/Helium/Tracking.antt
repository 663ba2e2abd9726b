-- ===== src/Helium/Tracking.antt =====
-- `executeBinding` of lib/lunula/assets/helium.js: which keys a binding depends on after its expression
-- ran. The expression is known by the properties that it reads, in their order.
pub mod Reads
mod Tests
use hacienda.Prelude.{
  ℕ, zero, suc, Bool, true, false, ◌&&◌, ◌||◌, Option, none, some, List, [], ◌∷◌, ◌++◌, Text, codes,
  map, ◌==◌, ◌===◌, includes, if◌then◌else◌,
}

-- A property of the state, or the token of a scope's property.
pub data Key : Type 0 where
  state_key : Text → Key
  scope_key : ℕ → Text → Key

abbrev pub same_key : Key → Key → Bool
same_key (state_key p) (state_key q) = p === q
same_key (state_key p) (scope_key s q) = false
same_key (scope_key r p) (state_key q) = false
same_key (scope_key r p) (scope_key s q) = r == s && p === q

pub data Dependencies : Type 0 where
  every_key : Dependencies
  these_keys : List Key → Dependencies

module _ {ℓ} {V : Type ℓ} where
  unfoldable pub accessed_at : Key → List (Key × V) → Option V
  accessed_at k [] = none
  accessed_at k ((j, v) ∷ accessed) =
      let rest = accessed_at k accessed in if same_key j k then some v else rest

  -- `accessed.set`.
  unfoldable pub set_accessed : Key → V → List (Key × V) → List (Key × V)
  set_accessed k v [] = (k, v) ∷ []
  set_accessed k v ((j, w) ∷ accessed) =
      let rest = set_accessed k v accessed in
      if same_key j k then (k, v) ∷ accessed else (j, w) ∷ rest

  abbrev pub set_if_absent : Option V → Key → V → List (Key × V) → List (Key × V)
  set_if_absent none k v accessed = set_accessed k v accessed
  set_if_absent (some w) k v accessed = accessed

  -- A read of the state counts the first time; that of a scope replaces what was there.
  abbrev pub record_read : Key → V → List (Key × V) → List (Key × V)
  record_read (state_key p) v accessed =
      set_if_absent (accessed_at (state_key p) accessed) (state_key p) v accessed
  record_read (scope_key s p) v accessed = set_accessed (scope_key s p) v accessed

  unfoldable pub record_reads : List (Key × V) → List (Key × V) → List (Key × V)
  unfolding accessed_at set_accessed
  record_reads [] accessed = accessed
  record_reads ((k, v) ∷ reads) accessed = record_reads reads (record_read k v accessed)

  -- The dependencies of the scopes come first, with their values.
  unfoldable pub inherit : (Key → V) → List Key → List (Key × V) → List (Key × V)
  unfolding set_accessed
  inherit before [] accessed = accessed
  inherit before (k ∷ keys) accessed = inherit before keys (set_accessed k (before k) accessed)

  -- The keys whose values are still those that were read.
  unfoldable pub tracked : (V → V → Bool) → (Key → V) → List (Key × V) → List Key
  tracked same now [] = []
  tracked same now ((k, v) ∷ accessed) =
      let rest = tracked same now accessed in if same (now k) v then k ∷ rest else rest

  -- Nothing for an expression that throws; the names are those that the attribute lists itself.
  unfoldable pub execute_binding :
      (V → V → Bool)
      → (Key → V)
      → (Key → V)
      → (Text → Key)
      → List Key
      → List Text
      → Option (List (Key × V))
      → Option Dependencies
  unfolding inherit record_reads tracked
  execute_binding same before now resolve scope_keys names none = none
  execute_binding same before now resolve scope_keys names (some reads) =
      let found = tracked same now (record_reads reads (inherit before scope_keys [])) in
      some
        (if includes names (codes "*") then every_key else these_keys (found ++ map resolve names))

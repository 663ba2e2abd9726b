-- ===== src/Helium/Cleanup.antt =====
-- `cleanup` of lib/lunula/assets/helium.js: what the tables of HELIUM keep of elements that leave the
-- page. Elements, listeners, scopes and bindings are numbers; a cleanup of an `@init` is one, too, and
-- so is its run, which may throw without any effect on the rest.
pub mod Leaving
mod Tests
use hacienda.Prelude.{
  ℕ, zero, suc, Bool, true, false, not, Option, none, some, List, [], ◌∷◌, ◌++◌, Text, ◌==◌,
  keep_if, if◌then◌else◌, JsMap,
}
use hacienda.Helium.Changes.{has}

-- A WeakMap with elements as keys; an element without an entry has `none`.
abbrev pub Entries : Type 0
Entries = ℕ → Option (List ℕ)

-- A binding with its element.
abbrev pub Bound : Type 0
Bound = ℕ × ℕ

pub record Tables : Type 0 where
  pub cleanups : Entries
  pub listeners : Entries
  pub scopes : Entries
  pub processed : ℕ → Bool
  pub refs : JsMap ℕ
  pub bindings : JsMap (List Bound)

-- What is done outside of the tables, in its order.
pub data Call : Type 0 where
  run_cleanup remove_listener : ℕ → Call

abbrev pub calls_for : (ℕ → Call) → Option (List ℕ) → List Call
calls_for call none = []
calls_for call (some []) = []
calls_for call (some (n ∷ ns)) = call n ∷ calls_for call (some ns)

abbrev pub delete_entry : ℕ → Entries → Entries
delete_entry e entries o = if o == e then none else entries o

-- The body of `removed.forEach`.
unfoldable pub clean_element : ℕ → Tables → Tables × List Call
clean_element e t = (
  record t {
    cleanups = delete_entry e t.cleanups;
    listeners = delete_entry e t.listeners;
    processed = λ o. if o == e then false else t.processed o;
    scopes = delete_entry e t.scopes;
  },
  calls_for run_cleanup (t.cleanups e) ++ calls_for remove_listener (t.listeners e),
)

unfoldable pub clean_elements : List ℕ → Tables → Tables × List Call
unfolding clean_element
clean_elements [] t = (t, [])
clean_elements (e ∷ es) t =
    let (t', calls) = clean_element e t in
    let (t'', rest) = clean_elements es t' in (t'', calls ++ rest)

unfoldable pub prune_refs : List ℕ → JsMap ℕ → JsMap ℕ
prune_refs removed [] = []
prune_refs removed ((name, e) ∷ refs) =
    if has removed e then prune_refs removed refs else (name, e) ∷ prune_refs removed refs

abbrev pub kept_bindings : List ℕ → List Bound → List Bound
kept_bindings removed bs = keep_if (λ b. not (has removed b.1)) bs

-- A key without bindings is deleted.
abbrev pub entry_or_none : Text → List Bound → JsMap (List Bound) → JsMap (List Bound)
entry_or_none key [] rest = rest
entry_or_none key (b ∷ bs) rest = (key, b ∷ bs) ∷ rest

unfoldable pub prune_bindings : List ℕ → JsMap (List Bound) → JsMap (List Bound)
prune_bindings removed [] = []
prune_bindings removed ((key, bs) ∷ table) =
    entry_or_none key (kept_bindings removed bs) (prune_bindings removed table)

-- The elements are `el` and those within it.
unfoldable pub cleanup : List ℕ → Tables → Tables × List Call
unfolding clean_elements prune_refs prune_bindings
cleanup removed t =
    let (t', calls) = clean_elements removed t in
    (
      record t' {
        refs = prune_refs removed t'.refs;
        bindings = prune_bindings removed t'.bindings;
      },
      calls,
    )

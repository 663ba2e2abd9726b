-- ===== src/Helium/Cleanup/Tests.antt =====
-- `cleanup` of lib/lunula/assets/helium.js on a page with two elements.
use hacienda.Prelude.{◌≡◌, true, false, none, some, [], ◌∷◌, codes}
use hacienda.Helium.Changes.{has}
use hacienda.Helium.Cleanup.{Tables, cleanup}
use hacienda.Helium.Cleanup.Leaving.{cleanup-leaves, NoRef, NoBinding}

abbrev page : Tables
page = record {
  cleanups = λ e. some (7 ∷ []);
  listeners = λ e. none;
  scopes = λ e. some (8 ∷ 9 ∷ []);
  processed = λ e. true;
  refs = (codes "a", 1) ∷ (codes "b", 2) ∷ [];
  bindings = (codes "x", (5, 1) ∷ []) ∷ (codes "y", (5, 1) ∷ (6, 2) ∷ []) ∷ [];
}

cleanup-leaves_example :
    ((cleanup (1 ∷ []) page).0.cleanups 1 ≡ none)
    × ((cleanup (1 ∷ []) page).0.listeners 1 ≡ none)
    × ((cleanup (1 ∷ []) page).0.scopes 1 ≡ none)
    × ((cleanup (1 ∷ []) page).0.processed 1 ≡ false)
    × NoRef (1 ∷ []) (cleanup (1 ∷ []) page).0.refs
    × NoBinding (1 ∷ []) (cleanup (1 ∷ []) page).0.bindings
unfolding has
cleanup-leaves_example = cleanup-leaves (1 ∷ []) page 1

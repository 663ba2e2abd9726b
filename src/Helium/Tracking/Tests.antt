-- ===== src/Helium/Tracking/Tests.antt =====
-- A binding of lib/lunula/assets/helium.js that reads `x` twice and counts it up in between.
use hacienda.Prelude.{ℕ, ◌≡◌, refl, Bool, false, some, List, [], ◌∷◌, codes, ◌==◌, ◌===◌, includes}
use hacienda.Helium.Tracking.{Key, state_key, execute_binding, these_keys}
use hacienda.Helium.Tracking.Reads.{execute_binding-reads, has_key}

abbrev three : Key → ℕ
three k = 3

abbrev four : Key → ℕ
four k = 4

abbrev same : ℕ → ℕ → Bool
same a b = a == b

abbrev reads : List (Key × ℕ)
reads = (state_key (codes "x"), 3) ∷ (state_key (codes "x"), 4) ∷ []

execute_binding-reads_example :
    (ks : List Key) × (execute_binding same three four state_key [] (codes "y" ∷ []) (some reads)
      ≡ some (these_keys ks))
    × (has_key (state_key (codes "x")) ks ≡ false)
unfolding includes ◌===◌
execute_binding-reads_example =
    execute_binding-reads same three four state_key (codes "y" ∷ []) reads (codes "x") refl

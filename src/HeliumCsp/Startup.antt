-- ===== src/HeliumCsp/Startup.antt =====
-- When lib/lunula/assets/helium-csp.js starts and stops Helium: the flag `initialized`, the timer of
-- the automatic start, and the functions and listeners that use them.
pub mod Once
use hacienda.Prelude.{ℕ, zero, suc, Bool, true, false, not, List, [], ◌∷◌, if◌then◌else◌}

-- A call of the runtime that `createHelium` returns.
pub data Call : Type 0 where
  run_helium run_mount run_helium_teardown : Call

-- `autoTimer`, or the listener of `DOMContentLoaded`, which nothing takes back.
pub data Pending : Type 0 where
  nothing timer listener : Pending

pub record Startup : Type 0 where
  pub initialized : Bool
  pub pending : Pending
  -- The calls so far, the last one first.
  pub calls : List Call

pub data Event : Type 0 where
  -- The page calls what the module exports.
  helium mount helium_teardown : Event
  -- The timer fires, or the document is loaded.
  auto : Event
  before_render render : Event

abbrev pub call : Call → Startup → Startup
call c s = record s { calls = c ∷ s.calls }

-- `clearTimeout` takes back the timer, not the listener.
abbrev pub clear_timer : Pending → Pending
clear_timer timer = nothing
clear_timer nothing = nothing
clear_timer listener = listener

unfoldable pub suppress_auto_init : Startup → Startup
suppress_auto_init s = record s { initialized = true; pending = clear_timer s.pending }

-- The module's last statements; the argument is whether the document is still loading.
unfoldable pub load : Bool → Startup
load loading = record {
  initialized = false;
  pending = if loading then listener else timer;
  calls = [];
}

abbrev pub is_pending : Pending → Bool
is_pending nothing = false
is_pending timer = true
is_pending listener = true

unfoldable pub step : Event → Startup → Startup
unfolding suppress_auto_init
step helium s = call run_helium (suppress_auto_init s)
step mount s = call run_mount (suppress_auto_init s)
step helium_teardown s = call run_helium_teardown (suppress_auto_init s)
step auto s =
    let fired = record s { pending = nothing } in
    if is_pending s.pending
    then (if s.initialized then fired else call run_helium (suppress_auto_init fired))
    else s
step before_render s = record (call run_helium_teardown s) { initialized = false }
step render s = call run_helium (suppress_auto_init s)

unfoldable pub run : List Event → Startup → Startup
unfolding step
run [] s = s
run (e ∷ es) s = run es (step e s)

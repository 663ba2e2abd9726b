-- ===== src/Helium/Startup.antt =====
-- The default instance of lib/lunula/assets/helium.js: when it starts and stops, and how a variant
-- takes its place. The calls of the runtime are those of the CSP variant.
pub mod Disabled
use hacienda.Prelude.{ℕ, zero, suc, Bool, true, false, not, List, [], ◌∷◌, if◌then◌else◌}
use hacienda.HeliumCsp.Startup.{
  Call, run_helium, run_mount, run_helium_teardown, Pending, nothing, timer, listener, clear_timer,
  is_pending,
}

pub record Defaults : Type 0 where
  pub disabled : Bool
  pub initialized : Bool
  pub pending : Pending
  -- The calls so far, the last one first.
  pub calls : List Call

pub data DefaultEvent : Type 0 where
  -- The page calls what the module exports.
  default_helium mount default_teardown disable_default : DefaultEvent
  -- The timer fires, or the document is loaded.
  auto_init : DefaultEvent
  turbo_before_render turbo_render : DefaultEvent

abbrev pub call_of : Call → Defaults → Defaults
call_of c s = record s { calls = c ∷ s.calls }

unfoldable pub suppress_default_auto_init : Defaults → Defaults
suppress_default_auto_init s = record s { initialized = true; pending = clear_timer s.pending }

abbrev pub run_default : Defaults → Defaults
run_default s = call_of run_helium (suppress_default_auto_init s)

-- The module's last statements; the argument is whether the document is still loading.
unfoldable pub load_default : Bool → Defaults
load_default loading = record {
  disabled = false;
  initialized = false;
  pending = if loading then listener else timer;
  calls = [];
}

unfoldable pub default_step : DefaultEvent → Defaults → Defaults
unfolding suppress_default_auto_init
default_step default_helium s = run_default s
default_step mount s = call_of run_mount (suppress_default_auto_init s)
default_step default_teardown s = call_of run_helium_teardown (suppress_default_auto_init s)
default_step disable_default s =
    call_of run_helium_teardown
      (record s { disabled = true; initialized = true; pending = clear_timer s.pending })
default_step auto_init s =
    let fired = record s { pending = nothing } in
    if is_pending s.pending
    then (if s.disabled then fired else if s.initialized then fired else run_default fired)
    else s
default_step turbo_before_render s =
    if s.disabled then s else record (call_of run_helium_teardown s) { initialized = false }
default_step turbo_render s = if s.disabled then s else run_default s

unfoldable pub default_run : List DefaultEvent → Defaults → Defaults
unfolding default_step
default_run [] s = s
default_run (e ∷ es) s = default_run es (default_step e s)

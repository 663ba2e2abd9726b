-- ===== src/Helium/Startup/Disabled.antt =====
-- What the default instance of lib/lunula/assets/helium.js does after `disableDefault`.
use hacienda.Prelude.{
  ◌≡◌, refl, ap, sym, ◌∙◌, true, List, [], ◌∷◌, ◌++◌, append_assoc, append-nil, arith,
}
use hacienda.HeliumCsp.Startup.{Call, run_helium, run_mount, run_helium_teardown}
use hacienda.Helium.Startup.{
  Defaults, DefaultEvent, default_helium, mount, default_teardown, disable_default, auto_init,
  turbo_before_render, turbo_render, default_step, default_run,
}

-- What the page asks for itself, the last one first.
abbrev pub asked_for : List DefaultEvent → List Call
asked_for [] = []
asked_for (default_helium ∷ es) = asked_for es ++ run_helium ∷ []
asked_for (mount ∷ es) = asked_for es ++ run_mount ∷ []
asked_for (default_teardown ∷ es) = asked_for es ++ run_helium_teardown ∷ []
asked_for (disable_default ∷ es) = asked_for es ++ run_helium_teardown ∷ []
asked_for (auto_init ∷ es) = asked_for es
asked_for (turbo_before_render ∷ es) = asked_for es
asked_for (turbo_render ∷ es) = asked_for es

step_disabled :
    (e : DefaultEvent) (s : Defaults) → s.disabled ≡ true → (default_step e s).disabled ≡ true
unfolding default_step
step_disabled default_helium s h = h
step_disabled mount s h = h
step_disabled default_teardown s h = h
step_disabled disable_default s h = refl
step_disabled auto_init s h = ground arith
step_disabled turbo_before_render s h = ground arith
step_disabled turbo_render s h = ground arith

calls-step :
    (e : DefaultEvent) (s : Defaults)
    → s.disabled ≡ true
    → (default_step e s).calls ≡ asked_for (e ∷ []) ++ s.calls
unfolding default_step
calls-step default_helium s h = refl
calls-step mount s h = refl
calls-step default_teardown s h = refl
calls-step disable_default s h = refl
calls-step auto_init s h = ground arith
calls-step turbo_before_render s h = ground arith
calls-step turbo_render s h = ground arith

asked_for-cons :
    (e : DefaultEvent) (es : List DefaultEvent)
    → asked_for (e ∷ es) ≡ asked_for es ++ asked_for (e ∷ [])
asked_for-cons default_helium es = refl
asked_for-cons mount es = refl
asked_for-cons default_teardown es = refl
asked_for-cons disable_default es = refl
asked_for-cons auto_init es = sym (append-nil (asked_for es))
asked_for-cons turbo_before_render es = sym (append-nil (asked_for es))
asked_for-cons turbo_render es = sym (append-nil (asked_for es))

calls-run :
    (es : List DefaultEvent) (s : Defaults)
    → s.disabled ≡ true
    → (default_run es s).calls ≡ asked_for es ++ s.calls
unfolding default_run
calls-run [] s h = refl
calls-run (e ∷ es) s h =
    calls-run es (default_step e s) (step_disabled e s h)
    ∙ ap (λ c. asked_for es ++ c) (calls-step e s h)
    ∙ sym (append_assoc (asked_for es) (asked_for (e ∷ [])) s.calls)
    ∙ ap (λ c. c ++ s.calls) (sym (asked_for-cons e es))

-- After `disableDefault`, whatever comes in whatever order, the default instance neither starts nor
-- stops by itself: it makes the calls that the page asks for, and no call for the automatic start, the
-- load of the document or a visit of Turbo.
pub default_run-disabled :
    (es : List DefaultEvent) (s : Defaults)
    → (default_run (disable_default ∷ es) s).calls ≡ asked_for es ++ run_helium_teardown ∷ s.calls
unfolding default_run default_step
default_run-disabled es s = calls-run es (default_step disable_default s) refl

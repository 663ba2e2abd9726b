-- ===== src/HeliumCsp/Startup/Once.antt =====
-- The automatic start of lib/lunula/assets/helium-csp.js.
use hacienda.Prelude.{
  ◌≡◌, refl, sym, ap, ◌∙◌, Bool, true, false, List, [], ◌∷◌, ◌++◌, append_assoc, append-nil,
  Bool-cases, inl, inr,
}
use hacienda.HeliumCsp.Startup.{
  Call, run_helium, run_mount, run_helium_teardown, Startup, Event, helium, mount, helium_teardown,
  auto, before_render, render, is_pending, load, step, run,
}

-- What the events themselves ask for, the last one first: the automatic start asks for nothing.
abbrev pub call_of : Event → List Call
call_of helium = run_helium ∷ []
call_of mount = run_mount ∷ []
call_of helium_teardown = run_helium_teardown ∷ []
call_of auto = []
call_of before_render = run_helium_teardown ∷ []
call_of render = run_helium ∷ []

abbrev pub calls_of : List Event → List Call
calls_of [] = []
calls_of (e ∷ es) = calls_of es ++ call_of e

-- No event of the list is the start of a visit.
abbrev pub IsWithinPage : List Event → Type 0
IsWithinPage [] = Unit
IsWithinPage (before_render ∷ es) = ⊥
IsWithinPage (helium ∷ es) = IsWithinPage es
IsWithinPage (mount ∷ es) = IsWithinPage es
IsWithinPage (helium_teardown ∷ es) = IsWithinPage es
IsWithinPage (auto ∷ es) = IsWithinPage es
IsWithinPage (render ∷ es) = IsWithinPage es

auto-initialized :
    (s : Startup)
    → s.initialized ≡ true
    → ((step auto s).calls ≡ s.calls) × ((step auto s).initialized ≡ true)
unfolding step
auto-initialized s h = elim (Bool-cases (is_pending s.pending)) [
  | inl e ↦ rw (e, h) (refl, refl)
  | inr e ↦ rw e (refl, h)
]

run-initialized :
    (es : List Event) (s : Startup)
    → IsWithinPage es
    → s.initialized ≡ true
    → (run es s).calls ≡ calls_of es ++ s.calls
unfolding run
run-initialized [] s w i = refl
run-initialized (helium ∷ es) s w i =
    run-initialized es _ w refl ∙ sym (append_assoc (calls_of es) (run_helium ∷ []) s.calls)
run-initialized (mount ∷ es) s w i =
    run-initialized es _ w refl ∙ sym (append_assoc (calls_of es) (run_mount ∷ []) s.calls)
run-initialized (helium_teardown ∷ es) s w i =
    run-initialized es _ w refl
    ∙ sym (append_assoc (calls_of es) (run_helium_teardown ∷ []) s.calls)
run-initialized (auto ∷ es) s w i =
    let (quiet, still) = auto-initialized s i in
    run-initialized es (step auto s) w still
    ∙ ap (λ x. calls_of es ++ x) quiet
    ∙ ap (λ x. x ++ s.calls) (sym (append-nil (calls_of es)))
run-initialized (before_render ∷ es) s w i = elim w [ ]
run-initialized (render ∷ es) s w i =
    run-initialized es _ w refl ∙ sym (append_assoc (calls_of es) (run_helium ∷ []) s.calls)

-- What the first event of a page makes Helium do: the automatic start runs it.
abbrev pub first_call : Event → List Call
first_call auto = run_helium ∷ []
first_call helium = run_helium ∷ []
first_call mount = run_mount ∷ []
first_call helium_teardown = run_helium_teardown ∷ []
first_call before_render = run_helium_teardown ∷ []
first_call render = run_helium ∷ []

-- Whichever event comes first after the module is loaded and until the page is left, Helium starts by
-- itself only if the automatic start is that event: all later calls are those that the page and
-- Turbo ask for, in their order.
pub run-load :
    (loading : Bool) (e : Event) (es : List Event)
    → IsWithinPage (e ∷ es)
    → (run (e ∷ es) (load loading)).calls ≡ calls_of es ++ first_call e
unfolding run load
run-load loading helium es w = run-initialized es (step helium (load loading)) w refl
run-load loading mount es w = run-initialized es (step mount (load loading)) w refl
run-load loading helium_teardown es w =
    run-initialized es (step helium_teardown (load loading)) w refl
run-load true auto es w = run-initialized es (step auto (load true)) w refl
run-load false auto es w = run-initialized es (step auto (load false)) w refl
run-load loading before_render es w = elim w [ ]
run-load loading render es w = run-initialized es (step render (load loading)) w refl

-- ===== src/Morpheus/Navigation.antt =====
-- `navigate` of packages/morpheus/src/morpheus.js. Each function is the code between two awaits of one
-- call; a `Task` is a call that waits. The events of the browser drive a `World`: the object, the
-- page's URL, the attribute `data-morpheus-navigating`, the calls that wait and what was done, the
-- newest first, each with the number of the navigation that did it.
use hacienda.Prelude.{
  ℕ, suc, Bool, true, false, not, Option, none, some, List, [], ◌∷◌, ◌++◌, Text, ◌===◌, ◌==◌,
  if◌then◌else◌, keep_if, map,
}
use hacienda.Morpheus.State.{Page, reload, html, page_cacheable, Morpheus}
use hacienda.Morpheus.Cache.{take_prefetch}
use hacienda.Morpheus.Links.{Address}
use hacienda.Morpheus.Fetch.{
  Document, reload_requested, morph_cancelled, current_target_missing, Failure, aborted, fallback,
  network, text_or,
}
use hacienda.Morpheus.View.{
  Dom, HistoryMode, push, pop, other, NavigateOptions, Scroll, restore_scroll, manage_focus,
}

-- What `await` is waiting for.
pub data Phase {ℓ} (N : Type ℓ) : Type ℓ where
  awaiting_prefetch : Option ℕ → Phase N
  awaiting_page : ℕ → Phase N
  awaiting_frame : Text → Bool → Phase N

pub record Task {ℓ} (N : Type ℓ) : Type ℓ where
  pub number : ℕ
  pub url : Text
  pub options : NavigateOptions
  pub phase : Phase N

pub data Effect {ℓ} (N : Type ℓ) : Type ℓ where
  -- `setLoading(true)` and `setLoading(false)`.
  loading_started loading_ended : Text → Effect N
  -- `controller.abort()` and `fetch`, by the number of the request.
  request_aborted : ℕ → Effect N
  requested : ℕ → Text → Effect N
  morphed : N → Text → Effect N
  pushed replaced : Text → Effect N
  scrolled : Scroll N → Effect N
  focused : N → Bool → Effect N
  links_updated : Effect N
  loaded : Text → Bool → Effect N
  navigation_error : Text → Failure → Effect N
  -- `window.location.replace` if the flag is set, else `window.location.assign`.
  full_load : Text → Bool → Effect N

-- What the browser answers without changing.
pub record Browser {ℓ} (N : Type ℓ) : Type ℓ where
  -- `new URL(url, location)`.
  pub address_of : Text → Text → Address
  -- `cacheKey`: the `href` of that URL without its hash.
  pub cache_key : Text → Text → Text
  pub parse_html : Text → Document N

pub record World {ℓ} (N : Type ℓ) : Type ℓ where
  pub morpheus : Morpheus
  -- `window.location.href`.
  pub location : Text
  pub navigating : Bool
  pub tasks : List (Task N)
  -- The prefetch requests that wait, with their keys, and what the settled ones resolved to.
  pub pending : List (ℕ × Text)
  pub settled : List (ℕ × Option (Page N))
  pub trace : List (ℕ × Effect N)

abbrev pub find_number {ℓ} : {V : Type ℓ} → ℕ → List (ℕ × V) → Option V
find_number n [] = none
find_number n ((i, v) ∷ l) = if i == n then some v else find_number n l

abbrev pub is_pop : HistoryMode → Bool
is_pop pop = true
is_pop _ = false

module _ {ℓ} {N : Type ℓ} where
  unfoldable pub log : ℕ → List (Effect N) → World N → World N
  log number effects w = record w { trace = map (λ e. (number, e)) effects ++ w.trace }

  unfoldable pub is_current : Task N → World N → Bool
  is_current t w = t.number == w.morpheus.sequence

  abbrev pub without : ℕ → List (Task N) → List (Task N)
  without n = keep_if (λ t. not (t.number == n))

  abbrev pub find_task : ℕ → List (Task N) → Option (Task N)
  find_task n [] = none
  find_task n (t ∷ ts) = if t.number == n then some t else find_task n ts

  -- The call goes on to wait in another phase.
  unfoldable pub await : Task N → Phase N → World N → World N
  await t phase w = record w { tasks = record t { phase = phase } ∷ without t.number w.tasks }

  -- `finally`, and the end of the call.
  unfoldable pub finish : Task N → World N → World N
  unfolding log is_current
  finish t w =
      let ended = record w { tasks = without t.number w.tasks } in
      if is_current t w
      then log t.number (loading_ended t.url ∷ []) (record ended { navigating = false })
      else ended

  unfoldable pub fallback_url : Task N → Failure → Text
  fallback_url t (fallback url reason) = url
  fallback_url t aborted = t.url
  fallback_url t network = t.url

  -- `catch`, for an error other than an abort.
  unfoldable pub fall_back : Task N → Failure → World N → World N
  unfolding log is_current finish fallback_url
  fall_back t failure w =
      let url = fallback_url t failure in
      finish t (
        if is_current t w
        then log t.number
            (full_load url (is_pop t.options.history_mode) ∷ navigation_error url failure ∷ []) w
        else w)

  unfoldable pub catch : Task N → Failure → World N → World N
  unfolding finish fall_back
  catch t aborted w = finish t w
  catch t (fallback url reason) w = fall_back t (fallback url reason) w
  catch t network w = fall_back t network w

  -- `updateHistory`: what it does, and the URL that the page then has.
  unfoldable pub update_history : Text → HistoryMode → Text → List (Effect N) × Text
  update_history url push location = (pushed url ∷ [], url)
  update_history url pop location =
      if url === location then ([], location) else (replaced url ∷ [], url)
  update_history url other location = ([], location)

  -- `morph` and `updateHistory`; the call then waits for the next frame.
  unfoldable pub show_page : Task N → Text → N → Text → Bool → World N → World N
  unfolding log await update_history
  show_page t url target title prefetched w =
      let (effects, location) = update_history url t.options.history_mode w.location in
      await t (awaiting_frame url prefetched)
        (log t.number (effects ++ morphed target title ∷ []) (record w { location = location }))

  -- From the arrival of the page to the next frame. `accepted` is what the cancelable event
  -- `morpheus:before-morph` returns.
  unfoldable pub arrive : Task N → Page N → Bool → Bool → Dom N → World N → World N
  unfolding is_current finish catch show_page text_or
  arrive t (reload url) prefetched accepted dom w =
      if is_current t w
      then catch t (fallback (text_or (some url) t.url) reload_requested) w
      else finish t w
  arrive t (html url target title cacheable) prefetched accepted dom w =
      if is_current t w
      then (if accepted
          then elim (dom.find w.morpheus.target_selector) [
            | none ↦ catch t (fallback url current_target_missing) w
            | some current ↦ show_page t url target title prefetched w
          ]
          else catch t (fallback url morph_cancelled) w)
      else finish t w

  -- The new `AbortController` has the number of the request that it may abort.
  unfoldable pub start_fetch : Task N → World N → World N
  unfolding log await
  start_fetch t w =
      let m = w.morpheus in
      let request = m.next_request in
      await t (awaiting_page request) (
        log t.number (requested request t.url ∷ []) (record w {
          morpheus = record m { controller = some request; next_request = suc request };
        }))

  -- What the prefetch left is used only if it may be stored.
  unfoldable pub use_prefetched : Task N → Option (Page N) → Bool → Dom N → World N → World N
  unfolding start_fetch arrive
  use_prefetched t none accepted dom w = start_fetch t w
  use_prefetched t (some p) accepted dom w =
      if page_cacheable p then arrive t p true accepted dom w else start_fetch t w

  abbrev focus_effects : Option (N × Bool) → List (Effect N)
  focus_effects none = []
  focus_effects (some (node, added)) = focused node added ∷ []

  unfoldable pub completed_effects : Task N → Text → Bool → Dom N → World N → List (Effect N)
  completed_effects t url prefetched dom w =
      loaded url prefetched
      ∷ links_updated
      ∷ (focus_effects (manage_focus dom w.morpheus.target_selector url t.options.navigation_type)
          ++ scrolled (restore_scroll dom url t.options) ∷ [])

  -- From the frame after the morph to the end.
  unfoldable pub complete : Task N → Text → Bool → Dom N → World N → World N
  unfolding is_current log finish completed_effects
  complete t url prefetched dom w =
      finish t
        (if is_current t w then log t.number (completed_effects t url prefetched dom w) w else w)

  abbrev pub abort_effects : Option ℕ → List (Effect N)
  abort_effects none = []
  abort_effects (some request) = request_aborted request ∷ []

  -- From the call of `navigate` to its first `await`.
  unfoldable pub navigate : Browser N → Text → NavigateOptions → ℕ → World N → World N
  unfolding log
  navigate b url options now w =
      let m = w.morpheus in
      let number = suc m.sequence in
      let (taken, promise) =
        take_prefetch (b.cache_key w.location url) now
          (record m { sequence = number; controller = none }) in
      log number (loading_started url ∷ abort_effects m.controller) (record w {
        morpheus = taken;
        navigating = true;
        tasks =
            record {
              number = number;
              url = url;
              options = options;
              phase = awaiting_prefetch promise;
            }
            ∷ w.tasks;
      })

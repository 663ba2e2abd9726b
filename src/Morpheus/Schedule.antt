-- ===== src/Morpheus/Schedule.antt =====
-- Schedules of packages/morpheus/src/morpheus.js: the events that the browser delivers, in any order,
-- to an object of the class with its navigations and prefetches under way.
pub mod Invariant
pub mod Runs
pub mod Cached
use hacienda.Prelude.{
  ℕ, zero, suc, Bool, true, false, Option, none, some, List, [], ◌∷◌, Text, ◌==◌, if◌then◌else◌,
  not, keep_if,
}
use hacienda.Morpheus.State.{Page, Morpheus}
use hacienda.Morpheus.Cache.{prefetch, settle_prefetch, clear_cache}
use hacienda.Morpheus.Fetch.{HttpResponse, Failure, Fetched, page, failed, fetch_page}
use hacienda.Morpheus.View.{Dom, NavigateOptions}
use hacienda.Morpheus.Navigation.{
  Phase, awaiting_prefetch, awaiting_page, awaiting_frame, Task, Browser, World, find_number,
  find_task, catch, arrive, use_prefetched, complete, navigate,
}

-- How `fetch` settles.
pub data Outcome : Type 0 where
  responds : HttpResponse → Outcome
  rejects : Failure → Outcome

pub data Event {ℓ} (N : Type ℓ) : Type ℓ where
  -- A call of `navigate`, from `handleClick` or `handlePopState`, and one of `prefetch`, each with
  -- the time.
  navigated : Text → NavigateOptions → ℕ → Event N
  intended : Text → ℕ → Event N
  -- The request of a prefetch settles, by its number.
  prefetch_settled : ℕ → Outcome → Event N
  -- A navigation goes on, by its number: with what `takePrefetch` gave it, with its page, or with
  -- the next frame. The flag is the answer of `morpheus:before-morph`.
  prefetch_taken : ℕ → Bool → Dom N → Event N
  page_settled : ℕ → Outcome → Bool → Dom N → Event N
  frame_drawn : ℕ → Dom N → Event N
  -- The event `morpheus:invalidate`.
  invalidated : Event N

module _ {ℓ} {N : Type ℓ} (b : Browser N) where
  -- `fetchPage`, for the page that the browser shows now.
  unfoldable pub fetched_page : Text → Outcome → World N → Fetched N
  fetched_page url (responds r) w =
      fetch_page (b.address_of w.location) (b.address_of w.location w.location) b.parse_html
        w.morpheus.target_selector url r
  fetched_page url (rejects failure) w = failed failure

  -- `prefetch`: a new request is one that waits.
  unfoldable pub intend : Text → ℕ → World N → World N
  intend url now w =
      let key = b.cache_key w.location url in
      let (m, promise) = prefetch key now w.morpheus in
      if promise == w.morpheus.next_request
      then record w { morpheus = m; pending = (promise, key) ∷ w.pending }
      else record w { morpheus = m }

  abbrev page_of : Fetched N → Option (Page N)
  page_of (page p) = some p
  page_of (failed failure) = none

  unfoldable pub settle : ℕ → Outcome → World N → World N
  unfolding fetched_page
  settle request outcome w = elim (find_number request w.pending) [
    | none ↦ w
    | some key ↦
        let (m, result) = settle_prefetch key (page_of (fetched_page key outcome w)) w.morpheus in
        record w {
          morpheus = m;
          pending = keep_if (λ e. not (e.0 == request)) w.pending;
          settled = (request, result) ∷ w.settled;
        }
  ]

  -- A promise that has not settled keeps its navigation waiting; none is `await null`.
  unfoldable pub resume_prefetch : Task N → Option ℕ → Bool → Dom N → World N → World N
  resume_prefetch t none accepted dom w = use_prefetched t none accepted dom w
  resume_prefetch t (some request) accepted dom w = elim (find_number request w.settled) [
    | none ↦ w
    | some result ↦ use_prefetched t result accepted dom w
  ]

  unfoldable pub resume_page : Task N → Outcome → Bool → Dom N → World N → World N
  unfolding fetched_page
  resume_page t outcome accepted dom w = elim (fetched_page t.url outcome w) [
    | page p ↦ arrive t p false accepted dom w
    | failed failure ↦ catch t failure w
  ]

  -- An event that finds no navigation waiting for it changes nothing.
  abbrev pub on_prefetch : Task N → Phase N → Bool → Dom N → World N → World N
  on_prefetch t (awaiting_prefetch promise) accepted dom w =
      resume_prefetch t promise accepted dom w
  on_prefetch t _ accepted dom w = w

  abbrev pub on_page : Task N → Phase N → Outcome → Bool → Dom N → World N → World N
  on_page t (awaiting_page request) outcome accepted dom w = resume_page t outcome accepted dom w
  on_page t _ outcome accepted dom w = w

  abbrev pub on_frame : Task N → Phase N → Dom N → World N → World N
  on_frame t (awaiting_frame url prefetched) dom w = complete t url prefetched dom w
  on_frame t _ dom w = w

  unfoldable pub step : Event N → World N → World N
  unfolding intend settle resume_prefetch resume_page
  step (navigated url options now) w = navigate b url options now w
  step (intended url now) w = intend url now w
  step (prefetch_settled request outcome) w = settle request outcome w
  step (prefetch_taken number accepted dom) w = elim (find_task number w.tasks) [
    | none ↦ w
    | some t ↦ on_prefetch t t.phase accepted dom w
  ]
  step (page_settled number outcome accepted dom) w = elim (find_task number w.tasks) [
    | none ↦ w
    | some t ↦ on_page t t.phase outcome accepted dom w
  ]
  step (frame_drawn number dom) w = elim (find_task number w.tasks) [
    | none ↦ w
    | some t ↦ on_frame t t.phase dom w
  ]
  step invalidated w = record w { morpheus = clear_cache w.morpheus }

  unfoldable pub run : List (Event N) → World N → World N
  unfolding step
  run [] w = w
  run (e ∷ events) w = run events (step e w)

-- A world in which nothing has happened yet.
abbrev pub start_world {ℓ} : {N : Type ℓ} → Morpheus → Text → World N
start_world m location = record {
  morpheus = m;
  location = location;
  navigating = false;
  tasks = [];
  pending = [];
  settled = [];
  trace = [];
}

-- ===== src/Morpheus/Schedule/Cached.antt =====
-- Every schedule of packages/morpheus/src/morpheus.js keeps the prefetch cache valid.
use hacienda.Prelude.{
  ℕ, suc, ◌≡◌, refl, inl, inr, Bool, true, false, Option, none, some, List, [], ◌∷◌, Text, ◌==◌,
  arith, Bool-cases, Option-cases,
}
use hacienda.Morpheus.State.{Page, reload, html, page_cacheable}
use hacienda.Morpheus.Cache.{prefetch}
use hacienda.Morpheus.Cache.Bounds.{
  IsValid, Requested-suc, prefetch-IsValid, settle_prefetch-IsValid, take_prefetch-IsValid,
  clear_cache-IsValid,
}
use hacienda.Morpheus.Fetch.{
  text_or, reload_requested, current_target_missing, morph_cancelled, Failure, aborted, fallback,
  network, Fetched, page, failed,
}
use hacienda.Morpheus.View.{Dom, NavigateOptions}
use hacienda.Morpheus.Navigation.{
  Phase, awaiting_prefetch, awaiting_page, awaiting_frame, Task, Browser, World, find_number,
  find_task, finish, fall_back, catch, show_page, arrive, start_fetch, use_prefetched, complete,
  navigate,
}
use hacienda.Morpheus.Schedule.{
  Outcome, Event, navigated, intended, prefetch_settled, prefetch_taken, page_settled, frame_drawn,
  invalidated, fetched_page, page_of, intend, settle, resume_prefetch, resume_page, on_prefetch,
  on_page, on_frame, step, run,
}

module _ {ℓ} {N : Type ℓ} where
  finish-morpheus : (t : Task N) (w : World N) → (finish t w).morpheus ≡ w.morpheus
  unfolding finish
  finish-morpheus t w = ground arith

  fall_back-morpheus :
      (t : Task N) (e : Failure) (w : World N) → (fall_back t e w).morpheus ≡ w.morpheus
  unfolding fall_back
  fall_back-morpheus t e w = ground arith

  catch-morpheus : (t : Task N) (e : Failure) (w : World N) → (catch t e w).morpheus ≡ w.morpheus
  unfolding catch
  catch-morpheus t aborted w = finish-morpheus t w
  catch-morpheus t (fallback url reason) w = fall_back-morpheus t (fallback url reason) w
  catch-morpheus t network w = fall_back-morpheus t network w

  show_page-morpheus :
      (t : Task N) (url : Text) (target : N) (title : Text) (prefetched : Bool) (w : World N)
      → (show_page t url target title prefetched w).morpheus ≡ w.morpheus
  unfolding show_page
  show_page-morpheus t url target title prefetched w = refl

  arrive-morpheus :
      (t : Task N) (p : Page N) (prefetched accepted : Bool) (dom : Dom N) (w : World N)
      → (arrive t p prefetched accepted dom w).morpheus ≡ w.morpheus
  unfolding arrive
  arrive-morpheus t (reload url) prefetched accepted dom w = ground (
    arith,
    finish-morpheus t w,
    fall_back-morpheus t (fallback (text_or (some url) t.url) reload_requested) w,
  )
  arrive-morpheus t (html url target title cacheable) prefetched accepted dom w = ground (
    arith,
    finish-morpheus t w,
    fall_back-morpheus t (fallback url current_target_missing) w,
    fall_back-morpheus t (fallback url morph_cancelled) w,
    show_page-morpheus t url target title prefetched w,
  )

  complete-morpheus :
      (t : Task N) (url : Text) (prefetched : Bool) (dom : Dom N) (w : World N)
      → (complete t url prefetched dom w).morpheus ≡ w.morpheus
  unfolding complete
  complete-morpheus t url prefetched dom w = ground arith

  start_fetch-IsValid :
      (t : Task N) (w : World N) → IsValid w.morpheus → IsValid (start_fetch t w).morpheus
  unfolding start_fetch
  start_fetch-IsValid t w v = record {
    distinct = v.distinct;
    in_limit = v.in_limit;
    requested = Requested-suc w.morpheus.next_request w.morpheus.cache v.requested;
  }

  use_prefetched-IsValid :
      (t : Task N) (result : Option (Page N)) (accepted : Bool) (dom : Dom N) (w : World N)
      → IsValid w.morpheus
      → IsValid (use_prefetched t result accepted dom w).morpheus
  unfolding use_prefetched
  use_prefetched-IsValid t none accepted dom w v = start_fetch-IsValid t w v
  use_prefetched-IsValid t (some p) accepted dom w v = elim (Bool-cases (page_cacheable p)) [
    | inl stored ↦ rw (stored, arrive-morpheus t p true accepted dom w) v
    | inr dropped ↦ rw dropped (start_fetch-IsValid t w v)
  ]

module _ {ℓ} {N : Type ℓ} (b : Browser N) where
  on_prefetch-IsValid :
      (t : Task N) (phase : Phase N) (accepted : Bool) (dom : Dom N) (w : World N)
      → IsValid w.morpheus
      → IsValid (on_prefetch b t phase accepted dom w).morpheus
  unfolding resume_prefetch
  on_prefetch-IsValid t (awaiting_prefetch none) accepted dom w v =
      use_prefetched-IsValid t none accepted dom w v
  on_prefetch-IsValid t (awaiting_prefetch (some request)) accepted dom w v =
      elim (Option-cases (find_number request w.settled)) [
        | inl pending ↦ rw (pending, resume_prefetch) v
        | inr (result, found) ↦
            rw (found, resume_prefetch) (use_prefetched-IsValid t result accepted dom w v)
      ]
  on_prefetch-IsValid t _ accepted dom w v = v

  on_page-morpheus :
      (t : Task N) (phase : Phase N) (outcome : Outcome) (accepted : Bool) (dom : Dom N)
      (w : World N)
      → (on_page b t phase outcome accepted dom w).morpheus ≡ w.morpheus
  unfolding resume_page
  on_page-morpheus t (awaiting_page request) outcome accepted dom w =
      settled (fetched_page b t.url outcome w) refl
    where
      settled :
          (f : Fetched N)
          → fetched_page b t.url outcome w ≡ f
          → (resume_page b t outcome accepted dom w).morpheus ≡ w.morpheus
      settled (page p) e = rw (e, resume_page) (arrive-morpheus t p false accepted dom w)
      settled (failed failure) e = rw (e, resume_page) (catch-morpheus t failure w)
  on_page-morpheus t _ outcome accepted dom w = refl

  on_frame-morpheus :
      (t : Task N) (phase : Phase N) (dom : Dom N) (w : World N)
      → (on_frame b t phase dom w).morpheus ≡ w.morpheus
  on_frame-morpheus t (awaiting_frame url prefetched) dom w =
      complete-morpheus t url prefetched dom w
  on_frame-morpheus t _ dom w = refl

  navigate-IsValid :
      (url : Text) (options : NavigateOptions) (now : ℕ) (w : World N)
      → IsValid w.morpheus
      → IsValid (navigate b url options now w).morpheus
  unfolding navigate
  navigate-IsValid url options now w v =
      take_prefetch-IsValid (b.cache_key w.location url) now
        (record w.morpheus { sequence = suc w.morpheus.sequence; controller = none })
        (record { distinct = v.distinct; in_limit = v.in_limit; requested = v.requested })

  intend-IsValid :
      (url : Text) (now : ℕ) (w : World N)
      → IsValid w.morpheus
      → IsValid (intend b url now w).morpheus
  unfolding intend
  intend-IsValid url now w v =
      let kept = prefetch-IsValid (b.cache_key w.location url) now w.morpheus v in
      elim (Bool-cases
        ((prefetch (b.cache_key w.location url) now w.morpheus).1 == w.morpheus.next_request)) [
          | inl new ↦ rw new kept
          | inr old ↦ rw old kept
        ]

  settle-IsValid :
      (request : ℕ) (outcome : Outcome) (w : World N)
      → IsValid w.morpheus
      → IsValid (settle b request outcome w).morpheus
  unfolding settle
  settle-IsValid request outcome w v = elim (Option-cases (find_number request w.pending)) [
    | inl absent ↦ rw (absent, settle) v
    | inr (key, found) ↦
        rw (found, settle)
          (settle_prefetch-IsValid key (page_of b (fetched_page b key outcome w)) w.morpheus v)
  ]

  step-IsValid : (e : Event N) (w : World N) → IsValid w.morpheus → IsValid (step b e w).morpheus
  unfolding step
  step-IsValid (navigated url options now) w v = navigate-IsValid url options now w v
  step-IsValid (intended url now) w v = intend-IsValid url now w v
  step-IsValid (prefetch_settled request outcome) w v = settle-IsValid request outcome w v
  step-IsValid (prefetch_taken number accepted dom) w v =
      elim (Option-cases (find_task number w.tasks)) [
        | inl absent ↦ rw (absent, step) v
        | inr (t, found) ↦ rw (found, step) (on_prefetch-IsValid t t.phase accepted dom w v)
      ]
  step-IsValid (page_settled number outcome accepted dom) w v =
      elim (Option-cases (find_task number w.tasks)) [
        | inl absent ↦ rw (absent, step) v
        | inr (t, found) ↦
            rw (found, step) (rw (on_page-morpheus t t.phase outcome accepted dom w) v)
      ]
  step-IsValid (frame_drawn number dom) w v = elim (Option-cases (find_task number w.tasks)) [
    | inl absent ↦ rw (absent, step) v
    | inr (t, found) ↦ rw (found, step) (rw (on_frame-morpheus t t.phase dom w) v)
  ]
  step-IsValid invalidated w v = clear_cache-IsValid w.morpheus v

  -- In every schedule the prefetch cache stays valid: no key twice, never more entries than the
  -- limit if that is a number, and only promises of requests that were started.
  pub run-IsValid :
      (events : List (Event N)) (w : World N)
      → IsValid w.morpheus
      → IsValid (run b events w).morpheus
  unfolding run
  run-IsValid [] w v = v
  run-IsValid (e ∷ events) w v = run-IsValid events (step b e w) (step-IsValid e w v)

-- ===== src/Morpheus/Schedule/Runs.antt =====
-- Every schedule of packages/morpheus/src/morpheus.js keeps the world consistent.
use hacienda.Prelude.{
  ℕ, ◌≤◌, ◌≡◌, refl, inl, inr, Bool, true, false, none, some, List, [], ◌∷◌, Text, ◌==◌, All, arith,
  Bool-cases, Option-cases,
}
use hacienda.Morpheus.Cache.{prefetch, clear_cache}
use hacienda.Morpheus.Fetch.{Fetched, page, failed}
use hacienda.Morpheus.View.{Dom}
use hacienda.Morpheus.Navigation.{
  Phase, awaiting_prefetch, awaiting_page, awaiting_frame, Task, Browser, World, find_number,
  find_task,
}
use hacienda.Morpheus.Schedule.{
  Outcome, Event, navigated, intended, prefetch_settled, prefetch_taken, page_settled, frame_drawn,
  invalidated, fetched_page, intend, settle, resume_prefetch, resume_page, on_prefetch, on_page,
  on_frame, step, run,
}
use hacienda.Morpheus.Schedule.Invariant.{
  has_task, IsConsistent, Waits, cached-IsConsistent, catch-IsConsistent, arrive-IsConsistent,
  use_prefetched-IsConsistent, complete-IsConsistent, navigate-IsConsistent, if-IsConsistent,
  prefetch-sequence, settle_prefetch-sequence,
}

module _ {ℓ} {N : Type ℓ} where
  find_task-number :
      (n : ℕ) (ts : List (Task N)) {t : Task N}
      → find_task n ts ≡ some t
      → (t.number ≡ n) × (has_task n ts ≡ true)
  find_task-number n [] h = cc
  find_task-number n (s ∷ ts) {t} h = elim (Bool-cases (s.number == n)) [
    | inl here ↦ (ground arith, ground arith)
    | inr there ↦
        let rest = find_task-number n ts {t = t} (rw there at h) in (rest.0, rw there rest.1)
  ]

  has_task-le :
      (n m : ℕ) (ts : List (Task N))
      → has_task n ts ≡ true
      → All (λ (t : Task N). t.number ≤ m) ts
      → n ≤ m
  has_task-le n m [] h a = cc
  has_task-le n m (t ∷ ts) h a = ground (arith, has_task-le n m ts)

  find_task-Waits :
      (n : ℕ) (w : World N) {t : Task N} → find_task n w.tasks ≡ some t → IsConsistent w → Waits t w
  find_task-Waits n w {t} h c =
      let (e, found) = find_task-number n w.tasks {t = t} h in
      record {
        waiting = rw e found;
        started = rw e (has_task-le n w.morpheus.sequence w.tasks found c.bounded);
      }

module _ {ℓ} {N : Type ℓ} (b : Browser N) where
  intend-IsConsistent :
      (url : Text) (now : ℕ) (w : World N) → IsConsistent w → IsConsistent (intend b url now w)
  unfolding intend
  intend-IsConsistent url now w c =
      let r = prefetch (b.cache_key w.location url) now w.morpheus in
      let e = prefetch-sequence (b.cache_key w.location url) now w.morpheus in
      if-IsConsistent (r.1 == w.morpheus.next_request)
        (λ _.
          cached-IsConsistent r.0 ((r.1, b.cache_key w.location url) ∷ w.pending) w.settled w e c)
        (cached-IsConsistent r.0 w.pending w.settled w e c)

  settle-IsConsistent :
      (request : ℕ) (outcome : Outcome) (w : World N)
      → IsConsistent w
      → IsConsistent (settle b request outcome w)
  unfolding settle
  settle-IsConsistent request outcome w c = elim (Option-cases (find_number request w.pending)) [
    | inl absent ↦ rw (absent, settle) c
    | inr (key, found) ↦
        rw (found, settle)
          (cached-IsConsistent _ _ _ w (settle_prefetch-sequence key _ w.morpheus) c)
  ]

  on_prefetch-IsConsistent :
      (t : Task N) (phase : Phase N) (accepted : Bool) (dom : Dom N) (w : World N)
      → Waits t w
      → IsConsistent w
      → IsConsistent (on_prefetch b t phase accepted dom w)
  unfolding resume_prefetch
  on_prefetch-IsConsistent t (awaiting_prefetch none) accepted dom w h c =
      use_prefetched-IsConsistent t none accepted dom w h c
  on_prefetch-IsConsistent t (awaiting_prefetch (some request)) accepted dom w h c =
      elim (Option-cases (find_number request w.settled)) [
        | inl pending ↦ rw (pending, resume_prefetch) c
        | inr (result, found) ↦
            rw (found, resume_prefetch) (use_prefetched-IsConsistent t result accepted dom w h c)
      ]
  on_prefetch-IsConsistent t _ accepted dom w h c = c

  on_page-IsConsistent :
      (t : Task N) (phase : Phase N) (outcome : Outcome) (accepted : Bool) (dom : Dom N)
      (w : World N)
      → Waits t w
      → IsConsistent w
      → IsConsistent (on_page b t phase outcome accepted dom w)
  unfolding resume_page
  on_page-IsConsistent t (awaiting_page request) outcome accepted dom w h c =
      settled (fetched_page b t.url outcome w) refl
    where
      settled :
          (f : Fetched N)
          → fetched_page b t.url outcome w ≡ f
          → IsConsistent (resume_page b t outcome accepted dom w)
      settled (page p) e = rw (e, resume_page) (arrive-IsConsistent t p false accepted dom w h c)
      settled (failed failure) e = rw (e, resume_page) (catch-IsConsistent t failure w c)
  on_page-IsConsistent t _ outcome accepted dom w h c = c

  on_frame-IsConsistent :
      (t : Task N) (phase : Phase N) (dom : Dom N) (w : World N)
      → IsConsistent w
      → IsConsistent (on_frame b t phase dom w)
  on_frame-IsConsistent t (awaiting_frame url prefetched) dom w c =
      complete-IsConsistent t url prefetched dom w c
  on_frame-IsConsistent t _ dom w c = c

  step-IsConsistent : (e : Event N) (w : World N) → IsConsistent w → IsConsistent (step b e w)
  unfolding step
  step-IsConsistent (navigated url options now) w c = navigate-IsConsistent b url options now w c
  step-IsConsistent (intended url now) w c = intend-IsConsistent url now w c
  step-IsConsistent (prefetch_settled request outcome) w c = settle-IsConsistent request outcome w c
  step-IsConsistent (prefetch_taken number accepted dom) w c =
      elim (Option-cases (find_task number w.tasks)) [
        | inl absent ↦ rw (absent, step) c
        | inr (t, found) ↦
            rw (found, step)
              (on_prefetch-IsConsistent t t.phase accepted dom w (find_task-Waits number w found c)
                c)
      ]
  step-IsConsistent (page_settled number outcome accepted dom) w c =
      elim (Option-cases (find_task number w.tasks)) [
        | inl absent ↦ rw (absent, step) c
        | inr (t, found) ↦
            rw (found, step)
              (on_page-IsConsistent t t.phase outcome accepted dom w
                (find_task-Waits number w found c) c)
      ]
  step-IsConsistent (frame_drawn number dom) w c = elim (Option-cases (find_task number w.tasks)) [
    | inl absent ↦ rw (absent, step) c
    | inr (t, found) ↦ rw (found, step) (on_frame-IsConsistent t t.phase dom w c)
  ]
  step-IsConsistent invalidated w c =
      cached-IsConsistent (clear_cache w.morpheus) w.pending w.settled w
        (unfold clear_cache in refl) c

  -- In every schedule, from any object and page, at most the newest navigation shows itself as
  -- loading, and what a user sees is never done by a navigation that a newer one has superseded.
  pub run-IsConsistent :
      (events : List (Event N)) (w : World N) → IsConsistent w → IsConsistent (run b events w)
  unfolding run
  run-IsConsistent [] w c = c
  run-IsConsistent (e ∷ events) w c = run-IsConsistent events (step b e w) (step-IsConsistent e w c)

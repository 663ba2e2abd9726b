-- ===== src/Morpheus/Schedule/Invariant.antt =====
-- What holds in every schedule of packages/morpheus/src/morpheus.js.
use hacienda.Prelude.{
  ℕ, suc, ◌≤◌, ◌≡◌, refl, inl, inr, Bool, true, false, Option, none, some, List, [], ◌∷◌, ◌++◌,
  Text, ◌==◌, if◌then◌else◌, map, All, arith, Bool-cases, Option-cases, ==_iff, ==_refl, sym, ◌∙◌,
}
use hacienda.Morpheus.State.{Page, reload, html, page_cacheable, Morpheus}
use hacienda.Morpheus.Cache.{prefetch, settle_prefetch, take_prefetch}
use hacienda.Morpheus.Fetch.{
  text_or, reload_requested, current_target_missing, morph_cancelled, Failure, aborted, fallback,
  network,
}
use hacienda.Morpheus.View.{Dom, NavigateOptions}
use hacienda.Morpheus.Navigation.{
  Phase, awaiting_prefetch, awaiting_page, awaiting_frame, Task, Effect, loading_started,
  request_aborted, requested, abort_effects, full_load, navigation_error, morphed, fallback_url,
  is_pop, update_history, Browser, World, log, is_current, without, await, finish, fall_back, catch,
  show_page, arrive, start_fetch, use_prefetched, complete, completed_effects, navigate,
}

-- What a user can see: all but the start and the abort of a request.
abbrev pub is_visible {ℓ} : {N : Type ℓ} → Effect N → Bool
is_visible (requested request url) = false
is_visible (request_aborted request) = false
is_visible _ = true

take_prefetch-sequence :
    (key : Text) (now : ℕ) (m : Morpheus) → (take_prefetch key now m).0.sequence ≡ m.sequence
unfolding take_prefetch
take_prefetch-sequence key now m = ground arith

pub prefetch-sequence :
    (key : Text) (now : ℕ) (m : Morpheus) → (prefetch key now m).0.sequence ≡ m.sequence
unfolding prefetch
prefetch-sequence key now m = ground arith

pub settle_prefetch-sequence {ℓ} :
    {N : Type ℓ} (key : Text) (result : Option (Page N)) (m : Morpheus)
    → (settle_prefetch key result m).0.sequence ≡ m.sequence
unfolding settle_prefetch
settle_prefetch-sequence key none m = refl
settle_prefetch-sequence key (some p) m = ground arith

module _ {ℓ} {N : Type ℓ} where
  abbrev pub has_task : ℕ → List (Task N) → Bool
  has_task n [] = false
  has_task n (t ∷ ts) = if t.number == n then true else has_task n ts

  -- All that was done, was done by navigations up to this one.
  abbrev pub UpTo : ℕ → List (ℕ × Effect N) → Type 0
  UpTo n = All (λ e. e.0 ≤ n)

  -- What a user sees is done by the newest of the navigations that have done anything so far; the
  -- newest entry stands first.
  abbrev pub Ordered : List (ℕ × Effect N) → Type 0
  Ordered [] = Unit
  Ordered ((n, e) ∷ trace) = (is_visible e ≡ true → UpTo n trace) × Ordered trace

  pub record IsConsistent (w : World N) : Type 0 where
    -- The page is marked as loading exactly while the newest navigation is under way.
    pub shown : w.navigating ≡ has_task w.morpheus.sequence w.tasks
    pub bounded : All (λ (t : Task N). t.number ≤ w.morpheus.sequence) w.tasks
    pub past : UpTo w.morpheus.sequence w.trace
    pub ordered : Ordered w.trace

  has_task-without_self : (n : ℕ) (ts : List (Task N)) → has_task n (without n ts) ≡ false
  has_task-without_self n [] = refl
  has_task-without_self n (t ∷ ts) = ground (arith, has_task-without_self n ts)

  has_task-without_ne :
      (m n : ℕ) (ts : List (Task N)) → (n == m) ≡ false → has_task m (without n ts) ≡ has_task m ts
  has_task-without_ne m n [] h = refl
  has_task-without_ne m n (t ∷ ts) h = ground (arith, has_task-without_ne m n ts)

  bounded-without :
      (m n : ℕ) (ts : List (Task N))
      → All (λ (t : Task N). t.number ≤ m) ts
      → All (λ (t : Task N). t.number ≤ m) (without n ts)
  bounded-without m n [] h = tt
  bounded-without m n (t ∷ ts) h = ground (arith, bounded-without m n ts)

  UpTo-log :
      (n m : ℕ) (es : List (Effect N)) (trace : List (ℕ × Effect N))
      → n ≤ m
      → UpTo m trace
      → UpTo m (map (λ e. (n, e)) es ++ trace)
  UpTo-log n m [] trace h u = u
  UpTo-log n m (e ∷ es) trace h u = (h, UpTo-log n m es trace h u)

  Ordered-log :
      (n : ℕ) (es : List (Effect N)) (trace : List (ℕ × Effect N))
      → UpTo n trace
      → Ordered trace
      → Ordered (map (λ e. (n, e)) es ++ trace)
  Ordered-log n [] trace u o = o
  Ordered-log n (e ∷ es) trace u o =
      (λ _. UpTo-log n n es trace (omega arith) u, Ordered-log n es trace u o)

  -- The newest navigation may do anything.
  pub log-IsConsistent :
      (n : ℕ) (es : List (Effect N)) (w : World N)
      → n ≡ w.morpheus.sequence
      → IsConsistent w
      → IsConsistent (log n es w)
  unfolding log
  log-IsConsistent n es w e c = record {
    shown = c.shown;
    bounded = c.bounded;
    past = UpTo-log n w.morpheus.sequence es w.trace (omega arith) c.past;
    ordered = Ordered-log n es w.trace (rw e c.past) c.ordered;
  }

  pub record Waits (t : Task N) (w : World N) : Type 0 where
    pub waiting : has_task t.number w.tasks ≡ true
    pub started : t.number ≤ w.morpheus.sequence

  pub await-IsConsistent :
      (t : Task N) (phase : Phase N) (w : World N)
      → Waits t w
      → IsConsistent w
      → IsConsistent (await t phase w)
  unfolding await
  await-IsConsistent t phase w h c = record {
    shown = ground (
      arith,
      has_task-without_ne w.morpheus.sequence t.number w.tasks,
      ==_iff t.number w.morpheus.sequence,
    );
    bounded = (h.started, bounded-without w.morpheus.sequence t.number w.tasks c.bounded);
    past = c.past;
    ordered = c.ordered;
  }

  pub finish-IsConsistent : (t : Task N) (w : World N) → IsConsistent w → IsConsistent (finish t w)
  unfolding finish
  finish-IsConsistent t w c = elim (Bool-cases (t.number == w.morpheus.sequence)) [
    | inl current ↦ rw current (record {
      shown = ground (
        arith,
        has_task-without_self t.number w.tasks,
        (==_iff t.number w.morpheus.sequence).0 current,
      );
      bounded = bounded-without w.morpheus.sequence t.number w.tasks c.bounded;
      past = (omega (arith, (==_iff t.number w.morpheus.sequence).0 current), c.past);
      ordered = (λ _. rw ((==_iff t.number w.morpheus.sequence).0 current) c.past, c.ordered);
    })
    | inr stale ↦ rw stale (record {
      shown = c.shown ∙ sym (has_task-without_ne w.morpheus.sequence t.number w.tasks stale);
      bounded = bounded-without w.morpheus.sequence t.number w.tasks c.bounded;
      past = c.past;
      ordered = c.ordered;
    })
  ]

  -- Whatever the current navigation logs before it ends.
  finish-log-IsConsistent :
      (t : Task N) (es : List (Effect N)) (w : World N)
      → IsConsistent w
      → IsConsistent (finish t (if is_current t w then log t.number es w else w))
  unfolding is_current
  finish-log-IsConsistent t es w c = elim (Bool-cases (t.number == w.morpheus.sequence)) [
    | inl current ↦ rw current (
        finish-IsConsistent t (log t.number es w)
          (log-IsConsistent t.number es w ((==_iff t.number w.morpheus.sequence).0 current) c))
    | inr stale ↦ rw stale (finish-IsConsistent t w c)
  ]

  pub fall_back-IsConsistent :
      (t : Task N) (failure : Failure) (w : World N)
      → IsConsistent w
      → IsConsistent (fall_back t failure w)
  unfolding fall_back
  fall_back-IsConsistent t failure w c =
      finish-log-IsConsistent t
        (full_load (fallback_url t failure) (is_pop t.options.history_mode)
          ∷ navigation_error (fallback_url t failure) failure
          ∷ [])
        w c

  pub catch-IsConsistent :
      (t : Task N) (failure : Failure) (w : World N)
      → IsConsistent w
      → IsConsistent (catch t failure w)
  unfolding catch
  catch-IsConsistent t aborted w c = finish-IsConsistent t w c
  catch-IsConsistent t (fallback url reason) w c =
      fall_back-IsConsistent t (fallback url reason) w c
  catch-IsConsistent t network w c = fall_back-IsConsistent t network w c

  pub moved-IsConsistent :
      (w : World N) (location : Text)
      → IsConsistent w
      → IsConsistent (record w { location = location })
  moved-IsConsistent w location c = record {
    shown = c.shown;
    bounded = c.bounded;
    past = c.past;
    ordered = c.ordered;
  }

  pub show_page-IsConsistent :
      (t : Task N) (url : Text) (target : N) (title : Text) (prefetched : Bool) (w : World N)
      → t.number ≡ w.morpheus.sequence
      → Waits t w
      → IsConsistent w
      → IsConsistent (show_page t url target title prefetched w)
  unfolding show_page
  show_page-IsConsistent t url target title prefetched w e h c =
      let (effects, location) = update_history {N = N} url t.options.history_mode w.location in
      let moved = record w { location = location } in
      let es = effects ++ morphed target title ∷ [] in
      await-IsConsistent t (awaiting_frame url prefetched) (log t.number es moved)
        (unfold log in record { waiting = h.waiting; started = h.started })
        (log-IsConsistent t.number es moved e (moved-IsConsistent w location c))

  pub if-IsConsistent :
      (b : Bool) {x y : World N}
      → (b ≡ true → IsConsistent x)
      → IsConsistent y
      → IsConsistent (if b then x else y)
  if-IsConsistent true hx hy = hx refl
  if-IsConsistent false hx hy = hy

  pub arrive-IsConsistent :
      (t : Task N) (p : Page N) (prefetched accepted : Bool) (dom : Dom N) (w : World N)
      → Waits t w
      → IsConsistent w
      → IsConsistent (arrive t p prefetched accepted dom w)
  unfolding arrive
  arrive-IsConsistent t (reload url) prefetched accepted dom w h c =
      if-IsConsistent (t.number == w.morpheus.sequence)
        (λ _. fall_back-IsConsistent t (fallback (text_or (some url) t.url) reload_requested) w c)
        (finish-IsConsistent t w c)
  arrive-IsConsistent t (html url target title cacheable) prefetched accepted dom w h c =
      if-IsConsistent (t.number == w.morpheus.sequence)
        (λ current.
          if-IsConsistent accepted
            (λ _. elim (Option-cases (dom.find w.morpheus.target_selector)) [
              | inl missing ↦
                  rw (missing, arrive)
                    (catch-IsConsistent t (fallback url current_target_missing) w c)
              | inr (node, found) ↦
                  rw (found, arrive)
                    (show_page-IsConsistent t url target title prefetched w
                      ((==_iff t.number w.morpheus.sequence).0 current) h c)
            ])
            (fall_back-IsConsistent t (fallback url morph_cancelled) w c))
        (finish-IsConsistent t w c)

  UpTo-mono : (m n : ℕ) (trace : List (ℕ × Effect N)) → m ≤ n → UpTo m trace → UpTo n trace
  UpTo-mono m n [] h u = tt
  UpTo-mono m n (e ∷ trace) h u = (omega arith, UpTo-mono m n trace h u.1)

  bounded_mono :
      (m n : ℕ) (ts : List (Task N))
      → m ≤ n
      → All (λ (t : Task N). t.number ≤ m) ts
      → All (λ (t : Task N). t.number ≤ n) ts
  bounded_mono m n [] h u = tt
  bounded_mono m n (t ∷ ts) h u = (omega arith, bounded_mono m n ts h u.1)

  pub start_fetch-IsConsistent :
      (t : Task N) (w : World N) → Waits t w → IsConsistent w → IsConsistent (start_fetch t w)
  unfolding start_fetch
  start_fetch-IsConsistent t w h c =
      let m = w.morpheus in
      let sent : World N = record w {
        morpheus = record m { controller = some m.next_request; next_request = suc m.next_request };
        trace = (t.number, requested m.next_request t.url) ∷ w.trace;
      } in
      await-IsConsistent t (awaiting_page m.next_request) sent
        (record { waiting = h.waiting; started = h.started })
        (record {
          shown = c.shown;
          bounded = c.bounded;
          past = (h.started, c.past);
          ordered = (λ seen. cc, c.ordered);
        })

  pub use_prefetched-IsConsistent :
      (t : Task N) (result : Option (Page N)) (accepted : Bool) (dom : Dom N) (w : World N)
      → Waits t w
      → IsConsistent w
      → IsConsistent (use_prefetched t result accepted dom w)
  unfolding use_prefetched
  use_prefetched-IsConsistent t none accepted dom w h c = start_fetch-IsConsistent t w h c
  use_prefetched-IsConsistent t (some p) accepted dom w h c =
      if-IsConsistent (page_cacheable p) (λ _. arrive-IsConsistent t p true accepted dom w h c)
        (start_fetch-IsConsistent t w h c)

  pub complete-IsConsistent :
      (t : Task N) (url : Text) (prefetched : Bool) (dom : Dom N) (w : World N)
      → IsConsistent w
      → IsConsistent (complete t url prefetched dom w)
  unfolding complete
  complete-IsConsistent t url prefetched dom w c =
      finish-log-IsConsistent t (completed_effects t url prefetched dom w) w c

  pub navigate-IsConsistent :
      (b : Browser N) (url : Text) (options : NavigateOptions) (now : ℕ) (w : World N)
      → IsConsistent w
      → IsConsistent (navigate b url options now w)
  unfolding navigate
  navigate-IsConsistent b url options now w c =
      let n = suc w.morpheus.sequence in
      let m = record w.morpheus { sequence = n; controller = none } in
      let taken = take_prefetch (b.cache_key w.location url) now m in
      let t : Task N = record {
        number = n;
        url = url;
        options = options;
        phase = awaiting_prefetch taken.1;
      } in
      let w' : World N = record w { morpheus = taken.0; navigating = true; tasks = t ∷ w.tasks } in
      let e = take_prefetch-sequence (b.cache_key w.location url) now m in
      log-IsConsistent n (loading_started url ∷ abort_effects w.morpheus.controller) w' (sym e)
        (record {
          shown = rw (e, ==_refl n);
          bounded = (
            omega (arith, e),
            bounded_mono w.morpheus.sequence taken.0.sequence w.tasks (omega (arith, e)) c.bounded,
          );
          past = UpTo-mono w.morpheus.sequence taken.0.sequence w.trace (omega (arith, e)) c.past;
          ordered = c.ordered;
        })

  -- The cache and the prefetches are no part of what is consistent.
  pub cached-IsConsistent :
      (m : Morpheus) (pending : List (ℕ × Text)) (settled : List (ℕ × Option (Page N)))
      (w : World N)
      → m.sequence ≡ w.morpheus.sequence
      → IsConsistent w
      → IsConsistent (record w { morpheus = m; pending = pending; settled = settled })
  cached-IsConsistent m pending settled w e c = record {
    shown = rw e c.shown;
    bounded = rw e c.bounded;
    past = rw e c.past;
    ordered = c.ordered;
  }

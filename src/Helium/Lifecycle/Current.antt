-- ===== src/Helium/Lifecycle/Current.antt =====
-- Which run of `helium` in lib/lunula/assets/helium.js may act.
use hacienda.Prelude.{
  ℕ, suc, ◌≤◌, ◌≡◌, refl, ap, sym, ◌∙◌, inl, inr, not, Option, none, some, List, [], ◌∷◌, ◌==◌,
  ==_refl, keep_if, In, arith, subst, Bool-cases,
}
use hacienda.Helium.Lifecycle.{
  Runtime, is_current, dispose, start, start_without_root, resume, teardown, Step, starts,
  finds_no_root, resumes, tears_down, Reach, here, next,
}

abbrev pub observed : Option ℕ → List ℕ
observed none = []
observed (some i) = i ∷ []

-- The observer of the instance is the one that is connected, no run is ahead of the generations, and
-- the run that is current made the instance.
pub record IsSafe (s : Runtime) : Type 0 where
  pub one_observer : s.connected ≡ observed s.instance_of
  pub in_order : (g : ℕ) → In g s.started → g ≤ s.generation
  pub has_instance : In s.generation s.started → s.instance_of ≡ some s.generation

connected-dispose : (s : Runtime) → IsSafe s → (dispose s.instance_of s).connected ≡ []
unfolding dispose
connected-dispose s h = by_instance s.instance_of h.one_observer
  where
    by_instance : (o : Option ℕ) → s.connected ≡ observed o → (dispose o s).connected ≡ []
    by_instance none e = e
    by_instance (some i) e = ap (keep_if (λ j. not (i == j))) e ∙ rw (==_refl i) refl

IsSafe-start : (s : Runtime) → IsSafe s → IsSafe (start s)
unfolding start
IsSafe-start s h = record {
  one_observer = ap (λ c. suc s.generation ∷ c) (connected-dispose s h);
  in_order = λ g i. elim i [ inl e ↦ omega (arith, e) | inr j ↦ omega (arith, h.in_order g j) ];
  has_instance = λ i. refl;
}

IsSafe-start_without_root : (s : Runtime) → IsSafe s → IsSafe (start_without_root s)
IsSafe-start_without_root s h = record {
  one_observer = h.one_observer;
  in_order = λ g i. omega (arith, h.in_order g i);
  has_instance = λ i. absurd (omega (arith, h.in_order (suc s.generation) i));
}

IsSafe-teardown : (s : Runtime) → IsSafe s → IsSafe (teardown s)
unfolding teardown
IsSafe-teardown s h = record {
  one_observer = connected-dispose s h;
  in_order = by_started s.instance_of;
  has_instance = λ i. absurd (omega (arith, h.in_order (suc s.generation) (same s.instance_of i)));
}
  where
    same :
        (o : Option ℕ)
        → In (suc s.generation) (dispose o s).started
        → In (suc s.generation) s.started
    same none i = i
    same (some j) i = i

    by_started : (o : Option ℕ) (g : ℕ) → In g (dispose o s).started → g ≤ suc s.generation
    by_started none g i = omega (arith, h.in_order g i)
    by_started (some j) g i = omega (arith, h.in_order g i)

IsSafe-resume : (g : ℕ) (s : Runtime) → IsSafe s → IsSafe (resume g s)
IsSafe-resume g s h = elim (Bool-cases (is_current g s)) [
  | inl e ↦ rw e (record {
    one_observer = h.one_observer;
    in_order = h.in_order;
    has_instance = h.has_instance;
  })
  | inr e ↦ rw e h
]

Step-IsSafe : (s t : Runtime) → Step s t → IsSafe s → IsSafe t
Step-IsSafe s t (starts e) h = subst IsSafe (sym e) (IsSafe-start s h)
Step-IsSafe s t (finds_no_root e) h = subst IsSafe (sym e) (IsSafe-start_without_root s h)
Step-IsSafe s t (resumes g i e) h = subst IsSafe (sym e) (IsSafe-resume g s h)
Step-IsSafe s t (tears_down e) h = subst IsSafe (sym e) (IsSafe-teardown s h)

-- In every state that calls of `helium` and `heliumTeardown` lead to, in any order with what runs
-- later, at most one observer is connected, that of `HELIUM`, and a run that is current, so that it may
-- still act, finds in `HELIUM` the instance that it made.
pub Reach-IsSafe : (s : Runtime) → Reach s → IsSafe s
Reach-IsSafe s here = record {
  one_observer = refl;
  in_order = λ g i. elim i [ ];
  has_instance = λ i. elim i [ ];
}
Reach-IsSafe t (next {s = s} r step) = Step-IsSafe s t step (Reach-IsSafe s r)

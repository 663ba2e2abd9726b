-- ===== src/Helium/Lifecycle.antt =====
-- The life of an instance that `createHelium` of lib/lunula/assets/helium.js makes: the generations,
-- `HELIUM`, and what runs later. A run of `helium` is known by its generation.
pub mod Current
use hacienda.Prelude.{
  ℕ, zero, suc, ◌+◌, Bool, true, false, not, Option, none, some, List, [], ◌∷◌, ◌++◌, ◌≡◌, ◌==◌,
  keep_if, if◌then◌else◌, In,
}

pub record Runtime : Type 0 where
  pub generation : ℕ
  -- `HELIUM`, by the run that made it.
  pub instance_of : Option ℕ
  -- The runs whose observers are connected.
  pub connected : List ℕ
  -- The runs that started, which go on behind their `await` and have callbacks.
  pub started : List ℕ
  -- The runs whose root was cleaned up.
  pub cleaned : List ℕ
  -- The runs whose first bindings were applied, and whose observers did something.
  pub applied : List ℕ

abbrev pub is_current : ℕ → Runtime → Bool
is_current g s = g == s.generation

-- `HELIUM.observer?.disconnect()` and `HELIUM.cleanup?.(HELIUM.root)`.
unfoldable pub dispose : Option ℕ → Runtime → Runtime
dispose none s = s
dispose (some i) s = record s {
  connected = keep_if (λ j. not (i == j)) s.connected;
  cleaned = i ∷ s.cleaned;
}

-- `helium` up to its `await`, where a root is found; its observer is connected by then.
unfoldable pub start : Runtime → Runtime
unfolding dispose
start s =
    let g = suc s.generation in
    let t = dispose s.instance_of s in
    record t {
      generation = g;
      instance_of = some g;
      connected = g ∷ t.connected;
      started = g ∷ s.started;
    }

-- It throws before it takes the old instance down.
abbrev pub start_without_root : Runtime → Runtime
start_without_root s = record s { generation = suc s.generation }

-- What stands behind the `await`, or a callback of the observer: nothing if the run is not current.
abbrev pub resume : ℕ → Runtime → Runtime
resume g s = if is_current g s then record s { applied = g ∷ s.applied } else s

-- `heliumTeardown`.
unfoldable pub teardown : Runtime → Runtime
unfolding dispose
teardown s =
    let t = dispose s.instance_of s in
    record t { generation = suc s.generation; instance_of = none }

pub data Step (s t : Runtime) : Type 0 where
  starts : t ≡ start s → Step s t
  finds_no_root : t ≡ start_without_root s → Step s t
  resumes : (g : ℕ) → In g s.started → t ≡ resume g s → Step s t
  tears_down : t ≡ teardown s → Step s t

abbrev pub fresh_runtime : Runtime
fresh_runtime = record {
  generation = 0;
  instance_of = none;
  connected = [];
  started = [];
  cleaned = [];
  applied = [];
}

pub data Reach : Runtime → Type 0 where
  here : Reach fresh_runtime
  next : {s t : Runtime} → Reach s → Step s t → Reach t

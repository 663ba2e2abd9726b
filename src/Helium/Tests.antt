-- ===== src/Helium/Tests.antt =====
-- The theorems of Helium at concrete inputs.
use hacienda.Prelude.{
  ℕ, zero, suc, ◌≡◌, ◌↔◌, ◌⊎◌, inl, inr, refl, List, [], ◌∷◌, Option, none, some, codes, true,
  false, includes, map_get, map_get-map_set, ◌===◌, ◌==◌, Bool-cases, In, starts_with,
}
use hacienda.Helium.Requests.{post, Params, object, omit, request}
use hacienda.Helium.Requests.Origins.{request_origin}
use hacienda.Helium.Updates.{Target, node, name, Effect}
use hacienda.Helium.Directives.{Element, directive_of}
use hacienda.Helium.Directives.Aliases.{directive_of-both}
use hacienda.Helium.Events.{DomEvent, handle, is_key_mod}
use hacienda.Helium.Events.Order.{handle-swap}
use hacienda.HeliumCsp.Strings.{is_space}
use hacienda.Helium.Apply.{apply_classes, class_tokens}
use hacienda.Helium.Apply.Classes.{apply_classes-includes}
use hacienda.Helium.Scopes.{
  Heap, Objects, Reflection, set_key, undefined, primitive, scoped_get, scoped_set,
}
use hacienda.Helium.Scopes.Shadowing.{Leaves, scoped_get-scoped_set}
use hacienda.HeliumCsp.Startup.{run_mount, run_helium_teardown}
use hacienda.Helium.Startup.{
  disable_default, auto_init, turbo_render, mount, load_default, default_run,
}
use hacienda.Helium.Startup.Disabled.{default_run-disabled}
use hacienda.Helium.Lifecycle.{
  Runtime, resume, start, teardown, fresh_runtime, here, next, starts, tears_down, resumes,
}
use hacienda.Helium.Lifecycle.Current.{IsSafe, Reach-IsSafe}
use hacienda.Helium.Changes.{Edge, changed_keys}
use hacienda.Helium.Changes.Ancestors.{AboveEdge}
use hacienda.Helium.Changes.Keys.{changed_keys-above}
use hacienda.Helium.Bindings.{Binding, Table, bindings_of, update_binding_dependencies}
use hacienda.Helium.Bindings.Upkeep.{bindings_of-update_binding_dependencies}

-- A loop that depends on `items`, next to another binding.
abbrev loop_binding : Binding
loop_binding = record {
  number = 1;
  calc = false;
  loop = true;
  cond = false;
  dependencies = codes "items" ∷ [];
}

abbrev two_bindings : Table
two_bindings = (codes "items", 1 ∷ 2 ∷ []) ∷ (codes "page", 3 ∷ []) ∷ []

bindings_of-update_binding_dependencies_example :
    bindings_of
      (codes "page")
      (update_binding_dependencies loop_binding (codes "page" ∷ []) two_bindings).1
    ≡ 1 ∷ 3 ∷ []
unfolding includes map_get ◌===◌
bindings_of-update_binding_dependencies_example =
    bindings_of-update_binding_dependencies loop_binding (codes "page" ∷ []) two_bindings
      (codes "page")

-- A request to another origin than the page's.
abbrev first_letter : List ℕ → List ℕ
first_letter [] = []
first_letter (c ∷ s) = c ∷ []

abbrev no_text : Params (List ℕ) → List ℕ
no_text p = []

request_origin_example :
    (map_get
        (codes "X-CSRF-Token")
        (request first_letter
          (λ v. v)
          no_text
          (codes "a/x")
          (codes "b/y")
          post
          (object [])
          (some (codes "t"))
          none).headers
      ≡ none)
    × ((request first_letter
          (λ v. v)
          no_text
          (codes "a/x")
          (codes "b/y")
          post
          (object [])
          (some (codes "t"))
          none).credentials
        ≡ omit)
unfolding map_get ◌===◌
request_origin_example =
    request_origin first_letter (λ v. v) no_text (codes "a/x") (codes "b/y") post (object [])
      (some (codes "t")) none

abbrev no_node : List Effect → List ℕ → Option ℕ
no_node done t = none

abbrev one_node : List Effect → List ℕ → ℕ
one_node done t = 9

abbrev two_targets : List Target
two_targets = node 4 ∷ name (codes "page") ∷ []

-- The object 2 is held by itself, and by the object 1, which the state holds.
abbrev ring : ℕ → List Edge
ring zero = []
ring (suc zero) = (codes "user", 0) ∷ []
ring (suc (suc zero)) = (codes "self", 2) ∷ (codes "address", 1) ∷ []
ring (suc (suc (suc n))) = []

ring_known : (q : ℕ) (e : Edge) → In e (ring q) → In e.1 (0 ∷ 1 ∷ 2 ∷ [])
ring_known zero e w = elim w [ ]
ring_known (suc zero) e (inl h) = rw (← h) (inl refl)
ring_known (suc zero) e (inr w) = elim w [ ]
ring_known (suc (suc zero)) e (inl h) = rw (← h) (inr (inr (inl refl)))
ring_known (suc (suc zero)) e (inr (inl h)) = rw (← h) (inr (inl refl))
ring_known (suc (suc zero)) e (inr (inr w)) = elim w [ ]
ring_known (suc (suc (suc n))) e w = elim w [ ]

changed_keys-above_example :
    (keys : List (List ℕ)) × (changed_keys ring 5 (codes "city") 2 ≡ some keys)
    × ((k : List ℕ) → In k keys ↔ ((codes "city" ≡ k) ⊎ ((q : ℕ) × AboveEdge ring 2 (k, q))))
changed_keys-above_example = changed_keys-above ring 2 (codes "city") (0 ∷ 1 ∷ 2 ∷ []) ring_known

abbrev plain_input : Element
plain_input = record {
  is_template = false;
  has_for = false;
  has_key = false;
  is_checkbox = false;
  is_radio = false;
  is_select = false;
}

directive_of-both_example :
    directive_of plain_input false (codes "@effect:a:b")
    ≡ directive_of plain_input false (codes "data-he-effect:a:b")
unfolding starts_with
directive_of-both_example = directive_of-both plain_input false (codes "effect:a:b") refl

abbrev same_text : List ℕ → List ℕ
same_text s = s

abbrev ctrl_enter : DomEvent
ctrl_enter = record {
  key = codes "enter";
  shift = false;
  ctrl = true;
  alt = false;
  meta = false;
  is_within = true;
}

-- `@keydown.ctrl.enter` and `@keydown.enter.ctrl`.
handle-swap_example :
    handle same_text true (codes "keydown") (codes "ctrl" ∷ codes "enter" ∷ []) true ctrl_enter
    ≡ handle same_text true (codes "keydown") (codes "enter" ∷ codes "ctrl" ∷ []) true ctrl_enter
unfolding is_key_mod includes starts_with ◌===◌
handle-swap_example =
    handle-swap same_text true true (codes "keydown") [] [] (codes "ctrl") (codes "enter")
      ctrl_enter refl

-- The state is object 0, the scope object 1 has `x`, and the element's scopes are 2 and 1.
abbrev owned : Heap ℕ
owned zero = (codes "x", primitive 5) ∷ []
owned (suc zero) = (codes "x", primitive 6) ∷ []
owned (suc (suc n)) = []

abbrev objects : Objects ℕ
objects = record { own = owned; prototype = λ n. undefined }

-- A binding counts the writes in `n`.
abbrev counting : Reflection ℕ
counting = record {
  inherited = λ objects n p. undefined;
  new_prototype = λ v old. v;
  react = λ o p objects. record objects { own = set_key objects.own 0 (codes "n") (primitive 1) };
}

counting-Leaves : Leaves counting (codes "x")
unfolding ◌===◌
counting-Leaves o p before n = elim (Bool-cases (n == 0)) [
  | inl e ↦ (rw e (map_get-map_set (codes "n") (codes "x") (primitive 1) (before.own n)), refl)
  | inr e ↦ (rw e refl, refl)
]

scoped_get-scoped_set_example :
    scoped_get counting 0
      (2 ∷ 1 ∷ [])
      (scoped_set counting 0 (2 ∷ 1 ∷ []) objects (codes "x") (primitive 7))
      (codes "x")
    ≡ primitive 7
unfolding ◌===◌
scoped_get-scoped_set_example =
    scoped_get-scoped_set counting 0 (2 ∷ 1 ∷ []) objects (codes "x") (codes "x") (primitive 7) refl
      counting-Leaves (λ before after n q h. refl)

apply_classes-includes_example :
    (includes
        (apply_classes
          ((codes "a b", true) ∷ (codes "b", false) ∷ [])
          (codes "c" ∷ [])
          (codes "b" ∷ codes "c" ∷ [])).1
        (codes "b")
      ≡ false)
    × (includes
          (apply_classes
            ((codes "a b", true) ∷ (codes "b", false) ∷ [])
            (codes "c" ∷ [])
            (codes "b" ∷ codes "c" ∷ [])).0
          (codes "b")
        ≡ true)
unfolding class_tokens is_space ◌===◌
apply_classes-includes_example =
    apply_classes-includes ((codes "a b", true) ∷ (codes "b", false) ∷ []) (codes "c" ∷ [])
      (codes "b" ∷ codes "c" ∷ []) (codes "b")

-- The page starts Helium, leaves, and starts it again, before the first run went on.
abbrev restarted : Runtime
restarted = resume 1 (start (teardown (start fresh_runtime)))

Reach-IsSafe_example : IsSafe restarted
unfolding start teardown
Reach-IsSafe_example = Reach-IsSafe restarted (
    next (next (next (next here (starts refl)) (tears_down refl)) (starts refl))
      (resumes 1 (inr (inl refl)) refl))

default_run-disabled_example :
    (default_run
      (disable_default ∷ auto_init ∷ turbo_render ∷ mount ∷ [])
      (load_default false)).calls
    ≡ run_mount ∷ run_helium_teardown ∷ []
unfolding load_default
default_run-disabled_example =
    default_run-disabled (auto_init ∷ turbo_render ∷ mount ∷ []) (load_default false)

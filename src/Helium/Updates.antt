-- ===== src/Helium/Updates.antt =====
-- `update` of lib/lunula/assets/helium.js, and how `ajax` calls it. Nodes and elements are numbers;
-- what is done to the page and to the state is a list of effects, in their order. The document's
-- search is an argument, which may depend on what was done before; so is the node that `html` makes.
pub mod Targets
use hacienda.Prelude.{
  ℕ, zero, suc, Bool, true, false, not, Option, none, some, List, [], ◌∷◌, ◌++◌, Text, codes, ◌===◌,
  if◌then◌else◌, JsMap, map_get, map,
}
use hacienda.HeliumCsp.Strings.{trim}

-- A target is a node, or the text of a selector, of a ref or of a property of the state.
pub data Target : Type 0 where
  node : ℕ → Target
  name : Text → Target

pub data Effect : Type 0 where
  -- `element[action](node)`, for the element, the action and the node.
  act : ℕ → Text → ℕ → Effect
  set_inner : ℕ → Text → Effect
  set_state : Text → Text → Effect

abbrev pub Action : Type 0
Action = Option Text

-- `actions?.[i]`, where an empty text is no action.
abbrev pub action_at : List Action → ℕ → Action
action_at [] i = none
action_at (none ∷ rest) zero = none
action_at (some [] ∷ rest) zero = none
action_at (some (c ∷ s) ∷ rest) zero = some (c ∷ s)
action_at (a ∷ rest) (suc i) = action_at rest i

abbrev pub method_of_action : Text → Text
method_of_action action = if action === codes "replace" then codes "replaceWith" else action

abbrev pub content_of : Option (Text → Text) → Text → Text
content_of none text = text
content_of (some template) text = template text

abbrev pub or_else {ℓ} : {A : Type ℓ} → Option A → Option A → Option A
or_else none o = o
or_else (some a) o = some a

-- The request's options that `update` reads; no targets are `none`.
pub record Options : Type 0 where
  pub loading : Option Text
  pub targets : Option (List Target)
  pub actions : List Action
  pub template : Option (Text → Text)

module _ (search : List Effect → Text → Option ℕ) (html : List Effect → Text → ℕ)
    (refs : JsMap ℕ) where
  unfoldable pub element_for : List Effect → Target → Option ℕ
  element_for done (node n) = some n
  element_for done (name t) = or_else (map_get (trim t) refs) (search done (trim t))

  -- What one target adds to the effects and to `newTargets`.
  unfoldable pub update_target :
      Text → Option (Text → Text) → Action → Target → List Effect → List Effect × List ℕ
  unfolding element_for
  update_target text template action target done = elim (element_for done target) [
    | none ↦ elim target [ node n ↦ (done, []) | name t ↦ (done ++ set_state t text ∷ [], []) ]
    | some e ↦ elim action [
      | none ↦ (done ++ set_inner e (content_of template text) ∷ [], e ∷ [])
      | some a ↦
          let n = html done (content_of template text) in
          (done ++ act e (method_of_action a) n ∷ [], n ∷ [])
    ]
  ]

  -- The loop over the targets, from an index on.
  unfoldable pub update_targets :
      Text
      → Option (Text → Text)
      → List Action
      → ℕ
      → List Target
      → List Effect
      → List Effect × List ℕ
  unfolding update_target
  update_targets text template actions i [] done = (done, [])
  update_targets text template actions i (target ∷ targets) done =
      let (done', new) = update_target text template (action_at actions i) target done in
      let (done'', rest) = update_targets text template actions (suc i) targets done' in
      (done'', new ++ rest)

  abbrev targets_or_none : Option (List Target) → List Target
  targets_or_none none = []
  targets_or_none (some ts) = ts

  -- The test is `isCurrent`.
  unfoldable pub update :
      Bool
      → Text
      → Option (List Target)
      → List Action
      → Option (Text → Text)
      → List Effect
      → List Effect × List ℕ
  unfolding update_targets
  update false text targets actions template done = (done, [])
  update true text targets actions template done =
      update_targets text template actions 0 (targets_or_none targets) done

  abbrev new_targets : List ℕ → Option (List Target) → Option (List Target)
  new_targets [] old = old
  new_targets (n ∷ ns) old = some (map node (n ∷ ns))

  -- What `ajax` does before the request: the options that it goes on with.
  unfoldable pub show_loading : Bool → Options → List Effect → List Effect × Options
  unfolding update
  show_loading is_current o done = elim o.loading [
    | none ↦ (done, o)
    | some [] ↦ (done, o)
    | some (c ∷ s) ↦
        let (done', new) = update is_current (c ∷ s) o.targets o.actions none done in
        (done', record o { targets = new_targets new o.targets })
  ]

  -- `a && "replace"`.
  abbrev pub replace_action : Action → Action
  replace_action none = none
  replace_action (some []) = some []
  replace_action (some (c ∷ s)) = some (codes "replace")

  abbrev final_actions : Options → List Action
  final_actions o = elim o.loading [
    | none ↦ o.actions
    | some [] ↦ o.actions
    | some (c ∷ s) ↦ map replace_action o.actions
  ]

  -- What it does with the text of the answer.
  unfoldable pub show_answer : Bool → Options → Text → List Effect → List Effect
  unfolding update
  show_answer is_current o text done =
      (update is_current text o.targets (final_actions o) o.template done).0

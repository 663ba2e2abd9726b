-- ===== src/Helium/Updates/Targets.antt =====
-- What `update` of lib/lunula/assets/helium.js does for each target.
use hacienda.Prelude.{
  ℕ, ◌≡◌, ◌≢◌, Option, none, some, List, [], ◌∷◌, ◌++◌, Text, codes, JsMap, map_get,
}
use hacienda.HeliumCsp.Strings.{trim}
use hacienda.Helium.Updates.{
  Target, node, name, Effect, act, set_inner, set_state, Action, content_of, method_of_action,
}

-- The content is the text, or what the template makes of it.
pub data IsContent : Option (Text → Text) → Text → Text → Type 0 where
  as_it_is : {text : Text} → IsContent none text text
  templated :
      {template : Text → Text} {text : Text} → IsContent (some template) text (template text)

-- The first of the actions, and the others: an empty text is no action.
pub data Next : List Action → Action → List Action → Type 0 where
  exhausted : Next [] none []
  missing : {rest : List Action} → Next (none ∷ rest) none rest
  empty : {rest : List Action} → Next (some [] ∷ rest) none rest
  given : {c : ℕ} {s : Text} {rest : List Action} → Next (some (c ∷ s) ∷ rest) (some (c ∷ s)) rest

-- The method of the element that an action calls.
pub data Calls : Text → Text → Type 0 where
  replaces : Calls (codes "replace") (codes "replaceWith")
  as_named : {action : Text} → action ≢ codes "replace" → Calls action action

module _ (search : List Effect → Text → Option ℕ) (html : List Effect → Text → ℕ) (refs : JsMap ℕ)
    (text : Text) (template : Option (Text → Text)) where
  -- Where a target is found: a node is itself, a name is a ref or else what the search finds.
  pub data Finds : List Effect → Target → ℕ → Type 0 where
    itself : {done : List Effect} {n : ℕ} → Finds done (node n) n
    ref :
        {done : List Effect} {t : Text} {n : ℕ}
        → map_get (trim t) refs ≡ some n
        → Finds done (name t) n
    searched :
        {done : List Effect} {t : Text} {n : ℕ}
        → map_get (trim t) refs ≡ none
        → search done (trim t) ≡ some n
        → Finds done (name t) n

  -- From the effects before to the effects after, for the targets with their actions, listing nodes.
  pub data Updated : List Target → List Action → List Effect → List Effect → List ℕ → Type 0 where
    finished : {actions : List Action} {done : List Effect} → Updated [] actions done done []
    -- Nothing is found, so that the text is the property of that name, and nothing is listed.
    stored :
        {t : Text} {targets : List Target} {action : Action} {actions rest : List Action}
        {done after : List Effect} {new : List ℕ}
        → map_get (trim t) refs ≡ none
        → search done (trim t) ≡ none
        → Next actions action rest
        → Updated targets rest (done ++ set_state t text ∷ []) after new
        → Updated (name t ∷ targets) actions done after new
    -- Without an action, the content is set inside of the element, which is listed.
    filled :
        {target : Target} {targets : List Target} {actions rest : List Action}
        {done after : List Effect} {new : List ℕ} {e : ℕ} {content : Text}
        → Finds done target e
        → IsContent template text content
        → Next actions none rest
        → Updated targets rest (done ++ set_inner e content ∷ []) after new
        → Updated (target ∷ targets) actions done after (e ∷ new)
    -- With an action, its method is called with a node of the content, which is listed.
    acted :
        {target : Target} {targets : List Target} {actions rest : List Action}
        {done after : List Effect} {new : List ℕ} {e : ℕ} {content action method : Text}
        → Finds done target e
        → IsContent template text content
        → Next actions (some action) rest
        → Calls action method
        → Updated targets rest (done ++ act e method (html done content) ∷ []) after new
        → Updated (target ∷ targets) actions done after (html done content ∷ new)

module _ (search : List Effect → Text → Option ℕ) (html : List Effect → Text → ℕ) (refs : JsMap ℕ)
    (text : Text) (template : Option (Text → Text)) where
  abbrev After : List Target → List Action → List Effect → List Effect × List ℕ → Type 0
  After targets actions done r = Updated search html refs text template targets actions done r.0 r.1

  -- What a target does with the element that is found.
  abbrev on_element : Action → ℕ → List Effect → List Effect × List ℕ
  on_element none e done = (done ++ set_inner e (content_of template text) ∷ [], e ∷ [])
  on_element (some a) e done =
      let n = html done (content_of template text) in
      (done ++ act e (method_of_action a) n ∷ [], n ∷ [])

  abbrev then_rest :
      (List Effect → List Effect × List ℕ) → List Effect × List ℕ → List Effect × List ℕ
  then_rest rest (done, new) = ((rest done).0, new ++ (rest done).1)

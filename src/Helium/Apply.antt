-- ===== src/Helium/Apply.antt =====
-- `applyBinding` of lib/lunula/assets/helium.js: what a binding does with the result of its expression.
-- The values are those of the engine; what of them counts is an argument.
pub mod Classes
use hacienda.Prelude.{
  ℕ, zero, suc, Bool, true, false, not, ◌&&◌, ◌||◌, Option, none, some, List, [], ◌∷◌, ◌++◌, Text,
  codes, ◌==◌, leb, ◌===◌, ◌+◌, includes, keep_if, map, if◌then◌else◌,
}
use hacienda.HeliumCsp.Strings.{is_space, join}
use hacienda.Helium.Changes.{add_key}

-- `split(/\s+/).filter(Boolean)`.
abbrev pub add_token : Text → List Text → List Text
add_token [] tokens = tokens
add_token (c ∷ t) tokens = (c ∷ t) ∷ tokens

unfoldable pub tokens_of : Text → Text → List Text
unfolding is_space
tokens_of t [] = add_token t []
tokens_of t (c ∷ s) =
    let within = tokens_of (t ++ c ∷ []) s in
    let after = tokens_of [] s in if is_space c then add_token t after else within

-- `classList.toggle(c, on)`.
unfoldable pub toggle : Text → Bool → List Text → List Text
unfolding add_key
toggle c true classes = add_key c classes
toggle c false classes = keep_if (λ d. not (c === d)) classes

-- The tokens of every entry of the object, with the entry's truth.
abbrev pub with_value : Bool → List Text → List (Text × Bool)
with_value v [] = []
with_value v (c ∷ cs) = (c, v) ∷ with_value v cs

unfoldable pub class_tokens : List (Text × Bool) → List (Text × Bool)
unfolding tokens_of
class_tokens [] = []
class_tokens ((k, v) ∷ entries) = with_value v (tokens_of [] k) ++ class_tokens entries

-- The loop over them: `nextTokens`, and the classes of the element.
unfoldable pub toggle_all : List (Text × Bool) → List Text → List Text → List Text × List Text
unfolding toggle
toggle_all [] next classes = (next, classes)
toggle_all ((c, v) ∷ tokens) next classes = toggle_all tokens (add_key c next) (toggle c v classes)

-- The loop over the tokens of the last time.
unfoldable pub remove_old : List Text → List Text → List Text → List Text
unfolding toggle
remove_old [] next classes = classes
remove_old (c ∷ old) next classes =
    remove_old old next (if includes next c then classes else toggle c false classes)

-- `b.classTokens` and the classes.
unfoldable pub apply_classes : List (Text × Bool) → List Text → List Text → List Text × List Text
unfolding class_tokens toggle_all remove_old
apply_classes entries old classes =
    let (next, toggled) = toggle_all (class_tokens entries) [] classes in
    (next, remove_old old next toggled)

-- `replace(/[A-Z]/g, m => '-' + m.toLowerCase())`.
unfoldable pub kebab : Text → Text
kebab [] = []
kebab (c ∷ s) = if leb 65 c && leb c 90 then 45 ∷ (c + 32) ∷ kebab s else c ∷ kebab s

-- The text of a style, from its names with the texts of their values; `null` and `false` are none.
unfoldable pub declarations : List (Text × Option Text) → List Text
unfolding kebab
declarations [] = []
declarations ((k, none) ∷ styles) = declarations styles
declarations ((k, some v) ∷ styles) = (kebab k ++ (58 ∷ v)) ∷ declarations styles

unfoldable pub css_text : List (Text × Option Text) → Text
unfolding declarations join
css_text styles = join (codes "; ") (declarations styles)

pub record Bound : Type 0 where
  pub prop : Option Text
  pub calc : Option Text
  pub is_loop : Bool
  pub is_cond : Bool
  pub is_hidden_attr : Bool

-- What of the result counts.
pub record Result : Type 0 where
  pub is_truthy : Bool
  -- It is an object, which is not `null`.
  pub is_object : Bool

pub data Change : Type 0 where
  render_rows render_condition : Change
  set_calc : Text → Change
  inner_html class_list style : Change
  hide : Bool → Change
  check_radio : Change
  set_property set_attribute : Text → Change

abbrev pub calc_changes : Option Text → List Change
calc_changes none = []
calc_changes (some []) = []
calc_changes (some (c ∷ name)) = set_calc (c ∷ name) ∷ []

-- The last tests, for a property; `has` is `in`.
abbrev pub prop_change : (Text → Bool) → Bool → Text → Change
prop_change has is_radio prop =
    if has prop
    then (if is_radio && not (prop === codes "checked") then check_radio else set_property prop)
    else set_attribute prop

abbrev pub change_of : Bound → (Text → Bool) → Bool → Result → Text → Change
change_of b has is_radio r prop =
    if prop === codes "innerHTML"
    then inner_html
    else if prop === codes "class" && (r.is_truthy && r.is_object)
    then class_list
    else if prop === codes "style" && (r.is_truthy && r.is_object)
    then style
    else if prop === codes "hidden"
    then hide (if b.is_hidden_attr then r.is_truthy else not r.is_truthy)
    else prop_change has is_radio prop

-- A property `null` is the text `null` for the tests and for `setAttribute`.
abbrev pub prop_text : Option Text → Text
prop_text none = codes "null"
prop_text (some p) = p

-- The result is `none` when the expression threw.
unfoldable pub apply_binding : Bound → (Text → Bool) → Bool → Option Result → List Change
apply_binding b has is_radio none = []
apply_binding b has is_radio (some r) =
    if b.is_loop
    then render_rows ∷ []
    else if b.is_cond
    then render_condition ∷ []
    else calc_changes b.calc ++ change_of b has is_radio r (prop_text b.prop) ∷ []

-- ===== src/Helium/Directives.antt =====
-- `processElements` of lib/lunula/assets/helium.js: what an attribute of an element asks for, by its
-- name. The facts about the element that count are a record.
pub mod Aliases
use hacienda.Prelude.{
  ℕ, zero, suc, Bool, true, false, not, ◌&&◌, ◌||◌, Option, none, some, List, [], ◌∷◌, ◌++◌, Text,
  codes, ◌==◌, ◌===◌, includes, starts_with, contains, drop, if◌then◌else◌,
}

-- `split(/[.:]/)[0]`.
unfoldable pub first_part : Text → Text
first_part [] = []
first_part (c ∷ s) = if c == 46 || c == 58 then [] else c ∷ first_part s

abbrev pub any_alias : Text → List Text → Bool
any_alias p [] = false
any_alias p (a ∷ attrs) = (p === (64 ∷ a) || p === (codes "data-he-" ++ a)) || any_alias p attrs

unfoldable pub match : Text → List Text → Bool
unfolding first_part
match name attrs =
    let p = first_part name in if p === codes ":" || p === [] then false else any_alias p attrs

-- `text.split(separator)` for one character.
abbrev pub put : ℕ → List Text → List Text
put c [] = (c ∷ []) ∷ []
put c (s ∷ parts) = (c ∷ s) ∷ parts

unfoldable pub split_on : ℕ → Text → List Text
split_on d [] = [] ∷ []
split_on d (c ∷ s) = let rest = split_on d s in if c == d then [] ∷ rest else put c rest

abbrev pub tail_of : List Text → List Text
tail_of [] = []
tail_of (p ∷ ps) = ps

abbrev pub head_of : List Text → Text
head_of [] = []
head_of (p ∷ ps) = p

abbrev pub second_of : List Text → Option Text
second_of [] = none
second_of (p ∷ []) = none
second_of (p ∷ q ∷ ps) = some q

pub record Element : Type 0 where
  pub is_template : Bool
  -- It has `@for` or `data-he-for`.
  pub has_for : Bool
  -- It has a `:key` that is not empty.
  pub has_key : Bool
  pub is_checkbox : Bool
  pub is_radio : Bool
  pub is_select : Bool

pub data Directive : Type 0 where
  skip merge_data for_loop for_error if_condition if_error set_ref init : Directive
  -- A binding to a property or an attribute.
  bound : Text → Directive
  -- A binding both ways: the event, and the property.
  input : Text → Text → Directive
  -- Whether the element is hidden when the value is truthy.
  visibility : Bool → Directive
  calculate : Option Text → Directive
  effect : List Text → Directive
  -- An event, or a method of a request, and the modifiers.
  listener : Text → List Text → Directive

abbrev pub is_helium : Text → Bool
is_helium [] = false
is_helium (c ∷ name) = (c == 64 || c == 58) || starts_with (codes "data-he") (c ∷ name)

-- The listener that is left when no directive has the name.
abbrev pub listener_of : Text → Directive
listener_of full_name =
    let parts = split_on 46 full_name in listener (head_of parts) (tail_of parts)

abbrev pub is_attribute : Text → Bool
is_attribute name = starts_with (codes ":") name || starts_with (codes "data-he-attr:") name

abbrev pub attribute_of : Text → Text
attribute_of name = if starts_with (codes ":") name then drop 1 name else drop 13 name

-- The chain of tests behind those for `:key`; `valid` is that `parseFor` accepts the value.
unfoldable pub directive : Element → Bool → Text → Directive
unfolding match split_on
directive el valid name =
    if match name (codes "data" ∷ []) || name === codes "data-he"
    then merge_data
    else if match name (codes "for" ∷ [])
    then (if el.is_template && (valid && el.has_key) then for_loop else for_error)
    else if match name (codes "if" ∷ [])
    then (if el.is_template && not el.has_for then if_condition else if_error)
    else if match name (codes "scope" ∷ codes "for" ∷ codes "if" ∷ [])
    then skip
    else if is_attribute name
    then bound (attribute_of name)
    else if match name (codes "ref" ∷ [])
    then set_ref
    else if match name (codes "text" ∷ codes "html" ∷ [])
    then bound (if match name (codes "text" ∷ []) then codes "textContent" else codes "innerHTML")
    else if match name (codes "bind" ∷ [])
    then input
        (if (el.is_checkbox || (el.is_radio || el.is_select)) || contains (codes ".lazy") name
          then codes "change"
          else codes "input")
        (if el.is_checkbox then codes "checked" else codes "value")
    else if match name (codes "hidden" ∷ codes "visible" ∷ [])
    then visibility (match name (codes "hidden" ∷ []))
    else if match name (codes "calculate" ∷ [])
    then calculate (second_of (split_on 58 name))
    else if match name (codes "effect" ∷ [])
    then effect (tail_of (split_on 58 name))
    else if match name (codes "init" ∷ [])
    then init
    else listener_of (if starts_with (codes "@") name then drop 1 name else drop 8 name)

unfoldable pub directive_of : Element → Bool → Text → Directive
unfolding directive
directive_of el valid name =
    if not (is_helium name)
    then skip
    else if name === codes ":key" && el.has_for
    then skip
    else directive el valid name

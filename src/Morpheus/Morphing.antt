-- ===== src/Morpheus/Morphing.antt =====
-- `morph` and `heliumAttributesChanged` of packages/morpheus/src/morpheus.js: what they tell Idiomorph
-- of a node, and which elements are replaced as a whole. Idiomorph decides in which order it asks.
pub mod Signatures
mod Tests
use hacienda.Prelude.{
  ℕ, zero, suc, Bool, true, false, not, ◌&&◌, ◌||◌, Option, none, some, List, [], ◌∷◌, ◌++◌, Text,
  codes, ltb, ◌==◌, ◌===◌, starts_with, if◌then◌else◌, JsMap,
}
use hacienda.HeliumCsp.Strings.{join}

-- The order of `sort`, by code units.
unfoldable pub le_text : Text → Text → Bool
le_text [] t = true
le_text (a ∷ s) [] = false
le_text (a ∷ s) (b ∷ t) = let rest = le_text s t in ltb a b || (a == b && rest)

unfoldable pub insert : Text → List Text → List Text
unfolding le_text
insert s [] = s ∷ []
insert s (t ∷ ts) = if le_text s t then s ∷ t ∷ ts else t ∷ insert s ts

unfoldable pub sort : List Text → List Text
unfolding insert
sort [] = []
sort (s ∷ ss) = insert s (sort ss)

-- The attributes that Helium reads.
abbrev pub is_reactive : Text → Bool
is_reactive name =
    starts_with (codes "@") name
    || (starts_with (codes ":") name || starts_with (codes "data-he") name)

unfoldable pub reactive_lines : List (Text × Text) → List Text
reactive_lines [] = []
reactive_lines ((name, value) ∷ attributes) =
    let rest = reactive_lines attributes in
    if is_reactive name then (name ++ (61 ∷ value)) ∷ rest else rest

unfoldable pub signature : List (Text × Text) → Text
unfolding sort reactive_lines join
signature attributes = join (10 ∷ []) (sort (reactive_lines attributes))

pub record DomNode : Type 0 where
  pub number : ℕ
  pub is_element : Bool
  pub is_permanent : Bool
  pub attributes : List (Text × Text)

unfoldable pub helium_attributes_changed : DomNode → DomNode → Bool
unfolding signature
helium_attributes_changed old new =
    if not old.is_element || not new.is_element
    then false
    else not (signature old.attributes === signature new.attributes)

-- What `beforeNodeMorphed` answers, where `true` stands for no answer, and the pair that it adds.
unfoldable pub before_node_morphed : DomNode → DomNode → Bool × List (ℕ × ℕ)
unfolding helium_attributes_changed
before_node_morphed old new =
    if old.is_element && old.is_permanent
    then (false, [])
    else if helium_attributes_changed old new
    then (false, (old.number, new.number) ∷ [])
    else (true, [])

-- The answers to all that Idiomorph asks, and `reactiveReplacements`.
unfoldable pub ask_all : List (DomNode × DomNode) → List Bool × List (ℕ × ℕ)
unfolding before_node_morphed
ask_all [] = ([], [])
ask_all ((old, new) ∷ pairs) =
    let (answer, added) = before_node_morphed old new in
    let (answers, replacements) = ask_all pairs in (answer ∷ answers, added ++ replacements)

-- The replacements that are made, by whether the node is still on the page.
unfoldable pub replace_connected : (ℕ → Bool) → List (ℕ × ℕ) → List (ℕ × ℕ)
replace_connected connected [] = []
replace_connected connected ((old, new) ∷ pairs) =
    let rest = replace_connected connected pairs in
    if connected old then (old, new) ∷ rest else rest

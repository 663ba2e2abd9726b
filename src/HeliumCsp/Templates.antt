-- ===== src/HeliumCsp/Templates.antt =====
-- `preprocessTemplateLiterals` of lib/lunula/assets/helium-csp.js. The text that is left stands for
-- the index, and what is written behind a point is the result from there on.
pub mod Literals
use hacienda.Prelude.{
  ℕ, zero, suc, ◌-◌, Bool, true, false, ◌&&◌, ◌||◌, not, List, [], ◌∷◌, ◌++◌, Text, codes, leb, ltb,
  ◌==◌, if◌then◌else◌,
}
use hacienda.HeliumCsp.Strings.{join}

abbrev pub is_empty {ℓ} : {A : Type ℓ} → List A → Bool
is_empty [] = true
is_empty (a ∷ rest) = false

-- `'${currentStr}'`.
abbrev pub quoted : Text → Text
quoted current = 39 ∷ (current ++ 39 ∷ [])

-- `(${exprContent})`.
abbrev pub parenthesised : Text → Text
parenthesised content = 40 ∷ (content ++ 41 ∷ [])

-- `if (currentStr || parts.length === 0) parts.push(…)`.
abbrev pub add_text : List Text → Text → List Text
add_text parts current =
    if not (is_empty current) || is_empty parts then parts ++ quoted current ∷ [] else parts

-- What the character behind a backslash adds.
unfoldable pub template_escape : ℕ → Text
template_escape c =
    if c == b'n'
    then codes "\\n"
    else if c == b't'
    then codes "\\t"
    else if c == 92
    then codes "\\\\"
    else c ∷ []

-- What any other character adds: a single quote is escaped.
unfoldable pub template_plain : ℕ → Text
template_plain c = if c == 39 then codes "\\'" else c ∷ []

abbrev pub sum_of : List Text → Text
sum_of parts = join (codes " + ") parts

-- `braceDepth` behind a character.
abbrev pub brace_depth : ℕ → ℕ → ℕ
brace_depth c depth = if c == 123 then suc depth else if c == 125 then depth - 1 else depth

unfoldable mutual
  -- Outside of a template literal.
  pub preprocess_template_literals : Text → Text
  preprocess_template_literals [] = []
  preprocess_template_literals (c ∷ s) =
      let literal = in_template [] [] s in
      let rest = preprocess_template_literals s in if c == 96 then literal else c ∷ rest

  -- Inside of one, with `parts` and `currentStr`.
  pub in_template : List Text → Text → Text → Text
  in_template parts current [] = sum_of (add_text parts current)
  in_template parts current (c ∷ []) =
      if c == 96
      then sum_of (add_text parts current)
      else sum_of (add_text parts (current ++ template_plain c))
  in_template parts current (c ∷ d ∷ s) =
      let behind = preprocess_template_literals (d ∷ s) in
      let substitution = in_braces (add_text parts current) 1 [] s in
      let escape = in_template parts (current ++ template_escape d) s in
      let plain = in_template parts (current ++ template_plain c) (d ∷ s) in
      if c == 96
      then sum_of (add_text parts current) ++ behind
      else if c == 36 && d == 123
      then substitution
      else if c == 92
      then escape
      else plain

  -- Inside of a substitution, with `braceDepth` and `exprContent`.
  pub in_braces : List Text → ℕ → Text → Text → Text
  in_braces parts depth content [] = sum_of (add_text (parts ++ parenthesised content ∷ []) [])
  in_braces parts depth content (c ∷ s) =
      let more = in_braces parts (brace_depth c depth) (content ++ c ∷ []) s in
      let ended = in_template (parts ++ parenthesised content ∷ []) [] s in
      if ltb 0 (brace_depth c depth) then more else ended

-- ===== src/HeliumCsp/Templates/Literals.antt =====
-- `preprocessTemplateLiterals` of lib/lunula/assets/helium-csp.js on a template literal.
use hacienda.Prelude.{
  ℕ, ◌≡◌, refl, ap, sym, ◌∙◌, true, false, List, [], ◌∷◌, ◌++◌, append_assoc, append-nil, Text,
  ◌==◌, ltb, All, if◌then◌else◌,
}
use hacienda.HeliumCsp.Templates.{
  quoted, parenthesised, add_text, template_escape, template_plain, sum_of, brace_depth,
  preprocess_template_literals, in_template, in_braces,
}

-- A character of the text of a template: as it is, or behind a backslash.
pub data Item : Type 0 where
  plain escaped : ℕ → Item

abbrev pub IsItem : Item → Type 0
IsItem (plain c) = ((c == 96) ≡ false) × ((c == 36) ≡ false) × ((c == 92) ≡ false)
IsItem (escaped c) = Unit

abbrev pub spell_items : List Item → Text → Text
spell_items [] s = s
spell_items (plain c ∷ items) s = c ∷ spell_items items s
spell_items (escaped c ∷ items) s = 92 ∷ c ∷ spell_items items s

-- What a character is written as in the generated string: by the table, or else as it is.
abbrev pub written_as : List (ℕ × Text) → ℕ → Text
written_as [] c = c ∷ []
written_as ((k, t) ∷ table) c = if c == k then t else written_as table c

-- A backslash and the character, each.
abbrev pub plain_table : List (ℕ × Text)
plain_table = (39, 92 ∷ 39 ∷ []) ∷ []

abbrev pub escaped_table : List (ℕ × Text)
escaped_table = (110, 92 ∷ 110 ∷ []) ∷ (116, 92 ∷ 116 ∷ []) ∷ (92, 92 ∷ 92 ∷ []) ∷ []

abbrev pub text_of : List Item → Text
text_of [] = []
text_of (plain c ∷ items) = written_as plain_table c ++ text_of items
text_of (escaped c ∷ items) = written_as escaped_table c ++ text_of items

template_plain-table : (c : ℕ) → template_plain c ≡ written_as plain_table c
unfolding template_plain
template_plain-table c = refl

template_escape-table : (c : ℕ) → template_escape c ≡ written_as escaped_table c
unfolding template_escape
template_escape-table c = refl

-- Text with a substitution behind it.
pub record Chunk : Type 0 where
  pub text : List Item
  pub expression : Text

-- The braces of an expression close what they open, from the given depth on.
abbrev pub IsBalanced : ℕ → Text → Type 0
IsBalanced depth [] = depth ≡ 1
IsBalanced depth (c ∷ s) = (ltb 0 (brace_depth c depth) ≡ true) × IsBalanced (brace_depth c depth) s

abbrev pub IsChunk : Chunk → Type 0
IsChunk chunk = All IsItem chunk.text × IsBalanced 1 chunk.expression

-- What stands between the backticks, and what stands behind them.
abbrev pub spell : List Chunk → List Item → Text → Text
spell [] last s = spell_items last (96 ∷ s)
spell (chunk ∷ chunks) last s =
    spell_items chunk.text (36 ∷ 123 ∷ (chunk.expression ++ 125 ∷ spell chunks last s))

-- The operands: empty text is left out, but not at the start, where it makes the sum a string.
abbrev pub text_part : Text → List Text
text_part [] = []
text_part (c ∷ s) = quoted (c ∷ s) ∷ []

abbrev pub later_parts : List Chunk → List Item → List Text
later_parts [] last = text_part (text_of last)
later_parts (chunk ∷ chunks) last =
    text_part (text_of chunk.text) ++ parenthesised chunk.expression ∷ later_parts chunks last

abbrev pub parts_of : List Chunk → List Item → List Text
parts_of [] last = quoted (text_of last) ∷ []
parts_of (chunk ∷ chunks) last =
    quoted (text_of chunk.text) ∷ parenthesised chunk.expression ∷ later_parts chunks last

in_template-plain :
    (parts : List Text) (current : Text) (c : ℕ) (s : Text)
    → IsItem (plain c)
    → in_template parts current (c ∷ s) ≡ in_template parts (current ++ template_plain c) s
unfolding in_template
in_template-plain parts current c [] a = rw (a.0) refl
in_template-plain parts current c (d ∷ s) a = rw (a.0, a.1, a.2) refl

in_template-escaped :
    (parts : List Text) (current : Text) (c : ℕ) (s : Text)
    → in_template parts current (92 ∷ c ∷ s) ≡ in_template parts (current ++ template_escape c) s
unfolding in_template
in_template-escaped parts current c s = refl

in_template-spell_items :
    (parts : List Text) (current : Text) (items : List Item) (s : Text)
    → All IsItem items
    → in_template parts current (spell_items items s)
      ≡ in_template parts (current ++ text_of items) s
in_template-spell_items parts current [] s a = rw (append-nil current) refl
in_template-spell_items parts current (plain c ∷ items) s a =
    in_template-plain parts current c (spell_items items s) a.0
    ∙ in_template-spell_items parts (current ++ template_plain c) items s a.1
    ∙ ap (λ x. in_template parts x s)
        (append_assoc current (template_plain c) (text_of items)
          ∙ ap (λ x. current ++ (x ++ text_of items)) (template_plain-table c))
in_template-spell_items parts current (escaped c ∷ items) s a =
    in_template-escaped parts current c (spell_items items s)
    ∙ in_template-spell_items parts (current ++ template_escape c) items s a.1
    ∙ ap (λ x. in_template parts x s)
        (append_assoc current (template_escape c) (text_of items)
          ∙ ap (λ x. current ++ (x ++ text_of items)) (template_escape-table c))

in_template-end :
    (parts : List Text) (current s : Text)
    → in_template parts current (96 ∷ s)
      ≡ sum_of (add_text parts current) ++ preprocess_template_literals s
unfolding in_template
in_template-end parts current [] = sym (append-nil _)
in_template-end parts current (c ∷ s) = refl

in_braces-IsBalanced :
    (parts : List Text) (depth : ℕ) (content expression s : Text)
    → IsBalanced depth expression
    → in_braces parts depth content (expression ++ 125 ∷ s)
      ≡ in_template (parts ++ parenthesised (content ++ expression) ∷ []) [] s
unfolding in_template
in_braces-IsBalanced parts depth content [] s b = rw (b, append-nil content) refl
in_braces-IsBalanced parts depth content (c ∷ expression) s b = rw (b.0) (
    in_braces-IsBalanced parts (brace_depth c depth) (content ++ c ∷ []) expression s b.1
    ∙ ap (λ x. in_template (parts ++ parenthesised x ∷ []) [] s)
        (append_assoc content (c ∷ []) expression))

in_template-substitution :
    (parts : List Text) (current s : Text)
    → in_template parts current (36 ∷ 123 ∷ s) ≡ in_braces (add_text parts current) 1 [] s
unfolding in_template
in_template-substitution parts current s = refl

in_template-chunk :
    (parts : List Text) (chunk : Chunk) (s : Text)
    → IsChunk chunk
    → in_template parts [] (spell_items chunk.text (36 ∷ 123 ∷ (chunk.expression ++ 125 ∷ s)))
      ≡ in_template
          (add_text parts (text_of chunk.text) ++ parenthesised chunk.expression ∷ [])
          []
          s
in_template-chunk parts chunk s a =
    in_template-spell_items parts [] chunk.text _ a.0
    ∙ in_template-substitution parts (text_of chunk.text) (chunk.expression ++ 125 ∷ s)
    ∙ in_braces-IsBalanced (add_text parts (text_of chunk.text)) 1 [] chunk.expression s a.1

-- Operands that are there already, so that empty text adds none.
add_text-text_part :
    (parts : List Text) (part current : Text)
    → add_text (parts ++ part ∷ []) current ≡ (parts ++ part ∷ []) ++ text_part current
add_text-text_part parts part (c ∷ current) = refl
add_text-text_part [] part [] = refl
add_text-text_part (p ∷ parts) part [] = ap (λ x. p ∷ x) (sym (append-nil (parts ++ part ∷ [])))

add_text-nil : (current : Text) → add_text [] current ≡ quoted current ∷ []
add_text-nil [] = refl
add_text-nil (c ∷ current) = refl

in_template-later_parts :
    (parts : List Text) (part : Text) (chunks : List Chunk) (last : List Item) (s : Text)
    → All IsChunk chunks
    → All IsItem last
    → in_template (parts ++ part ∷ []) [] (spell chunks last s)
      ≡ sum_of ((parts ++ part ∷ []) ++ later_parts chunks last) ++ preprocess_template_literals s
in_template-later_parts parts part [] last s a l =
    in_template-spell_items (parts ++ part ∷ []) [] last (96 ∷ s) l
    ∙ in_template-end (parts ++ part ∷ []) (text_of last) s
    ∙ ap (λ x. sum_of x ++ preprocess_template_literals s)
        (add_text-text_part parts part (text_of last))
in_template-later_parts parts part (chunk ∷ chunks) last s a l =
    let before = add_text (parts ++ part ∷ []) (text_of chunk.text) in
    let later = parenthesised chunk.expression ∷ later_parts chunks last in
    in_template-chunk (parts ++ part ∷ []) chunk (spell chunks last s) a.0
    ∙ in_template-later_parts before (parenthesised chunk.expression) chunks last s a.1 l
    ∙ ap (λ x. sum_of x ++ preprocess_template_literals s)
        (append_assoc before (parenthesised chunk.expression ∷ []) (later_parts chunks last)
          ∙ ap (λ x. x ++ later) (add_text-text_part parts part (text_of chunk.text))
          ∙ append_assoc (parts ++ part ∷ []) (text_part (text_of chunk.text)) later)

in_template-parts_of :
    (chunks : List Chunk) (last : List Item) (s : Text)
    → All IsChunk chunks
    → All IsItem last
    → in_template [] [] (spell chunks last s)
      ≡ sum_of (parts_of chunks last) ++ preprocess_template_literals s
in_template-parts_of [] last s a l =
    in_template-spell_items [] [] last (96 ∷ s) l
    ∙ in_template-end [] (text_of last) s
    ∙ ap (λ x. sum_of x ++ preprocess_template_literals s) (add_text-nil (text_of last))
in_template-parts_of (chunk ∷ chunks) last s a l =
    in_template-chunk [] chunk (spell chunks last s) a.0
    ∙ ap (λ x. in_template (x ++ parenthesised chunk.expression ∷ []) [] (spell chunks last s))
        (add_text-nil (text_of chunk.text))
    ∙ in_template-later_parts (quoted (text_of chunk.text) ∷ []) (parenthesised chunk.expression)
        chunks last s a.1 l

-- A template literal behind code without backticks becomes the sum of its texts in single quotes and
-- its substitutions in parentheses, for substitutions whose braces are balanced and for texts whose
-- `$` is escaped. In the texts a single quote gets a backslash; behind a backslash, `n`, `t` and the
-- backslash keep theirs, and any other character comes out without it, so that an escaped single
-- quote comes out bare and ends the generated string. The first operand is a string even if it is empty; other empty texts
-- are left out. The code in front stays, and what follows is preprocessed the same way.
pub preprocess_template_literals-spell :
    (code : Text) (chunks : List Chunk) (last : List Item) (s : Text)
    → All (λ c. (c == 96) ≡ false) code
    → All IsChunk chunks
    → All IsItem last
    → preprocess_template_literals (code ++ 96 ∷ spell chunks last s)
      ≡ code ++ sum_of (parts_of chunks last) ++ preprocess_template_literals s
unfolding preprocess_template_literals
preprocess_template_literals-spell [] chunks last s p a l = in_template-parts_of chunks last s a l
preprocess_template_literals-spell (c ∷ code) chunks last s p a l =
    rw (p.0) (ap (λ x. c ∷ x) (preprocess_template_literals-spell code chunks last s p.1 a l))

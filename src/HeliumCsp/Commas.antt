-- ===== src/HeliumCsp/Commas.antt =====
-- `preprocessCommaOperator` of lib/lunula/assets/helium-csp.js.
pub mod TopLevel
use hacienda.Prelude.{
  ℕ, zero, suc, ◌-◌, Bool, true, false, ◌&&◌, ◌||◌, not, Option, none, some, List, [], ◌∷◌, ◌++◌,
  Text, codes, drop, leb, ltb, ◌==◌, if◌then◌else◌, map,
}
use hacienda.HeliumCsp.Strings.{join, trim}

-- The nesting depth, which an unmatched closing character takes below 0.
pub data ℤ : Type 0 where
  pos : ℕ → ℤ
  negsuc : ℕ → ℤ

abbrev pub succ : ℤ → ℤ
succ (pos n) = pos (suc n)
succ (negsuc zero) = pos 0
succ (negsuc (suc n)) = negsuc n

abbrev pub pred : ℤ → ℤ
pred (pos zero) = negsuc 0
pred (pos (suc n)) = pos n
pred (negsuc n) = negsuc (suc n)

abbrev pub is_zero : ℤ → Bool
is_zero (pos n) = n == 0
is_zero (negsuc n) = false

abbrev pub is_char : ℕ → Option ℕ → Bool
is_char c none = false
is_char c (some d) = d == c

-- `inString` behind an unescaped quote.
abbrev pub toggle : ℕ → Option ℕ → Option ℕ
toggle c none = some c
toggle c (some q) = if q == c then none else some q

abbrev pub opens : ℕ → Bool
opens c = c == 40 || c == 91 || c == 123

abbrev pub closes : ℕ → Bool
closes c = c == 41 || c == 93 || c == 125

abbrev pub is_string_boundary : Option ℕ → ℕ → Bool
is_string_boundary prev c = (c == 34 || c == 39) && not (is_char 92 prev)

-- The loop, from the index `i` on, with `prev`, `depth` and `inString`: the positions that it adds.
unfoldable pub comma_positions : ℕ → Option ℕ → ℤ → Option ℕ → Text → List ℕ
comma_positions i prev depth in_string [] = []
comma_positions i prev depth in_string (c ∷ s) =
    let boundary = comma_positions (suc i) (some c) depth (toggle c in_string) s in
    let same = comma_positions (suc i) (some c) depth in_string s in
    let deeper = comma_positions (suc i) (some c) (succ depth) in_string s in
    let shallower = comma_positions (suc i) (some c) (pred depth) in_string s in
    let outside =
      if opens c
      then deeper
      else if closes c
      then shallower
      else if c == 44 && is_zero depth
      then i ∷ same
      else same in
    if is_string_boundary prev c
    then boundary
    else elim in_string [ none ↦ outside | some q ↦ same ]

abbrev pub first_chars : ℕ → Text → Text
first_chars zero s = []
first_chars (suc n) [] = []
first_chars (suc n) (c ∷ s) = c ∷ first_chars n s

-- `expr.slice(from, to)`.
abbrev pub slice : Text → ℕ → ℕ → Text
slice s from to = first_chars (to - from) (drop from s)

-- The loop over the positions: the parts, before they are trimmed.
unfoldable pub parts_from : Text → ℕ → List ℕ → List Text
parts_from expr last [] = drop last expr ∷ []
parts_from expr last (i ∷ positions) = slice expr last i ∷ parts_from expr (suc i) positions

unfoldable pub preprocess_comma_operator : Text → Text
unfolding comma_positions parts_from
preprocess_comma_operator expr = elim (comma_positions 0 none (pos 0) none expr) [
  | [] ↦ expr
  | p ∷ ps ↦
      codes "[" ++ join (codes ", ") (map trim (parts_from expr 0 (p ∷ ps))) ++ codes "].pop()"
]

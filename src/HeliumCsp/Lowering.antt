-- ===== src/HeliumCsp/Lowering.antt =====
-- The replacements of `preprocess` in lib/lunula/assets/helium-csp.js. None of their patterns has a
-- second way to match behind a part that matched greedily, so each matcher goes through the text
-- once.
use hacienda.Prelude.{
  ℕ, zero, suc, Bool, true, false, ◌&&◌, not, Option, none, some, [], ◌∷◌, ◌++◌, Text, codes,
  length, drop, ◌==◌, if◌then◌else◌, starts_with,
}
use hacienda.HeliumCsp.Strings.{is_space, is_word, is_char_of}

-- What a pattern matches: its replacement, the last character that it took, and the text behind it.
pub record Match : Type 0 where
  pub replacement : Text
  pub last : ℕ
  pub rest : Text

-- `String.prototype.replace` with a global pattern: `before` is the character in front. A match is
-- not empty, so the length of the text is fuel enough.
unfoldable pub replace_all : (Option ℕ → Text → Option Match) → ℕ → Option ℕ → Text → Text
replace_all find zero before s = s
replace_all find (suc fuel) before [] = []
replace_all find (suc fuel) before (c ∷ s) =
    let further = replace_all find fuel (some c) s in
    elim (find before (c ∷ s)) [
      | none ↦ c ∷ further
      | some m ↦ m.replacement ++ replace_all find fuel (some m.last) m.rest
    ]

-- The longest front of the text that passes a test, and what is behind it.
unfoldable pub span : (ℕ → Bool) → Text → Text × Text
span p [] = ([], [])
span p (c ∷ s) = let (front, back) = span p s in if p c then (c ∷ front, back) else ([], c ∷ s)

-- `\b` in front of a word character, and behind one.
abbrev starts_word : Option ℕ → Bool
starts_word before = not (is_char_of is_word before)

abbrev ends_word : Text → Bool
ends_word [] = true
ends_word (c ∷ s) = not (is_word c)

abbrev is_empty : Text → Bool
is_empty [] = true
is_empty (c ∷ s) = false

-- `/\bnew\s+Date\b/` and its like.
unfoldable pub match_new : Text → Option ℕ → Text → Option Match
unfolding span is_space is_word starts_with
match_new name before s =
    let (spaces, back) = span is_space (drop 3 s) in
    let rest = drop (length name) back in
    if starts_word before
      && (starts_with (codes "new") s
          && (not (is_empty spaces) && (starts_with name back && ends_word rest)))
    then some (record { replacement = 36 ∷ name; last = b'e'; rest = rest })
    else none

-- `(?:\.\w+|\[\w+\])*`, on fuel.
unfoldable pub match_accesses : ℕ → Text → Text × Text
unfolding span is_word starts_with
match_accesses zero s = ([], s)
match_accesses (suc fuel) [] = ([], [])
match_accesses (suc fuel) (c ∷ s) =
    let (word, back) = span is_word s in
    let (front, rest) = match_accesses fuel back in
    let (front', rest') = match_accesses fuel (drop 1 back) in
    if c == 46 && not (is_empty word)
    then (c ∷ (word ++ front), rest)
    else if c == 91 && (not (is_empty word) && starts_with (codes "]") back)
    then (c ∷ (word ++ 93 ∷ front'), rest')
    else ([], c ∷ s)

-- `\$?\w+(?:\.\w+|\[\w+\])*`.
unfoldable pub match_path : Text → Option (Text × Text)
unfolding span is_word starts_with match_accesses
match_path s =
    let dollar = starts_with (codes "$") s in
    let start = if dollar then drop 1 s else s in
    let (word, back) = span is_word start in
    let (front, rest) = match_accesses (length back) back in
    let path = word ++ front in
    if is_empty word then none else some (if dollar then 36 ∷ path else path, rest)

-- `(path = path op 1)`.
abbrev stepped : Text → ℕ → Text
stepped path op = 40 ∷ (path ++ codes " = " ++ path ++ 32 ∷ op ∷ codes " 1)")

-- A path with `++` behind it, or `--`, where the other operator takes the step back.
unfoldable pub match_postfix : ℕ → ℕ → Option ℕ → Text → Option Match
unfolding match_path starts_with
match_postfix op back before s = elim (match_path s) [
  | none ↦ none
  | some (path, rest) ↦
      if starts_with (op ∷ op ∷ []) rest
      then some (record {
        replacement = stepped path op ++ 32 ∷ back ∷ codes " 1";
        last = op;
        rest = drop 2 rest;
      })
      else none
]

-- A path with `++` in front of it, or `--`.
unfoldable pub match_prefix : ℕ → Option ℕ → Text → Option Match
unfolding match_path starts_with
match_prefix op before s =
    if starts_with (op ∷ op ∷ []) s
    then elim (match_path (drop 2 s)) [
      | none ↦ none
      | some (path, rest) ↦ some (record { replacement = stepped path op; last = op; rest = rest })
    ]
    else none

abbrev replace : (Option ℕ → Text → Option Match) → Text → Text
replace find s = replace_all find (length s) none s

-- The six replacements, in their order.
unfoldable pub lower : Text → Text
unfolding replace_all match_new match_postfix match_prefix
lower code = replace (match_prefix 45) (
    replace (match_prefix 43) (
      replace (match_postfix 45 43) (
        replace (match_postfix 43 45)
          (replace (match_new (codes "FormData")) (replace (match_new (codes "Date")) code)))))

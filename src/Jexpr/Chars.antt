-- ===== src/Jexpr/Chars.antt =====
-- The character tests and the escapes of lib/lunula/assets/jexpr.js. A character is a UTF-16 code
-- unit; `undefined`, behind the end of the input, is `none` and passes no test.
use hacienda.Prelude.{
  ℕ, ◌-◌, ◌*◌, ◌/◌, ◌%◌, Bool, false, ◌&&◌, ◌||◌, Option, none, some, [], ◌∷◌, Text, leb, ◌==◌,
  if◌then◌else◌,
}

abbrev pub at_char : (ℕ → Bool) → Option ℕ → Bool
at_char p none = false
at_char p (some c) = p c

unfoldable pub is_whitespace : ℕ → Bool
is_whitespace c = c == 9 || c == 10 || c == 13 || c == 32

-- `c & ~32`, for a code unit.
abbrev pub without_bit5 : ℕ → ℕ
without_bit5 c = c - 32 * (c / 32 % 2)

unfoldable pub is_ident_or_keyword_start : ℕ → Bool
is_ident_or_keyword_start c =
    c == 95 || c == 36 || (leb 65 (without_bit5 c) && leb (without_bit5 c) 90)

unfoldable pub is_number : ℕ → Bool
is_number c = leb 48 c && leb c 57

unfoldable pub is_identifier : ℕ → Bool
unfolding is_ident_or_keyword_start is_number
is_identifier c = is_ident_or_keyword_start c || is_number c

unfoldable pub is_quote : ℕ → Bool
is_quote c = c == 34 || c == 39

unfoldable pub is_operator : ℕ → Bool
is_operator c =
    c == 43
    || c == 45
    || c == 42
    || c == 47
    || c == 33
    || c == 38
    || c == 37
    || c == 60
    || c == 61
    || c == 62
    || c == 63
    || c == 94
    || c == 124

unfoldable pub is_grouper : ℕ → Bool
is_grouper c = c == 40 || c == 41 || c == 91 || c == 93 || c == 123 || c == 125

-- What stands for the character behind a backslash.
unfoldable pub escaped : ℕ → ℕ
escaped c =
    if c == b'n'
    then 10
    else if c == b'r'
    then 13
    else if c == b't'
    then 9
    else if c == b'b'
    then 8
    else if c == b'f'
    then 12
    else c

-- The characters that `.` of a regular expression does not match.
unfoldable pub is_line_terminator : ℕ → Bool
is_line_terminator c = c == 10 || c == 13 || c == 0x2028 || c == 0x2029

-- `str.replace(/\\(.)/g, …)`.
unfoldable pub escape_string : Text → Text
unfolding escaped is_line_terminator
escape_string [] = []
escape_string (c ∷ []) = c ∷ []
escape_string (c ∷ d ∷ s) =
    let plain = c ∷ escape_string (d ∷ s) in
    let replaced = escaped d ∷ escape_string s in
    if c == 92 then (if is_line_terminator d then plain else replaced) else plain

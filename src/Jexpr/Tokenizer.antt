-- ===== src/Jexpr/Tokenizer.antt =====
-- The class `Tokenizer` of lib/lunula/assets/jexpr.js. Its loops take fuel, one round for each
-- character of the input and one more.
pub mod Positions
pub mod Words
pub mod Garbled
pub mod Escapes
use hacienda.Prelude.{
  ℕ, zero, suc, ◌+◌, ◌-◌, Bool, ◌&&◌, Option, none, some, List, [], ◌∷◌, Text, codes, ◌===◌,
  includes, length, drop, ltb, ◌==◌, if◌then◌else◌,
}
use hacienda.Jexpr.Chars.{
  at_char, is_whitespace, is_ident_or_keyword_start, is_number, is_identifier, is_quote,
  is_operator, is_grouper, escape_string,
}
use hacienda.Jexpr.Token.{
  string, identifier, dot, comma, colon, integer, decimal, operator, grouper, keyword, arrow, Token,
  Result, ok, throws, out_of_fuel, unterminated_string, expected_end, precedence_of,
  postfix_precedence, token, ◌>>=◌,
}

abbrev pub char_at : Text → ℕ → Option ℕ
char_at [] i = none
char_at (c ∷ s) zero = some c
char_at (c ∷ s) (suc i) = char_at s i

abbrev pub take : ℕ → Text → Text
take zero s = []
take (suc n) [] = []
take (suc n) (c ∷ s) = c ∷ take n s

-- `String.prototype.substring`, where the start is not behind the end.
abbrev pub substring : Text → ℕ → ℕ → Text
substring s from to = take (to - from) (drop from s)

-- `_next` is the character at the index.
pub record Tokenizer : Type 0 where
  pub input : Text
  pub index : ℕ
  pub token_start : ℕ

abbrev pub next : Tokenizer → Option ℕ
next t = char_at t.input t.index

-- The constructor, whose first step goes from the index -1 to 0.
abbrev pub new_tokenizer : Text → Tokenizer
new_tokenizer input = record { input = input; index = 0; token_start = 0 }

abbrev pub advance : Tokenizer → Tokenizer
advance t = record t { index = suc t.index }

-- `_advance(true)`: the start of the token follows, but not behind the end of the input.
abbrev pub advance_reset : Tokenizer → Tokenizer
advance_reset t = record t {
  index = suc t.index;
  token_start = if ltb (suc t.index) (length t.input) then suc t.index else t.token_start;
}

-- `_getValue(lookahead)`, which for no lookahead also starts the next token.
abbrev pub look : ℕ → Tokenizer → Text
look n t = substring t.input t.token_start (t.index + n)

abbrev pub start_here : Tokenizer → Tokenizer
start_here t = record t { token_start = t.index }

-- What a call of `nextToken` returns: a token, or `undefined` at the end.
abbrev pub Reading : Type 0
Reading = Result (Option Token × Tokenizer)

abbrev pub read : Token → Tokenizer → Reading
read k t = ok (some k, t)

-- `while (p(this._next)) this._advance()`.
unfoldable pub advance_while : (ℕ → Bool) → ℕ → Tokenizer → Tokenizer
advance_while p zero t = t
advance_while p (suc fuel) t =
    let rest = advance_while p fuel (advance t) in if at_char p (next t) then rest else t

unfoldable pub skip_whitespace : ℕ → Tokenizer → Tokenizer
unfolding is_whitespace
skip_whitespace zero t = t
skip_whitespace (suc fuel) t =
    let rest = skip_whitespace fuel (advance_reset t) in
    if at_char is_whitespace (next t) then rest else t

abbrev pub fuel_of : Tokenizer → ℕ
fuel_of t = suc (length t.input)

-- The loop of `_tokenizeString`: to the closing quote, past each backslash and what it escapes.
unfoldable pub scan_string : ℕ → ℕ → Tokenizer → Result Tokenizer
scan_string zero quote t = out_of_fuel
scan_string (suc fuel) quote t = elim (next t) [
  | none ↦ throws unterminated_string
  | some c ↦
      let plain = scan_string fuel quote (advance t) in
      let behind = scan_string fuel quote (advance (advance t)) in
      let escape : Result Tokenizer = elim (next (advance t)) [
        | none ↦ throws unterminated_string
        | some d ↦ behind
      ] in
      if c == quote then ok t else if c == 92 then escape else plain
]

unfoldable pub tokenize_string : ℕ → Tokenizer → Reading
unfolding scan_string escape_string
tokenize_string quote t = scan_string (fuel_of t) quote (advance_reset t) >>= λ t'.
    read (token string (escape_string (look 0 t'))) (advance (start_here t'))

unfoldable pub tokenize_ident_or_keyword : Tokenizer → Reading
unfolding advance_while is_identifier
tokenize_ident_or_keyword t =
    let t' = advance_while is_identifier (fuel_of t) (advance t) in
    let value = look 0 t' in
    read (token (if value === codes "this" then keyword else identifier) value) (start_here t')

unfoldable pub tokenize_fraction : Tokenizer → Reading
unfolding advance_while is_number
tokenize_fraction t =
    let t' = advance_while is_number (fuel_of t) (advance t) in
    read (token decimal (look 0 t')) (start_here t')

abbrev dot_token : Token
dot_token = record { kind = dot; value = codes "."; precedence = postfix_precedence }

unfoldable pub tokenize_dot : Tokenizer → Reading
unfolding tokenize_fraction is_number
tokenize_dot t =
    let t' = advance t in
    if at_char is_number (next t') then tokenize_fraction t' else read dot_token (start_here t')

unfoldable pub tokenize_number : Tokenizer → Reading
unfolding advance_while is_number tokenize_dot
tokenize_number t =
    let t' = advance_while is_number (fuel_of t) (advance t) in
    if at_char (λ c. c == 46) (next t')
    then tokenize_dot t'
    else read (token integer (look 0 t')) (start_here t')

-- The end of `_tokenizeOperator`: the text from the start of the token to the index.
abbrev pub operator_token : Tokenizer → Reading
operator_token t =
    let op = look 0 t in
    read (record { kind = operator; value = op; precedence = precedence_of op }) (start_here t)

abbrev pub two_character_operators : List Text
two_character_operators =
    codes "==" ∷ codes "!=" ∷ codes "<=" ∷ codes ">=" ∷ codes "||" ∷ codes "&&" ∷ codes "??" ∷ []

unfoldable pub tokenize_operator : Tokenizer → Reading
tokenize_operator t =
    let t' = advance t in
    if at_char (λ c. c == 46) (next t') && at_char (λ c. c == 63) (next t)
    then (let t'' = advance t' in read dot_token (start_here t''))
    else if includes (codes "===" ∷ codes "!==" ∷ []) (look 2 t')
    then operator_token (advance (advance t'))
    else if look 1 t' === codes "=>"
    then read (token arrow (look 1 t')) (advance t')
    else if includes two_character_operators (look 1 t')
    then operator_token (advance t')
    else operator_token t'

unfoldable pub tokenize_grouper : ℕ → Tokenizer → Reading
tokenize_grouper c t =
    read (record { kind = grouper; value = c ∷ []; precedence = precedence_of (c ∷ []) })
      (advance_reset t)

-- `nextToken`, behind the white space and at a character.
unfoldable pub token_at : ℕ → Tokenizer → Reading
unfolding is_quote is_ident_or_keyword_start is_number is_operator is_grouper
token_at c t =
    if is_quote c
    then tokenize_string c t
    else if is_ident_or_keyword_start c
    then tokenize_ident_or_keyword t
    else if is_number c
    then tokenize_number t
    else if c == 46
    then tokenize_dot t
    else if c == 44
    then read (token comma (codes ",")) (advance_reset t)
    else if c == 58
    then read (token colon (codes ":")) (advance_reset t)
    else if is_operator c
    then tokenize_operator t
    else if is_grouper c
    then tokenize_grouper c t
    else elim (next (advance t)) [ none ↦ ok (none, advance t) | some d ↦ throws (expected_end d) ]

-- `nextToken`, behind the white space.
unfoldable pub read_token : Tokenizer → Reading
read_token t = elim (next t) [ none ↦ ok (none, advance t) | some c ↦ token_at c t ]

unfoldable pub next_token : Tokenizer → Reading
unfolding read_token
next_token t = read_token (skip_whitespace (fuel_of t) t)

-- ===== src/Jexpr/Tests.antt =====
-- Runs of the parser of lib/lunula/assets/jexpr.js, and the theorems of Jexpr at concrete inputs.
use hacienda.Prelude.{◌≡◌, refl, some, [], ◌∷◌, codes, ◌===◌, includes, arith}
use hacienda.Jexpr.Token.{ok, throws, out_of_fuel, token, string, unknown_operator}
use hacienda.Jexpr.Tokenizer.{
  next_token, new_tokenizer, skip_whitespace, token_at, read_token, tokenize_string,
  tokenize_ident_or_keyword, tokenize_number, tokenize_fraction, tokenize_dot, tokenize_operator,
  tokenize_grouper, advance_while,
}
use hacienda.Jexpr.Syntax.{
  id, binary, unary, invoke, literal, Literal, list, nil, cons, getter, arrow_function, Param, map,
  entry, end, unsigned, minus,
}
use hacienda.Jexpr.Token.{precedence_of}
use hacienda.Jexpr.Chars.{is_quote, is_operator, is_line_terminator}
use hacienda.Jexpr.Tokenizer.Escapes.{next_token-spelling, as_is, behind_backslash}
use hacienda.Jexpr.Parse.Garbled.{parse-operator_behind_string}
use hacienda.Jexpr.Parser.Steps.{at}
use hacienda.Jexpr.Parser.Braces.{brace, parse_right-brace}
use hacienda.Jexpr.Parser.{
  parse_with, parse_right, make_invoke_or_getter, set_entry, advance, expect_kind, expect,
  parse_literal,
}
use hacienda.Jexpr.Parse.{parse}
use hacienda.Jexpr.Ids.{get_ids, reported_ids}
use hacienda.Jexpr.Ids.Names.{get_ids-names, names}

a_call :
    parse 40 (codes "a + b.f(1, 'x') * c")
    ≡ ok (
        binary (id (codes "a")) (codes "+") (
          binary
            (invoke (id (codes "b")) (some (codes "f")) (
              cons
                (literal (Literal.integer unsigned (codes "1")))
                (cons (literal (Literal.text (codes "x"))) nil)))
            (codes "*")
            (id (codes "c"))))
unfolding parse parse_with next_token skip_whitespace token_at read_token make_invoke_or_getter
    set_entry advance expect_kind expect parse_literal tokenize_string tokenize_ident_or_keyword
    tokenize_number tokenize_fraction tokenize_dot tokenize_operator tokenize_grouper advance_while
    precedence_of ◌===◌ includes
a_call = refl

an_assignment :
    parse 40 (codes "menuOpen = !menuOpen")
    ≡ ok (binary (id (codes "menuOpen")) (codes "=") (unary (codes "!") (id (codes "menuOpen"))))
unfolding parse parse_with next_token skip_whitespace token_at read_token make_invoke_or_getter
    set_entry advance expect_kind expect parse_literal tokenize_string tokenize_ident_or_keyword
    tokenize_number tokenize_fraction tokenize_dot tokenize_operator tokenize_grouper advance_while
    precedence_of ◌===◌ includes
an_assignment = refl

a_map :
    parse 40 (codes "{page: 'next', n: [1, -2.5]}")
    ≡ ok (
        map (
          entry (codes "page") (literal (Literal.text (codes "next"))) (
            entry
              (codes "n")
              (list (
                cons
                  (literal (Literal.integer unsigned (codes "1")))
                  (cons (literal (Literal.decimal minus (codes "2.5"))) nil)))
              end)))
unfolding parse parse_with next_token skip_whitespace token_at read_token make_invoke_or_getter
    set_entry advance expect_kind expect parse_literal tokenize_string tokenize_ident_or_keyword
    tokenize_number tokenize_fraction tokenize_dot tokenize_operator tokenize_grouper advance_while
    precedence_of ◌===◌ includes
a_map = refl

a_function :
    parse 40 (codes "x => x.name")
    ≡ ok (arrow_function (Param.name (codes "x") ∷ []) (getter (id (codes "x")) (codes "name")))
unfolding parse parse_with next_token skip_whitespace token_at read_token make_invoke_or_getter
    set_entry advance expect_kind expect parse_literal tokenize_string tokenize_ident_or_keyword
    tokenize_number tokenize_fraction tokenize_dot tokenize_operator tokenize_grouper advance_while
    precedence_of ◌===◌ includes
a_function = refl

-- Without the space, the identifier behind the arrow is misread.
a_function_without_spaces :
    parse 40 (codes "x=>x.name")
    ≡ ok (arrow_function (Param.name (codes "x") ∷ []) (getter (id (codes "=>x")) (codes "name")))
unfolding parse parse_with next_token skip_whitespace token_at read_token make_invoke_or_getter
    set_entry advance expect_kind expect parse_literal tokenize_string tokenize_ident_or_keyword
    tokenize_number tokenize_fraction tokenize_dot tokenize_operator tokenize_grouper advance_while
    precedence_of ◌===◌ includes
a_function_without_spaces = refl

-- An expression that the parser does not come to the end of.
an_open_brace : parse 400 (codes "a + b {") ≡ out_of_fuel
unfolding parse parse_with next_token skip_whitespace token_at read_token make_invoke_or_getter
    set_entry advance expect_kind expect parse_literal tokenize_string tokenize_ident_or_keyword
    tokenize_number tokenize_fraction tokenize_dot tokenize_operator tokenize_grouper advance_while
    precedence_of ◌===◌ includes
an_open_brace = refl

next_token-spelling_example :
    next_token (new_tokenizer (codes "'a\\n\\'' c"))
    ≡ ok (
      some (token string (97 ∷ 10 ∷ 39 ∷ [])),
      record { input = codes "'a\\n\\'' c"; index = 7; token_start = 6 },
    )
unfolding is_quote is_line_terminator
next_token-spelling_example =
    next_token-spelling (new_tokenizer (codes "'a\\n\\'' c")) 39
      (as_is 97 ∷ behind_backslash 110 ∷ behind_backslash 39 ∷ []) (codes " c") refl refl
      ((refl, refl), (refl, (refl, tt)))

parse-operator_behind_string_example :
    parse 5 (codes "'a'+b") ≡ throws (unknown_operator (codes "'+"))
unfolding is_quote is_operator
parse-operator_behind_string_example =
    parse-operator_behind_string 5 39 43 (codes "a") (codes "b") refl ((refl, refl), tt) refl refl
      (omega arith)

parse_right-brace_example :
    parse_right next_token 7 (id (codes "b")) 11 (at (some brace) (new_tokenizer [])) ≡ out_of_fuel
parse_right-brace_example =
    parse_right-brace next_token 7 (id (codes "b")) 11 (new_tokenizer []) refl (omega arith)

-- The parameter of a function that is an argument is reported like a free name.
a_reported_parameter :
    reported_ids (
      invoke (id (codes "items")) (some (codes "filter")) (
        cons
          (arrow_function (Param.name (codes "x") ∷ []) (getter (id (codes "x")) (codes "done")))
          nil))
    ≡ some (codes "items" ∷ codes "x" ∷ [])
unfolding reported_ids get_ids includes ◌===◌
a_reported_parameter = refl

get_ids-names_example :
    get_ids
      (arrow_function
        (Param.name (codes "x") ∷ [])
        (binary (id (codes "x")) (codes "+") (id (codes "y"))))
      []
    ≡ some (codes "x" ∷ codes "y" ∷ [], codes "y" ∷ [])
unfolding ◌===◌ names
get_ids-names_example =
    get_ids-names
      (arrow_function (Param.name (codes "x") ∷ [])
        (binary (id (codes "x")) (codes "+") (id (codes "y"))))
      []

-- ===== src/Jexpr/Parse.antt =====
-- `parse` of lib/lunula/assets/jexpr.js: the parser over the tokenizer.
pub mod Garbled
use hacienda.Prelude.{ℕ, Text}
use hacienda.Jexpr.Token.{Result}
use hacienda.Jexpr.Tokenizer.{next_token, new_tokenizer}
use hacienda.Jexpr.Syntax.{Expr}
use hacienda.Jexpr.Parser.{parse_with}

unfoldable pub parse : ℕ → Text → Result Expr
unfolding parse_with
parse fuel input = parse_with next_token fuel (new_tokenizer input)

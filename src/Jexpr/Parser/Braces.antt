-- ===== src/Jexpr/Parser/Braces.antt =====
-- The loop of `_parseBinary` of lib/lunula/assets/jexpr.js at an opening brace.
use hacienda.Prelude.{
  ℕ, zero, suc, ◌<◌, ◌≡◌, refl, true, false, Option, some, ◌===◌, codes, ltb, arith,
}
use hacienda.Jexpr.Token.{Token, Kind, Result, ok, out_of_fuel}
use hacienda.Jexpr.Syntax.{Expr}
use hacienda.Jexpr.Parser.{is_absent, parse_right, parse_precedence}
use hacienda.Jexpr.Parser.Steps.{at, bind-ok}

abbrev pub brace : Token
brace = record { kind = Kind.grouper; value = codes "{"; precedence = 13 }

module _ {ℓ} {S : Type ℓ} (next_token : S → Result (Option Token × S)) where
  parse_precedence-brace :
      (f : ℕ) (left : Expr) (precedence : ℕ) (s : S)
      → is_absent left ≡ false
      → parse_precedence next_token (suc f) left precedence (at (some brace) s)
        ≡ ok (left, at (some brace) s)
  unfolding parse_precedence ◌===◌
  parse_precedence-brace f left precedence s a = rw a refl

  -- Once the right operand of a binary operator is followed by an opening brace, the loop of
  -- `_parseBinary` does not end: with any fuel it asks for more, since `_parsePrecedence` returns at
  -- the brace without reading it, and the precedence of the brace keeps the loop going.
  pub parse_right-brace :
      (fuel : ℕ) (right : Expr) (precedence : ℕ) (s : S)
      → is_absent right ≡ false
      → precedence < 13
      → parse_right next_token fuel right precedence (at (some brace) s) ≡ out_of_fuel
  unfolding parse_right
  parse_right-brace zero right precedence s a l = refl
  parse_right-brace (suc zero) right precedence s a l =
      let below : ltb precedence 13 ≡ true = ground arith in rw below refl
  parse_right-brace (suc (suc f)) right precedence s a l =
      let below : ltb precedence 13 ≡ true = ground arith in
      rw below (
        rw
          (bind-ok (λ p. parse_precedence next_token (suc f) right 13 p)
            (λ r. parse_right next_token (suc f) r precedence) (at (some brace) s)
            (at (some brace) s) right (parse_precedence-brace f right 13 s a))
          (parse_right-brace (suc f) right precedence s a l))

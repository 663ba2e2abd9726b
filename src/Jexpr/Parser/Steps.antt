-- ===== src/Jexpr/Parser/Steps.antt =====
-- Steps of the parser of lib/lunula/assets/jexpr.js, for proofs that follow a run.
use hacienda.Prelude.{leb, ℕ, suc, ◌≡◌, refl, true, false, Option, some, Text, ◌===◌, codes}
use hacienda.Jexpr.Token.{Token, Kind, Result, ok, throws, SyntaxError}
use hacienda.Jexpr.Syntax.{Expr, literal, Literal}
use hacienda.Jexpr.Parser.{
  Parser, Parse, ◌>>=◌, advance, expect, expect_kind, parse_literal, is_token, is_kind, is_absent,
  parse_expression, parse_precedence, parse_binary,
}

-- The parser at a token.
abbrev pub at {ℓ} : {S : Type ℓ} → Option Token → S → Parser S
at t s = record { current = t; source = s }

module _ {ℓ κ κ'} {S : Type ℓ} {A : Type κ} {B : Type κ'} where
  pub bind-ok :
      (m : Parse S A) (k : A → Parse S B) (p p' : Parser S) (a : A)
      → m p ≡ ok (a, p')
      → (m >>= k) p ≡ k a p'
  bind-ok m k p p' a h = rw h refl

  pub bind-throws :
      (m : Parse S A) (k : A → Parse S B) (p : Parser S) (e : SyntaxError)
      → m p ≡ throws e
      → (m >>= k) p ≡ throws e
  bind-throws m k p e h = rw h refl

module _ {ℓ} {S : Type ℓ} (next_token : S → Result (Option Token × S)) where
  pub advance-ok :
      (p : Parser S) (t : Option Token) (s : S)
      → next_token p.source ≡ ok (t, s)
      → advance next_token p ≡ ok (tt, at t s)
  unfolding advance
  advance-ok p t s h = rw (advance, h) refl

  pub expect-ok :
      (k : Kind) (v : Text) (p : Parser S) (t : Option Token) (s : S)
      → is_token k v p.current ≡ true
      → next_token p.source ≡ ok (t, s)
      → expect next_token k v p ≡ ok (tt, at t s)
  unfolding expect
  expect-ok k v p t s m h = rw m (advance-ok p t s h)

  pub expect_kind-ok :
      (k : Kind) (p : Parser S) (t : Option Token) (s : S)
      → is_kind k p.current ≡ true
      → next_token p.source ≡ ok (t, s)
      → expect_kind next_token k p ≡ ok (tt, at t s)
  unfolding expect_kind
  expect_kind-ok k p t s m h = rw m (advance-ok p t s h)

  pub parse_literal-ok :
      (l : Literal) (p : Parser S) (t : Option Token) (s : S)
      → next_token p.source ≡ ok (t, s)
      → parse_literal next_token l p ≡ ok (literal l, at t s)
  unfolding parse_literal
  parse_literal-ok l p t s h = rw (advance-ok p t s h) refl

  -- A step of the loop of `_parsePrecedence` at a binary operator that binds tightly enough.
  pub parse_precedence-operator :
      (f : ℕ) (left : Expr) (precedence : ℕ) (op : Text) (binds : ℕ) (s : S)
      → is_absent left ≡ false
      → leb precedence binds ≡ true
      → (op === codes "?") ≡ false
      → let p = at (some (record { kind = Kind.operator; value = op; precedence = binds })) s in
        parse_precedence next_token (suc f) left precedence p
        ≡ (parse_binary next_token f left op binds >>= λ e.
              parse_precedence next_token f e precedence)
            p
  unfolding parse_expression
  parse_precedence-operator f left precedence op binds s a b q = rw (a, b, q) refl

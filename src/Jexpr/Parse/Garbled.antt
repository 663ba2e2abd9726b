-- ===== src/Jexpr/Parse/Garbled.antt =====
-- Source texts that `parse` of lib/lunula/assets/jexpr.js cuts up wrongly.
use hacienda.Prelude.{
  ℕ, suc, ◌+◌, ◌-◌, ◌≤◌, ◌≡◌, refl, ◌∙◌, true, false, Option, none, some, [], ◌∷◌, ◌++◌, Text,
  codes, length, drop, arith, All, inl, inr, ◌==◌, leb_zero, ◌===◌, includes,
}
use hacienda.Jexpr.Chars.{is_quote, is_operator}
use hacienda.Jexpr.Token.{
  Result, ok, Token, string, operator, token, precedence_of, binary_operators, throws,
  unknown_operator,
}
use hacienda.Jexpr.Tokenizer.{Tokenizer, new_tokenizer, next_token}
use hacienda.Jexpr.Tokenizer.Positions.{IsPlainIn}
use hacienda.Jexpr.Tokenizer.Words.{next_token-string}
use hacienda.Jexpr.Tokenizer.Garbled.{next_token-behind_string, quote-cases}
use hacienda.Jexpr.Syntax.{literal, Literal}
use hacienda.Jexpr.Parser.Steps.{
  at, bind-ok, bind-throws, advance-ok, parse_precedence-operator, parse_literal-ok,
}
use hacienda.Jexpr.Parser.{
  parse_with, parse_expression, parse_rest, parse_precedence, parse_binary, parse_unary,
}
use hacienda.Jexpr.Parse.{parse}

drop-append : (w r : Text) → drop (length w) (w ++ r) ≡ r
drop-append [] r = refl
drop-append (c ∷ w) r = drop-append w r

-- A literal with an operator behind it that is none of the binary operators.
stuck_at_operator :
    {S : Type 0} (tokens : S → Result (Option Token × S)) (fuel : ℕ) (s s1 s2 : S) (v op : Text)
    → tokens s ≡ ok (some (token string v), s1)
    → tokens s1
      ≡ ok (some (record { kind = operator; value = op; precedence = precedence_of op }), s2)
    → includes binary_operators op ≡ false
    → (op === codes "?") ≡ false
    → parse_with tokens (suc (suc (suc (suc (suc fuel))))) s ≡ throws (unknown_operator op)
unfolding parse_with parse_expression
stuck_at_operator tokens fuel s s1 s2 v op first second known question =
    let p0 = at none s in
    let p1 = at (some (token string v)) s1 in
    let p2 = at (some (record { kind = operator; value = op; precedence = precedence_of op })) s2 in
    let read = advance-ok tokens p0 p1.current s1 first in
    let operand : parse_unary tokens (suc (suc (suc (suc fuel)))) p1
        ≡ ok (literal (Literal.text v), p2) =
      parse_literal-ok tokens (Literal.text v) p1 p2.current s2 second in
    let rest : parse_rest tokens (suc (suc (suc (suc fuel)))) (literal (Literal.text v)) p2
        ≡ throws (unknown_operator op) =
      parse_precedence-operator tokens (suc (suc fuel)) (literal (Literal.text v)) 0 op
        (precedence_of op) s2 refl (leb_zero (precedence_of op)) question
      ∙ bind-throws
          (parse_binary tokens (suc (suc fuel)) (literal (Literal.text v)) op (precedence_of op))
          (λ e. parse_precedence tokens (suc (suc fuel)) e 0) p2 (unknown_operator op)
          (rw known refl) in
    rw read (
      rw
        (bind-ok (parse_unary tokens (suc (suc (suc (suc fuel)))))
          (parse_rest tokens (suc (suc (suc (suc fuel))))) p1 p2 _ operand)
        (rw rest refl))

-- A string literal in plain characters with an operator other than `?` directly behind it does not
-- parse, whatever follows: the operator is taken together with the closing quote, and that is no
-- operator.
pub parse-operator_behind_string :
    (fuel q c : ℕ) (w r : Text)
    → is_quote q ≡ true
    → All (IsPlainIn q) w
    → is_operator c ≡ true
    → (c == 63) ≡ false
    → 5 ≤ fuel
    → parse fuel (q ∷ (w ++ q ∷ c ∷ r)) ≡ throws (unknown_operator (q ∷ c ∷ []))
unfolding parse includes ◌===◌
parse-operator_behind_string fuel q c w r iq pw ic nc enough =
    let input = q ∷ (w ++ q ∷ c ∷ r) in
    let n : 1 + length w ≡ suc (length w) = omega arith in
    let behind : Tokenizer = record {
      input = input;
      index = suc (1 + length w);
      token_start = 1 + length w;
    } in
    let first = next_token-string (new_tokenizer input) q w (c ∷ r) iq refl pw in
    let second =
      next_token-behind_string behind q c r iq ic nc (rw n (drop-append w (q ∷ c ∷ r))) refl in
    let known : includes binary_operators (q ∷ c ∷ []) ≡ false = elim (quote-cases q iq) [
      | inl e ↦ rw e refl
      | inr e ↦ rw e refl
    ] in
    let question : ((q ∷ c ∷ []) === codes "?") ≡ false = elim (quote-cases q iq) [
      | inl e ↦ rw e refl
      | inr e ↦ rw e refl
    ] in
    let e : fuel ≡ suc (suc (suc (suc (suc (fuel - 5))))) = omega arith in
    rw e (
      stuck_at_operator next_token (fuel - 5) (new_tokenizer input) behind _ _ (q ∷ c ∷ []) first
        second known question)

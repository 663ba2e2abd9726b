-- ===== src/Jexpr/Tokenizer/Garbled.antt =====
-- Where the tokenizer of lib/lunula/assets/jexpr.js starts a token too early: behind a string, whose
-- closing quote it has not left behind, and behind an arrow.
use hacienda.Prelude.{
  ℕ, suc, ◌+◌, ◌-◌, ◌≡◌, refl, ap, Bool, true, false, ◌&&◌, some, [], ◌∷◌, Text, drop, arith, inl,
  inr, ◌==◌, ◌⊎◌, ◌===◌, includes,
}
use hacienda.Jexpr.Chars.{
  at_char, is_whitespace, is_quote, is_ident_or_keyword_start, is_number, is_operator,
}
use hacienda.Jexpr.Token.{ok, operator, precedence_of}
use hacienda.Jexpr.Tokenizer.{
  take, Tokenizer, next, advance, look, tokenize_operator, token_at, next_token,
}
use hacienda.Jexpr.Tokenizer.Positions.{At, char_at-drop, drop-suc}
use hacienda.Jexpr.Tokenizer.Words.{next_token-token_at}

operator_not_whitespace : (c : ℕ) → is_operator c ≡ true → is_whitespace c ≡ false
unfolding is_operator is_whitespace
operator_not_whitespace c h = ground arith

token_at-operator :
    (t : Tokenizer) (c : ℕ) → is_operator c ≡ true → token_at c t ≡ tokenize_operator t
unfolding token_at is_operator is_quote is_ident_or_keyword_start is_number
token_at-operator t c h = ground arith

-- The text from the start of the token, where that is one character too early.
look-early :
    (n : ℕ) (t : Tokenizer) (q c : ℕ) (r : Text)
    → drop t.token_start t.input ≡ q ∷ c ∷ r
    → t.index ≡ suc (suc t.token_start)
    → look n t ≡ q ∷ c ∷ take n r
look-early n t q c r h e =
    let m : t.index + n - t.token_start ≡ suc (suc n) = omega arith in rw (m, h) refl

pub quote-cases : (q : ℕ) → is_quote q ≡ true → (q ≡ 34) ⊎ (q ≡ 39)
unfolding is_quote
quote-cases q h = ground arith

and_false : (b : Bool) → (b && false) ≡ false
and_false true = refl
and_false false = refl

-- An operator that stands directly behind a string is read together with the closing quote.
pub next_token-behind_string :
    (t : Tokenizer) (q c : ℕ) (r : Text)
    → is_quote q ≡ true
    → is_operator c ≡ true
    → (c == 63) ≡ false
    → drop t.token_start t.input ≡ q ∷ c ∷ r
    → t.index ≡ suc t.token_start
    → next_token t
      ≡ ok (
        some (record {
          kind = operator;
          value = q ∷ c ∷ [];
          precedence = precedence_of (q ∷ c ∷ []);
        }),
        record t { index = suc t.index; token_start = suc t.index },
      )
unfolding tokenize_operator includes ◌===◌
next_token-behind_string t q c r iq ic nc h e =
    let at : At t (c ∷ r) = rw e (drop-suc t.input t.token_start q (c ∷ r) h) in
    let first : next t ≡ some c = char_at-drop t.input t.index c r at in
    let start = λ (n : ℕ). look-early n (advance t) q c r h (ap suc e) in
    rw (next_token-token_at t c r at (operator_not_whitespace c ic), token_at-operator t c ic)
      (rw first (
        rw (nc, start 2, start 1, start 0)
          (elim (quote-cases q iq) [
            | inl e' ↦ rw (e', and_false (at_char (λ d. d == 46) (next (advance t)))) refl
            | inr e' ↦ rw (e', and_false (at_char (λ d. d == 46) (next (advance t)))) refl
          ])))

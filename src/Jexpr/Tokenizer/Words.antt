-- ===== src/Jexpr/Tokenizer/Words.antt =====
-- What the tokenizer of lib/lunula/assets/jexpr.js reads as a string, an identifier or an operator.
use hacienda.Prelude.{
  ℕ, suc, ◌+◌, ◌<◌, ◌≡◌, ap, true, false, some, ◌∷◌, ◌++◌, Text, length, length-drop, length-append,
  arith, All,
}
use hacienda.Jexpr.Chars.{is_whitespace, is_quote, escape_string}
use hacienda.Jexpr.Token.{ok, string, token}
use hacienda.Jexpr.Tokenizer.{
  Tokenizer, advance, advance_reset, start_here, fuel_of, tokenize_string, token_at, read_token,
  next_token, Reading, read,
}
use hacienda.Jexpr.Tokenizer.Positions.{
  At, forward, At-fuel, char_at-drop, drop-suc, substring-append, skip_whitespace-stays, IsPlainIn,
  scan_string-forward,
}

pub quote_not_whitespace : (q : ℕ) → is_quote q ≡ true → is_whitespace q ≡ false
unfolding is_quote is_whitespace
quote_not_whitespace q h = ground arith

-- Without white space in front, `nextToken` dispatches on the next character.
pub next_token-token_at :
    (t : Tokenizer) (c : ℕ) (r : Text)
    → At t (c ∷ r)
    → is_whitespace c ≡ false
    → next_token t ≡ token_at c t
unfolding next_token
next_token-token_at t c r h w =
    rw (skip_whitespace-stays (length t.input) t c r h w)
      (rw (char_at-drop t.input t.index c r h, read_token))

-- `_advance(true)` before the end of the input.
pub advance_reset-inside :
    (t : Tokenizer) (c : ℕ) (r : Text)
    → At t (c ∷ r)
    → 0 < length r
    → advance_reset t ≡ record t { index = suc t.index; token_start = suc t.index }
advance_reset-inside t c r h l =
    let inside : suc t.index < length t.input =
      omega (arith, ap length h, length-drop t.index t.input) in
    ground arith

tokenize_string-forward :
    (t : Tokenizer) (quote : ℕ) (w r : Text)
    → At t (quote ∷ (w ++ quote ∷ r))
    → All (IsPlainIn quote) w
    → tokenize_string quote t
      ≡ ok (
        some (token string (escape_string w)),
        record t { index = suc (suc t.index + length w); token_start = suc t.index + length w },
      )
unfolding tokenize_string
tokenize_string-forward t quote w r h a =
    let t' : Tokenizer = record t { index = suc t.index; token_start = suc t.index } in
    let at : At t' (w ++ quote ∷ r) = drop-suc t.input t.index quote (w ++ quote ∷ r) h in
    let result : Text → Reading =
      λ v. read (token string (escape_string v)) (advance (start_here (forward (length w) t'))) in
    let some_left : 0 < length (w ++ quote ∷ r) = omega (arith, length-append w (quote ∷ r)) in
    rw
      (
        advance_reset-inside t quote (w ++ quote ∷ r) h some_left,
        scan_string-forward (fuel_of t') quote t' w r at a (At-fuel t' w (quote ∷ r) at),
      )
      (ap result (
        substring-append t.input (suc t.index) (suc t.index + length w + 0) w (quote ∷ r) at
          (omega arith)))

-- A string literal without backslashes is read up to its closing quote; the next token then counts
-- as starting at that quote.
pub next_token-string :
    (t : Tokenizer) (quote : ℕ) (w r : Text)
    → is_quote quote ≡ true
    → At t (quote ∷ (w ++ quote ∷ r))
    → All (IsPlainIn quote) w
    → next_token t
      ≡ ok (
        some (token string (escape_string w)),
        record t { index = suc (suc t.index + length w); token_start = suc t.index + length w },
      )
unfolding token_at tokenize_string
next_token-string t quote w r q h a =
    rw (next_token-token_at t quote (w ++ quote ∷ r) h (quote_not_whitespace quote q), q)
      (tokenize_string-forward t quote w r h a)

-- ===== src/Jexpr/Tokenizer/Escapes.antt =====
-- String literals with escapes, as the tokenizer of lib/lunula/assets/jexpr.js reads them.
use hacienda.Prelude.{
  ℕ, zero, suc, ◌+◌, ◌<◌, ◌≡◌, refl, ap, ◌∙◌, true, false, some, List, [], ◌∷◌, ◌++◌, Text, length,
  length-append, arith, All, ◌==◌, ==_refl, if◌then◌else◌,
}
use hacienda.Jexpr.Chars.{is_quote, escape_string, escaped, is_line_terminator}
use hacienda.Jexpr.Token.{ok, string, token}
use hacienda.Jexpr.Tokenizer.{
  Tokenizer, advance, start_here, fuel_of, tokenize_string, scan_string, token_at, next_token,
  Reading, read,
}
use hacienda.Jexpr.Tokenizer.Positions.{
  At, forward, At-fuel, char_at-drop, drop-suc, substring-append, forward-advance, forward-zero,
}
use hacienda.Jexpr.Tokenizer.Words.{quote_not_whitespace, next_token-token_at, advance_reset-inside}

-- A character of a literal: as it is, or behind a backslash.
pub data Written : Type 0 where
  as_is behind_backslash : ℕ → Written

abbrev pub IsWritten : ℕ → Written → Type 0
IsWritten quote (as_is c) = ((c == quote) ≡ false) × ((c == 92) ≡ false)
IsWritten quote (behind_backslash c) = is_line_terminator c ≡ false

abbrev pub spelling : List Written → Text
spelling [] = []
spelling (as_is c ∷ ws) = c ∷ spelling ws
spelling (behind_backslash c ∷ ws) = 92 ∷ c ∷ spelling ws

-- The letters that stand for a control character.
abbrev pub letters : List (ℕ × ℕ)
letters = (110, 10) ∷ (114, 13) ∷ (116, 9) ∷ (98, 8) ∷ (102, 12) ∷ []

abbrev pub control_of : ℕ → List (ℕ × ℕ) → ℕ
control_of c [] = c
control_of c ((l, d) ∷ ls) = if c == l then d else control_of c ls

abbrev pub meaning : List Written → Text
meaning [] = []
meaning (as_is c ∷ ws) = c ∷ meaning ws
meaning (behind_backslash c ∷ ws) = control_of c letters ∷ meaning ws

escaped-letters : (c : ℕ) → escaped c ≡ control_of c letters
unfolding escaped
escaped-letters c = refl

escape_string-plain :
    (c : ℕ) (s : Text) → (c == 92) ≡ false → escape_string (c ∷ s) ≡ c ∷ escape_string s
unfolding escape_string
escape_string-plain c [] h = refl
escape_string-plain c (d ∷ s) h = rw h refl

escape_string-spelling :
    (quote : ℕ) (ws : List Written)
    → All (IsWritten quote) ws
    → escape_string (spelling ws) ≡ meaning ws
unfolding escape_string
escape_string-spelling quote [] a = refl
escape_string-spelling quote (as_is c ∷ ws) (h, a) =
    escape_string-plain c (spelling ws) h.1 ∙ ap (λ s. c ∷ s) (escape_string-spelling quote ws a)
escape_string-spelling quote (behind_backslash c ∷ ws) (h, a) =
    rw (h, escaped-letters c)
      (ap (λ s. control_of c letters ∷ s) (escape_string-spelling quote ws a))

scan_string-spelling :
    (fuel quote : ℕ) (t : Tokenizer) (ws : List Written) (r : Text)
    → is_quote quote ≡ true
    → At t (spelling ws ++ quote ∷ r)
    → All (IsWritten quote) ws
    → length (spelling ws) < fuel
    → scan_string fuel quote t ≡ ok (forward (length (spelling ws)) t)
unfolding scan_string is_quote
scan_string-spelling zero quote t ws r q h a l = absurd (omega arith)
scan_string-spelling (suc fuel) quote t [] r q h a l =
    rw (char_at-drop t.input t.index quote r h, scan_string, ==_refl quote, forward-zero t)
scan_string-spelling (suc fuel) quote t (as_is c ∷ ws) r q h a l =
    rw (char_at-drop t.input t.index c (spelling ws ++ quote ∷ r) h, scan_string, a.0.0, a.0.1)
      (scan_string-spelling fuel quote (advance t) ws r q
          (drop-suc t.input t.index c (spelling ws ++ quote ∷ r) h) a.1 (omega arith)
        ∙ ap ok (forward-advance (length (spelling ws)) t))
scan_string-spelling (suc fuel) quote t (behind_backslash c ∷ ws) r q h a l =
    let behind : At (advance t) (c ∷ (spelling ws ++ quote ∷ r)) =
      drop-suc t.input t.index 92 (c ∷ (spelling ws ++ quote ∷ r)) h in
    let no_quote : (92 == quote) ≡ false = ground arith in
    rw
      (
        char_at-drop t.input t.index 92 (c ∷ (spelling ws ++ quote ∷ r)) h,
        scan_string,
        no_quote,
        char_at-drop t.input (suc t.index) c (spelling ws ++ quote ∷ r) behind,
      )
      (scan_string-spelling fuel quote (advance (advance t)) ws r q
          (drop-suc t.input (suc t.index) c (spelling ws ++ quote ∷ r) behind) a.1 (omega arith)
        ∙ ap ok (
            forward-advance (length (spelling ws)) (advance t)
            ∙ forward-advance (suc (length (spelling ws))) t))

tokenize_string-spelling :
    (t : Tokenizer) (quote : ℕ) (ws : List Written) (r : Text)
    → is_quote quote ≡ true
    → At t (quote ∷ (spelling ws ++ quote ∷ r))
    → All (IsWritten quote) ws
    → tokenize_string quote t
      ≡ ok (
        some (token string (meaning ws)),
        record t {
          index = suc (suc t.index + length (spelling ws));
          token_start = suc t.index + length (spelling ws);
        },
      )
unfolding tokenize_string
tokenize_string-spelling t quote ws r q h a =
    let w : Text = spelling ws in
    let t' : Tokenizer = record t { index = suc t.index; token_start = suc t.index } in
    let at : At t' (w ++ quote ∷ r) = drop-suc t.input t.index quote (w ++ quote ∷ r) h in
    let result : Text → Reading =
      λ v. read (token string v) (advance (start_here (forward (length w) t'))) in
    let some_left : 0 < length (w ++ quote ∷ r) = omega (arith, length-append w (quote ∷ r)) in
    rw
      (
        advance_reset-inside t quote (w ++ quote ∷ r) h some_left,
        scan_string-spelling (fuel_of t') quote t' ws r q at a (At-fuel t' w (quote ∷ r) at),
      )
      (ap result (
        ap escape_string (
          substring-append t.input (suc t.index) (suc t.index + length w + 0) w (quote ∷ r) at
            (omega arith))
        ∙ escape_string-spelling quote ws a))

-- A string literal is read up to its closing quote: a character is itself, and one behind a
-- backslash is the control character that it stands for (n, r, t, b and f) or else itself, quotes and
-- backslashes included. No line terminator stands behind a backslash, and the literal is at the very
-- start of what is left. The token then counts as starting at its closing quote.
pub next_token-spelling :
    (t : Tokenizer) (quote : ℕ) (ws : List Written) (r : Text)
    → is_quote quote ≡ true
    → At t (quote ∷ (spelling ws ++ quote ∷ r))
    → All (IsWritten quote) ws
    → next_token t
      ≡ ok (
        some (token string (meaning ws)),
        record t {
          index = suc (suc t.index + length (spelling ws));
          token_start = suc t.index + length (spelling ws);
        },
      )
unfolding token_at tokenize_string
next_token-spelling t quote ws r q h a =
    rw (next_token-token_at t quote (spelling ws ++ quote ∷ r) h (quote_not_whitespace quote q), q)
      (tokenize_string-spelling t quote ws r q h a)

-- ===== src/Jexpr/Tokenizer/Positions.antt =====
-- Where the tokenizer of lib/lunula/assets/jexpr.js stands, by the text that is left.
use hacienda.Prelude.{
  ℕ, zero, suc, ◌+◌, ◌-◌, ◌<◌, ◌≡◌, refl, ap, sym, ◌∙◌, Bool, true, false, none, some, [], ◌∷◌,
  ◌++◌, Text, length, drop, length-drop, length-append, arith, All, ◌==◌, ==_refl,
}
use hacienda.Jexpr.Chars.{at_char, is_whitespace}
use hacienda.Jexpr.Token.{ok}
use hacienda.Jexpr.Tokenizer.{
  char_at, take, substring, Tokenizer, next, advance, fuel_of, advance_while, skip_whitespace,
  scan_string,
}

pub char_at-drop : (s : Text) (i c : ℕ) (r : Text) → drop i s ≡ c ∷ r → char_at s i ≡ some c
char_at-drop [] zero c r h = cc
char_at-drop [] (suc i) c r h = cc
char_at-drop (d ∷ s) zero c r h = cc
char_at-drop (d ∷ s) (suc i) c r h = char_at-drop s i c r h

pub char_at-drop_nil : (s : Text) (i : ℕ) → drop i s ≡ [] → char_at s i ≡ none
char_at-drop_nil [] i h = refl
char_at-drop_nil (d ∷ s) zero h = cc
char_at-drop_nil (d ∷ s) (suc i) h = char_at-drop_nil s i h

pub drop-suc : (s : Text) (i c : ℕ) (r : Text) → drop i s ≡ c ∷ r → drop (suc i) s ≡ r
drop-suc [] zero c r h = cc
drop-suc [] (suc i) c r h = cc
drop-suc (d ∷ s) zero c r h = ground arith
drop-suc (d ∷ s) (suc i) c r h = drop-suc s i c r h

pub take-append : (w r : Text) → take (length w) (w ++ r) ≡ w
take-append [] r = refl
take-append (c ∷ w) r = ap (◌∷◌ c) (take-append w r)

pub substring-append :
    (s : Text) (from to : ℕ) (w r : Text)
    → drop from s ≡ w ++ r
    → to ≡ from + length w
    → substring s from to ≡ w
substring-append s from to w r h e =
    let n : to - from ≡ length w = omega arith in rw (n, h) (take-append w r)

-- The tokenizer stands before the text `s`.
abbrev pub At : Tokenizer → Text → Type 0
At t s = drop t.index t.input ≡ s

pub At-fuel : (t : Tokenizer) (w r : Text) → At t (w ++ r) → length w < fuel_of t
At-fuel t w r h = omega (arith, ap length h, length-drop t.index t.input, length-append w r)

-- The tokenizer, some characters further on.
abbrev pub forward : ℕ → Tokenizer → Tokenizer
forward n t = record t { index = t.index + n }

pub forward-advance : (n : ℕ) (t : Tokenizer) → forward n (advance t) ≡ forward (suc n) t
forward-advance n t =
    let e : suc t.index + n ≡ t.index + suc n = omega arith in ap (λ i. record t { index = i }) e

pub forward-zero : (t : Tokenizer) → forward 0 t ≡ t
forward-zero t = let e : t.index + 0 ≡ t.index = omega arith in ap (λ i. record t { index = i }) e

-- What fails the test at the head of a text.
abbrev pub Fails : (ℕ → Bool) → Text → Type 0
Fails p [] = Unit
Fails p (c ∷ s) = p c ≡ false

next-Fails :
    (p : ℕ → Bool) (t : Tokenizer) (r : Text) → At t r → Fails p r → at_char p (next t) ≡ false
next-Fails p t [] h f = rw (char_at-drop_nil t.input t.index h)
next-Fails p t (c ∷ r) h f = rw (char_at-drop t.input t.index c r h) f

pub advance_while-forward :
    (p : ℕ → Bool) (fuel : ℕ) (t : Tokenizer) (w r : Text)
    → At t (w ++ r)
    → All (λ c. p c ≡ true) w
    → Fails p r
    → length w < fuel
    → advance_while p fuel t ≡ forward (length w) t
unfolding advance_while
advance_while-forward p zero t w r h a f l = absurd (omega arith)
advance_while-forward p (suc fuel) t [] r h a f l = rw (next-Fails p t r h f) (sym (forward-zero t))
advance_while-forward p (suc fuel) t (c ∷ w) r h a f l =
    rw (char_at-drop t.input t.index c (w ++ r) h, a.0)
      (advance_while-forward p fuel (advance t) w r (drop-suc t.input t.index c (w ++ r) h) a.1 f
          (omega arith)
        ∙ forward-advance (length w) t)

pub skip_whitespace-stays :
    (fuel : ℕ) (t : Tokenizer) (c : ℕ) (r : Text)
    → At t (c ∷ r)
    → is_whitespace c ≡ false
    → skip_whitespace (suc fuel) t ≡ t
unfolding skip_whitespace
skip_whitespace-stays fuel t c r h w = rw (char_at-drop t.input t.index c r h, w)

-- A character of a string literal that ends neither the literal nor the search for its end.
abbrev pub IsPlainIn : ℕ → ℕ → Type 0
IsPlainIn quote c = ((c == quote) ≡ false) × ((c == 92) ≡ false)

pub scan_string-forward :
    (fuel quote : ℕ) (t : Tokenizer) (w r : Text)
    → At t (w ++ quote ∷ r)
    → All (IsPlainIn quote) w
    → length w < fuel
    → scan_string fuel quote t ≡ ok (forward (length w) t)
unfolding scan_string
scan_string-forward zero quote t w r h a l = absurd (omega arith)
scan_string-forward (suc fuel) quote t [] r h a l =
    rw (char_at-drop t.input t.index quote r h, scan_string, ==_refl quote, forward-zero t)
scan_string-forward (suc fuel) quote t (c ∷ w) r h a l =
    rw (char_at-drop t.input t.index c (w ++ quote ∷ r) h, scan_string, a.0.0, a.0.1)
      (scan_string-forward fuel quote (advance t) w r
          (drop-suc t.input t.index c (w ++ quote ∷ r) h) a.1 (omega arith)
        ∙ ap ok (forward-advance (length w) t))

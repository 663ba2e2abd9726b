-- ===== src/HeliumCsp/Commas/TopLevel.antt =====
-- The top-level parts of an expression for `preprocessCommaOperator` of
-- lib/lunula/assets/helium-csp.js.
use hacienda.Prelude.{
  ℕ, zero, suc, ◌+◌, ◌-◌, ◌≡◌, refl, ap, sym, ◌∙◌, true, false, ◌&&◌, Option, none, some, List, [],
  ◌∷◌, ◌++◌, append_assoc, append-nil, Text, codes, length, length-append, map, drop, ◌==◌, ◌⊎◌,
  arith, All,
}
use hacienda.HeliumCsp.Strings.{join, trim}
use hacienda.HeliumCsp.Commas.{
  pos, is_char, comma_positions, first_chars, slice, parts_from, preprocess_comma_operator,
}

-- Code with its brackets and strings.
pub data Code : Type 0 where
  nothing : Code
  char : ℕ → Code → Code
  -- The opening and the closing bracket, with what stands between them, and behind them.
  bracketed : ℕ → Code → ℕ → Code → Code
  -- The quote, what stands between the quotes, and behind them.
  literal : ℕ → Text → Code → Code

abbrev pub spell : Code → Text
spell nothing = []
spell (char c x) = c ∷ spell x
spell (bracketed o inner c x) = o ∷ (spell inner ++ c ∷ spell x)
spell (literal q content x) = q ∷ (content ++ q ∷ spell x)

abbrev pub IsQuote : ℕ → Type 0
IsQuote c = (c == 34 ≡ true) ⊎ (c == 39 ≡ true)

-- A text between quotes: the quote itself stands in it behind a backslash only, and no backslash is
-- its last character.
abbrev pub IsContent : ℕ → ℕ → Text → Type 0
IsContent q prev [] = prev == 92 ≡ false
IsContent q prev (c ∷ s) = ((c == q ≡ false) ⊎ (prev == 92 ≡ true)) × IsContent q c s

-- No quote, bracket or backslash.
abbrev pub IsPlain : ℕ → Type 0
IsPlain c =
    (c == 34 ≡ false)
    × (c == 39 ≡ false)
    × (c == 40 ≡ false)
    × (c == 41 ≡ false)
    × (c == 91 ≡ false)
    × (c == 93 ≡ false)
    × (c == 123 ≡ false)
    × (c == 125 ≡ false)
    × (c == 92 ≡ false)

-- Well-formed code within so many brackets; outside of all of them it has no comma.
abbrev pub IsCode : ℕ → Code → Type 0
IsCode depth nothing = Unit
IsCode depth (char c x) = IsPlain c × ((c == 44 && depth == 0) ≡ false) × IsCode depth x
IsCode depth (bracketed o inner c x) =
    ((o == 40 ≡ true) ⊎ (o == 91 ≡ true) ⊎ (o == 123 ≡ true))
    × ((c == 41 ≡ true) ⊎ (c == 93 ≡ true) ⊎ (c == 125 ≡ true))
    × IsCode (suc depth) inner
    × IsCode depth x
IsCode depth (literal q content x) = IsQuote q × IsContent q q content × IsCode depth x

positions-plain :
    (i c depth : ℕ) (prev : Option ℕ) (s : Text)
    → IsPlain c
    → (c == 44 && depth == 0) ≡ false
    → comma_positions i prev (pos depth) none (c ∷ s)
      ≡ comma_positions (suc i) (some c) (pos depth) none s
unfolding comma_positions
positions-plain i c depth prev s p h = ground arith

positions-open :
    (i c depth : ℕ) (prev : Option ℕ) (s : Text)
    → ((c == 40 ≡ true) ⊎ (c == 91 ≡ true) ⊎ (c == 123 ≡ true))
    → comma_positions i prev (pos depth) none (c ∷ s)
      ≡ comma_positions (suc i) (some c) (pos (suc depth)) none s
unfolding comma_positions
positions-open i c depth prev s p = ground arith

positions-close :
    (i c depth : ℕ) (prev : Option ℕ) (s : Text)
    → ((c == 41 ≡ true) ⊎ (c == 93 ≡ true) ⊎ (c == 125 ≡ true))
    → comma_positions i prev (pos (suc depth)) none (c ∷ s)
      ≡ comma_positions (suc i) (some c) (pos depth) none s
unfolding comma_positions
positions-close i c depth prev s p = ground arith

positions-quote :
    (i q depth : ℕ) (prev : Option ℕ) (s : Text)
    → IsQuote q
    → is_char 92 prev ≡ false
    → comma_positions i prev (pos depth) none (q ∷ s)
      ≡ comma_positions (suc i) (some q) (pos depth) (some q) s
unfolding comma_positions
positions-quote i q depth prev s p h = ground arith

positions-content :
    (i q depth prev : ℕ) (content s : Text)
    → IsQuote q
    → IsContent q prev content
    → comma_positions i (some prev) (pos depth) (some q) (content ++ q ∷ s)
      ≡ comma_positions (suc i + length content) (some q) (pos depth) none s
unfolding comma_positions
positions-content i q depth prev [] s quote h = ground arith
positions-content i q depth prev (c ∷ content) s quote h =
    ground (arith, positions-content (suc i) q depth c content s quote h.1)

positions-literal :
    (i q depth : ℕ) (prev : Option ℕ) (content s : Text)
    → IsQuote q
    → IsContent q q content
    → is_char 92 prev ≡ false
    → comma_positions i prev (pos depth) none (q ∷ (content ++ q ∷ s))
      ≡ comma_positions (suc (suc i) + length content) (some q) (pos depth) none s
positions-literal i q depth prev content s quote h p =
    positions-quote i q depth prev (content ++ q ∷ s) quote p
    ∙ positions-content (suc i) q depth q content s quote h

-- What the scan finds behind well-formed code, whatever character, but no backslash, is before it.
abbrev Behind : ℕ → ℕ → Text → List ℕ → Type 0
Behind i depth s found =
    (prev : Option ℕ) → is_char 92 prev ≡ false → comma_positions i prev (pos depth) none s ≡ found

Behind-at :
    (i j depth : ℕ) (s : Text) (found : List ℕ)
    → i ≡ j
    → Behind i depth s found
    → Behind j depth s found
Behind-at i j depth s found e b = rw (← e) b

-- Neither strings nor brackets make a position, and they leave the depth as it was.
positions-Code :
    (i depth : ℕ) (x : Code) (s : Text) (found : List ℕ)
    → IsCode depth x
    → Behind (i + length (spell x)) depth s found
    → Behind i depth (spell x ++ s) found
positions-Code i depth nothing s found h b prev p =
    Behind-at (i + 0) i depth s found (omega arith) b prev p
positions-Code i depth (char c x) s found h b prev p =
    let no_backslash : is_char 92 (some c) ≡ false = ground (arith, h.0) in
    positions-plain i c depth prev (spell x ++ s) h.0 h.1
    ∙ positions-Code (suc i) depth x s found h.2
        (Behind-at (i + suc (length (spell x))) (suc i + length (spell x)) depth s found
          (omega arith) b)
        (some c) no_backslash
positions-Code i depth (bracketed o inner c x) s found h b prev p =
    let after_open : is_char 92 (some o) ≡ false = ground (arith, h.0) in
    let after_close : is_char 92 (some c) ≡ false = ground (arith, h.1) in
    let j : ℕ = suc i + length (spell inner) in
    let place : i + suc (length (spell inner ++ c ∷ spell x)) ≡ suc j + length (spell x) =
      omega (arith, length-append (spell inner) (c ∷ spell x)) in
    let rest : Behind (suc j) depth (spell x ++ s) found =
      positions-Code (suc j) depth x s found h.3 (Behind-at _ _ depth s found place b) in
    let closing : Behind j (suc depth) (c ∷ (spell x ++ s)) found =
      λ prev' p'. positions-close j c depth prev' (spell x ++ s) h.1 ∙ rest (some c) after_close in
    ap (λ t. comma_positions i prev (pos depth) none (o ∷ t))
      (append_assoc (spell inner) (c ∷ spell x) s)
    ∙ positions-open i o depth prev (spell inner ++ c ∷ (spell x ++ s)) h.0
    ∙ positions-Code (suc i) (suc depth) inner (c ∷ (spell x ++ s)) found h.2 closing (some o)
        after_open
positions-Code i depth (literal q content x) s found h b prev p =
    let after : is_char 92 (some q) ≡ false = ground (arith, h.0) in
    let place : i + suc (length (content ++ q ∷ spell x))
        ≡ suc (suc i) + length content + length (spell x) =
      omega (arith, length-append content (q ∷ spell x)) in
    ap (λ t. comma_positions i prev (pos depth) none (q ∷ t)) (append_assoc content (q ∷ spell x) s)
    ∙ positions-literal i q depth prev content (spell x ++ s) h.0 h.1 p
    ∙ positions-Code (suc (suc i) + length content) depth x s found h.2
        (Behind-at _ _ depth s found place b) (some q) after

-- The parts with commas between them.
abbrev pub separated : Code → List Code → Text
separated x [] = spell x
separated x (y ∷ ys) = spell x ++ 44 ∷ separated y ys

-- Where these commas stand, from the start of the first part on.
abbrev pub separators : ℕ → Code → List Code → List ℕ
separators i x [] = []
separators i x (y ∷ ys) = (i + length (spell x)) ∷ separators (suc (i + length (spell x))) y ys

positions-comma :
    (i : ℕ) (prev : Option ℕ) (s : Text)
    → comma_positions i prev (pos 0) none (44 ∷ s)
      ≡ i ∷ comma_positions (suc i) (some 44) (pos 0) none s
unfolding comma_positions
positions-comma i prev s = refl

positions-separated :
    (i : ℕ) (x : Code) (xs : List Code)
    → All (IsCode 0) (x ∷ xs)
    → Behind i 0 (separated x xs) (separators i x xs)
unfolding comma_positions
positions-separated i x [] h prev p =
    ap (comma_positions i prev (pos 0) none) (sym (append-nil (spell x)))
    ∙ positions-Code i 0 x [] [] h.0 (λ prev' p'. refl) prev p
positions-separated i x (y ∷ ys) h prev p =
    positions-Code i 0 x (44 ∷ separated y ys) (separators i x (y ∷ ys)) h.0
      (λ prev' p'.
        positions-comma (i + length (spell x)) prev' (separated y ys)
        ∙ ap (λ found. (i + length (spell x)) ∷ found)
            (positions-separated (suc (i + length (spell x))) y ys h.1 (some 44) refl))
      prev p

first_chars-append : (w s : Text) → first_chars (length w) (w ++ s) ≡ w
first_chars-append [] s = refl
first_chars-append (c ∷ w) s = ap (λ x. c ∷ x) (first_chars-append w s)

drop-length : (w s : Text) → drop (length w) (w ++ s) ≡ s
drop-length [] s = refl
drop-length (c ∷ w) s = drop-length w s

drop-plus : (i n : ℕ) (s : Text) → drop (i + n) s ≡ drop n (drop i s)
drop-plus zero n s = let e : 0 + n ≡ n = omega arith in rw e refl
drop-plus (suc i) n [] = drop-nil (suc i + n) ∙ sym (drop-nil n)
  where
    drop-nil : (m : ℕ) → drop {A = ℕ} m [] ≡ []
    drop-nil zero = refl
    drop-nil (suc m) = refl
drop-plus (suc i) n (c ∷ s) =
    let e : suc i + n ≡ suc (i + n) = omega arith in rw e (drop-plus i n s)

drop-part :
    (expr : Text) (i : ℕ) (w : Text) (s : Text)
    → drop i expr ≡ w ++ 44 ∷ s
    → drop (suc (i + length w)) expr ≡ s
drop-part expr i w s h =
    let e : suc (i + length w) ≡ i + length w + 1 = omega arith in
    rw (e, drop-plus (i + length w) 1 expr, drop-plus i (length w) expr, h, drop-length w (44 ∷ s))
      refl

slice-part :
    (expr : Text) (i : ℕ) (w s : Text) → drop i expr ≡ w ++ s → slice expr i (i + length w) ≡ w
slice-part expr i w s h =
    let e : i + length w - i ≡ length w = omega arith in rw (e, h) (first_chars-append w s)

parts_from-separators :
    (expr : Text) (i : ℕ) (x : Code) (xs : List Code)
    → drop i expr ≡ separated x xs
    → parts_from expr i (separators i x xs) ≡ map spell (x ∷ xs)
unfolding parts_from
parts_from-separators expr i x [] h = ap (λ s. s ∷ []) h
parts_from-separators expr i x (y ∷ ys) h =
    ap
      (λ s.
        s
        ∷ parts_from expr (suc (i + length (spell x)))
            (separators (suc (i + length (spell x))) y ys))
      (slice-part expr i (spell x) (44 ∷ separated y ys) h)
    ∙ ap (λ ss. spell x ∷ ss)
        (parts_from-separators expr (suc (i + length (spell x))) y ys
          (drop-part expr i (spell x) (separated y ys) h))

-- What an expression of one part, and of several, becomes.
abbrev pub combined : Code → List Code → Text
combined x [] = spell x
combined x (y ∷ ys) =
    codes "[" ++ join (codes ", ") (map trim (map spell (x ∷ y ∷ ys))) ++ codes "].pop()"

-- An expression is cut at the commas outside of its brackets and strings: one without them stays as
-- it is, and of parts with commas between them it makes the last element of a list of these parts,
-- trimmed. The brackets of each part are in pairs, whatever their kinds; its strings are closed and
-- do not end in a backslash, and no backslash stands outside of them.
pub preprocess_comma_operator-parts :
    (x : Code) (xs : List Code)
    → All (IsCode 0) (x ∷ xs)
    → preprocess_comma_operator (separated x xs) ≡ combined x xs
unfolding preprocess_comma_operator
preprocess_comma_operator-parts x [] h =
    rw (preprocess_comma_operator, positions-separated 0 x [] h none refl) refl
preprocess_comma_operator-parts x (y ∷ ys) h =
    rw (preprocess_comma_operator, positions-separated 0 x (y ∷ ys) h none refl)
      (ap (λ parts. codes "[" ++ join (codes ", ") (map trim parts) ++ codes "].pop()")
        (parts_from-separators (separated x (y ∷ ys)) 0 x (y ∷ ys) refl))

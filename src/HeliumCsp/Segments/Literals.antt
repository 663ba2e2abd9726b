-- ===== src/HeliumCsp/Segments/Literals.antt =====
-- `transformCodeSegments` of lib/lunula/assets/helium-csp.js on an expression with string literals.
use hacienda.Prelude.{
  ℕ, ◌≡◌, refl, ap, sym, ◌∙◌, true, false, List, [], ◌∷◌, ◌++◌, append_assoc, append-nil, Text,
  ◌==◌, ==_refl, All, arith,
}
use hacienda.HeliumCsp.Segments.{is_quote, in_code, in_text, transform_code_segments}

-- A character of a string literal: as it is, or behind a backslash.
pub data Item : Type 0 where
  plain escaped : ℕ → Item

abbrev pub IsIn : ℕ → Item → Type 0
IsIn quote (plain c) = ((c == quote) ≡ false) × ((c == 92) ≡ false)
IsIn quote (escaped c) = Unit

abbrev pub spell_items : List Item → Text → Text
spell_items [] s = s
spell_items (plain c ∷ items) s = c ∷ spell_items items s
spell_items (escaped c ∷ items) s = 92 ∷ c ∷ spell_items items s

-- Code with a string literal behind it.
pub record Piece : Type 0 where
  pub code : Text
  pub quote : ℕ
  pub content : List Item

abbrev pub IsPiece : Piece → Type 0
IsPiece p =
    All (λ c. is_quote c ≡ false) p.code × (is_quote p.quote ≡ true) × All (IsIn p.quote) p.content

-- The expression, where each piece of code is written as `f` says.
abbrev pub spell : (Text → Text) → List Piece → Text → Text
spell f [] last = f last
spell f (p ∷ ps) last = f p.code ++ p.quote ∷ spell_items p.content (p.quote ∷ spell f ps last)

snoc-append : (acc s : Text) (c : ℕ) → (acc ++ c ∷ []) ++ s ≡ acc ++ c ∷ s
snoc-append acc s c = append_assoc acc (c ∷ []) s

module _ (transform : Text → Text) where
  in_code-append :
      (acc code s : Text)
      → All (λ c. is_quote c ≡ false) code
      → in_code transform acc (code ++ s) ≡ in_code transform (acc ++ code) s
  unfolding in_code
  in_code-append acc [] s a = rw (append-nil acc) refl
  in_code-append acc (c ∷ code) s a = rw (a.0) (
      in_code-append (acc ++ c ∷ []) code s a.1
      ∙ ap (λ x. in_code transform x s) (snoc-append acc code c))

  in_code-end :
      (acc code : Text)
      → All (λ c. is_quote c ≡ false) code
      → in_code transform acc code ≡ transform (acc ++ code)
  unfolding in_code
  in_code-end acc [] a = rw (append-nil acc) refl
  in_code-end acc (c ∷ code) a =
      rw (a.0) (in_code-end (acc ++ c ∷ []) code a.1 ∙ ap transform (snoc-append acc code c))

  in_code-quote :
      (quote : ℕ) (code s : Text)
      → is_quote quote ≡ true
      → in_code transform code (quote ∷ s)
        ≡ transform code ++ in_text transform quote (quote ∷ []) s
  unfolding in_code
  in_code-quote quote code s q = rw q refl

  in_text-quote :
      (quote : ℕ) (text s : Text)
      → is_quote quote ≡ true
      → in_text transform quote text (quote ∷ s) ≡ text ++ quote ∷ in_code transform [] s
  unfolding in_code
  in_text-quote quote text [] q = refl
  in_text-quote quote text (d ∷ s) q =
      let no_escape : (quote == 92) ≡ false = ground arith in rw (no_escape, ==_refl quote) refl

  in_text-plain :
      (quote c : ℕ) (text s : Text)
      → IsIn quote (plain c)
      → in_text transform quote text (c ∷ s) ≡ in_text transform quote (text ++ c ∷ []) s
  unfolding in_code
  in_text-plain quote c text [] a = sym (snoc-append text (transform []) c)
  in_text-plain quote c text (d ∷ s) a = rw (a.0, a.1) refl

  in_text-escaped :
      (quote c : ℕ) (text s : Text)
      → in_text transform quote text (92 ∷ c ∷ s) ≡ in_text transform quote (text ++ 92 ∷ c ∷ []) s
  unfolding in_code
  in_text-escaped quote c text s = refl

  in_text-spell_items :
      (quote : ℕ) (text : Text) (items : List Item) (s : Text)
      → is_quote quote ≡ true
      → All (IsIn quote) items
      → in_text transform quote text (spell_items items (quote ∷ s))
        ≡ text ++ spell_items items (quote ∷ in_code transform [] s)
  in_text-spell_items quote text [] s q a = in_text-quote quote text s q
  in_text-spell_items quote text (plain c ∷ items) s q a =
      in_text-plain quote c text (spell_items items (quote ∷ s)) a.0
      ∙ in_text-spell_items quote (text ++ c ∷ []) items s q a.1
      ∙ snoc-append text _ c
  in_text-spell_items quote text (escaped c ∷ items) s q a =
      in_text-escaped quote c text _
      ∙ in_text-spell_items quote (text ++ 92 ∷ c ∷ []) items s q a.1
      ∙ append_assoc text (92 ∷ c ∷ []) _

  -- In an expression that is cut into code and string literals, the code is transformed piece by
  -- piece and each literal, its escapes included, is kept as it is.
  pub transform_code_segments-spell :
      (ps : List Piece) (last : Text)
      → All IsPiece ps
      → All (λ c. is_quote c ≡ false) last
      → transform_code_segments transform (spell (λ s. s) ps last) ≡ spell transform ps last
  unfolding transform_code_segments
  transform_code_segments-spell [] last a l = in_code-end [] last l
  transform_code_segments-spell (p ∷ ps) last a l =
      let rest = transform_code_segments-spell ps last a.1 l in
      let literal =
        in_text-spell_items p.quote (p.quote ∷ []) p.content (spell (λ s. s) ps last) a.0.1 a.0.2 in
      in_code-append [] p.code _ a.0.0
      ∙ in_code-quote p.quote p.code (spell_items p.content (p.quote ∷ spell (λ s. s) ps last))
          a.0.1
      ∙ ap (λ x. transform p.code ++ x) literal
      ∙ ap (λ x. transform p.code ++ p.quote ∷ spell_items p.content (p.quote ∷ x)) rest

-- ===== src/HeliumCsp/Segments.antt =====
-- `transformCodeSegments` of lib/lunula/assets/helium-csp.js. The text that is left stands for the
-- index.
pub mod Literals
use hacienda.Prelude.{ℕ, Bool, true, false, ◌||◌, List, [], ◌∷◌, ◌++◌, Text, ◌==◌, if◌then◌else◌}

abbrev pub is_quote : ℕ → Bool
is_quote c = c == 39 || c == 34

module _ (transform : Text → Text) where
  unfoldable mutual
    -- Outside of a string, with the code since `codeStart`.
    pub in_code : Text → Text → Text
    in_code code [] = transform code
    in_code code (c ∷ s) =
        let text = in_text c (c ∷ []) s in
        let more = in_code (code ++ c ∷ []) s in if is_quote c then transform code ++ text else more

    -- Inside of a string, with its characters since `stringStart`.
    pub in_text : ℕ → Text → Text → Text
    in_text quote text [] = text ++ transform []
    in_text quote text (c ∷ []) = text ++ c ∷ transform []
    in_text quote text (c ∷ d ∷ s) =
        let escaped = in_text quote (text ++ c ∷ d ∷ []) s in
        let ended = in_code [] (d ∷ s) in
        let more = in_text quote (text ++ c ∷ []) (d ∷ s) in
        if c == 92 then escaped else if c == quote then text ++ c ∷ ended else more

  unfoldable pub transform_code_segments : Text → Text
  unfolding in_code
  transform_code_segments expr = in_code [] expr

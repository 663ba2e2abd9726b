-- ===== src/HeliumCsp/Preprocess.antt =====
-- `preprocess` of lib/lunula/assets/helium-csp.js.
use hacienda.Prelude.{Bool, ◌&&◌, [], ◌∷◌, ◌++◌, Text, codes, ◌==◌, if◌then◌else◌, starts_with}
use hacienda.HeliumCsp.Strings.{trim, reverse}
use hacienda.HeliumCsp.Templates.{preprocess_template_literals}
use hacienda.HeliumCsp.Commas.{preprocess_comma_operator}
use hacienda.HeliumCsp.Segments.{transform_code_segments}
use hacienda.HeliumCsp.Lowering.{lower}

-- `trimmed.replace(/'/g, "\\'")`.
unfoldable pub escape_quotes : Text → Text
escape_quotes [] = []
escape_quotes (c ∷ s) = if c == 39 then 92 ∷ 39 ∷ escape_quotes s else c ∷ escape_quotes s

abbrev pub looks_like_html : Text → Bool
looks_like_html trimmed =
    starts_with (codes "<") trimmed && starts_with (codes ">") (reverse trimmed)

unfoldable pub preprocess : Text → Text
unfolding escape_quotes trim starts_with transform_code_segments
preprocess expr =
    if looks_like_html (trim expr)
    then 39 ∷ (escape_quotes (trim expr) ++ 39 ∷ [])
    else transform_code_segments lower
        (preprocess_comma_operator (preprocess_template_literals expr))

-- ===== src/HeliumCsp/Strings.antt =====
-- What lib/lunula/assets/helium-csp.js uses of JavaScript's strings.
use hacienda.Prelude.{
  Option, none, some, ℕ, Bool, false, ◌&&◌, ◌||◌, List, [], ◌∷◌, ◌++◌, Text, leb, ◌==◌,
  if◌then◌else◌,
}

-- The white space and the line terminators of ECMAScript.
unfoldable pub is_space : ℕ → Bool
is_space c =
    (leb 9 c && leb c 13)
    || c == 32
    || c == 0xA0
    || c == 0x1680
    || (leb 0x2000 c && leb c 0x200A)
    || c == 0x2028
    || c == 0x2029
    || c == 0x202F
    || c == 0x205F
    || c == 0x3000
    || c == 0xFEFF

unfoldable pub trim_start : Text → Text
trim_start [] = []
trim_start (c ∷ s) = let rest = trim_start s in if is_space c then rest else c ∷ s

unfoldable pub reverse : Text → Text
reverse [] = []
reverse (c ∷ s) = reverse s ++ c ∷ []

-- `String.prototype.trim`.
unfoldable pub trim : Text → Text
unfolding trim_start reverse is_space
trim s = reverse (trim_start (reverse (trim_start s)))

-- `Array.prototype.join`.
unfoldable pub join : Text → List Text → Text
join separator [] = []
join separator (s ∷ []) = s
join separator (s ∷ t ∷ ts) = s ++ separator ++ join separator (t ∷ ts)

-- `\w`.
unfoldable pub is_word : ℕ → Bool
is_word c = (leb 48 c && leb c 57) || (leb 65 c && leb c 90) || c == 95 || (leb 97 c && leb c 122)

abbrev pub is_char_of : (ℕ → Bool) → Option ℕ → Bool
is_char_of p none = false
is_char_of p (some c) = p c

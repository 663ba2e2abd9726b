-- ===== src/HeliumSse/Data.antt =====
-- The data of an event of lib/lunula/assets/helium-sse.js.
use hacienda.Prelude.{
  ℕ, ◌≡◌, refl, ap, sym, ◌∙◌, false, Option, List, [], ◌∷◌, ◌++◌, append_assoc, append-nil, Text,
  codes, ◌==◌, All,
}
use hacienda.HeliumCsp.Strings.{trim_start}
use hacienda.HeliumSse.Events.{Fields, split_lines, add_line, read_line, read_lines}

-- A line of data: no break in it, something in it, and no white space in front.
abbrev pub IsLine : Text → Type 0
IsLine line =
    All (λ c. ((c == 10) ≡ false) × ((c == 13) ≡ false)) line
    × ((c : ℕ) × (s : Text) × (line ≡ c ∷ s))
    × (trim_start line ≡ line)

abbrev pub field : Text → Text
field line = codes "data:" ++ line

-- Lines with a break between any two.
abbrev pub with_breaks : Text → List Text → Text
with_breaks line [] = line
with_breaks line (l ∷ ls) = line ++ 10 ∷ with_breaks l ls

abbrev pub fields_of : List Text → List Text
fields_of [] = []
fields_of (l ∷ ls) = field l ∷ fields_of ls

split_lines-line :
    (front line rest : Text)
    → All (λ c. ((c == 10) ≡ false) × ((c == 13) ≡ false)) line
    → split_lines false front (line ++ 10 ∷ rest) ≡ (front ++ line) ∷ split_lines false [] rest
unfolding split_lines
split_lines-line front [] rest a = rw (append-nil front) refl
split_lines-line front (c ∷ line) rest a =
    rw (a.0.0, a.0.1)
      (split_lines-line (front ++ c ∷ []) line rest a.1
        ∙ ap (λ x. x ∷ split_lines false [] rest) (append_assoc front (c ∷ []) line))

split_lines-last :
    (front line : Text)
    → All (λ c. ((c == 10) ≡ false) × ((c == 13) ≡ false)) line
    → split_lines false front line ≡ (front ++ line) ∷ []
unfolding split_lines
split_lines-last front [] a = rw (append-nil front) refl
split_lines-last front (c ∷ line) a =
    rw (a.0.0, a.0.1)
      (split_lines-last (front ++ c ∷ []) line a.1
        ∙ ap (λ x. x ∷ []) (append_assoc front (c ∷ []) line))

split_lines-with_breaks :
    (l : Text) (ls : List Text)
    → All IsLine (l ∷ ls)
    → split_lines false [] (with_breaks (field l) (fields_of ls)) ≡ fields_of (l ∷ ls)
split_lines-with_breaks l [] a =
    split_lines-last [] (field l)
      ((refl, refl), ((refl, refl), ((refl, refl), ((refl, refl), ((refl, refl), a.0.0)))))
split_lines-with_breaks l (m ∷ ls) a =
    split_lines-line [] (field l) (with_breaks (field m) (fields_of ls))
      ((refl, refl), ((refl, refl), ((refl, refl), ((refl, refl), ((refl, refl), a.0.0)))))
    ∙ ap (λ x. field l ∷ x) (split_lines-with_breaks m ls a.1)

with_breaks-append :
    (front line : Text) (ls : List Text)
    → with_breaks (front ++ 10 ∷ line) ls ≡ front ++ 10 ∷ with_breaks line ls
with_breaks-append front line [] = refl
with_breaks-append front line (l ∷ ls) = append_assoc front (10 ∷ line) (10 ∷ with_breaks l ls)

module _ (parse_int : Text → Option ℕ) where
  read_line-field :
      (line : Text) (f : Fields)
      → trim_start line ≡ line
      → read_line parse_int (field line) f ≡ record f { data_text = add_line f.data_text line }
  unfolding read_line
  read_line-field line f h = ap (λ x. record f { data_text = add_line f.data_text x }) h

  read_lines-more :
      (c : ℕ) (s : Text) (ls : List Text) (f : Fields)
      → All IsLine ls
      → read_lines parse_int (fields_of ls) (record f { data_text = c ∷ s })
        ≡ record f { data_text = with_breaks (c ∷ s) ls }
  unfolding read_lines
  read_lines-more c s [] f a = refl
  read_lines-more c s (l ∷ ls) f a =
      ap (read_lines parse_int (fields_of ls))
        (read_line-field l (record f { data_text = c ∷ s }) a.0.2)
      ∙ read_lines-more c (s ++ 10 ∷ l) ls f a.1
      ∙ ap (λ x. record f { data_text = x }) (with_breaks-append (c ∷ s) l ls)

  -- An event whose lines are all data, each with something in it, is read back to the lines with a
  -- break between any two; no other field changes.
  pub read_lines-split_lines :
      (l : Text) (ls : List Text) (f : Fields)
      → f.data_text ≡ []
      → All IsLine (l ∷ ls)
      → read_lines parse_int (split_lines false [] (with_breaks (field l) (fields_of ls))) f
        ≡ record f { data_text = with_breaks l ls }
  unfolding read_lines
  read_lines-split_lines l ls f e a =
      let (c, s, first) = a.0.1 in
      ap (λ x. read_lines parse_int x f) (split_lines-with_breaks l ls a)
      ∙ ap (read_lines parse_int (fields_of ls))
          (read_line-field l f a.0.2 ∙ ap (λ x. record f { data_text = x }) (rw e first))
      ∙ read_lines-more c s ls f a.1
      ∙ ap (λ x. record f { data_text = with_breaks x ls }) (sym first)

-- ===== src/Helium/Directives/Aliases.antt =====
-- The two spellings of the directives of lib/lunula/assets/helium.js.
use hacienda.Prelude.{
  ℕ, ◌≡◌, refl, sym, ◌∙◌, Bool, false, List, [], ◌∷◌, ◌++◌, Text, codes, ◌==◌, ◌===◌, starts_with,
  contains, arith,
}
use hacienda.Helium.Directives.{
  first_part, any_alias, match, put, split_on, tail_of, second_of, Element, is_attribute, directive,
  directive_of,
}

any_alias-both :
    (p : Text) (attrs : List Text)
    → any_alias (64 ∷ p) attrs ≡ any_alias (codes "data-he-" ++ p) attrs
unfolding ◌===◌
any_alias-both p [] = refl
any_alias-both p (a ∷ attrs) = ground (arith, any_alias-both p attrs)

match-both :
    (n : Text) (attrs : List Text) → match (64 ∷ n) attrs ≡ match (codes "data-he-" ++ n) attrs
unfolding match first_part ◌===◌
match-both n attrs = any_alias-both (first_part n) attrs

tail_of-put : (c : ℕ) (ps : List Text) → tail_of (put c ps) ≡ tail_of ps
tail_of-put c [] = refl
tail_of-put c (p ∷ ps) = refl

second_of-put : (c : ℕ) (ps : List Text) → second_of (put c ps) ≡ second_of ps
second_of-put c [] = refl
second_of-put c (p ∷ []) = refl
second_of-put c (p ∷ q ∷ ps) = refl

abbrev Apart : List ℕ → Type 0
Apart [] = Unit
Apart (c ∷ s) = ((c == 58) ≡ false) × Apart s

tail_of-prefix : (p n : Text) → Apart p → tail_of (split_on 58 (p ++ n)) ≡ tail_of (split_on 58 n)
unfolding split_on
tail_of-prefix [] n h = refl
tail_of-prefix (c ∷ p) n (h, rest) =
    rw h (tail_of-put c (split_on 58 (p ++ n)) ∙ tail_of-prefix p n rest)

second_of-prefix :
    (p n : Text) → Apart p → second_of (split_on 58 (p ++ n)) ≡ second_of (split_on 58 n)
unfolding split_on
second_of-prefix [] n h = refl
second_of-prefix (c ∷ p) n (h, rest) =
    rw h (second_of-put c (split_on 58 (p ++ n)) ∙ second_of-prefix p n rest)

lazy_both :
    (n : Text)
    → contains (codes ".lazy") (64 ∷ n) ≡ contains (codes ".lazy") (codes "data-he-" ++ n)
unfolding contains starts_with
lazy_both n = refl

tail_both :
    (n : Text) → tail_of (split_on 58 (64 ∷ n)) ≡ tail_of (split_on 58 (codes "data-he-" ++ n))
tail_both n =
    tail_of-prefix (64 ∷ []) n (refl, tt)
    ∙ sym (
        tail_of-prefix (codes "data-he-") n
          (refl, (refl, (refl, (refl, (refl, (refl, (refl, (refl, tt)))))))))

second_both :
    (n : Text) → second_of (split_on 58 (64 ∷ n)) ≡ second_of (split_on 58 (codes "data-he-" ++ n))
second_both n =
    second_of-prefix (64 ∷ []) n (refl, tt)
    ∙ sym (
        second_of-prefix (codes "data-he-") n
          (refl, (refl, (refl, (refl, (refl, (refl, (refl, (refl, tt)))))))))

attribute_both :
    (n : Text)
    → starts_with (codes "attr:") n ≡ false
    → is_attribute (codes "data-he-" ++ n) ≡ false
unfolding starts_with
attribute_both n h = h

-- An attribute `@name` and the attribute `data-he-name` mean the same, whatever the name, but for the
-- names that start with `attr:`, which bind an attribute in the second spelling alone.
pub directive_of-both :
    (el : Element) (valid : Bool) (n : Text)
    → starts_with (codes "attr:") n ≡ false
    → directive_of el valid (64 ∷ n) ≡ directive_of el valid (codes "data-he-" ++ n)
unfolding directive_of directive starts_with ◌===◌
directive_of-both el valid n h = ground (
  arith,
  match-both n (codes "data" ∷ []),
  match-both n (codes "for" ∷ []),
  match-both n (codes "if" ∷ []),
  match-both n (codes "scope" ∷ codes "for" ∷ codes "if" ∷ []),
  match-both n (codes "ref" ∷ []),
  match-both n (codes "text" ∷ codes "html" ∷ []),
  match-both n (codes "text" ∷ []),
  match-both n (codes "bind" ∷ []),
  match-both n (codes "hidden" ∷ codes "visible" ∷ []),
  match-both n (codes "hidden" ∷ []),
  match-both n (codes "calculate" ∷ []),
  match-both n (codes "effect" ∷ []),
  match-both n (codes "init" ∷ []),
  attribute_both n h,
  lazy_both n,
  tail_both n,
  second_both n,
)

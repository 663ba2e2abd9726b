-- ===== src/Helium/Bindings/Upkeep.antt =====
-- What `updateBindingDependencies` of lib/lunula/assets/helium.js makes of the table.
use hacienda.Prelude.{
  ℕ, ◌≡◌, refl, ap, sym, ◌∙◌, Bool, true, false, ◌||◌, ◌&&◌, not, Option, none, some, List, [], ◌∷◌,
  Text, ◌==◌, ◌===◌, ===_sound, ===_refl, includes, keep_if, if◌then◌else◌, map_get, map_set,
  map_get-map_set, map_get-map_delete, Bool-cases, inl, inr,
}
use hacienda.Helium.Bindings.{
  Binding, Table, or_nil, bindings_of, others, set_or_delete, unique, leave, enter, place, in_front,
  update_binding_dependencies,
}

or_nil-none :
    (b : Bool) (o : Option (List ℕ)) → or_nil (if b then none else o) ≡ (if b then [] else or_nil o)
or_nil-none true o = refl
or_nil-none false o = refl

or_nil-some :
    (c : Bool) (l : List ℕ) (o : Option (List ℕ))
    → or_nil (if c then some l else o) ≡ (if c then l else or_nil o)
or_nil-some true l o = refl
or_nil-some false l o = refl

bindings_of-map_set :
    (k p : Text) (l : List ℕ) (table : Table)
    → bindings_of p (map_set k l table) ≡ (if k === p then l else bindings_of p table)
bindings_of-map_set k p l table =
    ap or_nil (map_get-map_set k p l table) ∙ or_nil-some (k === p) l (map_get p table)

bindings_of-set_or_delete :
    (k p : Text) (bs : List ℕ) (table : Table)
    → bindings_of p (set_or_delete k bs table) ≡ (if k === p then bs else bindings_of p table)
bindings_of-set_or_delete k p [] table =
    ap or_nil (map_get-map_delete k p table) ∙ or_nil-none (k === p) (map_get p table)
bindings_of-set_or_delete k p (b ∷ bs) table = bindings_of-map_set k p (b ∷ bs) table

others-others : (n : ℕ) (bs : List ℕ) → others n (others n bs) ≡ others n bs
others-others n [] = refl
others-others n (b ∷ bs) = elim (Bool-cases (b == n)) [
  | inl e ↦ rw e (others-others n bs)
  | inr e ↦ rw (e, e) (ap (λ x. b ∷ x) (others-others n bs))
]

-- One key that stays, and one that is left.
key_kept :
    (s i x : Bool) (l m : List ℕ)
    → (s ≡ true → x ≡ true)
    → (if i && not x then l else m) ≡ (if (s || i) && not x then l else m)
key_kept true i x l m h = let e = h refl in rw (e) (if-false i l m)
  where
    if-false : (i : Bool) (l m : List ℕ) → (if i && false then l else m) ≡ m
    if-false true l m = refl
    if-false false l m = refl
key_kept false i x l m h = refl

key_left :
    (n : ℕ) (s i x : Bool) (old here : List ℕ)
    → (s ≡ true → (old ≡ here) × (x ≡ false))
    → (if i && not x
        then others n (if s then others n old else here)
        else (if s then others n old else here))
      ≡ (if (s || i) && not x then others n here else here)
key_left n true true x old here h =
    let (e, f) = h refl in rw (f) (others-others n old ∙ ap (others n) e)
key_left n true false x old here h = let (e, f) = h refl in rw (f) (ap (others n) e)
key_left n false i x old here h = refl

bindings_of-leave :
    (n : ℕ) (next keys : List Text) (p : Text) (table : Table)
    → bindings_of p (leave n next keys table) ≡ (
        if includes keys p && not (includes next p)
        then others n (bindings_of p table)
        else bindings_of p table)
unfolding leave includes
bindings_of-leave n next [] p table = refl
bindings_of-leave n next (k ∷ keys) p table = elim (Bool-cases (includes next k)) [
  | inl e ↦ rw e (
      bindings_of-leave n next keys p table
      ∙ key_kept (k === p) (includes keys p) (includes next p) _ _
          λ s. rw (sym (===_sound k p s)) e)
  | inr e ↦ rw e (
      bindings_of-leave n next keys p (set_or_delete k (others n (bindings_of k table)) table)
      ∙ ap (λ here. if includes keys p && not (includes next p) then others n here else here)
          (bindings_of-set_or_delete k p (others n (bindings_of k table)) table)
      ∙ key_left n (k === p) (includes keys p) (includes next p) (bindings_of k table)
          (bindings_of p table)
          λ s. (ap (λ j. bindings_of j table) (===_sound k p s), rw (sym (===_sound k p s)) e))
]

-- No key stands twice.
abbrev NoRepeat : List Text → Type 0
NoRepeat [] = Unit
NoRepeat (k ∷ ks) = (includes ks k ≡ false) × NoRepeat ks

or_absorbs : (a i b : Bool) → (a ≡ true → b ≡ true) → (i && not b) ≡ ((a || i) && not b)
or_absorbs true true b h = rw (h refl) refl
or_absorbs true false b h = rw (h refl) refl
or_absorbs false i b h = refl

or_kept : (a i b : Bool) → (a ≡ true → b ≡ false) → (a || (i && not b)) ≡ ((a || i) && not b)
or_kept true i b h = rw (h refl) refl
or_kept false i b h = refl

or_without : (a i : Bool) → (a || (i && not a)) ≡ (a || i)
or_without true i = refl
or_without false true = refl
or_without false false = refl

includes-keep_if :
    (k p : Text) (ks : List Text)
    → includes (keep_if (λ j. not (k === j)) ks) p ≡ (includes ks p && not (k === p))
unfolding includes
includes-keep_if k p [] = refl
includes-keep_if k p (j ∷ ks) =
    let ih = includes-keep_if k p ks in
    elim (Bool-cases (k === j)) [
      | inl e ↦
          let same : k ≡ j = ===_sound k j e in
          rw e (ih ∙ or_absorbs (j === p) (includes ks p) (k === p) λ f. rw (same) f)
      | inr e ↦ rw e (
          ap (λ x. j === p || x) ih
          ∙ or_kept (j === p) (includes ks p) (k === p) λ f. rw (sym (===_sound j p f)) e)
    ]

includes-unique : (ks : List Text) (p : Text) → includes (unique ks) p ≡ includes ks p
unfolding includes unique
includes-unique [] p = refl
includes-unique (k ∷ ks) p =
    ap (λ x. k === p || x)
      (includes-keep_if k p (unique ks) ∙ ap (λ x. x && not (k === p)) (includes-unique ks p))
    ∙ or_without (k === p) (includes ks p)

NoRepeat-keep_if :
    (k : Text) (ks : List Text) → NoRepeat ks → NoRepeat (keep_if (λ j. not (k === j)) ks)
NoRepeat-keep_if k [] d = tt
NoRepeat-keep_if k (j ∷ ks) d = elim (Bool-cases (k === j)) [
  | inl e ↦ rw e (NoRepeat-keep_if k ks d.1)
  | inr e ↦ rw e (includes-keep_if k j ks ∙ rw (d.0) refl, NoRepeat-keep_if k ks d.1)
]

unique-NoRepeat : (ks : List Text) → NoRepeat (unique ks)
unfolding unique
unique-NoRepeat [] = tt
unique-NoRepeat (k ∷ ks) = (
  includes-keep_if k k (unique ks) ∙ rw (===_refl k) (and_false (includes (unique ks) k)),
  NoRepeat-keep_if k (unique ks) (unique-NoRepeat ks),
)
  where
    and_false : (b : Bool) → (b && false) ≡ false
    and_false true = refl
    and_false false = refl

key_entered :
    (f : Bool) (n : ℕ) (s i x : Bool) (old here : List ℕ)
    → (s ≡ true → (old ≡ here) × (i ≡ false) × (x ≡ false))
    → (if i && not x
        then place f n (if s then place f n old else here)
        else (if s then place f n old else here))
      ≡ (if (s || i) && not x then place f n here else here)
key_entered f n true i x old here h = let (e, g, k) = h refl in rw (g, k) (ap (place f n) e)
key_entered f n false i x old here h = refl

bindings_of-enter :
    (f : Bool) (n : ℕ) (dependencies keys : List Text) (p : Text) (table : Table)
    → NoRepeat keys
    → bindings_of p (enter f n dependencies keys table) ≡ (
        if includes keys p && not (includes dependencies p)
        then place f n (bindings_of p table)
        else bindings_of p table)
unfolding enter includes
bindings_of-enter f n dependencies [] p table d = refl
bindings_of-enter f n dependencies (k ∷ keys) p table d =
    elim (Bool-cases (includes dependencies k)) [
      | inl e ↦ rw e (
          bindings_of-enter f n dependencies keys p table d.1
          ∙ key_kept (k === p) (includes keys p) (includes dependencies p) _ _
              λ s. rw (sym (===_sound k p s)) e)
      | inr e ↦ rw e (
          bindings_of-enter f n dependencies keys p
            (map_set k (place f n (bindings_of k table)) table) d.1
          ∙ ap
              (λ here.
                if includes keys p && not (includes dependencies p) then place f n here else here)
              (bindings_of-map_set k p (place f n (bindings_of k table)) table)
          ∙ key_entered f n (k === p) (includes keys p) (includes dependencies p)
              (bindings_of k table) (bindings_of p table)
              λ s. (
                ap (λ j. bindings_of j table) (===_sound k p s),
                rw (sym (===_sound k p s)) (d.0),
                rw (sym (===_sound k p s)) e,
              ))
    ]

-- After `updateBindingDependencies` with any keys, a key that is new to the binding lists it in
-- addition, in front for a calculation, a loop or a condition and else at the end; a key that it no
-- longer depends on lists the others only; and every other key lists what it listed.
pub bindings_of-update_binding_dependencies :
    (b : Binding) (keys : List Text) (table : Table) (p : Text)
    → bindings_of p (update_binding_dependencies b keys table).1 ≡ (
        if includes keys p
        then (if includes b.dependencies p
            then bindings_of p table
            else place (in_front b) b.number (bindings_of p table))
        else if includes b.dependencies p
        then others b.number (bindings_of p table)
        else bindings_of p table)
unfolding update_binding_dependencies
bindings_of-update_binding_dependencies b keys table p =
    bindings_of-enter (in_front b) b.number b.dependencies (unique keys) p
      (leave b.number (unique keys) b.dependencies table) (unique-NoRepeat keys)
    ∙ rw (bindings_of-leave b.number (unique keys) b.dependencies p table, includes-unique keys p)
        (by_cases (includes keys p) (includes b.dependencies p))
  where
    by_cases :
        (k d : Bool)
        → (if k && not d
            then place
                (in_front b)
                b.number
                (if d && not k then others b.number (bindings_of p table) else bindings_of p table)
            else (if d && not k
                then others b.number (bindings_of p table)
                else bindings_of p table))
          ≡ (if k
              then (if d
                  then bindings_of p table
                  else place (in_front b) b.number (bindings_of p table))
              else if d
              then others b.number (bindings_of p table)
              else bindings_of p table)
    by_cases true true = refl
    by_cases true false = refl
    by_cases false true = refl
    by_cases false false = refl

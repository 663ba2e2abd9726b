-- ===== src/Helium/Tracking/Reads.antt =====
-- On which properties of the state a binding of lib/lunula/assets/helium.js depends.
use hacienda.Prelude.{
  ◌≡◌, refl, ap, sym, ◌∙◌, inl, inr, Bool, true, false, ◌||◌, Option, none, some, List, [], ◌∷◌,
  ◌++◌, Text, ==_iff, ==_refl, ◌===◌, ===_iff, ===_refl, ===_sound, if◌then◌else◌, Bool-cases,
  arith, includes, codes, map,
}
use hacienda.Helium.Tracking.{
  Key, state_key, scope_key, same_key, accessed_at, set_accessed, set_if_absent, record_read,
  record_reads, tracked, inherit, execute_binding, these_keys,
}

same_key_sound : (j k : Key) → same_key j k ≡ true → j ≡ k
same_key_sound (state_key p) (state_key q) h = ap state_key (===_sound p q h)
same_key_sound (state_key p) (scope_key s q) h = ground arith
same_key_sound (scope_key r p) (state_key q) h = ground arith
same_key_sound (scope_key r p) (scope_key s q) h = ground (arith, ==_iff r s, ===_iff p q)

same_key_refl : (k : Key) → same_key k k ≡ true
same_key_refl (state_key p) = ===_refl p
same_key_refl (scope_key s p) = ground (arith, ==_refl s, ===_refl p)

abbrev pub has_key : Key → List Key → Bool
has_key k [] = false
has_key k (j ∷ keys) = same_key j k || has_key k keys

same_key_comm : (j k : Key) → same_key j k ≡ same_key k j
same_key_comm (state_key p) (state_key q) = ground (arith, ===_iff p q, ===_iff q p)
same_key_comm (state_key p) (scope_key s q) = refl
same_key_comm (scope_key r p) (state_key q) = refl
same_key_comm (scope_key r p) (scope_key s q) = ground (arith, ===_iff p q, ===_iff q p)

has_key-append :
    (k : Key) (xs ys : List Key) → has_key k (xs ++ ys) ≡ (has_key k xs || has_key k ys)
has_key-append k [] ys = refl
has_key-append k (x ∷ xs) ys = ground (arith, has_key-append k xs ys)

module _ {ℓ} {V : Type ℓ} where
  abbrev Distinct : List (Key × V) → Type ℓ
  Distinct [] = Unit
  Distinct ((k, v) ∷ accessed) = (accessed_at k accessed ≡ none) × Distinct accessed

  accessed_at-set_accessed :
      (k j : Key) (v : V) (accessed : List (Key × V))
      → accessed_at j (set_accessed k v accessed)
        ≡ (if same_key k j then some v else accessed_at j accessed)
  unfolding accessed_at set_accessed
  accessed_at-set_accessed k j v [] = refl
  accessed_at-set_accessed k j v ((i, w) ∷ accessed) = elim (Bool-cases (same_key i k)) [
    | inl e ↦
        rw (e, same_key_sound i k e)
          (elim (Bool-cases (same_key k j)) [ inl f ↦ rw f refl | inr f ↦ rw f refl ])
    | inr e ↦ rw e (elim (Bool-cases (same_key i j)) [
      | inl f ↦ rw f (other (same_key_sound i j f) e)
      | inr f ↦ rw f (accessed_at-set_accessed k j v accessed)
    ])
  ]
    where
      other : i ≡ j → same_key i k ≡ false → some w ≡ (if same_key k j then some v else some w)
      other same e = elim (Bool-cases (same_key k j)) [
        | inl f ↦ ground (arith, same_key_sound k j f, same_key_refl k)
        | inr f ↦ rw f refl
      ]

  Distinct-set_accessed :
      (k : Key) (v : V) (accessed : List (Key × V))
      → Distinct accessed
      → Distinct (set_accessed k v accessed)
  unfolding set_accessed accessed_at
  Distinct-set_accessed k v [] d = (refl, tt)
  Distinct-set_accessed k v ((j, w) ∷ accessed) (a, d) = elim (Bool-cases (same_key j k)) [
    | inl e ↦ rw e (ap (λ i. accessed_at i accessed) (sym (same_key_sound j k e)) ∙ a, d)
    | inr e ↦ rw e (
      accessed_at-set_accessed k j v accessed ∙ rw (same_key_comm k j, e) a,
      Distinct-set_accessed k v accessed d,
    )
  ]

  -- The value that a property has when it is read for the first time.
  abbrev pub first_read : Key → List (Key × V) → Option V
  first_read k [] = none
  first_read k ((j, v) ∷ reads) = if same_key j k then some v else first_read k reads

  abbrev pub kept_value : (V → V → Bool) → V → Option V → Bool
  kept_value same now none = false
  kept_value same now (some v) = same now v

  abbrev or_first : Option V → Option V → Option V
  or_first none o = o
  or_first (some v) o = some v

  Distinct-record_reads :
      (reads accessed : List (Key × V)) → Distinct accessed → Distinct (record_reads reads accessed)
  unfolding record_reads
  Distinct-record_reads [] accessed d = d
  Distinct-record_reads ((state_key p, v) ∷ reads) accessed d =
      Distinct-record_reads reads (record_read (state_key p) v accessed)
        (by_old (accessed_at (state_key p) accessed))
    where
      by_old : (o : Option V) → Distinct (set_if_absent o (state_key p) v accessed)
      by_old none = Distinct-set_accessed (state_key p) v accessed d
      by_old (some w) = d
  Distinct-record_reads ((scope_key s p, v) ∷ reads) accessed d =
      Distinct-record_reads reads (set_accessed (scope_key s p) v accessed)
        (Distinct-set_accessed (scope_key s p) v accessed d)

  accessed_at-record_reads :
      (p : Text) (reads accessed : List (Key × V))
      → accessed_at (state_key p) (record_reads reads accessed)
        ≡ or_first (accessed_at (state_key p) accessed) (first_read (state_key p) reads)
  unfolding record_reads
  accessed_at-record_reads p [] accessed = by_old (accessed_at (state_key p) accessed)
    where
      by_old : (o : Option V) → o ≡ or_first o none
      by_old none = refl
      by_old (some v) = refl
  accessed_at-record_reads p ((scope_key s q, v) ∷ reads) accessed =
      accessed_at-record_reads p reads (set_accessed (scope_key s q) v accessed)
      ∙ ap (λ o. or_first o (first_read (state_key p) reads))
          (accessed_at-set_accessed (scope_key s q) (state_key p) v accessed)
  accessed_at-record_reads p ((state_key q, v) ∷ reads) accessed =
      accessed_at-record_reads p reads (record_read (state_key q) v accessed)
      ∙ by_old (accessed_at (state_key q) accessed) refl
    where
      by_old :
          (o : Option V)
          → accessed_at (state_key q) accessed ≡ o
          → or_first
              (accessed_at (state_key p) (set_if_absent o (state_key q) v accessed))
              (first_read (state_key p) reads)
            ≡ or_first
                (accessed_at (state_key p) accessed)
                (if q === p then some v else first_read (state_key p) reads)
      by_old none e =
          ap (λ o. or_first o (first_read (state_key p) reads))
            (accessed_at-set_accessed (state_key q) (state_key p) v accessed)
          ∙ elim (Bool-cases (q === p)) [
            | inl f ↦ rw f (
                sym (
                  ap (λ o. or_first o (some v))
                    (ap (λ k. accessed_at (state_key k) accessed) (sym (===_sound q p f)) ∙ e)))
            | inr f ↦ rw f refl
          ]
      by_old (some w) e = elim (Bool-cases (q === p)) [
        | inl f ↦
            let there : accessed_at (state_key p) accessed ≡ some w =
              ap (λ k. accessed_at (state_key k) accessed) (sym (===_sound q p f)) ∙ e in
            rw there refl
        | inr f ↦ rw f refl
      ]

  has_key-tracked :
      (same : V → V → Bool) (now : Key → V) (k : Key) (accessed : List (Key × V))
      → Distinct accessed
      → has_key k (tracked same now accessed) ≡ kept_value same (now k) (accessed_at k accessed)
  unfolding tracked accessed_at
  has_key-tracked same now k [] d = refl
  has_key-tracked same now k ((j, v) ∷ accessed) (a, d) =
      let rest = has_key-tracked same now k accessed d in
      elim (Bool-cases (same_key j k)) [
        | inl e ↦
            let gone : accessed_at k accessed ≡ none =
              ap (λ i. accessed_at i accessed) (sym (same_key_sound j k e)) ∙ a in
            let left = rest ∙ ap (kept_value same (now k)) gone in
            rw (e, same_key_sound j k e)
              (with_first (same (now k) v) k (tracked same now accessed) left)
        | inr e ↦ rw e (without_first (same (now j) v) j k (tracked same now accessed) e ∙ rest)
      ]
    where
      with_first :
          (b : Bool) (k : Key) (ks : List Key)
          → has_key k ks ≡ false
          → has_key k (if b then k ∷ ks else ks) ≡ b
      with_first true k ks h = rw (same_key_refl k) refl
      with_first false k ks h = h

      without_first :
          (b : Bool) (j k : Key) (ks : List Key)
          → same_key j k ≡ false
          → has_key k (if b then j ∷ ks else ks) ≡ has_key k ks
      without_first true j k ks h = rw h refl
      without_first false j k ks h = refl

  -- A binding without inherited dependencies, and without `*`, depends on a property of the state
  -- exactly if its expression reads it and the property still holds the value of the first read, or the
  -- attribute lists it itself.
  pub execute_binding-reads :
      (same : V → V → Bool) (before now : Key → V) (resolve : Text → Key) (names : List Text)
      (reads : List (Key × V)) (p : Text)
      → includes names (codes "*") ≡ false
      → (ks : List Key) × (execute_binding same before now resolve [] names (some reads)
          ≡ some (these_keys ks))
        × (has_key (state_key p) ks ≡ (
            kept_value same (now (state_key p)) (first_read (state_key p) reads)
            || has_key (state_key p) (map resolve names)))
  unfolding execute_binding inherit accessed_at
  execute_binding-reads same before now resolve names reads p h =
      let accessed = record_reads reads [] in
      (
        tracked same now accessed ++ map resolve names,
        rw h refl,
        has_key-append (state_key p) (tracked same now accessed) (map resolve names)
            ∙ ap (λ b. b || has_key (state_key p) (map resolve names))
                (has_key-tracked same now (state_key p) accessed (Distinct-record_reads reads [] tt)
                  ∙ ap (kept_value same (now (state_key p))) (accessed_at-record_reads p reads [])),
      )

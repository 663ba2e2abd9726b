-- ===== src/Jexpr/Ids/Names.antt =====
-- The names that `getIds` of lib/lunula/assets/jexpr.js finds.
use hacienda.Prelude.{
  not, Option, none, some, List, [], ◌∷◌, ◌++◌, append_assoc, append-nil, ◌≡◌, refl, ap, sym, ◌∙◌,
  Text, keep_if, if◌then◌else◌, Bool-cases, inl, inr,
}
use hacienda.Jexpr.Parser.{is_absent}
use hacienda.Jexpr.Syntax.{
  Param, Expr, Exprs, Entries, absent, empty, literal, id, unary, binary, getter, invoke, index,
  ternary, list, arrow_function, nil, cons, end, entry,
}
use hacienda.Jexpr.Ids.{
  Ids, pushed, returned, is_param_of, without_params, get_ids, get_ids_each, get_ids_entries, ◌>>=◌,
}

-- The names of one part and of the next.
infixr 6 ◌+++◌
abbrev pub ◌+++◌ : Option (List Text) → Option (List Text) → Option (List Text)
none +++ o = none
some a +++ none = none
some a +++ some b = some (a ++ b)

-- The identifiers of an expression, from left to right, those in the body of a function included, its
-- parameters too, but none in the brackets of an index: nothing if a node is missing where one must be.
unfoldable mutual
  pub names : Expr → Option (List Text)
  names absent = none
  names empty = some []
  names (literal l) = some []
  names (id v) = some (v ∷ [])
  names (unary op e) = names e
  names (binary l op r) = names l +++ names r
  names (getter g n) = names g
  names (invoke r m args) = names r +++ names_each args
  names (index e a) = names e
  names (ternary c t f) = names c +++ (names t +++ names f)
  names (Expr.map entries) = names_entries entries
  names (list items) = names_each items
  names (arrow_function params body) = names body

  pub names_each : Exprs → Option (List Text)
  names_each nil = some []
  names_each (cons e es) =
      let found = names e +++ names_each es in
      let rest = names_each es in if is_absent e then rest else found

  pub names_entries : Entries → Option (List Text)
  names_entries end = some []
  names_entries (entry k e es) =
      let found = names e +++ names_entries es in
      let rest = names_entries es in if is_absent e then rest else found

-- Whose parameters are left out: those of the functions that nothing but a unary operator, a property
-- or an index is around.
abbrev pub outer_params : Expr → List (List Param)
outer_params (unary op e) = outer_params e
outer_params (getter g n) = outer_params g
outer_params (index e a) = outer_params e
outer_params (arrow_function params body) = params ∷ outer_params body
outer_params _ = []

abbrev pub drop_params : List (List Param) → List Text → List Text
drop_params [] ns = ns
drop_params (params ∷ rest) ns =
    keep_if (λ name. not (is_param_of params name)) (drop_params rest ns)

-- The result for names behind those that are in the array already.
abbrev pub ids_of : Expr → List Text → Option (List Text) → Ids
ids_of e idents none = none
ids_of e idents (some ns) = some (idents ++ ns, drop_params (outer_params e) (idents ++ ns))

abbrev pub behind : List Text → Option (List Text) → Option (List Text)
behind idents none = none
behind idents (some ns) = some (idents ++ ns)

pushed-ids_of :
    (e : Expr) (idents : List Text) (o : Option (List Text))
    → pushed (ids_of e idents o) ≡ behind idents o
pushed-ids_of e idents none = refl
pushed-ids_of e idents (some ns) = refl

behind-append :
    (idents : List Text) (o : Option (List Text)) (f : List Text → Option (List Text))
    (o' : Option (List Text))
    → ((i : List Text) → f i ≡ behind i o')
    → (behind idents o >>= f) ≡ behind idents (o +++ o')
behind-append idents none f o' h = refl
behind-append idents (some a) f none h = h (idents ++ a)
behind-append idents (some a) f (some b) h = h (idents ++ a) ∙ ap some (append_assoc idents a b)

behind-nil : (idents : List Text) → some idents ≡ behind idents (some [])
behind-nil idents = ap some (sym (append-nil idents))

-- A node that returns the array.
returned-behind :
    (e : Expr) (idents : List Text) (o : Option (List Text))
    → outer_params e ≡ []
    → returned (behind idents o) ≡ ids_of e idents o
returned-behind e idents none h = refl
returned-behind e idents (some ns) h = rw h refl

same_params :
    (e e' : Expr) (idents : List Text) (o : Option (List Text))
    → outer_params e ≡ outer_params e'
    → ids_of e idents o ≡ ids_of e' idents o
same_params e e' idents none h = refl
same_params e e' idents (some ns) h = rw h refl

without_params-ids_of :
    (params : List Param) (body : Expr) (idents : List Text) (o : Option (List Text))
    → without_params params (ids_of body idents o) ≡ ids_of (arrow_function params body) idents o
without_params-ids_of params body idents none = refl
without_params-ids_of params body idents (some ns) = refl

pushed-get_ids :
    (e : Expr) (idents : List Text)
    → get_ids e idents ≡ ids_of e idents (names e)
    → pushed (get_ids e idents) ≡ behind idents (names e)
pushed-get_ids e idents h = ap pushed h ∙ pushed-ids_of e idents (names e)

get_ids-bind :
    (e : Expr) (idents : List Text) (f : List Text → Option (List Text)) (o : Option (List Text))
    → get_ids e idents ≡ ids_of e idents (names e)
    → ((i : List Text) → f i ≡ behind i o)
    → (pushed (get_ids e idents) >>= f) ≡ behind idents (names e +++ o)
get_ids-bind e idents f o h k =
    ap (λ x. x >>= f) (pushed-get_ids e idents h) ∙ behind-append idents (names e) f o k

mutual
  unfolding get_ids names

  get_ids_by_names : (e : Expr) (idents : List Text) → get_ids e idents ≡ ids_of e idents (names e)
  get_ids_by_names absent idents = refl
  get_ids_by_names empty idents = ap returned (behind-nil idents)
  get_ids_by_names (literal l) idents = ap returned (behind-nil idents)
  get_ids_by_names (id v) idents = refl
  get_ids_by_names (unary op e) idents =
      get_ids_by_names e idents ∙ same_params e (unary op e) idents (names e) refl
  get_ids_by_names (binary l op r) idents =
      ap returned (
        get_ids-bind l idents (λ i. pushed (get_ids r i)) (names r) (get_ids_by_names l idents)
          λ i. pushed-get_ids r i (get_ids_by_names r i))
      ∙ returned-behind (binary l op r) idents (names l +++ names r) refl
  get_ids_by_names (getter g n) idents =
      get_ids_by_names g idents ∙ same_params g (getter g n) idents (names g) refl
  get_ids_by_names (invoke r m args) idents =
      ap returned (
        get_ids-bind r idents (λ i. get_ids_each args i) (names_each args)
          (get_ids_by_names r idents) λ i. get_ids_each_by_names args i)
      ∙ returned-behind (invoke r m args) idents (names r +++ names_each args) refl
  get_ids_by_names (index e a) idents =
      get_ids_by_names e idents ∙ same_params e (index e a) idents (names e) refl
  get_ids_by_names (ternary c t f) idents =
      ap returned (
        get_ids-bind c idents (λ i. pushed (get_ids t i) >>= λ j. pushed (get_ids f j))
          (names t +++ names f) (get_ids_by_names c idents)
          λ i.
            get_ids-bind t i (λ j. pushed (get_ids f j)) (names f) (get_ids_by_names t i)
              λ j. pushed-get_ids f j (get_ids_by_names f j))
      ∙ returned-behind (ternary c t f) idents (names c +++ (names t +++ names f)) refl
  get_ids_by_names (Expr.map entries) idents =
      ap returned (get_ids_entries_by_names entries idents)
      ∙ returned-behind (Expr.map entries) idents (names_entries entries) refl
  get_ids_by_names (list items) idents =
      ap returned (get_ids_each_by_names items idents)
      ∙ returned-behind (list items) idents (names_each items) refl
  get_ids_by_names (arrow_function params body) idents =
      ap (without_params params) (get_ids_by_names body idents)
      ∙ without_params-ids_of params body idents (names body)

  get_ids_each_by_names :
      (es : Exprs) (idents : List Text) → get_ids_each es idents ≡ behind idents (names_each es)
  get_ids_each_by_names nil idents = behind-nil idents
  get_ids_each_by_names (cons e es) idents = elim (Bool-cases (is_absent e)) [
    | inl h ↦ rw h (get_ids_each_by_names es idents)
    | inr h ↦ rw h (
        get_ids-bind e idents (λ i. get_ids_each es i) (names_each es) (get_ids_by_names e idents)
          λ i. get_ids_each_by_names es i)
  ]

  get_ids_entries_by_names :
      (es : Entries) (idents : List Text)
      → get_ids_entries es idents ≡ behind idents (names_entries es)
  get_ids_entries_by_names end idents = behind-nil idents
  get_ids_entries_by_names (entry k e es) idents = elim (Bool-cases (is_absent e)) [
    | inl h ↦ rw h (get_ids_entries_by_names es idents)
    | inr h ↦ rw h (
        get_ids-bind e idents (λ i. get_ids_entries es i) (names_entries es)
          (get_ids_by_names e idents) λ i. get_ids_entries_by_names es i)
  ]

-- `getIds` adds the names of the expression to the array, in their order. It returns the array, less
-- the parameters of a function only where nothing but unary operators, properties and indices are
-- around that function: elsewhere the parameters are reported like free names.
pub get_ids-names : (e : Expr) (idents : List Text) → get_ids e idents ≡ ids_of e idents (names e)
get_ids-names e idents = get_ids_by_names e idents

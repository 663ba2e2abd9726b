-- ===== src/Jexpr/Ids.antt =====
-- `getIds` of the nodes in lib/lunula/assets/jexpr.js, and its use in lib/lunula/assets/helium-csp.js.
-- Nothing stands for a TypeError.
pub mod Names
use hacienda.Prelude.{
  Bool, true, false, not, Option, none, some, List, [], ◌∷◌, ◌++◌, Text, codes, ◌===◌, includes,
  keep_if, ◌||◌, if◌then◌else◌,
}
use hacienda.Jexpr.Parser.{is_absent}
use hacienda.Jexpr.Syntax.{
  Literal, Param, Expr, Exprs, Entries, absent, empty, literal, id, unary, binary, getter, invoke,
  index, ternary, list, arrow_function, nil, cons, end, entry,
}

-- The array after the call, and the array that the call returns.
abbrev pub Ids : Type 0
Ids = Option (List Text × List Text)

infixl 5 ◌>>=◌
abbrev pub ◌>>=◌ : Option (List Text) → (List Text → Option (List Text)) → Option (List Text)
none >>= f = none
some idents >>= f = f idents

-- The array after the call; most nodes return it.
abbrev pub pushed : Ids → Option (List Text)
pushed none = none
pushed (some (idents, result)) = some idents

abbrev pub returned : Option (List Text) → Ids
returned none = none
returned (some idents) = some (idents, idents)

-- `params.includes(id)`.
abbrev pub is_param : Text → Param → Bool
is_param name (Param.name p) = p === name
is_param name (Param.value (Literal.text p)) = p === name
is_param name (Param.value Literal.true) = false
is_param name (Param.value Literal.false) = false
is_param name (Param.value Literal.null) = false
is_param name (Param.value Literal.undefined) = false
is_param name (Param.value (Literal.integer s p)) = false
is_param name (Param.value (Literal.decimal s p)) = false
is_param name Param.nameless = false

abbrev pub is_param_of : List Param → Text → Bool
is_param_of [] name = false
is_param_of (p ∷ ps) name = is_param name p || is_param_of ps name

abbrev pub without_params : List Param → Ids → Ids
without_params params none = none
without_params params (some (idents, result)) =
    some (idents, keep_if (λ name. not (is_param_of params name)) result)

unfoldable mutual
  pub get_ids : Expr → List Text → Ids
  get_ids absent idents = none
  get_ids empty idents = some (idents, idents)
  get_ids (literal l) idents = some (idents, idents)
  get_ids (id v) idents = returned (some (idents ++ v ∷ []))
  get_ids (unary op e) idents = get_ids e idents
  get_ids (binary l op r) idents =
      returned (pushed (get_ids l idents) >>= λ i. pushed (get_ids r i))
  get_ids (getter g n) idents = get_ids g idents
  get_ids (invoke r m args) idents =
      returned (pushed (get_ids r idents) >>= λ i. get_ids_each args i)
  get_ids (index e a) idents = get_ids e idents
  get_ids (ternary c t f) idents =
      returned
        (pushed (get_ids c idents) >>= λ i. pushed (get_ids t i) >>= λ j. pushed (get_ids f j))
  get_ids (Expr.map entries) idents = returned (get_ids_entries entries idents)
  get_ids (list items) idents = returned (get_ids_each items idents)
  get_ids (arrow_function params body) idents = without_params params (get_ids body idents)

  -- `forEach((a) => a?.getIds(idents))`.
  pub get_ids_each : Exprs → List Text → Option (List Text)
  get_ids_each nil idents = some idents
  get_ids_each (cons e es) idents =
      let found = pushed (get_ids e idents) >>= λ i. get_ids_each es i in
      let skipped = get_ids_each es idents in if is_absent e then skipped else found

  pub get_ids_entries : Entries → List Text → Option (List Text)
  get_ids_entries end idents = some idents
  get_ids_entries (entry k e es) idents =
      let found = pushed (get_ids e idents) >>= λ i. get_ids_entries es i in
      let skipped = get_ids_entries es idents in if is_absent e then skipped else found

abbrev pub reserved_words : List Text
reserved_words =
    codes "null"
    ∷ codes "undefined"
    ∷ codes "true"
    ∷ codes "false"
    ∷ codes "this"
    ∷ codes "NaN"
    ∷ codes "Infinity"
    ∷ codes "Math"
    ∷ codes "console"
    ∷ codes "Object"
    ∷ codes "Array"
    ∷ codes "String"
    ∷ codes "Number"
    ∷ codes "Boolean"
    ∷ codes "Date"
    ∷ codes "JSON"
    ∷ codes "Map"
    ∷ codes "Set"
    ∷ []

abbrev reported : Ids → Option (List Text)
reported none = none
reported (some (idents, result)) =
    some (keep_if (λ name. not (includes reserved_words name)) result)

-- `getIds` of what `compile` returns for a syntax tree: `ast` is never undefined but for a tree that
-- is no node.
unfoldable pub reported_ids : Expr → Option (List Text)
reported_ids absent = some []
reported_ids ast = reported (get_ids ast [])

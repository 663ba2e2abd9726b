-- ===== src/HeliumCsp/Tests.antt =====
-- Runs of the preprocessor of lib/lunula/assets/helium-csp.js, and the theorems of HeliumCsp at
-- concrete inputs.
use hacienda.Prelude.{
  ℕ, Text, ◌≡◌, refl, some, [], ◌∷◌, ◌++◌, true, codes, map_get, map_set, map_get-map_set,
  Option-cases, inl, inr, ap, if◌then◌else◌, includes, ◌===◌, JsMap,
}
use hacienda.Jexpr.Parse.{parse}
use hacienda.HeliumCsp.Preprocess.{preprocess}
use hacienda.HeliumCsp.Lowering.{lower}
use hacienda.HeliumCsp.Strings.{reverse, join, trim}
use hacienda.HeliumCsp.Templates.{
  template_escape, preprocess_template_literals, template_plain, sum_of,
}
use hacienda.HeliumCsp.Templates.Literals
use hacienda.HeliumCsp.Templates.Literals.{parts_of, preprocess_template_literals-spell}
use hacienda.HeliumCsp.Commas.{preprocess_comma_operator}
use hacienda.HeliumCsp.Commas.TopLevel
use hacienda.HeliumCsp.Commas.TopLevel.{
  Code, nothing, char, bracketed, separated, preprocess_comma_operator-parts,
}
use hacienda.HeliumCsp.Segments.{transform_code_segments}
use hacienda.HeliumCsp.Segments.Literals.{spell, plain, escaped, transform_code_segments-spell}
use hacienda.HeliumCsp.Engine.{Compiled, compile, compiled}
use hacienda.HeliumCsp.Engine.Caching.{IsFaithful, IsFaithful-nil, result_of, compile-compiled}
use hacienda.HeliumCsp.Scope.{
  Context, Assigning, scope_set, scope_get, create_scope, local, from_prototype, from_state,
}
use hacienda.HeliumCsp.Scope.Lookups.{scope_get-create_scope}
use hacienda.HeliumCsp.Scope.Writes.{Leaves, written, scope_get-scope_set}
use hacienda.HeliumCsp.Startup.{run, load, run_helium, helium, auto, render}
use hacienda.HeliumCsp.Startup.Once.{run-load}

increments :
    preprocess (codes "count++, $a.b[0]--, 'x++'")
    ≡ codes "[(count = count + 1) - 1, ($a.b[0] = $a.b[0] - 1) + 1, 'x++'].pop()"
unfolding preprocess lower reverse join preprocess_template_literals preprocess_comma_operator
increments = refl

a_template :
    preprocess (codes "`${a}-it's {x}` + new Date()") ≡ codes "'' + (a) + '-it\\'s {x}' + $Date()"
unfolding preprocess lower reverse join preprocess_template_literals preprocess_comma_operator
    template_plain
a_template = refl

-- A backslash at the end of a string hides its closing quote, so the comma is not found.
a_backslash : preprocess_comma_operator (codes "x = '\\\\', y") ≡ codes "x = '\\\\', y"
unfolding preprocess_comma_operator
a_backslash = refl

transform_code_segments-spell_example :
    transform_code_segments lower (
      spell
        (λ s. s)
        (record { code = codes "a++ + "; quote = 39; content = plain 43 ∷ escaped 39 ∷ [] } ∷ [])
        (codes " + b"))
    ≡ spell lower
        (record { code = codes "a++ + "; quote = 39; content = plain 43 ∷ escaped 39 ∷ [] } ∷ [])
        (codes " + b")
transform_code_segments-spell_example =
    transform_code_segments-spell lower
      (record { code = codes "a++ + "; quote = 39; content = plain 43 ∷ escaped 39 ∷ [] } ∷ [])
      (codes " + b")
      (((refl, (refl, (refl, (refl, (refl, (refl, tt)))))), refl, ((refl, refl), (tt, tt))), tt)
      (refl, (refl, (refl, (refl, tt))))

-- The generated string ends at the quote that was escaped.
an_escaped_quote : preprocess_template_literals (codes "`it\\'s`") ≡ codes "'it's'"
unfolding preprocess_template_literals template_escape template_plain join
an_escaped_quote = refl

preprocess_template_literals-spell_example :
    preprocess_template_literals (codes "f(`a${ {x: 1} }\\``)")
    ≡ codes "f("
      ++ sum_of (
          parts_of
            (record { text = Literals.plain b'a' ∷ []; expression = codes " {x: 1} " } ∷ [])
            (Literals.escaped 96 ∷ []))
      ++ preprocess_template_literals (codes ")")
preprocess_template_literals-spell_example =
    preprocess_template_literals-spell (codes "f(")
      (record { text = Literals.plain b'a' ∷ []; expression = codes " {x: 1} " } ∷ [])
      (Literals.escaped 96 ∷ []) (codes ")") (refl, (refl, tt))
      (
        (
          (((refl, refl, refl), tt)),
          (refl, (refl, (refl, (refl, (refl, (refl, (refl, (refl, refl)))))))),
        ),
        tt,
      )
      (tt, tt)

abbrev call : Code
call = char b'a' (bracketed b'(' (char b'1' (char b',' (char b'2' nothing))) b')' nothing)

abbrev text : Code
text = char b' ' (TopLevel.literal b'\'' (codes "x,\\'") nothing)

-- a(1,2), 'x,\''
preprocess_comma_operator-parts_example :
    preprocess_comma_operator (separated call (text ∷ [])) ≡ codes "[a(1,2), 'x,\\''].pop()"
unfolding join trim
preprocess_comma_operator-parts_example = preprocess_comma_operator-parts call (text ∷ []) (
  (
    (refl, refl, refl, refl, refl, refl, refl, refl, refl),
    refl,
    (
      inl refl,
      inl refl,
      (
        (refl, refl, refl, refl, refl, refl, refl, refl, refl),
        refl,
        (
          (refl, refl, refl, refl, refl, refl, refl, refl, refl),
          refl,
          ((refl, refl, refl, refl, refl, refl, refl, refl, refl), refl, tt),
        ),
      ),
      tt,
    ),
  ),
  (
    (
      (refl, refl, refl, refl, refl, refl, refl, refl, refl),
      refl,
      (inr refl, (inl refl, (inl refl, (inl refl, (inr refl, refl)))), tt),
    ),
    tt,
  ),
)

compile-compiled_example :
    (result_of (compile 20 (codes " n++") true [])
      ≡ compiled (parse 20 (preprocess (trim (codes " n++")))))
    × ((c : Compiled) (cache : JsMap Compiled)
        → compile 20 (codes " n++") true [] ≡ some (c, cache)
        → IsFaithful 20 cache)
compile-compiled_example = compile-compiled 20 (codes " n++") true [] (IsFaithful-nil 20)

-- A page without refs that allows one global.
abbrev allowed : Text → JsMap ℕ
allowed name = (name, 1) ∷ []

abbrev page : Context ℕ
page = record { builtin = λ k. 2; helper = λ k. 3; refs = [] }

scope_get-create_scope_example :
    scope_get (codes "fetch") (create_scope (allowed (codes "fetch")) page []) ≡ local 1
unfolding map_get includes ◌===◌
scope_get-create_scope_example =
    scope_get-create_scope (allowed (codes "fetch")) page [] (codes "fetch") tt (refl, tt)

run-load_example :
    (run (helium ∷ auto ∷ render ∷ []) (load true)).calls ≡ run_helium ∷ run_helium ∷ []
run-load_example = run-load true helium (auto ∷ render ∷ []) tt

-- A binding counts the writes to the state in `n`.
abbrev counting : Assigning ℕ
counting = record {
  new_prototype = λ v names. names;
  react = λ p scope. record scope { state = map_set (codes "n") 1 scope.state };
}

counting-Leaves : Leaves counting (codes "m")
unfolding scope_get ◌===◌
counting-Leaves p scope = elim (Option-cases (map_get (codes "m") scope.locals)) [
  | inl e ↦ rw e (
      ap (λ o. if includes scope.prototype (codes "m") then from_prototype else from_state o)
        (map_get-map_set (codes "n") (codes "m") 1 scope.state))
  | inr (v, e) ↦ rw e refl
]

scope_get-scope_set_example :
    scope_get (codes "m") (scope_set counting (codes "m") 7 (create_scope [] page []))
    ≡ written 7 (scope_get (codes "m") (create_scope [] page []))
unfolding ◌===◌
scope_get-scope_set_example =
    scope_get-scope_set counting (codes "m") (codes "m") 7 (create_scope [] page []) refl
      counting-Leaves

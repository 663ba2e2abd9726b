-- ===== src/Jexpr/Parser.antt =====
-- The class `Parser` of lib/lunula/assets/jexpr.js, over any source of tokens: of the tokenizer it
-- uses `nextToken` alone. A method maps the parser to its result and the parser behind it. The
-- methods call one another, so they take fuel.
pub mod Steps
pub mod Braces
use hacienda.Prelude.{
  ℕ, zero, suc, Bool, true, false, ◌&&◌, ◌||◌, Option, none, some, List, [], ◌∷◌, Text, codes,
  ◌===◌, includes, ltb, leb, ◌==◌, if◌then◌else◌,
}
use hacienda.Jexpr.Token
use hacienda.Jexpr.Token.{
  Kind, kind_index, Token, SyntaxError, Result, ok, throws, out_of_fuel, expected_kind,
  left_undefined, expected_identifier, unexpected_colon, undefined_parameter, unknown_operator,
  unexpected_token, unexpected_keyword, binary_operators, unary_operators, postfix_precedence,
}
use hacienda.Jexpr.Syntax.{
  Sign, unsigned, plus, minus, Literal, Param, nameless, Expr, Exprs, Entries, absent, empty,
  literal, id, unary, binary, getter, invoke, index, ternary, list, arrow_function, nil, cons, end,
  entry,
}

-- `this._token` and what the tokenizer has still to read.
pub record Parser {ℓ} (S : Type ℓ) : Type ℓ where
  pub current : Option Token
  pub source : S

-- What a method that returns an `A` does.
abbrev pub Parse {ℓ κ} : Type ℓ → Type κ → Type (ℓ ⊔ κ)
Parse S A = Parser S → Result (A × Parser S)

abbrev pub pure {ℓ κ} : {S : Type ℓ} {A : Type κ} → A → Parse S A
pure a p = ok (a, p)

module _ {ℓ κ κ'} {S : Type ℓ} {A : Type κ} {B : Type κ'} where
  infixl 1 ◌>>=◌ ◌>>◌
  abbrev pub ◌>>=◌ : Parse S A → (A → Parse S B) → Parse S B
  m >>= f = λ p. Token.◌>>=◌ (m p) λ (a, p'). f a p'

  abbrev pub ◌>>◌ : Parse S A → Parse S B → Parse S B
  m >> k = m >>= λ _. k

abbrev pub is_kind : Kind → Option Token → Bool
is_kind k none = false
is_kind k (some t) = kind_index t.kind == kind_index k

abbrev pub is_token : Kind → Text → Option Token → Bool
is_token k v none = false
is_token k v (some t) = kind_index t.kind == kind_index k && t.value === v

abbrev pub value_of : Option Token → Text
value_of none = []
value_of (some t) = t.value

abbrev pub precedence_or : Option Token → ℕ
precedence_or none = 0
precedence_or (some t) = t.precedence

abbrev pub is_absent : Expr → Bool
is_absent absent = true
is_absent _ = false

-- `if (right === undefined) throw …`, and the node for `left.right`.
unfoldable pub make_invoke_or_getter {ℓ} : {S : Type ℓ} → Expr → Expr → Parse S Expr
make_invoke_or_getter left (id name) p = ok (getter left name, p)
make_invoke_or_getter left (invoke (id name) method args) p = ok (invoke left (some name) args, p)
make_invoke_or_getter left _ p = throws expected_identifier

-- `expressions?.map((e) => e.value)`, which throws at an undefined expression.
abbrev param_of : Expr → Param
param_of (id name) = Param.name name
param_of (literal l) = Param.value l
param_of _ = nameless

abbrev pub params_of : Exprs → Result (List Param)
params_of nil = ok []
params_of (cons absent es) = throws undefined_parameter
params_of (cons e es) = Token.◌>>=◌ (params_of es) λ ps. ok (param_of e ∷ ps)

abbrev lift {ℓ κ} : {S : Type ℓ} {A : Type κ} → Result A → Parse S A
lift r p = Token.◌>>=◌ r λ a. ok (a, p)

-- `entries[key] = value`: in place if the key is there.
unfoldable pub set_entry : Text → Expr → Entries → Entries
set_entry k v end = entry k v end
set_entry k v (entry j w es) = if j === k then entry k v es else entry j w (set_entry k v es)

abbrev pub snoc : Exprs → Expr → Exprs
snoc nil e = cons e nil
snoc (cons x xs) e = cons x (snoc xs e)

abbrev pub first_of_exprs : Exprs → Expr
first_of_exprs nil = absent
first_of_exprs (cons e es) = e

abbrev prefix_sign : Text → Sign
prefix_sign v = if v === codes "+" then plus else minus

abbrev pub precedes : ℕ → Option Token → Bool
precedes p t =
    (is_kind Kind.operator t || is_kind Kind.dot t || is_kind Kind.grouper t)
    && ltb p (precedence_or t)

module _ {ℓ} {S : Type ℓ} (next_token : S → Result (Option Token × S)) where
  -- `_advance()`.
  unfoldable pub advance : Parse S (Unit {0})
  advance p = elim (next_token p.source) [
    | ok (t, s) ↦ ok (tt, record { current = t; source = s })
    | throws e ↦ throws e
    | out_of_fuel ↦ out_of_fuel
  ]

  -- `_advance(kind)` and `_advance(kind, value)`.
  unfoldable pub expect_kind : Kind → Parse S (Unit {0})
  unfolding advance
  expect_kind k p = if is_kind k p.current then advance p else throws (expected_kind k)

  unfoldable pub expect : Kind → Text → Parse S (Unit {0})
  unfolding advance
  expect k v p = if is_token k v p.current then advance p else throws (expected_kind k)

  unfoldable pub parse_literal : Literal → Parse S Expr
  unfolding advance
  parse_literal l = do advance; pure (literal l)

  unfoldable mutual
    pub parse_expression : ℕ → Parse S Expr
    parse_expression zero p = out_of_fuel
    parse_expression (suc f) p = elim p.current [
      | none ↦ ok (empty, p)
      | some t ↦ (do e ← parse_unary f; parse_rest f e) p
    ]

    -- `expr === undefined ? undefined : this._parsePrecedence(expr, 0)`.
    pub parse_rest : ℕ → Expr → Parse S Expr
    parse_rest zero e p = out_of_fuel
    parse_rest (suc f) e p =
        let more = parse_precedence f e 0 p in if is_absent e then ok (absent, p) else more

    pub parse_precedence : ℕ → Expr → ℕ → Parse S Expr
    parse_precedence zero left precedence p = out_of_fuel
    parse_precedence (suc f) left precedence p =
        let invoked = do
          args ← parse_arguments f
          parse_precedence f (invoke left none args) precedence
        in let indexed = do
          advance
          e ← parse_expression f
          expect Kind.grouper (codes "]")
          parse_precedence f (index left e) precedence
          in let member = do
            advance
            right ← parse_unary f
            e ← make_invoke_or_getter left right
            parse_precedence f e precedence
            in let conditional = do e ← parse_ternary f left; parse_precedence f e precedence
              in let operation = do
                e ← parse_binary f left (value_of p.current) (precedence_or p.current)
                parse_precedence f e precedence
                in if is_absent left
                  then throws left_undefined
                  else if is_token Kind.grouper (codes "(") p.current
                  then invoked p
                  else if is_token Kind.grouper (codes "[") p.current
                  then indexed p
                  else if is_kind Kind.dot p.current
                  then member p
                  else if is_kind Kind.keyword p.current
                  then ok (left, p)
                  else if is_kind Kind.operator p.current
                      && leb precedence (precedence_or p.current)
                  then (if value_of p.current === codes "?" then conditional p else operation p)
                  else ok (left, p)

    pub parse_binary : ℕ → Expr → Text → ℕ → Parse S Expr
    parse_binary zero left op precedence p = out_of_fuel
    parse_binary (suc f) left op precedence p =
        let known = do
          advance
          right ← parse_unary f
          right' ← parse_right f right precedence
          pure (binary left op right')
        in if includes binary_operators op then known p else throws (unknown_operator op)

    -- The loop of `_parseBinary`.
    pub parse_right : ℕ → Expr → ℕ → Parse S Expr
    parse_right zero right precedence p = out_of_fuel
    parse_right (suc f) right precedence p =
        let more = do
          right' ← parse_precedence f right (precedence_or p.current)
          parse_right f right' precedence
        in if precedes precedence p.current then more p else ok (right, p)

    pub parse_unary : ℕ → Parse S Expr
    parse_unary zero p = out_of_fuel
    parse_unary (suc f) p =
        let op = value_of p.current in
        let prefixed = (do advance; parse_prefixed f op) in
        if is_kind Kind.operator p.current then prefixed p else parse_primary f p

    -- `_parseUnary` behind its operator.
    pub parse_prefixed : ℕ → Text → Parse S Expr
    parse_prefixed zero op p = out_of_fuel
    parse_prefixed (suc f) op p =
        let signed = includes (codes "+" ∷ codes "-" ∷ []) op in
        let whole = parse_literal (Literal.integer (prefix_sign op) (value_of p.current)) in
        let fraction = parse_literal (Literal.decimal (prefix_sign op) (value_of p.current)) in
        let operand = do
          e ← parse_primary f
          child ← parse_precedence f e postfix_precedence
          pure (unary op child)
        in if signed && is_kind Kind.integer p.current
          then whole p
          else if signed && is_kind Kind.decimal p.current
          then fraction p
          else if includes unary_operators op
          then operand p
          else throws (unexpected_token op)

    pub parse_ternary : ℕ → Expr → Parse S Expr
    parse_ternary zero condition p = out_of_fuel
    parse_ternary (suc f) condition p =
        (do
          expect Kind.operator (codes "?")
          t ← parse_expression f
          expect_kind Kind.colon
          e ← parse_expression f
          pure (ternary condition t e))
          p

    pub parse_primary : ℕ → Parse S Expr
    parse_primary zero p = out_of_fuel
    parse_primary (suc f) p = elim p.current [
      | none ↦ ok (absent, p)
      | some t ↦ elim t.kind [
        | Kind.keyword ↦
            let this = (do advance; pure (id (codes "this"))) in
            if t.value === codes "this" then this p else throws (unexpected_keyword t.value)
        | Kind.identifier ↦ parse_invoke_or_identifier f t.value p
        | Kind.string ↦ parse_literal (Literal.text t.value) p
        | Kind.integer ↦ parse_literal (Literal.integer unsigned t.value) p
        | Kind.decimal ↦ parse_literal (Literal.decimal unsigned t.value) p
        | Kind.grouper ↦
            if t.value === codes "("
            then parse_paren_or_function f p
            else if t.value === codes "{"
            then parse_entries f end p
            else if t.value === codes "["
            then parse_items f nil p
            else ok (absent, p)
        | Kind.colon ↦ throws unexpected_colon
        | _ ↦ ok (absent, p)
      ]
    ]

    -- A round of the loop of `_parseList`, with the items so far; the last round ends the list.
    pub parse_items : ℕ → Exprs → Parse S Expr
    parse_items zero items p = out_of_fuel
    parse_items (suc f) items p = (do advance; parse_item f items) p

    pub parse_item : ℕ → Exprs → Parse S Expr
    parse_item zero items p = out_of_fuel
    parse_item (suc f) items p =
        let close = λ (es : Exprs). (do expect Kind.grouper (codes "]"); pure (list es)) in
        let item = do
          e ← parse_expression f
          (λ p'.
              let more = parse_items f (snoc items e) p' in
              if is_kind Kind.comma p'.current then more else close (snoc items e) p')
        in if is_token Kind.grouper (codes "]") p.current then close items p else item p

    -- A round of the loop of `_parseMap`.
    pub parse_entries : ℕ → Entries → Parse S Expr
    parse_entries zero entries p = out_of_fuel
    parse_entries (suc f) entries p = (do advance; parse_entry f entries) p

    pub parse_entry : ℕ → Entries → Parse S Expr
    parse_entry zero entries p = out_of_fuel
    parse_entry (suc f) entries p =
        let close = λ (es : Entries). (do expect Kind.grouper (codes "}"); pure (Expr.map es)) in
        let key = value_of p.current in
        let item = do
          (λ p'.
              if is_kind Kind.string p'.current || is_kind Kind.identifier p'.current
              then advance p'
              else ok (tt, p'))
          expect_kind Kind.colon
          e ← parse_expression f
          (λ p'.
              let more = parse_entries f (set_entry key e entries) p' in
              if is_kind Kind.comma p'.current then more else close (set_entry key e entries) p')
        in if is_token Kind.grouper (codes "}") p.current then close entries p else item p

    pub parse_invoke_or_identifier : ℕ → Text → Parse S Expr
    parse_invoke_or_identifier zero value p = out_of_fuel
    parse_invoke_or_identifier (suc f) value p =
        let name = (do advance; parse_behind_name f value) in
        if value === codes "true"
        then parse_literal Literal.true p
        else if value === codes "false"
        then parse_literal Literal.false p
        else if value === codes "null"
        then parse_literal Literal.null p
        else if value === codes "undefined"
        then parse_literal Literal.undefined p
        else name p

    -- `_parseInvokeOrIdentifier` behind the identifier.
    pub parse_behind_name : ℕ → Text → Parse S Expr
    parse_behind_name zero value p = out_of_fuel
    parse_behind_name (suc f) value p =
        let function = do
          advance
          body ← parse_expression f
          pure (arrow_function (Param.name value ∷ []) body)
        in let call = do args ← parse_arguments f; pure (invoke (id value) none args)
          in if is_kind Kind.arrow p.current
            then function p
            else if is_token Kind.grouper (codes "(") p.current
            then call p
            else ok (id value, p)

    -- `_parseArguments`, at its opening parenthesis.
    pub parse_arguments : ℕ → Parse S Exprs
    parse_arguments zero p = out_of_fuel
    parse_arguments (suc f) p = parse_round f nil p

    -- A round of its loop.
    pub parse_round : ℕ → Exprs → Parse S Exprs
    parse_round zero args p = out_of_fuel
    parse_round (suc f) args p = (do advance; parse_argument f args) p

    pub parse_argument : ℕ → Exprs → Parse S Exprs
    parse_argument zero args p = out_of_fuel
    parse_argument (suc f) args p =
        let close = λ (es : Exprs). (do expect Kind.grouper (codes ")"); pure es) in
        let item = do
          e ← parse_expression f
          (λ p'.
              let more = parse_round f (snoc args e) p' in
              if is_kind Kind.comma p'.current then more else close (snoc args e) p')
        in if is_token Kind.grouper (codes ")") p.current then close args p else item p

    pub parse_paren_or_function : ℕ → Parse S Expr
    parse_paren_or_function zero p = out_of_fuel
    parse_paren_or_function (suc f) p = (do es ← parse_arguments f; parse_behind_paren f es) p

    -- `_parseParenOrFunction` behind the closing parenthesis; `expressions[0]` of none is undefined.
    pub parse_behind_paren : ℕ → Exprs → Parse S Expr
    parse_behind_paren zero es p = out_of_fuel
    parse_behind_paren (suc f) es p =
        let function = do
          advance
          body ← parse_expression f
          params ← lift (params_of es)
          pure (arrow_function params body)
        in if is_kind Kind.arrow p.current then function p else ok (first_of_exprs es, p)

  -- `parse()`.
  unfoldable pub parse_with : ℕ → S → Result Expr
  unfolding parse_expression advance
  parse_with fuel s =
      Token.◌>>=◌ ((do advance; parse_expression fuel) (record { current = none; source = s }))
        λ (e, p). ok e

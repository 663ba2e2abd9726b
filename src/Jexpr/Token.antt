-- ===== src/Jexpr/Token.antt =====
-- The tokens of lib/lunula/assets/jexpr.js, the precedences, and the errors that it throws.
use hacienda.Prelude.{ℕ, List, [], ◌∷◌, Text, codes, ◌===◌, if◌then◌else◌}

pub data Kind : Type 0 where
  string identifier dot comma colon integer decimal operator grouper keyword arrow : Kind

abbrev pub kind_index : Kind → ℕ
kind_index string = 1
kind_index identifier = 2
kind_index dot = 3
kind_index comma = 4
kind_index colon = 5
kind_index integer = 6
kind_index decimal = 7
kind_index operator = 8
kind_index grouper = 9
kind_index keyword = 10
kind_index arrow = 11

pub record Token : Type 0 where
  pub kind : Kind
  pub value : Text
  pub precedence : ℕ

-- Where the source throws, by the place.
pub data SyntaxError : Type 0 where
  unterminated_string : SyntaxError
  expected_end : ℕ → SyntaxError
  expected_kind : Kind → SyntaxError
  left_undefined expected_identifier unexpected_colon undefined_parameter : SyntaxError
  unknown_operator unexpected_token : Text → SyntaxError
  unexpected_keyword : Text → SyntaxError

pub data Result {ℓ} (A : Type ℓ) : Type ℓ where
  ok : A → Result A
  throws : SyntaxError → Result A
  -- No outcome of the program: the model's fuel ran out.
  out_of_fuel : Result A

infixl 5 ◌>>=◌
abbrev pub ◌>>=◌ {ℓ κ} : {A : Type ℓ} {B : Type κ} → Result A → (A → Result B) → Result B
ok a >>= f = f a
throws e >>= f = throws e
out_of_fuel >>= f = out_of_fuel

abbrev pub binary_operators : List Text
binary_operators =
    codes "="
    ∷ codes "+"
    ∷ codes "-"
    ∷ codes "*"
    ∷ codes "/"
    ∷ codes "%"
    ∷ codes "=="
    ∷ codes "!="
    ∷ codes "==="
    ∷ codes "!=="
    ∷ codes ">"
    ∷ codes "<"
    ∷ codes ">="
    ∷ codes "<="
    ∷ codes "||"
    ∷ codes "&&"
    ∷ codes "??"
    ∷ []

abbrev pub unary_operators : List Text
unary_operators = codes "+" ∷ codes "-" ∷ codes "!" ∷ []

abbrev precedences : List (Text × ℕ)
precedences =
    (codes "!", 0)
    ∷ (codes ":", 0)
    ∷ (codes ",", 0)
    ∷ (codes ")", 0)
    ∷ (codes "]", 0)
    ∷ (codes "}", 0)
    ∷ (codes "?", 2)
    ∷ (codes "??", 3)
    ∷ (codes "||", 4)
    ∷ (codes "&&", 5)
    ∷ (codes "!=", 9)
    ∷ (codes "==", 9)
    ∷ (codes "!==", 9)
    ∷ (codes "===", 9)
    ∷ (codes ">=", 10)
    ∷ (codes ">", 10)
    ∷ (codes "<=", 10)
    ∷ (codes "<", 10)
    ∷ (codes "+", 11)
    ∷ (codes "-", 11)
    ∷ (codes "%", 12)
    ∷ (codes "/", 12)
    ∷ (codes "*", 12)
    ∷ (codes "(", 13)
    ∷ (codes "[", 13)
    ∷ (codes ".", 13)
    ∷ (codes "{", 13)
    ∷ []

abbrev pub postfix_precedence : ℕ
postfix_precedence = 13

precedence_in : List (Text × ℕ) → Text → ℕ
precedence_in [] s = 0
precedence_in ((t, p) ∷ table) s = if t === s then p else precedence_in table s

-- `PRECEDENCE[value]`, where `token` puts 0 for an entry that is not there.
unfoldable pub precedence_of : Text → ℕ
unfolding precedence_in
precedence_of s = precedence_in precedences s

abbrev pub token : Kind → Text → Token
token k v = record { kind = k; value = v; precedence = 0 }

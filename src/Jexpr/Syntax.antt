-- ===== src/Jexpr/Syntax.antt =====
-- The nodes that the parser of lib/lunula/assets/jexpr.js builds with its factory. `absent` is
-- `undefined` in the place of a node, which the parser accepts in most places.
use hacienda.Prelude.{Text, Option, List}

-- A number as it is written: its sign, and its digits; `parseInt` or `parseFloat` reads it.
pub data Sign : Type 0 where
  unsigned plus minus : Sign

pub data Literal : Type 0 where
  true false null undefined : Literal
  text : Text → Literal
  integer : Sign → Text → Literal
  decimal : Sign → Text → Literal

-- What `e.value` is for a node in the place of a parameter: the name of an identifier, the value of a
-- literal, or nothing.
pub data Param : Type 0 where
  name : Text → Param
  value : Literal → Param
  nameless : Param

mutual
  pub data Expr : Type 0 where
    absent : Expr
    empty : Expr
    literal : Literal → Expr
    id : Text → Expr
    unary : Text → Expr → Expr
    binary : Expr → Text → Expr → Expr
    getter : Expr → Text → Expr
    -- With the name of a method, or without.
    invoke : Expr → Option Text → Exprs → Expr
    index : Expr → Expr → Expr
    ternary : Expr → Expr → Expr → Expr
    map : Entries → Expr
    list : Exprs → Expr
    arrow_function : List Param → Expr → Expr

  pub data Exprs : Type 0 where
    nil : Exprs
    cons : Expr → Exprs → Exprs

  pub data Entries : Type 0 where
    end : Entries
    entry : Text → Expr → Entries → Entries

-- ===== src/Ast.antt =====
-- ast/node.go: the syntax tree.
-- The structs of the binary operators have the same two fields and differ in nothing but their
-- names, and so do those of the operators of one operand: each group is one constructor with the
-- name as an argument. A field that may be nil, or a slice of nodes, has a type of its own, as a
-- constructor cannot hold an Option or a List of nodes. A float is the number of its IEEE 754 bits.
pub mod Position
pub mod Visit
use gocaml.Base.{ℕ, Bool, Option, List, Text, ℤ}
use gocaml.Token.{Pos, Token}

pub record Symbol : Type 0 where
  pub display_name : Text
  pub name : Text

pub data UnaryOp : Type 0 where
  not_op neg fneg : UnaryOp

pub data BinaryOp : Type 0 where
  add sub mul div modulo fadd fsub fmul fdiv : BinaryOp
  eq not_eq less less_eq greater greater_eq and_op or_op : BinaryOp

mutual
  pub data Expr : Type 0 where
    unit_lit : Token → Token → Expr
    bool_lit : Token → Bool → Expr
    int_lit : Token → ℤ → Expr
    float_lit : Token → ℕ → Expr
    string_lit : Token → Text → Expr
    unary : UnaryOp → Token → Expr → Expr
    binary : BinaryOp → Expr → Expr → Expr
    if_expr : Token → Expr → Expr → Expr → Expr
    let_expr : Token → Symbol → MaybeExpr → Expr → Expr → Expr
    var_ref : Token → Symbol → Expr
    let_rec : Token → Symbol → Params → MaybeExpr → Expr → Expr → Expr
    apply : Expr → Exprs → Expr
    tuple : Exprs → Expr
    let_tuple : Token → List Symbol → MaybeExpr → Expr → Expr → Expr
    array_make : Token → Expr → Expr → Expr
    array_size : Token → Expr → Expr
    array_get : Expr → Expr → Expr
    array_put : Expr → Expr → Expr → Expr
    match_expr : Token → Expr → Symbol → Expr → Expr → Pos → Expr
    some_expr : Token → Expr → Expr
    none_expr : Token → Expr
    array_lit : Token → Token → Exprs → Expr
    func_type : Exprs → Expr → Expr
    tuple_type : Exprs → Expr
    ctor_type : Option Token → Token → Exprs → Symbol → Expr
    typed : Expr → Expr → Expr
    type_decl : Token → Symbol → Expr → Expr
    external_decl : Token → Token → Symbol → Expr → Text → Expr

  pub data Exprs : Type 0 where
    nil : Exprs
    cons : Expr → Exprs → Exprs

  -- `Expr` that may be nil.
  pub data MaybeExpr : Type 0 where
    absent : MaybeExpr
    present : Expr → MaybeExpr

  -- `Params` of a `FuncDef`.
  pub data Params : Type 0 where
    no_params : Params
    param : Symbol → MaybeExpr → Params → Params

pub record TypeDecl : Type 0 where
  pub token : Token
  pub ident : Symbol
  pub ty : Expr

pub record External : Type 0 where
  pub start_token : Token
  pub end_token : Token
  pub ident : Symbol
  pub ty : Expr
  pub c : Text

-- `AST`
pub record Ast : Type 0 where
  pub root : Expr
  pub type_decls : List TypeDecl
  pub externals : List External

-- ===== src/Mir/Val.antt =====
-- mir/val.go: what an instruction computes.
-- A block inside a value is the sequence of its instructions, each a name and a value, without the
-- NOP at the top and at the bottom. A float is the number of its IEEE 754 bits.
use gocaml.Base.{ℕ, Bool, List, Text, ℤ}

pub data OperatorKind : Type 0 where
  not_op neg fneg add sub mul div modulo fadd fsub fmul fdiv : OperatorKind
  lt lte eq neq gt gte and_op or_op : OperatorKind

pub data AppKind : Type 0 where
  direct_call closure_call external_call : AppKind

mutual
  pub data Val : Type 0 where
    unit_val none_val nop : Val
    bool_val : Bool → Val
    int_val : ℤ → Val
    float_val : ℕ → Val
    string_val : Text → Val
    unary : OperatorKind → Text → Val
    binary : OperatorKind → Text → Text → Val
    ref : Text → Val
    if_val : Text → Insns → Insns → Val
    fun_val : List Text → Insns → Bool → Val
    app : Text → List Text → AppKind → Val
    tuple : List Text → Val
    tpl_load : Text → ℤ → Val
    array : Text → Text → Val
    arr_lit : List Text → Val
    arr_load : Text → Text → Val
    arr_store : Text → Text → Text → Val
    arr_len : Text → Val
    some_val : Text → Val
    is_some : Text → Val
    deref_some : Text → Val
    xref : Text → Val
    make_cls : List Text → Text → Val

  pub data Insns : Type 0 where
    nil : Insns
    cons : Text → Val → Insns → Insns

-- ===== src/Sema/ToMir/State.antt =====
-- sema/to_mir.go: the state of the emitter, and chains of instructions.
use gocaml.Base.{put, ℕ, Option, none, some, List, [], ◌∷◌, Text}
use gocaml.Types.{Ty, Tys}
use gocaml.Types as Types
use gocaml.Ast.{Symbol, Expr, Params, UnaryOp, BinaryOp, var_ref, no_params, param}
use gocaml.Mir.Val.{OperatorKind, direct_call, Val, Insns}
use gocaml.Mir.Val as Mir
use gocaml.Sema.Generic.{Instantiation}

-- The fields of `emitter` and of its environment that change.
pub record Emitter : Type 0 where
  pub count : ℕ
  pub decl_table : Text → Option (Option Ty)
  pub ref_insts : Text → Option Instantiation

abbrev pub M : Type 0 → Type 0
M A = Emitter → Option (A × Emitter)

infixl 5 ◌>>=◌ ◌>>◌
abbrev pub ◌>>=◌ : {A B : Type 0} → M A → (A → M B) → M B
◌>>=◌ m f s = elim (m s) [ none ↦ none | some (a, s') ↦ f a s' ]

abbrev pub ◌>>◌ : {A B : Type 0} → M A → M B → M B
m >> k = m >>= λ _. k

abbrev pub pure : {A : Type 0} → A → M A
pure a s = some (a, s)

abbrev pub modify : (Emitter → Emitter) → M (Unit {0})
modify f s = some (tt, f s)

-- A chain that is not empty.
pub record Emitted : Type 0 where
  pub ident : Text
  pub val : Val
  pub rest : Insns

abbrev pub chain : Emitted → Insns
chain r = Mir.cons r.ident r.val r.rest

unfoldable pub append : Insns → Insns → Insns
append Mir.nil older = older
append (Mir.cons n v rest) older = Mir.cons n v (append rest older)

-- `Append`, on the chain of an instruction.
abbrev pub behind : Emitted → Insns → Emitted
behind r older = record r { rest = append r.rest older }

-- What `Reverse` and `NewBlock` make of a chain.
unfoldable pub reverse_onto : Insns → Insns → Insns
reverse_onto Mir.nil done = done
reverse_onto (Mir.cons n v rest) done = reverse_onto rest (Mir.cons n v done)

abbrev pub declare : Text → Option Ty → Emitter → Emitter
declare n t s = record s { decl_table = put n t s.decl_table }

abbrev pub panic : {A : Type 0} → M A
panic s = none

abbrev pub or_panic : {A : Type 0} → Option A → M A
or_panic none = panic
or_panic (some a) = pure a

abbrev pub binary_kind : BinaryOp → OperatorKind
binary_kind BinaryOp.add = OperatorKind.add
binary_kind BinaryOp.sub = OperatorKind.sub
binary_kind BinaryOp.mul = OperatorKind.mul
binary_kind BinaryOp.div = OperatorKind.div
binary_kind BinaryOp.modulo = OperatorKind.modulo
binary_kind BinaryOp.fadd = OperatorKind.fadd
binary_kind BinaryOp.fsub = OperatorKind.fsub
binary_kind BinaryOp.fmul = OperatorKind.fmul
binary_kind BinaryOp.fdiv = OperatorKind.fdiv
binary_kind BinaryOp.less = OperatorKind.lt
binary_kind BinaryOp.less_eq = OperatorKind.lte
binary_kind BinaryOp.greater = OperatorKind.gt
binary_kind BinaryOp.greater_eq = OperatorKind.gte
binary_kind BinaryOp.and_op = OperatorKind.and_op
binary_kind BinaryOp.or_op = OperatorKind.or_op
binary_kind BinaryOp.eq = OperatorKind.eq
binary_kind BinaryOp.not_eq = OperatorKind.neq

abbrev pub unary_kind : UnaryOp → OperatorKind
unary_kind UnaryOp.not_op = OperatorKind.not_op
unary_kind UnaryOp.neg = OperatorKind.neg
unary_kind UnaryOp.fneg = OperatorKind.fneg

abbrev pub param_names : Params → List Text
param_names no_params = []
param_names (param x ty ps) = x.name ∷ param_names ps

-- The type assertion of `emitAppInsn`, and those of `emitMatchInsn` and `emitLetTupleInsn`.
abbrev pub as_ref : Expr → Option Symbol
as_ref (var_ref tok x) = some x
as_ref _ = none

abbrev pub option_elem : Option (Option Ty) → Option Ty
option_elem (some (some (Types.option t))) = some t
option_elem _ = none

abbrev pub tuple_elems : Ty → Option Tys
tuple_elems (Types.tuple ts) = some ts
tuple_elems _ = none

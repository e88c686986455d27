-- ===== src/Sema/Infer/State.antt =====
-- sema/infer.go: the state of inference, and its results.
use gocaml.Base.{ℕ, Option, none, some, List, [], ◌∷◌, Text, pos, put}
use gocaml.Types.{Ty, Tys, bool, int, float, tuple, var, Store, new_var}
use gocaml.Ast.{Expr, UnaryOp, BinaryOp}
use gocaml.Sema.Unify.{UnifyError, Outcome, ok, err, panic, no_fuel}
use gocaml.Sema.Generic.{BoundVarIds, Generalizer, Instantiation}
use gocaml.Sema.NodeToType.{
  TypeError, Converted, NodeTypeConv, node_to_type, new_node_type_conv, refuses, gives,
}
use gocaml.Sema.NodeToType as NodeToType

pub data InferError : Type 0 where
  mismatched : UnifyError → InferError
  bad_type : TypeError → InferError
  tuple_symbols : ℕ → ℕ → InferError

-- What `Inferer` and its environment keep.
pub record Inferer : Type 0 where
  pub store : Store
  pub decl_table : Text → Option Ty
  pub inferred : List (Expr × Ty)
  pub schemes : List (Ty × BoundVarIds)
  pub insts : List (Expr × Instantiation)

pub data Inference (A : Type 0) : Type 0 where
  out panics : Inference A
  fails : InferError → Inference A
  infers : A → Inferer → Inference A

abbrev pub M : Type 0 → Type 0
M A = Inferer → Inference A

abbrev pub follow : {A B : Type 0} → Inference A → (A → M B) → Inference B
follow out f = out
follow panics f = panics
follow (fails e) f = fails e
follow (infers a s) f = f a s

infixl 5 ◌>>=◌ ◌>>◌
abbrev pub ◌>>=◌ : {A B : Type 0} → M A → (A → M B) → M B
◌>>=◌ m f s = follow (m s) f

abbrev pub ◌>>◌ : {A B : Type 0} → M A → M B → M B
m >> k = m >>= λ _. k

abbrev pub pure : {A : Type 0} → A → M A
pure a s = infers a s

abbrev pub modify : (Inferer → Inferer) → M (Unit {0})
modify f s = infers tt (f s)

abbrev pub refuse : {A : Type 0} → InferError → M A
refuse e s = fails e

abbrev pub declare : Text → Ty → M (Unit {0})
declare x t = modify (λ s. record s { decl_table = put x t s.decl_table })

-- `infer`, given what `inferNode` does.
abbrev pub noted : Expr → M Ty → M Ty
noted e m = do t ← m; modify (λ s. record s { inferred = (e, t) ∷ s.inferred }); pure t

abbrev pub from_outcome : Outcome Store → M (Unit {0})
from_outcome (ok st) s = infers tt (record s { store = st })
from_outcome (err e) s = fails (mismatched e)
from_outcome panic s = panics
from_outcome no_fuel s = out

abbrev pub from_converted : {A : Type 0} → Converted A → M A
from_converted NodeToType.panics s = panics
from_converted (refuses e) s = fails (bad_type e)
from_converted (gives t st) s = infers t (record s { store = st })

abbrev pub add_scheme : Ty → BoundVarIds → List (Ty × BoundVarIds) → List (Ty × BoundVarIds)
add_scheme t [] ss = ss
add_scheme t (id ∷ ids) ss = (t, id ∷ ids) ∷ ss

abbrev pub from_generalized : Option (Ty × Generalizer) → M Ty
from_generalized none s = out
from_generalized (some (t, (bounds, st))) s =
    infers t (record s { store = st; schemes = add_scheme t bounds s.schemes })

abbrev pub new_type_var : ℕ → M Ty
new_type_var level s =
    let (p, st) = new_var none (pos level) s.store in infers (var p) (record s { store = st })

-- A reference to a declared variable, given the instantiation of its type.
abbrev pub instantiated : Expr → Ty → Option (Option Instantiation × Store) → M Ty
instantiated node t none s = out
instantiated node t (some (none, st)) s = infers t (record s { store = st })
instantiated node t (some (some inst, st)) s =
    infers inst.to (record s { store = st; insts = (node, inst) ∷ s.insts })

abbrev pub as_tuple : Ty → Option Tys
as_tuple (tuple ts) = some ts
as_tuple t = none

abbrev pub negated_type : UnaryOp → Ty
negated_type UnaryOp.not_op = bool
negated_type UnaryOp.neg = int
negated_type UnaryOp.fneg = float

pub data Operands : Type 0 where
  arithmetic : Ty → Operands
  relational logical : Operands

abbrev pub operands : BinaryOp → Operands
operands BinaryOp.add = arithmetic int
operands BinaryOp.sub = arithmetic int
operands BinaryOp.mul = arithmetic int
operands BinaryOp.div = arithmetic int
operands BinaryOp.modulo = arithmetic int
operands BinaryOp.fadd = arithmetic float
operands BinaryOp.fsub = arithmetic float
operands BinaryOp.fmul = arithmetic float
operands BinaryOp.fdiv = arithmetic float
operands BinaryOp.eq = relational
operands BinaryOp.not_eq = relational
operands BinaryOp.less = relational
operands BinaryOp.less_eq = relational
operands BinaryOp.greater = relational
operands BinaryOp.greater_eq = relational
operands BinaryOp.and_op = logical
operands BinaryOp.or_op = logical

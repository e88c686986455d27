-- ===== src/Sema/Infer.antt =====
-- sema/infer.go: inferring the types of the nodes of a tree.
-- Links are followed on fuel, `out` when there is not enough. The results that the code keeps by
-- node are lists of nodes with them. Errors keep their kind, without message and position.
mod State
pub mod Items
pub mod Steps
pub mod Covers
unfoldable pub use State.*
use gocaml.Base.{
  ℕ, ◌+◌, ◌==◌, Bool, true, false, Option, none, some, List, [], ◌∷◌, Text, if◌then◌else◌, ℤ, pos,
  negsuc, put, length,
}
use gocaml.Types.{
  Ty, Tys, unit, bool, int, float, string, fun, tuple, array, option, var, Store, new_var,
}
use gocaml.Types as Types
use gocaml.Ast.{
  Symbol, Expr, Exprs, MaybeExpr, Params, External, Ast, UnaryOp, BinaryOp, unit_lit, bool_lit,
  int_lit, float_lit, string_lit, unary, binary, if_expr, let_expr, var_ref, let_rec, apply,
  let_tuple, array_make, array_size, array_get, array_put, match_expr, some_expr, none_expr,
  array_lit, func_type, tuple_type, ctor_type, typed, type_decl, external_decl, nil, cons, absent,
  present, no_params, param,
}
use gocaml.Ast as Ast
use gocaml.Sema.Unify.{UnifyError, Outcome, ok, err, panic, no_fuel, unify, length_tys}
use gocaml.Sema.Generic.{BoundVarIds, Generalizer, Instantiation, generalize, instantiate}
use gocaml.Sema.NodeToType.{
  TypeError, Converted, NodeTypeConv, node_to_type, new_node_type_conv, refuses, gives,
}
use gocaml.Sema.NodeToType as NodeToType

module _ (fuel : ℕ) (conv : NodeTypeConv) (externals : Text → Option Ty) where
  unfoldable pub unify_types : Ty → Ty → M (Unit {0})
  unfolding unify
  unify_types l r s = from_outcome (unify fuel l r s.store) s

  unfoldable pub convert : Expr → ℕ → M Ty
  unfolding node_to_type
  convert ty level s = from_converted (node_to_type conv ty (pos level) s.store) s

  unfoldable pub generalize_type : Ty → ℕ → M Ty
  unfolding generalize
  generalize_type t level s = from_generalized (generalize fuel t (pos level) s.store) s

  -- The type of an annotation, or a new variable.
  abbrev pub annotated : MaybeExpr → ℕ → M Ty
  annotated absent level = new_type_var level
  annotated (present ty) level = convert ty level

  abbrev pub constrain : MaybeExpr → Ty → ℕ → M (Unit {0})
  constrain absent bound level = pure tt
  constrain (present ty) bound level = convert ty level >>= λ t. unify_types t bound

  -- `case *ast.VarRef`, given the type that is declared and that of an external.
  unfoldable pub refer : Expr → Option Ty → Option Ty → ℕ → M Ty
  unfolding instantiate
  refer node (some t) ext level s = instantiated node t (instantiate fuel t (pos level) s.store) s
  refer node none (some t) level s = infers t s
  refer node none none level s = panics

  unfoldable pub infer_params : Params → ℕ → M Tys
  unfolding convert
  infer_params no_params level = pure Types.nil
  infer_params (param x ty ps) level = do
    t ← annotated ty level
    declare x.name t
    ts ← infer_params ps level
    pure (Types.cons t ts)

  unfoldable pub new_type_vars : List Symbol → ℕ → M Tys
  new_type_vars [] level = pure Types.nil
  new_type_vars (x ∷ xs) level = do
    t ← new_type_var level
    ts ← new_type_vars xs level
    pure (Types.cons t ts)

  -- The types of the symbols of a `LetTuple`. A type that is no tuple is printed through a nil
  -- `*Tuple`, which panics.
  abbrev pub tuple_of : List Symbol → Option Tys → M Tys
  tuple_of xs none = λ s. panics
  tuple_of xs (some ts) =
      if length_tys ts == length xs
      then pure ts
      else refuse (tuple_symbols (length_tys ts) (length xs))

  unfoldable pub tuple_types : List Symbol → MaybeExpr → ℕ → M Tys
  unfolding convert new_type_vars
  tuple_types xs absent level = new_type_vars xs (level + 1)
  tuple_types xs (present ty) level = convert ty level >>= λ t. tuple_of xs (as_tuple t)

  unfoldable pub declare_elems : List Symbol → Tys → ℕ → M (Unit {0})
  unfolding generalize_type
  declare_elems [] ts level = pure tt
  declare_elems (x ∷ xs) Types.nil level = λ s. panics
  declare_elems (x ∷ xs) (Types.cons t ts) level = do
    t' ← generalize_type t level
    declare x.name t'
    declare_elems xs ts level

  -- `checkNodeType`, given what infers the node.
  abbrev pub check_node_type : M Ty → Ty → M (Unit {0})
  check_node_type node expected = node >>= λ t. unify_types expected t

  abbrev pub infer_binary : Operands → M Ty → M Ty → M Ty
  infer_binary (arithmetic operand) left right = do
    l ← left
    r ← right
    unify_types operand l
    unify_types operand r
    pure operand
  infer_binary relational left right = do l ← left; r ← right; unify_types l r; pure bool
  infer_binary logical left right = do
    l ← left
    unify_types bool l
    r ← right
    unify_types bool r
    pure bool

  abbrev pub infer_if : M Ty → M Ty → M Ty → M Ty
  infer_if cond if_true if_false = do
    check_node_type cond bool
    t ← if_true
    e ← if_false
    unify_types t e
    pure t

  abbrev pub infer_let : Symbol → MaybeExpr → M Ty → M Ty → ℕ → M Ty
  infer_let x ty bound body level = do
    b ← bound
    constrain ty b level
    t ← generalize_type b level
    declare x.name t
    body

  abbrev pub infer_let_rec : Symbol → Params → MaybeExpr → M Ty → M Ty → ℕ → M Ty
  infer_let_rec f ps ret body rest level = do
    params ← infer_params ps (level + 1)
    r ← annotated ret (level + 1)
    declare f.name (fun r params)
    r2 ← body
    unify_types r2 r
    t ← generalize_type (fun r params) level
    declare f.name t
    rest

  abbrev pub infer_apply : M Tys → M Ty → ℕ → M Ty
  infer_apply args callee level = do
    ts ← args
    ret ← new_type_var level
    c ← callee
    unify_types c (fun ret ts)
    pure ret

  abbrev pub infer_let_tuple : List Symbol → MaybeExpr → M Ty → M Ty → ℕ → M Ty
  infer_let_tuple xs ty bound body level = do
    ts ← tuple_types xs ty level
    b ← bound
    declare_elems xs ts level
    unify_types (tuple ts) b
    body

  unfoldable mutual
    unfolding unify_types convert generalize_type refer infer_params tuple_types declare_elems

    pub infer_node : Expr → ℕ → M Ty
    infer_node (unit_lit l r) level = pure unit
    infer_node (int_lit tok i) level = pure int
    infer_node (float_lit tok x) level = pure float
    infer_node (string_lit tok t) level = pure string
    infer_node (bool_lit tok b) level = pure bool
    infer_node (unary op tok e) level = do
      check_node_type (noted e (infer_node e level)) (negated_type op)
      pure (negated_type op)
    infer_node (binary op l r) level =
        infer_binary (operands op) (noted l (infer_node l level)) (noted r (infer_node r level))
    infer_node (if_expr tok c a b) level =
        infer_if (noted c (infer_node c level)) (noted a (infer_node a level))
          (noted b (infer_node b level))
    infer_node (let_expr tok x ty bound body) level =
        infer_let x ty (noted bound (infer_node bound (level + 1)))
          (noted body (infer_node body level)) level
    infer_node (var_ref tok x) level =
        λ s. refer (var_ref tok x) (s.decl_table x.name) (externals x.name) level s
    infer_node (let_rec tok f ps ret body rest) level =
        infer_let_rec f ps ret (noted body (infer_node body (level + 1)))
          (noted rest (infer_node rest level)) level
    infer_node (apply callee args) level =
        infer_apply (infer_all args level) (noted callee (infer_node callee level)) level
    infer_node (Ast.tuple es) level = do ts ← infer_all es level; pure (tuple ts)
    infer_node (let_tuple tok xs ty bound body) level =
        infer_let_tuple xs ty (noted bound (infer_node bound (level + 1)))
          (noted body (infer_node body level)) level
    infer_node (array_make tok n e) level = do
      check_node_type (noted n (infer_node n level)) int
      t ← noted e (infer_node e level)
      pure (array t)
    infer_node (array_size tok a) level = do
      elem ← new_type_var level
      check_node_type (noted a (infer_node a level)) (array elem)
      pure int
    infer_node (array_get a i) level = do
      elem ← new_type_var level
      check_node_type (noted a (infer_node a level)) (array elem)
      check_node_type (noted i (infer_node i level)) int
      pure elem
    infer_node (array_put a i e) level = do
      check_node_type (noted i (infer_node i level)) int
      t ← noted e (infer_node e level)
      check_node_type (noted a (infer_node a level)) (array t)
      pure unit
    infer_node (array_lit l r nil) level = do elem ← new_type_var level; pure (array elem)
    infer_node (array_lit l r (cons e es)) level = do
      elem ← noted e (infer_node e level)
      infer_others elem es level
      pure (array elem)
    infer_node (some_expr tok e) level = do t ← noted e (infer_node e level); pure (option t)
    infer_node (none_expr tok) level = do elem ← new_type_var level; pure (option elem)
    infer_node (match_expr tok e x a b last) level = do
      elem ← new_type_var level
      check_node_type (noted e (infer_node e level)) (option elem)
      declare x.name elem
      t ← noted a (infer_node a level)
      u ← noted b (infer_node b level)
      unify_types t u
      pure t
    infer_node (typed e ty) level = do
      child ← noted e (infer_node e level)
      t ← convert ty level
      unify_types t child
      pure child
    infer_node (func_type ps r) level = λ s. panics
    infer_node (tuple_type ts) level = λ s. panics
    infer_node (ctor_type l r ps c) level = λ s. panics
    infer_node (type_decl tok x ty) level = λ s. panics
    infer_node (external_decl l r x ty c) level = λ s. panics

    -- The loops over arguments and elements.
    pub infer_all : Exprs → ℕ → M Tys
    infer_all nil level = pure Types.nil
    infer_all (cons e es) level = do
      t ← noted e (infer_node e level)
      ts ← infer_all es level
      pure (Types.cons t ts)

    -- The loop over the elements of an array literal but for the first.
    pub infer_others : Ty → Exprs → ℕ → M (Unit {0})
    infer_others elem nil level = pure tt
    infer_others elem (cons e es) level = do
      t ← noted e (infer_node e level)
      unify_types elem t
      infer_others elem es level

  unfoldable pub infer : Expr → ℕ → M Ty
  unfolding infer_node
  infer e level = noted e (infer_node e level)

-- The loop over the externals, whose types may not have `_`.
unfoldable pub declare_externals :
    List External → NodeTypeConv → (Text → Option Ty) → Store → Converted (Text → Option Ty)
unfolding node_to_type
declare_externals [] conv table s = gives table s
declare_externals (e ∷ es) conv table s =
    NodeToType.and_then (node_to_type conv e.ty (negsuc 0) s)
      (λ t s1. declare_externals es conv (put e.ident.name t table) s1)

-- `Infer`, but for the dereferencing at its end: the types of the externals.
unfoldable pub infer_ast : ℕ → Ast → (Text → Option Ty) → M (Text → Option Ty)
unfolding infer new_node_type_conv declare_externals unify_types
infer_ast fuel tree externals = do
  conv ← (λ s. from_converted (new_node_type_conv tree.type_decls s.store) s)
  table ← (λ s.
      from_converted
        (declare_externals tree.externals (record conv { accepts_any_type = false }) externals
          s.store)
        s)
  root ← infer fuel (record conv { accepts_any_type = true }) table tree.root 0
  unify_types fuel conv table unit root
  pure table

-- ===== src/Sema/ToMir.antt =====
-- sema/to_mir.go: the syntax tree becomes blocks of instructions.
-- `none` is a panic. A chain of instructions that `emitInsn` returns goes from the newest to the
-- oldest: its first instruction, and the others behind it. A map is a function; the nodes that are
-- the keys of the inferred types and of the instantiations are told apart by their positions. A nil
-- type in `DeclTable` is `some none`.
mod State
pub mod Chains
pub mod Ready
pub mod Rules
pub mod Parts
pub mod Operands
pub mod Emits
unfoldable pub use State.*
use gocaml.Base.{
  put, remove, ℕ, ◌+◌, ◌%◌, ◌^◌, Bool, true, false, Option, none, some, List, [], ◌∷◌, ◌++◌, Text,
  codes, text_eq, if◌then◌else◌, pos,
}
use gocaml.Types.{Ty, Tys}
use gocaml.Types as Types
use gocaml.Ast.{
  Symbol, Expr, Exprs, Params, UnaryOp, BinaryOp, unit_lit, bool_lit, int_lit, float_lit,
  string_lit, unary, binary, if_expr, let_expr, var_ref, let_rec, apply, tuple, let_tuple,
  array_make, array_size, array_get, array_put, match_expr, some_expr, none_expr, array_lit,
  func_type, tuple_type, ctor_type, typed, type_decl, external_decl, nil, cons, no_params, param,
}
use gocaml.Ast.Position
use gocaml.Mir.Val.{OperatorKind, direct_call, Val, Insns}
use gocaml.Mir.Val as Mir
use gocaml.Sema.Generic.{Instantiation}

-- The fields of `emitter` and of its environment that do not change, and `Sprintf` of a number.
pub record Inputs : Type 0 where
  pub decimal : ℕ → Text
  pub inferred : Expr → Option Ty
  pub insts : Expr → Option Instantiation
  pub externals : Text → Bool

module _ (given : Inputs) where
  open given use {decimal, inferred, insts, externals}

  abbrev pub next_count : ℕ → ℕ
  next_count c = (c + 1) % 2 ^ 64

  abbrev pub id_of : ℕ → Text
  id_of c = codes "$k" ++ decimal c

  abbrev pub gen_id : M Text
  gen_id s = let c = next_count s.count in some (id_of c, record s { count = c })

  abbrev pub type_of : Expr → M Ty
  type_of node = or_panic (inferred node)

  -- `node.Pos()` fails on a tuple without elements.
  unfoldable pub insn : Val → Insns → Expr → M Emitted
  insn val prev node = do
    id ← gen_id
    t ← type_of node
    modify (declare id (some t))
    or_panic (Position.pos node)
    pure (record { ident = id; val = val; rest = prev })

  abbrev pub inst_ref : Text → Option Instantiation → Emitter → Emitter
  inst_ref id (some inst) s = record s { ref_insts = put id inst s.ref_insts }
  inst_ref id none s = s

  abbrev pub with_inst : Expr → Emitted → M Emitted
  with_inst ref r = modify (inst_ref r.ident (insts ref)) >> pure r

  -- `case *ast.VarRef`, given whether the name is declared.
  abbrev pub declared : Text → Emitter → Bool
  declared x s = elim (s.decl_table x) [ none ↦ false | some t ↦ true ]

  unfoldable pub emit_ref : Symbol → Expr → M Emitted
  unfolding insn
  emit_ref x node s =
      if declared x.name s
      then (insn (Mir.ref x.name) Mir.nil node >>= with_inst node) s
      else if externals x.name
      then insn (Mir.xref x.name) Mir.nil node s
      else none

  -- The result of a binding takes the name of the symbol, with its type and its instantiation.
  abbrev pub move_inst : Text → Text → Option Instantiation → Emitter → Emitter
  move_inst from to (some inst) s = record s { ref_insts = put to inst (remove from s.ref_insts) }
  move_inst from to none s = s

  abbrev pub nil_or : Option (Option Ty) → Option Ty
  nil_or none = none
  nil_or (some t) = t

  unfoldable pub rename_bound : Text → Emitted → M Emitted
  rename_bound name bound s =
      let t = nil_or (s.decl_table bound.ident) in
      let s1 : Emitter = record s { decl_table = remove bound.ident s.decl_table } in
      let s2 = move_inst bound.ident name (s1.ref_insts bound.ident) s1 in
      pure (record bound { ident = name }) (declare name t s2)

  -- The loop over the symbols of a `LetTuple`: an index out of range is a panic.
  unfoldable pub emit_loads : Text → ℕ → List Symbol → Tys → Insns → M Insns
  emit_loads from i [] ts older s = pure older s
  emit_loads from i (x ∷ xs) Types.nil older s = none
  emit_loads from i (x ∷ xs) (Types.cons t ts) older s =
      emit_loads from (i + 1) xs ts (Mir.cons x.name (Mir.tpl_load from (pos i)) older)
        (declare x.name (some t) s)

  -- The part of `emitMatchInsn` before its blocks: what is declared, and the name of the condition.
  unfoldable pub begin_match : Text → Emitted → M Text
  begin_match name matched = do
    id ← gen_id
    modify (declare id (some Types.bool))
    elem ← (λ s. or_panic (option_elem (s.decl_table matched.ident)) s)
    modify (declare name (some elem))
    pure id

  -- The callee of an application: its name, and the instructions that compute it.
  abbrev pub callee_of : Emitted → M (Text × Insns)
  callee_of r = pure (r.ident, chain r)

  unfoldable pub emit_known_callee : Symbol → Expr → M (Text × Insns)
  unfolding insn
  emit_known_callee x node s =
      if declared x.name s
      then pure (x.name, Mir.nil) s
      else if externals x.name
      then (insn (Mir.xref x.name) Mir.nil node >>= callee_of) s
      else none

  abbrev pub callee_via : Option Symbol → Expr → M Emitted → M (Text × Insns)
  callee_via (some x) node emitted = emit_known_callee x node
  callee_via none node emitted = emitted >>= callee_of

  -- The instantiation of a callee that is a declared variable.
  abbrev pub callee_inst : Option Symbol → Expr → M (Option Instantiation)
  callee_inst (some x) node s = pure (if declared x.name s then insts node else none) s
  callee_inst none node s = pure none s

  unfoldable pub first_symbol : List Symbol → Option Symbol
  first_symbol [] = none
  first_symbol (x ∷ xs) = some x

  -- `emitBlock`, given what emits its instructions: they are put into their order.
  unfoldable pub block_of : M Emitted → M Insns
  unfolding reverse_onto
  block_of emitted = emitted >>= λ last. pure (reverse_onto (chain last) Mir.nil)

  -- The nodes with a function of their own, given what emits their children.
  abbrev pub emit_binary_insn : BinaryOp → M Emitted → M Emitted → Expr → M Emitted
  emit_binary_insn op lhs rhs node = do
    l ← lhs
    r ← rhs
    insn (Mir.binary (binary_kind op) l.ident r.ident) (chain (behind r (chain l))) node

  abbrev pub emit_let_insn : Symbol → M Emitted → M Emitted → M Emitted
  emit_let_insn x bound body = do
    b ← bound
    named ← rename_bound x.name b
    r ← body
    pure (behind r (chain named))

  abbrev pub emit_fun_insn : Symbol → Params → M Emitted → M Emitted → M Emitted
  emit_fun_insn f ps body rest = do
    ty ← (λ s. or_panic (s.decl_table f.name) s)
    blk ← block_of body
    modify (declare f.name ty)
    r ← rest
    pure (behind r (Mir.cons f.name (Mir.fun_val (param_names ps) blk false) Mir.nil))

  abbrev pub emit_match_insn : Symbol → M Emitted → M Emitted → M Emitted → Expr → M Emitted
  emit_match_insn x target if_some if_none node = do
    matched ← target
    cond ← begin_match x.name matched
    some_blk ← block_of if_some
    none_blk ← block_of if_none
    insn (Mir.if_val cond (Mir.cons x.name (Mir.deref_some matched.ident) some_blk) none_blk)
        (Mir.cons cond (Mir.is_some matched.ident) (chain matched)) node

  abbrev pub emit_let_tuple_insn : List Symbol → Expr → M Emitted → M Emitted → M Emitted
  emit_let_tuple_insn xs bound emitted body = do
    or_panic (first_symbol xs)
    b ← emitted
    t ← type_of bound
    elems ← or_panic (tuple_elems t)
    loads ← emit_loads b.ident 0 xs elems (chain b)
    r ← body
    pure (behind r loads)

  abbrev pub emit_app_insn : Expr → M Emitted → (Insns → M (List Text × Insns)) → Expr → M Emitted
  emit_app_insn callee emitted args node = do
    inst ← callee_inst (as_ref callee) callee
    fn ← callee_via (as_ref callee) callee emitted
    ps ← args fn.1
    r ← insn (Mir.app fn.0 ps.0 direct_call) ps.1 node
    modify (inst_ref r.ident inst)
    pure r

  unfoldable mutual
    unfolding insn emit_ref rename_bound emit_loads begin_match emit_known_callee append block_of
        first_symbol

    pub emit_insn : Expr → M Emitted
    emit_insn (unit_lit l r) = insn Mir.unit_val Mir.nil (unit_lit l r)
    emit_insn (bool_lit tok b) = insn (Mir.bool_val b) Mir.nil (bool_lit tok b)
    emit_insn (int_lit tok i) = insn (Mir.int_val i) Mir.nil (int_lit tok i)
    emit_insn (float_lit tok x) = insn (Mir.float_val x) Mir.nil (float_lit tok x)
    emit_insn (string_lit tok t) = insn (Mir.string_val t) Mir.nil (string_lit tok t)
    emit_insn (unary op tok e) = do
      i ← emit_insn e
      insn (Mir.unary (unary_kind op) i.ident) (chain i) (unary op tok e)
    emit_insn (binary op lhs rhs) =
        emit_binary_insn op (emit_insn lhs) (emit_insn rhs) (binary op lhs rhs)
    emit_insn (if_expr tok c a b) = do
      prev ← emit_insn c
      then_blk ← block_of (emit_insn a)
      else_blk ← block_of (emit_insn b)
      insn (Mir.if_val prev.ident then_blk else_blk) (chain prev) (if_expr tok c a b)
    emit_insn (let_expr tok x ty bound body) = emit_let_insn x (emit_insn bound) (emit_insn body)
    emit_insn (var_ref tok x) = emit_ref x (var_ref tok x)
    emit_insn (let_rec tok f ps ret body rest) =
        emit_fun_insn f ps (emit_insn body) (emit_insn rest)
    emit_insn (apply callee args) =
        emit_app_insn callee (emit_insn callee) (emit_all args) (apply callee args)
    emit_insn (tuple es) = do xs ← emit_all es Mir.nil; insn (Mir.tuple xs.0) xs.1 (tuple es)
    emit_insn (let_tuple tok xs ty bound body) =
        emit_let_tuple_insn xs bound (emit_insn bound) (emit_insn body)
    emit_insn (array_make tok n e) = do
      size ← emit_insn n
      elem ← emit_insn e
      insn (Mir.array size.ident elem.ident) (chain (behind elem (chain size))) (array_make tok n e)
    emit_insn (array_size tok a) = do
      i ← emit_insn a
      insn (Mir.arr_len i.ident) (chain i) (array_size tok a)
    emit_insn (array_get a i) = do
      array ← emit_insn a
      index ← emit_insn i
      insn (Mir.arr_load array.ident index.ident) (chain (behind index (chain array)))
          (array_get a i)
    emit_insn (array_put a i e) = do
      array ← emit_insn a
      index ← emit_insn i
      rhs ← emit_insn e
      insn (Mir.arr_store array.ident index.ident rhs.ident)
          (chain (behind rhs (chain (behind index (chain array))))) (array_put a i e)
    emit_insn (match_expr tok e x a b last) =
        emit_match_insn x (emit_insn e) (emit_insn a) (emit_insn b) (match_expr tok e x a b last)
    emit_insn (some_expr tok e) = do
      child ← emit_insn e
      insn (Mir.some_val child.ident) (chain child) (some_expr tok e)
    emit_insn (none_expr tok) = insn Mir.none_val Mir.nil (none_expr tok)
    emit_insn (array_lit l r es) = do
      xs ← emit_all es Mir.nil
      insn (Mir.arr_lit xs.0) xs.1 (array_lit l r es)
    emit_insn (typed e ty) = emit_insn e
    emit_insn (func_type ps r) = panic
    emit_insn (tuple_type ts) = panic
    emit_insn (ctor_type l r ps c) = panic
    emit_insn (type_decl tok x ty) = panic
    emit_insn (external_decl l r x ty c) = panic

    -- The loops over the arguments and the elements: their names, and all instructions so far.
    pub emit_all : Exprs → Insns → M (List Text × Insns)
    emit_all nil prev = pure ([], prev)
    emit_all (cons e es) prev = do
      r ← emit_insn e
      xs ← emit_all es (chain (behind r prev))
      pure (r.ident ∷ xs.0, xs.1)

  abbrev pub initial : (Text → Option (Option Ty)) → (Text → Option Instantiation) → Emitter
  initial decls refs = record { count = 0; decl_table = decls; ref_insts = refs }

  unfoldable pub emit_block : Expr → M Insns
  unfolding emit_insn block_of
  emit_block e = block_of (emit_insn e)

  -- `ToMIR`
  unfoldable pub to_mir :
      Expr → (Text → Option (Option Ty)) → (Text → Option Instantiation) → Option (Insns × Emitter)
  unfolding emit_block
  to_mir root decls refs = emit_block root (initial decls refs)

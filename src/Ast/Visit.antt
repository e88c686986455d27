-- ===== src/Ast/Visit.antt =====
-- ast/visitor.go: the traversal of a tree.
-- A visitor is a value of `V`; what its methods read and write is a state of `W`. A nil visitor is
-- `none`.
use gocaml.Base.{Option, none, some}
use gocaml.Ast.{
  Expr, Exprs, MaybeExpr, Params, unit_lit, bool_lit, int_lit, float_lit, string_lit, unary, binary,
  if_expr, let_expr, var_ref, let_rec, apply, tuple, let_tuple, array_make, array_size, array_get,
  array_put, match_expr, some_expr, none_expr, array_lit, func_type, tuple_type, ctor_type, typed,
  type_decl, external_decl, nil, cons, absent, present, no_params, param,
}

pub record Visitor (V W : Type 0) : Type 0 where
  pub visit_topdown : V → Expr → W → Option V × W
  pub visit_bottomup : V → Expr → W → W

module _ {V W : Type 0} (vis : Visitor V W) where
  open vis use {visit_topdown, visit_bottomup}

  -- What `Visit` does behind `VisitTopdown`.
  abbrev pub behind : V → Expr → (V → W → W) → Option V × W → W
  behind v e inside (none, w) = w
  behind v e inside (some v', w) = visit_bottomup v e (inside v' w)

  -- A visit of a node, given the visits of its children.
  abbrev pub around : V → Expr → (V → W → W) → W → W
  around v e inside w = behind v e inside (visit_topdown v e w)

  unfoldable mutual
    pub visit : Expr → V → W → W
    visit (unit_lit l r) v = around v (unit_lit l r) (λ v' w. w)
    visit (bool_lit t b) v = around v (bool_lit t b) (λ v' w. w)
    visit (int_lit t i) v = around v (int_lit t i) (λ v' w. w)
    visit (float_lit t x) v = around v (float_lit t x) (λ v' w. w)
    visit (string_lit t s) v = around v (string_lit t s) (λ v' w. w)
    visit (unary op t e) v = around v (unary op t e) (λ v' w. visit e v' w)
    visit (binary op l r) v = around v (binary op l r) (λ v' w. visit r v' (visit l v' w))
    visit (if_expr t c a b) v =
        around v (if_expr t c a b) (λ v' w. visit b v' (visit a v' (visit c v' w)))
    visit (let_expr t x ty bound body) v =
        around v (let_expr t x ty bound body)
          (λ v' w. visit body v' (visit bound v' (visit_maybe ty v' w)))
    visit (var_ref t x) v = around v (var_ref t x) (λ v' w. w)
    visit (let_rec t f ps ret body rest) v =
        around v (let_rec t f ps ret body rest)
          (λ v' w. visit rest v' (visit body v' (visit_maybe ret v' (visit_params ps v' w))))
    visit (apply f xs) v = around v (apply f xs) (λ v' w. visit_all xs v' (visit f v' w))
    visit (tuple xs) v = around v (tuple xs) (λ v' w. visit_all xs v' w)
    visit (let_tuple t xs ty bound body) v =
        around v (let_tuple t xs ty bound body)
          (λ v' w. visit body v' (visit bound v' (visit_maybe ty v' w)))
    visit (array_make t n x) v = around v (array_make t n x) (λ v' w. visit x v' (visit n v' w))
    visit (array_size t x) v = around v (array_size t x) (λ v' w. visit x v' w)
    visit (array_get a i) v = around v (array_get a i) (λ v' w. visit i v' (visit a v' w))
    visit (array_put a i x) v =
        around v (array_put a i x) (λ v' w. visit x v' (visit i v' (visit a v' w)))
    visit (match_expr t e x a b last) v =
        around v (match_expr t e x a b last) (λ v' w. visit b v' (visit a v' (visit e v' w)))
    visit (some_expr t e) v = around v (some_expr t e) (λ v' w. visit e v' w)
    visit (none_expr t) v = around v (none_expr t) (λ v' w. w)
    visit (array_lit l r xs) v = around v (array_lit l r xs) (λ v' w. visit_all xs v' w)
    visit (func_type ps ret) v =
        around v (func_type ps ret) (λ v' w. visit ret v' (visit_all ps v' w))
    visit (tuple_type xs) v = around v (tuple_type xs) (λ v' w. visit_all xs v' w)
    visit (ctor_type first last ps c) v =
        around v (ctor_type first last ps c) (λ v' w. visit_all ps v' w)
    visit (typed e ty) v = around v (typed e ty) (λ v' w. visit ty v' (visit e v' w))
    visit (type_decl t x ty) v = around v (type_decl t x ty) (λ v' w. visit ty v' w)
    visit (external_decl first last x ty c) v =
        around v (external_decl first last x ty c) (λ v' w. visit ty v' w)

    pub visit_all : Exprs → V → W → W
    visit_all nil v w = w
    visit_all (cons x xs) v w = visit_all xs v (visit x v w)

    pub visit_maybe : MaybeExpr → V → W → W
    visit_maybe absent v w = w
    visit_maybe (present e) v w = visit e v w

    pub visit_params : Params → V → W → W
    visit_params no_params v w = w
    visit_params (param x ty ps) v w = visit_params ps v (visit_maybe ty v w)

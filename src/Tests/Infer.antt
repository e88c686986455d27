-- ===== src/Tests/Infer.antt =====
-- sema/infer.go on a small program.
use gocaml.Base.{◌≡◌, refl, Option, none, some, [], Text, text_eq, pos, length}
use gocaml.Types.{Ty, int, Store}
use gocaml.Ast.{
  Ast, Expr, unit_lit, int_lit, let_expr, var_ref, let_rec, apply, absent, no_params, param,
}
use gocaml.Ast as Ast
use gocaml.Sema.Unify.{
  follow_both, assign_var, occur, occur_var, unify_fun, unify_elems, follow_left,
}
use gocaml.Sema.Deref.{unwrap, Unwrapped, known}
use gocaml.Sema.Infer.{Inferer, Inference, infers, infer_ast}
use gocaml.Sema.Infer.Items.{Covers}
use gocaml.Tests.ToMir.{at, f, p, y}

-- let rec f p = p in let y = f 1 in ()
abbrev root : Expr
root = let_rec (at 0) f (param p absent no_params) absent (var_ref (at 1) p) (
    let_expr (at 2) y absent (apply (var_ref (at 3) f) (Ast.cons (int_lit (at 4) (pos 1)) Ast.nil))
      (unit_lit (at 5) (at 6)))

abbrev tree : Ast
tree = record { root = root; type_decls = []; externals = [] }

abbrev start : Inferer
start = record {
  store = record {
    cell = λ i. record { ref = none; level = pos 0; id = 0 };
    next = 0;
    current_var_id = 0;
  };
  decl_table = λ x. none;
  inferred = [];
  schemes = [];
  insts = [];
}

abbrev state_of : Inference (Text → Option Ty) → Inferer
state_of (infers table s) = s
state_of r = start

abbrev table_of : Inference (Text → Option Ty) → Text → Option Ty
table_of (infers table s) = table
table_of r = λ x. none

abbrev result : Inference (Text → Option Ty)
result = infer_ast 10 tree (λ x. none) start

abbrev meaning : Option Ty → Store → Unwrapped Ty
meaning none s = Unwrapped.unknown
meaning (some t) s = unwrap 10 s t

infer-y : meaning ((state_of result).decl_table y.name) (state_of result).store ≡ known int
unfolding infer_ast text_eq unwrap follow_both assign_var occur occur_var unify_fun unify_elems
    follow_left
infer-y = refl

infer-root : length (state_of result).inferred ≡ 7
unfolding infer_ast text_eq follow_both assign_var occur occur_var unify_fun unify_elems follow_left
infer-root = refl

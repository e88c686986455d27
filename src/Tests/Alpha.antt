-- ===== src/Tests/Alpha.antt =====
-- sema/alpha_transform.go on small programs.
use gocaml.Base.{
  ℕ, zero, suc, ◌<◌, ◌^◌, ◌≡◌, inl, inr, refl, sym, ap, ◌∙◌, arith, [], ◌∷◌, Text, codes, length,
}
use gocaml.Ast.{Expr, Ast}
use gocaml.Sema.Alpha.{new_transformer, is_ignored, refer, register, undefined_variable}
use gocaml.Sema.Alpha.Transform.{transform}
use gocaml.Sema.Alpha.Numbered.{Distinct}
use gocaml.Sema.Alpha.Stack.{ref_of, bound}
use gocaml.Sema.Alpha.Enter.{display, name}
use gocaml.Sema.Alpha.References.{references, binder_names, Parsed, Plain}
use gocaml.Sema.Alpha.Program.{alpha_transform, declare_types, declare}
use gocaml.Sema.Alpha.Program.Accepts.{accepted, program_scoped, alpha_transform-accepts}
use gocaml.Sema.Alpha.Program.Renames.{
  tree_names, alpha_transform-references, alpha_transform-Distinct,
}
use gocaml.Tests.Ast.{x, two_lets, inner_let}

-- Numbers by strokes.
unfoldable pub tally : ℕ → Text
tally zero = []
tally (suc n) = b'1' ∷ tally n

length-tally : (n : ℕ) → length (tally n) ≡ n
unfolding tally
length-tally zero = refl
length-tally (suc n) = omega (arith, length-tally n)

pub tally_inj : (i j : ℕ) → tally i ≡ tally j → i ≡ j
tally_inj i j e = sym (length-tally i) ∙ ap length e ∙ length-tally j

abbrev program : Expr → Ast
program e = record { root = e; type_decls = []; externals = [] }

abbrev root_of : Expr → Expr
root_of e = (transform tally e new_transformer).0

x-Plain : Plain x
x-Plain = (refl, (omega arith, tt))

two_lets-few : length (tree_names (program two_lets)) < 2 ^ 64
unfolding binder_names
two_lets-few = omega arith

two_lets-accepted : alpha_transform tally [] (program two_lets) ≡ inr (program (root_of two_lets))
unfolding alpha_transform transform declare_types declare refer register
two_lets-accepted = refl

two_lets-names : binder_names (root_of two_lets) ≡ codes "x$t1" ∷ codes "x$t11" ∷ []
unfolding transform binder_names tally refer register
two_lets-names = refl

two_lets-references : references display two_lets [] ≡ bound 0 ∷ bound 0 ∷ []
unfolding references ref_of is_ignored
two_lets-references = refl

two_lets-Parsed : Parsed two_lets
unfolding Parsed
two_lets-Parsed = (inr x-Plain, tt, tt, (inr x-Plain, tt, x-Plain, x-Plain))

alpha_transform-references_example :
    references display two_lets [] ≡ references name (root_of two_lets) []
alpha_transform-references_example =
    alpha_transform-references tally tally_inj [] (program two_lets) (program (root_of two_lets))
      (tt, two_lets-Parsed) two_lets-few two_lets-accepted

alpha_transform-Distinct_example : Distinct tally tally_inj (binder_names (root_of two_lets))
alpha_transform-Distinct_example =
    alpha_transform-Distinct tally tally_inj [] (program two_lets) (program (root_of two_lets))
      (tt, two_lets-Parsed) two_lets-few two_lets-accepted

alpha_transform-accepts_example :
    accepted (alpha_transform tally [] (program two_lets)) ≡ program_scoped [] (program two_lets)
alpha_transform-accepts_example = alpha_transform-accepts tally [] (program two_lets)

-- The inner tree alone refers to a variable that is not bound.
inner_let-undefined :
    alpha_transform tally [] (program inner_let) ≡ inl (undefined_variable (codes "x"))
unfolding alpha_transform transform declare_types declare refer register
inner_let-undefined = refl

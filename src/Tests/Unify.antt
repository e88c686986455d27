-- ===== src/Tests/Unify.antt =====
-- sema/unify.go on a store with two free type variables.
use gocaml.Base.{ℕ, ◌≡◌, ◌≢◌, ◌↔◌, ◌≤◌, refl, none, pos, arith, ◌==◌, if◌then◌else◌}
use gocaml.Types.{Ty, int, bool, fun, array, var, nil, cons, Store, set_ref}
use gocaml.Types.Meaning.{Assignment, Solves, value}
use gocaml.Types.Free.{free_count}
use gocaml.Types.Bounded.{Acyclic, Finite}
use gocaml.Sema.Unify.{
  Outcome, ok, err, no_fuel, cyclic, unify, follow_both, follow_left, follow_right, unify_fun,
  unify_elems, assign_var, occur, occur_var,
}
use gocaml.Sema.Unify.Solutions.{unify_mgu, unify-err}
use gocaml.Sema.Unify.Terminates.{unify_total, unify-Acyclic, unify_solvable}

abbrev two_free : Store
two_free = record {
  cell = λ p. record { ref = none; level = pos 0; id = p };
  next = 2;
  current_var_id = 2;
}

two_free-Acyclic : Acyclic two_free
two_free-Acyclic = record { ends = λ p lt. (1, (lt, tt)); beyond = λ p le. refl }

-- int -> '0 against '1 -> bool array
abbrev left_type : Ty
left_type = fun (var 0) (cons int nil)

abbrev right_type : Ty
right_type = fun (array bool) (cons (var 1) nil)

abbrev unified : Store
unified = set_ref 1 int (set_ref 0 (array bool) two_free)

unify-left_type : unify 4 left_type right_type two_free ≡ ok unified
unfolding unify follow_both follow_left follow_right unify_fun unify_elems assign_var occur
    occur_var
unify-left_type = refl

abbrev both : Assignment
both p = if p == 0 then array bool else int

unify_mgu_example :
    Solves both unified ↔ (Solves both two_free × (value both left_type ≡ value both right_type))
unify_mgu_example = unify_mgu 4 left_type right_type two_free unified unify-left_type both

unify-cycle : unify 3 (var 0) (array (var 0)) two_free ≡ err (cyclic 0 (array (var 0)))
unfolding unify follow_both follow_left follow_right unify_fun unify_elems assign_var occur
    occur_var
unify-cycle = refl

unify-err_example : value both (var 0) ≢ value both (array (var 0))
unify-err_example =
    unify-err 3 (var 0) (array (var 0)) two_free (cyclic 0 (array (var 0))) unify-cycle both
      (λ p t e. cc)

left_type-Finite : Finite two_free left_type
left_type-Finite = (2, ((omega arith, tt), (tt, tt)))

right_type-Finite : Finite two_free right_type
right_type-Finite = (3, (tt, ((omega arith, tt), tt)))

unify_total_example :
    (answer : Outcome Store) × (answer ≢ no_fuel)
    × ((fuel : ℕ) × ((f : ℕ) → fuel ≤ f → unify f left_type right_type two_free ≡ answer))
unify_total_example =
    unify_total left_type right_type two_free two_free-Acyclic left_type-Finite right_type-Finite

unify-Acyclic_example :
    Acyclic unified × (unified.next ≡ two_free.next) × (free_count unified ≤ free_count two_free)
unify-Acyclic_example =
    unify-Acyclic 4 left_type right_type two_free unified unify-left_type two_free-Acyclic
      left_type-Finite right_type-Finite

unify_solvable_example :
    (θ : Assignment) × Solves θ unified
    × Solves θ two_free
    × (value θ left_type ≡ value θ right_type)
unify_solvable_example =
    unify_solvable 4 left_type right_type two_free unified unify-left_type two_free-Acyclic
      left_type-Finite right_type-Finite

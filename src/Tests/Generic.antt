-- ===== src/Tests/Generic.antt =====
-- sema/generic.go on a store where one variable of three is linked.
use gocaml.Base.{
  ℕ, ◌+◌, ◌≤◌, ◌≡◌, refl, Option, none, some, [], ◌∷◌, arith, ◌==◌, if◌then◌else◌, ℤ, pos,
}
use gocaml.Types.{Ty, fun, array, var, nil, cons, Store, generic_level}
use gocaml.Types.Meaning.{Assignment, Solves, value}
use gocaml.Types.Bounded.{Finite}
use gocaml.Sema.Generic.{BoundVarIds, Mapping, generalize, instantiation, instantiate, inst}
use gocaml.Sema.Generic.Copies.{Vars}
use gocaml.Sema.Generic.Generalize.{Decided, Raises, generalize-Copy}
use gocaml.Sema.Generic.Instantiate.Instances.{IsInstance, instantiate-IsInstance}

-- Variable 2 is an array of variable 1.
abbrev three : ℤ → Store
three level = record {
  cell = λ p.
      if p == 2
      then record { ref = some (array (var 1)); level = level; id = 3 }
      else record { ref = none; level = level; id = p + 1 };
  next = 3;
  current_var_id = 3;
}

-- '0 -> '1 array
abbrev arrow : Ty
arrow = fun (var 2) (cons (var 0) nil)

arrow-Finite : (level : ℤ) → Finite (three level) arrow
arrow-Finite level = (4, ((omega arith, (omega arith, tt)), ((omega arith, tt), tt)))

-- Generalizing follows the link, and binds both free variables, parameters first.
abbrev bound_ids : Option (Ty × (BoundVarIds × Store)) → Option (Ty × BoundVarIds)
bound_ids none = none
bound_ids (some (t, (ids, s))) = some (t, ids)

generalize-arrow :
    bound_ids (generalize 4 arrow (pos 1) (three (pos 2)))
    ≡ some (fun (array (var 1)) (cons (var 0) nil), 1 ∷ 2 ∷ [])
unfolding generalize
generalize-arrow = refl

-- Two bound variables that share the ID 0 get one copy between them.
abbrev shared_id : Store
shared_id = record {
  cell = λ p. record { ref = none; level = generic_level; id = 0 };
  next = 2;
  current_var_id = 2;
}

abbrev copies : Option (Ty × (Mapping × Store)) → Option (Ty × Mapping)
copies none = none
copies (some (t, (m, s))) = some (t, m)

inst-shared :
    copies (inst (pos 1) 4 (fun (var 0) (cons (var 1) nil)) ([], shared_id))
    ≡ some (fun (var 2) (cons (var 2) nil), (0, 2) ∷ [])
unfolding inst
inst-shared = refl

generalize-Copy_example :
    (fuel : ℕ) × ((f : ℕ)
      → fuel ≤ f
      → (t' : Ty) × (ids : BoundVarIds) × (s' : Store) × (generalize f arrow (pos 1) (three (pos 2))
          ≡ some (t', (ids, s')))
        × ((θ : Assignment) → Solves θ (three (pos 2)) → value θ t' ≡ value θ arrow)
        × Vars (Decided (pos 1) (ids, s')) t'
        × Raises (pos 1) ([], three (pos 2)) (ids, s'))
generalize-Copy_example = generalize-Copy arrow (pos 1) (three (pos 2)) (arrow-Finite (pos 2))

instantiate-IsInstance_example :
    (fuel : ℕ) × ((f : ℕ)
      → fuel ≤ f
      → (to : Ty) × (m : Mapping) × (s' : Store) × (instantiate f arrow
            (pos 1)
            (three generic_level)
          ≡ some (instantiation arrow to m, s'))
        × IsInstance (pos 1) (three generic_level) arrow to m s')
instantiate-IsInstance_example =
    instantiate-IsInstance arrow (pos 1) (three generic_level) (arrow-Finite generic_level) refl

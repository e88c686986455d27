-- ===== src/Tests/Equals.antt =====
-- types/equals.go on a store where one variable of two is linked.
use gocaml.Base.{ℕ, ◌+◌, ◌≤◌, ◌≡◌, refl, none, some, true, false, arith, ◌==◌, if◌then◌else◌, pos}
use gocaml.Types.{Ty, fun, int, var, nil, cons, Store}
use gocaml.Types.Bounded.{Finite}
use gocaml.Types.Equals.{equals}
use gocaml.Types.Equals.Shape.{shape, Tells}
use gocaml.Types.Equals.Relation.{equals-Shape, equals-Equivalence}

-- Variable 0 is an integer.
abbrev one_link : Store
one_link = record {
  cell = λ p. record { ref = if p == 0 then some int else none; level = pos 1; id = p + 1 };
  next = 3;
  current_var_id = 3;
}

-- The first two differ in a free variable, the first and the third in a link.
abbrev linked_fun : Ty
linked_fun = fun (var 0) (cons (var 1) nil)

abbrev other_fun : Ty
other_fun = fun (var 0) (cons (var 2) nil)

abbrev plain_fun : Ty
plain_fun = fun int (cons (var 1) nil)

linked_fun-Finite : Finite one_link linked_fun
linked_fun-Finite = (3, ((omega arith, tt), ((omega arith, tt), tt)))

other_fun-Finite : Finite one_link other_fun
other_fun-Finite = (3, ((omega arith, tt), ((omega arith, tt), tt)))

plain_fun-Finite : Finite one_link plain_fun
plain_fun-Finite = (3, (tt, ((omega arith, tt), tt)))

equals-free : equals 3 one_link linked_fun other_fun ≡ some true
unfolding equals
equals-free = refl

-- A link is not the type that it leads to.
equals-link : equals 3 one_link linked_fun plain_fun ≡ some false
unfolding equals
equals-link = refl

equals-Shape_example :
    (fuel : ℕ) × ((f : ℕ)
      → fuel ≤ f
      → Tells
          (shape f one_link linked_fun)
          (shape f one_link other_fun)
          (equals f one_link linked_fun other_fun))
equals-Shape_example = equals-Shape linked_fun other_fun one_link linked_fun-Finite other_fun-Finite

equals-Equivalence_example :
    (fuel : ℕ) × ((f : ℕ)
      → fuel ≤ f
      → (equals f one_link linked_fun linked_fun ≡ some true)
        × (equals f one_link linked_fun other_fun ≡ some true
            → equals f one_link other_fun linked_fun ≡ some true)
        × (equals f one_link linked_fun other_fun ≡ some true
            → equals f one_link other_fun linked_fun ≡ some true
            → equals f one_link linked_fun linked_fun ≡ some true))
equals-Equivalence_example =
    equals-Equivalence linked_fun other_fun linked_fun one_link linked_fun-Finite other_fun-Finite
      linked_fun-Finite

-- ===== src/Tests/Deref.antt =====
-- sema/deref.go on a store of a linked variable and a generic one.
use gocaml.Base.{◌≡◌, refl, none, some, arith, ◌==◌, if◌then◌else◌, pos}
use gocaml.Types.{Ty, fun, int, var, nil, cons, Store, generic_level}
use gocaml.Types.Bounded.{Within}
use gocaml.Sema.Deref.{unwrap, known, unknown}
use gocaml.Sema.Deref.Known.{Answers, IsDecided, unwrap-Answers}

-- Variable 0 is an integer, 1 is generic and 2 is not.
abbrev linked : Store
linked = record {
  cell = λ p.
      if p == 0
      then record { ref = some int; level = pos 1; id = 1 }
      else if p == 1
      then record { ref = none; level = generic_level; id = 2 }
      else record { ref = none; level = pos 1; id = 3 };
  next = 3;
  current_var_id = 3;
}

abbrev decided : Ty
decided = fun (var 0) (cons (var 1) nil)

unwrap-decided : unwrap 3 linked decided ≡ known (fun int (cons (var 1) nil))
unfolding unwrap
unwrap-decided = refl

unwrap-undecided : unwrap 3 linked (fun (var 2) nil) ≡ unknown
unfolding unwrap
unwrap-undecided = refl

unwrap-Answers_example :
    Answers linked (unwrap 3 linked decided) decided (Within (IsDecided linked) 3 linked decided)
unwrap-Answers_example =
    unwrap-Answers linked 3 decided ((omega arith, tt), ((omega arith, tt), tt))

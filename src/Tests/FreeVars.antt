-- ===== src/Tests/FreeVars.antt =====
-- closure/freevars.go on a block with a closure and branches.
use gocaml.Base.{
  ◌≡◌, refl, true, false, none, some, List, [], ◌∷◌, Text, text_eq, codes, if◌then◌else◌,
}
use gocaml.Mir.Val.{Insns, ref, if_val, fun_val, app, direct_call, nil, cons}
use gocaml.Sema.Alpha.{text_in}
use gocaml.Closure.FreeVars.{Transform, gather_free_vars}
use gocaml.Closure.FreeVars.Free.{free, visited, nested}
use gocaml.Closure.FreeVars.Gathers.{gather_free_vars-free}

-- `f` is a closure over `k`, and `g` is known.
abbrev state : Transform
state = record {
  known_funs = codes "g" ∷ [];
  replaced_funs = λ n.
      if text_eq n (codes "f")
      then some (some (record { vars = codes "k" ∷ []; fn = codes "f" }))
      else none;
  closure_block_free_vars = λ n. some (codes "f" ∷ codes "m" ∷ []);
}

abbrev body : Insns
body = cons (codes "a") (ref (codes "x")) (
    cons (codes "f") (fun_val (codes "p" ∷ []) nil true) (
      cons (codes "b") (if_val (codes "a") (cons (codes "c") (ref (codes "y")) nil) nil)
        (cons (codes "d") (app (codes "g") (codes "b" ∷ codes "m" ∷ []) direct_call) nil)))

gather-body :
    gather_free_vars state body
    ≡ some (codes "x" ∷ codes "k" ∷ codes "m" ∷ codes "y" ∷ codes "m" ∷ [])
unfolding gather_free_vars text_eq
gather-body = refl

visited-body : visited state body ≡ true
unfolding visited text_eq
visited-body = refl

nested-body : nested (codes "y") body ≡ false
unfolding nested text_eq
nested-body = refl

gather_free_vars-free_example :
    (found : List Text) × (gather_free_vars state body ≡ some found)
    × (text_in (codes "y") found ≡ free state (codes "y") body)
gather_free_vars-free_example =
    gather_free_vars-free state (codes "y") body visited-body nested-body

-- ===== src/Closure/FreeVars/Total.antt =====
-- closure/freevars.go: gathering does not fail on a block whose functions have been visited.
use gocaml.Base.{both_true, ◌≡◌, refl, true, Option, none, some, List, [], ◌∷◌, Text}
use gocaml.Mir.Val.{Val, Insns, if_val, fun_val, make_cls, nil, cons}
use gocaml.Closure.FreeVars.{
  Transform, MakeCls, add_all, delete, uses, explore_closure, explore_fun, explore_val,
  explore_block, gather_free_vars, gather_free_vars_till_the_end,
}
use gocaml.Closure.FreeVars.Free.{known_closure, known_fun, visited_val, visited}

module _ (t : Transform) where
  abbrev Gives : Option (List Text) → Type 0
  Gives r = (found : List Text) × (r ≡ some found)

  explore_closure-Gives :
      (y : Text) (make : MakeCls) (o : Option (List Text)) (found : List Text)
      → known_closure y make o ≡ true
      → Gives (explore_closure make o found)
  explore_closure-Gives y make none found k = absurd (cc)
  explore_closure-Gives y make (some fv) found k = (_, refl)

  explore_fun-Gives :
      (y : Text) (o : Option (Option MakeCls)) (found : List Text)
      → known_fun t y o ≡ true
      → Gives (explore_fun t o found)
  unfolding explore_fun
  explore_fun-Gives y none found k = absurd (cc)
  explore_fun-Gives y (some none) found k = (found, refl)
  explore_fun-Gives y (some (some make)) found k =
      explore_closure-Gives y make (t.closure_block_free_vars make.fn) found k

  mutual
    unfolding explore_block visited

    explore_val-Gives :
        (y : Text) (v : Val) (found : List Text)
        → visited_val t y v ≡ true
        → Gives (explore_val t y v found)
    explore_val-Gives y (if_val c a b) found k =
        let (ka, kb) = both_true (visited t a) (visited t b) k in
        let (f, ea) = explore_block-Gives a (c ∷ found) ka in
        let (g, eb) = explore_block-Gives b f kb in (g, rw (ea, eb) refl)
    explore_val-Gives y (fun_val ps body rec) found k =
        explore_fun-Gives y (t.replaced_funs y) found k
    explore_val-Gives y (make_cls vars f) found k = absurd (cc)
    explore_val-Gives y v found k = (add_all (uses t v) found, refl)

    explore_block-Gives :
        (block : Insns) (found : List Text)
        → visited t block ≡ true
        → Gives (explore_block t block found)
    explore_block-Gives nil found k = (found, refl)
    explore_block-Gives (cons y v rest) found k =
        let (kv, kr) = both_true (visited_val t y v) (visited t rest) k in
        let (f, er) = explore_block-Gives rest found kr in
        let (g, ev) = explore_val-Gives y v f kv in (delete y g, rw (er, ev) refl)

  pub gather_free_vars-total :
      (block : Insns) → visited t block ≡ true → Gives (gather_free_vars t block)
  unfolding gather_free_vars
  gather_free_vars-total block k = explore_block-Gives block [] k

  pub gather_free_vars_till_the_end-total :
      (x : Text) (v : Val) (rest : Insns)
      → visited t (cons x v rest) ≡ true
      → Gives (gather_free_vars_till_the_end t (cons x v rest))
  unfolding gather_free_vars_till_the_end
  gather_free_vars_till_the_end-total x v rest k = explore_block-Gives (cons x v rest) [] k

-- ===== src/Tests/FixApps.antt =====
-- closure/fix_apps.go on a program of a function that calls itself and a closure.
use gocaml.Base.{◌≡◌, refl, true, false, ◌&&◌, none, some, [], ◌∷◌, text_eq, codes}
use gocaml.Mir.Val.{Insns, direct_call, closure_call, external_call, app, nil, cons}
use gocaml.Closure.FixApps.{Program, names, fix_apps_in_prog}
use gocaml.Closure.FixApps.Calls.{right, fresh, erase}
use gocaml.Closure.FixApps.Whole.{
  fixer, fresh_funs, right_funs, marked_funs, erase_funs, fix_apps_in_prog-right,
}

abbrev loop_body : Insns
loop_body = cons (codes "a") (app (codes "loop") [] direct_call) nil

abbrev entry_block : Insns
entry_block = cons (codes "b") (app (codes "loop") [] direct_call) (
    cons (codes "c") (app (codes "g") (codes "b" ∷ []) direct_call)
      (cons (codes "d") (app (codes "print_int") (codes "c" ∷ []) external_call) nil))

abbrev small : Program
small = record {
  toplevel =
      record { name = codes "loop"; params = []; body = loop_body; is_recursive = false } ∷ [];
  closures = codes "g" ∷ [];
  entry = entry_block;
}

small-fresh : (fresh_funs small.toplevel && fresh small.entry) ≡ true
unfolding fresh_funs fresh
small-fresh = refl

fix-small :
    fix_apps_in_prog small
    ≡ some (record {
      toplevel =
          record { name = codes "loop"; params = []; body = loop_body; is_recursive = true } ∷ [];
      closures = codes "g" ∷ [];
      entry = cons (codes "b") (app (codes "loop") [] direct_call) (
          cons
            (codes "c")
            (app (codes "g") (codes "b" ∷ []) closure_call)
            (cons (codes "d") (app (codes "print_int") (codes "c" ∷ []) external_call) nil));
    })
unfolding fix_apps_in_prog text_eq
fix-small = refl

fix_apps_in_prog-right_example :
    (prog' : Program) × (fix_apps_in_prog small ≡ some prog')
    × (right_funs small.closures (names small.toplevel) prog'.toplevel ≡ true)
    × ((right (fixer small.closures (names small.toplevel) none) prog'.entry ≡ true)
        × (erase_funs prog'.toplevel ≡ marked_funs small.toplevel)
        × (erase prog'.entry ≡ erase small.entry)
        × (prog'.closures ≡ small.closures))
fix_apps_in_prog-right_example = fix_apps_in_prog-right small small-fresh

-- ===== src/Closure/FixApps/Whole.antt =====
-- closure/fix_apps.go: all calls of a program.
use gocaml.Base.{
  both_true, ◌≡◌, refl, Bool, true, false, ◌||◌, ◌&&◌, Option, none, some, List, [], ◌∷◌, Text,
}
use gocaml.Closure.FixApps.{AppFixer, Fun, Program, names, fix_apps_in_funs, fix_apps_in_prog}
use gocaml.Closure.FixApps.Calls.{right, fresh, calls, erase, fix_apps_in_block-right}

abbrev pub fixer : List Text → List Text → Option Text → AppFixer
fixer closures funcs o = record { closures = closures; funcs = funcs; fixing = o }

unfoldable pub fresh_funs : List Fun → Bool
unfolding fresh
fresh_funs [] = true
fresh_funs (f ∷ fs) = fresh f.body && fresh_funs fs

-- The calls in each function have the right kind.
unfoldable pub right_funs : List Text → List Text → List Fun → Bool
unfolding right
right_funs closures funcs [] = true
right_funs closures funcs (f ∷ fs) =
    right (fixer closures funcs (some f.name)) f.body && right_funs closures funcs fs

-- The functions but for which calls are calls of closures, each recursive if it was or calls itself.
abbrev pub marked : Fun → Fun
marked f = record f {
  body = erase f.body;
  is_recursive = f.is_recursive || calls (some f.name) f.body;
}

abbrev pub marked_funs : List Fun → List Fun
marked_funs [] = []
marked_funs (f ∷ fs) = marked f ∷ marked_funs fs

-- The functions but for which calls are calls of closures.
abbrev pub erase_funs : List Fun → List Fun
erase_funs [] = []
erase_funs (f ∷ fs) = record f { body = erase f.body } ∷ erase_funs fs

fix_apps_in_funs-right :
    (closures funcs : List Text) (fs : List Fun)
    → fresh_funs fs ≡ true
    → (fs' : List Fun) × (fix_apps_in_funs closures funcs fs ≡ some fs')
      × (right_funs closures funcs fs' ≡ true)
      × (erase_funs fs' ≡ marked_funs fs)
unfolding fix_apps_in_funs fresh_funs right_funs
fix_apps_in_funs-right closures funcs [] e = ([], refl, refl, refl)
fix_apps_in_funs-right closures funcs (f ∷ fs) e =
    let (ef, es) = both_true (fresh f.body) (fresh_funs fs) e in
    let (body', ff, rf, sf) =
      fix_apps_in_block-right (fixer closures funcs (some f.name)) f.body f.is_recursive ef in
    let (fs', fg, rs, ss) = fix_apps_in_funs-right closures funcs fs es in
    let f' : Fun = record f {
      body = body';
      is_recursive = f.is_recursive || calls (some f.name) f.body;
    } in
    (f' ∷ fs', rw (ff, fg) refl, rw (rf, rs) refl, rw (sf, ss) refl)

-- In a program whose calls are direct or external and whose blocks have no functions, each call of
-- a function and of the entry gets the kind that its callee asks for, a function is recursive
-- afterwards exactly if it was or calls itself, and nothing else changes: calls of externals stay as
-- they are, and a function or variable is not called as one.
pub fix_apps_in_prog-right :
    (prog : Program)
    → (fresh_funs prog.toplevel && fresh prog.entry) ≡ true
    → (prog' : Program) × (fix_apps_in_prog prog ≡ some prog')
      × (right_funs prog.closures (names prog.toplevel) prog'.toplevel ≡ true)
      × ((right (fixer prog.closures (names prog.toplevel) none) prog'.entry ≡ true)
          × (erase_funs prog'.toplevel ≡ marked_funs prog.toplevel)
          × (erase prog'.entry ≡ erase prog.entry)
          × (prog'.closures ≡ prog.closures))
unfolding fix_apps_in_prog
fix_apps_in_prog-right prog e =
    let (es, ee) = both_true (fresh_funs prog.toplevel) (fresh prog.entry) e in
    let (fs', ff, rf, sf) =
      fix_apps_in_funs-right prog.closures (names prog.toplevel) prog.toplevel es in
    let (entry', fe, re, se) =
      fix_apps_in_block-right (fixer prog.closures (names prog.toplevel) none) prog.entry false
        ee in
    (record prog { toplevel = fs'; entry = entry' }, rw (ff, fe) refl, rf, (re, sf, se, refl))

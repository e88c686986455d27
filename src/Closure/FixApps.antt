-- ===== src/Closure/FixApps.antt =====
-- closure/fix_apps.go: setting the kind of each call.
-- An instruction that the code changes in place is returned, with whether the function that is being
-- fixed has been found to be recursive. `none` is the panic on a nested function.
pub mod Calls
pub mod Whole
use gocaml.Base.{Bool, true, false, Option, none, some, List, [], ◌∷◌, Text, text_eq, if◌then◌else◌}
use gocaml.Mir.Val.{
  AppKind, direct_call, closure_call, external_call, Val, Insns, if_val, fun_val, app, nil, cons,
}
use gocaml.Sema.Alpha.{text_in}

-- `fixing` is the name of the function that is being fixed, if there is one.
pub record AppFixer : Type 0 where
  pub closures : List Text
  pub funcs : List Text
  pub fixing : Option Text

abbrev pub is_fixing : Option Text → Text → Bool
is_fixing none callee = false
is_fixing (some n) callee = text_eq callee n

unfoldable pub fixed_kind : AppFixer → Text → AppKind → AppKind
unfolding text_in
fixed_kind fix callee external_call = external_call
fixed_kind fix callee kind =
    if text_in callee fix.closures
    then closure_call
    else if text_in callee fix.funcs
    then kind
    else closure_call

abbrev pub and_then : {A B : Type 0} → Option A → (A → Option B) → Option B
and_then none k = none
and_then (some a) k = k a

unfoldable mutual
  unfolding fixed_kind

  pub fix_app : AppFixer → Val → Bool → Option (Val × Bool)
  fix_app fix (app callee args kind) r = some (
    app callee args (fixed_kind fix callee kind),
    (if is_fixing fix.fixing callee then true else r),
  )
  fix_app fix (if_val c a b) r =
      and_then (fix_apps_in_block fix a r)
        (λ p. and_then (fix_apps_in_block fix b p.1) (λ q. some (if_val c p.0 q.0, q.1)))
  fix_app fix (fun_val ps body rec) r = none
  fix_app fix v r = some (v, r)

  pub fix_apps_in_block : AppFixer → Insns → Bool → Option (Insns × Bool)
  fix_apps_in_block fix nil r = some (nil, r)
  fix_apps_in_block fix (cons n v rest) r =
      and_then (fix_app fix v r)
        (λ p. and_then (fix_apps_in_block fix rest p.1) (λ q. some (cons n p.0 q.0, q.1)))

-- `mir.Fun` with its name.
pub record Fun : Type 0 where
  pub name : Text
  pub params : List Text
  pub body : Insns
  pub is_recursive : Bool

pub record Program : Type 0 where
  pub toplevel : List Fun
  pub closures : List Text
  pub entry : Insns

abbrev pub names : List Fun → List Text
names [] = []
names (f ∷ fs) = f.name ∷ names fs

abbrev pub fix_apps_in_fun : List Text → List Text → Fun → Option Fun
fix_apps_in_fun closures funcs f =
    and_then
      (fix_apps_in_block (record { closures = closures; funcs = funcs; fixing = some f.name })
        f.body f.is_recursive)
      (λ p. some (record f { body = p.0; is_recursive = p.1 }))

-- The loop over the functions at the top level.
unfoldable pub fix_apps_in_funs : List Text → List Text → List Fun → Option (List Fun)
unfolding fix_app
fix_apps_in_funs closures funcs [] = some []
fix_apps_in_funs closures funcs (f ∷ fs) =
    and_then (fix_apps_in_fun closures funcs f)
      (λ f'. and_then (fix_apps_in_funs closures funcs fs) (λ fs'. some (f' ∷ fs')))

unfoldable pub fix_apps_in_prog : Program → Option Program
unfolding fix_apps_in_funs fix_app
fix_apps_in_prog prog =
    let funcs = names prog.toplevel in
    and_then (fix_apps_in_funs prog.closures funcs prog.toplevel) (λ fs.
      and_then
        (fix_apps_in_block (record { closures = prog.closures; funcs = funcs; fixing = none })
          prog.entry false)
        (λ p. some (record prog { toplevel = fs; entry = p.0 })))

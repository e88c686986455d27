-- ===== src/Tests/Transform.antt =====
-- closure/transform.go on small programs.
use gocaml.Base.{
  ◌≡◌, ◌⊎◌, ◌&&◌, refl, true, false, Option, none, some, List, [], ◌∷◌, Text, text_eq, codes, pos,
}
use gocaml.Mir.Val.{
  Insns, int_val, ref, fun_val, app, direct_call, closure_call, make_cls, nil, cons,
}
use gocaml.Closure.FixApps.{Program}
use gocaml.Mir.Formed.{formed}
use gocaml.Closure.FixApps.{names}
use gocaml.Closure.Transform.{TransformWithKfo, transform, initial, visit, enter, assume}
use gocaml.Closure.Transform.Settled.{Keeps, settled}
use gocaml.Closure.Transform.Visits.{visit-settled}
use gocaml.Closure.Transform.Moves.{RightProgram, is_some}
use gocaml.Closure.Transform.Escapes.{escapes}
use gocaml.Closure.Transform.Skeleton.{
  only, only_funs, skeleton, functions, or_none, transform-skeleton,
}
use gocaml.Closure.FixApps.Calls.{erase}
use gocaml.Closure.FixApps.Whole.{erase_funs}
use gocaml.Sema.Alpha.{text_in}
use gocaml.Closure.Transform.Captures.{IsKnown, Closes, enter-captures}

abbrev f : Text
f = codes "f"

abbrev g : Text
g = codes "g"

abbrev h : Text
h = codes "h"

abbrev x : Text
x = codes "x"

abbrev y : Text
y = codes "y"

abbrev one : Text
one = codes "1"

abbrev two : Text
two = codes "2"

-- let rec f x = x in let rec g y = f y in let h = f in g (h 1): `f` gets an empty closure when its
-- use as a variable is seen, and then `g`, which captures nothing, calls it as a closure.
abbrev late_closure : Insns
late_closure = cons f (fun_val (x ∷ []) (cons two (ref x) nil) false) (
    cons g (fun_val (y ∷ []) (cons two (app f (y ∷ []) direct_call) nil) false) (
      cons h (ref f) (
        cons one (int_val (pos 1)) (
          cons two (app h (one ∷ []) direct_call)
            (cons (codes "3") (app g (two ∷ []) direct_call) nil)))))

abbrev late_program : Program
late_program = record {
  toplevel =
      record { name = f; params = x ∷ []; body = cons two (ref x) nil; is_recursive = false }
      ∷ record {
        name = g;
        params = y ∷ [];
        body = cons two (app f (y ∷ []) closure_call) nil;
        is_recursive = false;
      }
      ∷ [];
  closures = f ∷ [];
  entry = cons f (make_cls [] f) (
      cons h (ref f) (
        cons one (int_val (pos 1)) (
          cons two (app h (one ∷ []) closure_call)
            (cons (codes "3") (app g (two ∷ []) direct_call) nil))));
}

abbrev program_of : Option ((Text → Option (List Text)) × Program) → Option Program
program_of none = none
program_of (some (closures, prog)) = some prog

late_closure-run : program_of (transform (λ vs. vs) late_closure) ≡ some late_program
unfolding transform text_eq
late_closure-run = refl

late_closure-formed : formed [] late_closure ≡ true
unfolding formed text_eq
late_closure-formed = refl

-- `f` is used as a variable, by `h`.
late_closure-escapes : escapes f late_closure ≡ true
unfolding escapes text_eq
late_closure-escapes = refl

transform-skeleton_example :
    (closures : Text → Option (List Text)) × (prog : Program) × (transform (λ vs. vs) late_closure
      ≡ some (closures, prog))
    × (only f (erase prog.entry) ≡ skeleton f (or_none (closures f)) late_closure)
    × (only_funs f (erase_funs prog.toplevel) ≡ functions f (or_none (closures f)) late_closure)
    × RightProgram prog
    × ((n : Text)
        → text_in n prog.closures ≡ (text_in n (names prog.toplevel) && is_some (closures n)))
transform-skeleton_example =
    transform-skeleton (λ vs. vs) late_closure f late_closure-formed late_closure-escapes

visit-settled_example :
    (t' : TransformWithKfo) × (visit (λ vs. vs) late_closure initial ≡ some t')
    × Keeps initial.seen t'.seen
    × (settled t'.seen late_closure ≡ true)
visit-settled_example = visit-settled (λ vs. vs) [] late_closure initial late_closure-formed

-- `g` calls itself, and captures `h`.
abbrev g_body : Insns
g_body = cons one (app g (h ∷ []) direct_call) (cons two (app h (y ∷ []) direct_call) nil)

g_body-formed : formed (y ∷ g ∷ h ∷ []) g_body ≡ true
unfolding formed text_eq
g_body-formed = refl

enter-captures_example :
    (dup : TransformWithKfo) × (t' : TransformWithKfo) × (visit (λ vs. vs) g_body (assume g initial)
      ≡ some dup)
    × (enter (λ vs. vs) g (fun_val (y ∷ []) g_body false) initial ≡ some t')
    × (((t' ≡ dup) × IsKnown t' g (y ∷ []) g_body) ⊎ Closes t' g (y ∷ []) g_body)
enter-captures_example =
    enter-captures (λ vs. vs) (h ∷ []) g (y ∷ []) g_body false initial (λ z ns. refl) g_body-formed

abbrev closure_of : Option TransformWithKfo → Option (List Text) × List Text
closure_of none = (none, [])
closure_of (some t) = (t.closures g, t.marks)

enter-g :
    closure_of (enter (λ vs. vs) g (fun_val (y ∷ []) g_body false) initial)
    ≡ (some (h ∷ h ∷ []), g ∷ [])
unfolding enter text_eq
enter-g = refl

-- ===== src/Closure/Transform/Escapes.antt =====
-- closure/transform.go: the functions that are used as variables, read off the block.
use gocaml.Base.{both_true, ◌≡◌, refl, Bool, true, false, not, ◌||◌, ◌&&◌, List, Text, text_eq}
use gocaml.Mir.Val.{
  AppKind, direct_call, closure_call, external_call, Val, Insns, if_val, fun_val, app, nil, cons,
}
use gocaml.Mir.Formed.{reads}
use gocaml.Sema.Alpha.{text_in}
use gocaml.Closure.FreeVars.{Transform}
use gocaml.Closure.FreeVars.Free.{free_call, free_val, free, nested}

-- A name is used, but not called, by an instruction that is in no function, before another one has
-- the name.
unfoldable mutual
  unfolding reads text_in

  pub handed_val : Text → Val → Bool
  handed_val z (if_val c a b) = text_eq c z || (handed z a || handed z b)
  handed_val z (fun_val ps body rec) = false
  handed_val z (app callee args kind) = text_in z args
  handed_val z v = text_in z (reads v)

  pub handed : Text → Insns → Bool
  handed z nil = false
  handed z (cons y v rest) = not (text_eq y z) && (handed_val z v || handed z rest)

-- Each function with the name, at any depth, is used as a variable in the rest of its block, where
-- no branch of an `if` has an instruction with the name.
unfoldable mutual
  unfolding handed nested

  pub escapes_val : Text → Text → Val → Insns → Bool
  escapes_val z x (fun_val ps body rec) rest =
      (not (text_eq x z) || (handed z rest && not (nested z rest))) && escapes z body
  escapes_val z x (if_val c a b) rest = escapes z a && escapes z b
  escapes_val z x v rest = true

  pub escapes : Text → Insns → Bool
  escapes z nil = true
  escapes z (cons x v rest) = escapes_val z x v rest && escapes z rest

or_mono :
    (a b a' b' : Bool)
    → (a ≡ true → a' ≡ true)
    → (b ≡ true → b' ≡ true)
    → (a || b) ≡ true
    → (a' || b') ≡ true
or_mono true b a' b' f g e = rw (f refl) refl
or_mono false b true b' f g e = refl
or_mono false b false b' f g e = g e

or_behind : (a b : Bool) → b ≡ true → (a || b) ≡ true
or_behind true b e = refl
or_behind false b e = e

-- What is used so is free.
module _ (t : Transform) (z : Text) where
  args-free :
      (callee : Text) (args : List Text) (kind : AppKind)
      → text_in z args ≡ true
      → free_call t z callee args kind ≡ true
  args-free callee args direct_call e = or_behind _ (text_in z args) e
  args-free callee args closure_call e = or_behind _ (text_in z args) e
  args-free callee args external_call e = e

  mutual
    unfolding handed free

    handed_val-free : (y : Text) (v : Val) → handed_val z v ≡ true → free_val t z y v ≡ true
    handed_val-free y (if_val c a b) e =
        or_mono (text_eq c z) (handed z a || handed z b) (text_eq c z) (free t z a || free t z b)
          (λ k. k)
          (or_mono (handed z a) (handed z b) (free t z a) (free t z b) (handed-free a)
            (handed-free b))
          e
    handed_val-free y (fun_val ps body rec) e = absurd (cc)
    handed_val-free y (app callee args kind) e = args-free callee args kind e
    handed_val-free y v e = e

    pub handed-free : (block : Insns) → handed z block ≡ true → free t z block ≡ true
    handed-free nil e = absurd (cc)
    handed-free (cons y v rest) e =
        let (ey, eu) = both_true (not (text_eq y z)) (handed_val z v || handed z rest) e in
        rw ey (
          or_mono (handed_val z v) (handed z rest) (free_val t z y v) (free t z rest)
            (handed_val-free y v) (handed-free rest) eu)

-- ===== src/Sema/Unify.antt =====
-- sema/unify.go: unification of types in place.
-- The links that unification follows are not part of the types it is given, so `occur` and `unify`
-- take fuel; Unify/Terminates shows that some amount is enough. An error keeps its kind and the
-- chain of notes put on it; the text of the messages and source positions are left out.
pub mod Fuel
pub mod OccurEnds
pub mod Occur
pub mod Terminates
pub mod Halts
pub mod Settled
pub mod Solutions
use gocaml.Base.{
  ℕ, zero, suc, ◌+◌, Bool, true, false, Option, none, some, ◌==◌, if◌then◌else◌, ltb_ℤ,
}
use gocaml.Types.{
  Ty, Tys, unit, bool, int, float, string, fun, tuple, array, option, var, nil, cons, Store,
  is_generic, set_ref, set_level,
}

pub data UnifyError : Type 0 where
  cyclic : ℕ → Ty → UnifyError
  tuple_length fun_length : ℕ → ℕ → UnifyError
  mismatch : Ty → Ty → UnifyError
  in_elem in_param : ℕ → UnifyError → UnifyError
  in_ret : UnifyError → UnifyError

-- `panic` is a Go panic.
pub data Outcome {ℓ} (A : Type ℓ) : Type ℓ where
  ok : A → Outcome A
  err : UnifyError → Outcome A
  panic : Outcome A
  no_fuel : Outcome A

infixl 5 ◌>>=◌
abbrev pub ◌>>=◌ {ℓ κ} : {A : Type ℓ} {B : Type κ} → Outcome A → (A → Outcome B) → Outcome B
ok a >>= k = k a
err e >>= k = err e
panic >>= k = panic
no_fuel >>= k = no_fuel

-- `locerr.Notef`
abbrev pub note {ℓ} : {A : Type ℓ} → (UnifyError → UnifyError) → Outcome A → Outcome A
note n (ok a) = ok a
note n (err e) = err (n e)
note n panic = panic
note n no_fuel = no_fuel

abbrev pub length_tys : Tys → ℕ
length_tys nil = 0
length_tys (cons t ts) = suc (length_tys ts)

abbrev pub Visit : Type 0
Visit = Ty → Store → Outcome (Bool × Store)

-- The loop over elements or parameters, which stops at the first that holds the variable.
unfoldable pub occur_any : Visit → Tys → Store → Outcome (Bool × Store)
occur_any rec nil s = ok (false, s)
occur_any rec (cons t ts) s = do
  (found, s') ← rec t s
  let rest = occur_any rec ts s'
  if found then ok (true, s') else rest

-- `case *Var`, on the variable's `Ref`.
unfoldable pub occur_var : Visit → ℕ → ℕ → Option Ty → Store → Outcome (Bool × Store)
occur_var rec v p (some t) s = rec t s
occur_var rec v p none s =
    if is_generic s p
    then panic
    else if v == p
    then ok (true, s)
    else ok (
      false,
      (if ltb_ℤ (s.cell v).level (s.cell p).level then set_level p (s.cell v).level s else s),
    )

unfoldable pub occur_fun : Visit → Ty → Tys → Store → Outcome (Bool × Store)
unfolding occur_any
occur_fun rec ret params s = do
  (found, s') ← rec ret s
  if found then ok (true, s') else occur_any rec params s'

unfoldable pub occur : ℕ → ℕ → Visit
occur zero v t s = no_fuel
occur (suc f) v (tuple ts) s = occur_any (occur f v) ts s
occur (suc f) v (array t) s = occur f v t s
occur (suc f) v (option t) s = occur f v t s
occur (suc f) v (fun ret params) s = occur_fun (occur f v) ret params s
occur (suc f) v (var p) s = occur_var (occur f v) v p (s.cell p).ref s
occur (suc f) v t s = ok (false, s)

unfoldable pub assign_var : ℕ → ℕ → Ty → Store → Outcome Store
assign_var f v t s = do
  (found, s') ← occur f v t s
  if found then err (cyclic v t) else ok (set_ref v t s')

abbrev pub Unifier : Type 0
Unifier = Ty → Ty → Store → Outcome Store

-- The loops of `unifyTuple` and `unifyFun` from index `i`. Reading past the end would panic.
unfoldable pub unify_elems :
    Unifier → (ℕ → UnifyError → UnifyError) → ℕ → Tys → Tys → Store → Outcome Store
unify_elems rec where_ i nil rs s = ok s
unify_elems rec where_ i (cons l ls) nil s = panic
unify_elems rec where_ i (cons l ls) (cons r rs) s = do
  s' ← note (where_ (i + 1)) (rec l r s)
  unify_elems rec where_ (i + 1) ls rs s'

unfoldable pub unify_tuple : Unifier → Tys → Tys → Store → Outcome Store
unify_tuple rec ls rs s =
    if length_tys ls == length_tys rs
    then unify_elems rec in_elem 0 ls rs s
    else err (tuple_length (length_tys ls) (length_tys rs))

unfoldable pub unify_fun : Unifier → Ty → Tys → Ty → Tys → Store → Outcome Store
unify_fun rec lret ls rret rs s = do
  s' ← note in_ret (rec lret rret s)
  if length_tys ls == length_tys rs
      then unify_elems rec in_param 0 ls rs s'
      else err (fun_length (length_tys ls) (length_tys rs))

-- The tests on variables behind the switch, on the `Ref` of each side that is one.
unfoldable pub follow_both : ℕ → Unifier → ℕ → ℕ → Option Ty → Option Ty → Store → Outcome Store
follow_both f rec p q (some t) _ s = rec t (var q) s
follow_both f rec p q none (some u) s = rec (var p) u s
follow_both f rec p q none none s = assign_var f p (var q) s

unfoldable pub follow_left : ℕ → Unifier → ℕ → Ty → Option Ty → Store → Outcome Store
follow_left f rec p r (some t) s = rec t r s
follow_left f rec p r none s = assign_var f p r s

unfoldable pub follow_right : ℕ → Unifier → Ty → ℕ → Option Ty → Store → Outcome Store
follow_right f rec l q (some t) s = rec l t s
follow_right f rec l q none s = assign_var f q l s

unfoldable pub unify : ℕ → Unifier
unify zero l r s = no_fuel
unify (suc f) (var p) (var q) s =
    if p == q then ok s else follow_both f (unify f) p q (s.cell p).ref (s.cell q).ref s
unify (suc f) (var p) r s = follow_left f (unify f) p r (s.cell p).ref s
unify (suc f) l (var q) s = follow_right f (unify f) l q (s.cell q).ref s
unify (suc f) unit unit s = ok s
unify (suc f) bool bool s = ok s
unify (suc f) int int s = ok s
unify (suc f) float float s = ok s
unify (suc f) string string s = ok s
unify (suc f) (tuple ls) (tuple rs) s = unify_tuple (unify f) ls rs s
unify (suc f) (array l) (array r) s = unify f l r s
unify (suc f) (option l) (option r) s = unify f l r s
unify (suc f) (fun lret ls) (fun rret rs) s = unify_fun (unify f) lret ls rret rs s
unify (suc f) l r s = err (mismatch l r)

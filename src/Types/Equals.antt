-- ===== src/Types/Equals.antt =====
-- types/equals.go: structural equality of types.
-- The unit, boolean and number types are singletons, so their pointers are equal when they are the
-- same type. Links are followed, so `equals` takes fuel, and `none` means that it ran out.
pub mod Shape
pub mod Relation
use gocaml.Base.{
  ℕ, zero, suc, Bool, true, false, not, ◌&&◌, Option, none, some, ◌==◌, if◌then◌else◌,
}
use gocaml.Types.{
  Ty, Tys, unit, bool, int, float, string, fun, tuple, array, option, var, nil, cons, Store,
  is_generic,
}

abbrev pub Compare : Type 0
Compare = Ty → Ty → Option Bool

-- Where the source returns early, and otherwise goes on.
abbrev pub and_then : Option Bool → Option Bool → Option Bool
and_then none k = none
and_then (some false) k = some false
and_then (some true) k = k

abbrev pub same_length : Tys → Tys → Bool
same_length nil nil = true
same_length (cons l ls) (cons r rs) = same_length ls rs
same_length ls rs = false

-- The loop over elements or parameters, for lists of one length.
unfoldable pub equals_all : Compare → Tys → Tys → Option Bool
equals_all rec (cons l ls) (cons r rs) = and_then (rec l r) (equals_all rec ls rs)
equals_all rec ls rs = some true

unfoldable pub equals_tuple : Compare → Tys → Tys → Option Bool
unfolding equals_all
equals_tuple rec ls rs = if not (same_length ls rs) then some false else equals_all rec ls rs

unfoldable pub equals_fun : Compare → Ty → Tys → Ty → Tys → Option Bool
unfolding equals_all
equals_fun rec lret ls rret rs =
    and_then (rec lret rret) (if not (same_length ls rs) then some false else equals_all rec ls rs)

-- `case *Var`, on the `Ref` of both.
unfoldable pub equals_var : Compare → Store → ℕ → ℕ → Option Ty → Option Ty → Option Bool
equals_var rec s p q none none = some (
    if is_generic s p && is_generic s q
    then (s.cell p).id == (s.cell q).id
    else not (is_generic s p) && not (is_generic s q))
equals_var rec s p q none (some r) = some false
equals_var rec s p q (some l) none = some false
equals_var rec s p q (some l) (some r) = rec l r

unfoldable pub equals : ℕ → Store → Compare
unfolding equals_tuple equals_fun equals_var
equals zero s l r = none
equals (suc f) s unit unit = some true
equals (suc f) s bool bool = some true
equals (suc f) s int int = some true
equals (suc f) s float float = some true
equals (suc f) s string string = some true
equals (suc f) s (tuple ls) (tuple rs) = equals_tuple (equals f s) ls rs
equals (suc f) s (array l) (array r) = equals f s l r
equals (suc f) s (fun lret ls) (fun rret rs) = equals_fun (equals f s) lret ls rret rs
equals (suc f) s (var p) (var q) = equals_var (equals f s) s p q (s.cell p).ref (s.cell q).ref
equals (suc f) s (option l) (option r) = equals f s l r
equals (suc f) s l r = some false

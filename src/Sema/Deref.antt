-- ===== src/Sema/Deref.antt =====
-- sema/deref.go: following the links of a type, and of the symbols that are declared.
-- Where the code replaces the parts of a type in place, the model makes the type anew. Links are
-- followed on fuel, `out` when there is not enough; `unknown` is the result false.
pub mod Known
use gocaml.Base.{
  ℕ, zero, suc, Bool, true, false, Option, none, some, List, [], ◌∷◌, Text, text_eq, if◌then◌else◌,
}
use gocaml.Types.{
  Ty, Tys, unit, bool, int, float, string, fun, tuple, array, option, var, nil, cons, Store,
  set_ref, is_generic,
}
use gocaml.Ast.{Symbol}
use gocaml.Sema.Alpha.{is_ignored}

pub data Unwrapped (A : Type 0) : Type 0 where
  out unknown : Unwrapped A
  known : A → Unwrapped A

abbrev pub and_then : {A B : Type 0} → Unwrapped A → (A → Unwrapped B) → Unwrapped B
and_then out k = out
and_then unknown k = unknown
and_then (known a) k = k a

abbrev pub unwrap_var : (Ty → Unwrapped Ty) → Store → ℕ → Option Ty → Unwrapped Ty
unwrap_var rec s p (some t) = rec t
unwrap_var rec s p none = if is_generic s p then known (var p) else unknown

abbrev pub unwrap_all : (Ty → Unwrapped Ty) → Tys → Unwrapped Tys
unwrap_all rec nil = known nil
unwrap_all rec (cons t ts) =
    and_then (rec t) (λ u. and_then (unwrap_all rec ts) (λ us. known (cons u us)))

abbrev pub unwrap_fun : (Ty → Unwrapped Ty) → Ty → Tys → Unwrapped Ty
unwrap_fun rec r ps =
    and_then (rec r) (λ r'. and_then (unwrap_all rec ps) (λ ps'. known (fun r' ps')))

unfoldable pub unwrap : ℕ → Store → Ty → Unwrapped Ty
unwrap zero s t = out
unwrap (suc n) s (fun r ps) = unwrap_fun (unwrap n s) r ps
unwrap (suc n) s (tuple ts) = and_then (unwrap_all (unwrap n s) ts) (λ us. known (tuple us))
unwrap (suc n) s (array t) = and_then (unwrap n s t) (λ u. known (array u))
unwrap (suc n) s (option t) = and_then (unwrap n s t) (λ u. known (option u))
unwrap (suc n) s (var p) = unwrap_var (unwrap n s) s p (s.cell p).ref
unwrap (suc n) s unit = known unit
unwrap (suc n) s bool = known bool
unwrap (suc n) s int = known int
unwrap (suc n) s float = known float
unwrap (suc n) s string = known string

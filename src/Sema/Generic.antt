-- ===== src/Sema/Generic.antt =====
-- sema/generic.go: binding the free variables of a type, and fresh copies of bound ones.
-- The type is rebuilt with its links followed, so `apply` takes fuel, and `none` means that it ran
-- out. A set of IDs and a list of mappings are lists, oldest first.
pub mod Copies
pub mod Generalize
pub mod Instantiate
use gocaml.Base.{
  ℕ, zero, suc, Bool, true, false, Option, none, some, List, [], ◌∷◌, ◌++◌, ◌==◌, if◌then◌else◌, ℤ,
  ltb_ℤ,
}
use gocaml.Types.{
  Ty, Tys, fun, tuple, array, option, var, nil, cons, Store, generic_level, is_generic, set_level,
  new_var,
}

abbrev pub bind {ℓ κ} : {A : Type ℓ} {B : Type κ} → Option A → (A → Option B) → Option B
bind none k = none
bind (some a) k = k a

-- `boundVarIDs`
abbrev pub BoundVarIds : Type 0
BoundVarIds = List ℕ

unfoldable pub contains : ℕ → BoundVarIds → Bool
contains id [] = false
contains id (x ∷ ids) = let rest = contains id ids in if x == id then true else rest

unfoldable pub add : ℕ → BoundVarIds → BoundVarIds
unfolding contains
add id ids = if contains id ids then ids else ids ++ (id ∷ [])

-- `apply` of the generalizer and of the instantiator: a visit of a type with a state `S`.
abbrev pub Visit : Type 0 → Type 0
Visit S = Ty → S → Option (Ty × S)

-- The loops over elements and parameters.
unfoldable pub apply_all : {S : Type 0} → Visit S → Tys → S → Option (Tys × S)
apply_all rec nil s = some (nil, s)
apply_all rec (cons t ts) s =
    bind (rec t s) (λ (t', s'). bind (apply_all rec ts s') (λ (ts', s''). some (cons t' ts', s'')))

-- Both `apply` functions, with what they do at a variable as an argument.
unfoldable pub apply : {S : Type 0} → (Visit S → ℕ → S → Option (Ty × S)) → ℕ → Visit S
unfolding apply_all
apply at_var zero t s = none
apply at_var (suc f) (var p) s = at_var (apply at_var f) p s
apply at_var (suc f) (tuple ts) s =
    bind (apply_all (apply at_var f) ts s) (λ (ts', s'). some (tuple ts', s'))
apply at_var (suc f) (array t) s = bind (apply at_var f t s) (λ (t', s'). some (array t', s'))
apply at_var (suc f) (option t) s = bind (apply at_var f t s) (λ (t', s'). some (option t', s'))
apply at_var (suc f) (fun r ps) s =
    bind (apply_all (apply at_var f) ps s)
      (λ (ps', s'). bind (apply at_var f r s') (λ (r', s''). some (fun r' ps', s'')))
apply at_var (suc f) t s = some (t, s)

abbrev pub Generalizer : Type 0
Generalizer = BoundVarIds × Store

-- `case *types.Var` of the generalizer, on the variable's `Ref`.
unfoldable pub gen_var :
    ℤ → Visit Generalizer → ℕ → Option Ty → Generalizer → Option (Ty × Generalizer)
unfolding add
gen_var level rec p (some t) g = rec t g
gen_var level rec p none (bounds, s) = some (
  var p,
  (if ltb_ℤ level (s.cell p).level
      then (add (s.cell p).id bounds, set_level p generic_level s)
      else (bounds, s)),
)

unfoldable pub generalize : ℕ → Ty → ℤ → Store → Option (Ty × Generalizer)
unfolding apply gen_var
generalize fuel t level s = apply (λ rec p g. gen_var level rec p (g.1.cell p).ref g) fuel t ([], s)

-- `VarMapping`: an ID and the variable made for it.
abbrev pub Mapping : Type 0
Mapping = List (ℕ × ℕ)

unfoldable pub find : ℕ → Mapping → Option ℕ
find id [] = none
find id ((from, to) ∷ m) = let rest = find id m in if from == id then some to else rest

abbrev pub Instantiator : Type 0
Instantiator = Mapping × Store

abbrev pub fresh_copy : ℤ → ℕ → Instantiator → Ty × Instantiator
fresh_copy level id (m, s) =
    let (q, s') = new_var none level s in (var q, (m ++ ((id, q) ∷ []), s'))

abbrev pub copy_of : ℤ → ℕ → Option ℕ → Instantiator → Ty × Instantiator
copy_of level id (some q) i = (var q, i)
copy_of level id none i = fresh_copy level id i

-- `case *types.Var` of the instantiator, on the variable's `Ref`.
unfoldable pub inst_var :
    ℤ → Visit Instantiator → ℕ → Option Ty → Instantiator → Option (Ty × Instantiator)
unfolding find
inst_var level rec p (some t) i = rec t i
inst_var level rec p none (m, s) =
    if is_generic s p
    then some (copy_of level (s.cell p).id (find (s.cell p).id m) (m, s))
    else some (var p, (m, s))

-- `Instantiation`
pub record Instantiation : Type 0 where
  pub from : Ty
  pub to : Ty
  pub mapping : Mapping

abbrev pub instantiation : Ty → Ty → Mapping → Option Instantiation
instantiation t to [] = none
instantiation t to (x ∷ m) = some (record { from = t; to = to; mapping = x ∷ m })

unfoldable pub inst : ℤ → ℕ → Visit Instantiator
unfolding apply inst_var
inst level = apply (λ rec p i. inst_var level rec p (i.1.cell p).ref i)

unfoldable pub instantiate : ℕ → Ty → ℤ → Store → Option (Option Instantiation × Store)
unfolding inst
instantiate fuel t level s =
    bind (inst level fuel t ([], s)) (λ (to, (m, s')). some (instantiation t to m, s'))

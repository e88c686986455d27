-- ===== src/Types.antt =====
-- types/type.go: the types of the language, and the cells behind type variables.
-- A Go `*Var` is an address. What the pointer leads to is a cell of the store; the fields of the
-- other types do not change while types are unified, so those types are values.
pub mod Bounded
pub mod Free
pub mod Meaning
pub mod Resolve
pub mod Equals
use gocaml.Base.{ℕ, ◌+◌, Bool, Option, none, some, ◌==◌, if◌then◌else◌, ℤ, pos, eqb_ℤ}

mutual
  pub data Ty : Type 0 where
    unit bool int float string : Ty
    fun : Ty → Tys → Ty
    tuple : Tys → Ty
    array : Ty → Ty
    option : Ty → Ty
    var : ℕ → Ty

  pub data Tys : Type 0 where
    nil : Tys
    cons : Ty → Tys → Tys

-- `Ref == nil` is `none`.
pub record Var : Type 0 where
  pub ref : Option Ty
  pub level : ℤ
  pub id : ℕ

-- `current_var_id` is the package's counter, and `next` the first address that is not in use.
pub record Store : Type 0 where
  pub cell : ℕ → Var
  pub next : ℕ
  pub current_var_id : ℕ

abbrev pub generic_level : ℤ
generic_level = pos 2147483647

abbrev pub update : (ℕ → Var) → ℕ → Var → ℕ → Var
update h p v q = if q == p then v else h q

abbrev pub set_ref : ℕ → Ty → Store → Store
set_ref p t s = record s { cell = update s.cell p (record (s.cell p) { ref = some t }) }

abbrev pub set_level : ℕ → ℤ → Store → Store
set_level p l s = record s { cell = update s.cell p (record (s.cell p) { level = l }) }

abbrev pub is_generic : Store → ℕ → Bool
is_generic s p = eqb_ℤ (s.cell p).level generic_level

-- `&Var{Ref: t, Level: l, ID: id}` at a fresh address.
abbrev pub allocate : Option Ty → ℤ → ℕ → Store → ℕ × Store
allocate t l id s = (
  s.next,
  record s {
    cell = update s.cell s.next (record { ref = t; level = l; id = id });
    next = s.next + 1;
  },
)

abbrev pub new_var : Option Ty → ℤ → Store → ℕ × Store
new_var t l s = let id = s.current_var_id + 1 in allocate t l id (record s { current_var_id = id })

abbrev pub new_generic : Store → ℕ × Store
new_generic = new_var none generic_level

-- ===== src/Sema/NodeToType.antt =====
-- sema/node_to_type.go: from the syntax of a type to a type.
-- An error is its kind, with the name that it is about.
pub mod Grown
pub mod Formed
pub mod Aliases
use gocaml.Base.{
  ℕ, Bool, true, false, Option, none, some, List, [], ◌∷◌, Text, text_eq, codes, if◌then◌else◌, ℤ,
  negsuc,
}
use gocaml.Types.{
  Ty, Tys, unit, bool, int, float, string, fun, tuple, array, option, var, nil, cons, Store,
  allocate,
}
use gocaml.Ast as Ast
use gocaml.Ast.{Symbol, Expr, Exprs, func_type, tuple_type, ctor_type, TypeDecl}

pub data TypeError : Type 0 where
  any_not_permitted bad_array bad_option : TypeError
  unknown_ctor : Text → TypeError

-- `panics` is the panic on a node that is no type.
pub data Converted (A : Type 0) : Type 0 where
  panics : Converted A
  refuses : TypeError → Converted A
  gives : A → Store → Converted A

abbrev pub and_then : {A B : Type 0} → Converted A → (A → Store → Converted B) → Converted B
and_then panics k = panics
and_then (refuses e) k = refuses e
and_then (gives a s) k = k a s

abbrev pub map_gives : {A B : Type 0} → (A → B) → Converted A → Converted B
map_gives f r = and_then r (λ a s. gives (f a) s)

pub record NodeTypeConv : Type 0 where
  pub aliases : List (Text × Ty)
  pub accepts_any_type : Bool

unfoldable pub find_alias : Text → List (Text × Ty) → Option Ty
find_alias name [] = none
find_alias name ((n, t) ∷ others) =
    let rest = find_alias name others in if text_eq n name then some t else rest

-- The switch on the name of a constructor.
unfoldable pub ctor : Symbol → Converted Ty → Converted Ty → Converted Ty
ctor c in_array in_option =
    if text_eq c.name (codes "array")
    then in_array
    else if text_eq c.name (codes "option")
    then in_option
    else refuses (unknown_ctor c.display_name)

-- `&Var{Level: level}`
abbrev pub any_type : ℤ → Store → Converted Ty
any_type level s = let (p, s') = allocate none level 0 s in gives (var p) s'

abbrev pub alias_or : Option Ty → Store → Converted Ty → Converted Ty
alias_or (some t) s r = gives t s
alias_or none s r = r

-- A constructor without parameters.
unfoldable pub plain : NodeTypeConv → Symbol → ℤ → Store → Converted Ty
unfolding find_alias ctor
plain conv c level s =
    if text_eq c.name (codes "_")
    then (if conv.accepts_any_type then any_type level s else refuses any_not_permitted)
    else alias_or (find_alias c.name conv.aliases) s
        (ctor c (refuses bad_array) (refuses bad_option))

unfoldable mutual
  unfolding plain ctor

  pub node_to_type : NodeTypeConv → Expr → ℤ → Store → Converted Ty
  node_to_type conv (func_type ps ret) level s =
      and_then (nodes_to_types conv ps level s)
        (λ params s1. map_gives (λ r. fun r params) (node_to_type conv ret level s1))
  node_to_type conv (tuple_type xs) level s = map_gives tuple (nodes_to_types conv xs level s)
  node_to_type conv (ctor_type first last Ast.nil c) level s = plain conv c level s
  node_to_type conv (ctor_type first last (Ast.cons x Ast.nil) c) level s =
      let elem = node_to_type conv x level s in
      ctor c (map_gives array elem) (map_gives option elem)
  node_to_type conv (ctor_type first last (Ast.cons x (Ast.cons y ys)) c) level s =
      ctor c (refuses bad_array) (refuses bad_option)
  node_to_type conv e level s = panics

  pub nodes_to_types : NodeTypeConv → Exprs → ℤ → Store → Converted Tys
  nodes_to_types conv Ast.nil level s = gives nil s
  nodes_to_types conv (Ast.cons x xs) level s =
      and_then (node_to_type conv x level s)
        (λ t s1. map_gives (cons t) (nodes_to_types conv xs level s1))

abbrev pub primitives : List (Text × Ty)
primitives =
    (codes "unit", unit)
    ∷ (codes "int", int)
    ∷ (codes "bool", bool)
    ∷ (codes "float", float)
    ∷ (codes "string", string)
    ∷ []

-- The loop over the declarations.
unfoldable pub declare : List TypeDecl → NodeTypeConv → Store → Converted NodeTypeConv
unfolding node_to_type
declare [] conv s = gives conv s
declare (d ∷ ds) conv s =
    and_then (node_to_type conv d.ty (negsuc 0) s)
      (λ t s1. declare ds (record conv { aliases = (d.ident.name, t) ∷ conv.aliases }) s1)

unfoldable pub new_node_type_conv : List TypeDecl → Store → Converted NodeTypeConv
unfolding declare
new_node_type_conv decls s =
    declare decls (record { aliases = primitives; accepts_any_type = true }) s

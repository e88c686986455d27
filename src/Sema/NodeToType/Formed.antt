-- ===== src/Sema/NodeToType/Formed.antt =====
-- sema/node_to_type.go: which types are well formed, and what they are converted to.
use gocaml.Base.{
  suc, inl, inr, refl, Bool, true, false, Bool-cases, ◌&&◌, ◌||◌, List, [], ◌∷◌, Text, text_eq,
  codes, if◌then◌else◌, ℤ,
}
use gocaml.Types.{Ty, Tys, fun, tuple, array, option, nil, cons, Store}
use gocaml.Types.Bounded.{All, All-map, All-Finite, Finite, Acyclic}
use gocaml.Ast as Ast
use gocaml.Ast.{
  Symbol, Expr, Exprs, unit_lit, bool_lit, int_lit, float_lit, string_lit, unary, binary, if_expr,
  let_expr, var_ref, let_rec, apply, let_tuple, array_make, array_size, array_get, array_put,
  match_expr, some_expr, none_expr, array_lit, func_type, tuple_type, ctor_type, typed, type_decl,
  external_decl, TypeDecl,
}
use gocaml.Sema.Alpha.{text_in}
use gocaml.Sema.NodeToType.{
  Converted, refuses, map_gives, NodeTypeConv, find_alias, ctor, any_type, alias_or, plain,
  node_to_type, nodes_to_types, bad_array, bad_option,
}
use gocaml.Sema.NodeToType.Grown.{
  Grown, Grown-none, Finite-Grown, allocate-Grown, Outcome, Outcome-then, Outcome-map,
}

-- A type, with the names of the aliases, and whether `_` is permitted: `array` and `option` take one
-- type, and all else none.
abbrev generic_name : Text → Bool
generic_name s = text_eq s (codes "array") || text_eq s (codes "option")

unfoldable pub plain_formed : List Text → Bool → Text → Bool
unfolding text_in
plain_formed names any s = if text_eq s (codes "_") then any else text_in s names

unfoldable mutual
  unfolding plain_formed

  pub formed : List Text → Bool → Expr → Bool
  formed names any (func_type ps ret) = formed_all names any ps && formed names any ret
  formed names any (tuple_type xs) = formed_all names any xs
  formed names any (ctor_type first last Ast.nil c) = plain_formed names any c.name
  formed names any (ctor_type first last (Ast.cons x Ast.nil) c) =
      generic_name c.name && formed names any x
  formed names any (ctor_type first last (Ast.cons x (Ast.cons y ys)) c) = false
  formed names any e = false

  pub formed_all : List Text → Bool → Exprs → Bool
  formed_all names any Ast.nil = true
  formed_all names any (Ast.cons x xs) = formed names any x && formed_all names any xs

-- A declared type may name those before it.
unfoldable pub decls_formed : List Text → Bool → List TypeDecl → Bool
unfolding formed
decls_formed names any [] = true
decls_formed names any (d ∷ ds) =
    formed names any d.ty && decls_formed (d.ident.name ∷ names) any ds

abbrev pub alias_names : List (Text × Ty) → List Text
alias_names [] = []
alias_names (a ∷ others) = a.0 ∷ alias_names others

-- The types of the aliases end.
abbrev pub FiniteAliases : Store → List (Text × Ty) → Type 0
FiniteAliases s [] = Unit
FiniteAliases s (a ∷ others) = Finite s a.1 × FiniteAliases s others

pub FiniteAliases-Grown :
    {s s' : Store} → Grown s s' → (l : List (Text × Ty)) → FiniteAliases s l → FiniteAliases s' l
FiniteAliases-Grown g [] h = tt
FiniteAliases-Grown g (a ∷ others) (h, hs) = (Finite-Grown g a.1 h, FiniteAliases-Grown g others hs)

ctor-refuses :
    (s : Store) (c : Symbol)
    → Outcome s (ctor c (refuses bad_array) (refuses bad_option)) Finite false
unfolding ctor
ctor-refuses s c = elim (Bool-cases (text_eq c.name (codes "array"))) [
  | inl e ↦ rw e (inr (refl, refl))
  | inr e ↦ elim (Bool-cases (text_eq c.name (codes "option"))) [
    | inl f ↦ rw (e, f) (inr (refl, refl))
    | inr f ↦ rw (e, f) (inr (refl, refl))
  ]
]

alias_or-Outcome :
    (s : Store) (c : Symbol) (l : List (Text × Ty))
    → Acyclic s
    → FiniteAliases s l
    → Outcome s
        (alias_or (find_alias c.name l) s (ctor c (refuses bad_array) (refuses bad_option)))
        Finite
        (text_in c.name (alias_names l))
unfolding find_alias text_in ctor
alias_or-Outcome s c [] a h = ctor-refuses s c
alias_or-Outcome s c ((n, t) ∷ others) a (h, hs) = elim (Bool-cases (text_eq n c.name)) [
  | inl hit ↦ rw hit (inl (refl, (t, s, refl, Grown-none s a, h)))
  | inr miss ↦ rw miss (alias_or-Outcome s c others a hs)
]

any_type-Outcome : (level : ℤ) (s : Store) → Acyclic s → Outcome s (any_type level s) Finite true
any_type-Outcome level s a = let (g, f) = allocate-Grown level s a in inl (refl, (_, _, refl, g, f))

plain-Outcome :
    (conv : NodeTypeConv) (c : Symbol) (level : ℤ) (s : Store)
    → Acyclic s
    → FiniteAliases s conv.aliases
    → Outcome s
        (plain conv c level s)
        Finite
        (plain_formed (alias_names conv.aliases) conv.accepts_any_type c.name)
unfolding plain plain_formed
plain-Outcome conv c level s a h = elim (Bool-cases (text_eq c.name (codes "_"))) [
  | inr e ↦ rw e (alias_or-Outcome s c conv.aliases a h)
  | inl e ↦ elim (Bool-cases conv.accepts_any_type) [
    | inl any ↦ rw (e, any) (any_type-Outcome level s a)
    | inr never ↦ rw (e, never) (inr (refl, refl))
  ]
]

-- `array` or `option` of a type.
ctor-Outcome :
    (s : Store) (c : Symbol) (r : Converted Ty) (ok : Bool)
    → Outcome s r Finite ok
    → Outcome s (ctor c (map_gives array r) (map_gives option r)) Finite (generic_name c.name && ok)
unfolding ctor
ctor-Outcome s c r ok h = elim (Bool-cases (text_eq c.name (codes "array"))) [
  | inl e ↦ rw e (Outcome-map s r array Finite Finite ok h (λ t s1 g (n, f). (suc n, f)))
  | inr e ↦ elim (Bool-cases (text_eq c.name (codes "option"))) [
    | inl f ↦ rw (e, f) (Outcome-map s r option Finite Finite ok h (λ t s1 g (n, k). (suc n, k)))
    | inr f ↦ rw (e, f) (inr (refl, refl))
  ]
]

fun-Finite : (s : Store) (r : Ty) (ps : Tys) → All (Finite s) ps → Finite s r → Finite s (fun r ps)
fun-Finite s r ps fs f =
    let (n, h) = All-Finite s (Finite s) (λ t k. k) (cons r ps) (f, fs) in (suc n, h)

tuple-Finite : (s : Store) (ts : Tys) → All (Finite s) ts → Finite s (tuple ts)
tuple-Finite s ts fs = let (n, h) = All-Finite s (Finite s) (λ t k. k) ts fs in (suc n, h)

mutual
  unfolding node_to_type formed

  node-Outcome :
      (conv : NodeTypeConv) (e : Expr) (level : ℤ) (s : Store)
      → Acyclic s
      → FiniteAliases s conv.aliases
      → Outcome s
          (node_to_type conv e level s)
          Finite
          (formed (alias_names conv.aliases) conv.accepts_any_type e)
  node-Outcome conv (func_type ps ret) level s a h =
      Outcome-then s (nodes_to_types conv ps level s) _ (λ s1 us. All (Finite s1) us) Finite _ _
        (nodes-Outcome conv ps level s a h)
        (λ us s1 g fs.
          Outcome-map s1 (node_to_type conv ret level s1) (λ r. fun r us) Finite Finite _
            (node-Outcome conv ret level s1 g.acyclic (FiniteAliases-Grown g conv.aliases h))
            (λ r s2 g2 f. fun-Finite s2 r us (All-map _ _ (Finite-Grown g2) us fs) f))
  node-Outcome conv (tuple_type xs) level s a h =
      Outcome-map s (nodes_to_types conv xs level s) tuple (λ s1 us. All (Finite s1) us) Finite _
        (nodes-Outcome conv xs level s a h) (λ us s1 g fs. tuple-Finite s1 us fs)
  node-Outcome conv (ctor_type first last Ast.nil c) level s a h = plain-Outcome conv c level s a h
  node-Outcome conv (ctor_type first last (Ast.cons x Ast.nil) c) level s a h =
      ctor-Outcome s c (node_to_type conv x level s) _ (node-Outcome conv x level s a h)
  node-Outcome conv (ctor_type first last (Ast.cons x (Ast.cons y ys)) c) level s a h =
      ctor-refuses s c
  node-Outcome conv (unit_lit l r) level s a h = inr (refl, refl)
  node-Outcome conv (bool_lit t b) level s a h = inr (refl, refl)
  node-Outcome conv (int_lit t i) level s a h = inr (refl, refl)
  node-Outcome conv (float_lit t x) level s a h = inr (refl, refl)
  node-Outcome conv (string_lit t s') level s a h = inr (refl, refl)
  node-Outcome conv (unary op t e) level s a h = inr (refl, refl)
  node-Outcome conv (binary op l r) level s a h = inr (refl, refl)
  node-Outcome conv (if_expr t b c d) level s a h = inr (refl, refl)
  node-Outcome conv (let_expr t x ty bound body) level s a h = inr (refl, refl)
  node-Outcome conv (var_ref t x) level s a h = inr (refl, refl)
  node-Outcome conv (let_rec t f ps ret body rest) level s a h = inr (refl, refl)
  node-Outcome conv (apply f xs) level s a h = inr (refl, refl)
  node-Outcome conv (Ast.tuple xs) level s a h = inr (refl, refl)
  node-Outcome conv (let_tuple t xs ty bound body) level s a h = inr (refl, refl)
  node-Outcome conv (array_make t n x) level s a h = inr (refl, refl)
  node-Outcome conv (array_size t x) level s a h = inr (refl, refl)
  node-Outcome conv (array_get b i) level s a h = inr (refl, refl)
  node-Outcome conv (array_put b i x) level s a h = inr (refl, refl)
  node-Outcome conv (match_expr t e x b c last) level s a h = inr (refl, refl)
  node-Outcome conv (some_expr t e) level s a h = inr (refl, refl)
  node-Outcome conv (none_expr t) level s a h = inr (refl, refl)
  node-Outcome conv (array_lit l r xs) level s a h = inr (refl, refl)
  node-Outcome conv (typed e ty) level s a h = inr (refl, refl)
  node-Outcome conv (type_decl t x ty) level s a h = inr (refl, refl)
  node-Outcome conv (external_decl first last x ty c) level s a h = inr (refl, refl)

  nodes-Outcome :
      (conv : NodeTypeConv) (xs : Exprs) (level : ℤ) (s : Store)
      → Acyclic s
      → FiniteAliases s conv.aliases
      → Outcome s
          (nodes_to_types conv xs level s)
          (λ s' us. All (Finite s') us)
          (formed_all (alias_names conv.aliases) conv.accepts_any_type xs)
  nodes-Outcome conv Ast.nil level s a h = inl (refl, (nil, s, refl, Grown-none s a, tt))
  nodes-Outcome conv (Ast.cons x xs) level s a h =
      Outcome-then s (node_to_type conv x level s) _ Finite (λ s1 us. All (Finite s1) us) _ _
        (node-Outcome conv x level s a h)
        (λ u s1 g f.
          Outcome-map s1 (nodes_to_types conv xs level s1) (cons u) (λ s2 us. All (Finite s2) us)
            (λ s2 us. All (Finite s2) us) _
            (nodes-Outcome conv xs level s1 g.acyclic (FiniteAliases-Grown g conv.aliases h))
            (λ us s2 g2 fs. (Finite-Grown g2 u f, fs)))

-- A type is converted if it is formed, and not otherwise: `array` and `option` have one parameter,
-- every other constructor is an alias and has none, and `_` is permitted. In an acyclic store
-- under which the types of the aliases end, the store then only grows, it stays acyclic, and the
-- type ends under it.
pub node_to_type-Outcome :
    (conv : NodeTypeConv) (e : Expr) (level : ℤ) (s : Store)
    → Acyclic s
    → FiniteAliases s conv.aliases
    → Outcome s
        (node_to_type conv e level s)
        Finite
        (formed (alias_names conv.aliases) conv.accepts_any_type e)
node_to_type-Outcome = node-Outcome

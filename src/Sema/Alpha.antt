-- ===== src/Sema/Alpha.antt =====
-- sema/alpha_transform.go: every name that is bound gets an ID of its own.
-- The pointers to symbols are values: a symbol's name is written once, where it is registered, and
-- nodes share it only after that. A node that the code changes in place is returned. `Sprintf` of a
-- number is the parameter `decimal`. An error is its kind and the name it is about; as in the code,
-- the visit goes on after an error, and a later error replaces it.
pub mod Transform
pub mod Names
pub mod Stack
pub mod Numbered
pub mod Enter
pub mod Visited
pub mod References
pub mod Renames
pub mod Program
pub mod Scoped
use gocaml.Base.{
  ℕ, ◌+◌, ◌%◌, ◌^◌, Bool, true, false, not, ◌||◌, ◌&&◌, Option, none, some, List, [], ◌∷◌, ◌++◌,
  Text, codes, text_eq, ◌==◌, if◌then◌else◌,
}
use gocaml.Ast.{
  Symbol, Expr, Exprs, MaybeExpr, Params, unit_lit, bool_lit, int_lit, float_lit, string_lit, unary,
  binary, if_expr, let_expr, var_ref, let_rec, apply, tuple, let_tuple, array_make, array_size,
  array_get, array_put, match_expr, some_expr, none_expr, array_lit, func_type, tuple_type,
  ctor_type, typed, type_decl, external_decl, nil, cons, absent, present, no_params, param,
}
use gocaml.Sema.Scope.{Scope, new_scope, map_symbol, resolve}

-- `strings.HasPrefix`
unfoldable pub has_prefix : Text → Text → Bool
has_prefix s [] = true
has_prefix [] (p ∷ ps) = false
has_prefix (c ∷ cs) (p ∷ ps) = c == p && has_prefix cs ps

unfoldable pub is_ignored : Symbol → Bool
unfolding has_prefix
is_ignored s = has_prefix s.name (codes "$unused")

abbrev pub same_display : Text → List Symbol → Bool
same_display name [] = false
same_display name (right ∷ rest) = text_eq name right.display_name || same_display name rest

unfoldable pub duplicate_symbol : List Symbol → Option Symbol
unfolding is_ignored text_eq
duplicate_symbol [] = none
duplicate_symbol (left ∷ rest) =
    let later = duplicate_symbol rest in
    if is_ignored left
    then later
    else if same_display left.display_name rest
    then some left
    else later

abbrev pub param_symbols : Params → List Symbol
param_symbols no_params = []
param_symbols (param x ty ps) = x ∷ param_symbols ps

unfoldable pub is_builtin_type_ctor : Text → Bool
unfolding text_eq
is_builtin_type_ctor name =
    text_eq name (codes "_")
    || text_eq name (codes "array")
    || text_eq name (codes "option")
    || text_eq name (codes "unit")
    || text_eq name (codes "int")
    || text_eq name (codes "bool")
    || text_eq name (codes "float")
    || text_eq name (codes "string")

pub data AlphaError : Type 0 where
  duplicate undefined_variable undefined_type redefined_type redeclared_c : Text → AlphaError
  ignored_reference ignored_external : AlphaError

pub record Transformer : Type 0 where
  pub current : Scope
  pub type_scope : Scope
  pub var_id : ℕ
  pub ty_id : ℕ
  pub err : Option AlphaError
  pub externals : List Text

unfoldable pub text_in : Text → List Text → Bool
text_in s [] = false
text_in s (t ∷ ts) = text_eq t s || text_in s ts

abbrev pub new_transformer : Transformer
new_transformer = record {
  current = new_scope [];
  type_scope = new_scope [];
  var_id = 0;
  ty_id = 0;
  err = none;
  externals = [];
}

abbrev pub fail : AlphaError → Transformer → Transformer
fail why t = record t { err = some why }

abbrev pub nest : Transformer → Transformer
nest t = record t { current = new_scope t.current }

abbrev pub parent_of : Scope → Scope
parent_of [] = []
parent_of (vars ∷ parent) = parent

abbrev pub pop : Transformer → Transformer
pop t = record t { current = parent_of t.current }

abbrev pub next_id : ℕ → ℕ
next_id n = (n + 1) % 2 ^ 64

-- `case *ast.VarRef`
abbrev pub referred : Symbol → Option Symbol → Transformer → Symbol × Transformer
referred s (some mapped) t = (mapped, t)
referred s none t =
    (s, (if text_in s.name t.externals then t else fail (undefined_variable s.display_name) t))

unfoldable pub refer : Symbol → Transformer → Symbol × Transformer
unfolding resolve text_in text_eq
refer s t =
    if text_eq s.display_name (codes "_")
    then (s, fail ignored_reference t)
    else referred s (resolve s.display_name t.current) t

-- `case *ast.CtorType`: the constructor's symbol, and whether the parameters are visited.
abbrev pub ctor_mapped : Symbol → Option Symbol → Transformer → Bool × (Symbol × Transformer)
ctor_mapped c (some mapped) t = (true, (mapped, t))
ctor_mapped c none t = (false, (c, fail (undefined_type c.display_name) t))

unfoldable pub refer_ctor : Symbol → Transformer → Bool × (Symbol × Transformer)
unfolding is_builtin_type_ctor resolve
refer_ctor c t =
    if is_builtin_type_ctor c.display_name
    then (true, (c, t))
    else ctor_mapped c (resolve c.display_name t.type_scope) t

module _ (decimal : ℕ → Text) where
  -- What `newVarID` and `newTyID` format.
  abbrev pub var_name : Text → ℕ → Text
  var_name n id = n ++ (codes "$t" ++ decimal id)

  abbrev pub ty_name : Text → ℕ → Text
  ty_name n id = n ++ (codes ".t" ++ decimal id)

  -- `register` on a symbol that is not ignored.
  abbrev pub registered : Symbol → Transformer → Symbol × Transformer
  registered s t =
      let id = next_id t.var_id in
      let s' : Symbol = record s { name = var_name s.display_name id } in
      (s', record t { var_id = id; current = map_symbol s.display_name s' t.current })

  unfoldable pub register : Symbol → Transformer → Symbol × Transformer
  unfolding is_ignored
  register s t = if is_ignored s then (s, t) else registered s t

  -- The loop that registers the symbols of a `LetTuple`.
  unfoldable pub register_all : List Symbol → Transformer → List Symbol × Transformer
  unfolding register
  register_all [] t = ([], t)
  register_all (s ∷ ss) t =
      let (s', t1) = register s t in let (ss', t2) = register_all ss t1 in (s' ∷ ss', t2)

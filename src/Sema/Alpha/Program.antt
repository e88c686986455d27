-- ===== src/Sema/Alpha/Program.antt =====
-- sema/alpha_transform.go: `AlphaTransform`, on a whole program.
-- `env.Externals` is the list of its entries, each a name and the name in C. An error in a type
-- declaration or in an external returns at once, one in the program's tree when it has been visited.
pub mod Renames
pub mod Accepts
use gocaml.Base.{
  ℕ, Bool, true, false, Option, none, some, List, [], ◌∷◌, Text, ◌⊎◌, inl, inr, if◌then◌else◌,
}
use gocaml.Ast.{Symbol, Expr, Ast, TypeDecl, External}
use gocaml.Sema.Scope.{map_symbol}
use gocaml.Sema.Alpha.{
  AlphaError, Transformer, new_transformer, redefined_type, redeclared_c, ignored_external,
  is_ignored, is_builtin_type_ctor, text_in, next_id, ty_name,
}
use gocaml.Sema.Alpha.Transform.{transform}

-- `return err` where there is one.
abbrev pub unless_err {ℓ} : {A : Type ℓ} → Option AlphaError → AlphaError ⊎ A → AlphaError ⊎ A
unless_err none r = r
unless_err (some why) r = inl why

abbrev pub prepend {ℓ} : {A B : Type ℓ} → A → AlphaError ⊎ (List A × B) → AlphaError ⊎ (List A × B)
prepend x (inl why) = inl why
prepend x (inr (xs, b)) = inr (x ∷ xs, b)

-- The loop over the externals, with the names and the names in C that are taken.
unfoldable pub declare : List External → List Text → List Text → AlphaError ⊎ List Text
unfolding is_ignored text_in
declare [] exts cnames = inr exts
declare (e ∷ es) exts cnames =
    let rest = declare es (e.ident.name ∷ exts) (e.c ∷ cnames) in
    if is_ignored e.ident
    then inl ignored_external
    else if text_in e.c cnames
    then inl (redeclared_c e.c)
    else rest

abbrev pub first_of : List (Text × Text) → List Text
first_of [] = []
first_of (e ∷ es) = e.0 ∷ first_of es

abbrev pub second_of : List (Text × Text) → List Text
second_of [] = []
second_of (e ∷ es) = e.1 ∷ second_of es

module _ (decimal : ℕ → Text) where
  -- A type's name, registered with an ID of its own.
  abbrev pub register_type : Symbol → Transformer → Symbol × Transformer
  register_type s t =
      let id = next_id t.ty_id in
      let s' : Symbol = record s { name = ty_name decimal s.display_name id } in
      (s', record t { ty_id = id; type_scope = map_symbol s.display_name s' t.type_scope })

  -- The loop over the type declarations.
  unfoldable pub declare_types :
      List TypeDecl → Transformer → AlphaError ⊎ (List TypeDecl × Transformer)
  unfolding is_builtin_type_ctor
  declare_types [] t = inr ([], t)
  declare_types (d ∷ ds) t =
      let (ty', t1) = transform decimal d.ty t in
      let (i', t2) = register_type d.ident t1 in
      let rest = declare_types ds t2 in
      unless_err t1.err (
        if is_builtin_type_ctor d.ident.display_name
        then inl (redefined_type d.ident.display_name)
        else prepend (record d { ident = i'; ty = ty' }) rest)

  abbrev pub transform_root : Ast → List TypeDecl → Transformer → AlphaError ⊎ Ast
  transform_root tree decls t =
      let (root', t1) = transform decimal tree.root t in
      unless_err t1.err (inr (record tree { root = root'; type_decls = decls }))

  abbrev pub with_externals :
      Ast → List TypeDecl → Transformer → AlphaError ⊎ List Text → AlphaError ⊎ Ast
  with_externals tree decls t (inl why) = inl why
  with_externals tree decls t (inr exts) = transform_root tree decls (record t { externals = exts })

  abbrev pub with_types :
      List (Text × Text) → Ast → AlphaError ⊎ (List TypeDecl × Transformer) → AlphaError ⊎ Ast
  with_types env tree (inl why) = inl why
  with_types env tree (inr (decls, t)) =
      with_externals tree decls t (declare tree.externals (first_of env) (second_of env))

  unfoldable pub alpha_transform : List (Text × Text) → Ast → AlphaError ⊎ Ast
  alpha_transform env tree = with_types env tree (declare_types tree.type_decls new_transformer)

-- ===== src/Sema/Alpha/Program/Renames.antt =====
-- sema/alpha_transform.go: what a program that `AlphaTransform` accepts is turned into.
use gocaml.Base.{
  ℕ, ◌<◌, ◌^◌, ◌≡◌, ◌⊎◌, inl, inr, refl, sym, ap, subst, ◌∙◌, Bool, true, false, Option, none, some,
  List, [], ◌∷◌, ◌++◌, Text, length, append_assoc, arith, if◌then◌else◌,
}
use gocaml.Ast.{Ast, TypeDecl}
use gocaml.Sema.Scope.{Scope}
use gocaml.Sema.Alpha.{AlphaError, Transformer, new_transformer}
use gocaml.Sema.Alpha.Transform.{transform}
use gocaml.Sema.Alpha.Numbered.{Distinct, Numbered-Distinct}
use gocaml.Sema.Alpha.Stack.{Stacked, flat}
use gocaml.Sema.Alpha.Enter.{display, name}
use gocaml.Sema.Alpha.References.{references, binder_names, Parsed}
use gocaml.Sema.Alpha.Visited.{Visited, Ready, Ready-first, Ready-next}
use gocaml.Sema.Alpha.Renames.{renames}
use gocaml.Sema.Alpha.Program.{
  alpha_transform, with_types, with_externals, transform_root, unless_err, prepend, declare_types,
  register_type,
}

-- The names that the types of declarations bind: a tree of the parser has none there.
abbrev pub decl_names : List TypeDecl → List Text
decl_names [] = []
decl_names (d ∷ ds) = binder_names d.ty ++ decl_names ds

abbrev pub ParsedDecls : List TypeDecl → Type 0
ParsedDecls [] = Unit
ParsedDecls (d ∷ ds) = Parsed d.ty × ParsedDecls ds

abbrev pub ParsedAst : Ast → Type 0
ParsedAst tree = ParsedDecls tree.type_decls × Parsed tree.root

abbrev pub tree_names : Ast → List Text
tree_names tree = decl_names tree.type_decls ++ binder_names tree.root

abbrev outermost : Scope
outermost = [] ∷ []

prepend-inr :
    {A B : Type 0} (x : A) (r : AlphaError ⊎ (List A × B)) (xs : List A) (b : B)
    → prepend x r ≡ inr (xs, b)
    → (ys : List A) × (r ≡ inr (ys, b))
prepend-inr x (inl why) xs b e = absurd (cc)
prepend-inr x (inr (ys, c)) xs b e = (ys, cc)

unless_err-inr :
    {A : Type 0} (o : Option AlphaError) (r : AlphaError ⊎ A) (a : A)
    → unless_err o r ≡ inr a
    → (o ≡ none) × (r ≡ inr a)
unless_err-inr none r a e = (refl, e)
unless_err-inr (some why) r a e = absurd (cc)

if-inr :
    {A : Type 0} (b : Bool) (why : AlphaError) (r : AlphaError ⊎ A) (a : A)
    → (if b then inl why else r) ≡ inr a
    → r ≡ inr a
if-inr true why r a e = absurd (cc)
if-inr false why r a e = e

module _ (decimal : ℕ → Text) (decimal_inj : (i j : ℕ) → decimal i ≡ decimal j → i ≡ j) where
  declare_types-Ready :
      (ds ds' : List TypeDecl) (t t' : Transformer) (rest : List Text)
      → ParsedDecls ds
      → Ready decimal decimal_inj outermost t (decl_names ds ++ rest)
      → declare_types decimal ds t ≡ inr (ds', t')
      → Ready decimal decimal_inj outermost t' rest
  unfolding declare_types
  declare_types-Ready [] ds' t t' rest p r e =
      let same : t ≡ t' = cc in subst (λ t. Ready decimal decimal_inj outermost t rest) same r
  declare_types-Ready (d ∷ ds) ds' t t' rest (p, ps) r e =
      let (ty', t1) = transform decimal d.ty t in
      let (i', t2) = register_type decimal d.ident t1 in
      let ra : Ready decimal decimal_inj outermost t
          (binder_names d.ty ++ (decl_names ds ++ rest)) =
        subst (λ ns. Ready decimal decimal_inj outermost t ns)
          (append_assoc (binder_names d.ty) (decl_names ds) rest) r in
      let v =
        renames decimal decimal_inj d.ty outermost t p
          (Ready-first decimal decimal_inj (binder_names d.ty) _ ra) in
      let rn = Ready-next decimal decimal_inj _ ra v in
      let (ds1, e1) =
        prepend-inr _ (declare_types decimal ds t2) ds' t'
          (if-inr _ _ _ _ (unless_err-inr t1.err _ _ e).1) in
      declare_types-Ready ds ds1 t2 t' rest ps
        (record { at = rn.at; stacked = rn.stacked; fits = rn.fits }) e1

  -- The visit of the root, and that there was no error.
  abbrev RootVisited : Ast → Ast → Type 0
  RootVisited tree tree' =
      (t : Transformer) × ((let r = transform decimal tree.root t in
        (r.1.err ≡ none)
        × (tree'.root ≡ r.0)
        × Visited decimal decimal_inj outermost t r.1 (binder_names tree.root) (binder_names r.0)
            (references display tree.root []) (references name r.0 [])))

  transform_root-visited :
      (tree tree' : Ast) (decls : List TypeDecl) (t : Transformer)
      → Parsed tree.root
      → Ready decimal decimal_inj outermost t (binder_names tree.root)
      → transform_root decimal tree decls t ≡ inr tree'
      → RootVisited tree tree'
  unfolding flat
  transform_root-visited tree tree' decls t p r e =
      let (calm, is) = unless_err-inr (transform decimal tree.root t).1.err _ _ e in
      let same : tree'.root ≡ (transform decimal tree.root t).0 = cc in
      (t, (calm, same, renames decimal decimal_inj tree.root outermost t p r))

  with_externals-visited :
      (tree tree' : Ast) (decls : List TypeDecl) (t : Transformer) (o : AlphaError ⊎ List Text)
      → Parsed tree.root
      → Ready decimal decimal_inj outermost t (binder_names tree.root)
      → with_externals decimal tree decls t o ≡ inr tree'
      → RootVisited tree tree'
  with_externals-visited tree tree' decls t (inl why) p r e = absurd (cc)
  with_externals-visited tree tree' decls t (inr exts) p r e =
      transform_root-visited tree tree' decls (record t { externals = exts }) p
        (record { at = r.at; stacked = r.stacked; fits = r.fits }) e

  with_types-visited :
      (env : List (Text × Text)) (tree tree' : Ast) (o : AlphaError ⊎ (List TypeDecl × Transformer))
      → Parsed tree.root
      → ((ds : List TypeDecl) (t : Transformer)
          → o ≡ inr (ds, t)
          → Ready decimal decimal_inj outermost t (binder_names tree.root))
      → with_types decimal env tree o ≡ inr tree'
      → RootVisited tree tree'
  with_types-visited env tree tree' (inl why) p r e = absurd (cc)
  with_types-visited env tree tree' (inr (ds, t)) p r e =
      with_externals-visited tree tree' ds t _ p (r ds t refl) e

  root_visited :
      (env : List (Text × Text)) (tree tree' : Ast)
      → ParsedAst tree
      → length (tree_names tree) < 2 ^ 64
      → alpha_transform decimal env tree ≡ inr tree'
      → RootVisited tree tree'
  unfolding alpha_transform Stacked flat
  root_visited env tree tree' (ps, p) fits e =
      with_types-visited env tree tree' _ p
        (λ ds t.
          declare_types-Ready tree.type_decls ds new_transformer t (binder_names tree.root) ps
            (record { at = refl; stacked = tt; fits = omega (arith, fits) }))
        e

  -- In a program that the transformation accepts, each reference leads, by the name that it gets,
  -- to the binding that it led to by the name that the source displays: the innermost of that name
  -- in scope, or none. It supposes a tree of the parser, whose names have no `$`, fewer than 2 ^ 64
  -- names bound, and that no two numbers are printed alike.
  pub alpha_transform-references :
      (env : List (Text × Text)) (tree tree' : Ast)
      → ParsedAst tree
      → length (tree_names tree) < 2 ^ 64
      → alpha_transform decimal env tree ≡ inr tree'
      → references display tree.root [] ≡ references name tree'.root []
  alpha_transform-references env tree tree' p fits e =
      let (t, (calm, is, v)) = root_visited env tree tree' p fits e in
      v.same calm ∙ ap (λ e. references name e []) (sym is)

  -- In a program that the transformation accepts, no two names that its tree binds are the same,
  -- but for those that are ignored, under the same conditions.
  pub alpha_transform-Distinct :
      (env : List (Text × Text)) (tree tree' : Ast)
      → ParsedAst tree
      → length (tree_names tree) < 2 ^ 64
      → alpha_transform decimal env tree ≡ inr tree'
      → Distinct decimal decimal_inj (binder_names tree'.root)
  alpha_transform-Distinct env tree tree' p fits e =
      let (t, (calm, is, v)) = root_visited env tree tree' p fits e in
      rw is (Numbered-Distinct decimal decimal_inj _ _ _ (v.counts.grows calm))

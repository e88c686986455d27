-- ===== src/Sema/Alpha/Program/Accepts.antt =====
-- sema/alpha_transform.go: which programs `AlphaTransform` accepts.
use gocaml.Base.{
  ℕ, ◌≡◌, ◌⊎◌, inl, inr, refl, ap, ◌∙◌, Bool, true, false, Bool-cases, not, ◌&&◌, Option, none,
  some, List, [], ◌∷◌, Text, if◌then◌else◌,
}
use gocaml.Ast.{Symbol, Ast, TypeDecl, External}
use gocaml.Sema.Scope.{Frame}
use gocaml.Sema.Alpha.{
  AlphaError, Transformer, new_transformer, is_builtin_type_ctor, is_ignored, text_in,
  redefined_type,
}
use gocaml.Sema.Alpha.Transform.{transform}
use gocaml.Sema.Alpha.Stack.{flat, displays}
use gocaml.Sema.Alpha.Scoped.{scoped}
use gocaml.Sema.Alpha.Scoped.Judged.{is_none}
use gocaml.Sema.Alpha.Scoped.Checks.{transform-scoped}
use gocaml.Sema.Alpha.Program.{
  alpha_transform, with_types, transform_root, unless_err, prepend, declare, declare_types,
  register_type, first_of, second_of,
}

-- A type may name those declared before it, and may not be called like a built-in one.
unfoldable pub decls_scoped : List Text → List TypeDecl → Bool
decls_scoped types [] = true
decls_scoped types (d ∷ ds) =
    scoped [] types d.ty []
    && (not (is_builtin_type_ctor d.ident.display_name)
        && decls_scoped (d.ident.display_name ∷ types) ds)

abbrev pub types_after : List Text → List TypeDecl → List Text
types_after types [] = types
types_after types (d ∷ ds) = types_after (d.ident.display_name ∷ types) ds

-- No external is `_`, and no two have one name in C.
unfoldable pub externals_differ : List Text → List External → Bool
externals_differ cnames [] = true
externals_differ cnames (e ∷ es) =
    not (is_ignored e.ident) && (not (text_in e.c cnames) && externals_differ (e.c ∷ cnames) es)

abbrev pub externals_after : List Text → List External → List Text
externals_after exts [] = exts
externals_after exts (e ∷ es) = externals_after (e.ident.name ∷ exts) es

unfoldable pub program_scoped : List (Text × Text) → Ast → Bool
unfolding decls_scoped externals_differ scoped
program_scoped env tree =
    decls_scoped [] tree.type_decls
    && (externals_differ (second_of env) tree.externals
        && scoped (externals_after (first_of env) tree.externals) (types_after [] tree.type_decls)
            tree.root [])

abbrev pub accepted : {A : Type 0} → AlphaError ⊎ A → Bool
accepted (inl why) = false
accepted (inr a) = true

-- No error so far, outside every binding, and the types that are declared.
record Outside (types : List Text) (t : Transformer) : Type 0 where
  calm : t.err ≡ none
  no_externals : t.externals ≡ []
  outermost : t.current ≡ [] ∷ []
  declared : (f : Frame) × (t.type_scope ≡ f ∷ []) × (displays (flat t.type_scope) ≡ types)

declare-cases :
    (es : List External) (exts cnames : List Text)
    → ((why : AlphaError) × (declare es exts cnames ≡ inl why)
        × (externals_differ cnames es ≡ false))
      ⊎ ((declare es exts cnames ≡ inr (externals_after exts es))
          × (externals_differ cnames es ≡ true))
unfolding declare externals_differ
declare-cases [] exts cnames = inr (refl, refl)
declare-cases (e ∷ es) exts cnames = elim (Bool-cases (is_ignored e.ident)) [
  | inl ignored ↦ rw ignored (inl (_, refl, refl))
  | inr named ↦ elim (Bool-cases (text_in e.c cnames)) [
    | inl taken ↦ rw (named, taken) (inl (_, refl, refl))
    | inr other ↦ rw (named, other) (declare-cases es (e.ident.name ∷ exts) (e.c ∷ cnames))
  ]
]

accepted_unless :
    {A : Type 0} (o : Option AlphaError) (a : A) → accepted (unless_err o (inr a)) ≡ is_none o
accepted_unless none a = refl
accepted_unless (some why) a = refl

module _ (decimal : ℕ → Text) where
  abbrev Declared :
      List TypeDecl → List Text → AlphaError ⊎ (List TypeDecl × Transformer) → Bool → Type 0
  Declared ds types r ok =
      ((why : AlphaError) × (r ≡ inl why) × (ok ≡ false))
      ⊎ ((ds' : List TypeDecl) × (t' : Transformer) × (r ≡ inr (ds', t'))
          × (ok ≡ true)
          × Outside (types_after types ds) t')

  prepend-Declared :
      (d d' : TypeDecl) (ds : List TypeDecl) (types : List Text)
      (r : AlphaError ⊎ (List TypeDecl × Transformer)) (ok : Bool)
      → Declared ds (d.ident.display_name ∷ types) r ok
      → Declared (d ∷ ds) types (prepend d' r) ok
  prepend-Declared d d' ds types r ok (inl (why, e, k)) = rw e (inl (why, refl, k))
  prepend-Declared d d' ds types r ok (inr (ds', t', e, k, o)) =
      rw e (inr (d' ∷ ds', t', refl, k, o))

  Declared-step :
      (err : Option AlphaError) (builtin : Bool) (d d' : TypeDecl) (ds : List TypeDecl)
      (types : List Text) (r : AlphaError ⊎ (List TypeDecl × Transformer)) (ok : Bool)
      → (err ≡ none → Declared ds (d.ident.display_name ∷ types) r ok)
      → Declared
          (d ∷ ds)
          types
          (unless_err err
            (if builtin then inl (redefined_type d.ident.display_name) else prepend d' r))
          (is_none err && (not builtin && ok))
  Declared-step (some why) builtin d d' ds types r ok h = inl (why, refl, refl)
  Declared-step none true d d' ds types r ok h = inl (_, refl, refl)
  Declared-step none false d d' ds types r ok h = prepend-Declared d d' ds types r ok (h refl)

  register_type-Outside :
      (s : Symbol) (t : Transformer) (types : List Text)
      → Outside types t
      → Outside (s.display_name ∷ types) (register_type decimal s t).1
  unfolding flat
  register_type-Outside s t types o =
      let (f, at, shown) = o.declared in
      record {
        calm = o.calm;
        no_externals = o.no_externals;
        outermost = o.outermost;
        declared = rw at (_, refl, ap (λ l. s.display_name ∷ l) (rw at at shown));
      }

  transform-Outside :
      (d : TypeDecl) (t : Transformer) (types : List Text)
      → Outside types t
      → (let t' = (transform decimal d.ty t).1 in
          (is_none t'.err ≡ scoped [] types d.ty []) × (t'.err ≡ none → Outside types t'))
  unfolding flat
  transform-Outside d t types o =
      let (verdict, scope, ts, exts) = transform-scoped decimal d.ty t o.calm in
      let (f, at, shown) = o.declared in
      (
        verdict ∙ rw (o.no_externals, shown, o.outermost) refl,
        λ calm. record {
          calm = calm;
          no_externals = exts ∙ o.no_externals;
          outermost = scope ∙ o.outermost;
          declared = (f, ts ∙ at, ap (λ c. displays (flat c)) ts ∙ shown);
        },
      )

  declare_types-cases :
      (ds : List TypeDecl) (t : Transformer) (types : List Text)
      → Outside types t
      → Declared ds types (declare_types decimal ds t) (decls_scoped types ds)
  unfolding declare_types decls_scoped
  declare_types-cases [] t types o = inr ([], t, refl, refl, o)
  declare_types-cases (d ∷ ds) t types o =
      let t1 = (transform decimal d.ty t).1 in
      let (verdict, next) = transform-Outside d t types o in
      rw (← verdict) (
        Declared-step t1.err (is_builtin_type_ctor d.ident.display_name) d _ ds types _ _ (λ calm.
          declare_types-cases ds _ (d.ident.display_name ∷ types)
            (register_type-Outside d.ident t1 types (next calm))))

  root-accepted :
      (tree : Ast) (decls : List TypeDecl) (t : Transformer) (types exts : List Text)
      → Outside types t
      → accepted (transform_root decimal tree decls (record t { externals = exts }))
        ≡ scoped exts types tree.root []
  unfolding flat
  root-accepted tree decls t types exts o =
      let (f, at, shown) = o.declared in
      let (verdict, scope, ts, kept) =
        transform-scoped decimal tree.root (record t { externals = exts }) o.calm in
      accepted_unless (transform decimal tree.root (record t { externals = exts })).1.err _
      ∙ (verdict ∙ rw (shown, o.outermost) refl)

  types-accepted :
      (env : List (Text × Text)) (tree : Ast) (r : AlphaError ⊎ (List TypeDecl × Transformer))
      (ok : Bool)
      → Declared tree.type_decls [] r ok
      → accepted (with_types decimal env tree r) ≡ (
          ok
          && (externals_differ (second_of env) tree.externals
              && scoped
                  (externals_after (first_of env) tree.externals)
                  (types_after [] tree.type_decls)
                  tree.root
                  []))
  types-accepted env tree r ok (inl (why, e, k)) = rw (e, k) refl
  types-accepted env tree r ok (inr (ds, t, e, k, o)) =
      elim (declare-cases tree.externals (first_of env) (second_of env)) [
        | inl (why, stops, differ) ↦ rw (e, k, stops, differ) refl
        | inr (all, differ) ↦ rw (e, k, all, differ) (root-accepted tree ds t _ _ o)
      ]

  -- AlphaTransform accepts a program exactly if each type names types that are declared before it
  -- and is not called like a built-in one, no external is `_` and no two share a name in C, and the
  -- tree is scoped: each variable is in scope or an external, each type built in or declared, and
  -- no two parameters of a function or names of a tuple are displayed alike, but for ignored ones
  -- (`_` and what the parser calls `$unused`).
  pub alpha_transform-accepts :
      (env : List (Text × Text)) (tree : Ast)
      → accepted (alpha_transform decimal env tree) ≡ program_scoped env tree
  unfolding alpha_transform program_scoped flat
  alpha_transform-accepts env tree = types-accepted env tree _ _ (
      declare_types-cases tree.type_decls new_transformer [] (record {
        calm = refl;
        no_externals = refl;
        outermost = refl;
        declared = ([], refl, refl);
      }))

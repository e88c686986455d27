-- ===== src/Sema/Alpha/Renames/Under.antt =====
-- sema/alpha_transform.go: what the transformation of a tree keeps, and a tree under a name.
use gocaml.Base.{ℕ, ◌≡◌, List, [], ◌∷◌, ◌++◌, Text}
use gocaml.Ast.{Symbol, Expr, Exprs, MaybeExpr}
use gocaml.Sema.Scope.{Scope}
use gocaml.Sema.Alpha.{Transformer, nest, pop, register, register_all}
use gocaml.Sema.Alpha.Transform.{transform, transform_all, transform_maybe}
use gocaml.Sema.Alpha.Stack.{flat, displays, names}
use gocaml.Sema.Alpha.Numbered.{Fits-first}
use gocaml.Sema.Alpha.Enter.{display, name, register-Enters, register_all-Enters}
use gocaml.Sema.Alpha.References.{
  push, push_all, references, references_all, references_maybe, Binder, Binders, symbol_names,
  binder_names, binder_names_all, binder_names_maybe, Parsed, ParsedAll, ParsedMaybe,
}
use gocaml.Sema.Alpha.Visited.{
  Visited, Ready, Ready-first, Ready-next, Visited-then, Ready-Bindings, Ready-Inside,
  Ready-entered, leave_scope,
}

module _ (decimal : ℕ → Text) (decimal_inj : (i j : ℕ) → decimal i ≡ decimal j → i ≡ j) where
  abbrev pub Renames : Expr → Type 0
  Renames e =
      (c : Scope) (t : Transformer)
      → Parsed e
      → Ready decimal decimal_inj c t (binder_names e)
      → (let r = transform decimal e t in
          Visited decimal decimal_inj c t r.1 (binder_names e) (binder_names r.0)
            (references display e (displays (flat c))) (references name r.0 (names (flat c))))

  abbrev pub RenamesAll : Exprs → Type 0
  RenamesAll xs =
      (c : Scope) (t : Transformer)
      → ParsedAll xs
      → Ready decimal decimal_inj c t (binder_names_all xs)
      → (let r = transform_all decimal xs t in
          Visited decimal decimal_inj c t r.1 (binder_names_all xs) (binder_names_all r.0)
            (references_all display xs (displays (flat c)))
            (references_all name r.0 (names (flat c))))

  abbrev pub RenamesMaybe : MaybeExpr → Type 0
  RenamesMaybe o =
      (c : Scope) (t : Transformer)
      → ParsedMaybe o
      → Ready decimal decimal_inj c t (binder_names_maybe o)
      → (let r = transform_maybe decimal o t in
          Visited decimal decimal_inj c t r.1 (binder_names_maybe o) (binder_names_maybe r.0)
            (references_maybe display o (displays (flat c)))
            (references_maybe name r.0 (names (flat c))))

  pub Renames-two :
      (a b : Expr)
      → Renames a
      → Renames b
      → (c : Scope) (t : Transformer) → Parsed a × Parsed b
      → Ready decimal decimal_inj c t (binder_names a ++ binder_names b)
      → (let ra = transform decimal a t in
          let rb = transform decimal b ra.1 in
          Visited decimal decimal_inj c t rb.1
            (binder_names a ++ binder_names b)
            (binder_names ra.0 ++ binder_names rb.0)
            (references display a (displays (flat c)) ++ references display b (displays (flat c)))
            (references name ra.0 (names (flat c)) ++ references name rb.0 (names (flat c))))
  Renames-two a b ra rb c t (pa, pb) r =
      let one = ra c t pa (Ready-first decimal decimal_inj (binder_names a) _ r) in
      Visited-then decimal decimal_inj one (rb c _ pb (Ready-next decimal decimal_inj _ r one))

  -- A name enters, and the tree under it is visited.
  pub Renames-under :
      (x : Symbol) (body : Expr)
      → Renames body
      → (c : Scope) (t : Transformer) → Binder x
      → Parsed body
      → Ready decimal decimal_inj c t (x.name ∷ binder_names body)
      → (let rx = register decimal x (nest t) in
          let rb = transform decimal body rx.1 in
          Visited decimal decimal_inj c t
            (pop rb.1)
            (x.name ∷ binder_names body)
            (rx.0.name ∷ binder_names rb.0)
            (references display body (push display x (displays (flat c))))
            (references name rb.0 (push name rx.0 (names (flat c)))))
  Renames-under x body rec c t px pbody r =
      let fits = r.fits in
      let enters =
        register-Enters decimal decimal_inj c (nest t) x px
          (Fits-first decimal (nest t) (x.name ∷ []) (binder_names body) fits)
          (Ready-Inside decimal decimal_inj r) (Ready-Bindings decimal decimal_inj r) in
      leave_scope decimal decimal_inj (references display body) (references name _) r.at enters
        (rec _ _ pbody (Ready-entered decimal decimal_inj (binder_names body) enters fits))

  -- The names of a tuple enter, and the tree under them is visited.
  pub Renames-under_all :
      (xs : List Symbol) (body : Expr)
      → Renames body
      → (c : Scope) (t : Transformer) → Binders xs
      → Parsed body
      → Ready decimal decimal_inj c t (symbol_names xs ++ binder_names body)
      → (let rx = register_all decimal xs (nest t) in
          let rb = transform decimal body rx.1 in
          Visited decimal decimal_inj c t
            (pop rb.1)
            (symbol_names xs ++ binder_names body)
            (symbol_names rx.0 ++ binder_names rb.0)
            (references display body (push_all display xs (displays (flat c))))
            (references name rb.0 (push_all name rx.0 (names (flat c)))))
  Renames-under_all xs body rec c t pxs pbody r =
      let fits = r.fits in
      let enters =
        register_all-Enters decimal decimal_inj c xs (nest t) pxs
          (Fits-first decimal (nest t) (symbol_names xs) (binder_names body) fits)
          (Ready-Inside decimal decimal_inj r) (Ready-Bindings decimal decimal_inj r) in
      leave_scope decimal decimal_inj (references display body) (references name _) r.at enters
        (rec _ _ pbody (Ready-entered decimal decimal_inj (binder_names body) enters fits))

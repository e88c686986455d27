-- ===== src/Sema/Alpha/Renames/Fun.antt =====
-- sema/alpha_transform.go: the parameters of a function, and a function, are transformed.
use gocaml.Base.{ℕ, ◌≡◌, refl, sym, ap, ap₂, ◌∙◌, none, [], ◌∷◌, ◌++◌, Text}
use gocaml.Token.{Token}
use gocaml.Ast.{Symbol, Expr, MaybeExpr, Params, let_rec, param}
use gocaml.Sema.Scope.{Scope}
use gocaml.Sema.Alpha.{Transformer, nest, pop, register}
use gocaml.Sema.Alpha.Transform.{transform, transform_maybe, transform_params}
use gocaml.Sema.Alpha.Stack.{flat, displays, names}
use gocaml.Sema.Alpha.Numbered.{Fits, Fits-first, Fits-next}
use gocaml.Sema.Alpha.Enter.{
  display, name, Inside, Bindings, Enters, register-Enters, Enters-append,
}
use gocaml.Sema.Alpha.References.{
  push_params, references, references_maybe, references_params, binder_names, binder_names_maybe,
  binder_names_params, Parsed, ParsedParams,
}
use gocaml.Sema.Alpha.Visited.{
  Visited, Ready, Ready-first, Ready-next, Visited-then, Ready-Bindings, Ready-Inside,
  Ready-entered, leave_scope, Enters-after, prepend_refs,
}
use gocaml.Sema.Alpha.Renames.Under.{Renames, RenamesMaybe}

module _ (decimal : ℕ → Text) (decimal_inj : (i j : ℕ) → decimal i ≡ decimal j → i ≡ j) where
  -- The parameters of a function enter one by one, each behind its type.
  abbrev pub RenamesParams : Params → Type 0
  RenamesParams ps =
      (p : Scope) (t : Transformer)
      → ParsedParams ps
      → Fits decimal t (binder_names_params ps)
      → Inside p t
      → Bindings decimal decimal_inj t
      → (let r = transform_params decimal ps t in
          Enters decimal decimal_inj p t r.1 (binder_names_params ps) (binder_names_params r.0)
            (push_params display ps) (push_params name r.0)
          × (r.1.err ≡ none
              → references_params display ps (displays (flat t.current))
                ≡ references_params name r.0 (names (flat t.current))))

  pub renames_param :
      (x : Symbol) (ty : MaybeExpr) (ps : Params)
      → RenamesMaybe decimal decimal_inj ty
      → RenamesParams ps
      → RenamesParams (param x ty ps)
  unfolding transform references binder_names Parsed
  renames_param x ty ps rty rps p t (px, pty, pps) fits inside b =
      let r : Ready decimal decimal_inj t.current t
          ((binder_names_maybe ty ++ x.name ∷ []) ++ binder_names_params ps) =
        record { at = refl; stacked = b; fits = fits } in
      let (ty', t1) = transform_maybe decimal ty t in
      let (x', t2) = register decimal x t1 in
      let ps' = (transform_params decimal ps t2).0 in
      let rx = Ready-first decimal decimal_inj (binder_names_maybe ty ++ x.name ∷ []) _ r in
      let v = rty t.current t pty (Ready-first decimal decimal_inj (binder_names_maybe ty) _ rx) in
      let r1 = Ready-next decimal decimal_inj _ rx v in
      let ex =
        register-Enters decimal decimal_inj p t1 x px r1.fits (inside.0, v.back ∙ inside.1)
          (rw (r1.at) (r1.stacked)) in
      let ea = Enters-after decimal decimal_inj v ex in
      let er = rps p t2 pps (Fits-next decimal _ ea.counts fits) ea.inside ea.bindings in
      (
        Enters-append decimal decimal_inj ea er.0,
        λ e.
            ap₂ (λ k l. k ++ l) (v.same (ex.counts.calm (er.0.counts.calm e)))
              (ap (references_params display ps) (sym ea.shown)
                ∙ er.1 e
                ∙ ap (references_params name ps') ea.made),
      )

  -- A function and the tree that it is defined for.
  pub Renames-fun :
      (f : Symbol) (ps : Params) (ret : MaybeExpr) (body rest : Expr)
      → RenamesParams ps
      → RenamesMaybe decimal decimal_inj ret
      → Renames decimal decimal_inj body
      → Renames decimal decimal_inj rest
      → (tok : Token) (c : Scope) (t : Transformer) → Parsed (let_rec tok f ps ret body rest)
      → Ready decimal decimal_inj c t (binder_names (let_rec tok f ps ret body rest))
      → (let rf = register decimal f (nest t) in
          let rp = transform_params decimal ps (nest rf.1) in
          let rr = transform_maybe decimal ret rp.1 in
          let rb = transform decimal body rr.1 in
          let rest' = transform decimal rest (pop rb.1) in
          Visited decimal decimal_inj c t
            (pop rest'.1)
            (binder_names (let_rec tok f ps ret body rest))
            (binder_names (let_rec tok rf.0 rp.0 rr.0 rb.0 rest'.0))
            (references display (let_rec tok f ps ret body rest) (displays (flat c)))
            (references name (let_rec tok rf.0 rp.0 rr.0 rb.0 rest'.0) (names (flat c))))
  unfolding references binder_names Parsed flat
  Renames-fun f ps ret body rest rps rret rbody rrest tok c t (pf, pps, pret, pbody, prest) r =
      let (f', t1) = register decimal f (nest t) in
      let (ps', t2) = transform_params decimal ps (nest t1) in
      let (ret', t3) = transform_maybe decimal ret t2 in
      let (body', t4) = transform decimal body t3 in
      let rest' = (transform decimal rest (pop t4)).0 in
      let ef =
        register-Enters decimal decimal_inj c (nest t) f pf
          (Fits-first decimal (nest t) (f.name ∷ []) _ r.fits) (Ready-Inside decimal decimal_inj r)
          (Ready-Bindings decimal decimal_inj r) in
      let r1 = Ready-entered decimal decimal_inj _ ef r.fits in
      let ri =
        Ready-first decimal decimal_inj
          (binder_names_params ps ++ (binder_names_maybe ret ++ binder_names body)) _ r1 in
      let (ep, same) =
        rps t1.current (nest t1) pps
          (Fits-first decimal (nest t1) (binder_names_params ps) _ ri.fits)
          (Ready-Inside decimal decimal_inj ri) (Ready-Bindings decimal decimal_inj ri) in
      let r2 =
        Ready-entered decimal decimal_inj (binder_names_maybe ret ++ binder_names body) ep
          ri.fits in
      let vr =
        rret t2.current t2 pret (Ready-first decimal decimal_inj (binder_names_maybe ret) _ r2) in
      let vb = rbody t2.current t3 pbody (Ready-next decimal decimal_inj _ r2 vr) in
      let inner =
        prepend_refs decimal decimal_inj (λ e. same (vr.counts.calm (vb.counts.calm e)))
          (leave_scope decimal decimal_inj
            (λ st. references_maybe display ret st ++ references display body st)
            (λ st. references_maybe name ret' st ++ references name body' st) refl ep
            (Visited-then decimal decimal_inj vr vb)) in
      let vrest = rrest t1.current (pop t4) prest (Ready-next decimal decimal_inj _ r1 inner) in
      leave_scope decimal decimal_inj
        (λ st.
          (references_params display ps st
            ++ (references_maybe display ret (push_params display ps st)
                ++ references display body (push_params display ps st)))
          ++ references display rest st)
        (λ st.
          (references_params name ps' st
            ++ (references_maybe name ret' (push_params name ps' st)
                ++ references name body' (push_params name ps' st)))
          ++ references name rest' st)
        r.at ef (Visited-then decimal decimal_inj inner vrest)

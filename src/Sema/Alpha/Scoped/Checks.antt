-- ===== src/Sema/Alpha/Scoped/Checks.antt =====
-- sema/alpha_transform.go: the transformation reports an error just where a tree is not scoped.
use gocaml.Base.{ℕ, ◌≡◌, inl, inr, refl, sym, ap, ◌∙◌, true, false, none, Option-cases, [], Text}
use gocaml.Ast.{
  Expr, Exprs, MaybeExpr, Params, unit_lit, bool_lit, int_lit, float_lit, string_lit, unary, binary,
  if_expr, let_expr, var_ref, let_rec, apply, tuple, let_tuple, array_make, array_size, array_get,
  array_put, match_expr, some_expr, none_expr, array_lit, func_type, tuple_type, ctor_type, typed,
  type_decl, external_decl, nil, cons, absent, present, no_params, param,
}
use gocaml.Sema.Scope.{Scope}
use gocaml.Sema.Alpha.{Transformer, duplicate_symbol, param_symbols, nest}
use gocaml.Sema.Alpha.Transform.{transform, transform_all, transform_maybe, transform_params}
use gocaml.Sema.Alpha.Stack.{flat, displays}
use gocaml.Sema.Alpha.Enter.{display, Inside}
use gocaml.Sema.Alpha.References.{push_params}
use gocaml.Sema.Alpha.Scoped.{scoped, scoped_all, scoped_maybe, scoped_params, all_differ}
use gocaml.Sema.Alpha.Scoped.Judged.{
  is_none, Judged, Judged-none, Judged-then, Judged-as, Judged-fail, duplicate_symbol-is,
  refer-Judged,
}
use gocaml.Sema.Alpha.Scoped.Opened.{
  Opened, Opened-none, Opened-then, Opened-after, Opened-register, Opened-register_all,
  Judged-under, refer_ctor_judged,
}

module _ (decimal : ℕ → Text) where
  mutual
    unfolding transform scoped

    judged :
        (e : Expr) (t : Transformer)
        → Judged t (transform decimal e t).1 (λ exts types st. scoped exts types e st)
    judged (let_expr tok x ty bound body) t = Judged-then (judged bound t) (
        Judged-then (Judged-maybe ty _)
          (Judged-under (Opened-register decimal _ _ x ([], refl)) (judged body _)))
    judged (let_rec tok f ps ret body rest) t =
        elim (Option-cases (duplicate_symbol (param_symbols ps))) [
          | inl e ↦
              let outer = Opened-register decimal t.current (nest t) f ([], refl) in
              let inner = judged_params ps _ _ ([], refl) in
              let differ : all_differ (param_symbols ps) ≡ true =
                sym (duplicate_symbol-is (param_symbols ps)) ∙ ap is_none e in
              rw (e, differ)
                (Judged-under outer (
                  Judged-then
                    (Judged-under inner (Judged-then (Judged-maybe ret _) (judged body _)))
                    (judged rest _)))
          | inr (x, e) ↦
              let differ : all_differ (param_symbols ps) ≡ false =
                sym (duplicate_symbol-is (param_symbols ps)) ∙ ap is_none e in
              rw (e, differ) (Judged-fail t _ _ refl)
        ]
    judged (let_tuple tok xs ty bound body) t = elim (Option-cases (duplicate_symbol xs)) [
      | inl e ↦
          let differ : all_differ xs ≡ true = sym (duplicate_symbol-is xs) ∙ ap is_none e in
          rw (e, differ)
            (Judged-then (Judged-maybe ty t) (
              Judged-then (judged bound _)
                (Judged-under (Opened-register_all decimal _ xs _ ([], refl)) (judged body _))))
      | inr (x, e) ↦
          let differ : all_differ xs ≡ false = sym (duplicate_symbol-is xs) ∙ ap is_none e in
          rw (e, differ)
            (Judged-then (Judged-maybe ty t)
              (Judged-then (judged bound _) (Judged-fail _ _ _ refl)))
    ]
    judged (match_expr tok e x a b last) t = Judged-then (judged e t) (
        Judged-then (Judged-under (Opened-register decimal _ _ x ([], refl)) (judged a _))
          (judged b _))
    judged (var_ref tok x) t = refer-Judged x t
    judged (ctor_type first last ps c) t = elim (refer_ctor_judged c t) [
      | inl (ok, (seen, same)) ↦ rw (seen, same) (Judged-as (rw ok refl) (Judged-all ps t))
      | inr (ok, (why, unseen, failing)) ↦ rw (unseen, failing) (Judged-fail t why _ (rw ok refl))
    ]
    judged (unit_lit l s) t = Judged-none t
    judged (bool_lit tok b) t = Judged-none t
    judged (int_lit tok i) t = Judged-none t
    judged (float_lit tok x) t = Judged-none t
    judged (string_lit tok s) t = Judged-none t
    judged (none_expr tok) t = Judged-none t
    judged (unary op tok e) t = judged e t
    judged (binary op a b) t = Judged-then (judged a t) (judged b _)
    judged (if_expr tok a b d) t = Judged-then (judged a t) (Judged-then (judged b _) (judged d _))
    judged (apply f xs) t = Judged-then (judged f t) (Judged-all xs _)
    judged (tuple xs) t = Judged-all xs t
    judged (array_make tok n x) t = Judged-then (judged n t) (judged x _)
    judged (array_size tok x) t = judged x t
    judged (array_get a i) t = Judged-then (judged a t) (judged i _)
    judged (array_put a i x) t = Judged-then (judged a t) (Judged-then (judged i _) (judged x _))
    judged (some_expr tok e) t = judged e t
    judged (array_lit l s xs) t = Judged-all xs t
    judged (func_type ps ret) t = Judged-then (Judged-all ps t) (judged ret _)
    judged (tuple_type xs) t = Judged-all xs t
    judged (typed e ty) t = Judged-then (judged e t) (judged ty _)
    judged (type_decl tok x ty) t = judged ty t
    judged (external_decl first last x ty c) t = judged ty t

    Judged-all :
        (xs : Exprs) (t : Transformer)
        → Judged t (transform_all decimal xs t).1 (λ exts types st. scoped_all exts types xs st)
    Judged-all nil t = Judged-none t
    Judged-all (cons x xs) t = Judged-then (judged x t) (Judged-all xs _)

    Judged-maybe :
        (o : MaybeExpr) (t : Transformer)
        → Judged t (transform_maybe decimal o t).1 (λ exts types st. scoped_maybe exts types o st)
    Judged-maybe absent t = Judged-none t
    Judged-maybe (present e) t = judged e t

    judged_params :
        (ps : Params) (p : Scope) (t : Transformer)
        → Inside p t
        → Opened p t
            (transform_params decimal ps t).1
            (λ exts types st. scoped_params exts types ps st)
            (push_params display ps)
    judged_params no_params p t inside = Opened-none p t inside
    judged_params (param x ty ps) p t inside =
        let v = Judged-maybe ty t in
        let one = Opened-register decimal p _ x (inside.0, v.scope ∙ inside.1) in
        Opened-after v (Opened-then one (judged_params ps p _ one.inside))

  -- The visit of a tree, from a state without an error, reports none exactly if the tree is scoped:
  -- each variable is in scope or an external, and none is `_`, each type is built in or declared,
  -- and no two parameters of a function or names of a tuple are displayed alike. It leaves the
  -- scopes as they were.
  pub transform-scoped :
      (e : Expr) (t : Transformer)
      → t.err ≡ none
      → (let t' = (transform decimal e t).1 in
          (is_none t'.err
            ≡ scoped t.externals (displays (flat t.type_scope)) e (displays (flat t.current)))
          × (t'.current ≡ t.current)
          × (t'.type_scope ≡ t.type_scope)
          × (t'.externals ≡ t.externals))
  transform-scoped e t calm =
      let v = judged e t in (v.verdict ∙ rw calm refl, v.scope, v.kept.0, v.kept.1)

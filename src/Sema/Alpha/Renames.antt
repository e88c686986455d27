-- ===== src/Sema/Alpha/Renames.antt =====
-- sema/alpha_transform.go: the transformation of a tree keeps what each reference leads to.
pub mod Leaves
pub mod Under
pub mod Fun
use gocaml.Base.{
  ℕ, suc, ◌+◌, ◌≤◌, ◌<◌, ◌≡◌, ◌⊎◌, inl, inr, refl, sym, ap, ap₂, ◌∙◌, Bool, true, false, Bool-cases,
  Option, none, some, List, [], ◌∷◌, ◌++◌, Text, if◌then◌else◌, arith, text_eq, codes, Option-cases,
}
use gocaml.Token.{Token}
use gocaml.Ast.{
  Symbol, Expr, Exprs, MaybeExpr, Params, unit_lit, bool_lit, int_lit, float_lit, string_lit, unary,
  binary, if_expr, let_expr, var_ref, let_rec, apply, tuple, let_tuple, array_make, array_size,
  array_get, array_put, match_expr, some_expr, none_expr, array_lit, func_type, tuple_type,
  ctor_type, typed, type_decl, external_decl, nil, cons, absent, present, no_params, param,
}
use gocaml.Sema.Scope.{Scope, find_var, resolve}
use gocaml.Sema.Alpha.{
  AlphaError, Transformer, nest, pop, register, register_all, refer, refer_ctor, fail,
  duplicate_symbol, param_symbols, referred, ctor_mapped, text_in, is_builtin_type_ctor,
}
use gocaml.Sema.Alpha.Transform.{transform, transform_all, transform_maybe, transform_params}
use gocaml.Sema.Alpha.Stack.{
  Ref, ref_of, flat, displays, names, resolve-flat, ref_of-found, ref_of-free,
}
use gocaml.Sema.Alpha.Numbered.{Fits, Fits-first, Fits-next}
use gocaml.Sema.Alpha.Enter.{
  display, name, Inside, Bindings, Enters, register-Enters, register_all-Enters, Enters-none,
  Enters-append,
}
use gocaml.Sema.Alpha.References.{
  push, push_all, push_params, references, references_all, references_maybe, references_params,
  Binder, Binders, Plain, symbol_names, binder_names, binder_names_all, binder_names_maybe,
  binder_names_params, Parsed, ParsedAll, ParsedMaybe, ParsedParams,
}
use gocaml.Sema.Alpha.Visited.{
  Visited, Ready, Visited-none, Ready-first, Ready-next, Visited-then, Ready-Bindings, Ready-Inside,
  Ready-entered, leave_scope, Enters-after, recast, failed, prepend_refs,
}
use gocaml.Sema.Alpha.Renames.Under.{
  Renames, RenamesAll, RenamesMaybe, Renames-two, Renames-under, Renames-under_all,
}
use gocaml.Sema.Alpha.Renames.Leaves.{refer_renames, refer_ctor-cases}
use gocaml.Sema.Alpha.Renames.Fun.{RenamesParams, Renames-fun, renames_param}

module _ (decimal : ℕ → Text) (decimal_inj : (i j : ℕ) → decimal i ≡ decimal j → i ≡ j) where
  mutual
    unfolding transform references binder_names Parsed

    pub renames : (e : Expr) → Renames decimal decimal_inj e
    renames (let_expr tok x ty bound body) c t (px, pty, pbound, pbody) r =
        let one =
          renames bound c t pbound (Ready-first decimal decimal_inj (binder_names bound) _ r) in
        let r1 = Ready-next decimal decimal_inj _ r one in
        let two =
          renames_maybe ty c _ pty (Ready-first decimal decimal_inj (binder_names_maybe ty) _ r1) in
        Visited-then decimal decimal_inj one (
          Visited-then decimal decimal_inj two (
            Renames-under decimal decimal_inj x body (renames body) c _ px pbody
              (Ready-next decimal decimal_inj _ r1 two)))
    renames (let_rec tok f ps ret body rest) c t p r =
        elim (Option-cases (duplicate_symbol (param_symbols ps))) [
          | inl e ↦ rw e (
              Renames-fun decimal decimal_inj f ps ret body rest (renames_params ps)
                (renames_maybe ret) (renames body) (renames rest) tok c t p r)
          | inr (x, e) ↦ rw e (
              failed decimal decimal_inj {k = []} {k' = []} _ _ _ _ _ (
                Visited-none decimal decimal_inj {led = []}
                  (Ready-first decimal decimal_inj [] _ r)))
        ]
    renames (let_tuple tok xs ty bound body) c t (px, pty, pbound, pbody) r =
        let one =
          renames_maybe ty c t pty (Ready-first decimal decimal_inj (binder_names_maybe ty) _ r) in
        let r1 = Ready-next decimal decimal_inj _ r one in
        let two =
          renames bound c _ pbound (Ready-first decimal decimal_inj (binder_names bound) _ r1) in
        elim (Option-cases (duplicate_symbol xs)) [
          | inl e ↦ rw e (
              Visited-then decimal decimal_inj one (
                Visited-then decimal decimal_inj two (
                  Renames-under_all decimal decimal_inj xs body (renames body) c _ px pbody
                    (Ready-next decimal decimal_inj _ r1 two))))
          | inr (x, e) ↦
              rw e (Visited-then decimal decimal_inj one (failed decimal decimal_inj _ _ _ _ _ two))
        ]
    renames (match_expr tok e x a b last) c t (px, pe, pa, pb) r =
        let one = renames e c t pe (Ready-first decimal decimal_inj (binder_names e) _ r) in
        let r1 = Ready-next decimal decimal_inj _ r one in
        let two =
          Renames-under decimal decimal_inj x a (renames a) c _ px pa
            (Ready-first decimal decimal_inj (x.name ∷ binder_names a) (binder_names b) r1) in
        Visited-then decimal decimal_inj one (
          Visited-then decimal decimal_inj two
            (renames b c _ pb (Ready-next decimal decimal_inj _ r1 two)))
    renames (var_ref tok x) c t p r = refer_renames decimal decimal_inj x c t p r
    renames (ctor_type first last ps co) c t p r =
        elim (refer_ctor-cases decimal decimal_inj co t) [
          | inl (seen, same) ↦ rw (seen, same) (renames_all ps c t p r)
          | inr (why, unseen, failing) ↦
              rw (unseen, failing)
                (failed decimal decimal_inj {k = []} {k' = []} _ _ _ _ _ (
                  Visited-none decimal decimal_inj {led = []}
                    (Ready-first decimal decimal_inj [] _ r)))
        ]
    renames (unit_lit l s) c t p r = Visited-none decimal decimal_inj r
    renames (bool_lit tok b) c t p r = Visited-none decimal decimal_inj r
    renames (int_lit tok i) c t p r = Visited-none decimal decimal_inj r
    renames (float_lit tok x) c t p r = Visited-none decimal decimal_inj r
    renames (string_lit tok s) c t p r = Visited-none decimal decimal_inj r
    renames (none_expr tok) c t p r = Visited-none decimal decimal_inj r
    renames (unary op tok e) c t p r = renames e c t p r
    renames (binary op a b) c t p r =
        Renames-two decimal decimal_inj a b (renames a) (renames b) c t p r
    renames (if_expr tok a b d) c t (pa, pb, pd) r =
        let one = renames a c t pa (Ready-first decimal decimal_inj (binder_names a) _ r) in
        Visited-then decimal decimal_inj one (
          Renames-two decimal decimal_inj b d (renames b) (renames d) c _ (pb, pd)
            (Ready-next decimal decimal_inj _ r one))
    renames (apply f xs) c t (pf, pxs) r =
        let one = renames f c t pf (Ready-first decimal decimal_inj (binder_names f) _ r) in
        Visited-then decimal decimal_inj one
          (renames_all xs c _ pxs (Ready-next decimal decimal_inj _ r one))
    renames (tuple xs) c t p r = renames_all xs c t p r
    renames (array_make tok n x) c t p r =
        Renames-two decimal decimal_inj n x (renames n) (renames x) c t p r
    renames (array_size tok x) c t p r = renames x c t p r
    renames (array_get a i) c t p r =
        Renames-two decimal decimal_inj a i (renames a) (renames i) c t p r
    renames (array_put a b d) c t (pa, pb, pd) r =
        let one = renames a c t pa (Ready-first decimal decimal_inj (binder_names a) _ r) in
        Visited-then decimal decimal_inj one (
          Renames-two decimal decimal_inj b d (renames b) (renames d) c _ (pb, pd)
            (Ready-next decimal decimal_inj _ r one))
    renames (some_expr tok e) c t p r = renames e c t p r
    renames (array_lit l s xs) c t p r = renames_all xs c t p r
    renames (func_type ps ret) c t (pps, pret) r =
        let one =
          renames_all ps c t pps (Ready-first decimal decimal_inj (binder_names_all ps) _ r) in
        Visited-then decimal decimal_inj one
          (renames ret c _ pret (Ready-next decimal decimal_inj _ r one))
    renames (tuple_type xs) c t p r = renames_all xs c t p r
    renames (typed e ty) c t p r =
        Renames-two decimal decimal_inj e ty (renames e) (renames ty) c t p r
    renames (type_decl tok x ty) c t p r = renames ty c t p r
    renames (external_decl first last x ty co) c t p r = renames ty c t p r

    renames_all : (xs : Exprs) → RenamesAll decimal decimal_inj xs
    renames_all nil c t p r = Visited-none decimal decimal_inj r
    renames_all (cons x xs) c t (px, pxs) r =
        let one = renames x c t px (Ready-first decimal decimal_inj (binder_names x) _ r) in
        Visited-then decimal decimal_inj one
          (renames_all xs c _ pxs (Ready-next decimal decimal_inj _ r one))

    renames_maybe : (o : MaybeExpr) → RenamesMaybe decimal decimal_inj o
    renames_maybe absent c t p r = Visited-none decimal decimal_inj r
    renames_maybe (present e) c t p r = renames e c t p r

    renames_params : (ps : Params) → RenamesParams decimal decimal_inj ps
    renames_params no_params p t ps fits inside b =
        (Enters-none decimal decimal_inj p t inside b, λ e. refl)
    renames_params (param x ty ps) p t pp fits inside b =
        renames_param decimal decimal_inj x ty ps (renames_maybe ty) (renames_params ps) p t pp fits
          inside b

-- ===== src/Sema/Alpha/Transform.antt =====
-- sema/alpha_transform.go: the visit of a tree, `VisitTopdown` inside `ast.Visit`, and
-- `AlphaTransform`.
use gocaml.Base.{ℕ, Option, none, some, Text, if◌then◌else◌}
use gocaml.Ast.{
  Symbol, Expr, Exprs, MaybeExpr, Params, unit_lit, bool_lit, int_lit, float_lit, string_lit, unary,
  binary, if_expr, let_expr, var_ref, let_rec, apply, tuple, let_tuple, array_make, array_size,
  array_get, array_put, match_expr, some_expr, none_expr, array_lit, func_type, tuple_type,
  ctor_type, typed, type_decl, external_decl, nil, cons, absent, present, no_params, param,
}
use gocaml.Sema.Alpha.{
  Transformer, duplicate, duplicate_symbol, param_symbols, fail, nest, pop, register, register_all,
  refer, refer_ctor,
}

module _ (decimal : ℕ → Text) where
  -- Where duplicate names stop the visit of a node.
  abbrev pub unless_duplicate {ℓ} :
      {A : Type ℓ}
      → Option Symbol
      → A
      → (Transformer → A × Transformer)
      → Transformer
      → A × Transformer
  unless_duplicate none a go t = go t
  unless_duplicate (some s) a go t = (a, fail (duplicate s.display_name) t)

  unfoldable mutual
    pub transform : Expr → Transformer → Expr × Transformer
    transform (let_expr tok x ty bound body) t =
        let (bound', t1) = transform bound t in
        let (ty', t2) = transform_maybe ty t1 in
        let (x', t3) = register decimal x (nest t2) in
        let (body', t4) = transform body t3 in (let_expr tok x' ty' bound' body', pop t4)
    transform (let_rec tok f ps ret body rest) t =
        unless_duplicate (duplicate_symbol (param_symbols ps)) (let_rec tok f ps ret body rest)
          (λ s.
            let (f', t1) = register decimal f (nest s) in
            let (ps', t2) = transform_params ps (nest t1) in
            let (ret', t3) = transform_maybe ret t2 in
            let (body', t4) = transform body t3 in
            let (rest', t5) = transform rest (pop t4) in
            (let_rec tok f' ps' ret' body' rest', pop t5))
          t
    transform (let_tuple tok xs ty bound body) t =
        let (ty', t1) = transform_maybe ty t in
        let (bound', t2) = transform bound t1 in
        unless_duplicate (duplicate_symbol xs) (let_tuple tok xs ty' bound' body)
          (λ s.
            let (xs', t3) = register_all decimal xs (nest s) in
            let (body', t4) = transform body t3 in (let_tuple tok xs' ty' bound' body', pop t4))
          t2
    transform (match_expr tok e x a b last) t =
        let (e', t1) = transform e t in
        let (x', t2) = register decimal x (nest t1) in
        let (a', t3) = transform a t2 in
        let (b', t4) = transform b (pop t3) in (match_expr tok e' x' a' b' last, t4)
    transform (var_ref tok x) t = let (x', t1) = refer x t in (var_ref tok x', t1)
    transform (ctor_type first last ps c) t =
        let (visited, (c', t1)) = refer_ctor c t in
        let (ps', t2) = transform_all ps t1 in
        if visited then (ctor_type first last ps' c', t2) else (ctor_type first last ps c', t1)
    transform (unit_lit l r) t = (unit_lit l r, t)
    transform (bool_lit tok b) t = (bool_lit tok b, t)
    transform (int_lit tok i) t = (int_lit tok i, t)
    transform (float_lit tok x) t = (float_lit tok x, t)
    transform (string_lit tok s) t = (string_lit tok s, t)
    transform (none_expr tok) t = (none_expr tok, t)
    transform (unary op tok e) t = let (e', t1) = transform e t in (unary op tok e', t1)
    transform (binary op l r) t =
        let (l', t1) = transform l t in let (r', t2) = transform r t1 in (binary op l' r', t2)
    transform (if_expr tok c a b) t =
        let (c', t1) = transform c t in
        let (a', t2) = transform a t1 in let (b', t3) = transform b t2 in (if_expr tok c' a' b', t3)
    transform (apply f xs) t =
        let (f', t1) = transform f t in let (xs', t2) = transform_all xs t1 in (apply f' xs', t2)
    transform (tuple xs) t = let (xs', t1) = transform_all xs t in (tuple xs', t1)
    transform (array_make tok n x) t =
        let (n', t1) = transform n t in let (x', t2) = transform x t1 in (array_make tok n' x', t2)
    transform (array_size tok x) t = let (x', t1) = transform x t in (array_size tok x', t1)
    transform (array_get a i) t =
        let (a', t1) = transform a t in let (i', t2) = transform i t1 in (array_get a' i', t2)
    transform (array_put a i x) t =
        let (a', t1) = transform a t in
        let (i', t2) = transform i t1 in let (x', t3) = transform x t2 in (array_put a' i' x', t3)
    transform (some_expr tok e) t = let (e', t1) = transform e t in (some_expr tok e', t1)
    transform (array_lit l r xs) t = let (xs', t1) = transform_all xs t in (array_lit l r xs', t1)
    transform (func_type ps ret) t =
        let (ps', t1) = transform_all ps t in
        let (ret', t2) = transform ret t1 in (func_type ps' ret', t2)
    transform (tuple_type xs) t = let (xs', t1) = transform_all xs t in (tuple_type xs', t1)
    transform (typed e ty) t =
        let (e', t1) = transform e t in let (ty', t2) = transform ty t1 in (typed e' ty', t2)
    transform (type_decl tok x ty) t = let (ty', t1) = transform ty t in (type_decl tok x ty', t1)
    transform (external_decl first last x ty c) t =
        let (ty', t1) = transform ty t in (external_decl first last x ty' c, t1)

    pub transform_all : Exprs → Transformer → Exprs × Transformer
    transform_all nil t = (nil, t)
    transform_all (cons x xs) t =
        let (x', t1) = transform x t in let (xs', t2) = transform_all xs t1 in (cons x' xs', t2)

    pub transform_maybe : MaybeExpr → Transformer → MaybeExpr × Transformer
    transform_maybe absent t = (absent, t)
    transform_maybe (present e) t = let (e', t1) = transform e t in (present e', t1)

    -- The loop over the parameters of a `LetRec`: each one's type first, then its symbol.
    pub transform_params : Params → Transformer → Params × Transformer
    transform_params no_params t = (no_params, t)
    transform_params (param x ty ps) t =
        let (ty', t1) = transform_maybe ty t in
        let (x', t2) = register decimal x t1 in
        let (ps', t3) = transform_params ps t2 in (param x' ty' ps', t3)

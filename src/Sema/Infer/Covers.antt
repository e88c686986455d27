-- ===== src/Sema/Infer/Covers.antt =====
-- sema/infer.go: when inference succeeds, each node has a type and each binder is declared.
use gocaml.Base.{ℕ, ◌+◌, Option, List, [], ◌∷◌, ◌++◌, Text}
use gocaml.Types.{Ty, Tys, Store, int, float, string, array, tuple, option, fun, bool}
use gocaml.Types as Types
use gocaml.Ast.{
  Ast, Symbol, Expr, Exprs, MaybeExpr, Params, unit_lit, bool_lit, int_lit, float_lit, string_lit,
  unary, binary, if_expr, let_expr, var_ref, let_rec, apply, let_tuple, array_make, array_size,
  array_get, array_put, match_expr, some_expr, none_expr, array_lit, func_type, tuple_type,
  ctor_type, typed, type_decl, external_decl, nil, cons, absent, present, no_params, param,
}
use gocaml.Ast as Ast
use gocaml.Sema.NodeToType.{NodeTypeConv}
use gocaml.Sema.Infer.{
  M, declare, noted, new_type_var, operands, unify_types, convert, generalize_type, annotated,
  constrain, refer, infer_params, tuple_types, declare_elems, check_node_type, infer_node,
  infer_all, infer_others,
}
use gocaml.Sema.Infer.Items.{
  Adds, Item, bind-Adds, declare-Adds, declare_again, inner, inner_all, last-Adds, name, names_of,
  names_of_params, new_type_var-Adds, node, noted-Adds, panics-Adds, pure-Adds,
}
use gocaml.Sema.Infer.Steps.{
  unify_types-Adds, convert-Adds, generalize_type-Adds, annotated-Adds, constrain-Adds, refer-Adds,
  infer_params-Adds, tuple_types-Adds, declare_elems-Adds, check_node_type-Adds, then_unify,
  infer_binary-Adds,
}

module _ (fuel : ℕ) (conv : NodeTypeConv) (externals : Text → Option Ty) where
  abbrev node_of : Expr → ℕ → M Ty
  node_of e level = noted e (infer_node fuel conv externals e level)

  abbrev items : Expr → List Item
  items e = inner e ++ node e ∷ []

  looked_up :
      (n : Expr) (x : Text) (level : ℕ)
      → Adds (λ s. refer fuel conv externals n (s.decl_table x) (externals x) level s) []
  unfolding Adds
  looked_up n x level s b s' e =
      refer-Adds fuel conv externals n (s.decl_table x) (externals x) level s b s' e

  mutual
    unfolding infer_node inner

    infer_node-Adds :
        (e : Expr) (level : ℕ) → Adds (infer_node fuel conv externals e level) (inner e)
    infer_node-Adds (unit_lit l r) level = pure-Adds _
    infer_node-Adds (int_lit tok i) level = pure-Adds _
    infer_node-Adds (float_lit tok x) level = pure-Adds _
    infer_node-Adds (string_lit tok t) level = pure-Adds _
    infer_node-Adds (bool_lit tok b) level = pure-Adds _
    infer_node-Adds (unary op tok e) level =
        last-Adds (check_node_type fuel conv externals (node_of e level) _) _ (items e)
          (check_node_type-Adds fuel conv externals (node_of e level) _ (items e) (
            noted-Adds e (infer_node fuel conv externals e level) (inner e)
              (infer_node-Adds e level)))
          (λ u. pure-Adds _)
    infer_node-Adds (binary op l r) level =
        infer_binary-Adds fuel conv externals (operands op) (node_of l level) (node_of r level)
          (items l) (items r)
          (noted-Adds l (infer_node fuel conv externals l level) (inner l)
            (infer_node-Adds l level))
          (noted-Adds r (infer_node fuel conv externals r level) (inner r)
            (infer_node-Adds r level))
    infer_node-Adds (if_expr tok c a b) level =
        bind-Adds (check_node_type fuel conv externals (node_of c level) bool) _ (items c)
          (items a ++ items b)
          (check_node_type-Adds fuel conv externals (node_of c level) bool (items c) (
            noted-Adds c (infer_node fuel conv externals c level) (inner c)
              (infer_node-Adds c level)))
          (λ u.
            bind-Adds (node_of a level) _ (items a) (items b)
              (noted-Adds a (infer_node fuel conv externals a level) (inner a)
                (infer_node-Adds a level))
              (λ t.
                last-Adds (node_of b level) _ (items b)
                  (noted-Adds b (infer_node fuel conv externals b level) (inner b)
                    (infer_node-Adds b level))
                  (λ e. then_unify fuel conv externals t e t)))
    infer_node-Adds (let_expr tok x ty bound body) level =
        bind-Adds (node_of bound (level + 1)) _ (items bound) (name x.name ∷ items body)
          (noted-Adds bound (infer_node fuel conv externals bound (level + 1)) (inner bound)
            (infer_node-Adds bound (level + 1)))
          (λ b.
            bind-Adds (constrain fuel conv externals ty b level) _ [] (name x.name ∷ items body)
              (constrain-Adds fuel conv externals ty b level)
              (λ u.
                bind-Adds (generalize_type fuel conv externals b level) _ []
                  (name x.name ∷ items body) (generalize_type-Adds fuel conv externals b level)
                  (λ t.
                    bind-Adds (declare x.name t) _ (name x.name ∷ []) (items body)
                      (declare-Adds x.name t)
                      (λ v.
                        noted-Adds body (infer_node fuel conv externals body level) (inner body)
                          (infer_node-Adds body level)))))
    infer_node-Adds (var_ref tok x) level = looked_up (var_ref tok x) x.name level
    infer_node-Adds (let_rec tok f ps ret body rest) level =
        bind-Adds (infer_params fuel conv externals ps (level + 1)) _ (names_of_params ps)
          (name f.name ∷ (items body ++ items rest))
          (infer_params-Adds fuel conv externals ps (level + 1))
          (λ params.
            bind-Adds (annotated fuel conv externals ret (level + 1)) _ []
              (name f.name ∷ (items body ++ items rest))
              (annotated-Adds fuel conv externals ret (level + 1))
              (λ r.
                bind-Adds (declare f.name (fun r params)) _ (name f.name ∷ [])
                  (items body ++ items rest) (declare-Adds f.name (fun r params))
                  (λ u.
                    bind-Adds (node_of body (level + 1)) _ (items body) (items rest)
                      (noted-Adds body (infer_node fuel conv externals body (level + 1))
                        (inner body) (infer_node-Adds body (level + 1)))
                      (λ r2.
                        bind-Adds (unify_types fuel conv externals r2 r) _ [] (items rest)
                          (unify_types-Adds fuel conv externals r2 r)
                          (λ v.
                            bind-Adds (generalize_type fuel conv externals (fun r params) level) _
                              [] (items rest)
                              (generalize_type-Adds fuel conv externals (fun r params) level)
                              (λ t.
                                bind-Adds (declare f.name t) _ [] (items rest)
                                  (declare_again f.name t)
                                  (λ w.
                                    noted-Adds rest (infer_node fuel conv externals rest level)
                                      (inner rest) (infer_node-Adds rest level))))))))
    infer_node-Adds (apply f xs) level =
        bind-Adds (infer_all fuel conv externals xs level) _ (inner_all xs) (items f)
          (infer_all-Adds xs level)
          (λ ts. bind-Adds (new_type_var level) _ [] (items f) (new_type_var-Adds level) (λ ret.
            last-Adds (node_of f level) _ (items f)
              (noted-Adds f (infer_node fuel conv externals f level) (inner f)
                (infer_node-Adds f level))
              (λ c. then_unify fuel conv externals c (fun ret ts) ret)))
    infer_node-Adds (Ast.tuple xs) level =
        last-Adds (infer_all fuel conv externals xs level) _ (inner_all xs)
          (infer_all-Adds xs level) (λ ts. pure-Adds (tuple ts))
    infer_node-Adds (let_tuple tok xs ty bound body) level =
        bind-Adds (tuple_types fuel conv externals xs ty level) _ []
          (items bound ++ (names_of xs ++ items body))
          (tuple_types-Adds fuel conv externals xs ty level)
          (λ ts.
            bind-Adds (node_of bound (level + 1)) _ (items bound) (names_of xs ++ items body)
              (noted-Adds bound (infer_node fuel conv externals bound (level + 1)) (inner bound)
                (infer_node-Adds bound (level + 1)))
              (λ b.
                bind-Adds (declare_elems fuel conv externals xs ts level) _ (names_of xs)
                  (items body) (declare_elems-Adds fuel conv externals xs ts level)
                  (λ u.
                    bind-Adds (unify_types fuel conv externals (tuple ts) b) _ [] (items body)
                      (unify_types-Adds fuel conv externals (tuple ts) b)
                      (λ v.
                        noted-Adds body (infer_node fuel conv externals body level) (inner body)
                          (infer_node-Adds body level)))))
    infer_node-Adds (array_make tok n e) level =
        bind-Adds (check_node_type fuel conv externals (node_of n level) _) _ (items n) (items e)
          (check_node_type-Adds fuel conv externals (node_of n level) _ (items n) (
            noted-Adds n (infer_node fuel conv externals n level) (inner n)
              (infer_node-Adds n level)))
          (λ u.
            last-Adds (node_of e level) _ (items e)
              (noted-Adds e (infer_node fuel conv externals e level) (inner e)
                (infer_node-Adds e level))
              (λ t. pure-Adds (array t)))
    infer_node-Adds (array_size tok a) level =
        bind-Adds (new_type_var level) _ [] (items a) (new_type_var-Adds level) (λ t.
          last-Adds (check_node_type fuel conv externals (node_of a level) (array t)) _ (items a)
            (check_node_type-Adds fuel conv externals (node_of a level) (array t) (items a) (
              noted-Adds a (infer_node fuel conv externals a level) (inner a)
                (infer_node-Adds a level)))
            (λ u. pure-Adds int))
    infer_node-Adds (array_get a i) level =
        bind-Adds (new_type_var level) _ [] (items a ++ items i) (new_type_var-Adds level) (λ t.
          bind-Adds (check_node_type fuel conv externals (node_of a level) (array t)) _ (items a)
            (items i)
            (check_node_type-Adds fuel conv externals (node_of a level) (array t) (items a) (
              noted-Adds a (infer_node fuel conv externals a level) (inner a)
                (infer_node-Adds a level)))
            (λ u.
              last-Adds (check_node_type fuel conv externals (node_of i level) int) _ (items i)
                (check_node_type-Adds fuel conv externals (node_of i level) int (items i) (
                  noted-Adds i (infer_node fuel conv externals i level) (inner i)
                    (infer_node-Adds i level)))
                (λ v. pure-Adds t)))
    infer_node-Adds (array_put a i e) level =
        bind-Adds (check_node_type fuel conv externals (node_of i level) _) _ (items i)
          (items e ++ items a)
          (check_node_type-Adds fuel conv externals (node_of i level) _ (items i) (
            noted-Adds i (infer_node fuel conv externals i level) (inner i)
              (infer_node-Adds i level)))
          (λ u.
            bind-Adds (node_of e level) _ (items e) (items a)
              (noted-Adds e (infer_node fuel conv externals e level) (inner e)
                (infer_node-Adds e level))
              (λ t.
                last-Adds (check_node_type fuel conv externals (node_of a level) (array t)) _
                  (items a)
                  (check_node_type-Adds fuel conv externals (node_of a level) (array t) (items a) (
                    noted-Adds a (infer_node fuel conv externals a level) (inner a)
                      (infer_node-Adds a level)))
                  (λ v. pure-Adds _)))
    infer_node-Adds (array_lit l r nil) level =
        last-Adds (new_type_var level) _ [] (new_type_var-Adds level) (λ t. pure-Adds (array t))
    infer_node-Adds (array_lit l r (cons e es)) level =
        bind-Adds (node_of e level) _ (items e) (inner_all es)
          (noted-Adds e (infer_node fuel conv externals e level) (inner e)
            (infer_node-Adds e level))
          (λ t.
            last-Adds (infer_others fuel conv externals t es level) _ (inner_all es)
              (infer_others-Adds t es level) (λ u. pure-Adds (array t)))
    infer_node-Adds (some_expr tok e) level =
        last-Adds (node_of e level) _ (items e)
          (noted-Adds e (infer_node fuel conv externals e level) (inner e)
            (infer_node-Adds e level))
          (λ t. pure-Adds (option t))
    infer_node-Adds (none_expr tok) level =
        last-Adds (new_type_var level) _ [] (new_type_var-Adds level) (λ t. pure-Adds (option t))
    infer_node-Adds (match_expr tok e x a b last) level =
        bind-Adds (new_type_var level) _ [] (items e ++ (name x.name ∷ (items a ++ items b)))
          (new_type_var-Adds level)
          (λ t.
            bind-Adds (check_node_type fuel conv externals (node_of e level) (option t)) _ (items e)
              (name x.name ∷ (items a ++ items b))
              (check_node_type-Adds fuel conv externals (node_of e level) (option t) (items e) (
                noted-Adds e (infer_node fuel conv externals e level) (inner e)
                  (infer_node-Adds e level)))
              (λ u.
                bind-Adds (declare x.name t) _ (name x.name ∷ []) (items a ++ items b)
                  (declare-Adds x.name t)
                  (λ v.
                    bind-Adds (node_of a level) _ (items a) (items b)
                      (noted-Adds a (infer_node fuel conv externals a level) (inner a)
                        (infer_node-Adds a level))
                      (λ r.
                        last-Adds (node_of b level) _ (items b)
                          (noted-Adds b (infer_node fuel conv externals b level) (inner b)
                            (infer_node-Adds b level))
                          (λ q. then_unify fuel conv externals r q r)))))
    infer_node-Adds (typed e ty) level =
        last-Adds (node_of e level) _ (items e)
          (noted-Adds e (infer_node fuel conv externals e level) (inner e)
            (infer_node-Adds e level))
          (λ c.
            last-Adds (convert fuel conv externals ty level) _ []
              (convert-Adds fuel conv externals ty level)
              (λ t. then_unify fuel conv externals t c c))
    infer_node-Adds (func_type ps r) level = panics-Adds Ty []
    infer_node-Adds (tuple_type ts) level = panics-Adds Ty []
    infer_node-Adds (ctor_type l r ps c) level = panics-Adds Ty []
    infer_node-Adds (type_decl tok x ty) level = panics-Adds Ty []
    infer_node-Adds (external_decl l r x ty c) level = panics-Adds Ty []

    infer_all-Adds :
        (es : Exprs) (level : ℕ) → Adds (infer_all fuel conv externals es level) (inner_all es)
    infer_all-Adds nil level = pure-Adds Types.nil
    infer_all-Adds (cons e es) level =
        bind-Adds (node_of e level) _ (items e) (inner_all es)
          (noted-Adds e (infer_node fuel conv externals e level) (inner e)
            (infer_node-Adds e level))
          (λ t.
            last-Adds (infer_all fuel conv externals es level) _ (inner_all es)
              (infer_all-Adds es level) (λ ts. pure-Adds (Types.cons t ts)))

    infer_others-Adds :
        (t : Ty) (es : Exprs) (level : ℕ)
        → Adds (infer_others fuel conv externals t es level) (inner_all es)
    infer_others-Adds t nil level = pure-Adds tt
    infer_others-Adds t (cons e es) level =
        bind-Adds (node_of e level) _ (items e) (inner_all es)
          (noted-Adds e (infer_node fuel conv externals e level) (inner e)
            (infer_node-Adds e level))
          (λ u.
            bind-Adds (unify_types fuel conv externals t u) _ [] (inner_all es)
              (unify_types-Adds fuel conv externals t u) (λ v. infer_others-Adds t es level))

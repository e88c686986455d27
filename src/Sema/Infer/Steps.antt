-- ===== src/Sema/Infer/Steps.antt =====
-- sema/infer.go: what each step of inference makes hold.
use gocaml.Base.{
  refl, inl, inr, ℕ, ◌+◌, Bool-cases, Option, none, some, List, [], ◌∷◌, ◌++◌, Text, pos, ◌==◌,
  length,
}
use gocaml.Types.{Ty, Tys, Store, unit, int, float, string, array, tuple, option, fun, bool}
use gocaml.Types as Types
use gocaml.Ast.{Symbol, Expr, MaybeExpr, Params, absent, present, no_params, param}
use gocaml.Sema.Unify.{unify, length_tys}
use gocaml.Sema.Generic.{generalize, instantiate}
use gocaml.Sema.NodeToType.{NodeTypeConv, node_to_type}
use gocaml.Sema.Infer.{
  infers, M, ◌>>=◌, pure, declare, new_type_var, as_tuple, Operands, arithmetic, relational,
  logical, unify_types, convert, generalize_type, annotated, constrain, refer, infer_params,
  new_type_vars, tuple_of, tuple_types, declare_elems, check_node_type, infer_binary,
}
use gocaml.Sema.Infer.Items.{
  Adds, Item, bind-Adds, declare-Adds, from_converted-Adds, from_generalized-Adds,
  from_outcome-Adds, instantiated-Adds, kept-Adds, last-Adds, name, names_of, names_of_params,
  new_type_var-Adds, panics-Adds, pure-Adds,
}

module _ (fuel : ℕ) (conv : NodeTypeConv) (externals : Text → Option Ty) where
  pub unify_types-Adds : (l r : Ty) → Adds (unify_types fuel conv externals l r) []
  unfolding unify_types Adds
  unify_types-Adds l r s b s' e = from_outcome-Adds (unify fuel l r s.store) s b s' e

  pub convert-Adds : (ty : Expr) (level : ℕ) → Adds (convert fuel conv externals ty level) []
  unfolding convert Adds
  convert-Adds ty level s b s' e =
      from_converted-Adds (node_to_type conv ty (pos level) s.store) s b s' e

  pub generalize_type-Adds :
      (t : Ty) (level : ℕ) → Adds (generalize_type fuel conv externals t level) []
  unfolding generalize_type Adds
  generalize_type-Adds t level s b s' e =
      from_generalized-Adds (generalize fuel t (pos level) s.store) s b s' e

  pub annotated-Adds :
      (ty : MaybeExpr) (level : ℕ) → Adds (annotated fuel conv externals ty level) []
  annotated-Adds absent level = new_type_var-Adds level
  annotated-Adds (present ty) level = convert-Adds ty level

  pub constrain-Adds :
      (ty : MaybeExpr) (t : Ty) (level : ℕ) → Adds (constrain fuel conv externals ty t level) []
  constrain-Adds absent t level = pure-Adds tt
  constrain-Adds (present ty) t level =
      last-Adds (convert fuel conv externals ty level) _ [] (convert-Adds ty level)
        (λ u. unify_types-Adds u t)

  pub refer-Adds :
      (n : Expr) (o ext : Option Ty) (level : ℕ) → Adds (refer fuel conv externals n o ext level) []
  unfolding refer Adds
  refer-Adds n (some t) ext level s b s' e =
      instantiated-Adds n t (instantiate fuel t (pos level) s.store) s b s' e
  refer-Adds n none (some t) level s b s' e = kept-Adds (infers t s) t s s s' refl refl refl b e
  refer-Adds n none none level s b s' e = absurd (cc)

  pub infer_params-Adds :
      (ps : Params) (level : ℕ)
      → Adds (infer_params fuel conv externals ps level) (names_of_params ps)
  unfolding infer_params
  infer_params-Adds no_params level = pure-Adds Types.nil
  infer_params-Adds (param x ty ps) level =
      bind-Adds (annotated fuel conv externals ty level) _ [] (names_of_params (param x ty ps))
        (annotated-Adds ty level)
        (λ t.
          bind-Adds (declare x.name t) _ (name x.name ∷ []) (names_of_params ps)
            (declare-Adds x.name t)
            (λ u.
              last-Adds (infer_params fuel conv externals ps level) _ (names_of_params ps)
                (infer_params-Adds ps level) (λ ts. pure-Adds (Types.cons t ts))))

  pub new_type_vars-Adds :
      (xs : List Symbol) (level : ℕ) → Adds (new_type_vars fuel conv externals xs level) []
  unfolding new_type_vars
  new_type_vars-Adds [] level = pure-Adds Types.nil
  new_type_vars-Adds (x ∷ xs) level =
      last-Adds (new_type_var level) _ [] (new_type_var-Adds level) (λ t.
        last-Adds (new_type_vars fuel conv externals xs level) _ [] (new_type_vars-Adds xs level)
          (λ ts. pure-Adds (Types.cons t ts)))

  pub tuple_of-Adds :
      (xs : List Symbol) (o : Option Tys) → Adds (tuple_of fuel conv externals xs o) []
  unfolding Adds
  tuple_of-Adds xs none = panics-Adds Tys []
  tuple_of-Adds xs (some ts) = λ s b s' e. elim (Bool-cases (length_tys ts == length xs)) [
    | inl same ↦ kept-Adds (infers ts s) ts s s s' refl refl refl b (rw same at e)
    | inr other ↦ absurd (let never = rw other at e in cc)
  ]

  pub tuple_types-Adds :
      (xs : List Symbol) (ty : MaybeExpr) (level : ℕ)
      → Adds (tuple_types fuel conv externals xs ty level) []
  unfolding tuple_types
  tuple_types-Adds xs absent level = new_type_vars-Adds xs (level + 1)
  tuple_types-Adds xs (present ty) level =
      last-Adds (convert fuel conv externals ty level) _ [] (convert-Adds ty level)
        (λ t. tuple_of-Adds xs (as_tuple t))

  pub declare_elems-Adds :
      (xs : List Symbol) (ts : Tys) (level : ℕ)
      → Adds (declare_elems fuel conv externals xs ts level) (names_of xs)
  unfolding declare_elems
  declare_elems-Adds [] ts level = pure-Adds tt
  declare_elems-Adds (x ∷ xs) Types.nil level = panics-Adds (Unit {0}) (names_of (x ∷ xs))
  declare_elems-Adds (x ∷ xs) (Types.cons t ts) level =
      bind-Adds (generalize_type fuel conv externals t level) _ [] (name x.name ∷ names_of xs)
        (generalize_type-Adds t level)
        (λ t'.
          bind-Adds (declare x.name t') _ (name x.name ∷ []) (names_of xs) (declare-Adds x.name t')
            (λ u. declare_elems-Adds xs ts level))

  pub check_node_type-Adds :
      (m : M Ty) (t : Ty) (is : List Item)
      → Adds m is
      → Adds (check_node_type fuel conv externals m t) is
  check_node_type-Adds m t is d = last-Adds m _ is d (λ u. unify_types-Adds t u)

  pub then_unify :
      {A : Type 0} (l r : Ty) (a : A)
      → Adds (unify_types fuel conv externals l r >>= λ u. pure a) []
  then_unify l r a =
      last-Adds (unify_types fuel conv externals l r) _ [] (unify_types-Adds l r) (λ u. pure-Adds a)

  pub infer_binary-Adds :
      (op : Operands) (l r : M Ty) (is js : List Item)
      → Adds l is
      → Adds r js
      → Adds (infer_binary fuel conv externals op l r) (is ++ js)
  infer_binary-Adds (arithmetic t) l r is js dl dr = bind-Adds l _ is js dl (λ a.
      last-Adds r _ js dr (λ b.
        last-Adds (unify_types fuel conv externals t a) _ [] (unify_types-Adds t a)
          (λ u. then_unify t b t)))
  infer_binary-Adds relational l r is js dl dr =
      bind-Adds l _ is js dl (λ a. last-Adds r _ js dr (λ b. then_unify a b bool))
  infer_binary-Adds logical l r is js dl dr = bind-Adds l _ is js dl (λ a.
      bind-Adds (unify_types fuel conv externals bool a) _ [] js (unify_types-Adds bool a)
        (λ u. last-Adds r _ js dr (λ b. then_unify bool b bool)))

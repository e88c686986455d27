-- ===== src/Sema/Alpha/Renames/Leaves.antt =====
-- sema/alpha_transform.go: a reference is transformed.
use gocaml.Base.{
  ℕ, ◌≡◌, ◌⊎◌, inl, inr, refl, sym, ap, ◌∙◌, true, false, Bool-cases, Option, none, some, [], ◌∷◌,
  Text, text_eq, codes,
}
use gocaml.Ast.{Symbol}
use gocaml.Sema.Scope.{Scope, find_var, resolve}
use gocaml.Sema.Alpha.{
  AlphaError, Transformer, refer, refer_ctor, fail, referred, ctor_mapped, text_in,
  is_builtin_type_ctor,
}
use gocaml.Sema.Alpha.Stack.{ref_of, flat, displays, names, resolve-flat, ref_of-found, ref_of-free}
use gocaml.Sema.Alpha.References.{Plain}
use gocaml.Sema.Alpha.Visited.{Visited, Ready, Visited-none, recast, failed}

module _ (decimal : ℕ → Text) (decimal_inj : (i j : ℕ) → decimal i ≡ decimal j → i ≡ j) where
  -- A reference.
  referred_renames :
      (x : Symbol) (c : Scope) (t : Transformer) (o : Option Symbol)
      → Plain x
      → Ready decimal decimal_inj c t []
      → find_var x.display_name (flat c) ≡ o
      → (let r = referred x o t in
          Visited decimal decimal_inj c t r.1 [] []
            (ref_of x.display_name (displays (flat c)) ∷ [])
            (ref_of r.0.name (names (flat c)) ∷ []))
  referred_renames x c t (some y) p r e =
      recast decimal decimal_inj refl
        (ap (λ k. k ∷ []) (ref_of-found decimal decimal_inj _ _ (flat c) y r.stacked e))
        (Visited-none decimal decimal_inj r)
  referred_renames x c t none (same, ident) r e = elim (Bool-cases (text_in x.name t.externals)) [
    | inl known ↦ rw known (
        recast decimal decimal_inj refl
          (ap (λ k. k ∷ [])
            (ref_of-free decimal decimal_inj _ _ (flat c) ident r.stacked e
              ∙ ap (λ k. ref_of k (names (flat c))) (sym same)))
          (Visited-none decimal decimal_inj r))
    | inr unknown ↦
        rw unknown
          (failed decimal decimal_inj [] [] _ _ _ (Visited-none decimal decimal_inj {led = []} r))
  ]

  pub refer_renames :
      (x : Symbol) (c : Scope) (t : Transformer)
      → Plain x
      → Ready decimal decimal_inj c t []
      → (let r = refer x t in
          Visited decimal decimal_inj c t r.1 [] []
            (ref_of x.display_name (displays (flat c)) ∷ [])
            (ref_of r.0.name (names (flat c)) ∷ []))
  unfolding refer
  refer_renames x c t p r = elim (Bool-cases (text_eq x.display_name (codes "_"))) [
    | inl e ↦
        rw e
          (failed decimal decimal_inj [] [] _ _ _ (Visited-none decimal decimal_inj {led = []} r))
    | inr e ↦ rw e (
        referred_renames x c t _ p r
          (sym (resolve-flat x.display_name c) ∙ ap (resolve x.display_name) (sym r.at)))
  ]

  ctor_mapped-cases :
      (k : Symbol) (t : Transformer) (o : Option Symbol)
      → ((ctor_mapped k o t).0 ≡ true) × ((ctor_mapped k o t).1.1 ≡ t)
        ⊎ ((why : AlphaError) × ((ctor_mapped k o t).0 ≡ false)
            × ((ctor_mapped k o t).1.1 ≡ fail why t))
  ctor_mapped-cases k t (some y) = inl (refl, refl)
  ctor_mapped-cases k t none = inr (_, refl, refl)

  -- A type's constructor: either its parameters are visited with the state as it was, or not.
  pub refer_ctor-cases :
      (k : Symbol) (t : Transformer)
      → ((refer_ctor k t).0 ≡ true) × ((refer_ctor k t).1.1 ≡ t)
        ⊎ ((why : AlphaError) × ((refer_ctor k t).0 ≡ false) × ((refer_ctor k t).1.1 ≡ fail why t))
  unfolding refer_ctor
  refer_ctor-cases k t = elim (Bool-cases (is_builtin_type_ctor k.display_name)) [
    | inl e ↦ rw e (inl (refl, refl))
    | inr e ↦ rw e (ctor_mapped-cases k t (resolve k.display_name t.type_scope))
  ]

-- ===== src/Sema/Alpha/Enter.antt =====
-- sema/alpha_transform.go: `register` brings a binding into scope under a new name.
use gocaml.Base.{
  ℕ, suc, ◌+◌, ◌≡◌, inl, inr, refl, ap, ◌∙◌, true, false, Bool-cases, List, [], ◌∷◌, ◌++◌, Text,
  arith,
}
use gocaml.Ast.{Symbol}
use gocaml.Sema.Scope.{Scope, Frame}
use gocaml.Sema.Alpha.{Transformer, is_ignored, next_id, register, registered, register_all}
use gocaml.Sema.Alpha.Names.{var_name-plain}
use gocaml.Sema.Alpha.Stack.{flat, displays, names, Stacked, Stacked-le}
use gocaml.Sema.Alpha.Numbered.{
  Numbered, Counts, Counts-none, Counts-append, Fits, Fits-first, Fits-next,
}
use gocaml.Sema.Alpha.References.{push, push_all, symbol_names, Plain, Binder, Binders}

abbrev pub display : Symbol → Text
display x = x.display_name

abbrev pub name : Symbol → Text
name x = x.name

-- The innermost scope lies inside `p`.
abbrev pub Inside : Scope → Transformer → Type 0
Inside p t = (f : Frame) × (t.current ≡ f ∷ p)

module _ (decimal : ℕ → Text) (decimal_inj : (i j : ℕ) → decimal i ≡ decimal j → i ≡ j) where
  abbrev pub Bindings : Transformer → Type 0
  Bindings t = Stacked decimal decimal_inj (suc t.var_id) (flat t.current)

  -- From `t` to `t'` names enter the innermost scope, inside `p`.
  pub record Enters (p : Scope) (t t' : Transformer) (old new : List Text)
      (shows makes : List Text → List Text) : Type 0 where
    pub counts : Counts decimal t t' old new
    pub inside : Inside p t'
    pub bindings : Bindings t'
    pub shown : displays (flat t'.current) ≡ shows (displays (flat t.current))
    pub made : names (flat t'.current) ≡ makes (names (flat t.current))

  ignored-Enters :
      (p : Scope) (t : Transformer) (x : Symbol)
      → is_ignored x ≡ true
      → Inside p t
      → Bindings t
      → Enters p t t (x.name ∷ []) (x.name ∷ []) (push display x) (push name x)
  unfolding Numbered is_ignored
  ignored-Enters p t x e inside b = record {
    counts = record {
      grows = λ h. inl (e, omega arith);
      mono = omega arith;
      bounded = omega arith;
      calm = λ h. h;
    };
    inside = inside;
    bindings = b;
    shown = rw e refl;
    made = rw e refl;
  }

  registered-Enters :
      (p : Scope) (t : Transformer) (x : Symbol)
      → is_ignored x ≡ false
      → Plain x
      → Fits decimal t (x.name ∷ [])
      → Inside p t
      → Bindings t
      → (let r = registered decimal x t in
          Enters p t r.1 (x.name ∷ []) (r.0.name ∷ []) (push display x) (push name r.0))
  unfolding Numbered is_ignored Stacked flat
  registered-Enters p t x e (same, ident) fits (f, at) b =
      let id = next_id t.var_id in
      let is : id ≡ t.var_id + 1 = omega (arith, fits) in
      let below : Stacked decimal decimal_inj (suc t.var_id) (f ++ flat p) = rw at at b in
      record {
        counts = record {
          grows = λ h. inr (id, x.display_name, omega (arith, is), refl, ident, omega arith);
          mono = omega (arith, is);
          bounded = omega (arith, is);
          calm = λ h. h;
        };
        inside = rw at (_, refl);
        bindings = rw at (
          id,
          omega arith,
          ident,
          refl,
          Stacked-le decimal decimal_inj (suc t.var_id) id (f ++ flat p) (omega (arith, is)) below,
        );
        shown = rw at (rw e refl);
        made = rw at (rw (var_name-plain decimal x.display_name (next_id t.var_id) ident) refl);
      }

  pub register-Enters :
      (p : Scope) (t : Transformer) (x : Symbol)
      → Binder x
      → Fits decimal t (x.name ∷ [])
      → Inside p t
      → Bindings t
      → (let r = register decimal x t in
          Enters p t r.1 (x.name ∷ []) (r.0.name ∷ []) (push display x) (push name r.0))
  unfolding register
  register-Enters p t x (inl e) fits inside b = rw e (ignored-Enters p t x e inside b)
  register-Enters p t x (inr plain) fits inside b = elim (Bool-cases (is_ignored x)) [
    | inl e ↦ rw e (ignored-Enters p t x e inside b)
    | inr e ↦ rw e (registered-Enters p t x e plain fits inside b)
  ]

  pub Enters-none :
      (p : Scope) (t : Transformer)
      → Inside p t
      → Bindings t
      → Enters p t t [] [] (λ st. st) (λ st. st)
  Enters-none p t inside b = record {
    counts = Counts-none decimal t;
    inside = inside;
    bindings = b;
    shown = refl;
    made = refl;
  }

  pub Enters-append :
      {p : Scope} {t t1 t2 : Transformer} {a a' b b' : List Text}
      {f f' g g' : List Text → List Text}
      → Enters p t t1 a a' f f'
      → Enters p t1 t2 b b' g g'
      → Enters p t t2 (a ++ b) (a' ++ b') (λ st. g (f st)) (λ st. g' (f' st))
  Enters-append {g = g} {g' = g'} h k = record {
    counts = Counts-append decimal h.counts k.counts;
    inside = k.inside;
    bindings = k.bindings;
    shown = k.shown ∙ ap g h.shown;
    made = k.made ∙ ap g' h.made;
  }

  pub register_all-Enters :
      (p : Scope) (xs : List Symbol) (t : Transformer)
      → Binders xs
      → Fits decimal t (symbol_names xs)
      → Inside p t
      → Bindings t
      → (let r = register_all decimal xs t in
          Enters p t r.1
            (symbol_names xs)
            (symbol_names r.0)
            (push_all display xs)
            (push_all name r.0))
  unfolding register_all
  register_all-Enters p [] t bs fits inside b = Enters-none p t inside b
  register_all-Enters p (x ∷ xs) t (bx, bs) fits inside b =
      let one =
        register-Enters p t x bx (Fits-first decimal t (x.name ∷ []) (symbol_names xs) fits) inside
          b in
      Enters-append one (
        register_all-Enters p xs (register decimal x t).1 bs
          (Fits-next decimal (symbol_names xs) one.counts fits) one.inside one.bindings)

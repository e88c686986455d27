-- ===== src/Sema/Alpha/Scoped/Opened.antt =====
-- sema/alpha_transform.go: names enter a scope, and it is left again.
use gocaml.Base.{
  and_assoc, and-true, ℕ, ◌≡◌, ◌⊎◌, inl, inr, refl, sym, ap, ap₂, ◌∙◌, true, false, Bool-cases, not,
  ◌&&◌, Option, none, some, List, [], ◌∷◌, Text,
}
use gocaml.Ast.{Symbol}
use gocaml.Sema.Scope.{Scope, resolve}
use gocaml.Sema.Alpha.{
  Transformer, is_ignored, is_builtin_type_ctor, refer_ctor, ctor_mapped, fail, AlphaError,
  register, register_all, nest, pop, parent_of,
}
use gocaml.Sema.Alpha.Stack.{flat, displays, resolve-flat}
use gocaml.Sema.Alpha.Enter.{display, Inside}
use gocaml.Sema.Alpha.References.{push, push_all}
use gocaml.Sema.Alpha.Scoped.{type_in_scope}
use gocaml.Sema.Alpha.Scoped.Judged.{is_none, Demand, at, both, Kept, Judged, at-same, find_var-is}

-- Names have entered the innermost scope, inside `p`, and demands were made in between.
pub record Opened (p : Scope) (t t' : Transformer) (k : Demand) (f : List Text → List Text)
    : Type 0 where
  pub inside : Inside p t'
  pub kept : Kept t t'
  pub shown : displays (flat t'.current) ≡ f (displays (flat t.current))
  pub verdict : is_none t'.err ≡ (is_none t.err && at k t)

abbrev pub under : (List Text → List Text) → Demand → Demand
under f k = λ exts types st. k exts types (f st)

abbrev pub nothing : Demand
nothing = λ exts types st. true

pub Opened-none : (p : Scope) (t : Transformer) → Inside p t → Opened p t t nothing (λ st. st)
Opened-none p t inside = record {
  inside = inside;
  kept = (refl, refl);
  shown = refl;
  verdict = sym (and-true (is_none t.err));
}

at-under :
    (k : Demand) (f : List Text → List Text) (t t1 : Transformer)
    → displays (flat t1.current) ≡ f (displays (flat t.current))
    → Kept t t1
    → at k t1 ≡ at (under f k) t
at-under k f t t1 e (types, exts) = rw (e, types, exts) refl

pub Opened-then :
    {p : Scope} {t t1 t2 : Transformer} {k l : Demand} {f g : List Text → List Text}
    → Opened p t t1 k f
    → Opened p t1 t2 l g
    → Opened p t t2 (both k (under f l)) (λ st. g (f st))
Opened-then {t = t} {t1 = t1} {k = k} {l = l} {f = f} {g = g} v w = record {
  inside = w.inside;
  kept = (w.kept.0 ∙ v.kept.0, w.kept.1 ∙ v.kept.1);
  shown = w.shown ∙ ap g v.shown;
  verdict =
      w.verdict
      ∙ ap₂ (λ a b. a && b) v.verdict (at-under l f t t1 v.shown v.kept)
      ∙ and_assoc (is_none t.err) (at k t) (at (under f l) t);
}

-- A visit in between.
pub Opened-after :
    {p : Scope} {t t1 t2 : Transformer} {k l : Demand} {f : List Text → List Text}
    → Judged t t1 k
    → Opened p t1 t2 l f
    → Opened p t t2 (both k l) f
Opened-after {t = t} {t1 = t1} {k = k} {l = l} {f = f} v w = record {
  inside = w.inside;
  kept = (w.kept.0 ∙ v.kept.0, w.kept.1 ∙ v.kept.1);
  shown = w.shown ∙ ap (λ c. f (displays (flat c))) v.scope;
  verdict =
      w.verdict
      ∙ ap₂ (λ a b. a && b) v.verdict (at-same l t t1 v.scope v.kept)
      ∙ and_assoc (is_none t.err) (at k t) (at l t);
}

-- The scope that was opened is left.
pub Judged-under :
    {t t1 t2 : Transformer} {k l : Demand} {f : List Text → List Text}
    → Opened t.current (nest t) t1 k f
    → Judged t1 t2 l
    → Judged t (pop t2) (both k (under f l))
unfolding flat
Judged-under {t = t} {t1 = t1} {k = k} {l = l} {f = f} v w = record {
  scope = ap parent_of (w.scope ∙ v.inside.1);
  kept = (w.kept.0 ∙ v.kept.0, w.kept.1 ∙ v.kept.1);
  verdict =
      w.verdict
      ∙ ap₂ (λ a b. a && b) v.verdict (at-under l f (nest t) t1 v.shown v.kept)
      ∙ and_assoc (is_none t.err) (at k t) (at (under f l) t);
}

pub Opened-register :
    (decimal : ℕ → Text) (p : Scope) (t : Transformer) (x : Symbol)
    → Inside p t
    → Opened p t (register decimal x t).1 nothing (push display x)
unfolding register is_ignored flat
Opened-register decimal p t x (f, e) = elim (Bool-cases (is_ignored x)) [
  | inl ignored ↦ rw ignored (record {
    inside = (f, e);
    kept = (refl, refl);
    shown = rw ignored refl;
    verdict = sym (and-true (is_none t.err));
  })
  | inr named ↦ rw named (record {
    inside = rw e (_, refl);
    kept = (refl, refl);
    shown = rw e (rw named refl);
    verdict = sym (and-true (is_none t.err));
  })
]

pub Opened-register_all :
    (decimal : ℕ → Text) (p : Scope) (xs : List Symbol) (t : Transformer)
    → Inside p t
    → Opened p t (register_all decimal xs t).1 nothing (push_all display xs)
unfolding register_all
Opened-register_all decimal p [] t inside = Opened-none p t inside
Opened-register_all decimal p (x ∷ xs) t inside =
    let one = Opened-register decimal p t x inside in
    Opened-then one (Opened-register_all decimal p xs _ one.inside)

ctor_mapped_judged :
    (c : Symbol) (t : Transformer) (o : Option Symbol)
    → (let r = ctor_mapped c o t in
        ((not (is_none o) ≡ true) × ((r.0 ≡ true) × (r.1.1 ≡ t)))
        ⊎ ((not (is_none o) ≡ false) × ((why : AlphaError) × (r.0 ≡ false) × (r.1.1 ≡ fail why t))))
ctor_mapped_judged c t (some y) = inl (refl, (refl, refl))
ctor_mapped_judged c t none = inr (refl, (_, refl, refl))

-- The parameters of a type's constructor are visited, with the state as it was, if the type is in
-- scope, and if not there is an error.
pub refer_ctor_judged :
    (c : Symbol) (t : Transformer)
    → (let r = refer_ctor c t in
        let ok = type_in_scope c (displays (flat t.type_scope)) in
        ((ok ≡ true) × ((r.0 ≡ true) × (r.1.1 ≡ t)))
        ⊎ ((ok ≡ false) × ((why : AlphaError) × (r.0 ≡ false) × (r.1.1 ≡ fail why t))))
unfolding refer_ctor type_in_scope
refer_ctor_judged c t = elim (Bool-cases (is_builtin_type_ctor c.display_name)) [
  | inl e ↦ rw e (inl (refl, (refl, refl)))
  | inr e ↦ rw e (
      rw
        (
          ← find_var-is c.display_name (flat t.type_scope),
          ← resolve-flat c.display_name t.type_scope,
        )
        (ctor_mapped_judged c t (resolve c.display_name t.type_scope)))
]

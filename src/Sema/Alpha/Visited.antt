-- ===== src/Sema/Alpha/Visited.antt =====
-- sema/alpha_transform.go: what a visit of a part of the tree does, and how visits compose.
use gocaml.Base.{
  ℕ, suc, ◌≡◌, refl, sym, ap, ap₂, ◌∙◌, none, List, [], ◌∷◌, ◌++◌, Text, arith, length-append,
}
use gocaml.Sema.Scope.{Scope}
use gocaml.Sema.Alpha.{AlphaError, Transformer, nest, pop, parent_of, fail}
use gocaml.Sema.Alpha.Stack.{Ref, flat, displays, names, Stacked, Stacked-le}
use gocaml.Sema.Alpha.Numbered.{Counts, Counts-none, Counts-append, Fits, Fits-first, Fits-next}
use gocaml.Sema.Alpha.Enter.{Inside, Bindings, Enters}

module _ (decimal : ℕ → Text) (decimal_inj : (i j : ℕ) → decimal i ≡ decimal j → i ≡ j) where
  -- A visit in the scope `c` that leaves the scope as it was, and, unless there is an error, each
  -- reference leading where it led.
  pub record Visited (c : Scope) (t t' : Transformer) (old new : List Text) (led leads : List Ref)
      : Type 0 where
    pub counts : Counts decimal t t' old new
    pub back : t'.current ≡ c
    pub same : t'.err ≡ none → led ≡ leads

  -- What a visit needs.
  pub record Ready (c : Scope) (t : Transformer) (old : List Text) : Type 0 where
    pub at : t.current ≡ c
    pub stacked : Stacked decimal decimal_inj (suc t.var_id) (flat c)
    pub fits : Fits decimal t old

  pub Visited-none :
      {c : Scope} {t : Transformer} {led : List Ref} → Ready c t [] → Visited c t t [] [] led led
  Visited-none {t = t} r = record { counts = Counts-none decimal t; back = r.at; same = λ e. refl }

  pub Ready-first :
      {c : Scope} {t : Transformer} (a b : List Text) → Ready c t (a ++ b) → Ready c t a
  Ready-first {t = t} a b r = record {
    at = r.at;
    stacked = r.stacked;
    fits = Fits-first decimal t a b r.fits;
  }

  pub Ready-next :
      {c : Scope} {t t1 : Transformer} {a a' : List Text} {led leads : List Ref} (b : List Text)
      → Ready c t (a ++ b)
      → Visited c t t1 a a' led leads
      → Ready c t1 b
  Ready-next {c = c} {t = t} {t1 = t1} b r v = record {
    at = v.back;
    stacked =
        Stacked-le decimal decimal_inj (suc t.var_id) (suc t1.var_id) (flat c)
          (omega (arith, v.counts.mono)) r.stacked;
    fits = Fits-next decimal b v.counts r.fits;
  }

  pub Visited-then :
      {c : Scope} {t t1 t2 : Transformer} {a a' b b' : List Text} {k k' l l' : List Ref}
      → Visited c t t1 a a' k k'
      → Visited c t1 t2 b b' l l'
      → Visited c t t2 (a ++ b) (a' ++ b') (k ++ l) (k' ++ l')
  Visited-then v w = record {
    counts = Counts-append decimal v.counts w.counts;
    back = w.back;
    same = λ e. ap₂ (λ x y. x ++ y) (v.same (w.counts.calm e)) (w.same e);
  }

  -- Into a new scope.
  pub Ready-Bindings :
      {c : Scope} {t : Transformer} {old : List Text}
      → Ready c t old
      → Bindings decimal decimal_inj (nest t)
  unfolding flat
  Ready-Bindings r = rw (r.at) (r.stacked)

  pub Ready-Inside :
      {c : Scope} {t : Transformer} {old : List Text} → Ready c t old → Inside c (nest t)
  Ready-Inside r = ([], ap (λ c. [] ∷ c) r.at)

  pub Ready-entered :
      {p : Scope} {t t1 : Transformer} {a a' : List Text} {f f' : List Text → List Text}
      (b : List Text)
      → Enters decimal decimal_inj p t t1 a a' f f'
      → Fits decimal t (a ++ b)
      → Ready t1.current t1 b
  Ready-entered b e fits = record {
    at = refl;
    stacked = e.bindings;
    fits = Fits-next decimal b e.counts fits;
  }

  -- Out of it again.
  pub leave :
      {p : Scope} {t t1 t2 : Transformer} {a a' b b' : List Text} {f f' : List Text → List Text}
      {k k' : List Ref}
      → Enters decimal decimal_inj p (nest t) t1 a a' f f'
      → Visited t1.current t1 t2 b b' k k'
      → Visited p t (pop t2) (a ++ b) (a' ++ b') k k'
  leave e v =
      let all = Counts-append decimal e.counts v.counts in
      record {
        counts = record {
          grows = all.grows;
          mono = all.mono;
          bounded = all.bounded;
          calm = all.calm;
        };
        back = ap parent_of (v.back ∙ e.inside.1);
        same = v.same;
      }

  -- A visit of a type before a name enters.
  pub Enters-after :
      {p : Scope} {t t1 t2 : Transformer} {a a' b b' : List Text} {f f' : List Text → List Text}
      {k k' : List Ref}
      → Visited t.current t t1 a a' k k'
      → Enters decimal decimal_inj p t1 t2 b b' f f'
      → Enters decimal decimal_inj p t t2 (a ++ b) (a' ++ b') f f'
  Enters-after {f = f} {f' = f'} v e = record {
    counts = Counts-append decimal v.counts e.counts;
    inside = e.inside;
    bindings = e.bindings;
    shown = e.shown ∙ ap (λ c. f (displays (flat c))) v.back;
    made = e.made ∙ ap (λ c. f' (names (flat c))) v.back;
  }

  pub recast :
      {c : Scope} {t t1 : Transformer} {a a' : List Text} {k k' l l' : List Ref}
      → k ≡ l
      → k' ≡ l'
      → Visited c t t1 a a' k k'
      → Visited c t t1 a a' l l'
  recast p q v = record { counts = v.counts; back = v.back; same = λ e. sym p ∙ v.same e ∙ q }

  -- A visit under the names that have entered around it.
  pub leave_scope :
      {p : Scope} {t t1 t2 : Transformer} {a a' b b' : List Text} {f f' : List Text → List Text}
      (refs refs' : List Text → List Ref)
      → t.current ≡ p
      → Enters decimal decimal_inj p (nest t) t1 a a' f f'
      → Visited t1.current t1 t2 b b'
          (refs (displays (flat t1.current)))
          (refs' (names (flat t1.current)))
      → Visited p t
          (pop t2)
          (a ++ b)
          (a' ++ b')
          (refs (f (displays (flat p))))
          (refs' (f' (names (flat p))))
  unfolding flat
  leave_scope {f = f} {f' = f'} refs refs' at e v =
      recast (ap refs (e.shown ∙ ap (λ c. f (displays (flat c))) at))
        (ap refs' (e.made ∙ ap (λ c. f' (names (flat c))) at)) (leave e v)

  -- An error keeps only the counter and the scope.
  pub failed :
      {c : Scope} {t t1 : Transformer} {a a' : List Text} {k k' : List Ref} (b b' : List Text)
      (l l' : List Ref) (why : AlphaError)
      → Visited c t t1 a a' k k'
      → Visited c t (fail why t1) (a ++ b) (a' ++ b') (k ++ l) (k' ++ l')
  failed {a = a} b b' l l' why v = record {
    counts = record {
      grows = λ e. absurd (cc);
      mono = v.counts.mono;
      bounded = omega (arith, v.counts.bounded, length-append a b);
      calm = λ e. absurd (cc);
    };
    back = v.back;
    same = λ e. absurd (cc);
  }

  pub prepend_refs :
      {c : Scope} {t t1 : Transformer} {a a' : List Text} {k k' l l' : List Ref}
      → (t1.err ≡ none → l ≡ l')
      → Visited c t t1 a a' k k'
      → Visited c t t1 a a' (l ++ k) (l' ++ k')
  prepend_refs p v = record {
    counts = v.counts;
    back = v.back;
    same = λ e. ap₂ (λ x y. x ++ y) (p e) (v.same e);
  }

-- ===== src/Sema/Alpha/Scoped/Judged.antt =====
-- sema/alpha_transform.go: what a visit does to the error and to the scopes.
use gocaml.Base.{
  and_assoc, and-true, and-false, ◌≡◌, inl, inr, refl, sym, ap, ap₂, ◌∙◌, Bool, true, false,
  Bool-cases, not, ◌&&◌, ◌||◌, Option, none, some, List, [], ◌∷◌, Text, text_eq, codes,
}
use gocaml.Ast.{Symbol}
use gocaml.Sema.Scope.{Frame, find_var, resolve}
use gocaml.Sema.Alpha.{
  Transformer, is_ignored, same_display, text_in, refer, referred, duplicate_symbol, fail,
  AlphaError,
}
use gocaml.Sema.Alpha.Stack.{flat, displays, resolve-flat}
use gocaml.Sema.Alpha.Scoped.{all_differ, in_scope}

-- No error so far.
abbrev pub is_none {ℓ} : {A : Type ℓ} → Option A → Bool
is_none none = true
is_none (some a) = false

-- A demand on the externals, the types and the names in scope.
abbrev pub Demand : Type 0
Demand = List Text → List Text → List Text → Bool

abbrev pub at : Demand → Transformer → Bool
at k t = k t.externals (displays (flat t.type_scope)) (displays (flat t.current))

abbrev pub both : Demand → Demand → Demand
both k l = λ exts types st. k exts types st && l exts types st

abbrev pub Kept : Transformer → Transformer → Type 0
Kept t t' = (t'.type_scope ≡ t.type_scope) × (t'.externals ≡ t.externals)

-- A visit leaves the scopes as they were, and it reports an error just where the demand fails.
pub record Judged (t t' : Transformer) (k : Demand) : Type 0 where
  pub scope : t'.current ≡ t.current
  pub kept : Kept t t'
  pub verdict : is_none t'.err ≡ (is_none t.err && at k t)

pub Judged-none : (t : Transformer) → Judged t t (λ exts types st. true)
Judged-none t = record {
  scope = refl;
  kept = (refl, refl);
  verdict = sym (and-true (is_none t.err));
}

pub at-same :
    (k : Demand) (t t1 : Transformer) → t1.current ≡ t.current → Kept t t1 → at k t1 ≡ at k t
at-same k t t1 e (types, exts) = rw (e, types, exts) refl

pub Judged-then :
    {t t1 t2 : Transformer} {k l : Demand} → Judged t t1 k → Judged t1 t2 l → Judged t t2 (both k l)
Judged-then {t = t} {t1 = t1} {k = k} {l = l} v w = record {
  scope = w.scope ∙ v.scope;
  kept = (w.kept.0 ∙ v.kept.0, w.kept.1 ∙ v.kept.1);
  verdict =
      w.verdict
      ∙ ap₂ (λ a b. a && b) v.verdict (at-same l t t1 v.scope v.kept)
      ∙ and_assoc (is_none t.err) (at k t) (at l t);
}

-- The demand may be written in another way.
pub Judged-as :
    {t t1 : Transformer} {k l : Demand} → at k t ≡ at l t → Judged t t1 k → Judged t t1 l
Judged-as {t = t} e v = record {
  scope = v.scope;
  kept = v.kept;
  verdict = v.verdict ∙ ap (λ b. is_none t.err && b) e;
}

-- An error now, whatever comes.
pub Judged-fail :
    (t : Transformer) (why : AlphaError) (k : Demand) → at k t ≡ false → Judged t (fail why t) k
Judged-fail t why k e = record {
  scope = refl;
  kept = (refl, refl);
  verdict = sym (and-false (is_none t.err)) ∙ ap (λ b. is_none t.err && b) (sym e);
}

pub find_var-is : (s : Text) (bs : Frame) → not (is_none (find_var s bs)) ≡ text_in s (displays bs)
unfolding find_var text_in
find_var-is s [] = refl
find_var-is s ((k, x) ∷ bs) = elim (Bool-cases (text_eq k s)) [
  | inl hit ↦ rw hit refl
  | inr miss ↦ rw miss (find_var-is s bs)
]

pub duplicate_symbol-is : (xs : List Symbol) → is_none (duplicate_symbol xs) ≡ all_differ xs
unfolding duplicate_symbol all_differ
duplicate_symbol-is [] = refl
duplicate_symbol-is (x ∷ xs) = elim (Bool-cases (is_ignored x)) [
  | inl e ↦ rw e (duplicate_symbol-is xs)
  | inr e ↦ elim (Bool-cases (same_display x.display_name xs)) [
    | inl d ↦ rw (e, d) refl
    | inr d ↦ rw (e, d) (duplicate_symbol-is xs)
  ]
]

referred-Judged :
    (x : Symbol) (t : Transformer) (o : Option Symbol)
    → Judged t (referred x o t).1 (λ exts types st. not (is_none o) || text_in x.name exts)
referred-Judged x t (some y) = Judged-none t
referred-Judged x t none = elim (Bool-cases (text_in x.name t.externals)) [
  | inl e ↦ rw e (Judged-as (sym e) (Judged-none t))
  | inr e ↦ rw e (Judged-fail t _ _ e)
]

pub refer-Judged :
    (x : Symbol) (t : Transformer) → Judged t (refer x t).1 (λ exts types st. in_scope x exts st)
unfolding refer in_scope
refer-Judged x t = elim (Bool-cases (text_eq x.display_name (codes "_"))) [
  | inl e ↦ rw e (Judged-fail t _ _ refl)
  | inr e ↦ rw e (
      Judged-as
        (rw (resolve-flat x.display_name t.current, find_var-is x.display_name (flat t.current))
          refl)
        (referred-Judged x t (resolve x.display_name t.current)))
]

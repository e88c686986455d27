-- ===== src/Sema/Deref/Known.antt =====
-- sema/deref.go: `unwrap` gives a type of the same meaning without links, where there is one.
use gocaml.Base.{
  ℕ, zero, suc, ◌≡◌, ◌⊎◌, inl, inr, refl, ap, ap₂, ◌∙◌, true, Bool-cases, Option, none, some,
}
use gocaml.Types.{
  Ty, Tys, unit, bool, int, float, string, fun, tuple, array, option, var, nil, cons, Store,
  is_generic,
}
use gocaml.Types.Meaning.{Assignment, value, values, Solves}
use gocaml.Types.Bounded.{All, AtRef, Within, InUse}
use gocaml.Sema.Deref.{
  Unwrapped, unknown, known, and_then, unwrap_var, unwrap_all, unwrap_fun, unwrap,
}

-- A type without links, all of whose variables are generic.
unfoldable mutual
  pub Derefed : Store → Ty → Type 0
  Derefed s (fun r ps) = Derefed s r × DerefedAll s ps
  Derefed s (tuple ts) = DerefedAll s ts
  Derefed s (array t) = Derefed s t
  Derefed s (option t) = Derefed s t
  Derefed s (var p) = ((s.cell p).ref ≡ none) × (is_generic s p ≡ true)
  Derefed s unit = Unit
  Derefed s bool = Unit
  Derefed s int = Unit
  Derefed s float = Unit
  Derefed s string = Unit

  pub DerefedAll : Store → Tys → Type 0
  DerefedAll s nil = Unit
  DerefedAll s (cons t ts) = Derefed s t × DerefedAll s ts

-- A variable without a link is generic.
abbrev pub IsDecided : Store → ℕ → Type 0
IsDecided s p = (s.cell p).ref ≡ none → is_generic s p ≡ true

-- Two types that are the same whatever solves the store.
abbrev pub Same : Store → Ty → Ty → Type 0
Same s t u = (θ : Assignment) → Solves θ s → value θ t ≡ value θ u

abbrev pub SameAll : Store → Tys → Tys → Type 0
SameAll s ts us = (θ : Assignment) → Solves θ s → values θ ts ≡ values θ us

-- Either all variables are decided, and there is a type, or they are not, and there is none.
abbrev pub Answers : Store → (Unwrapped Ty) → Ty → Type 0 → Type 0
Answers s r t decided =
    (decided × ((u : Ty) × (r ≡ known u) × Derefed s u × Same s t u))
    ⊎ ((decided → ⊥) × (r ≡ unknown))

abbrev pub AnswersAll : Store → (Unwrapped Tys) → Tys → Type 0 → Type 0
AnswersAll s r ts decided =
    (decided × ((us : Tys) × (r ≡ known us) × DerefedAll s us × SameAll s ts us))
    ⊎ ((decided → ⊥) × (r ≡ unknown))

module _ (s : Store) (rec : Ty → Unwrapped Ty) (P Q : Ty → Type 0)
    (ih : (t : Ty) → Q t → Answers s (rec t) t (P t)) where
  unwrap_all-Answers : (ts : Tys) → All Q ts → AnswersAll s (unwrap_all rec ts) ts (All P ts)
  unfolding Derefed value
  unwrap_all-Answers nil h = inl (tt, (nil, refl, tt, λ θ g. refl))
  unwrap_all-Answers (cons t ts) (h, hs) = elim (ih t h) [
    | inr (ne, e) ↦ rw e (inr (λ d. ne d.0, refl))
    | inl (d, (u, e, k, m)) ↦ elim (unwrap_all-Answers ts hs) [
      | inr (ne, es) ↦ rw (e, es) (inr (λ d. ne d.1, refl))
      | inl (ds, (us, es, ks, ms)) ↦
          rw (e, es) (inl ((d, ds), (cons u us, refl, (k, ks), λ θ g. ap₂ cons (m θ g) (ms θ g))))
    ]
  ]

  unwrap_fun-Answers :
      (r : Ty) (ps : Tys)
      → Q r × All Q ps
      → Answers s (unwrap_fun rec r ps) (fun r ps) (P r × All P ps)
  unfolding Derefed value
  unwrap_fun-Answers r ps (h, hs) = elim (ih r h) [
    | inr (ne, e) ↦ rw e (inr (λ d. ne d.0, refl))
    | inl (d, (u, e, k, m)) ↦ elim (unwrap_all-Answers ps hs) [
      | inr (ne, es) ↦ rw (e, es) (inr (λ d. ne d.1, refl))
      | inl (ds, (us, es, ks, ms)) ↦
          rw (e, es) (inl ((d, ds), (fun u us, refl, (k, ks), λ θ g. ap₂ fun (m θ g) (ms θ g))))
    ]
  ]

  unwrap_tuple-Answers :
      (ts : Tys)
      → All Q ts
      → Answers s (and_then (unwrap_all rec ts) (λ us. known (tuple us))) (tuple ts) (All P ts)
  unfolding Derefed value
  unwrap_tuple-Answers ts hs = elim (unwrap_all-Answers ts hs) [
    | inr (ne, es) ↦ rw es (inr (ne, refl))
    | inl (ds, (us, es, ks, ms)) ↦ rw es (inl (ds, (tuple us, refl, ks, λ θ g. ap tuple (ms θ g))))
  ]

  unwrap_array-Answers :
      (t : Ty) → Q t → Answers s (and_then (rec t) (λ u. known (array u))) (array t) (P t)
  unfolding Derefed value
  unwrap_array-Answers t h = elim (ih t h) [
    | inr (ne, e) ↦ rw e (inr (ne, refl))
    | inl (d, (u, e, k, m)) ↦ rw e (inl (d, (array u, refl, k, λ θ g. ap array (m θ g))))
  ]

  unwrap_option-Answers :
      (t : Ty) → Q t → Answers s (and_then (rec t) (λ u. known (option u))) (option t) (P t)
  unfolding Derefed value
  unwrap_option-Answers t h = elim (ih t h) [
    | inr (ne, e) ↦ rw e (inr (ne, refl))
    | inl (d, (u, e, k, m)) ↦ rw e (inl (d, (option u, refl, k, λ θ g. ap option (m θ g))))
  ]

  unwrap_var-Answers :
      (p : ℕ) (o : Option Ty)
      → (s.cell p).ref ≡ o
      → AtRef Q o
      → Answers s (unwrap_var rec s p o) (var p) (IsDecided s p × AtRef P o)
  unfolding Derefed value
  unwrap_var-Answers p (some t) e h = elim (ih t h) [
    | inr (ne, f) ↦ rw f (inr (λ d. ne d.1, refl))
    | inl (d, (u, f, k, m)) ↦
        rw f (inl ((λ free. absurd (cc), d), (u, refl, k, λ θ g. g p t e ∙ m θ g)))
  ]
  unwrap_var-Answers p none e h = elim (Bool-cases (is_generic s p)) [
    | inl generic ↦ rw generic (inl ((λ free. refl, tt), (var p, refl, (e, generic), λ θ g. refl)))
    | inr other ↦ rw other (inr (λ d. cc (d.0 e), refl))
  ]

-- On a type from which links end, with the depth as fuel: if each variable that is reached and has
-- no link is generic, unwrap gives a type without links, all of whose variables are generic, that
-- is the same as the type whatever solves the store; and if not, it gives none.
pub unwrap-Answers :
    (s : Store) (n : ℕ) (t : Ty)
    → Within (InUse s) n s t
    → Answers s (unwrap n s t) t (Within (IsDecided s) n s t)
unfolding unwrap Derefed value
unwrap-Answers s zero t h = absurd h
unwrap-Answers s (suc n) (fun r ps) h =
    unwrap_fun-Answers s (unwrap n s) (Within (IsDecided s) n s) (Within (InUse s) n s)
      (unwrap-Answers s n) r ps h
unwrap-Answers s (suc n) (tuple ts) h =
    unwrap_tuple-Answers s (unwrap n s) (Within (IsDecided s) n s) (Within (InUse s) n s)
      (unwrap-Answers s n) ts h
unwrap-Answers s (suc n) (array t) h =
    unwrap_array-Answers s (unwrap n s) (Within (IsDecided s) n s) (Within (InUse s) n s)
      (unwrap-Answers s n) t h
unwrap-Answers s (suc n) (option t) h =
    unwrap_option-Answers s (unwrap n s) (Within (IsDecided s) n s) (Within (InUse s) n s)
      (unwrap-Answers s n) t h
unwrap-Answers s (suc n) (var p) (used, h) =
    unwrap_var-Answers s (unwrap n s) (Within (IsDecided s) n s) (Within (InUse s) n s)
      (unwrap-Answers s n) p (s.cell p).ref refl h
unwrap-Answers s (suc n) unit h = inl (tt, (unit, refl, tt, λ θ g. refl))
unwrap-Answers s (suc n) bool h = inl (tt, (bool, refl, tt, λ θ g. refl))
unwrap-Answers s (suc n) int h = inl (tt, (int, refl, tt, λ θ g. refl))
unwrap-Answers s (suc n) float h = inl (tt, (float, refl, tt, λ θ g. refl))
unwrap-Answers s (suc n) string h = inl (tt, (string, refl, tt, λ θ g. refl))

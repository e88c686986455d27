-- ===== src/Types/Meaning.antt =====
-- What a store says of its variables, with the links read as equations: an assignment of types to
-- addresses solves a store when each linked variable has the value of the type it is linked to.
use gocaml.Base.{ℕ, suc, ◌+◌, ◌≡◌, some, refl, ap, ap₂, sym, ◌∙◌}
use gocaml.Types.{
  Ty, Tys, unit, bool, int, float, string, fun, tuple, array, option, var, nil, cons, Store,
}

abbrev pub Assignment : Type 0
Assignment = ℕ → Ty

unfoldable mutual
  pub value : Assignment → Ty → Ty
  value θ unit = unit
  value θ bool = bool
  value θ int = int
  value θ float = float
  value θ string = string
  value θ (fun r ps) = fun (value θ r) (values θ ps)
  value θ (tuple ts) = tuple (values θ ts)
  value θ (array t) = array (value θ t)
  value θ (option t) = option (value θ t)
  value θ (var p) = θ p

  pub values : Assignment → Tys → Tys
  values θ nil = nil
  values θ (cons t ts) = cons (value θ t) (values θ ts)

unfoldable mutual
  pub size : Ty → ℕ
  size unit = 1
  size bool = 1
  size int = 1
  size float = 1
  size string = 1
  size (fun r ps) = suc (size r + sizes ps)
  size (tuple ts) = suc (sizes ts)
  size (array t) = suc (size t)
  size (option t) = suc (size t)
  size (var p) = 1

  pub sizes : Tys → ℕ
  sizes nil = 0
  sizes (cons t ts) = size t + sizes ts

abbrev pub Solves : Assignment → Store → Type 0
Solves θ s = (p : ℕ) (t : Ty) → (s.cell p).ref ≡ some t → θ p ≡ value θ t

-- Two stores with the same links.
abbrev pub SameRefs : Store → Store → Type 0
SameRefs s s' = (p : ℕ) → (s'.cell p).ref ≡ (s.cell p).ref

pub Solves-SameRefs : (s s' : Store) (θ : Assignment) → SameRefs s s' → Solves θ s → Solves θ s'
Solves-SameRefs s s' θ same h p t e = h p t (sym (same p) ∙ e)

mutual
  unfolding value

  -- Substituting twice.
  pub value-after : (σ ρ : Assignment) (t : Ty) → value (λ p. value σ (ρ p)) t ≡ value σ (value ρ t)
  value-after σ ρ unit = refl
  value-after σ ρ bool = refl
  value-after σ ρ int = refl
  value-after σ ρ float = refl
  value-after σ ρ string = refl
  value-after σ ρ (fun r ps) = ap₂ fun (value-after σ ρ r) (values-after σ ρ ps)
  value-after σ ρ (tuple ts) = ap tuple (values-after σ ρ ts)
  value-after σ ρ (array t) = ap array (value-after σ ρ t)
  value-after σ ρ (option t) = ap option (value-after σ ρ t)
  value-after σ ρ (var p) = refl

  values-after :
      (σ ρ : Assignment) (ts : Tys) → values (λ p. value σ (ρ p)) ts ≡ values σ (values ρ ts)
  values-after σ ρ nil = refl
  values-after σ ρ (cons t ts) = ap₂ cons (value-after σ ρ t) (values-after σ ρ ts)

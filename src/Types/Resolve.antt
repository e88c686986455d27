-- ===== src/Types/Resolve.antt =====
-- An acyclic store has a solution: each variable with all links followed.
use gocaml.Base.{
  ℕ, zero, suc, ◌+◌, ◌≤◌, ◌<◌, ◌≡◌, refl, sym, ◌∙◌, ap, Bool, true, false, Option, none, some,
  arith, ltb,
}
use gocaml.Types.{
  Ty, Tys, unit, bool, int, float, string, fun, tuple, array, option, var, nil, cons, Store,
}
use gocaml.Types.Meaning.{Assignment, value, values, Solves}
use gocaml.Types.Bounded.{All, AtRef, Within, InUse, Acyclic}

map_tys : (Ty → Ty) → Tys → Tys
map_tys g nil = nil
map_tys g (cons t ts) = cons (g t) (map_tys g ts)

resolve_var : (Ty → Ty) → ℕ → Option Ty → Ty
resolve_var g p none = var p
resolve_var g p (some t) = g t

-- The type with its links followed to depth `n`.
resolve : ℕ → Store → Ty → Ty
unfolding map_tys resolve_var
resolve zero s t = t
resolve (suc n) s (fun r ps) = fun (resolve n s r) (map_tys (resolve n s) ps)
resolve (suc n) s (tuple ts) = tuple (map_tys (resolve n s) ts)
resolve (suc n) s (array t) = array (resolve n s t)
resolve (suc n) s (option t) = option (resolve n s t)
resolve (suc n) s (var p) = resolve_var (resolve n s) p (s.cell p).ref
resolve (suc n) s t = t

module _ (g h : Ty → Ty) (P : Ty → Type 0) (same : (t : Ty) → P t → g t ≡ h t) where
  map_tys-same : (ts : Tys) → All P ts → map_tys g ts ≡ map_tys h ts
  unfolding map_tys
  map_tys-same nil a = refl
  map_tys-same (cons t ts) a = cc (same t a.0, map_tys-same ts a.1)

  resolve_var-same : (p : ℕ) (o : Option Ty) → AtRef P o → resolve_var g p o ≡ resolve_var h p o
  unfolding resolve_var
  resolve_var-same p none a = refl
  resolve_var-same p (some t) a = same t a

-- A depth that is enough gives the same type as any greater depth.
resolve-stable :
    (s : Store) (n m : ℕ) (t : Ty) → n ≤ m → Within (InUse s) n s t → resolve n s t ≡ resolve m s t
unfolding resolve
resolve-stable s zero m t le h = absurd h
resolve-stable s (suc n) zero t le h = absurd (omega arith)
resolve-stable s (suc n) (suc m) (fun r ps) le h = cc (
  resolve-stable s n m r (omega arith) h.0,
  map_tys-same _ _ _ (λ t. resolve-stable s n m t (omega arith)) ps h.1,
)
resolve-stable s (suc n) (suc m) (tuple ts) le h =
    ap tuple (map_tys-same _ _ _ (λ t. resolve-stable s n m t (omega arith)) ts h)
resolve-stable s (suc n) (suc m) (array t) le h = ap array (resolve-stable s n m t (omega arith) h)
resolve-stable s (suc n) (suc m) (option t) le h =
    ap option (resolve-stable s n m t (omega arith) h)
resolve-stable s (suc n) (suc m) (var p) le h =
    resolve_var-same _ _ _ (λ t. resolve-stable s n m t (omega arith)) p (s.cell p).ref h.1
resolve-stable s (suc n) (suc m) _ le h = refl

-- Two depths that are both enough.
resolve-agree :
    (s : Store) (n m : ℕ) (t : Ty)
    → Within (InUse s) n s t
    → Within (InUse s) m s t
    → resolve n s t ≡ resolve m s t
resolve-agree s n m t h g =
    resolve-stable s n (n + m) t (omega arith) h
    ∙ sym (resolve-stable s m (n + m) t (omega arith) g)

module _ (s : Store) (a : Acyclic s) where
  resolved_at : (p : ℕ) → (b : Bool) → ltb p s.next ≡ b → Ty
  resolved_at p true e = resolve (a.ends p (ground arith)).0 s (var p)
  resolved_at p false e = var p

  pub resolved : Assignment
  resolved p = resolved_at p (ltb p s.next) refl

  resolved-used :
      (p n : ℕ) (b : Bool) (e : ltb p s.next ≡ b)
      → p < s.next
      → Within (InUse s) n s (var p)
      → resolved_at p b e ≡ resolve n s (var p)
  unfolding resolved_at
  resolved-used p n true e used h = resolve-agree s _ n (var p) (a.ends p _).1 h
  resolved-used p n false e used h = absurd (ground arith)

  map_tys-values :
      (n : ℕ)
      → ((t : Ty) → Within (InUse s) n s t → resolve n s t ≡ value resolved t)
      → (ts : Tys) → All (Within (InUse s) n s) ts
      → map_tys (resolve n s) ts ≡ values resolved ts
  unfolding map_tys values
  map_tys-values n same nil h = refl
  map_tys-values n same (cons t ts) h = cc (same t h.0, map_tys-values n same ts h.1)

  resolve-value : (n : ℕ) (t : Ty) → Within (InUse s) n s t → resolve n s t ≡ value resolved t
  unfolding value resolve resolved
  resolve-value zero t h = absurd h
  resolve-value (suc n) (fun r ps) h =
      cc (resolve-value n r h.0, map_tys-values n (resolve-value n) ps h.1)
  resolve-value (suc n) (tuple ts) h = ap tuple (map_tys-values n (resolve-value n) ts h)
  resolve-value (suc n) (array t) h = ap array (resolve-value n t h)
  resolve-value (suc n) (option t) h = ap option (resolve-value n t h)
  resolve-value (suc n) (var p) h = sym (resolved-used p (suc n) _ refl h.0 h)
  resolve-value (suc n) unit h = refl
  resolve-value (suc n) bool h = refl
  resolve-value (suc n) int h = refl
  resolve-value (suc n) float h = refl
  resolve-value (suc n) string h = refl

  resolve-link :
      (p n : ℕ) (t : Ty) → (s.cell p).ref ≡ some t → resolve (suc n) s (var p) ≡ resolve n s t
  unfolding resolve
  resolve-link p n t e = rw (e, resolve_var)

  resolved-link :
      (p n : ℕ) (t : Ty)
      → (s.cell p).ref ≡ some t
      → Within (InUse s) n s (var p)
      → resolved p ≡ value resolved t
  unfolding resolved
  resolved-link p zero t e h = absurd h
  resolved-link p (suc n) t e h =
      resolved-used p (suc n) _ refl h.0 h ∙ resolve-link p n t e ∙ resolve-value n t (rw e at h.1)

  link-used :
      (p : ℕ) (t : Ty) → (s.cell p).ref ≡ some t → (b : Bool) → ltb p s.next ≡ b → p < s.next
  link-used p t e true c = ground arith
  link-used p t e false c = cc (e, a.beyond p (ground arith))

  -- Following all links solves every link.
  pub resolved-Solves : Solves resolved s
  resolved-Solves p t e = let (n, h) = a.ends p (link-used p t e _ refl) in resolved-link p n t e h

  resolve-free : (p n : ℕ) → (s.cell p).ref ≡ none → resolve (suc n) s (var p) ≡ var p
  unfolding resolve
  resolve-free p n e = rw (e, resolve_var)

  resolved-ends :
      (p n : ℕ) → (s.cell p).ref ≡ none → Within (InUse s) n s (var p) → resolved p ≡ var p
  unfolding resolved
  resolved-ends p zero e h = absurd h
  resolved-ends p (suc n) e h = resolved-used p (suc n) _ refl h.0 h ∙ resolve-free p n e

  -- A free variable stands for itself.
  pub resolved-free : (p : ℕ) → p < s.next → (s.cell p).ref ≡ none → resolved p ≡ var p
  resolved-free p u e = let (n, h) = a.ends p u in resolved-ends p n e h

  pub resolved-beyond : (p : ℕ) → s.next ≤ p → resolved p ≡ var p
  unfolding resolved resolved_at
  resolved-beyond p le = beyond (ltb p s.next) refl
    where
      beyond : (b : Bool) (e : ltb p s.next ≡ b) → resolved_at p b e ≡ var p
      beyond true e = absurd (ground arith)
      beyond false e = refl

-- ===== src/Types/Bounded.antt =====
-- Types that end under a store: following links from them stops, at a known depth.
use gocaml.Base.{
  ℕ, zero, suc, ◌+◌, ◌==◌, ==_iff, Bool-cases, inl, inr, ◌≤◌, ◌<◌, ◌≡◌, ◌≢◌, refl, Option, none,
  some, arith, ◌==◌,
}
use gocaml.Types.{
  Ty, Tys, unit, bool, int, float, string, fun, tuple, array, option, var, nil, cons, Store,
  set_ref,
}
use gocaml.Types.Meaning.{SameRefs}

abbrev pub All : (Ty → Type 0) → Tys → Type 0
All P nil = Unit
All P (cons t ts) = P t × All P ts

pub All-map : (P Q : Ty → Type 0) → ((t : Ty) → P t → Q t) → (ts : Tys) → All P ts → All Q ts
All-map P Q g nil h = tt
All-map P Q g (cons t ts) h = (g t h.0, All-map P Q g ts h.1)

abbrev pub AtRef : (Ty → Type 0) → Option Ty → Type 0
AtRef P none = Unit
AtRef P (some t) = P t

AtRef-map : (P Q : Ty → Type 0) → ((t : Ty) → P t → Q t) → (o : Option Ty) → AtRef P o → AtRef Q o
AtRef-map P Q g none h = tt
AtRef-map P Q g (some t) h = g t h

-- Every path through constructors and links of `t` is shorter than `n`, meets only `Good`
-- addresses.
abbrev pub Within : (ℕ → Type 0) → ℕ → Store → Ty → Type 0
Within Good zero s t = ⊥
Within Good (suc n) s (fun r ps) = Within Good n s r × All (Within Good n s) ps
Within Good (suc n) s (tuple ts) = All (Within Good n s) ts
Within Good (suc n) s (array t) = Within Good n s t
Within Good (suc n) s (option t) = Within Good n s t
Within Good (suc n) s (var p) = Good p × AtRef (Within Good n s) (s.cell p).ref
Within Good (suc n) s t = Unit

-- From one store to another that has the same links at the addresses which are met.
pub Within-map :
    (G H : ℕ → Type 0) (s s' : Store)
    → ((p : ℕ) → G p → H p × ((s'.cell p).ref ≡ (s.cell p).ref))
    → (n m : ℕ) (t : Ty) → n ≤ m
    → Within G n s t
    → Within H m s' t
Within-map G H s s' g zero m t le h = absurd h
Within-map G H s s' g (suc n) zero t le h = absurd (omega arith)
Within-map G H s s' g (suc n) (suc m) (fun r ps) le h =
    let down = λ (t : Ty). Within-map G H s s' g n m t (omega arith) in
    (down r h.0, All-map _ _ down ps h.1)
Within-map G H s s' g (suc n) (suc m) (tuple ts) le h =
    All-map _ _ (λ t. Within-map G H s s' g n m t (omega arith)) ts h
Within-map G H s s' g (suc n) (suc m) (array t) le h = Within-map G H s s' g n m t (omega arith) h
Within-map G H s s' g (suc n) (suc m) (option t) le h = Within-map G H s s' g n m t (omega arith) h
Within-map G H s s' g (suc n) (suc m) (var p) le h =
    let (ok, same) = g p h.0 in
    (
      ok,
      rw same (AtRef-map _ _ (λ t. Within-map G H s s' g n m t (omega arith)) (s.cell p).ref h.1),
    )
Within-map G H s s' g (suc n) (suc m) unit le h = tt
Within-map G H s s' g (suc n) (suc m) bool le h = tt
Within-map G H s s' g (suc n) (suc m) int le h = tt
Within-map G H s s' g (suc n) (suc m) float le h = tt
Within-map G H s s' g (suc n) (suc m) string le h = tt

-- Addresses in use.
abbrev pub InUse : Store → ℕ → Type 0
InUse s p = p < s.next

-- Addresses in use other than `v`.
abbrev pub Avoiding : ℕ → Store → ℕ → Type 0
Avoiding v s p = (p < s.next) × (p ≢ v)

-- Following links from `t` stops.
abbrev pub Finite : Store → Ty → Type 0
Finite s t = (n : ℕ) × Within (InUse s) n s t

-- No chain of links is endless, and no cell beyond those in use is linked.
pub record Acyclic (s : Store) : Type 0 where
  pub ends : (p : ℕ) → p < s.next → Finite s (var p)
  pub beyond : (p : ℕ) → s.next ≤ p → (s.cell p).ref ≡ none

pub set_ref-same :
    (s s' : Store) (v : ℕ) (u : Ty)
    → SameRefs s s'
    → (p : ℕ) → p ≢ v
    → ((set_ref v u s').cell p).ref ≡ (s.cell p).ref
set_ref-same s s' v u same p ne = ground (arith, same p)

pub set_ref_self : (s : Store) (v : ℕ) (u : Ty) → ((set_ref v u s).cell v).ref ≡ some u
set_ref_self s v u = ground arith

pub All-Finite :
    (s : Store) (P : Ty → Type 0)
    → ((t : Ty) → P t → Finite s t)
    → (ts : Tys) → All P ts
    → (n : ℕ) × All (Within (InUse s) n s) ts
All-Finite s P g nil h = (0, tt)
All-Finite s P g (cons t ts) h =
    let (n, a) = g t h.0 in
    let (m, b) = All-Finite s P g ts h.1 in
    (
      n + m,
      (
        Within-map _ _ s s (λ p x. (x, refl)) n (n + m) t (omega arith) a,
        All-map _ _ (λ u. Within-map _ _ s s (λ p x. (x, refl)) m (n + m) u (omega arith)) ts b,
      ),
    )

-- A type that ends under one store ends under every acyclic store with the same cells in use.
pub Finite-move :
    (s s' : Store)
    → Acyclic s'
    → s'.next ≡ s.next
    → (n : ℕ) (t : Ty) → Within (InUse s) n s t
    → Finite s' t
Finite-move s s' a e zero t h = absurd h
Finite-move s s' a e (suc n) (fun r ps) h =
    let (m, ends) = All-Finite s' (Within (InUse s) n s) (Finite-move s s' a e n) (cons r ps) h in
    (suc m, ends)
Finite-move s s' a e (suc n) (tuple ts) h =
    let (m, ends) = All-Finite s' (Within (InUse s) n s) (Finite-move s s' a e n) ts h in
    (suc m, ends)
Finite-move s s' a e (suc n) (array t) h =
    let (m, ends) = Finite-move s s' a e n t h in (suc m, ends)
Finite-move s s' a e (suc n) (option t) h =
    let (m, ends) = Finite-move s s' a e n t h in (suc m, ends)
Finite-move s s' a e (suc n) (var p) h = a.ends p (omega (arith, h.0))
Finite-move s s' a e (suc n) unit h = (1, tt)
Finite-move s s' a e (suc n) bool h = (1, tt)
Finite-move s s' a e (suc n) int h = (1, tt)
Finite-move s s' a e (suc n) float h = (1, tt)
Finite-move s s' a e (suc n) string h = (1, tt)

-- After a link from a free `v` to a type that ends, what ended still ends.
pub Within-link :
    (s s' : Store) (v k : ℕ)
    → s'.next ≡ s.next
    → ((p : ℕ) → p ≢ v → (s'.cell p).ref ≡ (s.cell p).ref)
    → Within (InUse s') k s' (var v)
    → (n m : ℕ) (t : Ty) → n + k ≤ m
    → Within (InUse s) n s t
    → Within (InUse s') m s' t
Within-link s s' v k e same ends zero m t le h = absurd h
Within-link s s' v k e same ends (suc n) zero t le h = absurd (omega arith)
Within-link s s' v k e same ends (suc n) (suc m) (fun r ps) le h =
    let down = λ (t : Ty). Within-link s s' v k e same ends n m t (omega arith) in
    (down r h.0, All-map _ _ down ps h.1)
Within-link s s' v k e same ends (suc n) (suc m) (tuple ts) le h =
    All-map _ _ (λ t. Within-link s s' v k e same ends n m t (omega arith)) ts h
Within-link s s' v k e same ends (suc n) (suc m) (array t) le h =
    Within-link s s' v k e same ends n m t (omega arith) h
Within-link s s' v k e same ends (suc n) (suc m) (option t) le h =
    Within-link s s' v k e same ends n m t (omega arith) h
Within-link s s' v k e same ends (suc n) (suc m) (var p) le h = elim (Bool-cases (p == v)) [
  | inl hit ↦
      rw ((==_iff p v).0 hit)
        (Within-map _ _ s' s' (λ q u. (u, refl)) k (suc m) (var v) (omega arith) ends)
  | inr miss ↦ (
    omega (arith, h.0),
    rw (same p (λ x. cc (miss, (==_iff p v).1 x))) (
        AtRef-map _ _ (λ t. Within-link s s' v k e same ends n m t (omega arith)) (s.cell p).ref
          h.1),
  )
]
Within-link s s' v k e same ends (suc n) (suc m) unit le h = tt
Within-link s s' v k e same ends (suc n) (suc m) bool le h = tt
Within-link s s' v k e same ends (suc n) (suc m) int le h = tt
Within-link s s' v k e same ends (suc n) (suc m) float le h = tt
Within-link s s' v k e same ends (suc n) (suc m) string le h = tt

-- ===== src/Sema/Unify/Terminates.antt =====
-- `unify` ends on types that end in an acyclic store, and leaves an acyclic store.
use gocaml.Base.{
  ℕ, zero, suc, ◌+◌, ◌≤◌, ◌<◌, ◌≡◌, ◌≢◌, refl, Option, none, some, arith, ◌==◌, inl, inr,
  Bool-cases,
}
use gocaml.Types.{Ty, unit, bool, int, float, string, fun, tuple, array, option, var, Store}
use gocaml.Types.Free.{free_count}
use gocaml.Types.Meaning.{Assignment, value, Solves}
use gocaml.Types.Resolve.{resolved, resolved-Solves}
use gocaml.Sema.Unify.Solutions.{unify_mgu}
use gocaml.Types.Bounded.{AtRef, Within, InUse, Acyclic, Finite}
use gocaml.Sema.Unify.{
  Outcome, ok, err, panic, no_fuel, follow_both, follow_left, follow_right, unify,
}
use gocaml.Sema.Unify.Settled.{Settled, Settled-Stable, free_count-Settled, assign_var-Settled}
use gocaml.Sema.Unify.Fuel.{Stable, unify-Stable}
use gocaml.Sema.Unify.Halts.{Halts, Lower, Inner, unify_tuple-Halts, unify_fun-Halts}

module _ (k n : ℕ) (inner : Inner k n) (s : Store) (ac : Acyclic s) (few : free_count s ≤ k) where
  follow_both-Halts :
      (p q a b : ℕ) (o o' : Option Ty)
      → (s.cell p).ref ≡ o
      → (s.cell q).ref ≡ o'
      → p < s.next
      → q < s.next
      → AtRef (Within (InUse s) a s) o
      → AtRef (Within (InUse s) b s) o'
      → suc a + b ≤ n
      → (f : ℕ) × Settled s (follow_both f (unify f) p q o o' s)
  unfolding follow_both
  follow_both-Halts p q a b (some t) o' e e' used used' h h' le =
      inner t (var q) s a (suc b) ac few h (used', rw e' h') (omega arith)
  follow_both-Halts p q a b none (some u) e e' used used' h h' le =
      inner (var p) u s (suc a) b ac few (used, rw e h) h' (omega arith)
  follow_both-Halts p q a b none none e e' used used' h h' le =
      (suc b, assign_var-Settled (suc b) p (var q) s ac used e (used', rw e' h'))

  follow_left-Halts :
      (p a b : ℕ) (r : Ty) (o : Option Ty)
      → (s.cell p).ref ≡ o
      → p < s.next
      → AtRef (Within (InUse s) a s) o
      → Within (InUse s) b s r
      → a + b ≤ n
      → (f : ℕ) × Settled s (follow_left f (unify f) p r o s)
  unfolding follow_left
  follow_left-Halts p a b r (some t) e used h h' le = inner t r s a b ac few h h' le
  follow_left-Halts p a b r none e used h h' le = (b, assign_var-Settled b p r s ac used e h')

  follow_right-Halts :
      (l : Ty) (q a b : ℕ) (o : Option Ty)
      → (s.cell q).ref ≡ o
      → q < s.next
      → Within (InUse s) a s l
      → AtRef (Within (InUse s) b s) o
      → a + b ≤ n
      → (f : ℕ) × Settled s (follow_right f (unify f) l q o s)
  unfolding follow_right
  follow_right-Halts l q a b (some t) e used h h' le = inner l t s a b ac few h h' le
  follow_right-Halts l q a b none e used h h' le = (a, assign_var-Settled a q l s ac used e h)

inner : (k : ℕ) → Lower k → (n : ℕ) → Inner k n
unfolding unify
inner k low n l r s zero b ac few hl hr le = absurd hl
inner k low n l r s (suc a) zero ac few hl hr le = absurd hr
inner k low zero l r s (suc a) (suc b) ac few hl hr le = absurd (omega arith)
inner k low (suc n) (var p) (var q) s (suc a) (suc b) ac few hl hr le = elim (Bool-cases (p == q)) [
  | inl same ↦ (1, rw same (ac, refl, inl (λ u. refl)))
  | inr other ↦
      let (f, h) =
        follow_both-Halts k n (inner k low n) s ac few p q a b _ _ refl refl hl.0 hr.0 hl.1 hr.1
          (omega arith) in
      (suc f, rw other h)
]
inner k low (suc n) (var p) r s (suc a) (suc b) ac few hl hr le =
    let (f, h) =
      follow_left-Halts k n (inner k low n) s ac few p a (suc b) r _ refl hl.0 hl.1 hr
        (omega arith) in
    (suc f, h)
inner k low (suc n) l (var q) s (suc a) (suc b) ac few hl hr le =
    let (f, h) =
      follow_right-Halts k n (inner k low n) s ac few l q (suc a) b _ refl hr.0 hl hr.1
        (omega arith) in
    (suc f, h)
inner k low (suc n) (tuple ls) (tuple rs) s (suc a) (suc b) ac few hl hr le =
    let (f, h) =
      unify_tuple-Halts k n low (inner k low n) ls rs s ac
        (inr (few, (a, b, hl, hr, omega arith))) in
    (suc f, h)
inner k low (suc n) (array l) (array r) s (suc a) (suc b) ac few hl hr le =
    let (f, h) = inner k low n l r s a b ac few hl hr (omega arith) in (suc f, h)
inner k low (suc n) (option l) (option r) s (suc a) (suc b) ac few hl hr le =
    let (f, h) = inner k low n l r s a b ac few hl hr (omega arith) in (suc f, h)
inner k low (suc n) (fun l ls) (fun r rs) s (suc a) (suc b) ac few hl hr le =
    let (f, h) =
      unify_fun-Halts k n low (inner k low n) l ls r rs s ac
        (inr (few, (a, b, hl, hr, omega arith))) in
    (suc f, h)
inner k low (suc n) unit unit s (suc a) (suc b) ac few hl hr le = (1, (ac, refl, inl (λ u. refl)))
inner k low (suc n) bool bool s (suc a) (suc b) ac few hl hr le = (1, (ac, refl, inl (λ u. refl)))
inner k low (suc n) int int s (suc a) (suc b) ac few hl hr le = (1, (ac, refl, inl (λ u. refl)))
inner k low (suc n) float float s (suc a) (suc b) ac few hl hr le = (1, (ac, refl, inl (λ u. refl)))
inner k low (suc n) string string s (suc a) (suc b) ac few hl hr le =
    (1, (ac, refl, inl (λ u. refl)))
inner k low (suc n) l r s (suc a) (suc b) ac few hl hr le = (1, tt)

lower : (k : ℕ) → Lower k
lower zero l r s ac few hl hr = absurd (omega arith)
lower (suc k) l r s ac few (a, hl) (b, hr) =
    inner k (lower k) (a + b) l r s a b ac (omega arith) hl hr (omega arith)

halts : (l r : Ty) (s : Store) → Acyclic s → Finite s l → Finite s r → Halts l r s
halts l r s ac = lower (suc (free_count s)) l r s ac (omega arith)

Settled-ne-no_fuel : (s : Store) (m : Outcome Store) → Settled s m → m ≢ no_fuel
Settled-ne-no_fuel s (ok s') h e = cc
Settled-ne-no_fuel s (err x) h e = cc
Settled-ne-no_fuel s panic h e = cc
Settled-ne-no_fuel s no_fuel h e = h

settled_answer : (m n : Outcome Store) → m ≢ no_fuel → Stable m n → n ≡ m
settled_answer (ok a) n h e = e
settled_answer (err x) n h e = e
settled_answer panic n h e = e
settled_answer no_fuel n h e = absurd (h refl)

-- On types that end in an acyclic store unification ends: there is an answer, which is a store, an
-- error or a panic, and an amount of fuel from which on that is the answer.
pub unify_total :
    (l r : Ty) (s : Store)
    → Acyclic s
    → Finite s l
    → Finite s r
    → (answer : Outcome Store) × (answer ≢ no_fuel)
      × ((fuel : ℕ) × ((f : ℕ) → fuel ≤ f → unify f l r s ≡ answer))
unify_total l r s ac hl hr =
    let (g, h) = halts l r s ac hl hr in
    let some_answer = Settled-ne-no_fuel s (unify g l r s) h in
    (
      unify g l r s,
      some_answer,
      (g, λ f le. settled_answer _ _ some_answer (unify-Stable g f le l r s)),
    )

-- On types that end in an acyclic store, a unification that succeeds keeps the store acyclic, takes
-- no cell into use, and leaves no more free variables than there were.
pub unify-Acyclic :
    (f : ℕ) (l r : Ty) (s s' : Store)
    → unify f l r s ≡ ok s'
    → Acyclic s
    → Finite s l
    → Finite s r
    → Acyclic s' × (s'.next ≡ s.next) × (free_count s' ≤ free_count s)
unify-Acyclic f l r s s' e ac hl hr =
    let (g, h) = halts l r s ac hl hr in
    let late = Settled-Stable s _ _ (unify-Stable g (f + g) (omega arith) l r s) h in
    let same : unify (f + g) l r s ≡ ok s' = rw e at (unify-Stable f (f + g) (omega arith) l r s) in
    let settled : Settled s (ok s') = rw same at late in
    (settled.0, settled.1, free_count-Settled s s' settled)

-- After a success on types that end in an acyclic store the two types have a common value in some
-- solution of the new store, which solves the old one too.
pub unify_solvable :
    (f : ℕ) (l r : Ty) (s s' : Store)
    → unify f l r s ≡ ok s'
    → Acyclic s
    → Finite s l
    → Finite s r
    → (θ : Assignment) × Solves θ s' × Solves θ s × (value θ l ≡ value θ r)
unify_solvable f l r s s' e ac hl hr =
    let ac' = (unify-Acyclic f l r s s' e ac hl hr).0 in
    let solves = resolved-Solves s' ac' in
    let (old, eq) = (unify_mgu f l r s s' e (resolved s' ac')).0 solves in
    (resolved s' ac', solves, old, eq)

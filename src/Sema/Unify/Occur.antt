-- ===== src/Sema/Unify/Occur.antt =====
-- `occur`: what it leaves alone, and what its answer means for every solution of the store.
use gocaml.Base.{
  ℕ, zero, suc, ◌+◌, ◌≤◌, ◌≡◌, refl, ◌∙◌, Bool, true, false, Option, none, some, arith, ltb_ℤ, ℤ,
  ◌==◌, ==_iff, if◌then◌else◌,
}
use gocaml.Types.{Ty, Tys, fun, tuple, array, option, var, nil, cons, Store, is_generic, set_level}
use gocaml.Types.Meaning.{Assignment, value, values, size, sizes, Solves, SameRefs, Solves-SameRefs}
use gocaml.Sema.Unify.{
  Outcome, ok, err, panic, no_fuel, ◌>>=◌, Visit, occur, occur_any, occur_var, occur_fun,
}

-- A visit that ends leaves the links alone, and if it says `true` the bound `n` holds.
abbrev pub Visited :
    Store → ℕ → (Assignment → ℕ) → (Assignment → ℕ) → Outcome (Bool × Store) → Type 0
Visited s k small big (ok (b, s')) =
    SameRefs s s' × (b ≡ true → (θ : Assignment) → Solves θ s → small θ + k ≤ big θ)
Visited s k small big (err e) = ⊥
Visited s k small big panic = Unit
Visited s k small big no_fuel = Unit

-- Constructors are strictly larger than what they hold.
abbrev pub weight : Ty → ℕ
weight (var p) = 0
weight _ = 1

Visited-bind :
    (s : Store) (i j : ℕ) (small big big' : Assignment → ℕ) (m : Outcome (Bool × Store))
    (k : Bool × Store → Outcome (Bool × Store))
    → Visited s i small big m
    → ((b : Bool) (s' : Store)
        → Visited s i small big (ok (b, s'))
        → Visited s j small big' (k (b, s')))
    → Visited s j small big' (m >>= k)
Visited-bind s i j small big big' (ok (b, s')) k h next = next b s' h
Visited-bind s i j small big big' (err e) k h next = absurd h
Visited-bind s i j small big big' panic k h next = tt
Visited-bind s i j small big big' no_fuel k h next = tt

-- The visit goes on from a store with the same links.
Visited-after :
    (s s' : Store) (j : ℕ) (small big big' : Assignment → ℕ) (m : Outcome (Bool × Store))
    → SameRefs s s'
    → ((θ : Assignment) → Solves θ s → big θ ≤ big' θ)
    → Visited s' j small big m
    → Visited s j small big' m
Visited-after s s' j small big big' (ok (b, u)) same grows h = (
  λ p. h.0 p ∙ same p,
  λ e θ sol. omega (arith, h.1 e θ (Solves-SameRefs s s' θ same sol), grows θ sol),
)
Visited-after s s' j small big big' (err e) same grows h = absurd h
Visited-after s s' j small big big' panic same grows h = tt
Visited-after s s' j small big big' no_fuel same grows h = tt

Visited-weaken :
    (s : Store) (i : ℕ) (small big : Assignment → ℕ) (m : Outcome (Bool × Store))
    → Visited s i small big m
    → Visited s 0 small big m
Visited-weaken s i small big (ok (b, s')) h = (h.0, λ e θ sol. omega (arith, h.1 e θ sol))
Visited-weaken s i small big (err e) h = absurd h
Visited-weaken s i small big panic h = tt
Visited-weaken s i small big no_fuel h = tt

-- A constructor adds one to the size.
Visited-suc :
    (s : Store) (small big : Assignment → ℕ) (m : Outcome (Bool × Store))
    → Visited s 0 small big m
    → Visited s 1 small (λ θ. suc (big θ)) m
Visited-suc s small big (ok (b, s')) h = (h.0, λ e θ sol. omega (arith, h.1 e θ sol))
Visited-suc s small big (err e) h = absurd h
Visited-suc s small big panic h = tt
Visited-suc s small big no_fuel h = tt

-- Stop at a find, and go on from the new store otherwise.
Visited-if :
    (s s' : Store) (i : ℕ) (small big rest total : Assignment → ℕ) (b : Bool)
    (m : Outcome (Bool × Store))
    → Visited s i small big (ok (b, s'))
    → ((θ : Assignment) → big θ ≤ total θ)
    → ((θ : Assignment) → rest θ ≤ total θ)
    → Visited s' 0 small rest m
    → Visited s 0 small total (if b then ok (true, s') else m)
Visited-if s s' i small big rest total true m h below _ _ =
    (h.0, λ e θ sol. omega (arith, h.1 refl θ sol, below θ))
Visited-if s s' i small big rest total false m h _ below after =
    Visited-after s s' 0 small rest total m h.0 (λ θ _. below θ) after

abbrev Finds : ℕ → Visit → Type 0
Finds v rec =
    (t : Ty) (s : Store) → Visited s (weight t) (λ θ. size (θ v)) (λ θ. size (value θ t)) (rec t s)

occur_any-Visited :
    (v : ℕ) (rec : Visit)
    → Finds v rec
    → (ts : Tys) (s : Store)
    → Visited s 0 (λ θ. size (θ v)) (λ θ. sizes (values θ ts)) (occur_any rec ts s)
unfolding occur_any values sizes
occur_any-Visited v rec finds nil s = (λ p. refl, λ e. cc)
occur_any-Visited v rec finds (cons t ts) s =
    Visited-bind s _ _ _ (λ θ. size (value θ t)) _ (rec t s) _ (finds t s)
      (λ b s' h.
        Visited-if s s' _ _ (λ θ. size (value θ t)) (λ θ. sizes (values θ ts)) _ b _ h
          (λ θ. omega arith) (λ θ. omega arith) (occur_any-Visited v rec finds ts s'))

occur_fun-Visited :
    (v : ℕ) (rec : Visit)
    → Finds v rec
    → (r : Ty) (ps : Tys) (s : Store)
    → Visited s 0
        (λ θ. size (θ v))
        (λ θ. size (value θ r) + sizes (values θ ps))
        (occur_fun rec r ps s)
unfolding occur_fun
occur_fun-Visited v rec finds r ps s =
    Visited-bind s _ _ _ (λ θ. size (value θ r)) _ (rec r s) _ (finds r s)
      (λ b s' h.
        Visited-if s s' _ _ (λ θ. size (value θ r)) (λ θ. sizes (values θ ps)) _ b _ h
          (λ θ. omega arith) (λ θ. omega arith) (occur_any-Visited v rec finds ps s'))

SameRefs-set_level : (s : Store) (p : ℕ) (l : ℤ) → SameRefs s (set_level p l s)
SameRefs-set_level s p l q = ground arith

free-Visited :
    (v p : ℕ) (s s' : Store) (panics same : Bool)
    → (same ≡ true → v ≡ p)
    → SameRefs s s'
    → Visited s 0
        (λ θ. size (θ v))
        (λ θ. size (θ p))
        (if panics then panic else if same then ok (true, s) else ok (false, s'))
free-Visited v p s s' true same h r = tt
free-Visited v p s s' false true h r = (λ q. refl, λ e θ sol. rw (h refl) (omega arith))
free-Visited v p s s' false false h r = (r, λ e. cc)

SameRefs-if : (b : Bool) (s s' : Store) → SameRefs s s' → SameRefs s (if b then s' else s)
SameRefs-if true s s' h = h
SameRefs-if false s s' h = λ q. refl

-- A free variable is found where it is itself, and otherwise only its level may change.
occur_var-Visited :
    (v p : ℕ) (rec : Visit)
    → Finds v rec
    → (o : Option Ty) (s : Store) → (s.cell p).ref ≡ o
    → Visited s 0 (λ θ. size (θ v)) (λ θ. size (θ p)) (occur_var rec v p o s)
unfolding occur_var
occur_var-Visited v p rec finds (some t) s e =
    Visited-after s s 0 _ (λ θ. size (value θ t)) (λ θ. size (θ p)) (rec t s) (λ q. refl)
      (λ θ sol. rw (sol p t e) (omega arith))
      (Visited-weaken s (weight t) _ _ (rec t s) (finds t s))
occur_var-Visited v p rec finds none s e =
    free-Visited v p s _ (is_generic s p) (v == p) (==_iff v p).0 (
      SameRefs-if (ltb_ℤ (s.cell v).level (s.cell p).level) s _
        (SameRefs-set_level s p (s.cell v).level))

-- What `occur` finds is inside the type, in every solution; and it changes no link.
pub occur-Visited : (f v : ℕ) → Finds v (occur f v)
unfolding occur value size
occur-Visited zero v t s = tt
occur-Visited (suc f) v (tuple ts) s =
    Visited-suc s _ _ _ (occur_any-Visited v (occur f v) (occur-Visited f v) ts s)
occur-Visited (suc f) v (fun r ps) s =
    Visited-suc s _ _ _ (occur_fun-Visited v (occur f v) (occur-Visited f v) r ps s)
occur-Visited (suc f) v (array t) s =
    Visited-suc s _ _ _ (Visited-weaken s (weight t) _ _ _ (occur-Visited f v t s))
occur-Visited (suc f) v (option t) s =
    Visited-suc s _ _ _ (Visited-weaken s (weight t) _ _ _ (occur-Visited f v t s))
occur-Visited (suc f) v (var p) s = occur_var-Visited v p (occur f v) (occur-Visited f v) _ s refl
occur-Visited (suc f) v _ s = (λ q. refl, λ e. cc)

free-Strict :
    (v p : ℕ) (s s' : Store) (panics same : Bool)
    → same ≡ false
    → SameRefs s s'
    → Visited s 1
        (λ θ. size (θ v))
        (λ θ. size (θ p))
        (if panics then panic else if same then ok (true, s) else ok (false, s'))
free-Strict v p s s' true same h r = tt
free-Strict v p s s' false true h r = cc
free-Strict v p s s' false false h r = (r, λ e. cc)

occur_var-Strict :
    (v p : ℕ) (rec : Visit) (o : Option Ty) (s : Store)
    → o ≡ none
    → (v == p) ≡ false
    → Visited s 1 (λ θ. size (θ v)) (λ θ. size (θ p)) (occur_var rec v p o s)
unfolding occur_var
occur_var-Strict v p rec (some t) s e ne = cc
occur_var-Strict v p rec none s e ne = free-Strict v p s _ (is_generic s p) (v == p) ne (
    SameRefs-if (ltb_ℤ (s.cell v).level (s.cell p).level) s _
      (SameRefs-set_level s p (s.cell v).level))

-- Another free variable is never found.
pub occur-Strict :
    (f v p : ℕ) (s : Store)
    → (s.cell p).ref ≡ none
    → (v == p) ≡ false
    → Visited s 1 (λ θ. size (θ v)) (λ θ. size (value θ (var p))) (occur f v (var p) s)
unfolding occur value
occur-Strict zero v p s e ne = tt
occur-Strict (suc f) v p s e ne = occur_var-Strict v p (occur f v) _ s e ne

-- ===== src/Sema/Unify/OccurEnds.antt =====
-- `occur` ends on a type that ends, and when it finds nothing the type ends without the variable.
use gocaml.Base.{
  ℕ, zero, suc, ◌<◌, ◌≡◌, refl, sym, ◌∙◌, Bool, true, false, Option, none, some, arith, ℤ, ◌==◌,
  ==_iff, if◌then◌else◌,
}
use gocaml.Types.{Ty, Tys, fun, tuple, array, option, var, nil, cons, Store, is_generic, set_level}
use gocaml.Types.Meaning.{SameRefs}
use gocaml.Types.Bounded.{All, All-map, AtRef, Within, Within-map, InUse, Avoiding}
use gocaml.Sema.Unify.{
  Outcome, ok, err, panic, no_fuel, ◌>>=◌, Visit, occur, occur_any, occur_var, occur_fun,
}

-- The visit ended; `C` holds if nothing was found.
abbrev pub Ended : Store → Type 0 → Outcome (Bool × Store) → Type 0
Ended s C (ok (b, s')) = SameRefs s s' × (s'.next ≡ s.next) × (b ≡ false → C)
Ended s C (err e) = ⊥
Ended s C panic = Unit
Ended s C no_fuel = ⊥

Ended-after :
    (s s' : Store) (C D : Type 0) (m : Outcome (Bool × Store))
    → SameRefs s s'
    → s'.next ≡ s.next
    → (C → D)
    → Ended s' C m
    → Ended s D m
Ended-after s s' C D (ok (b, u)) same next g h = (λ p. h.0 p ∙ same p, h.1 ∙ next, λ e. g (h.2 e))
Ended-after s s' C D (err e) same next g h = h
Ended-after s s' C D panic same next g h = tt
Ended-after s s' C D no_fuel same next g h = h

-- One visit, and the next one unless the first found the variable.
Ended-then :
    (s : Store) (C D : Type 0) (m : Outcome (Bool × Store)) (k : Store → Outcome (Bool × Store))
    → Ended s C m
    → ((s' : Store) → SameRefs s s' → s'.next ≡ s.next → Ended s' D (k s'))
    → Ended s (C × D) (m >>= (λ (b, s'). if b then ok (true, s') else k s'))
Ended-then s C D (ok (true, s')) k h next = (h.0, h.1, λ e. cc)
Ended-then s C D (ok (false, s')) k h next =
    Ended-after s s' D (C × D) (k s') h.0 h.1 (λ d. (h.2 refl, d)) (next s' h.0 h.1)
Ended-then s C D (err e) k h next = h
Ended-then s C D panic k h next = tt
Ended-then s C D no_fuel k h next = h

-- The answer for a part `t` at depth `n`.
abbrev Part : ℕ → ℕ → Visit → Type 0
Part v n rec =
    (t : Ty) (s : Store)
    → (s.cell v).ref ≡ none
    → Within (InUse s) n s t
    → Ended s (Within (Avoiding v s) n s t) (rec t s)

pub Within-same :
    (s s' : Store)
    → SameRefs s s'
    → s'.next ≡ s.next
    → (n : ℕ) (t : Ty) → Within (InUse s) n s t
    → Within (InUse s') n s' t
Within-same s s' same next n t =
    Within-map _ _ s s' (λ p u. (omega arith, same p)) n n t (omega arith)

Avoiding-same :
    (v : ℕ) (s s' : Store)
    → SameRefs s s'
    → s'.next ≡ s.next
    → (n : ℕ) (t : Ty) → Within (Avoiding v s') n s' t
    → Within (Avoiding v s) n s t
Avoiding-same v s s' same next n t =
    Within-map _ _ s' s (λ p u. ((omega (arith, u.0), u.1), sym (same p))) n n t (omega arith)

occur_any-Ended :
    (v n : ℕ) (rec : Visit)
    → Part v n rec
    → (ts : Tys) (s : Store) → (s.cell v).ref ≡ none
    → All (Within (InUse s) n s) ts
    → Ended s (All (Within (Avoiding v s) n s) ts) (occur_any rec ts s)
unfolding occur_any
occur_any-Ended v n rec part nil s free h = (λ p. refl, refl, λ e. tt)
occur_any-Ended v n rec part (cons t ts) s free h =
    Ended-then s _ _ (rec t s) (occur_any rec ts) (part t s free h.0) (λ s' same next.
      Ended-after s' s' _ _ _ (λ p. refl) refl (All-map _ _ (Avoiding-same v s s' same next n) ts)
        (occur_any-Ended v n rec part ts s' (same v ∙ free)
          (All-map _ _ (Within-same s s' same next n) ts h.1)))

occur_fun-Ended :
    (v n : ℕ) (rec : Visit)
    → Part v n rec
    → (r : Ty) (ps : Tys) (s : Store) → (s.cell v).ref ≡ none
    → Within (InUse s) n s r
    → All (Within (InUse s) n s) ps
    → Ended s
        (Within (Avoiding v s) n s r × All (Within (Avoiding v s) n s) ps)
        (occur_fun rec r ps s)
unfolding occur_fun
occur_fun-Ended v n rec part r ps s free h g =
    Ended-then s _ _ (rec r s) (occur_any rec ps) (part r s free h) (λ s' same next.
      Ended-after s' s' _ _ _ (λ p. refl) refl (All-map _ _ (Avoiding-same v s s' same next n) ps)
        (occur_any-Ended v n rec part ps s' (same v ∙ free)
          (All-map _ _ (Within-same s s' same next n) ps g)))

free-Ended :
    (s s' : Store) (C : Type 0) (panics same : Bool)
    → SameRefs s s'
    → s'.next ≡ s.next
    → (same ≡ false → C)
    → Ended s C (if panics then panic else if same then ok (true, s) else ok (false, s'))
free-Ended s s' C true same h next g = tt
free-Ended s s' C false true h next g = (λ p. refl, refl, λ e. cc)
free-Ended s s' C false false h next g = (h, next, g)

SameRefs-lowered :
    (s : Store) (p : ℕ) (l : ℤ) (b : Bool) → SameRefs s (if b then set_level p l s else s)
SameRefs-lowered s p l true q = ground arith
SameRefs-lowered s p l false q = refl

next-lowered :
    (s : Store) (p : ℕ) (l : ℤ) (b : Bool) → (if b then set_level p l s else s).next ≡ s.next
next-lowered s p l true = refl
next-lowered s p l false = refl

occur_var-Ended :
    (v n p : ℕ) (rec : Visit)
    → Part v n rec
    → (o : Option Ty) (s : Store) → (s.cell v).ref ≡ none
    → (s.cell p).ref ≡ o
    → p < s.next
    → AtRef (Within (InUse s) n s) o
    → Ended s (Avoiding v s p × AtRef (Within (Avoiding v s) n s) o) (occur_var rec v p o s)
unfolding occur_var
occur_var-Ended v n p rec part (some t) s free e used h =
    Ended-after s s _ _ (rec t s) (λ q. refl) refl (λ w. ((used, λ x. cc), w)) (part t s free h)
occur_var-Ended v n p rec part none s free e used h =
    free-Ended s _ _ (is_generic s p) (v == p) (SameRefs-lowered s p _ _) (next-lowered s p _ _)
      (λ ne. ((used, λ x. cc (ne, (==_iff v p).1 (sym x))), tt))

-- The depth of the type is enough fuel.
pub occur-Ended :
    (v n : ℕ) (t : Ty) (s : Store)
    → (s.cell v).ref ≡ none
    → Within (InUse s) n s t
    → Ended s (Within (Avoiding v s) n s t) (occur n v t s)
unfolding occur
occur-Ended v zero t s free h = h
occur-Ended v (suc n) (tuple ts) s free h =
    occur_any-Ended v n (occur n v) (occur-Ended v n) ts s free h
occur-Ended v (suc n) (fun r ps) s free h =
    occur_fun-Ended v n (occur n v) (occur-Ended v n) r ps s free h.0 h.1
occur-Ended v (suc n) (array t) s free h = occur-Ended v n t s free h
occur-Ended v (suc n) (option t) s free h = occur-Ended v n t s free h
occur-Ended v (suc n) (var p) s free h =
    occur_var-Ended v n p (occur n v) (occur-Ended v n) _ s free refl h.0 h.1
occur-Ended v (suc n) _ s free h = (λ p. refl, refl, λ e. tt)

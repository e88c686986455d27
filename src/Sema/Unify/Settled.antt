-- ===== src/Sema/Unify/Settled.antt =====
-- What unification leaves behind: an acyclic store over the same cells, which either has the same
-- links or fewer free cells.
use gocaml.Base.{
  ℕ, suc, ◌+◌, ◌≤◌, ◌<◌, ◌≡◌, ◌≢◌, refl, ◌∙◌, Bool, true, false, none, arith, if◌then◌else◌, ◌⊎◌,
  inl, inr,
}
use gocaml.Types.{Ty, var, Store, set_ref}
use gocaml.Types.Meaning.{SameRefs}
use gocaml.Types.Free.{free_count, free_count-same, free_count-set_ref}
use gocaml.Types.Bounded.{
  Within, Within-map, Within-link, InUse, Avoiding, Acyclic, set_ref-same, set_ref_self,
}
use gocaml.Sema.Unify.{
  UnifyError, Outcome, ok, err, panic, no_fuel, ◌>>=◌, note, assign_var, occur, unify,
}
use gocaml.Sema.Unify.OccurEnds.{Ended, occur-Ended}
use gocaml.Sema.Unify.Fuel.{Stable, unify-Stable}

abbrev pub Settled : Store → Outcome Store → Type 0
Settled s (ok s') =
    Acyclic s' × (s'.next ≡ s.next) × (SameRefs s s' ⊎ (free_count s' < free_count s))
Settled s (err e) = Unit
Settled s panic = Unit
Settled s no_fuel = ⊥

pub Settled-Stable : (s : Store) (m n : Outcome Store) → Stable m n → Settled s m → Settled s n
Settled-Stable s (ok s') n e h = rw e h
Settled-Stable s (err x) n e h = rw e tt
Settled-Stable s panic n e h = rw e tt
Settled-Stable s no_fuel n e h = absurd h

pub free_count-Settled : (s s' : Store) → Settled s (ok s') → free_count s' ≤ free_count s
free_count-Settled s s' (a, next, inl same) = omega (arith, free_count-same s s' same next)
free_count-Settled s s' (a, next, inr less) = omega arith

SameRefs-trans : (s s' u : Store) → SameRefs s s' → SameRefs s' u → SameRefs s u
SameRefs-trans s s' u h g p = g p ∙ h p

pub Settled-after :
    (s s' : Store) (m : Outcome Store) → Settled s (ok s') → Settled s' m → Settled s m
Settled-after s s' (ok u) (a, next, inl same) (b, next', inl same') =
    (b, next' ∙ next, inl (SameRefs-trans s s' u same same'))
Settled-after s s' (ok u) (a, next, inl same) (b, next', inr less) =
    (b, next' ∙ next, inr (omega (arith, free_count-same s s' same next)))
Settled-after s s' (ok u) (a, next, inr less) (b, next', d) =
    (b, next' ∙ next, inr (omega (arith, free_count-Settled s' u (b, next', d))))
Settled-after s s' (err x) h g = tt
Settled-after s s' panic h g = tt
Settled-after s s' no_fuel h g = g

-- A link from a free variable to a type that ends without it closes no cycle.
pub Acyclic-set_ref :
    (s s' : Store) (v n : ℕ) (t : Ty)
    → SameRefs s s'
    → s'.next ≡ s.next
    → Acyclic s
    → v < s.next
    → Within (Avoiding v s) n s t
    → Acyclic (set_ref v t s')
Acyclic-set_ref s s' v n t same next a used w =
    let u : Store = set_ref v t s' in
    let old : (p : ℕ) → p ≢ v → (u.cell p).ref ≡ (s.cell p).ref = set_ref-same s s' v t same in
    let end : Within (InUse u) n u t =
      Within-map _ _ s u (λ p h. (omega (arith, h.0, next), old p h.1)) n n t (omega arith) w in
    let here : Within (InUse u) (suc n) u (var v) =
      (omega (arith, used, next), rw (set_ref_self s' v t) end) in
    record {
      ends = λ p lt.
          let (m, h) = a.ends p (omega (arith, lt, next)) in
          (
            m + suc n,
            Within-link s u v (suc n) next old here m (m + suc n) (var p) (omega arith) h,
          );
      beyond = λ p le. old p (λ e. absurd (omega arith)) ∙ a.beyond p (omega (arith, le, next));
    }

assigned-Settled :
    (s : Store) (v n : ℕ) (t : Ty) (m : Outcome (Bool × Store))
    → Acyclic s
    → v < s.next
    → (s.cell v).ref ≡ none
    → Ended s (Within (Avoiding v s) n s t) m
    → Settled s
        (m >>= (λ (found, s'). if found then err (UnifyError.cyclic v t) else ok (set_ref v t s')))
assigned-Settled s v n t (ok (true, s')) a used free h = tt
assigned-Settled s v n t (ok (false, s')) a used free h = (
  Acyclic-set_ref s s' v n t h.0 h.1 a used (h.2 refl),
  h.1,
  inr (free_count-set_ref s s' v t h.0 h.1 used free),
)
assigned-Settled s v n t (err x) a used free h = tt
assigned-Settled s v n t panic a used free h = tt
assigned-Settled s v n t no_fuel a used free h = h

pub assign_var-Settled :
    (n v : ℕ) (t : Ty) (s : Store)
    → Acyclic s
    → v < s.next
    → (s.cell v).ref ≡ none
    → Within (InUse s) n s t
    → Settled s (assign_var n v t s)
unfolding assign_var
assign_var-Settled n v t s a used free w =
    assigned-Settled s v n t (occur n v t s) a used free (occur-Ended v n t s free w)

-- One unification of a part, and what comes after it from a settled store.
pub settle_then :
    (w : UnifyError → UnifyError) (l r : Ty) (s : Store) (f : ℕ) (k : ℕ → Store → Outcome Store)
    → ((g h : ℕ) → g ≤ h → (u : Store) → Stable (k g u) (k h u))
    → ((s' : Store) → Settled s (ok s') → (g : ℕ) × Settled s' (k g s'))
    → (m : Outcome Store) → unify f l r s ≡ m
    → Settled s m
    → (g : ℕ) × Settled s (note w (unify g l r s) >>= k g)
settle_then w l r s f k stable next (ok s') e h =
    let (g, after) = next s' h in
    let more : unify (f + g) l r s ≡ ok s' = rw e at (unify-Stable f (f + g) (omega arith) l r s) in
    (
      f + g,
      rw more (
          Settled-after s s' _ h
            (Settled-Stable s' (k g s') (k (f + g) s') (stable g (f + g) (omega arith) s') after)),
    )
settle_then w l r s f k stable next (err x) e h = (f, rw e tt)
settle_then w l r s f k stable next panic e h = (f, rw e tt)
settle_then w l r s f k stable next no_fuel e h = absurd h

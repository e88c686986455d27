-- ===== src/Types/Free.antt =====
-- How many cells in use have no link: unification only ever lowers it.
use gocaml.Base.{
  ℕ, zero, suc, ◌+◌, ◌<◌, ◌≡◌, ◌≢◌, refl, sym, ap, Option, none, some, arith, ◌==◌, Bool-cases, inl,
  inr, ==_iff,
}
use gocaml.Types.{Ty, Var, Store, set_ref}
use gocaml.Types.Meaning.{SameRefs}
use gocaml.Types.Bounded.{set_ref-same, set_ref_self}

abbrev free_at : Option Ty → ℕ
free_at none = 1
free_at (some t) = 0

free_below : ℕ → (ℕ → Var) → ℕ
free_below zero c = 0
free_below (suc k) c = free_at (c k).ref + free_below k c

pub free_count : Store → ℕ
unfolding free_below
free_count s = free_below s.next s.cell

free_below-same :
    (k : ℕ) (c d : ℕ → Var)
    → ((p : ℕ) → p < k → (d p).ref ≡ (c p).ref)
    → free_below k d ≡ free_below k c
unfolding free_below
free_below-same zero c d h = refl
free_below-same (suc k) c d h =
    omega (arith, ap free_at (h k (omega arith)), free_below-same k c d (λ p lt. h p (omega arith)))

pub free_count-same :
    (s s' : Store) → SameRefs s s' → s'.next ≡ s.next → free_count s' ≡ free_count s
unfolding free_count
free_count-same s s' same next = rw next (free_below-same s.next s.cell s'.cell (λ p _. same p))

free_below-link :
    (k v : ℕ) (u : Ty) (c d : ℕ → Var)
    → v < k
    → ((p : ℕ) → p ≢ v → (d p).ref ≡ (c p).ref)
    → (c v).ref ≡ none
    → (d v).ref ≡ some u
    → suc (free_below k d) ≡ free_below k c
unfolding free_below
free_below-link zero v u c d lt same was now = absurd (omega arith)
free_below-link (suc k) v u c d lt same was now = elim (Bool-cases (v == k)) [
  | inl hit ↦
      let e = (==_iff v k).0 hit in
      omega (
        arith,
        rw e at (ap free_at was),
        rw e at (ap free_at now),
        free_below-same k c d (λ p lp. same p (λ x. absurd (omega arith))),
      )
  | inr miss ↦
      let ne : k ≢ v = λ x. cc (miss, (==_iff v k).1 (sym x)) in
      omega (arith, ap free_at (same k ne), free_below-link k v u c d (omega arith) same was now)
]

-- A new link is one free cell less.
pub free_count-set_ref :
    (s s' : Store) (v : ℕ) (u : Ty)
    → SameRefs s s'
    → s'.next ≡ s.next
    → v < s.next
    → (s.cell v).ref ≡ none
    → free_count (set_ref v u s') < free_count s
unfolding free_count
free_count-set_ref s s' v u same next used free = rw next (
    omega (
      arith,
      free_below-link s.next v u s.cell (set_ref v u s').cell used (set_ref-same s s' v u same) free
          (set_ref_self s' v u),
    ))

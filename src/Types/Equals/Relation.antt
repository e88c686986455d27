-- ===== src/Types/Equals/Relation.antt =====
-- types/equals.go: `Equals` as a relation on types that end under a store.
use gocaml.Base.{ℕ, ◌+◌, ◌≤◌, ◌≡◌, refl, sym, ◌∙◌, Bool, true, false, Option, none, some, arith}
use gocaml.Types.{Ty, Store}
use gocaml.Types.Bounded.{InUse, Within, Within-map, Finite}
use gocaml.Types.Equals.{equals}
use gocaml.Types.Equals.Shape.{Shape, shape, Tells, equals-Tells}

Within-more :
    (s : Store) (n f : ℕ) (t : Ty) → n ≤ f → Within (InUse s) n s t → Within (InUse s) f s t
Within-more s n f t le h = Within-map _ _ s s (λ p u. (u, refl)) n f t le h

-- On types that end under the store the comparison ends, with any fuel from their depths on, and
-- answers whether the types have one shape: the same constructors and links, generic variables of
-- the same IDs at the same places, and free variables that are not generic at the same places.
pub equals-Shape :
    (l r : Ty) (s : Store)
    → Finite s l
    → Finite s r
    → (fuel : ℕ) × ((f : ℕ) → fuel ≤ f → Tells (shape f s l) (shape f s r) (equals f s l r))
equals-Shape l r s (n, h) (m, g) = (
  n + m,
  λ f le.
      equals-Tells s f l r (Within-more s n f l (omega (arith, le)) h)
        (Within-more s m f r (omega (arith, le)) g),
)

Tells-true : (a b : Shape) (o : Option Bool) → Tells a b o → o ≡ some true → a ≡ b
Tells-true a b none h e = absurd h
Tells-true a b (some true) h e = h
Tells-true a b (some false) h e = absurd (cc)

true-Tells : (a b : Shape) (o : Option Bool) → Tells a b o → a ≡ b → o ≡ some true
true-Tells a b none h e = absurd h
true-Tells a b (some true) h e = refl
true-Tells a b (some false) h e = absurd (h e)

-- With fuel for three types that end under the store, `Equals` holds of each and itself, the other
-- way round where it holds, and of the first and the third where it holds of the first and the
-- second and of the second and the third.
pub equals-Equivalence :
    (a b c : Ty) (s : Store)
    → Finite s a
    → Finite s b
    → Finite s c
    → (fuel : ℕ) × ((f : ℕ)
        → fuel ≤ f
        → (equals f s a a ≡ some true)
          × (equals f s a b ≡ some true → equals f s b a ≡ some true)
          × (equals f s a b ≡ some true → equals f s b c ≡ some true → equals f s a c ≡ some true))
equals-Equivalence a b c s (n, h) (m, g) (k, i) = (
  n + m + k,
  λ f le.
      let wa = Within-more s n f a (omega (arith, le)) h in
      let wb = Within-more s m f b (omega (arith, le)) g in
      let wc = Within-more s k f c (omega (arith, le)) i in
      let ab = Tells-true _ _ _ (equals-Tells s f a b wa wb) in
      let bc = Tells-true _ _ _ (equals-Tells s f b c wb wc) in
      (
        true-Tells _ _ _ (equals-Tells s f a a wa wa) refl,
        (λ e. true-Tells _ _ _ (equals-Tells s f b a wb wa) (sym (ab e))),
        (λ e e'. true-Tells _ _ _ (equals-Tells s f a c wa wc) (ab e ∙ bc e')),
      ),
)

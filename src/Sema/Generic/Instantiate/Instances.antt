-- ===== src/Sema/Generic/Instantiate/Instances.antt =====
-- sema/generic.go: what `instantiate` returns.
use gocaml.Base.{ℕ, ◌≤◌, ◌<◌, ◌≡◌, inl, inr, refl, ap, ◌∙◌, false, Option, none, some, [], ℤ, eqb_ℤ}
use gocaml.Types.{Ty, Store, generic_level, is_generic}
use gocaml.Types.Meaning.{Assignment, value}
use gocaml.Types.Bounded.{InUse, Within, Within-map, Finite, Acyclic}
use gocaml.Sema.Generic.{Mapping, find, Instantiator, instantiation, inst, instantiate}
use gocaml.Sema.Generic.Copies.{Copies, Vars, Vars-map}
use gocaml.Sema.Generic.Instantiate.{Sound, Substitutes, Monomorphic, growth, inst-Copies}

-- A free variable that is not bound.
abbrev pub Unbound : Store → ℕ → Type 0
Unbound s p = ((s.cell p).ref ≡ none) × (is_generic s p ≡ false)

-- `to` is `t` with each bound variable replaced by the copy that `m` names.
abbrev pub IsInstance : ℤ → Store → Ty → Ty → Mapping → Store → Type 0
IsInstance level s t to m s' =
    ((θ η : Assignment) → Substitutes (m, s') θ η → value θ to ≡ value η t)
    × Vars (Unbound s') to
    × Sound level (m, s')
    × ((x q : ℕ) → find x m ≡ some q → s.next ≤ q)
    × ((p : ℕ) → p < s.next → s'.cell p ≡ s.cell p)
    × (Acyclic s → Acyclic s')

Monomorphic-Unbound :
    (level : ℤ) (m : Mapping) (s : Store)
    → eqb_ℤ level generic_level ≡ false
    → Sound level (m, s)
    → (p : ℕ) → Monomorphic (m, s) p
    → Unbound s p
Monomorphic-Unbound level m s low sound p (inl (u, free, g)) = (free, g)
Monomorphic-Unbound level m s low sound p (inr (x, e)) =
    let (u, free, l) = sound.0 x p e in (free, ap (λ k. eqb_ℤ k generic_level) l ∙ low)

empty-Sound : (level : ℤ) (s : Store) → Sound level ([], s)
unfolding find
empty-Sound level s = ((λ x q e. absurd (cc)), (λ x y q e. absurd (cc)))

instanced :
    (level : ℤ) (t : Ty) (s : Store)
    → eqb_ℤ level generic_level ≡ false
    → (o : Option (Ty × Instantiator)) → Copies (growth level) ([], s) t o
    → (to : Ty) × (m : Mapping) × (s' : Store) × (o ≡ some (to, (m, s')))
      × IsInstance level s t to m s'
unfolding growth find
instanced level t s low none h = absurd h
instanced level t s low (some (to, (m, s'))) ((le, same, old, new, sound, ac), (values, vars)) =
    let sound' = sound (empty-Sound level s) in
    (
      to,
      m,
      s',
      refl,
      (
        values,
        Vars-map _ _ (Monomorphic-Unbound level m s' low sound') to vars,
        sound',
        (λ x q e. elim (new x q e) [ inl e' ↦ absurd (cc) | inr far ↦ far ]),
        same,
        ac,
      ),
    )

copied :
    (t : Ty) (level : ℤ) (s : Store) (f : ℕ)
    → Within (InUse s) f s t
    → Copies (growth level) ([], s) t (inst level f t ([], s))
unfolding growth
copied t level s f w = inst-Copies level f t ([], s) w

-- Instantiating a type that ends under the store, at a level other than the generic one, ends too,
-- with any fuel from the depth of the type on. It builds a type that has, under every assignment,
-- the value that the given type has when each bound variable has the value of its copy; no variable
-- in it is linked or bound; the copies are new free variables of the given level, different for
-- different IDs, no cell in use changes, and an acyclic store stays acyclic. The result names the two types and the copies, and is
-- `none` when there is no copy.
pub instantiate-IsInstance :
    (t : Ty) (level : ℤ) (s : Store)
    → Finite s t
    → eqb_ℤ level generic_level ≡ false
    → (fuel : ℕ) × ((f : ℕ)
        → fuel ≤ f
        → (to : Ty) × (m : Mapping) × (s' : Store) × (instantiate f t level s
            ≡ some (instantiation t to m, s'))
          × IsInstance level s t to m s')
unfolding instantiate
instantiate-IsInstance t level s (n, h) low = (
  n,
  (λ f le.
      let (to, m, s', e, is) =
        instanced level t s low (inst level f t ([], s))
          (copied t level s f (Within-map _ _ s s (λ p u. (u, refl)) n f t le h)) in
      (to, m, s', rw e refl, is)),
)

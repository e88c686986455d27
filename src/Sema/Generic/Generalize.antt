-- ===== src/Sema/Generic/Generalize.antt =====
-- sema/generic.go: generalization.
use gocaml.Base.{
  ℕ, ◌≤◌, ◌≡◌, ◌⊎◌, inl, inr, refl, sym, ap, ◌∙◌, Bool, true, false, Option, none, some, [], ◌∷◌,
  ◌++◌, arith, ◌==◌, ==_iff, ==_refl, Bool-cases, if◌then◌else◌, ℤ, ltb_ℤ,
}
use gocaml.Types.{Ty, var, Store, generic_level, set_level}
use gocaml.Types.Meaning.{Assignment, value, Solves, SameRefs, Solves-SameRefs}
use gocaml.Types.Bounded.{InUse, Within, Finite, Within-map, AtRef}
use gocaml.Sema.Generic.{Visit, BoundVarIds, contains, add, Generalizer, gen_var, generalize}
use gocaml.Sema.Generic.Copies.{Growth, Copies, Copier, Vars, apply-Copier}

contains-append :
    (x id : ℕ) (ids : BoundVarIds) → contains x ids ≡ true → contains x (ids ++ (id ∷ [])) ≡ true
unfolding contains
contains-append x id [] e = cc
contains-append x id (y ∷ ids) e = elim (Bool-cases (y == x)) [
  | inl hit ↦ rw hit refl
  | inr miss ↦ rw miss (contains-append x id ids (rw miss at e))
]

contains-last : (id : ℕ) (ids : BoundVarIds) → contains id (ids ++ (id ∷ [])) ≡ true
unfolding contains
contains-last id [] = ground arith
contains-last id (y ∷ ids) = elim (Bool-cases (y == id)) [
  | inl hit ↦ rw hit refl
  | inr miss ↦ rw miss (contains-last id ids)
]

contains-add :
    (x id : ℕ) (ids : BoundVarIds) → contains x ids ≡ true → contains x (add id ids) ≡ true
unfolding add
contains-add x id ids e = elim (Bool-cases (contains id ids)) [
  | inl old ↦ rw old e
  | inr new ↦ rw new (contains-append x id ids e)
]

contains-add_self : (id : ℕ) (ids : BoundVarIds) → contains id (add id ids) ≡ true
unfolding add
contains-add_self id ids = elim (Bool-cases (contains id ids)) [
  | inl old ↦ rw old old
  | inr new ↦ rw new (contains-last id ids)
]

-- A cell whose level stays, or was above `level` and has become generic.
abbrev pub Raised : ℤ → ℤ → ℤ → Type 0
Raised level old new = (new ≡ old) ⊎ ((ltb_ℤ level old ≡ true) × (new ≡ generic_level))

Raised-trans : (level a b c : ℤ) → Raised level a b → Raised level b c → Raised level a c
Raised-trans level a b c (inl e) (inl e') = inl (e' ∙ e)
Raised-trans level a b c (inl e) (inr (above, g)) = inr (ap (ltb_ℤ level) (sym e) ∙ above, g)
Raised-trans level a b c (inr (above, g)) (inl e') = inr (above, e' ∙ g)
Raised-trans level a b c (inr (above, g)) (inr (_, g')) = inr (above, g')

-- What generalization may change: levels of variables above `level`, and more bound IDs.
abbrev pub Raises : ℤ → Generalizer → Generalizer → Type 0
Raises level (ids, s) (ids', s') =
    (s'.next ≡ s.next)
    × SameRefs s s'
    × ((x : ℕ) → contains x ids ≡ true → contains x ids' ≡ true)
    × ((p : ℕ) → ((s'.cell p).id ≡ (s.cell p).id) × Raised level (s.cell p).level (s'.cell p).level)

-- A free variable that is either not above `level`, or generic with its ID among the bound ones.
abbrev pub Decided : ℤ → Generalizer → ℕ → Type 0
Decided level (ids, s) p =
    ((s.cell p).ref ≡ none)
    × ((ltb_ℤ level (s.cell p).level ≡ false)
        ⊎ (((s.cell p).level ≡ generic_level) × (contains (s.cell p).id ids ≡ true)))

Decided-level :
    (level old new : ℤ) (A B : Type 0)
    → Raised level old new
    → (A → B)
    → (ltb_ℤ level old ≡ false) ⊎ ((old ≡ generic_level) × A)
    → (ltb_ℤ level new ≡ false) ⊎ ((new ≡ generic_level) × B)
Decided-level level old new A B (inl e) f (inl low) = inl (ap (ltb_ℤ level) e ∙ low)
Decided-level level old new A B (inl e) f (inr (g, a)) = inr (e ∙ g, f a)
Decided-level level old new A B (inr (above, g)) f (inl low) = cc
Decided-level level old new A B (inr (above, g)) f (inr (_, a)) = inr (g, f a)

growth : ℤ → Growth Generalizer
growth level = record {
  store = λ g. g.1;
  Later = Raises level;
  Related = λ g θ η. (θ ≡ η) × Solves η g.1;
  Settled = Decided level;
  stays = λ g. (refl, (λ p. refl), (λ x e. e), (λ p. (refl, inl refl)));
  after = λ a b c (n, r, i, v) (n', r', i', v'). (
    n' ∙ n,
    (λ p. r' p ∙ r p),
    (λ x e. i' x (i x e)),
    (λ p. ((v' p).0 ∙ (v p).0, Raised-trans level _ _ _ (v p).1 (v' p).1)),
  );
  keeps = λ a b (n, r, i, v) p used. (omega (arith, n, used), r p);
  relates = λ a b (n, r, i, v) θ η (e, sol). (e, Solves-SameRefs b.1 a.1 η (λ p. sym (r p)) sol);
  settles = λ a b (n, r, i, v) p (free, choice). (
    r p ∙ free,
    Decided-level level _ _ _ _ (v p).1
        (λ e. ap (λ x. contains x b.0) (v p).0 ∙ i (a.1.cell p).id e) choice,
  );
}

-- A free variable, kept or bound.
gen_free-Copies :
    (level : ℤ) (p : ℕ) (ids : BoundVarIds) (s : Store)
    → (s.cell p).ref ≡ none
    → (b : Bool) → ltb_ℤ level (s.cell p).level ≡ b
    → Copies
        (growth level)
        (ids, s)
        (var p)
        (some
          (var p, (if b then (add (s.cell p).id ids, set_level p generic_level s) else (ids, s))))
unfolding growth value Vars
gen_free-Copies level p ids s free false low =
    ((growth level).stays (ids, s), ((λ θ η r. ap (λ f. f p) r.0), (free, inl low)))
gen_free-Copies level p ids s free true above = (
  (
    refl,
    (λ q. ground arith),
    (λ x e. contains-add x (s.cell p).id ids e),
    (λ q. elim (Bool-cases (q == p)) [
      | inl hit ↦
          let at = (==_iff q p).0 hit in
          rw hit (
            ap (λ x. (s.cell x).id) (sym at),
            inr (ap (λ x. ltb_ℤ level (s.cell x).level) at ∙ above, refl),
          )
      | inr miss ↦ rw miss (refl, inl refl)
    ]),
  ),
  (
    (λ θ η r. ap (λ f. f p) r.0),
    rw (==_refl p) (free, inr (refl, contains-add_self (s.cell p).id ids)),
  ),
)

linked-Copies :
    (level : ℤ) (p : ℕ) (ids : BoundVarIds) (s : Store) (t : Ty)
    → (s.cell p).ref ≡ some t
    → (o : Option (Ty × Generalizer)) → Copies (growth level) (ids, s) t o
    → Copies (growth level) (ids, s) (var p) o
unfolding growth value
linked-Copies level p ids s t e none h = h
linked-Copies level p ids s t e (some (t', g)) (l, (same, vars)) =
    (l, ((λ θ η r. same θ η r ∙ sym (((growth level).relates (ids, s) g l θ η r).1 p t e)), vars))

gen_var-Copies :
    (level : ℤ) (n : ℕ) (rec : Visit Generalizer)
    → Copier (growth level) n rec
    → (p : ℕ) (ids : BoundVarIds) (s : Store) (o : Option Ty) → (s.cell p).ref ≡ o
    → AtRef (Within (InUse s) n s) o
    → Copies (growth level) (ids, s) (var p) (gen_var level rec p o (ids, s))
unfolding gen_var growth value
gen_var-Copies level n rec copy p ids s none e h = gen_free-Copies level p ids s e _ refl
gen_var-Copies level n rec copy p ids s (some t) e h =
    linked-Copies level p ids s t e (rec t (ids, s)) (copy t (ids, s) h)

generalized :
    (level : ℤ) (t : Ty) (s : Store) (o : Option (Ty × Generalizer))
    → Copies (growth level) ([], s) t o
    → (t' : Ty) × (ids : BoundVarIds) × (s' : Store) × (o ≡ some (t', (ids, s')))
      × ((θ : Assignment) → Solves θ s → value θ t' ≡ value θ t)
      × Vars (Decided level (ids, s')) t'
      × Raises level ([], s) (ids, s')
unfolding growth
generalized level t s none h = absurd h
generalized level t s (some (t', (ids, s'))) (l, (same, vars)) =
    (t', ids, s', refl, (λ θ sol. same θ θ (refl, Solves-SameRefs s s' θ l.1 sol)), vars, l)

-- Generalizing a type that ends under the store ends too, with any fuel from the depth of the type
-- on. The result has the value of the type in every solution of the store and holds no linked
-- variable; a variable in it is generic with its ID in the returned set, or its level is not above
-- the given one. No link, ID or cell in use changes, and a level changes only from above the given
-- one to generic.
pub generalize-Copy :
    (t : Ty) (level : ℤ) (s : Store)
    → Finite s t
    → (fuel : ℕ) × ((f : ℕ)
        → fuel ≤ f
        → (t' : Ty) × (ids : BoundVarIds) × (s' : Store) × (generalize f t level s
            ≡ some (t', (ids, s')))
          × ((θ : Assignment) → Solves θ s → value θ t' ≡ value θ t)
          × Vars (Decided level (ids, s')) t'
          × Raises level ([], s) (ids, s'))
unfolding generalize growth
generalize-Copy t level s (n, h) = (
  n,
  (λ f le. generalized level t s (generalize f t level s) (
      apply-Copier (growth level) (λ rec p g. gen_var level rec p (g.1.cell p).ref g)
        (λ m rec copy p g w. gen_var-Copies level m rec copy p g.0 g.1 _ refl w.1) f t ([], s)
        (Within-map _ _ s s (λ p u. (u, refl)) n f t le h))),
)

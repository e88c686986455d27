-- ===== src/Sema/Generic/Instantiate.antt =====
-- sema/generic.go: instantiation.
pub mod Instances
use gocaml.Base.{
  ℕ, suc, ◌+◌, ◌≤◌, ◌<◌, ◌≡◌, ◌≢◌, ◌⊎◌, inl, inr, refl, sym, ap, ◌∙◌, Bool, true, false, Option,
  none, some, List, [], ◌∷◌, ◌++◌, arith, ◌==◌, ==_iff, ==_refl, Bool-cases, Option-cases,
  if◌then◌else◌, ℤ, eqb_ℤ,
}
use gocaml.Types.{Ty, var, Store, generic_level, is_generic, new_var}
use gocaml.Types.Meaning.{Assignment, value}
use gocaml.Types.Bounded.{InUse, Within, Within-map, AtRef, Acyclic, Finite}
use gocaml.Sema.Generic.{
  Visit, Mapping, find, Instantiator, fresh_copy, copy_of, inst_var, Instantiation, instantiation,
  inst, apply, instantiate,
}
use gocaml.Sema.Generic.Copies.{Growth, Copy, Copies, Copier, Vars, apply-Copier}

find-append_old :
    (x q i r : ℕ) (m : Mapping) → find x m ≡ some q → find x (m ++ ((i, r) ∷ [])) ≡ some q
unfolding find
find-append_old x q i r [] e = cc
find-append_old x q i r ((a, b) ∷ m) e = elim (Bool-cases (a == x)) [
  | inl hit ↦ rw hit (rw hit at e)
  | inr miss ↦ rw miss (find-append_old x q i r m (rw miss at e))
]

find-append_new : (i r : ℕ) (m : Mapping) → find i m ≡ none → find i (m ++ ((i, r) ∷ [])) ≡ some r
unfolding find
find-append_new i r [] e = rw (==_refl i) refl
find-append_new i r ((a, b) ∷ m) e = elim (Bool-cases (a == i)) [
  | inl hit ↦ absurd (cc (rw hit at e))
  | inr miss ↦ rw miss (find-append_new i r m (rw miss at e))
]

find-append :
    (x q i r : ℕ) (m : Mapping)
    → find x (m ++ ((i, r) ∷ [])) ≡ some q
    → (find x m ≡ some q) ⊎ ((x ≡ i) × (q ≡ r))
unfolding find
find-append x q i r [] e = elim (Bool-cases (i == x)) [
  | inl hit ↦ inr (sym ((==_iff i x).0 hit), cc (rw hit at e))
  | inr miss ↦ absurd (cc (rw miss at e))
]
find-append x q i r ((a, b) ∷ m) e = elim (Bool-cases (a == x)) [
  | inl hit ↦ inl (rw hit (rw hit at e))
  | inr miss ↦ rw miss (find-append x q i r m (rw miss at e))
]

-- Each bound ID is mapped to a free variable of the level in hand, different IDs to different ones.
abbrev pub Sound : ℤ → Instantiator → Type 0
Sound level (m, s) =
    ((x q : ℕ)
      → find x m ≡ some q
      → (q < s.next) × ((s.cell q).ref ≡ none) × ((s.cell q).level ≡ level))
    × ((x y q : ℕ) → find x m ≡ some q → find y m ≡ some q → x ≡ y)

-- What instantiation may change: it takes new cells into use, and maps more IDs, to them.
abbrev pub Copied : ℤ → Instantiator → Instantiator → Type 0
Copied level (m, s) (m', s') =
    (s.next ≤ s'.next)
    × ((p : ℕ) → p < s.next → s'.cell p ≡ s.cell p)
    × ((x q : ℕ) → find x m ≡ some q → find x m' ≡ some q)
    × ((x q : ℕ) → find x m' ≡ some q → (find x m ≡ some q) ⊎ (s.next ≤ q))
    × (Sound level (m, s) → Sound level (m', s'))
    × (Acyclic s → Acyclic s')

-- `η` solves the store, and is `θ` at free variables, but at a bound one what `θ` is at its copy.
abbrev pub Substitutes : Instantiator → Assignment → Assignment → Type 0
Substitutes (m, s) θ η =
    ((p : ℕ) (t : Ty) → p < s.next → (s.cell p).ref ≡ some t → η p ≡ value η t)
    × ((p : ℕ) → p < s.next → (s.cell p).ref ≡ none → is_generic s p ≡ false → η p ≡ θ p)
    × ((p q : ℕ)
        → p < s.next
        → (s.cell p).ref ≡ none
        → is_generic s p ≡ true
        → find (s.cell p).id m ≡ some q
        → η p ≡ θ q)

-- A free variable that was not bound, or a copy of a bound one.
abbrev pub Monomorphic : Instantiator → ℕ → Type 0
Monomorphic (m, s) p =
    ((p < s.next) × ((s.cell p).ref ≡ none) × (is_generic s p ≡ false))
    ⊎ ((x : ℕ) × (find x m ≡ some p))

growth : ℤ → Growth Instantiator
growth level = record {
  store = λ i. i.1;
  Later = Copied level;
  Related = Substitutes;
  Settled = Monomorphic;
  stays = λ i. (omega arith, (λ p u. refl), (λ x q e. e), (λ x q e. inl e), (λ h. h), (λ h. h));
  after = λ a b c (le, same, old, new, sound, ac) (le', same', old', new', sound', ac'). (
    omega (arith, le, le'),
    (λ p u. same' p (omega (arith, le, u)) ∙ same p u),
    (λ x q e. old' x q (old x q e)),
    (λ x q e. elim (new' x q e) [ inl e' ↦ new x q e' | inr far ↦ inr (omega (arith, le, far)) ]),
    (λ h. sound' (sound h)),
    (λ h. ac' (ac h)),
  );
  keeps = λ a b (le, same, old, new, sound, ac) p used.
      (omega (arith, le, used), ap (λ v. v.ref) (same p used));
  relates = λ a b (le, same, old, new, sound, ac) θ η (links, frees, bounds). (
    (λ p t u e. links p t (omega (arith, le, u)) (ap (λ v. v.ref) (same p u) ∙ e)),
    (λ p u e g.
        frees p (omega (arith, le, u)) (ap (λ v. v.ref) (same p u) ∙ e)
          (ap (λ v. eqb_ℤ v.level generic_level) (same p u) ∙ g)),
    (λ p q u e g f.
        bounds p q (omega (arith, le, u)) (ap (λ v. v.ref) (same p u) ∙ e)
          (ap (λ v. eqb_ℤ v.level generic_level) (same p u) ∙ g)
          (ap (λ v. find v.id b.0) (same p u) ∙ old (a.1.cell p).id q f)),
  );
  settles = λ a b (le, same, old, new, sound, ac) p m. elim m [
    | inl (u, e, g) ↦ inl (
      omega (arith, le, u),
      ap (λ v. v.ref) (same p u) ∙ e,
      ap (λ v. eqb_ℤ v.level generic_level) (same p u) ∙ g,
    )
    | inr (x, e) ↦ inr (x, old x p e)
  ];
}

module _ (level : ℤ) (s : Store) where
  abbrev widened : Store
  widened = (new_var none level s).1

  widened-same : (p : ℕ) → p < s.next → widened.cell p ≡ s.cell p
  widened-same p u = elim (Bool-cases (p == s.next)) [
    | inl hit ↦ absurd (omega (arith, (==_iff p s.next).0 hit, u))
    | inr miss ↦ rw miss refl
  ]

  widened-new : ((widened.cell s.next).ref ≡ none) × ((widened.cell s.next).level ≡ level)
  widened-new = rw (==_refl s.next) (refl, refl)

  widened-beyond : Acyclic s → (p : ℕ) → s.next + 1 ≤ p → (widened.cell p).ref ≡ none
  widened-beyond a p le = elim (Bool-cases (p == s.next)) [
    | inl hit ↦ absurd (omega (arith, (==_iff p s.next).0 hit, le))
    | inr miss ↦ rw miss (a.beyond p (omega (arith, le)))
  ]

  widened-ends : Acyclic s → (p : ℕ) → p < s.next + 1 → Finite widened (var p)
  widened-ends a p u = elim (Bool-cases (p == s.next)) [
    | inl hit ↦ (1, (u, at_free p ((==_iff p s.next).0 hit)))
    | inr miss ↦
        let old = a.ends p (omega (arith, u, miss_ne p miss)) in
        (
          old.0,
          Within-map _ _ s widened (λ q w. (omega (arith, w), ap (λ v. v.ref) (widened-same q w)))
              old.0 old.0 (var p) (omega arith) old.1,
        )
  ]
    where
      at_free : (q : ℕ) → q ≡ s.next → AtRef (Within (InUse widened) 0 widened) (widened.cell q).ref
      at_free q e = rw (e, widened-new.0) tt

      miss_ne : (q : ℕ) → (q == s.next) ≡ false → q ≢ s.next
      miss_ne q m e = cc (m, (==_iff q s.next).1 e)

  widened-Acyclic : Acyclic s → Acyclic widened
  widened-Acyclic a = record { ends = widened-ends a; beyond = widened-beyond a }

  -- A mapping with one more copy is sound.
  Sound-copy :
      (id : ℕ) (m : Mapping)
      → find id m ≡ none
      → Sound level (m, s)
      → Sound level (m ++ ((id, s.next) ∷ []), widened)
  Sound-copy id m fresh (cells, apart) = (
    (λ x q e. elim (find-append x q id s.next m e) [
      | inl old ↦
          let (u, r, l) = cells x q old in
          (
            omega (arith, u),
            ap (λ v. v.ref) (widened-same q u) ∙ r,
            ap (λ v. v.level) (widened-same q u) ∙ l,
          )
      | inr (_, at) ↦ rw at (omega arith, widened-new.0, widened-new.1)
    ]),
    (λ x y q e e'. elim (find-append x q id s.next m e) [
      | inl old ↦ elim (find-append y q id s.next m e') [
        | inl old' ↦ apart x y q old old'
        | inr (_, at) ↦ absurd (omega (arith, (cells x q old).0, at))
      ]
      | inr (is, at) ↦ elim (find-append y q id s.next m e') [
        | inl old' ↦ absurd (omega (arith, (cells y q old').0, at))
        | inr (is', _) ↦ is ∙ sym is'
      ]
    ]),
  )

  copy_of-Copies :
      (p : ℕ) (m : Mapping)
      → p < s.next
      → (s.cell p).ref ≡ none
      → is_generic s p ≡ true
      → (o : Option ℕ) → find (s.cell p).id m ≡ o
      → Copies (growth level) (m, s) (var p) (some (copy_of level (s.cell p).id o (m, s)))
  unfolding growth value Vars
  copy_of-Copies p m u free g (some q) e =
      ((growth level).stays (m, s), ((λ θ η r. sym (r.2 p q u free g e)), inr ((s.cell p).id, e)))
  copy_of-Copies p m u free g none e =
      let id = (s.cell p).id in
      let found = find-append_new id s.next m e in
      (
        (
          omega arith,
          widened-same,
          (λ x q f. find-append_old x q id s.next m f),
          (λ x q f. elim (find-append x q id s.next m f) [
            | inl old ↦ inl old
            | inr (_, at) ↦ inr (omega (arith, at))
          ]),
          Sound-copy id m e,
          widened-Acyclic,
        ),
        (
          (λ θ η r. sym (
              r.2 p s.next (omega (arith, u)) (ap (λ v. v.ref) (widened-same p u) ∙ free)
                (ap (λ v. eqb_ℤ v.level generic_level) (widened-same p u) ∙ g)
                (ap (λ v. find v.id (m ++ ((id, s.next) ∷ []))) (widened-same p u) ∙ found))),
          inr (id, found),
        ),
      )

  inst_free-Copies :
      (p : ℕ) (m : Mapping)
      → p < s.next
      → (s.cell p).ref ≡ none
      → (b : Bool) → is_generic s p ≡ b
      → Copies
          (growth level)
          (m, s)
          (var p)
          (if b
            then some (copy_of level (s.cell p).id (find (s.cell p).id m) (m, s))
            else some (var p, (m, s)))
  unfolding growth value Vars
  inst_free-Copies p m u free true g = copy_of-Copies p m u free g _ refl
  inst_free-Copies p m u free false g =
      ((growth level).stays (m, s), ((λ θ η r. sym (r.1 p u free g)), inl (u, free, g)))

linked-Copies :
    (level : ℤ) (p : ℕ) (m : Mapping) (s : Store) (t : Ty)
    → p < s.next
    → (s.cell p).ref ≡ some t
    → (o : Option (Ty × Instantiator)) → Copies (growth level) (m, s) t o
    → Copies (growth level) (m, s) (var p) o
unfolding growth value
linked-Copies level p m s t u e none h = h
linked-Copies level p m s t u e (some (t', i)) (l, (same, vars)) =
    (l, ((λ θ η r. same θ η r ∙ sym (((growth level).relates (m, s) i l θ η r).0 p t u e)), vars))

inst_var-Copies :
    (level : ℤ) (n : ℕ) (rec : Visit Instantiator)
    → Copier (growth level) n rec
    → (p : ℕ) (m : Mapping) (s : Store) (o : Option Ty) → (s.cell p).ref ≡ o
    → p < s.next
    → AtRef (Within (InUse s) n s) o
    → Copies (growth level) (m, s) (var p) (inst_var level rec p o (m, s))
unfolding inst_var growth
inst_var-Copies level n rec copy p m s none e u h = inst_free-Copies level s p m u e _ refl
inst_var-Copies level n rec copy p m s (some t) e u h =
    linked-Copies level p m s t u e (rec t (m, s)) (copy t (m, s) h)

inst-Copies : (level : ℤ) (f : ℕ) → Copier (growth level) f (inst level f)
unfolding inst growth
inst-Copies level =
    apply-Copier (growth level) (λ rec p i. inst_var level rec p (i.1.cell p).ref i)
      (λ m rec copy p i w. inst_var-Copies level m rec copy p i.0 i.1 _ refl w.0 w.1)

-- ===== src/Sema/Unify/Solutions.antt =====
-- `unify` against solutions of the store: the store that it returns has exactly the solutions of
-- the old one that make the two types equal, and it fails only where there is none.
use gocaml.Base.{
  ℕ, zero, suc, ◌+◌, ◌≡◌, ◌≢◌, ◌↔◌, refl, sym, ap, ◌∙◌, Bool, true, false, Option, none, some,
  arith, ◌==◌, ==_iff, if◌then◌else◌, Bool-cases, inl, inr,
}
use gocaml.Types.{
  Ty, Tys, unit, bool, int, float, string, fun, tuple, array, option, var, nil, cons, Store,
  set_ref,
}
use gocaml.Types.Meaning.{Assignment, value, values, size, Solves, SameRefs}
use gocaml.Sema.Unify.{
  UnifyError, Outcome, ok, err, panic, no_fuel, ◌>>=◌, note, Unifier, length_tys, assign_var,
  unify_elems, unify_tuple, unify_fun, follow_both, follow_left, follow_right, unify, occur,
}
use gocaml.Sema.Unify.Occur.{Visited, occur-Visited, occur-Strict}

-- What an outcome says of the solutions of `s` at which the equation `E` holds.
abbrev pub Correct : Store → (Assignment → Type 0) → Outcome Store → Type 0
Correct s E (ok s') = (θ : Assignment) → Solves θ s' ↔ (Solves θ s × E θ)
Correct s E (err e) = (θ : Assignment) → Solves θ s → ¬ (E θ)
Correct s E panic = Unit
Correct s E no_fuel = Unit

Correct-map :
    (s : Store) (E F : Assignment → Type 0) (m : Outcome Store)
    → ((θ : Assignment) → Solves θ s → E θ ↔ F θ)
    → Correct s E m
    → Correct s F m
Correct-map s E F (ok s') e h = λ θ. (
  λ sol. let (old, eq) = (h θ).0 sol in (old, (e θ old).0 eq),
  λ (old, eq). (h θ).1 (old, (e θ old).1 eq),
)
Correct-map s E F (err x) e h = λ θ sol eq. h θ sol ((e θ sol).1 eq)
Correct-map s E F panic e h = tt
Correct-map s E F no_fuel e h = tt

Correct-note :
    (s : Store) (E : Assignment → Type 0) (n : UnifyError → UnifyError) (m : Outcome Store)
    → Correct s E m
    → Correct s E (note n m)
Correct-note s E n (ok s') h = h
Correct-note s E n (err e) h = h
Correct-note s E n panic h = tt
Correct-note s E n no_fuel h = tt

Correct-after :
    (s s' : Store) (E F : Assignment → Type 0) (m : Outcome Store)
    → Correct s E (ok s')
    → Correct s' F m
    → Correct s (λ θ. E θ × F θ) m
Correct-after s s' E F (ok u) h g = λ θ. (
  λ sol. let (mid, f) = (g θ).0 sol in let (old, e) = (h θ).0 mid in (old, (e, f)),
  λ (old, (e, f)). (g θ).1 ((h θ).1 (old, e), f),
)
Correct-after s s' E F (err x) h g = λ θ sol (e, f). g θ ((h θ).1 (sol, e)) f
Correct-after s s' E F panic h g = tt
Correct-after s s' E F no_fuel h g = tt

Correct-bind :
    (s : Store) (E F : Assignment → Type 0) (m : Outcome Store) (k : Store → Outcome Store)
    → Correct s E m
    → ((s' : Store) → Correct s' F (k s'))
    → Correct s (λ θ. E θ × F θ) (m >>= k)
Correct-bind s E F (ok s') k h next = Correct-after s s' E F (k s') h (next s')
Correct-bind s E F (err x) k h next = λ θ sol (e, f). h θ sol e
Correct-bind s E F panic k h next = tt
Correct-bind s E F no_fuel k h next = tt

Solves-set_ref :
    (s s' : Store) (p : ℕ) (t : Ty) (θ : Assignment)
    → SameRefs s s'
    → (s.cell p).ref ≡ none
    → Solves θ (set_ref p t s') ↔ (Solves θ s × (θ p ≡ value θ t))
Solves-set_ref s s' p t θ same free = (
  λ sol. (λ q u e. sol q u (ground (arith, same q)), sol p t (ground arith)),
  λ (sol, eq) q u e. elim (Bool-cases (q == p)) [
    | inl hit ↦ ground arith
    | inr miss ↦ sol q u (ground (arith, same q))
  ],
)

-- The size of `value θ t` is over that of `θ p` wherever `occur` answers `true`.
abbrev Strict : Store → ℕ → Ty → Outcome (Bool × Store) → Type 0
Strict s p t m = Visited s 1 (λ θ. size (θ p)) (λ θ. size (value θ t)) m

assign-Correct :
    (s : Store) (p : ℕ) (t : Ty) (m : Outcome (Bool × Store))
    → (s.cell p).ref ≡ none
    → Strict s p t m
    → Correct s
        (λ θ. θ p ≡ value θ t)
        (m >>= (λ (found, s'). if found then err (UnifyError.cyclic p t) else ok (set_ref p t s')))
assign-Correct s p t (ok (true, s')) free h = λ θ sol e. omega (arith, h.1 refl θ sol, ap size e)
assign-Correct s p t (ok (false, s')) free h = λ θ. Solves-set_ref s s' p t θ h.0 free
assign-Correct s p t (err x) free h = absurd h
assign-Correct s p t panic free h = tt
assign-Correct s p t no_fuel free h = tt

assign_var-Correct :
    (f p : ℕ) (t : Ty) (s : Store)
    → (s.cell p).ref ≡ none
    → Strict s p t (occur f p t s)
    → Correct s (λ θ. θ p ≡ value θ t) (assign_var f p t s)
unfolding assign_var
assign_var-Correct f p t s = assign-Correct s p t (occur f p t s)

abbrev Unifies : Unifier → Type 0
Unifies rec = (l r : Ty) (s : Store) → Correct s (λ θ. value θ l ≡ value θ r) (rec l r s)

unify_elems-Correct :
    (rec : Unifier)
    → Unifies rec
    → (n : ℕ → UnifyError → UnifyError) (i : ℕ) (ls rs : Tys) (s : Store)
    → length_tys ls ≡ length_tys rs
    → Correct s (λ θ. values θ ls ≡ values θ rs) (unify_elems rec n i ls rs s)
unfolding unify_elems values
unify_elems-Correct rec h n i nil nil s e = λ θ. ((λ sol. (sol, refl)), (λ (sol, _). sol))
unify_elems-Correct rec h n i nil (cons r rs) s e = absurd (omega arith)
unify_elems-Correct rec h n i (cons l ls) nil s e = absurd (omega arith)
unify_elems-Correct rec h n i (cons l ls) (cons r rs) s e =
    Correct-map s _ _ _ (λ θ sol. ((λ (a, b). cc), (λ c. (cc, cc))))
      (Correct-bind s (λ θ. value θ l ≡ value θ r) (λ θ. values θ ls ≡ values θ rs) _ _
        (Correct-note s _ (n (i + 1)) _ (h l r s))
        (λ s'. unify_elems-Correct rec h n (i + 1) ls rs s' (omega arith)))

length_tys-values : (θ : Assignment) (ts : Tys) → length_tys (values θ ts) ≡ length_tys ts
unfolding values
length_tys-values θ nil = refl
length_tys-values θ (cons t ts) = ap suc (length_tys-values θ ts)

lengths_agree :
    (θ : Assignment) (ls rs : Tys) → values θ ls ≡ values θ rs → length_tys ls ≡ length_tys rs
lengths_agree θ ls rs e =
    omega (arith, length_tys-values θ ls, length_tys-values θ rs, ap length_tys e)

-- The loop behind its test of the lengths.
counted-Correct :
    (rec : Unifier)
    → Unifies rec
    → (n : ℕ → UnifyError → UnifyError) (x : UnifyError) (ls rs : Tys) (s : Store)
    → Correct s
        (λ θ. values θ ls ≡ values θ rs)
        (if length_tys ls == length_tys rs then unify_elems rec n 0 ls rs s else err x)
counted-Correct rec h n x ls rs s = elim (Bool-cases (length_tys ls == length_tys rs)) [
  | inl same ↦ rw same (unify_elems-Correct rec h n 0 ls rs s ((==_iff _ _).0 same))
  | inr other ↦ rw other (λ θ sol e. cc (other, (==_iff _ _).1 (lengths_agree θ ls rs e)))
]

unify_tuple-Correct :
    (rec : Unifier)
    → Unifies rec
    → (ls rs : Tys) (s : Store)
    → Correct s (λ θ. value θ (tuple ls) ≡ value θ (tuple rs)) (unify_tuple rec ls rs s)
unfolding unify_tuple value
unify_tuple-Correct rec h ls rs s =
    Correct-map s _ _ _ (λ θ sol. ((λ e. cc), (λ e. cc)))
      (counted-Correct rec h UnifyError.in_elem _ ls rs s)

unify_fun-Correct :
    (rec : Unifier)
    → Unifies rec
    → (l : Ty) (ls : Tys) (r : Ty) (rs : Tys) (s : Store)
    → Correct s (λ θ. value θ (fun l ls) ≡ value θ (fun r rs)) (unify_fun rec l ls r rs s)
unfolding unify_fun value
unify_fun-Correct rec h l ls r rs s =
    Correct-map s _ _ _ (λ θ sol. ((λ (a, b). cc), (λ c. (cc, cc))))
      (Correct-bind s (λ θ. value θ l ≡ value θ r) (λ θ. values θ ls ≡ values θ rs) _ _
        (Correct-note s _ UnifyError.in_ret _ (h l r s))
        (λ s'. counted-Correct rec h UnifyError.in_param _ ls rs s'))

module _ (f : ℕ) (rec : Unifier) (h : Unifies rec) where
  follow_left-Correct :
      (p : ℕ) (r : Ty) (o : Option Ty) (s : Store)
      → (s.cell p).ref ≡ o
      → Strict s p r (occur f p r s)
      → Correct s (λ θ. θ p ≡ value θ r) (follow_left f rec p r o s)
  unfolding follow_left
  follow_left-Correct p r (some t) s e strict =
      Correct-map s _ _ _ (λ θ sol. (λ c. sol p t e ∙ c, λ c. sym (sol p t e) ∙ c)) (h t r s)
  follow_left-Correct p r none s e strict = assign_var-Correct f p r s e strict

  follow_right-Correct :
      (l : Ty) (q : ℕ) (o : Option Ty) (s : Store)
      → (s.cell q).ref ≡ o
      → Strict s q l (occur f q l s)
      → Correct s (λ θ. value θ l ≡ θ q) (follow_right f rec l q o s)
  unfolding follow_right
  follow_right-Correct l q (some t) s e strict =
      Correct-map s _ _ _ (λ θ sol. (λ c. c ∙ sym (sol q t e), λ c. c ∙ sol q t e)) (h l t s)
  follow_right-Correct l q none s e strict =
      Correct-map s _ _ _ (λ θ sol. (λ c. sym c, λ c. sym c)) (assign_var-Correct f q l s e strict)

  follow_both-Correct :
      (p q : ℕ) (o o' : Option Ty) (s : Store)
      → (s.cell p).ref ≡ o
      → (s.cell q).ref ≡ o'
      → (p == q) ≡ false
      → Correct s (λ θ. θ p ≡ θ q) (follow_both f rec p q o o' s)
  unfolding follow_both value
  follow_both-Correct p q (some t) o' s e e' ne =
      Correct-map s _ _ _ (λ θ sol. (λ c. sol p t e ∙ c, λ c. sym (sol p t e) ∙ c)) (h t (var q) s)
  follow_both-Correct p q none (some t) s e e' ne =
      Correct-map s _ _ _ (λ θ sol. (λ c. c ∙ sym (sol q t e'), λ c. c ∙ sol q t e'))
        (h (var p) t s)
  follow_both-Correct p q none none s e e' ne =
      assign_var-Correct f p (var q) s e (occur-Strict f p q s e' ne)

pub unify-Correct : (f : ℕ) → Unifies (unify f)
unfolding unify value
unify-Correct zero l r s = tt
unify-Correct (suc f) (var p) (var q) s = elim (Bool-cases (p == q)) [
  | inl same ↦ rw same (λ θ. (λ sol. (sol, ap θ ((==_iff p q).0 same)), λ (sol, _). sol))
  | inr other ↦
      rw other (follow_both-Correct f (unify f) (unify-Correct f) p q _ _ s refl refl other)
]
unify-Correct (suc f) (var p) r s =
    follow_left-Correct f (unify f) (unify-Correct f) p r _ s refl (occur-Visited f p r s)
unify-Correct (suc f) l (var q) s =
    follow_right-Correct f (unify f) (unify-Correct f) l q _ s refl (occur-Visited f q l s)
unify-Correct (suc f) unit unit s = λ θ. (λ sol. (sol, refl), λ (sol, _). sol)
unify-Correct (suc f) bool bool s = λ θ. (λ sol. (sol, refl), λ (sol, _). sol)
unify-Correct (suc f) int int s = λ θ. (λ sol. (sol, refl), λ (sol, _). sol)
unify-Correct (suc f) float float s = λ θ. (λ sol. (sol, refl), λ (sol, _). sol)
unify-Correct (suc f) string string s = λ θ. (λ sol. (sol, refl), λ (sol, _). sol)
unify-Correct (suc f) (tuple ls) (tuple rs) s =
    unify_tuple-Correct (unify f) (unify-Correct f) ls rs s
unify-Correct (suc f) (array l) (array r) s =
    Correct-map s _ _ _ (λ θ sol. ((λ e. cc), (λ e. cc))) (unify-Correct f l r s)
unify-Correct (suc f) (option l) (option r) s =
    Correct-map s _ _ _ (λ θ sol. ((λ e. cc), (λ e. cc))) (unify-Correct f l r s)
unify-Correct (suc f) (fun l ls) (fun r rs) s =
    unify_fun-Correct (unify f) (unify-Correct f) l ls r rs s
unify-Correct (suc f) l r s = λ θ sol e. cc

-- When unification succeeds, the solutions of the new store are exactly the solutions of the old
-- one at which the two types are equal: the links that it adds are a most general unifier.
pub unify_mgu :
    (f : ℕ) (l r : Ty) (s s' : Store)
    → unify f l r s ≡ ok s'
    → (θ : Assignment) → Solves θ s' ↔ (Solves θ s × (value θ l ≡ value θ r))
unify_mgu f l r s s' e = rw e at (unify-Correct f l r s)

-- When unification reports an error, no solution of the store makes the two types equal.
pub unify-err :
    (f : ℕ) (l r : Ty) (s : Store) (x : UnifyError)
    → unify f l r s ≡ err x
    → (θ : Assignment) → Solves θ s
    → value θ l ≢ value θ r
unify-err f l r s x e = rw e at (unify-Correct f l r s)

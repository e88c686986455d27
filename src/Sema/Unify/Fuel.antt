-- ===== src/Sema/Unify/Fuel.antt =====
-- More fuel changes no answer that was already given.
use gocaml.Base.{
  ℕ, zero, suc, ◌+◌, ◌≤◌, ◌≡◌, refl, Bool, true, false, Option, none, some, arith, ◌==◌,
  if◌then◌else◌,
}
use gocaml.Types.{Ty, Tys, fun, tuple, array, option, var, nil, cons, Store}
use gocaml.Sema.Unify.{
  UnifyError, Outcome, ok, err, panic, no_fuel, ◌>>=◌, note, Visit, Unifier, length_tys, occur_any,
  occur_fun, occur_var, occur, assign_var, unify_elems, unify_tuple, unify_fun, follow_both,
  follow_left, follow_right, unify,
}

abbrev pub Stable {ℓ} : {A : Type ℓ} → Outcome A → Outcome A → Type ℓ
Stable no_fuel m = Unit
Stable (ok a) m = m ≡ ok a
Stable (err e) m = m ≡ err e
Stable panic m = m ≡ panic

Stable-refl {ℓ} : {A : Type ℓ} (m : Outcome A) → Stable m m
Stable-refl (ok a) = refl
Stable-refl (err e) = refl
Stable-refl panic = refl
Stable-refl no_fuel = tt

pub Stable-bind {ℓ} :
    {A B : Type ℓ} (m n : Outcome A) (k j : A → Outcome B)
    → Stable m n
    → ((a : A) → Stable (k a) (j a))
    → Stable (m >>= k) (n >>= j)
Stable-bind (ok a) n k j h g = rw h (g a)
Stable-bind (err e) n k j h g = rw h
Stable-bind panic n k j h g = rw h
Stable-bind no_fuel n k j h g = tt

pub Stable-note :
    (w : UnifyError → UnifyError) (m n : Outcome Store) → Stable m n → Stable (note w m) (note w n)
Stable-note w (ok a) n h = rw h
Stable-note w (err e) n h = rw h
Stable-note w panic n h = rw h
Stable-note w no_fuel n h = tt

pub Stable-if {ℓ} :
    {A : Type ℓ} (b : Bool) (m n p q : Outcome A)
    → Stable m n
    → Stable p q
    → Stable (if b then m else p) (if b then n else q)
Stable-if true m n p q h g = h
Stable-if false m n p q h g = g

module _ (rec more : Visit) (h : (t : Ty) (s : Store) → Stable (rec t s) (more t s)) where
  occur_any-Stable : (ts : Tys) (s : Store) → Stable (occur_any rec ts s) (occur_any more ts s)
  unfolding occur_any
  occur_any-Stable nil s = refl
  occur_any-Stable (cons t ts) s =
      Stable-bind (rec t s) (more t s) _ _ (h t s)
        (λ (b, s'). Stable-if b _ _ _ _ refl (occur_any-Stable ts s'))

  occur_fun-Stable :
      (r : Ty) (ps : Tys) (s : Store) → Stable (occur_fun rec r ps s) (occur_fun more r ps s)
  unfolding occur_fun
  occur_fun-Stable r ps s =
      Stable-bind (rec r s) (more r s) _ _ (h r s)
        (λ (b, s'). Stable-if b _ _ _ _ refl (occur_any-Stable ps s'))

  occur_var-Stable :
      (v p : ℕ) (o : Option Ty) (s : Store)
      → Stable (occur_var rec v p o s) (occur_var more v p o s)
  unfolding occur_var
  occur_var-Stable v p (some t) s = h t s
  occur_var-Stable v p none s = Stable-refl _

pub occur-Stable :
    (f g v : ℕ) → f ≤ g → (t : Ty) (s : Store) → Stable (occur f v t s) (occur g v t s)
unfolding occur
occur-Stable zero g v le t s = tt
occur-Stable (suc f) zero v le t s = absurd (omega arith)
occur-Stable (suc f) (suc g) v le (tuple ts) s =
    occur_any-Stable (occur f v) (occur g v) (occur-Stable f g v (omega arith)) ts s
occur-Stable (suc f) (suc g) v le (array t) s = occur-Stable f g v (omega arith) t s
occur-Stable (suc f) (suc g) v le (option t) s = occur-Stable f g v (omega arith) t s
occur-Stable (suc f) (suc g) v le (fun r ps) s =
    occur_fun-Stable (occur f v) (occur g v) (occur-Stable f g v (omega arith)) r ps s
occur-Stable (suc f) (suc g) v le (var p) s =
    occur_var-Stable (occur f v) (occur g v) (occur-Stable f g v (omega arith)) v p _ s
occur-Stable (suc f) (suc g) v le _ s = refl

assign_var-Stable :
    (f g v : ℕ) → f ≤ g → (t : Ty) (s : Store) → Stable (assign_var f v t s) (assign_var g v t s)
unfolding assign_var
assign_var-Stable f g v le t s =
    Stable-bind (occur f v t s) _ _ _ (occur-Stable f g v le t s) (λ (b, s'). Stable-refl _)

module _ (rec more : Unifier) (h : (l r : Ty) (s : Store) → Stable (rec l r s) (more l r s)) where
  pub unify_elems-Stable :
      (w : ℕ → UnifyError → UnifyError) (i : ℕ) (ls rs : Tys) (s : Store)
      → Stable (unify_elems rec w i ls rs s) (unify_elems more w i ls rs s)
  unfolding unify_elems
  unify_elems-Stable w i nil rs s = refl
  unify_elems-Stable w i (cons l ls) nil s = refl
  unify_elems-Stable w i (cons l ls) (cons r rs) s =
      Stable-bind _ _ _ _ (Stable-note (w (i + 1)) (rec l r s) (more l r s) (h l r s))
        (unify_elems-Stable w (i + 1) ls rs)

  unify_tuple-Stable :
      (ls rs : Tys) (s : Store) → Stable (unify_tuple rec ls rs s) (unify_tuple more ls rs s)
  unfolding unify_tuple
  unify_tuple-Stable ls rs s =
      Stable-if (length_tys ls == length_tys rs) _ _ _ _ (unify_elems-Stable _ 0 ls rs s) refl

  unify_fun-Stable :
      (l : Ty) (ls : Tys) (r : Ty) (rs : Tys) (s : Store)
      → Stable (unify_fun rec l ls r rs s) (unify_fun more l ls r rs s)
  unfolding unify_fun
  unify_fun-Stable l ls r rs s =
      Stable-bind _ _ _ _ (Stable-note _ (rec l r s) (more l r s) (h l r s)) (λ s'.
        Stable-if (length_tys ls == length_tys rs) _ _ _ _ (unify_elems-Stable _ 0 ls rs s') refl)

  module _ (f g : ℕ) (le : f ≤ g) where
    follow_both-Stable :
        (p q : ℕ) (o o' : Option Ty) (s : Store)
        → Stable (follow_both f rec p q o o' s) (follow_both g more p q o o' s)
    unfolding follow_both
    follow_both-Stable p q (some t) o' s = h t (var q) s
    follow_both-Stable p q none (some t) s = h (var p) t s
    follow_both-Stable p q none none s = assign_var-Stable f g p le (var q) s

    follow_left-Stable :
        (p : ℕ) (r : Ty) (o : Option Ty) (s : Store)
        → Stable (follow_left f rec p r o s) (follow_left g more p r o s)
    unfolding follow_left
    follow_left-Stable p r (some t) s = h t r s
    follow_left-Stable p r none s = assign_var-Stable f g p le r s

    follow_right-Stable :
        (l : Ty) (q : ℕ) (o : Option Ty) (s : Store)
        → Stable (follow_right f rec l q o s) (follow_right g more l q o s)
    unfolding follow_right
    follow_right-Stable l q (some t) s = h l t s
    follow_right-Stable l q none s = assign_var-Stable f g q le l s

pub unify-Stable :
    (f g : ℕ) → f ≤ g → (l r : Ty) (s : Store) → Stable (unify f l r s) (unify g l r s)
unfolding unify
unify-Stable zero g le l r s = tt
unify-Stable (suc f) zero le l r s = absurd (omega arith)
unify-Stable (suc f) (suc g) le (var p) (var q) s =
    Stable-if (p == q) _ _ _ _ refl
      (follow_both-Stable _ _ (unify-Stable f g (omega arith)) f g (omega arith) p q _ _ s)
unify-Stable (suc f) (suc g) le (var p) r s =
    follow_left-Stable _ _ (unify-Stable f g (omega arith)) f g (omega arith) p r _ s
unify-Stable (suc f) (suc g) le l (var q) s =
    follow_right-Stable _ _ (unify-Stable f g (omega arith)) f g (omega arith) l q _ s
unify-Stable (suc f) (suc g) le (tuple ls) (tuple rs) s =
    unify_tuple-Stable _ _ (unify-Stable f g (omega arith)) ls rs s
unify-Stable (suc f) (suc g) le (array l) (array r) s = unify-Stable f g (omega arith) l r s
unify-Stable (suc f) (suc g) le (option l) (option r) s = unify-Stable f g (omega arith) l r s
unify-Stable (suc f) (suc g) le (fun l ls) (fun r rs) s =
    unify_fun-Stable _ _ (unify-Stable f g (omega arith)) l ls r rs s
unify-Stable (suc f) (suc g) le l r s = refl

-- ===== src/Sema/Generic/Copies.antt =====
-- What the two `apply` functions share: they build a copy of the type without links, and the state
-- that they carry only grows.
use gocaml.Base.{ℕ, zero, suc, ◌≤◌, ◌≡◌, refl, ap, ap₂, Option, none, some, arith}
use gocaml.Types.{
  Ty, Tys, unit, bool, int, float, string, fun, tuple, array, option, var, nil, cons, Store,
}
use gocaml.Types.Meaning.{Assignment, value, values}
use gocaml.Types.Bounded.{All, All-map, InUse, Within, Within-map}
use gocaml.Sema.Generic.{Visit, bind, apply_all, apply}

unfoldable mutual
  -- Every variable of a type.
  pub Vars : (ℕ → Type 0) → Ty → Type 0
  Vars P (fun r ps) = Vars P r × VarsAll P ps
  Vars P (tuple ts) = VarsAll P ts
  Vars P (array t) = Vars P t
  Vars P (option t) = Vars P t
  Vars P (var p) = P p
  Vars P t = Unit

  pub VarsAll : (ℕ → Type 0) → Tys → Type 0
  VarsAll P nil = Unit
  VarsAll P (cons t ts) = Vars P t × VarsAll P ts

mutual
  unfolding Vars

  pub Vars-map : (P Q : ℕ → Type 0) → ((p : ℕ) → P p → Q p) → (t : Ty) → Vars P t → Vars Q t
  Vars-map P Q g (fun r ps) (h, k) = (Vars-map P Q g r h, VarsAll-map P Q g ps k)
  Vars-map P Q g (tuple ts) h = VarsAll-map P Q g ts h
  Vars-map P Q g (array t) h = Vars-map P Q g t h
  Vars-map P Q g (option t) h = Vars-map P Q g t h
  Vars-map P Q g (var p) h = g p h
  Vars-map P Q g unit h = tt
  Vars-map P Q g bool h = tt
  Vars-map P Q g int h = tt
  Vars-map P Q g float h = tt
  Vars-map P Q g string h = tt

  VarsAll-map :
      (P Q : ℕ → Type 0) → ((p : ℕ) → P p → Q p) → (ts : Tys) → VarsAll P ts → VarsAll Q ts
  VarsAll-map P Q g nil h = tt
  VarsAll-map P Q g (cons t ts) (h, k) = (Vars-map P Q g t h, VarsAll-map P Q g ts k)

-- A state that grows while a type is copied: `Related` says which pairs of assignments give a copy
-- and the type that it is a copy of the same value, and `Settled` what holds of a copy's variables.
pub record Growth (S : Type 0) : Type 1 where
  pub store : S → Store
  pub Later : S → S → Type 0
  pub Related : S → Assignment → Assignment → Type 0
  pub Settled : S → ℕ → Type 0
  pub stays : (a : S) → Later a a
  pub after : (a b c : S) → Later a b → Later b c → Later a c
  pub keeps :
      (a b : S)
      → Later a b
      → (p : ℕ) → InUse (store a) p
      → InUse (store b) p × (((store b).cell p).ref ≡ ((store a).cell p).ref)
  pub relates : (a b : S) → Later a b → (θ η : Assignment) → Related b θ η → Related a θ η
  pub settles : (a b : S) → Later a b → (p : ℕ) → Settled a p → Settled b p

module _ {S : Type 0} (g : Growth S) where
  open g use {store, Later, Related, Settled, stays, after, keeps, relates, settles}

  -- `t'` is a copy of `t` in the state `s`.
  abbrev pub Copy : S → Ty → Ty → Type 0
  Copy s t t' = ((θ η : Assignment) → Related s θ η → value θ t' ≡ value η t) × Vars (Settled s) t'

  abbrev pub CopyAll : S → Tys → Tys → Type 0
  CopyAll s ts ts' =
      ((θ η : Assignment) → Related s θ η → values θ ts' ≡ values η ts) × VarsAll (Settled s) ts'

  abbrev pub Copies : S → Ty → Option (Ty × S) → Type 0
  Copies s t none = ⊥
  Copies s t (some (t', s')) = Later s s' × Copy s' t t'

  abbrev pub CopiesAll : S → Tys → Option (Tys × S) → Type 0
  CopiesAll s ts none = ⊥
  CopiesAll s ts (some (ts', s')) = Later s s' × CopyAll s' ts ts'

  Copy-later : (a b : S) (t t' : Ty) → Later a b → Copy a t t' → Copy b t t'
  Copy-later a b t t' l (same, vars) =
      ((λ θ η r. same θ η (relates a b l θ η r)), Vars-map _ _ (settles a b l) t' vars)

  CopyAll-later : (a b : S) (ts ts' : Tys) → Later a b → CopyAll a ts ts' → CopyAll b ts ts'
  CopyAll-later a b ts ts' l (same, vars) =
      ((λ θ η r. same θ η (relates a b l θ η r)), VarsAll-map _ _ (settles a b l) ts' vars)

  Copies-move : (a b : S) (t : Ty) (o : Option (Ty × S)) → Later a b → Copies b t o → Copies a t o
  Copies-move a b t none l h = h
  Copies-move a b t (some (t', s')) l (l', c) = (after a b s' l l', c)

  CopiesAll-move :
      (a b : S) (ts : Tys) (o : Option (Tys × S)) → Later a b → CopiesAll b ts o → CopiesAll a ts o
  CopiesAll-move a b ts none l h = h
  CopiesAll-move a b ts (some (ts', s')) l (l', c) = (after a b s' l l', c)

  Copies-then :
      (s : S) (t u : Ty) (o : Option (Ty × S)) (k : Ty × S → Option (Ty × S))
      → Copies s t o
      → ((t' : Ty) (s' : S) → Later s s' → Copy s' t t' → Copies s' u (k (t', s')))
      → Copies s u (bind o k)
  Copies-then s t u none k h next = h
  Copies-then s t u (some (t', s')) k (l, c) next =
      Copies-move s s' u (k (t', s')) l (next t' s' l c)

  Copies-then-all :
      (s : S) (t : Ty) (us : Tys) (o : Option (Ty × S)) (k : Ty × S → Option (Tys × S))
      → Copies s t o
      → ((t' : Ty) (s' : S) → Later s s' → Copy s' t t' → CopiesAll s' us (k (t', s')))
      → CopiesAll s us (bind o k)
  Copies-then-all s t us none k h next = h
  Copies-then-all s t us (some (t', s')) k (l, c) next =
      CopiesAll-move s s' us (k (t', s')) l (next t' s' l c)

  CopiesAll-then :
      (s : S) (ts : Tys) (u : Ty) (o : Option (Tys × S)) (k : Tys × S → Option (Ty × S))
      → CopiesAll s ts o
      → ((ts' : Tys) (s' : S) → Later s s' → CopyAll s' ts ts' → Copies s' u (k (ts', s')))
      → Copies s u (bind o k)
  CopiesAll-then s ts u none k h next = h
  CopiesAll-then s ts u (some (ts', s')) k (l, c) next =
      Copies-move s s' u (k (ts', s')) l (next ts' s' l c)

  CopiesAll-then-all :
      (s : S) (ts us : Tys) (o : Option (Tys × S)) (k : Tys × S → Option (Tys × S))
      → CopiesAll s ts o
      → ((ts' : Tys) (s' : S) → Later s s' → CopyAll s' ts ts' → CopiesAll s' us (k (ts', s')))
      → CopiesAll s us (bind o k)
  CopiesAll-then-all s ts us none k h next = h
  CopiesAll-then-all s ts us (some (ts', s')) k (l, c) next =
      CopiesAll-move s s' us (k (ts', s')) l (next ts' s' l c)

  -- A visit that copies each type of depth `n`.
  abbrev pub Copier : ℕ → Visit S → Type 0
  Copier n rec = (t : Ty) (s : S) → Within (InUse (store s)) n (store s) t → Copies s t (rec t s)

  Within-later :
      (a b : S)
      → Later a b
      → (n m : ℕ) (t : Ty) → n ≤ m
      → Within (InUse (store a)) n (store a) t
      → Within (InUse (store b)) m (store b) t
  Within-later a b l = Within-map _ _ (store a) (store b) (keeps a b l)

  apply_all-CopiesAll :
      (n : ℕ) (rec : Visit S)
      → Copier n rec
      → (ts : Tys) (s : S) → All (Within (InUse (store s)) n (store s)) ts
      → CopiesAll s ts (apply_all rec ts s)
  unfolding apply_all values Vars
  apply_all-CopiesAll n rec copy nil s h = (stays s, ((λ θ η r. refl), tt))
  apply_all-CopiesAll n rec copy (cons t ts) s (h, k) =
      Copies-then-all s t (cons t ts) (rec t s) _ (copy t s h) (λ t' s' l c.
        CopiesAll-then-all s' ts (cons t ts) (apply_all rec ts s') _
          (apply_all-CopiesAll n rec copy ts s'
            (All-map _ _ (λ u. Within-later s s' l n n u (omega arith)) ts k))
          (λ ts' s'' l' c'.
            let later = Copy-later s' s'' t t' l' c in
            (stays s'', ((λ θ η r. ap₂ cons (later.0 θ η r) (c'.0 θ η r)), (later.1, c'.1)))))

  module _ (at_var : Visit S → ℕ → S → Option (Ty × S))
      (copy_var : (n : ℕ) (rec : Visit S)
        → Copier n rec
        → (p : ℕ) (s : S) → Within (InUse (store s)) (suc n) (store s) (var p)
        → Copies s (var p) (at_var rec p s)) where
    -- Fuel for the depth of the type is enough, and what is built is a copy.
    pub apply-Copier : (n : ℕ) → Copier n (apply at_var n)
    unfolding apply value Vars
    apply-Copier zero t s h = h
    apply-Copier (suc n) (var p) s h = copy_var n (apply at_var n) (apply-Copier n) p s h
    apply-Copier (suc n) (tuple ts) s h =
        CopiesAll-then s ts (tuple ts) (apply_all (apply at_var n) ts s) _
          (apply_all-CopiesAll n (apply at_var n) (apply-Copier n) ts s h)
          (λ ts' s' l c. (stays s', ((λ θ η r. ap tuple (c.0 θ η r)), c.1)))
    apply-Copier (suc n) (array t) s h =
        Copies-then s t (array t) (apply at_var n t s) _ (apply-Copier n t s h)
          (λ t' s' l c. (stays s', ((λ θ η r. ap array (c.0 θ η r)), c.1)))
    apply-Copier (suc n) (option t) s h =
        Copies-then s t (option t) (apply at_var n t s) _ (apply-Copier n t s h)
          (λ t' s' l c. (stays s', ((λ θ η r. ap option (c.0 θ η r)), c.1)))
    apply-Copier (suc n) (fun r ps) s (h, k) =
        CopiesAll-then s ps (fun r ps) (apply_all (apply at_var n) ps s) _
          (apply_all-CopiesAll n (apply at_var n) (apply-Copier n) ps s k)
          (λ ps' s' l c.
            Copies-then s' r (fun r ps) (apply at_var n r s') _
              (apply-Copier n r s' (Within-later s s' l n n r (omega arith) h))
              (λ r' s'' l' c'.
                let later = CopyAll-later s' s'' ps ps' l' c in
                (stays s'', ((λ θ η x. ap₂ fun (c'.0 θ η x) (later.0 θ η x)), (c'.1, later.1)))))
    apply-Copier (suc n) unit s h = (stays s, ((λ θ η r. refl), tt))
    apply-Copier (suc n) bool s h = (stays s, ((λ θ η r. refl), tt))
    apply-Copier (suc n) int s h = (stays s, ((λ θ η r. refl), tt))
    apply-Copier (suc n) float s h = (stays s, ((λ θ η r. refl), tt))
    apply-Copier (suc n) string s h = (stays s, ((λ θ η r. refl), tt))

-- ===== src/Sema/Unify/Halts.antt =====
-- The loops of `unify` end when its calls on the parts do.
-- The measure of the recursion is the number of free cells first and then the depth of the two types: a part is
-- less deep, a link is followed to a less deep type, and a new link takes a free cell away.
use gocaml.Base.{
  ℕ, ◌+◌, ◌≤◌, ◌<◌, ◌≡◌, refl, Bool, true, false, arith, ◌==◌, if◌then◌else◌, ◌⊎◌, inl, inr,
}
use gocaml.Types.{Ty, Tys, nil, cons, Store}
use gocaml.Types.Free.{free_count, free_count-same}
use gocaml.Types.Bounded.{All, All-map, Within, InUse, Acyclic, Finite, Finite-move}
use gocaml.Sema.Unify.{UnifyError, ok, err, length_tys, unify_elems, unify_tuple, unify_fun, unify}
use gocaml.Sema.Unify.OccurEnds.{Within-same}
use gocaml.Sema.Unify.Settled.{Settled, free_count-Settled, settle_then}
use gocaml.Sema.Unify.Fuel.{unify-Stable, unify_elems-Stable, Stable-if}

abbrev pub Halts : Ty → Ty → Store → Type 0
Halts l r s = (f : ℕ) × Settled s (unify f l r s)

-- With fewer than `k` free cells.
abbrev pub Lower : ℕ → Type 0
Lower k =
    (l r : Ty) (s : Store) → Acyclic s → free_count s < k → Finite s l → Finite s r → Halts l r s

-- With at most `k` free cells, and depths whose sum is at most `n`.
abbrev pub Inner : ℕ → ℕ → Type 0
Inner k n =
    (l r : Ty) (s : Store) (a b : ℕ)
    → Acyclic s
    → free_count s ≤ k
    → Within (InUse s) a s l
    → Within (InUse s) b s r
    → a + b ≤ n
    → Halts l r s

-- One of the two covers each pair of parts.
abbrev pub Ready : ℕ → ℕ → Tys → Tys → Store → Type 0
Ready k n ls rs s =
    ((free_count s < k) × All (Finite s) ls × All (Finite s) rs)
    ⊎ ((free_count s ≤ k)
        × ((a : ℕ) × (b : ℕ) × All (Within (InUse s) a s) ls
            × All (Within (InUse s) b s) rs
            × (a + b ≤ n)))

Finite-All :
    (s s' : Store)
    → Acyclic s'
    → s'.next ≡ s.next
    → (ts : Tys) → All (Finite s) ts
    → All (Finite s') ts
Finite-All s s' a next = All-map _ _ (λ t (n, h). Finite-move s s' a next n t h)

Within-All :
    (s s' : Store) (n : ℕ)
    → Acyclic s'
    → s'.next ≡ s.next
    → (ts : Tys) → All (Within (InUse s) n s) ts
    → All (Finite s') ts
Within-All s s' n a next = All-map _ _ (λ t h. Finite-move s s' a next n t h)

-- The rest of the parts is ready when one part has been unified.
Ready-rest :
    (k n : ℕ) (l r : Ty) (ls rs : Tys) (s s' : Store)
    → Ready k n (cons l ls) (cons r rs) s
    → Settled s (ok s')
    → Ready k n ls rs s'
Ready-rest k n l r ls rs s s' (inl (few, hl, hr)) h = inl (
  omega (arith, free_count-Settled s s' h),
  Finite-All s s' h.0 h.1 ls hl.1,
  Finite-All s s' h.0 h.1 rs hr.1,
)
Ready-rest k n l r ls rs s s' (inr (few, (a, b, hl, hr, le))) (ac, next, inl same) = inr (
  omega (arith, free_count-same s s' same next),
  (
    a,
    b,
    All-map _ _ (Within-same s s' same next a) ls hl.1,
    All-map _ _ (Within-same s s' same next b) rs hr.1,
    le,
  ),
)
Ready-rest k n l r ls rs s s' (inr (few, (a, b, hl, hr, le))) (ac, next, inr less) =
    inl (omega arith, Within-All s s' a ac next ls hl.1, Within-All s s' b ac next rs hr.1)

module _ (k n : ℕ) (low : Lower k) (inner : Inner k n) where
  Ready-first :
      (l r : Ty) (ls rs : Tys) (s : Store)
      → Acyclic s
      → Ready k n (cons l ls) (cons r rs) s
      → Halts l r s
  Ready-first l r ls rs s ac (inl (few, hl, hr)) = low l r s ac few hl.0 hr.0
  Ready-first l r ls rs s ac (inr (few, (a, b, hl, hr, le))) = inner l r s a b ac few hl.0 hr.0 le

  unify_elems-Halts :
      (w : ℕ → UnifyError → UnifyError) (i : ℕ) (ls rs : Tys) (s : Store)
      → Acyclic s
      → Ready k n ls rs s
      → (g : ℕ) × Settled s (unify_elems (unify g) w i ls rs s)
  unfolding unify_elems
  unify_elems-Halts w i nil rs s ac h = (0, (ac, refl, inl (λ p. refl)))
  unify_elems-Halts w i (cons l ls) nil s ac h = (0, tt)
  unify_elems-Halts w i (cons l ls) (cons r rs) s ac h =
      let (f, first) = Ready-first l r ls rs s ac h in
      settle_then (w (i + 1)) l r s f (λ g u. unify_elems (unify g) w (i + 1) ls rs u)
        (λ g g' le u.
          unify_elems-Stable (unify g) (unify g') (unify-Stable g g' le) w (i + 1) ls rs u)
        (λ s' after.
          unify_elems-Halts w (i + 1) ls rs s' after.0 (Ready-rest k n l r ls rs s s' h after))
        (unify f l r s) refl first

  -- The loop behind its test of the lengths.
  counted-Halts :
      (b : Bool) (w : ℕ → UnifyError → UnifyError) (x : UnifyError) (ls rs : Tys) (s : Store)
      → Acyclic s
      → Ready k n ls rs s
      → (g : ℕ) × Settled s (if b then unify_elems (unify g) w 0 ls rs s else err x)
  counted-Halts true w x ls rs s ac h = unify_elems-Halts w 0 ls rs s ac h
  counted-Halts false w x ls rs s ac h = (0, tt)

  pub unify_tuple-Halts :
      (ls rs : Tys) (s : Store)
      → Acyclic s
      → Ready k n ls rs s
      → (g : ℕ) × Settled s (unify_tuple (unify g) ls rs s)
  unfolding unify_tuple
  unify_tuple-Halts ls rs s ac h = counted-Halts (length_tys ls == length_tys rs) _ _ ls rs s ac h

  pub unify_fun-Halts :
      (l : Ty) (ls : Tys) (r : Ty) (rs : Tys) (s : Store)
      → Acyclic s
      → Ready k n (cons l ls) (cons r rs) s
      → (g : ℕ) × Settled s (unify_fun (unify g) l ls r rs s)
  unfolding unify_fun
  unify_fun-Halts l ls r rs s ac h =
      let (f, first) = Ready-first l r ls rs s ac h in
      settle_then UnifyError.in_ret l r s f
        (λ g u.
          if length_tys ls == length_tys rs
          then unify_elems (unify g) UnifyError.in_param 0 ls rs u
          else err (UnifyError.fun_length (length_tys ls) (length_tys rs)))
        (λ g g' le u.
          Stable-if (length_tys ls == length_tys rs) _ _ _ _
            (unify_elems-Stable (unify g) (unify g') (unify-Stable g g' le) UnifyError.in_param 0 ls
              rs u)
            refl)
        (λ s' after.
          counted-Halts (length_tys ls == length_tys rs) _ _ ls rs s' after.0
            (Ready-rest k n l r ls rs s s' h after))
        (unify f l r s) refl first

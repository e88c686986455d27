-- ===== src/Closure/Transform/Noted.antt =====
-- closure/transform.go: after the visit, each function that is used as a variable is enclosed.
use gocaml.Base.{
  both_true, ◌≡◌, refl, sym, subst, ◌∙◌, inl, inr, Bool, true, false, Bool-cases, not, ◌||◌, ◌&&◌,
  Option, none, some, List, [], ◌∷◌, ◌++◌, Text, text_eq, text_eq_iff, put, put_other,
}
use gocaml.Mir.Val.{Val, Insns, if_val, fun_val, nil, cons}
use gocaml.Mir.Formed.{is_fun, formed_val, formed}
use gocaml.Sema.Alpha.{text_in}
use gocaml.Closure.FreeVars.{delete, gather_free_vars, gather_free_vars_till_the_end}
use gocaml.Closure.FreeVars.Free.{nested}
use gocaml.Closure.Transform.{
  TransformWithKfo, delete_all, assume, discard, mark, set_block_free_vars, replace, or_gather,
  enclose, leave, close, settle, enter, visit,
}
use gocaml.Closure.Transform.Settled.{settled, settled-visited}
use gocaml.Closure.Transform.Visits.{visit-settled}
use gocaml.Closure.Transform.Captures.{gathered-free}
use gocaml.Closure.Transform.Escapes.{handed, escapes_val, escapes, handed-free}
use gocaml.Closure.Transform.Encloses.{
  some_inj, and_then-inv, Enclosed, Current, Step, SameAt-Enclosed, SameAt-Current, mark-SameAt,
  other-Step, self-Enclosed,
}

-- The instruction defines the function.
abbrev pub is_entered : Text → Text → Val → Bool
is_entered z x (fun_val ps body rec) = text_eq x z
is_entered z x v = false

module _ (sorted : List Text → List Text) (z : Text) where
  id-Step : (b : Bool) (t : TransformWithKfo) → Step z b t t
  id-Step b t i = (i, λ f p. p)

  close-Step :
      (x : Text) (fv : List Text) (t : TransformWithKfo)
      → Step z (text_eq x z) t (close sorted x fv t)
  unfolding close
  close-Step x fv t i =
      let t1 : TransformWithKfo = record t { closures = put x (sorted (delete x fv)) t.closures } in
      let (same, k) = mark-SameAt z (text_in x fv) x t1 in
      (
        SameAt-Enclosed z t1 (mark (text_in x fv) x t1) same i,
        (λ ne p.
            SameAt-Current z t1 (mark (text_in x fv) x t1) same k
              (λ make e. put_other x z _ t.closures ne ∙ p make e)),
      )

  gather-in :
      (t : TransformWithKfo) (y : Text) (v : Val) (rest : Insns) (o : Option (List Text))
      (fv : List Text)
      → ((vs : List Text) → o ≡ some vs → text_in z vs ≡ true)
      → settled t.seen (cons y v rest) ≡ true
      → (handed z (cons y v rest) && not (nested z (cons y v rest))) ≡ true
      → or_gather o t.seen (cons y v rest) ≡ some fv
      → text_in z fv ≡ true
  unfolding gather_free_vars gather_free_vars_till_the_end
  gather-in t y v rest (some vs) fv q s h e = q fv e
  gather-in t y v rest none fv q s h e =
      let (eh, en) = both_true (handed z (cons y v rest)) (not (nested z (cons y v rest))) h in
      gathered-free t.seen z (cons y v rest) fv e (settled-visited t.seen (cons y v rest) s)
        (not-true (nested z (cons y v rest)) en)
      ∙ handed-free t.seen z (cons y v rest) eh
    where
      not-true : (b : Bool) → not b ≡ true → b ≡ false
      not-true true e = absurd (cc)
      not-true false e = refl

  -- The rest of the block has been visited.
  enclose-Step :
      (x y : Text) (v : Val) (rest : Insns) (t t' : TransformWithKfo)
      → settled t.seen (cons y v rest) ≡ true
      → (not (text_eq x z) || (handed z (cons y v rest) && not (nested z (cons y v rest)))) ≡ true
      → enclose x (cons y v rest) t ≡ some t'
      → Enclosed z t
      → Enclosed z t'
        × (text_eq x z ≡ false → Current z t → Current z t')
        × (text_eq x z ≡ true → Current z t')
  unfolding enclose
  enclose-Step x y v rest t t' s h e i =
      let (fv, eg, et) =
        and_then-inv (or_gather (t.seen.closure_block_free_vars x) t.seen (cons y v rest)) _ e in
      let new : TransformWithKfo = replace (text_in x fv) x (set_block_free_vars x fv t) in
      subst
        (λ t'.
          Enclosed z t'
          × (text_eq x z ≡ false → Current z t → Current z t')
          × (text_eq x z ≡ true → Current z t'))
        (some_inj et)
        (elim (Bool-cases (text_eq x z)) [
          | inr ne ↦
              let (i', p') = other-Step z x fv t ne i in
              (i', (λ f. p' refl), (λ k. absurd (let never = sym ne ∙ k in cc)))
          | inl same ↦
              let here : x ≡ z = (text_eq_iff x z).0 same in
              let h' = rw same at h in
              let k = gather-in t y v rest (t.seen.closure_block_free_vars z) fv i.0 s h' (
                subst
                  (λ n.
                    or_gather (t.seen.closure_block_free_vars n) t.seen (cons y v rest) ≡ some fv)
                  here eg) in
              let (i', p') = self-Enclosed z fv t k in
              subst
                (λ n.
                  Enclosed z (replace (text_in n fv) n (set_block_free_vars n fv t))
                  × (text_eq x z ≡ false
                      → Current z t
                      → Current z (replace (text_in n fv) n (set_block_free_vars n fv t)))
                  × (text_eq x z ≡ true
                      → Current z (replace (text_in n fv) n (set_block_free_vars n fv t))))
                (sym here) (i', (λ f p. p'), (λ f. p'))
        ])

  leave-Step :
      (x : Text) (w : Val) (y : Text) (v : Val) (rest : Insns) (t t' : TransformWithKfo)
      → settled t.seen (cons y v rest) ≡ true
      → escapes_val z x w (cons y v rest) ≡ true
      → leave x w (cons y v rest) t ≡ some t'
      → Enclosed z t
      → Enclosed z t'
        × (is_entered z x w ≡ false → Current z t → Current z t')
        × (is_entered z x w ≡ true → Current z t')
  unfolding escapes
  leave-Step x (fun_val ps body rec) y v rest t t' s h e i =
      enclose-Step x y v rest t t' s (both_true _ (escapes z body) h).0 e i
  leave-Step x w y v rest t t' s h e i =
      subst
        (λ t'.
          Enclosed z t'
          × (is_entered z x w ≡ false → Current z t → Current z t')
          × (is_entered z x w ≡ true → Current z t'))
        (some_inj e) (i, (λ f p. p), (λ k. absurd (cc)))

  settle-Step :
      (x : Text) (ps : List Text) (body : Insns) (fv : List Text) (t dup t' : TransformWithKfo)
      (retry : Option TransformWithKfo)
      → Step z false t dup
      → ((t1 : TransformWithKfo) → retry ≡ some t1 → Step z false t t1)
      → settle sorted x ps body fv dup retry ≡ some t'
      → Step z (text_eq x z) t t'
  unfolding settle
  settle-Step x ps body [] t dup t' retry d r e i =
      subst (Step z (text_eq x z) t) (some_inj e) (λ i. ((d i).0, (λ f p. (d i).1 refl p))) i
  settle-Step x ps body (n ∷ ns) t dup t' retry d r e i =
      let (t1, e1, e2) = and_then-inv retry _ e in
      let (fv, eg, e3) = and_then-inv (gather_free_vars t1.seen body) _ e2 in
      let (i1, p1) = r t1 e1 i in
      let (i2, p2) = close-Step x (delete_all ps fv) t1 i1 in
      subst (λ t'. Enclosed z t' × (text_eq x z ≡ false → Current z t → Current z t')) (some_inj e3)
        (i2, (λ f p. p2 f (p1 refl p)))

  leave_last :
      (x : Text) (v : Val) (t : TransformWithKfo) → not (is_fun v) ≡ true → leave x v nil t ≡ some t
  unfolding is_fun
  leave_last x (fun_val ps body rec) t f = absurd (cc)
  leave_last x v t f = refl

  not_entered : (x : Text) (v : Val) → not (is_fun v) ≡ true → is_entered z x v ≡ false
  unfolding is_fun
  not_entered x (fun_val ps body rec) f = absurd (cc)
  not_entered x v f = refl

  mutual
    unfolding visit formed escapes

    enter-Step :
        (scope : List Text) (x : Text) (v : Val) (rest : Insns) (t t' : TransformWithKfo)
        → formed_val scope x v ≡ true
        → escapes_val z x v rest ≡ true
        → enter sorted x v t ≡ some t'
        → Step z (is_entered z x v) t t'
    enter-Step scope x (fun_val ps body rec) rest t t' k h e i =
        let kb = (both_true (not rec) (formed (ps ++ x ∷ scope) body) k).1 in
        let hb = (both_true _ (escapes z body) h).1 in
        let (dup, e1, e2) = and_then-inv (visit sorted body (assume x t)) _ e in
        let (fv, eg, e3) = and_then-inv (gather_free_vars dup.seen body) _ e2 in
        settle-Step x ps body (delete_all ps fv) t dup t' (visit sorted body (discard t dup))
          (visit-Step (ps ++ x ∷ scope) body (assume x t) dup kb hb e1)
          (λ t1 r. visit-Step (ps ++ x ∷ scope) body (discard t dup) t1 kb hb r) e3 i
    enter-Step scope x (if_val c a b) rest t t' k h e i =
        let (kc, kab) = both_true (text_in c scope) (formed scope a && formed scope b) k in
        let (ka, kb) = both_true (formed scope a) (formed scope b) kab in
        let (ha, hb) = both_true (escapes z a) (escapes z b) h in
        let (t1, e1, e2) = and_then-inv (visit sorted a t) _ e in
        let (i1, p1) = visit-Step scope a t t1 ka ha e1 i in
        let (i2, p2) = visit-Step scope b t1 t' kb hb e2 i1 in (i2, (λ f p. p2 refl (p1 refl p)))
    enter-Step scope x v rest t t' k h e i =
        subst (λ t'. Enclosed z t' × (is_entered z x v ≡ false → Current z t → Current z t'))
          (some_inj e) (i, (λ f p. p))

    pub visit-Step :
        (scope : List Text) (block : Insns) (t t' : TransformWithKfo)
        → formed scope block ≡ true
        → escapes z block ≡ true
        → visit sorted block t ≡ some t'
        → Step z false t t'
    visit-Step scope nil t t' k h e i = absurd (cc)
    visit-Step scope (cons x v nil) t t' k h e i =
        let (kv, kf) = both_true (formed_val scope x v) (not (is_fun v)) k in
        let hv = (both_true (escapes_val z x v nil) true h).0 in
        let (t1, e1, e2) = and_then-inv (enter sorted x v t) _ e in
        let (i1, p1) = enter-Step scope x v nil t t1 kv hv e1 i in
        subst (λ t'. Enclosed z t' × (false ≡ false → Current z t → Current z t'))
          (some_inj (sym (leave_last x v t1 kf) ∙ e2)) (i1, (λ f p. p1 (not_entered x v kf) p))
    visit-Step scope (cons x v (cons y w rest)) t t' k h e i =
        let (kv, kr) = both_true (formed_val scope x v) (formed (x ∷ scope) (cons y w rest)) k in
        let (hv, hr) =
          both_true (escapes_val z x v (cons y w rest)) (escapes z (cons y w rest)) h in
        let (t1, e1, e') = and_then-inv (enter sorted x v t) _ e in
        let (t2, e2, e3) = and_then-inv (visit sorted (cons y w rest) t1) _ e' in
        let (u, eu, keeps, su) = visit-settled sorted (x ∷ scope) (cons y w rest) t1 kr in
        let s = subst (λ u. settled u.seen (cons y w rest) ≡ true) (some_inj (sym eu ∙ e2)) su in
        let (i1, p1) = enter-Step scope x v (cons y w rest) t t1 kv hv e1 i in
        let (i2, p2) = visit-Step (x ∷ scope) (cons y w rest) t1 t2 kr hr e2 i1 in
        let (i3, p3, q3) = leave-Step x v y w rest t2 t' s hv e3 i2 in
        (
          i3,
          (λ f p. elim (Bool-cases (is_entered z x v)) [
            | inl own ↦ q3 own
            | inr other ↦ p3 other (p2 refl (p1 other p))
          ]),
        )

-- ===== src/Closure/Transform/Visits.antt =====
-- closure/transform.go: the visit of a formed block does not fail, and visits each function.
use gocaml.Base.{
  both_true, ◌≡◌, refl, Bool, true, false, not, ◌&&◌, Option, none, some, List, [], ◌∷◌, ◌++◌, Text,
  put_same,
}
use gocaml.Mir.Val.{
  AppKind, direct_call, closure_call, external_call, Val, Insns, if_val, fun_val, app, make_cls,
  nil, cons,
}
use gocaml.Mir.Formed.{is_direct, is_fun, formed_val, formed, all_in}
use gocaml.Sema.Alpha.{text_in}
use gocaml.Closure.FreeVars.Total.{gather_free_vars-total, gather_free_vars_till_the_end-total}
use gocaml.Closure.FixApps.Calls.{fresh_kind}
use gocaml.Closure.Transform.{
  TransformWithKfo, delete_all, assume, discard, mark, or_gather, set_block_free_vars, replace,
  enclose, leave, close, settle, enter, visit,
}
use gocaml.Closure.Transform.Settled.{
  known, settled_val, settled, settled-visited, Keeps, settled_val_mono, settled_mono,
  Keeps-known_funs, set_block_free_vars-Keeps, replace-Keeps,
}

-- A value, but for whether the function itself is known.
abbrev inside : TransformWithKfo → Text → Val → Bool
inside t x (fun_val ps body rec) = settled t.seen body
inside t x v = settled_val t.seen x v

abbrev pub Reaches : Option TransformWithKfo → TransformWithKfo → (TransformWithKfo → Bool) → Type 0
Reaches r t p = (t' : TransformWithKfo) × (r ≡ some t') × Keeps t.seen t'.seen × (p t' ≡ true)

fresh-direct : (kind : AppKind) → is_direct kind ≡ true → fresh_kind kind ≡ true
fresh-direct direct_call e = refl
fresh-direct closure_call e = absurd (cc)
fresh-direct external_call e = absurd (cc)

rest_vars :
    (x : Text) (y : Text) (v : Val) (rest : Insns) (t : TransformWithKfo) (o : Option (List Text))
    → settled t.seen (cons y v rest) ≡ true
    → (fv : List Text) × (or_gather o t.seen (cons y v rest) ≡ some fv)
rest_vars x y v rest t none e =
    gather_free_vars_till_the_end-total t.seen y v rest (settled-visited t.seen (cons y v rest) e)
rest_vars x y v rest t (some cache) e = (cache, refl)

enclose-Reaches :
    (x y : Text) (v : Val) (rest : Insns) (t : TransformWithKfo)
    → settled t.seen (cons y v rest) ≡ true
    → Reaches (enclose x (cons y v rest) t) t (λ t'. known t'.seen x)
unfolding enclose
enclose-Reaches x y v rest t e =
    let (fv, ev) = rest_vars x y v rest t (t.seen.closure_block_free_vars x) e in
    let t1 = set_block_free_vars x fv t in
    let (keeps, new) =
      replace-Keeps (text_in x fv) x fv t1 (put_same x fv t.seen.closure_block_free_vars) in
    (
      replace (text_in x fv) x t1,
      rw ev refl,
      (λ z k. keeps z (set_block_free_vars-Keeps x fv t z k)),
      new,
    )

leave-Reaches :
    (x : Text) (w : Val) (y : Text) (v : Val) (rest : Insns) (t : TransformWithKfo)
    → inside t x w ≡ true
    → settled t.seen (cons y v rest) ≡ true
    → Reaches (leave x w (cons y v rest) t) t (λ t'. settled_val t'.seen x w)
unfolding settled
leave-Reaches x (fun_val ps body rec) y v rest t i e =
    let (t', eq, keeps, new) = enclose-Reaches x y v rest t e in
    (t', eq, keeps, rw (new, settled_mono t.seen t'.seen body keeps i) refl)
leave-Reaches x w y v rest t i e = (t, refl, (λ z k. k), i)

leave_last :
    (x : Text) (w : Val) (rest : Insns) (t : TransformWithKfo)
    → not (is_fun w) ≡ true
    → inside t x w ≡ true
    → Reaches (leave x w rest t) t (λ t'. settled_val t'.seen x w)
unfolding is_fun
leave_last x (fun_val ps body rec) rest t f i = absurd (cc)
leave_last x w rest t f i = (t, refl, (λ z k. k), i)

inside_mono :
    (t t' : TransformWithKfo) (x : Text) (w : Val)
    → Keeps t.seen t'.seen
    → inside t x w ≡ true
    → inside t' x w ≡ true
inside_mono t t' x (fun_val ps body rec) k i = settled_mono t.seen t'.seen body k i
inside_mono t t' x w k i = settled_val_mono t.seen t'.seen x w k i

mark-seen : (b : Bool) (x : Text) (t : TransformWithKfo) → (mark b x t).seen ≡ t.seen
mark-seen true x t = refl
mark-seen false x t = refl

module _ (sorted : List Text → List Text) where
  close-seen :
      (x : Text) (fv : List Text) (t : TransformWithKfo) → (close sorted x fv t).seen ≡ t.seen
  unfolding close
  close-seen x fv t = mark-seen (text_in x fv) x _

  settle-Reaches :
      (x : Text) (ps : List Text) (body : Insns) (fv : List Text) (dup t : TransformWithKfo)
      (retry : Option TransformWithKfo)
      → Keeps t.seen dup.seen
      → settled dup.seen body ≡ true
      → Reaches retry t (λ t'. settled t'.seen body)
      → Reaches (settle sorted x ps body fv dup retry) t (λ t'. settled t'.seen body)
  unfolding settle
  settle-Reaches x ps body [] dup t retry k e r = (dup, refl, k, e)
  settle-Reaches x ps body (n ∷ ns) dup t retry k e (t1, er, k1, e1) =
      let (fv, eg) = gather_free_vars-total t1.seen body (settled-visited t1.seen body e1) in
      let same = close-seen x (delete_all ps fv) t1 in
      (
        close sorted x (delete_all ps fv) t1,
        rw (er, eg) refl,
        (λ z kz. rw same (k1 z kz)),
        rw same e1,
      )

  mutual
    unfolding visit formed settled

    enter-Reaches :
        (scope : List Text) (x : Text) (v : Val) (t : TransformWithKfo)
        → formed_val scope x v ≡ true
        → Reaches (enter sorted x v t) t (λ t'. inside t' x v)
    enter-Reaches scope x (fun_val ps body rec) t e =
        let (er, eb) = both_true (not rec) (formed (ps ++ x ∷ scope) body) e in
        let (dup, ed, kd, sd) = visit-Reaches (ps ++ x ∷ scope) body (assume x t) eb in
        let (fv, eg) = gather_free_vars-total dup.seen body (settled-visited dup.seen body sd) in
        let kept = Keeps-known_funs t.seen (assume x t).seen (λ f. refl) (λ f. refl) in
        let (t', es, k, s) =
          settle-Reaches x ps body (delete_all ps fv) dup t (visit sorted body (discard t dup))
            (λ z kz. kd z (kept z kz)) sd
            (visit-Reaches (ps ++ x ∷ scope) body (discard t dup) eb) in
        (t', rw (ed, eg) es, k, s)
    enter-Reaches scope x (if_val c a b) t e =
        let (ec, eab) = both_true (text_in c scope) (formed scope a && formed scope b) e in
        let (ea, eb) = both_true (formed scope a) (formed scope b) eab in
        let (t1, e1, k1, s1) = visit-Reaches scope a t ea in
        let (t2, e2, k2, s2) = visit-Reaches scope b t1 eb in
        (t2, rw e1 e2, (λ z kz. k2 z (k1 z kz)), rw (settled_mono t1.seen t2.seen a k2 s1, s2) refl)
    enter-Reaches scope x (app callee args kind) t e =
        let (ek, ea) = both_true (is_direct kind) (all_in (callee ∷ args) scope) e in
        (t, refl, (λ z k. k), fresh-direct kind ek)
    enter-Reaches scope x (make_cls vars f) t e = absurd (cc)
    enter-Reaches scope x v t e = (t, refl, (λ z k. k), refl)

    visit-Reaches :
        (scope : List Text) (block : Insns) (t : TransformWithKfo)
        → formed scope block ≡ true
        → Reaches (visit sorted block t) t (λ t'. settled t'.seen block)
    visit-Reaches scope nil t e = absurd (cc)
    visit-Reaches scope (cons x v nil) t e =
        let (ev, ef) = both_true (formed_val scope x v) (not (is_fun v)) e in
        let (t1, e1, k1, i1) = enter-Reaches scope x v t ev in
        let (t2, e2, k2, s2) = leave_last x v nil t1 ef i1 in
        (t2, rw e1 e2, (λ z kz. k2 z (k1 z kz)), rw s2 refl)
    visit-Reaches scope (cons x v (cons y w rest)) t e =
        let (ev, er) = both_true (formed_val scope x v) (formed (x ∷ scope) (cons y w rest)) e in
        let (t1, e1, k1, i1) = enter-Reaches scope x v t ev in
        let (t2, e2, k2, s2) = visit-Reaches (x ∷ scope) (cons y w rest) t1 er in
        let (t3, e3, k3, s3) = leave-Reaches x v y w rest t2 (inside_mono t1 t2 x v k2 i1) s2 in
        (
          t3,
          rw (e1, e2) e3,
          (λ z kz. k3 z (k2 z (k1 z kz))),
          rw (s3, settled_mono t2.seen t3.seen (cons y w rest) k3 s2) refl,
        )

-- The visit of a formed block does not fail. Afterwards each of its functions, also those inside
-- others, is known to be a closure or not, as is what each closure needs, and what was known
-- before is still.
pub visit-settled :
    (sorted : List Text → List Text) (scope : List Text) (block : Insns) (t : TransformWithKfo)
    → formed scope block ≡ true
    → (t' : TransformWithKfo) × (visit sorted block t ≡ some t')
      × Keeps t.seen t'.seen
      × (settled t'.seen block ≡ true)
visit-settled sorted scope block t e = visit-Reaches sorted scope block t e

-- ===== src/Closure/Transform/Encloses.antt =====
-- closure/transform.go: a function that is used as a variable is enclosed.
use gocaml.Base.{
  ◌≡◌, refl, sym, ap, subst, ◌∙◌, Bool, true, false, Option, none, some, List, [], Text, text_eq,
  put_same, put_other,
}
use gocaml.Sema.Alpha.{text_in}
use gocaml.Closure.FreeVars.{MakeCls}
use gocaml.Closure.FixApps.{and_then}
use gocaml.Closure.Transform.{TransformWithKfo, mark, set_block_free_vars, make_closure, replace}

abbrev value_or : {A : Type 0} → A → Option A → A
value_or a none = a
value_or a (some b) = b

pub some_inj : {A : Type 0} {a b : A} → some a ≡ some b → a ≡ b
some_inj {a = a} e = ap (value_or a) e

-- A chain that gives a result does so at each step.
pub and_then-inv :
    {A B : Type 0} (m : Option A) (k : A → Option B) {b : B}
    → and_then m k ≡ some b
    → (a : A) × (m ≡ some a) × (k a ≡ some b)
and_then-inv none k e = absurd (cc)
and_then-inv (some a) k e = (a, refl, e)

module _ (z : Text) where
  -- What is noted of the function: that it is used in the rest of its block, and that its closure
  -- stands in its place.
  abbrev pub Enclosed : TransformWithKfo → Type 0
  Enclosed t =
      ((fv : List Text) → t.seen.closure_block_free_vars z ≡ some fv → text_in z fv ≡ true)
      × ((o : Option MakeCls)
          → t.seen.replaced_funs z ≡ some o
          → (vars : List Text) × (o ≡ some (record { vars = vars; fn = z })))

  -- The closure that stands there has the variables that are recorded for it.
  abbrev pub Current : TransformWithKfo → Type 0
  Current t =
      (make : MakeCls) → t.seen.replaced_funs z ≡ some (some make) → t.closures z ≡ some make.vars

  -- From one state to the next, unless the function itself has just been entered.
  abbrev pub Step : Bool → TransformWithKfo → TransformWithKfo → Type 0
  Step entered t t' = Enclosed t → Enclosed t' × (entered ≡ false → Current t → Current t')

  abbrev pub SameAt : TransformWithKfo → TransformWithKfo → Type 0
  SameAt t t' =
      (t.seen.closure_block_free_vars z ≡ t'.seen.closure_block_free_vars z)
      × (t.seen.replaced_funs z ≡ t'.seen.replaced_funs z)

  pub SameAt-Enclosed : (t t' : TransformWithKfo) → SameAt t t' → Enclosed t → Enclosed t'
  SameAt-Enclosed t t' (c, r) (q, p) = ((λ fv e. q fv (c ∙ e)), (λ o e. p o (r ∙ e)))

  pub SameAt-Current :
      (t t' : TransformWithKfo)
      → SameAt t t'
      → t.closures z ≡ t'.closures z
      → Current t
      → Current t'
  SameAt-Current t t' (c, r) k p make e = sym k ∙ p make (r ∙ e)

  pub mark-SameAt :
      (b : Bool) (x : Text) (t : TransformWithKfo)
      → SameAt t (mark b x t) × (t.closures z ≡ (mark b x t).closures z)
  mark-SameAt true x t = ((refl, refl), refl)
  mark-SameAt false x t = ((refl, refl), refl)

  make_closure-SameAt :
      (x : Text) (o : Option (List Text)) (t : TransformWithKfo)
      → text_eq x z ≡ false
      → SameAt t (make_closure x o t) × (t.closures z ≡ (make_closure x o t).closures z)
  make_closure-SameAt x (some vars) t ne =
      ((refl, sym (put_other x z _ t.seen.replaced_funs ne)), refl)
  make_closure-SameAt x none t ne =
      ((refl, sym (put_other x z _ t.seen.replaced_funs ne)), sym (put_other x z [] t.closures ne))

  replace-SameAt :
      (b : Bool) (x : Text) (t : TransformWithKfo)
      → text_eq x z ≡ false
      → SameAt t (replace b x t) × (t.closures z ≡ (replace b x t).closures z)
  replace-SameAt true x t ne = make_closure-SameAt x (t.closures x) t ne
  replace-SameAt false x t ne = ((refl, sym (put_other x z none t.seen.replaced_funs ne)), refl)

  -- Another function is replaced.
  pub other-Step :
      (x : Text) (fv : List Text) (t : TransformWithKfo)
      → text_eq x z ≡ false
      → Step false t (replace (text_in x fv) x (set_block_free_vars x fv t))
  other-Step x fv t ne i =
      let t1 = set_block_free_vars x fv t in
      let ((c, r), k) = replace-SameAt (text_in x fv) x t1 ne in
      let t2 = replace (text_in x fv) x t1 in
      let same : SameAt t t2 = (sym (put_other x z fv t.seen.closure_block_free_vars ne) ∙ c, r) in
      (SameAt-Enclosed t t2 same i, (λ f p. SameAt-Current t t2 same k p))

  some-Enclosed :
      (fv vars : List Text) (t : TransformWithKfo)
      → t.seen.closure_block_free_vars z ≡ some fv
      → text_in z fv ≡ true
      → t.seen.replaced_funs z ≡ some (some (record { vars = vars; fn = z }))
      → t.closures z ≡ some vars
      → Enclosed t × Current t
  some-Enclosed fv vars t c k r v = (
    (
      (λ gs e. subst (λ vs. text_in z vs ≡ true) (some_inj (sym c ∙ e)) k),
      (λ o e. (vars, some_inj (sym e ∙ r))),
    ),
    (λ make e. v ∙ ap some (ap (λ m. m.vars) (some_inj (some_inj (sym r ∙ e))))),
  )

  make_closure-Enclosed :
      (o : Option (List Text)) (fv : List Text) (t : TransformWithKfo)
      → t.closures z ≡ o
      → t.seen.closure_block_free_vars z ≡ some fv
      → text_in z fv ≡ true
      → Enclosed (make_closure z o t) × Current (make_closure z o t)
  make_closure-Enclosed (some vars) fv t v c k =
      some-Enclosed fv vars (make_closure z (some vars) t) c k (put_same z _ t.seen.replaced_funs) v
  make_closure-Enclosed none fv t v c k =
      some-Enclosed fv [] (make_closure z none t) c k (put_same z _ t.seen.replaced_funs)
        (put_same z [] t.closures)

  -- The function itself is replaced.
  pub self-Enclosed :
      (fv : List Text) (t : TransformWithKfo)
      → text_in z fv ≡ true
      → Enclosed (replace (text_in z fv) z (set_block_free_vars z fv t))
        × Current (replace (text_in z fv) z (set_block_free_vars z fv t))
  self-Enclosed fv t k = rw k (
      make_closure-Enclosed (t.closures z) fv (set_block_free_vars z fv t) refl
        (put_same z fv t.seen.closure_block_free_vars) k)

-- ===== src/Closure/Transform/Captures.antt =====
-- closure/transform.go: what a closure captures.
use gocaml.Base.{
  ◌≡◌, refl, sym, ap, ◌∙◌, ◌⊎◌, inl, inr, Bool, true, false, not, ◌||◌, ◌&&◌, Option, none, some,
  List, [], ◌∷◌, ◌++◌, Text, text_eq, text_eq_refl, put, put_same,
}
use gocaml.Mir.Val.{Insns, fun_val}
use gocaml.Mir.Formed.{formed}
use gocaml.Sema.Alpha.{text_in}
use gocaml.Closure.FreeVars.{Transform, delete, gather_free_vars}
use gocaml.Closure.FreeVars.Free.{free, nested, visited}
use gocaml.Closure.FreeVars.Gathers.{text_in-delete, gather_free_vars-free}
use gocaml.Closure.FreeVars.Total.{gather_free_vars-total}
use gocaml.Closure.Transform.{
  TransformWithKfo, delete_all, assume, discard, mark, close, settle, enter, visit,
}
use gocaml.Closure.Transform.Settled.{settled-visited}
use gocaml.Closure.Transform.Visits.{visit-settled}

text_in-delete_all :
    (y : Text) (ps found : List Text)
    → text_in y (delete_all ps found) ≡ (not (text_in y ps) && text_in y found)
unfolding text_in
text_in-delete_all y [] found = refl
text_in-delete_all y (p ∷ ps) found =
    text_in-delete_all y ps (delete p found)
    ∙ ap (λ k. not (text_in y ps) && k) (text_in-delete y p found)
    ∙ swap (text_eq p y) (text_in y ps) (text_in y found)
  where
    swap : (a b c : Bool) → (not b && (not a && c)) ≡ (not (a || b) && c)
    swap true true c = refl
    swap true false c = refl
    swap false b c = refl

abbrev or_empty : Option (List Text) → List Text
or_empty none = []
or_empty (some found) = found

pub gathered-free :
    (t : Transform) (y : Text) (body : Insns) (fv : List Text)
    → gather_free_vars t body ≡ some fv
    → visited t body ≡ true
    → nested y body ≡ false
    → text_in y fv ≡ free t y body
gathered-free t y body fv e k n =
    let (found, e', i) = gather_free_vars-free t y body k n in
    ap (λ o. text_in y (or_empty o)) (sym e ∙ e') ∙ i

-- A name that is free in a function, read off its body.
abbrev pub free_in_fun : Transform → List Text → Insns → Text → Bool
free_in_fun t ps body y = not (text_in y ps) && free t y body

-- Nothing is free in the function, which is a known function from here on.
abbrev pub IsKnown : TransformWithKfo → Text → List Text → Insns → Type 0
IsKnown t x ps body = (y : Text) → nested y body ≡ false → free_in_fun t.seen ps body y ≡ false

-- The function is a closure over what is free in it but its own name, and is marked as recursive
-- when that is free too.
abbrev pub Closes : TransformWithKfo → Text → List Text → Insns → Type 0
Closes t x ps body =
    (vars : List Text) × (t.closures x ≡ some vars)
    × ((y : Text)
        → nested y body ≡ false
        → text_in y vars ≡ (not (text_eq x y) && free_in_fun t.seen ps body y))
    × (nested x body ≡ false → free_in_fun t.seen ps body x ≡ true → text_in x t.marks ≡ true)

mark-seen : (b : Bool) (x : Text) (t : TransformWithKfo) → (mark b x t).seen ≡ t.seen
mark-seen true x t = refl
mark-seen false x t = refl

closures-mark : (b : Bool) (x : Text) (t : TransformWithKfo) → (mark b x t).closures ≡ t.closures
closures-mark true x t = refl
closures-mark false x t = refl

marks-mark :
    (b : Bool) (x : Text) (t : TransformWithKfo) → b ≡ true → text_in x (mark b x t).marks ≡ true
unfolding text_in
marks-mark true x t e = rw (text_eq_refl x) refl
marks-mark false x t e = absurd (cc)

module _ (sorted : List Text → List Text)
    (same : (y : Text) (ns : List Text) → text_in y (sorted ns) ≡ text_in y ns) where
  fun_vars :
      (t : Transform) (ps : List Text) (body : Insns) (fv : List Text) (y : Text)
      → gather_free_vars t body ≡ some fv
      → visited t body ≡ true
      → nested y body ≡ false
      → text_in y (delete_all ps fv) ≡ free_in_fun t ps body y
  fun_vars t ps body fv y e k n =
      text_in-delete_all y ps fv
      ∙ ap (λ b. not (text_in y ps) && b) (gathered-free t y body fv e k n)

  close-Closes :
      (x : Text) (ps : List Text) (body : Insns) (fv : List Text) (t : TransformWithKfo)
      → gather_free_vars t.seen body ≡ some fv
      → visited t.seen body ≡ true
      → Closes (close sorted x (delete_all ps fv) t) x ps body
  unfolding close
  close-Closes x ps body fv t e k =
      let vs = delete_all ps fv in
      let t1 : TransformWithKfo = record t { closures = put x (sorted (delete x vs)) t.closures } in
      let seen : (close sorted x vs t).seen ≡ t.seen = mark-seen (text_in x vs) x t1 in
      (
        sorted (delete x vs),
        ap (λ m. m x) (closures-mark (text_in x vs) x t1)
            ∙ put_same x (sorted (delete x vs)) t.closures,
        (λ y n.
            same y (delete x vs)
            ∙ text_in-delete y x vs
            ∙ ap (λ b. not (text_eq x y) && b)
                (fun_vars t.seen ps body fv y e k n
                  ∙ ap (λ u. free_in_fun u ps body y) (sym seen))),
        (λ n h. marks-mark (text_in x vs) x t1 (
            fun_vars t.seen ps body fv x e k n ∙ ap (λ u. free_in_fun u ps body x) (sym seen) ∙ h)),
      )

  -- The outcome of a function, given what is free when it is taken for a known one.
  Outcome : Text → List Text → Insns → TransformWithKfo → Option TransformWithKfo → Type 0
  Outcome x ps body dup r =
      (t' : TransformWithKfo) × (r ≡ some t')
      × (((t' ≡ dup) × IsKnown t' x ps body) ⊎ Closes t' x ps body)

  settle-Outcome :
      (x : Text) (ps : List Text) (body : Insns) (vs fv : List Text) (dup : TransformWithKfo)
      (retry : Option TransformWithKfo)
      → delete_all ps fv ≡ vs
      → gather_free_vars dup.seen body ≡ some fv
      → visited dup.seen body ≡ true
      → (t1 : TransformWithKfo) × (retry ≡ some t1) × (visited t1.seen body ≡ true)
      → Outcome x ps body dup (settle sorted x ps body vs dup retry)
  unfolding settle Outcome text_in
  settle-Outcome x ps body [] fv dup retry es e k r = (
    dup,
    refl,
    inl (refl, (λ y n. sym (fun_vars dup.seen ps body fv y e k n) ∙ ap (text_in y) es)),
  )
  settle-Outcome x ps body (v ∷ vs) fv dup retry es e k (t1, er, k1) =
      let (fv1, e1) = gather_free_vars-total t1.seen body k1 in
      (
        close sorted x (delete_all ps fv1) t1,
        rw (er, e1) refl,
        inr (close-Closes x ps body fv1 t1 e1 k1),
      )

-- What is decided for a function in a formed block, when its body has been visited under the
-- assumption that it is a known one: the assumption stays, and then nothing is free in the
-- function; or the function is a closure, and then what it captures is exactly what is free in it,
-- but for its own name, and it is marked as recursive if its own name is free too. This is of names
-- that the branches of the body's `if`s do not bind, and where sorting keeps the names of a set.
pub enter-captures :
    (sorted : List Text → List Text) (scope : List Text) (x : Text) (ps : List Text) (body : Insns)
    (rec : Bool) (t : TransformWithKfo)
    → ((y : Text) (ns : List Text) → text_in y (sorted ns) ≡ text_in y ns)
    → formed (ps ++ x ∷ scope) body ≡ true
    → (dup : TransformWithKfo) × (t' : TransformWithKfo) × (visit sorted body (assume x t)
        ≡ some dup)
      × (enter sorted x (fun_val ps body rec) t ≡ some t')
      × (((t' ≡ dup) × IsKnown t' x ps body) ⊎ Closes t' x ps body)
unfolding enter Outcome
enter-captures sorted scope x ps body rec t same e =
    let inner = ps ++ x ∷ scope in
    let (dup, ed, kd, sd) = visit-settled sorted inner body (assume x t) e in
    let (t1, e1, k1, s1) = visit-settled sorted inner body (discard t dup) e in
    let vd = settled-visited dup.seen body sd in
    let (fv, eg) = gather_free_vars-total dup.seen body vd in
    let (t', es, o) =
      settle-Outcome sorted same x ps body (delete_all ps fv) fv dup
        (visit sorted body (discard t dup)) refl eg vd (t1, e1, settled-visited t1.seen body s1) in
    (dup, t', ed, rw (ed, eg) es, o)

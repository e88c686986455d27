-- ===== src/Closure/Transform/Moves.antt =====
-- closure/transform.go: the functions are moved to the top level.
use gocaml.Sema.Alpha.{text_in}
use gocaml.Base.{
  inl, inr, ◌⊎◌, Bool, false, ◌||◌, ◌&&◌, Bool-cases, text_eq, text_eq_iff, and-true, and-false,
  both_true, ◌≡◌, refl, sym, ap, ◌∙◌, true, Option, none, some, List, [], ◌∷◌, ◌++◌, Text,
}
use gocaml.Mir.Val.{Val, Insns, if_val, fun_val, app, make_cls, nil, cons}
use gocaml.Mir.Formed.{formed}
use gocaml.Closure.FreeVars.{MakeCls}
use gocaml.Closure.FreeVars.Free.{known_fun}
use gocaml.Closure.FixApps.{Fun, Program, names}
use gocaml.Closure.FixApps.Calls.{fresh, fresh_kind, right, erase}
use gocaml.Closure.FixApps.Whole.{
  fresh_funs, right_funs, fixer, fix_apps_in_prog-right, erase_funs, marked_funs,
}
use gocaml.Closure.Transform.{
  TransformWithKfo, as_fun, place, add_fun, flat, lifted, add_name, closure_names, initial, moved,
  visit, transform,
}
use gocaml.Closure.Transform.Settled.{known, settled_val, settled}
use gocaml.Closure.Transform.Visits.{visit-settled}

fresh_funs-append :
    (fs gs : List Fun) → fresh_funs fs ≡ true → fresh_funs gs ≡ true → fresh_funs (fs ++ gs) ≡ true
unfolding fresh_funs
fresh_funs-append [] gs ef eg = eg
fresh_funs-append (f ∷ fs) gs ef eg =
    let (e, es) = both_true (fresh f.body) (fresh_funs fs) ef in
    rw (e, fresh_funs-append fs gs es eg) refl

module _ (t : TransformWithKfo) where
  place-fresh :
      (x : Text) (f : Val) (o : Option (Option MakeCls)) (rest : Insns)
      → known_fun t.seen x o ≡ true
      → fresh rest ≡ true
      → fresh (place x f o rest) ≡ true
  unfolding fresh
  place-fresh x f none rest k e = absurd (cc)
  place-fresh x f (some none) rest k e = e
  place-fresh x f (some (some make)) rest k e = e

  add_fun-fresh :
      (x : Text) (o : Option (Option MakeCls)) (f : Fun) (fs : List Fun)
      → fresh f.body ≡ true
      → fresh_funs fs ≡ true
      → fresh_funs (add_fun o f fs) ≡ true
  unfolding fresh_funs
  add_fun-fresh x none f fs e es = es
  add_fun-fresh x (some make) f fs e es = rw (e, es) refl

  flat-fresh : (block : Insns) → settled t.seen block ≡ true → fresh (flat t block) ≡ true
  unfolding flat fresh settled
  flat-fresh nil e = refl
  flat-fresh (cons x (fun_val ps body rec) rest) e =
      let (ev, er) =
        both_true (settled_val t.seen x (fun_val ps body rec)) (settled t.seen rest) e in
      let (ek, eb) = both_true (known t.seen x) (settled t.seen body) ev in
      place-fresh x _ (t.seen.replaced_funs x) (flat t rest) ek (flat-fresh rest er)
  flat-fresh (cons x (if_val c a b) rest) e =
      let (ev, er) = both_true (settled_val t.seen x (if_val c a b)) (settled t.seen rest) e in
      let (ea, eb) = both_true (settled t.seen a) (settled t.seen b) ev in
      rw (flat-fresh a ea, flat-fresh b eb, flat-fresh rest er) refl
  flat-fresh (cons x (app callee args kind) rest) e =
      let (ek, er) = both_true (fresh_kind kind) (settled t.seen rest) e in
      rw (ek, flat-fresh rest er) refl
  flat-fresh (cons x (make_cls vars f) rest) e = absurd (cc)
  flat-fresh (cons x v rest) e = flat-fresh rest e

  lifted-fresh : (block : Insns) → settled t.seen block ≡ true → fresh_funs (lifted t block) ≡ true
  unfolding lifted settled fresh_funs
  lifted-fresh nil e = refl
  lifted-fresh (cons x (fun_val ps body rec) rest) e =
      let (ev, er) =
        both_true (settled_val t.seen x (fun_val ps body rec)) (settled t.seen rest) e in
      let (ek, eb) = both_true (known t.seen x) (settled t.seen body) ev in
      let f = as_fun t x ps (flat t body) rec in
      fresh_funs-append (add_fun (t.seen.replaced_funs x) f (lifted t body)) (lifted t rest)
        (add_fun-fresh x (t.seen.replaced_funs x) f (lifted t body) (flat-fresh body eb)
          (lifted-fresh body eb))
        (lifted-fresh rest er)
  lifted-fresh (cons x (if_val c a b) rest) e =
      let (ev, er) = both_true (settled_val t.seen x (if_val c a b)) (settled t.seen rest) e in
      let (ea, eb) = both_true (settled t.seen a) (settled t.seen b) ev in
      fresh_funs-append (lifted t a ++ lifted t b) (lifted t rest)
        (fresh_funs-append (lifted t a) (lifted t b) (lifted-fresh a ea) (lifted-fresh b eb))
        (lifted-fresh rest er)
  lifted-fresh (cons x (app callee args kind) rest) e =
      lifted-fresh rest (both_true (fresh_kind kind) (settled t.seen rest) e).1
  lifted-fresh (cons x (make_cls vars f) rest) e = absurd (cc)
  lifted-fresh (cons x v rest) e = lifted-fresh rest e

names-erase_funs : (fs : List Fun) → names (erase_funs fs) ≡ names fs
names-erase_funs [] = refl
names-erase_funs (f ∷ fs) = ap (λ ns. f.name ∷ ns) (names-erase_funs fs)

names-marked_funs : (fs : List Fun) → names (marked_funs fs) ≡ names fs
names-marked_funs [] = refl
names-marked_funs (f ∷ fs) = ap (λ ns. f.name ∷ ns) (names-marked_funs fs)

-- Each call of a program has the kind that its callee asks for.
abbrev pub RightProgram : Program → Type 0
RightProgram prog =
    (right_funs prog.closures (names prog.toplevel) prog.toplevel ≡ true)
    × (right (fixer prog.closures (names prog.toplevel) none) prog.entry ≡ true)

abbrev pub is_some : Option (List Text) → Bool
is_some none = false
is_some (some vars) = true

-- The functions that have a closure.
text_in-closure_names :
    (t : TransformWithKfo) (x : Text) (fs : List Fun)
    → text_in x (closure_names t fs) ≡ (text_in x (names fs) && is_some (t.closures x))
unfolding text_in
text_in-closure_names t x [] = refl
text_in-closure_names t x (f ∷ fs) =
    added f.name (t.closures f.name) refl
    ∙ ap (λ b. (text_eq f.name x && is_some (t.closures f.name)) || b)
        (text_in-closure_names t x fs)
    ∙ joined (Bool-cases (text_eq f.name x))
  where
    added :
        (n : Text) (o : Option (List Text))
        → t.closures n ≡ o
        → text_in x (add_name o n (closure_names t fs))
          ≡ ((text_eq n x && is_some o) || text_in x (closure_names t fs))
    added n none e = ap (λ b. b || text_in x (closure_names t fs)) (sym (and-false (text_eq n x)))
    added n (some vars) e =
        ap (λ b. b || text_in x (closure_names t fs)) (sym (and-true (text_eq n x)))

    joined :
        ((text_eq f.name x ≡ true) ⊎ (text_eq f.name x ≡ false))
        → ((text_eq f.name x && is_some (t.closures f.name))
            || (text_in x (names fs) && is_some (t.closures x)))
          ≡ ((text_eq f.name x || text_in x (names fs)) && is_some (t.closures x))
    joined (inr ne) = rw ne refl
    joined (inl e) =
        let same : f.name ≡ x = (text_eq_iff f.name x).0 e in
        rw (e, same) (absorb (is_some (t.closures x)) (text_in x (names fs)))
      where
        absorb : (a b : Bool) → (a || (b && a)) ≡ a
        absorb true b = refl
        absorb false b = and-false b

-- The transformation of a formed block does not fail. The program is what the visit decides, but
-- for which calls are calls of closures, and each call has the kind that its callee asks for.
pub transform-moved :
    (sorted : List Text → List Text) (ir : Insns)
    → formed [] ir ≡ true
    → (t : TransformWithKfo) × (prog : Program) × (visit sorted ir initial ≡ some t)
      × (settled t.seen ir ≡ true)
      × (transform sorted ir ≡ some (t.closures, prog))
      × (erase_funs prog.toplevel ≡ marked_funs (lifted t ir))
      × (erase prog.entry ≡ erase (flat t ir))
      × RightProgram prog
      × ((x : Text)
          → text_in x prog.closures ≡ (text_in x (names prog.toplevel) && is_some (t.closures x)))
unfolding transform
transform-moved sorted ir e =
    let (t, ev, keeps, s) = visit-settled sorted [] ir initial e in
    let p = moved t ir in
    let ff = lifted-fresh t ir s in
    let fe = flat-fresh t ir s in
    let (prog, ep, rf, (re, sf, se, cs)) = fix_apps_in_prog-right p (rw (ff, fe) refl) in
    let same : names prog.toplevel ≡ names p.toplevel =
      sym (names-erase_funs prog.toplevel) ∙ ap names sf ∙ names-marked_funs p.toplevel in
    (
      t,
      prog,
      ev,
      s,
      rw (ev, ep) refl,
      sf,
      se,
      (rw (cs, same) rf, rw (cs, same) re),
      (λ x. rw (cs, same) (text_in-closure_names t x p.toplevel)),
    )

-- ===== src/Closure/Transform/Skeleton.antt =====
-- closure/transform.go: what becomes of the blocks and the functions.
use gocaml.Base.{
  both_true, ◌≡◌, refl, sym, ap, ap₂, ◌∙◌, subst, inl, inr, Bool, true, false, Bool-cases, ◌&&◌,
  Option, none, some, List, [], ◌∷◌, ◌++◌, Text, text_eq, text_eq_iff,
}
use gocaml.Mir.Val.{Val, Insns, if_val, fun_val, app, make_cls, nil, cons}
use gocaml.Mir.Formed.{formed}
use gocaml.Closure.FreeVars.{MakeCls}
use gocaml.Closure.FreeVars.Free.{known_fun}
use gocaml.Closure.FixApps.{Fun, Program, names}
use gocaml.Sema.Alpha.{text_in}
use gocaml.Closure.FixApps.Calls.{fresh_kind, erase_kind, erase}
use gocaml.Closure.FixApps.Whole.{erase_funs, marked, marked_funs}
use gocaml.Closure.Transform.{
  TransformWithKfo, as_fun, place, add_fun, flat, lifted, initial, transform,
}
use gocaml.Closure.Transform.Settled.{known, settled_val, settled}
use gocaml.Closure.Transform.Encloses.{Enclosed, Current}
use gocaml.Closure.Transform.Noted.{visit-Step}
use gocaml.Closure.Transform.Escapes.{escapes}
use gocaml.Closure.Transform.Moves.{is_some, RightProgram, transform-moved}

-- An instruction that makes a closure, if it is wanted.
abbrev pub put_closure : Bool → Text → List Text → Text → Insns → Insns
put_closure true x vars f rest = cons x (make_cls vars f) rest
put_closure false x vars f rest = rest

module _ (z : Text) where
  abbrev pub only_insn : Text → Val → Insns → Insns
  only_insn x (make_cls vars f) rest = put_closure (text_eq x z) x vars f rest
  only_insn x v rest = cons x v rest

  -- A block without the instructions that make closures, but for that with the name `z`.
  unfoldable mutual
    pub only_val : Val → Val
    only_val (if_val c a b) = if_val c (only a) (only b)
    only_val v = v

    pub only : Insns → Insns
    only nil = nil
    only (cons x v rest) = only_insn x (only_val v) (only rest)

  abbrev pub only_fun : Fun → Fun
  only_fun f = record f { body = only f.body; is_recursive = false }

  abbrev pub only_funs : List Fun → List Fun
  only_funs [] = []
  only_funs (f ∷ fs) = only_fun f ∷ only_funs fs

  module _ (vars : List Text) where
    abbrev pub without_fun : Text → Val → Insns → Insns
    without_fun x (fun_val ps body rec) rest = put_closure (text_eq x z) x vars z rest
    without_fun x v rest = cons x v rest

    -- A block with the function `z` replaced by the making of a closure of these variables, and
    -- every other function left out; it does not say which calls are calls of closures.
    unfoldable mutual
      pub skeleton_val : Val → Val
      skeleton_val (app callee args kind) = app callee args (erase_kind kind)
      skeleton_val (if_val c a b) = if_val c (skeleton a) (skeleton b)
      skeleton_val v = v

      pub skeleton : Insns → Insns
      skeleton nil = nil
      skeleton (cons x v rest) = without_fun x (skeleton_val v) (skeleton rest)

    -- The functions of a block: each before those in its body, and these before those of the rest.
    unfoldable mutual
      unfolding skeleton

      pub functions_val : Text → Val → List Fun
      functions_val x (fun_val ps body rec) =
          record { name = x; params = ps; body = skeleton body; is_recursive = false }
          ∷ functions body
      functions_val x (if_val c a b) = functions a ++ functions b
      functions_val x v = []

      pub functions : Insns → List Fun
      functions nil = []
      functions (cons x v rest) = functions_val x v ++ functions rest

only_funs-append :
    (z : Text) (fs gs : List Fun)
    → only_funs z (marked_funs (fs ++ gs))
      ≡ only_funs z (marked_funs fs) ++ only_funs z (marked_funs gs)
only_funs-append z [] gs = refl
only_funs-append z (f ∷ fs) gs = ap (λ r. only_fun z (marked f) ∷ r) (only_funs-append z fs gs)

known-some :
    (t : TransformWithKfo) (x : Text) (o : Option (Option MakeCls))
    → known_fun t.seen x o ≡ true
    → (make : Option MakeCls) × (o ≡ some make)
known-some t x none k = absurd (cc)
known-some t x (some make) k = (make, refl)

module _ (t : TransformWithKfo) (z : Text) (vars : List Text)
    (ec : (o : Option MakeCls)
      → t.seen.replaced_funs z ≡ some o
      → o ≡ some (record { vars = vars; fn = z })) where
  -- Another function is left out.
  place-other :
      (x : Text) (f : Val) (o : Option (Option MakeCls)) (rest : Insns)
      → text_eq x z ≡ false
      → known_fun t.seen x o ≡ true
      → only z (erase (place x f o rest)) ≡ only z (erase rest)
  unfolding only erase
  place-other x f none rest ne k = absurd (cc)
  place-other x f (some none) rest ne k = refl
  place-other x f (some (some make)) rest ne k = rw ne refl

  place-skeleton :
      (x : Text) (f : Val) (rest : Insns)
      → known t.seen x ≡ true
      → only z (erase (place x f (t.seen.replaced_funs x) rest))
        ≡ put_closure (text_eq x z) x vars z (only z (erase rest))
  unfolding only erase
  place-skeleton x f rest k = elim (Bool-cases (text_eq x z)) [
    | inr ne ↦ rw ne (place-other x f (t.seen.replaced_funs x) rest ne k)
    | inl same ↦
        let (make, e) = known-some t x (t.seen.replaced_funs x) k in
        let here : x ≡ z = (text_eq_iff x z).0 same in
        let this = ec make (subst (λ n. t.seen.replaced_funs n ≡ some make) here e) in
        ap (λ o. only z (erase (place x f o rest))) (e ∙ ap some this)
  ]

  flat-skeleton :
      (block : Insns)
      → settled t.seen block ≡ true
      → only z (erase (flat t block)) ≡ skeleton z vars block
  unfolding flat only erase settled skeleton
  flat-skeleton nil e = refl
  flat-skeleton (cons x (fun_val ps body rec) rest) e =
      let (ev, er) =
        both_true (settled_val t.seen x (fun_val ps body rec)) (settled t.seen rest) e in
      let (ek, eb) = both_true (known t.seen x) (settled t.seen body) ev in
      place-skeleton x _ (flat t rest) ek
      ∙ ap (put_closure (text_eq x z) x vars z) (flat-skeleton rest er)
  flat-skeleton (cons x (if_val c a b) rest) e =
      let (ev, er) = both_true (settled_val t.seen x (if_val c a b)) (settled t.seen rest) e in
      let (ea, eb) = both_true (settled t.seen a) (settled t.seen b) ev in
      rw (flat-skeleton a ea, flat-skeleton b eb, flat-skeleton rest er) refl
  flat-skeleton (cons x (app callee args kind) rest) e =
      ap (cons x (app callee args (erase_kind kind)))
        (flat-skeleton rest (both_true (fresh_kind kind) (settled t.seen rest) e).1)
  flat-skeleton (cons x (make_cls vs f) rest) e = absurd (cc)
  flat-skeleton (cons x v rest) e = ap (cons x v) (flat-skeleton rest e)

  add_fun-some :
      (x : Text) (o : Option (Option MakeCls)) (f : Fun) (fs : List Fun)
      → known_fun t.seen x o ≡ true
      → add_fun o f fs ≡ f ∷ fs
  add_fun-some x none f fs k = absurd (cc)
  add_fun-some x (some make) f fs k = refl

  lifted-functions :
      (block : Insns)
      → settled t.seen block ≡ true
      → only_funs z (marked_funs (lifted t block)) ≡ functions z vars block
  unfolding lifted settled functions
  lifted-functions nil e = refl
  lifted-functions (cons x (fun_val ps body rec) rest) e =
      let (ev, er) =
        both_true (settled_val t.seen x (fun_val ps body rec)) (settled t.seen rest) e in
      let (ek, eb) = both_true (known t.seen x) (settled t.seen body) ev in
      let f = as_fun t x ps (flat t body) rec in
      only_funs-append z (add_fun (t.seen.replaced_funs x) f (lifted t body)) (lifted t rest)
      ∙ ap₂ (λ fs gs. fs ++ gs)
          (ap (λ fs. only_funs z (marked_funs fs))
              (add_fun-some x (t.seen.replaced_funs x) f (lifted t body) ek)
            ∙ ap₂ (λ b fs. record { name = x; params = ps; body = b; is_recursive = false } ∷ fs)
                (flat-skeleton body eb) (lifted-functions body eb))
          (lifted-functions rest er)
  lifted-functions (cons x (if_val c a b) rest) e =
      let (ev, er) = both_true (settled_val t.seen x (if_val c a b)) (settled t.seen rest) e in
      let (ea, eb) = both_true (settled t.seen a) (settled t.seen b) ev in
      only_funs-append z (lifted t a ++ lifted t b) (lifted t rest)
      ∙ ap₂ (λ fs gs. fs ++ gs)
          (only_funs-append z (lifted t a) (lifted t b)
            ∙ ap₂ (λ fs gs. fs ++ gs) (lifted-functions a ea) (lifted-functions b eb))
          (lifted-functions rest er)
  lifted-functions (cons x (app callee args kind) rest) e =
      lifted-functions rest (both_true (fresh_kind kind) (settled t.seen rest) e).1
  lifted-functions (cons x (make_cls vs f) rest) e = absurd (cc)
  lifted-functions (cons x v rest) e = lifted-functions rest e

abbrev pub or_none : Option (List Text) → List Text
or_none none = []
or_none (some vars) = vars

enclosed :
    (z : Text) (t : TransformWithKfo)
    → Enclosed z t
    → Current z t
    → (o : Option MakeCls) → t.seen.replaced_funs z ≡ some o
    → o ≡ some (record { vars = or_none (t.closures z); fn = z })
enclosed z t (q, r) p o e =
    let (vars, eo) = r o e in
    let known_vars = p (record { vars = vars; fn = z }) (e ∙ ap some eo) in
    eo ∙ ap (λ vs. some (record { vars = vs; fn = z })) (sym (ap or_none known_vars))

-- The transformation of a formed block does not fail. Let a name be given that no function has, or
-- where each function with the name is used as a variable, and not only called, in the rest of its
-- block outside functions, and no branch of an `if` in that rest has an instruction with the name.
-- Then the entry is the block, where each function with the name is replaced by the making of a
-- closure of the variables that the result records for it, and each other function is left out; and
-- the functions of the result are those of the block, also those inside others, each once, in their
-- order, with their parameters, and with their bodies changed in the same way. This is but for which
-- calls are calls of closures, for instructions that make closures of other functions, and for the
-- marks on recursive functions. Each call has the kind that its callee asks for, and the closures of
-- the result are those of its functions that have variables recorded.
pub transform-skeleton :
    (sorted : List Text → List Text) (ir : Insns) (z : Text)
    → formed [] ir ≡ true
    → escapes z ir ≡ true
    → (closures : Text → Option (List Text)) × (prog : Program) × (transform sorted ir
        ≡ some (closures, prog))
      × (only z (erase prog.entry) ≡ skeleton z (or_none (closures z)) ir)
      × (only_funs z (erase_funs prog.toplevel) ≡ functions z (or_none (closures z)) ir)
      × RightProgram prog
      × ((x : Text)
          → text_in x prog.closures ≡ (text_in x (names prog.toplevel) && is_some (closures x)))
transform-skeleton sorted ir z k h =
    let (t, prog, ev, s, et, ef, ee, right, made) = transform-moved sorted ir k in
    let (i, p) =
      visit-Step sorted z [] ir initial t k h ev ((λ fv e. absurd (cc)), (λ o e. absurd (cc))) in
    let vars = or_none (t.closures z) in
    let ec = enclosed z t i (p refl (λ make e. absurd (cc))) in
    (
      t.closures,
      prog,
      et,
      ap (only z) ee ∙ flat-skeleton t z vars ec ir s,
      ap (only_funs z) ef ∙ lifted-functions t z vars ec ir s,
      right,
      made,
    )

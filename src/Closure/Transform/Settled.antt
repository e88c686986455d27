-- ===== src/Closure/Transform/Settled.antt =====
-- closure/transform.go: the functions that have been visited.
use gocaml.Base.{
  both_true, ◌≡◌, refl, sym, ap, subst, ◌∙◌, inl, inr, Bool, true, false, Bool-cases, ◌&&◌, Option,
  none, some, List, [], Text, text_eq, text_eq_iff, text_eq_refl, put, put_same, put_other,
}
use gocaml.Mir.Val.{Val, Insns, if_val, fun_val, app, make_cls, nil, cons}
use gocaml.Closure.FreeVars.{Transform, MakeCls, delete}
use gocaml.Closure.FreeVars.Free.{known_closure, known_fun, visited_val, visited}
use gocaml.Closure.FixApps.Calls.{fresh_kind}
use gocaml.Closure.Transform.{
  TransformWithKfo, set_replaced, set_block_free_vars, make_closure, replace,
}

-- The function with this name has been visited.
abbrev pub known : Transform → Text → Bool
known t y = known_fun t y (t.replaced_funs y)

-- Each function of a block, also inside functions, has been visited, and calls are as they were
-- made.
unfoldable mutual
  pub settled_val : Transform → Text → Val → Bool
  settled_val t y (if_val c a b) = settled t a && settled t b
  settled_val t y (fun_val ps body rec) = known t y && settled t body
  settled_val t y (app callee args kind) = fresh_kind kind
  settled_val t y (make_cls vars f) = false
  settled_val t y v = true

  pub settled : Transform → Insns → Bool
  settled t nil = true
  settled t (cons y v rest) = settled_val t y v && settled t rest

mutual
  unfolding settled visited

  settled-visited_val :
      (t : Transform) (y : Text) (v : Val) → settled_val t y v ≡ true → visited_val t y v ≡ true
  settled-visited_val t y (if_val c a b) e =
      let (ea, eb) = both_true (settled t a) (settled t b) e in
      rw (settled-visited t a ea, settled-visited t b eb) refl
  settled-visited_val t y (fun_val ps body rec) e = (both_true (known t y) (settled t body) e).0
  settled-visited_val t y (make_cls vars f) e = absurd (cc)
  settled-visited_val t y v e = refl

  pub settled-visited :
      (t : Transform) (block : Insns) → settled t block ≡ true → visited t block ≡ true
  settled-visited t nil e = refl
  settled-visited t (cons y v rest) e =
      let (ev, er) = both_true (settled_val t y v) (settled t rest) e in
      rw (settled-visited_val t y v ev, settled-visited t rest er) refl

-- What has been visited stays so.
abbrev pub Keeps : Transform → Transform → Type 0
Keeps t t' = (y : Text) → known t y ≡ true → known t' y ≡ true

mutual
  unfolding settled

  pub settled_val_mono :
      (t t' : Transform) (y : Text) (v : Val)
      → Keeps t t'
      → settled_val t y v ≡ true
      → settled_val t' y v ≡ true
  settled_val_mono t t' y (if_val c a b) k e =
      let (ea, eb) = both_true (settled t a) (settled t b) e in
      rw (settled_mono t t' a k ea, settled_mono t t' b k eb) refl
  settled_val_mono t t' y (fun_val ps body rec) k e =
      let (ek, eb) = both_true (known t y) (settled t body) e in
      rw (k y ek, settled_mono t t' body k eb) refl
  settled_val_mono t t' y (make_cls vars f) k e = absurd (cc)
  settled_val_mono t t' y (app callee args kind) k e = e
  settled_val_mono t t' y v k e = refl

  pub settled_mono :
      (t t' : Transform) (block : Insns)
      → Keeps t t'
      → settled t block ≡ true
      → settled t' block ≡ true
  settled_mono t t' nil k e = refl
  settled_mono t t' (cons y v rest) k e =
      let (ev, er) = both_true (settled_val t y v) (settled t rest) e in
      rw (settled_val_mono t t' y v k ev, settled_mono t t' rest k er) refl

known_fun-same :
    (t t' : Transform) (y : Text) (o : Option (Option MakeCls))
    → ((f : Text) → t.closure_block_free_vars f ≡ t'.closure_block_free_vars f)
    → known_fun t y o ≡ known_fun t' y o
known_fun-same t t' y none e = refl
known_fun-same t t' y (some none) e = refl
known_fun-same t t' y (some (some make)) e = ap (known_closure y make) (e make.fn)

-- A change of the known functions alone.
pub Keeps-known_funs :
    (t t' : Transform)
    → ((f : Text) → t.closure_block_free_vars f ≡ t'.closure_block_free_vars f)
    → ((f : Text) → t.replaced_funs f ≡ t'.replaced_funs f)
    → Keeps t t'
Keeps-known_funs t t' cs rs y k =
    ap (known_fun t' y) (sym (rs y)) ∙ sym (known_fun-same t t' y (t.replaced_funs y) cs) ∙ k

known_closure-some :
    (y : Text) (make : MakeCls) (o : Option (List Text)) (fv : List Text)
    → known_closure y make o ≡ true
    → known_closure y make (some fv) ≡ true
known_closure-some y make none fv k = absurd (cc)
known_closure-some y make (some vs) fv k = k

known_fun-put :
    (x : Text) (fv : List Text) (t : TransformWithKfo) (y : Text) (o : Option (Option MakeCls))
    → known_fun t.seen y o ≡ true
    → known_fun (set_block_free_vars x fv t).seen y o ≡ true
known_fun-put x fv t y none k = absurd (cc)
known_fun-put x fv t y (some none) k = refl
known_fun-put x fv t y (some (some make)) k =
    let o = t.seen.closure_block_free_vars make.fn in
    elim (Bool-cases (text_eq x make.fn)) [
      | inl e ↦ rw e (known_closure-some y make o fv k)
      | inr e ↦ rw e k
    ]

pub set_block_free_vars-Keeps :
    (x : Text) (fv : List Text) (t : TransformWithKfo)
    → Keeps t.seen (set_block_free_vars x fv t).seen
set_block_free_vars-Keeps x fv t y k = known_fun-put x fv t y (t.seen.replaced_funs y) k

set_replaced-Keeps :
    (x : Text) (make : Option MakeCls) (t : TransformWithKfo)
    → known_fun t.seen x (some make) ≡ true
    → Keeps t.seen (set_replaced x make t).seen × (known (set_replaced x make t).seen x ≡ true)
set_replaced-Keeps x make t new = (keeps, at_self)
  where
    t' : Transform
    t' = (set_replaced x make t).seen

    same : (y : Text) (o : Option (Option MakeCls)) → known_fun t.seen y o ≡ known_fun t' y o
    same y o = known_fun-same t.seen t' y o (λ f. refl)

    at_self : known t' x ≡ true
    at_self =
        ap (known_fun t' x) (put_same x make t.seen.replaced_funs) ∙ sym (same x (some make)) ∙ new

    keeps : Keeps t.seen t'
    keeps y k = elim (Bool-cases (text_eq x y)) [
      | inl e ↦ subst (λ z. known t' z ≡ true) ((text_eq_iff x y).0 e) at_self
      | inr e ↦
          ap (known_fun t' y) (put_other x y make t.seen.replaced_funs e)
          ∙ sym (same y (t.seen.replaced_funs y))
          ∙ k
    ]

make_closure-Keeps :
    (x : Text) (o : Option (List Text)) (fv : List Text) (t : TransformWithKfo)
    → t.seen.closure_block_free_vars x ≡ some fv
    → Keeps t.seen (make_closure x o t).seen × (known (make_closure x o t).seen x ≡ true)
make_closure-Keeps x (some vars) fv t e =
    set_replaced-Keeps x (some (record { vars = vars; fn = x })) t (rw e (text_eq_refl x))
make_closure-Keeps x none fv t e =
    let t' : TransformWithKfo = record t {
      closures = put x [] t.closures;
      seen = record t.seen { known_funs = delete x t.seen.known_funs };
    } in
    let (keeps, new) =
      set_replaced-Keeps x (some (record { vars = []; fn = x })) t' (rw e (text_eq_refl x)) in
    (λ y k. keeps y (Keeps-known_funs t.seen t'.seen (λ f. refl) (λ f. refl) y k), new)

-- Afterwards the function has been visited.
pub replace-Keeps :
    (b : Bool) (x : Text) (fv : List Text) (t : TransformWithKfo)
    → t.seen.closure_block_free_vars x ≡ some fv
    → Keeps t.seen (replace b x t).seen × (known (replace b x t).seen x ≡ true)
replace-Keeps true x fv t e = make_closure-Keeps x (t.closures x) fv t e
replace-Keeps false x fv t e = set_replaced-Keeps x none t refl

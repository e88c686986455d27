-- ===== src/Closure/FreeVars/Gathers.antt =====
-- closure/freevars.go: what is gathered are the free variables.
use gocaml.Base.{
  both_true, both_false, or_assoc, or-false, and-true, and-false, ◌≡◌, inl, inr, refl, sym, ap, ◌∙◌,
  subst, Bool, true, false, Bool-cases, not, ◌||◌, ◌&&◌, Option, none, some, List, [], ◌∷◌, Text,
  text_eq, text_eq_iff,
}
use gocaml.Mir.Formed.{reads}
use gocaml.Mir.Val.{
  AppKind, direct_call, closure_call, external_call, Val, Insns, if_val, fun_val, make_cls, nil,
  cons, unit_val, none_val, nop, bool_val, int_val, float_val, string_val, unary, binary, ref, app,
  tuple, tpl_load, array, arr_lit, arr_load, arr_store, arr_len, some_val, is_some, deref_some,
  xref,
}
use gocaml.Sema.Alpha.{text_in}
use gocaml.Closure.FreeVars.{
  Transform, MakeCls, add_all, delete, uses, explore_closure, explore_fun, explore_val,
  explore_block, gather_free_vars,
}
use gocaml.Closure.FreeVars.Free.{
  free_closure, free_fun, free_call, free_val, free, binds, nested_val, nested, known_closure,
  known_fun, visited_val, visited,
}

or_move : (a b c : Bool) → (b || (a || c)) ≡ ((a || b) || c)
or_move true true c = refl
or_move true false c = refl
or_move false b c = refl

and_twice : (a b : Bool) → (a && (a && b)) ≡ (a && b)
and_twice true b = refl
and_twice false b = refl

-- The instruction's name goes after its value has been added.
or_behind :
    (y v r f b : Bool)
    → (not y && (v || (r || (f && not b)))) ≡ ((not y && (v || r)) || (f && not (y || b)))
or_behind true v r true b = refl
or_behind true v r false b = refl
or_behind false true r f b = refl
or_behind false false true f b = refl
or_behind false false false f b = refl

-- The branches of an `if`, where neither binds the name.
or_branches : (c a b f : Bool) → (b || ((a || ((c || f) && true)) && true)) ≡ ((c || (a || b)) || f)
or_branches true true true f = refl
or_branches true true false f = refl
or_branches true false true f = refl
or_branches true false false f = refl
or_branches false true true f = refl
or_branches false true false f = refl
or_branches false false true f = refl
or_branches false false false true = refl
or_branches false false false false = refl

text_in-add_all :
    (x : Text) (ns found : List Text)
    → text_in x (add_all ns found) ≡ (text_in x ns || text_in x found)
unfolding text_in
text_in-add_all x [] found = refl
text_in-add_all x (n ∷ ns) found =
    text_in-add_all x ns (n ∷ found) ∙ or_move (text_eq n x) (text_in x ns) (text_in x found)

pub text_in-delete :
    (x n : Text) (found : List Text)
    → text_in x (delete n found) ≡ (not (text_eq n x) && text_in x found)
unfolding text_in delete
text_in-delete x n [] = sym (and-false (not (text_eq n x)))
text_in-delete x n (m ∷ ms) = elim (Bool-cases (text_eq m n)) [
  | inl e ↦
      let same : m ≡ n = (text_eq_iff m n).0 e in
      rw (e, text_in-delete x n ms, same) (and_skip (text_eq n x) (text_in x ms))
  | inr e ↦ elim (Bool-cases (text_eq n x)) [
    | inr ne ↦ rw (e, ne) (ap (λ k. text_eq m x || k) (text_in-delete x n ms ∙ rw ne refl))
    | inl hit ↦
        let other : text_eq m x ≡ false = rw ((text_eq_iff n x).0 hit) at e in
        rw (e, hit, other) (text_in-delete x n ms ∙ rw hit refl)
  ]
]
  where
    and_skip : (a b : Bool) → (not a && b) ≡ (not a && (a || b))
    and_skip true b = refl
    and_skip false b = refl

module _ (t : Transform) (x : Text) where
  -- What exploring a block gives.
  abbrev pub Gathers : Insns → List Text → Type 0
  Gathers block found =
      (found' : List Text) × (explore_block t block found ≡ some found')
      × (text_in x found' ≡ (free t x block || (text_in x found && not (binds x block))))

  abbrev GathersVal : Text → Val → List Text → Option (List Text) → Bool → Type 0
  GathersVal y v found r here =
      (found' : List Text) × (r ≡ some found')
      × ((not (text_eq y x) && text_in x found') ≡ (not (text_eq y x) && (here || text_in x found)))

  uses-GathersVal :
      (y : Text) (v : Val) (found : List Text)
      → GathersVal y v found (some (add_all (uses t v) found)) (text_in x (uses t v))
  uses-GathersVal y v found =
      (_, refl, ap (λ k. not (text_eq y x) && k) (text_in-add_all x (uses t v) found))

  -- `uses` of a call.
  text_in-call :
      (callee : Text) (args : List Text) (kind : AppKind)
      → text_in x (uses t (app callee args kind)) ≡ free_call t x callee args kind
  unfolding uses text_in
  text_in-call callee args kind = elim (Bool-cases (text_in callee t.known_funs)) [
    | inl k ↦ at_known kind k
    | inr k ↦ at_unknown kind k
  ]
    where
      at_known :
          (kind : AppKind)
          → text_in callee t.known_funs ≡ true
          → text_in x (uses t (app callee args kind)) ≡ free_call t x callee args kind
      at_known direct_call k = rw k refl
      at_known closure_call k = rw k refl
      at_known external_call k = rw k refl

      at_unknown :
          (kind : AppKind)
          → text_in callee t.known_funs ≡ false
          → text_in x (uses t (app callee args kind)) ≡ free_call t x callee args kind
      at_unknown direct_call k = rw k refl
      at_unknown closure_call k = rw k refl
      at_unknown external_call k = rw k refl

  call-GathersVal :
      (y callee : Text) (args : List Text) (kind : AppKind) (found : List Text)
      → GathersVal y
          (app callee args kind)
          found
          (some (add_all (uses t (app callee args kind)) found))
          (free_call t x callee args kind)
  call-GathersVal y callee args kind found =
      subst
        (λ here.
          GathersVal y (app callee args kind) found
            (some (add_all (uses t (app callee args kind)) found)) here)
        (text_in-call callee args kind) (uses-GathersVal y (app callee args kind) found)

  explore_closure-GathersVal :
      (y : Text) (v : Val) (make : MakeCls) (o : Option (List Text)) (found : List Text)
      → known_closure y make o ≡ true
      → GathersVal y v found (explore_closure make o found) (free_closure x make o)
  explore_closure-GathersVal y v make none found k = absurd (cc)
  explore_closure-GathersVal y v make (some fv) found k =
      let same : make.fn ≡ y = (text_eq_iff make.fn y).0 k in
      (
        _,
        refl,
        rw (text_in-delete x make.fn (add_all make.vars (add_all fv found)), same)
            (and_twice (not (text_eq y x)) _
              ∙ ap (λ k. not (text_eq y x) && k)
                  (text_in-add_all x make.vars (add_all fv found)
                    ∙ ap (λ k. text_in x make.vars || k) (text_in-add_all x fv found)
                    ∙ sym (or_assoc (text_in x make.vars) (text_in x fv) (text_in x found)))),
      )

  explore_fun-GathersVal :
      (y : Text) (v : Val) (o : Option (Option MakeCls)) (found : List Text)
      → known_fun t y o ≡ true
      → GathersVal y v found (explore_fun t o found) (free_fun t x o)
  unfolding explore_fun
  explore_fun-GathersVal y v none found k = absurd (cc)
  explore_fun-GathersVal y v (some none) found k = (found, refl, refl)
  explore_fun-GathersVal y v (some (some make)) found k =
      explore_closure-GathersVal y v make (t.closure_block_free_vars make.fn) found k

  mutual
    unfolding explore_block free visited nested binds uses reads

    explore_val-GathersVal :
        (y : Text) (v : Val) (found : List Text)
        → visited_val t y v ≡ true
        → nested_val x v ≡ false
        → GathersVal y v found (explore_val t y v found) (free_val t x y v)
    explore_val-GathersVal y (if_val c a b) found k n =
        let (ka, kb) = both_true (visited t a) (visited t b) k in
        let (na, nb) = both_false (binds x a || nested x a) (binds x b || nested x b) n in
        let (ba, na') = both_false (binds x a) (nested x a) na in
        let (bb, nb') = both_false (binds x b) (nested x b) nb in
        let (f, ea, ia) = explore_block-Gathers a (c ∷ found) ka na' in
        let (g, eb, ib) = explore_block-Gathers b f kb nb' in
        (
          g,
          rw (ea, eb) refl,
          ap (λ k. not (text_eq y x) && k)
              (ib
                ∙ rw (ia, ba, bb)
                    (or_branches (text_eq c x) (free t x a) (free t x b) (text_in x found))),
        )
    explore_val-GathersVal y (fun_val ps body rec) found k n =
        explore_fun-GathersVal y (fun_val ps body rec) (t.replaced_funs y) found k
    explore_val-GathersVal y (make_cls vars f) found k n = absurd (cc)
    explore_val-GathersVal y unit_val found k n = uses-GathersVal y unit_val found
    explore_val-GathersVal y none_val found k n = uses-GathersVal y none_val found
    explore_val-GathersVal y nop found k n = uses-GathersVal y nop found
    explore_val-GathersVal y (bool_val b) found k n = uses-GathersVal y (bool_val b) found
    explore_val-GathersVal y (int_val i) found k n = uses-GathersVal y (int_val i) found
    explore_val-GathersVal y (float_val w) found k n = uses-GathersVal y (float_val w) found
    explore_val-GathersVal y (string_val w) found k n = uses-GathersVal y (string_val w) found
    explore_val-GathersVal y (unary op c) found k n = uses-GathersVal y (unary op c) found
    explore_val-GathersVal y (binary op l r) found k n = uses-GathersVal y (binary op l r) found
    explore_val-GathersVal y (ref i) found k n = uses-GathersVal y (ref i) found
    explore_val-GathersVal y (app callee args kind) found k n =
        call-GathersVal y callee args kind found
    explore_val-GathersVal y (tuple es) found k n = uses-GathersVal y (tuple es) found
    explore_val-GathersVal y (tpl_load from i) found k n = uses-GathersVal y (tpl_load from i) found
    explore_val-GathersVal y (array size elem) found k n = uses-GathersVal y (array size elem) found
    explore_val-GathersVal y (arr_lit es) found k n = uses-GathersVal y (arr_lit es) found
    explore_val-GathersVal y (arr_load from i) found k n = uses-GathersVal y (arr_load from i) found
    explore_val-GathersVal y (arr_store to i rhs) found k n =
        uses-GathersVal y (arr_store to i rhs) found
    explore_val-GathersVal y (arr_len a) found k n = uses-GathersVal y (arr_len a) found
    explore_val-GathersVal y (some_val e) found k n = uses-GathersVal y (some_val e) found
    explore_val-GathersVal y (is_some e) found k n = uses-GathersVal y (is_some e) found
    explore_val-GathersVal y (deref_some e) found k n = uses-GathersVal y (deref_some e) found
    explore_val-GathersVal y (xref i) found k n = uses-GathersVal y (xref i) found

    explore_block-Gathers :
        (block : Insns) (found : List Text)
        → visited t block ≡ true
        → nested x block ≡ false
        → Gathers block found
    explore_block-Gathers nil found k n = (found, refl, sym (and-true (text_in x found)))
    explore_block-Gathers (cons y v rest) found k n =
        let (kv, kr) = both_true (visited_val t y v) (visited t rest) k in
        let (nv, nr) = both_false (nested_val x v) (nested x rest) n in
        let (f, er, ir) = explore_block-Gathers rest found kr nr in
        let (g, ev, iv) = explore_val-GathersVal y v f kv nv in
        (
          delete y g,
          rw (er, ev) refl,
          text_in-delete x y g
              ∙ iv
              ∙ rw ir (
                  or_behind (text_eq y x) (free_val t x y v) (free t x rest) (text_in x found)
                    (binds x rest)),
        )

-- Gathering the variables of a block that has been visited succeeds, and what it finds, among the
-- names that the branches of its `if`s do not bind, are exactly its free variables.
pub gather_free_vars-free :
    (t : Transform) (x : Text) (block : Insns)
    → visited t block ≡ true
    → nested x block ≡ false
    → (found : List Text) × (gather_free_vars t block ≡ some found)
      × (text_in x found ≡ free t x block)
unfolding gather_free_vars text_in
gather_free_vars-free t x block k n =
    let (found, e, i) = explore_block-Gathers t x block [] k n in
    (found, e, i ∙ or-false (free t x block))

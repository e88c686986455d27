-- ===== src/Closure/FixApps/Calls.antt =====
-- closure/fix_apps.go: afterwards each call has the kind that its callee asks for.
use gocaml.Base.{
  both_true, or_assoc, or-false, ◌≡◌, inl, inr, refl, sym, ap, ap₂, ◌∙◌, Bool, true, false,
  Bool-cases, not, ◌||◌, ◌&&◌, Option, some, Text, if◌then◌else◌,
}
use gocaml.Mir.Val.{
  AppKind, direct_call, closure_call, external_call, Val, Insns, if_val, fun_val, make_cls, nil,
  cons, unit_val, none_val, nop, bool_val, int_val, float_val, string_val, unary, binary, ref, app,
  tuple, tpl_load, array, arr_lit, arr_load, arr_store, arr_len, some_val, is_some, deref_some,
  xref,
}
use gocaml.Sema.Alpha.{text_in}
use gocaml.Closure.FixApps.{AppFixer, is_fixing, fixed_kind, fix_app, fix_apps_in_block}

-- A closure is called as a closure, and so is what is no function at the top level; any other
-- function is called directly, and externals as such.
abbrev pub right_kind : AppFixer → Text → AppKind → Bool
right_kind fix callee external_call = true
right_kind fix callee closure_call = text_in callee fix.closures || not (text_in callee fix.funcs)
right_kind fix callee direct_call = not (text_in callee fix.closures) && text_in callee fix.funcs

unfoldable mutual
  unfolding text_in

  pub right_val : AppFixer → Val → Bool
  right_val fix (app callee args kind) = right_kind fix callee kind
  right_val fix (if_val c a b) = right fix a && right fix b
  right_val fix v = true

  pub right : AppFixer → Insns → Bool
  right fix nil = true
  right fix (cons n v rest) = right_val fix v && right fix rest

abbrev pub fresh_kind : AppKind → Bool
fresh_kind direct_call = true
fresh_kind closure_call = false
fresh_kind external_call = true

-- Calls are direct or external, and functions have been moved away.
unfoldable mutual
  pub fresh_val : Val → Bool
  fresh_val (app callee args kind) = fresh_kind kind
  fresh_val (if_val c a b) = fresh a && fresh b
  fresh_val (fun_val ps body rec) = false
  fresh_val v = true

  pub fresh : Insns → Bool
  fresh nil = true
  fresh (cons n v rest) = fresh_val v && fresh rest

-- Whether the function that is being fixed is called.
unfoldable mutual
  pub calls_val : Option Text → Val → Bool
  calls_val o (app callee args kind) = is_fixing o callee
  calls_val o (if_val c a b) = calls o a || calls o b
  calls_val o v = false

  pub calls : Option Text → Insns → Bool
  calls o nil = false
  calls o (cons n v rest) = calls_val o v || calls o rest

-- A kind but for whether the call is one of a closure.
abbrev pub erase_kind : AppKind → AppKind
erase_kind direct_call = direct_call
erase_kind closure_call = direct_call
erase_kind external_call = external_call

-- A block but for which of its calls are calls of closures; those of externals stay apart.
unfoldable mutual
  pub erase_val : Val → Val
  erase_val (app callee args kind) = app callee args (erase_kind kind)
  erase_val (if_val c a b) = if_val c (erase a) (erase b)
  erase_val v = v

  pub erase : Insns → Insns
  erase nil = nil
  erase (cons n v rest) = cons n (erase_val v) (erase rest)

if-or : (a b : Bool) → (if a then true else b) ≡ (b || a)
if-or true true = refl
if-or true false = refl
if-or false b = sym (or-false b)

fixed_kind-right :
    (fix : AppFixer) (callee : Text) (kind : AppKind)
    → fresh_kind kind ≡ true
    → right_kind fix callee (fixed_kind fix callee kind) ≡ true
unfolding fixed_kind
fixed_kind-right fix callee external_call e = refl
fixed_kind-right fix callee closure_call e = absurd (cc)
fixed_kind-right fix callee direct_call e = elim (Bool-cases (text_in callee fix.closures)) [
  | inl c ↦ rw c (rw c refl)
  | inr c ↦ elim (Bool-cases (text_in callee fix.funcs)) [
    | inl f ↦ rw (c, f) (rw (c, f) refl)
    | inr f ↦ rw (c, f) (rw (c, f) refl)
  ]
]

fixed_kind-erase :
    (fix : AppFixer) (callee : Text) (kind : AppKind)
    → fresh_kind kind ≡ true
    → erase_kind (fixed_kind fix callee kind) ≡ erase_kind kind
unfolding fixed_kind
fixed_kind-erase fix callee external_call e = refl
fixed_kind-erase fix callee closure_call e = absurd (cc)
fixed_kind-erase fix callee direct_call e = elim (Bool-cases (text_in callee fix.closures)) [
  | inl c ↦ rw c refl
  | inr c ↦ elim (Bool-cases (text_in callee fix.funcs)) [
    | inl f ↦ rw (c, f) refl
    | inr f ↦ rw (c, f) refl
  ]
]

module _ (fix : AppFixer) where
  abbrev FixesVal : Val → Bool → Type 0
  FixesVal v r =
      (v' : Val) × (fix_app fix v r ≡ some (v', r || calls_val fix.fixing v))
      × (right_val fix v' ≡ true)
      × (erase_val v' ≡ erase_val v)

  abbrev pub Fixes : Insns → Bool → Type 0
  Fixes block r =
      (block' : Insns) × (fix_apps_in_block fix block r
        ≡ some (block', r || calls fix.fixing block))
      × (right fix block' ≡ true)
      × (erase block' ≡ erase block)

  -- A value that is no call and has no blocks.
  kept :
      (v : Val) (r : Bool)
      → fix_app fix v r ≡ some (v, r)
      → right_val fix v ≡ true
      → calls_val fix.fixing v ≡ false
      → erase_val v ≡ v
      → FixesVal v r
  kept v r e k c s = (v, rw c (e ∙ ap (λ b. some (v, b)) (sym (or-false r))), k, refl)

  mutual
    unfolding fix_app right fresh calls erase

    fix_app-FixesVal : (v : Val) (r : Bool) → fresh_val v ≡ true → FixesVal v r
    fix_app-FixesVal (app callee args kind) r e = (
      app callee args (fixed_kind fix callee kind),
      ap (λ b. some (app callee args (fixed_kind fix callee kind), b))
          (if-or (is_fixing fix.fixing callee) r),
      fixed_kind-right fix callee kind e,
      ap (app callee args) (fixed_kind-erase fix callee kind e),
    )
    fix_app-FixesVal (if_val c a b) r e =
        let (ea, eb) = both_true (fresh a) (fresh b) e in
        let (a', fa, ra, sa) = fix_apps_in_block-Fixes a r ea in
        let (b', fb, rb, sb) = fix_apps_in_block-Fixes b (r || calls fix.fixing a) eb in
        (
          if_val c a' b',
          rw (fa, fb)
              (ap (λ k. some (if_val c a' b', k))
                (or_assoc r (calls fix.fixing a) (calls fix.fixing b))),
          rw (ra, rb) refl,
          ap₂ (if_val c) sa sb,
        )
    fix_app-FixesVal (fun_val ps body rec) r e = absurd (cc)
    fix_app-FixesVal unit_val r e = kept unit_val r refl refl refl refl
    fix_app-FixesVal none_val r e = kept none_val r refl refl refl refl
    fix_app-FixesVal nop r e = kept nop r refl refl refl refl
    fix_app-FixesVal (bool_val b) r e = kept (bool_val b) r refl refl refl refl
    fix_app-FixesVal (int_val i) r e = kept (int_val i) r refl refl refl refl
    fix_app-FixesVal (float_val w) r e = kept (float_val w) r refl refl refl refl
    fix_app-FixesVal (string_val w) r e = kept (string_val w) r refl refl refl refl
    fix_app-FixesVal (unary op c) r e = kept (unary op c) r refl refl refl refl
    fix_app-FixesVal (binary op l k) r e = kept (binary op l k) r refl refl refl refl
    fix_app-FixesVal (ref i) r e = kept (ref i) r refl refl refl refl
    fix_app-FixesVal (tuple es) r e = kept (tuple es) r refl refl refl refl
    fix_app-FixesVal (tpl_load from i) r e = kept (tpl_load from i) r refl refl refl refl
    fix_app-FixesVal (array size elem) r e = kept (array size elem) r refl refl refl refl
    fix_app-FixesVal (arr_lit es) r e = kept (arr_lit es) r refl refl refl refl
    fix_app-FixesVal (arr_load from i) r e = kept (arr_load from i) r refl refl refl refl
    fix_app-FixesVal (arr_store to i rhs) r e = kept (arr_store to i rhs) r refl refl refl refl
    fix_app-FixesVal (arr_len a) r e = kept (arr_len a) r refl refl refl refl
    fix_app-FixesVal (some_val o) r e = kept (some_val o) r refl refl refl refl
    fix_app-FixesVal (is_some o) r e = kept (is_some o) r refl refl refl refl
    fix_app-FixesVal (deref_some o) r e = kept (deref_some o) r refl refl refl refl
    fix_app-FixesVal (xref i) r e = kept (xref i) r refl refl refl refl
    fix_app-FixesVal (make_cls vars f) r e = kept (make_cls vars f) r refl refl refl refl

    fix_apps_in_block-Fixes : (block : Insns) (r : Bool) → fresh block ≡ true → Fixes block r
    fix_apps_in_block-Fixes nil r e = (nil, ap (λ k. some (nil, k)) (sym (or-false r)), refl, refl)
    fix_apps_in_block-Fixes (cons n v rest) r e =
        let (ev, er) = both_true (fresh_val v) (fresh rest) e in
        let (v', fv, rv, sv) = fix_app-FixesVal v r ev in
        let (rest', fr, rr, sr) = fix_apps_in_block-Fixes rest (r || calls_val fix.fixing v) er in
        (
          cons n v' rest',
          rw (fv, fr)
              (ap (λ k. some (cons n v' rest', k))
                (or_assoc r (calls_val fix.fixing v) (calls fix.fixing rest))),
          rw (rv, rr) refl,
          ap₂ (cons n) sv sr,
        )

-- In a block whose calls are direct or external and that has no functions, each call gets the kind
-- that its callee asks for: a closure, or what is no function at the top level, is called as a
-- closure, another function directly, and an external stays. Nothing else changes, and the function
-- that is being fixed becomes recursive if it is called.
pub fix_apps_in_block-right :
    (fix : AppFixer) (block : Insns) (r : Bool)
    → fresh block ≡ true
    → (block' : Insns) × (fix_apps_in_block fix block r
        ≡ some (block', r || calls fix.fixing block))
      × (right fix block' ≡ true)
      × (erase block' ≡ erase block)
fix_apps_in_block-right fix block r e = fix_apps_in_block-Fixes fix block r e

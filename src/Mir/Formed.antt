-- ===== src/Mir/Formed.antt =====
-- mir/: the shape of the blocks that the construction makes and the closure transformation takes.
use gocaml.Base.{
  both_true, ◌≡◌, refl, inl, inr, Bool, true, false, Bool-cases, not, ◌&&◌, List, [], ◌∷◌, ◌++◌,
  Text, text_eq,
}
use gocaml.Mir.Val.{
  AppKind, direct_call, closure_call, external_call, Val, Insns, unit_val, none_val, nop, bool_val,
  int_val, float_val, string_val, unary, binary, ref, if_val, fun_val, app, tuple, tpl_load, array,
  arr_lit, arr_load, arr_store, arr_len, some_val, is_some, deref_some, xref, make_cls, nil, cons,
}
use gocaml.Sema.Alpha.{text_in}

-- The names that a value without blocks uses.
unfoldable pub reads : Val → List Text
reads (unary op c) = c ∷ []
reads (binary op l r) = l ∷ r ∷ []
reads (ref i) = i ∷ []
reads (app callee args kind) = callee ∷ args
reads (tuple es) = es
reads (array size elem) = size ∷ elem ∷ []
reads (arr_lit es) = es
reads (tpl_load from i) = from ∷ []
reads (arr_load from i) = from ∷ i ∷ []
reads (arr_store to i rhs) = to ∷ i ∷ rhs ∷ []
reads (arr_len a) = a ∷ []
reads (some_val e) = e ∷ []
reads (is_some e) = e ∷ []
reads (deref_some e) = e ∷ []
reads v = []

unfoldable pub all_in : List Text → List Text → Bool
unfolding text_in
all_in [] scope = true
all_in (x ∷ xs) scope = text_in x scope && all_in xs scope

abbrev pub is_direct : AppKind → Bool
is_direct direct_call = true
is_direct closure_call = false
is_direct external_call = false

unfoldable pub is_fun : Val → Bool
is_fun (fun_val ps body rec) = true
is_fun v = false

-- Each name that a value uses is in scope: a parameter of the function around, the function
-- itself, or an instruction before. Calls are direct, no function is marked as recursive, there
-- are no closures, and a block ends in an instruction that is no function.
unfoldable mutual
  unfolding reads all_in is_fun

  pub formed_val : List Text → Text → Val → Bool
  formed_val scope n (if_val c a b) = text_in c scope && (formed scope a && formed scope b)
  formed_val scope n (fun_val ps body rec) = not rec && formed (ps ++ n ∷ scope) body
  formed_val scope n (app callee args kind) = is_direct kind && all_in (callee ∷ args) scope
  formed_val scope n (make_cls vars f) = false
  formed_val scope n v = all_in (reads v) scope

  pub formed : List Text → Insns → Bool
  formed scope nil = false
  formed scope (cons n v nil) = formed_val scope n v && not (is_fun v)
  formed scope (cons n v (cons m w rest)) =
      formed_val scope n v && formed (n ∷ scope) (cons m w rest)

-- What is in one scope is in the other.
abbrev pub Sub : List Text → List Text → Type 0
Sub scope wider = (x : Text) → text_in x scope ≡ true → text_in x wider ≡ true

pub Sub-cons : (n : Text) (scope wider : List Text) → Sub scope wider → Sub (n ∷ scope) (n ∷ wider)
unfolding text_in
Sub-cons n scope wider sub x e = elim (Bool-cases (text_eq n x)) [
  | inl h ↦ rw h refl
  | inr h ↦ rw h (sub x (rw h at e))
]

pub Sub-append : (ns scope wider : List Text) → Sub scope wider → Sub (ns ++ scope) (ns ++ wider)
Sub-append [] scope wider sub = sub
Sub-append (n ∷ ns) scope wider sub =
    Sub-cons n (ns ++ scope) (ns ++ wider) (Sub-append ns scope wider sub)

pub all_in_mono :
    (xs scope wider : List Text) → Sub scope wider → all_in xs scope ≡ true → all_in xs wider ≡ true
unfolding all_in
all_in_mono [] scope wider sub e = refl
all_in_mono (x ∷ xs) scope wider sub e =
    let (ex, es) = both_true (text_in x scope) (all_in xs scope) e in
    rw (sub x ex, all_in_mono xs scope wider sub es) refl

mutual
  unfolding formed reads

  pub formed_val_mono :
      (scope wider : List Text) (n : Text) (v : Val)
      → Sub scope wider
      → formed_val scope n v ≡ true
      → formed_val wider n v ≡ true
  formed_val_mono scope wider n (if_val c a b) sub e =
      let (ec, eab) = both_true (text_in c scope) (formed scope a && formed scope b) e in
      let (ea, eb) = both_true (formed scope a) (formed scope b) eab in
      rw (sub c ec, formed_mono scope wider a sub ea, formed_mono scope wider b sub eb) refl
  formed_val_mono scope wider n (fun_val ps body rec) sub e =
      let (er, eb) = both_true (not rec) (formed (ps ++ n ∷ scope) body) e in
      rw
        (
          er,
          formed_mono (ps ++ n ∷ scope) (ps ++ n ∷ wider) body
              (Sub-append ps (n ∷ scope) (n ∷ wider) (Sub-cons n scope wider sub)) eb,
        )
        refl
  formed_val_mono scope wider n (app callee args kind) sub e =
      let (ek, ea) = both_true (is_direct kind) (all_in (callee ∷ args) scope) e in
      rw (ek, all_in_mono (callee ∷ args) scope wider sub ea) refl
  formed_val_mono scope wider n (make_cls vars f) sub e = absurd (cc)
  formed_val_mono scope wider n unit_val sub e = refl
  formed_val_mono scope wider n none_val sub e = refl
  formed_val_mono scope wider n nop sub e = refl
  formed_val_mono scope wider n (bool_val b) sub e = refl
  formed_val_mono scope wider n (int_val i) sub e = refl
  formed_val_mono scope wider n (float_val w) sub e = refl
  formed_val_mono scope wider n (string_val w) sub e = refl
  formed_val_mono scope wider n (xref i) sub e = refl
  formed_val_mono scope wider n (unary op c) sub e =
      all_in_mono (reads (unary op c)) scope wider sub e
  formed_val_mono scope wider n (binary op l r) sub e =
      all_in_mono (reads (binary op l r)) scope wider sub e
  formed_val_mono scope wider n (ref i) sub e = all_in_mono (reads (ref i)) scope wider sub e
  formed_val_mono scope wider n (tuple es) sub e = all_in_mono (reads (tuple es)) scope wider sub e
  formed_val_mono scope wider n (tpl_load from i) sub e =
      all_in_mono (reads (tpl_load from i)) scope wider sub e
  formed_val_mono scope wider n (array size elem) sub e =
      all_in_mono (reads (array size elem)) scope wider sub e
  formed_val_mono scope wider n (arr_lit es) sub e =
      all_in_mono (reads (arr_lit es)) scope wider sub e
  formed_val_mono scope wider n (arr_load from i) sub e =
      all_in_mono (reads (arr_load from i)) scope wider sub e
  formed_val_mono scope wider n (arr_store to i rhs) sub e =
      all_in_mono (reads (arr_store to i rhs)) scope wider sub e
  formed_val_mono scope wider n (arr_len a) sub e =
      all_in_mono (reads (arr_len a)) scope wider sub e
  formed_val_mono scope wider n (some_val o) sub e =
      all_in_mono (reads (some_val o)) scope wider sub e
  formed_val_mono scope wider n (is_some o) sub e =
      all_in_mono (reads (is_some o)) scope wider sub e
  formed_val_mono scope wider n (deref_some o) sub e =
      all_in_mono (reads (deref_some o)) scope wider sub e

  pub formed_mono :
      (scope wider : List Text) (block : Insns)
      → Sub scope wider
      → formed scope block ≡ true
      → formed wider block ≡ true
  formed_mono scope wider nil sub e = absurd (cc)
  formed_mono scope wider (cons n v nil) sub e =
      let (ev, ef) = both_true (formed_val scope n v) (not (is_fun v)) e in
      rw (formed_val_mono scope wider n v sub ev, ef) refl
  formed_mono scope wider (cons n v (cons m w rest)) sub e =
      let (ev, er) = both_true (formed_val scope n v) (formed (n ∷ scope) (cons m w rest)) e in
      rw
        (
          formed_val_mono scope wider n v sub ev,
          formed_mono (n ∷ scope) (n ∷ wider) (cons m w rest) (Sub-cons n scope wider sub) er,
        )
        refl

-- An instruction before a block.
pub formed-cons :
    (scope : List Text) (n : Text) (v : Val) (rest : Insns)
    → formed_val scope n v ≡ true
    → formed (n ∷ scope) rest ≡ true
    → formed scope (cons n v rest) ≡ true
unfolding formed
formed-cons scope n v nil ev er = absurd (cc)
formed-cons scope n v (cons m w rest) ev er = rw (ev, er) refl

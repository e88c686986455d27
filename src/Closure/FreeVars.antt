-- ===== src/Closure/FreeVars.antt =====
-- closure/freevars.go: gathering the free variables of a block.
-- A set of names is a list. The code knows a function by its instruction, the model by the
-- instruction's name, as names are unique after the alpha transformation. `none` is a panic.
pub mod Free
pub mod Gathers
pub mod Total
use gocaml.Base.{
  Bool, true, false, ◌||◌, Option, none, some, List, [], ◌∷◌, Text, text_eq, if◌then◌else◌,
}
use gocaml.Mir.Val.{
  AppKind, direct_call, closure_call, external_call, Val, Insns, unit_val, none_val, nop, bool_val,
  int_val, float_val, string_val, unary, binary, ref, if_val, fun_val, app, tuple, tpl_load, array,
  arr_lit, arr_load, arr_store, arr_len, some_val, is_some, deref_some, xref, make_cls, nil, cons,
}
use gocaml.Sema.Alpha.{text_in}

-- `mir.MakeCls`
pub record MakeCls : Type 0 where
  pub vars : List Text
  pub fn : Text

-- What the gatherer reads of the transformation. A function that is replaced by nothing is no
-- closure.
pub record Transform : Type 0 where
  pub known_funs : List Text
  pub replaced_funs : Text → Option (Option MakeCls)
  pub closure_block_free_vars : Text → Option (List Text)

abbrev pub add_all : List Text → List Text → List Text
add_all [] found = found
add_all (n ∷ ns) found = add_all ns (n ∷ found)

unfoldable pub delete : Text → List Text → List Text
delete n [] = []
delete n (m ∷ ms) = let rest = delete n ms in if text_eq m n then rest else m ∷ rest

abbrev pub is_external : AppKind → Bool
is_external direct_call = false
is_external closure_call = false
is_external external_call = true

-- The names that `exploreInsn` adds for a value without blocks.
unfoldable pub uses : Transform → Val → List Text
unfolding text_in
uses t (unary op c) = c ∷ []
uses t (binary op l r) = l ∷ r ∷ []
uses t (ref i) = i ∷ []
uses t (app callee args kind) =
    if text_in callee t.known_funs || is_external kind then args else callee ∷ args
uses t (tuple es) = es
uses t (array size elem) = size ∷ elem ∷ []
uses t (arr_lit es) = es
uses t (tpl_load from i) = from ∷ []
uses t (arr_load from i) = from ∷ i ∷ []
uses t (arr_store to i rhs) = to ∷ i ∷ rhs ∷ []
uses t (arr_len a) = a ∷ []
uses t (some_val e) = e ∷ []
uses t (is_some e) = e ∷ []
uses t (deref_some e) = e ∷ []
uses t v = []

abbrev pub explore_closure : MakeCls → Option (List Text) → List Text → Option (List Text)
explore_closure make none found = none
explore_closure make (some fv) found = some (delete make.fn (add_all make.vars (add_all fv found)))

-- `case *mir.Fun`
unfoldable pub explore_fun : Transform → Option (Option MakeCls) → List Text → Option (List Text)
unfolding delete
explore_fun t none found = none
explore_fun t (some none) found = some found
explore_fun t (some (some make)) found =
    explore_closure make (t.closure_block_free_vars make.fn) found

abbrev pub and_then : Option (List Text) → (List Text → Option (List Text)) → Option (List Text)
and_then none k = none
and_then (some found) k = k found

unfoldable mutual
  unfolding uses explore_fun delete

  pub explore_val : Transform → Text → Val → List Text → Option (List Text)
  explore_val t x (if_val c a b) found =
      and_then (explore_block t a (c ∷ found)) (λ f. explore_block t b f)
  explore_val t x (fun_val ps body rec) found = explore_fun t (t.replaced_funs x) found
  explore_val t x (make_cls vars f) found = none
  explore_val t x v found = some (add_all (uses t v) found)

  -- The instructions from the last to the first: each one's value, and then its name.
  pub explore_block : Transform → Insns → List Text → Option (List Text)
  explore_block t nil found = some found
  explore_block t (cons x v rest) found =
      and_then (explore_block t rest found)
        (λ f. and_then (explore_val t x v f) (λ g. some (delete x g)))

unfoldable pub gather_free_vars : Transform → Insns → Option (List Text)
unfolding explore_block
gather_free_vars t block = explore_block t block []

-- From an instruction to the end of its block, where there is one before the end.
unfoldable pub gather_free_vars_till_the_end : Transform → Insns → Option (List Text)
unfolding explore_block
gather_free_vars_till_the_end t nil = none
gather_free_vars_till_the_end t (cons x v rest) = explore_block t (cons x v rest) []

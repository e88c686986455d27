-- ===== src/Closure/FreeVars/Free.antt =====
-- The free variables of a block, read from its first instruction to its last: a name is bound from
-- its instruction on to the end of the block.
use gocaml.Base.{Bool, true, false, not, ◌||◌, ◌&&◌, Option, none, some, List, Text, text_eq}
use gocaml.Mir.Val.{AppKind, external_call, Val, Insns, if_val, fun_val, app, make_cls, nil, cons}
use gocaml.Mir.Formed.{reads}
use gocaml.Sema.Alpha.{text_in}
use gocaml.Closure.FreeVars.{Transform, MakeCls}

-- What a closure captures, and what the rest of the block behind it needs.
abbrev pub free_closure : Text → MakeCls → Option (List Text) → Bool
free_closure x make none = false
free_closure x make (some fv) = text_in x make.vars || text_in x fv

abbrev pub free_fun : Transform → Text → Option (Option MakeCls) → Bool
free_fun t x (some (some make)) = free_closure x make (t.closure_block_free_vars make.fn)
free_fun t x (some none) = false
free_fun t x none = false

-- The callee of an external or of a known function is no variable.
abbrev pub free_call : Transform → Text → Text → List Text → AppKind → Bool
free_call t x callee args external_call = text_in x args
free_call t x callee args kind =
    (not (text_in callee t.known_funs) && text_eq callee x) || text_in x args

unfoldable mutual
  unfolding reads text_in

  pub free_val : Transform → Text → Text → Val → Bool
  free_val t x y (if_val c a b) = text_eq c x || (free t x a || free t x b)
  free_val t x y (fun_val ps body rec) = free_fun t x (t.replaced_funs y)
  free_val t x y (app callee args kind) = free_call t x callee args kind
  free_val t x y v = text_in x (reads v)

  pub free : Transform → Text → Insns → Bool
  free t x nil = false
  free t x (cons y v rest) = not (text_eq y x) && (free_val t x y v || free t x rest)

-- The name of an instruction of the block itself.
unfoldable pub binds : Text → Insns → Bool
binds x nil = false
binds x (cons y v rest) = text_eq y x || binds x rest

-- The name of an instruction in the branches of an `if` of the block.
unfoldable mutual
  unfolding binds

  pub nested_val : Text → Val → Bool
  nested_val x (if_val c a b) = (binds x a || nested x a) || (binds x b || nested x b)
  nested_val x v = false

  pub nested : Text → Insns → Bool
  nested x nil = false
  nested x (cons y v rest) = nested_val x v || nested x rest

-- The transformation has visited each function of the block, and knows what its closure needs, and
-- no closure has been made.
abbrev pub known_closure : Text → MakeCls → Option (List Text) → Bool
known_closure y make none = false
known_closure y make (some fv) = text_eq make.fn y

abbrev pub known_fun : Transform → Text → Option (Option MakeCls) → Bool
known_fun t y none = false
known_fun t y (some none) = true
known_fun t y (some (some make)) = known_closure y make (t.closure_block_free_vars make.fn)

unfoldable mutual
  pub visited_val : Transform → Text → Val → Bool
  visited_val t y (if_val c a b) = visited t a && visited t b
  visited_val t y (fun_val ps body rec) = known_fun t y (t.replaced_funs y)
  visited_val t y (make_cls vars f) = false
  visited_val t y v = true

  pub visited : Transform → Insns → Bool
  visited t nil = true
  visited t (cons y v rest) = visited_val t y v && visited t rest

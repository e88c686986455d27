-- ===== src/Closure/Transform.antt =====
-- closure/transform.go: moving functions to the top level, and making closures.
-- The code knows a function by its instruction, the model by the instruction's name, as names are
-- unique after the alpha transformation. What `duplicate` copies and a retry discards is passed on;
-- `IsRecursive` is set in place and survives a retry, so the names of the functions where it is set
-- are kept in `marks`. `sort.Strings` of a set of names is the parameter `sorted`. `none` is a panic.
pub mod Settled
pub mod Visits
pub mod Moves
pub mod Captures
pub mod Escapes
pub mod Encloses
pub mod Noted
pub mod Skeleton
use gocaml.Base.{
  Bool, true, false, ◌||◌, Option, none, some, List, [], ◌∷◌, ◌++◌, Text, text_eq, if◌then◌else◌,
  put,
}
use gocaml.Mir.Val.{Val, Insns, if_val, fun_val, make_cls, nil, cons}
use gocaml.Sema.Alpha.{text_in}
use gocaml.Closure.FreeVars.{
  Transform, MakeCls, delete, gather_free_vars, gather_free_vars_till_the_end,
}
use gocaml.Closure.FixApps.{and_then, Fun, Program, fix_apps_in_prog}

-- `transformWithKFO`, and the functions that have been marked as recursive.
pub record TransformWithKfo : Type 0 where
  pub seen : Transform
  pub closures : Text → Option (List Text)
  pub marks : List Text

abbrev pub delete_all : List Text → List Text → List Text
delete_all [] found = found
delete_all (p ∷ ps) found = delete_all ps (delete p found)

-- `dup.knownFuns[insn.Ident] = struct{}{}`
abbrev pub assume : Text → TransformWithKfo → TransformWithKfo
assume x t = record t { seen = record t.seen { known_funs = x ∷ t.seen.known_funs } }

-- The state before a try, when the try is discarded.
abbrev pub discard : TransformWithKfo → TransformWithKfo → TransformWithKfo
discard t dup = record t { marks = dup.marks }

abbrev pub mark : Bool → Text → TransformWithKfo → TransformWithKfo
mark true x t = record t { marks = x ∷ t.marks }
mark false x t = t

abbrev pub set_replaced : Text → Option MakeCls → TransformWithKfo → TransformWithKfo
set_replaced x make t = record t {
  seen = record t.seen { replaced_funs = put x make t.seen.replaced_funs };
}

-- A function that is used as a variable has a closure, if only an empty one.
abbrev pub make_closure : Text → Option (List Text) → TransformWithKfo → TransformWithKfo
make_closure x (some vars) t = set_replaced x (some (record { vars = vars; fn = x })) t
make_closure x none t = set_replaced x (some (record { vars = []; fn = x })) (record t {
  closures = put x [] t.closures;
  seen = record t.seen { known_funs = delete x t.seen.known_funs };
})

abbrev pub replace : Bool → Text → TransformWithKfo → TransformWithKfo
replace true x t = make_closure x (t.closures x) t
replace false x t = set_replaced x none t

abbrev pub or_gather : Option (List Text) → Transform → Insns → Option (List Text)
or_gather (some cache) t rest = some cache
or_gather none t rest = gather_free_vars_till_the_end t rest

abbrev pub set_block_free_vars : Text → List Text → TransformWithKfo → TransformWithKfo
set_block_free_vars x fv t = record t {
  seen = record t.seen { closure_block_free_vars = put x fv t.seen.closure_block_free_vars };
}

-- What is done for a function when the rest of its block has been visited.
unfoldable pub enclose : Text → Insns → TransformWithKfo → Option TransformWithKfo
unfolding text_in gather_free_vars_till_the_end
enclose x rest t =
    and_then (or_gather (t.seen.closure_block_free_vars x) t.seen rest)
      (λ fv. some (replace (text_in x fv) x (set_block_free_vars x fv t)))

abbrev pub leave : Text → Val → Insns → TransformWithKfo → Option TransformWithKfo
leave x (fun_val ps body rec) rest t = enclose x rest t
leave x v rest t = some t

module _ (sorted : List Text → List Text) where
  -- A function that is a closure, with the free variables of its body.
  unfoldable pub close : Text → List Text → TransformWithKfo → TransformWithKfo
  unfolding text_in delete
  close x fv t =
      mark (text_in x fv) x (record t { closures = put x (sorted (delete x fv)) t.closures })

  -- When nothing is free, the try is kept; else the body is visited again without the assumption.
  unfoldable pub settle :
      Text
      → List Text
      → Insns
      → List Text
      → TransformWithKfo
      → Option TransformWithKfo
      → Option TransformWithKfo
  unfolding close gather_free_vars
  settle x ps body [] dup retry = some dup
  settle x ps body (n ∷ ns) dup retry =
      and_then retry
        (λ t. and_then (gather_free_vars t.seen body) (λ fv. some (close x (delete_all ps fv) t)))

  unfoldable mutual
    unfolding settle enclose gather_free_vars

    -- What is done for an instruction before the rest of its block is visited.
    pub enter : Text → Val → TransformWithKfo → Option TransformWithKfo
    enter x (fun_val ps body rec) t = and_then (visit body (assume x t)) (λ dup.
        and_then (gather_free_vars dup.seen body)
          (λ fv. settle x ps body (delete_all ps fv) dup (visit body (discard t dup))))
    enter x (if_val c a b) t = and_then (visit a t) (λ t'. visit b t')
    enter x v t = some t

    -- `insn`, and `block` for all of a block.
    pub visit : Insns → TransformWithKfo → Option TransformWithKfo
    visit nil t = some t
    visit (cons x v rest) t =
        and_then (enter x v t) (λ t1. and_then (visit rest t1) (λ t2. leave x v rest t2))

-- What stands for an instruction that defines a function, in front of the rest of its block.
abbrev pub place : Text → Val → Option (Option MakeCls) → Insns → Insns
place x f none rest = cons x f rest
place x f (some none) rest = rest
place x f (some (some make)) rest = cons x (make_cls make.vars make.fn) rest

abbrev pub is_marked : TransformWithKfo → Text → Bool → Bool
is_marked t x rec = rec || text_in x t.marks

abbrev pub flat_insn : Text → Val → Option (Option MakeCls) → Insns → Insns
flat_insn x (fun_val ps body rec) o rest = place x (fun_val ps body rec) o rest
flat_insn x v o rest = cons x v rest

abbrev pub add_fun : Option (Option MakeCls) → Fun → List Fun → List Fun
add_fun none f fs = fs
add_fun (some make) f fs = f ∷ fs

-- A block without its functions.
unfoldable mutual
  unfolding text_in

  pub flat_val : TransformWithKfo → Text → Val → Val
  flat_val t x (fun_val ps body rec) = fun_val ps (flat t body) (is_marked t x rec)
  flat_val t x (if_val c a b) = if_val c (flat t a) (flat t b)
  flat_val t x v = v

  pub flat : TransformWithKfo → Insns → Insns
  flat t nil = nil
  flat t (cons x v rest) = flat_insn x (flat_val t x v) (t.seen.replaced_funs x) (flat t rest)

abbrev pub as_fun : TransformWithKfo → Text → List Text → Insns → Bool → Fun
as_fun t x ps body rec = record {
  name = x;
  params = ps;
  body = body;
  is_recursive = is_marked t x rec;
}

-- The functions that are moved to the top level.
unfoldable mutual
  unfolding flat text_in

  pub lifted_val : TransformWithKfo → Text → Val → List Fun
  lifted_val t x (fun_val ps body rec) =
      add_fun (t.seen.replaced_funs x) (as_fun t x ps (flat t body) rec) (lifted t body)
  lifted_val t x (if_val c a b) = lifted t a ++ lifted t b
  lifted_val t x v = []

  pub lifted : TransformWithKfo → Insns → List Fun
  lifted t nil = []
  lifted t (cons x v rest) = lifted_val t x v ++ lifted t rest

abbrev pub add_name : Option (List Text) → Text → List Text → List Text
add_name none x xs = xs
add_name (some vars) x xs = x ∷ xs

-- The names of the functions that have a closure.
abbrev pub closure_names : TransformWithKfo → List Fun → List Text
closure_names t [] = []
closure_names t (f ∷ fs) = add_name (t.closures f.name) f.name (closure_names t fs)

abbrev pub initial : TransformWithKfo
initial = record {
  seen = record { known_funs = []; replaced_funs = λ x. none; closure_block_free_vars = λ x. none };
  closures = λ x. none;
  marks = [];
}

-- The program before the kinds of calls are set.
abbrev pub moved : TransformWithKfo → Insns → Program
moved t ir = record {
  toplevel = lifted t ir;
  closures = closure_names t (lifted t ir);
  entry = flat t ir;
}

-- `Transform`: the free variables of each closure, and the program.
unfoldable pub transform :
    (List Text → List Text) → Insns → Option ((Text → Option (List Text)) × Program)
unfolding visit flat lifted fix_apps_in_prog
transform sorted ir =
    and_then (visit sorted ir initial)
      (λ t. and_then (fix_apps_in_prog (moved t ir)) (λ prog. some (t.closures, prog)))

-- ===== src/Sema/ToMir/Ready.antt =====
-- sema/to_mir.go: the trees that the construction expects, as alpha transformation, inference and
-- dereferencing leave them.
use gocaml.Base.{
  Bool, true, false, not, ◌&&◌, Option, none, some, List, [], ◌∷◌, ◌++◌, Text, codes, if◌then◌else◌,
}
use gocaml.Types.{Ty, Tys}
use gocaml.Types as Types
use gocaml.Ast.{
  Symbol, Expr, Exprs, unit_lit, bool_lit, int_lit, float_lit, string_lit, unary, binary, if_expr,
  let_expr, var_ref, let_rec, apply, tuple, let_tuple, array_make, array_size, array_get, array_put,
  match_expr, some_expr, none_expr, array_lit, func_type, tuple_type, ctor_type, typed, type_decl,
  external_decl, nil, cons,
}
use gocaml.Ast.Position
use gocaml.Sema.Alpha.{has_prefix, text_in}
use gocaml.Sema.ToMir.{Inputs, param_names, option_elem, tuple_elems}

-- The node that an expression's last instruction is emitted for.
unfoldable pub result_node : Expr → Expr
result_node (let_expr tok x ty bound body) = result_node body
result_node (let_rec tok f ps ret body rest) = result_node rest
result_node (let_tuple tok xs ty bound body) = result_node body
result_node (typed e ty) = result_node e
result_node e = e

-- Names that are not the emitter's own.
unfoldable pub is_user : Text → Bool
unfolding has_prefix
is_user n = not (has_prefix n (codes "$k"))

abbrev pub is_some : {A : Type 0} → Option A → Bool
is_some none = false
is_some (some a) = true

abbrev pub bind_all : List Symbol → List Text → List Text
bind_all [] scope = scope
bind_all (x ∷ xs) scope = bind_all xs (x.name ∷ scope)

-- As many symbols as there are types, or fewer.
abbrev pub fits : List Symbol → Tys → Bool
fits [] ts = true
fits (x ∷ xs) Types.nil = false
fits (x ∷ xs) (Types.cons t ts) = fits xs ts

abbrev pub fits_tuple : List Symbol → Option Tys → Bool
fits_tuple [] ts = false
fits_tuple (x ∷ xs) none = false
fits_tuple (x ∷ xs) (some ts) = fits (x ∷ xs) ts

abbrev pub then_elems : Option Ty → Option Tys
then_elems none = none
then_elems (some t) = tuple_elems t

-- `decls` are the names that inference has declared.
module _ (given : Inputs) (decls : Text → Bool) where
  open given use {inferred, externals}

  -- A node has a position and a type.
  abbrev pub is_typed : Expr → Bool
  is_typed e = is_some (inferred e) && is_some (Position.pos e)

  abbrev pub may_bind : Text → Bool
  may_bind n = is_user n && decls n

  abbrev pub may_bind_all : List Symbol → Bool
  may_bind_all [] = true
  may_bind_all (x ∷ xs) = may_bind x.name && may_bind_all xs

  -- A declared name is in scope, and another is external.
  abbrev pub may_refer : List Text → Text → Bool
  may_refer scope n = is_user n && (if decls n then text_in n scope else externals n)

  abbrev pub is_option : Option Ty → Bool
  is_option t = is_some (option_elem (some t))

  unfoldable mutual
    unfolding text_in is_user result_node

    pub ready : List Text → Expr → Bool
    ready sc (unit_lit l r) = is_typed (unit_lit l r)
    ready sc (bool_lit tok b) = is_typed (bool_lit tok b)
    ready sc (int_lit tok i) = is_typed (int_lit tok i)
    ready sc (float_lit tok x) = is_typed (float_lit tok x)
    ready sc (string_lit tok t) = is_typed (string_lit tok t)
    ready sc (none_expr tok) = is_typed (none_expr tok)
    ready sc (unary op tok e) = ready sc e && is_typed (unary op tok e)
    ready sc (binary op l r) = ready sc l && (ready sc r && is_typed (binary op l r))
    ready sc (if_expr tok c a b) =
        ready sc c && (ready sc a && (ready sc b && is_typed (if_expr tok c a b)))
    ready sc (let_expr tok x ty bound body) =
        ready sc bound && (may_bind x.name && ready (x.name ∷ sc) body)
    ready sc (var_ref tok x) = may_refer sc x.name && is_typed (var_ref tok x)
    ready sc (let_rec tok f ps ret body rest) =
        may_bind f.name && (ready (param_names ps ++ f.name ∷ sc) body && ready (f.name ∷ sc) rest)
    ready sc (apply f xs) = ready sc f && (ready_all sc xs && is_typed (apply f xs))
    ready sc (tuple xs) = ready_all sc xs && is_typed (tuple xs)
    ready sc (let_tuple tok xs ty bound body) =
        ready sc bound
        && (fits_tuple xs (then_elems (inferred bound))
            && (may_bind_all xs && ready (bind_all xs sc) body))
    ready sc (array_make tok n e) = ready sc n && (ready sc e && is_typed (array_make tok n e))
    ready sc (array_size tok a) = ready sc a && is_typed (array_size tok a)
    ready sc (array_get a i) = ready sc a && (ready sc i && is_typed (array_get a i))
    ready sc (array_put a i e) =
        ready sc a && (ready sc i && (ready sc e && is_typed (array_put a i e)))
    ready sc (match_expr tok e x a b last) =
        ready sc e
        && (is_option (inferred (result_node e))
            && (may_bind x.name
                && (ready (x.name ∷ sc) a
                    && (ready sc b && is_typed (match_expr tok e x a b last)))))
    ready sc (some_expr tok e) = ready sc e && is_typed (some_expr tok e)
    ready sc (array_lit l r xs) = ready_all sc xs && is_typed (array_lit l r xs)
    ready sc (typed e ty) = ready sc e
    ready sc (func_type ps r) = false
    ready sc (tuple_type ts) = false
    ready sc (ctor_type l r ps c) = false
    ready sc (type_decl tok x ty) = false
    ready sc (external_decl l r x ty c) = false

    pub ready_all : List Text → Exprs → Bool
    ready_all sc nil = true
    ready_all sc (cons e es) = ready sc e && ready_all sc es

-- ===== src/Sema/Alpha/Scoped.antt =====
-- What AlphaTransform demands of a tree, read off the tree: that each name is in scope where it
-- stands, and that no two names of one binding are displayed alike.
pub mod Judged
pub mod Opened
pub mod Checks
use gocaml.Base.{Bool, true, not, ◌||◌, ◌&&◌, List, [], ◌∷◌, Text, text_eq, codes, if◌then◌else◌}
use gocaml.Ast.{
  Symbol, Expr, Exprs, MaybeExpr, Params, unit_lit, bool_lit, int_lit, float_lit, string_lit, unary,
  binary, if_expr, let_expr, var_ref, let_rec, apply, tuple, let_tuple, array_make, array_size,
  array_get, array_put, match_expr, some_expr, none_expr, array_lit, func_type, tuple_type,
  ctor_type, typed, type_decl, external_decl, nil, cons, absent, present, no_params, param,
}
use gocaml.Sema.Alpha.{is_ignored, is_builtin_type_ctor, same_display, param_symbols, text_in}
use gocaml.Sema.Alpha.Enter.{display}
use gocaml.Sema.Alpha.References.{push, push_all, push_params}

-- No symbol that is not ignored is displayed like one behind it.
unfoldable pub all_differ : List Symbol → Bool
all_differ [] = true
all_differ (x ∷ xs) = (is_ignored x || not (same_display x.display_name xs)) && all_differ xs

-- A reference, with the externals and the names in scope.
unfoldable pub in_scope : Symbol → List Text → List Text → Bool
in_scope x exts st =
    not (text_eq x.display_name (codes "_")) && (text_in x.display_name st || text_in x.name exts)

unfoldable pub type_in_scope : Symbol → List Text → Bool
type_in_scope c types = is_builtin_type_ctor c.display_name || text_in c.display_name types

-- The externals, the types that are declared, a tree, and the names in scope around it.
unfoldable mutual
  pub scoped : List Text → List Text → Expr → List Text → Bool
  scoped exts types (let_expr tok x ty bound body) st =
      scoped exts types bound st
      && (scoped_maybe exts types ty st && scoped exts types body (push display x st))
  scoped exts types (let_rec tok f ps ret body rest) st =
      let outer = push display f st in
      let inner = push_params display ps outer in
      all_differ (param_symbols ps)
      && ((scoped_params exts types ps outer
            && (scoped_maybe exts types ret inner && scoped exts types body inner))
          && scoped exts types rest outer)
  scoped exts types (let_tuple tok xs ty bound body) st =
      scoped_maybe exts types ty st
      && (scoped exts types bound st
          && (all_differ xs && scoped exts types body (push_all display xs st)))
  scoped exts types (match_expr tok e x a b last) st =
      scoped exts types e st && (scoped exts types a (push display x st) && scoped exts types b st)
  scoped exts types (var_ref tok x) st = in_scope x exts st
  scoped exts types (ctor_type first last ps c) st =
      type_in_scope c types && scoped_all exts types ps st
  scoped exts types (unit_lit l r) st = true
  scoped exts types (bool_lit tok b) st = true
  scoped exts types (int_lit tok i) st = true
  scoped exts types (float_lit tok x) st = true
  scoped exts types (string_lit tok s) st = true
  scoped exts types (none_expr tok) st = true
  scoped exts types (unary op tok e) st = scoped exts types e st
  scoped exts types (binary op l r) st = scoped exts types l st && scoped exts types r st
  scoped exts types (if_expr tok c a b) st =
      scoped exts types c st && (scoped exts types a st && scoped exts types b st)
  scoped exts types (apply f xs) st = scoped exts types f st && scoped_all exts types xs st
  scoped exts types (tuple xs) st = scoped_all exts types xs st
  scoped exts types (array_make tok n x) st = scoped exts types n st && scoped exts types x st
  scoped exts types (array_size tok x) st = scoped exts types x st
  scoped exts types (array_get a i) st = scoped exts types a st && scoped exts types i st
  scoped exts types (array_put a i x) st =
      scoped exts types a st && (scoped exts types i st && scoped exts types x st)
  scoped exts types (some_expr tok e) st = scoped exts types e st
  scoped exts types (array_lit l r xs) st = scoped_all exts types xs st
  scoped exts types (func_type ps ret) st = scoped_all exts types ps st && scoped exts types ret st
  scoped exts types (tuple_type xs) st = scoped_all exts types xs st
  scoped exts types (typed e ty) st = scoped exts types e st && scoped exts types ty st
  scoped exts types (type_decl tok x ty) st = scoped exts types ty st
  scoped exts types (external_decl first last x ty c) st = scoped exts types ty st

  pub scoped_all : List Text → List Text → Exprs → List Text → Bool
  scoped_all exts types nil st = true
  scoped_all exts types (cons x xs) st = scoped exts types x st && scoped_all exts types xs st

  pub scoped_maybe : List Text → List Text → MaybeExpr → List Text → Bool
  scoped_maybe exts types absent st = true
  scoped_maybe exts types (present e) st = scoped exts types e st

  pub scoped_params : List Text → List Text → Params → List Text → Bool
  scoped_params exts types no_params st = true
  scoped_params exts types (param x ty ps) st =
      scoped_maybe exts types ty st && scoped_params exts types ps (push display x st)

-- ===== src/Sema/Alpha/References.antt =====
-- What the names of a tree mean: the binding that each reference leads to, read by one of the two
-- names of a symbol, and the names that are bound. Both follow the order of the transformation.
use gocaml.Base.{◌≡◌, ◌⊎◌, true, List, [], ◌∷◌, ◌++◌, Text, if◌then◌else◌}
use gocaml.Ast.{
  Symbol, Expr, Exprs, MaybeExpr, Params, unit_lit, bool_lit, int_lit, float_lit, string_lit, unary,
  binary, if_expr, let_expr, var_ref, let_rec, apply, tuple, let_tuple, array_make, array_size,
  array_get, array_put, match_expr, some_expr, none_expr, array_lit, func_type, tuple_type,
  ctor_type, typed, type_decl, external_decl, nil, cons, absent, present, no_params, param,
}
use gocaml.Sema.Alpha.{is_ignored}
use gocaml.Sema.Alpha.Names.{IsIdent}
use gocaml.Sema.Alpha.Stack.{Ref, ref_of}

-- A symbol's name in scope, unless it is ignored.
abbrev pub push : (Symbol → Text) → Symbol → List Text → List Text
push key x st = if is_ignored x then st else key x ∷ st

abbrev pub push_all : (Symbol → Text) → List Symbol → List Text → List Text
push_all key [] st = st
push_all key (x ∷ xs) st = push_all key xs (push key x st)

abbrev pub push_params : (Symbol → Text) → Params → List Text → List Text
push_params key no_params st = st
push_params key (param x ty ps) st = push_params key ps (push key x st)

-- The references of a tree, in order, with what is in scope around it.
unfoldable mutual
  pub references : (Symbol → Text) → Expr → List Text → List Ref
  references key (let_expr tok x ty bound body) st =
      references key bound st ++ (references_maybe key ty st ++ references key body (push key x st))
  references key (let_rec tok f ps ret body rest) st =
      let inner = push_params key ps (push key f st) in
      (references_params key ps (push key f st)
        ++ (references_maybe key ret inner ++ references key body inner))
      ++ references key rest (push key f st)
  references key (let_tuple tok xs ty bound body) st =
      references_maybe key ty st
      ++ (references key bound st ++ references key body (push_all key xs st))
  references key (match_expr tok e x a b last) st =
      references key e st ++ (references key a (push key x st) ++ references key b st)
  references key (var_ref tok x) st = ref_of (key x) st ∷ []
  references key (ctor_type first last ps c) st = references_all key ps st
  references key (unit_lit l r) st = []
  references key (bool_lit tok b) st = []
  references key (int_lit tok i) st = []
  references key (float_lit tok x) st = []
  references key (string_lit tok s) st = []
  references key (none_expr tok) st = []
  references key (unary op tok e) st = references key e st
  references key (binary op l r) st = references key l st ++ references key r st
  references key (if_expr tok c a b) st =
      references key c st ++ (references key a st ++ references key b st)
  references key (apply f xs) st = references key f st ++ references_all key xs st
  references key (tuple xs) st = references_all key xs st
  references key (array_make tok n x) st = references key n st ++ references key x st
  references key (array_size tok x) st = references key x st
  references key (array_get a i) st = references key a st ++ references key i st
  references key (array_put a i x) st =
      references key a st ++ (references key i st ++ references key x st)
  references key (some_expr tok e) st = references key e st
  references key (array_lit l r xs) st = references_all key xs st
  references key (func_type ps ret) st = references_all key ps st ++ references key ret st
  references key (tuple_type xs) st = references_all key xs st
  references key (typed e ty) st = references key e st ++ references key ty st
  references key (type_decl tok x ty) st = references key ty st
  references key (external_decl first last x ty c) st = references key ty st

  pub references_all : (Symbol → Text) → Exprs → List Text → List Ref
  references_all key nil st = []
  references_all key (cons x xs) st = references key x st ++ references_all key xs st

  pub references_maybe : (Symbol → Text) → MaybeExpr → List Text → List Ref
  references_maybe key absent st = []
  references_maybe key (present e) st = references key e st

  pub references_params : (Symbol → Text) → Params → List Text → List Ref
  references_params key no_params st = []
  references_params key (param x ty ps) st =
      references_maybe key ty st ++ references_params key ps (push key x st)

abbrev pub symbol_names : List Symbol → List Text
symbol_names [] = []
symbol_names (x ∷ xs) = x.name ∷ symbol_names xs

-- The names that a tree binds, in the order of the transformation.
unfoldable mutual
  pub binder_names : Expr → List Text
  binder_names (let_expr tok x ty bound body) =
      binder_names bound ++ (binder_names_maybe ty ++ x.name ∷ binder_names body)
  binder_names (let_rec tok f ps ret body rest) =
      f.name
      ∷ ((binder_names_params ps ++ (binder_names_maybe ret ++ binder_names body))
          ++ binder_names rest)
  binder_names (let_tuple tok xs ty bound body) =
      binder_names_maybe ty ++ (binder_names bound ++ (symbol_names xs ++ binder_names body))
  binder_names (match_expr tok e x a b last) =
      binder_names e ++ (x.name ∷ (binder_names a ++ binder_names b))
  binder_names (var_ref tok x) = []
  binder_names (ctor_type first last ps c) = binder_names_all ps
  binder_names (unit_lit l r) = []
  binder_names (bool_lit tok b) = []
  binder_names (int_lit tok i) = []
  binder_names (float_lit tok x) = []
  binder_names (string_lit tok s) = []
  binder_names (none_expr tok) = []
  binder_names (unary op tok e) = binder_names e
  binder_names (binary op l r) = binder_names l ++ binder_names r
  binder_names (if_expr tok c a b) = binder_names c ++ (binder_names a ++ binder_names b)
  binder_names (apply f xs) = binder_names f ++ binder_names_all xs
  binder_names (tuple xs) = binder_names_all xs
  binder_names (array_make tok n x) = binder_names n ++ binder_names x
  binder_names (array_size tok x) = binder_names x
  binder_names (array_get a i) = binder_names a ++ binder_names i
  binder_names (array_put a i x) = binder_names a ++ (binder_names i ++ binder_names x)
  binder_names (some_expr tok e) = binder_names e
  binder_names (array_lit l r xs) = binder_names_all xs
  binder_names (func_type ps ret) = binder_names_all ps ++ binder_names ret
  binder_names (tuple_type xs) = binder_names_all xs
  binder_names (typed e ty) = binder_names e ++ binder_names ty
  binder_names (type_decl tok x ty) = binder_names ty
  binder_names (external_decl first last x ty c) = binder_names ty

  pub binder_names_all : Exprs → List Text
  binder_names_all nil = []
  binder_names_all (cons x xs) = binder_names x ++ binder_names_all xs

  pub binder_names_maybe : MaybeExpr → List Text
  binder_names_maybe absent = []
  binder_names_maybe (present e) = binder_names e

  pub binder_names_params : Params → List Text
  binder_names_params no_params = []
  binder_names_params (param x ty ps) =
      (binder_names_maybe ty ++ x.name ∷ []) ++ binder_names_params ps

-- A symbol that the parser makes: ignored, or named as it is displayed, by an identifier.
abbrev pub Plain : Symbol → Type 0
Plain x = (x.name ≡ x.display_name) × IsIdent x.display_name

abbrev pub Binder : Symbol → Type 0
Binder x = (is_ignored x ≡ true) ⊎ Plain x

abbrev pub Binders : List Symbol → Type 0
Binders [] = Unit
Binders (x ∷ xs) = Binder x × Binders xs

-- A tree that the parser makes.
unfoldable mutual
  pub Parsed : Expr → Type 0
  Parsed (let_expr tok x ty bound body) = Binder x × ParsedMaybe ty × Parsed bound × Parsed body
  Parsed (let_rec tok f ps ret body rest) =
      Binder f × ParsedParams ps × ParsedMaybe ret × Parsed body × Parsed rest
  Parsed (let_tuple tok xs ty bound body) = Binders xs × ParsedMaybe ty × Parsed bound × Parsed body
  Parsed (match_expr tok e x a b last) = Binder x × Parsed e × Parsed a × Parsed b
  Parsed (var_ref tok x) = Plain x
  Parsed (ctor_type first last ps c) = ParsedAll ps
  Parsed (unit_lit l r) = Unit
  Parsed (bool_lit tok b) = Unit
  Parsed (int_lit tok i) = Unit
  Parsed (float_lit tok x) = Unit
  Parsed (string_lit tok s) = Unit
  Parsed (none_expr tok) = Unit
  Parsed (unary op tok e) = Parsed e
  Parsed (binary op l r) = Parsed l × Parsed r
  Parsed (if_expr tok c a b) = Parsed c × Parsed a × Parsed b
  Parsed (apply f xs) = Parsed f × ParsedAll xs
  Parsed (tuple xs) = ParsedAll xs
  Parsed (array_make tok n x) = Parsed n × Parsed x
  Parsed (array_size tok x) = Parsed x
  Parsed (array_get a i) = Parsed a × Parsed i
  Parsed (array_put a i x) = Parsed a × Parsed i × Parsed x
  Parsed (some_expr tok e) = Parsed e
  Parsed (array_lit l r xs) = ParsedAll xs
  Parsed (func_type ps ret) = ParsedAll ps × Parsed ret
  Parsed (tuple_type xs) = ParsedAll xs
  Parsed (typed e ty) = Parsed e × Parsed ty
  Parsed (type_decl tok x ty) = Parsed ty
  Parsed (external_decl first last x ty c) = Parsed ty

  pub ParsedAll : Exprs → Type 0
  ParsedAll nil = Unit
  ParsedAll (cons x xs) = Parsed x × ParsedAll xs

  pub ParsedMaybe : MaybeExpr → Type 0
  ParsedMaybe absent = Unit
  ParsedMaybe (present e) = Parsed e

  pub ParsedParams : Params → Type 0
  ParsedParams no_params = Unit
  ParsedParams (param x ty ps) = Binder x × ParsedMaybe ty × ParsedParams ps

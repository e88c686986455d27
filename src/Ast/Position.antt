-- ===== src/Ast/Position.antt =====
-- ast/node.go: where a node starts and ends. `none` is a panic: an index out of range, or nil.
use gocaml.Base.{Option, none, some}
use gocaml.Token.{Pos, Token}
use gocaml.Ast.{
  Expr, Exprs, unit_lit, bool_lit, int_lit, float_lit, string_lit, unary, binary, if_expr, let_expr,
  var_ref, let_rec, apply, tuple, let_tuple, array_make, array_size, array_get, array_put,
  match_expr, some_expr, none_expr, array_lit, func_type, tuple_type, ctor_type, typed, type_decl,
  external_decl, nil, cons,
}

-- `StartToken.Start`, where the token may be nil.
abbrev pub token_start : Option Token → Option Pos
token_start none = none
token_start (some t) = some t.start

unfoldable mutual
  pub pos : Expr → Option Pos
  pos (unit_lit l r) = some l.start
  pos (bool_lit t b) = some t.start
  pos (int_lit t i) = some t.start
  pos (float_lit t x) = some t.start
  pos (string_lit t s) = some t.start
  pos (unary op t e) = some t.start
  pos (binary op l r) = pos l
  pos (if_expr t c a b) = some t.start
  pos (let_expr t x ty bound body) = some t.start
  pos (var_ref t x) = some t.start
  pos (let_rec t f ps ret body rest) = some t.start
  pos (apply f xs) = pos f
  pos (tuple xs) = first_pos xs
  pos (let_tuple t xs ty bound body) = some t.start
  pos (array_make t n x) = some t.start
  pos (array_size t x) = some t.start
  pos (array_get a i) = pos a
  pos (array_put a i x) = pos a
  pos (match_expr t e x a b last) = some t.start
  pos (some_expr t e) = some t.start
  pos (none_expr t) = some t.start
  pos (array_lit l r xs) = some l.start
  pos (func_type ps ret) = first_pos ps
  pos (tuple_type xs) = first_pos xs
  pos (ctor_type first last nil c) = some last.start
  pos (ctor_type first last (cons x nil) c) = pos x
  pos (ctor_type first last (cons x (cons y ys)) c) = token_start first
  pos (typed e ty) = pos e
  pos (type_decl t x ty) = some t.start
  pos (external_decl first last x ty c) = some first.start

  pub first_pos : Exprs → Option Pos
  first_pos nil = none
  first_pos (cons x xs) = pos x

unfoldable mutual
  pub end_pos : Expr → Option Pos
  end_pos (unit_lit l r) = some r.end
  end_pos (bool_lit t b) = some t.end
  end_pos (int_lit t i) = some t.end
  end_pos (float_lit t x) = some t.end
  end_pos (string_lit t s) = some t.end
  end_pos (unary op t e) = end_pos e
  end_pos (binary op l r) = end_pos r
  end_pos (if_expr t c a b) = end_pos b
  end_pos (let_expr t x ty bound body) = end_pos body
  end_pos (var_ref t x) = some t.end
  end_pos (let_rec t f ps ret body rest) = end_pos rest
  end_pos (apply f xs) = last_end (end_pos f) xs
  end_pos (tuple xs) = last_end none xs
  end_pos (let_tuple t xs ty bound body) = end_pos body
  end_pos (array_make t n x) = end_pos x
  end_pos (array_size t x) = end_pos x
  end_pos (array_get a i) = end_pos i
  end_pos (array_put a i x) = end_pos x
  end_pos (match_expr t e x a b last) = some last
  end_pos (some_expr t e) = end_pos e
  end_pos (none_expr t) = some t.end
  end_pos (array_lit l r xs) = some r.end
  end_pos (func_type ps ret) = end_pos ret
  end_pos (tuple_type xs) = last_end none xs
  end_pos (ctor_type first last ps c) = some last.end
  end_pos (typed e ty) = end_pos ty
  end_pos (type_decl t x ty) = end_pos ty
  end_pos (external_decl first last x ty c) = some last.end

  -- The end of the last of the nodes, or `o` if there is none.
  pub last_end : Option Pos → Exprs → Option Pos
  last_end o nil = o
  last_end o (cons x xs) = last_end (end_pos x) xs

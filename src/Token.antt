-- ===== src/Token.antt =====
-- token/token.go: the kinds of tokens, source positions and tokens.
use gocaml.Base.{ℕ}

pub data Kind : Type 0 where
  illegal comment lparen rparen ident bool not_kw int float minus plus minus_dot plus_dot : Kind
  star_dot slash_dot equal less_greater less_equal less greater greater_equal : Kind
  if_kw then_kw else_kw let_kw in_kw rec_kw comma array_make dot less_minus semicolon star : Kind
  slash bar_bar and_and array_length string_literal percent match_kw with_kw bar some_kw : Kind
  none_kw minus_greater fun_kw colon type_kw lbracket_bar bar_rbracket lbracket rbracket : Kind
  external_kw eof : Kind

-- `locerr.Pos` without its file.
pub record Pos : Type 0 where
  pub offset : ℕ
  pub line : ℕ
  pub column : ℕ

pub record Token : Type 0 where
  pub kind : Kind
  pub start : Pos
  pub end : Pos

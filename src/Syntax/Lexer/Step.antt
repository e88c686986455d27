-- ===== src/Syntax/Lexer/Step.antt =====
-- syntax/lexer.go: the state function `lex`, and the loop `Lex` over the state functions.
use gocaml.Base.{
  ℕ, zero, suc, ◌+◌, ◌*◌, length, Text, ◌||◌, Option, none, some, ◌==◌, if◌then◌else◌,
}
use gocaml.Token.{Kind}
use gocaml.Syntax.Lexer.{
  Unicode, StateFn, Lexer, Next, new_lexer, emit, emit_lex, is_digit, forward_from, forward, eat,
  consume,
}
use gocaml.Syntax.Lexer.Words.{
  lex_number, lex_array_create, lex_ident, lex_string_body, lex_string_literal,
}
use gocaml.Syntax.Lexer.Operators.{
  lex_comment, lex_left_paren, lex_additive_op, lex_mult_op, lex_bar, lex_logical_and, lex_less,
  lex_greater, lex_lbracket,
}

module _ (u : Unicode) where
  open u use {unicode_space}

  -- The switch of `lex` on the rune at hand.
  unfoldable pub lex_rune : Lexer → Next
  unfolding eat emit consume
  lex_rune l =
      if l.top == b'('
      then (some StateFn.left_paren, l)
      else if l.top == b')'
      then emit_lex Kind.rparen (eat u l)
      else if l.top == b'+' || l.top == b'-'
      then (some StateFn.additive_op, l)
      else if l.top == b'*' || l.top == b'/'
      then (some StateFn.mult_op, l)
      else if l.top == b'%'
      then emit_lex Kind.percent (eat u l)
      else if l.top == b'='
      then emit_lex Kind.equal (eat u l)
      else if l.top == b'<'
      then (some StateFn.less_op, l)
      else if l.top == b'>'
      then (some StateFn.greater_op, l)
      else if l.top == b','
      then emit_lex Kind.comma (eat u l)
      else if l.top == b'.'
      then emit_lex Kind.dot (eat u l)
      else if l.top == b';'
      then emit_lex Kind.semicolon (eat u l)
      else if l.top == b'|'
      then (some StateFn.bar_op, l)
      else if l.top == b'&'
      then (some StateFn.logical_and, l)
      else if l.top == b'"'
      then (some StateFn.string_literal, l)
      else if l.top == b':'
      then emit_lex Kind.colon (eat u l)
      else if l.top == b'['
      then (some StateFn.lbracket_op, l)
      else if l.top == b']'
      then emit_lex Kind.rbracket (eat u l)
      else if unicode_space l.top
      then (some StateFn.lex, consume u l)
      else if is_digit l.top
      then (some StateFn.number, l)
      else (some StateFn.ident, l)

  -- One round of the loop of `lex`.
  unfoldable pub lex_top : Lexer → Next
  unfolding lex_rune emit
  lex_top l = if l.eof then (none, emit Kind.eof l) else lex_rune l

  unfoldable pub step : StateFn → Lexer → Next
  step StateFn.lex l = lex_top l
  step StateFn.comment l = lex_comment u l
  step StateFn.left_paren l = lex_left_paren u l
  step StateFn.additive_op l = lex_additive_op u l
  step StateFn.mult_op l = lex_mult_op u l
  step StateFn.bar_op l = lex_bar u l
  step StateFn.logical_and l = lex_logical_and u l
  step StateFn.less_op l = lex_less u l
  step StateFn.greater_op l = lex_greater u l
  step StateFn.number l = lex_number u l
  step StateFn.array_create l = lex_array_create u l
  step StateFn.ident l = lex_ident u l
  step StateFn.string_literal l = lex_string_literal u l
  step StateFn.string_body l = lex_string_body u l
  step StateFn.lbracket_op l = lex_lbracket u l

  abbrev pub run_next : (StateFn → Lexer → Option Lexer) → Next → Option Lexer
  run_next go (none, l) = some l
  run_next go (some state, l) = go state l

  -- The loop of `Lex`; `none` means that the fuel ran out.
  unfoldable pub run : ℕ → StateFn → Lexer → Option Lexer
  run zero state l = none
  run (suc f) state l = run_next (run f) (step state l)

  -- `Lex` on a source, with two rounds for each rune and two for the end.
  unfoldable pub lex_source : Text → Option Lexer
  unfolding run forward_from
  lex_source code = run (2 * length code + 4) StateFn.lex (forward u (new_lexer code))

-- ===== src/Syntax/Lexer/Operators.antt =====
-- syntax/lexer.go: comments and operators.
use gocaml.Base.{not, some, ◌==◌, if◌then◌else◌}
use gocaml.Token.{Kind}
use gocaml.Syntax.Lexer.{
  Unicode, StateFn, Lexer, Next, emit, emit_illegal, stop, emit_lex, eat, expected_and,
  unclosed_comment,
}

module _ (u : Unicode) where
  unfoldable pub lex_comment : Lexer → Next
  unfolding eat emit emit_illegal
  lex_comment l =
      if l.eof
      then stop (unclosed_comment b'*') l
      else if l.top == b'*'
      then (let l' = eat u l in
          if l'.eof
          then stop (unclosed_comment b')') l'
          else if l'.top == b')'
          then emit_lex Kind.comment (eat u l')
          else (some StateFn.comment, eat u l'))
      else (some StateFn.comment, eat u l)

  unfoldable pub lex_left_paren : Lexer → Next
  unfolding eat emit
  lex_left_paren l =
      let l' = eat u l in
      if l'.top == b'*' then (some StateFn.comment, eat u l') else emit_lex Kind.lparen l'

  unfoldable pub lex_additive_op : Lexer → Next
  unfolding eat emit
  lex_additive_op l =
      let minus = l.top == b'-' in
      let dot = if minus then Kind.minus_dot else Kind.plus_dot in
      let op = if minus then Kind.minus else Kind.plus in
      let l' = eat u l in
      if l'.top == b'.'
      then emit_lex dot (eat u l')
      else if l'.top == b'>'
      then (if minus then emit_lex Kind.minus_greater (eat u l') else emit_lex op l')
      else emit_lex op l'

  unfoldable pub lex_mult_op : Lexer → Next
  unfolding eat emit
  lex_mult_op l =
      let slash = l.top == b'/' in
      let l' = eat u l in
      if l'.top == b'.'
      then emit_lex (if slash then Kind.slash_dot else Kind.star_dot) (eat u l')
      else emit_lex (if slash then Kind.slash else Kind.star) l'

  unfoldable pub lex_bar : Lexer → Next
  unfolding eat emit
  lex_bar l =
      let l' = eat u l in
      if l'.top == b'|'
      then emit_lex Kind.bar_bar (eat u l')
      else if l'.top == b']'
      then emit_lex Kind.bar_rbracket (eat u l')
      else emit_lex Kind.bar l'

  unfoldable pub lex_logical_and : Lexer → Next
  unfolding eat emit emit_illegal
  lex_logical_and l =
      let l' = eat u l in
      if not (l.top == l'.top)
      then stop (expected_and l'.top) l'
      else emit_lex Kind.and_and (eat u l')

  unfoldable pub lex_less : Lexer → Next
  unfolding eat emit
  lex_less l =
      let l' = eat u l in
      if l'.top == b'>'
      then emit_lex Kind.less_greater (eat u l')
      else if l'.top == b'='
      then emit_lex Kind.less_equal (eat u l')
      else if l'.top == b'-'
      then emit_lex Kind.less_minus (eat u l')
      else emit_lex Kind.less l'

  unfoldable pub lex_greater : Lexer → Next
  unfolding eat emit
  lex_greater l =
      let l' = eat u l in
      if l'.top == b'=' then emit_lex Kind.greater_equal (eat u l') else emit_lex Kind.greater l'

  unfoldable pub lex_lbracket : Lexer → Next
  unfolding eat emit
  lex_lbracket l =
      let l' = eat u l in
      if l'.top == b'|' then emit_lex Kind.lbracket_bar (eat u l') else emit_lex Kind.lbracket l'

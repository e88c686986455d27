-- ===== src/Syntax/Lexer/Words.antt =====
-- syntax/lexer.go: names, keywords, numbers and string literals.
use gocaml.Base.{
  ℕ, ◌+◌, Text, codes, text_eq, Bool, true, false, not, ◌&&◌, ◌||◌, none, some, List, [], ◌∷◌, ltb,
  leb, ◌==◌, if◌then◌else◌,
}
use gocaml.Token.{Kind}
use gocaml.Syntax.Lexer.{
  Unicode, StateFn, Lexer, Next, emit, emit_illegal, stop, emit_lex, is_digit, is_letter, eat,
  eat_while_from, eat_while, expected_letter, expected_exponent, expected_dot, expected_array,
  unclosed_string,
}

module _ (u : Unicode) where
  open u use {rune_len}

  -- `string(l.src.Code[lo:hi])`: the runes whose bytes start in the range.
  unfoldable pub slice_at : ℕ → ℕ → ℕ → List ℕ → Text
  slice_at pos lo hi [] = []
  slice_at pos lo hi (r ∷ rs) =
      let rest = slice_at (pos + rune_len r) lo hi rs in
      if leb lo pos && ltb pos hi then r ∷ rest else rest

  abbrev pub lexeme : Lexer → Text
  lexeme l = slice_at 0 l.start.offset l.current.offset l.src

  unfoldable pub byte_len : Text → ℕ
  byte_len [] = 0
  byte_len (r ∷ rs) = rune_len r + byte_len rs

  -- The kind that `emitIdent` emits.
  unfoldable pub ident_kind : Text → Kind
  unfolding byte_len text_eq
  ident_kind s =
      if byte_len s == 1
      then Kind.ident
      else if text_eq s (codes "true") || text_eq s (codes "false")
      then Kind.bool
      else if text_eq s (codes "if")
      then Kind.if_kw
      else if text_eq s (codes "then")
      then Kind.then_kw
      else if text_eq s (codes "else")
      then Kind.else_kw
      else if text_eq s (codes "let")
      then Kind.let_kw
      else if text_eq s (codes "in")
      then Kind.in_kw
      else if text_eq s (codes "rec")
      then Kind.rec_kw
      else if text_eq s (codes "not")
      then Kind.not_kw
      else if text_eq s (codes "match")
      then Kind.match_kw
      else if text_eq s (codes "with")
      then Kind.with_kw
      else if text_eq s (codes "Some")
      then Kind.some_kw
      else if text_eq s (codes "None")
      then Kind.none_kw
      else if text_eq s (codes "fun")
      then Kind.fun_kw
      else if text_eq s (codes "type")
      then Kind.type_kw
      else if text_eq s (codes "external")
      then Kind.external_kw
      else Kind.ident

  abbrev pub emit_ident : Text → Lexer → Lexer
  emit_ident s l = emit (ident_kind s) l

  -- `eatIdent`, whose result says whether a name was read.
  unfoldable pub eat_ident : Lexer → Bool × Lexer
  unfolding is_letter eat eat_while_from emit_illegal
  eat_ident l =
      if not (is_letter u l.top)
      then (false, emit_illegal (expected_letter l.top) l)
      else (true, eat_while u (λ r. is_letter u r || is_digit r) (eat u l))

  -- The part of `lexNumber` that reads a `.` and the digits behind it.
  unfoldable pub fraction : Lexer → Kind × Lexer
  unfolding eat eat_while_from
  fraction l = if l.top == b'.' then (Kind.float, eat_while u is_digit (eat u l)) else (Kind.int, l)

  -- The part of `lexNumber` behind the digits.
  unfoldable pub exponent : Kind → Lexer → Next
  unfolding eat eat_while_from emit emit_illegal
  exponent tok l =
      if l.top == b'e' || l.top == b'E'
      then (let l' = eat u l in
          let signed = if l'.top == b'+' || l'.top == b'-' then eat u l' else l' in
          if not (is_digit signed.top)
          then stop (expected_exponent signed.top) signed
          else emit_lex Kind.float (eat_while u is_digit signed))
      else emit_lex tok l

  unfoldable pub lex_number : Lexer → Next
  unfolding eat eat_while_from fraction exponent
  lex_number l = let (tok, l') = fraction (eat_while u is_digit (eat u l)) in exponent tok l'

  -- `lexArrayCreate` behind the name that follows the dot.
  unfoldable pub array_method : Lexer → Next
  unfolding emit emit_illegal slice_at text_eq
  array_method l =
      let ident = lexeme l in
      if text_eq ident (codes "Array.make")
      then emit_lex Kind.array_make l
      else if text_eq ident (codes "Array.length")
      then emit_lex Kind.array_length l
      else stop (expected_array ident) l

  unfoldable pub lex_array_create : Lexer → Next
  unfolding eat emit_illegal eat_ident array_method
  lex_array_create l =
      if not (l.top == b'.')
      then stop (expected_dot l.top) l
      else (let (read, l') = eat_ident (eat u l) in if read then array_method l' else (none, l'))

  unfoldable pub lex_ident : Lexer → Next
  unfolding eat_ident slice_at text_eq emit ident_kind
  lex_ident l =
      let (read, l') = eat_ident l in
      if read
      then (if text_eq (lexeme l') (codes "Array")
          then (some StateFn.array_create, l')
          else (some StateFn.lex, emit_ident (lexeme l') l'))
      else (none, l')

  -- One round of the loop of `lexStringLiteral`.
  unfoldable pub lex_string_body : Lexer → Next
  unfolding eat emit emit_illegal
  lex_string_body l =
      if l.eof
      then stop unclosed_string l
      else (let l' = if l.top == b'\\' then eat u (eat u l) else l in
          if l'.top == b'"'
          then emit_lex Kind.string_literal (eat u l')
          else (some StateFn.string_body, eat u l'))

  unfoldable pub lex_string_literal : Lexer → Next
  unfolding eat
  lex_string_literal l = (some StateFn.string_body, eat u l)

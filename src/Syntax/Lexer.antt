-- ===== src/Syntax/Lexer.antt =====
-- syntax/lexer.go: the lexer as a state machine over the runes of the source.
-- The reader is the list of the runes still to be read. Tokens sent to the channel and calls of the
-- error callback are lists, oldest first. One call of `step` is one call of a state function, or one
-- round of the loop in `lex`, `lexComment` and `lexStringLiteral`, which then goes on in the same
-- state.
pub mod Words
pub mod Operators
pub mod Step
pub mod Comments
pub mod Total
pub mod WordProgress
pub mod Progress
pub mod Running
use gocaml.Base.{
  ℕ, zero, suc, ◌+◌, ◌*◌, length, Text, codes, text_eq, Bool, true, false, not, ◌&&◌, ◌||◌, Option,
  none, some, List, [], ◌∷◌, ◌++◌, ltb, leb, ◌==◌, if◌then◌else◌,
}
use gocaml.Token.{Kind, Pos, Token}

-- What `unicode` and `unicode/utf8` say of a rune.
pub record Unicode : Type 0 where
  pub rune_len : ℕ → ℕ
  pub valid_rune : ℕ → Bool
  pub unicode_letter : ℕ → Bool
  pub unicode_space : ℕ → Bool

-- The state functions that `Lex` calls; `comment` and `string_body` are loops that have started.
pub data StateFn : Type 0 where
  lex comment left_paren additive_op mult_op bar_op logical_and less_op greater_op : StateFn
  number array_create ident string_literal string_body lbracket_op : StateFn

pub data Reason : Type 0 where
  expected_letter expected_and expected_exponent expected_dot : ℕ → Reason
  unclosed_comment : ℕ → Reason
  invalid_rune : ℕ → Reason
  expected_array : List ℕ → Reason
  unclosed_string : Reason

pub record Lexer : Type 0 where
  pub start : Pos
  pub current : Pos
  pub src : List ℕ
  pub input : List ℕ
  pub tokens : List Token
  pub errors : List (Reason × Pos)
  pub top : ℕ
  pub eof : Bool

-- `NewLexer`
abbrev pub new_lexer : List ℕ → Lexer
new_lexer code =
    let start : Pos = record { offset = 0; line = 1; column = 1 } in
    record {
      start = start;
      current = start;
      src = code;
      input = code;
      tokens = [];
      errors = [];
      top = 0;
      eof = false;
    }

unfoldable pub emit : Kind → Lexer → Lexer
emit kind l = record l {
  tokens = l.tokens ++ (record { kind = kind; start = l.start; end = l.current } ∷ []);
  start = l.current;
}

unfoldable pub emit_illegal : Reason → Lexer → Lexer
unfolding emit
emit_illegal why l = emit Kind.illegal (record l { errors = l.errors ++ ((why, l.current) ∷ []) })

-- A state function's result: the next state, or none to stop.
abbrev pub Next : Type 0
Next = Option StateFn × Lexer

abbrev pub stop : Reason → Lexer → Next
stop why l = (none, emit_illegal why l)

abbrev pub emit_lex : Kind → Lexer → Next
emit_lex kind l = (some StateFn.lex, emit kind l)

abbrev pub is_digit : ℕ → Bool
is_digit r = leb b'0' r && leb r b'9'

-- What `forward` reads from the rest of the input.
abbrev pub at_end : Lexer → Lexer
at_end l = record l { top = 0; eof = true }

module _ (u : Unicode) where
  open u use {rune_len, valid_rune, unicode_letter, unicode_space}

  unfoldable pub is_letter : ℕ → Bool
  is_letter r =
      leb b'a' r && leb r b'z'
      || leb b'A' r && leb r b'Z'
      || r == b'_'
      || leb 128 r && unicode_letter r

  unfoldable pub forward_from : List ℕ → Lexer → Lexer
  forward_from [] l = at_end l
  forward_from (r ∷ rest) l =
      if not (valid_rune r)
      then record (emit_illegal (invalid_rune r) (record l { input = rest })) { eof = true }
      else record l { top = r; input = rest; eof = false }

  abbrev pub forward : Lexer → Lexer
  forward l = forward_from l.input l

  abbrev pub advance : ℕ → Pos → Pos
  advance r p =
      if r == b'\n'
      then record { offset = p.offset + rune_len r; line = p.line + 1; column = 1 }
      else record { offset = p.offset + rune_len r; line = p.line; column = p.column + rune_len r }

  unfoldable pub eat : Lexer → Lexer
  unfolding forward_from
  eat l = forward (record l { current = advance l.top l.current })

  unfoldable pub consume : Lexer → Lexer
  unfolding eat
  consume l = if l.eof then l else (let l' = eat l in record l' { start = l'.current })

  -- `for p(l.top) { l.eat() }`, over the input that is left.
  unfoldable pub eat_while_from : (ℕ → Bool) → List ℕ → Lexer → Lexer
  unfolding eat
  eat_while_from p [] l = if p l.top then eat l else l
  eat_while_from p (r ∷ rest) l =
      let next = eat_while_from p rest (eat l) in if p l.top then next else l

  abbrev pub eat_while : (ℕ → Bool) → Lexer → Lexer
  eat_while p l = eat_while_from p l.input l

-- ===== src/Tests/Lexer.antt =====
-- syntax/lexer.go on short sources.
use gocaml.Base.{
  ◌≡◌, refl, false, ◌&&◌, ◌||◌, Option, none, some, List, [], ◌∷◌, map, codes, ltb, leb, ◌==◌,
  if◌then◌else◌, Text, ◌++◌,
}
use gocaml.Token.{Kind, Token}
use gocaml.Syntax.Lexer.{Unicode, StateFn, Lexer, new_lexer, forward_from, eat}
use gocaml.Syntax.Lexer.Comments.{rounds, At, comment_closes, comment_stars}
use gocaml.Syntax.Lexer.Step.{step, lex_source, lex_top}
use gocaml.Syntax.Lexer.Words.{
  lex_number, lex_array_create, lex_ident, lex_string_body, lex_string_literal,
}
use gocaml.Syntax.Lexer.Operators.{lex_comment, lex_left_paren, lex_bar, lex_less, lex_lbracket}

-- UTF-8 lengths, with the letters and spaces of ASCII only.
abbrev ascii : Unicode
ascii = record {
  rune_len = λ r. if ltb r 128 then 1 else if ltb r 2048 then 2 else if ltb r 65536 then 3 else 4;
  valid_rune = λ r. ltb r 55296 || leb 57344 r && leb r 1114111;
  unicode_letter = λ r. false;
  unicode_space = λ r. r == 32 || leb 9 r && leb r 13;
}

abbrev kinds : Option Lexer → List Kind
kinds none = []
kinds (some l) = map (λ (t : Token). t.kind) l.tokens

lex_source-let :
    kinds (lex_source ascii (codes "let x1 = 1.5e3 in Array.length x <> [|1|]"))
    ≡ Kind.let_kw ∷ Kind.ident ∷ Kind.equal ∷ Kind.float ∷ Kind.in_kw ∷ Kind.array_length
      ∷ Kind.ident ∷ Kind.less_greater ∷ Kind.lbracket_bar ∷ Kind.int ∷ Kind.bar_rbracket ∷ Kind.eof
      ∷ []
unfolding lex_source step lex_top lex_number lex_array_create lex_ident lex_less lex_lbracket
    lex_bar
lex_source-let = refl

-- A comment that ends in two stars is not closed by them.
lex_source-stars : kinds (lex_source ascii (codes "(***)")) ≡ Kind.illegal ∷ []
unfolding lex_source step lex_top lex_left_paren lex_comment
lex_source-stars = refl

-- Two escaped backslashes are not a literal.
lex_source-escapes : kinds (lex_source ascii (codes "\"\\\\\\\\\"")) ≡ Kind.illegal ∷ []
unfolding lex_source step lex_top lex_string_literal lex_string_body
lex_source-escapes = refl

-- The lexer behind the `(*` that a source starts with.
abbrev in_comment : Text → Lexer
in_comment code = eat ascii (eat ascii (forward_from ascii code (new_lexer code)))

abbrev closed_once : Text
closed_once = codes "(*hi*)x"

abbrev closed_twice : Text
closed_twice = codes "(*hi**)x"

closed_once-At : At (in_comment closed_once) (codes "hi" ++ codes "*)x")
unfolding forward_from eat
closed_once-At = (refl, refl, refl)

comment_closes_example :
    (l' : Lexer) × (rounds ascii 3 (some StateFn.comment, in_comment closed_once)
      ≡ (some StateFn.lex, l'))
    × At l' (codes "x")
    × (l'.tokens
        ≡ (in_comment closed_once).tokens
          ++ (record { kind = Kind.comment; start = (in_comment closed_once).start; end = l'.start }
              ∷ []))
    × (l'.errors ≡ (in_comment closed_once).errors)
comment_closes_example =
    comment_closes ascii (codes "hi") (codes "x") (in_comment closed_once) (refl, (refl, tt))
      closed_once-At (refl, (refl, (refl, (refl, (refl, tt)))))

closed_twice-At : At (in_comment closed_twice) (codes "hi" ++ codes "**)x")
unfolding forward_from eat
closed_twice-At = (refl, refl, refl)

comment_stars_example :
    (l' : Lexer) × (rounds ascii 4 (some StateFn.comment, in_comment closed_twice)
      ≡ (some StateFn.comment, l'))
    × At l' (codes "x")
    × (l'.tokens ≡ (in_comment closed_twice).tokens)
    × (l'.errors ≡ (in_comment closed_twice).errors)
comment_stars_example =
    comment_stars ascii (codes "hi") (codes "x") (in_comment closed_twice) (refl, (refl, tt))
      closed_twice-At (refl, (refl, (refl, (refl, (refl, (refl, tt))))))

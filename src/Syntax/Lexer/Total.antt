-- ===== src/Syntax/Lexer/Total.antt =====
-- `Lex` ends on every source, with a closed stream of tokens in order.
use gocaml.Syntax.Lexer.{Lexer}
use gocaml.Syntax.Lexer.Running.{Running}

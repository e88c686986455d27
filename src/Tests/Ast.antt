-- ===== src/Tests/Ast.antt =====
-- ast/node.go and ast/visitor.go on the tree of `let x = 1 in let x = x in x`.
use gocaml.Base.{ℕ, zero, suc, ◌+◌, Option, ◌≡◌, refl, some, none, codes, pos}
use gocaml.Token.{Kind, Pos, Token}
use gocaml.Ast.{Symbol, Expr, let_expr, var_ref, int_lit, absent}
use gocaml.Ast.Position as Position
use gocaml.Ast.Visit.{Visitor, visit}

-- On the first line.
abbrev at : ℕ → Pos
at i = record { offset = i; line = 1; column = i + 1 }

abbrev token : Kind → ℕ → ℕ → Token
token k i j = record { kind = k; start = at i; end = at j }

abbrev pub x : Symbol
x = record { display_name = codes "x"; name = codes "x" }

abbrev pub inner_let : Expr
inner_let =
    let_expr (token Kind.let_kw 13 16) x absent (var_ref (token Kind.ident 21 22) x)
      (var_ref (token Kind.ident 26 27) x)

abbrev pub two_lets : Expr
two_lets =
    let_expr (token Kind.let_kw 0 3) x absent (int_lit (token Kind.int 8 9) (pos 1)) inner_let

-- It counts the nodes of so many levels on the way down, and those that it leaves, apart.
abbrev down : ℕ → Expr → ℕ × ℕ → Option ℕ × (ℕ × ℕ)
down zero e (i, j) = (none, (i + 1, j))
down (suc n) e (i, j) = (some n, (i + 1, j))

abbrev levels : Visitor ℕ (ℕ × ℕ)
levels = record { visit_topdown = down; visit_bottomup = λ v e w. (w.0, w.1 + 1) }

visit-levels : visit levels two_lets 1 (0, 0) ≡ (3, 1)
unfolding visit
visit-levels = refl

pos-two_lets : (Position.pos two_lets ≡ some (at 0)) × (Position.end_pos two_lets ≡ some (at 27))
unfolding Position.pos Position.end_pos
pos-two_lets = (refl, refl)

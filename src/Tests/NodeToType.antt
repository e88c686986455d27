-- ===== src/Tests/NodeToType.antt =====
-- sema/node_to_type.go on small types.
use gocaml.Base.{◌≡◌, refl, none, true, arith, [], ◌∷◌, codes, text_eq, pos, String}
use gocaml.Token.{Kind, Token}
use gocaml.Types.{Store}
use gocaml.Types.Bounded.{Finite, Acyclic}
use gocaml.Ast as Ast
use gocaml.Ast.{Symbol, Expr, ctor_type, tuple_type, TypeDecl}
use gocaml.Sema.NodeToType.{
  refuses, NodeTypeConv, node_to_type, new_node_type_conv, primitives, unknown_ctor,
}
use gocaml.Sema.NodeToType.Grown.{Outcome}
use gocaml.Sema.NodeToType.Formed.{formed, decls_formed, alias_names, node_to_type-Outcome}
use gocaml.Sema.NodeToType.Aliases.{Ends, new_node_type_conv-Outcome}

abbrev word : Token
word = record {
  kind = Kind.ident;
  start = record { offset = 0; line = 1; column = 1 };
  end = record { offset = 3; line = 1; column = 4 };
}

abbrev named : String → Symbol
named s = record { display_name = codes s; name = codes s }

abbrev plain_type : String → Expr
plain_type s = ctor_type none word Ast.nil (named s)

abbrev array_of : Expr → Expr
array_of e = ctor_type none word (Ast.cons e Ast.nil) (named "array")

abbrev any_pair : Expr
any_pair = tuple_type (Ast.cons (plain_type "_") (Ast.cons (array_of (plain_type "_")) Ast.nil))

abbrev empty : Store
empty = record {
  cell = λ p. record { ref = none; level = pos 0; id = 0 };
  next = 0;
  current_var_id = 0;
}

empty-Acyclic : Acyclic empty
empty-Acyclic = record { ends = λ p lt. absurd (omega (arith, lt)); beyond = λ p le. refl }

abbrev first_conv : NodeTypeConv
first_conv = record { aliases = primitives; accepts_any_type = true }

abbrev ints : TypeDecl
ints = record { token = word; ident = named "ints"; ty = array_of (plain_type "int") }

formed-any_pair : formed (alias_names primitives) true any_pair ≡ true
unfolding formed text_eq
formed-any_pair = refl

node_to_type-unknown :
    node_to_type first_conv (array_of (plain_type "t")) (pos 1) empty
    ≡ refuses (unknown_ctor (codes "t"))
unfolding node_to_type text_eq
node_to_type-unknown = refl

node_to_type-Outcome_example :
    Outcome empty
      (node_to_type first_conv any_pair (pos 1) empty)
      Finite
      (formed (alias_names primitives) true any_pair)
node_to_type-Outcome_example =
    node_to_type-Outcome first_conv any_pair (pos 1) empty empty-Acyclic
      ((1, tt), ((1, tt), ((1, tt), ((1, tt), ((1, tt), tt)))))

new_node_type_conv-Outcome_example :
    Outcome empty
      (new_node_type_conv (ints ∷ []) empty)
      Ends
      (decls_formed (alias_names primitives) true (ints ∷ []))
new_node_type_conv-Outcome_example = new_node_type_conv-Outcome (ints ∷ []) empty empty-Acyclic

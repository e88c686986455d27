-- ===== src/Sema/NodeToType/Aliases.antt =====
-- sema/node_to_type.go: the declared types.
use gocaml.Base.{inl, refl, true, List, [], ◌∷◌, negsuc}
use gocaml.Types.{Store}
use gocaml.Types.Bounded.{Finite, Acyclic}
use gocaml.Ast.{TypeDecl}
use gocaml.Sema.NodeToType.{NodeTypeConv, node_to_type, declare, new_node_type_conv, primitives}
use gocaml.Sema.NodeToType.Grown.{Grown-none, Outcome, Outcome-then}
use gocaml.Sema.NodeToType.Formed.{
  decls_formed, alias_names, FiniteAliases, FiniteAliases-Grown, node_to_type-Outcome,
}

-- The types of the aliases end.
abbrev pub Ends : Store → NodeTypeConv → Type 0
Ends s conv = FiniteAliases s conv.aliases

declare-Outcome :
    (ds : List TypeDecl) (conv : NodeTypeConv) (s : Store)
    → Acyclic s
    → Ends s conv
    → Outcome s
        (declare ds conv s)
        Ends
        (decls_formed (alias_names conv.aliases) conv.accepts_any_type ds)
unfolding declare decls_formed
declare-Outcome [] conv s a h = inl (refl, (conv, s, refl, Grown-none s a, h))
declare-Outcome (d ∷ ds) conv s a h =
    Outcome-then s (node_to_type conv d.ty (negsuc 0) s) _ Finite Ends _ _
      (node_to_type-Outcome conv d.ty (negsuc 0) s a h)
      (λ t s1 g f.
        declare-Outcome ds (record conv { aliases = (d.ident.name, t) ∷ conv.aliases }) s1 g.acyclic
          (f, FiniteAliases-Grown g conv.aliases h))

-- The declared types are converted exactly if each is formed from the primitive types and those
-- declared before it. From an acyclic store, the store then only grows and stays acyclic, and the
-- types of all aliases end under it.
pub new_node_type_conv-Outcome :
    (decls : List TypeDecl) (s : Store)
    → Acyclic s
    → Outcome s (new_node_type_conv decls s) Ends (decls_formed (alias_names primitives) true decls)
unfolding new_node_type_conv
new_node_type_conv-Outcome decls s a =
    declare-Outcome decls (record { aliases = primitives; accepts_any_type = true }) s a
      ((1, tt), ((1, tt), ((1, tt), ((1, tt), ((1, tt), tt)))))

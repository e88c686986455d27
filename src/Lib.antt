-- ===== src/Lib.antt =====
-- GoCaml: a compiler from a small ML to native code.
-- A source is read by the lexer (syntax/lexer.go), parsed to a syntax tree, alpha transformed, given
-- types (sema), translated to a block of instructions (mir), closure transformed, monomorphized and
-- emitted through LLVM. This library models the lexer, the syntax tree, the alpha transformation,
-- type inference, the construction of the blocks of instructions and the closure transformation.
--
-- Types.antt and below: types/type.go. A type is a value of `Ty`; a `*Var` is an address, and the
--   store keeps the cell behind each address (its Ref, Level and ID), the package's ID counter and the
--   first address not in use. Types/Meaning says what types mean: an assignment gives each variable
--   a type, and it solves a store when it agrees with every link. Types/Bounded has the invariant that
--   links end (`Acyclic`, `Finite`), Types/Free counts the free variables, and Types/Resolve follows
--   all links.
-- Types/Equals.antt and below: types/equals.go. `equals` follows links and takes fuel; the depth of
--   the types is enough. Types/Equals/Shape describes independently what it compares.
-- Sema/Unify.antt and below: sema/unify.go, function by function (occur, unifyTuple, unifyFun,
--   assignVar, Unify). Links are followed in the store, so `occur` and `unify` take fuel; in an acyclic
--   store there is an amount from which on the answer no longer changes (Unify/Fuel, Unify/Halts,
--   Unify/Terminates). Errors keep their kind and the notes put on them; the message texts and source
--   positions are left out. Unify/Solutions relates an answer to the solutions of the store.
-- Sema/Generic.antt and below: sema/generic.go. The traversals of generalizer.apply and
--   instantiator.apply are one definition, `apply`, with what each does at a variable (`gen_var`,
--   `inst_var`); it takes fuel, as it follows links, and the depth of the type is enough.
--   Generic/Copies proves once what the two share, from a record of what the state keeps (`Growth`),
--   which Generic/Generalize and Generic/Instantiate fill.
-- Token.antt: token/token.go. Positions have no file, and a token no source.
-- Syntax/Lexer.antt and below: syntax/lexer.go. Each state function is a definition of the same name;
--   `step` runs one of them, or one round of the loops in lex, lexComment and lexStringLiteral, and
--   `run` is the loop of Lex. The reader is the list of runes still to come, the token channel and the
--   error callback are lists. The package unicode and the length of a rune in UTF-8 are parameters
--   (`Unicode`); the theorems suppose that each rune of the source is one that utf8.ValidRune accepts,
--   as ReadRune gives no others. The fuel of `lex_source` is two rounds for each rune and four more.
--   Lexer/Running, Progress and WordProgress have the invariant on
--   token spans and the measure that each round lowers.
-- Ast.antt and below: ast/node.go and ast/visitor.go. Nodes that differ only in their name are one
--   constructor (`unary`, `binary`). Ast/Position has Pos and End of each node, with a panic as `none`;
--   Ast/Visit has Visit, for a visitor whose methods change a state. The visit of a LetRec's parameters
--   is `visit_params`.
-- Sema/Scope.antt: sema/scope.go. A scope is the list of its frames, innermost first.
-- Sema/Alpha.antt and below: sema/alpha_transform.go. The transformer is a record that is passed on;
--   `transform` is ast.Visit with VisitTopdown at each node, and returns the node with its symbols as
--   they are when the code is done; `alpha_transform` (Alpha/Program) is AlphaTransform. The number in
--   a new name is printed by the parameter `decimal`, and the counters wrap at 2 ^ 64. Alpha/References
--   reads off a tree which binding each reference leads to, by either of a symbol's two names;
--   Alpha/Scoped says what a tree must meet. Alpha/Stack and Alpha/Numbered have the invariants of the
--   scopes and of the counter, Alpha/Enter and Alpha/Visited how names enter a scope and how visits
--   compose.
-- Sema/NodeToType.antt and below: sema/node_to_type.go. `Converted` keeps apart a type, an error and
--   the panic on a node that is no type. NodeToType/Formed describes independently which types are
--   accepted.
-- Sema/Infer.antt and below: sema/infer.go. `infer_node` is inferNode, with a definition for each of its
--   longer cases, in a monad that passes on the store, DeclTable and what is kept by node; `infer_ast`
--   is Infer up to the call of derefTypeVars. The fuel is that of unification, generalization and
--   instantiation, each of which has enough in an acyclic store; for a whole program no bound is given,
--   and `out` is running out of it, apart from errors and panics. Infer/Items lists the nodes of a tree and its binders.
-- Sema/Deref.antt and below: sema/deref.go, `unwrap` and the functions it calls, on fuel, of which the
--   depth of the type is enough. Only the answer is modelled, not that the code writes it into the nodes
--   of the given type.
-- Sema/ToMir.antt and below: sema/to_mir.go, function by function (`emit_insn` is emitInsn, `emit_let_insn`
--   emitLetInsn, and so on) in a monad that passes on the counter, DeclTable and RefInsts and fails on
--   a panic. A chain of instructions goes from the newest to the oldest, as emitInsn returns it. The
--   counter wraps at 2 ^ 64. ToMir/Ready says which trees are accepted, ToMir/Rules and Parts are the
--   rules for what runs give.
-- Mir/Block.antt and below: mir/block.go, the doubly linked list of a block: making a block, Prepend,
--   Append, RemoveFromList, Last, Append of an instruction, and Reverse. The heap gives the instruction
--   behind an address, and a panic on a nil pointer is `none`; new instructions get the addresses that
--   are passed. The fuel of Last and Reverse is the list's length. Block/Chain says when instructions
--   follow one another.
-- Mir/Val.antt: mir/val.go. A block inside a value is the sequence of its instructions. Mir/Formed says
--   which blocks the passes expect.
-- Closure/FreeVars.antt and below: closure/freevars.go. Sets of names are lists; `Transform` has what
--   the gatherer reads of the closure transformation. FreeVars/Free reads the free variables off a
--   block from its first instruction to its last.
-- Closure/Transform.antt and below: closure/transform.go. `visit` is transformWithKFO.insn on a whole
--   block; `enter` and `leave` are what it does before and after the rest of the block is visited. The
--   state that a retry discards is passed on, and `flat` and `lifted` are what becomes of the blocks
--   and functions in Transform. Transform/Escapes says which functions are used as variables, and
--   Transform/Skeleton what the program should be, but for which calls are calls of closures.
-- Closure/FixApps.antt and below: closure/fix_apps.go. An instruction that the code changes in place is
--   returned, and so is whether the function at hand is recursive; maps are lists.
-- Tests and below: runs on concrete inputs.
--
-- Not modelled: the generated parser; the rest of dereferencing at the end of inference, which writes
-- to types that table entries share and reports what is still unknown; monomorphization, as a later
-- step on the program that the closure transformation gives; code generation, which calls LLVM; the driver and the C runtime.
pub mod Base
pub mod Types
pub mod Token
pub mod Syntax
pub mod Sema
pub mod Ast
pub mod Closure
pub mod Mir
pub mod Tests

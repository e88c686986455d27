-- ===== src/Tests/ToMir.antt =====
-- sema/to_mir.go on a small program.
use gocaml.Base.{
  ℕ, ◌≡◌, refl, true, false, Option, none, some, [], ◌∷◌, ◌++◌, Text, text_eq, codes, if◌then◌else◌,
  pos,
}
use gocaml.Types.{Ty, unit, int, option}
use gocaml.Token.{Token, Kind}
use gocaml.Ast.{
  Expr, Symbol, BinaryOp, unit_lit, int_lit, binary, let_expr, var_ref, let_rec, apply, match_expr,
  some_expr, nil, cons, absent, no_params, param,
}
use gocaml.Ast.Position.{pos as position}
use gocaml.Mir.Val.{Insns, OperatorKind, direct_call}
use gocaml.Mir.Val as Mir
use gocaml.Mir.Formed.{formed}
use gocaml.Sema.ToMir.{Emitter, Inputs, to_mir, initial, declared}
use gocaml.Sema.ToMir.Ready.{ready}
use gocaml.Sema.ToMir.Emits.{to_mir-formed}
use gocaml.Tests.Alpha.{tally, tally_inj}

abbrev pub at : ℕ → Token
at n = record {
  kind = Kind.ident;
  start = record { offset = n; line = 1; column = n };
  end = record { offset = n; line = 1; column = n };
}

abbrev named : Text → Symbol
named n = record { display_name = n; name = n }

abbrev pub f : Symbol
f = named (codes "f$t1")

abbrev pub p : Symbol
p = named (codes "p$t2")

abbrev pub y : Symbol
y = named (codes "y$t3")

abbrev z : Symbol
z = named (codes "z$t4")

abbrev out : Symbol
out = named (codes "print")

-- let rec f p = p + 1 in let y = f 2 in match Some y with Some z -> print z | None -> ()
abbrev pub program : Expr
program =
    let_rec (at 0) f (param p absent no_params) absent
      (binary BinaryOp.add (var_ref (at 1) p) (int_lit (at 2) (pos 1)))
      (let_expr (at 3) y absent (apply (var_ref (at 4) f) (cons (int_lit (at 5) (pos 2)) nil)) (
        match_expr (at 6) (some_expr (at 7) (var_ref (at 8) y)) z
          (apply (var_ref (at 9) out) (cons (var_ref (at 10) z) nil)) (unit_lit (at 11) (at 12))
          (at 13).start))

abbrev types : Expr → Option Ty
types (some_expr tok e) = some (option int)
types (match_expr tok e x a b last) = some unit
types e = some int

abbrev pub given : Inputs
given = record {
  decimal = tally;
  inferred = types;
  insts = λ e. none;
  externals = λ n. text_eq n (codes "print");
}

abbrev pub decls : Text → Option (Option Ty)
decls n =
    if text_eq n (codes "f$t1")
    then some (some int)
    else if text_eq n (codes "p$t2")
    then some (some int)
    else if text_eq n (codes "y$t3")
    then some (some int)
    else if text_eq n (codes "z$t4")
    then some (some int)
    else none

abbrev k : ℕ → Text
k = λ n. codes "$k" ++ tally n

abbrev block : Insns
block =
    Mir.cons f.name
      (Mir.fun_val (p.name ∷ [])
        (Mir.cons (k 1) (Mir.ref p.name) (
          Mir.cons (k 2) (Mir.int_val (pos 1))
            (Mir.cons (k 3) (Mir.binary OperatorKind.add (k 1) (k 2)) Mir.nil)))
        false)
      (Mir.cons (k 4) (Mir.int_val (pos 2)) (
        Mir.cons y.name (Mir.app f.name (k 4 ∷ []) direct_call) (
          Mir.cons (k 6) (Mir.ref y.name) (
            Mir.cons (k 7) (Mir.some_val (k 6)) (
              Mir.cons (k 8) (Mir.is_some (k 7)) (
                Mir.cons (k 13)
                  (Mir.if_val (k 8)
                    (Mir.cons z.name (Mir.deref_some (k 7)) (
                      Mir.cons (k 9) (Mir.xref out.name) (
                        Mir.cons (k 10) (Mir.ref z.name)
                          (Mir.cons (k 11) (Mir.app (k 9) (k 10 ∷ []) direct_call) Mir.nil))))
                    (Mir.cons (k 12) Mir.unit_val Mir.nil))
                  Mir.nil))))))

abbrev result : Option (Insns × Emitter) → Option Insns
result none = none
result (some (b, s)) = some b

to_mir-program : result (to_mir given program decls (λ n. none)) ≡ some block
unfolding to_mir text_eq tally position
to_mir-program = refl

pub ready-program :
    ready given (λ x. declared given x (initial given decls (λ n. none))) [] program ≡ true
unfolding ready text_eq position
ready-program = refl

to_mir-formed_example :
    (b : Insns) × (s' : Emitter) × (to_mir given program decls (λ n. none) ≡ some (b, s'))
    × (formed [] b ≡ true)
to_mir-formed_example = to_mir-formed given program decls (λ n. none) tally_inj ready-program

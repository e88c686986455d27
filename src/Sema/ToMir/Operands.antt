-- ===== src/Sema/ToMir/Operands.antt =====
-- sema/to_mir.go: rules for the nodes, by their operands.
use gocaml.Base.{◌≡◌, refl, sym, subst, ◌∙◌, Bool, true, false, List, [], ◌∷◌, Text}
use gocaml.Ast.{Expr, array_put}
use gocaml.Mir.Val.{Val, Insns, direct_call}
use gocaml.Mir.Val as Mir
use gocaml.Mir.Formed.{
  formed_val, reads, all_in, formed, is_fun, Sub, Sub-cons, formed_mono, formed-cons,
}
use gocaml.Sema.Alpha.{text_in}
use gocaml.Sema.ToMir.{
  Emitter, Emitted, Inputs, M, ◌>>=◌, pure, chain, behind, append, insn, emit_insn,
}
use gocaml.Sema.ToMir.Chains.{
  scope_of, formed_chain, text_in-head, text_in-cons, Sub-scope_of, scope_of-append,
}
use gocaml.Sema.ToMir.Ready.{result_node, is_typed}
use gocaml.Sema.ToMir.Rules.{Does, bind-Does, Declares, Emits, insn-Does}
use gocaml.Sema.ToMir.Parts.{behind-Emits, Emits-formed, Renames, Grows}

module _ (given : Inputs) (decls : Text → Bool) where
  -- Names, all in one scope, of which each use is a name.
  pub two_reads :
      (x y : Text) (scope : List Text)
      → text_in x scope ≡ true
      → text_in y scope ≡ true
      → all_in (x ∷ y ∷ []) scope ≡ true
  unfolding all_in
  two_reads x y scope ex ey = rw (ex, ey) refl

  -- The name of a result is in scope behind its chain.
  pub result_in :
      (scope : List Text) (r : Emitted) → text_in r.ident (scope_of (chain r) scope) ≡ true
  unfolding scope_of
  result_in scope r = text_in-head r.ident (scope_of r.rest scope)

  -- The name of an earlier result, behind the chain of a later one.
  pub earlier_in :
      (scope : List Text) (x : Text) (c : Insns) (r : Emitted)
      → text_in x (scope_of c scope) ≡ true
      → text_in x (scope_of (chain (behind r c)) scope) ≡ true
  unfolding scope_of
  earlier_in scope x c r e =
      text_in-cons x r.ident (scope_of (append r.rest c) scope)
        (rw (scope_of-append r.rest c scope) (Sub-scope_of r.rest (scope_of c scope) x e))

  pub next-Emits :
      (scope : List Text) (c : Insns) (e : Expr) (r : Emitted) (s : Emitter)
      → Emits given decls scope e r s
      → formed_chain scope c ≡ true
      → Emits given decls scope e (behind r c) s
  next-Emits scope c e r s ok f =
      behind-Emits given decls scope scope c e e r s ok f (Sub-scope_of c scope) refl

  -- The chain of a result, with its own name and others before it.
  pub chain-formed :
      (scope : List Text) (e : Expr) (r : Emitted) (s : Emitter)
      → Emits given decls scope e r s
      → formed_chain scope (chain r) ≡ true
  chain-formed scope e r s ok = Emits-formed given decls scope e r s r.ident ok

  -- A node with one operand.
  pub one-Does :
      (scope : List Text) (e node : Expr) (v : Text → Val) (m : M Emitted) (s : Emitter)
      → result_node node ≡ node
      → is_typed given decls node ≡ true
      → ((x n : Text) (sc : List Text) → formed_val sc n (v x) ≡ all_in (x ∷ []) sc)
      → ((x : Text) → is_fun (v x) ≡ false)
      → Does m s (Emits given decls scope e)
      → Does (m >>= λ r. insn given (v r.ident) (chain r) node) s (Emits given decls scope node)
  unfolding all_in
  one-Does scope e node v m s self t fits plain d =
      bind-Does m (λ r. insn given (v r.ident) (chain r) node) s (Emits given decls scope e)
        (Emits given decls scope node) d
        (λ r s' ok.
          insn-Does given decls scope (v r.ident) (chain r) node s' self t
            (λ n. rw (fits r.ident n (scope_of (chain r) scope), result_in scope r) refl)
            (plain r.ident) (chain-formed scope e r s' ok) ok.declares)

  -- A node with two operands.
  pub two-Does :
      (scope : List Text) (a b node : Expr) (v : Text → Text → Val) (m k : M Emitted) (s : Emitter)
      → result_node node ≡ node
      → is_typed given decls node ≡ true
      → ((x y n : Text) (sc : List Text) → formed_val sc n (v x y) ≡ all_in (x ∷ y ∷ []) sc)
      → ((x y : Text) → is_fun (v x y) ≡ false)
      → Does m s (Emits given decls scope a)
      → ((s' : Emitter) → Declares given decls s' → Does k s' (Emits given decls scope b))
      → Does
          (m >>= λ l. k >>= λ r. insn given (v l.ident r.ident) (chain (behind r (chain l))) node)
          s
          (Emits given decls scope node)
  two-Does scope a b node v m k s self t fits plain d dk =
      bind-Does m (λ l. k >>= λ r. insn given (v l.ident r.ident) (chain (behind r (chain l))) node)
        s (Emits given decls scope a) (Emits given decls scope node) d
        (λ l s1 okl.
          bind-Does k (λ r. insn given (v l.ident r.ident) (chain (behind r (chain l))) node) s1
            (Emits given decls scope b) (Emits given decls scope node) (dk s1 okl.declares)
            (λ r s2 okr.
              let ok = next-Emits scope (chain l) b r s2 okr (chain-formed scope a l s1 okl) in
              insn-Does given decls scope (v l.ident r.ident) (chain (behind r (chain l))) node s2
                self t
                (λ n.
                  fits l.ident r.ident n (scope_of (chain (behind r (chain l))) scope)
                  ∙ two_reads l.ident r.ident (scope_of (chain (behind r (chain l))) scope)
                      (earlier_in scope l.ident (chain l) r (result_in scope l))
                      (result_in scope (behind r (chain l))))
                (plain l.ident r.ident) (chain-formed scope b (behind r (chain l)) s2 ok)
                okr.declares))

  -- A node without operands.
  pub leaf-Does :
      (scope : List Text) (node : Expr) (v : Val) (s : Emitter)
      → result_node node ≡ node
      → is_typed given decls node ≡ true
      → ((n : Text) → formed_val scope n v ≡ true)
      → is_fun v ≡ false
      → Declares given decls s
      → Does (insn given v Mir.nil node) s (Emits given decls scope node)
  unfolding scope_of formed_chain
  leaf-Does scope node v s self t fits plain d =
      insn-Does given decls scope v Mir.nil node s self t fits plain refl d

  -- The same result for another node.
  pub same-Does :
      (scope : List Text) (e node : Expr) (m : M Emitted) (s : Emitter)
      → result_node node ≡ result_node e
      → Does m s (Emits given decls scope e)
      → Does m s (Emits given decls scope node)
  same-Does scope e node m s same (r, s', eq, ok) = (
    r,
    s',
    eq,
    record {
      last = ok.last;
      plain = ok.plain;
      older = ok.older;
      named = ok.named;
      typed = rw same ok.typed;
      declares = ok.declares;
    },
  )

  -- An expression with the chain of what it stands under.
  pub body-Does :
      (scope inner : List Text) (c : Insns) (e node : Expr) (m : M Emitted) (s : Emitter)
      → result_node node ≡ result_node e
      → formed_chain scope c ≡ true
      → Sub inner (scope_of c scope)
      → Does m s (Emits given decls inner e)
      → Does (m >>= λ r. pure (behind r c)) s (Emits given decls scope node)
  body-Does scope inner c e node m s same f sub d =
      bind-Does m (λ r. pure (behind r c)) s (Emits given decls inner e)
        (Emits given decls scope node) d
        (λ r s' ok.
          (behind r c, s', refl, behind-Emits given decls scope inner c e node r s' ok f sub same))

  -- A chain of an instruction that has been renamed, and what stands behind it.
  pub bound-Grows :
      (scope : List Text) (e : Expr) (name : Text) (b named : Emitted) (s s' : Emitter)
      → Emits given decls scope e b s
      → Renames given decls name b named s'
      → Grows given decls scope (name ∷ scope) (chain named) s'
  unfolding scope_of
  bound-Grows scope e name b named s s' ok (same, d) =
      subst (λ c. Grows given decls scope (name ∷ scope) c s') (sym same)
        (
          Emits-formed given decls scope e b s name ok,
          Sub-cons name scope (scope_of b.rest scope) (Sub-scope_of b.rest scope),
          d,
        )

  -- An expression that has given its names, behind the names before.
  pub all_in-cons :
      (scope : List Text) (prev c : Insns) (r : Emitted) (xs : List Text)
      → Sub (scope_of (chain (behind r prev)) scope) (scope_of c scope)
      → all_in xs (scope_of c scope) ≡ true
      → all_in (r.ident ∷ xs) (scope_of c scope) ≡ true
  unfolding all_in
  all_in-cons scope prev c r xs sub e = rw (sub r.ident (result_in scope (behind r prev)), e) refl

  -- Three operands.
  pub put-Does :
      (scope : List Text) (a i e : Expr) (s : Emitter)
      → is_typed given decls (array_put a i e) ≡ true
      → Does (emit_insn given a) s (Emits given decls scope a)
      → ((s' : Emitter)
          → Declares given decls s'
          → Does (emit_insn given i) s' (Emits given decls scope i))
      → ((s' : Emitter)
          → Declares given decls s'
          → Does (emit_insn given e) s' (Emits given decls scope e))
      → Does (emit_insn given (array_put a i e)) s (Emits given decls scope (array_put a i e))
  unfolding emit_insn result_node formed_val reads all_in is_fun
  put-Does scope a i e s kt da di de =
      let node = array_put a i e in
      bind-Does (emit_insn given a) _ s (Emits given decls scope a) (Emits given decls scope node)
        da
        (λ x s1 okx.
          bind-Does (emit_insn given i) _ s1 (Emits given decls scope i)
            (Emits given decls scope node) (di s1 okx.declares)
            (λ y s2 oky.
              let cy = chain (behind y (chain x)) in
              let fy : formed_chain scope cy ≡ true =
                chain-formed scope i (behind y (chain x)) s2
                  (next-Emits scope (chain x) i y s2 oky (chain-formed scope a x s1 okx)) in
              bind-Does (emit_insn given e) _ s2 (Emits given decls scope e)
                (Emits given decls scope node) (de s2 oky.declares)
                (λ z s3 okz.
                  let cz = chain (behind z cy) in
                  insn-Does given decls scope (Mir.arr_store x.ident y.ident z.ident) cz node s3
                    refl kt
                    (λ n.
                      rw
                        (
                          earlier_in scope x.ident cy z
                              (earlier_in scope x.ident (chain x) y (result_in scope x)),
                          earlier_in scope y.ident cy z (result_in scope (behind y (chain x))),
                          result_in scope (behind z cy),
                        )
                        refl)
                    refl (chain-formed scope e (behind z cy) s3 (next-Emits scope cy e z s3 okz fy))
                    okz.declares)))

  -- The branches of an `if` behind a chain.
  pub if-formed :
      (scope : List Text) (c : Insns) (x : Text) (a b : Insns)
      → text_in x (scope_of c scope) ≡ true
      → formed scope a ≡ true
      → formed scope b ≡ true
      → formed_val (scope_of c scope) x (Mir.if_val x a b) ≡ true
  unfolding formed_val
  if-formed scope c x a b ex ea eb =
      rw
        (
          ex,
          formed_mono scope (scope_of c scope) a (Sub-scope_of c scope) ea,
          formed_mono scope (scope_of c scope) b (Sub-scope_of c scope) eb,
        )
        refl

  -- What a `match` ends with.
  pub match-Does :
      (scope : List Text) (e node : Expr) (name cond : Text) (p : Emitted) (a b : Insns)
      (s : Emitter)
      → result_node node ≡ node
      → is_typed given decls node ≡ true
      → formed_chain scope (chain p) ≡ true
      → formed (name ∷ scope) a ≡ true
      → formed scope b ≡ true
      → Declares given decls s
      → Does
          (insn given
            (Mir.if_val cond (Mir.cons name (Mir.deref_some p.ident) a) b)
            (Mir.cons cond (Mir.is_some p.ident) (chain p))
            node)
          s
          (Emits given decls scope node)
  unfolding formed_val reads all_in is_fun formed_chain scope_of
  match-Does scope e node name cond p a b s self t fp fa fb d =
      let c = Mir.cons cond (Mir.is_some p.ident) (chain p) in
      let found : text_in p.ident (scope_of c scope) ≡ true =
        text_in-cons p.ident cond (scope_of (chain p) scope) (result_in scope p) in
      insn-Does given decls scope (Mir.if_val cond (Mir.cons name (Mir.deref_some p.ident) a) b) c
        node s self t
        (λ n.
          rw
            (
              text_in-head cond (scope_of (chain p) scope),
              formed-cons (scope_of c scope) name (Mir.deref_some p.ident) a (rw found refl) (
                  formed_mono (name ∷ scope) (name ∷ scope_of c scope) a
                    (Sub-cons name scope (scope_of c scope) (Sub-scope_of c scope)) fa),
              formed_mono scope (scope_of c scope) b (Sub-scope_of c scope) fb,
            )
            refl)
        refl (rw (result_in scope p, fp) refl) d

-- ===== src/Sema/ToMir/Emits.antt =====
-- sema/to_mir.go: the construction succeeds, and its blocks are formed.
use gocaml.Base.{
  both_true, ◌≡◌, refl, ℕ, Bool, true, false, Option, some, List, [], ◌∷◌, ◌++◌, Text,
}
use gocaml.Types.{Ty}
use gocaml.Ast.{
  Expr, Exprs, unit_lit, bool_lit, int_lit, float_lit, string_lit, unary, binary, if_expr, let_expr,
  var_ref, let_rec, apply, tuple, let_tuple, array_make, array_size, array_get, array_put,
  match_expr, some_expr, none_expr, array_lit, func_type, tuple_type, ctor_type, typed, type_decl,
  external_decl, nil, cons,
}
use gocaml.Mir.Val.{Val, Insns, direct_call}
use gocaml.Mir.Val as Mir
use gocaml.Mir.Formed.{formed_val, reads, all_in, formed, is_fun}
use gocaml.Sema.Generic.{Instantiation}
use gocaml.Sema.ToMir.{
  initial, declared, to_mir, emit_block, Emitter, Inputs, ◌>>=◌, pure, chain, behind, declare, insn,
  rename_bound, begin_match, param_names, first_symbol, tuple_elems, emit_loads, callee_inst,
  callee_via, as_ref, emit_insn, emit_all, or_panic, block_of, unary_kind, binary_kind,
}
use gocaml.Sema.ToMir.Chains.{scope_of, formed_chain, Sub-scope_of}
use gocaml.Sema.ToMir.Ready.{
  result_node, is_option, fits_tuple, then_elems, bind_all, may_bind, may_bind_all, may_refer,
  ready, ready_all,
}
use gocaml.Sema.ToMir.Rules.{
  Does, bind-Does, or_panic-Does, find-Does, Declares, declare-user-Declares, Emits, insn-Does,
  EmitsBlock, block_of-Does,
}
use gocaml.Sema.ToMir.Parts.{
  emit_ref-Does, rename_bound-Does, Renames, Grows, IsInjective, begin_match-Does, fits_tuple-cases,
  emit_loads-Does, callee_inst-Does, Callee, callee_via-Does, inst-Does,
}
use gocaml.Sema.ToMir.Operands.{
  result_in, earlier_in, next-Emits, chain-formed, one-Does, two-Does, leaf-Does, same-Does,
  body-Does, bound-Grows, all_in-cons, put-Does, if-formed, match-Does,
}

module _ (given : Inputs) (decls : Text → Bool) (inj : IsInjective given decls given.decimal) where
  -- The names of the results of a list, and a chain that has grown from another.
  abbrev Lists : List Text → Insns → List Text × Insns → Emitter → Type 0
  Lists scope prev xs s' =
      (all_in xs.0 (scope_of xs.1 scope) ≡ true)
      × Grows given decls scope (scope_of prev scope) xs.1 s'

  mutual
    unfolding all_in emit_insn ready result_node scope_of formed_chain formed_val is_fun reads
        formed

    emit_insn-Emits :
        (scope : List Text) (e : Expr) (s : Emitter)
        → ready given decls scope e ≡ true
        → Declares given decls s
        → Does (emit_insn given e) s (Emits given decls scope e)
    emit_insn-Emits scope (unit_lit l r) s k d =
        leaf-Does given decls scope (unit_lit l r) Mir.unit_val s refl k (λ n. refl) refl d
    emit_insn-Emits scope (bool_lit tok b) s k d =
        leaf-Does given decls scope (bool_lit tok b) (Mir.bool_val b) s refl k (λ n. refl) refl d
    emit_insn-Emits scope (int_lit tok i) s k d =
        leaf-Does given decls scope (int_lit tok i) (Mir.int_val i) s refl k (λ n. refl) refl d
    emit_insn-Emits scope (float_lit tok x) s k d =
        leaf-Does given decls scope (float_lit tok x) (Mir.float_val x) s refl k (λ n. refl) refl d
    emit_insn-Emits scope (string_lit tok t) s k d =
        leaf-Does given decls scope (string_lit tok t) (Mir.string_val t) s refl k (λ n. refl) refl
          d
    emit_insn-Emits scope (none_expr tok) s k d =
        leaf-Does given decls scope (none_expr tok) Mir.none_val s refl k (λ n. refl) refl d
    emit_insn-Emits scope (unary op tok e) s k d =
        let (ke, kt) = both_true (ready given decls scope e) _ k in
        one-Does given decls scope e (unary op tok e) (Mir.unary (unary_kind op))
          (emit_insn given e) s refl kt (λ x n sc. refl) (λ x. refl)
          (emit_insn-Emits scope e s ke d)
    emit_insn-Emits scope (array_size tok a) s k d =
        let (ka, kt) = both_true (ready given decls scope a) _ k in
        one-Does given decls scope a (array_size tok a) Mir.arr_len (emit_insn given a) s refl kt
          (λ x n sc. refl) (λ x. refl) (emit_insn-Emits scope a s ka d)
    emit_insn-Emits scope (some_expr tok e) s k d =
        let (ke, kt) = both_true (ready given decls scope e) _ k in
        one-Does given decls scope e (some_expr tok e) Mir.some_val (emit_insn given e) s refl kt
          (λ x n sc. refl) (λ x. refl) (emit_insn-Emits scope e s ke d)
    emit_insn-Emits scope (binary op l r) s k d =
        let (kl, krt) = both_true (ready given decls scope l) _ k in
        let (kr, kt) = both_true (ready given decls scope r) _ krt in
        two-Does given decls scope l r (binary op l r) (Mir.binary (binary_kind op))
          (emit_insn given l) (emit_insn given r) s refl kt (λ x y n sc. refl) (λ x y. refl)
          (emit_insn-Emits scope l s kl d) (λ s' d'. emit_insn-Emits scope r s' kr d')
    emit_insn-Emits scope (array_make tok n e) s k d =
        let (kn, ket) = both_true (ready given decls scope n) _ k in
        let (ke, kt) = both_true (ready given decls scope e) _ ket in
        two-Does given decls scope n e (array_make tok n e) Mir.array (emit_insn given n)
          (emit_insn given e) s refl kt (λ x y m sc. refl) (λ x y. refl)
          (emit_insn-Emits scope n s kn d) (λ s' d'. emit_insn-Emits scope e s' ke d')
    emit_insn-Emits scope (array_get a i) s k d =
        let (ka, kit) = both_true (ready given decls scope a) _ k in
        let (ki, kt) = both_true (ready given decls scope i) _ kit in
        two-Does given decls scope a i (array_get a i) Mir.arr_load (emit_insn given a)
          (emit_insn given i) s refl kt (λ x y m sc. refl) (λ x y. refl)
          (emit_insn-Emits scope a s ka d) (λ s' d'. emit_insn-Emits scope i s' ki d')
    emit_insn-Emits scope (var_ref tok x) s k d =
        let (km, kt) = both_true (may_refer given decls scope x.name) _ k in
        emit_ref-Does given decls scope x (var_ref tok x) s refl km kt d
    emit_insn-Emits scope (typed e ty) s k d =
        same-Does given decls scope e (typed e ty) (emit_insn given e) s refl
          (emit_insn-Emits scope e s k d)
    emit_insn-Emits scope (tuple es) s k d =
        let (ke, kt) = both_true (ready_all given decls scope es) _ k in
        bind-Does (emit_all given es Mir.nil) (λ xs. insn given (Mir.tuple xs.0) xs.1 (tuple es)) s
          (Lists scope Mir.nil) (Emits given decls scope (tuple es))
          (emit_all-Lists scope es Mir.nil s ke refl d)
          (λ xs s' (names, (f, sub, d')).
            insn-Does given decls scope (Mir.tuple xs.0) xs.1 (tuple es) s' refl kt (λ n. names)
              refl f d')
    emit_insn-Emits scope (array_lit l r es) s k d =
        let (ke, kt) = both_true (ready_all given decls scope es) _ k in
        bind-Does (emit_all given es Mir.nil)
          (λ xs. insn given (Mir.arr_lit xs.0) xs.1 (array_lit l r es)) s (Lists scope Mir.nil)
          (Emits given decls scope (array_lit l r es)) (emit_all-Lists scope es Mir.nil s ke refl d)
          (λ xs s' (names, (f, sub, d')).
            insn-Does given decls scope (Mir.arr_lit xs.0) xs.1 (array_lit l r es) s' refl kt
              (λ n. names) refl f d')
    emit_insn-Emits scope (let_expr tok x ty bound body) s k d =
        let (kb, kr) = both_true (ready given decls scope bound) _ k in
        let (kx, ky) = both_true (may_bind given decls x.name) _ kr in
        bind-Does (emit_insn given bound) _ s (Emits given decls scope bound)
          (Emits given decls scope (let_expr tok x ty bound body))
          (emit_insn-Emits scope bound s kb d)
          (λ b s1 okb.
            bind-Does (rename_bound given x.name b)
              (λ named. emit_insn given body >>= λ r. pure (behind r (chain named))) s1
              (Renames given decls x.name b)
              (Emits given decls scope (let_expr tok x ty bound body))
              (rename_bound-Does given decls scope bound x.name b s1 kx okb)
              (λ named s2 ok2.
                let (f, sub, d2) =
                  bound-Grows given decls scope bound x.name b named s1 s2 okb ok2 in
                body-Does given decls scope (x.name ∷ scope) (chain named) body
                  (let_expr tok x ty bound body) (emit_insn given body) s2 refl f sub
                  (emit_insn-Emits (x.name ∷ scope) body s2 ky d2)))
    emit_insn-Emits scope (array_put a i e) s k d =
        let (ka, kr) = both_true (ready given decls scope a) _ k in
        let (ki, ks) = both_true (ready given decls scope i) _ kr in
        let (ke, kt) = both_true (ready given decls scope e) _ ks in
        put-Does given decls scope a i e s kt (emit_insn-Emits scope a s ka d)
          (λ s' d'. emit_insn-Emits scope i s' ki d') (λ s' d'. emit_insn-Emits scope e s' ke d')
    emit_insn-Emits scope (if_expr tok c a b) s k d =
        let (kc, kr) = both_true (ready given decls scope c) _ k in
        let (ka, ks) = both_true (ready given decls scope a) _ kr in
        let (kb, kt) = both_true (ready given decls scope b) _ ks in
        let node = if_expr tok c a b in
        bind-Does (emit_insn given c) _ s (Emits given decls scope c) (Emits given decls scope node)
          (emit_insn-Emits scope c s kc d)
          (λ p s1 okp.
            bind-Does (block_of given (emit_insn given a)) _ s1 (EmitsBlock given decls scope)
              (Emits given decls scope node)
              (block_of-Does given decls (emit_insn given a) scope a s1
                (emit_insn-Emits scope a s1 ka okp.declares))
              (λ ba s2 (fa, d2).
                bind-Does (block_of given (emit_insn given b))
                  (λ bb. insn given (Mir.if_val p.ident ba bb) (chain p) node) s2
                  (EmitsBlock given decls scope) (Emits given decls scope node)
                  (block_of-Does given decls (emit_insn given b) scope b s2
                    (emit_insn-Emits scope b s2 kb d2))
                  (λ bb s3 (fb, d3).
                    insn-Does given decls scope (Mir.if_val p.ident ba bb) (chain p) node s3 refl kt
                      (λ n.
                        if-formed given decls scope (chain p) p.ident ba bb
                          (result_in given decls scope p) fa fb)
                      refl (chain-formed given decls scope c p s1 okp) d3)))
    emit_insn-Emits scope (match_expr tok e x a b last) s k d =
        let (ke, kr) = both_true (ready given decls scope e) _ k in
        let (ko, ks) = both_true (is_option given decls _) _ kr in
        let (kx, ku) = both_true (may_bind given decls x.name) _ ks in
        let (ka, kv) = both_true (ready given decls (x.name ∷ scope) a) _ ku in
        let (kb, kt) = both_true (ready given decls scope b) _ kv in
        let node = match_expr tok e x a b last in
        bind-Does (emit_insn given e) _ s (Emits given decls scope e) (Emits given decls scope node)
          (emit_insn-Emits scope e s ke d)
          (λ p s1 okp.
            bind-Does (begin_match given x.name p) _ s1 (λ cond s'. Declares given decls s')
              (Emits given decls scope node)
              (begin_match-Does given decls scope e x.name p s1 inj kx ko okp)
              (λ cond s2 d2.
                bind-Does (block_of given (emit_insn given a)) _ s2
                  (EmitsBlock given decls (x.name ∷ scope)) (Emits given decls scope node)
                  (block_of-Does given decls (emit_insn given a) (x.name ∷ scope) a s2
                    (emit_insn-Emits (x.name ∷ scope) a s2 ka d2))
                  (λ ba s3 (fa, d3).
                    bind-Does (block_of given (emit_insn given b)) _ s3
                      (EmitsBlock given decls scope) (Emits given decls scope node)
                      (block_of-Does given decls (emit_insn given b) scope b s3
                        (emit_insn-Emits scope b s3 kb d3))
                      (λ bb s4 (fb, d4).
                        match-Does given decls scope e node x.name cond p ba bb s4 refl kt
                          (chain-formed given decls scope e p s1 okp) fa fb d4))))
    emit_insn-Emits scope (let_rec tok f ps ret body rest) s k d =
        let (kf, kr) = both_true (may_bind given decls f.name) _ k in
        let inner = param_names ps ++ f.name ∷ scope in
        let (kb, ke) = both_true (ready given decls inner body) _ kr in
        let node = let_rec tok f ps ret body rest in
        bind-Does (λ s'. or_panic (s'.decl_table f.name) s') _ s (λ t s'. Declares given decls s')
          (Emits given decls scope node) (find-Does given decls f.name s kf d)
          (λ t s1 d1.
            bind-Does (block_of given (emit_insn given body)) _ s1 (EmitsBlock given decls inner)
              (Emits given decls scope node)
              (block_of-Does given decls (emit_insn given body) inner body s1
                (emit_insn-Emits inner body s1 kb d1))
              (λ blk s2 (fb, d2).
                body-Does given decls scope (f.name ∷ scope)
                  (Mir.cons f.name (Mir.fun_val (param_names ps) blk false) Mir.nil) rest node
                  (emit_insn given rest) (declare f.name t s2) refl (rw fb refl) (λ x h. h)
                  (emit_insn-Emits (f.name ∷ scope) rest (declare f.name t s2) ke
                    (declare-user-Declares given decls f.name t s2 kf d2))))
    emit_insn-Emits scope (let_tuple tok xs ty bound body) s k d =
        let (kb, kr) = both_true (ready given decls scope bound) _ k in
        let (kf, ks) = both_true (fits_tuple xs (then_elems (given.inferred bound))) _ kr in
        let (kx, ke) = both_true (may_bind_all given decls xs) _ ks in
        let (x, t, ts, hx, ht, hts, fit) =
          fits_tuple-cases given decls xs (given.inferred bound) kf in
        let node = let_tuple tok xs ty bound body in
        or_panic-Does (first_symbol given xs) x _ s (Emits given decls scope node) hx (
          bind-Does (emit_insn given bound) _ s (Emits given decls scope bound)
            (Emits given decls scope node) (emit_insn-Emits scope bound s kb d)
            (λ b s1 okb.
              or_panic-Does (given.inferred bound) t _ s1 (Emits given decls scope node) ht (
                or_panic-Does (tuple_elems t) ts _ s1 (Emits given decls scope node) hts (
                  bind-Does (emit_loads given b.ident 0 xs ts (chain b))
                    (λ loads. emit_insn given body >>= λ r. pure (behind r loads)) s1
                    (Grows given decls scope (bind_all xs scope)) (Emits given decls scope node)
                    (emit_loads-Does given decls scope scope b.ident 0 xs ts (chain b) s1 fit kx
                      (chain-formed given decls scope bound b s1 okb)
                      (result_in given decls scope b) (Sub-scope_of (chain b) scope) okb.declares)
                    (λ loads s2 (f, sub, d2).
                      body-Does given decls scope (bind_all xs scope) loads body node
                        (emit_insn given body) s2 refl f sub
                        (emit_insn-Emits (bind_all xs scope) body s2 ke d2))))))
    emit_insn-Emits scope (apply fn args) s k d =
        let (kf, kr) = both_true (ready given decls scope fn) _ k in
        let (ka, kt) = both_true (ready_all given decls scope args) _ kr in
        let node = apply fn args in
        bind-Does (callee_inst given (as_ref fn) fn) _ s (λ i s'. Declares given decls s')
          (Emits given decls scope node) (callee_inst-Does given decls (as_ref fn) fn s d)
          (λ i s1 d1.
            bind-Does (callee_via given (as_ref fn) fn (emit_insn given fn)) _ s1
              (Callee given decls scope) (Emits given decls scope node)
              (callee_via-Does given decls scope (as_ref fn) fn (emit_insn given fn) s1 refl kf d1
                (emit_insn-Emits scope fn s1 kf d1))
              (λ c s2 (fc, hc, d2).
                bind-Does (emit_all given args c.1) _ s2 (Lists scope c.1)
                  (Emits given decls scope node) (emit_all-Lists scope args c.1 s2 ka fc d2)
                  (λ ps s3 (names, (fp, sub, d3)).
                    inst-Does given decls scope node i
                      (insn given (Mir.app c.0 ps.0 direct_call) ps.1 node) s3
                      (insn-Does given decls scope (Mir.app c.0 ps.0 direct_call) ps.1 node s3 refl
                        kt (λ n. rw (sub c.0 hc, names) refl) refl fp d3))))
    emit_insn-Emits scope (func_type ps r) s k d = absurd (cc)
    emit_insn-Emits scope (tuple_type ts) s k d = absurd (cc)
    emit_insn-Emits scope (ctor_type l r ps c) s k d = absurd (cc)
    emit_insn-Emits scope (type_decl tok x ty) s k d = absurd (cc)
    emit_insn-Emits scope (external_decl l r x ty c) s k d = absurd (cc)

    emit_all-Lists :
        (scope : List Text) (es : Exprs) (prev : Insns) (s : Emitter)
        → ready_all given decls scope es ≡ true
        → formed_chain scope prev ≡ true
        → Declares given decls s
        → Does (emit_all given es prev) s (Lists scope prev)
    emit_all-Lists scope nil prev s k f d = (([], prev), s, refl, (refl, (f, λ x h. h, d)))
    emit_all-Lists scope (cons e es) prev s k f d =
        let (ke, ks) = both_true (ready given decls scope e) (ready_all given decls scope es) k in
        bind-Does (emit_insn given e) _ s (Emits given decls scope e) (Lists scope prev)
          (emit_insn-Emits scope e s ke d)
          (λ r s1 okr.
            let ok = next-Emits given decls scope prev e r s1 okr f in
            bind-Does (emit_all given es (chain (behind r prev))) _ s1
              (Lists scope (chain (behind r prev))) (Lists scope prev)
              (emit_all-Lists scope es (chain (behind r prev)) s1 ks
                (chain-formed given decls scope e (behind r prev) s1 ok) okr.declares)
              (λ xs s2 (names, (f2, sub, d2)). (
                _,
                s2,
                refl,
                (
                  all_in-cons given decls scope prev xs.1 r xs.0 sub names,
                  (f2, λ x h. sub x (earlier_in given decls scope x prev r h), d2),
                ),
              )))

-- A tree whose names are in scope or external, whose binders are declared, and whose nodes have
-- types and positions, a `match` on an option and a `let` of a tuple among them, becomes a block,
-- without a panic. In it each name is used behind its instruction, in the scope of its parameter or
-- in its own function; calls are direct, and each block ends in an instruction that is no function.
pub to_mir-formed :
    (given : Inputs) (root : Expr) (decls : Text → Option (Option Ty))
    (refs : Text → Option Instantiation)
    → ((m n : ℕ) → given.decimal m ≡ given.decimal n → m ≡ n)
    → ready given (λ x. declared given x (initial given decls refs)) [] root ≡ true
    → (block : Insns) × (s' : Emitter) × (to_mir given root decls refs ≡ some (block, s'))
      × (formed [] block ≡ true)
unfolding to_mir emit_block
to_mir-formed given root decls refs inj k =
    let s = initial given decls refs in
    let names : Text → Bool = λ x. declared given x s in
    let (block, s', e, (f, d)) =
      block_of-Does given names (emit_insn given root) [] root s
        (emit_insn-Emits given names inj [] root s k (λ x u. refl)) in
    (block, s', e, f)

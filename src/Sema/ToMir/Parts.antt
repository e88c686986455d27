-- ===== src/Sema/ToMir/Parts.antt =====
-- sema/to_mir.go: rules for references, bindings and callees.
use gocaml.Base.{
  put_other, remove, both_true, ◌≡◌, ◌≢◌, refl, ap, ◌∙◌, inl, inr, ℕ, ◌+◌, Bool, true, false,
  Bool-cases, ◌&&◌, Option, none, some, List, [], ◌∷◌, Text, text_eq, text_eq_iff, if◌then◌else◌,
  pos, arith,
}
use gocaml.Types.{Ty, Tys}
use gocaml.Types as Types
use gocaml.Ast.{Symbol, Expr, var_ref}
use gocaml.Mir.Val.{Insns, tpl_load, ref, xref, nil, cons}
use gocaml.Mir.Formed.{formed_val, all_in, is_fun, Sub, Sub-cons, formed_val_mono}
use gocaml.Sema.Alpha.{text_in}
use gocaml.Sema.Generic.{Instantiation}
use gocaml.Sema.ToMir.{
  Emitter, Emitted, Inputs, M, ◌>>=◌, pure, chain, behind, declare, insn, declared, inst_ref,
  with_inst, emit_ref, nil_or, move_inst, rename_bound, begin_match, next_count, emit_loads,
  callee_of, emit_known_callee, callee_via, callee_inst, as_ref, first_symbol, tuple_elems,
  option_elem, id_of,
}
use gocaml.Sema.ToMir.Chains.{
  scope_of, formed_chain, text_in-head, text_in-cons, scope_of-Sub, scope_of-append,
  formed_chain_mono, formed_chain-append,
}
use gocaml.Sema.ToMir.Ready.{
  result_node, is_user, is_typed, may_bind, may_bind_all, may_refer, bind_all, fits, fits_tuple,
  then_elems, ready, is_option,
}
use gocaml.Sema.ToMir.Rules.{
  Does, bind-Does, is_some-cases, declare-own-Declares, Declares, declare-user-Declares,
  id_of-is_user, Emits, insn-Does,
}

Does-as :
    {A : Type 0} (m m' : M A) (s : Emitter) (q : A → Emitter → Type 0)
    → m s ≡ m' s
    → Does m' s q
    → Does m s q
Does-as m m' s q e (a, s', e', qa) = (a, s', e ∙ e', qa)

one_read : (x : Text) (scope : List Text) → text_in x scope ≡ true → all_in (x ∷ []) scope ≡ true
unfolding all_in
one_read x scope e = rw e refl

module _ (given : Inputs) (decls : Text → Bool) where
  open given use {insts}

  inst_ref-Emits :
      (scope : List Text) (e : Expr) (r : Emitted) (o : Option Instantiation) (s : Emitter)
      → Emits given decls scope e r s
      → Emits given decls scope e r (inst_ref given r.ident o s)
  inst_ref-Emits scope e r none s ok = ok
  inst_ref-Emits scope e r (some i) s ok = record {
    last = ok.last;
    plain = ok.plain;
    older = ok.older;
    named = ok.named;
    typed = ok.typed;
    declares = ok.declares;
  }

  -- An instruction that is followed by its instantiation.
  pub inst-Does :
      (scope : List Text) (e : Expr) (o : Option Instantiation) (m : M Emitted) (s : Emitter)
      → Does m s (Emits given decls scope e)
      → Does (m >>= λ r s'. pure r (inst_ref given r.ident o s')) s (Emits given decls scope e)
  inst-Does scope e o m s d =
      bind-Does m _ s (Emits given decls scope e) (Emits given decls scope e) d
        (λ r s' ok. (r, _, refl, inst_ref-Emits scope e r o s' ok))

  -- The instructions of another chain go before.
  pub behind-Emits :
      (scope inner : List Text) (c : Insns) (e whole : Expr) (r : Emitted) (s : Emitter)
      → Emits given decls inner e r s
      → formed_chain scope c ≡ true
      → Sub inner (scope_of c scope)
      → result_node whole ≡ result_node e
      → Emits given decls scope whole (behind r c) s
  behind-Emits scope inner c e whole r s ok formed sub same = record {
    last = λ n. rw (scope_of-append r.rest c scope) (
        formed_val_mono (scope_of r.rest inner) (scope_of r.rest (scope_of c scope)) n r.val
          (scope_of-Sub r.rest inner (scope_of c scope) sub) (ok.last n));
    plain = ok.plain;
    older =
        formed_chain-append r.rest c scope
          (formed_chain_mono r.rest inner (scope_of c scope) sub ok.older) formed;
    named = ok.named;
    typed = rw same ok.typed;
    declares = ok.declares;
  }

  -- The chain of a result is formed, whatever its first instruction is called.
  pub Emits-formed :
      (scope : List Text) (e : Expr) (r : Emitted) (s : Emitter) (n : Text)
      → Emits given decls scope e r s
      → formed_chain scope (cons n r.val r.rest) ≡ true
  unfolding formed_chain
  Emits-formed scope e r s n ok = rw (ok.last n, ok.older) refl

  pub emit_ref-Does :
      (scope : List Text) (x : Symbol) (node : Expr) (s : Emitter)
      → result_node node ≡ node
      → may_refer given decls scope x.name ≡ true
      → is_typed given decls node ≡ true
      → Declares given decls s
      → Does (emit_ref given x node) s (Emits given decls scope node)
  unfolding emit_ref scope_of formed_chain formed_val is_fun
  emit_ref-Does scope x node s self may typed d = elim (Bool-cases (decls x.name)) [
    | inl h ↦
        let (u, i) = both_true (is_user x.name) _ may in
        let seen : declared given x.name s ≡ true = d x.name u ∙ h in
        Does-as (emit_ref given x node) (insn given (ref x.name) nil node >>= with_inst given node)
          s (Emits given decls scope node)
          (ap
            (λ b.
              if b
              then (insn given (ref x.name) nil node >>= with_inst given node) s
              else if given.externals x.name
              then insn given (xref x.name) nil node s
              else none)
            seen)
          (inst-Does scope node (insts node) (insn given (ref x.name) nil node) s (
            insn-Does given decls scope (ref x.name) nil node s self typed
              (λ n. one_read x.name scope (rw h at i)) refl refl d))
    | inr h ↦
        let (u, i) = both_true (is_user x.name) _ may in
        let unseen : declared given x.name s ≡ false = d x.name u ∙ h in
        let ext : given.externals x.name ≡ true = rw h at i in
        Does-as (emit_ref given x node) (insn given (xref x.name) nil node) s
          (Emits given decls scope node)
          (ap
              (λ b.
                if b
                then (insn given (ref x.name) nil node >>= with_inst given node) s
                else if given.externals x.name
                then insn given (xref x.name) nil node s
                else none)
              unseen
            ∙ rw ext refl)
          (insn-Does given decls scope (xref x.name) nil node s self typed (λ n. refl) refl refl d)
  ]

  move_inst-Declares :
      (from to : Text) (o : Option Instantiation) (s : Emitter)
      → Declares given decls s
      → Declares given decls (move_inst given from to o s)
  move_inst-Declares from to none s d = d
  move_inst-Declares from to (some i) s d = d

  remove-Declares :
      (n : Text) (s : Emitter)
      → is_user n ≡ false
      → Declares given decls s
      → Declares given decls (record s { decl_table = remove n s.decl_table })
  remove-Declares n s own d x u = elim (Bool-cases (text_eq n x)) [
    | inl e ↦ absurd (let same = (text_eq_iff n x).0 e in cc)
    | inr e ↦ rw (declared, e) (d x u)
  ]

  -- A result that has been bound to a name.
  abbrev pub Renames : Text → Emitted → Emitted → Emitter → Type 0
  Renames name bound named s' =
      (chain named ≡ cons name bound.val bound.rest) × Declares given decls s'

  pub rename_bound-Does :
      (scope : List Text) (e : Expr) (name : Text) (bound : Emitted) (s : Emitter)
      → may_bind given decls name ≡ true
      → Emits given decls scope e bound s
      → Does (rename_bound given name bound) s (Renames name bound)
  unfolding rename_bound
  rename_bound-Does scope e name bound s may ok =
      let s1 : Emitter = record s { decl_table = remove bound.ident s.decl_table } in
      let own : is_user bound.ident ≡ false =
        ap is_user ok.named ∙ id_of-is_user given decls s.count in
      let s2 = move_inst given bound.ident name (s1.ref_insts bound.ident) s1 in
      (
        record bound { ident = name },
        declare name (nil_or given (s.decl_table bound.ident)) s2,
        refl,
        (
          refl,
          declare-user-Declares given decls name (nil_or given (s.decl_table bound.ident)) s2 may (
              move_inst-Declares bound.ident name (s1.ref_insts bound.ident) s1
                (remove-Declares bound.ident s own ok.declares)),
        ),
      )

  -- A chain that has grown from another.
  abbrev pub Grows : List Text → List Text → Insns → Emitter → Type 0
  Grows scope inner c s' =
      (formed_chain scope c ≡ true) × Sub inner (scope_of c scope) × Declares given decls s'

  pub emit_loads-Does :
      (scope inner : List Text) (from : Text) (i : ℕ) (xs : List Symbol) (ts : Tys) (older : Insns)
      (s : Emitter)
      → fits xs ts ≡ true
      → may_bind_all given decls xs ≡ true
      → formed_chain scope older ≡ true
      → text_in from (scope_of older scope) ≡ true
      → Sub inner (scope_of older scope)
      → Declares given decls s
      → Does (emit_loads given from i xs ts older) s (Grows scope (bind_all xs inner))
  unfolding emit_loads formed_chain scope_of formed_val
  emit_loads-Does scope inner from i [] ts older s f b o h sub d = (older, s, refl, (o, sub, d))
  emit_loads-Does scope inner from i (x ∷ xs) Types.nil older s f b o h sub d = absurd (cc)
  emit_loads-Does scope inner from i (x ∷ xs) (Types.cons t ts) older s f b o h sub d =
      let (bx, bs) = both_true (may_bind given decls x.name) (may_bind_all given decls xs) b in
      emit_loads-Does scope (x.name ∷ inner) from (i + 1) xs ts
        (cons x.name (tpl_load from (pos i)) older) (declare x.name (some t) s) f bs
        (rw (one_read from (scope_of older scope) h, o) refl)
        (text_in-cons from x.name (scope_of older scope) h)
        (Sub-cons x.name inner (scope_of older scope) sub)
        (declare-user-Declares given decls x.name (some t) s bx d)

  -- The callee of an application.
  abbrev pub Callee : List Text → Text × Insns → Emitter → Type 0
  Callee scope fn s' =
      (formed_chain scope fn.1 ≡ true)
      × (text_in fn.0 (scope_of fn.1 scope) ≡ true)
      × Declares given decls s'

  callee_of-Does :
      (scope : List Text) (e : Expr) (m : M Emitted) (s : Emitter)
      → Does m s (Emits given decls scope e)
      → Does (m >>= callee_of given) s (Callee scope)
  unfolding scope_of
  callee_of-Does scope e m s d =
      bind-Does m (callee_of given) s (Emits given decls scope e) (Callee scope) d (λ r s' ok. (
        _,
        s',
        refl,
        (
          Emits-formed scope e r s' r.ident ok,
          text_in-head r.ident (scope_of r.rest scope),
          ok.declares,
        ),
      ))

  emit_known_callee-Does :
      (scope : List Text) (x : Symbol) (node : Expr) (s : Emitter)
      → result_node node ≡ node
      → may_refer given decls scope x.name ≡ true
      → is_typed given decls node ≡ true
      → Declares given decls s
      → Does (emit_known_callee given x node) s (Callee scope)
  unfolding emit_known_callee scope_of formed_chain formed_val is_fun
  emit_known_callee-Does scope x node s self may typed d = elim (Bool-cases (decls x.name)) [
    | inl h ↦
        let (u, i) = both_true (is_user x.name) _ may in
        let seen : declared given x.name s ≡ true = d x.name u ∙ h in
        ((x.name, nil), s, rw seen refl, (refl, rw h at i, d))
    | inr h ↦
        let (u, i) = both_true (is_user x.name) _ may in
        let unseen : declared given x.name s ≡ false = d x.name u ∙ h in
        let ext : given.externals x.name ≡ true = rw h at i in
        Does-as (emit_known_callee given x node)
          (insn given (xref x.name) nil node >>= callee_of given) s (Callee scope)
          (ap
              (λ b.
                if b
                then some ((x.name, nil), s)
                else if given.externals x.name
                then (insn given (xref x.name) nil node >>= callee_of given) s
                else none)
              unseen
            ∙ rw ext refl)
          (callee_of-Does scope node (insn given (xref x.name) nil node) s (
            insn-Does given decls scope (xref x.name) nil node s self typed (λ n. refl) refl refl
              d))
  ]

  as_ref-ready :
      (scope : List Text) (e : Expr) (x : Symbol)
      → as_ref e ≡ some x
      → ready given decls scope e ≡ true
      → (result_node e ≡ e) × (may_refer given decls scope x.name && is_typed given decls e ≡ true)
  unfolding ready result_node
  as_ref-ready scope (var_ref tok y) x same e = (refl, cc)
  as_ref-ready scope _ x same e = absurd (cc)

  pub callee_via-Does :
      (scope : List Text) (o : Option Symbol) (e : Expr) (m : M Emitted) (s : Emitter)
      → as_ref e ≡ o
      → ready given decls scope e ≡ true
      → Declares given decls s
      → Does m s (Emits given decls scope e)
      → Does (callee_via given o e m) s (Callee scope)
  callee_via-Does scope none e m s same k d ok = callee_of-Does scope e m s ok
  callee_via-Does scope (some x) e m s same k d ok =
      let (self, both) = as_ref-ready scope e x same k in
      let (may, typed) = both_true (may_refer given decls scope x.name) _ both in
      emit_known_callee-Does scope x e s self may typed d

  pub callee_inst-Does :
      (o : Option Symbol) (e : Expr) (s : Emitter)
      → Declares given decls s
      → Does (callee_inst given o e) s (λ i s'. Declares given decls s')
  callee_inst-Does none e s d = (none, s, refl, d)
  callee_inst-Does (some x) e s d = (_, s, refl, d)

  abbrev pub IsInjective : (ℕ → Text) → Type 0
  IsInjective f = (m n : ℕ) → f m ≡ f n → m ≡ n

  next-other : (c : ℕ) → next_count given c ≢ c
  next-other c e = omega (arith, e)

  -- The name that is made next is another.
  id_of-next :
      (c : ℕ)
      → IsInjective given.decimal
      → text_eq (id_of given (next_count given c)) (id_of given c) ≡ false
  unfolding text_eq
  id_of-next c inj =
      elim (Bool-cases (text_eq (given.decimal (next_count given c)) (given.decimal c))) [
        | inl e ↦ absurd (next-other c (inj _ _ ((text_eq_iff _ _).0 e)))
        | inr e ↦ e
      ]

  pub begin_match-Does :
      (scope : List Text) (e : Expr) (name : Text) (matched : Emitted) (s : Emitter)
      → IsInjective given.decimal
      → may_bind given decls name ≡ true
      → is_option given decls (given.inferred (result_node e)) ≡ true
      → Emits given decls scope e matched s
      → Does (begin_match given name matched) s (λ cond s'. Declares given decls s')
  unfolding begin_match text_eq
  begin_match-Does scope e name matched s inj may opt ok =
      let c = next_count given s.count in
      let id = id_of given c in
      let (elem, he) = is_some-cases (option_elem (some (given.inferred (result_node e)))) opt in
      let s1 : Emitter = declare id (some Types.bool) (record s { count = c }) in
      let apart : text_eq id matched.ident ≡ false =
        ap (text_eq id) ok.named ∙ id_of-next s.count inj in
      let found : option_elem (s1.decl_table matched.ident) ≡ some elem =
        ap option_elem (put_other id matched.ident (some Types.bool) s.decl_table apart ∙ ok.typed)
        ∙ he in
      (
        id,
        declare name (some elem) s1,
        rw found refl,
        declare-user-Declares given decls name (some elem) s1 may (
            declare-own-Declares given decls id (some Types.bool) (record s { count = c })
              (id_of-is_user given decls c) ok.declares),
      )

  -- What a binding of a tuple finds.
  pub fits_tuple-cases :
      (xs : List Symbol) (o : Option Ty)
      → fits_tuple xs (then_elems o) ≡ true
      → (x : Symbol) × (t : Ty) × (ts : Tys) × (first_symbol given xs ≡ some x)
        × (o ≡ some t)
        × (tuple_elems t ≡ some ts)
        × (fits xs ts ≡ true)
  unfolding first_symbol
  fits_tuple-cases (x ∷ xs) (some (Types.tuple ts)) e = (x, Types.tuple ts, ts, refl, refl, refl, e)
  fits_tuple-cases _ _ e = absurd (cc)

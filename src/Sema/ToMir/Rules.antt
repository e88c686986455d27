-- ===== src/Sema/ToMir/Rules.antt =====
-- sema/to_mir.go: what the parts of the construction give, as rules.
use gocaml.Base.{
  put_same, both_true, ◌≡◌, refl, sym, ap, subst, Option-cases, ◌∙◌, inl, inr, ℕ, Bool, true, false,
  Bool-cases, Option, none, some, List, Text, text_eq, text_eq_iff,
}
use gocaml.Types.{Ty}
use gocaml.Ast.{Expr}
use gocaml.Ast.Position
use gocaml.Mir.Val.{Val, Insns, nil}
use gocaml.Mir.Formed.{is_fun, formed_val, formed}
use gocaml.Sema.Alpha.{has_prefix}
use gocaml.Sema.ToMir.{
  Emitter, Emitted, Inputs, M, ◌>>=◌, chain, declare, id_of, next_count, insn, or_panic, declared,
  reverse_onto, block_of,
}
use gocaml.Sema.ToMir.Chains.{scope_of, formed_chain, reverse_onto-formed}
use gocaml.Sema.ToMir.Ready.{result_node, is_user, is_some, is_typed, may_bind}

-- A run succeeds, with what is said of its result.
abbrev pub Does : {A : Type 0} → M A → Emitter → (A → Emitter → Type 0) → Type 0
Does {A = A} m s q = (a : A) × (s' : Emitter) × (m s ≡ some (a, s')) × q a s'

pub bind-Does :
    {A B : Type 0} (m : M A) (f : A → M B) (s : Emitter) (q : A → Emitter → Type 0)
    (r : B → Emitter → Type 0)
    → Does m s q
    → ((a : A) (s' : Emitter) → q a s' → Does (f a) s' r)
    → Does (m >>= f) s r
bind-Does m f s q r (a, s1, e, qa) k =
    let (b, s2, e', rb) = k a s1 qa in (b, s2, rw (◌>>=◌, e) e', rb)

pub is_some-cases : {A : Type 0} (o : Option A) → is_some o ≡ true → (a : A) × (o ≡ some a)
is_some-cases none e = absurd (cc)
is_some-cases (some a) e = (a, refl)

pub or_panic-Does :
    {A B : Type 0} (o : Option A) (a : A) (f : A → M B) (s : Emitter) (r : B → Emitter → Type 0)
    → o ≡ some a
    → Does (f a) s r
    → Does (or_panic o >>= f) s r
or_panic-Does o a f s r e d = subst (λ k. Does (or_panic k >>= f) s r) (sym e) d

module _ (given : Inputs) (decls : Text → Bool) where
  -- The names of the program that are declared stay the same.
  abbrev pub Declares : Emitter → Type 0
  Declares s = (x : Text) → is_user x ≡ true → declared given x s ≡ decls x

  pub id_of-is_user : (c : ℕ) → is_user (id_of given c) ≡ false
  unfolding is_user has_prefix
  id_of-is_user c = refl

  pub declare-own-Declares :
      (n : Text) (t : Option Ty) (s : Emitter)
      → is_user n ≡ false
      → Declares s
      → Declares (declare n t s)
  declare-own-Declares n t s own d x u = elim (Bool-cases (text_eq n x)) [
    | inl e ↦ absurd (let same = (text_eq_iff n x).0 e in cc)
    | inr e ↦ rw (declared, e) (d x u)
  ]

  pub declare-user-Declares :
      (n : Text) (t : Option Ty) (s : Emitter)
      → may_bind given decls n ≡ true
      → Declares s
      → Declares (declare n t s)
  declare-user-Declares n t s b d x u = elim (Bool-cases (text_eq n x)) [
    | inl e ↦
        let same = (text_eq_iff n x).0 e in
        rw (declared, e) (sym (ap decls (sym same) ∙ (both_true (is_user n) (decls n) b).1))
    | inr e ↦ rw (declared, e) (d x u)
  ]

  -- The type of a name that is declared.
  pub find-Does :
      (n : Text) (s : Emitter)
      → may_bind given decls n ≡ true
      → Declares s
      → Does (λ s'. or_panic (s'.decl_table n) s') s (λ t s'. Declares s')
  find-Does n s b d =
      let (u, h) = both_true (is_user n) (decls n) b in
      let seen : declared given n s ≡ true = d n u ∙ h in
      elim (Option-cases (s.decl_table n)) [
        | inl e ↦ absurd (let unseen : false ≡ true = rw (declared, e) at seen in cc)
        | inr (t, e) ↦ (t, s, rw e refl, d)
      ]

  -- What emitting an expression gives.
  pub record Emits (scope : List Text) (e : Expr) (r : Emitted) (s' : Emitter) : Type 0 where
    pub last : (n : Text) → formed_val (scope_of r.rest scope) n r.val ≡ true
    pub plain : is_fun r.val ≡ false
    pub older : formed_chain scope r.rest ≡ true
    pub named : r.ident ≡ id_of given s'.count
    pub typed : s'.decl_table r.ident ≡ some (given.inferred (result_node e))
    pub declares : Declares s'

  -- `insn`
  pub insn-Does :
      (scope : List Text) (val : Val) (prev : Insns) (node : Expr) (s : Emitter)
      → result_node node ≡ node
      → is_typed given decls node ≡ true
      → ((n : Text) → formed_val (scope_of prev scope) n val ≡ true)
      → is_fun val ≡ false
      → formed_chain scope prev ≡ true
      → Declares s
      → Does (insn given val prev node) s (Emits scope node)
  unfolding insn
  insn-Does scope val prev node s self typed last plain older d =
      let (et, ep) =
        both_true (is_some (given.inferred node)) (is_some (Position.pos node)) typed in
      let (t, ht) = is_some-cases (given.inferred node) et in
      let (at, hp) = is_some-cases (Position.pos node) ep in
      let c = next_count given s.count in
      let id = id_of given c in
      let s' : Emitter = declare id (some t) (record s { count = c }) in
      (
        record { ident = id; val = val; rest = prev },
        s',
        rw (ht, hp) refl,
        record {
          last = last;
          plain = plain;
          older = older;
          named = refl;
          typed = put_same id (some t) s.decl_table ∙ ap some (sym (ap given.inferred self ∙ ht));
          declares = declare-own-Declares id (some t) (record s { count = c }) (id_of-is_user c) d;
        },
      )

  -- `emitBlock`
  abbrev pub EmitsBlock : List Text → Insns → Emitter → Type 0
  EmitsBlock scope blk s' = (formed scope blk ≡ true) × Declares s'

  pub block_of-Does :
      (m : M Emitted) (scope : List Text) (e : Expr) (s : Emitter)
      → Does m s (Emits scope e)
      → Does (block_of given m) s (EmitsBlock scope)
  unfolding block_of reverse_onto formed
  block_of-Does m scope e s (r, s', em, em-Emits) = (
    reverse_onto (chain r) nil,
    s',
    rw (◌>>=◌, em) refl,
    (block_formed r em-Emits, em-Emits.declares),
  )
    where
      block_formed :
          (r : Emitted) → Emits scope e r s' → formed scope (reverse_onto (chain r) nil) ≡ true
      block_formed r ok =
          reverse_onto-formed r.rest scope r.ident r.val nil ok.older
            (rw (ok.last r.ident, ok.plain) refl)

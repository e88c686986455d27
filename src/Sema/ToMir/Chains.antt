-- ===== src/Sema/ToMir/Chains.antt =====
-- sema/to_mir.go: chains of instructions from the newest to the oldest.
use gocaml.Base.{
  both_true, ◌≡◌, refl, ap, Bool, true, ◌&&◌, Bool-cases, inl, inr, List, ◌∷◌, Text, text_eq,
  text_eq_refl,
}
use gocaml.Mir.Val.{Insns, nil, cons}
use gocaml.Mir.Formed.{formed_val, formed, Sub, Sub-cons, formed_val_mono}
use gocaml.Sema.Alpha.{text_in}
use gocaml.Sema.ToMir.{append, reverse_onto}

-- What is in scope behind a chain.
unfoldable pub scope_of : Insns → List Text → List Text
scope_of nil scope = scope
scope_of (cons n v older) scope = n ∷ scope_of older scope

-- `formed`, of a chain without the end of its block.
unfoldable pub formed_chain : List Text → Insns → Bool
unfolding scope_of
formed_chain scope nil = true
formed_chain scope (cons n v older) =
    formed_val (scope_of older scope) n v && formed_chain scope older

pub text_in-head : (n : Text) (scope : List Text) → text_in n (n ∷ scope) ≡ true
unfolding text_in
text_in-head n scope = rw (text_eq_refl n) refl

pub text_in-cons :
    (x n : Text) (scope : List Text) → text_in x scope ≡ true → text_in x (n ∷ scope) ≡ true
unfolding text_in
text_in-cons x n scope e = elim (Bool-cases (text_eq n x)) [ inl h ↦ rw h refl | inr h ↦ rw h e ]

pub Sub-scope_of : (c : Insns) (scope : List Text) → Sub scope (scope_of c scope)
unfolding scope_of
Sub-scope_of nil scope x e = e
Sub-scope_of (cons n v older) scope x e =
    text_in-cons x n (scope_of older scope) (Sub-scope_of older scope x e)

pub scope_of-Sub :
    (c : Insns) (scope wider : List Text)
    → Sub scope wider
    → Sub (scope_of c scope) (scope_of c wider)
unfolding scope_of
scope_of-Sub nil scope wider sub = sub
scope_of-Sub (cons n v older) scope wider sub =
    Sub-cons n (scope_of older scope) (scope_of older wider) (scope_of-Sub older scope wider sub)

pub formed_chain_mono :
    (c : Insns) (scope wider : List Text)
    → Sub scope wider
    → formed_chain scope c ≡ true
    → formed_chain wider c ≡ true
unfolding formed_chain
formed_chain_mono nil scope wider sub e = refl
formed_chain_mono (cons n v older) scope wider sub e =
    let (ev, eo) = both_true (formed_val (scope_of older scope) n v) (formed_chain scope older) e in
    rw
      (
        formed_val_mono (scope_of older scope) (scope_of older wider) n v
            (scope_of-Sub older scope wider sub) ev,
        formed_chain_mono older scope wider sub eo,
      )
      refl

pub scope_of-append :
    (c older : Insns) (scope : List Text)
    → scope_of (append c older) scope ≡ scope_of c (scope_of older scope)
unfolding scope_of append
scope_of-append nil older scope = refl
scope_of-append (cons n v c) older scope = ap (λ s. n ∷ s) (scope_of-append c older scope)

pub formed_chain-append :
    (c older : Insns) (scope : List Text)
    → formed_chain (scope_of older scope) c ≡ true
    → formed_chain scope older ≡ true
    → formed_chain scope (append c older) ≡ true
unfolding formed_chain append
formed_chain-append nil older scope e eo = eo
formed_chain-append (cons n v c) older scope e eo =
    let (ev, ec) =
      both_true (formed_val (scope_of c (scope_of older scope)) n v)
        (formed_chain (scope_of older scope) c) e in
    rw (scope_of-append c older scope, ev, formed_chain-append c older scope ec eo) refl

-- The order of the block is the reverse of the chain's.
pub reverse_onto-formed :
    (c : Insns) (scope : List Text) (n : Text) (v : _) (rest : Insns)
    → formed_chain scope c ≡ true
    → formed (scope_of c scope) (cons n v rest) ≡ true
    → formed scope (reverse_onto c (cons n v rest)) ≡ true
unfolding formed_chain formed reverse_onto scope_of
reverse_onto-formed nil scope n v rest e done = done
reverse_onto-formed (cons m w older) scope n v rest e done =
    let (ew, eo) = both_true (formed_val (scope_of older scope) m w) (formed_chain scope older) e in
    reverse_onto-formed older scope m w (cons n v rest) eo (rw (ew, done) refl)

-- ===== src/Sema/Alpha/Stack.antt =====
-- sema/alpha_transform.go: what is in scope, as a stack of bindings, and references into it.
use gocaml.Base.{
  ℕ, suc, ◌≤◌, ◌<◌, ◌≡◌, inl, inr, refl, sym, ap, ◌∙◌, false, Bool-cases, none, some, List, [], ◌∷◌,
  ◌++◌, map, Text, text_eq, text_eq_iff, text_eq_refl, arith, if◌then◌else◌,
}
use gocaml.Ast.{Symbol}
use gocaml.Sema.Scope.{Scope, Frame, find_var, or_else, resolve}
use gocaml.Sema.Alpha.{var_name}
use gocaml.Sema.Alpha.Names.{IsIdent, var_name-ne-ident, var_name-decimal}

-- A reference: to the binding that is so many bindings out, or to no binding.
pub data Ref : Type 0 where
  bound : ℕ → Ref
  free : Text → Ref

abbrev pub outwards : Ref → Ref
outwards (bound i) = bound (suc i)
outwards (free s) = free s

unfoldable pub ref_of : Text → List Text → Ref
unfolding text_eq
ref_of s [] = free s
ref_of s (k ∷ ks) = let rest = outwards (ref_of s ks) in if text_eq k s then bound 0 else rest

-- The bindings in scope, innermost first.
unfoldable pub flat : Scope → Frame
flat [] = []
flat (vars ∷ parent) = vars ++ flat parent

abbrev pub displays : Frame → List Text
displays = map (λ b. b.0)

abbrev pub names : Frame → List Text
names = map (λ b. b.1.name)

find_var-append :
    (s : Text) (xs ys : Frame) → find_var s (xs ++ ys) ≡ or_else (find_var s xs) (find_var s ys)
unfolding find_var
find_var-append s [] ys = refl
find_var-append s ((k, x) ∷ xs) ys = elim (Bool-cases (text_eq k s)) [
  | inl hit ↦ rw hit refl
  | inr miss ↦ rw miss (find_var-append s xs ys)
]

pub resolve-flat : (s : Text) (c : Scope) → resolve s c ≡ find_var s (flat c)
unfolding resolve flat
resolve-flat s [] = refl
resolve-flat s (vars ∷ parent) =
    ap (or_else (find_var s vars)) (resolve-flat s parent)
    ∙ sym (find_var-append s vars (flat parent))

module _ (decimal : ℕ → Text) (decimal_inj : (i j : ℕ) → decimal i ≡ decimal j → i ≡ j) where
  -- Each binding has the name that its ID gives, and IDs fall from the innermost outwards.
  unfoldable pub Stacked : ℕ → Frame → Type 0
  Stacked n [] = Unit
  Stacked n ((k, x) ∷ bs) =
      (i : ℕ) × (i < n) × IsIdent k × (x.name ≡ var_name decimal k i) × Stacked i bs

  pub Stacked-le : (n m : ℕ) (bs : Frame) → n ≤ m → Stacked n bs → Stacked m bs
  unfolding Stacked
  Stacked-le n m [] le h = tt
  Stacked-le n m ((k, x) ∷ bs) le (i, lt, ident, named, rest) =
      (i, omega (arith, lt, le), ident, named, rest)

  -- What is found stands in the stack, under an ID of its own.
  Stacked-find :
      (s : Text) (n : ℕ) (bs : Frame) (x : Symbol)
      → Stacked n bs
      → find_var s bs ≡ some x
      → (j : ℕ) × (j < n) × (IsIdent s × (x.name ≡ var_name decimal s j))
  unfolding Stacked find_var
  Stacked-find s n [] x h e = absurd (cc)
  Stacked-find s n ((k, y) ∷ bs) x (i, lt, ident, named, rest) e = elim (Bool-cases (text_eq k s)) [
    | inl hit ↦
        let same : k ≡ s = (text_eq_iff k s).0 hit in
        let found : y ≡ x = cc (rw hit at e) in (i, lt, rw (← same) (ident, rw (← found) named))
    | inr miss ↦
        let (j, lt', r) = Stacked-find s i bs x rest (rw miss at e) in
        (j, omega (arith, lt, lt'), r)
  ]

  -- A name that is found refers to the binding that its display name refers to.
  pub ref_of-found :
      (s : Text) (n : ℕ) (bs : Frame) (x : Symbol)
      → Stacked n bs
      → find_var s bs ≡ some x
      → ref_of s (displays bs) ≡ ref_of x.name (names bs)
  unfolding Stacked find_var ref_of
  ref_of-found s n [] x h e = absurd (cc)
  ref_of-found s n ((k, y) ∷ bs) x (i, lt, ident, named, rest) e = elim (Bool-cases (text_eq k s)) [
    | inl hit ↦ let found : y ≡ x = cc (rw hit at e) in rw (hit, found, text_eq_refl x.name) refl
    | inr miss ↦
        let e' = rw miss at e in
        let (j, lt', (ident', named')) = Stacked-find s i bs x rest e' in
        let other : text_eq y.name x.name ≡ false = elim (Bool-cases (text_eq y.name x.name)) [
          | inl same ↦ absurd (
              omega (
                arith,
                lt',
                decimal_inj i j (
                    var_name-decimal decimal k s i j ident ident'
                      (sym named ∙ (text_eq_iff y.name x.name).0 same ∙ named')),
              ))
          | inr ne ↦ ne
        ] in
        rw (miss, other) (ap outwards (ref_of-found s i bs x rest e'))
  ]

  -- An identifier that is not found refers to no binding, and to no name either.
  pub ref_of-free :
      (s : Text) (n : ℕ) (bs : Frame)
      → IsIdent s
      → Stacked n bs
      → find_var s bs ≡ none
      → ref_of s (displays bs) ≡ ref_of s (names bs)
  unfolding Stacked find_var ref_of
  ref_of-free s n [] h st e = refl
  ref_of-free s n ((k, y) ∷ bs) h (i, lt, ident, named, rest) e = elim (Bool-cases (text_eq k s)) [
    | inl hit ↦ absurd (cc (rw hit at e))
    | inr miss ↦
        let other : text_eq y.name s ≡ false = elim (Bool-cases (text_eq y.name s)) [
          | inl same ↦
              absurd
                (var_name-ne-ident decimal k s i h (sym ((text_eq_iff y.name s).0 same) ∙ named))
          | inr ne ↦ ne
        ] in
        rw (miss, other) (ap outwards (ref_of-free s i bs h rest (rw miss at e)))
  ]

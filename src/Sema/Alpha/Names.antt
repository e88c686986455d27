-- ===== src/Sema/Alpha/Names.antt =====
-- sema/alpha_transform.go: the names that `newVarID` makes.
use gocaml.Base.{ℕ, ◌≡◌, ◌≢◌, refl, Bool, false, [], ◌∷◌, Text, codes, arith}
use gocaml.Sema.Alpha.{has_prefix, var_name}

-- A text without `$`, as every identifier of a source is.
abbrev pub IsIdent : Text → Type 0
IsIdent [] = Unit
IsIdent (c ∷ cs) = (c ≢ b'$') × IsIdent cs

abbrev pub ignored_text : Text → Bool
ignored_text s = has_prefix s (codes "$unused")

module _ (decimal : ℕ → Text) where
  pub var_name-ne-ident : (d s : Text) (i : ℕ) → IsIdent s → s ≢ var_name decimal d i
  var_name-ne-ident [] [] i h e = cc
  var_name-ne-ident [] (c ∷ cs) i h e = h.0 (cc)
  var_name-ne-ident (a ∷ d) [] i h e = cc
  var_name-ne-ident (a ∷ d) (c ∷ cs) i h e = var_name-ne-ident d cs i h.1 (cc)

  pub var_name-plain : (d : Text) (i : ℕ) → IsIdent d → ignored_text (var_name decimal d i) ≡ false
  unfolding has_prefix
  var_name-plain [] i h = refl
  var_name-plain (c ∷ d) i h = ground arith

  pub var_name-decimal :
      (d s : Text) (i j : ℕ)
      → IsIdent d
      → IsIdent s
      → var_name decimal d i ≡ var_name decimal s j
      → decimal i ≡ decimal j
  var_name-decimal [] [] i j h g e = cc
  var_name-decimal [] (c ∷ s) i j h g e = absurd (g.0 (cc))
  var_name-decimal (c ∷ d) [] i j h g e = absurd (h.0 (cc))
  var_name-decimal (c ∷ d) (b ∷ s) i j h g e = var_name-decimal d s i j h.1 g.1 (cc)

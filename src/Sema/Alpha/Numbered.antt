-- ===== src/Sema/Alpha/Numbered.antt =====
-- sema/alpha_transform.go: new names take IDs in ascending order, so no two are the same.
use gocaml.Base.{
  ℕ, ◌+◌, ◌^◌, ◌≤◌, ◌<◌, ◌≡◌, ◌≢◌, ◌⊎◌, inl, inr, ◌∙◌, true, none, List, [], ◌∷◌, ◌++◌, Text,
  length, length-append, arith,
}
use gocaml.Sema.Alpha.{Transformer, var_name}
use gocaml.Sema.Alpha.Names.{IsIdent, ignored_text, var_name-decimal}

module _ (decimal : ℕ → Text) where
  -- The names that are not ignored have ascending IDs above `lo`, up to `hi`.
  unfoldable pub Numbered : ℕ → ℕ → List Text → Type 0
  Numbered lo hi [] = lo ≤ hi
  Numbered lo hi (n ∷ ns) =
      ((ignored_text n ≡ true) × Numbered lo hi ns)
      ⊎ ((i : ℕ) × (d : Text) × (lo < i)
          × (n ≡ var_name decimal d i)
          × IsIdent d
          × Numbered i hi ns)

  pub Numbered-le : (lo hi : ℕ) (ns : List Text) → Numbered lo hi ns → lo ≤ hi
  unfolding Numbered
  Numbered-le lo hi [] h = h
  Numbered-le lo hi (n ∷ ns) (inl (_, h)) = Numbered-le lo hi ns h
  Numbered-le lo hi (n ∷ ns) (inr (i, d, lt, e, ident, h)) =
      omega (arith, lt, Numbered-le i hi ns h)

  pub Numbered-from : (lo m hi : ℕ) (ns : List Text) → lo ≤ m → Numbered m hi ns → Numbered lo hi ns
  unfolding Numbered
  Numbered-from lo m hi [] le h = omega (arith, le, h)
  Numbered-from lo m hi (n ∷ ns) le (inl (e, h)) = inl (e, Numbered-from lo m hi ns le h)
  Numbered-from lo m hi (n ∷ ns) le (inr (i, d, lt, e, ident, h)) =
      inr (i, d, omega (arith, le, lt), e, ident, h)

  pub Numbered-append :
      (lo m hi : ℕ) (xs ys : List Text)
      → Numbered lo m xs
      → Numbered m hi ys
      → Numbered lo hi (xs ++ ys)
  unfolding Numbered
  Numbered-append lo m hi [] ys h k = Numbered-from lo m hi ys h k
  Numbered-append lo m hi (n ∷ ns) ys (inl (e, h)) k = inl (e, Numbered-append lo m hi ns ys h k)
  Numbered-append lo m hi (n ∷ ns) ys (inr (i, d, lt, e, ident, h)) k =
      inr (i, d, lt, e, ident, Numbered-append i m hi ns ys h k)

  -- What a part of the transformation does to the counter and the error, where `old` are the names
  -- that it finds bound, and `new` those that it leaves.
  pub record Counts (t t' : Transformer) (old new : List Text) : Type 0 where
    pub grows : t'.err ≡ none → Numbered t.var_id t'.var_id new
    pub mono : t.var_id ≤ t'.var_id
    pub bounded : t'.var_id ≤ t.var_id + length old
    pub calm : t'.err ≡ none → t.err ≡ none

  pub Counts-none : (t : Transformer) → Counts t t [] []
  unfolding Numbered
  Counts-none t = record {
    grows = λ e. omega arith;
    mono = omega arith;
    bounded = omega arith;
    calm = λ e. e;
  }

  pub Counts-append :
      {t t1 t2 : Transformer} {a a' b b' : List Text}
      → Counts t t1 a a'
      → Counts t1 t2 b b'
      → Counts t t2 (a ++ b) (a' ++ b')
  Counts-append {t = t} {t1 = t1} {t2 = t2} {a = a} {a' = a'} {b = b} {b' = b'} h k = record {
    grows =
        λ e. Numbered-append t.var_id t1.var_id t2.var_id a' b' (h.grows (k.calm e)) (k.grows e);
    mono = omega (arith, h.mono, k.mono);
    bounded = omega (arith, h.bounded, k.bounded, length-append a b);
    calm = λ e. h.calm (k.calm e);
  }

  -- The counter does not overflow on these names.
  abbrev pub Fits : Transformer → List Text → Type 0
  Fits t ns = t.var_id + length ns < 2 ^ 64

  pub Fits-first : (t : Transformer) (a b : List Text) → Fits t (a ++ b) → Fits t a
  Fits-first t a b h = omega (arith, h, length-append a b)

  pub Fits-next :
      {t t1 : Transformer} {a a' : List Text} (b : List Text)
      → Counts t t1 a a'
      → Fits t (a ++ b)
      → Fits t1 b
  Fits-next {a = a} b c h = omega (arith, h, c.bounded, length-append a b)

module _ (decimal : ℕ → Text) (decimal_inj : (i j : ℕ) → decimal i ≡ decimal j → i ≡ j) where
  -- `n` is no name of the list, or it is ignored.
  abbrev pub Unshared : Text → List Text → Type 0
  Unshared n [] = Unit
  Unshared n (m ∷ ms) = ((n ≢ m) ⊎ (ignored_text m ≡ true)) × Unshared n ms

  -- No name occurs twice, but for those that are ignored.
  abbrev pub Distinct : List Text → Type 0
  Distinct [] = Unit
  Distinct (n ∷ ns) = ((ignored_text n ≡ true) ⊎ Unshared n ns) × Distinct ns

  Numbered-Unshared :
      (d : Text) (i lo hi : ℕ) (ns : List Text)
      → IsIdent d
      → i ≤ lo
      → Numbered decimal lo hi ns
      → Unshared (var_name decimal d i) ns
  unfolding Numbered
  Numbered-Unshared d i lo hi [] h le k = tt
  Numbered-Unshared d i lo hi (n ∷ ns) h le (inl (e, k)) =
      (inr e, Numbered-Unshared d i lo hi ns h le k)
  Numbered-Unshared d i lo hi (n ∷ ns) h le (inr (j, d', lt, e, ident, k)) = (
    inl (λ same.
        omega
          (arith, le, lt, decimal_inj i j (var_name-decimal decimal d d' i j h ident (same ∙ e)))),
    Numbered-Unshared d i j hi ns h (omega (arith, le, lt)) k,
  )

  pub Numbered-Distinct : (lo hi : ℕ) (ns : List Text) → Numbered decimal lo hi ns → Distinct ns
  unfolding Numbered
  Numbered-Distinct lo hi [] k = tt
  Numbered-Distinct lo hi (n ∷ ns) (inl (e, k)) = (inl e, Numbered-Distinct lo hi ns k)
  Numbered-Distinct lo hi (n ∷ ns) (inr (i, d, lt, e, ident, k)) = (
    inr (rw e (Numbered-Unshared d i i hi ns ident (omega arith) k)),
    Numbered-Distinct i hi ns k,
  )

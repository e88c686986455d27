-- ===== src/Mir/Block/Reverse.antt =====
-- mir/block.go: reversing a list of instructions in place.
use gocaml.Base.{
  ℕ, zero, suc, ◌≤◌, ◌≡◌, refl, ◌∙◌, ap, Option, none, some, List, [], ◌∷◌, arith, length, ◌==◌,
  false,
}
use gocaml.Mir.Block.{Heap, swap, reverse_from, reverse}
use gocaml.Mir.Block.Chain.{Without}

abbrev pub head : List ℕ → Option ℕ
head [] = none
head (x ∷ xs) = some x

-- The list backwards, in front of another.
abbrev pub rev_onto : List ℕ → List ℕ → List ℕ
rev_onto [] done = done
rev_onto (x ∷ xs) done = rev_onto xs (x ∷ done)

-- Each address of the list differs from those after it, those before it and those of `done`.
abbrev pub DistinctFrom : List ℕ → List ℕ → Type 0
DistinctFrom done [] = Unit
DistinctFrom done (x ∷ xs) = Without x done × Without x xs × DistinctFrom (x ∷ done) xs

module _ {V : Type 0} where
  -- The instructions follow one another both ways, the first behind `o`, and the last ends the list.
  abbrev pub Linked : Heap V → Option ℕ → List ℕ → Type 0
  Linked h o [] = Unit
  Linked h o (x ∷ xs) = ((h x).prev ≡ o) × ((h x).next ≡ head xs) × Linked h (some x) xs

  Linked-swap :
      (x : ℕ) (h : Heap V) (o : Option ℕ) (xs : List ℕ)
      → Without x xs
      → Linked h o xs
      → Linked (swap x h) o xs
  Linked-swap x h o [] w l = tt
  Linked-swap x h o (y ∷ ys) (ne, w) (e, f, l) =
      let other : (y == x) ≡ false = ground arith in
      (rw other e, rw other f, Linked-swap x h (some y) ys w l)

  swap-prev : (x : ℕ) (h : Heap V) → (swap x h x).prev ≡ (h x).next
  swap-prev x h = ground arith

  swap-next : (x : ℕ) (h : Heap V) → (swap x h x).next ≡ (h x).prev
  swap-next x h = ground arith

  Reversed : List ℕ → List ℕ → Option (ℕ × Heap V) → Type 0
  Reversed xs done o =
      (i : ℕ) × (h' : Heap V) × (o ≡ some (i, h'))
      × (some i ≡ head (rev_onto xs done))
      × Linked h' none (rev_onto xs done)

  reverse-Reversed :
      (x : ℕ) (xs done : List ℕ) (f : ℕ) (h : Heap V)
      → length (x ∷ xs) ≤ f
      → Linked h (head done) (x ∷ xs)
      → Linked h (some x) done
      → DistinctFrom done (x ∷ xs)
      → Reversed (x ∷ xs) done (reverse f x h)
  unfolding reverse reverse_from Reversed
  reverse-Reversed x xs done zero h le l d ap' = absurd (omega (arith, le))
  reverse-Reversed x [] done (suc f) h le (e, n, l) d (w, v, u) = (
    x,
    swap x h,
    rw (swap-prev x h ∙ n) refl,
    refl,
    (swap-prev x h ∙ n, swap-next x h ∙ e, Linked-swap x h (some x) done w d),
  )
  reverse-Reversed x (y ∷ ys) done (suc f) h le (e, n, l) d (w, v, u) =
      let (i, h', is, first, linked) =
        reverse-Reversed y ys (x ∷ done) f (swap x h) (omega (arith, le))
          (Linked-swap x h (some x) (y ∷ ys) v l)
          (swap-prev x h ∙ n, swap-next x h ∙ e, Linked-swap x h (some x) done w d) u in
      (
        i,
        h',
        ap (λ o. reverse_from (reverse f) x o (swap x h)) (swap-prev x h ∙ n) ∙ is,
        first,
        linked,
      )

  -- Reversing a list of instructions, none of which occurs twice, from its first one ends, with any
  -- fuel from its length on; it returns the first instruction of the reversed list, and in the new
  -- heap the instructions follow one another in that order, both ways, and end there.
  pub reverse-Linked :
      (x : ℕ) (xs : List ℕ) (f : ℕ) (h : Heap V)
      → length (x ∷ xs) ≤ f
      → Linked h none (x ∷ xs)
      → DistinctFrom [] (x ∷ xs)
      → (i : ℕ) × (h' : Heap V) × (reverse f x h ≡ some (i, h'))
        × (some i ≡ head (rev_onto (x ∷ xs) []))
        × Linked h' none (rev_onto (x ∷ xs) [])
  unfolding Reversed
  reverse-Linked x xs f h le l d = reverse-Reversed x xs [] f h le l tt d

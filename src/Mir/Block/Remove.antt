-- ===== src/Mir/Block/Remove.antt =====
-- mir/block.go: removing an instruction.
use gocaml.Base.{ℕ, ◌≡◌, ◌≢◌, refl, sym, some, List, ◌∷◌, ◌++◌, arith, ◌==◌, false}
use gocaml.Mir.Block.{Heap, set_next, set_prev, remove_from_list}
use gocaml.Mir.Block.Chain.{
  Each-map, Without, Chain, SameNext, SamePrev, Chain-behind, Chain-before, Chain-tail,
}

module _ {V : Type 0} where
  -- `a` and `b` are linked, and nothing else changes.
  joined : ℕ → ℕ → Heap V → Heap V
  joined a b h = set_next a (some b) (set_prev b (some a) h)

  joined-next : (a b : ℕ) (h : Heap V) (x : ℕ) → x ≢ a → SameNext h (joined a b h) x
  unfolding joined
  joined-next a b h x ne = ground arith

  joined-prev : (a b : ℕ) (h : Heap V) (y : ℕ) → y ≢ b → SamePrev h (joined a b h) y
  unfolding joined
  joined-prev a b h y ne = ground arith

  joined-at :
      (a b : ℕ) (h : Heap V) → ((joined a b h a).next ≡ some b) × ((joined a b h b).prev ≡ some a)
  unfolding joined
  joined-at a b h = (ground arith, ground arith)

  remove-joined :
      (a i b : ℕ) (h : Heap V)
      → (h i).next ≡ some b
      → (h i).prev ≡ some a
      → i ≢ b
      → remove_from_list i h ≡ some (joined a b h)
  unfolding remove_from_list joined
  remove-joined a i b h n p ne =
      let other : (i == b) ≡ false = ground arith in rw (n, p, other) refl

  -- Linking two instructions of which none stands elsewhere in the list.
  joined-Chain :
      (xs : List ℕ) (a b : ℕ) (old ys : List ℕ) (h : Heap V)
      → Chain h (xs ++ a ∷ old)
      → Chain h (b ∷ ys)
      → Without a xs
      → Without b xs
      → a ≢ b
      → Without a ys
      → Without b ys
      → Chain (joined a b h) (xs ++ a ∷ b ∷ ys)
  joined-Chain xs a b old ys h c d axs bxs ne ays bys =
      Chain-before h (joined a b h) xs a old (b ∷ ys) (Each-map _ _ (joined-next a b h) xs axs)
        (Each-map _ _ (joined-prev a b h) xs bxs) (joined-prev a b h a ne)
        (
          (joined-at a b h).0,
          (joined-at a b h).1,
          Chain-behind h (joined a b h) b ys
              (joined-next a b h b (λ e. ne (sym e)), Each-map _ _ (joined-next a b h) ys ays)
              (Each-map _ _ (joined-prev a b h) ys bys) d,
        )
        c

  -- Removing an instruction between two others, of which none occurs elsewhere in the sequence,
  -- succeeds, and leaves the sequence without it.
  pub remove_from_list-Chain :
      (xs : List ℕ) (a i b : ℕ) (ys : List ℕ) (h : Heap V)
      → Chain h (xs ++ a ∷ i ∷ b ∷ ys)
      → Without a xs
      → Without b xs
      → a ≢ b
      → i ≢ b
      → Without a ys
      → Without b ys
      → (h' : Heap V) × (remove_from_list i h ≡ some h') × Chain h' (xs ++ a ∷ b ∷ ys)
  remove_from_list-Chain xs a i b ys h c axs bxs ne ib ays bys =
      let (_, back, (ahead, _, rest)) = Chain-tail h xs a (i ∷ b ∷ ys) c in
      (
        joined a b h,
        remove-joined a i b h ahead back ib,
        joined-Chain xs a b (i ∷ b ∷ ys) ys h c rest axs bxs ne ays bys,
      )

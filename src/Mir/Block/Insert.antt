-- ===== src/Mir/Block/Insert.antt =====
-- mir/block.go: prepending and appending an instruction.
use gocaml.Base.{ℕ, ◌≡◌, ◌≢◌, refl, sym, some, List, [], ◌∷◌, ◌++◌, arith, ◌==◌, false}
use gocaml.Mir.Block.{Block, Heap, set_next, set_prev, prepend, append}
use gocaml.Mir.Block.Chain.{
  Each-map, Apart, Chain, SameNext, SamePrev, Chain-behind, Chain-before, Chain-tail,
}

module _ {V : Type 0} where
  -- `i` has come between `a` and `b`, and nothing else has changed.
  pub record Inserted (a i b : ℕ) (h h' : Heap V) : Type 0 where
    pub from : (h' a).next ≡ some i
    pub back : (h' i).prev ≡ some a
    pub on : (h' i).next ≡ some b
    pub to : (h' b).prev ≡ some i
    pub nexts : (x : ℕ) → (x ≢ a) × (x ≢ i) → SameNext h h' x
    pub prevs : (y : ℕ) → (y ≢ b) × (y ≢ i) → SamePrev h h' y

  Inserted-Chain :
      (xs : List ℕ) (a i b : ℕ) (ys : List ℕ) (h h' : Heap V)
      → Inserted a i b h h'
      → Chain h (xs ++ a ∷ b ∷ ys)
      → Apart a i xs
      → Apart b i xs
      → (a ≢ b) × (a ≢ i)
      → (b ≢ a) × (b ≢ i)
      → Apart a i ys
      → Apart b i ys
      → Chain h' (xs ++ a ∷ i ∷ b ∷ ys)
  Inserted-Chain xs a i b ys h h' w c axs bxs ab ba ays bys =
      let (_, _, rest) = Chain-tail h xs a (b ∷ ys) c in
      Chain-before h h' xs a (b ∷ ys) (i ∷ b ∷ ys) (Each-map _ _ w.nexts xs axs)
        (Each-map _ _ w.prevs xs bxs) (w.prevs a ab)
        (
          w.from,
          w.back,
          (
            w.on,
            w.to,
            Chain-behind h h' b ys (w.nexts b ba, Each-map _ _ w.nexts ys ays)
                (Each-map _ _ w.prevs ys bys) rest,
          ),
        )
        c

  prepend-Inserted :
      (b : Block) (i x : ℕ) (h : Heap V)
      → (h b.top).next ≡ some x
      → i ≢ b.top
      → i ≢ x
      → (h' : Heap V) × (prepend b i h ≡ some h') × Inserted b.top i x h h'
  unfolding prepend
  prepend-Inserted b i x h e it ix =
      let other : (b.top == i) ≡ false = ground arith in
      let h2 : Heap V = set_prev i (some b.top) (set_next i (some x) h) in
      (
        set_next b.top (some i) (set_prev x (some i) h2),
        rw (e, other) refl,
        record {
          from = ground arith;
          back = ground arith;
          on = ground arith;
          to = ground arith;
          nexts = λ y (ne, ne'). ground arith;
          prevs = λ y (ne, ne'). ground arith;
        },
      )

  append-Inserted :
      (b : Block) (i a : ℕ) (h : Heap V)
      → (h b.bottom).prev ≡ some a
      → i ≢ b.bottom
      → i ≢ a
      → (h' : Heap V) × (append b i h ≡ some h') × Inserted a i b.bottom h h'
  unfolding append
  append-Inserted b i a h e ib ia =
      let other : (b.bottom == i) ≡ false = ground arith in
      let h2 : Heap V = set_prev i (some a) (set_next i (some b.bottom) h) in
      (
        set_prev b.bottom (some i) (set_next a (some i) h2),
        rw (other, e) refl,
        record {
          from = ground arith;
          back = ground arith;
          on = ground arith;
          to = ground arith;
          nexts = λ y (ne, ne'). ground arith;
          prevs = λ y (ne, ne'). ground arith;
        },
      )

  -- Prepending an instruction that is not in a block succeeds and puts it first: a block whose
  -- sequence starts with its top and goes on with `x` then has the new instruction between the two,
  -- if none occurs twice.
  pub prepend-Chain :
      (b : Block) (i x : ℕ) (l : List ℕ) (h : Heap V)
      → Chain h (b.top ∷ x ∷ l)
      → i ≢ b.top
      → i ≢ x
      → x ≢ b.top
      → Apart b.top i l
      → Apart x i l
      → (h' : Heap V) × (prepend b i h ≡ some h') × Chain h' (b.top ∷ i ∷ x ∷ l)
  prepend-Chain b i x l h c it ix xt tl xl =
      let (h', e, w) = prepend-Inserted b i x h c.0 it ix in
      (
        h',
        e,
        Inserted-Chain [] b.top i x l h h' w c tt tt ((λ q. xt (sym q)), (λ q. it (sym q)))
            (xt, (λ q. ix (sym q))) tl xl,
      )

  -- Appending an instruction that is not in a block succeeds and puts it last: a block whose
  -- sequence ends with `a` and its bottom then has the new instruction between the two, if none
  -- occurs twice.
  pub append-Chain :
      (b : Block) (i a : ℕ) (xs : List ℕ) (h : Heap V)
      → Chain h (xs ++ a ∷ b.bottom ∷ [])
      → i ≢ b.bottom
      → i ≢ a
      → a ≢ b.bottom
      → Apart a i xs
      → Apart b.bottom i xs
      → (h' : Heap V) × (append b i h ≡ some h') × Chain h' (xs ++ a ∷ i ∷ b.bottom ∷ [])
  append-Chain b i a xs h c ib ia ab ax bx =
      let (h', e, w) = append-Inserted b i a h (Chain-tail h xs a (b.bottom ∷ []) c).1 ib ia in
      (
        h',
        e,
        Inserted-Chain xs a i b.bottom [] h h' w c ax bx (ab, (λ q. ia (sym q)))
            ((λ q. ab (sym q)), (λ q. ib (sym q))) tt tt,
      )

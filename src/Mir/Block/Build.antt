-- ===== src/Mir/Block/Build.antt =====
-- mir/block.go: blocks made of an array of instructions, and sequences put one behind another.
use gocaml.Base.{
  ℕ, zero, suc, ◌≤◌, ◌≡◌, ◌≢◌, refl, sym, ◌∙◌, none, some, List, [], ◌∷◌, ◌++◌, Text, length, arith,
}
use gocaml.Mir.Block.{
  Heap, set_next, set_prev, new_block, link, new_block_from_array, last, insn_append,
}
use gocaml.Mir.Block.Chain.{Each, Each-map, Without, Chain, SameNext, SamePrev, Chain-behind}

-- The last of a list that starts with `x`.
abbrev pub last_of : ℕ → List ℕ → ℕ
last_of x [] = x
last_of x (y ∷ ys) = last_of y ys

pub Each-last_of : (P : ℕ → Type 0) (x : ℕ) (xs : List ℕ) → Each P (x ∷ xs) → P (last_of x xs)
Each-last_of P x [] h = h.0
Each-last_of P x (y ∷ ys) h = Each-last_of P y ys h.1

Each-zip : (P Q : ℕ → Type 0) (xs : List ℕ) → Each P xs → Each Q xs → Each (λ x. P x × Q x) xs
Each-zip P Q [] h k = tt
Each-zip P Q (x ∷ xs) (h, hs) (k, ks) = ((h, k), Each-zip P Q xs hs ks)

Each-all : (P : ℕ → Type 0) → ((x : ℕ) → P x) → (xs : List ℕ) → Each P xs
Each-all P g [] = tt
Each-all P g (x ∷ xs) = (g x, Each-all P g xs)

-- No instruction occurs twice.
abbrev pub Once : List ℕ → Type 0
Once [] = Unit
Once (x ∷ xs) = Without x xs × Once xs

module _ {V : Type 0} where
  -- A chain that is kept up to its last instruction, and goes on behind it.
  Chain-onto :
      (h h' : Heap V) (x : ℕ) (xs : List ℕ) (e : ℕ) (tl : List ℕ)
      → Once (x ∷ xs)
      → Each (λ y. y ≢ last_of x xs → SameNext h h' y) (x ∷ xs)
      → Each (SamePrev h h') xs
      → Chain h (x ∷ xs)
      → (h' (last_of x xs)).next ≡ some e
      → (h' e).prev ≡ some (last_of x xs)
      → Chain h' (e ∷ tl)
      → Chain h' ((x ∷ xs) ++ e ∷ tl)
  Chain-onto h h' x [] e tl o n p c on back rest = (on, back, rest)
  Chain-onto h h' x (y ∷ ys) e tl (ne, o) (nx, n) (py, p) (a, b, c) on back rest = (
    nx (λ q. Each-last_of (λ z. z ≢ x) y ys ne (sym q)) ∙ a,
    py ∙ b,
    Chain-onto h h' y ys e tl o n p c on back rest,
  )

  -- What the loop does: it links the instructions, and leaves all else.
  record Links (b : ℕ) (is : List ℕ) (h h' : Heap V) : Type 0 where
    chain : Chain h' (b ∷ is)
    nexts : (q : ℕ) → Without q (b ∷ is) → SameNext h h' q
    prevs : (q : ℕ) → Without q is → SamePrev h h' q

  link-Links :
      (b : ℕ) (is : List ℕ) (h : Heap V)
      → Once (b ∷ is)
      → ((link b is h).0 ≡ last_of b is) × Links b is h (link b is h).1
  unfolding link
  link-Links b [] h o = (refl, record { chain = tt; nexts = λ q w. refl; prevs = λ q w. refl })
  link-Links b (i ∷ is) h ((ib, bs), o) =
      let h1 : Heap V = set_next b (some i) (set_prev i (some b) h) in
      let (end, l) = link-Links i is h1 o in
      (
        end,
        record {
          chain = (l.nexts b (ib, bs) ∙ ground arith, l.prevs i o.0 ∙ ground arith, l.chain);
          nexts = λ q w. l.nexts q w.1 ∙ ground (arith, w.0);
          prevs = λ q w. l.prevs q w.1 ∙ ground (arith, w.0);
        },
      )

  new_block-Chain :
      (nop : V) (start end top : ℕ) (rest : List ℕ) (name : Text) (h : Heap V)
      → start ≢ end
      → Without start (top ∷ rest)
      → Without end (top ∷ rest)
      → Once (top ∷ rest)
      → Chain h (top ∷ rest)
      → (let h' = (new_block nop start end name top (last_of top rest) h).1 in
          Chain h' (start ∷ top ∷ rest ++ end ∷ [])
          × (((h' start).prev ≡ none) × ((h' end).next ≡ none)))
  unfolding new_block
  new_block-Chain nop start end top rest name h se s e o c =
      let h' = (new_block nop start end name top (last_of top rest) h).1 in
      let sl : last_of top rest ≢ start = Each-last_of (λ z. z ≢ start) top rest s in
      let el : last_of top rest ≢ end = Each-last_of (λ z. z ≢ end) top rest e in
      let nexts : (y : ℕ) → y ≢ start → y ≢ end → y ≢ last_of top rest → SameNext h h' y =
        λ y ys ye yl. ground arith in
      let prevs : (y : ℕ) → y ≢ start → y ≢ end → y ≢ top → SamePrev h h' y =
        λ y ys ye yt. ground arith in
      let apart : Each (λ y. (y ≢ start) × (y ≢ end)) (top ∷ rest) =
        Each-zip _ _ (top ∷ rest) s e in
      (
        (
          ground (arith, s.0),
          ground (arith, e.0),
          Chain-onto h h' top rest end [] o
              (Each-map _ _ (λ y w. nexts y w.0 w.1) (top ∷ rest) apart)
              (Each-map _ _ (λ y w. prevs y w.0.0 w.0.1 w.1) rest (Each-zip _ _ rest apart.1 o.0)) c
              (ground arith) (ground arith) tt,
        ),
        (ground arith, ground arith),
      )

  -- A block made of an array that is not empty, of instructions that are all different, has them in
  -- the array's order between a new top and a new bottom, with nothing before or behind.
  pub new_block_from_array-Chain :
      (nop : V) (start end top : ℕ) (rest : List ℕ) (name : Text) (h : Heap V)
      → start ≢ end
      → Without start (top ∷ rest)
      → Without end (top ∷ rest)
      → Once (top ∷ rest)
      → (h' : Heap V) × (new_block_from_array nop start end name (top ∷ rest) h
          ≡ some (record { top = start; bottom = end; name = name }, h'))
        × Chain h' (start ∷ top ∷ rest ++ end ∷ [])
        × (((h' start).prev ≡ none) × ((h' end).next ≡ none))
  unfolding new_block_from_array new_block
  new_block_from_array-Chain nop start end top rest name h se s e o =
      let (at_end, l) = link-Links top rest h o in
      let (c, ends) =
        new_block-Chain nop start end top rest name (link top rest h).1 se s e o l.chain in
      (
        (new_block nop start end name top (last_of top rest) (link top rest h).1).1,
        rw at_end refl,
        c,
        ends,
      )

  last-last_of :
      (f x : ℕ) (xs : List ℕ) (h : Heap V)
      → length (x ∷ xs) ≤ f
      → Chain h (x ∷ xs)
      → (h (last_of x xs)).next ≡ none
      → last f x h ≡ some (last_of x xs)
  unfolding last
  last-last_of zero x xs h le c e = absurd (omega (arith, le))
  last-last_of (suc f) x [] h le c e = rw e refl
  last-last_of (suc f) x (y ∷ ys) h le (a, b, c) e =
      rw a (last-last_of f y ys h (omega (arith, le)) c e)

  -- Appending a sequence of instructions to another, which ends, puts it behind: if no instruction
  -- occurs twice, the two follow one another both ways. The length of the first is enough fuel.
  pub insn_append-Chain :
      (f x : ℕ) (xs : List ℕ) (y : ℕ) (ys : List ℕ) (h : Heap V)
      → length (x ∷ xs) ≤ f
      → Once (x ∷ xs)
      → Each (λ z. Without z (x ∷ xs)) (y ∷ ys)
      → Without y ys
      → Chain h (x ∷ xs)
      → (h (last_of x xs)).next ≡ none
      → Chain h (y ∷ ys)
      → (h' : Heap V) × (insn_append f x (some y) h ≡ some h') × Chain h' (x ∷ xs ++ y ∷ ys)
  unfolding insn_append
  insn_append-Chain f x xs y ys h le o apart ny c ends d =
      let l = last_of x xs in
      let h' : Heap V = set_prev y (some l) (set_next l (some y) h) in
      let other : (z : ℕ) → Without z (x ∷ xs) → z ≢ l =
        λ z w q. Each-last_of (λ k. k ≢ z) x xs w (sym q) in
      let nexts : (z : ℕ) → z ≢ l → SameNext h h' z = λ z zl. ground arith in
      let prevs : (z : ℕ) → z ≢ y → SamePrev h h' z = λ z zy. ground arith in
      (
        h',
        rw (last-last_of f x xs h le c ends) refl,
        Chain-onto h h' x xs y ys o (Each-all _ nexts (x ∷ xs)) (Each-map _ _ prevs xs apart.0.1) c
            (ground arith) (ground arith)
            (Chain-behind h h' y ys (Each-map _ _ (λ z w. nexts z (other z w)) (y ∷ ys) apart)
              (Each-map _ _ prevs ys ny) d),
      )

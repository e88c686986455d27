-- ===== src/Mir/Block/Chain.antt =====
-- mir/block.go: sequences of instructions that follow one another.
use gocaml.Base.{ℕ, ◌≡◌, ◌≢◌, ◌∙◌, some, List, [], ◌∷◌, ◌++◌}
use gocaml.Mir.Block.{Heap}

abbrev pub Each : (ℕ → Type 0) → List ℕ → Type 0
Each P [] = Unit
Each P (x ∷ xs) = P x × Each P xs

pub Each-map : (P Q : ℕ → Type 0) → ((x : ℕ) → P x → Q x) → (xs : List ℕ) → Each P xs → Each Q xs
Each-map P Q g [] h = tt
Each-map P Q g (x ∷ xs) (h, k) = (g x h, Each-map P Q g xs k)

-- No instruction of the list is `a`.
abbrev pub Without : ℕ → List ℕ → Type 0
Without a = Each (λ x. x ≢ a)

-- No instruction of the list is `a` or `i`.
abbrev pub Apart : ℕ → ℕ → List ℕ → Type 0
Apart a i = Each (λ x. (x ≢ a) × (x ≢ i))

module _ {V : Type 0} where
  -- The instructions of the list follow one another, both ways.
  abbrev pub Chain : Heap V → List ℕ → Type 0
  Chain h [] = Unit
  Chain h (x ∷ []) = Unit
  Chain h (x ∷ y ∷ l) = ((h x).next ≡ some y) × ((h y).prev ≡ some x) × Chain h (y ∷ l)

  abbrev pub SameNext : Heap V → Heap V → ℕ → Type 0
  SameNext h h' x = (h' x).next ≡ (h x).next

  abbrev pub SamePrev : Heap V → Heap V → ℕ → Type 0
  SamePrev h h' x = (h' x).prev ≡ (h x).prev

  -- What comes behind a change.
  pub Chain-behind :
      (h h' : Heap V) (b : ℕ) (ys : List ℕ)
      → Each (SameNext h h') (b ∷ ys)
      → Each (SamePrev h h') ys
      → Chain h (b ∷ ys)
      → Chain h' (b ∷ ys)
  Chain-behind h h' b [] n p c = tt
  Chain-behind h h' b (y ∷ ys) (nb, n) (py, p) (e, f, c) =
      (nb ∙ e, py ∙ f, Chain-behind h h' y ys n p c)

  -- What comes before a change at `a`.
  pub Chain-before :
      (h h' : Heap V) (xs : List ℕ) (a : ℕ) (old new : List ℕ)
      → Each (SameNext h h') xs
      → Each (SamePrev h h') xs
      → SamePrev h h' a
      → Chain h' (a ∷ new)
      → Chain h (xs ++ a ∷ old)
      → Chain h' (xs ++ a ∷ new)
  Chain-before h h' [] a old new n p pa c d = c
  Chain-before h h' (x ∷ []) a old new (nx, n) p pa c (e, f, d) = (nx ∙ e, pa ∙ f, c)
  Chain-before h h' (x ∷ y ∷ xs) a old new (nx, n) (px, (py, p)) pa c (e, f, d) =
      (nx ∙ e, py ∙ f, Chain-before h h' (y ∷ xs) a old new n (py, p) pa c d)

  -- The tail of a chain.
  pub Chain-tail :
      (h : Heap V) (xs : List ℕ) (a : ℕ) (l : List ℕ) → Chain h (xs ++ a ∷ l) → Chain h (a ∷ l)
  Chain-tail h [] a l c = c
  Chain-tail h (x ∷ []) a l (e, f, c) = c
  Chain-tail h (x ∷ y ∷ xs) a l (e, f, c) = Chain-tail h (y ∷ xs) a l c

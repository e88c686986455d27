-- ===== src/Mir/Block.antt =====
-- mir/block.go: the doubly linked list of the instructions of a block.
-- A `*Insn` is an address; the heap gives the instruction behind each. What an instruction computes
-- is the parameter `V`. `none` is a panic on a nil pointer.
pub mod Chain
pub mod Remove
pub mod Insert
pub mod Reverse
pub mod Build
use gocaml.Base.{
  ℕ, zero, suc, ◌==◌, Bool, Option, none, some, if◌then◌else◌, Text, List, [], ◌∷◌, codes,
}

pub record Insn (V : Type 0) : Type 0 where
  pub ident : Text
  pub val : V
  pub next : Option ℕ
  pub prev : Option ℕ

pub record Block : Type 0 where
  pub top : ℕ
  pub bottom : ℕ
  pub name : Text

abbrev pub Heap : Type 0 → Type 0
Heap V = ℕ → Insn V

-- Where the loop of `Last` goes on.
abbrev pub last_from : (ℕ → Option ℕ) → ℕ → Option ℕ → Option ℕ
last_from rec i none = some i
last_from rec i (some n) = rec n

module _ {V : Type 0} where
  abbrev pub set_next : ℕ → Option ℕ → Heap V → Heap V
  set_next p o h q = if q == p then record (h q) { next = o } else h q

  abbrev pub set_prev : ℕ → Option ℕ → Heap V → Heap V
  set_prev p o h q = if q == p then record (h q) { prev = o } else h q

  abbrev pub deref : Option ℕ → (ℕ → Option (Heap V)) → Option (Heap V)
  deref none k = none
  deref (some p) k = k p

  unfoldable pub prepend : Block → ℕ → Heap V → Option (Heap V)
  prepend b i h =
      let h1 = set_next i (h b.top).next h in
      let h2 = set_prev i (some b.top) h1 in
      deref (h2 b.top).next (λ n. some (set_next b.top (some i) (set_prev n (some i) h2)))

  unfoldable pub append : Block → ℕ → Heap V → Option (Heap V)
  append b i h =
      let h1 = set_next i (some b.bottom) h in
      let h2 = set_prev i (h1 b.bottom).prev h1 in
      deref (h2 b.bottom).prev (λ p. some (set_prev b.bottom (some i) (set_next p (some i) h2)))

  unfoldable pub remove_from_list : ℕ → Heap V → Option (Heap V)
  remove_from_list i h = deref (h i).next (λ n.
      let h1 = set_prev n (h i).prev h in deref (h1 i).prev (λ p. some (set_next p (h1 i).next h1)))

  abbrev pub swap : ℕ → Heap V → Heap V
  swap i h = set_prev i (h i).next (set_next i (h i).prev h)

  -- The loop of `Reverse`, on fuel; `reverse_from` is what follows the test on `Prev`.
  unfoldable pub reverse_from :
      (ℕ → Heap V → Option (ℕ × Heap V)) → ℕ → Option ℕ → Heap V → Option (ℕ × Heap V)
  reverse_from rec i none h = some (i, h)
  reverse_from rec i (some n) h = rec n h

  unfoldable pub reverse : ℕ → ℕ → Heap V → Option (ℕ × Heap V)
  unfolding reverse_from
  reverse zero i h = none
  reverse (suc f) i h = let h' = swap i h in reverse_from (reverse f) i (h' i).prev h'

  -- A new instruction at `p`.
  abbrev pub alloc : ℕ → Insn V → Heap V → Heap V
  alloc p i h q = if q == p then i else h q

  -- `start` and `end` are the addresses of the two new instructions, and `nop` is `NOPVal`.
  unfoldable pub new_block : V → ℕ → ℕ → Text → ℕ → ℕ → Heap V → Block × Heap V
  new_block nop start end name top bottom h =
      let h1 = alloc start (record { ident = []; val = nop; next = some top; prev = none }) h in
      let h2 = set_prev top (some start) h1 in
      let h3 = alloc end (record { ident = []; val = nop; next = none; prev = some bottom }) h2 in
      let h4 = set_next bottom (some end) h3 in
      (record { top = start; bottom = end; name = name }, h4)

  unfoldable pub new_empty_block : V → ℕ → ℕ → Text → Heap V → Block × Heap V
  new_empty_block nop start end name h =
      let i : Insn V = record { ident = []; val = nop; next = none; prev = none } in
      let h1 = alloc end i (alloc start i h) in
      let h2 = set_prev end (some start) (set_next start (some end) h1) in
      (record { top = start; bottom = end; name = name }, h2)

  -- The loop of `NewBlockFromArray`.
  unfoldable pub link : ℕ → List ℕ → Heap V → ℕ × Heap V
  link bottom [] h = (bottom, h)
  link bottom (i ∷ is) h = link i is (set_next bottom (some i) (set_prev i (some bottom) h))

  unfoldable pub new_block_from_array : V → ℕ → ℕ → Text → List ℕ → Heap V → Option (Block × Heap V)
  unfolding link new_block
  new_block_from_array nop start end name [] h = none
  new_block_from_array nop start end name (top ∷ is) h =
      let (bottom, h1) = link top is h in some (new_block nop start end name top bottom h1)

  abbrev pub whole_range : Block → Heap V → Option ℕ × ℕ
  whole_range b h = ((h b.top).next, b.bottom)

  -- The loop of `Last`, on fuel.
  unfoldable pub last : ℕ → ℕ → Heap V → Option ℕ
  last zero i h = none
  last (suc f) i h = last_from (λ n. last f n h) i (h i).next

  abbrev pub append_at : Option ℕ → ℕ → Heap V → Option (Heap V)
  append_at none other h = none
  append_at (some l) other h = some (set_prev other (some l) (set_next l (some other) h))

  -- `Append` of an instruction.
  unfoldable pub insn_append : ℕ → ℕ → Option ℕ → Heap V → Option (Heap V)
  unfolding last
  insn_append f i none h = some h
  insn_append f i (some other) h = append_at (last f i h) other h

  abbrev pub with_first : ℕ → Option (Heap V) → Option (ℕ × Heap V)
  with_first a none = none
  with_first a (some h) = some (a, h)

  unfoldable pub concat : ℕ → ℕ → Option ℕ → Heap V → Option (ℕ × Heap V)
  unfolding insn_append
  concat f a b h = with_first a (insn_append f a b h)

  abbrev pub new_insn : Text → V → Insn V
  new_insn name v = record { ident = name; val = v; next = none; prev = none }

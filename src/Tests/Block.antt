-- ===== src/Tests/Block.antt =====
-- mir/block.go on a block of one instruction.
use gocaml.Base.{ℕ, ◌≡◌, refl, none, some, [], ◌∷◌, codes, arith, ◌==◌, if◌then◌else◌}
use gocaml.Mir.Block.{
  concat, new_block_from_array, insn_append, reverse, Block, Heap, prepend, append,
  remove_from_list,
}
use gocaml.Mir.Block.Reverse.{Linked, head, rev_onto, reverse-Linked}
use gocaml.Mir.Block.Chain.{Chain}
use gocaml.Mir.Block.Remove.{remove_from_list-Chain}
use gocaml.Mir.Block.Build.{new_block_from_array-Chain, insn_append-Chain}
use gocaml.Mir.Block.Insert.{prepend-Chain, append-Chain}

abbrev root : Block
root = record { top = 0; bottom = 2; name = codes "root" }

-- The top, instruction 1 and the bottom; any other is not in the block.
abbrev memory : Heap ℕ
memory = λ p.
    if p == 0
    then record { ident = []; val = 0; next = some 1; prev = none }
    else if p == 1
    then record { ident = codes "x"; val = 7; next = some 2; prev = some 0 }
    else if p == 2
    then record { ident = []; val = 0; next = none; prev = some 1 }
    else record { ident = codes "y"; val = 8; next = none; prev = none }

memory-Chain : Chain memory (0 ∷ 1 ∷ 2 ∷ [])
memory-Chain = (refl, refl, (refl, refl, tt))

prepend-Chain_example :
    (h' : Heap ℕ) × (prepend root 3 memory ≡ some h') × Chain h' (0 ∷ 3 ∷ 1 ∷ 2 ∷ [])
prepend-Chain_example =
    prepend-Chain root 3 1 (2 ∷ []) memory memory-Chain (omega arith) (omega arith) (omega arith)
      ((omega arith, omega arith), tt) ((omega arith, omega arith), tt)

append-Chain_example :
    (h' : Heap ℕ) × (append root 3 memory ≡ some h') × Chain h' (0 ∷ 1 ∷ 3 ∷ 2 ∷ [])
append-Chain_example =
    append-Chain root 3 1 (0 ∷ []) memory memory-Chain (omega arith) (omega arith) (omega arith)
      ((omega arith, omega arith), tt) ((omega arith, omega arith), tt)

remove_from_list-Chain_example :
    (h' : Heap ℕ) × (remove_from_list 1 memory ≡ some h') × Chain h' (0 ∷ 2 ∷ [])
remove_from_list-Chain_example =
    remove_from_list-Chain [] 0 1 2 [] memory memory-Chain tt tt (omega arith) (omega arith) tt tt

-- Instructions 0, 1 and 2 with no block around them.
abbrev loose : Heap ℕ
loose = λ p.
    if p == 0
    then record { ident = codes "a"; val = 0; next = some 1; prev = none }
    else if p == 1
    then record { ident = codes "b"; val = 1; next = some 2; prev = some 0 }
    else record { ident = codes "c"; val = 2; next = none; prev = some 1 }

reverse-Linked_example :
    (i : ℕ) × (h' : Heap ℕ) × (reverse 3 0 loose ≡ some (i, h'))
    × (some i ≡ head (rev_onto (0 ∷ 1 ∷ 2 ∷ []) []))
    × Linked h' none (rev_onto (0 ∷ 1 ∷ 2 ∷ []) [])
reverse-Linked_example =
    reverse-Linked 0 (1 ∷ 2 ∷ []) 3 loose (omega arith) (refl, refl, (refl, refl, (refl, refl, tt)))
      (
        tt,
        (omega arith, (omega arith, tt)),
        ((omega arith, tt), (omega arith, tt), ((omega arith, (omega arith, tt)), tt, tt)),
      )

-- A heap in which instructions 0 and 1 belong together, and 2 is alone.
abbrev parts : Heap ℕ
parts = λ p.
    if p == 0
    then record { ident = codes "a"; val = 0; next = some 1; prev = none }
    else if p == 1
    then record { ident = codes "b"; val = 1; next = none; prev = some 0 }
    else record { ident = codes "c"; val = 2; next = none; prev = none }

new_block_from_array-Chain_example :
    (h' : Heap ℕ) × (new_block_from_array 9 5 6 (codes "body") (2 ∷ 0 ∷ []) parts
      ≡ some (record { top = 5; bottom = 6; name = codes "body" }, h'))
    × Chain h' (5 ∷ 2 ∷ 0 ∷ 6 ∷ [])
    × (((h' 5).prev ≡ none) × ((h' 6).next ≡ none))
new_block_from_array-Chain_example =
    new_block_from_array-Chain 9 5 6 2 (0 ∷ []) (codes "body") parts (omega arith)
      (omega arith, (omega arith, tt)) (omega arith, (omega arith, tt))
      ((omega arith, tt), (tt, tt))

insn_append-Chain_example :
    (h' : Heap ℕ) × (insn_append 2 0 (some 2) parts ≡ some h') × Chain h' (0 ∷ 1 ∷ 2 ∷ [])
insn_append-Chain_example =
    insn_append-Chain 2 0 (1 ∷ []) 2 [] parts (omega arith) ((omega arith, tt), (tt, tt))
      ((omega arith, (omega arith, tt)), tt) tt (refl, refl, tt) refl tt

concat-first : concat 2 0 none parts ≡ some (0, parts)
unfolding concat
concat-first = refl

-- ===== src/Arena/Inv.antt =====
-- src/memory.c: the invariant of an arena.
use liblor.Common.{◌==◌, size_max, ℕ, ◌+◌, ◌-◌, ◌≤◌, ◌≡◌, true, some, List, [], ◌∷◌}
use liblor.Arena.{System, virtual_backend, Block, Arena}
use liblor.Arena.Blocks.{block_data}

-- The data of a block are behind its header and inside what was allocated for it, which is inside the
-- address space; what is used is inside the data, and committed where the block is virtual.
pub record BlockIsValid (backend : ℕ) (block : Block) : Type 0 where
  pub start : ℕ
  pub data_is : block_data block ≡ some start
  pub behind : block.address ≤ start
  pub inside_block : start + block.capacity ≤ block.address + block.allocation_size
  pub inside_space : block.address + block.allocation_size ≤ size_max
  pub bounded : block.used ≤ block.capacity
  pub backed :
      (backend == virtual_backend) ≡ true → start - block.address + block.used ≤ block.committed

abbrev pub BlocksAreValid : ℕ → List Block → Type 0
BlocksAreValid backend [] = Unit {0}
BlocksAreValid backend (block ∷ blocks) = BlockIsValid backend block × BlocksAreValid backend blocks

abbrev pub ArenaIsValid : Arena → Type 0
ArenaIsValid arena = BlocksAreValid arena.backend arena.blocks

-- What malloc and mmap document: the bytes that they give are inside the address space.
pub record SystemIsSound (system : System) : Type 0 where
  pub malloc_fits : (n p : ℕ) → system.malloc n ≡ some p → p + n ≤ size_max
  pub reserve_fits : (n p : ℕ) → system.reserve n ≡ some p → p + n ≤ size_max

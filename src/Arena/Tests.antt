-- ===== src/Arena/Tests.antt =====
-- Runs and instances of the theorems on a heap arena of one block.
use liblor.Common.{
  ltb, if◌then◌else◌, Bool-cases, ℕ, ◌≤◌, ◌≡◌, refl, sym, ◌≢◌, inl, inr, true, false, none, some,
  List, [], ◌∷◌, ◌++◌, arith,
}
use liblor.Arena.{System, Block, Arena, is_power_of_two, align_forward}
use liblor.Arena.Blocks.{block_alloc}
use liblor.Arena.Ops.{addresses, arena_mark, arena_rewind, alloc_aligned}
use liblor.Arena.Alignment.{Aligns, align_forward_lem}
use liblor.Arena.Inv.{BlockIsValid, SystemIsSound}
use liblor.Arena.Allocating.{AllocatesFrom}
use liblor.Arena.Requests.{alloc_aligned_lem}
use liblor.Arena.Rewinding.{IsFresh, Requested, no_request, one_more}
use liblor.Arena.Marks.{arena_rewind-mark}
use liblor.Arena.Success.{alloc_aligned-some}
use liblor.Arena.Scratch.{elsewhere, Scratches, scratch_begin, scratch_end, scratch_end-begin}

-- 16 is the next multiple of 16 from 3 on.
aligned_3 : align_forward 3 16 ≡ some 16
unfolding align_forward
aligned_3 = refl

align_forward_lem_example : Aligns 3 16 (align_forward 3 16)
align_forward_lem_example = align_forward_lem 4 3 16 refl (omega arith)

-- Memory at one address, while it fits.
abbrev small_system : System
small_system = record {
  malloc = λ n. if ltb 1000 n then none else some 8192;
  page_size = some 4096;
  reserve = λ n. none;
  commit = λ p n. true;
}

small_limit : (n p : ℕ) → small_system.malloc n ≡ some p → (n ≤ 1000) × (p ≡ 8192)
small_limit n p e = elim (Bool-cases (ltb 1000 n)) [
  | inl large ↦ absurd (let d = rw large at e in cc)
  | inr fits ↦
      let e' : some 8192 ≡ some p = rw fits at e in
      let same : 8192 ≡ p = cc in (ground arith, sym same)
]

small_system-IsSound : SystemIsSound small_system
small_system-IsSound = record {
  malloc_fits = λ n p e. let l = small_limit n p e in omega arith;
  reserve_fits = λ n p e. absurd (cc);
}

-- A block of 100 bytes, of which 10 are used.
abbrev first_block : Block
first_block = record {
  address = 4096;
  capacity = 100;
  committed = 100;
  used = 10;
  allocation_size = 155;
}

abbrev small_arena : Arena
small_arena = record {
  blocks = first_block ∷ [];
  backend = 0;
  block_size = 100;
  reserve_size = 4096;
  commit_size = 4096;
}

first_block-IsValid : BlockIsValid 0 first_block
unfolding align_forward block_alloc
first_block-IsValid = record {
  start = 4144;
  data_is = refl;
  behind = omega arith;
  inside_block = omega arith;
  inside_space = omega arith;
  bounded = omega arith;
  backed = λ e. absurd (cc);
}

-- The data begin at 4144, 10 bytes are used, and the next multiple of 16 is 4160.
second_pointer : (alloc_aligned small_system 20 16 small_arena).0 ≡ some 4160
unfolding alloc_aligned
second_pointer = refl

alloc_aligned_lem_example :
    AllocatesFrom small_system small_arena 20 16 (alloc_aligned small_system 20 16 small_arena)
alloc_aligned_lem_example =
    alloc_aligned_lem small_system 20 16 small_arena small_system-IsSound (first_block-IsValid, tt)
      refl (omega arith) (omega arith)

sixteen : is_power_of_two 16 ≡ true
unfolding is_power_of_two
sixteen = refl

gives_up_to : (n : ℕ) → n ≤ 1000 → small_system.malloc n ≢ none
gives_up_to n h e = let small : ltb 1000 n ≡ false = ground arith in let d = rw small at e in cc

alloc_aligned-some_example : (p : ℕ) × ((alloc_aligned small_system 20 16 small_arena).0 ≡ some p)
alloc_aligned-some_example =
    alloc_aligned-some small_system 1000 20 16 small_arena small_system-IsSound gives_up_to
      (omega arith) refl (omega arith) (omega arith) (omega arith) (omega arith) (omega arith)
      sixteen

small_arena-IsFresh : IsFresh small_system small_arena.blocks
small_arena-IsFresh n p e = let l = small_limit n p e in rw (l.1) refl

-- One request that needs a new block.
one_request : Requested small_arena (alloc_aligned small_system 200 16 small_arena).1
one_request =
    one_more small_system 200 16 no_request small_system-IsSound small_arena-IsFresh (omega arith)

arena_rewind-mark_example :
    (newer : List Block) × (used : ℕ) × ((alloc_aligned small_system 200 16 small_arena).1.blocks
      ≡ newer ++ (record first_block { used = used } ∷ []))
    × (arena_rewind
          (some (alloc_aligned small_system 200 16 small_arena).1)
          (arena_mark (some small_arena))
        ≡ (some small_arena, addresses newer))
arena_rewind-mark_example =
    arena_rewind-mark first_block [] {arena = small_arena}
      {after = (alloc_aligned small_system 200 16 small_arena).1} (first_block-IsValid, tt) refl
      (omega arith) refl one_request

abbrev small_scratches : Scratches
small_scratches = record {
  slot_0 = record { arena = small_arena; inited = true };
  slot_1 = record { arena = small_arena; inited = false };
}

scratch_end-begin_example :
    let (scratch, begun) = scratch_begin small_system elsewhere small_scratches in
    (newer : List Block) × (used : ℕ) × ((alloc_aligned small_system 200 16 small_arena).1.blocks
      ≡ newer ++ (record first_block { used = used } ∷ []))
    × (scratch_end scratch (record begun {
      slot_0 = record begun.slot_0 { arena = (alloc_aligned small_system 200 16 small_arena).1 };
    })
        ≡ (small_scratches, addresses newer))
scratch_end-begin_example =
    scratch_end-begin small_system small_scratches first_block []
      {after = (alloc_aligned small_system 200 16 small_arena).1} refl (first_block-IsValid, tt)
      refl (omega arith) refl one_request

-- ===== src/Arena/Ops.antt =====
-- src/memory.c: the operations of an arena, and the scratch arenas. `none` is a NULL arena.
use liblor.Common.{
  ltb, leb, ◌==◌, if◌then◌else◌, length, size_max, add_size, ℕ, ◌+◌, ◌-◌, ◌*◌, Bool, true, false,
  not, ◌&&◌, ◌||◌, Option, none, some, List, [], ◌∷◌, ◌++◌,
}
use liblor.View.{Memory}
use liblor.Arena.{
  System, max_alignment, default_block_size, default_reserve_size, default_commit_size,
  heap_backend, virtual_backend, Block, ArenaConfig, Arena, ArenaMark, arena_init, add_overflows,
  mul_overflows, is_power_of_two,
}
use liblor.Arena.Blocks.{page_align, block_data, block_new, block_alloc}

-- Whether the arena is in the LOR_ARENA_INIT state.
abbrev pub is_initial : Arena → Bool
is_initial arena = elim (arena.blocks) [
  | [] ↦
      arena.backend == heap_backend
      && arena.block_size == 0
      && arena.reserve_size == 0
      && arena.commit_size == 0
  | ◌∷◌ block (blocks → _) ↦ false
]

abbrev pub or_default : ℕ → ℕ → ℕ
or_default n default = if n == 0 then default else n

-- The sizes of a virtual arena, in whole pages.
abbrev pub init_virtual : System → Arena → Bool × Arena
init_virtual system arena =
    let reserved = page_align system arena.reserve_size in
    let committed = page_align system arena.commit_size in
    if reserved == 0 || committed == 0
    then (false, arena_init)
    else (true, record arena { reserve_size = reserved; commit_size = committed })

-- `lor_arena__init_internal`, of an arena that is not NULL.
unfoldable pub init_arena : System → Arena → ArenaConfig → Bool × Arena
init_arena system arena config =
    let configured : Arena = record {
      blocks = [];
      backend = config.config_backend;
      block_size = or_default config.config_block_size default_block_size;
      reserve_size = or_default config.config_reserve_size default_reserve_size;
      commit_size = or_default config.config_commit_size default_commit_size;
    } in
    if not (is_initial arena)
    then (false, arena)
    else if configured.backend == heap_backend
    then (true, configured)
    else if configured.backend == virtual_backend
    then init_virtual system configured
    else (false, arena_init)

abbrev pub init_config : System → Option Arena → ArenaConfig → Bool × Option Arena
init_config system none config = (false, none)
init_config system (some arena) config =
    let (done, arena') = init_arena system arena config in (done, some arena')

abbrev pub zero_config : ArenaConfig
zero_config = record {
  config_backend = 0;
  config_block_size = 0;
  config_reserve_size = 0;
  config_commit_size = 0;
}

-- The addresses of blocks, which are released in this order.
abbrev pub addresses : List Block → List ℕ
addresses [] = []
addresses (block ∷ blocks) = block.address ∷ addresses blocks

unfoldable pub arena_deinit : Option Arena → Option Arena × List ℕ
arena_deinit none = (none, [])
arena_deinit (some arena) = (some arena_init, addresses arena.blocks)

abbrev pub unused : List Block → List Block
unused [] = []
unused (block ∷ blocks) = record block { used = 0 } ∷ unused blocks

unfoldable pub arena_reset : Option Arena → Option Arena
arena_reset none = none
arena_reset (some arena) = some (record arena { blocks = unused arena.blocks })

abbrev pub mark_of : List Block → ArenaMark
mark_of [] = record { block = none; mark_used = 0 }
mark_of (block ∷ blocks) = record { block = some block.address; mark_used = block.used }

unfoldable pub arena_mark : Option Arena → ArenaMark
arena_mark none = record { block = none; mark_used = 0 }
arena_mark (some arena) = mark_of arena.blocks

abbrev pub has_block : List Block → ℕ → Bool
has_block [] target = false
has_block (block ∷ blocks) target = block.address == target || has_block blocks target

-- The blocks before the marked one are released.
abbrev pub drop_to : List Block → ℕ → List Block × List ℕ
drop_to [] target = ([], [])
drop_to (block ∷ blocks) target =
    let rest = drop_to blocks target in
    if block.address == target then (block ∷ blocks, []) else (rest.0, block.address ∷ rest.1)

-- The marked block gets back what it had used, unless it has used less since.
abbrev pub set_used : List Block → ℕ → List Block
set_used [] n = []
set_used (block ∷ blocks) n =
    if ltb block.used n then block ∷ blocks else record block { used = n } ∷ blocks

unfoldable pub arena_rewind : Option Arena → ArenaMark → Option Arena × List ℕ
arena_rewind none mark = (none, [])
arena_rewind (some arena) mark = elim (mark.block) [
  | none ↦ (some (record arena { blocks = unused arena.blocks }), [])
  | some target ↦
      if not (has_block arena.blocks target)
      then (some arena, [])
      else let (kept, released) = drop_to arena.blocks target in
        (some (record arena { blocks = set_used kept mark.mark_used }), released)
]

-- Allocating in a new block.
abbrev pub alloc_new : System → Arena → ℕ → ℕ → Option ℕ × Arena
alloc_new system arena size alignment =
    let padding = if ltb 1 alignment then alignment - 1 else 0 in
    if add_overflows size padding
    then (none, arena)
    else elim (block_new system arena (size + padding)) [
      | none ↦ (none, arena)
      | some block ↦ elim (block_alloc system arena block size alignment) [
        | none ↦ (none, record arena { blocks = block ∷ arena.blocks })
        | some (pointer, grown) ↦ (some pointer, record arena { blocks = grown ∷ arena.blocks })
      ]
    ]

-- Allocating in the newest block, or in a new one.
abbrev pub alloc_in : System → Arena → ℕ → ℕ → List Block → Option ℕ × Arena
alloc_in system arena size alignment [] = alloc_new system arena size alignment
alloc_in system arena size alignment (block ∷ blocks) =
    elim (block_alloc system arena block size alignment) [
      | none ↦ alloc_new system arena size alignment
      | some (pointer, grown) ↦ (some pointer, record arena { blocks = grown ∷ blocks })
    ]

-- An arena in its first state is initialized with the default sizes.
abbrev pub prepared : System → Arena → Bool × Arena
prepared system arena =
    if arena.block_size == 0 && arena.reserve_size == 0
    then init_arena system arena zero_config
    else (true, arena)

abbrev pub alloc_prepared : System → ℕ → ℕ → Bool × Arena → Option ℕ × Arena
alloc_prepared system size alignment (false, arena) = (none, arena)
alloc_prepared system size alignment (true, arena) =
    alloc_in system arena size alignment arena.blocks

-- `lor_arena__alloc_aligned`, of an arena that is not NULL.
unfoldable pub alloc_aligned : System → ℕ → ℕ → Arena → Option ℕ × Arena
unfolding is_power_of_two init_arena block_alloc
alloc_aligned system size alignment arena =
    if size == 0 || not (is_power_of_two alignment)
    then (none, arena)
    else alloc_prepared system size alignment (prepared system arena)

unfoldable pub arena_alloc : System → ℕ → Option Arena → Option ℕ × Option Arena
unfolding alloc_aligned
arena_alloc system size none = (none, none)
arena_alloc system size (some arena) =
    let (pointer, arena') = alloc_aligned system size max_alignment arena in (pointer, some arena')

-- `memset(pointer, 0, size)`.
abbrev pub clear_bytes : Memory → ℕ → ℕ → Memory
clear_bytes mem pointer size p = if leb pointer p && ltb p (pointer + size) then 0 else mem p

-- The bytes of a list, from an address on.
abbrev pub write_bytes : Memory → ℕ → List ℕ → Memory
write_bytes mem pointer [] = mem
write_bytes mem pointer (byte ∷ bytes) =
    let after = write_bytes mem (pointer + 1) bytes in λ p. if p == pointer then byte else after p

abbrev pub cleared : Memory → ℕ → Option ℕ × Option Arena → Option ℕ × Option Arena × Memory
cleared mem size (none, arena) = (none, arena, mem)
cleared mem size (some pointer, arena) = (some pointer, arena, clear_bytes mem pointer size)

abbrev pub arena_alloc_zero : System → Memory → ℕ → Option Arena → Option ℕ × Option Arena × Memory
arena_alloc_zero system mem size arena = cleared mem size (arena_alloc system size arena)

unfoldable pub alloc_array : System → ℕ → ℕ → Option Arena → Option ℕ × Option Arena
unfolding arena_alloc
alloc_array system count elem_size arena =
    if count == 0 || elem_size == 0 || mul_overflows count elem_size
    then (none, arena)
    else arena_alloc system (count * elem_size) arena

unfoldable pub alloc_array_zero :
    System → Memory → ℕ → ℕ → Option Arena → Option ℕ × Option Arena × Memory
unfolding arena_alloc
alloc_array_zero system mem count elem_size arena =
    if count == 0 || elem_size == 0 || mul_overflows count elem_size
    then (none, arena, mem)
    else arena_alloc_zero system mem (count * elem_size) arena

abbrev pub copied : Memory → List ℕ → Option ℕ × Option Arena → Option ℕ × Option Arena × Memory
copied mem text (none, arena) = (none, arena, mem)
copied mem text (some pointer, arena) =
    (some pointer, arena, write_bytes mem pointer (text ++ (0 ∷ [])))

-- `text` are the characters before the NUL, none for a NULL pointer.
unfoldable pub arena_strdup :
    System → Memory → Option (List ℕ) → Option Arena → Option ℕ × Option Arena × Memory
unfolding arena_alloc
arena_strdup system mem none arena = (none, arena, mem)
arena_strdup system mem (some text) arena =
    if length text == size_max
    then (none, arena, mem)
    else copied mem text (arena_alloc system (length text + 1) arena)

abbrev pub total_used : List Block → ℕ → ℕ
total_used [] total = total
total_used (block ∷ blocks) total = total_used blocks (add_size total block.used)

abbrev pub total_capacity : List Block → ℕ → ℕ
total_capacity [] total = total
total_capacity (block ∷ blocks) total = total_capacity blocks (add_size total block.capacity)

unfoldable pub arena_used : Option Arena → ℕ
arena_used none = 0
arena_used (some arena) = total_used arena.blocks 0

unfoldable pub arena_capacity : Option Arena → ℕ
arena_capacity none = 0
arena_capacity (some arena) = total_capacity arena.blocks 0

-- The bytes of a block behind its data's start that are committed.
abbrev pub committed_bytes : Bool → Block → ℕ
committed_bytes false block = block.committed
committed_bytes true block =
    let data_offset : ℕ = elim (block_data block) [
      | none ↦ 0
      | some start ↦ start - block.address
    ] in
    if ltb data_offset block.committed then block.committed - data_offset else 0

abbrev pub total_committed : Bool → List Block → ℕ → ℕ
total_committed virtual [] total = total
total_committed virtual (block ∷ blocks) total =
    total_committed virtual blocks (add_size total (committed_bytes virtual block))

unfoldable pub arena_committed : Option Arena → ℕ
arena_committed none = 0
arena_committed (some arena) = total_committed (arena.backend == virtual_backend) arena.blocks 0

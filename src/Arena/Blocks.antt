-- ===== src/Arena/Blocks.antt =====
-- src/memory.c: the blocks of an arena.
use liblor.Common.{
  ltb, leb, ◌==◌, if◌then◌else◌, add_size, ℕ, ◌+◌, ◌-◌, ◌*◌, not, ◌&&◌, Option, none, some,
}
use liblor.Arena.{
  System, max_alignment, block_header, default_commit_size, virtual_backend, Block, Arena,
  add_overflows, align_up, align_forward,
}

unfoldable pub page_size_of : System → ℕ
page_size_of system = elim (system.page_size) [
  | none ↦ 4 * 1024
  | some n ↦ if n == 0 then 4 * 1024 else n
]

-- `lor_virtual__page_align`: 0 is the overflow.
unfoldable pub page_align : System → ℕ → ℕ
unfolding page_size_of align_up
page_align system size =
    if page_size_of system == 0
    then size
    else if add_overflows size (page_size_of system - 1)
    then 0
    else align_up size (page_size_of system)

-- The usable start of a block at an address.
unfoldable pub data_at : ℕ → Option ℕ
unfolding align_forward
data_at address = align_forward (add_size address block_header) max_alignment

abbrev pub block_data : Block → Option ℕ
block_data block = data_at block.address

abbrev pub header_slack : ℕ
header_slack = block_header + max_alignment - 1

unfoldable pub heap_block_new : System → ℕ → Option Block
heap_block_new system capacity =
    if add_overflows capacity header_slack
    then none
    else elim (system.malloc (capacity + header_slack)) [
      | none ↦ none
      | some address ↦ some (record {
        address = address;
        capacity = capacity;
        committed = capacity;
        used = 0;
        allocation_size = capacity + header_slack;
      })
    ]

-- The part of `virtual_block_new` behind the sizes.
abbrev pub reserved_block : System → ℕ → ℕ → Option Block
reserved_block system reserve_size commit_size = elim (system.reserve reserve_size) [
  | none ↦ none
  | some address ↦
      if not (commit_size == 0) && not (system.commit address commit_size)
      then none
      else elim (data_at address) [
        | none ↦ none
        | some start ↦ some (record {
          address = address;
          capacity = reserve_size - (start - address);
          committed = commit_size;
          used = 0;
          allocation_size = reserve_size;
        })
      ]
]

-- The size that is committed at first.
abbrev pub first_commit : System → ℕ → ℕ → ℕ → ℕ
first_commit system commit_size min_reserve reserve_size =
    let at_least = if ltb commit_size header_slack then header_slack else commit_size in
    let raised =
      if ltb at_least min_reserve && ltb min_reserve default_commit_size
      then min_reserve
      else at_least in
    let aligned = page_align system raised in
    if ltb reserve_size aligned then reserve_size else aligned

unfoldable pub virtual_block_new : System → ℕ → ℕ → ℕ → Option Block
unfolding data_at page_align
virtual_block_new system reserve_size commit_size min_capacity =
    let min_reserve = min_capacity + header_slack in
    let wanted =
      page_align system (if ltb reserve_size min_reserve then min_reserve else reserve_size) in
    if add_overflows min_capacity header_slack
    then none
    else if wanted == 0
    then none
    else reserved_block system wanted (first_commit system commit_size min_reserve wanted)

abbrev pub block_new : System → Arena → ℕ → Option Block
block_new system arena min_capacity =
    if arena.backend == virtual_backend
    then virtual_block_new system arena.reserve_size arena.commit_size min_capacity
    else heap_block_new system
        (if ltb arena.block_size min_capacity then min_capacity else arena.block_size)

-- The total that is committed for so many bytes, rounded to the granularity; none is an overflow.
abbrev pub committed_for : ℕ → ℕ → Option ℕ
committed_for needed_total commit_size =
    if commit_size == 0
    then some needed_total
    else if add_overflows needed_total (commit_size - 1)
    then none
    else some (align_up needed_total commit_size)

-- The part of `ensure_committed` that commits; the result is none for 0, and the block else.
abbrev pub commit_more : System → Block → Option ℕ → Option Block
commit_more system block none = none
commit_more system block (some wanted) =
    let new_committed =
      if ltb block.allocation_size wanted then block.allocation_size else wanted in
    if system.commit (block.address + block.committed) (new_committed - block.committed)
    then some (record block { committed = new_committed })
    else none

unfoldable pub ensure_committed : System → Block → ℕ → ℕ → Option Block
unfolding data_at align_up
ensure_committed system block needed_used commit_size = elim (block_data block) [
  | none ↦ none
  | some base ↦
      let data_offset = base - block.address in
      if ltb block.capacity needed_used
      then none
      else if add_overflows data_offset needed_used
      then none
      else if leb (data_offset + needed_used) block.committed
      then some block
      else commit_more system block (committed_for (data_offset + needed_used) commit_size)
]

-- A block with its new `used`, committed as far where it is virtual.
abbrev pub grown_block : System → Arena → Block → ℕ → Option Block
grown_block system arena block new_used =
    if arena.backend == virtual_backend
    then elim (ensure_committed system block new_used arena.commit_size) [
      | none ↦ none
      | some committed ↦ some (record committed { used = new_used })
    ]
    else some (record block { used = new_used })

-- The address that is allocated, and the block it is in.
unfoldable pub block_alloc : System → Arena → Block → ℕ → ℕ → Option (ℕ × Block)
unfolding data_at align_forward ensure_committed
block_alloc system arena block size alignment = elim (block_data block) [
  | none ↦ none
  | some base ↦
      if ltb block.capacity block.used
      then none
      else elim (align_forward (add_size base block.used) alignment) [
        | none ↦ none
        | some aligned ↦
            let padding = aligned - (base + block.used) in
            if ltb (block.capacity - block.used) padding
            then none
            else if ltb (block.capacity - block.used - padding) size
            then none
            else elim (grown_block system arena block (block.used + padding + size)) [
              | none ↦ none
              | some grown ↦ some (aligned, grown)
            ]
      ]
]

-- ===== src/Arena.antt =====
-- src/memory.c and include/lor/memory.h: the arena, its blocks and the system calls that make them,
-- in a build without LOR_LEAKCHECK. Addresses are numbers, 0 is NULL.
pub mod Blocks
pub mod Ops
pub mod Alignment
pub mod Inv
pub mod Allocating
pub mod Requests
pub mod Committing
pub mod Placing
pub mod Rewinding
pub mod Marks
pub mod Success
pub mod Scratch
mod Tests
use Prim.Native.Nat.{bit_and}
use liblor.Common.{
  ltb, ◌==◌, if◌then◌else◌, size_max, add_size, sub_size, ℕ, ◌-◌, ◌*◌, ◌/◌, Bool, not, ◌&&◌, Option,
  none, some, List, [],
}

-- malloc, sysconf(_SC_PAGESIZE), mmap of address space, and mprotect, by how they answer a call.
pub record System : Type 0 where
  pub malloc : ℕ → Option ℕ
  pub page_size : Option ℕ
  pub reserve : ℕ → Option ℕ
  pub commit : ℕ → ℕ → Bool

-- `alignof(max_align_t)`, and `offsetof(LorArenaBlock, data)`: five words of 8 bytes.
abbrev pub max_alignment : ℕ
max_alignment = 16

abbrev pub block_header : ℕ
block_header = 40

abbrev pub default_block_size : ℕ
default_block_size = 64 * 1024

abbrev pub default_reserve_size : ℕ
default_reserve_size = 64 * 1024 * 1024

abbrev pub default_commit_size : ℕ
default_commit_size = 64 * 1024

-- LOR_ARENA_BACKEND_HEAP and LOR_ARENA_BACKEND_VIRTUAL, of the numbers that a configuration can hold.
abbrev pub heap_backend : ℕ
heap_backend = 0

abbrev pub virtual_backend : ℕ
virtual_backend = 1

pub record Block : Type 0 where
  pub address : ℕ
  pub capacity : ℕ
  pub committed : ℕ
  pub used : ℕ
  pub allocation_size : ℕ

pub record ArenaConfig : Type 0 where
  pub config_backend : ℕ
  pub config_block_size : ℕ
  pub config_reserve_size : ℕ
  pub config_commit_size : ℕ

-- The newest block is first.
pub record Arena : Type 0 where
  pub blocks : List Block
  pub backend : ℕ
  pub block_size : ℕ
  pub reserve_size : ℕ
  pub commit_size : ℕ

-- `block` is none for NULL.
pub record ArenaMark : Type 0 where
  pub block : Option ℕ
  pub mark_used : ℕ

abbrev pub arena_init : Arena
arena_init = record {
  blocks = [];
  backend = heap_backend;
  block_size = 0;
  reserve_size = 0;
  commit_size = 0;
}

abbrev pub add_overflows : ℕ → ℕ → Bool
add_overflows a b = ltb (size_max - b) a

abbrev pub mul_overflows : ℕ → ℕ → Bool
mul_overflows a b = not (b == 0) && ltb (size_max / b) a

unfoldable pub is_power_of_two : ℕ → Bool
is_power_of_two value = not (value == 0) && bit_and value (value - 1) == 0

-- `(value + mask) & ~mask`
unfoldable pub align_up : ℕ → ℕ → ℕ
align_up value alignment =
    let mask = sub_size alignment 1 in bit_and (add_size value mask) (size_max - mask)

unfoldable pub align_forward : ℕ → ℕ → Option ℕ
unfolding align_up
align_forward value alignment =
    if ltb (size_max - sub_size alignment 1) value then none else some (align_up value alignment)

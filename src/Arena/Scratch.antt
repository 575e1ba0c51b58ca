-- ===== src/Arena/Scratch.antt =====
-- src/memory.c: the two scratch arenas of a thread, and the arena that a scratch borrows.
use liblor.Common.{
  ◌==◌, if◌then◌else◌, size_max, ℕ, ◌≤◌, ◌≡◌, refl, Bool, true, false, none, some, List, [], ◌∷◌,
  ◌++◌,
}
use liblor.Arena.{
  System, default_block_size, heap_backend, virtual_backend, Block, ArenaConfig, Arena, ArenaMark,
  arena_init,
}
use liblor.Arena.Ops.{init_arena, addresses, arena_mark, arena_rewind}
use liblor.Arena.Inv.{ArenaIsValid}
use liblor.Arena.Rewinding.{Requested}
use liblor.Arena.Marks.{arena_rewind-mark}

-- One of `lor_memory__scratch_arenas`, and whether it is initialized.
pub record Slot : Type 0 where
  pub arena : Arena
  pub inited : Bool

-- Which scratch arena a pointer is; `elsewhere` is another arena or NULL.
pub data Which : Type 0 where
  first second elsewhere : Which

pub record Scratches : Type 0 where
  pub slot_0 : Slot
  pub slot_1 : Slot

pub record Scratch : Type 0 where
  pub which : Which
  pub mark : ArenaMark

abbrev pub scratch_init : Scratch
scratch_init = record { which = elsewhere; mark = record { block = none; mark_used = 0 } }

abbrev pub scratch_config : ArenaConfig
scratch_config = record {
  config_backend = heap_backend;
  config_block_size = default_block_size;
  config_reserve_size = 0;
  config_commit_size = 0;
}

-- A slot that is initialized, and whether that succeeded.
abbrev pub ready_slot : System → Slot → Bool × Slot
ready_slot system slot =
    if slot.inited
    then (true, slot)
    else let (done, arena) = init_arena system slot.arena scratch_config in
      (done, record { arena = arena; inited = done })

abbrev pub begin_in : Which → Bool × Slot → Scratch × Slot
begin_in which (false, slot) = (scratch_init, slot)
begin_in which (true, slot) = (record { which = which; mark = arena_mark (some slot.arena) }, slot)

-- The first arena that is not the conflicting one.
unfoldable pub scratch_begin : System → Which → Scratches → Scratch × Scratches
unfolding init_arena arena_mark
scratch_begin system first scratches =
    let (scratch, slot) = begin_in second (ready_slot system scratches.slot_1) in
    (scratch, record scratches { slot_1 = slot })
scratch_begin system conflict scratches =
    let (scratch, slot) = begin_in first (ready_slot system scratches.slot_0) in
    (scratch, record scratches { slot_0 = slot })

abbrev pub end_in : ArenaMark → Slot → Slot × List ℕ
end_in mark slot =
    let (left, released) = arena_rewind (some slot.arena) mark in
    (elim left [ none ↦ slot | some arena ↦ record slot { arena = arena } ], released)

-- With the addresses of the blocks that are released.
unfoldable pub scratch_end : Scratch → Scratches → Scratches × List ℕ
unfolding arena_rewind
scratch_end scratch scratches = elim (scratch.which) [
  | elsewhere ↦ (scratches, [])
  | first ↦
      let (slot, released) = end_in scratch.mark scratches.slot_0 in
      (record scratches { slot_0 = slot }, released)
  | second ↦
      let (slot, released) = end_in scratch.mark scratches.slot_1 in
      (record scratches { slot_1 = slot }, released)
]

abbrev pub cleanup_slot : Slot → Slot × List ℕ
cleanup_slot slot =
    if slot.inited
    then (record { arena = arena_init; inited = false }, addresses slot.arena.blocks)
    else (slot, [])

unfoldable pub scratch_cleanup : Scratches → Scratches × List ℕ
scratch_cleanup scratches =
    let (a, freed_0) = cleanup_slot scratches.slot_0 in
    let (b, freed_1) = cleanup_slot scratches.slot_1 in
    (record { slot_0 = a; slot_1 = b }, freed_0 ++ freed_1)

scratch_begin-ready :
    (system : System) (scratches : Scratches)
    → scratches.slot_0.inited ≡ true
    → scratch_begin system elsewhere scratches
      ≡ (record { which = first; mark = arena_mark (some scratches.slot_0.arena) }, scratches)
unfolding scratch_begin
scratch_begin-ready system scratches ready = rw (scratch_begin, ready) refl

scratch_end-first :
    (scratches : Scratches) (mark : ArenaMark) (arena : Arena) (released : List ℕ)
    → arena_rewind (some scratches.slot_0.arena) mark ≡ (some arena, released)
    → scratch_end (record { which = first; mark = mark }) scratches ≡ (
      record scratches { slot_0 = record { arena = arena; inited = scratches.slot_0.inited } },
      released,
    )
unfolding scratch_end
scratch_end-first scratches mark arena released e = rw (scratch_end, end_in, e) refl

-- Ending a scratch that was begun in the first arena, initialized and with a block, after any requests
-- of memory from it in which malloc gave no address in use, leaves the scratch arenas as they were
-- when it was begun, and releases the newer blocks.
pub scratch_end-begin :
    (system : System) (scratches : Scratches) (base : Block) (older : List Block) {after : Arena}
    → scratches.slot_0.inited ≡ true
    → ArenaIsValid scratches.slot_0.arena
    → (scratches.slot_0.arena.backend == virtual_backend) ≡ false
    → scratches.slot_0.arena.commit_size ≤ size_max
    → scratches.slot_0.arena.blocks ≡ base ∷ older
    → Requested scratches.slot_0.arena after
    → let (scratch, begun) = scratch_begin system elsewhere scratches in
      (newer : List Block) × (used : ℕ) × (after.blocks
        ≡ newer ++ (record base { used = used } ∷ older))
      × (scratch_end scratch (record begun { slot_0 = record begun.slot_0 { arena = after } })
          ≡ (scratches, addresses newer))
scratch_end-begin system scratches base older {after} ready v heap small e r =
    let (newer, used, shape, back) = arena_rewind-mark base older v heap small e r in
    (
      newer,
      used,
      shape,
      rw (scratch_begin-ready system scratches ready) (
          scratch_end-first
            (record scratches { slot_0 = record scratches.slot_0 { arena = after } })
            (arena_mark (some scratches.slot_0.arena)) scratches.slot_0.arena (addresses newer)
            back),
    )

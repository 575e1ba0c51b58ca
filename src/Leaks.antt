-- ===== src/Leaks.antt =====
-- src/memory.c: the records of a build with LOR_LEAKCHECK, newest first, and the allocation functions
-- that keep them. The links between the records are the order of the list.
pub mod Sizes
pub mod Moving
pub mod Counting
pub mod Running
pub mod Arrays
pub mod Reporting
mod Tests
pub mod Tracking
pub mod Reallocating
pub mod OtherKinds
use mathlib.Core.Option
use liblor.Common.{
  ltb, ◌==◌, if◌then◌else◌, size_max, add_size, ℕ, zero, suc, ◌+◌, ◌*◌, ◌/◌, Bool, true, false, not,
  ◌&&◌, ◌||◌, Option, none, some, List, [], ◌∷◌,
}

pub data Kind : Type 0 where
  heap : Kind
  arena : Kind
  mmap : Kind

-- The place of a call: the address of the file's name, and the line.
pub record Place : Type 0 where
  pub file : ℕ
  pub line : ℕ

pub record Leak : Type 0 where
  pub kind : Kind
  pub pointer : ℕ
  pub size : ℕ
  pub place : Place

pub record Stats : Type 0 where
  pub heap_count : ℕ
  pub heap_bytes : ℕ
  pub arena_count : ℕ
  pub mmap_count : ℕ
  pub mmap_bytes : ℕ

abbrev pub same_kind : Kind → Kind → Bool
same_kind heap heap = true
same_kind arena arena = true
same_kind mmap mmap = true
same_kind _ _ = false

unfoldable pub is_leak : ℕ → Kind → Leak → Bool
is_leak pointer kind leak = leak.pointer == pointer && same_kind leak.kind kind

-- The index of the first record of a pointer and a kind.
abbrev pub find_leak : ℕ → Kind → List Leak → Option ℕ
find_leak pointer kind [] = none
find_leak pointer kind (leak ∷ leaks) =
    let rest = Option.map suc (find_leak pointer kind leaks) in
    if is_leak pointer kind leak then some 0 else rest

abbrev pub remove_leak : ℕ → List Leak → List Leak
remove_leak i [] = []
remove_leak zero (leak ∷ leaks) = leaks
remove_leak (suc i) (leak ∷ leaks) = leak ∷ remove_leak i leaks

-- `record_given` says whether malloc gives the record's memory.
unfoldable pub track : Bool → Kind → ℕ → ℕ → Place → List Leak → List Leak
track record_given kind pointer size place leaks =
    if pointer == 0
    then leaks
    else if not record_given
    then leaks
    else record { kind = kind; pointer = pointer; size = size; place = place } ∷ leaks

unfoldable pub untrack : Kind → ℕ → List Leak → List Leak
untrack kind pointer leaks = elim (find_leak pointer kind leaks) [
  | none ↦ leaks
  | some i ↦ remove_leak i leaks
]

-- `lor_leak__record_size`, with the committed bytes of the arena at an address; a NULL record is none.
abbrev pub leak_size : (ℕ → ℕ) → Option Leak → ℕ
leak_size arena_committed none = 0
leak_size arena_committed (some leak) = elim (leak.kind) [
  | arena ↦ arena_committed leak.pointer
  | _ ↦ leak.size
]

abbrev pub no_stats : Stats
no_stats = record {
  heap_count = 0;
  heap_bytes = 0;
  arena_count = 0;
  mmap_count = 0;
  mmap_bytes = 0;
}

abbrev pub add_stats : Leak → Stats → Stats
add_stats leak stats = elim (leak.kind) [
  | heap ↦ record stats {
    heap_count = add_size stats.heap_count 1;
    heap_bytes = add_size stats.heap_bytes leak.size;
  }
  | arena ↦ record stats { arena_count = add_size stats.arena_count 1 }
  | mmap ↦ record stats {
    mmap_count = add_size stats.mmap_count 1;
    mmap_bytes = add_size stats.mmap_bytes leak.size;
  }
]

-- The loop of `lor_leakcheck_stats`, from the newest record on.
unfoldable pub stats_from : Stats → List Leak → Stats
stats_from stats [] = stats
stats_from stats (leak ∷ leaks) = stats_from (add_stats leak stats) leaks

abbrev pub leakcheck_stats : List Leak → Stats
leakcheck_stats leaks = stats_from no_stats leaks

abbrev pub leakcheck_count : List Leak → ℕ
leakcheck_count leaks =
    let stats = leakcheck_stats leaks in
    add_size (add_size stats.heap_count stats.arena_count) stats.mmap_count

-- How malloc, calloc and realloc answer a call: an address or 0, and whether a record is given.
pub record Answer : Type 0 where
  pub given : ℕ
  pub record_given : Bool

-- The allocation functions answer a pointer, 0 for NULL, and the records after the call.
unfoldable pub malloc_debug : Answer → ℕ → Place → List Leak → ℕ × List Leak
malloc_debug answer size place leaks =
    if size == 0
    then (0, leaks)
    else (answer.given, track answer.record_given heap answer.given size place leaks)

unfoldable pub calloc_debug : Answer → ℕ → ℕ → Place → List Leak → ℕ × List Leak
calloc_debug answer count elem_size place leaks =
    if count == 0 || elem_size == 0 || (not (elem_size == 0) && ltb (size_max / elem_size) count)
    then (0, leaks)
    else (answer.given, track answer.record_given heap answer.given (count * elem_size) place leaks)

unfoldable pub free_debug : ℕ → List Leak → List Leak
free_debug pointer leaks = if pointer == 0 then leaks else untrack heap pointer leaks

-- A record at an index, moved to a new pointer.
abbrev pub move_leak : ℕ → ℕ → ℕ → Place → List Leak → List Leak
move_leak i pointer size place [] = []
move_leak zero pointer size place (leak ∷ leaks) =
    record leak { pointer = pointer; size = size; place = place } ∷ leaks
move_leak (suc i) pointer size place (leak ∷ leaks) = leak ∷ move_leak i pointer size place leaks

unfoldable pub realloc_debug : Answer → ℕ → ℕ → Place → List Leak → ℕ × List Leak
realloc_debug answer pointer size place leaks =
    if pointer == 0
    then malloc_debug answer size place leaks
    else if size == 0
    then (0, free_debug pointer leaks)
    else if answer.given == 0
    then (0, leaks)
    else (
      answer.given,
      elim (find_leak pointer heap leaks) [
        | some i ↦ move_leak i answer.given size place leaks
        | none ↦ track answer.record_given heap answer.given size place leaks
      ],
    )

-- The text is none for NULL, else its length: it is allocated with one more byte for the NUL.
unfoldable pub strdup_debug : Answer → Option ℕ → Place → List Leak → ℕ × List Leak
strdup_debug answer none place leaks = (0, leaks)
strdup_debug answer (some len) place leaks =
    if len == size_max then (0, leaks) else malloc_debug answer (len + 1) place leaks

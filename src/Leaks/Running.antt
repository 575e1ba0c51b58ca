-- ===== src/Leaks/Running.antt =====
-- src/memory.c: the calls of a program, and the memory that it has after them.
use liblor.Common.{
  leb, ◌==◌, if◌then◌else◌, size_max, ℕ, ◌+◌, ◌*◌, ◌≤◌, ◌≡◌, ◌≢◌, ◌⊎◌, Bool, true, false, ◌||◌,
  Option, none, some, List, [],
}
use liblor.Leaks.{
  Kind, heap, Place, Leak, same_kind, track, untrack, Answer, malloc_debug, calloc_debug,
  free_debug, realloc_debug, strdup_debug,
}
use liblor.Leaks.Sizes.{size_at, AreApart}

-- The live memory of a program: the size of what it has at a pointer.
abbrev pub Live : Type 0
Live = ℕ → Option ℕ

abbrev pub put : ℕ → ℕ → Live → Live
put pointer size live other = if pointer == other then some size else live other

abbrev pub drop_live : ℕ → Live → Live
drop_live pointer live other = if pointer == other then none else live other

-- Memory of a size, which is 0 where none is asked for, that is given at a pointer, 0 for NULL.
abbrev pub put_given : ℕ → ℕ → Live → Live
put_given pointer size live = if size == 0 || pointer == 0 then live else put pointer size live

-- The bytes of an array, none where they do not fit `size_t`.
abbrev pub calloc_size : ℕ → ℕ → ℕ
calloc_size count elem_size = if leb (count * elem_size) size_max then count * elem_size else 0

-- The bytes of a copied text and its NUL, none for NULL or where they do not fit `size_t`.
abbrev pub strdup_size : Option ℕ → ℕ
strdup_size none = 0
strdup_size (some len) = if leb (len + 1) size_max then len + 1 else 0

-- A text's length is a `size_t`.
abbrev pub IsText : Option ℕ → Type 0
IsText none = Unit {0}
IsText (some len) = len ≤ size_max

-- What free leaves: NULL is not live, and freeing it does nothing.
abbrev pub drop_given : ℕ → Live → Live
drop_given pointer live = if pointer == 0 then live else drop_live pointer live

-- What C's realloc leaves: it allocates for NULL, frees for a size of 0, leaves the memory as it was
-- where it fails, and else moves it.
abbrev pub move_live : ℕ → ℕ → ℕ → Live → Live
move_live given pointer size live =
    if pointer == 0
    then put_given given size live
    else if size == 0
    then drop_live pointer live
    else if given == 0
    then live
    else put given size (drop_live pointer live)

-- What the system gives is not in use, and a record of it is given.
pub record IsRecorded (live : Live) (answer : Answer) : Type 0 where
  pub unused : answer.given ≢ 0 → live answer.given ≡ none
  pub recorded : answer.given ≢ 0 → answer.record_given ≡ true

-- What realloc gives is the old memory's place, or not in use; a record is given where there is none
-- of the old memory.
pub record IsMoved (live : Live) (answer : Answer) (pointer : ℕ) : Type 0 where
  pub unused : answer.given ≢ 0 → (answer.given ≡ pointer) ⊎ (live answer.given ≡ none)
  pub recorded :
      answer.given ≢ 0 → (pointer ≡ 0) ⊎ (live pointer ≡ none) → answer.record_given ≡ true

-- The calls of a program, with the memory that it has and the records: C's allocation functions with
-- any arguments and any answer of the system, NULL included, and records that arenas and files come to.
pub data Runs : Live → List Leak → Type 0 where
  starts : Runs (λ pointer. none) []
  mallocs :
      {live : Live} {leaks : List Leak} (answer : Answer) (size : ℕ) (place : Place)
      → Runs live leaks
      → IsRecorded live answer
      → Runs (put_given answer.given size live) (malloc_debug answer size place leaks).1
  callocs :
      {live : Live} {leaks : List Leak} (answer : Answer) (count elem_size : ℕ) (place : Place)
      → Runs live leaks
      → IsRecorded live answer
      → Runs
          (put_given answer.given (calloc_size count elem_size) live)
          (calloc_debug answer count elem_size place leaks).1
  strdups :
      {live : Live} {leaks : List Leak} (answer : Answer) (text : Option ℕ) (place : Place)
      → Runs live leaks
      → IsRecorded live answer
      → IsText text
      → Runs
          (put_given answer.given (strdup_size text) live)
          (strdup_debug answer text place leaks).1
  reallocs :
      {live : Live} {leaks : List Leak} (answer : Answer) (pointer size : ℕ) (place : Place)
      → Runs live leaks
      → IsMoved live answer pointer
      → Runs
          (move_live answer.given pointer size live)
          (realloc_debug answer pointer size place leaks).1
  frees :
      {live : Live} {leaks : List Leak} (pointer : ℕ)
      → Runs live leaks
      → Runs (drop_given pointer live) (free_debug pointer leaks)
  other_tracks :
      {live : Live} {leaks : List Leak} (record_given : Bool) (kind : Kind) (pointer size : ℕ)
      (place : Place)
      → Runs live leaks
      → same_kind kind heap ≡ false
      → Runs live (track record_given kind pointer size place leaks)
  other_untracks :
      {live : Live} {leaks : List Leak} (kind : Kind) (pointer : ℕ)
      → Runs live leaks
      → same_kind kind heap ≡ false
      → Runs live (untrack kind pointer leaks)

-- The records have each live pointer's size, and records of no other pointer, and one for each.
pub record Tracks (live : Live) (leaks : List Leak) : Type 0 where
  pub sizes : (pointer : ℕ) → size_at leaks pointer ≡ live pointer
  pub apart : AreApart leaks

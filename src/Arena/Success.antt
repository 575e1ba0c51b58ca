-- ===== src/Arena/Success.antt =====
-- src/memory.c: a heap arena gives memory while malloc does.
use liblor.Common.{
  ltb, ◌==◌, if◌then◌else◌, Option-cases, size_max, ℕ, ◌+◌, ◌-◌, ◌^◌, ◌≤◌, ◌<◌, ◌≡◌, ◌≢◌, inl, inr,
  true, false, none, some, List, [], ◌∷◌, arith,
}
use liblor.Arena.{System, virtual_backend, Block, Arena, add_overflows, is_power_of_two}
use liblor.Arena.Blocks.{header_slack, heap_block_new, block_alloc}
use liblor.Arena.Ops.{alloc_new, alloc_in, prepared, alloc_aligned}
use liblor.Arena.Alignment.{is_power_of_two_lem}
use liblor.Arena.Inv.{SystemIsSound}
use liblor.Arena.Placing.{block_alloc_lem}
use liblor.Arena.Allocating.{heap_block_new_lem}

heap_block_new-some :
    (system : System) (limit capacity : ℕ)
    → ((n : ℕ) → n ≤ limit → system.malloc n ≢ none)
    → capacity + header_slack ≤ limit
    → limit ≤ size_max
    → heap_block_new system capacity ≢ none
unfolding heap_block_new
heap_block_new-some system limit capacity plenty fits top e =
    let room : add_overflows capacity header_slack ≡ false = ground arith in
    elim (Option-cases (system.malloc (capacity + header_slack))) [
      | inl failed ↦ plenty (capacity + header_slack) fits failed
      | inr (p, at) ↦ let d = rw (room, at) at e in cc
    ]

alloc_new-some :
    (system : System) (arena : Arena) (limit size alignment k : ℕ)
    → SystemIsSound system
    → ((n : ℕ) → n ≤ limit → system.malloc n ≢ none)
    → limit ≤ size_max
    → (arena.backend == virtual_backend) ≡ false
    → arena.commit_size ≤ size_max
    → alignment ≡ 2 ^ k
    → alignment ≤ size_max
    → arena.block_size + header_slack ≤ limit
    → size + alignment + header_slack ≤ limit
    → (alloc_new system arena size alignment).0 ≢ none
alloc_new-some system arena limit size alignment k sound plenty top heap small power fits sized wide
      e =
    let padding : ℕ = if ltb 1 alignment then alignment - 1 else 0 in
    let c : ℕ =
      if ltb arena.block_size (size + padding) then size + padding else arena.block_size in
    let bounded : c + header_slack ≤ limit = ground arith in
    let enough : size + (alignment - 1) ≤ c = ground arith in
    let room : add_overflows size padding ≡ false = ground arith in
    elim (Option-cases (heap_block_new system c)) [
      | inl failed ↦ heap_block_new-some system limit c plenty bounded top failed
      | inr (b, there) ↦
          let new = heap_block_new_lem system arena.backend c b sound heap there in
          let puts = block_alloc_lem system arena b size alignment k small new.valid power fits in
          elim (Option-cases (block_alloc system arena b size alignment)) [
            | inl failed ↦ omega (arith, puts.fails failed heap, new.fresh, new.room)
            | inr ((p, g), at) ↦ let d = rw (alloc_new, room, heap, there, at) at e in cc
          ]
    ]

alloc_in-some :
    (system : System) (arena : Arena) (limit size alignment k : ℕ) (blocks : List Block)
    → SystemIsSound system
    → ((n : ℕ) → n ≤ limit → system.malloc n ≢ none)
    → limit ≤ size_max
    → (arena.backend == virtual_backend) ≡ false
    → arena.commit_size ≤ size_max
    → alignment ≡ 2 ^ k
    → alignment ≤ size_max
    → arena.block_size + header_slack ≤ limit
    → size + alignment + header_slack ≤ limit
    → (alloc_in system arena size alignment blocks).0 ≢ none
alloc_in-some system arena limit size alignment k [] sound plenty top heap small power fits sized
      wide =
    alloc_new-some system arena limit size alignment k sound plenty top heap small power fits sized
      wide
alloc_in-some system arena limit size alignment k (block ∷ blocks) sound plenty top heap small power
      fits sized wide =
    λ e. elim (Option-cases (block_alloc system arena block size alignment)) [
      | inl failed ↦
          alloc_new-some system arena limit size alignment k sound plenty top heap small power fits
            sized wide (rw (alloc_in, failed) at e)
      | inr ((p, g), at) ↦ let d = rw (alloc_in, at) at e in cc
    ]

-- An initialized heap arena gives memory for every request of a positive size and an alignment that
-- is a power of two, as long as malloc gives memory of up
-- to a limit that the sizes keep with a block's header.
pub alloc_aligned-some :
    (system : System) (limit size alignment : ℕ) (arena : Arena)
    → SystemIsSound system
    → ((n : ℕ) → n ≤ limit → system.malloc n ≢ none)
    → limit ≤ size_max
    → (arena.backend == virtual_backend) ≡ false
    → 0 < arena.block_size
    → arena.commit_size ≤ size_max
    → arena.block_size + header_slack ≤ limit
    → size + alignment + header_slack ≤ limit
    → 0 < size
    → is_power_of_two alignment ≡ true
    → (p : ℕ) × ((alloc_aligned system size alignment arena).0 ≡ some p)
unfolding alloc_aligned
alloc_aligned-some system limit size alignment arena sound plenty top heap set_up small sized wide
      pos power =
    let (k, e) = is_power_of_two_lem alignment power in
    let some_bytes : (size == 0) ≡ false = ground arith in
    let ready : (arena.block_size == 0) ≡ false = ground arith in
    let given =
      alloc_in-some system arena limit size alignment k arena.blocks sound plenty top heap small e
        (omega arith) sized wide in
    rw (alloc_aligned, some_bytes, power, prepared, ready)
      (elim (Option-cases ((alloc_in system arena size alignment arena.blocks).0)) [
        | inl failed ↦ absurd (given failed)
        | inr (p, at) ↦ (p, at)
      ])

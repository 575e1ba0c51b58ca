-- ===== src/Arena/Requests.antt =====
-- src/memory.c: an allocation from a heap arena, with its initialization on first use.
use liblor.Common.{
  ◌==◌, Bool-cases, Option-cases, size_max, ℕ, ◌^◌, ◌≤◌, ◌≡◌, refl, sym, ap, subst, ◌∙◌, inl, inr,
  Bool, true, false, ◌&&◌, List, [], ◌∷◌, arith,
}
use liblor.Arena.{System, virtual_backend, Block, Arena, is_power_of_two}
use liblor.Arena.Blocks.{data_at, block_alloc}
use liblor.Arena.Ops.{is_initial, init_arena, alloc_in, prepared, alloc_prepared, alloc_aligned}
use liblor.Arena.Alignment.{is_power_of_two_lem}
use liblor.Arena.Inv.{BlocksAreValid, ArenaIsValid, SystemIsSound}
use liblor.Arena.Placing.{block_alloc_lem}
use liblor.Arena.Allocating.{PlacedAt, AllocatesFrom, unchanged, alloc_new_lem}

alloc_in_lem :
    (system : System) (arena : Arena) (size alignment k : ℕ) (blocks : List Block)
    → SystemIsSound system
    → blocks ≡ arena.blocks
    → ArenaIsValid arena
    → (arena.backend == virtual_backend) ≡ false
    → arena.commit_size ≤ size_max
    → alignment ≡ 2 ^ k
    → alignment ≤ size_max
    → AllocatesFrom system arena size alignment (alloc_in system arena size alignment blocks)
alloc_in_lem system arena size alignment k [] sound same v heap small power fits =
    alloc_new_lem system arena size alignment k sound v heap small power fits
alloc_in_lem system arena size alignment k (block ∷ blocks) sound same v heap small power fits =
    let v' : BlocksAreValid arena.backend (block ∷ blocks) =
      subst (λ l. BlocksAreValid arena.backend l) (sym same) v in
    let vb = v'.0 in
    let puts = block_alloc_lem system arena block size alignment k small vb power fits in
    elim (Option-cases (block_alloc system arena block size alignment)) [
      | inl failed ↦
          rw (alloc_in, failed)
            (alloc_new_lem system arena size alignment k sound v heap small power fits)
      | inr ((p, g), at) ↦
          let put = puts.gives p g at in
          rw (alloc_in, at)
            (record {
              valid = (put.valid, v'.1);
              heap = heap;
              gives = λ q e.
                  let same_p : p ≡ q = cc in
                  subst (λ (t : ℕ). PlacedAt system arena.blocks size alignment t (g ∷ blocks))
                    same_p
                    (record {
                      head = g;
                      tail = blocks;
                      blocks_are = refl;
                      start = vb.start;
                      data_is = ap data_at put.same_place ∙ vb.data_is;
                      multiple = put.aligned;
                      above = omega (arith, put.after);
                      ends = sym put.upto;
                      inside_head = put.valid.bounded;
                      from = inl (block, sym same, put.heap heap, put.after);
                    });
              keeps = λ e. absurd (cc);
            })
    ]

-- An arena is initialized on its first use, and is left as it is else.
record Prepares (arena : Arena) (out : Bool × Arena) : Type 0 where
  same_blocks : out.1.blocks ≡ arena.blocks
  valid : ArenaIsValid out.1
  heap : (out.1.backend == virtual_backend) ≡ false
  small : out.1.commit_size ≤ size_max

stays :
    (arena : Arena) (done : Bool)
    → ArenaIsValid arena
    → (arena.backend == virtual_backend) ≡ false
    → arena.commit_size ≤ size_max
    → Prepares arena (done, arena)
stays arena done v heap small = record { same_blocks = refl; valid = v; heap = heap; small = small }

pub is_initial_lem : (arena : Arena) → is_initial arena ≡ true → arena.blocks ≡ []
is_initial_lem arena e = go (arena.blocks) refl
  where
    go : (blocks : List Block) → arena.blocks ≡ blocks → arena.blocks ≡ []
    go [] is = is
    go (block ∷ blocks) is = absurd (let d = rw is at e in cc)

prepared_lem :
    (system : System) (arena : Arena)
    → ArenaIsValid arena
    → (arena.backend == virtual_backend) ≡ false
    → arena.commit_size ≤ size_max
    → Prepares arena (prepared system arena)
unfolding init_arena
prepared_lem system arena v heap small =
    elim (Bool-cases (arena.block_size == 0 && arena.reserve_size == 0)) [
      | inr set_up ↦ rw set_up (stays arena true v heap small)
      | inl unset ↦ elim (Bool-cases (is_initial arena)) [
        | inr busy ↦ rw (unset, init_arena, busy) (stays arena false v heap small)
        | inl first ↦
            rw (unset, init_arena, first)
              (record {
                same_blocks = sym (is_initial_lem arena first);
                valid = tt;
                heap = refl;
                small = omega arith;
              })
      ]
    ]

-- An allocation from a valid heap arena, whichever call of malloc fails, leaves a valid arena. A
-- pointer that it gives is a multiple of the alignment, and its bytes are inside the data of the
-- newest block: behind what was used there, or in a new block; the other blocks are as they were. A
-- request that fails leaves the blocks as they were.
pub alloc_aligned_lem :
    (system : System) (size alignment : ℕ) (arena : Arena)
    → SystemIsSound system
    → ArenaIsValid arena
    → (arena.backend == virtual_backend) ≡ false
    → arena.commit_size ≤ size_max
    → alignment ≤ size_max
    → AllocatesFrom system arena size alignment (alloc_aligned system size alignment arena)
unfolding alloc_aligned
alloc_aligned_lem system size alignment arena sound v heap small fits =
    elim (Bool-cases (size == 0)) [
      | inl nothing ↦
          rw (alloc_aligned, nothing) (unchanged system arena arena size alignment v heap refl)
      | inr some_bytes ↦ elim (Bool-cases (is_power_of_two alignment)) [
        | inr odd ↦
            rw (alloc_aligned, some_bytes, odd)
              (unchanged system arena arena size alignment v heap refl)
        | inl power ↦
            rw (alloc_aligned, some_bytes, power)
              (from_prepared (prepared system arena) (prepared_lem system arena v heap small)
                (is_power_of_two_lem alignment power))
      ]
    ]
  where
    from_prepared :
        (out : Bool × Arena)
        → Prepares arena out
        → (k : ℕ) × (alignment ≡ 2 ^ k)
        → AllocatesFrom system arena size alignment (alloc_prepared system size alignment out)
    from_prepared (false, after) r (k, power) =
        unchanged system arena after size alignment r.valid r.heap r.same_blocks
    from_prepared (true, after) r (k, power) =
        let a =
          alloc_in_lem system after size alignment k after.blocks sound refl r.valid r.heap r.small
            power fits in
        record {
          valid = a.valid;
          heap = a.heap;
          gives = λ p e.
              subst
                (λ l.
                  PlacedAt system l size alignment p
                    (alloc_in system after size alignment after.blocks).1.blocks)
                r.same_blocks (a.gives p e);
          keeps = λ e. a.keeps e ∙ r.same_blocks;
        }

-- ===== src/Arena/Rewinding.antt =====
-- src/memory.c: marks of a heap arena, and rewinding to them.
use liblor.Common.{
  ltb, ◌==◌, if◌then◌else◌, Bool-cases, Option-cases, size_max, ℕ, ◌+◌, ◌-◌, ◌≤◌, ◌≡◌, refl, sym,
  ap, ap₂, ◌∙◌, inl, inr, Bool, true, false, ◌&&◌, ◌||◌, some, List, [], ◌∷◌, ◌++◌, arith,
}
use liblor.Arena.{System, Block, Arena, add_overflows, is_power_of_two}
use liblor.Arena.Blocks.{block_new, block_alloc}
use liblor.Arena.Ops.{
  is_initial, init_arena, has_block, alloc_new, alloc_in, prepared, alloc_prepared, alloc_aligned,
}
use liblor.Arena.Inv.{SystemIsSound}
use liblor.Arena.Allocating.{PlacedAt}

-- What malloc documents: it gives no address that is in use.
abbrev pub IsFresh : System → List Block → Type 0
IsFresh system blocks = (n p : ℕ) → system.malloc n ≡ some p → has_block blocks p ≡ false

-- The arenas that requests lead to, each with its own answers of the system.
pub data Requested (arena : Arena) : Arena → Type 0 where
  no_request : Requested arena arena
  one_more :
      {before : Arena} (system : System) (size alignment : ℕ)
      → Requested arena before
      → SystemIsSound system
      → IsFresh system before.blocks
      → alignment ≤ size_max
      → Requested arena (alloc_aligned system size alignment before).1

-- The blocks after some requests: a marked block, which may have more used, behind new ones.
pub record Since (base : Block) (older blocks : List Block) : Type 0 where
  pub newer : List Block
  pub used : ℕ
  pub more : base.used ≤ used
  pub shape : blocks ≡ newer ++ (record base { used = used } ∷ older)
  pub apart : has_block newer base.address ≡ false

other_address :
    (newer older : List Block) (base : Block) (used a : ℕ)
    → has_block (newer ++ (record base { used = used } ∷ older)) a ≡ false
    → (a == base.address) ≡ false
other_address [] older base used a h = ground arith
other_address (block ∷ newer) older base used a h =
    other_address newer older base used a (ground arith)

-- One placement keeps the shape.
pub Since-placed :
    (system : System) (base : Block) (older before after : List Block) (size alignment p : ℕ)
    → IsFresh system before
    → Since base older before
    → PlacedAt system before size alignment p after
    → Since base older after
Since-placed system base older before after size alignment p fresh s placed = elim (placed.from) [
  | inr (tail_is, n, from) ↦ record {
    newer = placed.head ∷ s.newer;
    used = s.used;
    more = s.more;
    shape = placed.blocks_are ∙ ap (λ l. placed.head ∷ l) (tail_is ∙ s.shape);
    apart =
        let differ = other_address s.newer older base s.used placed.head.address (
          ap (λ l. has_block l placed.head.address) (sym s.shape)
          ∙ fresh n placed.head.address from) in
        ground (arith, s.apart);
  }
  | inl (old, before_is, head_is, above) ↦
      grown_head old s.newer before_is head_is above s.shape s.apart
]
  where
    grown_head :
        (old : Block) (newer : List Block)
        → before ≡ old ∷ placed.tail
        → placed.head ≡ record old { used = placed.head.used }
        → placed.start + old.used ≤ p
        → before ≡ newer ++ (record base { used = s.used } ∷ older)
        → has_block newer base.address ≡ false
        → Since base older after
    grown_head old [] before_is head_is above shape apart =
        let both : old ∷ placed.tail ≡ record base { used = s.used } ∷ older =
          sym before_is ∙ shape in
        let old_is : old ≡ record base { used = s.used } = cc in
        let tail_is : placed.tail ≡ older = cc in
        record {
          newer = [];
          used = placed.head.used;
          more = omega (arith, s.more, placed.ends, above, ap (λ (b : Block). b.used) old_is);
          shape =
              placed.blocks_are
              ∙ ap₂ (λ (b : Block) l. b ∷ l)
                  (head_is ∙ ap (λ (b : Block). record b { used = placed.head.used }) old_is)
                  tail_is;
          apart = refl;
        }
    grown_head old (first ∷ newer) before_is head_is above shape apart =
        let rest = newer ++ (record base { used = s.used } ∷ older) in
        let both : old ∷ placed.tail ≡ first ∷ rest = sym before_is ∙ shape in
        let old_is : old ≡ first = cc in
        let tail_is : placed.tail ≡ rest = cc in
        let address_is : placed.head.address ≡ first.address =
          ap (λ (b : Block). b.address) head_is ∙ ap (λ (b : Block). b.address) old_is in
        record {
          newer = placed.head ∷ newer;
          used = s.used;
          more = s.more;
          shape = placed.blocks_are ∙ ap (λ l. placed.head ∷ l) tail_is;
          apart =
              ap (λ (a : ℕ). a == base.address || has_block newer base.address) address_is ∙ apart;
        }

-- The fields of an arena besides its blocks stay.
abbrev pub SameConfig : Arena → Arena → Type 0
SameConfig arena after = after ≡ record arena { blocks = after.blocks }

alloc_new-SameConfig :
    (system : System) (arena : Arena) (size alignment : ℕ)
    → SameConfig arena (alloc_new system arena size alignment).1
alloc_new-SameConfig system arena size alignment =
    let padding : ℕ = if ltb 1 alignment then alignment - 1 else 0 in
    elim (Bool-cases (add_overflows size padding)) [
      | inl over ↦ rw (alloc_new, over) refl
      | inr room ↦ elim (Option-cases (block_new system arena (size + padding))) [
        | inl failed ↦ rw (alloc_new, room, failed) refl
        | inr (b, there) ↦ elim (Option-cases (block_alloc system arena b size alignment)) [
          | inl failed ↦ rw (alloc_new, room, there, failed) refl
          | inr ((p, g), at) ↦ rw (alloc_new, room, there, at) refl
        ]
      ]
    ]

alloc_in-SameConfig :
    (system : System) (arena : Arena) (size alignment : ℕ) (blocks : List Block)
    → SameConfig arena (alloc_in system arena size alignment blocks).1
alloc_in-SameConfig system arena size alignment [] =
    alloc_new-SameConfig system arena size alignment
alloc_in-SameConfig system arena size alignment (block ∷ blocks) =
    elim (Option-cases (block_alloc system arena block size alignment)) [
      | inl failed ↦ rw (alloc_in, failed) (alloc_new-SameConfig system arena size alignment)
      | inr ((p, g), at) ↦ rw (alloc_in, at) refl
    ]

-- An arena with blocks is not initialized again.
prepared_with_blocks :
    (system : System) (arena : Arena) → is_initial arena ≡ false → (prepared system arena).1 ≡ arena
unfolding init_arena
prepared_with_blocks system arena busy =
    elim (Bool-cases (arena.block_size == 0 && arena.reserve_size == 0)) [
      | inr set_up ↦ rw (prepared, set_up) refl
      | inl unset ↦ rw (prepared, unset, init_arena, busy) refl
    ]

pub alloc_aligned-SameConfig :
    (system : System) (size alignment : ℕ) (arena : Arena)
    → is_initial arena ≡ false
    → SameConfig arena (alloc_aligned system size alignment arena).1
unfolding alloc_aligned
alloc_aligned-SameConfig system size alignment arena busy = elim (Bool-cases (size == 0)) [
  | inl nothing ↦ rw (alloc_aligned, nothing) refl
  | inr some_bytes ↦ elim (Bool-cases (is_power_of_two alignment)) [
    | inr odd ↦ rw (alloc_aligned, some_bytes, odd) refl
    | inl power ↦
        rw (alloc_aligned, some_bytes, power)
          (from_prepared (prepared system arena) (prepared_with_blocks system arena busy))
  ]
]
  where
    from_prepared :
        (out : Bool × Arena)
        → out.1 ≡ arena
        → SameConfig arena (alloc_prepared system size alignment out).1
    from_prepared (false, after) e = rw e refl
    from_prepared (true, after) e =
        rw e (alloc_in-SameConfig system arena size alignment arena.blocks)

-- ===== src/Arena/Marks.antt =====
-- src/memory.c: rewinding to a mark undoes the allocations since.
use liblor.Common.{
  ltb, ◌==◌, Bool-cases, Option-cases, size_max, ℕ, ◌≤◌, ◌≡◌, refl, sym, ap, subst, ◌∙◌, inl, inr,
  true, false, some, List, [], ◌∷◌, ◌++◌, arith,
}
use liblor.Arena.{virtual_backend, Block, Arena}
use liblor.Arena.Ops.{
  is_initial, addresses, mark_of, arena_mark, has_block, drop_to, arena_rewind, alloc_aligned,
}
use liblor.Arena.Inv.{ArenaIsValid}
use liblor.Arena.Requests.{is_initial_lem, alloc_aligned_lem}
use liblor.Arena.Rewinding.{
  Requested, no_request, one_more, Since, Since-placed, SameConfig, alloc_aligned-SameConfig,
}

same_number : (n : ℕ) → (n == n) ≡ true
same_number n = ground arith

-- An arena that requests lead to from one with a newest block.
record Follows (arena : Arena) (base : Block) (older : List Block) (after : Arena) : Type 0 where
  valid : ArenaIsValid after
  heap : (after.backend == virtual_backend) ≡ false
  small : after.commit_size ≤ size_max
  since : Since base older after.blocks
  config : SameConfig arena after

not_empty : (newer older : List Block) (base : Block) → [] ≡ newer ++ (base ∷ older) → ⊥
not_empty [] older base e = cc
not_empty (block ∷ newer) older base e = cc

is_initial-Since :
    (base : Block) (older : List Block) (after : Arena)
    → Since base older after.blocks
    → is_initial after ≡ false
is_initial-Since base older after s = elim (Bool-cases (is_initial after)) [
  | inr busy ↦ busy
  | inl first ↦ absurd (
      not_empty s.newer older (record base { used = s.used })
        (sym (is_initial_lem after first) ∙ s.shape))
]

requested_lem :
    (base : Block) (older : List Block) {arena after : Arena}
    → ArenaIsValid arena
    → (arena.backend == virtual_backend) ≡ false
    → arena.commit_size ≤ size_max
    → arena.blocks ≡ base ∷ older
    → Requested arena after
    → Follows arena base older after
requested_lem base older v heap small e no_request = record {
  valid = v;
  heap = heap;
  small = small;
  since = record { newer = []; used = base.used; more = omega arith; shape = e; apart = refl };
  config = refl;
}
requested_lem base older v heap small e
      (one_more {before} system size alignment r sound fresh fits) =
    let f = requested_lem base older v heap small e r in
    let a = alloc_aligned_lem system size alignment before sound f.valid f.heap f.small fits in
    let frame =
      alloc_aligned-SameConfig system size alignment before
        (is_initial-Since base older before f.since) in
    let out = alloc_aligned system size alignment before in
    record {
      valid = a.valid;
      heap = a.heap;
      small = subst (λ (x : Arena). x.commit_size ≤ size_max) (sym frame) f.small;
      since = elim (Option-cases (out.0)) [
        | inl failed ↦ subst (λ l. Since base older l) (sym (a.keeps failed)) f.since
        | inr (p, given) ↦
            Since-placed system base older before.blocks out.1.blocks size alignment p fresh f.since
              (a.gives p given)
      ];
      config = frame ∙ ap (λ (x : Arena). record x { blocks = out.1.blocks }) f.config;
    }

has_base :
    (newer older : List Block) (base : Block)
    → has_block (newer ++ (base ∷ older)) base.address ≡ true
has_base [] older base = rw (same_number base.address) refl
has_base (block ∷ newer) older base = let h = has_base newer older base in ground arith

drop_to_base :
    (newer older : List Block) (base : Block)
    → has_block newer base.address ≡ false
    → drop_to (newer ++ (base ∷ older)) base.address ≡ (base ∷ older, addresses newer)
drop_to_base [] older base h = rw (same_number base.address) refl
drop_to_base (block ∷ newer) older base h =
    let differ : (block.address == base.address) ≡ false = ground arith in
    let rest : has_block newer base.address ≡ false = ground arith in
    rw (differ, drop_to_base newer older base rest) refl

mark_at :
    (arena : Arena) (base : Block) (older : List Block)
    → arena.blocks ≡ base ∷ older
    → arena_mark (some arena) ≡ mark_of (base ∷ older)
unfolding arena_mark
mark_at arena base older e = ap mark_of e

rewound :
    (after : Arena) (base : Block) (newer older : List Block) (used : ℕ)
    → after.blocks ≡ newer ++ (record base { used = used } ∷ older)
    → has_block newer base.address ≡ false
    → base.used ≤ used
    → arena_rewind (some after) (mark_of (base ∷ older))
      ≡ (some (record after { blocks = base ∷ older }), addresses newer)
unfolding arena_rewind
rewound after base newer older used shape apart more =
    let grown = record base { used = used } in
    let unspent : ltb used base.used ≡ false = ground arith in
    rw
      (
        arena_rewind,
        shape,
        has_base newer older grown,
        drop_to_base newer older grown apart,
        unspent,
      )
      refl

-- Rewinding a valid heap arena to a mark, after any requests of memory since the mark was taken in
-- which malloc gave no address in use, leaves the arena as it was at the mark, if it had a block
-- then: each block that is newer is released, newest first, and no other.
pub arena_rewind-mark :
    (base : Block) (older : List Block) {arena after : Arena}
    → ArenaIsValid arena
    → (arena.backend == virtual_backend) ≡ false
    → arena.commit_size ≤ size_max
    → arena.blocks ≡ base ∷ older
    → Requested arena after
    → (newer : List Block) × (used : ℕ) × (after.blocks
        ≡ newer ++ (record base { used = used } ∷ older))
      × (arena_rewind (some after) (arena_mark (some arena)) ≡ (some arena, addresses newer))
arena_rewind-mark base older {arena} {after} v heap small e r =
    let f = requested_lem base older v heap small e r in
    let s = f.since in
    let config : record after { blocks = base ∷ older } ≡ arena =
      ap (λ (x : Arena). record x { blocks = base ∷ older }) f.config
      ∙ ap (λ l. record arena { blocks = l }) (sym e) in
    (
      s.newer,
      s.used,
      s.shape,
      ap (λ m. arena_rewind (some after) m) (mark_at arena base older e)
          ∙ rewound after base s.newer older s.used s.shape s.apart s.more
          ∙ ap (λ x. (some x, addresses s.newer)) config,
    )

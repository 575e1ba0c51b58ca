-- ===== src/Arena/Allocating.antt =====
-- src/memory.c: `lor_arena__alloc_aligned` of a heap arena.
use native.Mathlib.Nat.{one-le-pow}
use liblor.Common.{
  ltb, ◌==◌, if◌then◌else◌, Bool-cases, Option-cases, size_max, add_size, ℕ, ◌+◌, ◌-◌, ◌%◌, ◌^◌,
  ◌≤◌, ◌≡◌, refl, sym, ap, subst, ◌∙◌, ◌⊎◌, inl, inr, false, Option, none, some, List, ◌∷◌, arith,
}
use liblor.Arena.{
  System, max_alignment, block_header, virtual_backend, Block, Arena, add_overflows, align_forward,
}
use liblor.Arena.Blocks.{data_at, block_data, header_slack, heap_block_new, block_alloc}
use liblor.Arena.Alignment.{align_forward_lem}
use liblor.Arena.Inv.{BlockIsValid, ArenaIsValid, SystemIsSound}
use liblor.Arena.Ops.{alloc_new}
use liblor.Arena.Placing.{block_alloc_lem}

-- A new heap block: it is unused, and where malloc put it.
pub record NewBlock (system : System) (backend capacity : ℕ) (b : Block) : Type 0 where
  pub valid : BlockIsValid backend b
  pub fresh : b.used ≡ 0
  pub room : b.capacity ≡ capacity
  pub from : system.malloc (capacity + header_slack) ≡ some b.address

-- The data of a block begin at most 15 bytes behind its header.
data_at_lem :
    (p : ℕ)
    → p + header_slack ≤ size_max
    → (start : ℕ) × (data_at p ≡ some start)
      × (p + block_header ≤ start)
      × (start ≤ p + header_slack)
unfolding data_at
data_at_lem p fits =
    let sum : add_size p block_header ≡ p + block_header = omega arith in
    let aligns = align_forward_lem 4 (p + block_header) max_alignment refl (omega arith) in
    elim (Option-cases (align_forward (p + block_header) max_alignment)) [
      | inl over ↦ absurd (omega (arith, aligns.fails over))
      | inr (start, at) ↦ (
        start,
        ap (λ (t : ℕ). align_forward t max_alignment) sum ∙ at,
        aligns.above start at,
        omega (arith, aligns.near start at),
      )
    ]

abbrev heap_block : ℕ → ℕ → Block
heap_block capacity p = record {
  address = p;
  capacity = capacity;
  committed = capacity;
  used = 0;
  allocation_size = capacity + header_slack;
}

heap_block-IsValid :
    (backend capacity p : ℕ)
    → (backend == virtual_backend) ≡ false
    → p + (capacity + header_slack) ≤ size_max
    → BlockIsValid backend (heap_block capacity p)
heap_block-IsValid backend capacity p heap fits =
    let (start, at, behind, near) = data_at_lem p (omega arith) in
    record {
      start = start;
      data_is = at;
      behind = omega arith;
      inside_block = omega arith;
      inside_space = omega arith;
      bounded = omega arith;
      backed = λ e. absurd (let d = sym heap ∙ e in cc);
    }

pub heap_block_new_lem :
    (system : System) (backend capacity : ℕ) (b : Block)
    → SystemIsSound system
    → (backend == virtual_backend) ≡ false
    → heap_block_new system capacity ≡ some b
    → NewBlock system backend capacity b
unfolding heap_block_new
heap_block_new_lem system backend capacity b sound heap e =
    elim (Bool-cases (add_overflows capacity header_slack)) [
      | inl over ↦ absurd (let d = rw over at e in cc)
      | inr fits ↦ elim (Option-cases (system.malloc (capacity + header_slack))) [
        | inl failed ↦ absurd (let d = rw (fits, failed) at e in cc)
        | inr (p, at) ↦
            let e' : some (heap_block capacity p) ≡ some b = rw (fits, at) at e in
            let it : heap_block capacity p ≡ b = cc in
            subst (λ c. NewBlock system backend capacity c) it
              (record {
                valid =
                    heap_block-IsValid backend capacity p heap
                      (sound.malloc_fits (capacity + header_slack) p at);
                fresh = refl;
                room = refl;
                from = at;
              })
      ]
    ]

-- Where an allocation is, in the newest block of an arena. That block is an old one in which it lies
-- behind what was used, or a new one that malloc gave.
pub record PlacedAt (system : System) (before : List Block) (size alignment p : ℕ)
    (after : List Block) : Type 0 where
  pub head : Block
  pub tail : List Block
  pub blocks_are : after ≡ head ∷ tail
  pub start : ℕ
  pub data_is : block_data head ≡ some start
  pub multiple : p % alignment ≡ 0
  pub above : start ≤ p
  pub ends : p + size ≡ start + head.used
  pub inside_head : head.used ≤ head.capacity
  pub from :
      ((old : Block) × (before ≡ old ∷ tail)
        × (head ≡ record old { used = head.used })
        × (start + old.used ≤ p))
      ⊎ ((tail ≡ before) × (n : ℕ) × (system.malloc n ≡ some head.address))

-- What allocating does to a heap arena.
pub record AllocatesFrom (system : System) (arena : Arena) (size alignment : ℕ)
    (out : Option ℕ × Arena) : Type 0 where
  pub valid : ArenaIsValid out.1
  pub heap : (out.1.backend == virtual_backend) ≡ false
  pub gives : (p : ℕ) → out.0 ≡ some p → PlacedAt system arena.blocks size alignment p out.1.blocks
  pub keeps : out.0 ≡ none → out.1.blocks ≡ arena.blocks

pub unchanged :
    (system : System) (arena after : Arena) (size alignment : ℕ)
    → ArenaIsValid after
    → (after.backend == virtual_backend) ≡ false
    → after.blocks ≡ arena.blocks
    → AllocatesFrom system arena size alignment (none, after)
unchanged system arena after size alignment v heap e = record {
  valid = v;
  heap = heap;
  gives = λ p d. absurd (cc);
  keeps = λ _. e;
}

-- A new block always has room.
pub alloc_new_lem :
    (system : System) (arena : Arena) (size alignment k : ℕ)
    → SystemIsSound system
    → ArenaIsValid arena
    → (arena.backend == virtual_backend) ≡ false
    → arena.commit_size ≤ size_max
    → alignment ≡ 2 ^ k
    → alignment ≤ size_max
    → AllocatesFrom system arena size alignment (alloc_new system arena size alignment)
alloc_new_lem system arena size alignment k sound v heap small power fits =
    let pos : 1 ≤ alignment = omega (arith, one-le-pow k 2 (omega arith)) in
    let padding : ℕ = if ltb 1 alignment then alignment - 1 else 0 in
    let padding_is : padding ≡ alignment - 1 = ground arith in
    let c : ℕ =
      if ltb arena.block_size (size + padding) then size + padding else arena.block_size in
    let enough : size + padding ≤ c = ground arith in
    elim (Bool-cases (add_overflows size padding)) [
      | inl over ↦ rw over (unchanged system arena arena size alignment v heap refl)
      | inr room ↦ elim (Option-cases (heap_block_new system c)) [
        | inl failed ↦
            rw (room, heap, failed) (unchanged system arena arena size alignment v heap refl)
        | inr (b, there) ↦
            let new = heap_block_new_lem system arena.backend c b sound heap there in
            let vb = new.valid in
            let puts = block_alloc_lem system arena b size alignment k small vb power fits in
            elim (Option-cases (block_alloc system arena b size alignment)) [
              | inl failed ↦ absurd (omega (arith, puts.fails failed heap, new.fresh, new.room))
              | inr ((p, g), at) ↦
                  let put = puts.gives p g at in
                  rw (room, heap, there, at)
                    (record {
                      valid = (put.valid, v);
                      heap = heap;
                      gives = λ q e.
                          let same : p ≡ q = cc in
                          subst
                            (λ (t : ℕ).
                              PlacedAt system arena.blocks size alignment t (g ∷ arena.blocks))
                            same
                            (record {
                              head = g;
                              tail = arena.blocks;
                              blocks_are = refl;
                              start = vb.start;
                              data_is = ap data_at put.same_place ∙ vb.data_is;
                              multiple = put.aligned;
                              above = omega (arith, put.after);
                              ends = sym put.upto;
                              inside_head = put.valid.bounded;
                              from =
                                  inr (
                                    refl,
                                    c + header_slack,
                                    new.from ∙ ap some (sym put.same_place),
                                  );
                            });
                      keeps = λ e. absurd (cc);
                    })
            ]
      ]
    ]

-- ===== src/Arena/Placing.antt =====
-- src/memory.c: where `lor_arena__block_alloc` puts an allocation.
use liblor.Common.{
  ltb, ◌==◌, if◌then◌else◌, Bool-cases, Option-cases, size_max, add_size, ℕ, ◌+◌, ◌-◌, ◌%◌, ◌^◌,
  ◌≤◌, ◌<◌, ◌≡◌, refl, sym, ap, subst, subst₂, ◌∙◌, inl, inr, true, false, Option, none, some,
  arith,
}
use liblor.Arena.{System, virtual_backend, Block, Arena, align_forward}
use liblor.Arena.Blocks.{ensure_committed, grown_block, block_alloc}
use liblor.Arena.Alignment.{align_forward_lem}
use liblor.Arena.Inv.{BlockIsValid}
use liblor.Arena.Committing.{ensure_committed_lem}

-- An allocation at `p` in a block, whose data begin at `start`, and the block it leaves.
pub record PutsAt (backend : ℕ) (block : Block) (start size alignment p : ℕ) (grown : Block)
    : Type 0 where
  pub aligned : p % alignment ≡ 0
  pub after : start + block.used ≤ p
  pub upto : start + grown.used ≡ p + size
  pub same_place : grown.address ≡ block.address
  pub same_capacity : grown.capacity ≡ block.capacity
  pub valid : BlockIsValid backend grown
  pub heap : (backend == virtual_backend) ≡ false → grown ≡ record block { used = grown.used }

-- A heap block refuses only what does not fit behind the alignment.
pub record AllocatesIn (backend : ℕ) (block : Block) (start size alignment : ℕ)
    (out : Option (ℕ × Block)) : Type 0 where
  pub gives :
      (p : ℕ) (grown : Block)
      → out ≡ some (p, grown)
      → PutsAt backend block start size alignment p grown
  pub fails :
      out ≡ none
      → (backend == virtual_backend) ≡ false
      → block.capacity < block.used + size + (alignment - 1)

refuses :
    (backend : ℕ) (block : Block) (start size alignment : ℕ)
    → ((backend == virtual_backend) ≡ false → block.capacity < block.used + size + (alignment - 1))
    → AllocatesIn backend block start size alignment none
refuses backend block start size alignment f = record {
  gives = λ p g e. absurd (cc);
  fails = λ _. f;
}

-- A block with so much used, committed where it is virtual.
record Grown (backend : ℕ) (block : Block) (new_used : ℕ) (g : Block) : Type 0 where
  used_is : g.used ≡ new_used
  same_place : g.address ≡ block.address
  same_capacity : g.capacity ≡ block.capacity
  valid : BlockIsValid backend g
  heap : (backend == virtual_backend) ≡ false → g ≡ record block { used = new_used }

abbrev with_used : Block → ℕ → ℕ → Block
with_used block committed used = record block { committed = committed; used = used }

pub with_used-IsValid :
    (backend : ℕ) (block : Block) (committed used : ℕ)
    → (v : BlockIsValid backend block) → used ≤ block.capacity
    → ((backend == virtual_backend) ≡ true → v.start - block.address + used ≤ committed)
    → BlockIsValid backend (record block { committed = committed; used = used })
with_used-IsValid backend block committed used v fits back = record {
  start = v.start;
  data_is = v.data_is;
  behind = v.behind;
  inside_block = v.inside_block;
  inside_space = v.inside_space;
  bounded = fits;
  backed = back;
}

heap-Grown :
    (system : System) (arena : Arena) (block g : Block) (new_used : ℕ)
    → BlockIsValid arena.backend block
    → new_used ≤ block.capacity
    → (arena.backend == virtual_backend) ≡ false
    → record block { used = new_used } ≡ g
    → Grown arena.backend block new_used g
heap-Grown system arena block g new_used v fits heap e =
    subst (λ c. Grown arena.backend block new_used c) e
      (record {
        used_is = refl;
        same_place = refl;
        same_capacity = refl;
        valid =
            with_used-IsValid arena.backend block block.committed new_used v fits
              (λ d. absurd (let f = sym heap ∙ d in cc));
        heap = λ _. refl;
      })

virtual-Grown :
    (system : System) (arena : Arena) (block g : Block) (new_used committed : ℕ)
    → (v : BlockIsValid arena.backend block) → new_used ≤ block.capacity
    → (arena.backend == virtual_backend) ≡ true
    → v.start - block.address + new_used ≤ committed
    → with_used block committed new_used ≡ g
    → Grown arena.backend block new_used g
virtual-Grown system arena block g new_used committed v fits virtual enough e =
    subst (λ c. Grown arena.backend block new_used c) e
      (record {
        used_is = refl;
        same_place = refl;
        same_capacity = refl;
        valid = with_used-IsValid arena.backend block committed new_used v fits (λ _. enough);
        heap = λ d. absurd (let f = sym virtual ∙ d in cc);
      })

grown_block_lem :
    (system : System) (arena : Arena) (block g : Block) (new_used : ℕ)
    → arena.commit_size ≤ size_max
    → BlockIsValid arena.backend block
    → new_used ≤ block.capacity
    → grown_block system arena block new_used ≡ some g
    → Grown arena.backend block new_used g
grown_block_lem system arena block g new_used small v fits e =
    elim (Bool-cases (arena.backend == virtual_backend)) [
      | inr heap ↦
          let e' : some (record block { used = new_used }) ≡ some g = rw heap at e in
          heap-Grown system arena block g new_used v fits heap (cc)
      | inl virtual ↦
          elim (Option-cases (ensure_committed system block new_used arena.commit_size)) [
            | inl failed ↦ absurd (let d = rw (virtual, failed) at e in cc)
            | inr (b, there) ↦
                let e' : some (record b { used = new_used }) ≡ some g = rw (virtual, there) at e in
                let c =
                  ensure_committed_lem system block new_used arena.commit_size v.start v.data_is
                    v.inside_block v.behind small in
                let same = c.keeps b there in
                let shape : record b { used = new_used } ≡ with_used block b.committed new_used =
                  ap (λ (t : Block). record t { used = new_used }) same in
                let it : record b { used = new_used } ≡ g = cc in
                virtual-Grown system arena block g new_used b.committed v fits virtual
                  (c.enough b there) (sym shape ∙ it)
          ]
    ]

-- The tests and the growth behind an aligned address.
abbrev put_at : System → Arena → Block → ℕ → ℕ → ℕ → Option (ℕ × Block)
put_at system arena block size base aligned =
    let padding = aligned - (base + block.used) in
    if ltb (block.capacity - block.used) padding
    then none
    else if ltb (block.capacity - block.used - padding) size
    then none
    else elim (grown_block system arena block (block.used + padding + size)) [
      | none ↦ none
      | some grown ↦ some (aligned, grown)
    ]

put_at_lem :
    (system : System) (arena : Arena) (block : Block) (size alignment p : ℕ)
    → arena.commit_size ≤ size_max
    → (v : BlockIsValid arena.backend block) → p % alignment ≡ 0
    → v.start + block.used ≤ p
    → p < v.start + block.used + alignment
    → AllocatesIn arena.backend block v.start size alignment
        (put_at system arena block size v.start p)
put_at_lem system arena block size alignment p small v multiple above near =
    let padding = p - (v.start + block.used) in
    let refuse = refuses arena.backend block v.start size alignment in
    elim (Bool-cases (ltb (block.capacity - block.used) padding)) [
      | inl wide ↦ rw wide (refuse (λ _. ground (arith, v.bounded)))
      | inr room ↦ elim (Bool-cases (ltb (block.capacity - block.used - padding) size)) [
        | inl large ↦ rw (room, large) (refuse (λ _. ground (arith, v.bounded)))
        | inr fits ↦
            let used = block.used + padding + size in
            let bounded : used ≤ block.capacity = ground (arith, v.bounded) in
            elim (Option-cases (grown_block system arena block used)) [
              | inl failed ↦
                  rw (room, fits, failed)
                    (refuse (λ heap. absurd (let d = rw heap at failed in cc)))
              | inr (g, there) ↦
                  let grown = grown_block_lem system arena block g used small v bounded there in
                  rw (room, fits, there)
                    (record {
                      gives = λ q c e.
                          let same : g ≡ c = cc in
                          let same_p : p ≡ q = cc in
                          subst₂
                            (λ (t : ℕ) (b : Block).
                              PutsAt arena.backend block v.start size alignment t b)
                            same_p same
                            (record {
                              aligned = multiple;
                              after = above;
                              upto = omega (arith, grown.used_is);
                              same_place = grown.same_place;
                              same_capacity = grown.same_capacity;
                              valid = grown.valid;
                              heap = λ h.
                                  grown.heap h
                                  ∙ ap (λ (t : ℕ). record block { used = t }) (sym grown.used_is);
                            });
                      fails = λ e. absurd (cc);
                    })
            ]
      ]
    ]

-- An allocation in a valid block, of an alignment that is a power of two, is a multiple of the
-- alignment, behind what was used and inside the block, which stays valid; a heap block refuses
-- only what does not fit behind its alignment.
pub block_alloc_lem :
    (system : System) (arena : Arena) (block : Block) (size alignment k : ℕ)
    → arena.commit_size ≤ size_max
    → (v : BlockIsValid arena.backend block) → alignment ≡ 2 ^ k
    → alignment ≤ size_max
    → AllocatesIn arena.backend block v.start size alignment
        (block_alloc system arena block size alignment)
unfolding block_alloc
block_alloc_lem system arena block size alignment k small v power fits =
    let here : add_size v.start block.used ≡ v.start + block.used =
      omega (arith, v.inside_block, v.inside_space, v.bounded) in
    let whole : ltb block.capacity block.used ≡ false = ground (arith, v.bounded) in
    let aligns = align_forward_lem k (v.start + block.used) alignment power fits in
    elim (Option-cases (align_forward (v.start + block.used) alignment)) [
      | inl none_fits ↦
          rw (block_alloc, v.data_is, here, whole, none_fits)
            (refuses arena.backend block v.start size alignment
              (λ _. omega (arith, aligns.fails none_fits, v.inside_block, v.inside_space)))
      | inr (p, at) ↦
          rw (block_alloc, v.data_is, here, whole, at)
            (put_at_lem system arena block size alignment p small v (aligns.multiple p at)
              (aligns.above p at) (aligns.near p at))
    ]

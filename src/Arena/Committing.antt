-- ===== src/Arena/Committing.antt =====
-- src/memory.c: `lor_arena__block_ensure_committed`.
use liblor.Common.{
  ltb, leb, ◌==◌, if◌then◌else◌, Bool-cases, size_max, ℕ, ◌+◌, ◌-◌, ◌≤◌, ◌≡◌, refl, subst, inl, inr,
  Option, none, some, arith,
}
use liblor.Arena.{System, Block, add_overflows, align_up}
use liblor.Arena.Blocks.{block_data, committed_for, commit_more, ensure_committed}
use liblor.Arena.Alignment.{align_up-ge}

-- A block with more committed, or the same block; the bytes that are needed are committed.
pub record Commits (block : Block) (needed : ℕ) (out : Option Block) : Type 0 where
  pub keeps : (b : Block) → out ≡ some b → b ≡ record block { committed = b.committed }
  pub enough : (b : Block) → out ≡ some b → needed ≤ b.committed

committed_for-le :
    (needed commit_size wanted : ℕ)
    → commit_size ≤ size_max
    → committed_for needed commit_size ≡ some wanted
    → needed ≤ wanted
committed_for-le needed commit_size wanted small e = elim (Bool-cases (commit_size == 0)) [
  | inl any ↦
      let e' : some needed ≡ some wanted = rw any at e in
      let same : needed ≡ wanted = cc in omega arith
  | inr some_size ↦ elim (Bool-cases (add_overflows needed (commit_size - 1))) [
    | inl over ↦ absurd (let d = rw (some_size, over) at e in cc)
    | inr fits ↦
        let e' : some (align_up needed commit_size) ≡ some wanted = rw (some_size, fits) at e in
        let same : align_up needed commit_size ≡ wanted = cc in
        omega (arith, align_up-ge needed commit_size (ground arith) small (ground arith))
  ]
]

-- More is committed at most up to what is allocated, which is enough for bytes inside the block.
commit_more_lem :
    (system : System) (block : Block) (needed : ℕ) (wanted : Option ℕ)
    → needed ≤ block.allocation_size
    → ((w : ℕ) → wanted ≡ some w → needed ≤ w)
    → Commits block needed (commit_more system block wanted)
commit_more_lem system block needed none fits more = record {
  keeps = λ b e. absurd (cc);
  enough = λ b e. absurd (cc);
}
commit_more_lem system block needed (some wanted) fits more =
    let n : ℕ = if ltb block.allocation_size wanted then block.allocation_size else wanted in
    let long : needed ≤ n = ground (arith, more wanted refl) in
    elim (Bool-cases (system.commit (block.address + block.committed) (n - block.committed))) [
      | inr failed ↦ rw failed (record { keeps = λ b e. absurd (cc); enough = λ b e. absurd (cc) })
      | inl good ↦ rw good (record {
        keeps = λ b e.
            let e' : record block { committed = n } ≡ b = cc in
            subst (λ c. c ≡ record block { committed = c.committed }) e' refl;
        enough = λ b e.
            let e' : record block { committed = n } ≡ b = cc in
            subst (λ (c : Block). needed ≤ c.committed) e' long;
      })
    ]

pub ensure_committed_lem :
    (system : System) (block : Block) (used commit_size start : ℕ)
    → block_data block ≡ some start
    → start + block.capacity ≤ block.address + block.allocation_size
    → block.address ≤ start
    → commit_size ≤ size_max
    → Commits block (start - block.address + used) (ensure_committed system block used commit_size)
unfolding ensure_committed
ensure_committed_lem system block used commit_size start e inside_block behind small =
    let refused : Commits block (start - block.address + used) none = record {
      keeps = λ b d. absurd (cc);
      enough = λ b d. absurd (cc);
    } in
    let total = start - block.address + used in
    elim (Bool-cases (ltb block.capacity used)) [
      | inl large ↦ rw (ensure_committed, e, large) refused
      | inr fits ↦ elim (Bool-cases (add_overflows (start - block.address) used)) [
        | inl over ↦ rw (ensure_committed, e, fits, over) refused
        | inr room ↦ elim (Bool-cases (leb total block.committed)) [
          | inl there ↦
              rw (ensure_committed, e, fits, room, there)
                (record {
                  keeps = λ b d.
                      let same : block ≡ b = cc in
                      subst (λ c. c ≡ record block { committed = c.committed }) same refl;
                  enough = λ b d.
                      let same : block ≡ b = cc in
                      subst (λ (c : Block). total ≤ c.committed) same (ground arith);
                })
          | inr short ↦
              rw (ensure_committed, e, fits, room, short)
                (commit_more_lem system block total (committed_for total commit_size) (ground arith)
                  (λ w d. committed_for-le total commit_size w small d))
        ]
      ]
    ]

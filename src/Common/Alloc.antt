-- ===== src/Common/Alloc.antt =====
-- What the containers share of the C allocator: cells, `realloc`, and the doubling of capacities.
use Prim.Native.Nat.{ℕ, zero, suc, ◌+◌, ◌-◌, ◌*◌, ◌/◌, ◌%◌, ◌^◌, ◌≤◌, max}
use mathlib.Core.Path.{◌≡◌, ap, ◌∙◌}
use mathlib.Core.Logic.{inl, inr}
use mathlib.Core.List.{List, ◌++◌}
use mathlib.Core.Option.{Option, none, some}
use native.Mathlib.Nat.{pow-suc}
use native.Mathlib.Omega.{arith}
use liblor.Common.Tests.{ltb, if◌then◌else◌, le_cases}
use liblor.Common.Lists.{
  length, take, replicate, length-append, length-take, length-replicate, take-take, take-append,
}
use liblor.Common.Words.{size_max}

-- A byte of memory; `none` is indeterminate or cannot be read.
abbrev pub Cell : Type 0
Cell = Option ℕ

-- `realloc`: from the old pointer (`none` is NULL) and the size to the new pointer.
abbrev pub Realloc : Type 0
Realloc = Option ℕ → ℕ → Option ℕ

-- A block that `realloc` returns does not wrap round the address space.
abbrev pub IsAllocator : Realloc → Type 0
IsAllocator realloc = (old : Option ℕ) (n : ℕ) (p : ℕ) → realloc old n ≡ some p → p + n ≤ size_max

-- The contents of a block of `n` cells that was resized.
abbrev pub refit : ℕ → List Cell → List Cell
refit n cells = take n cells ++ replicate (n - length cells) none

pub length-refit : (n : ℕ) (cells : List Cell) → length (refit n cells) ≡ n
length-refit n cells = omega (
  arith,
  length-append (take n cells) (replicate (n - length cells) none),
  length-take n cells,
  length-replicate (n - length cells) (let c : Cell = none in c),
)

-- `while (result < required) { if (result > SIZE_MAX / 2u) { result = required; break; }
-- result *= 2u; }` with fuel for its rounds.
unfoldable pub double_until : ℕ → ℕ → ℕ → ℕ
double_until zero result required = result
double_until (suc fuel) result required =
    let rest = double_until fuel ((result * 2) % 2 ^ 64) required in
    if ltb result required then if ltb (size_max / 2) result then required else rest else result

-- The fuel suffices where that many doublings pass `SIZE_MAX`.
pub double_until_enough :
    (fuel result required : ℕ)
    → required ≤ size_max
    → size_max ≤ result * 2 ^ fuel
    → required ≤ double_until fuel result required
unfolding double_until
double_until_enough zero result required r h = omega arith
double_until_enough (suc fuel) result required r h = elim (le_cases result (size_max / 2)) [
  | inr large ↦ ground arith
  | inl small ↦
      let e : (result * 2) % 2 ^ 64 ≡ result * 2 = omega arith in
      let h' : size_max ≤ ((result * 2) % 2 ^ 64) * 2 ^ fuel = omega (
        arith,
        pow-suc 2 fuel,
        ap (λ (t : ℕ). t * 2 ^ fuel) e,
        ap (λ (t : ℕ). result * t) (pow-suc 2 fuel),
      ) in
      ground (arith, double_until_enough fuel ((result * 2) % 2 ^ 64) required r h')
]

-- The loop never goes below where it began, and at most doubles what is required.
pub double_until_bounds :
    (fuel result required : ℕ)
    → required ≤ size_max
    → (result ≤ double_until fuel result required)
      × (double_until fuel result required ≤ max result (2 * required))
      × (double_until fuel result required ≤ max result size_max)
unfolding double_until
double_until_bounds zero result required r = omega arith
double_until_bounds (suc fuel) result required r =
    ground (arith, double_until_bounds fuel ((result * 2) % 2 ^ 64) required)

-- What a resized block keeps.
pub take-refit :
    (k n : ℕ) (cells : List Cell) → k ≤ n → k ≤ length cells → take k (refit n cells) ≡ take k cells
take-refit k n cells h l =
    take-append k (take n cells) (replicate (n - length cells) none)
      (omega (arith, length-take n cells))
    ∙ take-take k n cells h

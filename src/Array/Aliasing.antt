-- ===== src/Array/Aliasing.antt =====
-- `lor_array__source_offset`: what the alias test answers.
use liblor.Common.{
  size_max, sub_size, mul_size_exact, le-div_of_mul-le, ℕ, ◌+◌, ◌*◌, ◌≤◌, ◌<◌, ◌≡◌, ◌↔◌, ◌⊎◌, some,
  arith,
}
use liblor.Array.{Array, Alias, source_offset}
use liblor.Array.Inv.{IsValid, used-le}

-- The test finds a range of the array's elements, at its offset.
pub source_offset-inside :
    (p offset n : ℕ) (a : Array)
    → IsValid a
    → p ≡ a.base + offset
    → offset + n ≤ a.size * a.element_size
    → source_offset (some a) p n ≡ Alias.inside offset
unfolding source_offset
source_offset-inside p offset n a v e h =
    let used = used-le v in
    let whole = le-div_of_mul-le a.capacity a.element_size size_max v.sized (omega arith) in
    let initialized = mul_size_exact a.size a.element_size (omega arith) in
    let allocated = mul_size_exact a.capacity a.element_size (omega arith) in
    let place : sub_size p a.base ≡ offset = omega arith in
    rw (initialized, allocated, place) (ground arith)

-- For a valid array the alias test calls a range separate exactly if it begins at NULL, before the
-- block, or behind its end.
pub source_offset-separate :
    (p n : ℕ) (a : Array)
    → IsValid a
    → (source_offset (some a) p n ≡ Alias.separate)
      ↔ ((p ≡ 0) ⊎ (p < a.base) ⊎ (a.base + a.capacity * a.element_size < p))
unfolding source_offset
source_offset-separate p n a v =
    let used = used-le v in
    let whole = le-div_of_mul-le a.capacity a.element_size size_max v.sized (omega arith) in
    let initialized = mul_size_exact a.size a.element_size (omega arith) in
    let allocated = mul_size_exact a.capacity a.element_size (omega arith) in
    rw (initialized, allocated) (ground arith)

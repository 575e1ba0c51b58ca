-- ===== src/Array/Remove.antt =====
-- The operations of src/array.c that take elements away, on the elements.
use liblor.Common.{
  ltb, ◌==◌, if◌then◌else◌, Bool-cases, length, take, drop, take-append-drop, take-take, splice,
  read, length-splice, splice-nil, remove_bytes, size_max, add_size, mul_size, mul_size_exact,
  scale-le, scale-add-le, scale-sub, mul_size-zero, Cell, ℕ, ◌+◌, ◌-◌, ◌*◌, ◌≤◌, ◌<◌, ◌≡◌, refl,
  sym, ap, ◌∙◌, inl, inr, Bool, true, false, ◌||◌, some, List, ◌++◌, arith,
}
use liblor.Array.{Array, Handle, array_size}
use liblor.Array.Removal.{remove_range}
use liblor.Array.Inv.{IsValid, HandleIsValid, contents, used-le, size-le-max}

-- The arithmetic that every removal of `count` elements at `index` needs.
record Gap (index count : ℕ) (a : Array) : Type 0 where
  start : mul_size index a.element_size ≡ index * a.element_size
  tail :
      mul_size (a.size - index - count) a.element_size
      ≡ a.size * a.element_size - index * a.element_size - count * a.element_size
  below : index * a.element_size + count * a.element_size ≤ a.size * a.element_size
  covered : a.size * a.element_size ≤ length a.cells
  left : (a.size - count) * a.element_size ≡ a.size * a.element_size - count * a.element_size

gap : (index count : ℕ) (a : Array) → IsValid a → index + count ≤ a.size → Gap index count a
gap index count a v h =
    let es = a.element_size in
    let below = scale-add-le index count a.size es h in
    let used = used-le v in
    let rest : (a.size - index - count) * es ≡ a.size * es - index * es - count * es = omega (
      arith,
      scale-sub a.size index es (omega arith),
      scale-sub (a.size - index) count es (omega arith),
    ) in
    record {
      start = mul_size_exact index es (omega arith);
      tail = mul_size_exact (a.size - index - count) es (omega arith) ∙ rest;
      below = below;
      covered = omega (arith, v.full);
      left = scale-sub a.size count es (omega arith);
    }

-- The code moves no bytes where there is no tail; moving none is the same.
pub move_tail :
    (remaining es d from : ℕ) (cells : List Cell)
    → (if remaining == 0 then cells else splice d (read from (mul_size remaining es) cells) cells)
      ≡ splice d (read from (mul_size remaining es) cells) cells
move_tail remaining es d from cells = elim (Bool-cases (remaining == 0)) [
  | inr more ↦ rw more
  | inl last ↦
      let z : remaining ≡ 0 = ground arith in
      rw (last, z, mul_size-zero es) (sym (splice-nil d cells))
]

-- Closing a gap leaves the elements before it and those behind it.
pub gap_closed :
    (index count from : ℕ) (a : Array)
    → IsValid a
    → index + count ≤ a.size
    → from ≡ index * a.element_size + count * a.element_size
    → let es = a.element_size in
      let out = some (record a {
        size = a.size - count;
        cells =
            splice
              (mul_size index es)
              (read from (mul_size (a.size - index - count) es) a.cells)
              a.cells;
      }) in
      HandleIsValid out
      × (contents out
          ≡ take (index * es) (contents (some a))
            ++ drop ((index + count) * es) (contents (some a)))
gap_closed index count from a v h e =
    let es = a.element_size in
    let g = gap index count a v h in
    let d = index * es in
    let n = count * es in
    let u = a.size * es in
    let block = splice d (read (d + n) (u - d - n) a.cells) a.cells in
    rw (g.start, g.tail, e)
      (
        record {
          sized = v.sized;
          full = omega (arith, length-splice d (read (d + n) (u - d - n) a.cells) a.cells, v.full);
          within = omega arith;
          low = v.low;
          high = v.high;
        },
        ap (λ (t : ℕ). take t block) g.left
            ∙ remove_bytes d n u a.cells g.below g.covered
            ∙ ap (λ (t : ℕ). take d (take u a.cells) ++ drop t (take u a.cells)) {x = d + n}
                {y = (index + count) * es} (omega arith),
      )

-- Without a tail there is no gap to close: the elements are cut off.
pub cut_off :
    (count size : ℕ) (a : Array)
    → IsValid a
    → size ≤ a.size
    → let es = a.element_size in
      let out = some (record a { size = size }) in
      HandleIsValid out × (contents out ≡ take (size * es) (contents (some a)))
cut_off count size a v h = (
  record { sized = v.sized; full = v.full; within = omega arith; low = v.low; high = v.high },
  sym (
      take-take (size * a.element_size) (a.size * a.element_size) a.cells
        (scale-le size a.size a.element_size h)),
)

-- What `lor_array_remove_range` does: it refuses a range that is not in the array, and else takes out
-- exactly that range.
pub record RemovesRange (index count : ℕ) (a : Array) (out : Bool × Handle) : Type 0 where
  pub valid : HandleIsValid out.1
  pub refuses : a.size < index + count → out ≡ (false, some a)
  pub removes : index + count ≤ a.size → out.0 ≡ true
  pub size : index + count ≤ a.size → array_size out.1 + count ≡ a.size
  pub rest :
      index + count ≤ a.size
      → contents out.1
        ≡ take (index * a.element_size) (contents (some a))
          ++ drop ((index + count) * a.element_size) (contents (some a))

-- Both ways of the code to take out a range that is in the array.
closes :
    (index count : ℕ) (a : Array)
    → IsValid a
    → index + count ≤ a.size
    → index ≤ size_max
    → let es = a.element_size in
      let remaining = a.size - index - count in
      RemovesRange index count a (
        true,
        some (record a {
          size = a.size - count;
          cells =
              if remaining == 0
              then a.cells
              else splice
                  (mul_size index es)
                  (read (mul_size (add_size index count) es) (mul_size remaining es) a.cells)
                  a.cells;
        }),
      )
closes index count a v i h =
    let es = a.element_size in
    let remaining = a.size - index - count in
    let small = size-le-max (some a) v in
    let sum : add_size index count ≡ index + count = omega arith in
    let g = gap index count a v i in
    let from = mul_size_exact (index + count) es (omega (arith, used-le v, g.below)) in
    let (valid, rest) = gap_closed index count ((index + count) * es) a v i (omega arith) in
    rw
      (
        move_tail remaining es (mul_size index es) (mul_size (add_size index count) es) a.cells,
        sum,
        from,
      )
      (record {
        valid = valid;
        refuses = λ bad. absurd (omega arith);
        removes = λ _. refl;
        size = λ _. omega arith;
        rest = λ _. rest;
      })

-- `remove_range` on a valid array refuses a range that is not within its elements and changes
-- nothing; else it takes out exactly that range.
pub remove_range_lem :
    (index count : ℕ) (a : Array)
    → IsValid a
    → index ≤ size_max
    → RemovesRange index count a (remove_range index count (some a))
unfolding remove_range
remove_range_lem index count a v h =
    elim (Bool-cases (ltb a.size index || ltb (a.size - index) count)) [
      | inl out_of_range ↦ rw out_of_range (record {
        valid = v;
        refuses = λ _. refl;
        removes = λ i. absurd (ground arith);
        size = λ i. absurd (ground arith);
        rest = λ i. absurd (ground arith);
      })
      | inr in_range ↦ elim (Bool-cases (count == 0)) [
        | inl none_asked ↦
            let z : count ≡ 0 = ground arith in
            rw (in_range, none_asked)
              (record {
                valid = v;
                refuses = λ i. absurd (ground arith);
                removes = λ _. refl;
                size = λ _. omega arith;
                rest = λ _. rw z (
                    sym (
                      ap
                        (λ (t : ℕ).
                          take (index * a.element_size) (contents (some a))
                          ++ drop (t * a.element_size) (contents (some a)))
                        {x = index + 0} {y = index} (omega arith)
                      ∙ take-append-drop (index * a.element_size) (contents (some a))));
              })
        | inr some_asked ↦ rw (in_range, some_asked) (closes index count a v (ground arith) h)
      ]
    ]

-- ===== src/Array/Take.antt =====
-- `lor_array_pop`, `lor_array_remove` and `lor_array_remove_unordered` on the elements.
use liblor.Common.{
  leb, ◌==◌, if◌then◌else◌, Bool-cases, take, drop, take-take, splice, read, length-splice,
  read_congr, take-splice_comm, splice-read, mul_size, mul_size_exact, scale-le, scale-add-le, Cell,
  ℕ, ◌+◌, ◌-◌, ◌*◌, ◌≤◌, ◌<◌, ◌≡◌, refl, sym, ap, ◌∙◌, inl, inr, Bool, true, false, some, List, [],
  ◌++◌, arith,
}
use liblor.Array.{Array, Handle, array_size}
use liblor.Array.Removal.{element_at, pop, remove, remove_unordered}
use liblor.Array.Inv.{IsValid, HandleIsValid, contents, used-le}
use liblor.Array.Remove.{move_tail, gap_closed, cut_off}

-- The element at an index, among the bytes of all elements.
abbrev pub element : Array → ℕ → List Cell
element a index = read (index * a.element_size) a.element_size (contents (some a))

-- What the code copies out is the element.
element_at-element :
    (index : ℕ) (a : Array) → IsValid a → index < a.size → element_at a index ≡ element a index
element_at-element index a v h =
    let es = a.element_size in
    let below = scale-add-le index 1 a.size es (omega arith) in
    rw (mul_size_exact index es (omega (arith, used-le v))) (
      read_congr (index * es) es (a.size * es) a.cells (contents (some a)) (omega arith)
        (sym (take-take (a.size * es) (a.size * es) a.cells (omega arith))))

-- One element is taken out: it is handed over, and `rest` is left.
pub record Takes (index : ℕ) (rest : List Cell) (a : Array) (out : Bool × List Cell × Handle)
    : Type 0 where
  pub valid : HandleIsValid out.2
  pub refuses : a.size ≤ index → out ≡ (false, [], some a)
  pub takes : index < a.size → out.0 ≡ true
  pub hands : index < a.size → out.1 ≡ element a index
  pub size : index < a.size → array_size out.2 + 1 ≡ a.size
  pub leaves : index < a.size → contents out.2 ≡ rest

out_of_range :
    (index : ℕ) (rest : List Cell) (a : Array)
    → IsValid a
    → a.size ≤ index
    → Takes index rest a (false, [], some a)
out_of_range index rest a v h = record {
  valid = v;
  refuses = λ _. refl;
  takes = λ i. absurd (omega arith);
  hands = λ i. absurd (omega arith);
  size = λ i. absurd (omega arith);
  leaves = λ i. absurd (omega arith);
}

-- `remove` on a valid array refuses an index out of bounds and changes nothing; else it hands over
-- the element at the index and closes the gap, the others keeping their order.
pub remove_lem :
    (index : ℕ) (a : Array)
    → IsValid a
    → Takes index
        (take (index * a.element_size) (contents (some a))
          ++ drop ((index + 1) * a.element_size) (contents (some a)))
        a
        (remove index (some a))
unfolding remove
remove_lem index a v = elim (Bool-cases (leb a.size index)) [
  | inl bad ↦ rw bad (out_of_range index _ a v (ground arith))
  | inr good ↦
      let es = a.element_size in
      let i : index < a.size = ground arith in
      let start =
        mul_size_exact index es
          (omega (arith, used-le v, scale-le index a.size es (omega arith))) in
      let (valid, rest) =
        gap_closed index 1 (mul_size index es + es) a v (omega arith) (omega arith) in
      rw
        (
          good,
          move_tail (a.size - index - 1) es (mul_size index es) (mul_size index es + es) a.cells,
        )
        (record {
          valid = valid;
          refuses = λ bad. absurd (omega arith);
          takes = λ _. refl;
          hands = λ _. element_at-element index a v i;
          size = λ _. omega arith;
          leaves = λ _. rest;
        })
]

-- `pop` on a valid array hands over the last element and takes it off; an empty array is left as
-- it was.
pub pop_lem :
    (a : Array)
    → IsValid a
    → Takes (a.size - 1) (take ((a.size - 1) * a.element_size) (contents (some a))) a (pop (some a))
unfolding pop
pop_lem a v = elim (Bool-cases (a.size == 0)) [
  | inl empty ↦ rw empty (out_of_range (a.size - 1) _ a v (ground arith))
  | inr some_left ↦
      let (valid, rest) = cut_off 1 (a.size - 1) a v (omega arith) in
      rw some_left (record {
        valid = valid;
        refuses = λ bad. absurd (ground arith);
        takes = λ _. refl;
        hands = λ _. element_at-element (a.size - 1) a v (ground arith);
        size = λ _. ground arith;
        leaves = λ _. rest;
      })
]

-- The code does not copy the last element onto itself; the elements before it are the same.
last_moved :
    (index : ℕ) (a : Array)
    → IsValid a
    → index < a.size
    → (if index == a.size - 1
        then a.cells
        else splice (mul_size index a.element_size) (element_at a (a.size - 1)) a.cells)
      ≡ splice (index * a.element_size) (element a (a.size - 1)) a.cells
last_moved index a v i =
    let es = a.element_size in
    let last = a.size - 1 in
    let start =
      mul_size_exact index es (omega (arith, used-le v, scale-le index a.size es (omega arith))) in
    let same = element_at-element last a v (omega arith) in
    elim (Bool-cases (index == last)) [
      | inr other ↦ rw (other, start, same)
      | inl itself ↦
          let e : index ≡ last = ground arith in
          rw
            (
              itself,
              e,
              ← same,
              mul_size_exact last es (
                  omega (
                    arith,
                    start,
                    e,
                    ap (λ (t : ℕ). t * es) e,
                    used-le v,
                    scale-le last a.size es (omega arith),
                  )),
            )
            (sym (splice-read (last * es) es a.cells))
    ]

-- `remove_unordered` on a valid array refuses an index out of bounds and changes nothing; else it
-- hands over the element at the index, and the last element takes its place.
pub remove_unordered_lem :
    (index : ℕ) (a : Array)
    → IsValid a
    → Takes index
        (take
          ((a.size - 1) * a.element_size)
          (splice (index * a.element_size) (element a (a.size - 1)) (contents (some a))))
        a
        (remove_unordered index (some a))
unfolding remove_unordered
remove_unordered_lem index a v = elim (Bool-cases (leb a.size index)) [
  | inl bad ↦ rw bad (out_of_range index _ a v (ground arith))
  | inr good ↦
      let i : index < a.size = ground arith in
      rw (good, last_moved index a v i)
        (record {
          valid = record {
            sized = v.sized;
            full = omega (
              arith,
              length-splice (index * a.element_size) (element a (a.size - 1)) a.cells,
              v.full,
            );
            within = omega arith;
            low = v.low;
            high = v.high;
          };
          refuses = λ bad. absurd (omega arith);
          takes = λ _. refl;
          hands = λ _. element_at-element index a v i;
          size = λ _. omega arith;
          leaves = λ _. cut index a;
        })
]
  where
    cut :
        (index : ℕ) (a : Array)
        → take
            ((a.size - 1) * a.element_size)
            (splice (index * a.element_size) (element a (a.size - 1)) a.cells)
          ≡ take
              ((a.size - 1) * a.element_size)
              (splice (index * a.element_size) (element a (a.size - 1)) (contents (some a)))
    cut index a =
        sym (
          take-take _ (a.size * a.element_size)
            (splice (index * a.element_size) (element a (a.size - 1)) a.cells)
            (scale-le (a.size - 1) a.size a.element_size (omega arith)))
        ∙ ap (λ l. take ((a.size - 1) * a.element_size) l)
            (take-splice_comm (a.size * a.element_size) (index * a.element_size)
              (element a (a.size - 1)) a.cells)

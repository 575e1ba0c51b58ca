-- ===== src/Leaks/Arrays.antt =====
-- src/memory.c: the bytes of an array that calloc is asked for.
use liblor.Arena.{mul_overflows}
use liblor.Common.{
  ltb, leb, ◌==◌, Bool-cases, size_max, mul-le_of_le_div, le-div_of_mul-le, scale-le, ℕ, ◌*◌, ◌/◌,
  ◌≤◌, ◌<◌, ◌≡◌, refl, inl, inr, true, false, ◌||◌, arith,
}
use liblor.Leaks.Running.{calloc_size}
use liblor.Leaks.Sizes.{eq_of_equal}

pub calloc_size_refused :
    (count elem_size : ℕ)
    → (count == 0 || elem_size == 0 || mul_overflows count elem_size) ≡ true
    → calloc_size count elem_size ≡ 0
calloc_size_refused count elem_size refused = elim (Bool-cases (count == 0)) [
  | inl none_asked ↦ rw (eq_of_equal count 0 none_asked) (ground arith)
  | inr some_asked ↦ elim (Bool-cases (elem_size == 0)) [
    | inl empty ↦ rw (eq_of_equal elem_size 0 empty) (ground arith)
    | inr positive ↦
        let many : ltb (size_max / elem_size) count ≡ true =
          simp (some_asked, positive) at refused in
        elim (Bool-cases (leb (count * elem_size) size_max)) [
          | inl fits ↦
              let few : count ≤ size_max / elem_size =
                le-div_of_mul-le count elem_size size_max (ground arith) (ground arith) in
              ground arith
          | inr too_many ↦ rw too_many refl
        ]
  ]
]

pub not_zero : (n : ℕ) → 0 < n → n == 0 ≡ false
not_zero n positive = ground arith

pub calloc_size_taken :
    (count elem_size : ℕ)
    → (count == 0 || elem_size == 0 || mul_overflows count elem_size) ≡ false
    → (calloc_size count elem_size ≡ count * elem_size) × (count * elem_size == 0 ≡ false)
calloc_size_taken count elem_size taken = elim (Bool-cases (count == 0)) [
  | inl none_asked ↦ let clash = simp none_asked at taken in cc
  | inr some_asked ↦ elim (Bool-cases (elem_size == 0)) [
    | inl empty ↦ let clash = simp (some_asked, empty) at taken in cc
    | inr positive ↦
        let few : ltb (size_max / elem_size) count ≡ false = simp (some_asked, positive) at taken in
        let small : count * elem_size ≤ size_max =
          mul-le_of_le_div count elem_size size_max (ground arith) in
        let fits : leb (count * elem_size) size_max ≡ true = ground arith in
        let least : 1 * elem_size ≤ count * elem_size = scale-le 1 count elem_size (ground arith) in
        let some_size : 0 < elem_size = ground arith in
        (rw fits refl, not_zero (count * elem_size) (omega (arith, least, some_size)))
  ]
]

-- ===== src/Random/Uniform.antt =====
-- `lor_random_bounded_u32`: each value has as many outputs that are accepted.
use native.Mathlib.Nat.{mod-lt, mod-eq_of_lt, mod-add-div, add-mul-mod_self_left}
use liblor.Common.{
  ltb, leb, ◌==◌, if◌then◌else◌, Bool-cases, ℕ, zero, suc, ◌+◌, ◌*◌, ◌/◌, ◌%◌, ◌^◌, ◌≤◌, ◌<◌, ◌≡◌,
  refl, ◌∙◌, inl, inr, Bool, true, false, ◌&&◌, arith,
}
use liblor.Random.{threshold, accepts}
use liblor.Random.Bounded.{threshold_lem}

-- The number of outputs below `n` that a test holds of.
unfoldable pub count : (ℕ → Bool) → ℕ → ℕ
count test zero = 0
count test (suc n) = let rest = count test n in if test n then suc rest else rest

-- A number is a value modulo the bound.
abbrev pub is_value : ℕ → ℕ → ℕ → Bool
is_value bound value x = x % bound == value

-- Whether the loop accepts an output and returns a value for it.
abbrev pub gives_value : ℕ → ℕ → ℕ → Bool
gives_value bound value x = accepts bound x && is_value bound value x

abbrev one_if_above : ℕ → ℕ → ℕ
one_if_above value r = if ltb value r then 1 else 0

count-zero : (test : ℕ → Bool) → count test 0 ≡ 0
unfolding count
count-zero test = refl

count-suc :
    (test : ℕ → Bool) (n : ℕ)
    → count test (suc n) ≡ (if test n then suc (count test n) else count test n)
unfolding count
count-suc test n = refl

count_step :
    (bound value m q r : ℕ)
    → value < bound
    → r < bound
    → m % bound ≡ r
    → count (is_value bound value) m ≡ q + one_if_above value r
    → count (is_value bound value) (suc m) ≡ q + one_if_above value (suc r)
count_step bound value m q r small fits place before = elim (Bool-cases (r == value)) [
  | inl this ↦
      rw (count-suc (is_value bound value) m, place, this, before)
        (let above : ltb value (suc r) ≡ true = ground arith in
          let below : ltb value r ≡ false = ground arith in rw (above, below) (omega arith))
  | inr other ↦ rw (count-suc (is_value bound value) m, place, other, before) (ground arith)
]

-- Among the numbers below `q` runs and `r` more, a value stands once in each run.
count_value :
    (bound value q r n : ℕ)
    → value < bound
    → r ≤ bound
    → n ≡ r + bound * q
    → count (is_value bound value) n ≡ q + one_if_above value r
count_value bound value zero zero n small fits e =
    let no_numbers : n ≡ 0 = omega (arith, e) in
    let never : ltb value 0 ≡ false = ground arith in
    rw (no_numbers, count-zero (is_value bound value), never) (omega arith)
count_value bound value (suc q) zero n small fits e =
    let full = count_value bound value q bound n small (omega arith) (omega (arith, e)) in
    let above : ltb value bound ≡ true = ground arith in
    let never : ltb value 0 ≡ false = ground arith in full ∙ rw (above, never) (omega arith)
count_value bound value q (suc r) n small fits e =
    let m = r + bound * q in
    let is_suc : n ≡ suc m = omega (arith, e) in
    let place : m % bound ≡ r = add-mul-mod_self_left r bound q ∙ mod-eq_of_lt (omega arith) in
    rw is_suc (
      count_step bound value m q r small (omega arith) place
        (count_value bound value q r m small (omega arith) refl))

-- Outputs below the threshold are not counted.
count_rejected : (bound value n : ℕ) → n ≤ threshold bound → count (gives_value bound value) n ≡ 0
count_rejected bound value zero below = count-zero (gives_value bound value)
count_rejected bound value (suc n) below =
    let rejected : leb (threshold bound) n ≡ false = ground arith in
    rw (count-suc (gives_value bound value) n, rejected, count_rejected bound value n (omega arith))
      refl

-- From the threshold on, every output of the value is counted.
count_accepted :
    (bound value k n : ℕ)
    → n ≡ k + threshold bound
    → count (gives_value bound value) n + count (is_value bound value) (threshold bound)
      ≡ count (is_value bound value) n
count_accepted bound value zero n e =
    let least : n ≡ threshold bound = omega (arith, e) in
    rw (least, count_rejected bound value (threshold bound) (omega arith)) (omega arith)
count_accepted bound value (suc k) n e =
    let m = k + threshold bound in
    let is_suc : n ≡ suc m = omega (arith, e) in
    let accepted : leb (threshold bound) m ≡ true = ground arith in
    let before = count_accepted bound value k m refl in
    elim (Bool-cases (is_value bound value m)) [
      | inl this ↦
          rw
            (
              is_suc,
              count-suc (gives_value bound value) m,
              count-suc (is_value bound value) m,
              accepted,
              this,
            )
            (omega (arith, before))
      | inr other ↦
          rw
            (
              is_suc,
              count-suc (gives_value bound value) m,
              count-suc (is_value bound value) m,
              accepted,
              other,
            )
            (omega (arith, before))
    ]

uniform_from :
    (bound value all : ℕ)
    → value < bound
    → threshold bound ≡ all % bound
    → count (gives_value bound value) all ≡ all / bound
uniform_from bound value all small t =
    let whole : all ≡ threshold bound + bound * (all / bound) =
      omega (arith, t, mod-add-div all bound) in
    let below : threshold bound < bound = omega (arith, t, mod-lt all {m = bound} (omega arith)) in
    let every =
      count_value bound value (all / bound) (threshold bound) all small (omega arith) whole in
    let first =
      count_value bound value 0 (threshold bound) (threshold bound) small (omega arith)
        (omega arith) in
    let split = count_accepted bound value (bound * (all / bound)) all (omega (arith, whole)) in
    omega (arith, every, first, split)

-- For a bound above 0 that fits 32 bits, every value below it is what as many of the outputs below
-- 2^32 that the loop accepts are modulo the bound: 2^32 / bound of them, rounded down.
pub threshold-uniform :
    (bound value : ℕ)
    → 0 < bound
    → bound < 2 ^ 32
    → value < bound
    → count (gives_value bound value) (2 ^ 32) ≡ 2 ^ 32 / bound
threshold-uniform bound value p h small =
    uniform_from bound value (2 ^ 32) small (threshold_lem bound p h)

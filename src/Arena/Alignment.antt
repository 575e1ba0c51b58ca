-- ===== src/Arena/Alignment.antt =====
-- `lor_memory__align_forward` and `lor_memory__is_power_of_two`, as arithmetic.
use Prim.Native.Nat.{bit_and}
use native.Mathlib.Nat.{
  pow-suc, one-le-pow, mod-eq_of_lt, mod-lt, div-add-mod, mul-mod_right, pow-le-pow_right,
}
use liblor.Common.{
  ltb, ◌==◌, Bool-cases, le_cases, size_max, add_size, sub_size, and-digit, bit_and_self,
  mod_double, bit_and-mask, bit_and-le, bit_and-complement, ℕ, zero, suc, ◌+◌, ◌-◌, ◌*◌, ◌/◌, ◌%◌,
  ◌^◌, ◌≤◌, ◌<◌, ◌≡◌, sym, ap, ap₂, ◌∙◌, ◌⊎◌, inl, inr, true, Option, none, some, arith,
}
use liblor.Arena.{is_power_of_two, align_up, align_forward}

-- `&` with the complement of a mask clears the low digits.
pub bit_and-clear : (k n x : ℕ) → k ≤ n → x < 2 ^ n → bit_and x (2 ^ n - 2 ^ k) ≡ x - x % 2 ^ k
bit_and-clear zero n x r h =
    let e : x % 2 ^ n ≡ x = mod-eq_of_lt h in omega (arith, bit_and-mask n x)
bit_and-clear (suc k) zero x r h = absurd (omega arith)
bit_and-clear (suc k) (suc n) x r h =
    let y = 2 ^ suc n - 2 ^ suc k in
    let p = pow-suc 2 k in
    let q = pow-suc 2 n in
    let wide : 2 ^ suc k ≡ 2 * 2 ^ k = omega (arith, p) in
    let pos = one-le-pow k 2 (omega arith) in
    let half : y / 2 ≡ 2 ^ n - 2 ^ k = omega (arith, p, q) in
    omega (
      arith,
      and-digit x y,
      q,
      p,
      ap (λ (t : ℕ). bit_and (x / 2) t) half,
      bit_and-clear k n (x / 2) (omega arith) (omega (arith, q)),
      mod_double x (2 ^ k) pos,
      ap (λ (t : ℕ). x % t) wide,
    )

two_halves : (v : ℕ) → (v ≡ 2 * (v / 2)) ⊎ (v ≡ 2 * (v / 2) + 1)
two_halves v = ground arith

power_below : (n v : ℕ) → v ≤ n → 0 < v → bit_and v (v - 1) ≡ 0 → (k : ℕ) × (v ≡ 2 ^ k)
power_below zero v h p e = absurd (omega arith)
power_below (suc n) v h p e =
    let u = v / 2 in
    elim (two_halves v) [
      | inl even ↦
          let below : (v - 1) / 2 ≡ u - 1 = omega arith in
          let rest : bit_and u (u - 1) ≡ 0 =
            omega (arith, and-digit v (v - 1), ap (λ (t : ℕ). bit_and u t) below) in
          let (k, power) = power_below n u (omega arith) (omega arith) rest in
          (suc k, omega (arith, power, pow-suc 2 k))
      | inr odd ↦ elim (Bool-cases (u == 0)) [
        | inl one ↦ (0, ground arith)
        | inr more ↦
            let below : (v - 1) / 2 ≡ u = omega arith in
            absurd (
              ground
                (arith, and-digit v (v - 1), ap (λ (t : ℕ). bit_and u t) below, bit_and_self u))
      ]
    ]

-- The test of a power of two is exact.
pub is_power_of_two_lem : (v : ℕ) → is_power_of_two v ≡ true → (k : ℕ) × (v ≡ 2 ^ k)
unfolding is_power_of_two
is_power_of_two_lem v h = power_below v v (omega arith) (ground arith) (ground arith)

sub-mod : (x a : ℕ) → (x - x % a) % a ≡ 0
sub-mod x a =
    let e : x - x % a ≡ a * (x / a) = omega (arith, div-add-mod x a) in
    ap (λ (t : ℕ). t % a) e ∙ mul-mod_right a (x / a)

pub power_exponent : (k : ℕ) → 2 ^ k ≤ size_max → k ≤ 64
power_exponent k h = elim (le_cases k 64) [
  | inl small ↦ small
  | inr large ↦
      absurd (omega (arith, pow-le-pow_right {n = 2} (omega arith) {i = 65} {j = k} (omega arith)))
]

align_up-power :
    (k a value : ℕ)
    → a ≡ 2 ^ k
    → a ≤ size_max
    → value + (a - 1) ≤ size_max
    → align_up value a ≡ value + (a - 1) - (value + (a - 1)) % a
unfolding align_up
align_up-power k a value e small fits =
    let pos : 1 ≤ 2 ^ k = one-le-pow k 2 (omega arith) in
    let x = value + (a - 1) in
    let mask : sub_size a 1 ≡ a - 1 = omega arith in
    let sum : add_size value (sub_size a 1) ≡ x = omega arith in
    let rest : size_max - sub_size a 1 ≡ 2 ^ 64 - 2 ^ k = omega arith in
    ap₂ (λ (s t : ℕ). bit_and s t) sum rest
    ∙ bit_and-clear k 64 x (power_exponent k (omega arith)) (omega arith)
    ∙ ap (λ (t : ℕ). x - x % t) (sym e)

-- What aligning an address to a power of two answers: the next multiple, unless it does not fit.
pub record Aligns (value alignment : ℕ) (out : Option ℕ) : Type 0 where
  pub multiple : (r : ℕ) → out ≡ some r → r % alignment ≡ 0
  pub above : (r : ℕ) → out ≡ some r → value ≤ r
  pub near : (r : ℕ) → out ≡ some r → r < value + alignment
  pub fits : (r : ℕ) → out ≡ some r → r ≤ size_max
  pub fails : out ≡ none → size_max < value + (alignment - 1)

-- Aligning an address to a power of two that fits `size_t` answers the least multiple of it that is
-- not below the address, which fits `size_t` as well, or fails where the address and the alignment's
-- mask do not fit.
pub align_forward_lem :
    (k value alignment : ℕ)
    → alignment ≡ 2 ^ k
    → alignment ≤ size_max
    → Aligns value alignment (align_forward value alignment)
unfolding align_forward
align_forward_lem k value a e small =
    let pos : 1 ≤ 2 ^ k = one-le-pow k 2 (omega arith) in
    let mask : sub_size a 1 ≡ a - 1 = omega arith in
    elim (Bool-cases (ltb (size_max - sub_size a 1) value)) [
      | inl over ↦ rw over (record {
        multiple = λ r d. absurd (cc);
        above = λ r d. absurd (cc);
        near = λ r d. absurd (cc);
        fits = λ r d. absurd (cc);
        fails = λ _. ground arith;
      })
      | inr room ↦
          let x = value + (a - 1) in
          let up = align_up-power k a value e small (ground arith) in
          let low : x % a < a = mod-lt x (omega arith) in
          let value_is = λ (r : ℕ) (d : some (align_up value a) ≡ some r).
            let d' : align_up value a ≡ r = cc in sym d' ∙ up in
          rw room (record {
            multiple = λ r d. ap (λ (t : ℕ). t % a) (value_is r d) ∙ sub-mod x a;
            above = λ r d. omega (arith, value_is r d, low);
            near = λ r d. omega (arith, value_is r d, low);
            fits = λ r d. ground (arith, value_is r d, low);
            fails = λ d. absurd (cc);
          })
    ]

-- Rounding to any granularity does not go below the value.
pub align_up-ge :
    (value a : ℕ) → 0 < a → a ≤ size_max → value + (a - 1) ≤ size_max → value ≤ align_up value a
unfolding align_up
align_up-ge value a pos small fits =
    let mask : sub_size a 1 ≡ a - 1 = omega arith in
    let sum : add_size value (sub_size a 1) ≡ value + (a - 1) = omega arith in
    let rest : size_max - sub_size a 1 ≡ 2 ^ 64 - 1 - (a - 1) = omega arith in
    omega (
      arith,
      ap₂ (λ (s t : ℕ). bit_and s t) sum rest,
      bit_and-complement 64 (value + (a - 1)) (a - 1) (omega arith) (omega arith),
      bit_and-le (value + (a - 1)) (a - 1),
    )

-- ===== src/Map/Capacity.antt =====
-- `lor_map__bucket_capacity`: a power of two with room to spare.
use native.Mathlib.Nat.{pow-suc}
use liblor.Common.{
  ltb, ◌==◌, Bool-cases, le_cases, size_max, add_size, ℕ, zero, suc, ◌+◌, ◌*◌, ◌/◌, ◌%◌, ◌^◌, ◌≤◌,
  ◌<◌, ◌≡◌, refl, sym, ap, ◌∙◌, inl, inr, true, false, Option, none, some, arith,
}
use liblor.Map.Reserve.{double_buckets, bucket_capacity}

pow-pos : (d : ℕ) → 0 < 2 ^ d
pow-pos zero = omega arith
pow-pos (suc d) = omega (arith, pow-suc 2 d, pow-pos d)

le-mul : (a b : ℕ) → 0 < b → a ≤ a * b
le-mul a b h = grind arith

regroup : (a d n : ℕ) → a * 2 ^ suc d ≡ n → a * 2 * 2 ^ d ≡ n
regroup a d n h = omega (arith, h, ap (λ (t : ℕ). a * t) (pow-suc 2 d))

-- A power of two that is at least what is required.
pub record PowerAbove (required : ℕ) (out : Option ℕ) : Type 0 where
  pub value : ℕ
  pub is : out ≡ some value
  pub enough : required ≤ value
  pub exponent : ℕ
  pub power : value ≡ 2 ^ exponent
  pub word : value ≤ 2 ^ 63

-- The loop from `result`, from which `d` doublings reach 2^63.
double_buckets_lem :
    (d fuel result j required : ℕ)
    → d < fuel
    → result * 2 ^ d ≡ 2 ^ 63
    → result ≡ 2 ^ j
    → required ≤ 2 ^ 63
    → PowerAbove required (double_buckets fuel result required)
unfolding double_buckets
double_buckets_lem d zero result j required f whole e r = absurd (omega arith)
double_buckets_lem zero (suc fuel) result j required f whole e r =
    let top : result ≡ 2 ^ 63 = omega arith in
    let done : ltb result required ≡ false = ground arith in
    rw done (record {
      value = result;
      is = refl;
      enough = omega arith;
      exponent = j;
      power = e;
      word = omega arith;
    })
double_buckets_lem (suc d) (suc fuel) result j required f whole e r =
    let later = regroup result d (2 ^ 63) whole in
    let small : result * 2 ≤ 2 ^ 63 =
      omega (arith, later, le-mul (result * 2) (2 ^ d) (pow-pos d)) in
    elim (Bool-cases (ltb result required)) [
      | inr done ↦ rw done (record {
        value = result;
        is = refl;
        enough = ground arith;
        exponent = j;
        power = e;
        word = omega arith;
      })
      | inl more ↦
          let fits : ltb (size_max / 2) result ≡ false = ground arith in
          let exact : result * 2 % 2 ^ 64 ≡ result * 2 = omega arith in
          rw (more, fits, exact)
            (double_buckets_lem d fuel (result * 2) (suc j) required (omega arith) later
              (omega (arith, pow-suc 2 j)) r)
    ]

-- For a number of entries that is not 0 and at most a quarter of `SIZE_MAX`, `bucket_capacity`
-- answers a power of two that is at most 2^63 and more than the entries by a third of them.
pub bucket_capacity_lem :
    (n : ℕ) → 0 < n → n ≤ size_max / 4 → PowerAbove (n + n / 3 + 1) (bucket_capacity n)
unfolding bucket_capacity
bucket_capacity_lem n p h =
    let nonzero : (n == 0) ≡ false = ground arith in
    let fits : ltb (size_max / 4) n ≡ false = ground arith in
    let required : add_size (add_size n (n / 3)) 1 ≡ n + n / 3 + 1 = omega arith in
    rw (nonzero, fits, required)
      (double_buckets_lem 60 64 8 3 (n + n / 3 + 1) (omega arith) (omega arith) (omega arith)
        (omega arith))

some_inj : {a b : ℕ} → some a ≡ some b → a ≡ b
some_inj {a = a} e = ap (λ o. value_or a o) e
  where
    value_or : ℕ → Option ℕ → ℕ
    value_or d none = d
    value_or d (some x) = x

bucket_capacity-large : (n : ℕ) → 0 < n → size_max / 4 < n → bucket_capacity n ≡ none
unfolding bucket_capacity
bucket_capacity-large n p large =
    let nonzero : (n == 0) ≡ false = ground arith in
    let over : ltb (size_max / 4) n ≡ true = ground arith in rw (nonzero, over) refl

-- Where the number of buckets is known, it is such a power of two.
pub bucket_capacity-some :
    (n c : ℕ) → 0 < n → bucket_capacity n ≡ some c → (n < c) × ((k : ℕ) × (c ≡ 2 ^ k))
bucket_capacity-some n c p e = elim (le_cases n (size_max / 4)) [
  | inl fits ↦
      let above = bucket_capacity_lem n p fits in
      let same : above.value ≡ c = some_inj (sym above.is ∙ e) in
      (omega (arith, above.enough), (above.exponent, sym same ∙ above.power))
  | inr large ↦ absurd (let h = bucket_capacity-large n p large in cc)
]

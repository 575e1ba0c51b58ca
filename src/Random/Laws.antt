-- ===== src/Random/Laws.antt =====
-- The generator of src/random.c: its outputs and its states.
use Prim.Native.Nat.{bit_and, bit_or, bit_xor}
use liblor.Common.{
  u32, u64, bit_or_self, bit_or-shifted, bit_and-mask, rotation_parts, rotation-lt, ℕ, zero, suc,
  ◌+◌, ◌-◌, ◌*◌, ◌/◌, ◌%◌, ◌^◌, ◌<◌, ◌≡◌, ap, ◌∙◌, some, arith,
}
use liblor.Random.{Random, multiplier, advance, rotate, output, random_u32, random_seed, random_u64}

-- The rotation is the one to the right on 32 bits.
rotate_parts :
    (x rotation : ℕ)
    → x < 2 ^ 32
    → rotation < 32
    → rotate x rotation ≡ x / 2 ^ rotation + (x % 2 ^ rotation) * 2 ^ (32 - rotation)
unfolding rotate
rotate_parts x zero h r =
    let y : x / 2 ^ 0 ≡ x = omega arith in
    let z : x * 2 ^ 0 % 2 ^ 32 ≡ x = omega arith in rw (y, z) (bit_or_self x ∙ omega arith)
rotate_parts x (suc n) h r =
    let shift : bit_and ((2 ^ 32 - suc n) % 2 ^ 32) 31 ≡ 32 - suc n =
      bit_and-mask 5 ((2 ^ 32 - suc n) % 2 ^ 32) ∙ omega arith in
    rw shift (rotation_parts (suc n) (32 - suc n) 32 x (omega arith) h)

-- An output fits 32 bits.
pub output-lt : (state : ℕ) → state < 2 ^ 64 → output state < 2 ^ 32
unfolding output
output-lt state h =
    let x = u32 (bit_xor (state / 2 ^ 18) state / 2 ^ 27) in
    let r = u32 (state / 2 ^ 59) in
    let few : r < 32 = omega arith in
    omega (
      arith,
      rotate_parts x r (omega arith) few,
      rotation-lt r (32 - r) 32 x (omega arith) (omega arith),
    )

-- The inverse of the multiplier modulo 2^64.
abbrev inverse : ℕ
inverse = 13877824140714322085

-- Two 64-bit states with the same increment that step to the same state are the same: the step is
-- a permutation of the states of one stream.
pub advance-injective :
    (r s : Random)
    → r.state < 2 ^ 64
    → s.state < 2 ^ 64
    → r.increment ≡ s.increment
    → r.increment < 2 ^ 64
    → advance r ≡ advance s
    → r ≡ s
unfolding advance
advance-injective r s hr hs e hi a =
    let same : u64 (r.state * multiplier + r.increment) ≡ u64 (s.state * multiplier + s.increment) =
      ap (λ (q : Random). q.state) a in
    let states : r.state ≡ s.state = omega arith in ground arith

-- Seeding gives the state that two steps from 0 reach with the seed added between, modulo 2^64,
-- and an odd increment that holds the low 63 bits of the stream.
pub random_seed_lem :
    (r : Random) (seed stream : ℕ)
    → let odd = 2 * (stream % 2 ^ 63) + 1 in
      random_seed (some r) seed stream
      ≡ some (record { state = ((odd + seed) * multiplier + odd) % 2 ^ 64; increment = odd })
unfolding random_seed advance
random_seed_lem r seed stream =
    let even : u64 (stream * 2) ≡ (stream % 2 ^ 63) * 2 ^ 1 = omega arith in
    let odd : bit_or (u64 (stream * 2)) 1 ≡ 2 * (stream % 2 ^ 63) + 1 =
      ap (λ (t : ℕ). bit_or t 1) even
      ∙ bit_or-shifted 1 (stream % 2 ^ 63) 1 (omega arith)
      ∙ omega arith in
    rw odd (
      ap (λ (t : ℕ). some (record { state = t; increment = 2 * (stream % 2 ^ 63) + 1 }))
        (omega arith))

advance-lt : (r : Random) → (advance r).state < 2 ^ 64
unfolding advance
advance-lt r = omega arith

-- A 64-bit output has the first 32-bit output above the second, and takes two steps.
pub random_u64_halves :
    (r : Random)
    → r.state < 2 ^ 64
    → random_u64 (some r)
      ≡ (output r.state * 2 ^ 32 + output (advance r).state, some (advance (advance r)))
unfolding random_u64 random_u32
random_u64_halves r h =
    let first = output-lt r.state h in
    let second = output-lt (advance r).state (advance-lt r) in
    let wide : u64 (output r.state * 2 ^ 32) ≡ output r.state * 2 ^ 32 = omega arith in
    rw wide (
      ap (λ (t : ℕ). (t, some (advance (advance r))))
        (bit_or-shifted 32 (output r.state) (output (advance r).state) second))

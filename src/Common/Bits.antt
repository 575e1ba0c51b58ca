-- ===== src/Common/Bits.antt =====
-- `|` and `&` of C on unsigned numbers, as arithmetic: `x << k | low`, and `x & (2^k - 1)`.
use Prim.Native.Nat.{
  ℕ, zero, suc, ◌+◌, ◌-◌, ◌*◌, ◌/◌, ◌%◌, ◌^◌, ◌≤◌, ◌<◌, min, max, digits, bit_and, bit_or,
  bit_and-bitwise, bit_or-bitwise,
}
use mathlib.Core.Path.{◌≡◌, refl, ap, ◌∙◌, sym}
use native.Mathlib.Nat.{
  pow-suc, one-le-pow, mod-lt, mod-eq_of_lt, div-add-mod, add-mul-mod_self_left,
}
use native.Mathlib.Omega.{arith}

-- More fuel than the number leaves the digits as they are.
digits_stable :
    (z : ℕ → ℕ) (f : ℕ → ℕ → ℕ) (m n a b : ℕ) → a ≤ m → a ≤ n → digits z f m a b ≡ digits z f n a b
digits_stable z f zero zero a b h k = refl
digits_stable z f (suc m) zero zero b h k = refl
digits_stable z f (suc m) zero (suc a) b h k = absurd (omega arith)
digits_stable z f zero (suc n) zero b h k = refl
digits_stable z f zero (suc n) (suc a) b h k = absurd (omega arith)
digits_stable z f (suc m) (suc n) zero b h k = refl
digits_stable z f (suc m) (suc n) (suc a) b h k =
    rw (digits_stable z f m n (suc a / 2) (b / 2) (omega arith) (omega arith))

or-digit : (a b : ℕ) → bit_or a b ≡ bit_or (a / 2) (b / 2) * 2 + max (a % 2) (b % 2)
or-digit zero b = simp bit_or-bitwise (omega arith)
or-digit (suc a) b = simp bit_or-bitwise (
    omega (
      arith,
      digits_stable (λ y. y) max a (suc a / 2) (suc a / 2) (b / 2) (omega arith) (omega arith),
    ))

pub and-digit : (a b : ℕ) → bit_and a b ≡ bit_and (a / 2) (b / 2) * 2 + min (a % 2) (b % 2)
and-digit zero b = simp bit_and-bitwise (omega arith)
and-digit (suc a) b = simp bit_and-bitwise (
    omega (
      arith,
      digits_stable (λ y. 0) min a (suc a / 2) (suc a / 2) (b / 2) (omega arith) (omega arith),
    ))

-- Induction on a bound of the first number, for the laws without a width.
bit_or_self_below : (n a : ℕ) → a ≤ n → bit_or a a ≡ a
bit_or_self_below zero a h = let z : a ≡ 0 = omega arith in rw z
bit_or_self_below (suc n) zero h = refl
bit_or_self_below (suc n) (suc a) h =
    omega (arith, or-digit (suc a) (suc a), bit_or_self_below n (suc a / 2) (omega arith))

pub bit_or_self : (a : ℕ) → bit_or a a ≡ a
bit_or_self a = bit_or_self_below a a (omega arith)

bit_and_self_below : (n a : ℕ) → a ≤ n → bit_and a a ≡ a
bit_and_self_below zero a h = let z : a ≡ 0 = omega arith in rw z
bit_and_self_below (suc n) zero h = refl
bit_and_self_below (suc n) (suc a) h =
    omega (arith, and-digit (suc a) (suc a), bit_and_self_below n (suc a / 2) (omega arith))

pub bit_and_self : (a : ℕ) → bit_and a a ≡ a
bit_and_self a = bit_and_self_below a a (omega arith)

or-zero_below : (n a : ℕ) → a ≤ n → bit_or a 0 ≡ a
or-zero_below zero a h = let z : a ≡ 0 = omega arith in rw z
or-zero_below (suc n) zero h = refl
or-zero_below (suc n) (suc a) h =
    omega (arith, or-digit (suc a) 0, or-zero_below n (suc a / 2) (omega arith))

and-zero_below : (n a : ℕ) → a ≤ n → bit_and a 0 ≡ 0
and-zero_below zero a h = let z : a ≡ 0 = omega arith in rw z
and-zero_below (suc n) zero h = refl
and-zero_below (suc n) (suc a) h =
    omega (arith, and-digit (suc a) 0, and-zero_below n (suc a / 2) (omega arith))

zero-or_below : (n a : ℕ) → a ≤ n → bit_or 0 a ≡ a
zero-or_below n a h = omega (arith, bit_or-bitwise 0 a)

-- One digit more below an even number.
or_even : (x y low : ℕ) → x ≡ 2 * y → bit_or y (low / 2) ≡ y + low / 2 → bit_or x low ≡ x + low
or_even x y low e h =
    let half : x / 2 ≡ y = omega arith in
    omega (arith, or-digit x low, ap (λ (t : ℕ). bit_or t (low / 2)) half)

even_or : (x y low : ℕ) → x ≡ 2 * y → bit_or (low / 2) y ≡ low / 2 + y → bit_or low x ≡ low + x
even_or x y low e h =
    let half : x / 2 ≡ y = omega arith in
    omega (arith, or-digit low x, ap (λ (t : ℕ). bit_or (low / 2) t) half)

shift-suc : (high k : ℕ) → high * 2 ^ suc k ≡ 2 * (high * 2 ^ k)
shift-suc high k = omega (arith, ap (λ (t : ℕ). high * t) (pow-suc 2 k))

-- A number shifted past `low` and `low` itself share no digit.
pub bit_or-shifted : (k high low : ℕ) → low < 2 ^ k → bit_or (high * 2 ^ k) low ≡ high * 2 ^ k + low
bit_or-shifted zero high low h =
    let z : low ≡ 0 = omega arith in
    rw z (or-zero_below (high * 1) (high * 1) (omega arith) ∙ omega arith)
bit_or-shifted (suc k) high low h =
    or_even (high * 2 ^ suc k) (high * 2 ^ k) low (shift-suc high k)
      (bit_or-shifted k high (low / 2) (omega (arith, pow-suc 2 k)))

-- The other order, as in `low | (x << k)`.
pub bit_or-shifted_right :
    (k high low : ℕ) → low < 2 ^ k → bit_or low (high * 2 ^ k) ≡ low + high * 2 ^ k
bit_or-shifted_right zero high low h =
    let z : low ≡ 0 = omega arith in
    rw z (zero-or_below (high * 1) (high * 1) (omega arith) ∙ omega arith)
bit_or-shifted_right (suc k) high low h =
    even_or (high * 2 ^ suc k) (high * 2 ^ k) low (shift-suc high k)
      (bit_or-shifted_right k high (low / 2) (omega (arith, pow-suc 2 k)))

-- The remainder by an even number, by its lowest digit.
pub mod_double : (a p : ℕ) → 0 < p → (a / 2 % p) * 2 + a % 2 ≡ a % (2 * p)
mod_double a p h =
    let r = (a / 2 % p) * 2 + a % 2 in
    let q = a / 2 / p in
    let small : r < 2 * p = omega (arith, mod-lt (a / 2) h) in
    let split : a ≡ r + 2 * p * q = omega (arith, div-add-mod (a / 2) p) in
    sym (ap (λ (t : ℕ). t % (2 * p)) split ∙ add-mul-mod_self_left r (2 * p) q ∙ mod-eq_of_lt small)

pub bit_and-mask : (k a : ℕ) → bit_and a (2 ^ k - 1) ≡ a % 2 ^ k
bit_and-mask zero a = and-zero_below a a (omega arith) ∙ omega arith
bit_and-mask (suc k) a =
    let pos = one-le-pow k 2 (omega arith) in
    let mask = 2 ^ suc k - 1 in
    let half : mask / 2 ≡ 2 ^ k - 1 = omega (arith, pow-suc 2 k) in
    let odd : mask % 2 ≡ 1 = omega (arith, pow-suc 2 k) in
    let wide : 2 ^ suc k ≡ 2 * 2 ^ k = omega (arith, pow-suc 2 k) in
    omega (
      arith,
      and-digit a mask,
      ap (λ (t : ℕ). bit_and (a / 2) t) half,
      bit_and-mask k (a / 2),
      mod_double a (2 ^ k) pos,
      ap (λ (t : ℕ). a % t) wide,
    )

pow-add : (a b n : ℕ) → n ≡ a + b → 2 ^ n ≡ 2 ^ a * 2 ^ b
pow-add zero b n e = let e' : n ≡ b = omega arith in rw e' (omega arith)
pow-add (suc a) b zero e = absurd (omega arith)
pow-add (suc a) b (suc n) e =
    omega (arith, pow-suc 2 n, ap (λ (t : ℕ). t * 2 ^ b) (pow-suc 2 a), pow-add a b n (omega arith))

-- Shifting left in `r + s` bits drops all but the low `r`.
mod_shift : (x p q : ℕ) → 0 < p → 0 < q → (x * q) % (p * q) ≡ (x % p) * q
mod_shift x p q hp hq =
    let m = x % p in
    let small : m * q < p * q = grind (arith, mod-lt x hp) in
    let split : x * q ≡ m * q + p * q * (x / p) =
      omega (arith, ap (λ (t : ℕ). t * q) (div-add-mod x p)) in
    ap (λ (t : ℕ). t % (p * q)) split
    ∙ add-mul-mod_self_left (m * q) (p * q) (x / p)
    ∙ mod-eq_of_lt small

-- The two shifts of a rotation by `r` in `r + s` bits meet in no digit.
pub rotation_parts :
    (r s w x : ℕ)
    → w ≡ r + s
    → x < 2 ^ w
    → bit_or (x / 2 ^ r) ((x * 2 ^ s) % 2 ^ w) ≡ x / 2 ^ r + (x % 2 ^ r) * 2 ^ s
rotation_parts r s w x e h =
    let p = one-le-pow r 2 (omega arith) in
    let q = one-le-pow s 2 (omega arith) in
    let wide = pow-add r s w e in
    let high : x / 2 ^ r < 2 ^ s = grind (arith, wide) in
    ap (λ (t : ℕ). bit_or (x / 2 ^ r) t)
      (ap (λ (t : ℕ). (x * 2 ^ s) % t) wide ∙ mod_shift x (2 ^ r) (2 ^ s) p q)
    ∙ bit_or-shifted_right s (x % 2 ^ r) (x / 2 ^ r) high

-- The rotated number fits as well.
pub rotation-lt : (r s w x : ℕ) → w ≡ r + s → x < 2 ^ w → x / 2 ^ r + (x % 2 ^ r) * 2 ^ s < 2 ^ w
rotation-lt r s w x e h =
    let p = one-le-pow r 2 (omega arith) in
    let wide = pow-add r s w e in
    let high : x / 2 ^ r < 2 ^ s = grind (arith, wide) in
    let low : (x % 2 ^ r + 1) * 2 ^ s ≤ 2 ^ r * 2 ^ s = grind (arith, mod-lt x p) in omega arith

and-le_below : (n a b : ℕ) → a ≤ n → bit_and a b ≤ b
and-le_below n zero b h = omega (arith, bit_and-bitwise 0 b)
and-le_below zero (suc a) b h = absurd (omega arith)
and-le_below (suc n) (suc a) b h =
    omega (arith, and-digit (suc a) b, and-le_below n (suc a / 2) (b / 2) (omega arith))

pub bit_and-le : (a b : ℕ) → bit_and a b ≤ b
bit_and-le a b = and-le_below a a b (omega arith)

-- The digits under a mask and those under its complement are all digits.
pub bit_and-complement :
    (n x m : ℕ) → x < 2 ^ n → m < 2 ^ n → bit_and x (2 ^ n - 1 - m) + bit_and x m ≡ x
bit_and-complement zero x m h k =
    let z : x ≡ 0 = omega arith in let w : m ≡ 0 = omega arith in rw (z, w) refl
bit_and-complement (suc n) x m h k =
    let p = pow-suc 2 n in
    let y = 2 ^ suc n - 1 - m in
    let half : y / 2 ≡ 2 ^ n - 1 - m / 2 = omega (arith, p) in
    let low : y % 2 ≡ 1 - m % 2 = omega (arith, p) in
    omega (
      arith,
      and-digit x y,
      and-digit x m,
      ap (λ (t : ℕ). bit_and (x / 2) t) half,
      bit_and-complement n (x / 2) (m / 2) (omega (arith, p)) (omega (arith, p)),
    )

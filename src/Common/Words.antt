-- ===== src/Common/Words.antt =====
-- `size_t`, `uint32_t` and `uint64_t` as numbers, with the wrap-around written out.
use Prim.Native.Nat.{ℕ, ◌+◌, ◌-◌, ◌*◌, ◌/◌, ◌%◌, ◌^◌, ◌≤◌, ◌<◌}
use mathlib.Core.Path.{◌≡◌, ap}
use native.Mathlib.Omega.{arith}

-- SIZE_MAX and UINTPTR_MAX of a 64-bit platform.
abbrev pub size_max : ℕ
size_max = 2 ^ 64 - 1

abbrev pub u32 : ℕ → ℕ
u32 n = n % 2 ^ 32

abbrev pub u64 : ℕ → ℕ
u64 n = n % 2 ^ 64

abbrev pub add_size : ℕ → ℕ → ℕ
add_size a b = (a + b) % 2 ^ 64

abbrev pub sub_size : ℕ → ℕ → ℕ
sub_size a b = (a + 2 ^ 64 - b) % 2 ^ 64

-- The product waits behind its name, so that a proof meets it through a lemma.
unfoldable pub mul_size : ℕ → ℕ → ℕ
mul_size a b = (a * b) % 2 ^ 64

pub mul_size_exact : (a b : ℕ) → a * b ≤ size_max → mul_size a b ≡ a * b
unfolding mul_size
mul_size_exact a b h = omega arith

-- The overflow test `a > limit / b` of the source is exact.
pub mul-le_of_le_div : (a b n : ℕ) → a ≤ n / b → a * b ≤ n
mul-le_of_le_div a b n h = grind arith

pub le-div_of_mul-le : (a b n : ℕ) → 0 < b → a * b ≤ n → a ≤ n / b
le-div_of_mul-le a b n p h = grind arith

-- Element counts and their byte counts.
pub scale-le : (a b e : ℕ) → a ≤ b → a * e ≤ b * e
scale-le a b e h = grind arith

pub scale-add-le : (a b c e : ℕ) → a + b ≤ c → a * e + b * e ≤ c * e
scale-add-le a b c e h = omega (arith, scale-le (a + b) c e h)

pub scale-sub : (a b e : ℕ) → b ≤ a → (a - b) * e ≡ a * e - b * e
scale-sub a b e h =
    let split : a ≡ a - b + b = omega arith in omega (arith, ap (λ (t : ℕ). t * e) split)

pub mul_size-zero : (e : ℕ) → mul_size 0 e ≡ 0
unfolding mul_size
mul_size-zero e = omega arith

-- ===== src/Random.antt =====
-- src/random.c and include/lor/random.h: PCG32 with an explicit state, and system entropy. A NULL
-- state is `none`.
pub mod Laws
pub mod Bounded
pub mod Uniform
pub mod System
mod Tests
use Prim.Native.Nat.{bit_and, bit_or, bit_xor}
use mathlib.Core.Option
use liblor.Common.{
  leb, ◌==◌, if◌then◌else◌, u32, u64, ℕ, zero, suc, ◌+◌, ◌-◌, ◌*◌, ◌/◌, ◌%◌, ◌^◌, Bool, Option,
  none, some,
}

pub record Random : Type 0 where
  pub state : ℕ
  pub increment : ℕ

-- `LOR_RANDOM_INIT`
abbrev pub random_init : Random
random_init = record { state = 6364136223846793006; increment = 1 }

abbrev pub multiplier : ℕ
multiplier = 6364136223846793005

-- The state's step, a linear congruence.
unfoldable pub advance : Random → Random
advance r = record r { state = u64 (r.state * multiplier + r.increment) }

-- `(x >> rotation) | (x << ((0u - rotation) & 31u))` on 32 bits.
unfoldable pub rotate : ℕ → ℕ → ℕ
rotate x rotation =
    bit_or (x / 2 ^ rotation) (u32 (x * 2 ^ bit_and ((2 ^ 32 - rotation) % 2 ^ 32) 31))

-- What a state puts out.
unfoldable pub output : ℕ → ℕ
unfolding rotate
output old_state =
    rotate (u32 (bit_xor (old_state / 2 ^ 18) old_state / 2 ^ 27)) (u32 (old_state / 2 ^ 59))

unfoldable pub random_u32 : Option Random → ℕ × Option Random
unfolding advance output
random_u32 none = (0, none)
random_u32 (some r) = (output r.state, some (advance r))

unfoldable pub random_seed : Option Random → ℕ → ℕ → Option Random
unfolding random_u32
random_seed none seed stream = none
random_seed (some r) seed stream =
    let start : Random = record { state = 0; increment = bit_or (u64 (stream * 2)) 1 } in
    let (_, first) = random_u32 (some start) in
    let (_, second) = random_u32 (add_state seed first) in second
  where
    add_state : ℕ → Option Random → Option Random
    add_state n none = none
    add_state n (some s) = some (record s { state = u64 (s.state + n) })

unfoldable pub random_u64 : Option Random → ℕ × Option Random
random_u64 random =
    let (high, random') = random_u32 random in
    let (low, random'') = random_u32 random' in (bit_or (u64 (high * 2 ^ 32)) low, random'')

-- The smallest output that rejection sampling accepts, `(0u - bound) % bound`.
unfoldable pub threshold : ℕ → ℕ
threshold bound = (2 ^ 32 - bound) % 2 ^ 32 % bound

-- The loop's test of an output.
abbrev pub accepts : ℕ → ℕ → Bool
accepts bound value = leb (threshold bound) value

-- The loop of `lor_random_bounded_u32` on fuel; `none` means that the fuel ran out.
unfoldable pub draw : ℕ → ℕ → Random → Option (ℕ × Random)
unfolding threshold
draw zero bound r = none
draw (suc fuel) bound r =
    let rest = draw fuel bound (advance r) in
    let value = output r.state in
    if accepts bound value then some (value % bound, advance r) else rest

unfoldable pub random_bounded_u32 : ℕ → Option Random → ℕ → Option (ℕ × Option Random)
unfolding draw
random_bounded_u32 fuel none bound = some (0, none)
random_bounded_u32 fuel (some r) bound =
    if bound == 0
    then some (0, some r)
    else Option.map (λ out. (out.0, some out.1)) (draw fuel bound r)

-- The floats, as the numerators of their exact quotients by 2^24 and 2^53.
unfoldable pub random_f32 : Option Random → ℕ × Option Random
random_f32 random = let (value, random') = random_u32 random in (value / 2 ^ 8, random')

unfoldable pub random_f64 : Option Random → ℕ × Option Random
random_f64 random = let (value, random') = random_u64 random in (value / 2 ^ 11, random')

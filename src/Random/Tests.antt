-- ===== src/Random/Tests.antt =====
-- Runs and instances of the theorems on src/random.c.
use liblor.Common.{
  leb, Bool-cases, length, ℕ, ◌+◌, ◌*◌, ◌%◌, ◌^◌, ◌<◌, ◌≡◌, refl, inl, inr, Bool, true, false, some,
  List, [], ◌∷◌, arith,
}
use liblor.Status.{ok}
use liblor.Random.{
  random_init, advance, output, random_u32, random_seed, random_u64, random_bounded_u32,
}
use liblor.Random.Laws.{random_u64_halves}
use liblor.Random.Bounded.{after, FirstFair, draw_first}
use liblor.Random.System.{Read, got, interrupted, failed, Obeys, Device, system_bytes, AllObey}
use liblor.Random.Uniform.{count, gives_value, threshold-uniform}

-- `LOR_RANDOM_INIT` is the state of seed 0 and stream 0.
init_is_seeded : random_seed (some (record { state = 7; increment = 9 })) 0 0 ≡ some random_init
unfolding random_seed
init_is_seeded = refl

second_call : (random_u32 (some random_init)).0 ≡ output random_init.state
unfolding random_u32
second_call = refl

random_u64_halves_example : random_u64 (some random_init) ≡ (
  output random_init.state * 2 ^ 32 + output (advance random_init).state,
  some (advance (advance random_init)),
)
random_u64_halves_example = random_u64_halves random_init (omega arith)

-- The first output of the initial state is fair for a bound of 10.
first_fair : FirstFair 10 0 random_init
unfolding output
first_fair = omega arith

draw_first_example :
    random_bounded_u32 3 (some random_init) 10
    ≡ some (output (after 0 random_init).state % 10, some (after 1 random_init))
draw_first_example =
    draw_first 10 0 3 random_init (omega arith) (omega arith) first_fair (omega arith)

-- Of the 2^32 outputs, 429496729 give the value 7 below 10.
threshold-uniform_example : count (gives_value 10 7) (2 ^ 32) ≡ 429496729
threshold-uniform_example = threshold-uniform 10 7 (omega arith) (omega arith) (omega arith)

abbrev if_asked : Bool → List ℕ → Read
if_asked true bytes = got bytes
if_asked false bytes = failed

-- A device that is interrupted once, gives 3 bytes, then one byte.
abbrev flaky : Device
flaky = record {
  opens = true;
  reads =
      (λ n. interrupted)
      ∷ (λ n. if_asked (leb 3 n) (1 ∷ 2 ∷ 3 ∷ []))
      ∷ (λ n. if_asked (leb 1 n) (9 ∷ []))
      ∷ [];
  closes = true;
}

abbrev filled : List ℕ
filled = 1 ∷ 2 ∷ 3 ∷ 9 ∷ []

flaky_fills : system_bytes flaky false 4 ≡ some (ok, filled)
unfolding system_bytes
flaky_fills = refl

if_asked-Obeys :
    (k n : ℕ) (bytes : List ℕ) → length bytes ≡ k → 0 < k → Obeys n (if_asked (leb k n) bytes)
if_asked-Obeys k n bytes e p = elim (Bool-cases (leb k n)) [
  | inl enough ↦ rw enough (omega arith, ground arith)
  | inr few ↦ rw few tt
]

flaky-AllObey : AllObey flaky.reads
flaky-AllObey = (
  (λ n. tt),
  (
    (λ n. if_asked-Obeys 3 n (1 ∷ 2 ∷ 3 ∷ []) refl (omega arith)),
    ((λ n. if_asked-Obeys 1 n (9 ∷ []) refl (omega arith)), tt),
  ),
)

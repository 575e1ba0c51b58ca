-- ===== src/Random/Bounded.antt =====
-- `lor_random_bounded_u32`: rejection sampling.
use native.Mathlib.Nat.{add-mul-mod_self_left}
use liblor.Common.{
  leb, ◌==◌, ℕ, zero, suc, ◌+◌, ◌-◌, ◌*◌, ◌%◌, ◌^◌, ◌≤◌, ◌<◌, ◌≡◌, refl, sym, ap, ◌∙◌, false, some,
  arith,
}
use liblor.Random.{Random, advance, output, threshold, draw, random_bounded_u32}

-- The threshold is what is left of the 2^32 outputs when they are dealt out in runs of `bound`.
pub threshold_lem : (bound : ℕ) → 0 < bound → bound < 2 ^ 32 → threshold bound ≡ 2 ^ 32 % bound
unfolding threshold
threshold_lem bound p h =
    let small : (2 ^ 32 - bound) % 2 ^ 32 ≡ 2 ^ 32 - bound = omega arith in
    let whole : 2 ^ 32 - bound + bound * 1 ≡ 2 ^ 32 = omega arith in
    let same = add-mul-mod_self_left (2 ^ 32 - bound) bound 1 in
    rw small (sym same ∙ ap (λ (n : ℕ). n % bound) whole)

-- The state after `n` steps.
abbrev pub after : ℕ → Random → Random
after zero r = r
after (suc n) r = after n (advance r)

-- An output is fair for a bound unless it is below 2^32 mod bound: the numbers from there up to 2^32
-- are whole runs of `bound`.
abbrev pub IsFair : ℕ → ℕ → Type 0
IsFair bound value = 2 ^ 32 % bound ≤ value

-- The first of the outputs from `r` on that is fair is the `n`th.
abbrev pub FirstFair : ℕ → ℕ → Random → Type 0
FirstFair bound zero r = IsFair bound (output r.state)
FirstFair bound (suc n) r = (¬ IsFair bound (output r.state)) × FirstFair bound n (advance r)

draw_fair :
    (bound n fuel : ℕ) (r : Random)
    → threshold bound ≡ 2 ^ 32 % bound
    → FirstFair bound n r
    → n < fuel
    → draw fuel bound r ≡ some (output (after n r).state % bound, after (suc n) r)
unfolding draw
draw_fair bound n zero r t h f = absurd (omega arith)
draw_fair bound zero (suc fuel) r t h f = ground arith
draw_fair bound (suc n) (suc fuel) r t (unfair, later) f =
    let rest = draw_fair bound n fuel (advance r) t later (omega arith) in
    let rejected : leb (threshold bound) (output r.state) ≡ false = ground arith in rw rejected rest

-- For a bound above 0 that fits 32 bits: if the `n`th output of the generator, counted from 0, is the
-- first that is not below 2^32 mod bound, the function with more than `n` rounds of fuel returns that
-- output modulo the bound, and leaves the state behind it.
pub draw_first :
    (bound n fuel : ℕ) (r : Random)
    → 0 < bound
    → bound < 2 ^ 32
    → FirstFair bound n r
    → n < fuel
    → random_bounded_u32 fuel (some r) bound
      ≡ some (output (after n r).state % bound, some (after (suc n) r))
unfolding random_bounded_u32
draw_first bound n fuel r p h first f =
    let positive : bound == 0 ≡ false = ground arith in
    let drawn = draw_fair bound n fuel r (threshold_lem bound p h) first f in
    rw (random_bounded_u32, positive, drawn) refl

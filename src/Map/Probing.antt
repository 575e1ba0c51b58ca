-- ===== src/Map/Probing.antt =====
-- One round of a search among the buckets of a map, and the buckets that it comes to.
use Prim.Native.Nat.{bit_and}
use native.Mathlib.Nat.{mod-eq_of_lt, add-mul-mod_self_left}
use liblor.Common.{
  ◌==◌, Bool-cases, le_cases, length, get_elem?, get_or, set, replicate, bit_and-mask, ℕ, zero, suc,
  ◌+◌, ◌-◌, ◌*◌, ◌%◌, ◌^◌, ◌≤◌, ◌<◌, ◌≡◌, refl, sym, ap, ◌∙◌, ◌≢◌, ◌⊎◌, inl, inr, true, some, List,
  [], ◌∷◌, arith,
}
use liblor.Map.{Map, found, absent, keys_equal, probe}

-- The buckets are a power of two, and hold 0 or an entry's index plus one.
pub record BucketsAreValid {K V : Type 0} (map : Map K V) : Type 0 where
  pub exponent : ℕ
  pub power : length map.buckets ≡ 2 ^ exponent
  pub refers : (b : ℕ) → get_or map.buckets b 0 ≤ length map.entries

-- The bucket `d` steps behind another, round the end.
abbrev pub around : ℕ → ℕ → ℕ → ℕ
around n bucket d = (bucket + d) % n

get_elem?-some :
    {A : Type 0} (xs : List A) (i : ℕ) → i < length xs → (a : A) × (get_elem? xs i ≡ some a)
get_elem?-some [] i h = absurd (omega arith)
get_elem?-some (x ∷ xs) zero h = (x, refl)
get_elem?-some (x ∷ xs) (suc i) h = get_elem?-some xs i (omega arith)

pub next_bucket : (n k bucket : ℕ) → n ≡ 2 ^ k → bit_and (bucket + 1) (n - 1) ≡ (bucket + 1) % n
next_bucket n k bucket e =
    ap (λ (t : ℕ). bit_and (bucket + 1) (t - 1)) e
    ∙ bit_and-mask k (bucket + 1)
    ∙ ap (λ (t : ℕ). (bucket + 1) % t) (sym e)

pub around-next :
    (n bucket d : ℕ) → bucket < n → around n ((bucket + 1) % n) d ≡ around n bucket (suc d)
around-next n bucket d h = elim (le_cases n (bucket + 1)) [
  | inl wraps ↦
      let last : bucket + 1 ≡ n = omega arith in
      let z : (bucket + 1) % n ≡ 0 =
        ap (λ (t : ℕ). t % n) {x = bucket + 1} {y = 0 + n * 1} (omega arith)
        ∙ add-mul-mod_self_left 0 n 1
        ∙ mod-eq_of_lt (omega arith) in
      let e : bucket + suc d ≡ d + n * 1 = omega arith in
      rw (z, e)
        (ap (λ (t : ℕ). t % n) {x = 0 + d} {y = d} (omega arith)
          ∙ sym (add-mul-mod_self_left d n 1))
  | inr before ↦ rw (mod-eq_of_lt before) (ap (λ (t : ℕ). t % n) (omega arith))
]

pub start-around : (n start : ℕ) → start < n → around n start 0 ≡ start
start-around n start i =
    ap (λ (t : ℕ). t % n) {x = start + 0} {y = start} (omega arith) ∙ mod-eq_of_lt i

-- Every bucket is ahead of every other.
pub ahead : (n start e : ℕ) → start < n → e < n → (d : ℕ) × (d < n) × (around n start d ≡ e)
ahead n start e i h = elim (le_cases start e) [
  | inl later ↦ (
    e - start,
    omega arith,
    ap (λ (t : ℕ). t % n) {x = start + (e - start)} {y = e} (omega arith) ∙ mod-eq_of_lt h,
  )
  | inr earlier ↦ (
    e + n - start,
    omega arith,
    ap (λ (t : ℕ). t % n) {x = start + (e + n - start)} {y = e + n * 1} (omega arith)
        ∙ add-mul-mod_self_left e n 1
        ∙ mod-eq_of_lt h,
  )
]

-- The number of empty buckets.
abbrev pub empties : List ℕ → ℕ
empties [] = 0
empties (zero ∷ xs) = suc (empties xs)
empties (suc x ∷ xs) = empties xs

pub empties-replicate : (n : ℕ) → empties (replicate n 0) ≡ n
empties-replicate zero = refl
empties-replicate (suc n) = ap suc (empties-replicate n)

pub empties-set :
    (xs : List ℕ) (b v : ℕ)
    → get_or xs b 0 ≡ 0
    → b < length xs
    → v ≢ 0
    → empties (set xs b v) + 1 ≡ empties xs
empties-set [] b v e h z = absurd (omega arith)
empties-set (zero ∷ xs) zero zero e h z = absurd (z refl)
empties-set (zero ∷ xs) zero (suc v) e h z = omega arith
empties-set (suc x ∷ xs) zero v e h z = absurd (omega arith)
empties-set (zero ∷ xs) (suc b) v e h z = omega (arith, empties-set xs b v e (omega arith) z)
empties-set (suc x ∷ xs) (suc b) v e h z = empties-set xs b v e (omega arith) z

pub some_empty : (xs : List ℕ) → 0 < empties xs → (b : ℕ) × (b < length xs) × (get_or xs b 0 ≡ 0)
some_empty [] h = absurd (omega arith)
some_empty (zero ∷ xs) h = (0, omega arith, refl)
some_empty (suc x ∷ xs) h = let (b, i, e) = some_empty xs h in (suc b, omega arith, e)

module _ {K V : Type 0} (bytes : K → List ℕ) where
  -- A bucket of an entry with an equal key.
  unfoldable pub Hits : Map K V → K → ℕ → Type 0
  Hits map key b =
      (get_or map.buckets b 0 ≢ 0)
      × ((entry : K × V) × (get_elem? map.entries (get_or map.buckets b 0 - 1) ≡ some entry)
          × (keys_equal bytes map entry.0 key ≡ true))

  -- A search from `start` that meets no empty bucket comes to `b`.
  pub record Reaches (map : Map K V) (start b : ℕ) : Type 0 where
    pub steps : ℕ
    pub there : around (length map.buckets) start steps ≡ b
    pub full : (d : ℕ) → d < steps → get_or map.buckets (around (length map.buckets) start d) 0 ≢ 0

  -- One round of the search.
  pub probe-round :
      (map : Map K V) (key : K) (fuel bucket : ℕ)
      → BucketsAreValid map
      → ((get_or map.buckets bucket 0 ≡ 0) × (probe bytes (suc fuel) map key bucket ≡ absent))
        ⊎ (Hits map key bucket × (probe bytes (suc fuel) map key bucket ≡ found bucket))
        ⊎ ((get_or map.buckets bucket 0 ≢ 0)
            × (¬ (Hits map key bucket))
            × (probe bytes (suc fuel) map key bucket
                ≡ probe bytes fuel map key ((bucket + 1) % length map.buckets)))
  unfolding probe Hits
  probe-round map key fuel bucket v =
      let stored = get_or map.buckets bucket 0 in
      elim (Bool-cases (stored == 0)) [
        | inl empty ↦ inl (ground arith, rw empty refl)
        | inr full ↦
            let nonzero : stored ≢ 0 = λ e. absurd (ground arith) in
            let (entry, e) =
              get_elem?-some map.entries (stored - 1) (ground (arith, v.refers bucket)) in
            elim (Bool-cases (keys_equal bytes map entry.0 key)) [
              | inl same ↦ inr (inl ((nonzero, (entry, e, same)), rw (full, e, same) refl))
              | inr other ↦ inr (
                  inr (
                    nonzero,
                    (λ (nz, (entry', e', same)). cc),
                    rw (full, e, other, next_bucket (length map.buckets) v.exponent bucket v.power)
                        refl,
                  ))
            ]
      ]

  -- There is an empty bucket ahead.
  pub empty_ahead :
      (map : Map K V) (start d : ℕ)
      → start < length map.buckets
      → get_or map.buckets (around (length map.buckets) start d) 0 ≡ 0
      → get_or map.buckets start 0 ≢ 0
      → (e : ℕ) × (d ≡ suc e)
        × (get_or map.buckets (around (length map.buckets) ((start + 1) % length map.buckets) e) 0
            ≡ 0)
  empty_ahead map start zero i h full = absurd (
      full (
        ap (λ (t : ℕ). get_or map.buckets t 0) {x = start} {y = around (length map.buckets) start 0}
          (sym (
            ap (λ (t : ℕ). t % length map.buckets) {x = start + 0} {y = start} (omega arith)
            ∙ mod-eq_of_lt i))
        ∙ h))
  empty_ahead map start (suc d) i h full = (
    d,
    refl,
    ap (λ (t : ℕ). get_or map.buckets t 0) (around-next (length map.buckets) start d i) ∙ h,
  )

-- ===== src/Channel/Contents.antt =====
-- src/concurrency.c: the values that a channel holds, in the order in which they are received.
use native.Mathlib.Nat.{mod-add-mod, div-add-mod'}
use liblor.Common.{
  le_cases, length, set, scale-le, scale-add-le, ℕ, zero, suc, ◌+◌, ◌/◌, ◌%◌, ◌≤◌, ◌<◌, ◌≡◌, refl,
  sym, ap, ap₂, ◌∙◌, ◌≢◌, inl, inr, Option, List, [], ◌∷◌, ◌++◌, arith,
}
use liblor.Channel.{slot_at}

-- Positions less than a round apart are different cells.
mod_apart : (p q capacity : ℕ) → p < q → q < p + capacity → p % capacity ≢ q % capacity
mod_apart p q capacity h k e =
    let a = p / capacity in
    let b = q / capacity in
    let pe = div-add-mod' p capacity in
    let qe = div-add-mod' q capacity in
    elim (le_cases b a) [
      | inl back ↦ omega (arith, scale-le b a capacity back, pe, qe)
      | inr on ↦ omega (arith, scale-add-le a 1 b capacity (omega arith), pe, qe)
    ]

module _ {ℓ} {A : Type ℓ} where
  -- As many cells from a position on, around the end of the buffer.
  abbrev pub cells_from : List (Option A) → ℕ → ℕ → ℕ → List (Option A)
  cells_from slots capacity position zero = []
  cells_from slots capacity position (suc n) =
      slot_at slots (position % capacity) ∷ cells_from slots capacity (position + 1) n

  pub slot_at-set_same :
      (slots : List (Option A)) (i : ℕ) (v : Option A)
      → i < length slots
      → slot_at (set slots i v) i ≡ v
  slot_at-set_same [] i v h = absurd (omega arith)
  slot_at-set_same (x ∷ slots) zero v h = refl
  slot_at-set_same (x ∷ slots) (suc i) v h = slot_at-set_same slots i v (omega arith)

  slot_at-set_other :
      (slots : List (Option A)) (i j : ℕ) (v : Option A)
      → i ≢ j
      → slot_at (set slots i v) j ≡ slot_at slots j
  slot_at-set_other [] i j v h = refl
  slot_at-set_other (x ∷ slots) zero zero v h = absurd (h refl)
  slot_at-set_other (x ∷ slots) zero (suc j) v h = refl
  slot_at-set_other (x ∷ slots) (suc i) zero v h = refl
  slot_at-set_other (x ∷ slots) (suc i) (suc j) v h =
      slot_at-set_other slots i j v (λ e. h (ap (λ (t : ℕ). suc t) e))

  pub cells_from-set :
      (slots : List (Option A)) (capacity p q n : ℕ) (v : Option A)
      → p + n ≤ q
      → q < p + capacity
      → cells_from (set slots (q % capacity) v) capacity p n ≡ cells_from slots capacity p n
  cells_from-set slots capacity p q zero v h k = refl
  cells_from-set slots capacity p q (suc n) v h k =
      ap₂ (λ c (l : List (Option A)). c ∷ l)
        (slot_at-set_other slots (q % capacity) (p % capacity) v
          (λ e. mod_apart p q capacity (omega arith) k (sym e)))
        (cells_from-set slots capacity (p + 1) q n v (omega arith) (omega arith))

  pub cells_from-append :
      (slots : List (Option A)) (capacity p n : ℕ)
      → cells_from slots capacity p (suc n)
        ≡ cells_from slots capacity p n ++ (slot_at slots ((p + n) % capacity) ∷ [])
  cells_from-append slots capacity p zero =
      ap (λ (t : ℕ). slot_at slots (t % capacity) ∷ []) {x = p} {y = p + 0} (omega arith)
  cells_from-append slots capacity p (suc n) =
      ap (λ (l : List (Option A)). slot_at slots (p % capacity) ∷ l)
        (cells_from-append slots capacity (p + 1) n
          ∙ ap
              (λ (t : ℕ).
                cells_from slots capacity (p + 1) n ++ (slot_at slots (t % capacity) ∷ []))
              {x = p + 1 + n} {y = p + suc n} (omega arith))

  pub cells_from-mod :
      (slots : List (Option A)) (capacity p q n : ℕ)
      → p % capacity ≡ q % capacity
      → cells_from slots capacity p n ≡ cells_from slots capacity q n
  cells_from-mod slots capacity p q zero e = refl
  cells_from-mod slots capacity p q (suc n) e =
      ap₂ (λ c (l : List (Option A)). c ∷ l) (ap (slot_at slots) e)
        (cells_from-mod slots capacity (p + 1) (q + 1) n (
          sym (mod-add-mod p capacity 1)
          ∙ ap (λ (t : ℕ). (t + 1) % capacity) e
          ∙ mod-add-mod q capacity 1))

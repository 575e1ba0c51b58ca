-- ===== src/View/Text.antt =====
-- The characters that a view shows.
use liblor.Common.{
  length, take, drop, ℕ, zero, suc, ◌+◌, ◌-◌, ◌≤◌, ◌≡◌, refl, ap, ap₂, ◌∙◌, List, [], ◌∷◌, ◌++◌,
  arith,
}
use liblor.View.{View, Memory}

-- The `n` bytes from an address on.
abbrev pub chars : Memory → ℕ → ℕ → List ℕ
chars mem p zero = []
chars mem p (suc n) = mem p ∷ chars mem (p + 1) n

abbrev pub text : Memory → View → List ℕ
text mem view = chars mem view.start view.size

pub length-chars : (mem : Memory) (p n : ℕ) → length (chars mem p n) ≡ n
length-chars mem p zero = refl
length-chars mem p (suc n) = ap suc (length-chars mem (p + 1) n)

pub take-chars : (mem : Memory) (p k n : ℕ) → k ≤ n → take k (chars mem p n) ≡ chars mem p k
take-chars mem p zero n h = refl
take-chars mem p (suc k) zero h = absurd (omega arith)
take-chars mem p (suc k) (suc n) h = ap (λ l. mem p ∷ l) (take-chars mem (p + 1) k n (omega arith))

pub drop-chars :
    (mem : Memory) (p q k n : ℕ) → q ≡ p + k → k ≤ n → drop k (chars mem p n) ≡ chars mem q (n - k)
drop-chars mem p q zero n e h = ap₂ (λ (a b : ℕ). chars mem a b) (omega arith) (omega arith)
drop-chars mem p q (suc k) zero e h = absurd (omega arith)
drop-chars mem p q (suc k) (suc n) e h =
    drop-chars mem (p + 1) q k n (omega arith) (omega arith)
    ∙ ap (λ (t : ℕ). chars mem q t) (omega arith)

-- Memory from `p` on, in two parts.
pub chars-add :
    (mem : Memory) (p q m k n : ℕ)
    → n ≡ m + k
    → q ≡ p + m
    → chars mem p n ≡ chars mem p m ++ chars mem q k
chars-add mem p q zero k n e d = ap₂ (λ (a b : ℕ). chars mem a b) (omega arith) (omega arith)
chars-add mem p q (suc m) k zero e d = absurd (omega arith)
chars-add mem p q (suc m) k (suc n) e d =
    ap (λ l. mem p ∷ l) (chars-add mem (p + 1) q m k n (omega arith) (omega arith))

-- ===== src/Map/ByteKeys.antt =====
-- `lor_map__keys_equal` without callbacks: keys are equal when their bytes are.
use liblor.Common.{◌==◌, Bool-cases, ℕ, ◌≡◌, refl, ap₂, inl, inr, true, List, [], ◌∷◌, arith}
use liblor.Map.{same_list}

pub same_list_lem : (xs ys : List ℕ) → same_list xs ys ≡ true → xs ≡ ys
same_list_lem [] [] h = refl
same_list_lem [] (y ∷ ys) h = absurd (cc)
same_list_lem (x ∷ xs) [] h = absurd (cc)
same_list_lem (x ∷ xs) (y ∷ ys) h = elim (Bool-cases (x == y)) [
  | inl same ↦
      let e : x ≡ y = ground arith in
      ap₂ (λ (a : ℕ) l. a ∷ l) e (same_list_lem xs ys (rw same at h))
  | inr differ ↦ absurd (let d = rw differ at h in cc)
]

pub same_list_refl : (xs : List ℕ) → same_list xs xs ≡ true
same_list_refl [] = refl
same_list_refl (x ∷ xs) = let e : (x == x) ≡ true = ground arith in rw e (same_list_refl xs)

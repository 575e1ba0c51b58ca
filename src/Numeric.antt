-- ===== src/Numeric.antt =====
-- include/lor/numeric.h: the minimum, the maximum and the clamp of an arithmetic type, with the
-- comparison `<` of the type as a parameter.
use liblor.Common.{if◌then◌else◌, Bool-cases, ◌≡◌, refl, inl, inr, Bool, false}

module _ {ℓ} {A : Type ℓ} (less : A → A → Bool) where
  abbrev pub least : A → A → A
  least a b = if less a b then a else b

  abbrev pub greatest : A → A → A
  greatest a b = if less b a then a else b

  abbrev pub clamp : A → A → A → A
  clamp value lower upper =
      if less value lower then lower else if less upper value then upper else value

  -- Where no value is less than itself and the bounds are in order, a clamp gives a value that is
  -- not less than the lower bound nor greater than the upper, and clamping it again leaves it.
  clamp_lem :
      (value lower upper : A)
      → ((a : A) → less a a ≡ false)
      → less upper lower ≡ false
      → (less (clamp value lower upper) lower ≡ false)
        × (less upper (clamp value lower upper) ≡ false)
        × (clamp (clamp value lower upper) lower upper ≡ clamp value lower upper)
  clamp_lem value lower upper irreflexive ordered = elim (Bool-cases (less value lower)) [
    | inl below ↦ rw (below, irreflexive lower, ordered) (refl, refl, refl)
    | inr not_below ↦ elim (Bool-cases (less upper value)) [
      | inl above ↦ rw (not_below, above, ordered, irreflexive upper) (refl, refl, refl)
      | inr inside ↦ rw (not_below, inside, not_below, inside) (refl, refl, refl)
    ]
  ]

-- ===== src/Set/Distinct.antt =====
-- No two keys of a set are the same.
use liblor.Common.{
  Bool-cases, length, get_elem?, set, ℕ, zero, suc, ◌≤◌, ◌≡◌, refl, sym, ◌∙◌, ◌⊎◌, inl, inr, Bool,
  true, false, some, List, [], ◌∷◌, ◌++◌, arith,
}
use liblor.Set.Policy.{IsEquality, Holds, Distinct, Holds-before, Holds-same, Holds-set}

module _ {K : Type 0} (same : K → K → Bool) (equality : IsEquality same) where
  pub Distinct-append :
      (entries : List (K × Unit {0})) (entry : K × Unit {0})
      → Distinct same entries
      → (Holds same entries entry.0 → ⊥)
      → Distinct same (entries ++ (entry ∷ []))
  Distinct-append [] entry d fresh = ((λ h. h), tt)
  Distinct-append (first ∷ entries) entry d fresh = (
    (λ h. elim (Holds-before same entries entry first.0 h) [
      | inl there ↦ d.0 there
      | inr e ↦ fresh (inl (equality.symmetric entry.0 first.0 e))
    ]),
    Distinct-append entries entry d.1 (λ h. fresh (inr h)),
  )

  pub Distinct-set :
      (entries : List (K × Unit {0})) (j : ℕ) (old entry : K × Unit {0})
      → get_elem? entries j ≡ some old
      → same old.0 entry.0 ≡ true
      → Distinct same entries
      → Distinct same (set entries j entry)
  Distinct-set [] j old entry e s d = tt
  Distinct-set (first ∷ entries) zero old entry e s d =
      let it : first ≡ old = cc in
      let there : same first.0 entry.0 ≡ true = rw it s in
      (
        (λ h. d.0 (
            Holds-same same equality entries entry.0 first.0
              (equality.symmetric first.0 entry.0 there) h)),
        d.1,
      )
  Distinct-set (first ∷ entries) (suc j) old entry e s d = (
    (λ h. d.0 ((Holds-set same equality entries j old entry first.0 e s).1 h)),
    Distinct-set entries j old entry e s d.1,
  )

  -- The entries without the first whose key is the same.
  without : List (K × Unit {0}) → K → List (K × Unit {0})
  without [] key = []
  without (entry ∷ entries) key = elim (same entry.0 key) [
    | true ↦ entries
    | false ↦ entry ∷ without entries key
  ]

  without-shorter :
      (entries : List (K × Unit {0})) (key : K)
      → Holds same entries key
      → length entries ≡ suc (length (without entries key))
  unfolding without
  without-shorter [] key h = absurd h
  without-shorter (entry ∷ entries) key h = elim (Bool-cases (same entry.0 key)) [
    | inl e ↦ rw (without, e) refl
    | inr e ↦
        rw (without, e)
          (elim h [
            | inl e' ↦ absurd (let d = sym e ∙ e' in cc)
            | inr there ↦ omega (arith, without-shorter entries key there)
          ])
  ]

  -- The other keys stay.
  without-Holds :
      (entries : List (K × Unit {0})) (key other : K)
      → (same key other ≡ true → ⊥)
      → Holds same entries other
      → Holds same (without entries key) other
  unfolding without
  without-Holds [] key other differ h = h
  without-Holds (entry ∷ entries) key other differ h = elim (Bool-cases (same entry.0 key)) [
    | inl e ↦
        rw (without, e)
          (elim h [
            | inl e' ↦ absurd (
                differ
                  (equality.transitive key entry.0 other (equality.symmetric entry.0 key e) e'))
            | inr there ↦ there
          ])
    | inr e ↦
        rw (without, e)
          (elim h [
            | inl e' ↦ inl e'
            | inr there ↦ inr (without-Holds entries key other differ there)
          ])
  ]

  -- Distinct keys that are all among others are not more than those.
  pub Distinct-length :
      (entries others : List (K × Unit {0}))
      → Distinct same entries
      → ((key : K) → Holds same entries key → Holds same others key)
      → length entries ≤ length others
  Distinct-length [] others d inside = omega arith
  Distinct-length (entry ∷ entries) others d inside =
      let here = inside entry.0 (inl (equality.reflexive entry.0)) in
      omega (
        arith,
        without-shorter others entry.0 here,
        Distinct-length entries (without others entry.0) d.1 (λ key h.
            without-Holds others entry.0 key
              (λ e.
                d.0 (
                  Holds-same same equality entries key entry.0 (equality.symmetric entry.0 key e)
                    h))
              (inside key (inr h))),
      )

  Holds-cases :
      (entries : List (K × Unit {0})) (key : K)
      → Holds same entries key ⊎ (Holds same entries key → ⊥)
  Holds-cases [] key = inr (λ h. h)
  Holds-cases (entry ∷ entries) key = elim (Bool-cases (same entry.0 key)) [
    | inl e ↦ inl (inl e)
    | inr e ↦ elim (Holds-cases entries key) [
      | inl h ↦ inl (inr h)
      | inr never ↦ inr (λ h. elim h [ inl e' ↦ let d = sym e ∙ e' in cc | inr h' ↦ never h' ])
    ]
  ]

  -- As many distinct keys among others are all of them.
  pub Distinct-all :
      (entries others : List (K × Unit {0})) (key : K)
      → Distinct same entries
      → ((k : K) → Holds same entries k → Holds same others k)
      → length others ≤ length entries
      → Holds same others key
      → Holds same entries key
  Distinct-all entries others key d inside long h = elim (Holds-cases entries key) [
    | inl there ↦ there
    | inr never ↦ absurd (
        omega (
          arith,
          without-shorter others key h,
          Distinct-length entries (without others key) d (λ k held.
              without-Holds others key k
                (λ e.
                  never (Holds-same same equality entries k key (equality.symmetric key k e) held))
                (inside k held)),
          long,
        ))
  ]

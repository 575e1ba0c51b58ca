-- ===== src/Array/Shrink.antt =====
-- `lor_array_shrink_to_fit_raw`.
use liblor.Common.{
  ltb, ◌==◌, Bool-cases, Option-cases, take, size_max, add_size, mul_size, mul_size_exact,
  mul-le_of_le_div, Realloc, IsAllocator, length-refit, take-refit, ℕ, ◌-◌, ◌*◌, ◌/◌, ◌≤◌, ◌≡◌,
  refl, sym, ap, ◌≢◌, inl, inr, none, some, arith,
}
use liblor.Status.{Status, ok, invalid_argument, out_of_memory, overflow}
use liblor.Array.{
  Array, Handle, header_size, array_size, array_capacity, valid_element_size, moved, header_of,
}
use liblor.Array.Ops.{shrink_to_fit}
use liblor.Array.Inv.{IsValid, HandleIsValid, contents, used-le}

pub record Shrinks (array : Handle) (out : Status × Handle) : Type 0 where
  pub valid : HandleIsValid out.1
  pub same : contents out.1 ≡ contents array
  pub count : array_size out.1 ≡ array_size array
  pub tight : out.0 ≡ ok → array_capacity out.1 ≡ array_size array
  pub kept : out.0 ≢ ok → out.1 ≡ array

refused : (array : Handle) (s : Status) → HandleIsValid array → s ≢ ok → Shrinks array (s, array)
refused array s v bad = record {
  valid = v;
  same = refl;
  count = refl;
  tight = λ g. absurd (bad g);
  kept = λ _. refl;
}

module _ (realloc : Realloc) (sound : IsAllocator realloc) where
  shrunk :
      (es p : ℕ) (a : Array)
      → IsValid a
      → a.element_size ≡ es
      → a.size ≤ (size_max - header_size) / es
      → realloc (header_of (some a)) (add_size header_size (mul_size a.size es)) ≡ some p
      → Shrinks (some a) (ok, some (moved (some a) es a.size p))
  shrunk es p a v same_size fits e =
      let whole = mul-le_of_le_div a.size es (size_max - header_size) fits in
      let exact = mul_size_exact a.size es (omega arith) in
      let bytes : a.size * a.element_size ≡ a.size * es = ap (λ (t : ℕ). a.size * t) same_size in
      record {
        valid = record {
          sized = v.sized;
          full = omega (arith, length-refit (mul_size a.size es) a.cells);
          within = omega arith;
          low = omega arith;
          high = omega (arith, sound (header_of (some a)) _ p e);
        };
        same =
            take-refit (a.size * a.element_size) (mul_size a.size es) a.cells (omega arith)
              (omega (arith, used-le v, v.full));
        count = refl;
        tight = λ _. refl;
        kept = λ bad. absurd (bad refl);
      }

  -- Shrinking a valid array, where `realloc` keeps to its contract: the array stays valid with the
  -- same elements; on success its capacity is its size; a call that fails leaves it as it was.
  pub shrink_to_fit_lem :
      (es : ℕ) (array : Handle)
      → HandleIsValid array
      → Shrinks array (shrink_to_fit realloc es array)
  unfolding shrink_to_fit
  shrink_to_fit_lem es none v = elim (Bool-cases (es == 0)) [
    | inl c ↦ rw c (refused none invalid_argument v (λ e. cc))
    | inr c ↦
        rw c (record { valid = v; same = refl; count = refl; tight = λ _. refl; kept = λ _. refl })
  ]
  shrink_to_fit_lem es (some a) v = elim (Bool-cases (valid_element_size (some a) es)) [
    | inr c₀ ↦ rw c₀ (refused (some a) invalid_argument v (λ e. cc))
    | inl c₀ ↦ elim (Bool-cases (a.size == a.capacity)) [
      | inl c₁ ↦
          rw (c₀, c₁)
            (record {
              valid = v;
              same = refl;
              count = refl;
              tight = λ _. ground arith;
              kept = λ _. refl;
            })
      | inr c₁ ↦ elim (Bool-cases (a.size == 0)) [
        | inl c₂ ↦
            let z : a.size ≡ 0 = ground arith in
            rw (c₀, c₁, c₂)
              (record {
                valid = tt;
                same =
                    ap (λ (t : ℕ). take t a.cells) {x = 0} {y = a.size * a.element_size}
                      (rw z (omega arith));
                count = sym z;
                tight = λ _. sym z;
                kept = λ bad. absurd (bad refl);
              })
        | inr c₂ ↦ elim (Bool-cases (ltb ((size_max - header_size) / es) a.size)) [
          | inl c₃ ↦ rw (c₀, c₁, c₂, c₃) (refused (some a) overflow v (λ e. cc))
          | inr c₃ ↦
              elim (Option-cases
                (realloc (header_of (some a)) (add_size header_size (mul_size a.size es)))) [
                  | inl c₄ ↦ rw (c₀, c₁, c₂, c₃, c₄) (refused (some a) out_of_memory v (λ e. cc))
                  | inr (p, e) ↦
                      rw (c₀, c₁, c₂, c₃, e) (shrunk es p a v (ground arith) (ground arith) e)
                ]
        ]
      ]
    ]
  ]

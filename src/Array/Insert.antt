-- ===== src/Array/Insert.antt =====
-- `lor_array_insert_raw` on the elements.
use liblor.Common.{
  ltb, ◌==◌, Bool-cases, Option-cases, take-append-drop, read, length-read, size_max, mul_size,
  mul_size_exact, mul-le_of_le_div, Cell, Realloc, IsAllocator, ℕ, ◌+◌, ◌-◌, ◌*◌, ◌/◌, ◌≤◌, ◌<◌,
  ◌≡◌, refl, sym, ap, subst, subst₂, ◌≢◌, ◌⊎◌, inl, inr, not, ◌&&◌, none, some, List, [], arith,
}
use liblor.Status.{Status, ok, invalid_argument, out_of_memory, overflow}
use liblor.Array.{Array, Handle, array_size, valid_element_size, Alias, source_offset, load}
use liblor.Array.Ops.{insert_alias, insert}
use liblor.Array.Aliasing.{source_offset-inside}
use liblor.Array.Store.{load-outside, length-load}
use liblor.Array.Inv.{
  IsValid, HandleIsValid, contents, used-le, size-le-max, IsApart, Spares, reserve-IsApart,
}
use liblor.Array.Shift.{Inserts, insert_from-Inserts}

module _ (realloc : Realloc) (sound : IsAllocator realloc) (outside : ℕ → Cell) where
  insert_cases :
      (P : Status × Handle → Type 0) (es index elements count : ℕ) (array : Handle)
      → ((s : Status) → s ≢ ok → P (s, array))
      → (index ≤ array_size array → count ≡ 0 → P (ok, array))
      → (index ≤ array_size array
          → 0 < count
          → count ≤ size_max / es
          → array_size array + count ≤ size_max
          → P (
              insert_alias realloc outside es index elements count array
                (source_offset array elements (mul_size count es))))
      → array_size array ≤ size_max
      → P (insert realloc outside es index elements count array)
  unfolding insert
  insert_cases P es index elements count array refuse empty go small =
      elim (Bool-cases (elements == 0 && not (count == 0))) [
        | inl c₀ ↦ rw c₀ (refuse invalid_argument (λ e. cc))
        | inr c₀ ↦ elim (Bool-cases (valid_element_size array es)) [
          | inr c₁ ↦ rw (c₀, c₁) (refuse invalid_argument (λ e. cc))
          | inl c₁ ↦ elim (Bool-cases (ltb (array_size array) index)) [
            | inl c₂ ↦ rw (c₀, c₁, c₂) (refuse invalid_argument (λ e. cc))
            | inr c₂ ↦ elim (Bool-cases (count == 0)) [
              | inl c₃ ↦ rw (c₀, c₁, c₂, c₃) (empty (ground arith) (ground arith))
              | inr c₃ ↦ elim (Bool-cases (ltb (size_max / es) count)) [
                | inl c₄ ↦ rw (c₀, c₁, c₂, c₃, c₄) (refuse overflow (λ e. cc))
                | inr c₄ ↦ elim (Bool-cases (ltb (size_max - array_size array) count)) [
                  | inl c₅ ↦ rw (c₀, c₁, c₂, c₃, c₄, c₅) (refuse overflow (λ e. cc))
                  | inr c₅ ↦
                      rw (c₀, c₁, c₂, c₃, c₄, c₅)
                        (go (ground arith) (ground arith) (ground arith) (ground arith))
                ]
              ]
            ]
          ]
        ]
      ]

  refused :
      (d count : ℕ) (source : List Cell) (array : Handle) (s : Status)
      → HandleIsValid array
      → s ≢ ok
      → Inserts d count source array (s, array)
  refused d count source array s v bad = record {
    valid = v;
    grown = λ g. absurd (bad g);
    inserted = λ g. absurd (bad g);
    kept = λ _. refl;
  }

  nothing :
      (d count : ℕ) (source : List Cell) (array : Handle)
      → HandleIsValid array
      → count ≡ 0
      → source ≡ []
      → Inserts d count source array (ok, array)
  nothing d count source array v e n = record {
    valid = v;
    grown = λ _. omega arith;
    inserted = λ _. rw n (sym (take-append-drop d (contents array)));
    kept = λ bad. absurd (bad refl);
  }

  -- Inserting `count` elements at `index` from an address that the alias test calls separate into
  -- a valid array, where the source meets no byte of the array's block (a range that begins below the
  -- block and runs into it is called separate too, and is left out), and where `realloc` keeps to its
  -- contract and gives no memory that meets the source: the array stays valid; on success the source's bytes stand between the elements before
  -- `index` and those from `index` on; a call that fails leaves it as it was.
  pub insert_separate :
      (es index elements count : ℕ) (array : Handle)
      → HandleIsValid array
      → source_offset array elements (mul_size count es) ≡ Alias.separate
      → IsApart array elements (count * es)
      → Spares realloc elements (count * es)
      → Inserts
          (index * es)
          count
          (load outside none elements (count * es))
          array
          (insert realloc outside es index elements count array)
  insert_separate es index elements count array v alias apart spares =
      let source = load outside none elements (count * es) in
      insert_cases (λ out. Inserts (index * es) count source array out) es index elements count
        array (λ s bad. refused (index * es) count source array s v bad)
        (λ h e. nothing (index * es) count source array v e (
          ap (λ (n : ℕ). load outside none elements n) {x = count * es} {y = 0}
            (rw e (omega arith))))
        (λ h pos exact small.
          let bytes = mul_size_exact count es (mul-le_of_le_div count es size_max exact) in
          rw alias (
            insert_from-Inserts realloc sound outside es index count
              (λ a. load outside a elements (mul_size count es)) array source v h pos small
              (length-load outside none elements (count * es))
              (λ a b d base width. rw bytes (
                load-outside outside (some b) elements (count * es) (
                  subst₂ (λ (x y : ℕ). (elements + count * es ≤ x) ⊎ (x + y ≤ elements)) (sym base)
                    (sym width)
                    (subst (λ (out : Status × Handle). IsApart out.1 elements (count * es)) d
                      (reserve-IsApart realloc sound es _ elements (count * es) array (omega arith)
                        spares apart)))))))
        (size-le-max array v)

  -- Inserting `count` elements at `index` from a byte offset within the elements of the valid
  -- array itself, where `realloc` keeps to its contract: the array stays valid; on success the
  -- bytes that stood at the offset before the call stand between the elements before `index` and
  -- those from `index` on, though growing and shifting move them; a call that fails leaves it as
  -- it was.
  pub insert_inside :
      (es index offset count : ℕ) (a : Array)
      → IsValid a
      → 0 < count
      → offset + count * es ≤ a.size * a.element_size
      → Inserts
          (index * es)
          count
          (read offset (count * es) a.cells)
          (some a)
          (insert realloc outside es index (a.base + offset) count (some a))
  insert_inside es index offset count a v pos inside_range =
      let used = used-le v in
      let source = read offset (count * es) a.cells in
      insert_cases (λ out. Inserts (index * es) count source (some a) out) es index
        (a.base + offset) count (some a)
        (λ s bad. refused (index * es) count source (some a) s v bad) (λ h e. absurd (omega arith))
        (λ h pos exact small.
          let bytes = mul_size_exact count es (mul-le_of_le_div count es size_max exact) in
          rw
            (
              bytes,
              source_offset-inside (a.base + offset) offset (count * es) a v refl inside_range,
              bytes,
            )
            (elim (Option-cases (realloc none (count * es))) [
              | inl failed ↦
                  rw failed (refused (index * es) count source (some a) out_of_memory v (λ e. cc))
              | inr (p, copied) ↦ rw copied (
                  insert_from-Inserts realloc sound outside es index count (λ _. source) (some a)
                    source v h pos small
                    (omega (arith, used, length-read offset (count * es) a.cells))
                    (λ _ _ _ _ _. refl))
            ]))
        (size-le-max (some a) v)

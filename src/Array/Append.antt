-- ===== src/Array/Append.antt =====
-- `lor_array_append_raw` on the elements.
use liblor.Common.{
  ltb, ◌==◌, Bool-cases, length, take, read, length-read, read_congr, size_max, add_size, mul_size,
  mul_size_exact, mul-le_of_le_div, Cell, Realloc, IsAllocator, ℕ, ◌+◌, ◌-◌, ◌*◌, ◌/◌, ◌≤◌, ◌<◌,
  ◌≡◌, refl, sym, ap, subst, ◌∙◌, ◌≢◌, inl, inr, true, not, ◌&&◌, none, some, List, [], ◌++◌,
  append-nil, arith,
}
use liblor.Status.{Status, ok, invalid_argument, overflow, bind-cases}
use liblor.Array.{
  Array, Handle, array_size, array_base, valid_element_size, Alias, source_offset, load, reserve,
}
use liblor.Array.Ops.{store, append_store, append_from, append_alias, append}
use liblor.Array.Aliasing.{source_offset-inside}
use liblor.Array.Store.{store_end, load-inside, load-outside, length-load}
use liblor.Array.Inv.{
  IsValid, HandleIsValid, contents, used-le, length-contents, size-le-max, IsApart, Spares,
  Reserves, reserve_lem, reserve-IsApart,
}

-- The outcome of appending: on success `source` stands behind the elements, else nothing changed.
pub record Appends (es count : ℕ) (source : List Cell) (array : Handle) (out : Status × Handle)
    : Type 0 where
  pub valid : HandleIsValid out.1
  pub grown : out.0 ≡ ok → array_size out.1 ≡ array_size array + count
  pub appended : out.0 ≡ ok → contents out.1 ≡ contents array ++ source
  pub kept : out.0 ≢ ok → out.1 ≡ array

module _ (realloc : Realloc) (sound : IsAllocator realloc) (outside : ℕ → Cell) where
  stored :
      (es count : ℕ) (elements : Handle → ℕ) (array : Handle) (source : List Cell) (a : Array)
      → HandleIsValid array
      → 0 < count
      → array_size array + count ≤ size_max
      → count ≤ size_max / es
      → length source ≡ count * es
      → Reserves es (add_size (array_size array) count) array (ok, some a)
      → load outside (some a) (elements (some a)) (count * es) ≡ source
      → Appends es count source array (
        ok,
        store
            (mul_size (array_size array) es)
            (load outside (some a) (elements (some a)) (mul_size count es))
            (add_size (array_size array) count)
            (some a),
      )
  stored es count elements array source a v pos small exact len r loads =
      let bytes = mul_size_exact count es (mul-le_of_le_div count es size_max exact) in
      let same_size = r.fits refl a refl in
      let size : add_size (array_size array) count ≡ a.size + count = omega (arith, r.count) in
      let (valid, joined) =
        store_end a source (a.size + count) r.valid
          (omega (arith, len, ap (λ (t : ℕ). count * t) same_size))
          (omega (arith, r.enough refl, r.count)) in
      rw (bytes, loads, size, ← r.count, ← same_size)
        (record {
          valid = valid;
          grown = λ _. omega (arith, r.count);
          appended = λ _. joined ∙ ap (λ l. l ++ source) r.same;
          kept = λ bad. absurd (bad refl);
        })

  append_from-Appends :
      (es count : ℕ) (elements : Handle → ℕ) (array : Handle) (source : List Cell)
      → HandleIsValid array
      → 0 < count
      → array_size array + count ≤ size_max
      → count ≤ size_max / es
      → length source ≡ count * es
      → ((a : Array)
          → Reserves es (add_size (array_size array) count) array (ok, some a)
          → reserve realloc es (add_size (array_size array) count) array ≡ (ok, some a)
          → load outside (some a) (elements (some a)) (count * es) ≡ source)
      → Appends es count source array (append_from realloc outside es count elements array)
  unfolding append_from
  append_from-Appends es count elements array source v pos small exact len loads =
      let old_size = array_size array in
      let new_size = add_size old_size count in
      let out = reserve realloc es new_size array in
      let r = reserve_lem realloc sound es new_size array (omega arith) v in
      elim (bind-cases out (append_store realloc outside es count elements old_size)) [
        | inr (bad, e) ↦ rw e (record {
          valid = r.valid;
          grown = λ g. absurd (bad g);
          appended = λ g. absurd (bad g);
          kept = r.kept;
        })
        | inl (good, e) ↦ rw e (on_success out r refl good)
      ]
    where
      on_success :
          (out : Status × Handle)
          → Reserves es (add_size (array_size array) count) array out
          → reserve realloc es (add_size (array_size array) count) array ≡ out
          → out.0 ≡ ok
          → Appends es count source array
              (append_store realloc outside es count elements (array_size array) out.1)
      on_success (ok, none) r d g = absurd (omega (arith, r.enough g))
      on_success (ok, some a) r d g =
          stored es count elements array source a v pos small exact len r (loads a r d)
      on_success (s, array') r d g = cc

  -- The checks of `append`, by what they leave to show.
  append_cases :
      (P : Status × Handle → Type 0) (es elements count : ℕ) (array : Handle)
      → ((s : Status) → s ≢ ok → P (s, array))
      → (count ≡ 0 → P (ok, array))
      → (valid_element_size array es ≡ true
          → 0 < count
          → count ≤ size_max / es
          → array_size array + count ≤ size_max
          → P (
              append_alias realloc outside es elements count array
                (source_offset array elements (mul_size count es))))
      → array_size array ≤ size_max
      → P (append realloc outside es elements count array)
  unfolding append
  append_cases P es elements count array refuse empty go small =
      elim (Bool-cases (elements == 0 && not (count == 0))) [
        | inl null ↦ rw null (refuse invalid_argument (λ e. cc))
        | inr c₀ ↦ elim (Bool-cases (valid_element_size array es)) [
          | inr c₁ ↦ rw (c₀, c₁) (refuse invalid_argument (λ e. cc))
          | inl c₁ ↦ elim (Bool-cases (count == 0)) [
            | inl c₂ ↦ rw (c₀, c₁, c₂) (empty (ground arith))
            | inr c₂ ↦ elim (Bool-cases (ltb (size_max / es) count)) [
              | inl c₃ ↦ rw (c₀, c₁, c₂, c₃) (refuse overflow (λ e. cc))
              | inr c₃ ↦ elim (Bool-cases (ltb (size_max - array_size array) count)) [
                | inl c₄ ↦ rw (c₀, c₁, c₂, c₃, c₄) (refuse overflow (λ e. cc))
                | inr c₄ ↦
                    rw (c₀, c₁, c₂, c₃, c₄) (go c₁ (ground arith) (ground arith) (ground arith))
              ]
            ]
          ]
        ]
      ]

  refused :
      (es count : ℕ) (source : List Cell) (array : Handle) (s : Status)
      → HandleIsValid array
      → s ≢ ok
      → Appends es count source array (s, array)
  refused es count source array s v bad = record {
    valid = v;
    grown = λ g. absurd (bad g);
    appended = λ g. absurd (bad g);
    kept = λ _. refl;
  }

  nothing :
      (es count : ℕ) (source : List Cell) (array : Handle)
      → HandleIsValid array
      → count ≡ 0
      → source ≡ []
      → Appends es count source array (ok, array)
  nothing es count source array v e n = record {
    valid = v;
    grown = λ _. omega arith;
    appended = λ _. rw n (sym (append-nil (contents array)));
    kept = λ bad. absurd (bad refl);
  }

  -- Appending `count` elements at an address that the alias test calls separate to a valid array,
  -- where the source meets no byte of the array's block (a range that begins below the block and runs
  -- into it is called separate too, and is left out), and where `realloc` keeps to its contract and
  -- gives no memory that meets the source: the array stays valid; on success it holds the source's bytes behind the old elements and `count` more
  -- elements; a call that fails leaves it as it was.
  pub append_separate :
      (es elements count : ℕ) (array : Handle)
      → HandleIsValid array
      → source_offset array elements (mul_size count es) ≡ Alias.separate
      → IsApart array elements (count * es)
      → Spares realloc elements (count * es)
      → Appends es count
          (load outside none elements (count * es))
          array
          (append realloc outside es elements count array)
  append_separate es elements count array v alias apart spares =
      let source = load outside none elements (count * es) in
      append_cases (λ out. Appends es count source array out) es elements count array
        (λ s bad. refused es count source array s v bad)
        (λ e. nothing es count source array v e (
          ap (λ (n : ℕ). load outside none elements n) {x = count * es} {y = 0}
            (rw e (omega arith))))
        (λ fits pos exact small. rw alias (
          append_from-Appends es count (λ _. elements) array source v pos small exact
            (length-load outside none elements (count * es))
            (λ a r d. load-outside outside (some a) elements (count * es) (
              subst (λ (out : Status × Handle). IsApart out.1 elements (count * es)) d
                (reserve-IsApart realloc sound es _ elements (count * es) array (omega arith) spares
                  apart)))))
        (size-le-max array v)

  -- Appending `count` elements from a byte offset within the elements of the valid array itself,
  -- where `realloc` keeps to its contract: the array stays valid; on success the bytes that stood
  -- at the offset before the call stand behind the old elements, even if the block was moved; a
  -- call that fails leaves it as it was.
  pub append_inside :
      (es offset count : ℕ) (a : Array)
      → IsValid a
      → 0 < count
      → offset + count * es ≤ a.size * a.element_size
      → Appends es count
          (read offset (count * es) a.cells)
          (some a)
          (append realloc outside es (a.base + offset) count (some a))
  append_inside es offset count a v pos inside_range =
      let used = used-le v in
      let source = read offset (count * es) a.cells in
      append_cases (λ out. Appends es count source (some a) out) es (a.base + offset) count (some a)
        (λ s bad. refused es count source (some a) s v bad) (λ e. absurd (omega arith))
        (λ fits pos exact small.
          let bytes = mul_size_exact count es (mul-le_of_le_div count es size_max exact) in
          rw
            (
              append_alias,
              bytes,
              source_offset-inside (a.base + offset) offset (count * es) a v refl inside_range,
            )
            (append_from-Appends es count (λ b. array_base b + offset) (some a) source v pos small
              exact (omega (arith, used, length-read offset (count * es) a.cells))
              (λ b r d. read-moved b r)))
        (size-le-max (some a) v)
    where
      -- The elements' bytes stand at the same offset of the grown block.
      read-moved :
          (b : Array)
          → Reserves es (add_size a.size count) (some a) (ok, some b)
          → load outside (some b) (b.base + offset) (count * es) ≡ read offset (count * es) a.cells
      read-moved b r =
          let n = count * es in
          let k = a.size * a.element_size in
          let bytes : b.size * b.element_size ≡ k =
            omega (arith, length-contents b r.valid, length-contents a v, ap length r.same) in
          load-inside outside b (b.base + offset) offset n refl
            (omega (arith, used-le r.valid, r.valid.full))
          ∙ read_congr offset n k b.cells a.cells inside_range
              (ap (λ (t : ℕ). take t b.cells) (sym bytes) ∙ r.same)

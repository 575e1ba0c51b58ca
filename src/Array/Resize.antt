-- ===== src/Array/Resize.antt =====
-- `lor_array_resize_raw` on the elements.
use liblor.Common.{
  ltb, Bool-cases, take, replicate, length-replicate, take-nil, take-take, size_max, mul_size,
  mul_size_exact, scale-le, scale-sub, Cell, Realloc, IsAllocator, ℕ, ◌-◌, ◌*◌, ◌≤◌, ◌<◌, ◌≡◌, refl,
  sym, ap, ap₂, ◌∙◌, ◌≢◌, inl, inr, true, none, some, List, ◌++◌, arith,
}
use liblor.Status.{Status, ok, invalid_argument, bind-cases}
use liblor.Array.{Handle, array_size, valid_element_size, reserve}
use liblor.Array.Ops.{set_size, zero_tail, resize_up, resize}
use liblor.Array.Store.{store_end}
use liblor.Array.Inv.{HandleIsValid, contents, Reserves, reserve_lem}

pub record Resizes (es size : ℕ) (array : Handle) (out : Status × Handle) : Type 0 where
  pub valid : HandleIsValid out.1
  pub sized : out.0 ≡ ok → array_size out.1 ≡ size
  pub cut :
      out.0 ≡ ok → size ≤ array_size array → contents out.1 ≡ take (size * es) (contents array)
  pub grown :
      out.0 ≡ ok
      → array_size array < size
      → contents out.1 ≡ contents array ++ replicate (size * es - array_size array * es) (some 0)
  pub kept : out.0 ≢ ok → out.1 ≡ array

refused :
    (es size : ℕ) (array : Handle) (s : Status)
    → HandleIsValid array
    → s ≢ ok
    → Resizes es size array (s, array)
refused es size array s v bad = record {
  valid = v;
  sized = λ g. absurd (bad g);
  cut = λ g. absurd (bad g);
  grown = λ g. absurd (bad g);
  kept = λ _. refl;
}

shrunk :
    (es size : ℕ) (array : Handle)
    → HandleIsValid array
    → valid_element_size array es ≡ true
    → size ≤ array_size array
    → Resizes es size array (ok, set_size size array)
shrunk es size none v fits h = record {
  valid = v;
  sized = λ _. omega arith;
  cut = λ _ _. sym (take-nil (size * es));
  grown = λ _ g. absurd (omega arith);
  kept = λ bad. absurd (bad refl);
}
shrunk es size (some a) v fits h =
    let same_size : a.element_size ≡ es = ground arith in
    record {
      valid = record {
        sized = v.sized;
        full = v.full;
        within = omega arith;
        low = v.low;
        high = v.high;
      };
      sized = λ _. refl;
      cut = λ _ _. rw (← same_size) (
          sym (
            take-take (size * a.element_size) (a.size * a.element_size) a.cells
              (scale-le size a.size a.element_size h)));
      grown = λ _ g. absurd (omega arith);
      kept = λ bad. absurd (bad refl);
    }

-- The bytes behind the old elements are zeroed up to the new size.
zeroed :
    (es size : ℕ) (array : Handle) (out : Status × Handle)
    → array_size array < size
    → size ≤ size_max
    → out.0 ≡ ok
    → Reserves es size array out
    → Resizes es size array (zero_tail es (array_size array) size out.1)
zeroed es size array (s, none) more h good r = absurd (omega (arith, r.enough good))
zeroed es size array (s, some a) more h good r =
    let same_size = r.fits good a refl in
    let old : a.size * a.element_size ≡ array_size array * es =
      omega (arith, ap (λ (t : ℕ). a.size * t) same_size, ap (λ (t : ℕ). t * es) r.count) in
    let gain : (size - array_size array) * es ≡ size * es - array_size array * es =
      scale-sub size (array_size array) es (omega arith) in
    let room : size * es ≤ a.capacity * es = scale-le size a.capacity es (r.enough good) in
    let bound : a.capacity * es ≤ size_max =
      omega (arith, r.valid.high, ap (λ (t : ℕ). a.capacity * t) same_size) in
    let less : array_size array * es ≤ size * es =
      scale-le (array_size array) size es (omega arith) in
    let bytes = mul_size_exact (size - array_size array) es (omega arith) ∙ gain in
    let zeros : List Cell = replicate (size * es - array_size array * es) (some 0) in
    let (valid, joined) =
      store_end a zeros size r.valid
        (omega (
          arith,
          length-replicate (size * es - array_size array * es) (let z : Cell = some 0 in z),
          ap (λ (t : ℕ). size * t) same_size,
        ))
        (r.enough good) in
    let offset : mul_size (array_size array) es ≡ mul_size a.size a.element_size =
      ap₂ mul_size (sym r.count) (sym same_size) in
    rw (bytes, offset)
      (record {
        valid = valid;
        sized = λ _. refl;
        cut = λ _ g. absurd (omega arith);
        grown = λ _ _. joined ∙ ap (λ l. l ++ zeros) r.same;
        kept = λ bad. absurd (bad refl);
      })

module _ (realloc : Realloc) (sound : IsAllocator realloc) where
  -- Resizing a valid array to a size that fits `size_t`, where `realloc` keeps to its contract:
  -- the array stays valid; on success it has that size, holds the first elements if it was larger,
  -- and zeroed ones behind its own if it was smaller; a call that fails leaves it as it was.
  pub resize_lem :
      (es size : ℕ) (array : Handle)
      → size ≤ size_max
      → HandleIsValid array
      → Resizes es size array (resize realloc es size array)
  unfolding resize
  resize_lem es size array h v =
      let r = reserve_lem realloc sound es size array h v in
      elim (Bool-cases (valid_element_size array es)) [
        | inr bad ↦ rw bad (refused es size array invalid_argument v (λ e. cc))
        | inl fits ↦ elim (Bool-cases (ltb (array_size array) size)) [
          | inr less ↦ rw (fits, less) (shrunk es size array v fits (ground arith))
          | inl more ↦
              elim (bind-cases (reserve realloc es size array)
                (zero_tail es (array_size array) size)) [
                  | inr (failed, e) ↦
                      rw (fits, more, resize_up, e)
                        (record {
                          valid = r.valid;
                          sized = λ g. absurd (failed g);
                          cut = λ g. absurd (failed g);
                          grown = λ g. absurd (failed g);
                          kept = r.kept;
                        })
                  | inl (good, e) ↦
                      rw (fits, more, resize_up, e)
                        (zeroed es size array (reserve realloc es size array) (ground arith) h good
                          r)
                ]
        ]
      ]

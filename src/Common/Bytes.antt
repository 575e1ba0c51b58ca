-- ===== src/Common/Bytes.antt =====
-- memcpy, memmove, memset and memory reads over a block of cells.
use Prim.Native.Nat.{ℕ, zero, suc, ◌+◌, ◌-◌, ◌≤◌, ◌<◌, min}
use mathlib.Core.Path.{◌≡◌, refl, ap, ap₂, sym, ◌∙◌}
use mathlib.Core.List.{List, [], ◌∷◌, ◌++◌}
use native.Mathlib.Omega.{arith}
use liblor.Common.Lists.{
  length, get_or, take, drop, length-take, length-drop, take-take, take-drop, drop-append,
}

module _ {ℓ} {A : Type ℓ} where
  -- `memcpy(block + offset, source, length)`; what would fall behind the block is not written.
  abbrev pub splice : ℕ → List A → List A → List A
  splice zero [] block = block
  splice zero (x ∷ source) [] = []
  splice zero (x ∷ source) (y ∷ block) = x ∷ splice zero source block
  splice (suc offset) source [] = []
  splice (suc offset) source (y ∷ block) = y ∷ splice offset source block

  -- The `n` cells of a block from `offset` on.
  abbrev pub read : ℕ → ℕ → List A → List A
  read offset n block = take n (drop offset block)

module _ {ℓ} {A : Type ℓ} where
  pub length-splice :
      (offset : ℕ) (source block : List A) → length (splice offset source block) ≡ length block
  length-splice zero [] block = refl
  length-splice zero (x ∷ source) [] = refl
  length-splice zero (x ∷ source) (y ∷ block) = ap suc (length-splice zero source block)
  length-splice (suc offset) source [] = refl
  length-splice (suc offset) source (y ∷ block) = ap suc (length-splice offset source block)

  -- A write that stays inside the block, by parts; `e` is where it ends.
  pub splice_lem :
      (offset e : ℕ) (source block : List A)
      → e ≡ offset + length source
      → e ≤ length block
      → splice offset source block ≡ take offset block ++ (source ++ drop e block)
  splice_lem zero zero [] block d h = refl
  splice_lem zero (suc e) [] block d h = absurd (omega arith)
  splice_lem zero e (x ∷ source) [] d h = absurd (omega arith)
  splice_lem zero zero (x ∷ source) (y ∷ block) d h = absurd (omega arith)
  splice_lem zero (suc e) (x ∷ source) (y ∷ block) d h =
      ap (λ l. x ∷ l) (splice_lem zero e source block (omega arith) (omega arith))
  splice_lem (suc offset) e source [] d h = absurd (omega arith)
  splice_lem (suc offset) zero source (y ∷ block) d h = absurd (omega arith)
  splice_lem (suc offset) (suc e) source (y ∷ block) d h =
      ap (λ l. y ∷ l) (splice_lem offset e source block (omega arith) (omega arith))

  -- Cells before the write keep their contents.
  pub take-splice :
      (n offset : ℕ) (source block : List A)
      → n ≤ offset
      → take n (splice offset source block) ≡ take n block
  take-splice zero offset source block h = refl
  take-splice (suc n) zero source block h = absurd (omega arith)
  take-splice (suc n) (suc offset) source [] h = refl
  take-splice (suc n) (suc offset) source (y ∷ block) h =
      ap (λ l. y ∷ l) (take-splice n offset source block (omega arith))

  -- The cells up to the end of a write behind `offset` cells are those, then what was written.
  pub take-splice_end :
      (offset e : ℕ) (source block : List A)
      → e ≡ offset + length source
      → e ≤ length block
      → take e (splice offset source block) ≡ take offset block ++ source
  take-splice_end zero zero [] block d h = refl
  take-splice_end zero (suc e) [] block d h = absurd (omega arith)
  take-splice_end zero e (x ∷ source) [] d h = absurd (omega arith)
  take-splice_end zero zero (x ∷ source) (y ∷ block) d h = absurd (omega arith)
  take-splice_end zero (suc e) (x ∷ source) (y ∷ block) d h =
      ap (λ l. x ∷ l) (take-splice_end zero e source block (omega arith) (omega arith))
  take-splice_end (suc offset) e source [] d h = absurd (omega arith)
  take-splice_end (suc offset) zero source (y ∷ block) d h = absurd (omega arith)
  take-splice_end (suc offset) (suc e) source (y ∷ block) d h =
      ap (λ l. y ∷ l) (take-splice_end offset e source block (omega arith) (omega arith))

  -- Cells behind the write keep their contents.
  pub drop-splice :
      (offset e : ℕ) (source block : List A)
      → offset + length source ≤ e
      → drop e (splice offset source block) ≡ drop e block
  drop-splice zero e [] block h = refl
  drop-splice zero e (x ∷ source) [] h = refl
  drop-splice zero zero (x ∷ source) (y ∷ block) h = absurd (omega arith)
  drop-splice zero (suc e) (x ∷ source) (y ∷ block) h =
      drop-splice zero e source block (omega arith)
  drop-splice (suc offset) e source [] h = refl
  drop-splice (suc offset) zero source (y ∷ block) h = absurd (omega arith)
  drop-splice (suc offset) (suc e) source (y ∷ block) h =
      drop-splice offset e source block (omega arith)

module _ {ℓ} {A : Type ℓ} where
  pub length-read :
      (offset n : ℕ) (block : List A) → length (read offset n block) ≡ min n (length block - offset)
  length-read offset n block =
      omega (arith, length-take n (drop offset block), length-drop offset block)

  -- A read sees only the cells before its end.
  pub read_congr :
      (offset n k : ℕ) (a b : List A)
      → offset + n ≤ k
      → take k a ≡ take k b
      → read offset n a ≡ read offset n b
  read_congr offset n k a b h e =
      take-drop offset n (offset + n) a refl
      ∙ ap (λ l. drop offset l)
          (sym (take-take (offset + n) k a h)
            ∙ ap (λ l. take (offset + n) l) e
            ∙ take-take (offset + n) k b h)
      ∙ sym (take-drop offset n (offset + n) b refl)

  pub splice-nil : (offset : ℕ) (block : List A) → splice offset [] block ≡ block
  splice-nil zero block = refl
  splice-nil (suc offset) [] = refl
  splice-nil (suc offset) (y ∷ block) = ap (λ l. y ∷ l) (splice-nil offset block)

  pub take-append_more :
      (n k : ℕ) (xs ys : List A) → n ≡ length xs + k → take n (xs ++ ys) ≡ xs ++ take k ys
  take-append_more n k [] ys e = ap (λ (t : ℕ). take t ys) (omega arith)
  take-append_more zero k (x ∷ xs) ys e = absurd (omega arith)
  take-append_more (suc n) k (x ∷ xs) ys e =
      ap (λ l. x ∷ l) (take-append_more n k xs ys (omega arith))

  -- `memmove` of a tail up by `n` cells, then `memcpy` into the gap, on the first `u` cells.
  pub insert_bytes :
      (d n u : ℕ) (source block : List A)
      → d ≤ u
      → n ≡ length source
      → u + n ≤ length block
      → take (u + n) (splice d source (splice (d + n) (read d (u - d) block) block))
        ≡ take d (take u block) ++ (source ++ drop d (take u block))
  insert_bytes d n u source block h e room =
      let tail = read d (u - d) block in
      let shifted = splice (d + n) tail block in
      let len : length tail ≡ u - d = omega (arith, length-read d (u - d) block) in
      let tail_is : tail ≡ drop d (take u block) = take-drop d (u - d) u block (omega arith) in
      let moved : read (d + n) (u - d) shifted ≡ tail =
        take-drop (d + n) (u - d) (u + n) shifted (omega arith)
        ∙ ap (λ l. drop (d + n) l) (take-splice_end (d + n) (u + n) tail block (omega arith) room)
        ∙ drop-append (d + n) (take (d + n) block) tail
            (omega (arith, length-take (d + n) block)) in
      ap (λ l. take (u + n) l)
        (splice_lem d (d + n) source shifted (omega arith)
          (omega (arith, length-splice (d + n) tail block)))
      ∙ take-append_more (u + n) (u + n - d) (take d shifted) (source ++ drop (d + n) shifted)
          (omega (arith, length-take d shifted, length-splice (d + n) tail block))
      ∙ ap₂ ◌++◌ (take-splice d (d + n) tail block (omega arith) ∙ sym (take-take d u block h)) (
          take-append_more (u + n - d) (u - d) source (drop (d + n) shifted) (omega arith)
          ∙ ap (λ l. source ++ l) (moved ∙ tail_is))

  -- `memmove` of the tail behind a gap of `n` cells down over the gap, on the first `u` cells.
  pub remove_bytes :
      (d n u : ℕ) (block : List A)
      → d + n ≤ u
      → u ≤ length block
      → take (u - n) (splice d (read (d + n) (u - d - n) block) block)
        ≡ take d (take u block) ++ drop (d + n) (take u block)
  remove_bytes d n u block h room =
      take-splice_end d (u - n) (read (d + n) (u - d - n) block) block
        (omega (arith, length-read (d + n) (u - d - n) block)) (omega arith)
      ∙ ap₂ ◌++◌ (sym (take-take d u block (omega arith)))
          (take-drop (d + n) (u - d - n) u block (omega arith))

module _ {ℓ} {A : Type ℓ} where
  -- Cutting a block off and writing into it can be done in either order.
  pub take-splice_comm :
      (u d : ℕ) (source block : List A)
      → take u (splice d source block) ≡ splice d source (take u block)
  take-splice_comm zero zero [] block = refl
  take-splice_comm zero zero (x ∷ source) block = refl
  take-splice_comm zero (suc d) source block = refl
  take-splice_comm (suc u) zero [] [] = refl
  take-splice_comm (suc u) zero [] (y ∷ block) = refl
  take-splice_comm (suc u) zero (x ∷ source) [] = refl
  take-splice_comm (suc u) zero (x ∷ source) (y ∷ block) =
      ap (λ l. x ∷ l) (take-splice_comm u zero source block)
  take-splice_comm (suc u) (suc d) source [] = refl
  take-splice_comm (suc u) (suc d) source (y ∷ block) =
      ap (λ l. y ∷ l) (take-splice_comm u d source block)

  -- Writing back what was read changes nothing.
  pub splice-read : (d n : ℕ) (block : List A) → splice d (read d n block) block ≡ block
  splice-read zero zero block = refl
  splice-read zero (suc n) [] = refl
  splice-read zero (suc n) (y ∷ block) = ap (λ l. y ∷ l) (splice-read zero n block)
  splice-read (suc d) n [] = refl
  splice-read (suc d) n (y ∷ block) = ap (λ l. y ∷ l) (splice-read d n block)

  -- One cell that was written inside the block.
  pub get_or-splice :
      (i : ℕ) (x d : A) (block : List A)
      → i < length block
      → get_or (splice i (x ∷ []) block) i d ≡ x
  get_or-splice zero x d [] h = absurd (omega arith)
  get_or-splice zero x d (y ∷ block) h = refl
  get_or-splice (suc i) x d [] h = absurd (omega arith)
  get_or-splice (suc i) x d (y ∷ block) h = get_or-splice i x d block (omega arith)

-- ===== src/Array/Store.antt =====
-- Reads and writes of an array's block, in terms of the elements that it holds.
use liblor.Common.{
  length, get_or, take, drop, read, length-splice, take-splice_end, mul_size, mul_size_exact, Cell,
  ℕ, zero, suc, ◌+◌, ◌-◌, ◌*◌, ◌≤◌, ◌<◌, ◌≡◌, refl, sym, ap, ap₂, ◌∙◌, none, some, List, [], ◌∷◌,
  ◌++◌, arith,
}
use liblor.Array.{Array, Handle, cell_at, load}
use liblor.Array.Ops.{store}
use liblor.Array.Inv.{IsValid, HandleIsValid, contents, used-le, IsApart}

-- Appending behind the elements.
pub store_end :
    (a : Array) (source : List Cell) (size : ℕ)
    → IsValid a
    → size * a.element_size ≡ a.size * a.element_size + length source
    → size ≤ a.capacity
    → let out = store (mul_size a.size a.element_size) source size (some a) in
      HandleIsValid out × (contents out ≡ contents (some a) ++ source)
store_end a source size v e h =
    let used = used-le v in
    let exact = mul_size_exact a.size a.element_size (omega arith) in
    let fits : size * a.element_size ≤ a.capacity * a.element_size = grind arith in
    (
      record {
        sized = v.sized;
        full = omega (arith, length-splice (mul_size a.size a.element_size) source a.cells, v.full);
        within = h;
        low = v.low;
        high = v.high;
      },
      rw exact
          (take-splice_end (a.size * a.element_size) _ source a.cells e (omega (arith, v.full))),
    )

read-suc :
    (xs : List Cell) (i j n : ℕ)
    → j ≡ suc i
    → i < length xs
    → read i (suc n) xs ≡ get_or xs i none ∷ read j n xs
read-suc [] i j n e h = absurd (omega arith)
read-suc (x ∷ xs) zero zero n e h = absurd (omega arith)
read-suc (x ∷ xs) zero (suc j) n e h =
    ap (λ (k : ℕ). x ∷ take n (drop k xs)) {x = 0} {y = j} (omega arith)
read-suc (x ∷ xs) (suc i) zero n e h = absurd (omega arith)
read-suc (x ∷ xs) (suc i) (suc j) n e h = read-suc xs i j n (omega arith) (omega arith)

-- The bytes at an address inside the block.
pub load-inside :
    (outside : ℕ → Cell) (a : Array) (p offset n : ℕ)
    → p ≡ a.base + offset
    → offset + n ≤ length a.cells
    → load outside (some a) p n ≡ read offset n a.cells
load-inside outside a p offset zero e h = refl
load-inside outside a p offset (suc n) e h =
    ap₂ ◌∷◌ here (load-inside outside a (p + 1) (offset + 1) n (omega arith) (omega arith))
    ∙ sym (read-suc a.cells offset (offset + 1) n (omega arith) (omega arith))
  where
    here : cell_at outside (some a) p ≡ get_or a.cells offset none
    here = let e' : p - a.base ≡ offset = omega arith in rw e' (ground arith)

pub load-outside :
    (outside : ℕ → Cell) (array : Handle) (p n : ℕ)
    → IsApart array p n
    → load outside array p n ≡ load outside none p n
load-outside outside none p n h = refl
load-outside outside (some a) p zero h = refl
load-outside outside (some a) p (suc n) h =
    ap₂ ◌∷◌ here (load-outside outside (some a) (p + 1) n (omega arith))
  where
    here : cell_at outside (some a) p ≡ outside p
    here = ground arith

pub length-load :
    (outside : ℕ → Cell) (array : Handle) (p n : ℕ) → length (load outside array p n) ≡ n
length-load outside array p zero = refl
length-load outside array p (suc n) = ap suc (length-load outside array (p + 1) n)

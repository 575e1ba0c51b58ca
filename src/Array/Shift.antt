-- ===== src/Array/Shift.antt =====
-- Shifting the tail of an array and writing into the gap, as `lor_array_insert_raw` does after its
-- checks.
use liblor.Common.{
  ◌==◌, Bool-cases, length, take, drop, splice, read, length-splice, splice-nil, insert_bytes,
  size_max, add_size, mul_size, mul_size_exact, scale-le, scale-add-le, scale-sub, mul_size-zero,
  Cell, Realloc, IsAllocator, ℕ, ◌+◌, ◌-◌, ◌*◌, ◌≤◌, ◌<◌, ◌≡◌, refl, sym, ap, ◌∙◌, ◌≢◌, inl, inr,
  none, some, List, ◌++◌, arith,
}
use liblor.Status.{Status, ok, bind-cases}
use liblor.Array.{Array, Handle, array_size, reserve}
use liblor.Array.Ops.{store, shift_tail, insert_store, insert_from}
use liblor.Array.Inv.{IsValid, HandleIsValid, contents, used-le, Reserves, reserve_lem}

-- The outcome of inserting at byte offset `d`: on success `source` stands between the old elements
-- before and behind it, else nothing changed.
pub record Inserts (d count : ℕ) (source : List Cell) (array : Handle) (out : Status × Handle)
    : Type 0 where
  pub valid : HandleIsValid out.1
  pub grown : out.0 ≡ ok → array_size out.1 ≡ array_size array + count
  pub inserted :
      out.0 ≡ ok → contents out.1 ≡ take d (contents array) ++ (source ++ drop d (contents array))
  pub kept : out.0 ≢ ok → out.1 ≡ array

-- The shift as one move of bytes, also where the tail is empty.
shift_tail_lem :
    (index n d t e : ℕ) (a : Array)
    → mul_size index a.element_size ≡ d
    → mul_size (a.size - index) a.element_size ≡ t
    → add_size d n ≡ e
    → (a.size - index ≡ 0 → t ≡ 0)
    → shift_tail a.element_size index n a.size (some a)
      ≡ some (record a { cells = splice e (read d t a.cells) a.cells })
unfolding shift_tail
shift_tail_lem index n d t e a p q r z = elim (Bool-cases (a.size - index == 0)) [
  | inr more ↦ rw (more, p, q, r)
  | inl last ↦
      let e' = z (ground arith) in
      rw (last, e')
        (ap (λ (c : List Cell). some (record a { cells = c })) (sym (splice-nil e a.cells)))
]

-- Shifting the tail and writing into the gap.
insert_store-contents :
    (index count : ℕ) (source : List Cell) (a : Array)
    → IsValid a
    → index ≤ a.size
    → a.size + count ≤ a.capacity
    → length source ≡ count * a.element_size
    → let es = a.element_size in
      let out =
        store
          (mul_size index es)
          source
          (a.size + count)
          (shift_tail es index (mul_size count es) a.size (some a)) in
      HandleIsValid out
      × (contents out
          ≡ take (index * es) (contents (some a))
            ++ (source ++ drop (index * es) (contents (some a))))
insert_store-contents index count source a v h room len =
    let es = a.element_size in
    let u = a.size * es in
    let d = index * es in
    let n = count * es in
    let used = used-le v in
    let below : d ≤ u = scale-le index a.size es h in
    let whole : u + n ≤ a.capacity * es = scale-add-le a.size count a.capacity es room in
    let e₀ = mul_size_exact index es (omega arith) in
    let e₁ = mul_size_exact count es (omega arith) in
    let rest : (a.size - index) * es ≡ u - d = scale-sub a.size index es h in
    let e₂ = mul_size_exact (a.size - index) es (omega arith) in
    let tail = read d (u - d) a.cells in
    let shifted = splice (d + n) tail a.cells in
    let shift : shift_tail es index (mul_size count es) a.size (some a)
        ≡ some (record a { cells = shifted }) =
      shift_tail_lem index (mul_size count es) d (u - d) (d + n) a e₀ (e₂ ∙ rest) (omega arith)
        (λ e. sym rest ∙ ap (λ (t : ℕ). t * es) e ∙ omega arith) in
    let bytes : (a.size + count) * es ≡ u + n = omega arith in
    let k = splice d source shifted in
    rw (shift, e₀)
      (
        record {
          sized = v.sized;
          full =
              omega
                (arith, length-splice d source shifted, length-splice (d + n) tail a.cells, v.full);
          within = room;
          low = v.low;
          high = v.high;
        },
        ap (λ (t : ℕ). take t k) bytes
            ∙ insert_bytes d n u source a.cells below (sym len) (omega (arith, v.full)),
      )

module _ (realloc : Realloc) (sound : IsAllocator realloc) (outside : ℕ → Cell) where
  stored :
      (es index count : ℕ) (from : Handle → List Cell) (array : Handle) (source : List Cell)
      (a : Array)
      → HandleIsValid array
      → index ≤ array_size array
      → array_size array + count ≤ size_max
      → length source ≡ count * es
      → Reserves es (add_size (array_size array) count) array (ok, some a)
      → ((b : Array) → b.base ≡ a.base → length b.cells ≡ length a.cells → from (some b) ≡ source)
      → Inserts
          (index * es)
          count
          source
          array
          (insert_store realloc outside es index count from (array_size array) (some a))
  stored es index count from array source a v h small len r loads =
      let same_size = r.fits refl a refl in
      let size : add_size (array_size array) count ≡ a.size + count = omega (arith, r.count) in
      let n = mul_size count a.element_size in
      let shift =
        shift_tail_lem index n _ _ _ a refl refl refl (λ e. rw e (mul_size-zero a.element_size)) in
      let inserted : from (shift_tail es index (mul_size count es) (array_size array) (some a))
          ≡ source =
        rw (← same_size, ← r.count, shift)
          (loads _ refl (length-splice _ (read _ _ a.cells) a.cells)) in
      let (valid, joined) =
        insert_store-contents index count source a r.valid (omega (arith, r.count))
          (omega (arith, r.enough refl, r.count))
          (omega (arith, len, ap (λ (t : ℕ). count * t) same_size)) in
      rw (inserted, size, ← r.count, ← same_size)
        (record {
          valid = valid;
          grown = λ _. rw shift (omega (arith, r.count));
          inserted = λ _.
              joined
              ∙ ap
                  (λ l.
                    take (index * a.element_size) l ++ (source ++ drop (index * a.element_size) l))
                  r.same;
          kept = λ bad. absurd (bad refl);
        })

  pub insert_from-Inserts :
      (es index count : ℕ) (from : Handle → List Cell) (array : Handle) (source : List Cell)
      → HandleIsValid array
      → index ≤ array_size array
      → 0 < count
      → array_size array + count ≤ size_max
      → length source ≡ count * es
      → ((a b : Array)
          → reserve realloc es (add_size (array_size array) count) array ≡ (ok, some a)
          → b.base ≡ a.base
          → length b.cells ≡ length a.cells
          → from (some b) ≡ source)
      → Inserts
          (index * es)
          count
          source
          array
          (insert_from realloc outside es index count from array)
  unfolding insert_from
  insert_from-Inserts es index count from array source v h pos small len loads =
      let old_size = array_size array in
      let new_size = add_size old_size count in
      let out = reserve realloc es new_size array in
      let r = reserve_lem realloc sound es new_size array (omega arith) v in
      elim (bind-cases out (insert_store realloc outside es index count from old_size)) [
        | inr (bad, e) ↦ rw e (record {
          valid = r.valid;
          grown = λ g. absurd (bad g);
          inserted = λ g. absurd (bad g);
          kept = r.kept;
        })
        | inl (good, e) ↦ rw e (on_success out r refl good)
      ]
    where
      on_success :
          (out : Status × Handle)
          → Reserves es (add_size (array_size array) count) array out
          → reserve realloc es (add_size (array_size array) count) array ≡ out
          → out.0 ≡ ok
          → Inserts
              (index * es)
              count
              source
              array
              (insert_store realloc outside es index count from (array_size array) out.1)
      on_success (ok, none) r d g = absurd (omega (arith, r.enough g))
      on_success (ok, some a) r d g =
          stored es index count from array source a v h small len r (λ b. loads a b d)
      on_success (s, array') r d g = cc

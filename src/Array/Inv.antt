-- ===== src/Array/Inv.antt =====
-- The invariant of an array block, and what growth does to it.
use liblor.Common.{
  ltb, leb, if◌then◌else◌, Bool-cases, Option-cases, length, take, length-take, size_max, add_size,
  mul_size, mul_size_exact, mul-le_of_le_div, Cell, Realloc, IsAllocator, refit, length-refit,
  double_until_enough, double_until_bounds, take-refit, ℕ, ◌+◌, ◌-◌, ◌*◌, ◌/◌, ◌≤◌, ◌<◌, max, ◌≡◌,
  refl, sym, ap, subst, ◌∙◌, ◌≢◌, ◌⊎◌, inl, inr, true, Option, none, some, List, [], arith,
}
use liblor.Status.{Status, ok, invalid_argument, out_of_memory, overflow}
use liblor.Array.{
  Array, Handle, header_size, array_size, array_capacity, array_element_size, valid_element_size,
  growth_capacity, moved, header_of, reserve,
}

-- The block is as large as the capacity says, and its end does not wrap.
pub record IsValid (a : Array) : Type 0 where
  pub sized : 0 < a.element_size
  pub full : length a.cells ≡ a.capacity * a.element_size
  pub within : a.size ≤ a.capacity
  pub low : header_size ≤ a.base
  pub high : a.base + a.capacity * a.element_size ≤ size_max

abbrev pub HandleIsValid : Handle → Type 0
HandleIsValid none = Unit {0}
HandleIsValid (some a) = IsValid a

-- The bytes of the elements.
abbrev pub contents : Handle → List Cell
contents none = []
contents (some a) = take (a.size * a.element_size) a.cells

-- The growth rule reaches what is required, keeps at least 8 elements and never shrinks.
pub growth_capacity_bounds :
    (current required : ℕ)
    → required ≤ size_max
    → (required ≤ growth_capacity current required)
      × (8 ≤ growth_capacity current required)
      × (current ≤ growth_capacity current required)
      × (growth_capacity current required ≤ max (max 8 current) (2 * required))
      × (growth_capacity current required ≤ max current size_max)
unfolding growth_capacity
growth_capacity_bounds current required h =
    let start = if ltb current 8 then 8 else current in
    ground (arith, double_until_enough 64 start required, double_until_bounds 64 start required)

pub used-le : {a : Array} → IsValid a → a.size * a.element_size ≤ a.capacity * a.element_size
used-le v = grind arith

pub length-contents : (a : Array) → IsValid a → length (contents (some a)) ≡ a.size * a.element_size
length-contents a v = omega (arith, used-le v, length-take (a.size * a.element_size) a.cells)

pub size-le-max : (array : Handle) → HandleIsValid array → array_size array ≤ size_max
size-le-max none v = omega arith
size-le-max (some a) v =
    let scaled : a.capacity * 1 ≤ a.capacity * a.element_size = grind arith in omega arith

-- Where a range of addresses meets no cell of an array.
abbrev pub IsApart : Handle → ℕ → ℕ → Type 0
IsApart none p n = Unit {0}
IsApart (some a) p n = (p + n ≤ a.base) ⊎ (a.base + length a.cells ≤ p)

-- `realloc` gives no memory that meets a range which is in use.
abbrev pub Spares : Realloc → ℕ → ℕ → Type 0
Spares realloc p n =
    (old : Option ℕ) (size q : ℕ) → realloc old size ≡ some q → (p + n ≤ q) ⊎ (q + size ≤ p)

pub record Reserves (es capacity : ℕ) (array : Handle) (out : Status × Handle) : Type 0 where
  pub valid : HandleIsValid out.1
  pub same : contents out.1 ≡ contents array
  pub count : array_size out.1 ≡ array_size array
  pub enough : out.0 ≡ ok → capacity ≤ array_capacity out.1
  pub fits : out.0 ≡ ok → (a : Array) → out.1 ≡ some a → a.element_size ≡ es
  pub kept : out.0 ≢ ok → out.1 ≡ array

valid_element_size-eq :
    (a : Array) (es : ℕ) → valid_element_size (some a) es ≡ true → a.element_size ≡ es
valid_element_size-eq a es h = ground arith

unchanged :
    (es capacity : ℕ) (array : Handle) (s : Status)
    → HandleIsValid array
    → (s ≡ ok → capacity ≤ array_capacity array)
    → (s ≡ ok → valid_element_size array es ≡ true)
    → Reserves es capacity array (s, array)
unchanged es capacity array s v c w = record {
  valid = v;
  same = refl;
  count = refl;
  enough = c;
  fits = λ e a i. valid_element_size-eq a es (subst (λ h. valid_element_size h es ≡ true) i (w e));
  kept = λ _. refl;
}

moved-IsApart :
    (p n es nc q : ℕ) (array : Handle)
    → nc * es ≤ size_max - header_size
    → (p + n ≤ q) ⊎ (q + add_size header_size (mul_size nc es) ≤ p)
    → IsApart (some (moved array es nc q)) p n
moved-IsApart p n es nc q none h d =
    omega (arith, mul_size_exact nc es (omega arith), length-refit (mul_size nc es) [])
moved-IsApart p n es nc q (some a) h d =
    omega (arith, mul_size_exact nc es (omega arith), length-refit (mul_size nc es) a.cells)

module _ (realloc : Realloc) (sound : IsAllocator realloc) where
  -- The block that `realloc` moves to is valid, and holds the same elements.
  moved-Reserves :
      (es capacity new_capacity p : ℕ) (array : Handle)
      → HandleIsValid array
      → valid_element_size array es ≡ true
      → capacity ≤ new_capacity
      → array_capacity array ≤ new_capacity
      → new_capacity ≤ (size_max - header_size) / es
      → realloc (header_of array) (add_size header_size (mul_size new_capacity es)) ≡ some p
      → Reserves es capacity array (ok, some (moved array es new_capacity p))
  moved-Reserves es capacity new_capacity p none v fits c0 c1 c2 e =
      let whole = mul-le_of_le_div new_capacity es (size_max - header_size) c2 in
      let exact = mul_size_exact new_capacity es (omega arith) in
      record {
        valid = record {
          sized = ground arith;
          full = omega (arith, length-refit (mul_size new_capacity es) []);
          within = omega arith;
          low = omega arith;
          high = omega (arith, sound none _ p e);
        };
        same =
            ap (λ (n : ℕ). take n (refit (mul_size new_capacity es) [])) {x = 0 * es} {y = 0}
              (omega arith);
        count = refl;
        enough = λ _. c0;
        fits = λ _ b i. sym (ap (λ h. array_element_size h) i);
        kept = λ ne. absurd (ne refl);
      }
  moved-Reserves es capacity new_capacity p (some a) v fits c0 c1 c2 e =
      let whole = mul-le_of_le_div new_capacity es (size_max - header_size) c2 in
      let exact = mul_size_exact new_capacity es (omega arith) in
      let same_size : a.element_size ≡ es = ground arith in
      let bytes : new_capacity * a.element_size ≡ new_capacity * es =
        ap (λ (t : ℕ). new_capacity * t) same_size in
      let more : a.capacity * es ≤ new_capacity * es = grind arith in
      let used : a.size * es ≤ a.capacity * es = grind arith in
      record {
        valid = record {
          sized = omega arith;
          full = omega (arith, length-refit (mul_size new_capacity es) a.cells);
          within = omega arith;
          low = omega arith;
          high = omega (arith, sound (header_of (some a)) _ p e);
        };
        same =
            take-refit (a.size * a.element_size) (mul_size new_capacity es) a.cells
              (omega (arith, used-le v, ap (λ (t : ℕ). a.size * t) same_size))
              (omega (arith, used-le v));
        count = refl;
        enough = λ _. c0;
        fits = λ _ b i. ap (λ h. array_element_size h) (sym i) ∙ same_size;
        kept = λ ne. absurd (ne refl);
      }

  -- The branches of `reserve`, by what they leave to show.
  reserve_cases :
      (P : Status × Handle → Type 0) (es capacity : ℕ) (array : Handle)
      → capacity ≤ size_max
      → ((s : Status) → s ≢ ok → P (s, array))
      → (valid_element_size array es ≡ true → capacity ≤ array_capacity array → P (ok, array))
      → ((nc p : ℕ)
          → valid_element_size array es ≡ true
          → capacity ≤ nc
          → array_capacity array ≤ nc
          → nc ≤ (size_max - header_size) / es
          → realloc (header_of array) (add_size header_size (mul_size nc es)) ≡ some p
          → P (ok, some (moved array es nc p)))
      → P (reserve realloc es capacity array)
  unfolding reserve
  reserve_cases P es capacity array r refuse keep grow =
      let nc = growth_capacity (array_capacity array) capacity in
      let grown = growth_capacity_bounds (array_capacity array) capacity r in
      elim (Bool-cases (valid_element_size array es)) [
        | inr bad ↦ rw bad (refuse invalid_argument (λ e. cc))
        | inl fits ↦ elim (Bool-cases (leb capacity (array_capacity array))) [
          | inl room ↦ rw (fits, room) (keep fits (ground arith))
          | inr short ↦ elim (Bool-cases (ltb ((size_max - header_size) / es) nc)) [
            | inl large ↦ rw (fits, short, large) (refuse overflow (λ e. cc))
            | inr small ↦
                let size = add_size header_size (mul_size nc es) in
                elim (Option-cases (realloc (header_of array) size)) [
                  | inl failed ↦ rw (fits, short, small, failed) (refuse out_of_memory (λ e. cc))
                  | inr (p, e) ↦
                      rw (fits, short, small, e) (grow nc p fits grown.0 grown.2 (ground arith) e)
                ]
          ]
        ]
      ]

  -- Reserving a capacity that fits `size_t` in a valid array, where `realloc` keeps to its
  -- contract: the array stays valid with the same elements; on success the capacity is at least
  -- the one asked for and the element size is the one given; a call that fails leaves the array as
  -- it was.
  pub reserve_lem :
      (es capacity : ℕ) (array : Handle)
      → capacity ≤ size_max
      → HandleIsValid array
      → Reserves es capacity array (reserve realloc es capacity array)
  reserve_lem es capacity array r v =
      reserve_cases (λ out. Reserves es capacity array out) es capacity array r
        (λ s bad. unchanged es capacity array s v (λ e. absurd (bad e)) (λ e. absurd (bad e)))
        (λ fits room. unchanged es capacity array ok v (λ _. room) (λ _. fits))
        (λ nc p fits c₀ c₁ c₂ e. moved-Reserves es capacity nc p array v fits c₀ c₁ c₂ e)

  -- The grown block is the old one, or one that `realloc` gave.
  pub reserve-IsApart :
      (es capacity p n : ℕ) (array : Handle)
      → capacity ≤ size_max
      → Spares realloc p n
      → IsApart array p n
      → IsApart (reserve realloc es capacity array).1 p n
  reserve-IsApart es capacity p n array r spares apart =
      reserve_cases (λ out. IsApart out.1 p n) es capacity array r (λ s bad. apart)
        (λ fits room. apart)
        (λ nc q fits c₀ c₁ c₂ e.
          moved-IsApart p n es nc q array (mul-le_of_le_div nc es (size_max - header_size) c₂)
            (spares (header_of array) _ q e))

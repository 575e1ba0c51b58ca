-- ===== src/Map/Views.antt =====
-- src/map.c: the callbacks of string-view keys, and their configurations. A clone also gives the
-- memory with its copy.
use liblor.Common.{
  ltb, leb, ◌==◌, if◌then◌else◌, Bool-cases, ℕ, zero, suc, ◌+◌, ◌-◌, ◌<◌, ◌≡◌, refl, sym, ap, ap₂,
  ◌∙◌, inl, inr, Bool, true, false, not, ◌&&◌, Option, none, some, ◌∷◌, arith,
}
use liblor.Status.{Status, ok, invalid_argument, out_of_memory}
use liblor.Map.{Config, hash_bytes}
use liblor.View.{equal, View, Memory, empty_view, from_parts, is_valid}
use liblor.View.Text.{chars, text}
use liblor.View.Compare.{equal_lem}

-- `sizeof(LorStringView)`
abbrev pub view_bytes : ℕ
view_bytes = 16

unfoldable pub sv_hash : Memory → View → ℕ → ℕ → ℕ
sv_hash mem key key_size context =
    if not (key_size == view_bytes)
    then 0
    else if not (is_valid key)
    then 0
    else hash_bytes (text mem key)

unfoldable pub sv_equal : Memory → View → View → ℕ → ℕ → Bool
sv_equal mem a b key_size context = if not (key_size == view_bytes) then false else equal mem a b

unfoldable pub sv_valid : View → ℕ → ℕ → Bool
sv_valid key key_size context = key_size == view_bytes && is_valid key

-- `memcpy` of `n` bytes in memory.
abbrev pub copy_bytes : Memory → ℕ → ℕ → ℕ → Memory
copy_bytes mem destination source n p =
    if leb destination p && ltb p (destination + n) then mem (source + (p - destination)) else mem p

-- On failure the destination is the zeroed one.
unfoldable pub sv_clone : (ℕ → Option ℕ) → Memory → View → ℕ → ℕ → Status × View × Memory
sv_clone malloc mem source key_size context =
    if not (key_size == view_bytes)
    then (invalid_argument, empty_view, mem)
    else if not (is_valid source)
    then (invalid_argument, empty_view, mem)
    else if source.size == 0
    then (ok, empty_view, mem)
    else elim (malloc source.size) [
      | none ↦ (out_of_memory, empty_view, mem)
      | some target ↦
          (ok, from_parts target source.size, copy_bytes mem target source.start source.size)
    ]

-- The pointer that is freed, and the key that is left.
unfoldable pub sv_drop : View → ℕ → ℕ → Option ℕ × View
sv_drop key key_size context =
    if not (key_size == view_bytes) then (none, key) else (some key.start, empty_view)

-- `LorMapKeyOwnership`, with the values that it does not name.
pub data KeyOwnership : Type 0 where
  borrowed owned other : KeyOwnership

-- Where the five callbacks lie.
pub record CallbackPlaces : Type 0 where
  pub hash_at : ℕ
  pub equal_at : ℕ
  pub valid_at : ℕ
  pub clone_at : ℕ
  pub drop_at : ℕ

abbrev pub clone_key : (ℕ → Option ℕ) → Memory → View → ℕ → ℕ → Status × View
unfolding sv_clone
clone_key malloc mem source key_size context =
    let (status, key, mem') = sv_clone malloc mem source key_size context in (status, key)

unfoldable pub config_string_view :
    CallbackPlaces → (ℕ → Option ℕ) → Memory → KeyOwnership → Config View
unfolding sv_hash sv_equal sv_valid clone_key
config_string_view places malloc mem ownership =
    let config : Config View = record {
      hash = some (record { address = places.hash_at; call = sv_hash mem });
      equal = some (record { address = places.equal_at; call = sv_equal mem });
      key_valid = some (record { address = places.valid_at; call = sv_valid });
      clone = none;
      drop = none;
      context = 0;
    } in
    elim ownership [
      | borrowed ↦ config
      | owned ↦ record config {
        clone = some (record { address = places.clone_at; call = clone_key malloc mem });
        drop = some places.drop_at;
      }
      | other ↦ record config { equal = none }
    ]

-- Valid keys that `sv_equal` calls equal have the same hash, as the search among the buckets asks.
pub sv_hash-equal :
    (mem : Memory) (a b : View) (key_size context : ℕ)
    → is_valid a ≡ true
    → is_valid b ≡ true
    → sv_equal mem a b key_size context ≡ true
    → sv_hash mem a key_size context ≡ sv_hash mem b key_size context
unfolding sv_hash sv_equal
sv_hash-equal mem a b key_size context va vb e = elim (Bool-cases (key_size == view_bytes)) [
  | inr bad ↦ rw bad refl
  | inl good ↦
      let same : text mem a ≡ text mem b = (equal_lem mem a b va vb).0 (rw good at e) in
      rw (good, va, vb) (ap hash_bytes same)
]

chars_congr :
    (mem mem' : Memory) (p q n : ℕ)
    → ((i : ℕ) → i < n → mem (p + i) ≡ mem' (q + i))
    → chars mem p n ≡ chars mem' q n
chars_congr mem mem' p q zero h = refl
chars_congr mem mem' p q (suc n) h =
    ap₂ (λ (x : ℕ) l. x ∷ l) first
      (chars_congr mem mem' (p + 1) (q + 1) n (λ i b.
        ap mem {x = p + 1 + i} {y = p + suc i} (omega arith)
        ∙ h (suc i) (omega arith)
        ∙ ap mem' {x = q + suc i} {y = q + 1 + i} (omega arith)))
  where
    first : mem p ≡ mem' q
    first =
        ap mem {x = p} {y = p + 0} (omega arith)
        ∙ h 0 (omega arith)
        ∙ ap mem' {x = q + 0} {y = q} (omega arith)

-- Cloning a valid key of the right size succeeds if `malloc` does. The copy is valid and shows the
-- characters of the source in the memory that the call leaves.
pub sv_clone_lem :
    (malloc : ℕ → Option ℕ) (mem : Memory) (source : View) (context target : ℕ)
    → is_valid source ≡ true
    → malloc source.size ≡ some target
    → 0 < target
    → let (status, key, mem') = sv_clone malloc mem source view_bytes context in
      (status ≡ ok) × (is_valid key ≡ true) × (text mem' key ≡ text mem source)
unfolding sv_clone
sv_clone_lem malloc mem source context target v got p = elim (Bool-cases (source.size == 0)) [
  | inl empty ↦
      let z : source.size ≡ 0 = ground arith in
      rw (v, empty) (refl, refl, ap (λ (n : ℕ). chars mem source.start n) (sym z))
  | inr full ↦
      let real : (target == 0) ≡ false = ground arith in
      rw (v, full, got, real)
        (
          refl,
          rw real refl,
          sym (
              chars_congr mem (copy_bytes mem target source.start source.size) source.start target
                source.size (copied mem target source.start source.size)),
        )
]
  where
    copied : (mem : Memory) (d s n i : ℕ) → i < n → mem (s + i) ≡ copy_bytes mem d s n (d + i)
    copied mem d s n i h =
        let e : d + i - d ≡ i = omega arith in
        let in_range : (leb d (d + i) && ltb (d + i) (d + n)) ≡ true = ground arith in
        rw (in_range, e) refl

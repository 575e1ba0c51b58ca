-- ===== src/Leaks/Tracking.antt =====
-- src/memory.c: each call keeps the records true to the memory that a program has.
use liblor.Common.{
  leb, ◌==◌, Bool-cases, Option-cases, size_max, ℕ, ◌+◌, ◌*◌, ◌≡◌, refl, subst, ◌∙◌, ◌≢◌, inl, inr,
  Bool, true, false, ◌||◌, Option, none, some, List, arith,
}
use liblor.Leaks.{
  heap, Place, Leak, is_leak, find_leak, track, untrack, Answer, malloc_debug, calloc_debug,
  free_debug, strdup_debug,
}
use liblor.Leaks.Sizes.{size_at, is_leak_pointer, eq_of_equal, find_leak-none, size_at-remove}
use liblor.Leaks.Running.{
  Live, put, drop_live, put_given, calloc_size, strdup_size, IsText, drop_given, IsRecorded, Tracks,
}
use liblor.Leaks.Moving.{remove_leak-AreApart}
use liblor.Arena.{mul_overflows}
use liblor.Leaks.Arrays.{calloc_size_refused, calloc_size_taken}

is_leak_record :
    (pointer size other : ℕ) (place : Place)
    → is_leak other heap (record { kind = heap; pointer = pointer; size = size; place = place })
      ≡ (pointer == other)
unfolding is_leak
is_leak_record pointer size other place = elim (Bool-cases (pointer == other)) [
  | inl same ↦ rw same refl
  | inr different ↦ rw different refl
]

pub given_ne : (n : ℕ) → n == 0 ≡ false → n ≢ 0
given_ne n e = ground arith

-- Heap memory that is given comes to be tracked.
pub track-Tracks :
    (live : Live) (leaks : List Leak) (answer : Answer) (size : ℕ) (place : Place)
    → Tracks live leaks
    → IsRecorded live answer
    → answer.given == 0 ≡ false
    → Tracks
        (put answer.given size live)
        (track answer.record_given heap answer.given size place leaks)
unfolding track
track-Tracks live leaks answer size place tracks new given =
    let leak : Leak = record { kind = heap; pointer = answer.given; size = size; place = place } in
    let some_given : answer.given ≢ 0 = given_ne answer.given given in
    rw (track, given, new.recorded some_given)
      (record {
        sizes = λ other. rw (is_leak_record answer.given size other place, tracks.sizes other) refl;
        apart = (
          (λ other that.
              subst (λ p. size_at leaks p ≡ none) (is_leak_pointer other leak that)
                (tracks.sizes answer.given ∙ new.unused some_given)),
          tracks.apart,
        );
      })

-- NULL is not tracked.
track_null :
    (record_given : Bool) (pointer size : ℕ) (place : Place) (leaks : List Leak)
    → pointer == 0 ≡ true
    → track record_given heap pointer size place leaks ≡ leaks
unfolding track
track_null record_given pointer size place leaks null = rw null refl

pub track_given-Tracks :
    (live : Live) (leaks : List Leak) (answer : Answer) (size : ℕ) (place : Place)
    → Tracks live leaks
    → IsRecorded live answer
    → size == 0 ≡ false
    → Tracks
        (put_given answer.given size live)
        (track answer.record_given heap answer.given size place leaks)
track_given-Tracks live leaks answer size place tracks new some_size =
    elim (Bool-cases (answer.given == 0)) [
      | inl null ↦
          rw (track_null answer.record_given answer.given size place leaks null, some_size, null)
            tracks
      | inr given ↦
          rw (some_size, given) (track-Tracks live leaks answer size place tracks new given)
    ]

pub malloc_debug-Tracks :
    (live : Live) (leaks : List Leak) (answer : Answer) (size : ℕ) (place : Place)
    → Tracks live leaks
    → IsRecorded live answer
    → Tracks (put_given answer.given size live) (malloc_debug answer size place leaks).1
unfolding malloc_debug
malloc_debug-Tracks live leaks answer size place tracks new = elim (Bool-cases (size == 0)) [
  | inl nothing ↦ rw (malloc_debug, nothing) tracks
  | inr some_size ↦
      let out = track_given-Tracks live leaks answer size place tracks new some_size in
      rw (malloc_debug, some_size) (rw some_size at out)
]

-- An array whose bytes do not fit `size_t` is not given.
pub calloc_debug-Tracks :
    (live : Live) (leaks : List Leak) (answer : Answer) (count elem_size : ℕ) (place : Place)
    → Tracks live leaks
    → IsRecorded live answer
    → Tracks
        (put_given answer.given (calloc_size count elem_size) live)
        (calloc_debug answer count elem_size place leaks).1
unfolding calloc_debug
calloc_debug-Tracks live leaks answer count elem_size place tracks new =
    elim (Bool-cases (count == 0 || elem_size == 0 || mul_overflows count elem_size)) [
      | inl refused ↦
          let nothing = calloc_size_refused count elem_size refused in
          rw (calloc_debug, refused, nothing) tracks
      | inr taken ↦
          let (bytes, some_size) = calloc_size_taken count elem_size taken in
          rw (calloc_debug, taken, bytes)
            (track_given-Tracks live leaks answer (count * elem_size) place tracks new some_size)
    ]

pub strdup_debug-Tracks :
    (live : Live) (leaks : List Leak) (answer : Answer) (text : Option ℕ) (place : Place)
    → Tracks live leaks
    → IsRecorded live answer
    → IsText text
    → Tracks
        (put_given answer.given (strdup_size text) live)
        (strdup_debug answer text place leaks).1
unfolding strdup_debug
strdup_debug-Tracks live leaks answer none place tracks new small = tracks
strdup_debug-Tracks live leaks answer (some len) place tracks new small =
    elim (Bool-cases (len == size_max)) [
      | inl most ↦
          let too_long : leb (len + 1) size_max ≡ false = ground arith in
          rw (strdup_debug, most, too_long) tracks
      | inr not_max ↦
          let fits : leb (len + 1) size_max ≡ true = ground arith in
          rw (strdup_debug, not_max, fits)
            (malloc_debug-Tracks live leaks answer (len + 1) place tracks new)
    ]

-- A pointer without a record is not live.
pub not_live :
    (live : Live) (leaks : List Leak) (pointer : ℕ)
    → Tracks live leaks
    → find_leak pointer heap leaks ≡ none
    → Tracks (drop_live pointer live) leaks
not_live live leaks pointer tracks nothing = record {
  apart = tracks.apart;
  sizes = λ other. elim (Bool-cases (pointer == other)) [
    | inl same ↦ rw same (
        subst (λ p. size_at leaks p ≡ none) (eq_of_equal pointer other same)
          (find_leak-none pointer leaks nothing))
    | inr different ↦ rw different (tracks.sizes other)
  ];
}

free_null :
    (pointer : ℕ) (leaks : List Leak) → pointer == 0 ≡ true → free_debug pointer leaks ≡ leaks
unfolding free_debug
free_null pointer leaks null = rw null refl

pub freed-Tracks :
    (live : Live) (leaks : List Leak) (pointer : ℕ)
    → Tracks live leaks
    → pointer == 0 ≡ false
    → Tracks (drop_live pointer live) (free_debug pointer leaks)
unfolding free_debug untrack
freed-Tracks live leaks pointer tracks given = elim (Option-cases (find_leak pointer heap leaks)) [
  | inl nothing ↦
      rw (free_debug, untrack, given, nothing) (not_live live leaks pointer tracks nothing)
  | inr (i, found) ↦
      rw (free_debug, untrack, given, found)
        (record {
          sizes = λ other.
              rw (size_at-remove pointer i leaks tracks.apart found other, tracks.sizes other) refl;
          apart = remove_leak-AreApart pointer i leaks tracks.apart found;
        })
]

pub free_debug-Tracks :
    (live : Live) (leaks : List Leak) (pointer : ℕ)
    → Tracks live leaks
    → Tracks (drop_given pointer live) (free_debug pointer leaks)
free_debug-Tracks live leaks pointer tracks = elim (Bool-cases (pointer == 0)) [
  | inl null ↦ rw (free_null pointer leaks null, null) tracks
  | inr given ↦ rw given (freed-Tracks live leaks pointer tracks given)
]

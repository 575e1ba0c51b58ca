-- ===== src/Leaks/Counting.antt =====
-- src/memory.c: the counters of the records.
use liblor.Common.{
  if◌then◌else◌, Bool-cases, length, size_max, u64, ℕ, ◌+◌, ◌≤◌, ◌≡◌, refl, inl, inr, none, List,
  [], ◌∷◌, arith,
}
use liblor.Leaks.{
  Kind, heap, arena, mmap, Place, Leak, Stats, same_kind, no_stats, add_stats, stats_from,
  leakcheck_stats, leakcheck_count,
}
use liblor.Leaks.Sizes.{size_at, is_leak_self, is_leak_not_heap}

-- The number of records of a kind.
abbrev pub number_of : Kind → List Leak → ℕ
number_of kind [] = 0
number_of kind (leak ∷ leaks) =
    let rest = number_of kind leaks in if same_kind leak.kind kind then 1 + rest else rest

-- The bytes of the records of a kind.
abbrev pub bytes_of : Kind → List Leak → ℕ
bytes_of kind [] = 0
bytes_of kind (leak ∷ leaks) =
    let rest = bytes_of kind leaks in if same_kind leak.kind kind then leak.size + rest else rest

record Counts (stats : Stats) (leaks : List Leak) (out : Stats) : Type 0 where
  heaps : out.heap_count ≡ u64 (stats.heap_count + number_of heap leaks)
  heap_size : out.heap_bytes ≡ u64 (stats.heap_bytes + bytes_of heap leaks)
  arenas : out.arena_count ≡ u64 (stats.arena_count + number_of arena leaks)
  mmaps : out.mmap_count ≡ u64 (stats.mmap_count + number_of mmap leaks)
  mmap_size : out.mmap_bytes ≡ u64 (stats.mmap_bytes + bytes_of mmap leaks)

-- Counters that are words.
record AreWords (stats : Stats) : Type 0 where
  heaps : stats.heap_count ≤ size_max
  heap_size : stats.heap_bytes ≤ size_max
  arenas : stats.arena_count ≤ size_max
  mmaps : stats.mmap_count ≤ size_max
  mmap_size : stats.mmap_bytes ≤ size_max

add_stats-AreWords :
    (kind : Kind) (pointer size : ℕ) (place : Place) (stats : Stats)
    → AreWords stats
    → AreWords
        (add_stats (record { kind = kind; pointer = pointer; size = size; place = place }) stats)
add_stats-AreWords heap pointer size place stats words = record {
  heaps = omega (arith, words.heaps);
  heap_size = omega (arith, words.heap_size);
  arenas = words.arenas;
  mmaps = words.mmaps;
  mmap_size = words.mmap_size;
}
add_stats-AreWords arena pointer size place stats words = record {
  heaps = words.heaps;
  heap_size = words.heap_size;
  arenas = omega (arith, words.arenas);
  mmaps = words.mmaps;
  mmap_size = words.mmap_size;
}
add_stats-AreWords mmap pointer size place stats words = record {
  heaps = words.heaps;
  heap_size = words.heap_size;
  arenas = words.arenas;
  mmaps = omega (arith, words.mmaps);
  mmap_size = omega (arith, words.mmap_size);
}

-- A record is counted before those that follow it.
add_stats-Counts :
    (kind : Kind) (pointer size : ℕ) (place : Place) (leaks : List Leak) (stats out : Stats)
    → let leak : Leak = record { kind = kind; pointer = pointer; size = size; place = place } in
      Counts (add_stats leak stats) leaks out → Counts stats (leak ∷ leaks) out
add_stats-Counts heap pointer size place leaks stats out counts = record {
  heaps = omega (arith, counts.heaps);
  heap_size = omega (arith, counts.heap_size);
  arenas = counts.arenas;
  mmaps = counts.mmaps;
  mmap_size = counts.mmap_size;
}
add_stats-Counts arena pointer size place leaks stats out counts = record {
  heaps = counts.heaps;
  heap_size = counts.heap_size;
  arenas = omega (arith, counts.arenas);
  mmaps = counts.mmaps;
  mmap_size = counts.mmap_size;
}
add_stats-Counts mmap pointer size place leaks stats out counts = record {
  heaps = counts.heaps;
  heap_size = counts.heap_size;
  arenas = counts.arenas;
  mmaps = omega (arith, counts.mmaps);
  mmap_size = omega (arith, counts.mmap_size);
}

stats_from_lem :
    (stats : Stats) (leaks : List Leak)
    → AreWords stats
    → Counts stats leaks (stats_from stats leaks)
unfolding stats_from
stats_from_lem stats [] words = record {
  heaps = omega (arith, words.heaps);
  heap_size = omega (arith, words.heap_size);
  arenas = omega (arith, words.arenas);
  mmaps = omega (arith, words.mmaps);
  mmap_size = omega (arith, words.mmap_size);
}
stats_from_lem stats (leak ∷ leaks) words =
    add_stats-Counts leak.kind leak.pointer leak.size leak.place leaks stats
      (stats_from (add_stats leak stats) leaks)
      (stats_from_lem (add_stats leak stats) leaks
        (add_stats-AreWords leak.kind leak.pointer leak.size leak.place stats words))

kind_of :
    (leak : Leak) (leaks : List Leak)
    → number_of heap (leak ∷ leaks) + number_of arena (leak ∷ leaks) + number_of mmap (leak ∷ leaks)
      ≡ 1 + (number_of heap leaks + number_of arena leaks + number_of mmap leaks)
kind_of leak leaks = kind_step leak.kind
  where
    kind_step :
        (kind : Kind)
        → (if same_kind kind heap then 1 + number_of heap leaks else number_of heap leaks)
            + (if same_kind kind arena then 1 + number_of arena leaks else number_of arena leaks)
            + (if same_kind kind mmap then 1 + number_of mmap leaks else number_of mmap leaks)
          ≡ 1 + (number_of heap leaks + number_of arena leaks + number_of mmap leaks)
    kind_step heap = omega arith
    kind_step arena = omega arith
    kind_step mmap = omega arith

numbers_lem :
    (leaks : List Leak)
    → number_of heap leaks + number_of arena leaks + number_of mmap leaks ≡ length leaks
numbers_lem [] = refl
numbers_lem (leak ∷ leaks) = omega (arith, kind_of leak leaks, numbers_lem leaks)

no_stats-AreWords : AreWords no_stats
no_stats-AreWords = record {
  heaps = omega arith;
  heap_size = omega arith;
  arenas = omega arith;
  mmaps = omega arith;
  mmap_size = omega arith;
}

-- The number of records that leakcheck reports is their number, where it fits `size_t`.
pub leakcheck_count_lem :
    (leaks : List Leak) → length leaks ≤ size_max → leakcheck_count leaks ≡ length leaks
leakcheck_count_lem leaks small =
    let counts = stats_from_lem no_stats leaks no_stats-AreWords in
    omega (arith, counts.heaps, counts.arenas, counts.mmaps, numbers_lem leaks)

pub heap_count_lem :
    (leaks : List Leak)
    → length leaks ≤ size_max
    → (leakcheck_stats leaks).heap_count ≡ number_of heap leaks
heap_count_lem leaks small =
    let counts = stats_from_lem no_stats leaks no_stats-AreWords in
    omega (arith, counts.heaps, numbers_lem leaks)

-- No record of heap memory is there where no pointer has a size.
pub number_of-none :
    (leaks : List Leak) → ((pointer : ℕ) → size_at leaks pointer ≡ none) → number_of heap leaks ≡ 0
number_of-none [] unused = refl
number_of-none (leak ∷ leaks) unused = elim (Bool-cases (same_kind leak.kind heap)) [
  | inl same ↦ let clash = simp (is_leak_self leak same) at (unused leak.pointer) in cc
  | inr different ↦ rw different (
      number_of-none leaks
        (λ pointer. simp (is_leak_not_heap pointer leak different) at (unused pointer)))
]

pub none_of_number :
    (leaks : List Leak) → number_of heap leaks ≡ 0 → (pointer : ℕ) → size_at leaks pointer ≡ none
none_of_number [] e pointer = refl
none_of_number (leak ∷ leaks) e pointer = elim (Bool-cases (same_kind leak.kind heap)) [
  | inl same ↦ let clash : 1 + number_of heap leaks ≡ 0 = simp same at e in ground arith
  | inr different ↦
      rw (is_leak_not_heap pointer leak different)
        (none_of_number leaks (simp different at e) pointer)
]

-- ===== src/Leaks/OtherKinds.antt =====
-- src/memory.c: records of arenas and files do not touch those of heap memory.
use liblor.Common.{ℕ, ◌≡◌, refl, true, false, some, List, [], ◌∷◌, arith}
use liblor.Leaks.{Kind, heap, arena, mmap, Leak, same_kind, is_leak, find_leak, remove_leak}
use liblor.Leaks.Sizes.{size_at, AreApart, Found, here, later, find_leak-Found}

kinds_apart :
    (kind other : Kind)
    → same_kind kind heap ≡ false
    → same_kind other kind ≡ true
    → same_kind other heap ≡ false
kinds_apart kind arena different same = refl
kinds_apart kind mmap different same = refl
kinds_apart heap heap different same = cc
kinds_apart arena heap different same = cc
kinds_apart mmap heap different same = cc

-- A record of one kind is not of another.
is_leak_kind :
    (pointer other : ℕ) (kind : Kind) (leak : Leak)
    → same_kind kind heap ≡ false
    → is_leak pointer kind leak ≡ true
    → is_leak other heap leak ≡ false
unfolding is_leak
is_leak_kind pointer other kind leak different this =
    let same : same_kind leak.kind kind ≡ true = ground arith in
    let apart = kinds_apart kind leak.kind different same in ground arith

other_from :
    (pointer : ℕ) (kind : Kind) {i : ℕ} (leak : Leak) (leaks : List Leak)
    → same_kind kind heap ≡ false
    → Found pointer kind leak leaks (some i)
    → (other : ℕ)
    → ((j : ℕ)
        → find_leak pointer kind leaks ≡ some j
        → size_at (remove_leak j leaks) other ≡ size_at leaks other)
    → size_at (remove_leak i (leak ∷ leaks)) other ≡ size_at (leak ∷ leaks) other
other_from pointer kind leak leaks different (here this) other ih =
    rw (is_leak_kind pointer other kind leak different this) refl
other_from pointer kind leak leaks different (later not_this found) other ih = rw (ih _ found) refl

-- Removing a record that is not of heap memory leaves the sizes of heap memory as they were.
pub size_at-remove_other :
    (pointer : ℕ) (kind : Kind) (i : ℕ) (leaks : List Leak)
    → same_kind kind heap ≡ false
    → find_leak pointer kind leaks ≡ some i
    → (other : ℕ) → size_at (remove_leak i leaks) other ≡ size_at leaks other
size_at-remove_other pointer kind i [] different found other = cc
size_at-remove_other pointer kind i (leak ∷ leaks) different found other =
    other_from pointer kind leak leaks different (find_leak-Found pointer kind leak leaks found)
      other (λ j at. size_at-remove_other pointer kind j leaks different at other)

other-AreApart :
    (pointer : ℕ) (kind : Kind) {i : ℕ} (leak : Leak) (leaks : List Leak)
    → same_kind kind heap ≡ false
    → AreApart (leak ∷ leaks)
    → Found pointer kind leak leaks (some i)
    → ((j : ℕ) → find_leak pointer kind leaks ≡ some j → AreApart (remove_leak j leaks))
    → AreApart (remove_leak i (leak ∷ leaks))
other-AreApart pointer kind leak leaks different (apart, rest) (here this) ih = rest
other-AreApart pointer kind leak leaks different (apart, rest) (later not_this found) ih = (
  (λ q that. rw (size_at-remove_other pointer kind _ leaks different found q) (apart q that)),
  ih _ found,
)

pub remove_other-AreApart :
    (pointer : ℕ) (kind : Kind) (i : ℕ) (leaks : List Leak)
    → same_kind kind heap ≡ false
    → AreApart leaks
    → find_leak pointer kind leaks ≡ some i
    → AreApart (remove_leak i leaks)
remove_other-AreApart pointer kind i [] different apart found = cc
remove_other-AreApart pointer kind i (leak ∷ leaks) different apart found =
    other-AreApart pointer kind leak leaks different apart
      (find_leak-Found pointer kind leak leaks found)
      (λ j at. remove_other-AreApart pointer kind j leaks different apart.1 at)

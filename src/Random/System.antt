-- ===== src/Random/System.antt =====
-- `lor_random_system_bytes` on Unix: filling a buffer by `read`, and `lor_random_seed_system`.
use mathlib.Core.Option
use liblor.Common.{
  ltb, ◌==◌, if◌then◌else◌, Bool-cases, length, take, drop, length-append, ℕ, ◌+◌, ◌-◌, ◌*◌, ◌≤◌,
  ◌<◌, ◌≡◌, ◌≢◌, inl, inr, Bool, true, false, not, ◌&&◌, Option, none, some, List, [], ◌∷◌, ◌++◌,
  arith,
}
use liblor.Status.{
  Status, ok, invalid_argument, out_of_memory, overflow, system_error, timed_out, closed,
}
use liblor.Random.{Random, random_seed}

-- What one call of `read` on the entropy device does: it gives bytes, is interrupted, or fails (also
-- by giving none).
pub data Read : Type 0 where
  got : List ℕ → Read
  interrupted : Read
  failed : Read

-- `read` gives no more than it is asked for, and gives something.
abbrev pub Obeys : ℕ → Read → Type 0
Obeys chunk (got bytes) = (0 < length bytes) × (length bytes ≤ chunk)
Obeys chunk interrupted = Unit {0}
Obeys chunk failed = Unit {0}

-- The operating system: whether the device opens, what each `read` of a chunk does, in order, and
-- whether it closes.
pub record Device : Type 0 where
  pub opens : Bool
  pub reads : List (ℕ → Read)
  pub closes : Bool

-- `1024u * 1024u`
abbrev pub chunk_limit : ℕ
chunk_limit = 1024 * 1024

abbrev pub prepend : List ℕ → Status × List ℕ → Status × List ℕ
prepend bytes (s, more) = (s, bytes ++ more)

-- What follows a `read`: `rest` goes on with what is still to fill.
abbrev pub take_read : (ℕ → Option (Status × List ℕ)) → ℕ → Read → Option (Status × List ℕ)
take_read rest remaining (got bytes) = Option.map (prepend bytes) (rest (remaining - length bytes))
take_read rest remaining interrupted = rest remaining
take_read rest remaining failed = some (system_error, [])

-- The loop of `lor_random_system_bytes`: the bytes that it stored, in order; `none` if it still waits
-- for a `read` when those given have been made.
unfoldable pub fill : List (ℕ → Read) → ℕ → Option (Status × List ℕ)
fill [] remaining = if remaining == 0 then some (ok, []) else none
fill (call ∷ reads) remaining =
    let chunk = if ltb remaining chunk_limit then remaining else chunk_limit in
    let rest = take_read (fill reads) remaining (call chunk) in
    if remaining == 0 then some (ok, []) else rest

-- The status when the device is closed: a device that does not close is an error, but not one more
-- after a failed `read`.
abbrev pub close : Bool → Status × List ℕ → Status × List ℕ
close closes (ok, bytes) = if closes then (ok, bytes) else (system_error, bytes)
close closes (s, bytes) = (s, bytes)

-- `null` is whether the buffer is NULL.
unfoldable pub system_bytes : Device → Bool → ℕ → Option (Status × List ℕ)
unfolding fill
system_bytes device null size =
    if null && not (size == 0)
    then some (invalid_argument, [])
    else if size == 0
    then some (ok, [])
    else if not device.opens
    then some (system_error, [])
    else Option.map (close device.closes) (fill device.reads size)

-- `uint64_t seeds[2]`: the number that 8 bytes hold, lowest first.
abbrev pub word : List ℕ → ℕ
word [] = 0
word (b ∷ bytes) = b + 256 * word bytes

abbrev pub seed_state : Random → Status × List ℕ → Status × Option Random
seed_state r (ok, bytes) = (ok, random_seed (some r) (word (take 8 bytes)) (word (drop 8 bytes)))
seed_state r (s, bytes) = (s, some r)

-- `lor_random_seed_system`
unfoldable pub random_seed_system : Device → Option Random → Option (Status × Option Random)
unfolding system_bytes
random_seed_system device none = some (invalid_argument, none)
random_seed_system device (some r) = Option.map (seed_state r) (system_bytes device false 16)

-- Every `read` gives no more than it was asked for.
abbrev pub AllObey : List (ℕ → Read) → Type 0
AllObey [] = Unit {0}
AllObey (call ∷ reads) = ((chunk : ℕ) → Obeys chunk (call chunk)) × AllObey reads

module _ (rest : ℕ → Option (Status × List ℕ)) where
  got_more :
      (remaining : ℕ) (first bytes : List ℕ) (out : Option (Status × List ℕ))
      → ((more : List ℕ) → out ≡ some (ok, more) → length more ≡ remaining - length first)
      → length first ≤ remaining
      → Option.map (prepend first) out ≡ some (ok, bytes)
      → length bytes ≡ remaining
  got_more remaining first bytes none ih h e = cc
  got_more remaining first bytes (some (s, more)) ih h e =
      let good : s ≡ ok = cc in
      let all : bytes ≡ first ++ more = cc in
      rw all (omega (arith, length-append first more, ih more (rw good)))

  take_read-length :
      (chunk remaining : ℕ) (answer : Read) (bytes : List ℕ)
      → ((n : ℕ) (more : List ℕ) → rest n ≡ some (ok, more) → length more ≡ n)
      → Obeys chunk answer
      → chunk ≤ remaining
      → take_read rest remaining answer ≡ some (ok, bytes)
      → length bytes ≡ remaining
  take_read-length chunk remaining (got first) bytes ih o h e =
      got_more remaining first bytes (rest (remaining - length first))
        (ih (remaining - length first)) (omega arith) e
  take_read-length chunk remaining interrupted bytes ih o h e = ih remaining bytes e
  take_read-length chunk remaining failed bytes ih o h e = cc

-- A filled buffer holds exactly the bytes that were asked for.
fill-length :
    (reads : List (ℕ → Read)) (remaining : ℕ) (bytes : List ℕ)
    → AllObey reads
    → fill reads remaining ≡ some (ok, bytes)
    → length bytes ≡ remaining
unfolding fill
fill-length [] remaining bytes o e = ground arith
fill-length (call ∷ reads) remaining bytes o e = elim (Bool-cases (remaining == 0)) [
  | inl done ↦ ground arith
  | inr more ↦
      let chunk = if ltb remaining chunk_limit then remaining else chunk_limit in
      take_read-length (fill reads) chunk remaining (call chunk) bytes
        (λ n l. fill-length reads n l o.1) (o.0 chunk) (ground arith) (rw more at e)
]

closed_fill :
    (closes : Bool) (bytes : List ℕ) (out : Option (Status × List ℕ))
    → Option.map (close closes) out ≡ some (ok, bytes)
    → out ≡ some (ok, bytes)
closed_fill closes bytes none e = cc
closed_fill true bytes (some (ok, b)) e = e
closed_fill false bytes (some (ok, b)) e = cc
closed_fill closes bytes (some (invalid_argument, b)) e = cc
closed_fill closes bytes (some (out_of_memory, b)) e = cc
closed_fill closes bytes (some (overflow, b)) e = cc
closed_fill closes bytes (some (system_error, b)) e = cc
closed_fill closes bytes (some (timed_out, b)) e = cc
closed_fill closes bytes (some (closed, b)) e = cc

-- If every read gives at least one byte and no more than it was asked for, a call that says ok has
-- stored exactly `size` bytes: none is missing, through short reads and interruptions.
pub system_bytes-length :
    (device : Device) (null : Bool) (size : ℕ) (bytes : List ℕ)
    → AllObey device.reads
    → system_bytes device null size ≡ some (ok, bytes)
    → length bytes ≡ size
unfolding system_bytes
system_bytes-length device null size bytes o e = elim (Bool-cases (null && not (size == 0))) [
  | inl bad ↦ cc (rw bad at e)
  | inr valid ↦ elim (Bool-cases (size == 0)) [
    | inl empty ↦ ground arith
    | inr more ↦ elim (Bool-cases (device.opens)) [
      | inr shut ↦ cc (rw (valid, more, shut) at e)
      | inl opened ↦
          fill-length device.reads size bytes o (
            closed_fill device.closes bytes (fill device.reads size)
              (rw (valid, more, opened) at e))
    ]
  ]
]

-- A seeding from the system that ends with another status than ok leaves the state as it was.
pub random_seed_system-kept :
    (device : Device) (r : Random) (s : Status) (random : Option Random)
    → random_seed_system device (some r) ≡ some (s, random)
    → s ≢ ok
    → random ≡ some r
unfolding random_seed_system
random_seed_system-kept device r s random e bad = go (system_bytes device false 16) e
  where
    go :
        (out : Option (Status × List ℕ))
        → Option.map (seed_state r) out ≡ some (s, random)
        → random ≡ some r
    go none e' = cc
    go (some (ok, bytes)) e' = absurd (bad cc)
    go (some (invalid_argument, bytes)) e' = cc
    go (some (out_of_memory, bytes)) e' = cc
    go (some (overflow, bytes)) e' = cc
    go (some (system_error, bytes)) e' = cc
    go (some (timed_out, bytes)) e' = cc
    go (some (closed, bytes)) e' = cc

-- ===== src/Channel.antt =====
-- src/concurrency.c: the channel. Each function runs under the channel's mutex but where it waits for a
-- condition; between two waits it makes one turn.
pub mod Contents
pub mod Turns
pub mod Receiving
pub mod Steps
pub mod Draining
mod Tests
use mathlib.Core.Option
use liblor.Common.{
  ltb, ◌==◌, if◌then◌else◌, get_elem?, set, replicate, size_max, ℕ, ◌+◌, ◌-◌, ◌*◌, ◌/◌, ◌%◌, Bool,
  true, false, not, ◌&&◌, ◌||◌, Option, none, some, List, [], ◌∷◌,
}
use liblor.Status.{Status, ok, invalid_argument, out_of_memory, overflow, closed}

-- `LorConcurrencyChannelImpl` without its mutex and conditions. A cell of the buffer is none while
-- nothing was written to it.
pub record Channel {ℓ} (A : Type ℓ) : Type ℓ where
  pub element_size : ℕ
  pub capacity : ℕ
  pub buffer : List (Option A)
  pub first : ℕ
  pub count : ℕ
  pub waiting_receivers : ℕ
  pub slot_full : Bool
  pub is_closed : Bool

-- How the calls that make a channel answer.
pub record Resources : Type 0 where
  pub impl_given : Bool
  pub buffer_given : ℕ → Bool
  pub mutex_made : Status
  pub can_send_made : Status
  pub can_receive_made : Status

-- How the calls on the mutex and the conditions answer.
pub record Sync : Type 0 where
  pub lock : Status
  pub unlock : Status
  pub broadcast_send : Status
  pub broadcast_receive : Status

-- A turn waits for a condition, or the function returns.
pub data Turn {ℓ} (R : Type ℓ) : Type ℓ where
  blocked : Turn R
  returns : R → Turn R

-- The later of two calls runs where the first succeeded.
abbrev pub also : Status → Status → Status
also ok next = next
also status next = status

-- What other threads make of the channel while a thread waits, and how the wait ends.
abbrev pub Waits {ℓ} : Type ℓ → Type ℓ
Waits A = List (Status × (Channel A → Channel A))

module _ {ℓ} {A : Type ℓ} where
  abbrev pub slot_at : List (Option A) → ℕ → Option A
  slot_at slots i = elim (get_elem? slots i) [ none ↦ none | some cell ↦ cell ]

  abbrev pub new_channel : ℕ → ℕ → Channel A
  new_channel element_size capacity = record {
    element_size = element_size;
    capacity = capacity;
    buffer = replicate (if capacity == 0 then 1 else capacity) none;
    first = 0;
    count = 0;
    waiting_receivers = 0;
    slot_full = false;
    is_closed = false;
  }

  abbrev pub made_channel : Status → Channel A → Status × Option (Channel A)
  made_channel ok channel = (ok, some channel)
  made_channel status channel = (status, none)

  -- A NULL reference is none, and a channel that is not initialized holds none.
  unfoldable pub init_channel :
      Resources → Option (Option (Channel A)) → ℕ → ℕ → Status × Option (Option (Channel A))
  init_channel resources none element_size capacity = (invalid_argument, none)
  init_channel resources (some (some channel)) element_size capacity =
      (invalid_argument, some (some channel))
  init_channel resources (some none) element_size capacity =
      let storage_count = if capacity == 0 then 1 else capacity in
      let (status, made) =
        made_channel
          (also resources.mutex_made (also resources.can_send_made resources.can_receive_made))
          (new_channel element_size capacity) in
      if element_size == 0
      then (invalid_argument, some none)
      else if ltb 0 capacity && ltb (size_max / capacity) element_size
      then (overflow, some none)
      else if not resources.impl_given
      then (out_of_memory, some none)
      else if not (resources.buffer_given (storage_count * element_size))
      then (out_of_memory, some none)
      else (status, some made)

  abbrev pub closing : Sync → Channel A → Status × Channel A
  closing sync channel = (
    also sync.broadcast_send (also sync.broadcast_receive sync.unlock),
    record channel { is_closed = true },
  )

  unfoldable pub close_channel : Sync → Option (Channel A) → Status × Option (Channel A)
  close_channel sync none = (invalid_argument, none)
  close_channel sync (some channel) = elim (sync.lock) [
    | ok ↦ let (status, left) = closing sync channel in (status, some left)
    | failed ↦ (failed, some channel)
  ]

  abbrev pub deinit_channel : Option (Channel A) → Option (Channel A)
  deinit_channel channel = none

  unfoldable pub channel_is_closed : Sync → Option (Channel A) → Bool
  channel_is_closed sync none = true
  channel_is_closed sync (some channel) = elim (sync.lock) [ ok ↦ channel.is_closed | _ ↦ true ]

  abbrev pub channel_element_size : Option (Channel A) → ℕ
  channel_element_size none = 0
  channel_element_size (some channel) = channel.element_size

  abbrev pub channel_capacity : Option (Channel A) → ℕ
  channel_capacity none = 0
  channel_capacity (some channel) = channel.capacity

  -- A turn of `send_until` on an unbuffered channel.
  abbrev pub hand_over : Status → A → Channel A → Turn (Status × Channel A)
  hand_over unlock value channel =
      if not channel.is_closed && (channel.waiting_receivers == 0 || channel.slot_full)
      then blocked
      else if channel.is_closed
      then returns (closed, channel)
      else returns
          (unlock, record channel { buffer = set channel.buffer 0 (some value); slot_full = true })

  -- A turn of `send_until` on a buffered channel. `first + count` is below twice the capacity, and a
  -- buffer that malloc gives has fewer than 2^63 bytes, so the sum does not wrap around.
  abbrev pub put_last : Status → A → Channel A → Turn (Status × Channel A)
  put_last unlock value channel =
      if not channel.is_closed && channel.count == channel.capacity
      then blocked
      else if channel.is_closed
      then returns (closed, channel)
      else returns (
        unlock,
        record channel {
          buffer =
              set channel.buffer ((channel.first + channel.count) % channel.capacity) (some value);
          count = channel.count + 1;
        },
      )

  unfoldable pub send_turn : Status → A → Channel A → Turn (Status × Channel A)
  send_turn unlock value channel =
      if channel.capacity == 0
      then hand_over unlock value channel
      else put_last unlock value channel

  -- A receiver of an unbuffered channel says that it is there, before its first turn.
  abbrev pub receive_enter : Channel A → Channel A
  receive_enter channel =
      if channel.capacity == 0
      then record channel { waiting_receivers = channel.waiting_receivers + 1 }
      else channel

  -- A receiver whose wait fails leaves.
  abbrev pub receive_give_up : Channel A → Channel A
  receive_give_up channel =
      if channel.capacity == 0
      then record channel { waiting_receivers = channel.waiting_receivers - 1 }
      else channel

  -- A turn of `receive_until` on an unbuffered channel, with the value it reads.
  abbrev pub take_over : Status → Channel A → Turn (Status × Option A × Channel A)
  take_over unlock channel =
      let left = record channel { waiting_receivers = channel.waiting_receivers - 1 } in
      if not channel.slot_full && not channel.is_closed
      then blocked
      else if not channel.slot_full
      then returns (closed, none, left)
      else returns (unlock, slot_at channel.buffer 0, record left { slot_full = false })

  -- A turn of `receive_until` on a buffered channel.
  abbrev pub take_first : Status → Channel A → Turn (Status × Option A × Channel A)
  take_first unlock channel =
      if channel.count == 0 && not channel.is_closed
      then blocked
      else if channel.count == 0
      then returns (closed, none, channel)
      else returns (
        unlock,
        slot_at channel.buffer channel.first,
        record channel {
          first = (channel.first + 1) % channel.capacity;
          count = channel.count - 1;
        },
      )

  unfoldable pub receive_turn : Status → Channel A → Turn (Status × Option A × Channel A)
  receive_turn unlock channel =
      if channel.capacity == 0 then take_over unlock channel else take_first unlock channel

  -- The loop of `send_until` over the waits that it comes to; none where it still waits.
  unfoldable pub send_from : Status → A → Waits A → Channel A → Option (Status × Channel A)
  unfolding send_turn
  send_from unlock value [] channel = elim (send_turn unlock value channel) [
    | blocked ↦ none
    | returns out ↦ some out
  ]
  send_from unlock value ((status, meanwhile) ∷ waits) channel =
      let rest = send_from unlock value waits (meanwhile channel) in
      elim (send_turn unlock value channel) [
        | returns out ↦ some out
        | blocked ↦ elim status [ ok ↦ rest | failed ↦ some (failed, meanwhile channel) ]
      ]

  -- `value` is none for NULL.
  unfoldable pub send_until :
      Sync → Waits A → Option A → ℕ → Option (Channel A) → Option (Status × Option (Channel A))
  unfolding send_from
  send_until sync waits value value_size none = some (invalid_argument, none)
  send_until sync waits none value_size (some channel) = some (invalid_argument, some channel)
  send_until sync waits (some value) value_size (some channel) =
      if not (value_size == channel.element_size)
      then some (invalid_argument, some channel)
      else elim (sync.lock) [
        | ok ↦ Option.map (λ out. (out.0, some out.1)) (send_from sync.unlock value waits channel)
        | failed ↦ some (failed, some channel)
      ]

  -- The loop of `receive_until`.
  unfoldable pub receive_from :
      Status → Waits A → Channel A → Option (Status × Option A × Channel A)
  unfolding receive_turn
  receive_from unlock [] channel = elim (receive_turn unlock channel) [
    | blocked ↦ none
    | returns out ↦ some out
  ]
  receive_from unlock ((status, meanwhile) ∷ waits) channel =
      let rest = receive_from unlock waits (meanwhile channel) in
      elim (receive_turn unlock channel) [
        | returns out ↦ some out
        | blocked ↦ elim status [
          | ok ↦ rest
          | failed ↦ some (failed, none, receive_give_up (meanwhile channel))
        ]
      ]

  -- `wanted` is false where the pointer for the value is NULL.
  unfoldable pub receive_until :
      Sync
      → Waits A
      → Bool
      → ℕ
      → Option (Channel A)
      → Option (Status × Option A × Option (Channel A))
  unfolding receive_from
  receive_until sync waits wanted value_size none = some (invalid_argument, none, none)
  receive_until sync waits false value_size (some channel) =
      some (invalid_argument, none, some channel)
  receive_until sync waits true value_size (some channel) =
      if not (value_size == channel.element_size)
      then some (invalid_argument, none, some channel)
      else elim (sync.lock) [
        | ok ↦
            Option.map (λ out. (out.0, out.1, some out.2))
              (receive_from sync.unlock waits (receive_enter channel))
        | failed ↦ some (failed, none, some channel)
      ]

-- ===== src/Channel/Tests.antt =====
-- Runs and instances of the theorems on channels of numbers.
use liblor.Common.{ℕ, ◌≡◌, refl, true, false, none, some, [], ◌∷◌, arith}
use liblor.Status.{ok, timed_out}
use liblor.Channel.{Channel, Sync, returns, new_channel, send_turn, send_until, receive_until}
use liblor.Channel.Steps.{
  World, sends, Reached, at_start, then_step, new_world, IsQueue, Reached-IsQueue,
}
use liblor.Channel.Draining.{Drains, receive_turn-Drains}

abbrev all_well : Sync
all_well = record { lock = ok; unlock = ok; broadcast_send = ok; broadcast_receive = ok }

-- A channel with one place, which holds 7.
abbrev full_channel : Channel ℕ
full_channel = record {
  element_size = 8;
  capacity = 1;
  buffer = some 7 ∷ [];
  first = 0;
  count = 1;
  waiting_receivers = 0;
  slot_full = false;
  is_closed = false;
}

first_send : send_turn ok 7 (new_channel 8 1) ≡ returns (ok, full_channel)
unfolding send_turn
first_send = refl

-- A send to a full channel waits, and takes the place that a receiver frees meanwhile.
abbrev emptied : Channel ℕ → Channel ℕ
emptied channel = record channel { count = 0 }

send_after_wait :
    send_until all_well ((ok, emptied) ∷ []) (some 9) 8 (some full_channel)
    ≡ some (ok, some (record full_channel { buffer = some 9 ∷ [] }))
unfolding send_until
send_after_wait = refl

-- A receive from an empty unbuffered channel whose wait ends by its deadline leaves it as it was.
receive_timed_out :
    receive_until {A = ℕ} all_well
      ((timed_out, (λ channel. channel)) ∷ [])
      true
      8
      (some (new_channel 8 0))
    ≡ some (timed_out, none, some (new_channel 8 0))
unfolding receive_until
receive_timed_out = refl

abbrev after_send : World ℕ
after_send = record { channel = full_channel; sent = 7 ∷ []; received = [] }

one_send : Reached (new_world 8 1) after_send
one_send = then_step at_start (sends (new_world 8 1) 7 full_channel first_send)

Reached-IsQueue_example : IsQueue after_send
Reached-IsQueue_example = Reached-IsQueue 8 1 one_send

abbrev shut_channel : Channel ℕ
shut_channel = record full_channel { is_closed = true }

receive_turn-Drains_example : (last : Channel ℕ) × Drains last shut_channel (7 ∷ [])
receive_turn-Drains_example =
    receive_turn-Drains shut_channel (7 ∷ [])
      (record { room = refl; bounded = omega arith; first_inside = λ _. omega arith }) refl refl

-- ===== src/Channel/Turns.antt =====
-- src/concurrency.c: what one turn of a send or a receive does to the values of a channel.
use native.Mathlib.Nat.{mod-lt}
use liblor.Common.{
  ◌==◌, if◌then◌else◌, Bool-cases, length, set, length-set, suc, ◌+◌, ◌%◌, ◌≤◌, ◌<◌, ◌≡◌, ap, ap₂,
  subst, ◌∙◌, inl, inr, true, false, ◌||◌, Option, some, List, [], ◌∷◌, ◌++◌, arith,
}
use liblor.Status.{ok}
use liblor.Channel.{Channel, returns, slot_at, send_turn}
use liblor.Channel.Contents.{cells_from, slot_at-set_same, cells_from-set, cells_from-append}

module _ {ℓ} {A : Type ℓ} where
  -- The values of a channel, the first to be received first.
  abbrev pub contents : Channel A → List (Option A)
  contents channel =
      if channel.capacity == 0
      then (if channel.slot_full then slot_at channel.buffer 0 ∷ [] else [])
      else cells_from channel.buffer channel.capacity channel.first channel.count

  pub record ChannelIsValid (channel : Channel A) : Type 0 where
    pub room : length channel.buffer ≡ (if channel.capacity == 0 then 1 else channel.capacity)
    pub bounded : channel.count ≤ channel.capacity
    pub first_inside : (channel.capacity == 0) ≡ false → channel.first < channel.capacity

  -- A turn that sends adds the value at the end.
  pub record Adds (value : A) (channel left : Channel A) : Type ℓ where
    pub valid : ChannelIsValid left
    pub added : contents left ≡ contents channel ++ (some value ∷ [])

  -- A turn that receives takes the first value.
  pub record Takes (value : Option A) (channel left : Channel A) : Type ℓ where
    pub valid : ChannelIsValid left
    pub taken : contents channel ≡ value ∷ contents left

  put_last_lem :
      (value : A) (channel : Channel A)
      → ChannelIsValid channel
      → (channel.capacity == 0) ≡ false
      → (channel.count == channel.capacity) ≡ false
      → Adds value channel (record channel {
        buffer =
            set channel.buffer ((channel.first + channel.count) % channel.capacity) (some value);
        count = channel.count + 1;
      })
  put_last_lem value channel v buffered room =
      let at = (channel.first + channel.count) % channel.capacity in
      let slots = set channel.buffer at (some value) in
      let len = length-set channel.buffer at (some value) in
      let pos : 0 < channel.capacity = ground arith in
      let inside : at < channel.capacity = mod-lt (channel.first + channel.count) pos in
      let wide : length channel.buffer ≡ channel.capacity = ground (arith, v.room) in
      record {
        valid = record {
          room = len ∙ v.room;
          bounded = ground (arith, v.bounded);
          first_inside = v.first_inside;
        };
        added = rw buffered (
            ap (cells_from slots channel.capacity channel.first) {x = channel.count + 1}
              {y = suc channel.count} (omega arith)
            ∙ cells_from-append slots channel.capacity channel.first channel.count
            ∙ ap₂ (λ (l : List (Option A)) c. l ++ (c ∷ []))
                (cells_from-set channel.buffer channel.capacity channel.first
                  (channel.first + channel.count) channel.count (some value) (omega arith)
                  (ground (arith, v.bounded)))
                (slot_at-set_same channel.buffer at (some value) (omega arith)));
      }

  hand_over_lem :
      (value : A) (channel : Channel A)
      → ChannelIsValid channel
      → (channel.capacity == 0) ≡ true
      → channel.slot_full ≡ false
      → Adds value channel
          (record channel { buffer = set channel.buffer 0 (some value); slot_full = true })
  hand_over_lem value channel v unbuffered free =
      let wide : length channel.buffer ≡ 1 = ground (arith, v.room) in
      record {
        valid = record {
          room = length-set channel.buffer 0 (some value) ∙ v.room;
          bounded = v.bounded;
          first_inside = v.first_inside;
        };
        added =
            rw (unbuffered, free)
              (ap (λ (c : Option A). c ∷ [])
                (slot_at-set_same channel.buffer 0 (some value) (omega arith)));
      }

  -- A send that succeeds adds its value behind those that the channel holds.
  pub send_turn_lem :
      (value : A) (channel left : Channel A)
      → ChannelIsValid channel
      → send_turn ok value channel ≡ returns (ok, left)
      → Adds value channel left
  unfolding send_turn
  send_turn_lem value channel left v e = elim (Bool-cases (channel.is_closed)) [
    | inl shut ↦ elim (Bool-cases (channel.capacity == 0)) [
      | inl unbuffered ↦ absurd (let d = simp (send_turn, unbuffered, shut) at e in cc)
      | inr buffered ↦ absurd (let d = simp (send_turn, buffered, shut) at e in cc)
    ]
    | inr open_yet ↦ elim (Bool-cases (channel.capacity == 0)) [
      | inl unbuffered ↦ elim (Bool-cases (channel.waiting_receivers == 0 || channel.slot_full)) [
        | inl busy ↦ absurd (let d = simp (send_turn, unbuffered, open_yet, busy) at e in cc)
        | inr ready ↦
            let free : channel.slot_full ≡ false = ground arith in
            let d = simp (send_turn, unbuffered, open_yet, ready) at e in
            let it : record channel { buffer = set channel.buffer 0 (some value); slot_full = true }
                ≡ left =
              cc in
            subst (Adds value channel) it (hand_over_lem value channel v unbuffered free)
      ]
      | inr buffered ↦ elim (Bool-cases (channel.count == channel.capacity)) [
        | inl full ↦ absurd (let d = simp (send_turn, buffered, open_yet, full) at e in cc)
        | inr room ↦
            let d = simp (send_turn, buffered, open_yet, room) at e in
            let it : record channel {
              buffer =
                  set channel.buffer ((channel.first + channel.count) % channel.capacity)
                    (some value);
              count = channel.count + 1;
            }
                ≡ left =
              cc in
            subst (Adds value channel) it (put_last_lem value channel v buffered room)
      ]
    ]
  ]

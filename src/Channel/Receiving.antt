-- ===== src/Channel/Receiving.antt =====
-- src/concurrency.c: what one turn of a receive takes from a channel.
use native.Mathlib.Nat.{mod-lt, mod-eq_of_lt, mod-mod}
use liblor.Common.{
  ◌==◌, Bool-cases, suc, ◌+◌, ◌-◌, ◌%◌, ◌<◌, ◌≡◌, refl, sym, ap, ap₂, subst, subst₂, ◌∙◌, inl, inr,
  true, false, Option, List, [], ◌∷◌, arith,
}
use liblor.Status.{ok, closed}
use liblor.Channel.{Channel, returns, slot_at, receive_turn}
use liblor.Channel.Contents.{cells_from, cells_from-mod}
use liblor.Channel.Turns.{contents, ChannelIsValid, Takes}

module _ {ℓ} {A : Type ℓ} where
  take_first_lem :
      (channel : Channel A)
      → ChannelIsValid channel
      → (channel.capacity == 0) ≡ false
      → (channel.count == 0) ≡ false
      → Takes (slot_at channel.buffer channel.first) channel (record channel {
        first = (channel.first + 1) % channel.capacity;
        count = channel.count - 1;
      })
  take_first_lem channel v buffered some_left =
      let pos : 0 < channel.capacity = ground arith in
      let next = (channel.first + 1) % channel.capacity in
      let head : channel.first % channel.capacity ≡ channel.first =
        mod-eq_of_lt (v.first_inside buffered) in
      record {
        valid = record {
          room = v.room;
          bounded = omega (arith, v.bounded);
          first_inside = λ _. mod-lt (channel.first + 1) pos;
        };
        taken = rw buffered (
            ap (cells_from channel.buffer channel.capacity channel.first) {x = channel.count}
              {y = suc (channel.count - 1)} (ground arith)
            ∙ ap₂ (λ c (l : List (Option A)). c ∷ l) (ap (slot_at channel.buffer) head)
                (cells_from-mod channel.buffer channel.capacity (channel.first + 1) next
                  (channel.count - 1) (sym (mod-mod (channel.first + 1) channel.capacity))));
      }

  take_over_lem :
      (channel : Channel A)
      → ChannelIsValid channel
      → (channel.capacity == 0) ≡ true
      → channel.slot_full ≡ true
      → Takes
          (slot_at channel.buffer 0)
          channel
          (record channel { waiting_receivers = channel.waiting_receivers - 1; slot_full = false })
  take_over_lem channel v unbuffered full = record {
    valid = record { room = v.room; bounded = v.bounded; first_inside = v.first_inside };
    taken = simp (unbuffered, full) refl;
  }

  -- A receive that succeeds takes the value that was sent first.
  pub receive_turn_lem :
      (value : Option A) (channel left : Channel A)
      → ChannelIsValid channel
      → receive_turn ok channel ≡ returns (ok, value, left)
      → Takes value channel left
  unfolding receive_turn
  receive_turn_lem value channel left v e = elim (Bool-cases (channel.capacity == 0)) [
    | inl unbuffered ↦ elim (Bool-cases (channel.slot_full)) [
      | inl full ↦
          let d = simp (receive_turn, unbuffered, full) at e in
          let value_is : slot_at channel.buffer 0 ≡ value = cc in
          let it : record channel {
            waiting_receivers = channel.waiting_receivers - 1;
            slot_full = false;
          }
              ≡ left =
            cc in
          subst₂ (λ x c. Takes x channel c) value_is it (take_over_lem channel v unbuffered full)
      | inr free ↦ elim (Bool-cases (channel.is_closed)) [
        | inl shut ↦ absurd (let d = simp (receive_turn, unbuffered, free, shut) at e in cc)
        | inr open_yet ↦ absurd (let d = simp (receive_turn, unbuffered, free, open_yet) at e in cc)
      ]
    ]
    | inr buffered ↦ elim (Bool-cases (channel.count == 0)) [
      | inr some_left ↦
          let d = simp (receive_turn, buffered, some_left) at e in
          let value_is : slot_at channel.buffer channel.first ≡ value = cc in
          let it : record channel {
            first = (channel.first + 1) % channel.capacity;
            count = channel.count - 1;
          }
              ≡ left =
            cc in
          subst₂ (λ x c. Takes x channel c) value_is it
            (take_first_lem channel v buffered some_left)
      | inl drained ↦ elim (Bool-cases (channel.is_closed)) [
        | inl shut ↦ absurd (let d = simp (receive_turn, buffered, drained, shut) at e in cc)
        | inr open_yet ↦
            absurd (let d = simp (receive_turn, buffered, drained, open_yet) at e in cc)
      ]
    ]
  ]

  -- A receive that finds the channel closed takes nothing, as there is nothing.
  pub record Drained (channel left : Channel A) : Type ℓ where
    pub valid : ChannelIsValid left
    pub same : contents left ≡ contents channel
    pub empty_yet : contents channel ≡ []
    pub shut_yet : channel.is_closed ≡ true

  pub receive_turn-closed :
      (value : Option A) (channel left : Channel A)
      → ChannelIsValid channel
      → receive_turn ok channel ≡ returns (closed, value, left)
      → Drained channel left
  unfolding receive_turn
  receive_turn-closed value channel left v e = elim (Bool-cases (channel.capacity == 0)) [
    | inl unbuffered ↦ elim (Bool-cases (channel.slot_full)) [
      | inl full ↦ absurd (let d = simp (receive_turn, unbuffered, full) at e in cc)
      | inr free ↦ elim (Bool-cases (channel.is_closed)) [
        | inr open_yet ↦ absurd (let d = simp (receive_turn, unbuffered, free, open_yet) at e in cc)
        | inl shut ↦
            let d = simp (receive_turn, unbuffered, free, shut) at e in
            let gone = channel.waiting_receivers - 1 in
            let rewritten : record channel {
              waiting_receivers = gone;
              slot_full = false;
              is_closed = true;
            }
                ≡ left =
              cc in
            let it : record channel { waiting_receivers = gone } ≡ left =
              ap₂ (λ f c. record channel { waiting_receivers = gone; slot_full = f; is_closed = c })
                free shut
              ∙ rewritten in
            subst (Drained channel) it (record {
              valid = record { room = v.room; bounded = v.bounded; first_inside = v.first_inside };
              same = refl;
              empty_yet = simp (unbuffered, free) refl;
              shut_yet = shut;
            })
      ]
    ]
    | inr buffered ↦ elim (Bool-cases (channel.count == 0)) [
      | inr some_left ↦ absurd (let d = simp (receive_turn, buffered, some_left) at e in cc)
      | inl drained ↦ elim (Bool-cases (channel.is_closed)) [
        | inr open_yet ↦
            absurd (let d = simp (receive_turn, buffered, drained, open_yet) at e in cc)
        | inl shut ↦
            let d = simp (receive_turn, buffered, drained, shut) at e in
            let it : channel ≡ left = cc in
            subst (Drained channel) it (record {
              valid = v;
              same = refl;
              empty_yet = simp buffered (
                  ap (cells_from channel.buffer channel.capacity channel.first) {x = channel.count}
                    {y = 0} (ground arith));
              shut_yet = shut;
            })
      ]
    ]
  ]

-- ===== src/Channel/Draining.antt =====
-- src/concurrency.c: a channel that is closed gives what it holds, and then says that it is closed.
use liblor.Common.{
  ◌==◌, Bool-cases, ◌+◌, ◌-◌, ◌%◌, ◌≡◌, refl, sym, ap, ◌∙◌, ◌⊎◌, inl, inr, true, false, Option,
  none, some, List, [], ◌∷◌,
}
use liblor.Status.{ok, closed}
use liblor.Channel.{Channel, returns, slot_at, receive_turn}
use liblor.Channel.Turns.{contents, ChannelIsValid}
use liblor.Channel.Receiving.{receive_turn_lem, receive_turn-closed}
use liblor.Channel.Steps.{somes}

module _ {ℓ} {A : Type ℓ} where
  -- Receives in turn that give these values, and one that says that the channel is closed.
  pub data Drains (last : Channel A) : Channel A → List A → Type ℓ where
    at_end :
        (channel : Channel A)
        → receive_turn ok channel ≡ returns (closed, none, last)
        → Drains last channel []
    one_value :
        (channel next : Channel A) (v : A) (values : List A)
        → receive_turn ok channel ≡ returns (ok, some v, next)
        → Drains last next values
        → Drains last channel (v ∷ values)

  -- A receive from a closed channel does not wait.
  receive_turn-shut :
      (channel : Channel A)
      → channel.is_closed ≡ true
      → (left : Channel A) × (left.is_closed ≡ true)
        × (((value : Option A) × (receive_turn ok channel ≡ returns (ok, value, left)))
            ⊎ (receive_turn ok channel ≡ returns (closed, none, left)))
  unfolding receive_turn
  receive_turn-shut channel shut = elim (Bool-cases (channel.capacity == 0)) [
    | inl unbuffered ↦
        let gone = channel.waiting_receivers - 1 in
        elim (Bool-cases (channel.slot_full)) [
          | inl full ↦ (
            record channel { waiting_receivers = gone; slot_full = false },
            shut,
            inl (slot_at channel.buffer 0, rw (receive_turn, unbuffered, full) refl),
          )
          | inr free ↦ (
            record channel { waiting_receivers = gone },
            shut,
            inr (rw (receive_turn, unbuffered, free, shut) refl),
          )
        ]
    | inr buffered ↦ elim (Bool-cases (channel.count == 0)) [
      | inl none_left ↦ (channel, shut, inr (rw (receive_turn, buffered, none_left, shut) refl))
      | inr some_left ↦ (
        record channel {
          first = (channel.first + 1) % channel.capacity;
          count = channel.count - 1;
        },
        shut,
        inl (slot_at channel.buffer channel.first, rw (receive_turn, buffered, some_left) refl),
      )
    ]
  ]

  -- Receiving from a valid channel that is closed never waits: the receives give the values that the
  -- channel holds, in their order, and the next one returns LOR_STATUS_CLOSED.
  pub receive_turn-Drains :
      (channel : Channel A) (queue : List A)
      → ChannelIsValid channel
      → channel.is_closed ≡ true
      → contents channel ≡ somes queue
      → (last : Channel A) × Drains last channel queue
  receive_turn-Drains channel [] v shut e =
      let (left, shut', out) = receive_turn-shut channel shut in
      elim out [
        | inl (value, is) ↦
            absurd
              (let t = receive_turn_lem value channel left v is in let d = sym t.taken ∙ e in cc)
        | inr is ↦ (left, at_end channel is)
      ]
  receive_turn-Drains channel (x ∷ queue) v shut e =
      let (left, shut', out) = receive_turn-shut channel shut in
      elim out [
        | inr is ↦ absurd (
            let t = receive_turn-closed none channel left v is in let d = sym t.empty_yet ∙ e in cc)
        | inl (value, is) ↦
            let t = receive_turn_lem value channel left v is in
            let d = sym t.taken ∙ e in
            let value_is : value ≡ some x = cc in
            let rest : contents left ≡ somes queue = cc in
            let (last, drains) = receive_turn-Drains left queue t.valid shut' rest in
            (
              last,
              one_value channel left x queue (is ∙ ap (λ y. returns (ok, y, left)) value_is) drains,
            )
      ]

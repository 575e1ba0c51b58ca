-- ===== src/Channel/Steps.antt =====
-- src/concurrency.c: the turns of all threads on one channel, and the queue that they implement.
use liblor.Common.{
  ◌==◌, if◌then◌else◌, Bool-cases, length-replicate, ℕ, ◌<◌, ◌≡◌, refl, sym, ap, subst, ◌∙◌, inl,
  inr, true, ◌||◌, Option, none, some, List, [], ◌∷◌, ◌++◌, append_assoc, arith,
}
use liblor.Status.{ok, closed}
use liblor.Channel.{
  Channel, Sync, returns, new_channel, closing, send_turn, receive_enter, receive_give_up,
  receive_turn,
}
use liblor.Channel.Turns.{contents, ChannelIsValid, Takes, send_turn_lem}
use liblor.Channel.Receiving.{receive_turn_lem, receive_turn-closed}

-- A channel, with the values whose sends and whose receives succeeded so far, in order.
pub record World {ℓ} (A : Type ℓ) : Type ℓ where
  pub channel : Channel A
  pub sent : List A
  pub received : List A

module _ {ℓ} {A : Type ℓ} where
  abbrev pub with_channel : World A → Channel A → World A
  with_channel w channel = record w { channel = channel }

  -- A thread is inside a receive on an unbuffered channel.
  abbrev pub IsAwaited : Channel A → Type 0
  IsAwaited channel = (channel.capacity == 0) ≡ true → 0 < channel.waiting_receivers

  -- One turn of a thread, or a thread that begins or gives up waiting.
  pub data Step : World A → World A → Type ℓ where
    sends :
        (w : World A) (v : A) (left : Channel A)
        → send_turn ok v w.channel ≡ returns (ok, left)
        → Step w (record { channel = left; sent = w.sent ++ (v ∷ []); received = w.received })
    refused :
        (w : World A) (v : A) (left : Channel A)
        → send_turn ok v w.channel ≡ returns (closed, left)
        → Step w (with_channel w left)
    enters : (w : World A) → Step w (with_channel w (receive_enter w.channel))
    receives :
        (w : World A) (v : A) (left : Channel A)
        → IsAwaited w.channel
        → receive_turn ok w.channel ≡ returns (ok, some v, left)
        → Step w (record { channel = left; sent = w.sent; received = w.received ++ (v ∷ []) })
    drained :
        (w : World A) (left : Channel A)
        → IsAwaited w.channel
        → receive_turn ok w.channel ≡ returns (closed, none, left)
        → Step w (with_channel w left)
    gives_up :
        (w : World A) → IsAwaited w.channel → Step w (with_channel w (receive_give_up w.channel))
    closes : (w : World A) (sync : Sync) → Step w (with_channel w (closing sync w.channel).1)

  pub data Reached (start : World A) : World A → Type ℓ where
    at_start : Reached start start
    then_step : {w u : World A} → Reached start w → Step w u → Reached start u

  abbrev pub new_world : ℕ → ℕ → World A
  new_world element_size capacity = record {
    channel = new_channel element_size capacity;
    sent = [];
    received = [];
  }

  abbrev pub somes : List A → List (Option A)
  somes [] = []
  somes (x ∷ xs) = some x ∷ somes xs

  somes-append : (xs : List A) (v : A) → somes (xs ++ (v ∷ [])) ≡ somes xs ++ (some v ∷ [])
  somes-append [] v = refl
  somes-append (x ∷ xs) v = ap (λ (l : List (Option A)). some x ∷ l) (somes-append xs v)

  -- The channel is a queue: what was sent and not yet received, in the order in which it was sent.
  pub record IsQueue (w : World A) : Type ℓ where
    pub valid : ChannelIsValid w.channel
    pub queue : List A
    pub contents_are : contents w.channel ≡ somes queue
    pub order : w.sent ≡ w.received ++ queue

  -- A change of the channel that leaves its values.
  IsQueue-with_channel :
      (w : World A) (left : Channel A)
      → IsQueue w
      → ChannelIsValid left
      → contents left ≡ contents w.channel
      → IsQueue (with_channel w left)
  IsQueue-with_channel w left q v same = record {
    valid = v;
    queue = q.queue;
    contents_are = same ∙ q.contents_are;
    order = q.order;
  }

  enters_lem :
      (channel : Channel A)
      → ChannelIsValid channel
      → ChannelIsValid (receive_enter channel)
        × (contents (receive_enter channel) ≡ contents channel)
  enters_lem channel v = elim (Bool-cases (channel.capacity == 0)) [
    | inl unbuffered ↦
        simp unbuffered
          (record { room = v.room; bounded = v.bounded; first_inside = v.first_inside }, refl)
    | inr buffered ↦ simp buffered (v, refl)
  ]

  gives_up_lem :
      (channel : Channel A)
      → ChannelIsValid channel
      → ChannelIsValid (receive_give_up channel)
        × (contents (receive_give_up channel) ≡ contents channel)
  gives_up_lem channel v = elim (Bool-cases (channel.capacity == 0)) [
    | inl unbuffered ↦
        simp unbuffered
          (record { room = v.room; bounded = v.bounded; first_inside = v.first_inside }, refl)
    | inr buffered ↦ simp buffered (v, refl)
  ]

  refused_lem :
      (v : A) (channel left : Channel A)
      → send_turn ok v channel ≡ returns (closed, left)
      → channel ≡ left
  unfolding send_turn
  refused_lem v channel left e = elim (Bool-cases (channel.is_closed)) [
    | inl shut ↦
        let shut_is : channel ≡ record channel { is_closed = true } =
          ap (λ c. record channel { is_closed = c }) shut in
        elim (Bool-cases (channel.capacity == 0)) [
          | inl unbuffered ↦
              let d = simp (send_turn, unbuffered, shut) at e in
              let it : record channel { is_closed = true } ≡ left = cc in shut_is ∙ it
          | inr buffered ↦
              let d = simp (send_turn, buffered, shut) at e in
              let it : record channel { is_closed = true } ≡ left = cc in shut_is ∙ it
        ]
    | inr open_yet ↦ elim (Bool-cases (channel.capacity == 0)) [
      | inl unbuffered ↦ elim (Bool-cases (channel.waiting_receivers == 0 || channel.slot_full)) [
        | inl busy ↦ absurd (let d = simp (send_turn, unbuffered, open_yet, busy) at e in cc)
        | inr ready ↦ absurd (let d = simp (send_turn, unbuffered, open_yet, ready) at e in cc)
      ]
      | inr buffered ↦ elim (Bool-cases (channel.count == channel.capacity)) [
        | inl full ↦ absurd (let d = simp (send_turn, buffered, open_yet, full) at e in cc)
        | inr room ↦ absurd (let d = simp (send_turn, buffered, open_yet, room) at e in cc)
      ]
    ]
  ]

  -- What is received is the head of the queue.
  received_lem :
      (w : World A) (v : A) (left : Channel A)
      → (q : IsQueue w) → Takes (some v) w.channel left
      → IsQueue (record { channel = left; sent = w.sent; received = w.received ++ (v ∷ []) })
  received_lem w v left q t = from_queue (q.queue) (sym t.taken ∙ q.contents_are) q.order
    where
      from_queue :
          (queue : List A)
          → some v ∷ contents left ≡ somes queue
          → w.sent ≡ w.received ++ queue
          → IsQueue (record { channel = left; sent = w.sent; received = w.received ++ (v ∷ []) })
      from_queue [] e order = absurd (cc)
      from_queue (x ∷ queue) e order =
          let same : some v ≡ some x = cc in
          let head_is : v ≡ x = cc in
          let rest : contents left ≡ somes queue = cc in
          record {
            valid = t.valid;
            queue = queue;
            contents_are = rest;
            order =
                order
                ∙ ap (λ (y : A). w.received ++ (y ∷ queue)) (sym head_is)
                ∙ sym (append_assoc w.received (v ∷ []) queue);
          }

  Step-IsQueue : {w u : World A} → Step w u → IsQueue w → IsQueue u
  Step-IsQueue (sends w v left e) q =
      let a = send_turn_lem v w.channel left q.valid e in
      record {
        valid = a.valid;
        queue = q.queue ++ (v ∷ []);
        contents_are =
            a.added
            ∙ ap (λ (l : List (Option A)). l ++ (some v ∷ [])) q.contents_are
            ∙ sym (somes-append q.queue v);
        order =
            ap (λ (l : List A). l ++ (v ∷ [])) q.order ∙ append_assoc w.received q.queue (v ∷ []);
      }
  Step-IsQueue (refused w v left e) q =
      let same = refused_lem v w.channel left e in
      IsQueue-with_channel w left q (subst ChannelIsValid same q.valid) (ap contents (sym same))
  Step-IsQueue (enters w) q =
      let (v, same) = enters_lem w.channel q.valid in
      IsQueue-with_channel w (receive_enter w.channel) q v same
  Step-IsQueue (receives w v left awaited e) q =
      received_lem w v left q (receive_turn_lem (some v) w.channel left q.valid e)
  Step-IsQueue (drained w left awaited e) q =
      let d = receive_turn-closed none w.channel left q.valid e in
      IsQueue-with_channel w left q d.valid d.same
  Step-IsQueue (gives_up w awaited) q =
      let (v, same) = gives_up_lem w.channel q.valid in
      IsQueue-with_channel w (receive_give_up w.channel) q v same
  Step-IsQueue (closes w sync) q =
      IsQueue-with_channel w (closing sync w.channel).1 q
        (record {
          room = q.valid.room;
          bounded = q.valid.bounded;
          first_inside = q.valid.first_inside;
        })
        refl

  new_world-IsQueue : (element_size capacity : ℕ) → IsQueue (new_world element_size capacity)
  new_world-IsQueue element_size capacity = record {
    valid = record {
      room = length-replicate (if capacity == 0 then 1 else capacity) none;
      bounded = omega arith;
      first_inside = λ e. ground arith;
    };
    queue = [];
    contents_are = elim (Bool-cases (capacity == 0)) [
      | inl unbuffered ↦ rw unbuffered refl
      | inr buffered ↦ rw buffered refl
    ];
    order = refl;
  }

  -- However the turns of its senders and receivers, their waits that fail and its closing are
  -- interleaved, a channel is a queue, buffered or not: the values whose sends succeeded are those
  -- that were received, in the order in which they were sent, followed by those that it holds, and
  -- it holds no more than its buffer has room for.
  pub Reached-IsQueue :
      (element_size capacity : ℕ) {w : World A}
      → Reached (new_world element_size capacity) w
      → IsQueue w
  Reached-IsQueue element_size capacity at_start = new_world-IsQueue element_size capacity
  Reached-IsQueue element_size capacity (then_step r step) =
      Step-IsQueue step (Reached-IsQueue element_size capacity r)

-- ===== src/Port.antt =====
-- lib/Framework/InputPort.cpp and include/Pothos/Framework/InputPortImpl.hpp: the queues of messages
-- and of slot calls. The spin locks make each operation one step, and are not in the state.
-- `M` stands for Pothos::Object, and `null` for the object that `Object()` makes.
pub mod Bounded
pub mod Messages
pub mod Slots
mod Tests
use pothos_core.Base.{
  ℕ, ◌+◌, Bool, true, false, not, Option, none, some, ◌>>=◌, if◌then◌else◌, leb, List, ◌∷◌,
  add_size, mul_size,
}
use pothos_core.RingDeque
use pothos_core.RingDeque.{RingDeque}
use pothos_core.Buffer.{BufferChunk}

-- `MaxQueueCapacity`
abbrev pub max_queue_capacity : ℕ
max_queue_capacity = 1024

-- what goes to the error log
pub data Report : Type 0 where
  message_overflow slot_overflow : Report

-- The members of InputPort that its messages and slot calls use; `change_flagged` is the actor's
-- mark that flagExternalChange makes, and `reports` has the last report first.
pub record InputPort {ℓ} (M : Type ℓ) : Type ℓ where
  pub async_messages : RingDeque (M × BufferChunk)
  pub slot_calls : RingDeque (M × BufferChunk)
  pub total_messages : ℕ
  pub work_events : ℕ
  pub change_flagged : Bool
  pub reports : List Report

module _ {ℓ} {M : Type ℓ} where
  -- What a push does to a queue that is full: it doubles it, or clears one that has reached the
  -- bound. The flag tells whether it was cleared.
  unfoldable pub make_room :
      RingDeque (M × BufferChunk) → Option (RingDeque (M × BufferChunk) × Bool)
  make_room q =
      if RingDeque.full q
      then (if leb max_queue_capacity (RingDeque.size q)
          then (RingDeque.clear q >>= λ q'. some (q', true))
          else (RingDeque.set_capacity q (mul_size q.capacity 2) >>= λ q'. some (q', false)))
      else some (q, false)

  unfoldable pub push_bounded :
      RingDeque (M × BufferChunk) → M → BufferChunk → Option (RingDeque (M × BufferChunk) × Bool)
  push_bounded q message token = make_room q >>= λ (q', cleared).
      RingDeque.push_back q' (message, token) >>= λ q''. some (q'', cleared)

  -- `asyncMessagesPush`, and `pushMessage` with the null token
  unfoldable pub async_messages_push : InputPort M → M → BufferChunk → Option (InputPort M)
  async_messages_push p message token =
      push_bounded p.async_messages message token >>= λ (q, cleared). some (record p {
        async_messages = q;
        change_flagged = true;
        reports = if cleared then message_overflow ∷ p.reports else p.reports;
      })

  unfoldable pub slot_calls_push : InputPort M → M → BufferChunk → Option (InputPort M)
  slot_calls_push p args token = push_bounded p.slot_calls args token >>= λ (q, cleared).
      some (record p {
        slot_calls = q;
        change_flagged = true;
        reports = if cleared then slot_overflow ∷ p.reports else p.reports;
      })

  abbrev pub slot_calls_empty : InputPort M → Bool
  slot_calls_empty p = RingDeque.empty p.slot_calls

  -- the assertion that the queue is not empty is the one in `front`
  unfoldable pub slot_calls_pop : InputPort M → Option (M × InputPort M)
  slot_calls_pop p = RingDeque.front p.slot_calls >>= λ (args, token).
      RingDeque.pop_front p.slot_calls >>= λ q. some (args, record p { slot_calls = q })

  unfoldable pub slot_calls_clear : InputPort M → Option (InputPort M)
  slot_calls_clear p = RingDeque.clear p.slot_calls >>= λ q. some (record p { slot_calls = q })

  unfoldable pub async_messages_clear : InputPort M → Option (InputPort M)
  async_messages_clear p =
      RingDeque.clear p.async_messages >>= λ q. some (record p { async_messages = q })

  abbrev pub has_message : InputPort M → Bool
  has_message p = not (RingDeque.empty p.async_messages)

  -- `asyncMessagesPop`
  unfoldable pub async_messages_pop : M → InputPort M → Option (M × InputPort M)
  async_messages_pop null p =
      if RingDeque.empty p.async_messages
      then some (null, p)
      else (RingDeque.front p.async_messages >>= λ (message, token).
          RingDeque.pop_front p.async_messages >>= λ q.
          some (message, record p { async_messages = q }))

  -- `asyncMessagesPeek`, which peekMessage returns
  unfoldable pub async_messages_peek : M → InputPort M → Option M
  async_messages_peek null p =
      if RingDeque.empty p.async_messages
      then some null
      else (RingDeque.front p.async_messages >>= λ (message, token). some message)

  -- `popMessage` counts a message even when the queue is empty.
  unfoldable pub pop_message : M → InputPort M → Option (M × InputPort M)
  pop_message null p = async_messages_pop null p >>= λ (message, p'). some (
    message,
    record p' {
      total_messages = add_size p'.total_messages 1;
      work_events = add_size p'.work_events 1;
    },
  )

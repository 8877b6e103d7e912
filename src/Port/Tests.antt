-- ===== src/Port/Tests.antt =====
-- A new port, and one with two slot calls.
use pothos_core.Base.{ℕ, ◌≡◌, refl, true, false, List, [], ◌∷◌, some, none, arith}
use pothos_core.RingDeque.{RingDeque}
use pothos_core.Buffer.{BufferChunk, null_chunk}
use pothos_core.Port.{InputPort}
use pothos_core.Port.Bounded.{Bounded}
use pothos_core.Port.Messages.{
  Call, send, take, peek, ask, purge, nothing, message, answer, Mailbox, run, step, port_run,
  Serves, port_run-eq-run,
}

abbrev new_queue : RingDeque (ℕ × BufferChunk)
new_queue = record {
  mask = 0;
  capacity = 1;
  front_index = 0;
  num_elements = 0;
  container = none ∷ [];
}

abbrev item : ℕ → ℕ × BufferChunk
item n = (n, null_chunk)

abbrev two_calls : RingDeque (ℕ × BufferChunk)
two_calls = record {
  mask = 1;
  capacity = 2;
  front_index = 1;
  num_elements = 2;
  container = some (item 5) ∷ some (item 4) ∷ [];
}

abbrev port : InputPort ℕ
port = record {
  async_messages = new_queue;
  slot_calls = two_calls;
  total_messages = 0;
  work_events = 0;
  change_flagged = false;
  reports = [];
}

new_queue-Bounded : Bounded new_queue []
new_queue-Bounded = record {
  ring = record {
    bits = 0;
    bits_small = omega arith;
    mask_eq = refl;
    storage = refl;
    capacity_fits = omega arith;
    mask_small = omega arith;
    count = refl;
    count_fits = omega arith;
    front_word = omega arith;
    cells = tt;
  };
  doublings = 0;
  few = omega arith;
  capacity_eq = refl;
}

two_calls-Bounded : Bounded two_calls (item 4 ∷ item 5 ∷ [])
two_calls-Bounded = record {
  ring = record {
    bits = 1;
    bits_small = omega arith;
    mask_eq = refl;
    storage = refl;
    capacity_fits = omega arith;
    mask_small = omega arith;
    count = refl;
    count_fits = omega arith;
    front_word = omega arith;
    cells = (refl, (refl, tt));
  };
  doublings = 1;
  few = omega arith;
  capacity_eq = refl;
}

abbrev mailbox : Mailbox ℕ
mailbox = record { items = []; losses = 0; takes = 0 }

abbrev calls : List (Call ℕ)
calls =
    take
    ∷ send 8 null_chunk
    ∷ send 9 null_chunk
    ∷ ask
    ∷ peek
    ∷ take
    ∷ take
    ∷ send 3 null_chunk
    ∷ purge
    ∷ ask
    ∷ []

run-calls :
    (run 99 mailbox calls).0
    ≡ message 99
      ∷ nothing
      ∷ nothing
      ∷ answer true
      ∷ message 8
      ∷ message 8
      ∷ message 9
      ∷ nothing
      ∷ nothing
      ∷ answer false
      ∷ []
unfolding run step
run-calls = refl

messages_example :
    (p : InputPort ℕ) × (port_run 99 port calls ≡ some ((run 99 mailbox calls).0, p))
    × Serves 99 p (run 99 mailbox calls).1
messages_example =
    port_run-eq-run 99 calls port mailbox
      (record { queue = new_queue-Bounded; counted = refl; taken = refl })

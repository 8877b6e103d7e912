-- ===== src/Input/Tests.antt =====
-- Runs of an input port, and examples that meet the hypotheses of its theorems.
use mathlib.Core.List.{map}
use pothos_core.Base.{
  ℕ, ◌+◌, ◌*◌, ◌<◌, ◌≤◌, ◌≡◌, refl, true, false, inl, none, some, ◌%◌, [], ◌∷◌, ◌++◌, get_elem?,
  word, arith,
}
use pothos_core.Buffer.Copy.{Heap, PositiveLengths, copy_chunk, count_next, count_next-fuel}
use pothos_core.Buffer.{BufferChunk}
use pothos_core.Label.{Label, adjust}
use pothos_core.Accumulator.{BufferAccumulator, Memory, empty_pool, front}
use pothos_core.Accumulator
use pothos_core.Accumulator.Links.{push-copy_chunk}
use pothos_core.Accumulator.Stream.{stream, AllFit}
use pothos_core.Accumulator.Push.{IsValid}
use pothos_core.Accumulator.Pop.{Traced}
use pothos_core.Input.{
  InputPort, buffer_label_push, buffer_accumulator_pop, shift, unshift, post_work_input,
  remove_label, erase_label, count_labels, adjust_labels,
}
use pothos_core.Input.Labels.{
  InOrder, AllFrom, select, below, from, post_work_input_lem, adjust-shift-adjust,
}
use pothos_core.Input.Bytes.{buffer_label_push_lem, buffer_accumulator_pop_lem}
use pothos_core.Input.Samples.{
  memory, heap, buffer_at, chunk, label, port, port-IsValid, port-CanPushAll, heap-PositiveLengths,
}

-- Labels out of order: the one that is not consumed goes, and the consumed one stays.
abbrev out_of_order : InputPort ℕ
out_of_order = record port { inline_messages = label 1 5 ∷ label 2 1 ∷ [] }

post_work_input-out_of_order :
    ((post_work_input out_of_order).0 ≡ label 1 3 ∷ [])
    × ((post_work_input out_of_order).1.inline_messages ≡ label 2 1 ∷ [])
unfolding post_work_input count_labels adjust_labels buffer_accumulator_pop
post_work_input-out_of_order = (refl, refl)

remove_second :
    (remove_label (λ a b. true) port (label 2 1)).inline_messages ≡ label 1 0 ∷ label 3 3 ∷ []
unfolding remove_label erase_label
remove_second = refl

port-InOrder : InOrder port.inline_messages
unfolding InOrder AllFrom
port-InOrder = ((omega arith, (omega arith, tt)), ((omega arith, tt), (tt, tt)))

post_work_input_lem_example :
    ((post_work_input port).0 ≡ select (below 2) port.inline_messages)
    × ((post_work_input port).1.inline_messages
        ≡ map (unshift 2) (select (from 2) port.inline_messages))
post_work_input_lem_example = post_work_input_lem port port-InOrder

adjust-shift-adjust_example : adjust 1 4 (shift (5 * 4) (adjust 4 1 (label 1 3))) ≡ label 1 8
adjust-shift-adjust_example =
    adjust-shift-adjust (label 1 3) 5 4 (omega arith) (omega arith) (omega arith)

-- A buffer of three elements with a label, behind twelve bytes
buffer_label_push_lem_example :
    (p' : InputPort ℕ) × (buffer_label_push heap false (label 9 2 ∷ []) (chunk 3 300 6 ∷ []) port
      ≡ some (p', label 9 2 ∷ [], chunk 3 300 6 ∷ []))
    × IsValid p'.bytes
    × (p'.input_inline_messages ≡ (label 4 10 ∷ []) ++ map (shift 12) (label 9 2 ∷ []))
    × (stream memory p'.bytes.queue
        ≡ stream memory port.bytes.queue ++ stream memory (chunk 3 300 6 ∷ []))
    × ((l : Label ℕ)
        → l.index + 12 < word
        → get_elem? (stream memory p'.bytes.queue) (shift 12 l).index
          ≡ get_elem? (stream memory (chunk 3 300 6 ∷ [])) l.index)
buffer_label_push_lem_example =
    buffer_label_push_lem memory heap false (label 9 2 ∷ []) (chunk 3 300 6 ∷ []) port port-IsValid
      (λ i. omega arith) (λ e. heap-PositiveLengths) (port-CanPushAll false)

-- A front from the pool, which shows the four bytes that are before the next chunk in its buffer: each byte
-- shows its address up to hundreds.
abbrev folded : Memory
folded a = a % 100

abbrev behind : BufferChunk
behind = record (chunk 3 300 8) { address = 304 }

abbrev pooled : InputPort ℕ
pooled = record port {
  bytes = record {
    queue = chunk 9 10000 4 ∷ behind ∷ [];
    bytes_available = 12;
    in_pool_buffer = true;
    pool = empty_pool;
  };
}

pooled-IsValid : IsValid pooled.bytes
unfolding AllFit
pooled-IsValid = record {
  nonempty = λ e. cc;
  all_fit = (omega arith, (omega arith, tt));
  counted = refl;
  small = omega arith;
}

pooled-Traced : Traced folded true pooled.bytes.queue
unfolding Traced
pooled-Traced = (omega arith, λ k kf kb j lt. omega arith)

-- Three bytes are popped, and the next chunk goes back over the one that is left.
buffer_accumulator_pop_lem_example :
    IsValid (buffer_accumulator_pop pooled 3).bytes
    × ((buffer_accumulator_pop pooled 3).input_inline_messages ≡ label 4 7 ∷ [])
    × ((buffer_accumulator_pop pooled 3).bytes.bytes_available + 3 ≡ 12)
    × ((l : Label ℕ)
        → 3 ≤ l.index
        → l.index < word
        → get_elem?
            (stream folded (buffer_accumulator_pop pooled 3).bytes.queue)
            (unshift 3 l).index
          ≡ get_elem? (stream folded pooled.bytes.queue) l.index)
buffer_accumulator_pop_lem_example =
    buffer_accumulator_pop_lem folded pooled 3 pooled-IsValid (omega arith) pooled-Traced

-- Buffers of a length, each linked to itself, and a chunk that reaches over the end of one
abbrev ring : ℕ → Heap
ring n i = record (buffer_at i 100) {
  buffer = record { address = 100; length = n; alias = 0; container = some i };
  next_buffer = some i;
}

abbrev over_end : BufferChunk
over_end = record (chunk 3 100 20) { managed = some (ring 4 3) }

ring-PositiveLengths : PositiveLengths (ring 4)
ring-PositiveLengths i = (omega arith, omega arith)

push-copy_chunk_example :
    (c' : BufferChunk) × (copy_chunk (ring 4) over_end ≡ some c')
    × ((s' : BufferAccumulator) × (Accumulator.push (ring 4) port.bytes c' ≡ some s'))
push-copy_chunk_example = push-copy_chunk (ring 4) port.bytes over_end ring-PositiveLengths

count_next-fuel_example :
    (n : ℕ) × (count_next 17 (ring 4) 16 (ring 4 3) ≡ some n)
    × (count_next 30 (ring 4) 16 (ring 4 3) ≡ some n)
count_next-fuel_example =
    count_next-fuel 17 30 (ring 4) 16 (ring 4 3) ring-PositiveLengths (inl (omega arith))
      (inl (omega arith))

-- Sixteen bytes reach into four further buffers of four; through a ring of empty buffers the loop does not end.
count_four : count_next 17 (ring 4) 16 (ring 4 3) ≡ some 4
unfolding count_next
count_four = refl

count_empty : count_next 17 (ring 0) 16 (ring 0 3) ≡ none
unfolding count_next
count_empty = refl

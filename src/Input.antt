-- ===== src/Input.antt =====
-- The buffers and labels of an input port: lib/Framework/InputPort.cpp and
-- include/Pothos/Framework/InputPortImpl.hpp. The labels that come with buffers have indices in
-- bytes, from the front of the accumulator on; those that a block sees are in elements.
-- The locks are left out: each function below holds `_bufferAccumulatorLock` where it reads and
-- writes the shared queues.
pub mod Labels
pub mod Bytes
pub mod Samples
mod Tests
use mathlib.Core.List.{map}
use pothos_core.Base.{
  ℕ, ◌+◌, ◌*◌, ◌/◌, ◌<◌, ◌==◌, if◌then◌else◌, ltb, take, drop, Bool, true, false, not, ◌||◌, Option,
  none, some, List, [], ◌∷◌, ◌++◌, ◌>>=◌, add_size, sub_size, mul_size,
}
use pothos_core.Buffer.{DType, BufferChunk, is_specified, dtype_size, null_chunk}
use pothos_core.Label.{Label, adjust, same_label}
use pothos_core.Accumulator
use pothos_core.Buffer.Copy.{Heap, copy_chunk}
use pothos_core.Accumulator.{BufferAccumulator, Memory, front}

pub record InputPort (A : Type 0) : Type 0 where
  pub dtype : DType
  pub buffer : BufferChunk
  pub bytes : BufferAccumulator
  pub inline_messages : List (Label A)
  pub input_inline_messages : List (Label A)
  pub pending_elements : ℕ
  pub reserve_elements : ℕ
  pub total_elements : ℕ
  pub total_buffers : ℕ
  pub total_labels : ℕ
  pub work_events : ℕ

-- "unspecified buffer dtype? copy it from the port"
abbrev pub typed : DType → BufferChunk → BufferChunk
typed dtype b = if is_specified b.dtype then b else record b { dtype = dtype }

unfoldable pub copy_chunks : Heap → List BufferChunk → Option (List BufferChunk)
copy_chunks heap [] = some []
copy_chunks heap (b ∷ bs) = copy_chunk heap b >>= λ c. copy_chunks heap bs >>= λ cs. some (c ∷ cs)

-- The buffers that `bufferLabelPush` pushes: the posted ones for the last subscriber, and copies of
-- them for those before it
abbrev pub sent : Heap → Bool → List BufferChunk → Option (List BufferChunk)
sent heap enable_move buffers = if enable_move then some buffers else copy_chunks heap buffers

-- What `bufferLabelPush` leaves in the lists of its caller: a move empties them.
abbrev pub kept : {X : Type 0} → Bool → List X → List X
kept enable_move xs = if enable_move then [] else xs

module _ {A : Type 0} where
  abbrev pub counted : InputPort A → BufferAccumulator → Option (InputPort A)
  counted p s = some (record p { bytes = s; total_buffers = add_size p.total_buffers 1 })

  -- `bufferAccumulatorPushNoLock`; a buffer of another element size is dropped
  unfoldable pub buffer_accumulator_push_no_lock :
      Heap → InputPort A → BufferChunk → Option (InputPort A)
  buffer_accumulator_push_no_lock heap p b =
      if not (is_specified b.dtype)
        || not (is_specified p.dtype)
        || (dtype_size p.dtype == dtype_size b.dtype)
      then (Accumulator.push heap p.bytes (typed p.dtype b) >>= counted p)
      else some p

  -- The loops over the posted buffers in `bufferLabelPush`
  unfoldable pub push_buffers : Heap → InputPort A → List BufferChunk → Option (InputPort A)
  push_buffers heap p [] = some p
  push_buffers heap p (b ∷ bs) =
      buffer_accumulator_push_no_lock heap p b >>= λ p'. push_buffers heap p' bs

  -- `label.index += currentBytes`
  abbrev pub shift : ℕ → Label A → Label A
  shift n l = record l { index = add_size l.index n }

  -- `_inputInlineMessages[i].index -= numBytes`
  abbrev pub unshift : ℕ → Label A → Label A
  unshift n l = record l { index = sub_size l.index n }

  -- `bufferLabelPush`: the port, and the posted labels and buffers of the caller
  unfoldable pub buffer_label_push :
      Heap
      → Bool
      → List (Label A)
      → List BufferChunk
      → InputPort A
      → Option (InputPort A × List (Label A) × List BufferChunk)
  buffer_label_push heap enable_move labels buffers p =
      let p' = record p {
        input_inline_messages =
            p.input_inline_messages ++ map (shift p.bytes.bytes_available) labels;
      } in
      sent heap enable_move buffers >>= λ cs. push_buffers heap p' cs >>= λ p''.
      some (p'', kept enable_move labels, kept enable_move buffers)

  -- `bufferAccumulatorPop`; to overconsume is refused
  unfoldable pub buffer_accumulator_pop : InputPort A → ℕ → InputPort A
  buffer_accumulator_pop p n = if ltb p.bytes.bytes_available n then p else record p {
    bytes = Accumulator.pop p.bytes n;
    input_inline_messages = map (unshift n) p.input_inline_messages;
    work_events = add_size p.work_events 1;
  }

  -- `bufferAccumulatorFront`; the size of the port's type is not 0
  unfoldable pub buffer_accumulator_front : InputPort A → InputPort A
  buffer_accumulator_front p = record p {
    inline_messages =
        p.inline_messages ++ map (adjust 1 (dtype_size p.dtype)) p.input_inline_messages;
    input_inline_messages = [];
    buffer = front p.bytes;
  }

  -- `bufferAccumulatorRequire`
  unfoldable pub buffer_accumulator_require :
      (BufferChunk → Bool) → (ℕ → BufferChunk) → Memory → InputPort A → ℕ → Memory × InputPort A
  buffer_accumulator_require unique allocate memory p n =
      let required = Accumulator.require unique allocate memory p.bytes n in
      (required.0, record p { bytes = required.1 })

  -- `inlineMessagesPush`, `inlineMessagesClear` and `bufferAccumulatorClear`
  unfoldable pub inline_messages_push : InputPort A → Label A → InputPort A
  inline_messages_push p l = record p { input_inline_messages = p.input_inline_messages ++ l ∷ [] }

  unfoldable pub inline_messages_clear : InputPort A → InputPort A
  inline_messages_clear p = record p { input_inline_messages = []; inline_messages = [] }

  unfoldable pub buffer_accumulator_clear : InputPort A → InputPort A
  buffer_accumulator_clear p = record p { bytes = Accumulator.make }

  -- `consume`
  unfoldable pub consume : InputPort A → ℕ → InputPort A
  consume p n = record p { pending_elements = add_size p.pending_elements n }

  -- `setReserve`
  unfoldable pub set_reserve : InputPort A → ℕ → InputPort A
  set_reserve p n = record p {
    work_events = if ltb p.reserve_elements n then add_size p.work_events 1 else p.work_events;
    reserve_elements = n;
  }

  -- The loop of `removeLabel`: the labels without the first that is the same, if there is one
  unfoldable pub erase_label : (A → A → Bool) → Label A → List (Label A) → Option (List (Label A))
  erase_label same label [] = none
  erase_label same label (l ∷ ls) =
      let rest = erase_label same label ls in
      if same_label same l label then some ls else rest >>= λ r. some (l ∷ r)

  -- `removeLabel`
  unfoldable pub remove_label : (A → A → Bool) → InputPort A → Label A → InputPort A
  remove_label same p label = elim (erase_label same label p.inline_messages) [
    | none ↦ p
    | some ls ↦ record p {
      inline_messages = ls;
      total_labels = add_size p.total_labels 1;
      work_events = add_size p.work_events 1;
    }
  ]

  -- The loop of `postWorkTasks` over the labels, in lib/Framework/WorkerActor.cpp: how many are
  -- below the consumed elements, and the others moved
  unfoldable pub count_labels : ℕ → List (Label A) → ℕ
  count_labels n [] = 0
  count_labels n (l ∷ ls) = let rest = count_labels n ls in if ltb l.index n then rest + 1 else rest

  unfoldable pub adjust_labels : ℕ → List (Label A) → List (Label A)
  adjust_labels n [] = []
  adjust_labels n (l ∷ ls) = (if ltb l.index n then l else unshift n l) ∷ adjust_labels n ls

  -- What `postWorkTasks` does with an input: the labels that are propagated, and the port.
  unfoldable pub post_work_input : InputPort A → List (Label A) × InputPort A
  post_work_input p =
      let bytes = mul_size p.pending_elements (dtype_size p.dtype) in
      let num_labels = count_labels p.pending_elements p.inline_messages in
      let all_labels = adjust_labels p.pending_elements p.inline_messages in
      let p' = record p {
        inline_messages = drop num_labels all_labels;
        total_labels = add_size p.total_labels num_labels;
      } in
      let p'' = if bytes == 0 then p' else buffer_accumulator_pop p' bytes in
      (
        take num_labels all_labels,
        record p'' {
          buffer = null_chunk;
          total_elements = add_size p''.total_elements p''.pending_elements;
        },
      )

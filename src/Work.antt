-- ===== src/Work.antt =====
-- `preWorkTasks` of lib/Framework/WorkerActor.cpp: the buffers that a call of `work` finds at the ports,
-- and how many elements there are. Reference counts, and the calls of slots, which run the block's own
-- code, are parameters. The index of a port without one is `none`. The element sizes of types are not 0.
pub mod Outputs
pub mod Ready
mod Tests
use pothos_core.Base.{
  ℕ, ◌+◌, ◌/◌, ◌≤◌, ◌^◌, ◌==◌, if◌then◌else◌, leb, ltb, min, max, Bool, true, false, not, ◌&&◌,
  ◌||◌, Option, none, some, List, [], ◌∷◌, get_elem?, set, length, mul_size,
}
use pothos_core.Buffer.{BufferChunk, dtype_size, null_chunk, chunk_end, shared_end, buffer_of}
use pothos_core.Accumulator.{Memory}
use pothos_core.Input.{InputPort, buffer_accumulator_front, buffer_accumulator_require}
use pothos_core.Output.{OutputPort, BufferManager, buffer_manager_front, buffer_manager_empty}

-- `1 << 30`
abbrev pub big : ℕ
big = 2 ^ 30

pub record WorkInfo : Type 0 where
  pub min_in_elements : ℕ
  pub min_out_elements : ℕ
  pub min_all_in_elements : ℕ
  pub min_all_out_elements : ℕ
  pub min_elements : ℕ
  pub min_all_elements : ℕ
  pub max_timeout_ns : ℕ

-- An input port as the worker sees it
pub record WorkInput (A : Type 0) : Type 0 where
  pub index : Option ℕ
  pub is_slot : Bool
  pub has_message : Bool
  pub elements : ℕ
  pub label_iter : ℕ
  pub port : InputPort A

-- An output port as the worker sees it; the read-before-write port is the place of an input.
pub record WorkOutput (A M : Type 0) : Type 0 where
  pub index : Option ℕ
  pub is_signal : Bool
  pub token_manager_empty : Bool
  pub read_before_write : Option ℕ
  pub port : OutputPort A M

-- The minimum of the indexed ports, with another port
abbrev pub lower : Option ℕ → ℕ → ℕ → ℕ
lower none n k = n
lower (some i) n k = min n k

module _ {A M : Type 0} where
  -- The input port of the read-before-write optimization, if the types have the same size
  unfoldable pub read_before_write_port :
      List (WorkInput A) → WorkOutput A M → Option (ℕ × WorkInput A)
  read_before_write_port inputs o = elim (o.read_before_write) [
    | none ↦ none
    | some i ↦ elim (get_elem? inputs i) [
      | none ↦ none
      | some q ↦ if dtype_size o.port.dtype == dtype_size q.port.dtype then some (i, q) else none
    ]
  ]

  -- "always copy from port's dtype setting"
  abbrev pub counted_port : OutputPort A M → OutputPort A M
  counted_port p = record p {
    buffer = record (p.buffer) { dtype = p.dtype };
    elements = (p.buffer).length / dtype_size p.dtype;
  }

module _ {A M : Type 0} (ops : BufferManager M) (use_count : BufferChunk → ℕ) where
  -- The buffer that the manager gives, if it has one, and whether it does
  unfoldable pub from_manager : OutputPort A M → OutputPort A M
  from_manager p =
      if buffer_manager_empty ops p
      then record p { buffer = null_chunk; buffer_from_manager = false }
      else record p { buffer = buffer_manager_front ops p; buffer_from_manager = true }

  -- "now determine the buffer provided to this port"
  unfoldable pub provide_buffer :
      List (WorkInput A) → WorkOutput A M → List (WorkInput A) × OutputPort A M
  provide_buffer inputs o = elim (read_before_write_port inputs o) [
    | none ↦ (inputs, from_manager o.port)
    | some (i, q) ↦
        let q' = buffer_accumulator_front q.port in
        let c = q'.buffer in
        let inputs' = set inputs i (record q { port = record q' { buffer = null_chunk } }) in
        if (use_count c == 2) && leb (chunk_end c) (shared_end (buffer_of c.managed))
        then (inputs', record (o.port) { buffer = c; buffer_from_manager = false })
        else (inputs', from_manager o.port)
  ]

  -- An output of `preWorkTasks`; the Boolean says whether the loop goes on.
  unfoldable pub pre_work_output :
      WorkInfo
      → List (WorkInput A)
      → WorkOutput A M
      → WorkInfo × List (WorkInput A) × WorkOutput A M × Bool
  pre_work_output info inputs o =
      let p0 = record (o.port) { work_events = 0 } in
      let provided = provide_buffer inputs (record o { port = p0 }) in
      let p = counted_port provided.1 in
      let info' = record info {
        min_out_elements = lower o.index info.min_out_elements p.elements;
        min_all_out_elements = min info.min_all_out_elements p.elements;
      } in
      if o.token_manager_empty
      then (info, inputs, record o { port = p0 }, false)
      else if o.is_signal
      then (info, inputs, record o { port = p0 }, true)
      else if p.elements == 0
      then (info, provided.0, record o { port = p }, false)
      else (info', provided.0, record o { port = record p { pending_elements = 0 } }, true)

  -- The loop over the outputs, which stops at an output that is not ready
  unfoldable pub pre_work_outputs :
      WorkInfo
      → List (WorkInput A)
      → List (WorkOutput A M)
      → WorkInfo × List (WorkInput A) × List (WorkOutput A M) × Bool
  pre_work_outputs info inputs [] = (info, inputs, [], true)
  pre_work_outputs info inputs (o ∷ os) =
      let (info', inputs', o', go_on) = pre_work_output info inputs o in
      let rest = pre_work_outputs info' inputs' os in
      if go_on then (rest.0, rest.1, o' ∷ rest.2, rest.3) else (info', inputs', o' ∷ os, false)

-- `hasBufferedPorts`, `reserveReached` and `hasInputMessage`
pub record Flags : Type 0 where
  pub has_buffered_ports : Bool
  pub reserve_reached : Bool
  pub has_input_message : Bool

module _ {A : Type 0} (unique : BufferChunk → Bool) (allocate : ℕ → BufferChunk)
    (handle_slot_calls : WorkInput A → WorkInput A) where
  -- The buffer and the elements of an input
  unfoldable pub fetch_input : Memory → WorkInput A → Memory × WorkInput A
  fetch_input memory q =
      let require_elems = max 1 (q.port).reserve_elements in
      let required =
        buffer_accumulator_require unique allocate memory q.port
          (mul_size require_elems (dtype_size (q.port).dtype)) in
      let p = buffer_accumulator_front required.1 in
      (
        required.0,
        record q {
          elements = p.buffer.length / dtype_size p.dtype;
          label_iter = length p.inline_messages;
          port = record p { pending_elements = 0; work_events = 0 };
        },
      )

  -- An input of `preWorkTasks`
  unfoldable pub pre_work_input :
      Memory → WorkInfo → Flags → WorkInput A → Memory × WorkInfo × Flags × WorkInput A
  pre_work_input memory info flags q =
      let q0 = record q { port = record (q.port) { work_events = 0 } } in
      let fetched = fetch_input memory q in
      let n = (fetched.1).elements in
      if q.is_slot then (memory, info, flags, handle_slot_calls q0) else (
        fetched.0,
        record info {
          min_in_elements = lower q.index info.min_in_elements n;
          min_all_in_elements = min info.min_all_in_elements n;
        },
        record {
          has_buffered_ports = true;
          reserve_reached = flags.reserve_reached || leb (q.port).reserve_elements n;
          has_input_message = flags.has_input_message || q.has_message;
        },
        fetched.1,
      )

  -- The loop over the inputs
  unfoldable pub pre_work_inputs :
      Memory
      → WorkInfo
      → Flags
      → List (WorkInput A)
      → Memory × WorkInfo × Flags × List (WorkInput A)
  pre_work_inputs memory info flags [] = (memory, info, flags, [])
  pre_work_inputs memory info flags (q ∷ qs) =
      let (memory', info', flags', q') = pre_work_input memory info flags q in
      let rest = pre_work_inputs memory' info' flags' qs in (rest.0, rest.1, rest.2, q' ∷ rest.3)

-- The overall minimums
abbrev pub overall : WorkInfo → WorkInfo
overall info = record info {
  min_elements = min info.min_in_elements info.min_out_elements;
  min_all_elements = min info.min_all_in_elements info.min_all_out_elements;
  max_timeout_ns = 1000000;
}

-- "perform work when"
abbrev pub ready : Flags → Bool
ready flags = flags.reserve_reached || flags.has_input_message || not flags.has_buffered_ports

abbrev pub no_flags : Flags
no_flags = record { has_buffered_ports = false; reserve_reached = false; has_input_message = false }

pub record Worker (A M : Type 0) : Type 0 where
  pub work_info : WorkInfo
  pub inputs : List (WorkInput A)
  pub outputs : List (WorkOutput A M)

-- `preWorkTasks`
unfoldable pub pre_work_tasks :
    {A M : Type 0}
    → BufferManager M
    → (BufferChunk → ℕ)
    → (BufferChunk → Bool)
    → (ℕ → BufferChunk)
    → (WorkInput A → WorkInput A)
    → Memory
    → Worker A M
    → Memory × Worker A M × Bool
pre_work_tasks ops use_count unique allocate handle memory w =
    let info0 = record (w.work_info) { min_out_elements = big; min_all_out_elements = big } in
    let outs = pre_work_outputs ops use_count info0 w.inputs w.outputs in
    let info1 = record (outs.0) { min_in_elements = big; min_all_in_elements = big } in
    let ins = pre_work_inputs unique allocate handle memory info1 no_flags outs.1 in
    if outs.3
    then (
      ins.0,
      record { work_info = overall ins.1; inputs = ins.3; outputs = outs.2 },
      ready ins.2,
    )
    else (memory, record { work_info = outs.0; inputs = outs.1; outputs = outs.2 }, false)

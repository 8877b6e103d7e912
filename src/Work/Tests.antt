-- ===== src/Work/Tests.antt =====
-- A block with an input and an output, and examples for the theorems of its work.
use pothos_core.Base.{ℕ, ◌+◌, ◌⊎◌, ◌≤◌, ◌≡◌, refl, true, false, Bool, none, some, [], ◌∷◌}
use pothos_core.Buffer.{BufferChunk, null_chunk}
use pothos_core.Accumulator.{Memory, require, empty_pool}
use pothos_core.Input.{buffer_accumulator_front, buffer_accumulator_require}
use pothos_core.Input.Samples.{memory, int16, chunk, port}
use pothos_core.Output.{BufferManager}
use pothos_core.Work.{
  WorkInfo, WorkInput, WorkOutput, Worker, big, pre_work_outputs, pre_work_output, pre_work_tasks,
  pre_work_inputs, pre_work_input, fetch_input, provide_buffer, from_manager,
  read_before_write_port,
}
use pothos_core.Work.Outputs.{Below, AllUsable, SomeBlocked, pre_work_outputs-AllUsable}
use pothos_core.Work.Ready.{pre_work_tasks_lem}

abbrev manager : BufferManager ℕ
manager = record { is_empty = λ m. false; front = λ m. chunk 5 500 64; pop = λ m n. some (m + n) }

abbrev info : WorkInfo
info = record {
  min_in_elements = big;
  min_out_elements = big;
  min_all_in_elements = big;
  min_all_out_elements = big;
  min_elements = 0;
  min_all_elements = 0;
  max_timeout_ns = 0;
}

abbrev output : WorkOutput ℕ ℕ
output = record {
  index = some 0;
  is_signal = false;
  token_manager_empty = false;
  read_before_write = none;
  port = record {
    dtype = int16;
    buffer = null_chunk;
    buffer_from_manager = false;
    buffer_manager = some 0;
    buffer_pool = empty_pool;
    elements = 0;
    pending_elements = 0;
    reserve_elements = 0;
    total_elements = 0;
    total_buffers = 0;
    total_labels = 0;
    work_events = 0;
    posted_labels = [];
    posted_buffers = [];
  };
}

abbrev input : WorkInput ℕ
input = record {
  index = some 0;
  is_slot = false;
  has_message = false;
  elements = 0;
  label_iter = 0;
  port = port;
}

abbrev worker : Worker ℕ ℕ
worker = record { work_info = info; inputs = input ∷ []; outputs = output ∷ [] }

abbrev use_count : BufferChunk → ℕ
use_count c = 1

abbrev unique : BufferChunk → Bool
unique c = false

abbrev allocate : ℕ → BufferChunk
allocate k = chunk 9 10000 k

abbrev handle : WorkInput ℕ → WorkInput ℕ
handle q = q

abbrev prepared : Memory × Worker ℕ ℕ × Bool
prepared = pre_work_tasks manager use_count unique allocate handle memory worker

-- Two elements are in the front buffer of the input, and thirty-two in that of the output.
prepared_minima :
    (prepared.2 ≡ true)
    × ((prepared.1).work_info.min_elements ≡ 2)
    × ((prepared.1).work_info.min_out_elements ≡ 32)
unfolding pre_work_tasks pre_work_inputs pre_work_input fetch_input pre_work_outputs pre_work_output
    provide_buffer from_manager read_before_write_port buffer_accumulator_front
    buffer_accumulator_require require
prepared_minima = (refl, refl, refl)

pre_work_outputs-AllUsable_example :
    let (info', inputs', os', ready) =
      pre_work_outputs manager use_count info (input ∷ []) (output ∷ []) in
    ((ready ≡ true) × Below info' info × AllUsable info' os') ⊎ ((ready ≡ false) × SomeBlocked os')
pre_work_outputs-AllUsable_example =
    pre_work_outputs-AllUsable manager use_count info (input ∷ []) (output ∷ [])

pre_work_tasks_lem_example :
    AllUsable (prepared.1).work_info (prepared.1).outputs
    × ((prepared.1).work_info.min_elements ≤ (prepared.1).work_info.min_out_elements)
    × ((prepared.1).work_info.min_elements ≤ (prepared.1).work_info.min_in_elements)
    × ((prepared.1).work_info.min_all_elements ≤ (prepared.1).work_info.min_all_out_elements)
    × ((prepared.1).work_info.min_all_elements ≤ (prepared.1).work_info.min_all_in_elements)
pre_work_tasks_lem_example =
    pre_work_tasks_lem manager use_count unique allocate handle memory worker prepared_minima.0

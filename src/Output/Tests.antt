-- ===== src/Output/Tests.antt =====
-- Runs of an output port over a manager that counts its bytes, and examples for its theorems.
use pothos_core.Base.{
  ℕ, ◌+◌, ◌≤◌, ◌<◌, ◌≡◌, ◌≢◌, ◌⊎◌, ◌*◌, ◌-◌, refl, true, false, some, List, [], ◌∷◌, arith,
}
use pothos_core.Buffer.{null_chunk, elements, get_alias}
use pothos_core.Accumulator.{empty_pool}
use pothos_core.Input.{InputPort}
use pothos_core.Input.Samples.{
  memory, heap, int16, chunk, label, port, port-IsValid, port-CanPushAll, heap-PositiveLengths,
}
use pothos_core.Output.{
  OutputPort, BufferManager, bytes_to_pop, post_output, post_pending, post_buffer, push_subscribers,
}
use pothos_core.Output.Pops.{bytes_to_pop_lem}
use pothos_core.Output.Deliver.{AllReady, AllGot, push_subscribers_lem}

-- A manager that keeps how many bytes were popped
abbrev counting : BufferManager ℕ
counting = record { is_empty = λ m. false; front = λ m. chunk 5 500 64; pop = λ m n. some (m + n) }

abbrev output : OutputPort ℕ ℕ
output = record {
  dtype = int16;
  buffer = chunk 5 500 64;
  buffer_from_manager = true;
  buffer_manager = some 0;
  buffer_pool = empty_pool;
  elements = 32;
  pending_elements = 30;
  reserve_elements = 0;
  total_elements = 0;
  total_buffers = 0;
  total_labels = 0;
  work_events = 0;
  posted_labels = [];
  posted_buffers = [];
}

-- Thirty elements are posted, and their sixty bytes popped.
post_thirty :
    post_output counting output
    ≡ some (record output {
      buffer = null_chunk;
      buffer_manager = some 60;
      posted_buffers = chunk 5 500 60 ∷ [];
      total_elements = 30;
      total_buffers = 1;
      work_events = 1;
    })
unfolding post_output post_pending bytes_to_pop post_buffer elements get_alias
post_thirty = refl

-- Two elements are less than a reserve of four, and the whole buffer is popped.
post_reserved : bytes_to_pop (record output { reserve_elements = 4 }) 60 ≡ some 64
unfolding bytes_to_pop get_alias
post_reserved = refl

-- A subscriber that gets copies, and one that is the last
ports-AllReady : AllReady memory heap (label 9 2 ∷ []) (chunk 3 300 6 ∷ []) (port ∷ port ∷ [])
unfolding AllReady
ports-AllReady = ((port-IsValid, port-CanPushAll false), (port-IsValid, port-CanPushAll true))

push_subscribers_lem_example :
    (subscribers' : List (InputPort ℕ)) × (push_subscribers heap
        (label 9 2 ∷ [])
        (chunk 3 300 6 ∷ [])
        (port ∷ port ∷ [])
      ≡ some subscribers')
    × AllGot memory heap (label 9 2 ∷ []) (chunk 3 300 6 ∷ []) (port ∷ port ∷ []) subscribers'
push_subscribers_lem_example =
    push_subscribers_lem memory heap (label 9 2 ∷ []) (chunk 3 300 6 ∷ []) (port ∷ port ∷ [])
      (λ i. omega arith) heap-PositiveLengths ports-AllReady

-- A reserve of four elements, where two are left
abbrev reserving : OutputPort ℕ ℕ
reserving = record output { reserve_elements = 4 }

bytes_to_pop_lem_example :
    (k : ℕ) × (bytes_to_pop reserving 60 ≡ some k)
    × (((k ≡ 60) × ((get_alias reserving.buffer ≢ 0) ⊎ (4 * 2 ≤ 64 - 60)))
        ⊎ ((k ≡ 64) × (get_alias reserving.buffer ≡ 0) × (64 - 60 < 4 * 2)))
bytes_to_pop_lem_example =
    bytes_to_pop_lem reserving 64 2 (omega arith) refl (omega arith) (omega arith) (omega arith)

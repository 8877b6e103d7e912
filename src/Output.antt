-- ===== src/Output.antt =====
-- What an output port posts: lib/Framework/OutputPort.cpp, include/Pothos/Framework/OutputPortImpl.hpp,
-- and the outputs in `postWorkTasks` of lib/Framework/WorkerActor.cpp. The buffer manager is an
-- interface; the locks are left out.
pub mod Pops
pub mod Deliver
mod Tests
use pothos_core.Base.{
  ℕ, ◌+◌, ◌*◌, ◌<◌, ◌==◌, if◌then◌else◌, ltb, Bool, true, false, not, ◌&&◌, ◌||◌, Option, none,
  some, List, [], ◌∷◌, ◌++◌, ◌>>=◌, add_size, sub_size, mul_size,
}
use pothos_core.Buffer.{
  DType, BufferChunk, dtype_size, null_chunk, get_alias, buffer_of, elements, is_specified,
}
use pothos_core.Buffer.Copy.{Heap}
use pothos_core.Accumulator
use pothos_core.Accumulator.{BufferPool}
use pothos_core.Label.{Label, adjust}
use pothos_core.Input.{InputPort, typed, buffer_label_push}

-- What a port calls of its `BufferManager`; `none` is an assertion that fails.
pub record BufferManager (M : Type 0) : Type 0 where
  pub is_empty : M → Bool
  pub front : M → BufferChunk
  pub pop : M → ℕ → Option M

pub record OutputPort (A M : Type 0) : Type 0 where
  pub dtype : DType
  pub buffer : BufferChunk
  pub buffer_from_manager : Bool
  pub buffer_manager : Option M
  pub buffer_pool : BufferPool
  pub elements : ℕ
  pub pending_elements : ℕ
  pub reserve_elements : ℕ
  pub total_elements : ℕ
  pub total_buffers : ℕ
  pub total_labels : ℕ
  pub work_events : ℕ
  pub posted_labels : List (Label A)
  pub posted_buffers : List BufferChunk

module _ {A M : Type 0} where
  -- `produce`
  unfoldable pub produce : OutputPort A M → ℕ → OutputPort A M
  produce p n = record p { pending_elements = add_size p.pending_elements n }

  -- `setReserve`
  unfoldable pub set_reserve : OutputPort A M → ℕ → OutputPort A M
  set_reserve p n = record p {
    work_events = if ltb p.reserve_elements n then add_size p.work_events 1 else p.work_events;
    reserve_elements = n;
  }

  abbrev pub posted : OutputPort A M → BufferChunk → ℕ → OutputPort A M
  posted p b n = record p {
    posted_buffers = p.posted_buffers ++ b ∷ [];
    total_elements = add_size p.total_elements n;
    total_buffers = add_size p.total_buffers 1;
    work_events = add_size p.work_events 1;
  }

  -- `postBuffer`; `none` is a type of size 0
  unfoldable pub post_buffer : OutputPort A M → BufferChunk → Option (OutputPort A M)
  post_buffer p b = elements (typed p.dtype b) >>= λ n. some (posted p (typed p.dtype b) n)

  -- `postLabel`
  unfoldable pub post_label : OutputPort A M → Label A → OutputPort A M
  post_label p l = record p {
    posted_labels = p.posted_labels ++ adjust (dtype_size p.dtype) 1 l ∷ [];
    total_labels = add_size p.total_labels 1;
    work_events = add_size p.work_events 1;
  }

  -- How many bytes `postWorkTasks` pops from the manager for a buffer of `n` bytes; `none` when more
  -- was produced than the buffer has
  unfoldable pub bytes_to_pop : OutputPort A M → ℕ → Option ℕ
  bytes_to_pop p n =
      let whole = (buffer_of p.buffer.managed).length in
      if ltb whole n
      then none
      else if not (p.reserve_elements == 0)
          && (get_alias p.buffer == 0)
          && ltb (sub_size p.elements p.pending_elements) p.reserve_elements
      then some whole
      else some n

  module _ (ops : BufferManager M) where
    -- `bufferManagerPop`; `none` is a call through a null pointer, too
    abbrev pub buffer_manager_pop : OutputPort A M → ℕ → Option (OutputPort A M)
    buffer_manager_pop p n = elim (p.buffer_manager) [
      | none ↦ none
      | some m ↦ ops.pop m n >>= λ m'. some (record p { buffer_manager = some m' })
    ]

    -- `bufferManagerFront`
    abbrev pub buffer_manager_front : OutputPort A M → BufferChunk
    buffer_manager_front p = elim (p.buffer_manager) [ none ↦ null_chunk | some m ↦ ops.front m ]

    -- `bufferManagerEmpty`
    abbrev pub buffer_manager_empty : OutputPort A M → Bool
    buffer_manager_empty p = elim (p.buffer_manager) [ none ↦ true | some m ↦ ops.is_empty m ]

    -- `popElements`
    unfoldable pub pop_elements : OutputPort A M → ℕ → Option (OutputPort A M)
    pop_elements p n = buffer_manager_pop p (mul_size n (dtype_size p.dtype)) >>= λ p'.
        some (record p' { work_events = add_size p'.work_events 1 })

    -- `getBuffer`: the front buffer, or one of the port's pool
    unfoldable pub get_buffer :
        (BufferChunk → Bool)
        → (ℕ → BufferChunk)
        → OutputPort A M
        → DType
        → ℕ
        → Option (OutputPort A M × BufferChunk)
    get_buffer unique allocate p dtype n =
        let num_bytes = mul_size n (dtype_size dtype) in
        let out = record p.buffer { length = num_bytes } in
        let got = Accumulator.get unique allocate p.buffer_pool num_bytes in
        if ltb p.buffer.length num_bytes
        then some
            (record p { buffer_pool = got.0 }, record got.1 { length = num_bytes; dtype = dtype })
        else (if p.buffer_from_manager then buffer_manager_pop p num_bytes else some p) >>= λ p'.
            some (record p' { buffer = record null_chunk { dtype = p.buffer.dtype } }, out)

    -- The buffer of `postWorkTasks`: popped from the manager if it comes from there, and posted
    unfoldable pub post_pending : OutputPort A M → ℕ → Option (OutputPort A M)
    post_pending p n =
        (if p.buffer_from_manager
          then elim (bytes_to_pop p n) [ none ↦ some p | some k ↦ buffer_manager_pop p k ]
          else some p)
        >>= λ p'. post_buffer p' (record p.buffer { length = n })

    -- A front buffer that is smaller than the reserve is popped whole.
    unfoldable pub pop_small_front : OutputPort A M → Option (OutputPort A M)
    pop_small_front p =
        let n = (buffer_manager_front p).length in
        if not (n == 0) && ltb n (mul_size p.reserve_elements (dtype_size p.dtype))
        then buffer_manager_pop p n
        else some p

    -- An output in `postWorkTasks`, up to its posted labels and buffers
    unfoldable pub post_output : OutputPort A M → Option (OutputPort A M)
    post_output p =
        let pending = mul_size p.pending_elements (dtype_size p.buffer.dtype) in
        (if not (pending == 0)
          then post_pending p pending
          else if not (p.work_events == 0)
              && not (p.reserve_elements == 0)
              && (get_alias p.buffer == 0)
          then pop_small_front p
          else some p)
        >>= λ p'. some (record p' { buffer = null_chunk })

-- The loop over the subscribers: the last one gets the posted buffers themselves. Each gets the lists that
-- the one before leaves.
unfoldable pub push_subscribers :
    {A : Type 0}
    → Heap
    → List (Label A)
    → List BufferChunk
    → List (InputPort A)
    → Option (List (InputPort A))
push_subscribers heap labels buffers [] = some []
push_subscribers heap labels buffers (s ∷ []) =
    buffer_label_push heap true labels buffers s >>= λ r. some (r.0 ∷ [])
push_subscribers heap labels buffers (s ∷ t ∷ rest) =
    buffer_label_push heap false labels buffers s >>= λ r.
    push_subscribers heap r.1 r.2 (t ∷ rest) >>= λ rest'. some (r.0 ∷ rest')

-- The end of `postWorkTasks` for an output: `sort` is `std::sort` of the posted labels.
unfoldable pub send_posted :
    {A M : Type 0}
    → Heap
    → (List (Label A) → List (Label A))
    → OutputPort A M
    → List (InputPort A)
    → Option (OutputPort A M × List (InputPort A))
send_posted heap sort p subscribers =
    let p' = record p { posted_labels = []; posted_buffers = [] } in
    elim (p.posted_labels) [
      | [] ↦ elim (p.posted_buffers) [
        | [] ↦ some (p', subscribers)
        | _ ∷ _ ↦ push_subscribers heap [] p.posted_buffers subscribers >>= λ s. some (p', s)
      ]
      | _ ∷ _ ↦ push_subscribers heap (sort p.posted_labels) p.posted_buffers subscribers >>= λ s.
          some (p', s)
    ]

-- ===== src/Input/Samples.antt =====
-- An input port with two chunks of bytes, for the runs and examples.
use pothos_core.Base.{ℕ, ◌≡◌, refl, subst, List, Bool, true, false, some, none, [], ◌∷◌, arith}
use pothos_core.Buffer.{DType, ManagedBuffer, BufferChunk, null_chunk, get_alias}
use pothos_core.Buffer.Copy.{Heap, PositiveLengths, incr_next_buffers, count_next}
use pothos_core.Label.{Label}
use pothos_core.Accumulator.{Memory, empty_pool}
use pothos_core.Accumulator.Stream.{AllFit}
use pothos_core.Accumulator.Push.{IsValid, Shown, Linked}
use pothos_core.Input.{InputPort, copy_chunks, sent}
use pothos_core.Input.Bytes.{CanPush, CanPushAll}

-- Each byte shows its address.
abbrev pub memory : Memory
memory a = a

abbrev pub buffer_at : ℕ → ℕ → ManagedBuffer
buffer_at i a = record {
  id = i;
  buffer = record { address = a; length = 64; alias = 0; container = some i };
  slab_index = i;
  next_buffer = none;
}

abbrev pub heap : Heap
heap i = buffer_at i 100

abbrev pub int16 : DType
int16 = record { dimension = 1; elem_type = 7; elem_size = 2 }

abbrev pub chunk : ℕ → ℕ → ℕ → BufferChunk
chunk i base n = record {
  address = base;
  length = n;
  dtype = int16;
  managed = some (buffer_at i base);
  next_buffers = 0;
}

abbrev pub label : ℕ → ℕ → Label ℕ
label id index = record { id = id; content = 0; index = index; width = 1 }

abbrev pub port : InputPort ℕ
port = record {
  dtype = int16;
  buffer = null_chunk;
  bytes = record {
    queue = chunk 1 100 4 ∷ chunk 2 200 8 ∷ [];
    bytes_available = 12;
    in_pool_buffer = false;
    pool = empty_pool;
  };
  inline_messages = label 1 0 ∷ label 2 1 ∷ label 3 3 ∷ [];
  input_inline_messages = label 4 10 ∷ [];
  pending_elements = 2;
  reserve_elements = 0;
  total_elements = 0;
  total_buffers = 0;
  total_labels = 0;
  work_events = 0;
}

pub port-IsValid : IsValid port.bytes
unfolding AllFit
port-IsValid = record {
  nonempty = λ e. cc;
  all_fit = (omega arith, (omega arith, tt));
  counted = refl;
  small = omega arith;
}

-- A chunk of another buffer, behind those of the port
pub port-CanPush : CanPush memory heap port.bytes (chunk 3 300 6)
unfolding Shown get_alias Linked
port-CanPush = record {
  fits = omega arith;
  room = omega arith;
  shown = ((λ ne e. absurd (omega arith)), λ joined. (λ ne e. absurd (omega arith), λ joined'. tt));
  links = tt;
}

pub heap-PositiveLengths : PositiveLengths heap
heap-PositiveLengths i = (omega arith, omega arith)

pub port-CanPushAll :
    (enable_move : Bool) (cs : List BufferChunk)
    → sent heap enable_move (chunk 3 300 6 ∷ []) ≡ some cs
    → CanPushAll memory heap int16 port.bytes cs
unfolding CanPushAll incr_next_buffers count_next copy_chunks
port-CanPushAll true cs e =
    subst (CanPushAll memory heap int16 port.bytes) (some-injective e)
      (refl, port-CanPush, λ s' e. tt)
  where
    some-injective : {a b : List BufferChunk} → some a ≡ some b → a ≡ b
    some-injective e = cc
port-CanPushAll false cs e =
    subst (CanPushAll memory heap int16 port.bytes) (some-injective e)
      (refl, port-CanPush, λ s' e. tt)
  where
    some-injective : {a b : List BufferChunk} → some a ≡ some b → a ≡ b
    some-injective e = cc

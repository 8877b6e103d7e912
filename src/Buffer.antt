-- ===== src/Buffer.antt =====
-- The buffers of the framework: DType.hpp, SharedBuffer.{hpp,cpp}, ManagedBuffer.hpp and
-- BufferChunk.hpp of include/Pothos/Framework and lib/Framework.
-- Addresses and lengths are `size_t`. A container is named by a number, `none` for a null pointer;
-- a managed buffer is the content of its `Impl`, which `id` names.
pub mod Alias
pub mod Copy
mod Tests
use pothos_core.Base.{
  ℕ, ◌*◌, ◌/◌, ◌==◌, if◌then◌else◌, ltb, leb, Bool, true, false, not, ◌&&◌, Option, none, some, max,
  add_size, sub_size, mul_size,
}

pub record DType : Type 0 where
  pub dimension : ℕ
  pub elem_type : ℕ
  pub elem_size : ℕ

-- `DType()`
abbrev pub unspecified : DType
unspecified = record { dimension = 1; elem_type = 0; elem_size = 1 }

abbrev pub is_specified : DType → Bool
is_specified d = not (d.elem_type == 0)

abbrev pub dtype_size : DType → ℕ
dtype_size d = mul_size d.elem_size d.dimension

pub record SharedBuffer : Type 0 where
  pub address : ℕ
  pub length : ℕ
  pub alias : ℕ
  pub container : Option ℕ

-- `SharedBuffer()`
abbrev pub null_shared : SharedBuffer
null_shared = record { address = 0; length = 0; alias = 0; container = none }

-- `SharedBuffer(address, length, buffer)`; `none` is the SharedBufferError "not a subset"
unfoldable pub make_subset : ℕ → ℕ → SharedBuffer → Option SharedBuffer
make_subset address length buffer =
    let alias =
      if buffer.alias == 0
      then buffer.alias
      else add_size buffer.alias (sub_size address buffer.address) in
    let begin_in_range = leb buffer.address address in
    let end_in_range =
      leb (add_size address length) (add_size (max buffer.alias buffer.address) buffer.length) in
    if begin_in_range && end_in_range
    then some
        (record { address = address; length = length; alias = alias; container = buffer.container })
    else none

abbrev pub alias_offset : SharedBuffer → ℕ
alias_offset b = if b.alias == 0 then 0 else sub_size b.alias b.address

abbrev pub shared_end : SharedBuffer → ℕ
shared_end b = add_size b.address b.length

-- `makeCirc` of the memory that `makeCircUnprotected` gave: the alias is the end of the first
-- mapping.
unfoldable pub make_circular : SharedBuffer → SharedBuffer
make_circular b = record b { alias = shared_end b }

pub record ManagedBuffer : Type 0 where
  pub id : ℕ
  pub buffer : SharedBuffer
  pub slab_index : ℕ
  pub next_buffer : Option ℕ

pub record BufferChunk : Type 0 where
  pub address : ℕ
  pub length : ℕ
  pub dtype : DType
  pub managed : Option ManagedBuffer
  pub next_buffers : ℕ

-- `BufferChunk()`, `BufferChunk::null()`
abbrev pub null_chunk : BufferChunk
null_chunk = record {
  address = 0;
  length = 0;
  dtype = unspecified;
  managed = none;
  next_buffers = 0;
}

-- `BufferChunk(buffer)`
abbrev pub chunk_of : ManagedBuffer → BufferChunk
chunk_of b = record {
  address = b.buffer.address;
  length = b.buffer.length;
  dtype = unspecified;
  managed = some b;
  next_buffers = 0;
}

-- `ManagedBuffer::getBuffer` and `BufferChunk::getBuffer`
abbrev pub buffer_of : Option ManagedBuffer → SharedBuffer
buffer_of none = null_shared
buffer_of (some b) = b.buffer

-- `getAlias`
unfoldable pub get_alias : BufferChunk → ℕ
get_alias c =
    let b = buffer_of c.managed in
    if b.alias == 0
    then 0
    else if ltb b.alias c.address
    then sub_size c.address (alias_offset b)
    else add_size c.address (alias_offset b)

-- `getEnd`
abbrev pub chunk_end : BufferChunk → ℕ
chunk_end c = add_size c.address c.length

-- `elements` and `setElements`. A dtype of size 0 would divide by zero: `none`.
unfoldable pub elements : BufferChunk → Option ℕ
elements c = if dtype_size c.dtype == 0 then none else some (c.length / dtype_size c.dtype)

unfoldable pub set_elements : BufferChunk → ℕ → BufferChunk
set_elements c n = record c { length = mul_size n (dtype_size c.dtype) }

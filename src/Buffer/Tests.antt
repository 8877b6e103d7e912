-- ===== src/Buffer/Tests.antt =====
-- A chunk in a circular buffer of 4096 bytes.
use pothos_core.Base.{ℕ, ◌+◌, ◌<◌, ◌≤◌, refl, none, some, arith}
use pothos_core.Buffer.{ManagedBuffer, BufferChunk, chunk_of, get_alias}
use pothos_core.Buffer.Alias.{IsCircular, SameByte, get_alias-SameByte}

abbrev managed : ManagedBuffer
managed = record {
  id = 1;
  buffer = record { address = 8192; length = 4096; alias = 12288; container = some 1 };
  slab_index = 0;
  next_buffer = none;
}

abbrev chunk : ℕ → BufferChunk
chunk address = record (chunk_of managed) { address = address; length = 100 }

circular : IsCircular managed.buffer
circular = record {
  somewhere = omega arith;
  some_bytes = omega arith;
  fits = omega arith;
  aliased = refl;
}

get_alias_example :
    SameByte managed.buffer 9000 (get_alias (chunk 9000))
    × (8192 ≤ get_alias (chunk 9000))
    × (get_alias (chunk 9000) < 8192 + 4096 + 4096)
get_alias_example =
    get_alias-SameByte (chunk 9000) managed refl circular (omega arith) (omega arith)
      (λ e. absurd (omega arith))

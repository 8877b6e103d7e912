-- ===== src/Manager/Generic/Inv.antt =====
-- The invariant of GenericBufferManager.cpp.
use mathlib.Core.List.{Mem}
use pothos_core.Base.{ℕ, ◌+◌, ◌-◌, ◌*◌, ◌<◌, ◌≡◌, ◌⊎◌, List, [], ◌∷◌, length}
use pothos_core.OrderedQueue.Inv.{Settled}
use pothos_core.Buffer.{SharedBuffer, ManagedBuffer, BufferChunk, chunk_of}
use pothos_core.Manager.{Args}
use pothos_core.Manager.Slots.{IsRegion, owned}
use pothos_core.Manager.Generic.{GenericManager}

abbrev pub slot : ManagedBuffer → ℕ
slot b = b.slab_index

-- The front chunk is what is left of a buffer after `n` bytes.
abbrev pub remainder : ManagedBuffer → ℕ → BufferChunk
remainder b n = record (chunk_of b) { address = b.buffer.address + n; length = b.buffer.length - n }

-- The front chunk of a manager with these ready buffers.
abbrev pub FrontIs : GenericManager → List ManagedBuffer → Type 0
FrontIs m [] = m.bytes_popped ≡ 0
FrontIs m (b ∷ bs) =
    (m.front_buffer ≡ remainder b m.bytes_popped)
    × ((m.bytes_popped ≡ 0) ⊎ (2 * m.bytes_popped < m.buffer_size))

module _ (args : Args) (slab : SharedBuffer) where
  -- `bs` are ready, with the slab indices from `s` on, round and round.
  pub record Manages (m : GenericManager) (s : ℕ) (bs : List ManagedBuffer) : Type 0 where
    pub settled : Settled slot m.ready_buffs s bs
    pub size_eq : m.buffer_size ≡ args.buffer_size
    pub sized : length m.ready_buffs.pushed_elems ≡ args.num_buffers
    pub regions : (b : ManagedBuffer) → Mem b (owned m.ready_buffs bs) → IsRegion args slab b
    pub front_is : FrontIs m bs

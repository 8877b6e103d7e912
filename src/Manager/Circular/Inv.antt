-- ===== src/Manager/Circular/Inv.antt =====
-- The invariant of CircularBufferManager.cpp.
use pothos_core.Base.{ℕ, ◌+◌, ◌-◌, ◌*◌, ◌≤◌, ◌<◌, ◌^◌, ◌≡◌, ◌⊎◌, List, [], ◌∷◌, map, length}
use pothos_core.OrderedQueue.{OrderedQueue}
use pothos_core.OrderedQueue.Inv.{Settled}
use pothos_core.Buffer.{SharedBuffer, ManagedBuffer, chunk_of}
use pothos_core.Buffer.Alias.{IsCircular}
use pothos_core.Manager.{Args}
use pothos_core.Manager.Slots.{owned}
use pothos_core.Manager.Generic.Inv.{slot}
use pothos_core.Manager.Circular.{CircularManager}

-- The circular buffer that `init` asks for: each buffer of the manager fits in one mapping.
pub record IsRing (args : Args) (circ : SharedBuffer) : Type 0 where
  pub some_buffers : 0 < args.num_buffers
  pub buffers_fit : args.num_buffers ≤ 2 ^ 63
  pub circular : IsCircular circ
  pub size_fits : args.buffer_size < 2 ^ 62
  pub buffer_fits : args.buffer_size ≤ circ.length

-- the window of the circular buffer that starts at an address of the first mapping
abbrev pub window : Args → SharedBuffer → ℕ → SharedBuffer
window args circ address = record {
  address = address;
  length = args.buffer_size;
  alias = address + circ.length;
  container = circ.container;
}

-- The front chunk of a manager with these ready buffers: what is left of the window at the front
-- address.
abbrev pub WindowIs : Args → SharedBuffer → CircularManager → List ManagedBuffer → Type 0
WindowIs args circ m [] = m.bytes_to_pop ≡ 0
WindowIs args circ m (b ∷ bs) =
    (b.buffer ≡ window args circ m.front_address)
    × (m.front_buffer ≡ record (chunk_of b) {
      address = m.front_address + m.bytes_to_pop;
      length = args.buffer_size - m.bytes_to_pop;
    })
    × ((m.bytes_to_pop ≡ 0) ⊎ (2 * m.bytes_to_pop < args.buffer_size))

module _ (args : Args) (circ : SharedBuffer) where
  -- `bs` are ready, with the slab indices from `s` on, round and round; the front address is in the
  -- first mapping.
  pub record Turns (m : CircularManager) (s : ℕ) (bs : List ManagedBuffer) : Type 0 where
    pub settled : Settled slot m.ready_buffs s bs
    pub size_eq : m.buffer_size ≡ args.buffer_size
    pub sized : length m.ready_buffs.pushed_elems ≡ args.num_buffers
    pub circ_eq : m.circ_buff ≡ circ
    pub low : circ.address ≤ m.front_address
    pub high : m.front_address < circ.address + circ.length
    pub window_is : WindowIs args circ m bs

-- how far the manager has come: the address of its next byte
abbrev pub position : CircularManager → ℕ
position m = m.front_address + m.bytes_to_pop

-- the indices of all buffers in the queue
abbrev pub slots : OrderedQueue ManagedBuffer → List ManagedBuffer → List ℕ
slots q bs = map slot (owned q bs)

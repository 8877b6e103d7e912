-- ===== src/Manager/Slots.antt =====
-- The regions of a slab that the buffers of a manager stand for.
use mathlib.Core.List.{Mem, Perm, mem-cons}
use mathlib.Core.List.Perm
use mathlib.Core.Logic.Or
use native.Mathlib.Bridge.{le_prop}
use pothos_core.Base.{ℕ, ◌+◌, ◌*◌, ◌≤◌, ◌<◌, ◌^◌, ◌≡◌, List, ◌++◌, ◌∷◌, word, arith}
use pothos_core.OrderedQueue.{OrderedQueue}
use pothos_core.OrderedQueue.Inv.{waiting}
use pothos_core.Buffer.{SharedBuffer, ManagedBuffer}
use pothos_core.Manager.{Args}

-- All the memory that `init` asks for, in one piece, and not a circular buffer.
pub record IsSlab (args : Args) (slab : SharedBuffer) : Type 0 where
  pub some_buffers : 0 < args.num_buffers
  pub buffers_fit : args.num_buffers ≤ 2 ^ 63
  pub size_fits : args.buffer_size < 2 ^ 62
  pub slab_length : slab.length ≡ args.buffer_size * args.num_buffers
  pub slab_fits : slab.address + slab.length < word
  pub plain : slab.alias ≡ 0

-- where the buffer number `i` starts
abbrev pub region : Args → SharedBuffer → ℕ → ℕ
region args slab i = slab.address + args.buffer_size * i

-- The buffer is its region of the slab.
pub record IsRegion (args : Args) (slab : SharedBuffer) (b : ManagedBuffer) : Type 0 where
  pub in_slab : b.slab_index < args.num_buffers
  pub starts : b.buffer.address ≡ region args slab b.slab_index
  pub sized : b.buffer.length ≡ args.buffer_size
  pub same_memory : b.buffer.container ≡ slab.container

pub mul_step : (s i j : ℕ) → i < j → s * i + s ≤ s * j
mul_step s i j h = grind arith

-- Regions of different buffers do not overlap, and all lie in the slab.
pub regions_apart :
    (args : Args) (slab : SharedBuffer) (a b : ManagedBuffer)
    → IsRegion args slab a
    → IsRegion args slab b
    → a.slab_index < b.slab_index
    → a.buffer.address + a.buffer.length ≤ b.buffer.address
regions_apart args slab a b v w h =
    omega (arith, mul_step args.buffer_size a.slab_index b.slab_index h)

pub region_in_slab :
    (args : Args) (slab : SharedBuffer) (b : ManagedBuffer)
    → IsSlab args slab
    → IsRegion args slab b
    → (slab.address ≤ b.buffer.address)
      × (b.buffer.address + b.buffer.length ≤ slab.address + slab.length)
region_in_slab args slab b k v = (omega arith, omega (arith, room))
  where
    room : args.buffer_size * b.slab_index + args.buffer_size ≤ args.buffer_size * args.num_buffers
    room = mul_step args.buffer_size b.slab_index args.num_buffers v.in_slab

-- every buffer in the queue: those that are ready, then those that wait
abbrev pub owned : OrderedQueue ManagedBuffer → List ManagedBuffer → List ManagedBuffer
owned q bs = bs ++ waiting q.pushed_elems

pub IsRegion-prop :
    (args : Args) (slab : SharedBuffer) (b : ManagedBuffer) → IsProp (IsRegion args slab b)
IsRegion-prop args slab b = hlevel le_prop

-- A list with one buffer more, in any order, holds regions only if that buffer is one.
pub regions-cons :
    (args : Args) (slab : SharedBuffer) (b : ManagedBuffer) (bs cs : List ManagedBuffer)
    → Perm cs (b ∷ bs)
    → IsRegion args slab b
    → ((x : ManagedBuffer) → Mem x bs → IsRegion args slab x)
    → (x : ManagedBuffer) → Mem x cs
    → IsRegion args slab x
regions-cons args slab b bs cs p r rs x h =
    Or.elim (IsRegion-prop args slab x) (mem-cons.0 ((Perm.mem_iff p).0 h)) (λ e. rw e r) (rs x)

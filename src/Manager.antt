-- ===== src/Manager.antt =====
-- The buffer managers of lib/Framework/Builtin and their base, BufferManager.{hpp,cpp}: Manager/Generic
-- and Manager/Circular are the two classes, and the modules below them prove what they promise.
-- A manager's buffer is known by its slab index: the queue and the front chunk hold its content.
pub mod Slots
pub mod Generic
pub mod Circular
mod Tests
use pothos_core.Base.{ℕ, Bool, true, false, Option, none, some}
use pothos_core.Buffer.{SharedBuffer, ManagedBuffer}

-- `BufferManagerArgs`; the node affinity goes to the allocator alone
pub record Args : Type 0 where
  pub num_buffers : ℕ
  pub buffer_size : ℕ
  pub node_affinity : ℕ

-- What a call gives: `stuck` is a failed assertion or an access out of bounds.
pub data Outcome {ℓ} (A : Type ℓ) : Type ℓ where
  done : A → Outcome A
  already_initialized : Outcome A
  not_a_subset : Outcome A
  stuck : Outcome A

infixl 5 ◌>>=◌
abbrev pub ◌>>=◌ {ℓ κ} : {A : Type ℓ} {B : Type κ} → Outcome A → (A → Outcome B) → Outcome B
done a >>= f = f a
already_initialized >>= f = already_initialized
not_a_subset >>= f = not_a_subset
stuck >>= f = stuck

-- a queue's operation, and the subset constructor, in a manager
abbrev pub asserted {ℓ} : {A : Type ℓ} → Option A → Outcome A
asserted none = stuck
asserted (some a) = done a

abbrev pub subset_of {ℓ} : {A : Type ℓ} → Option A → Outcome A
subset_of none = not_a_subset
subset_of (some a) = done a

-- the `T()` of the queue of managed buffers: a null pointer, with nothing behind it
abbrev pub null_managed : ManagedBuffer
null_managed = record {
  id = 0;
  buffer = record { address = 0; length = 0; alias = 0; container = none };
  slab_index = 0;
  next_buffer = none;
}

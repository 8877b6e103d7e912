-- ===== src/RingDeque.antt =====
-- include/Pothos/Util/RingDeque.hpp: a double ended queue in a ring of `_mask + 1` cells.
-- A cell is `none` while it holds no constructed element, and the container is `[]` for a null
-- pointer. Every operation is an `Option`: `none` stands for a failed `assert`, for an access
-- outside of the container or to a cell without an element, and for a loop that does not end.
pub mod Cells
pub mod Rep
pub mod Ends
pub mod Assign
pub mod Growth
pub mod Moves
pub mod Deque
pub mod Refine
mod Tests
use Prim.Native.Nat.{bit_and}
use pothos_core.Base.{
  ℕ, zero, suc, ◌+◌, ◌==◌, if◌then◌else◌, ltb, List, [], Bool, true, false, not, Option, none, some,
  ◌>>=◌, ◌>>◌, get_elem?, set, replicate, add_size, sub_size, mul_size,
}

pub record RingDeque {ℓ} (A : Type ℓ) : Type ℓ where
  pub mask : ℕ
  pub capacity : ℕ
  pub front_index : ℕ
  pub num_elements : ℕ
  pub container : List (Option A)

-- `assert(test)`
abbrev pub assert : Bool → Option (Unit {0})
assert true = some tt
assert false = none

-- `while (out < in) out <<= 1;` from `out`. Of a `size_t` the 65 rounds of `next_pow2` see every
-- value that doubling can give: 64 powers of two, then 0 for ever.
pub next_pow2_loop : ℕ → ℕ → ℕ → Option ℕ
next_pow2_loop zero input out = none
next_pow2_loop (suc fuel) input out =
    let rest = next_pow2_loop fuel input (mul_size out 2) in
    if ltb out input then rest else some out

unfoldable pub next_pow2 : ℕ → Option ℕ
unfolding next_pow2_loop
next_pow2 input = next_pow2_loop 65 input 1

module _ {ℓ} {A : Type ℓ} where
  -- the constructor; `allocate` gives `mask + 1` cells without elements
  unfoldable pub make : ℕ → Option (RingDeque A)
  make cap = do
    size ← next_pow2 cap
    assert (ltb 0 cap)
    let mask = sub_size size 1
    some (record {
      mask = mask;
      capacity = cap;
      front_index = 0;
      num_elements = 0;
      container = replicate (add_size mask 1) none;
    })

  abbrev pub empty : RingDeque A → Bool
  empty r = r.num_elements == 0

  abbrev pub full : RingDeque A → Bool
  full r = r.num_elements == r.capacity

  abbrev pub size : RingDeque A → ℕ
  size r = r.num_elements

  -- the index that `operator[]` computes
  abbrev pub slot : RingDeque A → ℕ → ℕ
  slot r offset = bit_and (add_size r.front_index offset) r.mask

  -- `operator[]`, for reading
  unfoldable pub at : RingDeque A → ℕ → Option A
  at r offset = do cell ← get_elem? r.container (slot r offset); cell

  -- `operator[]`, for assigning: the element must be there
  unfoldable pub assign : RingDeque A → ℕ → A → Option (RingDeque A)
  unfolding at
  assign r offset x = do
    at r offset
    some (record r { container = set r.container (slot r offset) (some x) })

  -- `new(&cell) T(elem)` and `cell.~T()`, in the container
  abbrev pub construct : RingDeque A → ℕ → A → Option (RingDeque A)
  construct r offset x = do
    get_elem? r.container (slot r offset)
    some (record r { container = set r.container (slot r offset) (some x) })

  abbrev pub destroy : RingDeque A → ℕ → Option (RingDeque A)
  destroy r offset = do
    at r offset
    some (record r { container = set r.container (slot r offset) none })

  unfoldable pub front : RingDeque A → Option A
  unfolding at
  front r = do assert (not (empty r)); at r 0

  unfoldable pub back : RingDeque A → Option A
  unfolding at
  back r = do assert (not (empty r)); at r (sub_size r.num_elements 1)

  -- `emplace_front` and `push_front`. `front()` asserts that the new count is not 0.
  unfoldable pub push_front : RingDeque A → A → Option (RingDeque A)
  push_front r x = do
    assert (not (full r))
    let r' = record r {
      front_index = sub_size r.front_index 1;
      num_elements = add_size r.num_elements 1;
    }
    assert (not (empty r'))
    construct r' 0 x

  unfoldable pub pop_front : RingDeque A → Option (RingDeque A)
  unfolding at
  pop_front r = do
    assert (not (empty r))
    r' ← destroy r 0
    some (record r' {
      front_index = add_size r'.front_index 1;
      num_elements = sub_size r'.num_elements 1;
    })

  -- `emplace_back` and `push_back`
  unfoldable pub push_back : RingDeque A → A → Option (RingDeque A)
  push_back r x = do
    assert (not (full r))
    let r' = record r { num_elements = add_size r.num_elements 1 }
    assert (not (empty r'))
    construct r' (sub_size r'.num_elements 1) x

  unfoldable pub pop_back : RingDeque A → Option (RingDeque A)
  unfolding at
  pop_back r = do
    assert (not (empty r))
    r' ← destroy r (sub_size r.num_elements 1)
    some (record r' { num_elements = sub_size r'.num_elements 1 })

  -- `clear`: one round for each element
  pub clear_loop : ℕ → RingDeque A → Option (RingDeque A)
  clear_loop zero r = if empty r then some r else none
  clear_loop (suc fuel) r =
      let rest = pop_front r >>= clear_loop fuel in if empty r then some r else rest

  unfoldable pub clear : RingDeque A → Option (RingDeque A)
  unfolding clear_loop
  clear r = clear_loop r.num_elements r

  -- what a move constructor or a move assignment leaves behind in `other`
  abbrev pub moved_from : RingDeque A → RingDeque A
  moved_from other = record other { num_elements = 0; capacity = 0; container = [] }

  -- the move constructor: the new deque and `other`
  unfoldable pub move_construct : RingDeque A → RingDeque A × RingDeque A
  move_construct other = (other, moved_from other)

  -- `*this = std::move(other)`: this deque and `other`
  unfoldable pub move_assign : RingDeque A → RingDeque A → Option (RingDeque A × RingDeque A)
  unfolding clear
  move_assign r other = do clear r; some (other, moved_from other)

  -- the loop of `set_capacity`: from `r` into `new_ring`
  pub move_loop : ℕ → RingDeque A → RingDeque A → Option (RingDeque A × RingDeque A)
  unfolding front push_back pop_front
  move_loop zero r new_ring = if empty r then some (r, new_ring) else none
  move_loop (suc fuel) r new_ring =
      let rest = (do
        x ← front r
        new_ring' ← push_back new_ring x
        r' ← pop_front r
        move_loop fuel r' new_ring') in
      if empty r then some (r, new_ring) else rest

  unfoldable pub set_capacity : RingDeque A → ℕ → Option (RingDeque A)
  unfolding make move_loop move_assign
  set_capacity r cap = if ltb cap r.num_elements then some r else (do
    new_ring ← make cap
    (r', new_ring') ← move_loop r.num_elements r new_ring
    (r'', _) ← move_assign r' new_ring'
    some r'')

  -- `for (i = ...; i < other.size(); i++) push_back(other[i]);` with `n` rounds left
  pub copy_loop : ℕ → ℕ → RingDeque A → RingDeque A → Option (RingDeque A)
  unfolding at push_back
  copy_loop zero i other r = some r
  copy_loop (suc n) i other r = do x ← at other i; r' ← push_back r x; copy_loop n (i + 1) other r'

  -- the copy constructor
  unfoldable pub copy : RingDeque A → Option (RingDeque A)
  unfolding copy_loop
  copy other = copy_loop other.num_elements 0 other (record {
    mask = other.mask;
    capacity = other.capacity;
    front_index = 0;
    num_elements = 0;
    container = replicate (add_size other.mask 1) none;
  })

  -- `*this = other` of two deques
  unfoldable pub copy_assign : RingDeque A → RingDeque A → Option (RingDeque A)
  unfolding clear set_capacity copy_loop
  copy_assign r other = do
    r' ← clear r
    r'' ← set_capacity r' other.capacity
    copy_loop other.num_elements 0 other r''

  -- `*this = *this`: the same calls, where `other` is what they have left of this deque
  unfoldable pub self_assign : RingDeque A → Option (RingDeque A)
  unfolding clear set_capacity copy_loop
  self_assign r = do
    r' ← clear r
    r'' ← set_capacity r' r'.capacity
    copy_loop r''.num_elements 0 r'' r''

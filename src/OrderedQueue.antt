-- ===== src/OrderedQueue.antt =====
-- include/Pothos/Util/OrderedQueue.hpp: a queue whose elements are pushed with an index, and come
-- out in the order of the indices, round and round. `_pushedElems` keeps what came too early.
-- Every operation is an `Option`, as in RingDeque: `none` is a failed assertion or an access out of
-- bounds. What a move leaves in an entry of `_pushedElems` is not read again, so the entry keeps it.
pub mod Order
pub mod Inv
pub mod Release
pub mod Push
pub mod Make
pub mod Assign
mod Tests
use pothos_core.Base.{
  ℕ, zero, suc, ◌==◌, if◌then◌else◌, ltb, List, [], Bool, true, false, not, Option, none, some,
  ◌>>=◌, ◌>>◌, get_elem?, set, replicate, length, add_size,
}
use pothos_core.RingDeque
use pothos_core.RingDeque.{RingDeque, assert, full}

pub record OrderedQueue {ℓ} (A : Type ℓ) : Type ℓ where
  pub index_to_ack : ℕ
  pub pushed_elems : List (A × Bool)
  pub ready_elems : RingDeque A

module _ {ℓ} {A : Type ℓ} where
  -- the two constructors; `initial` is `T()`
  unfoldable pub make_empty : Option (OrderedQueue A)
  make_empty = do
    ready ← RingDeque.make 1
    some (record { index_to_ack = 0; pushed_elems = []; ready_elems = ready })

  unfoldable pub make : A → ℕ → Option (OrderedQueue A)
  make initial capacity = do
    ready ← RingDeque.make capacity
    some (record {
      index_to_ack = 0;
      pushed_elems = replicate capacity (initial, false);
      ready_elems = ready;
    })

  -- `_wrapIndex`
  abbrev pub wrap_index : OrderedQueue A → OrderedQueue A
  wrap_index q =
      let next = add_size q.index_to_ack 1 in
      record q { index_to_ack = if next == length q.pushed_elems then 0 else next }

  abbrev pub empty : OrderedQueue A → Bool
  empty q = RingDeque.empty q.ready_elems

  abbrev pub capacity : OrderedQueue A → ℕ
  capacity q = q.ready_elems.capacity

  unfoldable pub front : OrderedQueue A → Option A
  front q = RingDeque.front q.ready_elems

  -- an assignment through the reference that `front()` gives
  unfoldable pub assign_front : OrderedQueue A → A → Option (OrderedQueue A)
  assign_front q x = do
    assert (not (empty q))
    ready ← RingDeque.assign q.ready_elems 0 x
    some (record q { ready_elems = ready })

  unfoldable pub pop : OrderedQueue A → Option (OrderedQueue A)
  pop q = do ready ← RingDeque.pop_front q.ready_elems; some (record q { ready_elems = ready })

  -- `_readyElems.push_back`, with the assertion before it
  unfoldable pub deliver : OrderedQueue A → A → Option (OrderedQueue A)
  deliver q x = do
    assert (not (full q.ready_elems))
    ready ← RingDeque.push_back q.ready_elems x
    some (record q { ready_elems = ready })

  -- `_pushedElems[_indexToAck].second = false`
  abbrev pub clear_flag : OrderedQueue A → A → OrderedQueue A
  clear_flag q x = record q { pushed_elems = set q.pushed_elems q.index_to_ack (x, false) }

  -- `while (_pushedElems[_indexToAck].second)`; each round clears a flag
  pub release : ℕ → OrderedQueue A → Option (OrderedQueue A)
  release zero q = none
  release (suc fuel) q = do
    (x, flagged) ← get_elem? q.pushed_elems q.index_to_ack
    let rest = deliver q x >>= λ q'. release fuel (wrap_index (clear_flag q' x))
    if flagged then rest else some q

  -- `push`, up to the loop
  unfoldable pub accept : OrderedQueue A → A → ℕ → Option (OrderedQueue A)
  accept q x index =
      if index == q.index_to_ack then (do q' ← deliver q x; some (wrap_index q')) else (do
        assert (ltb index (length q.pushed_elems))
        some (record q { pushed_elems = set q.pushed_elems index (x, true) }))

  -- There are at most as many rounds as flags, and one more test.
  unfoldable pub push : OrderedQueue A → A → ℕ → Option (OrderedQueue A)
  push q x index = do q' ← accept q x index; release (suc (length q'.pushed_elems)) q'

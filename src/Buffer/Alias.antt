-- ===== src/Buffer/Alias.antt =====
-- Aliases in a circular buffer: two mappings of the same bytes, one behind the other.
use pothos_core.Base.{◌⊎◌, ℕ, ◌+◌, ◌≤◌, ◌<◌, ◌≡◌, ◌≢◌, some, word, arith}
use pothos_core.Buffer.{SharedBuffer, BufferChunk, make_circular, get_alias, ManagedBuffer}

-- A circular buffer of `b.length` bytes, mapped twice from `b.address` on.
pub record IsCircular (b : SharedBuffer) : Type 0 where
  pub somewhere : 0 < b.address
  pub some_bytes : 0 < b.length
  pub fits : b.address + b.length + b.length < word
  pub aliased : b.alias ≡ b.address + b.length

pub make_circular-IsCircular :
    (b : SharedBuffer)
    → 0 < b.address
    → 0 < b.length
    → b.address + b.length + b.length < word
    → IsCircular (make_circular b)
unfolding make_circular
make_circular-IsCircular b p q h = omega arith

-- The bytes that two addresses of the mappings show are the same.
abbrev pub SameByte : SharedBuffer → ℕ → ℕ → Type 0
SameByte b x y = (x ≡ y + b.length) ⊎ (y ≡ x + b.length)

-- The alias of an address in either mapping is in the other, at the same byte: for each address of
-- the mappings but the first of the second one.
pub get_alias-SameByte :
    (c : BufferChunk) (m : ManagedBuffer)
    → c.managed ≡ some m
    → IsCircular m.buffer
    → m.buffer.address ≤ c.address
    → c.address < m.buffer.address + m.buffer.length + m.buffer.length
    → c.address ≢ m.buffer.alias
    → SameByte m.buffer c.address (get_alias c)
      × (m.buffer.address ≤ get_alias c)
      × (get_alias c < m.buffer.address + m.buffer.length + m.buffer.length)
unfolding get_alias
get_alias-SameByte c m e v lo hi ne = ground arith

-- At the first address of the second mapping the alias is one past both mappings, where the first
-- address of the buffer shows the same byte.
pub get_alias-boundary :
    (c : BufferChunk) (m : ManagedBuffer)
    → c.managed ≡ some m
    → IsCircular m.buffer
    → c.address ≡ m.buffer.alias
    → (get_alias c ≡ m.buffer.address + m.buffer.length + m.buffer.length)
      × SameByte m.buffer c.address m.buffer.address
unfolding get_alias
get_alias-boundary c m e v h = ground arith

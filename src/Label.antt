-- ===== src/Label.antt =====
-- include/Pothos/Framework/Label.hpp and lib/Framework/Label.cpp: a label is some data at an index of
-- a stream. The index and the width have 64 bits. Identifiers are numbers, and the type of the data
-- is a parameter.
use pothos_core.Base.{ℕ, ◌/◌, ◌==◌, ltb, Bool, ◌&&◌, mul_size}

pub record Label (A : Type 0) : Type 0 where
  pub id : ℕ
  pub content : A
  pub index : ℕ
  pub width : ℕ

module _ {A : Type 0} where
  -- `adjust(mult, div)`; the divisors are the sizes of types, and 1
  unfoldable pub adjust : ℕ → ℕ → Label A → Label A
  adjust mult div l = record l {
    index = mul_size l.index mult / div;
    width = mul_size l.width mult / div;
  }

  -- `operator==`, over the comparison of the data
  abbrev pub same_label : (A → A → Bool) → Label A → Label A → Bool
  same_label same l k =
      (l.index == k.index) && (l.width == k.width) && (l.id == k.id) && same l.content k.content

  -- `operator<`
  abbrev pub before : Label A → Label A → Bool
  before l k = ltb l.index k.index

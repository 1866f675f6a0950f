-- ===== src/Matter/Tlv.antt =====
-- Reading an array attribute (rs-matter's `ArrayAttributeRead`). The TLV builders are third-party, so
-- they are parameters: `push` writes one element and `finish` ends the array, and either may fail.
pub mod Reads
use pv_matter.Common.{ℕ, List, [], ◌∷◌, ◌++◌, Option, none, some, Result, ok, err, get_elem?}

pub record Builder (A P E : Type 0) : Type 0 where
  pub push : A → P → Result P E
  pub finish : P → Result P E
  pub constraint_error : E

pub data ArrayRead (P : Type 0) : Type 0 where
  read_all : P → ArrayRead P
  read_one : ℕ → P → ArrayRead P
  read_none : P → ArrayRead P

module _ {A P E : Type 0} (b : Builder A P E) where
  -- `for x in xs { builder = write(builder.push()?, x)?; } builder.end()`
  push_items : List A → P → Result P E
  push_items [] p = b.finish p
  push_items (x ∷ xs) p = elim (b.push x p) [ ok q ↦ push_items xs q | err e ↦ err e ]

  push_found : Option A → P → Result P E
  push_found none p = err b.constraint_error
  push_found (some x) p = b.push x p

  -- The `match builder` of the handlers: all elements, the one at an index, or none.
  unfoldable pub read_array : List A → ArrayRead P → Result P E
  unfolding push_items push_found
  read_array xs (read_all p) = push_items xs p
  read_array xs (read_one index p) = push_found (get_elem? xs index) p
  read_array xs (read_none p) = b.finish p

-- ===== src/Matter/Tlv/Reads.antt =====
-- What a read of an array attribute writes into a buffer of bounded size.
use pv_matter.Common.{
  ℕ, zero, suc, ◌+◌, ◌<◌, ◌≤◌, ◌≡◌, refl, List, [], ◌∷◌, ◌++◌, none, some, ok, err, get_elem?,
  length, length-append, ltb, if◌then◌else◌, arith, append-nil, append_assoc,
}
use pv_matter.Matter.Tlv.{Builder, read_all, read_one, read_none, read_array}

pub data ReadError : Type 0 where
  constraint : ReadError
  no_space : ReadError

-- A buffer with room for `capacity` elements, the oldest first.
abbrev pub buffer : {A : Type 0} → ℕ → Builder A (List A) ReadError
buffer capacity = record {
  push = λ x p. if ltb (length p) capacity then ok (p ++ x ∷ []) else err no_space;
  finish = ok;
  constraint_error = constraint;
}

module _ {A : Type 0} (capacity : ℕ) where
  read_all_fits :
      (xs p : List A)
      → length p + length xs ≤ capacity
      → read_array (buffer capacity) xs (read_all p) ≡ ok (p ++ xs)
  unfolding read_array
  read_all_fits [] p h = rw append-nil refl
  read_all_fits (x ∷ xs) p h = ground (
    arith,
    h,
    length-append p (x ∷ []),
    append_assoc p (x ∷ []) xs,
    read_all_fits xs (p ++ x ∷ []),
  )

  read_all_full :
      (xs p : List A)
      → capacity < length p + length xs
      → length p ≤ capacity
      → read_array (buffer capacity) xs (read_all p) ≡ err no_space
  unfolding read_array
  read_all_full [] p h k = absurd (omega (arith, h, k))
  read_all_full (x ∷ xs) p h k =
      ground (arith, h, k, length-append p (x ∷ []), read_all_full xs (p ++ x ∷ []))

  get_elem?-ge : (xs : List A) (i : ℕ) → length xs ≤ i → get_elem? xs i ≡ none
  get_elem?-ge [] i h = refl
  get_elem?-ge (x ∷ xs) zero h = absurd (omega arith)
  get_elem?-ge (x ∷ xs) (suc i) h = get_elem?-ge xs i (omega arith)

  get_elem?-lt : (xs : List A) (i : ℕ) → i < length xs → (x : A) × (get_elem? xs i ≡ some x)
  get_elem?-lt [] i h = absurd (omega arith)
  get_elem?-lt (x ∷ xs) zero h = (x, refl)
  get_elem?-lt (x ∷ xs) (suc i) h = get_elem?-lt xs i (omega arith)

  -- What a read gives by its kind: all elements or, if they do not fit, no space; the element at an index
  -- or, if it is out of range, the constraint error; or nothing.
  pub record ReadsArray (xs p : List A) : Type 0 where
    pub all_fit :
        length p + length xs ≤ capacity
        → read_array (buffer capacity) xs (read_all p) ≡ ok (p ++ xs)
    pub all_full :
        capacity < length p + length xs
        → read_array (buffer capacity) xs (read_all p) ≡ err no_space
    pub one_found :
        (i : ℕ)
        → i < length xs
        → length p < capacity
        → (x : A) × (get_elem? xs i ≡ some x)
          × (read_array (buffer capacity) xs (read_one i p) ≡ ok (p ++ x ∷ []))
    pub one_missing :
        (i : ℕ) → length xs ≤ i → read_array (buffer capacity) xs (read_one i p) ≡ err constraint
    pub nothing : read_array (buffer capacity) xs (read_none p) ≡ ok p

  -- A read of an array attribute into a buffer with room for some elements, `p` of which are there: a read of
  -- all writes all elements in their order, or fails for space if they do not fit; a read of one writes the
  -- element at the index if there is room, or fails with the constraint error beyond the end; a read of none
  -- writes nothing.
  pub read_array-ReadsArray : (xs p : List A) → length p ≤ capacity → ReadsArray xs p
  unfolding read_array
  read_array-ReadsArray xs p h = record {
    all_fit = λ k. read_all_fits xs p k;
    all_full = λ k. read_all_full xs p k h;
    one_found = λ i k room. let (x, e) = get_elem?-lt xs i k in (x, e, rw e (ground (arith, room)));
    one_missing = λ i k. rw (get_elem?-ge xs i k) refl;
    nothing = refl;
  }

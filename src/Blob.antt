-- ===== src/Blob.antt =====
-- common/utils/blob.h and blob.cpp: the buffer `Blob`. Its children model the views on it, the
-- packed records and the comparison.
pub mod Grow
pub mod Edit
pub mod Factory
pub mod Packed
pub mod Order
mod Tests
use natbuster.Prelude.{
  ℕ, ◌+◌, ◌≤◌, ◌<◌, ◌≡◌, Bool, true, false, not, ◌&&◌, ◌||◌, Option, none, some, List, [], ◌∷◌,
  ◌++◌, ltb, leb, ◌==◌, if◌then◌else◌, length, take, drop, replicate, add32, sub32, u32_mod, assert,
  ◌>>=◌, ◌>>◌,
}
use natbuster.Prelude.Bytes.{splice}

-- The allocated bytes, and the window of them that is in use. A null `_buffer` has no bytes.
pub record Blob : Type 0 where
  pub buffer : List ℕ
  pub pre_gap : ℕ
  pub capacity : ℕ
  pub size : ℕ

-- What `getr` and `size` show: a `ConstBlobView` argument is modelled by these bytes.
abbrev pub bytes : Blob → List ℕ
bytes b = take b.size (drop b.pre_gap b.buffer)

pub record IsValid (b : Blob) : Type 0 where
  pub allocated : length b.buffer ≡ b.capacity
  pub within : b.pre_gap + b.size ≤ b.capacity
  pub word : b.capacity < u32_mod

-- A valid blob that shows exactly these bytes.
pub record Holds (b : Blob) (shown : List ℕ) : Type 0 where
  pub valid : IsValid b
  pub content : bytes b ≡ shown

is_null : List ℕ → Bool
is_null [] = true
is_null (x ∷ xs) = false

unfoldable pub dbg_self_test : Blob → Bool
unfolding is_null
dbg_self_test b =
    (not (is_null b.buffer) || (b.capacity == 0 && b.size == 0))
    && (leb b.pre_gap b.capacity
        && (leb b.size b.capacity && leb (add32 b.pre_gap b.size) b.capacity))

unfoldable pub get_end_gap : Blob → ℕ
get_end_gap b = sub32 (sub32 b.capacity b.pre_gap) b.size

-- `new uint8_t[size]`, zeroed.
unfoldable pub alloc : ℕ → List ℕ
alloc n = replicate n 0

-- A copy that would leave either buffer is undefined behaviour, hence `none`.
unfoldable pub memcpy : List ℕ → ℕ → List ℕ → ℕ → ℕ → Option (List ℕ)
memcpy dst dst_offset src src_offset n =
    if leb (dst_offset + n) (length dst) && leb (src_offset + n) (length src)
    then some (splice dst dst_offset (take n (drop src_offset src)))
    else none

unfoldable pub bufcpy : List ℕ → ℕ → ℕ → List ℕ → ℕ → ℕ → ℕ → Option (List ℕ)
unfolding memcpy
bufcpy dst dst_capacity dst_offset src src_capacity src_offset data_size = do
  assert (leb (add32 dst_offset data_size) dst_capacity)
  assert (leb (add32 src_offset data_size) src_capacity)
  memcpy dst dst_offset src src_offset data_size

-- `Blob()`
abbrev pub empty : Blob
empty = record { buffer = []; pre_gap = 0; capacity = 0; size = 0 }

-- The size to which one gap grows: twice what is missing if `smart`.
unfoldable pub new_gap : ℕ → ℕ → Bool → ℕ
new_gap gap min_gap smart =
    if ltb gap min_gap then (if smart then add32 min_gap (sub32 min_gap gap) else min_gap) else gap

-- The reallocation in `grow_gap`.
unfoldable pub regrow : Blob → ℕ → ℕ → ℕ → Option Blob
regrow b new_pre_gap new_end_gap new_capacity = do
  new_buffer ←
      bufcpy (alloc new_capacity) new_capacity new_pre_gap b.buffer b.capacity b.pre_gap b.size
  let b' = record b { buffer = new_buffer; capacity = new_capacity; pre_gap = new_pre_gap }
  assert (new_end_gap == get_end_gap b')
  some b'

unfoldable pub grow_gap : Blob → ℕ → ℕ → Bool → Option Blob
grow_gap b min_pre_gap min_end_gap smart = do
  assert (dbg_self_test b)
  let new_pre_gap = new_gap b.pre_gap min_pre_gap smart
  let new_end_gap = new_gap (get_end_gap b) min_end_gap smart
  let new_capacity = add32 (add32 new_pre_gap b.size) new_end_gap
  b' ← if ltb b.capacity new_capacity then regrow b new_pre_gap new_end_gap new_capacity else some b
  assert (dbg_self_test b')
  assert (leb min_pre_gap b'.pre_gap)
  assert (leb min_end_gap (get_end_gap b'))
  some b'

abbrev pub grow_end_gap : Blob → ℕ → Bool → Option Blob
grow_end_gap b min_end_gap smart = grow_gap b 0 min_end_gap smart

abbrev pub grow_pre_gap : Blob → ℕ → Bool → Option Blob
grow_pre_gap b min_pre_gap smart = grow_gap b min_pre_gap 0 smart

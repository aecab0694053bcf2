-- ===== src/Blob/Edit.antt =====
-- `Blob::resize`, `resize_min`, `capacity_min`, `copy_from`, `add_blob_before`, `add_blob_after`,
-- `sandwich`, `erase`, `clear` and the move of common/utils/blob.h and blob.cpp.
pub mod Splices
pub mod Resize
pub mod Copy
pub mod Joins
use natbuster.Prelude.{
  ℕ, ◌+◌, ◌-◌, ◌≡◌, Bool, true, false, Option, none, some, List, [], ◌++◌, ltb, leb, ◌==◌,
  if◌then◌else◌, length, add32, sub32, assert, ◌>>=◌, ◌>>◌, ◌^◌,
}
use natbuster.Blob.{
  Blob, bytes, empty, dbg_self_test, get_end_gap, grow_gap, grow_end_gap, grow_pre_gap, bufcpy,
}

-- `new_start` is an `int32_t`: its bit pattern, negative from 2^31 on. `-new_start` and the sums
-- with unsigned words are taken on the patterns.
unfoldable pub resize_from : Blob → ℕ → ℕ → Option Blob
resize_from b new_start new_end = do
  assert (dbg_self_test b)
  let min_pre_gap = if leb (2 ^ 31) new_start then sub32 0 new_start else 0
  let min_end_gap = if ltb new_end b.size then 0 else sub32 new_end b.size
  b' ← grow_gap b min_pre_gap min_end_gap true
  let b'' = record b' { pre_gap = add32 b'.pre_gap new_start; size = sub32 new_end new_start }
  assert (dbg_self_test b'')
  some b''

unfoldable pub resize : Blob → ℕ → Option Blob
resize b new_end = resize_from b 0 new_end

unfoldable pub resize_min : Blob → ℕ → Option Blob
resize_min b min_len =
    if ltb b.size min_len
    then (do b' ← grow_end_gap b (sub32 min_len b.size) true; some (record b' { size = min_len }))
    else some b

unfoldable pub capacity_min : Blob → ℕ → Option Blob
capacity_min b min_cap =
    if ltb b.capacity min_cap then grow_end_gap b (sub32 min_cap b.size) true else some b

-- The bytes that go into the buffer at an index of it.
unfoldable pub put_bytes : Blob → ℕ → List ℕ → Option Blob
put_bytes b offset src = do
  buffer ← bufcpy b.buffer b.capacity offset src (length src) 0 (length src)
  some (record b { buffer = buffer })

unfoldable pub copy_from : Blob → List ℕ → ℕ → Option Blob
copy_from b src dst_offset = do
  b' ← resize_min b (add32 dst_offset (length src))
  assert (leb (length src) (sub32 b'.size dst_offset))
  put_bytes b' (add32 dst_offset b'.pre_gap) src

unfoldable pub add_blob_before : Blob → List ℕ → Option Blob
add_blob_before b other = do
  assert (dbg_self_test b)
  b' ← grow_pre_gap b (length other) true
  assert (leb (length other) b'.pre_gap)
  b'' ← put_bytes b' (sub32 b'.pre_gap (length other)) other
  let out = record b'' {
    pre_gap = sub32 b''.pre_gap (length other);
    size = add32 (length other) b''.size;
  }
  assert (dbg_self_test out)
  some out

unfoldable pub add_blob_after : Blob → List ℕ → Option Blob
add_blob_after b other = do
  assert (dbg_self_test b)
  b' ← grow_end_gap b (length other) true
  assert (leb (add32 (add32 b'.pre_gap b'.size) (length other)) b'.capacity)
  b'' ← put_bytes b' (add32 b'.pre_gap b'.size) other
  let out = record b'' { size = add32 b''.size (length other) }
  assert (dbg_self_test out)
  some out

unfoldable pub sandwich : Blob → List ℕ → List ℕ → Option Blob
sandwich b left right = do
  assert (dbg_self_test b)
  b' ← grow_gap b (length left) (length right) true
  assert (leb (length left) b'.pre_gap)
  assert (leb (length right) (get_end_gap b'))
  b1 ← put_bytes b' (sub32 b'.pre_gap (length left)) left
  b2 ← put_bytes b1 (add32 b1.pre_gap b1.size) right
  let out = record b2 {
    pre_gap = sub32 b2.pre_gap (length left);
    size = add32 (add32 (length left) b2.size) (length right);
  }
  assert (dbg_self_test out)
  some out

-- `memset(_buffer, _capacity, 0)`: the count, the last argument, is 0, so no byte is written.
unfoldable pub erase : Blob → Blob
erase b = b

unfoldable pub clear : Blob → Blob
clear b = empty

-- `Blob(Blob&&)` and `operator=(Blob&&)`: the new value of the target and of the source.
unfoldable pub move : Blob → Blob × Blob
move other = (other, empty)

-- ===== src/Blob/Packed.antt =====
-- `PackedBlobWriter` and `PackedBlobReader` of common/utils/blob.h: records of bytes, each behind
-- its size in four bytes, little-endian as on the machines that the program is built for.
pub mod Write
pub mod Read
pub mod RoundTrip
use natbuster.Prelude.{
  ℕ, ◌+◌, ◌≤◌, ◌≡◌, Bool, Option, none, some, List, [], ◌∷◌, ◌++◌, ltb, leb, if◌then◌else◌, length,
  take, drop, add32, sub32, assert, ◌>>=◌, ◌>>◌,
}
use natbuster.Prelude.Bytes.{le32, read32}
use natbuster.Blob.{Blob, bytes, memcpy}
use natbuster.Blob.Edit.{resize, copy_from}

-- `_ConstBlobView::cslice`: the bytes of the new slice.
unfoldable pub cslice : List ℕ → ℕ → ℕ → Option (List ℕ)
cslice view start len = do
  assert (leb (add32 start len) (length view))
  some (take len (drop start view))

unfoldable pub cslice_left : List ℕ → ℕ → Option (List ℕ)
cslice_left view split = do assert (leb split (length view)); cslice view 0 split

unfoldable pub cslice_right : List ℕ → ℕ → Option (List ℕ)
cslice_right view split = do
  assert (leb split (length view))
  cslice view split (sub32 (length view) split)

-- The blob behind `_dst` belongs to the state, since every call writes to it.
pub record Writer : Type 0 where
  pub write_cursor : ℕ
  pub dst : Blob

unfoldable pub writer : Blob → Writer
writer dst = record { write_cursor = dst.size; dst = dst }

-- `*(uint32_t*)(_dst.getw() + at) = n`
unfoldable pub store32 : Blob → ℕ → ℕ → Option Blob
store32 b at n = do
  buffer ← memcpy b.buffer (b.pre_gap + at) (le32 n) 0 4
  some (record b { buffer = buffer })

unfoldable pub add_record : Writer → List ℕ → Option Writer
add_record w view = do
  dst1 ← resize w.dst (add32 (add32 w.write_cursor 4) (length view))
  dst2 ← copy_from dst1 view (add32 w.write_cursor 4)
  dst3 ← store32 dst2 w.write_cursor (length view)
  some (record { write_cursor = add32 (add32 w.write_cursor 4) (length view); dst = dst3 })

pub record Reader : Type 0 where
  pub read_cursor : ℕ
  pub src : List ℕ

unfoldable pub reader : List ℕ → Reader
reader src = record { read_cursor = 0; src = src }

-- The reader after the call, and the new slice if the call returns true.
unfoldable pub next_record : Reader → Option (Reader × Option (List ℕ))
next_record r =
    if ltb (length r.src) (add32 r.read_cursor 4)
    then some (r, none)
    else let record_size = read32 (drop r.read_cursor r.src) in
      if ltb (sub32 (length r.src) (add32 4 r.read_cursor)) record_size
      then some (r, none)
      else (cslice r.src (add32 r.read_cursor 4) record_size >>= λ new_slice.
          some
            (record r { read_cursor = add32 (add32 r.read_cursor 4) record_size }, some new_slice))

unfoldable pub eof : Reader → Option Bool
eof r = do assert (leb r.read_cursor (length r.src)); some (leb (length r.src) r.read_cursor)

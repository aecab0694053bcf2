-- ===== src/Blob/Tests.antt =====
-- The theorems about the buffer of common/utils/blob.h, applied to a buffer of four bytes that
-- shows two.
use natbuster.Prelude.{ℕ, ◌≡◌, refl, true, Option, some, List, [], ◌∷◌, ◌++◌, arith, length}
use natbuster.Prelude.Bytes.{le32}
use natbuster.Blob.{Blob, IsValid, bytes, grow_gap, empty}
use natbuster.Blob.Grow.{Grown, grow_gap_lem}
use natbuster.Blob.Order.{equal, spaceship, spaceship_loop, three_way, Sorted}
use natbuster.Blob.Packed.{Writer, writer, Reader, reader, next_record}
use natbuster.Blob.Packed.Read.{Read, pack, frame, read_all, next_record_safe, next_record-frame}
use natbuster.Blob.Packed.RoundTrip.{write_all, read_all-write_all}

abbrev two_bytes : Blob
two_bytes = record { buffer = 0 ∷ 7 ∷ 8 ∷ 0 ∷ []; pre_gap = 1; capacity = 4; size = 2 }

two_bytes-IsValid : IsValid two_bytes
two_bytes-IsValid = record { allocated = refl; within = omega arith; word = omega arith }

abbrev other : List ℕ
other = 1 ∷ 2 ∷ 3 ∷ []

grow_gap_example : (b' : Blob) × (grow_gap two_bytes 5 6 true ≡ some b') × Grown two_bytes b' 5 6
grow_gap_example = grow_gap_lem two_bytes 5 6 true two_bytes-IsValid (omega arith)

abbrev started : Writer
started = record { write_cursor = 2; dst = two_bytes }

abbrev short_record : Reader
short_record = record { read_cursor = 1; src = 0 ∷ 9 ∷ 0 ∷ 0 ∷ 0 ∷ 5 ∷ [] }

next_record_safe_example :
    (out : Reader × Option (List ℕ)) × (next_record short_record ≡ some out) × Read short_record out
next_record_safe_example = next_record_safe short_record (omega arith) (omega arith)

eleven_bytes : length ((6 ∷ 6 ∷ []) ++ (frame other ++ (5 ∷ []))) ≡ 10
unfolding le32
eleven_bytes = refl

next_record-frame_example :
    next_record (record { read_cursor = 2; src = (6 ∷ 6 ∷ []) ++ (frame other ++ (5 ∷ [])) })
    ≡ some (record { read_cursor = 9; src = (6 ∷ 6 ∷ []) ++ (frame other ++ (5 ∷ [])) }, some other)
next_record-frame_example =
    next_record-frame (6 ∷ 6 ∷ []) other (5 ∷ []) (omega (arith, eleven_bytes))

packed_length : length (pack (other ∷ [] ∷ [])) ≡ 11
unfolding le32
packed_length = refl

read_all-write_all_example :
    (w : Writer) × (write_all (writer empty) (other ∷ [] ∷ []) ≡ some w)
    × (read_all 3 (reader (bytes w.dst))
        ≡ some (other ∷ [] ∷ [], record { read_cursor = length (bytes w.dst); src = bytes w.dst }))
read_all-write_all_example = read_all-write_all (other ∷ [] ∷ []) (omega (arith, packed_length))

same_run : spaceship other other ≡ equal
unfolding spaceship spaceship_loop three_way
same_run = refl

prefix_run : Sorted (1 ∷ 2 ∷ []) other
unfolding spaceship spaceship_loop three_way
prefix_run = refl

next_run : Sorted other (1 ∷ 3 ∷ [])
unfolding spaceship spaceship_loop three_way
next_run = refl

-- ===== src/Blob/Edit/Joins.antt =====
-- Bytes joined to a blob: `add_blob_before`, `add_blob_after` and `sandwich`.
use natbuster.Prelude.{
  ℕ, ◌+◌, ◌-◌, ◌*◌, ◌≤◌, ◌<◌, ◌≡◌, ap, ◌∙◌, true, some, List, ◌++◌, arith, length, u32_mod,
}
use natbuster.Prelude.Bytes.{splice, length-splice}
use natbuster.Blob.{Blob, IsValid, Holds, bytes}
use natbuster.Blob.Grow.{grow_gap_lem, dbg_self_test_of_IsValid, get_end_gap-eq}
use natbuster.Blob.Edit.{add_blob_before, add_blob_after, sandwich}
use natbuster.Blob.Edit.Splices.{put_bytes_lem, window-append, window-prepend}

-- The write behind the bytes in use, of a blob with room there.
module _ (b : Blob) (v : IsValid b) (o : List ℕ)
    (room : b.pre_gap + b.size + length o ≤ b.capacity) where
  abbrev appended : Blob
  appended = record b { buffer = splice b.buffer (b.pre_gap + b.size) o; size = b.size + length o }

  appended-Holds : Holds appended (bytes b ++ o)
  appended-Holds = record {
    valid = record {
      allocated = length-splice b.buffer (b.pre_gap + b.size) o (omega arith) ∙ v.allocated;
      within = omega arith;
      word = v.word;
    };
    content = window-append b.buffer b.pre_gap b.size o (omega arith);
  }

module _ (b : Blob) (v : IsValid b) (o : List ℕ) (room : length o ≤ b.pre_gap) where
  abbrev prepended : Blob
  prepended = record b {
    buffer = splice b.buffer (b.pre_gap - length o) o;
    pre_gap = b.pre_gap - length o;
    size = length o + b.size;
  }

  prepended-Holds : Holds prepended (o ++ bytes b)
  prepended-Holds = record {
    valid = record {
      allocated = length-splice b.buffer (b.pre_gap - length o) o (omega arith) ∙ v.allocated;
      within = omega arith;
      word = v.word;
    };
    content = window-prepend b.buffer b.pre_gap b.size o room (omega arith);
  }

-- `add_blob_after` on a valid blob succeeds while the sizes stay below 2^32, and the result shows
-- the old bytes followed by those of `other`.
pub add_blob_after_lem :
    (b : Blob) (other : List ℕ)
    → IsValid b
    → b.capacity + 2 * length other < u32_mod
    → (b' : Blob) × (add_blob_after b other ≡ some b') × Holds b' (bytes b ++ other)
unfolding add_blob_after
add_blob_after_lem b other v h =
    let (g, e, p) = grow_gap_lem b 0 (length other) true v (omega arith) in
    let done = appended-Holds g p.valid other p.end_room in
    (
      appended g p.valid other p.end_room,
      ground (
        arith,
        e,
        dbg_self_test_of_IsValid b v,
        done,
        put_bytes_lem g (g.pre_gap + g.size) other p.valid.allocated p.valid.word p.end_room,
        dbg_self_test_of_IsValid (appended g p.valid other p.end_room) done.valid,
      ),
      record { valid = done.valid; content = done.content ∙ ap (λ k. k ++ other) p.same_bytes },
    )

-- `add_blob_before` on a valid blob succeeds while the sizes stay below 2^32, and the result shows
-- the bytes of `other` followed by the old ones.
pub add_blob_before_lem :
    (b : Blob) (other : List ℕ)
    → IsValid b
    → b.capacity + 2 * length other < u32_mod
    → (b' : Blob) × (add_blob_before b other ≡ some b') × Holds b' (other ++ bytes b)
unfolding add_blob_before
add_blob_before_lem b other v h =
    let (g, e, p) = grow_gap_lem b (length other) 0 true v (omega arith) in
    let done = prepended-Holds g p.valid other p.pre_room in
    (
      prepended g p.valid other p.pre_room,
      ground (
        arith,
        e,
        dbg_self_test_of_IsValid b v,
        done,
        p.pre_room,
        put_bytes_lem g (g.pre_gap - length other) other p.valid.allocated p.valid.word
            (omega (arith, p.valid.within, p.pre_room)),
        dbg_self_test_of_IsValid (prepended g p.valid other p.pre_room) done.valid,
      ),
      record { valid = done.valid; content = done.content ∙ ap (λ k. other ++ k) p.same_bytes },
    )

-- `sandwich` on a valid blob succeeds while the sizes stay below 2^32, and the result shows the
-- bytes of `left`, the old ones and those of `right`.
pub sandwich_lem :
    (b : Blob) (left right : List ℕ)
    → IsValid b
    → b.capacity + 2 * length left + 2 * length right < u32_mod
    → (b' : Blob) × (sandwich b left right ≡ some b') × Holds b' (left ++ bytes b ++ right)
unfolding sandwich
sandwich_lem b left right v h =
    let (g, e, p) = grow_gap_lem b (length left) (length right) true v h in
    let g1 : Blob = record g { buffer = splice g.buffer (g.pre_gap - length left) left } in
    let pre : Blob = prepended g p.valid left p.pre_room in
    let pre_holds : Holds pre (left ++ bytes g) = prepended-Holds g p.valid left p.pre_room in
    let room : pre.pre_gap + pre.size + length right ≤ pre.capacity =
      omega (arith, p.end_room, p.pre_room) in
    let done = appended-Holds pre pre_holds.valid right room in
    (
      appended pre pre_holds.valid right room,
      ground (
        arith,
        e,
        dbg_self_test_of_IsValid b v,
        p.pre_room,
        p.end_room,
        get_end_gap-eq g p.valid,
        pre_holds.valid.allocated,
        put_bytes_lem g (g.pre_gap - length left) left p.valid.allocated p.valid.word
            (omega (arith, p.valid.within, p.pre_room)),
        put_bytes_lem g1 (g.pre_gap + g.size) right pre_holds.valid.allocated p.valid.word
            (omega (arith, p.end_room)),
        dbg_self_test_of_IsValid (appended pre pre_holds.valid right room) done.valid,
      ),
      record {
        valid = done.valid;
        content =
            done.content
            ∙ ap (λ k. k ++ right) (pre_holds.content ∙ ap (λ k. left ++ k) p.same_bytes);
      },
    )

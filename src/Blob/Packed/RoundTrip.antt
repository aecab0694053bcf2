-- ===== src/Blob/Packed/RoundTrip.antt =====
-- Records that were written one after another are read back.
use natbuster.Prelude.{
  ℕ, ◌+◌, ◌*◌, ◌≤◌, ◌<◌, ◌≡◌, refl, ap, sym, ◌∙◌, Option, some, List, [], ◌∷◌, ◌++◌, arith, length,
  u32_mod, length-append, append_assoc, append-nil, ◌>>=◌,
}
use natbuster.Prelude.Bytes.{length-le32, le32}
use natbuster.Blob.{IsValid, Holds, bytes, empty}
use natbuster.Blob.Grow.{length-bytes}
use natbuster.Blob.Packed.{Writer, writer, add_record, reader}
use natbuster.Blob.Packed.Write.{add_record_lem}
use natbuster.Blob.Packed.Read.{frame, pack, read_all, read_all-pack}

unfoldable pub write_all : Writer → List (List ℕ) → Option Writer
write_all w [] = some w
write_all w (d ∷ ds) = add_record w d >>= λ w'. write_all w' ds

-- A writer at the end of a valid blob, with room for `total` bytes below 2^32.
pub record IsReady (w : Writer) (total : ℕ) : Type 0 where
  pub valid : IsValid w.dst
  pub at_end : w.write_cursor ≡ w.dst.size
  pub fits : w.dst.size ≤ total
  pub gap_word : w.dst.pre_gap + 5 * total < u32_mod
  pub word : w.dst.capacity + 3 * total < u32_mod

-- Writing records appends their packed form.
pub write_all_lem :
    (ds : List (List ℕ)) (w : Writer)
    → IsReady w (w.dst.size + length (pack ds))
    → (w' : Writer) × (write_all w ds ≡ some w') × Holds w'.dst (bytes w.dst ++ pack ds)
unfolding write_all
write_all_lem [] w r =
    (w, refl, record { valid = r.valid; content = sym (append-nil (bytes w.dst)) })
write_all_lem (d ∷ ds) w r =
    let la = length-append (frame d) (pack ds) in
    let lb = length-append (le32 (length d)) d in
    let lc = length-le32 (length d) in
    let (w1, e, p, c, g, b) = add_record_lem w d r.valid r.at_end (omega (arith, r, la, lb, lc)) in
    let grown : w1.dst.size ≡ w.dst.size + length (frame d) = omega (
      arith,
      length-bytes w1.dst p.valid,
      length-bytes w.dst r.valid,
      ap length p.content,
      length-append (bytes w.dst) (frame d),
    ) in
    let (w', run, q) = write_all_lem ds w1 (record {
      valid = p.valid;
      at_end = c;
      fits = omega arith;
      gap_word = omega (arith, r, la, grown, g);
      word = omega (arith, r, la, lb, lc, grown, b);
    }) in
    (
      w',
      rw e run,
      record {
        valid = q.valid;
        content =
            q.content
            ∙ ap (λ k. k ++ pack ds) p.content
            ∙ append_assoc (bytes w.dst) (frame d) (pack ds);
      },
    )

pub empty-IsReady : (n : ℕ) → 5 * n < u32_mod → IsReady (writer empty) n
unfolding writer
empty-IsReady n h = record {
  valid = omega arith;
  at_end = refl;
  fits = omega arith;
  gap_word = omega arith;
  word = omega arith;
}

-- Any records, written into an empty blob and read back from its bytes, come out as they went in,
-- and the reader then stands at the end. (Five times the packed size is below 2^32.)
pub read_all-write_all :
    (ds : List (List ℕ))
    → 5 * (length (pack ds) + 1) < u32_mod
    → (w : Writer) × (write_all (writer empty) ds ≡ some w)
      × (read_all (length ds + 1) (reader (bytes w.dst))
          ≡ some (ds, record { read_cursor = length (bytes w.dst); src = bytes w.dst }))
unfolding reader writer
read_all-write_all ds h =
    let (w, run, q) =
      write_all_lem ds (writer empty) (empty-IsReady (0 + length (pack ds)) (omega arith)) in
    (w, run, rw q.content (read_all-pack ds (length ds + 1) [] (omega arith) (omega arith)))
